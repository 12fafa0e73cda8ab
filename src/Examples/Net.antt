-- ===== src/Examples/Net.antt =====
-- The theorems on the upload at concrete inputs.
use cross_platform_benchmark.Prelude.{
  zero, Bool, suc, ◌*◌, ◌^◌, ℕ, ◌+◌, ◌≤◌, ◌≡◌, refl, true, false, List, [], ◌∷◌, ◌++◌, ◌<◌, Option,
  none, some, Bytes, codes, length, All, arith, subst,
}
use cross_platform_benchmark.Http.File.{private_file}
use cross_platform_benchmark.Http.Outcome.{Outcome, done}
use cross_platform_benchmark.Http.Url.{
  Url, url_split, all_visible, scheme, host_part, plain_host, port_part, target_part,
}
use cross_platform_benchmark.Http.Url.Safe.{IsSafe, url_split-IsSafe}
use cross_platform_benchmark.Http.Chunks.{crlf, chunks_complete, dechunk}
use cross_platform_benchmark.Http.Chunks.Framing.{
  Chunk, IsChunk, IsXdigit, encode, last_chunk, payloads, dechunk-encode,
}
use cross_platform_benchmark.Http.Shell.{shell_safe}
use cross_platform_benchmark.Http.Socket.{Connect, Address, dial, Sent, send_all}
use cross_platform_benchmark.Http.Socket.Deliver.{dial_balanced, left_open, send_all_lem}
use cross_platform_benchmark.Http.Reply.{Received}
use cross_platform_benchmark.Http.Reply.{Reply}
use cross_platform_benchmark.Http.Reply.Total.{IsPeer}
use cross_platform_benchmark.Http.Post.Total.{IsBounded, http_post_json-total}
use cross_platform_benchmark.Http.Chunks.Total.{dechunk-total}
use cross_platform_benchmark.Http.Post.{Network, Curl, request_head, post_via_curl, http_post_json}
use cross_platform_benchmark.Http.Post.Request.{
  feeds, token_lines, request_head-lines, IsSafeRun, post_via_curl_safe,
}
use cross_platform_benchmark.Submit.{
  Hub, url_encode, copy_trimmed, print_reply, submit_document, full_label, variant_tag, max_notes,
  run_url, concluded,
}
use cross_platform_benchmark.Submit.Encode.{IsQueryByte, decoded, encoded, url_encode-decoded}
use cross_platform_benchmark.Submit.Label.{IsTrimmed, copy_trimmed_lem, submit_document-posts}
use cross_platform_benchmark.Submit.Count.{IsCounted, submit_document-IsCounted}
use cross_platform_benchmark.Submit.Show.{IsShown, print_reply-IsShown}

abbrev hub_url : Bytes
hub_url = codes "http://h.io:80/api"

abbrev hub_parts : Url
hub_parts = record { tls = false; host = codes "h.io"; port = codes "80"; target = codes "/api" }

hub_split : url_split hub_url ≡ done hub_parts
unfolding url_split all_visible scheme host_part plain_host port_part target_part
hub_split = refl

url_split-IsSafe_example : IsSafe hub_parts
url_split-IsSafe_example = url_split-IsSafe hub_url hub_parts hub_split

hub_parts-IsSafe : IsSafe hub_parts
hub_parts-IsSafe = url_split-IsSafe hub_url hub_parts hub_split

abbrev two_chunks : List Chunk
two_chunks =
    record { size = codes "3"; payload = codes "abc" }
    ∷ record { size = codes "02"; payload = codes "de" }
    ∷ []

starts-empty : {c : ℕ} {s : Bytes} → ◌≡◌ {A = Bytes} (c ∷ s) [] → ⊥
starts-empty e = subst (λ (t : Bytes). elim t [ [] ↦ ⊥ | x ∷ xs ↦ Unit ]) e tt

two_chunks-IsChunk : All IsChunk two_chunks
two_chunks-IsChunk = (
  record {
    digits = (refl, tt);
    sized = λ e. absurd (starts-empty e);
    exact = refl;
    some_data = omega arith;
    kept = omega arith;
  },
  (
    record {
      digits = (refl, (refl, tt));
      sized = λ e. absurd (starts-empty e);
      exact = refl;
      some_data = omega arith;
      kept = omega arith;
    },
    tt,
  ),
)

dechunk-encode_example :
    (chunks_complete (encode two_chunks last_chunk) ≡ some true)
    × (dechunk (encode two_chunks last_chunk) ≡ some (payloads two_chunks))
    × ((ds : Bytes)
        → All IsXdigit ds
        → (chunks_complete (encode two_chunks ds) ≡ some false)
          × (chunks_complete (encode two_chunks (ds ++ 13 ∷ [])) ≡ some false))
    × ((c : Chunk) (d : Bytes)
        → IsChunk c
        → length d < length c.payload + 2
        → chunks_complete (encode two_chunks (c.size ++ (crlf ++ d))) ≡ some false)
dechunk-encode_example = dechunk-encode two_chunks two_chunks-IsChunk

abbrev slow : Connect
slow = record { at_once = false; in_progress = true; writable = true; error = false }

abbrev refused : Connect
refused = record { at_once = false; in_progress = true; writable = true; error = true }

abbrev two_addresses : Option (List Address)
two_addresses =
    some
      (record { socket = true; connect = refused } ∷ record { socket = true; connect = slow } ∷ [])

dial_balanced_example : let d = dial two_addresses in d.opened ≡ d.closed + left_open d.connected
dial_balanced_example = dial_balanced two_addresses

-- A socket that takes two bytes at a time.
abbrev by_two : ℕ → Bytes → ℕ
by_two n p = 2

send_all_lem_example :
    (s : Sent) × (back : Bytes) × (send_all by_two (codes "hello") ≡ some s)
    × (codes "hello" ≡ s.taken ++ back)
    × (s.ok ≡ true → s.taken ≡ codes "hello")
send_all_lem_example = send_all_lem by_two (codes "hello")

request_head-lines_example :
    feeds (request_head hub_parts (codes "tok") 17) ≡ 7 + token_lines (codes "tok")
unfolding shell_safe
request_head-lines_example = request_head-lines hub_parts (codes "tok") 17 hub_parts-IsSafe refl

abbrev pub tmp : Curl
tmp = record {
  files = record { tmpdir = some []; made = some (codes "aB3xY9"); opens = true };
  config_written = true;
  started = true;
  wrote = 2;
  exit_code = 0;
  alloc = true;
}

post_via_curl_safe_example :
    IsSafeRun
      (private_file tmp.files 512)
      (post_via_curl tmp (codes "https://h/") (codes "tok") (codes "{}"))
post_via_curl_safe_example = post_via_curl_safe tmp (codes "https://h/") (codes "tok") (codes "{}")

abbrev label : Bytes
label = codes "my board & co"

url_encode-decoded_example :
    (out : Bytes) × (url_encode label 601 ≡ some out) × All IsQueryByte out × (decoded out ≡ label)
url_encode-decoded_example = url_encode-decoded label 601 (omega arith) (omega arith)

copy_trimmed_lem_example : IsTrimmed 5 label (copy_trimmed 5 label)
copy_trimmed_lem_example = copy_trimmed_lem 5 label (omega arith)

abbrev escape : Bytes
escape = 27 ∷ codes "[2J ok\n"

print_reply-IsShown_example :
    All IsShown (print_reply escape) × (length (print_reply escape) ≤ 4100)
print_reply-IsShown_example = print_reply-IsShown escape

abbrev offline : Network
offline = record {
  addresses = none;
  send_head = by_two;
  send_body = by_two;
  recv = λ n k. Received.bytes [];
  alloc_first = true;
  alloc = λ n. true;
  alloc_body = true;
  rounds = 9;
}

abbrev pub board : Hub
board = record { hub = codes "http://h.io/"; token = codes "tok"; label = label; notes = [] }

submit_document-posts_example :
    submit_document true offline tmp board 0 (codes "{}") (codes "scalar-fma") ≡ (
      let url =
        run_url board.hub
          (encoded (full_label board.label (variant_tag (codes "scalar-fma"))))
          (encoded (copy_trimmed (max_notes + 1) board.notes).text) in
      concluded 0 url (http_post_json offline tmp url board.token (codes "{}")))
submit_document-posts_example =
    submit_document-posts offline tmp board 0 (codes "{}") (codes "scalar-fma")

submit_document-IsCounted_example :
    IsCounted 3 (submit_document true offline tmp board 3 (codes "{}") (codes "scalar-fma"))
submit_document-IsCounted_example =
    submit_document-IsCounted true offline tmp board 3 (codes "{}") (codes "scalar-fma")

-- Text that no encoder writes.
abbrev garbled : Bytes
garbled = codes " -0xZ\r\n7\r\nab"

dechunk-total_example :
    ((b : Bool) × (chunks_complete garbled ≡ some b))
    × ((out : Bytes) × (dechunk garbled ≡ some out) × (length out ≤ length garbled))
dechunk-total_example = dechunk-total garbled

-- A peer that sends a byte at a time and never hangs up.
abbrev pub dripping : ℕ → ℕ → Received
dripping k zero = Received.closed
dripping k (suc room) = Received.bytes (b'x' ∷ [])

pub dripping-IsPeer : IsPeer dripping
dripping-IsPeer k zero = tt
dripping-IsPeer k (suc room) = (omega arith, omega arith)

abbrev pub online : Network
online = record offline { addresses = two_addresses; recv = dripping; rounds = 256 * 2 ^ 10 }

http_post_json-total_example :
    (r : Outcome Reply) × (http_post_json online tmp hub_url (codes "tok") (codes "{}") ≡ some r)
    × IsBounded r
http_post_json-total_example =
    http_post_json-total online tmp hub_url (codes "tok") (codes "{}") dripping-IsPeer (omega arith)
