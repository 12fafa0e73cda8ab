-- ===== src/Http/Post.antt =====
-- `post_via_socket`, `post_via_curl` and `http_post_json` of bench/src/http.c, over what the system and
-- the peer answer. An error text into which the source prints a system's text or a number is kept
-- without it.
pub mod Request
pub mod Total
use cross_platform_benchmark.Prelude.{
  ℕ, zero, suc, ◌+◌, ◌-◌, Bool, true, false, not, ◌&&◌, ◌||◌, List, [], ◌∷◌, ◌++◌, Option, none,
  some, Bytes, codes, ltb, leb, ◌==◌, if◌then◌else◌, length, has_char, ℤ, pos, decimal, c_string,
}
use cross_platform_benchmark.Http.Outcome.{Outcome, done, failed}
use cross_platform_benchmark.Http.Url.{Url, url_split}
use cross_platform_benchmark.Http.Shell.{shell_safe, token_extra}
use cross_platform_benchmark.Http.Socket.{Address, Dialled, dial, Sent, send_all}
use cross_platform_benchmark.Http.Reply.{Received, Reply, read_reply, parse_reply}
use cross_platform_benchmark.Http.File.{Files, File, opened, refused, undone, private_file}

abbrev eol : Bytes
eol = 13 ∷ 10 ∷ []

-- The header of the token; the empty text is a token that was not given.
unfoldable pub authorization : Bytes → Bytes
authorization [] = []
authorization (c ∷ s) = codes "Authorization: Bearer " ++ ((c ∷ s) ++ eol)

-- What `snprintf` puts into `head`.
unfoldable pub request_head : Url → Bytes → ℕ → Bytes
unfolding authorization
request_head u token len =
    codes "POST "
    ++ (u.target
        ++ (codes " HTTP/1.1\r\nHost: "
            ++ (u.host
                ++ (codes
                      "\r\nUser-Agent: cpcpub/1\r\nContent-Type: application/json\r\nContent-Length: "
                    ++ (decimal len
                        ++ (codes "\r\nConnection: close\r\n" ++ (authorization token ++ eol)))))))

-- The answers of the network: the addresses of the host, how much each `send` of the head and of the
-- body takes, what each `recv` gives, and which allocations succeed. `rounds` bounds the calls of
-- `recv`.
pub record Network : Type 0 where
  pub addresses : Option (List Address)
  pub send_head : ℕ → Bytes → ℕ
  pub send_body : ℕ → Bytes → ℕ
  pub recv : ℕ → ℕ → Received
  pub alloc_first : Bool
  pub alloc : ℕ → Bool
  pub alloc_body : Bool
  pub rounds : ℕ

abbrev was_sent : Option Sent → Bool
was_sent none = false
was_sent (some s) = s.ok

abbrev pub parsed : Bool → Option (Outcome Bytes) → Option (Outcome Reply)
parsed alloc none = none
parsed alloc (some (failed e)) = some (failed e)
parsed alloc (some (done raw)) = parse_reply alloc (c_string raw)

abbrev is_connected : Option ℕ → Bool
is_connected none = false
is_connected (some i) = true

-- `none` means that the reply took more rounds than were given.
unfoldable pub post_via_socket : Network → Url → Bytes → Bytes → Option (Outcome Reply)
post_via_socket net u token body =
    let head = request_head u token (length body) in
    if not (is_connected (dial net.addresses).connected)
    then some (failed (codes "cannot reach the host"))
    else if leb 9000 (length head)
    then some (failed (codes "request headers are too long"))
    else if not (was_sent (send_all net.send_head head))
    then some (failed (codes "sending the result failed"))
    else if not (was_sent (send_all net.send_body body))
    then some (failed (codes "sending the result failed"))
    else parsed net.alloc_body (read_reply net.alloc_first net.alloc net.recv net.rounds)

-- The answers of the file system, the shell and curl, with the exit status that `pclose` reports.
pub record Curl : Type 0 where
  pub files : Files
  pub config_written : Bool
  pub started : Bool
  pub wrote : ℕ
  pub exit_code : ℕ
  pub alloc : Bool

-- What a run did beside its result: the configuration file's text, the command that the shell got, and
-- whether the file was created and removed.
pub record CurlRun : Type 0 where
  pub outcome : Outcome Reply
  pub config : Bytes
  pub command : Option Bytes
  pub created : Bool
  pub removed : Bool

unfoldable pub bearer_line : Bytes → Bytes
bearer_line [] = []
bearer_line (c ∷ s) = codes "header = \"Authorization: Bearer " ++ ((c ∷ s) ++ codes "\"\n")

unfoldable pub curl_config : Bytes → Bytes → Bytes
unfolding bearer_line
curl_config url token =
    codes "url = \""
    ++ (url ++ (codes "\"\nheader = \"Content-Type: application/json\"\n" ++ bearer_line token))

unfoldable pub curl_command : Bytes → Bytes
curl_command path =
    codes "curl -fsS --max-time 30 -X POST --config \""
    ++ (path ++ codes "\" --data-binary @- 1>&2")

-- What may stand in the path of the configuration file.
abbrev pub path_extra : Bytes
path_extra = codes "-._~:/\\ "

-- Every end of a run behind the creation of the file removes it.
pub curl_ended : Bytes → Bytes → Outcome Reply → Option Bytes → CurlRun
curl_ended url token r command = record {
  outcome = r;
  config = curl_config url token;
  command = command;
  created = true;
  removed = true;
}

-- The text of a failed run; 127 is the shell's "no such command".
pub curl_failure : ℕ → Bytes
curl_failure rc =
    if rc == 127
    then codes "https needs curl and there is none on PATH; use an http:// hub, or install curl"
    else codes "curl could not upload"

unfoldable pub curl_upload : Curl → Bytes → Bytes → Bytes → Bytes → CurlRun
unfolding curl_config curl_command curl_ended curl_failure
curl_upload c path url token body =
    let ended = curl_ended url token in
    if not c.config_written
    then ended (failed (codes "cannot write curl's config file")) none
    else if not (shell_safe path path_extra)
    then ended
        (failed (codes "the temporary directory's path has characters a shell would rewrite")) none
    else if leb 1024 (length (curl_command path))
    then ended (failed (codes "the temporary path is too long for the curl fallback")) none
    else if not c.started
    then ended (failed (codes "https needs curl, and it could not be started"))
        (some (curl_command path))
    else if not (c.wrote == length body && c.exit_code == 0)
    then ended (failed (curl_failure c.exit_code)) (some (curl_command path))
    else if not c.alloc
    then ended (failed (codes "out of memory")) (some (curl_command path))
    else ended (done (record { status = pos 201; body = []; location = [] }))
        (some (curl_command path))

abbrev no_file : Bytes → CurlRun
no_file e = record {
  outcome = failed e;
  config = [];
  command = none;
  created = false;
  removed = false;
}

abbrev pub at_file : File → (Bytes → CurlRun) → CurlRun
at_file (refused e) run = no_file e
at_file (undone e) run = record (no_file e) { created = true; removed = true }
at_file (opened path) run = run path

unfoldable pub post_via_curl : Curl → Bytes → Bytes → Bytes → CurlRun
unfolding curl_upload private_file
post_via_curl c url token body =
    if has_char b'"' url || has_char b'\\' url
    then no_file (codes "this https URL has characters the curl fallback will not pass on")
    else at_file (private_file c.files 512) (λ path. curl_upload c path url token body)

abbrev is_given : Bytes → Bool
is_given [] = false
is_given (c ∷ s) = true

unfoldable pub http_post_json : Network → Curl → Bytes → Bytes → Bytes → Option (Outcome Reply)
unfolding post_via_socket post_via_curl
http_post_json net c url token body =
    if is_given token && not (shell_safe token token_extra)
    then some (
        failed (codes "an upload token is letters, digits, '-', '_', '.' and '~'; this one is not"))
    else elim (url_split url) [
      | failed e ↦ some (failed e)
      | done u ↦
          if u.tls
          then some (post_via_curl c url token body).outcome
          else post_via_socket net u token body
    ]
