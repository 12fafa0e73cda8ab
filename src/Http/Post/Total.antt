-- ===== src/Http/Post/Total.antt =====
-- The end of an upload through `http_post_json` of bench/src/http.c, over a peer as `IsPeer` says.
use cross_platform_benchmark.Prelude.{
  ◌≤◌, ◌<◌, Bool, not, ◌&&◌, Bytes, codes, Option, some, length, leb, ◌≡◌, refl, sym, subst,
  if-cases, if◌then◌else◌, arith,
}
use cross_platform_benchmark.Http.File.{File, opened, refused, undone, private_file}
use cross_platform_benchmark.Http.Shell.{shell_safe}
use cross_platform_benchmark.Prelude.{has_char, c_string, ◌||◌, ◌==◌}
use cross_platform_benchmark.Http.Outcome.{Outcome, done, failed}
use cross_platform_benchmark.Http.Url.{Url, url_split}
use cross_platform_benchmark.Http.Chunks.{max_reply}
use cross_platform_benchmark.Http.Chunks.Total.{Gives}
use cross_platform_benchmark.Http.Reply.{Reply}
use cross_platform_benchmark.Http.Reply.Total.{
  IsPeer, IsKept, IsShorter, read_reply-total, parse_reply-total, length-c_string, guarded,
}
use cross_platform_benchmark.Http.Post.{
  Network, Curl, parsed, post_via_socket, post_via_curl, http_post_json, CurlRun, curl_upload,
  curl_ended, curl_command, path_extra, at_file,
}

-- A failure, or a reply whose body is shorter than the largest buffer.
abbrev pub IsBounded : Outcome Reply → Type 0
IsBounded (failed e) = Unit
IsBounded (done r) = length r.body < max_reply

parsed-total :
    (alloc : Bool) {o : Option (Outcome Bytes)} → Gives IsKept o → Gives IsBounded (parsed alloc o)
parsed-total alloc {o} (r, e, kept) =
    subst (λ o. Gives IsBounded (parsed alloc o)) (sym e) (by_cases r kept)
  where
    shorter :
        (raw : Bytes) (r : Outcome Reply)
        → length raw < max_reply
        → IsShorter (length (c_string raw)) r
        → IsBounded r
    shorter raw (failed e) k h = tt
    shorter raw (done r) k h = omega (arith, length-c_string raw)

    by_cases : (r : Outcome Bytes) → IsKept r → Gives IsBounded (parsed alloc (some r))
    by_cases (failed e) k = (failed e, refl, tt)
    by_cases (done raw) k =
        let p = parse_reply-total alloc (c_string raw) in (p.0, p.1, shorter raw p.0 k p.2)

post_via_socket-total :
    (net : Network) (u : Url) (token body : Bytes)
    → IsPeer net.recv
    → max_reply ≤ net.rounds
    → Gives IsBounded (post_via_socket net u token body)
unfolding post_via_socket
post_via_socket-total net u token body peer enough = guarded _ (codes "cannot reach the host") tt (
    guarded _ (codes "request headers are too long") tt (
      guarded _ (codes "sending the result failed") tt (
        guarded _ (codes "sending the result failed") tt (
          parsed-total net.alloc_body
            (read_reply-total net.alloc_first net.alloc net.recv net.rounds peer enough)))))

curl_upload-IsBounded :
    (c : Curl) (path url token body : Bytes) → IsBounded (curl_upload c path url token body).outcome
unfolding curl_upload curl_ended
curl_upload-IsBounded c path url token body =
    let P = λ (r : CurlRun). IsBounded r.outcome in
    if-cases P (not c.config_written) (λ _. tt)
      (λ _.
        if-cases P (not (shell_safe path path_extra)) (λ _. tt)
          (λ _.
            if-cases P (leb 1024 (length (curl_command path))) (λ _. tt)
              (λ _.
                if-cases P (not c.started) (λ _. tt)
                  (λ _.
                    if-cases P (not (c.wrote == length body && c.exit_code == 0)) (λ _. tt)
                      (λ _. if-cases P (not c.alloc) (λ _. tt) (λ _. omega arith))))))

at_file-IsBounded :
    (o : File) (run : Bytes → CurlRun)
    → ((path : Bytes) → IsBounded (run path).outcome)
    → IsBounded (at_file o run).outcome
at_file-IsBounded (refused e) run h = tt
at_file-IsBounded (undone e) run h = tt
at_file-IsBounded (opened path) run h = h path

post_via_curl-IsBounded :
    (c : Curl) (url token body : Bytes) → IsBounded (post_via_curl c url token body).outcome
unfolding post_via_curl
post_via_curl-IsBounded c url token body =
    if-cases (λ (r : CurlRun). IsBounded r.outcome) (has_char b'"' url || has_char b'\\' url)
      (λ _. tt)
      (λ _.
        at_file-IsBounded (private_file c.files 512) _
          (λ path. curl_upload-IsBounded c path url token body))

-- Over a peer whose `recv` never gives nothing, nor more than it is offered room for, every upload
-- comes to an end, by a failure or by a reply with a body of fewer than 256 * 2^10 bytes, within that
-- many calls of `recv`.
pub http_post_json-total :
    (net : Network) (c : Curl) (url token body : Bytes)
    → IsPeer net.recv
    → max_reply ≤ net.rounds
    → (r : Outcome Reply) × (http_post_json net c url token body ≡ some r) × IsBounded r
unfolding http_post_json
http_post_json-total net c url token body peer enough = guarded _ _ tt (sent (url_split url))
  where
    sent :
        (o : Outcome Url)
        → Gives IsBounded (elim o [
          | failed e ↦ some (failed e)
          | done u ↦
              if u.tls
              then some (post_via_curl c url token body).outcome
              else post_via_socket net u token body
        ])
    sent (failed e) = (failed e, refl, tt)
    sent (done u) =
        if-cases (Gives IsBounded) u.tls (λ _. (_, refl, post_via_curl-IsBounded c url token body))
          (λ _. post_via_socket-total net u token body peer enough)
