-- ===== src/Http/Post/Request.antt =====
-- What leaves the program for a hub: the lines of a request, and the command that the shell reads.
use cross_platform_benchmark.Prelude.{
  ℕ, ◌+◌, ◌<◌, ◌≤◌, ◌≡◌, ◌⊎◌, inl, inr, refl, true, false, not, ◌&&◌, ◌||◌, [], ◌∷◌, ◌++◌, none,
  some, Bytes, codes, length, All, decimal, decimal_digits_lem, Bool-cases, has_char, if-cases,
  not-true, ◌==◌, leb, if◌then◌else◌, arith,
}
use cross_platform_benchmark.Http.Url.{Url}
use cross_platform_benchmark.Http.Url.Safe.{IsSafe, IsVisible}
use cross_platform_benchmark.Http.Shell.{
  shell_safe, token_extra, IsUnreserved, shell_safe-IsUnreserved,
}
use cross_platform_benchmark.Http.File.{File, opened, refused, undone, private_file}
use cross_platform_benchmark.Http.Post.{
  request_head, authorization, Curl, CurlRun, curl_upload, curl_command, curl_ended, path_extra,
  at_file, post_via_curl,
}

not-leb : (a b : ℕ) → leb a b ≡ false → b < a
not-leb a b h = ground arith

-- How many line feeds a text holds.
abbrev pub feeds : Bytes → ℕ
feeds [] = 0
feeds (c ∷ s) = (if c == 10 then 1 else 0) + feeds s

feeds-append : (xs ys : Bytes) → feeds (xs ++ ys) ≡ feeds xs + feeds ys
feeds-append [] ys = omega arith
feeds-append (x ∷ xs) ys = omega (arith, feeds-append xs ys)

feeds-zero : (xs : Bytes) → All (λ c. 10 < c) xs → feeds xs ≡ 0
feeds-zero [] h = refl
feeds-zero (x ∷ xs) h = ground (arith, feeds-zero xs)

visible_feeds : (xs : Bytes) → All IsVisible xs → feeds xs ≡ 0
visible_feeds [] h = refl
visible_feeds (x ∷ xs) h = ground (arith, visible_feeds xs)

digit_feeds : (xs : Bytes) → All (λ c. (b'0' ≤ c) × (c ≤ b'9')) xs → feeds xs ≡ 0
digit_feeds [] h = refl
digit_feeds (x ∷ xs) h = ground (arith, digit_feeds xs)

unreserved_feeds : (xs : Bytes) → All IsUnreserved xs → feeds xs ≡ 0
unreserved_feeds [] h = refl
unreserved_feeds (x ∷ xs) h = ground (arith, unreserved_feeds xs)

-- One line for the token, if there is one.
abbrev pub token_lines : Bytes → ℕ
token_lines [] = 0
token_lines (c ∷ s) = 1

feeds-authorization :
    (token : Bytes)
    → shell_safe token token_extra ≡ true
    → feeds (authorization token) ≡ token_lines token
unfolding authorization
feeds-authorization [] h = refl
feeds-authorization (c ∷ s) h = omega (
  arith,
  feeds-append (c ∷ s) (13 ∷ 10 ∷ []),
  unreserved_feeds (c ∷ s) (shell_safe-IsUnreserved (c ∷ s) h),
)

-- With a URL that was accepted and a token that passed the test, the request head has the lines that
-- its format has and no other: neither the URL nor the token can add a header.
pub request_head-lines :
    (u : Url) (token : Bytes) (len : ℕ)
    → IsSafe u
    → shell_safe token token_extra ≡ true
    → feeds (request_head u token len) ≡ 7 + token_lines token
unfolding request_head
request_head-lines u token len safe h =
    let t1 = codes " HTTP/1.1\r\nHost: " in
    let t2 =
      codes "\r\nUser-Agent: cpcpub/1\r\nContent-Type: application/json\r\nContent-Length: " in
    let t3 = codes "\r\nConnection: close\r\n" in
    let e : Bytes = authorization token ++ (13 ∷ 10 ∷ []) in
    let d : Bytes = decimal len ++ (t3 ++ e) in
    let g : Bytes = u.host ++ (t2 ++ d) in
    omega (
      arith,
      feeds-append (codes "POST ") (u.target ++ (t1 ++ g)),
      feeds-append u.target (t1 ++ g),
      feeds-append t1 g,
      feeds-append u.host (t2 ++ d),
      feeds-append t2 d,
      feeds-append (decimal len) (t3 ++ e),
      feeds-append t3 e,
      feeds-append (authorization token) (13 ∷ 10 ∷ []),
      visible_feeds u.target safe.target_visible,
      visible_feeds u.host safe.host_visible,
      digit_feeds (decimal len) (decimal_digits_lem len),
      feeds-authorization token h,
    )

-- A run removed the file if it created one, and the shell got no command but the fixed one with a
-- path that passed the test.
pub record IsSafeRun (file : File) (run : CurlRun) : Type 0 where
  pub removes : run.removed ≡ run.created
  pub commands :
      (run.command ≡ none)
      ⊎ ((p : Bytes) × (run.command ≡ some (curl_command p))
          × (file ≡ opened p)
          × (shell_safe p path_extra ≡ true)
          × (length (curl_command p) < 1024))

no_command :
    (o : File) (run : CurlRun) → run.removed ≡ run.created → run.command ≡ none → IsSafeRun o run
no_command o run r e = record { removes = r; commands = inl e }

fixed_command :
    (p : Bytes) (run : CurlRun)
    → run.removed ≡ run.created
    → run.command ≡ some (curl_command p)
    → shell_safe p path_extra ≡ true
    → leb 1024 (length (curl_command p)) ≡ false
    → IsSafeRun (opened p) run
fixed_command p run r e h l = record {
  removes = r;
  commands = inr (p, e, refl, h, not-leb 1024 (length (curl_command p)) l);
}

curl_upload_safe :
    (c : Curl) (p url token body : Bytes) → IsSafeRun (opened p) (curl_upload c p url token body)
unfolding curl_upload curl_ended
curl_upload_safe c p url token body =
    let P = IsSafeRun (opened p) in
    let fixed = fixed_command p in
    if-cases P (not c.config_written) (λ _. no_command _ _ refl refl)
      (λ _.
        if-cases P (not (shell_safe p path_extra)) (λ _. no_command _ _ refl refl)
          (λ h.
            if-cases P (leb 1024 (length (curl_command p))) (λ _. no_command _ _ refl refl)
              (λ l.
                let s = not-true (shell_safe p path_extra) h in
                if-cases P (not c.started) (λ _. fixed _ refl refl s l)
                  (λ _.
                    if-cases P (not (c.wrote == length body && c.exit_code == 0))
                      (λ _. fixed _ refl refl s l)
                      (λ _.
                        if-cases P (not c.alloc) (λ _. fixed _ refl refl s l)
                          (λ _. fixed _ refl refl s l))))))

at_file_safe :
    (c : Curl) (o : File) (url token body : Bytes)
    → IsSafeRun o (at_file o (λ p. curl_upload c p url token body))
at_file_safe c (refused e) url token body = no_command (refused e) _ refl refl
at_file_safe c (undone e) url token body = no_command (undone e) _ refl refl
at_file_safe c (opened p) url token body = curl_upload_safe c p url token body

-- Whatever the file system, the shell and curl answer: a run through curl removes the configuration
-- file if it has created it, and if it gives the shell a command, this is the fixed one with the path
-- of the private file, the path passed the test, and the command has fewer than 1024 bytes.
pub post_via_curl_safe :
    (c : Curl) (url token body : Bytes)
    → IsSafeRun (private_file c.files 512) (post_via_curl c url token body)
unfolding post_via_curl
post_via_curl_safe c url token body = elim (Bool-cases (has_char b'"' url || has_char b'\\' url)) [
  | inl t ↦ rw t (no_command (private_file c.files 512) _ refl refl)
  | inr f ↦ rw f (at_file_safe c (private_file c.files 512) url token body)
]
