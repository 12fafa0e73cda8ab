-- ===== src/Submit/Count.antt =====
-- `g_submit_errors` and the return value of `submit_document` in bench/src/bench.c.
use cross_platform_benchmark.Prelude.{
  ℕ, ◌+◌, ◌*◌, ◌≡◌, Bool, true, false, not, ◌&&◌, Option, none, some, Bytes, if◌then◌else◌,
  if-cases, arith, codes, ◌++◌,
}
use cross_platform_benchmark.Http.Outcome.{Outcome, done, failed}
use cross_platform_benchmark.Http.Reply.{Reply}
use cross_platform_benchmark.Http.Post.{Network, Curl, http_post_json}
use cross_platform_benchmark.Submit.{
  Hub, Submitted, submit_failed, answered, concluded, submit_encoded, submit_document,
  status_within, run_url, full_label, variant_tag, url_encode, copy_trimmed, max_label, max_notes,
  is_empty, print_reply,
}

-- An upload that returned 0 counts nothing; any other counts one error.
abbrev pub IsCounted : ℕ → Option Submitted → Type 0
IsCounted errors none = Unit
IsCounted errors (some r) = r.errors ≡ errors + (if r.ok then 0 else 1)

failed-IsCounted :
    (errors : ℕ) (url : Option Bytes) (text : Bytes)
    → IsCounted errors (some (submit_failed errors url text))
unfolding submit_failed
failed-IsCounted errors url text = omega arith

answered-IsCounted :
    (errors : ℕ) (url : Bytes) (r : Reply) → IsCounted errors (some (answered errors url r))
answered-IsCounted errors url r =
    let P = λ (s : Submitted). IsCounted errors (some s) in
    if-cases P (status_within 200 300 r.status) (λ _. omega arith)
      (λ _.
        if-cases P (status_within 300 400 r.status && not (is_empty r.location))
          (λ _.
            failed-IsCounted errors (some url)
              (codes "the hub redirected the upload to " ++ print_reply r.location))
          (λ _.
            failed-IsCounted errors (some url)
              (codes "hub refused the upload: " ++ print_reply r.body)))

concluded-IsCounted :
    (errors : ℕ) (url : Bytes) (o : Option (Outcome Reply))
    → IsCounted errors (concluded errors url o)
concluded-IsCounted errors url none = tt
concluded-IsCounted errors url (some (failed e)) =
    failed-IsCounted errors (some url) (codes "submit failed: " ++ e)
concluded-IsCounted errors url (some (done r)) = answered-IsCounted errors url r

encoded-IsCounted :
    (alloc : Bool) (net : Network) (curl : Curl) (g : Hub) (errors : ℕ) (doc : Bytes)
    (l n : Option Bytes)
    → IsCounted errors (submit_encoded alloc net curl g errors doc l n)
encoded-IsCounted alloc net curl g errors doc none n =
    failed-IsCounted errors none (codes "submit: label or notes too long")
encoded-IsCounted alloc net curl g errors doc (some l) none =
    failed-IsCounted errors none (codes "submit: label or notes too long")
encoded-IsCounted true net curl g errors doc (some l) (some n) =
    let url = run_url g.hub l n in
    concluded-IsCounted errors url (http_post_json net curl url g.token doc)
encoded-IsCounted false net curl g errors doc (some l) (some n) =
    failed-IsCounted errors none (codes "submit: out of memory")

-- Every end of an upload: the count of errors goes up by one exactly if the upload does not return 0.
pub submit_document-IsCounted :
    (alloc : Bool) (net : Network) (curl : Curl) (g : Hub) (errors : ℕ) (doc variant : Bytes)
    → IsCounted errors (submit_document alloc net curl g errors doc variant)
unfolding submit_document
submit_document-IsCounted alloc net curl g errors doc variant =
    encoded-IsCounted alloc net curl g errors doc
      (url_encode (full_label g.label (variant_tag variant)) (max_label * 3 + 1))
      (url_encode (copy_trimmed (max_notes + 1) g.notes).text (max_notes * 3 + 1))
