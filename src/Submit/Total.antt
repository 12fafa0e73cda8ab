-- ===== src/Submit/Total.antt =====
-- The end of an upload of bench/src/bench.c, and its count.
use cross_platform_benchmark.Prelude.{
  ℕ, ◌+◌, ◌*◌, ◌≤◌, Bool, true, false, Bytes, Option, none, some, ◌≡◌, refl, sym, subst,
  if◌then◌else◌,
}
use cross_platform_benchmark.Http.Outcome.{Outcome, done, failed}
use cross_platform_benchmark.Http.Chunks.{max_reply}
use cross_platform_benchmark.Http.Chunks.Total.{Gives}
use cross_platform_benchmark.Http.Reply.{Reply}
use cross_platform_benchmark.Http.Reply.Total.{IsPeer}
use cross_platform_benchmark.Http.Post.{Network, Curl}
use cross_platform_benchmark.Http.Post.Total.{http_post_json-total}
use cross_platform_benchmark.Submit.{
  Hub, Submitted, submit_encoded, submit_document, concluded, run_url, url_encode, full_label,
  variant_tag, copy_trimmed, max_label, max_notes,
}
use cross_platform_benchmark.Submit.Count.{IsCounted, submit_document-IsCounted}

concluded_total :
    (errors : ℕ) (url : Bytes) {o : Option (Outcome Reply)} {r : Outcome Reply}
    → o ≡ some r
    → Gives (λ (s : Submitted). Unit) (concluded errors url o)
concluded_total errors url {r} e =
    subst (λ o. Gives (λ (s : Submitted). Unit) (concluded errors url o)) (sym e) (by_cases r)
  where
    by_cases : (r : Outcome Reply) → Gives (λ (s : Submitted). Unit) (concluded errors url (some r))
    by_cases (failed t) = (_, refl, tt)
    by_cases (done r) = (_, refl, tt)

encoded_total :
    (alloc : Bool) (net : Network) (curl : Curl) (g : Hub) (errors : ℕ) (doc : Bytes)
    (l n : Option Bytes)
    → IsPeer net.recv
    → max_reply ≤ net.rounds
    → Gives (λ (s : Submitted). Unit) (submit_encoded alloc net curl g errors doc l n)
encoded_total alloc net curl g errors doc none n peer enough = (_, refl, tt)
encoded_total alloc net curl g errors doc (some l) none peer enough = (_, refl, tt)
encoded_total false net curl g errors doc (some l) (some n) peer enough = (_, refl, tt)
encoded_total true net curl g errors doc (some l) (some n) peer enough =
    concluded_total errors (run_url g.hub l n)
      (http_post_json-total net curl (run_url g.hub l n) g.token doc peer enough).1

-- What one upload has come to: an end that is counted.
pub submit_document-total :
    (alloc : Bool) (net : Network) (curl : Curl) (g : Hub) (errors : ℕ) (doc variant : Bytes)
    → IsPeer net.recv
    → max_reply ≤ net.rounds
    → (r : Submitted) × (submit_document alloc net curl g errors doc variant ≡ some r)
      × (r.errors ≡ errors + (if r.ok then 0 else 1))
unfolding submit_document
submit_document-total alloc net curl g errors doc variant peer enough =
    let end =
      encoded_total alloc net curl g errors doc
        (url_encode (full_label g.label (variant_tag variant)) (max_label * 3 + 1))
        (url_encode (copy_trimmed (max_notes + 1) g.notes).text (max_notes * 3 + 1)) peer enough in
    let counted = submit_document-IsCounted alloc net curl g errors doc variant in
    (end.0, end.1, subst (λ o. IsCounted errors o) end.1 counted)
