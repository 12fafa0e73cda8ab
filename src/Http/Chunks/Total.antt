-- ===== src/Http/Chunks/Total.antt =====
-- The fuel of the two walks over a chunked body in bench/src/http.c.
use cross_platform_benchmark.Prelude.{
  ℕ, zero, suc, ◌+◌, ◌<◌, ◌≤◌, Bool, true, false, not, ◌&&◌, ◌||◌, [], ◌∷◌, ◌++◌, Bytes, Option,
  some, ◌≡◌, refl, length, length-append, length-take, length-drop, drop, take, arith, find_str,
  strtoul16, Parsed, after_xdigits, starts_xdigit, skip_space, after_sign, after_prefix, if-cases,
  ltb, starts_with, if◌then◌else◌, true-false, sym, ◌==◌, Option-cases, not-true,
}
use mathlib.Core.Logic.{inl, inr}
use cross_platform_benchmark.Http.Chunks.{
  crlf, max_reply, complete_step, complete_loop, chunks_complete, dechunk_step, dechunk_loop,
  dechunk,
}

skip_space-shrinks : (s : Bytes) → length (skip_space s) ≤ length s
skip_space-shrinks [] = omega arith
skip_space-shrinks (c ∷ s) = ground (arith, skip_space-shrinks s)

after_xdigits-shrinks : (s : Bytes) → length (after_xdigits s) ≤ length s
after_xdigits-shrinks [] = omega arith
after_xdigits-shrinks (c ∷ s) = ground (arith, after_xdigits-shrinks s)

after_xdigits-any : (s : Bytes) → starts_xdigit s ≡ true → length (after_xdigits s) < length s
after_xdigits-any [] h = absurd (true-false (sym h))
after_xdigits-any (c ∷ s) h = rw h (omega (arith, after_xdigits-shrinks s))

after_sign-shrinks : (s : Bytes) → length (after_sign s) ≤ length s
after_sign-shrinks [] = omega arith
after_sign-shrinks (c ∷ s) = ground arith

after_prefix-shrinks : (s : Bytes) → length (after_prefix s) ≤ length s
after_prefix-shrinks [] = omega arith
after_prefix-shrinks (z ∷ []) = omega arith
after_prefix-shrinks (z ∷ x ∷ s) =
    if-cases (λ t. length t ≤ length (z ∷ x ∷ s))
      (z == b'0' && (x == b'x' || x == b'X') && starts_xdigit s) {x = s} {y = z ∷ x ∷ s}
      (λ _. omega arith) (λ _. omega arith)

-- What follows a number that was read.
strtoul16-shrinks : (s : Bytes) → (strtoul16 s).any ≡ true → length (strtoul16 s).rest < length s
unfolding strtoul16
strtoul16-shrinks s =
    let t = skip_space s in
    let d = after_prefix (after_sign t) in
    if-cases (λ (p : Parsed ℕ). p.any ≡ true → length p.rest < length s) (starts_xdigit d)
      (λ h _. omega (
        arith,
        after_xdigits-any d h,
        after_prefix-shrinks (after_sign t),
        after_sign-shrinks t,
        skip_space-shrinks s,
      ))
      (λ _ h. absurd (true-false (sym h)))

-- What a walk has come to: an answer with a property.
abbrev pub Gives : {A : Type 0} → (A → Type 0) → Option A → Type 0
Gives {A} P x = (a : A) × (x ≡ some a) × P a

complete_loop-total :
    (fuel : ℕ) (rest : Bytes) → length rest < fuel → Gives (λ _. Unit) (complete_loop fuel rest)
unfolding complete_loop complete_step
complete_loop-total zero rest h = elim h [ ]
complete_loop-total (suc fuel) rest h = elim (Option-cases (find_str crlf rest)) [
  | inl e ↦ rw e (false, refl, tt)
  | inr (eol, e) ↦ rw e (
      let n = (strtoul16 rest).value in
      let P = Gives {A = Bool} (λ _. Unit) in
      if-cases P (not (starts_xdigit rest)) (λ _. (true, refl, tt))
        (λ _.
          if-cases P (n == 0) (λ _. (true, refl, tt))
            (λ _.
              if-cases P (ltb max_reply n) (λ _. (true, refl, tt))
                (λ _.
                  if-cases P (ltb (length rest) (eol + 2 + n + 2)) (λ _. (false, refl, tt))
                    (λ g.
                      complete_loop-total fuel (drop (eol + 2 + n + 2) rest)
                        (ground (arith, length-drop (eol + 2 + n + 2) rest)))))))
]

dechunk_loop-total :
    (fuel : ℕ) (rest out : Bytes)
    → length rest < fuel
    → Gives (λ t. length t ≤ length out + length rest) (dechunk_loop fuel rest out)
unfolding dechunk_loop dechunk_step
dechunk_loop-total zero rest out h = elim h [ ]
dechunk_loop-total (suc fuel) rest out h =
    let P = Gives {A = Bytes} (λ t. length t ≤ length out + length rest) in
    let size = strtoul16 rest in
    let here : P (some out) = (out, refl, omega arith) in
    if-cases P (not size.any) (λ _. here)
      (λ any. elim (Option-cases (find_str crlf size.rest)) [
        | inl e ↦ rw e here
        | inr (nl, e) ↦ rw e (
            let from = drop (nl + 2) size.rest in
            let n = size.value in
            let after = drop n from in
            if-cases P (n == 0) (λ _. here)
              (λ _.
                if-cases P (ltb (length from) n) (λ _. here)
                  (λ enough.
                    let rest' = if starts_with crlf after then drop 2 after else after in
                    let less : length rest' ≤ length after =
                      if-cases (λ t. length t ≤ length after) (starts_with crlf after)
                        {x = drop 2 after} {y = after} (λ _. omega (arith, length-drop 2 after))
                        (λ _. omega arith) in
                    let read = strtoul16-shrinks rest (not-true size.any any) in
                    let cut = length-drop (nl + 2) size.rest in
                    let cut' = length-drop n from in
                    let taken = length-take n from in
                    let grown = length-append out (take n from) in
                    let ih = dechunk_loop-total fuel rest' (out ++ take n from) (omega arith) in
                    (ih.0, ih.1, ground arith))))
      ])

-- On any bytes both walks over a chunked body come to an end within the fuel given, one byte of the
-- body a round, and the decoded body is no longer than the body.
pub dechunk-total :
    (body : Bytes)
    → ((b : Bool) × (chunks_complete body ≡ some b))
      × ((out : Bytes) × (dechunk body ≡ some out) × (length out ≤ length body))
unfolding chunks_complete dechunk
dechunk-total body =
    let whole = complete_loop-total (suc (length body)) body (omega arith) in
    let cut = dechunk_loop-total (suc (length body)) body [] (omega arith) in
    ((whole.0, whole.1), (cut.0, cut.1, omega (arith, cut.2)))
