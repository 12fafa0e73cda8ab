-- ===== src/Emit/Buffer/Grown.antt =====
-- The buffer of a document in bench/src/bench.c through its growth.
use cross_platform_benchmark.Prelude.{
  ℕ, zero, suc, ◌+◌, ◌-◌, ◌*◌, ◌^◌, ◌<◌, ◌≤◌, ◌≡◌, ◌⊎◌, inl, inr, refl, ap, ◌∙◌, sym, subst, Bool,
  true, false, List, [], ◌∷◌, ◌++◌, Bytes, ltb, leb, ◌==◌, if◌then◌else◌, if-cases, length,
  length-append, append_assoc, append-nil, u64, arith,
}
use native.Mathlib.Numerals.{unary_clauses}
use cross_platform_benchmark.Emit.{concat}
use cross_platform_benchmark.Emit.Buffer.{Sink, no_sink, grow, attempts, jout, jouts}

pow_suc : (want fuel : ℕ) → want * 2 * 2 ^ fuel ≡ want * 2 ^ suc fuel
pow_suc want fuel = simp unary_clauses (omega arith)

-- Enough doublings make room, without a wrap-around.
grow-room :
    (fuel need want : ℕ) → need ≤ 2 ^ 63 → need ≤ want * 2 ^ fuel → need ≤ grow fuel need want
unfolding grow
grow-room zero need want small h = omega arith
grow-room (suc fuel) need want small h =
    if-cases (λ x. need ≤ x) (ltb want need)
      (λ t.
        let lt : want < need = ground arith in
        let wrap : u64 (want * 2) ≡ want * 2 = omega arith in
        subst (λ w. need ≤ grow fuel need w) (sym wrap)
          (grow-room fuel need (want * 2) small
            (subst (λ x. need ≤ x) (sym (pow_suc want fuel)) h)))
      (λ f. ground arith)

-- All of the text was kept, or an allocation failed and the flag says so.
abbrev Kept : (ℕ → Bool) → Bytes → Sink → Type 0
Kept realloc text b =
    ((b.oom ≡ false) × (b.text ≡ text)) ⊎ ((b.oom ≡ true) × ((n : ℕ) × (realloc n ≡ false)))

attempts_fit :
    (realloc : ℕ → Bool) (s : Bytes) (left : ℕ) (b : Sink)
    → b.oom ≡ false
    → length s < 2 ^ 31
    → length b.text + length s < b.cap
    → attempts realloc s (suc left) b ≡ record b { text = b.text ++ s }
unfolding attempts
attempts_fit realloc s left b e short fits =
    let int : leb (2 ^ 31) (length s) ≡ false = ground arith in
    let room : ltb (length s) (b.cap - length b.text) ≡ true = ground arith in
    rw (e, int, room) refl

-- The room that is asked for.
abbrev wanted : Sink → ℕ → ℕ
wanted b n = grow 64 (length b.text + n + 1) (if b.cap == 0 then 8192 else b.cap)

-- An attempt of a buffer that is still whole.
attempts_step :
    (realloc : ℕ → Bool) (s : Bytes) (left : ℕ) (b : Sink)
    → b.oom ≡ false
    → leb (2 ^ 31) (length s) ≡ false
    → attempts realloc s (suc left) b ≡ (
        if ltb (length s) (b.cap - length b.text)
        then record b { text = b.text ++ s }
        else if realloc (wanted b (length s))
        then attempts realloc s left (record b { cap = wanted b (length s) })
        else record b { oom = true })
unfolding attempts
attempts_step realloc s left b e int = rw (e, int) refl

wanted-room : (b : Sink) (n : ℕ) → length b.text + n < 2 ^ 63 → length b.text + n + 1 ≤ wanted b n
wanted-room b n small =
    grow-room 64 (length b.text + n + 1) (if b.cap == 0 then 8192 else b.cap) (omega arith)
      (ground arith)

jout-Kept :
    (realloc : ℕ → Bool) (s : Bytes) (b : Sink)
    → b.oom ≡ false
    → length s < 2 ^ 31
    → length b.text + length s < 2 ^ 63
    → Kept realloc (b.text ++ s) (jout realloc b s)
unfolding jout
jout-Kept realloc s b e short small =
    let int : leb (2 ^ 31) (length s) ≡ false = ground arith in
    let P : Sink → Type 0 = Kept realloc (b.text ++ s) in
    let want = wanted b (length s) in
    let room : length b.text + length s < want = omega (arith, wanted-room b (length s) small) in
    let fit = attempts_fit realloc s 0 (record b { cap = want }) e short room in
    subst P (sym (attempts_step realloc s 1 b e int)) (
      if-cases P (ltb (length s) (b.cap - length b.text)) (λ _. inl (e, refl))
        (λ _.
          if-cases P (realloc want) (λ _. subst P (sym fit) (inl (e, refl)))
            (λ refused. inr (refl, (want, refused)))))

-- Once an allocation has failed the flag stays.
jouts-oom :
    (realloc : ℕ → Bool) (ps : List Bytes) (b : Sink)
    → b.oom ≡ true
    → (jouts realloc ps b).oom ≡ true
unfolding jout attempts
jouts-oom realloc [] b e = e
jouts-oom realloc (p ∷ ps) b e = jouts-oom realloc ps (jout realloc b p) (rw e refl)

-- After any calls whose text fits into memory: the buffer holds all of the text, or an allocation failed.
jouts-Kept :
    (realloc : ℕ → Bool) (ps : List Bytes) (b : Sink)
    → b.oom ≡ false
    → length (concat ps) < 2 ^ 31
    → length b.text + length (concat ps) < 2 ^ 63
    → Kept realloc (b.text ++ concat ps) (jouts realloc ps b)
jouts-Kept realloc [] b e short small = inl (e, sym (append-nil b.text))
jouts-Kept realloc (p ∷ ps) b e short small =
    let b' = jout realloc b p in
    let lengths = length-append p (concat ps) in
    elim (jout-Kept realloc p b e (omega (arith, lengths)) (omega (arith, lengths))) [
      | inl (e', t) ↦
          let room : length b'.text + length (concat ps) < 2 ^ 63 =
            omega (arith, lengths, length-append b.text p, ap length t) in
          subst (λ x. Kept realloc x (jouts realloc ps b'))
            (ap (λ x. x ++ concat ps) t ∙ append_assoc b.text p (concat ps))
            (jouts-Kept realloc ps b' e' (omega (arith, lengths)) room)
      | inr (o, refused) ↦ inr (jouts-oom realloc ps b' o, refused)
    ]

-- A document printed into a new buffer, of less than 2 GiB: unless an allocation fails, and then the
-- flag is set, the buffer holds the texts of all calls in their order, so that nothing is cut where the
-- buffer was grown.
pub jouts-text :
    (realloc : ℕ → Bool) (ps : List Bytes)
    → length (concat ps) < 2 ^ 31
    → (((jouts realloc ps no_sink).oom ≡ false) × ((jouts realloc ps no_sink).text ≡ concat ps))
      ⊎ (((jouts realloc ps no_sink).oom ≡ true) × ((n : ℕ) × (realloc n ≡ false)))
jouts-text realloc ps short = jouts-Kept realloc ps no_sink refl short (omega arith)
