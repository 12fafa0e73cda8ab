-- ===== src/Clock/Caches.antt =====
-- The largest cache and the warning about the working set in bench/src/bench.c.
use cross_platform_benchmark.Prelude.{
  ℕ, zero, suc, ◌+◌, ◌*◌, ◌%◌, ◌^◌, ◌≤◌, ◌<◌, Bool, true, false, Option, none, some, ltb, ◌==◌,
  if◌then◌else◌, ◌≡◌, refl, sym, subst, ◌⊎◌, inl, inr, if-cases, Bool-cases, arith, ◌≢◌, ap, ◌∙◌,
}
use cross_platform_benchmark.Score.{Double}
use cross_platform_benchmark.Clock.{
  Files, cache_bytes, larger, llc_loop, detect_llc_bytes, warn_if_working_set_small,
}

-- A test that gives no warning.
quiet_total :
    {A : Type 0} (per_thread llc total : ℕ) (x : A)
    → per_thread ≢ 0
    → llc * 2 < 2 ^ 64
    → (if per_thread == 0
        then none
        else if llc == 0
        then none
        else if ltb total (llc * 2 % 2 ^ 64)
        then some x
        else none)
      ≡ none
    → llc * 2 ≤ total
quiet_total per_thread llc total x given fits quiet = ground arith

module _ {D : Type 0} (F : Double D) (sys : Files D) where
  -- The size of one of the caches of these indices.
  abbrev IsCache : ℕ → ℕ → ℕ → Type 0
  IsCache n i bytes = (j : ℕ) × (i ≤ j) × (j < i + n) × (cache_bytes F sys j ≡ some bytes)

  larger_le : (o : Option ℕ) (best : ℕ) → best ≤ larger F sys o best
  larger_le none best = omega arith
  larger_le (some bytes) best = ground arith

  llc_loop_le : (n i best : ℕ) → best ≤ llc_loop F sys n i best
  unfolding llc_loop
  llc_loop_le zero i best = omega arith
  llc_loop_le (suc n) i best =
      let o = cache_bytes F sys i in
      omega (arith, larger_le o best, llc_loop_le n (suc i) (larger F sys o best))

  larger-some : (bytes best : ℕ) → bytes ≤ larger F sys (some bytes) best
  larger-some bytes best = ground arith

  llc_loop_upper :
      (n i best j bytes : ℕ)
      → i ≤ j
      → j < i + n
      → cache_bytes F sys j ≡ some bytes
      → bytes ≤ llc_loop F sys n i best
  unfolding llc_loop
  llc_loop_upper zero i best j bytes lo hi e = absurd (omega arith)
  llc_loop_upper (suc n) i best j bytes lo hi e = elim (Bool-cases (i == j)) [
    | inl same ↦
        let here : cache_bytes F sys i ≡ some bytes =
          subst (λ k. cache_bytes F sys k ≡ some bytes) (ground arith) e in
        rw here (
          omega
            (arith, larger-some bytes best, llc_loop_le n (suc i) (larger F sys (some bytes) best)))
    | inr later ↦ llc_loop_upper n (suc i) _ j bytes (ground arith) (omega arith) e
  ]

  larger_cases :
      (o : Option ℕ) (best : ℕ) → (larger F sys o best ≡ best) ⊎ (o ≡ some (larger F sys o best))
  larger_cases none best = inl refl
  larger_cases (some bytes) best =
      if-cases (λ r. (r ≡ best) ⊎ (some bytes ≡ some r)) (ltb best bytes) (λ _. inr refl)
        (λ _. inl refl)

  -- The best so far, or one of the caches that are left.
  llc_loop_attained :
      (n i best : ℕ) → (llc_loop F sys n i best ≡ best) ⊎ IsCache n i (llc_loop F sys n i best)
  unfolding llc_loop
  llc_loop_attained zero i best = inl refl
  llc_loop_attained (suc n) i best =
      let next = larger F sys (cache_bytes F sys i) best in
      elim (llc_loop_attained n (suc i) next) [
        | inl e ↦ elim (larger_cases (cache_bytes F sys i) best) [
          | inl kept ↦ inl (e ∙ kept)
          | inr here ↦ inr (i, omega arith, omega arith, here ∙ ap some (sym e))
        ]
        | inr (j, lo, hi, e) ↦ inr (j, omega arith, omega arith, e)
      ]

  -- The last-level cache is the largest of the caches that the sixteen files tell of, and 0 only where
  -- none of them tells of more.
  pub detect_llc_bytes-largest :
      ((j bytes : ℕ) → j < 16 → cache_bytes F sys j ≡ some bytes → bytes ≤ detect_llc_bytes F sys)
      × ((detect_llc_bytes F sys ≡ 0)
          ⊎ ((j : ℕ) × (j < 16) × (cache_bytes F sys j ≡ some (detect_llc_bytes F sys))))
  unfolding detect_llc_bytes
  detect_llc_bytes-largest = (
    λ j bytes h e. llc_loop_upper 16 0 0 j bytes (omega arith) (omega arith) e,
    elim (llc_loop_attained 16 0 0) [
      | inl e ↦ inl e
      | inr (j, lo, hi, e) ↦ inr (j, omega arith, e)
    ],
  )

  -- Where there is a working set and no warning is given, and neither the sum over the threads nor twice
  -- the last-level cache overflows, the working set in all is at least twice as large as every cache that
  -- the files tell of.
  pub warn_if_working_set_small-covers :
      (per_thread threads : ℕ) (per_core : Bool)
      → per_thread ≢ 0
      → per_thread * threads < 2 ^ 64
      → detect_llc_bytes F sys * 2 < 2 ^ 64
      → warn_if_working_set_small F sys per_thread threads per_core ≡ none
      → (j bytes : ℕ) → j < 16
      → cache_bytes F sys j ≡ some bytes
      → bytes * 2 ≤ (if per_core then per_thread else per_thread * threads)
  unfolding warn_if_working_set_small
  warn_if_working_set_small-covers per_thread threads true given small fits quiet j bytes h e =
      omega (
        arith,
        detect_llc_bytes-largest.0 j bytes h e,
        quiet_total per_thread (detect_llc_bytes F sys) per_thread _ given fits quiet,
      )
  warn_if_working_set_small-covers per_thread threads false given small fits quiet j bytes h e =
      let total = per_thread * threads % 2 ^ 64 in
      omega (
        arith,
        detect_llc_bytes-largest.0 j bytes h e,
        quiet_total per_thread (detect_llc_bytes F sys) total _ given fits quiet,
      )
