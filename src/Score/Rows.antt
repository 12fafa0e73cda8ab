-- ===== src/Score/Rows.antt =====
-- The total of a run's rows in bench/src/bench.c: `aggregate`.
use cross_platform_benchmark.Prelude.{
  ℕ, ◌+◌, ◌≤◌, ◌≡◌, inl, inr, refl, ap₂, ◌∙◌, Bool, true, false, List, [], ◌∷◌, All, foldl, ltb,
  Bool-cases, arith,
}
use cross_platform_benchmark.Score.{Double, Result, MhzSrc, rank}
use cross_platform_benchmark.Score.Suite.{
  Sums, aggregate, add_row, no_sums, finish, has_cap, lacks_cap, total_status, counted, weaker,
}

-- How many rows pass a test.
abbrev pub count {ℓ} : {A : Type ℓ} → (A → Bool) → List A → ℕ
count p [] = 0
count p (x ∷ xs) = counted (p x) (count p xs)

nothing_added : (n : ℕ) → 0 + n ≡ n
nothing_added n = omega arith

counted_add : (b : Bool) (n m : ℕ) → counted b n + m ≡ n + counted b m
counted_add true n m = omega arith
counted_add false n m = refl

weaker_bounds : (a b : MhzSrc) → (rank a ≤ rank (weaker a b)) × (rank b ≤ rank (weaker a b))
weaker_bounds a b = elim (Bool-cases (ltb (rank a) (rank b))) [
  | inl t ↦ rw t ((ground arith), (omega arith))
  | inr f ↦ rw f (omega arith, ground arith)
]

module _ {D : Type 0} (F : Double D) where
  sums_caps :
      (rows : List (Result D)) (s : Sums D)
      → ((foldl (add_row F) s rows).cap_n ≡ s.cap_n + count (has_cap F) rows)
        × ((foldl (add_row F) s rows).cap_none ≡ s.cap_none + count (lacks_cap F) rows)
  unfolding add_row
  sums_caps [] s = (omega arith, omega arith)
  sums_caps (r ∷ rows) s =
      let ih = sums_caps rows (add_row F s r) in
      (
        omega (arith, ih.0, counted_add (has_cap F r) s.cap_n (count (has_cap F) rows)),
        omega (arith, ih.1, counted_add (lacks_cap F r) s.cap_none (count (lacks_cap F) rows)),
      )

  -- The total's status: a capacity if a row has one, else that there is none if a row says so, else
  -- that nothing was measured.
  pub aggregate-disp_status :
      (rows : List (Result D))
      → (aggregate F rows).disp_status
        ≡ total_status (count (has_cap F) rows) (count (lacks_cap F) rows)
  unfolding aggregate finish no_sums
  aggregate-disp_status rows =
      let caps = sums_caps rows (no_sums F) in
      ap₂ total_status (caps.0 ∙ nothing_added _) (caps.1 ∙ nothing_added _)

  sums_src :
      (rows : List (Result D)) (s : Sums D)
      → (rank s.tot.mhz_src ≤ rank (foldl (add_row F) s rows).tot.mhz_src)
        × All (λ r. rank r.mhz_src ≤ rank (foldl (add_row F) s rows).tot.mhz_src) rows
  unfolding add_row
  sums_src [] s = (omega arith, tt)
  sums_src (r ∷ rows) s =
      let ih = sums_src rows (add_row F s r) in
      let w = weaker_bounds s.tot.mhz_src r.mhz_src in
      (omega (arith, ih.0, w.0), (omega (arith, ih.0, w.1), ih.1))

  -- The total's clock is trusted no more than that of any row.
  pub aggregate-mhz_src :
      (rows : List (Result D)) → All (λ r. rank r.mhz_src ≤ rank (aggregate F rows).mhz_src) rows
  unfolding aggregate finish no_sums
  aggregate-mhz_src rows = (sums_src rows (no_sums F)).1
