-- ===== src/Score/Best.antt =====
-- The order on measurements in bench/src/bench.c: what is kept of repeated runs. Of the comparisons
-- it is asked that `<` is transitive and irreflexive, and that `x < y` excludes `y <= x`; those of
-- doubles have this, NaN included.
use cross_platform_benchmark.Prelude.{
  ◌≡◌, inl, inr, sym, ◌∙◌, true, false, List, [], ◌∷◌, All, foldl, Bool-cases, true-false,
}
use cross_platform_benchmark.Score.{Double, of, is_positive, keep_best_rate, keep_best_lat}

module _ {D : Type 0} (F : Double D) where
  -- Facts about the comparisons of doubles.
  pub record IsOrder : Type 0 where
    pub lt_trans : (x y z : D) → F.lt x y ≡ true → F.lt y z ≡ true → F.lt x z ≡ true
    pub lt_irrefl : (x : D) → F.lt x x ≡ false
    pub lt-le : (x y : D) → F.lt x y ≡ true → F.le y x ≡ false

  -- `best` is not beaten by `x`.
  abbrev pub Holds : D → D → Type 0
  Holds best x = F.lt best x ≡ false

  -- What was not beaten is not beaten after another candidate.
  rate_step : IsOrder → (best c x : D) → Holds best x → Holds (keep_best_rate F best c) x
  unfolding keep_best_rate
  rate_step o best c x h = elim (Bool-cases (F.lt best c)) [
    | inl t ↦ rw t (elim (Bool-cases (F.lt c x)) [
      | inl u ↦ absurd (true-false (sym (o.lt_trans best c x t u) ∙ h))
      | inr f ↦ f
    ])
    | inr f ↦ rw f h
  ]

  rate_taken : IsOrder → (best c : D) → Holds (keep_best_rate F best c) c
  unfolding keep_best_rate
  rate_taken o best c = elim (Bool-cases (F.lt best c)) [
    | inl t ↦ rw t (o.lt_irrefl c)
    | inr f ↦ rw f f
  ]

  rate_stays :
      IsOrder
      → (cs : List D) (best x : D) → Holds best x
      → Holds (foldl (keep_best_rate F) best cs) x
  rate_stays o [] best x h = h
  rate_stays o (c ∷ cs) best x h =
      rate_stays o cs (keep_best_rate F best c) x (rate_step o best c x h)

  -- The best rate of a series is beaten by none of its candidates, nor by the start.
  pub keep_best_rate-best :
      IsOrder
      → (cs : List D) (best : D)
      → Holds (foldl (keep_best_rate F) best cs) best
        × All (λ c. Holds (foldl (keep_best_rate F) best cs) c) cs
  keep_best_rate-best o [] best = (o.lt_irrefl best, tt)
  keep_best_rate-best o (c ∷ cs) best =
      let best' = keep_best_rate F best c in
      (
        rate_stays o cs best' best (rate_step o best c best (o.lt_irrefl best)),
        (rate_stays o cs best' c (rate_taken o best c), (keep_best_rate-best o cs best').1),
      )

  -- `best` is set and `x` is not below it.
  abbrev IsKept : D → D → Type 0
  IsKept best x = (F.le best (of F 0) ≡ false) × (F.lt x best ≡ false)

  lat_step : IsOrder → (best c x : D) → IsKept best x → IsKept (keep_best_lat F best c) x
  unfolding keep_best_lat
  lat_step o best c x (set, h) = rw set (elim (Bool-cases (is_positive F c)) [
    | inl p ↦ rw p (elim (Bool-cases (F.lt c best)) [
      | inl t ↦ rw t (
        o.lt-le (of F 0) c p,
        elim (Bool-cases (F.lt x c)) [
          | inl u ↦ absurd (true-false (sym (o.lt_trans x c best u t) ∙ h))
          | inr f ↦ f
        ],
      )
      | inr f ↦ rw f (set, h)
    ])
    | inr n ↦ rw n (set, h)
  ])

  lat_taken : IsOrder → (best c : D) → is_positive F c ≡ true → IsKept (keep_best_lat F best c) c
  unfolding keep_best_lat
  lat_taken o best c p =
      let taken : IsKept c c = (o.lt-le (of F 0) c p, o.lt_irrefl c) in
      rw p (elim (Bool-cases (F.le best (of F 0))) [
        | inl z ↦ rw z taken
        | inr n ↦
            rw n (elim (Bool-cases (F.lt c best)) [ inl t ↦ rw t taken | inr f ↦ rw f (n, f) ])
      ])

  lat_stays :
      IsOrder
      → (cs : List D) (best x : D) → IsKept best x
      → IsKept (foldl (keep_best_lat F) best cs) x
  lat_stays o [] best x h = h
  lat_stays o (c ∷ cs) best x h = lat_stays o cs (keep_best_lat F best c) x (lat_step o best c x h)

  -- No positive candidate of a series is below the best latency that is kept of it, whatever the start.
  pub keep_best_lat-best :
      IsOrder
      → (cs : List D) (best : D)
      → All (λ c. is_positive F c ≡ true → F.lt c (foldl (keep_best_lat F) best cs) ≡ false) cs
  keep_best_lat-best o [] best = tt
  keep_best_lat-best o (c ∷ cs) best =
      let best' = keep_best_lat F best c in
      (λ p. (lat_stays o cs best' c (lat_taken o best c p)).1, keep_best_lat-best o cs best')
