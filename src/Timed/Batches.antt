-- ===== src/Timed/Batches.antt =====
-- The batches that `run_timed` of bench/src/bench.c hands to any kernel.
use cross_platform_benchmark.Prelude.{
  ℕ, zero, suc, ◌+◌, ◌%◌, ◌^◌, ap, ◌≡◌, refl, ◌∙◌, false, List, [], ◌∷◌, All, Option, some, ◌==◌,
  if◌then◌else◌, if-cases, arith, ◌<◌, ◌≤◌, foldl, ltb, ◌&&◌,
}
use cross_platform_benchmark.Score.{Double}
use cross_platform_benchmark.Timed.{Timed, timed_loop, run_timed, next_batch, reported}
use cross_platform_benchmark.Worker.{in_batches, iterations}

-- A batch that is not empty, and whose double is far from the end of 64 bits.
abbrev pub IsBatch : ℕ → Type 0
IsBatch b = ((1 ≤ b) × (b < 2 ^ 31))

module _ {S D : Type 0} (F : Double D) (fn : S → ℕ → S) (now : ℕ → D) where
  abbrev counted : ℕ → ℕ → ℕ
  counted n batch = (n + batch) % 2 ^ 64

  -- The loop ended after some batches.
  abbrev Ends : S → ℕ → Option (D × (ℕ × S)) → Type 0
  Ends ctx iters o =
      (t : D) × (bs : List ℕ) × All IsBatch bs
      × (o ≡ some (t, (foldl counted iters bs, foldl fn ctx bs)))

  next_batch-IsBatch : (b : ℕ) (dt : D) → IsBatch b → IsBatch (next_batch F fn now b dt)
  next_batch-IsBatch b dt (l, r) =
      if-cases IsBatch (F.lt dt (F.literal 4 3) && ltb b (2 ^ 30)) (λ e. ground arith)
        (λ _.
          if-cases IsBatch (F.lt (F.literal 20 3) dt && ltb 1 b) (λ e. ground arith) (λ _. (l, r)))

  timed_loop-Ends :
      (fuel j k : ℕ) (t_end : D) (batch iters : ℕ) (ctx : S)
      → IsBatch batch
      → F.lt (now (k + j)) t_end ≡ false
      → j < fuel
      → Ends ctx iters (timed_loop F fn now fuel (suc k) (now k) t_end batch iters ctx)
  unfolding timed_loop
  timed_loop-Ends zero j k t_end batch iters ctx h late b = absurd (omega arith)
  timed_loop-Ends (suc fuel) zero k t_end batch iters ctx h late b =
      let now_late : F.lt (now k) t_end ≡ false =
        ap (λ (m : ℕ). F.lt (now m) t_end) (omega arith) ∙ late in
      rw now_late (now k, [], tt, refl)
  timed_loop-Ends (suc fuel) (suc j) k t_end batch iters ctx h late b =
      if-cases (Ends ctx iters) (F.lt (now k) t_end)
        (λ _.
          let (t, bs, all, e) =
            timed_loop-Ends fuel j (suc k) t_end
              (next_batch F fn now batch (F.sub (now (suc k)) (now k))) (counted iters batch)
              (fn ctx batch) (next_batch-IsBatch batch _ h)
              (ap (λ (m : ℕ). F.lt (now m) t_end) (omega arith) ∙ late) (omega arith) in
          (t, batch ∷ bs, (h, all), e))
        (λ _. (now k, [], tt, refl))

  -- For any kernel, and a first batch below 2^31: once the clock has reached the end, `run_timed`
  -- returns; the kernel has run some batches, one after the other, each of them of at least one iteration
  -- and fewer than 2^31, so that no doubling wraps around; and the count that it reports is their sum in
  -- 64 bits.
  pub run_timed-batches :
      (fuel j : ℕ) (ctx : S) (seconds : D) (batch_init : ℕ)
      → batch_init < 2 ^ 31
      → F.lt (now j) (F.add (now 0) seconds) ≡ false
      → j < fuel
      → (r : Timed S D) × (bs : List ℕ) × (run_timed F fn now fuel ctx seconds batch_init ≡ some r)
        × All IsBatch bs
        × (r.ctx ≡ in_batches fn ctx bs)
        × (r.iters ≡ iterations bs)
  unfolding run_timed in_batches iterations
  run_timed-batches fuel j ctx seconds batch_init small late b =
      let t_end = F.add (now 0) seconds in
      let first = if batch_init == 0 then 1 else batch_init in
      let (t, bs, all, e) =
        timed_loop-Ends fuel j 0 t_end first 0 ctx (ground arith)
          (ap (λ (m : ℕ). F.lt (now m) t_end) (omega arith) ∙ late) b in
      (_, bs, ap (reported F fn now (now 0) seconds) e, all, refl, refl)
