-- ===== src/Timed/Exact.antt =====
-- The count that `run_timed` of bench/src/bench.c reports, for a kernel whose iterations add up.
use cross_platform_benchmark.Prelude.{
  ℕ, zero, suc, ◌+◌, ◌%◌, ◌^◌, ap, ◌≡◌, refl, sym, ◌∙◌, false, Option, some, ◌==◌, if◌then◌else◌,
  if-cases, arith, ◌<◌,
}
use cross_platform_benchmark.Score.{Double, of}
use cross_platform_benchmark.Timed.{Timed, timed_loop, run_timed, next_batch, reported}

module _ {S D : Type 0} (F : Double D) (fn : S → ℕ → S) (now : ℕ → D) where
  -- The context is the kernel's after `n` iterations from `ctx`, and the count is `n` in 64 bits.
  abbrev pub IsExact : S → S → ℕ → Type 0
  IsExact start ctx iters = (n : ℕ) × (ctx ≡ fn start n) × (iters ≡ n % 2 ^ 64)

  wrapped_sum : (n b : ℕ) → (n % 2 ^ 64 + b) % 2 ^ 64 ≡ (n + b) % 2 ^ 64
  wrapped_sum n b = omega arith

  -- The loop ended with an exact count.
  abbrev IsEnd : S → Option (D × (ℕ × S)) → Type 0
  IsEnd start o =
      (t : D) × (iters : ℕ) × (ctx : S) × (o ≡ some (t, (iters, ctx))) × IsExact start ctx iters

  timed_loop-IsEnd :
      ((s : S) (a b : ℕ) → fn (fn s a) b ≡ fn s (a + b))
      → (fuel j k : ℕ) (t_end : D) (batch iters : ℕ) (start ctx : S) → IsExact start ctx iters
      → F.lt (now (k + j)) t_end ≡ false
      → j < fuel
      → IsEnd start (timed_loop F fn now fuel (suc k) (now k) t_end batch iters ctx)
  unfolding timed_loop
  timed_loop-IsEnd add zero j k t_end batch iters start ctx h late b = absurd (omega arith)
  timed_loop-IsEnd add (suc fuel) zero k t_end batch iters start ctx h late b =
      let now_late : F.lt (now k) t_end ≡ false =
        ap (λ (m : ℕ). F.lt (now m) t_end) (omega arith) ∙ late in
      rw now_late (now k, iters, ctx, refl, h)
  timed_loop-IsEnd add (suc fuel) (suc j) k t_end batch iters start ctx (n, e, c) late b =
      if-cases (IsEnd start) (F.lt (now k) t_end)
        (λ _.
          timed_loop-IsEnd add fuel j (suc k) t_end
            (next_batch F fn now batch (F.sub (now (suc k)) (now k))) ((iters + batch) % 2 ^ 64)
            start (fn ctx batch)
            (
              n + batch,
              ap (λ x. fn x batch) e ∙ add start n batch,
              ap (λ (x : ℕ). (x + batch) % 2 ^ 64) c ∙ wrapped_sum n batch,
            )
            (ap (λ (m : ℕ). F.lt (now m) t_end) (omega arith) ∙ late) (omega arith))
        (λ _. (now k, iters, ctx, refl, (n, e, c)))

  ended_run :
      (start : S) (seconds : D) (o : Option (D × (ℕ × S)))
      → IsEnd start o
      → (r : Timed S D) × (reported F fn now (now 0) seconds o ≡ some r)
        × IsExact start r.ctx r.iters
  ended_run start seconds o (t, iters, ctx, e, x) = (
    record {
      ctx = ctx;
      iters = iters;
      elapsed = if F.le (F.sub t (now 0)) (of F 0) then seconds else F.sub t (now 0);
    },
    ap (reported F fn now (now 0) seconds) e,
    x,
  )

  -- For a kernel that does `a` and then `b` iterations as it does `a + b`: once the clock has reached
  -- the end, `run_timed` returns, the context is that of the kernel after some number of iterations,
  -- and this number, in 64 bits, is the count that it reports.
  pub run_timed-IsExact :
      ((s : S) (a b : ℕ) → fn (fn s a) b ≡ fn s (a + b))
      → ((s : S) → fn s 0 ≡ s)
      → (fuel j : ℕ) (ctx : S) (seconds : D) (batch_init : ℕ)
      → F.lt (now j) (F.add (now 0) seconds) ≡ false
      → j < fuel
      → (r : Timed S D) × (run_timed F fn now fuel ctx seconds batch_init ≡ some r)
        × IsExact ctx r.ctx r.iters
  unfolding run_timed
  run_timed-IsExact add nothing fuel j ctx seconds batch_init late b =
      let t_end = F.add (now 0) seconds in
      ended_run ctx seconds _ (
        timed_loop-IsEnd add fuel j 0 t_end (if batch_init == 0 then 1 else batch_init) 0 ctx ctx
          (0, sym (nothing ctx), refl) (ap (λ (m : ℕ). F.lt (now m) t_end) (omega arith) ∙ late) b)
