-- ===== src/Timed.antt =====
-- `run_timed` of bench/src/bench.c. The clock's readings are `now`, the `k`-th call of `now_sec`; the
-- kernel is a function of its context, and the loop's rounds are bounded by fuel.
pub mod Exact
pub mod Batches
pub mod Warm
use cross_platform_benchmark.Prelude.{
  ℕ, zero, suc, ◌+◌, ◌*◌, ◌/◌, ◌%◌, ◌^◌, Bool, true, false, ◌&&◌, Option, none, some, ltb, ◌==◌,
  if◌then◌else◌,
}
use cross_platform_benchmark.Score.{Double, of}

-- The kernel's context afterwards, the iterations that are reported, and the elapsed time.
pub record Timed (S D : Type 0) : Type 0 where
  pub ctx : S
  pub iters : ℕ
  pub elapsed : D

module _ {S D : Type 0} (F : Double D) (fn : S → ℕ → S) (now : ℕ → D) where
  -- The next batch: twice as long under TARGET_BATCH_SEC, half as long over MAX_BATCH_SEC.
  abbrev pub next_batch : ℕ → D → ℕ
  next_batch batch dt =
      if F.lt dt (F.literal 4 3) && ltb batch (2 ^ 30)
      then batch * 2 % 2 ^ 64
      else if F.lt (F.literal 20 3) dt && ltb 1 batch
      then batch / 2
      else batch

  unfoldable pub timed_loop : ℕ → ℕ → D → D → ℕ → ℕ → S → Option (D × (ℕ × S))
  timed_loop zero k t t_end batch iters ctx = none
  timed_loop (suc fuel) k t t_end batch iters ctx =
      let t2 = now k in
      let rest =
        timed_loop fuel (suc k) t2 t_end (next_batch batch (F.sub t2 t)) ((iters + batch) % 2 ^ 64)
          (fn ctx batch) in
      if F.lt t t_end then rest else some (t, (iters, ctx))

  abbrev pub reported : D → D → Option (D × (ℕ × S)) → Option (Timed S D)
  reported t0 seconds none = none
  reported t0 seconds (some (t, (iters, ctx))) =
      let elapsed = F.sub t t0 in
      some (record {
        ctx = ctx;
        iters = iters;
        elapsed = if F.le elapsed (of F 0) then seconds else elapsed;
      })

  -- `none` means that the clock did not reach the end in the rounds that were given.
  unfoldable pub run_timed : ℕ → S → D → ℕ → Option (Timed S D)
  unfolding timed_loop
  run_timed fuel ctx seconds batch_init =
      let t0 = now 0 in
      reported t0 seconds
        (timed_loop fuel 1 t0 (F.add t0 seconds) (if batch_init == 0 then 1 else batch_init) 0 ctx)
