-- ===== src/Timed/Warm.antt =====
-- `warmup_spin` of bench/src/bench.c: the integer kernel until the clock reaches the end. `now` are the
-- clock's readings, `int_thr` is the kernel of the set.
use cross_platform_benchmark.Prelude.{
  ℕ, zero, suc, ◌+◌, ◌<◌, Bool, true, false, List, [], ◌∷◌, Option, none, some, if◌then◌else◌,
  foldl, bit_xor, ◌≡◌, refl, subst, arith,
}
use cross_platform_benchmark.Score.{Double, of}
use cross_platform_benchmark.Kernels.{IntCtx, lanes}

-- The lanes from 1 on, and the two constants.
abbrev lanes_from : ℕ → ℕ → List ℕ
lanes_from zero i = []
lanes_from (suc n) i = (i + 1) ∷ lanes_from n (suc i)

abbrev pub warm_ctx : IntCtx
warm_ctx = record { l = lanes_from lanes 0; k = 0x9E3779B97F4A7C15 ∷ 0xBF58476D1CE4E5B9 ∷ [] }

module _ {D : Type 0} (F : Double D) (int_thr : IntCtx → ℕ → IntCtx) (now : ℕ → D) where
  -- From reading `k` of the clock on; `none` means that it did not reach the end in the rounds given.
  unfoldable pub warm_loop : ℕ → ℕ → D → IntCtx → Option IntCtx
  warm_loop zero k t_end c = none
  warm_loop (suc fuel) k t_end c =
      let rest = warm_loop fuel (suc k) t_end (int_thr c 20000) in
      if F.lt (now k) t_end then rest else some c

  abbrev sunk : ℕ → Option IntCtx → Option ℕ
  sunk sink none = none
  sunk sink (some c) = some (foldl bit_xor sink c.l)

  -- `g_warmup_sink` afterwards.
  unfoldable pub warmup_spin : ℕ → ℕ → D → Option ℕ
  unfolding warm_loop
  warmup_spin fuel sink sec =
      if F.le sec (of F 0)
      then some sink
      else sunk sink (warm_loop fuel 1 (F.add (now 0) sec) warm_ctx)

  -- So many calls of the kernel.
  abbrev pub spun : ℕ → IntCtx → IntCtx
  spun zero c = c
  spun (suc n) c = spun n (int_thr c 20000)

  reading : {m n : ℕ} {t : D} {b : Bool} → m ≡ n → F.lt (now m) t ≡ b → F.lt (now n) t ≡ b
  reading {t} {b} e h = subst (λ i. F.lt (now i) t ≡ b) e h

  warm_loop-spun :
      (n fuel k : ℕ) (t_end : D) (c : IntCtx)
      → n < fuel
      → ((i : ℕ) → i < n → F.lt (now (k + i)) t_end ≡ true)
      → F.lt (now (k + n)) t_end ≡ false
      → warm_loop fuel k t_end c ≡ some (spun n c)
  unfolding warm_loop
  warm_loop-spun n zero k t_end c enough on off = absurd (omega arith)
  warm_loop-spun zero (suc fuel) k t_end c enough on off =
      rw (reading {n = k} (omega arith) off) refl
  warm_loop-spun (suc n) (suc fuel) k t_end c enough on off =
      rw (reading {n = k} (omega arith) (on 0 (omega arith))) (
        warm_loop-spun n fuel (suc k) t_end (int_thr c 20000) (omega arith)
          (λ i h. reading (omega arith) (on (suc i) (omega arith))) (reading (omega arith) off))

  -- For a warm-up of some length, a clock that is before the end at its first n readings behind the
  -- start and has reached it at the next, and more rounds than n, the warm-up ends: the kernel has run
  -- n batches of 20000, one behind the other, and each of the lanes has gone into the sink.
  pub warmup_spin-spun :
      (n fuel sink : ℕ) (sec : D)
      → F.le sec (of F 0) ≡ false
      → n < fuel
      → ((i : ℕ) → i < n → F.lt (now (1 + i)) (F.add (now 0) sec) ≡ true)
      → F.lt (now (1 + n)) (F.add (now 0) sec) ≡ false
      → warmup_spin fuel sink sec ≡ some (foldl bit_xor sink (spun n warm_ctx).l)
  unfolding warmup_spin
  warmup_spin-spun n fuel sink sec some_time enough on off =
      rw (some_time, warm_loop-spun n fuel 1 (F.add (now 0) sec) warm_ctx enough on off) refl
