-- ===== src/Worker/Phases.antt =====
-- The phases of `worker` in bench/src/bench.c, in the order of the source.
use cross_platform_benchmark.Prelude.{
  ℕ, zero, suc, ◌+◌, ◌-◌, ◌*◌, List, [], ◌∷◌, Option, none, some, Bytes, ◌==◌, if◌then◌else◌,
  get_or, set, bit_xor, map, is_negative,
}
use cross_platform_benchmark.Kernels.{
  lanes, int_ops_per_step, mul_ops_per_step, fp_ops_per_step, IntCtx, FpCtx, DispCtx,
  int_kernel_lat, int_kernel_thr, mul_kernel_thr, fp_kernel_lat, fp_kernel_thr, disp_kernel,
}
use cross_platform_benchmark.Score.{Double, of, keep_best_rate}
use cross_platform_benchmark.Worker.{
  Job, Machine, Run, disp_ladder, draw_odd, draw_bytes, xor_into, phase_begin, in_batches,
  iterations,
}

module _ {D : Type 0} (F : Double D) (o : Job D) (m : Machine D) where
  -- `keep_best_rate` of a count of operations in millions a second.
  abbrev pub rated : D → D → D → D
  rated best ops elapsed = keep_best_rate F best (F.div (F.div ops (F.literal 1000000 0)) elapsed)

  -- The greater of a clock that was seen and one that is read.
  abbrev pub higher : D → D → D
  higher seen mhz = if F.lt seen mhz then mhz else seen

  -- Samples the clock of the CPU that the thread was found on.
  unfoldable pub sample_clock : Run D → Run D
  sample_clock r = if is_negative m.current_cpu then r else record r {
    w = record r.w { mhz_observed = higher r.w.mhz_observed (m.cpu_cur_mhz r.mhz_calls) };
    mhz_calls = r.mhz_calls + 1;
  }

  -- The context of an integer phase, from the generator, and the seed afterwards.
  abbrev int_ctx : ℕ → IntCtx × ℕ
  int_ctx seed =
      let l = draw_odd lanes seed in let k = draw_odd 2 l.1 in (record { l = l.0; k = k.0 }, k.1)

  abbrev int_ops : ℕ → D
  int_ops it = F.mul (of F it) (of F (int_ops_per_step * lanes))

  -- One repetition of the integer latency phase.
  unfoldable pub int_lat_rep : ℕ → Run D → Run D
  int_lat_rep rep r =
      let c = int_ctx r.seed in
      let r' = phase_begin F o m rep (record r { seed = c.1 }) in
      let t = m.timed r'.timed_calls o.seconds 1024 in
      let done = in_batches int_kernel_lat c.0 t.0 in
      record r' {
        w = record r'.w {
          int_lat_mops = rated r'.w.int_lat_mops (int_ops (iterations t.0)) t.1;
          checksum = xor_into r'.w.checksum done.l;
        };
        timed_calls = r'.timed_calls + 1;
      }

  unfoldable pub int_thr_rep : ℕ → Run D → Run D
  unfolding sample_clock
  int_thr_rep rep r =
      let c = int_ctx r.seed in
      let r' = phase_begin F o m rep (record r { seed = c.1 }) in
      let t = m.timed r'.timed_calls o.seconds 1024 in
      let done = in_batches int_kernel_thr c.0 t.0 in
      sample_clock (record r' {
        w = record r'.w {
          int_thr_mops = rated r'.w.int_thr_mops (int_ops (iterations t.0)) t.1;
          checksum = xor_into r'.w.checksum done.l;
        };
        timed_calls = r'.timed_calls + 1;
      })

  unfoldable pub mul_rep : ℕ → Run D → Run D
  mul_rep rep r =
      let l = draw_odd lanes r.seed in
      let k = draw_odd 1 l.1 in
      let r' = phase_begin F o m rep (record r { seed = k.1 }) in
      let t = m.timed r'.timed_calls o.seconds 1024 in
      let done = in_batches mul_kernel_thr (record { l = l.0; m = get_or k.0 0 0 }) t.0 in
      let ops = F.mul (of F (iterations t.0)) (of F (mul_ops_per_step * lanes)) in
      record r' {
        w = record r'.w {
          mul_thr_mops = rated r'.w.mul_thr_mops ops t.1;
          checksum = xor_into r'.w.checksum done.l;
        };
        timed_calls = r'.timed_calls + 1;
      }

  -- `n` lanes from lane `i` on: x is 1.0 + i, b is 1.0 + 0.25 * i.
  pub fp_xs : ℕ → ℕ → List D
  fp_xs zero i = []
  fp_xs (suc n) i = F.add (of F 1) (of F i) ∷ fp_xs n (suc i)

  pub fp_bs : ℕ → ℕ → List D
  fp_bs zero i = []
  fp_bs (suc n) i = F.add (of F 1) (F.mul (F.literal 25 2) (of F i)) ∷ fp_bs n (suc i)

  abbrev fp_ctx : FpCtx F.add F.mul (of F 0)
  fp_ctx = record { x = fp_xs lanes 0; b = fp_bs lanes 0; c = F.literal 5 1 }

  abbrev fp_bits : D → ℕ
  fp_bits x = m.to_bits (F.mul x (F.literal 1000000 0))

  unfoldable pub fp_lat_rep : ℕ → Run D → Run D
  fp_lat_rep rep r =
      let r' = phase_begin F o m rep r in
      let t = m.timed r'.timed_calls o.seconds 1024 in
      let done = in_batches (fp_kernel_lat F.add F.mul (of F 0)) fp_ctx t.0 in
      let ops = F.mul (of F (iterations t.0)) (of F fp_ops_per_step) in
      record r' {
        w = record r'.w {
          fp_lat_mflops = rated r'.w.fp_lat_mflops ops t.1;
          checksum = bit_xor r'.w.checksum (fp_bits (get_or done.x 0 (of F 0)));
        };
        timed_calls = r'.timed_calls + 1;
      }

  unfoldable pub fp_thr_rep : ℕ → Run D → Run D
  fp_thr_rep rep r =
      let r' = phase_begin F o m rep r in
      let t = m.timed r'.timed_calls o.seconds 1024 in
      let done = in_batches (fp_kernel_thr F.add F.mul (of F 0)) fp_ctx t.0 in
      let ops = F.mul (of F (iterations t.0)) (of F (fp_ops_per_step * lanes)) in
      record r' {
        w = record r'.w {
          fp_thr_mflops = rated r'.w.fp_thr_mflops ops t.1;
          checksum = xor_into r'.w.checksum (map fp_bits done.x);
        };
        timed_calls = r'.timed_calls + 1;
      }

  -- The selectors, if there is memory for them, and the seed afterwards.
  unfoldable pub disp_idx : Run D → Option Bytes × Run D
  disp_idx r =
      let d = draw_bytes 65536 r.seed in
      if m.idx_alloc then (some d.0, record r { seed = d.1 }) else (none, r)

  abbrev pub disp_ctx : Bytes → ℕ → DispCtx
  disp_ctx idx period = record { idx = idx; mask = period - 1; pos = 0; acc = 1 }

  -- One repetition at point `k` of the ladder, with half of the time.
  unfoldable pub ladder_rep : Option Bytes → ℕ → ℕ → Run D → Run D
  ladder_rep none k rep r = phase_begin F o m (if k == 0 then rep else 1) r
  ladder_rep (some idx) k rep r =
      let r' = phase_begin F o m (if k == 0 then rep else 1) r in
      let t = m.timed r'.timed_calls (F.div o.seconds (of F 2)) 1024 in
      let done = in_batches disp_kernel (disp_ctx idx (get_or disp_ladder k 0)) t.0 in
      let best = rated (get_or r'.w.disp_ladder k (of F 0)) (of F (iterations t.0)) t.1 in
      record r' {
        w = record r'.w {
          disp_ladder = set r'.w.disp_ladder k best;
          checksum = bit_xor r'.w.checksum done.acc;
        };
        timed_calls = r'.timed_calls + 1;
      }
