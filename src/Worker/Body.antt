-- ===== src/Worker/Body.antt =====
-- The memory phases, the diagnostic sweep and the whole of `worker` in bench/src/bench.c.
use cross_platform_benchmark.Prelude.{
  ℕ, zero, suc, ◌+◌, ◌*◌, ◌/◌, true, false, List, [], ◌∷◌, Option, none, some, Bytes, leb,
  if◌then◌else◌, length, get_or, set, replicate, bit_xor,
}
use cross_platform_benchmark.Chase.{Memory, Built, build_chases}
use cross_platform_benchmark.Kernels.{
  chase_ways, MemCtx, mem_kernel_bw, mem_kernel_lat, mem_kernel_mlp, disp_kernel, disp_kernel_free,
}
use cross_platform_benchmark.Score.{Double, of, keep_best_rate, keep_best_lat}
use cross_platform_benchmark.Score
use cross_platform_benchmark.Worker.{
  Job, Machine, Run, disp_periods, disp_ladder, xor_into, read_words, write_words, rep_count,
  reps_loop, phase_begin, phase_begin_mem, in_batches, iterations,
}
use cross_platform_benchmark.Worker.Phases.{
  rated, higher, sample_clock, int_lat_rep, int_thr_rep, mul_rep, fp_lat_rep, fp_thr_rep, disp_idx,
  disp_ctx, ladder_rep,
}

module _ {D : Type 0} (F : Double D) (o : Job D) (m : Machine D) where
  -- `reps` repetitions of a phase.
  abbrev pub phase : (ℕ → Run D → Run D) → Run D → Run D
  phase body r = reps_loop (rep_count o.reps) 0 body r

  -- The points of a ladder from `k` on.
  unfoldable pub points : ℕ → ℕ → (ℕ → Run D → Run D) → Run D → Run D
  points zero k point r = r
  points (suc left) k point r = points left (suc k) point (point k r)

  unfoldable pub ladder_phase : Run D → Run D
  ladder_phase r =
      let d = disp_idx F o m r in
      points (length disp_ladder) 0 (λ k. phase (ladder_rep F o m d.0 k)) d.1

  -- The address of a buffer that the memory phases use: `mem_ok`.
  unfoldable pub mem_base : Option ℕ
  mem_base = elim m.base [
    | none ↦ none
    | some base ↦ if leb (chase_ways * 65536) o.mem_bytes then some base else none
  ]

  unfoldable pub bandwidth_rep : Option ℕ → ℕ → Run D → Run D
  bandwidth_rep none rep r = phase_begin_mem F o m rep false r
  bandwidth_rep (some base) rep r =
      let r' = phase_begin_mem F o m rep false r in
      let start : MemCtx = record {
        buf = read_words r'.memory base (o.mem_bytes / 8);
        acc = 0 ∷ 0 ∷ 0 ∷ 0 ∷ [];
      } in
      let t = m.timed r'.timed_calls o.seconds 1 in
      let done = in_batches mem_kernel_bw start t.0 in
      let bytes = F.mul (F.mul (of F (iterations t.0)) (of F o.mem_bytes)) (of F 2) in
      record r' {
        w = record r'.w {
          mem_gbps =
              keep_best_rate F r'.w.mem_gbps (F.div (F.div bytes (F.literal 1000000000 0)) t.1);
          dram_mhz_observed = higher F o m r'.w.dram_mhz_observed (m.dram_mhz r'.dram_calls);
          checksum = xor_into r'.w.checksum done.acc;
        };
        memory = write_words r'.memory base done.buf;
        timed_calls = r'.timed_calls + 1;
        dram_calls = r'.dram_calls + 1;
      }

  -- Builds the chases of so many ways; `none` where there is no buffer or no memory for the order.
  abbrev pub chases_in : Option ℕ → ℕ → Run D → Option Built
  chases_in none ways r = none
  chases_in (some base) ways r =
      build_chases (m.order_alloc ways) base o.mem_bytes 64 ways (bit_xor o.seed 0xA5A5A5A5)
        r.memory

  unfoldable pub built_chases : ℕ → Run D → Option Built
  built_chases ways r = chases_in mem_base ways r

  -- The memory that the chases are in.
  abbrev pub with_chases : Option Built → Run D → Run D
  with_chases none r = r
  with_chases (some b) r = record r { memory = b.memory }

  -- Nanoseconds for one hop.
  abbrev per_hop : D → D → D
  per_hop elapsed hops = F.mul (F.div elapsed hops) (F.literal 1000000000 0)

  unfoldable pub latency_rep : Option Built → ℕ → Run D → Run D
  latency_rep none rep r = phase_begin_mem F o m rep true r
  latency_rep (some b) rep r =
      let r' = phase_begin_mem F o m rep true r in
      let t = m.timed r'.timed_calls o.seconds 4096 in
      let done =
        in_batches (mem_kernel_lat r'.memory) (record { cur = get_or b.heads 0 0 ∷ [] }) t.0 in
      record r' {
        w = record r'.w {
          mem_lat_ns = keep_best_lat F r'.w.mem_lat_ns (per_hop t.1 (of F (iterations t.0)));
          checksum = bit_xor r'.w.checksum (get_or done.cur 0 0);
        };
        timed_calls = r'.timed_calls + 1;
      }

  unfoldable pub parallel_rep : Option Built → ℕ → Run D → Run D
  parallel_rep none rep r = phase_begin_mem F o m rep true r
  parallel_rep (some b) rep r =
      let r' = phase_begin_mem F o m rep true r in
      let t = m.timed r'.timed_calls o.seconds 1024 in
      let done = in_batches (mem_kernel_mlp r'.memory) (record { cur = b.heads }) t.0 in
      record r' {
        w = record r'.w {
          mem_mlp_ns =
              keep_best_lat F r'.w.mem_mlp_ns
                (per_hop t.1 (F.mul (of F (iterations t.0)) (of F chase_ways)));
          checksum = xor_into r'.w.checksum done.cur;
        };
        timed_calls = r'.timed_calls + 1;
      }

  unfoldable pub latency_phase : Run D → Run D
  latency_phase r = let b = built_chases 1 r in phase (latency_rep b) (with_chases b r)

  unfoldable pub parallel_phase : Run D → Run D
  parallel_phase r = let b = built_chases chase_ways r in phase (parallel_rep b) (with_chases b r)

  -- The suite's phases.
  unfoldable pub suite_phases : Run D → Run D
  suite_phases r =
      let r1 = phase (int_lat_rep F o m) r in
      let r2 = phase (int_thr_rep F o m) r1 in
      let r3 = phase (mul_rep F o m) r2 in
      let r4 = phase (fp_lat_rep F o m) r3 in
      let r5 = phase (fp_thr_rep F o m) r4 in
      let r6 = ladder_phase r5 in
      let r7 = phase (bandwidth_rep mem_base) r6 in parallel_phase (latency_phase r7)

  -- A repetition of the sweep at period `k`, of either chain.
  abbrev swept : List D → ℕ → List ℕ × D → List D
  swept rates k t = set rates k (rated F o m (get_or rates k (of F 0)) (of F (iterations t.0)) t.1)

  unfoldable pub serial_rep : Option Bytes → ℕ → ℕ → Run D → Run D
  serial_rep none k rep r = phase_begin F o m rep r
  serial_rep (some idx) k rep r =
      let r' = phase_begin F o m rep r in
      let t = m.timed r'.timed_calls o.seconds 1024 in
      let done = in_batches disp_kernel (disp_ctx F o m idx (get_or disp_periods k 0)) t.0 in
      record r' {
        w = record r'.w { checksum = bit_xor r'.w.checksum done.acc };
        sweep_serial = swept r'.sweep_serial k t;
        timed_calls = r'.timed_calls + 1;
      }

  unfoldable pub free_rep : Option Bytes → ℕ → ℕ → Run D → Run D
  free_rep none k rep r = phase_begin F o m rep r
  free_rep (some idx) k rep r =
      let r' = phase_begin F o m rep r in
      let t = m.timed r'.timed_calls o.seconds 1024 in
      let done = in_batches disp_kernel_free (disp_ctx F o m idx (get_or disp_periods k 0)) t.0 in
      record r' {
        w = record r'.w { checksum = bit_xor r'.w.checksum done.acc };
        sweep_free = swept r'.sweep_free k t;
        timed_calls = r'.timed_calls + 1;
      }

  -- The diagnostic sweep; its latency phase samples the clock too.
  unfoldable pub sweep_phases : Run D → Run D
  sweep_phases r =
      let r1 = phase (λ rep r. sample_clock F o m (int_lat_rep F o m rep r)) r in
      let d = disp_idx F o m r1 in
      points (length disp_periods) 0 (λ k r. phase (free_rep d.0 k) (phase (serial_rep d.0 k) r))
        d.1

  -- What a fresh buffer holds: every byte is 1.
  abbrev filled : Memory
  filled a = 0x0101010101010101

  -- A thread at its start; `w` is its record, zeroed but for the CPU.
  abbrev pub started : Score.Worker D → Run D
  started w = record {
    w = w;
    sweep_serial = replicate 16 (of F 0);
    sweep_free = replicate 16 (of F 0);
    seed = o.seed;
    memory = filled;
    timed_calls = 0;
    warm_calls = 0;
    mhz_calls = 0;
    dram_calls = 0;
    waits = 0;
  }

  unfoldable pub worker : Score.Worker D → Run D
  worker w = if o.disp_sweep then sweep_phases (started w) else suite_phases (started w)
