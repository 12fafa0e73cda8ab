-- ===== src/Worker/Waits.antt =====
-- How often `worker` of bench/src/bench.c calls the barrier.
use cross_platform_benchmark.Prelude.{
  ℕ, zero, suc, ◌+◌, ◌*◌, ◌≡◌, refl, ap, ◌∙◌, Bool, true, false, Option, none, some, if◌then◌else◌,
  if-cases, arith, is_negative, Bytes, ltb, ◌==◌, ◌||◌, Option-cases, inl, inr,
}
use cross_platform_benchmark.Chase.{Built}
use cross_platform_benchmark.Kernels.{chase_ways}
use cross_platform_benchmark.Score.{Double, of}
use cross_platform_benchmark.Score
use cross_platform_benchmark.Worker.{
  Job, Machine, Run, rep_count, reps_loop, phase_begin, phase_begin_mem, mem_warmup, waited,
}
use cross_platform_benchmark.Worker.Phases.{
  sample_clock, int_lat_rep, int_thr_rep, mul_rep, fp_lat_rep, fp_thr_rep, disp_idx, ladder_rep,
}
use cross_platform_benchmark.Worker.Body.{
  phase, points, ladder_phase, bandwidth_rep, built_chases, with_chases, latency_rep, parallel_rep,
  latency_phase, parallel_phase, mem_base, suite_phases, serial_rep, free_rep, sweep_phases,
  started, worker,
}

waited_twice_by : (bar : Bool) (n : ℕ) → waited bar (waited bar n) ≡ n + (if bar then 2 else 0)
unfolding waited
waited_twice_by true n = omega arith
waited_twice_by false n = omega arith

all_passes :
    (bar sweep : Bool) (n : ℕ)
    → (if sweep then 33 else 22) * (n * (if bar then 2 else 0))
      ≡ (if bar then (if sweep then 66 else 44) * n else 0)
all_passes true true n = omega arith
all_passes true false n = omega arith
all_passes false true n = omega arith
all_passes false false n = omega arith

module _ {D : Type 0} (F : Double D) (o : Job D) (m : Machine D) where
  -- The phase adds `n` calls, whatever the state.
  abbrev Adds : ℕ → (Run D → Run D) → Type 0
  Adds n f = (r : Run D) → (f r).waits ≡ r.waits + n

  -- The calls of the two `wsync` of a repetition.
  abbrev passes : ℕ
  passes = if o.bar then 2 else 0

  waited_twice : (n : ℕ) → waited o.bar (waited o.bar n) ≡ n + passes
  unfolding waited
  waited_twice n = waited_twice_by o.bar n

  reps_loop-Adds :
      (body : ℕ → Run D → Run D) (n : ℕ)
      → ((rep : ℕ) → Adds n (body rep))
      → (left rep : ℕ) → Adds (left * n) (reps_loop left rep body)
  unfolding reps_loop
  reps_loop-Adds body n h zero rep r = omega arith
  reps_loop-Adds body n h (suc left) rep r =
      grind (arith, reps_loop-Adds body n h left (suc rep) (body rep r), h rep r)

  phase_begin-Adds : (rep : ℕ) → Adds passes (phase_begin F o m rep)
  unfolding phase_begin
  phase_begin-Adds rep r = waited_twice r.waits

  -- A conditional state has as many calls as both of its branches.
  if-waits :
      (k : ℕ) (b : Bool) (x y : Run D) → x.waits ≡ k → y.waits ≡ k → (if b then x else y).waits ≡ k
  if-waits k b x y f g = if-cases (λ (x : Run D). x.waits ≡ k) b (λ _. f) (λ _. g)

  -- The warm-up of the buffer calls no barrier.
  mem_warmup-waits : (readonly : Bool) (r : Run D) → (mem_warmup F o m readonly r).waits ≡ r.waits
  unfolding mem_warmup
  mem_warmup-waits readonly r = elim (Option-cases m.base) [
    | inl e ↦ rw e refl
    | inr (b, e) ↦ rw e (
        if-waits r.waits (ltb o.mem_bytes 4096 || F.le o.warmup (of F 0)) _ _ refl
          (if-waits r.waits readonly _ _ refl refl))
  ]

  phase_begin_mem-Adds :
      (rep : ℕ) (readonly : Bool) → Adds passes (phase_begin_mem F o m rep readonly)
  unfolding phase_begin_mem
  phase_begin_mem-Adds rep readonly r =
      let r' = record r { waits = waited o.bar r.waits } in
      ap (waited o.bar) (
        if-waits (waited o.bar r.waits) (rep == 0) (mem_warmup F o m readonly r') r'
          (mem_warmup-waits readonly r') refl)
      ∙ waited_twice r.waits

  sample_clock-Adds : Adds 0 (sample_clock F o m)
  unfolding sample_clock
  sample_clock-Adds r =
      if-waits (r.waits + 0) (is_negative m.current_cpu) _ _ (omega arith) (omega arith)

  int_lat_rep-Adds : (rep : ℕ) → Adds passes (int_lat_rep F o m rep)
  unfolding int_lat_rep phase_begin
  int_lat_rep-Adds rep r = waited_twice r.waits

  int_thr_rep-Adds : (rep : ℕ) → Adds passes (int_thr_rep F o m rep)
  unfolding int_thr_rep phase_begin sample_clock
  int_thr_rep-Adds rep r =
      if-waits (r.waits + passes) (is_negative m.current_cpu) _ _ (waited_twice r.waits)
        (waited_twice r.waits)

  mul_rep-Adds : (rep : ℕ) → Adds passes (mul_rep F o m rep)
  unfolding mul_rep phase_begin
  mul_rep-Adds rep r = waited_twice r.waits

  fp_lat_rep-Adds : (rep : ℕ) → Adds passes (fp_lat_rep F o m rep)
  unfolding fp_lat_rep phase_begin
  fp_lat_rep-Adds rep r = waited_twice r.waits

  fp_thr_rep-Adds : (rep : ℕ) → Adds passes (fp_thr_rep F o m rep)
  unfolding fp_thr_rep phase_begin
  fp_thr_rep-Adds rep r = waited_twice r.waits

  disp_idx-waits : (r : Run D) → (disp_idx F o m r).1.waits ≡ r.waits
  unfolding disp_idx
  disp_idx-waits r =
      if-cases (λ (p : Option Bytes × Run D). p.1.waits ≡ r.waits) m.idx_alloc (λ _. refl)
        (λ _. refl)

  ladder_rep-Adds : (idx : Option Bytes) (k rep : ℕ) → Adds passes (ladder_rep F o m idx k rep)
  unfolding ladder_rep phase_begin
  ladder_rep-Adds none k rep r = waited_twice r.waits
  ladder_rep-Adds (some idx) k rep r = waited_twice r.waits

  bandwidth_rep-Adds : (base : Option ℕ) (rep : ℕ) → Adds passes (bandwidth_rep F o m base rep)
  unfolding bandwidth_rep
  bandwidth_rep-Adds none rep r = phase_begin_mem-Adds rep false r
  bandwidth_rep-Adds (some base) rep r = phase_begin_mem-Adds rep false r

  latency_rep-Adds : (b : Option Built) (rep : ℕ) → Adds passes (latency_rep F o m b rep)
  unfolding latency_rep
  latency_rep-Adds none rep r = phase_begin_mem-Adds rep true r
  latency_rep-Adds (some b) rep r = phase_begin_mem-Adds rep true r

  parallel_rep-Adds : (b : Option Built) (rep : ℕ) → Adds passes (parallel_rep F o m b rep)
  unfolding parallel_rep
  parallel_rep-Adds none rep r = phase_begin_mem-Adds rep true r
  parallel_rep-Adds (some b) rep r = phase_begin_mem-Adds rep true r

  serial_rep-Adds : (idx : Option Bytes) (k rep : ℕ) → Adds passes (serial_rep F o m idx k rep)
  unfolding serial_rep phase_begin
  serial_rep-Adds none k rep r = waited_twice r.waits
  serial_rep-Adds (some idx) k rep r = waited_twice r.waits

  free_rep-Adds : (idx : Option Bytes) (k rep : ℕ) → Adds passes (free_rep F o m idx k rep)
  unfolding free_rep phase_begin
  free_rep-Adds none k rep r = waited_twice r.waits
  free_rep-Adds (some idx) k rep r = waited_twice r.waits

  -- A phase whose repetitions pass the barrier twice each.
  phase-Adds :
      (body : ℕ → Run D → Run D)
      → ((rep : ℕ) → Adds passes (body rep))
      → Adds (rep_count o.reps * passes) (phase F o m body)
  phase-Adds body h r = reps_loop-Adds body passes h (rep_count o.reps) 0 r

  points-Adds :
      (point : ℕ → Run D → Run D) (n : ℕ)
      → ((k : ℕ) → Adds n (point k))
      → (left k : ℕ) → Adds (left * n) (points F o m left k point)
  unfolding points
  points-Adds point n h zero k r = omega arith
  points-Adds point n h (suc left) k r =
      grind (arith, points-Adds point n h left (suc k) (point k r), h k r)

  with_chases-waits : (b : Option Built) (r : Run D) → (with_chases F o m b r).waits ≡ r.waits
  with_chases-waits none r = refl
  with_chases-waits (some b) r = refl

  latency_phase-Adds : Adds (rep_count o.reps * passes) (latency_phase F o m)
  unfolding latency_phase
  latency_phase-Adds r =
      let b = built_chases F o m 1 r in
      omega (
        arith,
        phase-Adds (latency_rep F o m b) (latency_rep-Adds b) (with_chases F o m b r),
        with_chases-waits b r,
      )

  parallel_phase-Adds : Adds (rep_count o.reps * passes) (parallel_phase F o m)
  unfolding parallel_phase
  parallel_phase-Adds r =
      let b = built_chases F o m chase_ways r in
      omega (
        arith,
        phase-Adds (parallel_rep F o m b) (parallel_rep-Adds b) (with_chases F o m b r),
        with_chases-waits b r,
      )

  ladder_phase-Adds : Adds (14 * (rep_count o.reps * passes)) (ladder_phase F o m)
  unfolding ladder_phase
  ladder_phase-Adds r =
      let d = disp_idx F o m r in
      omega (
        arith,
        disp_idx-waits r,
        points-Adds (λ k. phase F o m (ladder_rep F o m d.0 k)) (rep_count o.reps * passes)
            (λ k. phase-Adds (ladder_rep F o m d.0 k) (ladder_rep-Adds d.0 k)) 14 0 d.1,
      )

  suite_phases-Adds : Adds (22 * (rep_count o.reps * passes)) (suite_phases F o m)
  unfolding suite_phases
  suite_phases-Adds r =
      let r1 = phase F o m (int_lat_rep F o m) r in
      let r2 = phase F o m (int_thr_rep F o m) r1 in
      let r3 = phase F o m (mul_rep F o m) r2 in
      let r4 = phase F o m (fp_lat_rep F o m) r3 in
      let r5 = phase F o m (fp_thr_rep F o m) r4 in
      let r6 = ladder_phase F o m r5 in
      let b = mem_base F o m in
      let r7 = phase F o m (bandwidth_rep F o m b) r6 in
      omega (
        arith,
        phase-Adds (int_lat_rep F o m) int_lat_rep-Adds r,
        phase-Adds (int_thr_rep F o m) int_thr_rep-Adds r1,
        phase-Adds (mul_rep F o m) mul_rep-Adds r2,
        phase-Adds (fp_lat_rep F o m) fp_lat_rep-Adds r3,
        phase-Adds (fp_thr_rep F o m) fp_thr_rep-Adds r4,
        ladder_phase-Adds r5,
        phase-Adds (bandwidth_rep F o m b) (bandwidth_rep-Adds b) r6,
        latency_phase-Adds r7,
        parallel_phase-Adds (latency_phase F o m r7),
      )

  sampled_rep-Adds : (rep : ℕ) → Adds passes (λ r. sample_clock F o m (int_lat_rep F o m rep r))
  sampled_rep-Adds rep r =
      omega (arith, sample_clock-Adds (int_lat_rep F o m rep r), int_lat_rep-Adds rep r)

  -- Both chains at one period of the sweep.
  period_phases-Adds :
      (idx : Option Bytes) (k : ℕ)
      → Adds
          (2 * (rep_count o.reps * passes))
          (λ r. phase F o m (free_rep F o m idx k) (phase F o m (serial_rep F o m idx k) r))
  period_phases-Adds idx k r = omega (
    arith,
    phase-Adds (serial_rep F o m idx k) (serial_rep-Adds idx k) r,
    phase-Adds (free_rep F o m idx k) (free_rep-Adds idx k)
        (phase F o m (serial_rep F o m idx k) r),
  )

  sweep_phases-Adds : Adds (33 * (rep_count o.reps * passes)) (sweep_phases F o m)
  unfolding sweep_phases
  sweep_phases-Adds r =
      let r1 = phase F o m (λ rep r. sample_clock F o m (int_lat_rep F o m rep r)) r in
      let d = disp_idx F o m r1 in
      omega (
        arith,
        disp_idx-waits r1,
        phase-Adds (λ rep r. sample_clock F o m (int_lat_rep F o m rep r)) sampled_rep-Adds r,
        points-Adds
            (λ k r. phase F o m (free_rep F o m d.0 k) (phase F o m (serial_rep F o m d.0 k) r))
            (2 * (rep_count o.reps * passes)) (period_phases-Adds d.0) 16 0 d.1,
      )

  either-waits :
      (b : Bool) (x y : Run D) (n k l : ℕ)
      → x.waits ≡ 0 + k * n
      → y.waits ≡ 0 + l * n
      → (if b then x else y).waits ≡ (if b then k else l) * n
  either-waits true x y n k l f g = omega (arith, f)
  either-waits false x y n k l f g = omega (arith, g)

  -- Where there is a barrier, a thread calls it 44 times for each repetition, or 66 times in the
  -- diagnostic sweep, and where there is none, never: the number depends on the options alone, so it is
  -- the same whatever allocations fail, whatever the clocks say and however long the phases take.
  pub worker-waits :
      (w : Score.Worker D)
      → (worker F o m w).waits
        ≡ (if o.bar then (if o.disp_sweep then 66 else 44) * rep_count o.reps else 0)
  unfolding worker
  worker-waits w =
      let r = started F o m w in
      either-waits o.disp_sweep (sweep_phases F o m r) (suite_phases F o m r)
        (rep_count o.reps * passes) 33 22 (sweep_phases-Adds r) (suite_phases-Adds r)
      ∙ all_passes o.bar o.disp_sweep (rep_count o.reps)
