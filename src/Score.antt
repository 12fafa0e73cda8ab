-- ===== src/Score.antt =====
-- What bench/src/bench.c makes of the measured rates: `disp_summary`, `core_score`, `summarize`,
-- `aggregate` and the rows of a suite. A `double` is a value of a type with the operations that the
-- source uses on it; its arithmetic is the processor's.
pub mod Suite
pub mod Best
pub mod Rows
pub mod Cores
use cross_platform_benchmark.Prelude.{
  ℕ, zero, suc, ◌+◌, ◌-◌, ◌%◌, Bool, true, false, not, ◌&&◌, ◌||◌, List, [], ◌∷◌, ◌++◌, Option,
  none, some, ltb, leb, ◌==◌, if◌then◌else◌, length, get_or, take, drop, map, foldl, bit_xor, ℤ,
  pos, negsuc, replicate, is_negative,
}

-- `literal n k` is n / 10^k; a comparison with a NaN is false.
pub record Double (D : Type 0) : Type 0 where
  pub literal : ℕ → ℕ → D
  pub add : D → D → D
  pub sub : D → D → D
  pub mul : D → D → D
  pub div : D → D → D
  pub lt : D → D → Bool
  pub le : D → D → Bool
  pub eq : D → D → Bool
  pub log : D → D
  pub exp : D → D
  pub pow : D → D → D

-- `DISP_NA`, `DISP_OK` and `DISP_NONE`.
pub data DispStatus : Type 0 where
  disp_na disp_ok disp_none : DispStatus

-- The result fields of `worker_t`; `cpu` is -1 for a thread that is not pinned.
pub record Worker (D : Type 0) : Type 0 where
  pub cpu : ℤ
  pub checksum : ℕ
  pub int_lat_mops : D
  pub int_thr_mops : D
  pub mul_thr_mops : D
  pub fp_lat_mflops : D
  pub fp_thr_mflops : D
  pub mem_gbps : D
  pub mem_lat_ns : D
  pub mem_mlp_ns : D
  pub disp_ladder : List D
  pub mhz_observed : D
  pub dram_mhz_observed : D

-- What `disp_summary` returns and writes.
pub record Disp (D : Type 0) : Type 0 where
  pub status : DispStatus
  pub thr : D
  pub cap : D
  pub gain : D
  pub span : D

pub data MhzSrc : Type 0 where
  mhz_read mhz_given mhz_rated mhz_estimated : MhzSrc

-- The constant's value.
abbrev pub rank : MhzSrc → ℕ
rank mhz_read = 0
rank mhz_given = 1
rank mhz_rated = 2
rank mhz_estimated = 3

-- `result_t`.
pub record Result (D : Type 0) : Type 0 where
  pub cpu : ℤ
  pub mhz : D
  pub mhz_src : MhzSrc
  pub int_lat : D
  pub int_thr : D
  pub mul_thr : D
  pub fp_lat : D
  pub fp_thr : D
  pub mem_gbps : D
  pub mem_lat_ns : D
  pub mem_lat8_ns : D
  pub ilp : D
  pub filp : D
  pub mlp : D
  pub disp_thr : D
  pub disp_cap : D
  pub disp_gain : D
  pub disp_span : D
  pub disp_status : DispStatus
  pub score : D

module _ {D : Type 0} (F : Double D) where
  abbrev pub of : ℕ → D
  of n = F.literal n 0

  -- `x > 0.0`.
  abbrev pub is_positive : D → Bool
  is_positive x = F.lt (of 0) x

  -- `keep_best_rate` and `keep_best_lat`: the best after a candidate.
  unfoldable pub keep_best_rate : D → D → D
  keep_best_rate best candidate = if F.lt best candidate then candidate else best

  unfoldable pub keep_best_lat : D → D → D
  keep_best_lat best candidate =
      if is_positive candidate && (F.le best (of 0) || F.lt candidate best) then candidate else best

  -- The loop of `geomean`, over the sum of the logarithms and their number.
  pub geomean_loop : List D → D → ℕ → D
  geomean_loop [] s m = if ltb 0 m then F.exp (F.div s (of m)) else of 0
  geomean_loop (v ∷ vs) s m =
      let used = geomean_loop vs (F.add s (F.log v)) (m + 1) in
      let skipped = geomean_loop vs s m in if is_positive v then used else skipped

  pub geomean : List D → D
  unfolding geomean_loop
  geomean vs = geomean_loop vs (of 0) 0

  -- The best of the first points; `none` when one was not measured.
  unfoldable pub plateau_loop : List D → D → Option D
  plateau_loop [] plateau = some plateau
  plateau_loop (v ∷ vs) plateau =
      let rest = plateau_loop vs (if F.lt plateau v then v else plateau) in
      if F.le v (of 0) then none else rest

  abbrev clipped : D → D
  clipped q = let low = if F.lt (of 1) q then of 1 else q in if F.lt low (of 0) then of 0 else low

  pub span_loop : D → D → List D → D → D
  span_loop floor plateau [] span = span
  span_loop floor plateau (v ∷ vs) span =
      span_loop floor plateau vs
        (F.add span (clipped (F.div (F.sub v floor) (F.sub plateau floor))))

  abbrev pub disp_unmeasured : Disp D
  disp_unmeasured = record { status = disp_na; thr = of 0; cap = of 0; gain = of 0; span = of 0 }

  abbrev min_gain : D
  min_gain = F.literal 115 2

  -- Behind the measured plateau: the first span point is the period 8.
  unfoldable pub disp_measured : List D → D → D → D → Disp D
  unfolding span_loop
  disp_measured ladder plateau floor ref =
      let gain = F.div plateau floor in
      let span = span_loop floor plateau (take 12 (drop 1 ladder)) (of 0) in
      if F.lt gain min_gain
      then (if F.lt (F.div ref floor) min_gain
          then record { status = disp_none; thr = plateau; cap = of 0; gain = gain; span = of 0 }
          else record {
            status = disp_ok;
            thr = plateau;
            cap = F.div (of 8) (of 2);
            gain = gain;
            span = of 0;
          })
      else record {
        status = disp_ok;
        thr = plateau;
        cap = F.mul (of 8) (F.pow (of 2) (F.sub span (of 1)));
        gain = gain;
        span = span;
      }

  abbrev pub with_plateau : List D → Option D → Disp D
  with_plateau ladder none = disp_unmeasured
  with_plateau ladder (some plateau) =
      let floor = get_or ladder 13 (of 0) in
      let ref = get_or ladder 0 (of 0) in
      if F.le plateau (of 0) || F.le floor (of 0) || F.le ref (of 0)
      then disp_unmeasured
      else disp_measured ladder plateau floor ref

  -- The ladder has 14 points: the reference, the span and the floor; three points make the plateau.
  unfoldable pub disp_summary : List D → Disp D
  unfolding plateau_loop
  disp_summary ladder = with_plateau ladder (plateau_loop (take 3 (drop 1 ladder)) (of 0))

  -- Predictor capacity in the score.
  abbrev capacity : DispStatus → D → D
  capacity disp_na span = of 0
  capacity disp_ok span = F.mul (F.add span (of 1)) (of 2000)
  capacity disp_none span = F.mul (F.add span (of 1)) (of 2000)

  unfoldable pub core_score : Worker D → D
  core_score w =
      let d = disp_summary w.disp_ladder in
      geomean (
        w.int_thr_mops
        ∷ w.fp_thr_mflops
        ∷ F.mul d.thr (of 20)
        ∷ (if is_positive w.mem_mlp_ns then F.mul (F.div (of 1000) w.mem_mlp_ns) (of 100) else of 0)
        ∷ F.mul w.mul_thr_mops (of 4)
        ∷ capacity d.status d.span
        ∷ [])

  unfoldable pub machine_score : Result D → ℕ → D
  machine_score t n = geomean (
      t.int_thr
      ∷ t.fp_thr
      ∷ F.mul t.disp_thr (of 20)
      ∷ (if is_positive t.mem_lat8_ns
          then F.mul (F.mul (of n) (F.div (of 1000) t.mem_lat8_ns)) (of 100)
          else of 0)
      ∷ F.mul t.mul_thr (of 4)
      ∷ capacity t.disp_status t.disp_span
      ∷ [])

  abbrev pub ratio : D → D → D
  ratio over under = if is_positive under then F.div over under else of 0

  -- The clock of a row and where it came from; `given`, `max` and `dt` are what the operator, cpufreq
  -- and the device tree say.
  unfoldable pub clock : D → D → D → D → D → D × MhzSrc
  clock given max dt observed int_lat =
      let rated = if F.le max (of 0) then dt else max in
      let mhz = if F.le observed (of 0) then rated else observed in
      let src = if F.le observed (of 0) && is_positive rated then mhz_rated else mhz_read in
      if is_positive given
      then (given, mhz_given)
      else if F.le mhz (of 0)
      then (int_lat, mhz_estimated)
      else (mhz, src)

  unfoldable pub summarize : D → (ℤ → D) → (ℤ → D) → Worker D → ℤ → Result D
  summarize given cpu_max_mhz dt_cpu_mhz w cpu =
      let c = clock given (cpu_max_mhz cpu) (dt_cpu_mhz cpu) w.mhz_observed w.int_lat_mops in
      let d = disp_summary w.disp_ladder in
      record {
        cpu = cpu;
        mhz = c.0;
        mhz_src = c.1;
        int_lat = w.int_lat_mops;
        int_thr = w.int_thr_mops;
        mul_thr = w.mul_thr_mops;
        fp_lat = w.fp_lat_mflops;
        fp_thr = w.fp_thr_mflops;
        mem_gbps = w.mem_gbps;
        mem_lat_ns = w.mem_lat_ns;
        mem_lat8_ns = w.mem_mlp_ns;
        ilp = ratio w.int_thr_mops w.int_lat_mops;
        filp = ratio w.fp_thr_mflops w.fp_lat_mflops;
        mlp = ratio w.mem_lat_ns w.mem_mlp_ns;
        disp_thr = d.thr;
        disp_cap = d.cap;
        disp_gain = d.gain;
        disp_span = d.span;
        disp_status = d.status;
        score = core_score w;
      }
