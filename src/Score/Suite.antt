-- ===== src/Score/Suite.antt =====
-- `aggregate`, `note_dram`, `collect_threads`, `collect_per_core` and `core_spread` of
-- bench/src/bench.c. The counts that `aggregate` keeps in doubles are numbers here: they count rows.
use cross_platform_benchmark.Prelude.{
  ℕ, zero, suc, ◌%◌, Bool, true, false, ◌||◌, List, [], ◌∷◌, Option, none, some, ltb, if◌then◌else◌,
  length, get_or, foldl, bit_xor, ℤ, negsuc,
}
use cross_platform_benchmark.Score.{
  Double, Worker, Result, DispStatus, disp_na, disp_ok, disp_none, MhzSrc, mhz_read, rank, of,
  is_positive, ratio, machine_score, summarize,
}

-- The sums and counts of `aggregate`.
pub record Sums (D : Type 0) : Type 0 where
  pub tot : Result D
  pub lat_n : ℕ
  pub mlp_n : ℕ
  pub cap_n : ℕ
  pub mhz_n : ℕ
  pub cap_none : ℕ

-- `suite_t`.
pub record Suite (D : Type 0) : Type 0 where
  pub threads : List (Result D)
  pub total : Result D
  pub have_threads : Bool
  pub cores : List (Result D)
  pub checksum : ℕ
  pub dram_lo : D
  pub dram_hi : D

abbrev pub counted : Bool → ℕ → ℕ
counted true n = suc n
counted false n = n

abbrev pub weaker : MhzSrc → MhzSrc → MhzSrc
weaker a b = if ltb (rank a) (rank b) then b else a

-- The status of the total by the counts.
abbrev pub total_status : ℕ → ℕ → DispStatus
total_status (suc cap_n) cap_none = disp_ok
total_status zero (suc cap_none) = disp_none
total_status zero zero = disp_na

module _ {D : Type 0} (F : Double D) where
  unfoldable pub no_sums : Sums D
  no_sums =
      let z = of F 0 in
      record {
        tot = record {
          cpu = negsuc 0;
          mhz = z;
          mhz_src = mhz_read;
          int_lat = z;
          int_thr = z;
          mul_thr = z;
          fp_lat = z;
          fp_thr = z;
          mem_gbps = z;
          mem_lat_ns = z;
          mem_lat8_ns = z;
          ilp = z;
          filp = z;
          mlp = z;
          disp_thr = z;
          disp_cap = z;
          disp_gain = z;
          disp_span = z;
          disp_status = disp_na;
          score = z;
        };
        lat_n = 0;
        mlp_n = 0;
        cap_n = 0;
        mhz_n = 0;
        cap_none = 0;
      }

  abbrev pub added : Bool → D → D → D
  added true total v = F.add total v
  added false total v = total

  -- Whether a row's capacity counts, and whether it says that there is none.
  abbrev pub has_cap : Result D → Bool
  has_cap r = elim r.disp_status [
    | disp_ok ↦ is_positive F r.disp_cap
    | disp_na ↦ false
    | disp_none ↦ false
  ]

  abbrev pub lacks_cap : Result D → Bool
  lacks_cap r = elim r.disp_status [ disp_none ↦ true | disp_ok ↦ false | disp_na ↦ false ]

  -- The body of the loop of `aggregate`.
  unfoldable pub add_row : Sums D → Result D → Sums D
  add_row s r =
      let t = s.tot in
      record {
        tot = record {
          cpu = t.cpu;
          mhz = added (is_positive F r.mhz) t.mhz r.mhz;
          mhz_src = weaker t.mhz_src r.mhz_src;
          int_lat = F.add t.int_lat r.int_lat;
          int_thr = F.add t.int_thr r.int_thr;
          mul_thr = F.add t.mul_thr r.mul_thr;
          fp_lat = F.add t.fp_lat r.fp_lat;
          fp_thr = F.add t.fp_thr r.fp_thr;
          mem_gbps = F.add t.mem_gbps r.mem_gbps;
          mem_lat_ns = added (is_positive F r.mem_lat_ns) t.mem_lat_ns r.mem_lat_ns;
          mem_lat8_ns = added (is_positive F r.mem_lat8_ns) t.mem_lat8_ns r.mem_lat8_ns;
          ilp = t.ilp;
          filp = t.filp;
          mlp = t.mlp;
          disp_thr = F.add t.disp_thr r.disp_thr;
          disp_cap = added (has_cap r) t.disp_cap r.disp_cap;
          disp_gain = F.add t.disp_gain r.disp_gain;
          disp_span = F.add t.disp_span r.disp_span;
          disp_status = t.disp_status;
          score = t.score;
        };
        lat_n = counted (is_positive F r.mem_lat_ns) s.lat_n;
        mlp_n = counted (is_positive F r.mem_lat8_ns) s.mlp_n;
        cap_n = counted (has_cap r) s.cap_n;
        mhz_n = counted (is_positive F r.mhz) s.mhz_n;
        cap_none = counted (lacks_cap r) s.cap_none;
      }

  abbrev mean : D → ℕ → D
  mean total n = if ltb 0 n then F.div total (of F n) else total

  -- Behind the loop; the score, which reads the other fields, is set last.
  unfoldable pub finish : Sums D → ℕ → Result D
  finish s n =
      let t = s.tot in
      let d = if ltb 0 n then of F n else of F 1 in
      let scored : D → Result D = λ score. record {
        cpu = t.cpu;
        mhz = mean t.mhz s.mhz_n;
        mhz_src = t.mhz_src;
        int_lat = t.int_lat;
        int_thr = t.int_thr;
        mul_thr = t.mul_thr;
        fp_lat = t.fp_lat;
        fp_thr = t.fp_thr;
        mem_gbps = t.mem_gbps;
        mem_lat_ns = mean t.mem_lat_ns s.lat_n;
        mem_lat8_ns = mean t.mem_lat8_ns s.mlp_n;
        ilp = ratio F t.int_thr t.int_lat;
        filp = ratio F t.fp_thr t.fp_lat;
        mlp = ratio F (mean t.mem_lat_ns s.lat_n) (mean t.mem_lat8_ns s.mlp_n);
        disp_thr = t.disp_thr;
        disp_cap = mean t.disp_cap s.cap_n;
        disp_gain = F.div t.disp_gain d;
        disp_span = F.div t.disp_span d;
        disp_status = total_status s.cap_n s.cap_none;
        score = score;
      } in
      scored (machine_score F (scored t.score) n)

  unfoldable pub aggregate : List (Result D) → Result D
  unfolding add_row no_sums finish
  aggregate rows = finish (foldl add_row no_sums rows) (length rows)

  -- The low and the high end of the memory clocks seen.
  unfoldable pub note_dram : D × D → D → D × D
  note_dram (lo, hi) mhz =
      let hi' = if F.lt hi mhz then mhz else hi in
      let lo' = if F.eq lo (of F 0) || F.lt mhz lo then mhz else lo in
      if F.le mhz (of F 0) then (lo, hi) else (lo', hi')

  -- What a suite keeps of the workers of a run: their clocks and checksums.
  unfoldable pub noted : Suite D → List (Worker D) → Suite D
  unfolding note_dram
  noted s [] = s
  noted s (w ∷ ws) =
      let d = note_dram (s.dram_lo, s.dram_hi) w.dram_mhz_observed in
      noted
        (record {
          threads = s.threads;
          total = s.total;
          have_threads = s.have_threads;
          cores = s.cores;
          checksum = bit_xor s.checksum w.checksum;
          dram_lo = d.0;
          dram_hi = d.1;
        })
        ws

  -- `core_spread`, its loop over the best and the worst score.
  unfoldable pub spread_loop : List (Result D) → D → D → D × D
  spread_loop [] best worst = (best, worst)
  spread_loop (r ∷ rs) best worst =
      let v = r.score in
      let best' = if F.lt best v then v else best in
      let worst' = if F.eq worst (of F 0) || F.lt v worst then v else worst in
      let skipped = spread_loop rs best worst in
      let counted = spread_loop rs best' worst' in if F.le v (of F 0) then skipped else counted

  unfoldable pub core_spread : List (Result D) → D
  unfolding spread_loop
  core_spread cores =
      let p = spread_loop cores (of F 0) (of F 0) in
      if is_positive F p.1 then F.div p.0 p.1 else of F 0

  -- What `summarize` needs beside the worker: the operator's clock, and what the machine declares.
  pub record Clocks : Type 0 where
    pub given : D
    pub cpu_max_mhz : ℤ → D
    pub dt_cpu_mhz : ℤ → D

  -- The CPU that each of the threads from `i` on is pinned to, -1 for none.
  abbrev pub thread_cpus : ℕ → ℕ → Bool → List ℤ → List ℤ
  thread_cpus zero i pin cpus = []
  thread_cpus (suc n) i pin cpus =
      (if pin then get_or cpus (i % length cpus) (negsuc 0) else negsuc 0)
      ∷ thread_cpus n (suc i) pin cpus

  abbrev summarized : Clocks → List (Worker D) → List (Result D)
  summarized c [] = []
  summarized c (w ∷ ws) = summarize F c.given c.cpu_max_mhz c.dt_cpu_mhz w w.cpu ∷ summarized c ws

  abbrev collected : Clocks → Suite D → Option (List (Worker D)) → Option (Suite D)
  collected c s none = none
  collected c s (some ws) =
      let n = noted s ws in
      let rows = summarized c ws in
      some (record {
        threads = rows;
        total = aggregate rows;
        have_threads = true;
        cores = n.cores;
        checksum = n.checksum;
        dram_lo = n.dram_lo;
        dram_hi = n.dram_hi;
      })

  -- `run` is `run_workers`: what the threads on these CPUs measured, if they all started.
  unfoldable pub collect_threads :
      Clocks → (List ℤ → Option (List (Worker D))) → Suite D → ℕ → Bool → List ℤ → Option (Suite D)
  unfolding noted aggregate
  collect_threads c run s threads pin cpus = collected c s (run (thread_cpus threads 0 pin cpus))
