-- ===== src/Worker/Measured.antt =====
-- How `collect_threads` and `collect_per_core` of bench/src/bench.c have the workers run: from zeroed
-- records with their CPUs, by `run_workers`.
use cross_platform_benchmark.Prelude.{
  ℕ, Bool, false, if◌then◌else◌, List, [], ◌∷◌, Option, none, some, map, replicate, ℤ,
}
use cross_platform_benchmark.Score.{Double, of}
use cross_platform_benchmark.Score
use cross_platform_benchmark.Worker.{Machine, Run}
use cross_platform_benchmark.Worker.Team.{Opts, Host, Ended, joined, failed, exited, run_workers}

-- What the system and the clocks answer to one call of `run_workers`, and whether there is room for the
-- workers and their rows.
pub record Place (D : Type 0) : Type 0 where
  pub alloc : Bool
  pub host : Host
  pub machine : ℕ → Machine D

module _ {D : Type 0} (F : Double D) where
  -- A record that `calloc` zeroed, with its CPU.
  abbrev pub zeroed : ℤ → Score.Worker D
  zeroed cpu = record {
    cpu = cpu;
    checksum = 0;
    int_lat_mops = of F 0;
    int_thr_mops = of F 0;
    mul_thr_mops = of F 0;
    fp_lat_mflops = of F 0;
    fp_thr_mflops = of F 0;
    mem_gbps = of F 0;
    mem_lat_ns = of F 0;
    mem_mlp_ns = of F 0;
    disp_ladder = replicate 14 (of F 0);
    mhz_observed = of F 0;
    dram_mhz_observed = of F 0;
  }

  -- The records after the join; `none` for -1 and for the end of the process, after either of which the
  -- program's status is 1 and no more is printed.
  abbrev pub finished : Ended D → Option (List (Score.Worker D))
  finished (joined bar runs) = some (map (λ (r : Run D). r.w) runs)
  finished failed = none
  finished exited = none

  unfoldable pub run_threads : Opts D → Place D → ℕ → List ℤ → Option (List (Score.Worker D))
  run_threads o p mem cpus =
      if p.alloc
      then finished (
          run_workers F (record o { mem_per_thread = mem }) false p.host p.machine
            (map zeroed cpus))
      else none

  abbrev only : Option (List (Score.Worker D)) → Option (Score.Worker D)
  only none = none
  only (some []) = none
  only (some (w ∷ ws)) = some w

  unfoldable pub run_core : Opts D → Place D → ℕ → ℤ → Option (Score.Worker D)
  unfolding run_threads
  run_core o p mem cpu = only (run_threads o p mem (cpu ∷ []))
