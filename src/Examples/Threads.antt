-- ===== src/Examples/Threads.antt =====
-- The theorems on the barrier and on the measuring threads, at concrete inputs.
use cross_platform_benchmark.Prelude.{
  ℕ, ◌*◌, ◌<◌, ◌≡◌, ◌⊎◌, refl, true, false, List, [], ◌∷◌, some, All, arith, pos, if◌then◌else◌,
  ◌/◌, ◌+◌, get_or,
}
use cross_platform_benchmark.Barrier.{running, blocked, Crew, Step, enter, Reach, here, next, crew}
use cross_platform_benchmark.Barrier.Rounds.{IsAt, Reach-IsAt}
use cross_platform_benchmark.Barrier.Progress.{IsDone, total_weight, Reach-finishes}
use cross_platform_benchmark.Worker.{Job, Machine, Run, rep_count, reps_loop}
use cross_platform_benchmark.Worker.Body.{
  worker, started, built_chases, with_chases, latency_rep, parallel_rep,
}
use cross_platform_benchmark.Chase.{Built}
use cross_platform_benchmark.Kernels.Memory.{chase_at}
use cross_platform_benchmark.Worker.Chased.{built_chases-followed}
use cross_platform_benchmark.Worker.Waits.{worker-waits}
use cross_platform_benchmark.Worker.Team.{
  Opts, Host, team, all_created, run_workers, barrier_calls, run_workers-finishes,
}
use cross_platform_benchmark.Examples.Report.{numbers, measured}

-- The first of two threads waits, the other one has not come yet.
abbrev one_waits : Crew
one_waits = record {
  bar = record { limit = 2; waiting = 1; generation = 0 };
  threads = blocked 0 2 ∷ running 3 ∷ [];
}

one_waits-Reach : Reach (crew 2 3) one_waits
one_waits-Reach = next here (enter [] (running 3 ∷ []) 2 refl (λ e. omega (arith, e)) refl)

Reach-IsAt_example : (r : ℕ) × IsAt 3 r one_waits
Reach-IsAt_example = Reach-IsAt 2 3 (omega arith) (omega arith) one_waits-Reach

Reach-finishes_example :
    (All IsDone one_waits.threads ⊎ ((d : Crew) × Step one_waits d))
    × ((d : Crew) → Step one_waits d → total_weight d.threads < total_weight one_waits.threads)
    × ((d : Crew) × Reach one_waits d × All IsDone d.threads)
Reach-finishes_example = Reach-finishes 2 3 (omega arith) (omega arith) one_waits-Reach

abbrev short_job : Job ℕ
short_job = record {
  cpu = pos 0;
  bar = true;
  mem_bytes = 1048576;
  seconds = 1;
  warmup = 1;
  reps = pos 3;
  seed = 42;
  disp_sweep = false;
}

-- A machine without memory for the selectors and for one of the orders.
abbrev pub small_machine : Machine ℕ
small_machine = record {
  current_cpu = pos 0;
  base = some 4096;
  idx_alloc = false;
  order_alloc = λ n. false;
  timed = λ k sec first. (first ∷ 2 * first ∷ [], sec);
  warm_rounds = λ k. 1;
  cpu_cur_mhz = λ k. 2400;
  dram_mhz = λ k. 0;
  to_bits = λ x. x;
}

worker-waits_example : (worker numbers short_job small_machine measured).waits ≡ (
    if short_job.bar
    then (if short_job.disp_sweep then 66 else 44) * rep_count short_job.reps
    else 0)
worker-waits_example = worker-waits numbers short_job small_machine measured

abbrev pub options : Opts ℕ
options = record { seconds = 1; warmup = 1; reps = pos 3; mem_per_thread = 0; seed = 42 }

abbrev pub team_host : Host
team_host = record {
  mutex_init = true;
  cond_init = true;
  threads_alloc = true;
  created = λ i. true;
}

abbrev two_runs : List (Run ℕ)
two_runs = team numbers options false true (λ i. small_machine) 0 (measured ∷ measured ∷ [])

run_workers-finishes_example :
    (d : Crew) × Reach
      (barrier_calls numbers options false
        (record { limit = 2; waiting = 0; generation = 0 })
        two_runs)
      d
    × All IsDone d.threads
unfolding run_workers all_created
run_workers-finishes_example =
    run_workers-finishes numbers options false team_host (λ i. small_machine)
      (measured ∷ measured ∷ []) {bar = record { limit = 2; waiting = 0; generation = 0 }}
      {runs = two_runs} (omega arith) (omega arith) refl here

abbrev whole_machine : Machine ℕ
whole_machine = record small_machine { order_alloc = λ n. true }

abbrev at_start : Run ℕ
at_start = started numbers short_job whole_machine measured

built_chases-followed_example :
    (b : Built) × (built_chases numbers short_job whole_machine 8 at_start ≡ some b)
    × ((left rep : ℕ)
        → ((reps_loop left rep
              (latency_rep numbers short_job whole_machine (some b))
              (with_chases numbers short_job whole_machine (some b) at_start)).memory
            ≡ b.memory)
          × ((reps_loop left rep
                (parallel_rep numbers short_job whole_machine (some b))
                (with_chases numbers short_job whole_machine (some b) at_start)).memory
              ≡ b.memory))
    × ((w k : ℕ)
        → w < 8
        → (q : ℕ) × (q < 1048576 / 64 / 8)
          × (chase_at b.memory (get_or b.heads w 0) [] k ≡ 4096 + (q * 8 + w) * 64))
built_chases-followed_example =
    built_chases-followed numbers short_job whole_machine 4096 8 at_start refl (omega arith)
      (omega arith) refl (omega arith) (omega arith)
