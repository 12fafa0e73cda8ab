-- ===== src/Worker/Team.antt =====
-- `run_workers` of bench/src/bench.c: the threads of one measurement, on the barrier that they share.
use cross_platform_benchmark.Prelude.{
  ℕ, zero, suc, ◌+◌, ◌*◌, ◌^◌, ◌<◌, ◌≡◌, ◌∙◌, refl, ap, ap₂, subst, Bool, true, false, not, ◌&&◌,
  List, [], ◌∷◌, Option, none, some, ltb, if◌then◌else◌, if-cases, length, map, replicate, All, ℤ,
  u64,
}
use cross_platform_benchmark.Score.{Double}
use cross_platform_benchmark.Score
use cross_platform_benchmark.Barrier.{Shim, Thread, running, Crew, Reach, plat_barrier_init, crew}
use cross_platform_benchmark.Barrier.Progress.{IsDone, Reach-finishes}
use cross_platform_benchmark.Worker.{Job, Machine, Run, rep_count}
use cross_platform_benchmark.Worker.Body.{worker}
use cross_platform_benchmark.Worker.Waits.{worker-waits}

-- The fields of `run_opts_t` that the threads are given.
pub record Opts (D : Type 0) : Type 0 where
  pub seconds : D
  pub warmup : D
  pub reps : ℤ
  pub mem_per_thread : ℕ
  pub seed : ℕ

-- Which of the calls of pthreads and of the allocator succeed, each thread's creation by its number.
pub record Host : Type 0 where
  pub mutex_init : Bool
  pub cond_init : Bool
  pub threads_alloc : Bool
  pub created : ℕ → Bool

-- The threads that were joined, with the barrier if there is one; the return value -1; or the end of
-- the process.
pub data Ended (D : Type 0) : Type 0 where
  joined : Option Shim → List (Run D) → Ended D
  failed : Ended D
  exited : Ended D

module _ {D : Type 0} (F : Double D) (o : Opts D) (sweep : Bool) where
  -- The job of thread `i`, with a barrier or without.
  abbrev pub job : Bool → ℕ → Score.Worker D → Job D
  job bar i w = record {
    cpu = w.cpu;
    bar = bar;
    mem_bytes = o.mem_per_thread;
    seconds = o.seconds;
    warmup = o.warmup;
    reps = o.reps;
    seed = u64 (o.seed + i * 0x9E3779B97F4A7C15 + 1);
    disp_sweep = sweep;
  }

  -- The threads from number `i` on, each on the machine as it finds it.
  unfoldable pub team : Bool → (ℕ → Machine D) → ℕ → List (Score.Worker D) → List (Run D)
  team bar machine i [] = []
  team bar machine i (w ∷ ws) = worker F (job bar i w) (machine i) w ∷ team bar machine (suc i) ws

  -- Whether every thread from number `i` on is created.
  unfoldable pub all_created : (ℕ → Bool) → ℕ → ℕ → Bool
  all_created created i zero = true
  all_created created i (suc left) = created i && all_created created (suc i) left

  abbrev pub has_bar : Option Shim → Bool
  has_bar none = false
  has_bar (some bar) = true

  abbrev pub run_joined : Host → (ℕ → Machine D) → List (Score.Worker D) → Option Shim → Ended D
  run_joined h machine ws bar =
      if not h.threads_alloc
      then failed
      else if all_created h.created 0 (length ws)
      then joined bar (team (has_bar bar) machine 0 ws)
      else exited

  abbrev pub with_bar : Host → (ℕ → Machine D) → List (Score.Worker D) → Option Shim → Ended D
  with_bar h machine ws none = failed
  with_bar h machine ws (some bar) = run_joined h machine ws (some bar)

  -- A barrier only where there is more than one thread.
  unfoldable pub run_workers : Host → (ℕ → Machine D) → List (Score.Worker D) → Ended D
  run_workers h machine ws =
      if ltb 1 (length ws)
      then with_bar h machine ws (plat_barrier_init h.mutex_init h.cond_init (length ws))
      else run_joined h machine ws none

  -- The barrier calls of the threads, from a new barrier.
  abbrev pub barrier_calls : Shim → List (Run D) → Crew
  barrier_calls bar runs = record { bar = bar; threads = map (λ r. running r.waits) runs }

  -- The calls of one thread, which are the same for all.
  abbrev calls : ℕ
  calls = (if sweep then 66 else 44) * rep_count o.reps

  team-crew :
      (machine : ℕ → Machine D) (i : ℕ) (ws : List (Score.Worker D))
      → map (λ (r : Run D). running r.waits) (team true machine i ws)
        ≡ replicate (length ws) (running calls)
  unfolding team
  team-crew machine i [] = refl
  team-crew machine i (w ∷ ws) =
      ap₂ (λ (t : Thread) (ts : List Thread). t ∷ ts)
        (ap running (worker-waits F (job true i w) (machine i) w)) (team-crew machine (suc i) ws)

  -- What is joined on a barrier starts as a crew of `n` threads that all make the same calls.
  abbrev OnCrew : ℕ → Ended D → Type 0
  OnCrew n (joined none runs) = Unit
  OnCrew n (joined (some bar) runs) = barrier_calls bar runs ≡ crew n calls
  OnCrew n failed = Unit
  OnCrew n exited = Unit

  run_joined-OnCrew :
      (h : Host) (machine : ℕ → Machine D) (ws : List (Score.Worker D)) (n : ℕ) (bar : Option Shim)
      → ((runs : List (Run D))
          → runs ≡ team (has_bar bar) machine 0 ws
          → OnCrew n (joined bar runs))
      → OnCrew n (run_joined h machine ws bar)
  run_joined-OnCrew h machine ws n bar k =
      if-cases (OnCrew n) (not h.threads_alloc) (λ _. tt)
        (λ _.
          if-cases (OnCrew n) (all_created h.created 0 (length ws))
            (λ _. k (team (has_bar bar) machine 0 ws) refl) (λ _. tt))

  with_bar-OnCrew :
      (h : Host) (machine : ℕ → Machine D) (ws : List (Score.Worker D)) (n : ℕ)
      → length ws ≡ n
      → OnCrew n (with_bar h machine ws (plat_barrier_init h.mutex_init h.cond_init n))
  with_bar-OnCrew h machine ws zero e = tt
  with_bar-OnCrew h machine ws (suc n) e =
      let bar : Shim = record { limit = suc n; waiting = 0; generation = 0 } in
      if-cases (λ b. OnCrew (suc n) (with_bar h machine ws b)) (h.mutex_init && h.cond_init)
        (λ _. run_joined-OnCrew h machine ws (suc n) (some bar) (λ runs made.
          ap (λ (ts : List Thread). record { bar = bar; threads = ts })
            (ap (map (λ (r : Run D). running r.waits)) made
              ∙ team-crew machine 0 ws
              ∙ ap (λ k. replicate k (running calls)) e)))
        (λ _. tt)

  run_workers-OnCrew :
      (h : Host) (machine : ℕ → Machine D) (ws : List (Score.Worker D))
      → OnCrew (length ws) (run_workers h machine ws)
  unfolding run_workers
  run_workers-OnCrew h machine ws =
      if-cases (OnCrew (length ws)) (ltb 1 (length ws))
        (λ _. with_bar-OnCrew h machine ws (length ws) refl)
        (λ _. run_joined-OnCrew h machine ws (length ws) none (λ _ _. tt))

  -- When several threads, fewer than 2^32, are joined, they have come through the barrier they
  -- share: from every state that the interleaving of their calls can reach, there is a way for all of them to make all calls.
  pub run_workers-finishes :
      (h : Host) (machine : ℕ → Machine D) (ws : List (Score.Worker D)) {bar : Shim}
      {runs : List (Run D)} {c : Crew}
      → 0 < length ws
      → length ws < 2 ^ 32
      → run_workers h machine ws ≡ joined (some bar) runs
      → Reach (barrier_calls bar runs) c
      → (d : Crew) × Reach c d × All IsDone d.threads
  run_workers-finishes h machine ws {bar} {runs} {c} pos small e path =
      let made : barrier_calls bar runs ≡ crew (length ws) calls =
        subst (OnCrew (length ws)) e (run_workers-OnCrew h machine ws) in
      let (_, _, done) =
        Reach-finishes (length ws) calls pos small (subst (λ s. Reach s c) made path) in
      done
