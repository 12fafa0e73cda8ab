-- ===== src/Barrier.antt =====
-- The barrier of bench/src/platform.h, for the platforms that have none: `plat_barrier_init` and
-- `plat_barrier_wait`. A thread holds the mutex from its entry to its wait or its return, so that each
-- of these sections is one step; any thread may take the next step.
pub mod Rounds
pub mod Progress
use cross_platform_benchmark.Prelude.{
  ℕ, zero, suc, ◌+◌, ◌-◌, ◌%◌, ◌^◌, ◌<◌, ◌≡◌, ◌≢◌, List, [], ◌∷◌, ◌++◌, Option, none, some, u32,
  Bool, ◌&&◌, if◌then◌else◌, replicate, All,
}

-- `plat_barrier_t`, without its mutex and its condition variable.
pub record Shim : Type 0 where
  pub limit : ℕ
  pub waiting : ℕ
  pub generation : ℕ

-- `none` is the return value -1; the mutex and the condition variable may fail to initialise.
abbrev pub plat_barrier_init : Bool → Bool → ℕ → Option Shim
plat_barrier_init mutex_init cond_init zero = none
plat_barrier_init mutex_init cond_init (suc n) =
    if mutex_init && cond_init
    then some (record { limit = suc n; waiting = 0; generation = 0 })
    else none

-- A thread with so many calls of `plat_barrier_wait` before it: between two of them, or in the loop
-- on the condition variable of one more, with its `mine`.
pub data Thread : Type 0 where
  running : ℕ → Thread
  blocked : ℕ → ℕ → Thread

-- The barrier and the threads that use it.
pub record Crew : Type 0 where
  pub bar : Shim
  pub threads : List Thread

-- One section of one thread: it enters and waits, it enters as the last one and opens the barrier, or
-- it wakes up after the barrier has opened. A wake-up before that changes nothing.
pub data Step (s t : Crew) : Type 0 where
  enter :
      (xs ys : List Thread) (k : ℕ)
      → s.threads ≡ xs ++ (running (suc k) ∷ ys)
      → u32 (s.bar.waiting + 1) ≢ s.bar.limit
      → t ≡ record {
        bar = record s.bar { waiting = u32 (s.bar.waiting + 1) };
        threads = xs ++ (blocked s.bar.generation k ∷ ys);
      }
      → Step s t
  release :
      (xs ys : List Thread) (k : ℕ)
      → s.threads ≡ xs ++ (running (suc k) ∷ ys)
      → u32 (s.bar.waiting + 1) ≡ s.bar.limit
      → t ≡ record {
        bar = record s.bar { waiting = 0; generation = u32 (s.bar.generation + 1) };
        threads = xs ++ (running k ∷ ys);
      }
      → Step s t
  wake :
      (xs ys : List Thread) (mine k : ℕ)
      → s.threads ≡ xs ++ (blocked mine k ∷ ys)
      → mine ≢ s.bar.generation
      → t ≡ record s { threads = xs ++ (running k ∷ ys) }
      → Step s t

-- Any order of steps.
pub data Reach (s : Crew) : Crew → Type 0 where
  here : Reach s s
  next : {t u : Crew} → Reach s t → Step t u → Reach s u

-- `n` threads that each wait `waits` times, with a new barrier.
abbrev pub crew : ℕ → ℕ → Crew
crew n waits = record {
  bar = record { limit = n; waiting = 0; generation = 0 };
  threads = replicate n (running waits);
}
