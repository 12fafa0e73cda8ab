-- ===== src/Main/Exit.antt =====
-- The exit status of a run of bench/src/bench.c.
use cross_platform_benchmark.Prelude.{
  ℕ, ◌+◌, ◌≤◌, ◌<◌, true, false, ◌&&◌, List, [], ◌∷◌, Bytes, ◌==◌, if◌then◌else◌, length, ◌≡◌,
}
use cross_platform_benchmark.Score.{Double}
use cross_platform_benchmark.Score.Suite.{Suite}
use cross_platform_benchmark.Http.Chunks.{max_reply}
use cross_platform_benchmark.Http.Reply.Total.{IsPeer}
use cross_platform_benchmark.Submit.{Submitted}
use cross_platform_benchmark.Emit.{Show}
use cross_platform_benchmark.Main.{World, Ended, stopped, ended, errors_after, Ran, Exited}

-- How many of the uploads failed.
abbrev pub failures : List Submitted → ℕ
failures [] = 0
failures (u ∷ us) = (if u.ok then 0 else 1) + failures us

-- A world whose `recv` gives bytes as long as it is asked to, and never more than there is room for.
abbrev pub IsFair : World → Type 0
IsFair w = IsPeer w.net.recv × (max_reply ≤ w.net.rounds)

module _ {D : Type 0} (F : Double D) (show : Show D) (fixed : ℕ → D → Bytes) where
  abbrev IsSum : ℕ → List Submitted → Type 0
  IsSum errors us = errors_after F show fixed errors us ≡ errors + failures us

  -- The uploads of a variant are counted.
  abbrev IsEnd : ℕ → Ended F show fixed → Type 0
  IsEnd errors stopped = Unit
  IsEnd errors (ended out us row) = IsSum errors us

  -- The run over `n` variants: it stopped early or has a row for each, and its errors are the failed
  -- uploads.
  record IsRan (n errors : ℕ) (r : Ran F show fixed) : Type 0 where
    counted : r.errors ≡ errors + failures r.uploads
    few : r.stopped_early ≡ true → length r.rows < n
    whole : r.stopped_early ≡ false → length r.rows ≡ n

  -- The status by the rows and the uploads of a run over `n` variants.
  abbrev HasStatus : ℕ → Exited F show fixed → Type 0
  HasStatus n r = r.status ≡ (if length r.rows == n && failures r.uploads == 0 then 0 else 1)
