-- ===== src/Score/Cores.antt =====
-- `collect_per_core` of bench/src/bench.c, the headline row of `run_variant` and `disp_cap_str`.
use cross_platform_benchmark.Prelude.{
  ◌≡◌, refl, ap, Bool, List, [], ◌∷◌, Option, none, some, Bytes, codes, if◌then◌else◌, ℤ, pos,
  negsuc, map, foldl,
}
use cross_platform_benchmark.Score.{
  Double, Worker, Result, DispStatus, disp_na, disp_ok, disp_none, of, summarize,
}
use cross_platform_benchmark.Score.Suite.{Suite, Clocks, noted, no_sums}

-- What holds on both branches holds of a choice by an option.
option-cases :
    {A B : Type 0} (P : B → Type 0) (q : Option A) (x : B) (f : A → B)
    → P x
    → ((a : A) → P (f a))
    → P (elim q [ none ↦ x | some a ↦ f a ])
option-cases P none x f h k = h
option-cases P (some a) x f h k = k a

module _ {D : Type 0} (F : Double D) where
  abbrev pub with_row :
      Result D → Option (List (Result D) × Suite D) → Option (List (Result D) × Suite D)
  with_row r none = none
  with_row r (some (rows, s)) = some (r ∷ rows, s)

  -- The loop over the CPUs; `run` is `run_workers` for a single worker on a CPU, -1 for none.
  unfoldable pub per_core_loop :
      Clocks F
      → (ℤ → Option (Worker D))
      → Bool
      → Suite D
      → List ℤ
      → Option (List (Result D) × Suite D)
  per_core_loop c run pin s [] = some ([], s)
  per_core_loop c run pin s (cpu ∷ cpus) = elim (run (if pin then cpu else negsuc 0)) [
    | none ↦ none
    | some w ↦
        with_row (summarize F c.given c.cpu_max_mhz c.dt_cpu_mhz w cpu)
          (per_core_loop c run pin (noted F s (w ∷ [])) cpus)
  ]

  abbrev with_cores : Option (List (Result D) × Suite D) → Option (Suite D)
  with_cores none = none
  with_cores (some (rows, s)) = some (record s { cores = rows })

  unfoldable pub collect_per_core :
      Clocks F → (ℤ → Option (Worker D)) → Suite D → List ℤ → Bool → Option (Suite D)
  unfolding per_core_loop
  collect_per_core c run s cpus pin = with_cores (per_core_loop c run pin s cpus)

  -- The row that the comparison of the variants ranks.
  abbrev faster : Result D → Result D → Result D
  faster best r = if F.lt best.score r.score then r else best

  unfoldable pub headline : Suite D → Result D
  headline s =
      if s.have_threads
      then s.total
      else foldl faster (record (no_sums F).tot { cpu = pos 0 }) s.cores

  abbrev OnCores : List ℤ → Option (List (Result D) × Suite D) → Type 0
  OnCores cpus none = Unit
  OnCores cpus (some (rows, s)) = map (λ (r : Result D). r.cpu) rows ≡ cpus

  with_row-OnCores :
      (r : Result D) (cpus : List ℤ) (q : Option (List (Result D) × Suite D))
      → OnCores cpus q
      → OnCores (r.cpu ∷ cpus) (with_row r q)
  with_row-OnCores r cpus none h = tt
  with_row-OnCores r cpus (some (rows, s)) h = ap (λ t. r.cpu ∷ t) h

  -- Every CPU of the sweep has its row, in the order of the list and under its own number, pinned or
  -- not, unless a worker could not be run.
  per_core_loop-cpu :
      (c : Clocks F) (run : ℤ → Option (Worker D)) (pin : Bool) (s : Suite D) (cpus : List ℤ)
      → OnCores cpus (per_core_loop c run pin s cpus)
  unfolding per_core_loop summarize
  per_core_loop-cpu c run pin s [] = refl
  per_core_loop-cpu c run pin s (cpu ∷ cpus) =
      let row : Worker D → Result D = λ w. summarize F c.given c.cpu_max_mhz c.dt_cpu_mhz w cpu in
      let rest : Worker D → _ = λ w. per_core_loop c run pin (noted F s (w ∷ [])) cpus in
      option-cases (OnCores (cpu ∷ cpus)) (run (if pin then cpu else negsuc 0)) none
        (λ w. with_row (row w) (rest w)) tt
        (λ w.
          with_row-OnCores (row w) cpus (rest w)
            (per_core_loop-cpu c run pin (noted F s (w ∷ [])) cpus))

  -- `disp_cap_str`; `show` is `%.0f`.
  unfoldable pub disp_cap_str : (D → Bytes) → DispStatus → D → Bytes
  disp_cap_str show disp_none cap = codes "none"
  disp_cap_str show disp_na cap = codes "-"
  disp_cap_str show disp_ok cap =
      if F.le cap (of F 0)
      then codes "-"
      else if F.lt cap (of F 8)
      then codes "<8"
      else if F.le (of F 16384) cap
      then codes ">=16384"
      else show cap
