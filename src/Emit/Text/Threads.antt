-- ===== src/Emit/Text/Threads.antt =====
-- `text_threads` of bench/src/bench.c.
use cross_platform_benchmark.Prelude.{
  ℕ, Bool, true, false, List, [], ◌∷◌, ◌++◌, Bytes, codes, ltb, if◌then◌else◌, length, map,
}
use cross_platform_benchmark.Score.{
  Double, Result, DispStatus, disp_na, disp_ok, disp_none, of, is_positive,
}
use cross_platform_benchmark.Score.Suite.{Suite}
use cross_platform_benchmark.Emit.Text.{Column, line, left_by, right_by, first_by, dash}

-- "%-9s %-23s %8s %11s %11s\n".
abbrev pub thread_columns : List Column
thread_columns = first_by 9 true ∷ left_by 23 ∷ right_by 8 ∷ right_by 11 ∷ right_by 11 ∷ []

-- Rows that stand in the table under a condition.
abbrev when : Bool → List (List Bytes) → List (List Bytes)
when true rows = rows
when false rows = []

abbrev row : Bytes → Bytes → Bytes → Bytes → Bytes → List Bytes
row metric what unit total each = metric ∷ what ∷ unit ∷ total ∷ each ∷ []

module _ {D : Type 0} (F : Double D) (fixed : ℕ → D → Bytes) where
  abbrev cap_row : DispStatus → D → List (List Bytes)
  cap_row disp_ok cap =
      row (codes "DISPcap") (codes "indirect predictor size") (codes "calls") dash (fixed 0 cap)
      ∷ []
  cap_row disp_none cap =
      row (codes "DISPcap") (codes "indirect predictor size") (codes "calls") dash (codes "none")
      ∷ []
  cap_row disp_na cap = []

  -- The rows of the memory phases.
  abbrev memory_rows : Result D → D → List (List Bytes)
  memory_rows t n =
      row (codes "MEM") (codes "memory bandwidth") (codes "GB/s") (fixed 2 t.mem_gbps)
        (fixed 2 (F.div t.mem_gbps n))
      ∷ (when (is_positive F t.mem_lat_ns) (
            row (codes "MEMlat") (codes "memory latency") (codes "ns") dash (fixed 1 t.mem_lat_ns)
            ∷ [])
          ++ when (is_positive F t.mem_lat8_ns) (
              row (codes "MEMlat/8") (codes "latency, 8 chases") (codes "ns") dash
                (fixed 1 t.mem_lat8_ns)
              ∷ []))

  -- A rate: its total, and the mean of a thread.
  abbrev rate_row : Bytes → Bytes → Bytes → D → D → List Bytes
  rate_row metric what unit v n = row metric what unit (fixed 1 v) (fixed 1 (F.div v n))

  abbrev latency_row : Bytes → Bytes → Bytes → D → D → List Bytes
  latency_row metric what unit v n = row metric what unit dash (fixed 1 (F.div v n))

  abbrev ratio_row : Bytes → Bytes → D → List Bytes
  ratio_row metric what v = row metric what (codes "x") dash (fixed 2 v)

  unfoldable pub thread_rows : Suite D → ℕ → List (List Bytes)
  thread_rows s mem_per_thread =
      let t = s.total in
      let n = if ltb 0 (length s.threads) then of F (length s.threads) else of F 1 in
      row (codes "metric") (codes "what it measures") (codes "unit") (codes "total")
        (codes "per-thread")
      ∷ latency_row (codes "INT-lat") (codes "integer latency") (codes "Mop/s") t.int_lat n
      ∷ rate_row (codes "INT-thr") (codes "integer throughput") (codes "Mop/s") t.int_thr n
      ∷ rate_row (codes "MUL-thr") (codes "multiply throughput") (codes "Mmul/s") t.mul_thr n
      ∷ latency_row (codes "FP-lat") (codes "FP latency") (codes "Mflop/s") t.fp_lat n
      ∷ rate_row (codes "FP-thr") (codes "FP throughput") (codes "Mflop/s") t.fp_thr n
      ∷ rate_row (codes "DISP-thr") (codes "indirect dispatch rate") (codes "Mcall/s") t.disp_thr n
      ∷ (cap_row t.disp_status t.disp_cap
          ++ (when (ltb 0 mem_per_thread) (memory_rows t n)
              ++ (ratio_row (codes "ILP") (codes "instruction parallelism") t.ilp
                  ∷ ratio_row (codes "fILP") (codes "FP ops in flight") t.filp
                  ∷ (when (is_positive F t.mlp)
                        (ratio_row (codes "MLP") (codes "memory parallelism") t.mlp ∷ [])
                      ++ when (is_positive F t.score) (
                          row (codes "score") (codes "composite") (codes "geomean")
                            (fixed 1 t.score) dash
                          ∷ [])))))

  unfoldable pub text_threads : Suite D → ℕ → List Bytes
  unfolding thread_rows line
  text_threads s mem_per_thread = map (line thread_columns) (thread_rows s mem_per_thread)
