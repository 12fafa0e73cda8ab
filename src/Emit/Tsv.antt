-- ===== src/Emit/Tsv.antt =====
-- The TSV emitters of bench/src/bench.c: `tsv_num`, `tsv_result` and `emit_tsv`, without the checksum,
-- which goes to the other stream.
pub mod Columns
use cross_platform_benchmark.Prelude.{
  ℕ, Bool, true, false, not, ◌&&◌, List, [], ◌∷◌, ◌++◌, Bytes, codes, if◌then◌else◌, ℤ, is_negative,
}
use cross_platform_benchmark.Score.{Double, Result, is_positive}
use cross_platform_benchmark.Score.Suite.{Suite}
use cross_platform_benchmark.Emit.{Show, show_int, mhz_src_name, concat}
use cross_platform_benchmark.Emit.Json.{is_ok, is_na}

-- Texts with a tab in front of each.
abbrev tabbed : List Bytes → Bytes
tabbed [] = []
tabbed (s ∷ ss) = 9 ∷ (s ++ tabbed ss)

-- `RESULT_COLUMNS`.
abbrev pub result_columns : Bytes
result_columns =
    codes "variant"
    ++ (tabbed (
          codes "scope"
          ∷ codes "cpu"
          ∷ codes "mhz"
          ∷ codes "mhz_src"
          ∷ codes "int_lat_mops"
          ∷ codes "int_thr_mops"
          ∷ codes "ilp"
          ∷ codes "mul_thr_mmul_s"
          ∷ codes "fp_lat_mflops"
          ∷ codes "fp_thr_mflops"
          ∷ codes "filp"
          ∷ codes "mem_gbps"
          ∷ codes "mem_lat_ns"
          ∷ codes "mem_lat8_ns"
          ∷ codes "mlp"
          ∷ codes "disp_thr_mcall_s"
          ∷ codes "disp_cap_calls"
          ∷ codes "disp_gain"
          ∷ codes "disp_span"
          ∷ codes "score"
          ∷ [])
        ++ (10 ∷ []))

module _ {D : Type 0} (F : Double D) (show : Show D) where
  unfoldable pub tsv_num : D → Bool → Bytes
  tsv_num v ok = if ok && is_positive F v then 9 ∷ show.six v else 9 ∷ []

  abbrev pub tsv_cpu : ℤ → Bytes
  tsv_cpu cpu = if is_negative cpu then 9 ∷ [] else 9 ∷ show_int cpu

  unfoldable pub tsv_result : Bytes → Bytes → Result D → List Bytes
  tsv_result variant scope r =
      (variant ++ (9 ∷ scope))
      ∷ tsv_cpu r.cpu
      ∷ tsv_num r.mhz true
      ∷ (9 ∷ (if is_positive F r.mhz then mhz_src_name r.mhz_src else codes "unknown"))
      ∷ tsv_num r.int_lat true
      ∷ tsv_num r.int_thr true
      ∷ tsv_num r.ilp true
      ∷ tsv_num r.mul_thr true
      ∷ tsv_num r.fp_lat true
      ∷ tsv_num r.fp_thr true
      ∷ tsv_num r.filp true
      ∷ tsv_num r.mem_gbps true
      ∷ tsv_num r.mem_lat_ns true
      ∷ tsv_num r.mem_lat8_ns true
      ∷ tsv_num r.mlp true
      ∷ tsv_num r.disp_thr true
      ∷ tsv_num r.disp_cap (is_ok r.disp_status)
      ∷ tsv_num r.disp_gain true
      ∷ tsv_num r.disp_span (not (is_na r.disp_status))
      ∷ tsv_num r.score true
      ∷ (10 ∷ [])
      ∷ []

  abbrev pub tsv_rows : Bytes → Bytes → List (Result D) → List Bytes
  tsv_rows variant scope [] = []
  tsv_rows variant scope (r ∷ rs) = tsv_result variant scope r ++ tsv_rows variant scope rs

  -- The header only in front of the first variant.
  unfoldable pub emit_tsv : Suite D → Bytes → Bool → List Bytes
  emit_tsv s variant first =
      (if first then result_columns ∷ [] else [])
      ++ (tsv_rows variant (codes "thread") s.threads
          ++ ((if s.have_threads then tsv_result variant (codes "total") s.total else [])
              ++ tsv_rows variant (codes "cpu") s.cores))
