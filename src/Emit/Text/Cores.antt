-- ===== src/Emit/Text/Cores.antt =====
-- The rows of the sweep over the cores in bench/src/bench.c, with their header and footer, and
-- `report_dram`.
use cross_platform_benchmark.Prelude.{
  ℕ, false, List, [], ◌∷◌, ◌++◌, Bytes, codes, if◌then◌else◌, take,
}
use cross_platform_benchmark.Score.{
  Double, Result, MhzSrc, mhz_estimated, mhz_read, mhz_given, mhz_rated, of, is_positive,
}
use cross_platform_benchmark.Score.Cores.{disp_cap_str}
use cross_platform_benchmark.Score.Suite.{Suite, core_spread}
use cross_platform_benchmark.Emit.{show_int}
use cross_platform_benchmark.Emit.Text.{Column, line, right_by, apart, first_by}

-- PER_CORE_FMT.
abbrev pub per_core_columns : List Column
per_core_columns =
    first_by 4 false
    ∷ right_by 6
    ∷ apart 8
    ∷ right_by 8
    ∷ right_by 5
    ∷ right_by 8
    ∷ apart 8
    ∷ right_by 8
    ∷ right_by 5
    ∷ apart 7
    ∷ right_by 7
    ∷ right_by 5
    ∷ apart 8
    ∷ right_by 7
    ∷ apart 8
    ∷ []

module _ {D : Type 0} (F : Double D) (fixed : ℕ → D → Bytes) where
  -- The clock's cell, in a buffer of 16 bytes.
  abbrev estimated : MhzSrc → Bytes → Bytes
  estimated mhz_estimated s = b'~' ∷ s
  estimated mhz_read s = s
  estimated mhz_given s = s
  estimated mhz_rated s = s

  abbrev mhz_cell : Result D → Bytes
  mhz_cell r =
      if F.le r.mhz (of F 0) then codes "?" else take 15 (estimated r.mhz_src (fixed 0 r.mhz))

  unfoldable pub core_cells : Result D → List Bytes
  core_cells r =
      show_int r.cpu
      ∷ mhz_cell r
      ∷ fixed 1 r.int_lat
      ∷ fixed 1 r.int_thr
      ∷ fixed 2 r.ilp
      ∷ fixed 1 r.mul_thr
      ∷ fixed 1 r.fp_lat
      ∷ fixed 1 r.fp_thr
      ∷ fixed 2 r.filp
      ∷ fixed 2 r.mem_gbps
      ∷ fixed 1 r.mem_lat_ns
      ∷ fixed 2 r.mlp
      ∷ fixed 1 r.disp_thr
      ∷ take 15 (disp_cap_str F (fixed 0) r.disp_status r.disp_cap)
      ∷ fixed 1 r.score
      ∷ []

  abbrev pub core_titles : List Bytes
  core_titles =
      codes "CPU"
      ∷ codes "MHz"
      ∷ codes "INT-lat"
      ∷ codes "INT-thr"
      ∷ codes "ILP"
      ∷ codes "MUL-thr"
      ∷ codes "FP-lat"
      ∷ codes "FP-thr"
      ∷ codes "fILP"
      ∷ codes "MEM"
      ∷ codes "MEMlat"
      ∷ codes "MLP"
      ∷ codes "DISP-thr"
      ∷ codes "DISPcap"
      ∷ codes "score"
      ∷ []

  abbrev pub core_units : List Bytes
  core_units =
      []
      ∷ []
      ∷ codes "Mop/s"
      ∷ codes "Mop/s"
      ∷ codes "x"
      ∷ codes "Mmul/s"
      ∷ codes "Mflop/s"
      ∷ codes "Mflop/s"
      ∷ codes "x"
      ∷ codes "GB/s"
      ∷ codes "ns"
      ∷ codes "x"
      ∷ codes "Mcall/s"
      ∷ codes "calls"
      ∷ codes "geomean"
      ∷ []

  unfoldable pub text_per_core_header : List Bytes
  unfolding line
  text_per_core_header = line per_core_columns core_titles ∷ line per_core_columns core_units ∷ []

  unfoldable pub text_per_core_row : Result D → Bytes
  unfolding core_cells line
  text_per_core_row r = line per_core_columns (core_cells r)

  unfoldable pub text_per_core_footer : Suite D → List Bytes
  text_per_core_footer s =
      let spread = core_spread F s.cores in
      if is_positive F spread
      then (codes "\nfastest/slowest core ratio: " ++ (fixed 2 spread ++ codes "x\n")) ∷ []
      else []

  -- Without the advice that is printed with `--verbose`.
  unfoldable pub report_dram : Bytes → D → D → List Bytes
  report_dram name lo hi =
      let named = codes "DRAM (" ++ (name ++ codes "): ") in
      if F.le hi (of F 0)
      then []
      else if F.lt (of F 1) (F.sub hi lo)
      then (named
          ++ (fixed 0 lo
              ++ (b'-' ∷ (fixed 0 hi ++ codes " MHz during memory phases (changed mid-run)\n"))))
        ∷ []
      else (named ++ (fixed 0 hi ++ codes " MHz during memory phases\n")) ∷ []
