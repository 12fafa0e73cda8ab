-- ===== src/Emit/Text/Variants.antt =====
-- `text_variant_table` of bench/src/bench.c.
use cross_platform_benchmark.Prelude.{
  ℕ, Bool, true, false, ◌&&◌, List, [], ◌∷◌, Bytes, codes, if◌then◌else◌, map,
}
use cross_platform_benchmark.Score.{Double, Result, of, is_positive}
use cross_platform_benchmark.Emit.Text.{Column, line, right_by, first_by, dash}

-- "%-14s %9s %9s %9s %9s %8s %9s %7s\n".
abbrev pub variant_columns : List Column
variant_columns =
    first_by 14 true
    ∷ right_by 9
    ∷ right_by 9
    ∷ right_by 9
    ∷ right_by 9
    ∷ right_by 8
    ∷ right_by 9
    ∷ right_by 7
    ∷ []

module _ {D : Type 0} (F : Double D) (fixed : ℕ → D → Bytes) where
  -- A row of the table of the variants; `base` is the score of the first.
  unfoldable pub variant_cells : D → Bytes → Result D → List Bytes
  variant_cells base name r =
      name
      ∷ fixed 1 r.int_thr
      ∷ fixed 1 r.mul_thr
      ∷ fixed 1 r.fp_lat
      ∷ fixed 1 r.fp_thr
      ∷ fixed 2 r.mem_gbps
      ∷ fixed 1 r.score
      ∷ (if is_positive F base && is_positive F r.score then fixed 3 (F.div r.score base) else dash)
      ∷ []

  abbrev pub variant_titles : List Bytes
  variant_titles =
      codes "variant"
      ∷ codes "INT-thr"
      ∷ codes "MUL-thr"
      ∷ codes "FP-lat"
      ∷ codes "FP-thr"
      ∷ codes "MEM"
      ∷ codes "score"
      ∷ codes "vs base"
      ∷ []

  abbrev pub variant_units : List Bytes
  variant_units =
      []
      ∷ codes "Mop/s"
      ∷ codes "Mmul/s"
      ∷ codes "Mflop/s"
      ∷ codes "Mflop/s"
      ∷ codes "GB/s"
      ∷ codes "geomean"
      ∷ codes "x"
      ∷ []

  abbrev pub base_score : List (Bytes × Result D) → D
  base_score [] = of F 0
  base_score ((name, r) ∷ rows) = r.score

  abbrev table_title : Bool → Bytes
  table_title true = codes "\nwhole machine across variants  (the total row)\n"
  table_title false = codes "\nfastest core across variants  (best row of the per-core sweep)\n"

  -- Without the prose that is printed with `--verbose`; a row has its variant's name.
  unfoldable pub text_variant_table : List (Bytes × Result D) → Bool → List Bytes
  unfolding line variant_cells
  text_variant_table rows whole_machine =
      table_title whole_machine
      ∷ line variant_columns variant_titles
      ∷ line variant_columns variant_units
      ∷ map
          (λ (p : Bytes × Result D). line variant_columns (variant_cells (base_score rows) p.0 p.1))
          rows
