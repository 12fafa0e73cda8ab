-- ===== src/Emit/Sweep.antt =====
-- What `main` of bench/src/bench.c prints behind a sweep of the selector periods, in its three formats.
pub mod Document
use cross_platform_benchmark.Prelude.{
  ℕ, zero, suc, ◌+◌, Bool, true, false, List, [], ◌∷◌, ◌++◌, Bytes, codes, if◌then◌else◌, decimal,
  map, replicate, ℤ,
}
use cross_platform_benchmark.Score.{Double, of, is_positive}
use cross_platform_benchmark.Worker.{Run, disp_periods}
use cross_platform_benchmark.Emit.{Show, show_int, concat}
use cross_platform_benchmark.Emit.Json.{Config, json_open, json_close}
use cross_platform_benchmark.Emit.Text.{Column, padded}

-- A point of the curve of a CPU: the period, and the two rates.
pub record Point (D : Type 0) : Type 0 where
  pub period : ℕ
  pub serial : D
  pub free : D

pub record Curve (D : Type 0) : Type 0 where
  pub cpu : ℤ
  pub mhz : D
  pub points : List (Point D)

-- The entries of the arrays, of which the last has no comma behind it.
abbrev pub separated {ℓ} : {A : Type ℓ} → (A → Bytes → List Bytes) → List A → List Bytes
separated call [] = []
separated call (a ∷ []) = call a (codes "\n")
separated call (a ∷ b ∷ xs) = call a (codes ",\n") ++ separated call (b ∷ xs)

abbrev sweep_column : ℕ → Column
sweep_column width = record { gap = 0; width = width; left = false }

module _ {D : Type 0} (F : Double D) (show : Show D) (fixed : ℕ → D → Bytes)
    (cpu_max_mhz : ℤ → D) where
  -- `sweep_serial[k]` and `sweep_free[k]` with their period.
  abbrev points_of : List ℕ → List D → List D → List (Point D)
  points_of (p ∷ ps) (s ∷ ss) (f ∷ fs) =
      record { period = p; serial = s; free = f } ∷ points_of ps ss fs
  points_of ps ss fs = []

  abbrev first_positive : D → D → D
  first_positive v other = if F.le v (of F 0) then other else v

  -- The curve of a worker, by the clock that it saw, that the machine declares or that its rate shows.
  unfoldable pub curve_of : ℤ × Run D → Curve D
  curve_of (cpu, r) = record {
    cpu = cpu;
    mhz = first_positive (first_positive r.w.mhz_observed (cpu_max_mhz cpu)) r.w.int_lat_mops;
    points = points_of disp_periods r.sweep_serial r.sweep_free;
  }

  -- TSV.
  abbrev tsv_point : Curve D → Point D → Bytes
  tsv_point c p =
      show_int c.cpu
      ++ (9
          ∷ (show.six c.mhz
              ++ (9
                  ∷ (decimal p.period
                      ++ (9 ∷ (show.six p.serial ++ (9 ∷ (show.six p.free ++ (10 ∷ [])))))))))

  unfoldable pub sweep_tsv : List (Curve D) → List Bytes
  sweep_tsv cs =
      codes "cpu\tmhz\tperiod\tserial_mcall_s\tfree_mcall_s\n"
      ∷ concat (map (λ (c : Curve D). map (tsv_point c) c.points) cs)

  -- JSON.
  abbrev pub json_point : Point D → Bytes → List Bytes
  json_point p end =
      ((codes "      { \"period\": " ++ decimal p.period)
        ++ ((codes ", \"serial_mcall_s\": " ++ show.six p.serial)
            ++ ((codes ", \"free_mcall_s\": " ++ show.six p.free) ++ (codes " }" ++ end))))
      ∷ []

  abbrev pub json_curve : Curve D → Bytes → List Bytes
  json_curve c end =
      ((codes "    { \"cpu\": " ++ show_int c.cpu)
        ++ ((codes ", \"mhz\": " ++ show.six c.mhz) ++ codes ", \"points\": [\n"))
      ∷ (separated json_point c.points ++ ((codes "    ] }" ++ end) ∷ []))

  unfoldable pub sweep_json : Config D → List (Curve D) → List Bytes
  sweep_json o cs =
      json_open F show (codes "disp-sweep") o
      ++ (codes ",\n  \"sweep\": [\n" ∷ (separated json_curve cs ++ (codes "  ]" ∷ json_close)))

  -- The tables for people: calls per 1000 cycles, and the rate.
  abbrev text_cell : D → D → Bytes
  text_cell mhz r =
      let kc = if is_positive F mhz then F.div (F.mul r (of F 1000)) mhz else of F 0 in
      codes "  "
      ++ (padded (sweep_column 7) (fixed 2 kc)
          ++ (codes " (" ++ (padded (sweep_column 6) (fixed 1 r) ++ codes ")")))

  -- The rate of a curve at a period; `chain` 0 is the dependent one.
  abbrev rate_at : Bool → ℕ → List (Point D) → D
  rate_at serial k [] = of F 0
  rate_at serial zero (p ∷ ps) = if serial then p.serial else p.free
  rate_at serial (suc k) (p ∷ ps) = rate_at serial k ps

  abbrev text_rows : Bool → ℕ → List ℕ → List (Curve D) → List Bytes
  text_rows serial k [] cs = []
  text_rows serial k (p ∷ ps) cs =
      padded (sweep_column 8) (decimal p)
      ∷ (map (λ (c : Curve D). text_cell c.mhz (rate_at serial k c.points)) cs
          ++ (codes "\n" ∷ text_rows serial (suc k) ps cs))

  abbrev text_curves : Bool → List (Curve D) → List Bytes
  text_curves serial cs =
      (codes "\n"
        ++ ((if serial
              then codes "serial acc (disp_kernel)"
              else codes "independent calls (disp_kernel_free)")
            ++ codes ": calls per 1000 cycles (Mcall/s in parentheses)\n"))
      ∷ padded (sweep_column 8) (codes "period")
      ∷ (map
            (λ (c : Curve D).
              codes "  " ++ (padded (sweep_column 14) (codes "cpu") ++ show_int c.cpu))
            cs
          ++ (codes "\n" ∷ text_rows serial 0 disp_periods cs))

  unfoldable pub sweep_text : List (Curve D) → List Bytes
  sweep_text cs = text_curves true cs ++ text_curves false cs
