-- ===== src/Emit/Text.antt =====
-- The tables for people of bench/src/bench.c. A line is the text of one call of `printf`; `fixed k` is
-- `%.<k>f`.
pub mod Threads
pub mod Cores
pub mod Variants
use cross_platform_benchmark.Prelude.{
  ℕ, ◌-◌, Bool, true, false, ◌&&◌, List, [], ◌∷◌, ◌++◌, Bytes, codes, ltb, ◌==◌, if◌then◌else◌,
  length, replicate, take, map, decimal, Option, none, some,
}

-- A column: the blanks in front of it, the width of its conversion, and whether that has a minus sign.
pub record Column : Type 0 where
  pub gap : ℕ
  pub width : ℕ
  pub left : Bool

abbrev pub blanks : ℕ → Bytes
blanks n = replicate n b' '

-- A conversion with a width.
unfoldable pub padded : Column → Bytes → Bytes
padded c s = if c.left then s ++ blanks (c.width - length s) else blanks (c.width - length s) ++ s

unfoldable pub line : List Column → List Bytes → Bytes
unfolding padded
line [] cells = 10 ∷ []
line (c ∷ cs) [] = blanks c.gap ++ (padded c [] ++ line cs [])
line (c ∷ cs) (s ∷ cells) = blanks c.gap ++ (padded c s ++ line cs cells)

abbrev pub left_by : ℕ → Column
left_by width = record { gap = 1; width = width; left = true }

abbrev pub right_by : ℕ → Column
right_by width = record { gap = 1; width = width; left = false }

-- A column with two blanks in front.
abbrev pub apart : ℕ → Column
apart width = record { gap = 2; width = width; left = false }

abbrev pub first_by : ℕ → Bool → Column
first_by width left = record { gap = 0; width = width; left = left }

abbrev pub dash : Bytes
dash = codes "-"
