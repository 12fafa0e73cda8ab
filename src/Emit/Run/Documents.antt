-- ===== src/Emit/Run/Documents.antt =====
-- The result documents of all variants of a run of bench/src/bench.c, from the suites to stdout.
use cross_platform_benchmark.Prelude.{
  ℕ, ◌^◌, ◌<◌, ◌≡◌, refl, Bool, true, List, [], ◌∷◌, Option, none, some, Bytes, length, map, All,
}
use cross_platform_benchmark.Score.{Double}
use cross_platform_benchmark.Score.Suite.{Suite}
use cross_platform_benchmark.Emit.{Show, concat}
use cross_platform_benchmark.Emit.Json.{Config, emit_json}
use cross_platform_benchmark.Emit.Lexer.{Token, tokens, tokens-Reads}
use cross_platform_benchmark.Emit.Written.{IsWord}
use cross_platform_benchmark.Emit.Document.{document}
use cross_platform_benchmark.Emit.Whole.{emit_json-Prints}
use cross_platform_benchmark.Emit.Run.{Printed, Entry, run_variants}
use cross_platform_benchmark.Emit.Run.Array.{AllReported, Prints, sent, values, run_variants-Prints}

-- What a variant measured, and how.
pub record Measured (D : Type 0) : Type 0 where
  pub name : Bytes
  pub suite : Suite D
  pub dram_name : Bytes
  pub mode : Bytes
  pub config : Config D

module _ {D : Type 0} (F : Double D) (show : Show D) (six : (v : D) → IsWord (show.six v))
    (general : (v : D) → IsWord (show.general v)) where
  abbrev pub entry : Measured D → Entry
  entry m = record { name = m.name; calls = emit_json F show m.suite m.dram_name m.mode m.config }

  abbrev pub value : Measured D → List Token
  value m = document F show m.suite m.dram_name m.mode m.config

  abbrev pub IsShort : Measured D → Type 0
  IsShort m = length (concat (emit_json F show m.suite m.dram_name m.mode m.config)) < 2 ^ 31

  entries-AllReported :
      (ms : List (Measured D)) → All IsShort ms → AllReported (map entry ms) (map value ms)
  entries-AllReported [] h = tt
  entries-AllReported (m ∷ ms) (short, h) = (
    record {
      reads = (emit_json-Prints F show six general m.suite m.dram_name m.mode m.config).reads;
      short = short;
    },
    entries-AllReported ms h,
  )

  -- The output is there, and its tokens are these.
  abbrev Output : (ℕ → Bool) → Bool → List Entry → List Token → Option Printed → Type 0
  Output realloc submit vs toks q =
      (p : Printed) × (q ≡ some p)
      × (tokens p.stdout ≡ some toks)
      × (p.submitted ≡ sent submit (length vs) vs)

  output :
      (realloc : ℕ → Bool) (submit : Bool) (vs : List Entry) (toks : List Token)
      (q : Option Printed)
      → Prints submit (length vs) vs toks q
      → Output realloc submit vs toks q
  output realloc submit vs toks none h = absurd h
  output realloc submit vs toks (some p) (r, e) = (p, refl, tokens-Reads p.stdout toks r, e)

  -- A JSON run of one variant or more, with memory for the documents, each less than 2 GiB, and doubles
  -- that print as words: stdout holds one JSON value, the document itself when there is one variant and
  -- else the array of all of them in their order; what is submitted is, for each variant in that order,
  -- the text of its document, with the variant's name when there are several, and nothing without
  -- `--submit`.
  pub run_variants-documents :
      (realloc : ℕ → Bool) (submit : Bool) (m : Measured D) (ms : List (Measured D))
      → ((n : ℕ) → realloc n ≡ true)
      → All IsShort (m ∷ ms)
      → let vs = map entry (m ∷ ms) in
        (p : Printed) × (run_variants realloc true submit 0 (length vs) vs ≡ some p)
        × (tokens p.stdout ≡ some (values (map value (m ∷ ms))))
        × (p.submitted ≡ sent submit (length vs) vs)
  run_variants-documents realloc submit m ms memory short =
      output realloc submit (map entry (m ∷ ms)) _ _ (
        run_variants-Prints realloc memory submit (entry m) (map entry ms) (map value (m ∷ ms))
          (entries-AllReported (m ∷ ms) short))
