-- ===== src/Emit/Sweep/Document.antt =====
-- The JSON document of a sweep of the selector periods.
use cross_platform_benchmark.Prelude.{
  ℕ, ◌≡◌, refl, List, [], ◌∷◌, ◌++◌, some, Bytes, codes, decimal, map, append_assoc, append-nil, ℤ,
}
use cross_platform_benchmark.Score.{Double}
use cross_platform_benchmark.Emit.{Show, concat, show_int}
use cross_platform_benchmark.Emit.Json.{Config, json_open, json_close}
use cross_platform_benchmark.Emit.Lexer.{
  Token, punct, quoted, Reads, Reads-append, tokens, tokens-Reads,
}
use cross_platform_benchmark.Emit.Written.{
  member, object, array, items, string, literal, IsWord, decimal-IsWord, Prints, Prints-same,
  Prints-append, Prints-call, Writes-append, no_Writes, j_str-Writes, lit_word,
}
use cross_platform_benchmark.Emit.Opening.{
  json_build-Writes, json_system-Writes, json_config-Writes,
}
use cross_platform_benchmark.Emit.Opening.Parts.{show_int-IsWord}
use cross_platform_benchmark.Emit.Document.{build, system, config}
use cross_platform_benchmark.Emit.Sweep.{
  Point, Curve, separated, json_point, json_curve, sweep_json,
}

-- Entries that are each read as a value and what stands behind it make up the items of an array.
separated-Prints :
    {A : Type 0} (call : A → Bytes → List Bytes) (value : A → List Token)
    → ((a : A) (end : Bytes) (ts : List Token) → Reads end ts → Prints (call a end) (value a ++ ts))
    → (xs : List A) → Prints (separated call xs) (items (map value xs))
separated-Prints call value h [] = record { reads = record { apart = tt; read = λ ts. refl } }
separated-Prints call value h (a ∷ []) =
    Prints-same (append-nil (value a))
      (h a (codes "\n") [] (record { apart = refl; read = λ ts. refl }))
separated-Prints call value h (a ∷ b ∷ xs) =
    Prints-same (append_assoc (value a) (punct b',' ∷ []) (items (map value (b ∷ xs)))) (
      Prints-append
        (h a (codes ",\n") (punct b',' ∷ []) (record { apart = refl; read = λ ts. refl }))
        (separated-Prints call value h (b ∷ xs)))

module _ {D : Type 0} (F : Double D) (show : Show D) (fixed : ℕ → D → Bytes)
    (cpu_max_mhz : ℤ → D) where
  abbrev point_value : Point D → List Token
  point_value p =
      object (codes "period", literal (decimal p.period))
        ((codes "serial_mcall_s", literal (show.six p.serial))
          ∷ (codes "free_mcall_s", literal (show.six p.free))
          ∷ [])

  abbrev curve_value : Curve D → List Token
  curve_value c =
      object (codes "cpu", literal (show_int c.cpu))
        ((codes "mhz", literal (show.six c.mhz))
          ∷ (codes "points", array (map point_value c.points))
          ∷ [])

  -- The document as a value.
  abbrev pub sweep_document : Config D → List (Curve D) → List Token
  sweep_document o cs =
      object (codes "schema", string (codes "cpu-bench/1"))
        ((codes "mode", string (codes "disp-sweep"))
          ∷ (codes "build", build F show o)
          ∷ (codes "system", system F show o)
          ∷ (codes "config", config F show o)
          ∷ (codes "sweep", array (map curve_value cs))
          ∷ [])

module _ {D : Type 0} (F : Double D) (show : Show D) (fixed : ℕ → D → Bytes) (cpu_max_mhz : ℤ → D)
    (six : (v : D) → IsWord (show.six v)) (general : (v : D) → IsWord (show.general v)) where
  json_point-Prints :
      (p : Point D) (end : Bytes) (ts : List Token)
      → Reads end ts
      → Prints
          (json_point F show fixed cpu_max_mhz p end)
          (point_value F show fixed cpu_max_mhz p ++ ts)
  json_point-Prints p end ts r =
      let first =
        lit_word 32 (codes "     { \"period\": ") (decimal p.period)
          (punct b'{' ∷ quoted (codes "period") ∷ punct b':' ∷ []) refl (λ ts. refl)
          (decimal-IsWord p.period) in
      let second =
        lit_word b',' (codes " \"serial_mcall_s\": ") (show.six p.serial)
          (punct b',' ∷ quoted (codes "serial_mcall_s") ∷ punct b':' ∷ []) refl (λ ts. refl)
          (six p.serial) in
      let third =
        lit_word b',' (codes " \"free_mcall_s\": ") (show.six p.free)
          (punct b',' ∷ quoted (codes "free_mcall_s") ∷ punct b':' ∷ []) refl (λ ts. refl)
          (six p.free) in
      let close : Reads (codes " }") (punct b'}' ∷ []) = record {
        apart = refl;
        read = λ ts. refl;
      } in
      Prints-call
        (Reads-append first (Reads-append second (Reads-append third (Reads-append close r))))

  json_curve-Prints :
      (c : Curve D) (end : Bytes) (ts : List Token)
      → Reads end ts
      → Prints
          (json_curve F show fixed cpu_max_mhz c end)
          (curve_value F show fixed cpu_max_mhz c ++ ts)
  json_curve-Prints c end ts r =
      let first =
        lit_word 32 (codes "   { \"cpu\": ") (show_int c.cpu)
          (punct b'{' ∷ quoted (codes "cpu") ∷ punct b':' ∷ []) refl (λ ts. refl)
          (show_int-IsWord c.cpu) in
      let second =
        lit_word b',' (codes " \"mhz\": ") (show.six c.mhz)
          (punct b',' ∷ quoted (codes "mhz") ∷ punct b':' ∷ []) refl (λ ts. refl) (six c.mhz) in
      let third : Reads (codes ", \"points\": [\n")
          (punct b',' ∷ quoted (codes "points") ∷ punct b':' ∷ punct b'[' ∷ []) =
        record { apart = refl; read = λ ts. refl } in
      let close : Reads (codes "    ] }") (punct b']' ∷ punct b'}' ∷ []) = record {
        apart = refl;
        read = λ ts. refl;
      } in
      let points =
        separated-Prints (json_point F show fixed cpu_max_mhz)
          (point_value F show fixed cpu_max_mhz) json_point-Prints c.points in
      Prints-same (simp (append_assoc, append-nil)) (
        Prints-append (Prints-call (Reads-append first (Reads-append second third)))
          (Prints-append points (Prints-call (Reads-append close r))))

  -- When `%.6g` and `%g` print words, what the sweep prints as JSON is one JSON object, whatever was
  -- measured and on however many CPUs: its text is read as the tokens of the document, with a curve for
  -- every CPU and a point for every period that was measured, in their order.
  pub sweep_json-document :
      (o : Config D) (cs : List (Curve D))
      → tokens (concat (sweep_json F show fixed cpu_max_mhz o cs))
        ≡ some (sweep_document F show fixed cpu_max_mhz o cs)
  unfolding sweep_json json_open
  sweep_json-document o cs =
      let first : Reads (codes "{\n  \"schema\": \"cpu-bench/1\"")
          (punct b'{' ∷ member (codes "schema", string (codes "cpu-bench/1"))) =
        record { apart = refl; read = λ ts. refl } in
      let opening = Writes-append (j_str-Writes (codes "mode") (codes "disp-sweep") refl) (
        Writes-append (json_build-Writes F show general o) (
          Writes-append (json_system-Writes F show general o)
            (Writes-append (json_config-Writes F show general o) no_Writes))) in
      let head : Reads (codes ",\n  \"sweep\": [\n")
          (punct b',' ∷ quoted (codes "sweep") ∷ punct b':' ∷ punct b'[' ∷ []) =
        record { apart = refl; read = λ ts. refl } in
      let close : Reads (codes "  ]") (punct b']' ∷ []) = record {
        apart = refl;
        read = λ ts. refl;
      } in
      let end : Prints json_close (punct b'}' ∷ []) =
        Prints-call (record { apart = refl; read = λ ts. refl }) in
      let curves =
        separated-Prints (json_curve F show fixed cpu_max_mhz)
          (curve_value F show fixed cpu_max_mhz) json_curve-Prints cs in
      tokens-Reads _ _
        (Prints-same (simp (append_assoc, append-nil)) (
          Prints-append (Prints-append (Prints-call first) opening.prints) (
            Prints-append (Prints-call head)
              (Prints-append curves (Prints-append (Prints-call close) end))))).reads
