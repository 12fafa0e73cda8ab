-- ===== src/Emit/Whole.antt =====
-- `emit_json` of bench/src/bench.c against the result document as a value.
use cross_platform_benchmark.Prelude.{
  ℕ, zero, suc, ◌/◌, ◌≡◌, refl, ap, ◌∙◌, sym, List, [], ◌∷◌, ◌++◌, some, Bytes, codes, Bool-cases,
  inl, inr, arith, map, append-nil, append_assoc,
}
use cross_platform_benchmark.Score.{Double, Result, is_positive}
use cross_platform_benchmark.Score.Suite.{Suite, core_spread}
use cross_platform_benchmark.Emit.{Show, concat, hex_digits}
use cross_platform_benchmark.Emit.Json.{
  Config, j_dram, j_threads, j_spread, j_cores, json_open, json_rows, json_result, json_close,
  emit_json,
}
use cross_platform_benchmark.Emit.Lexer.{punct, quoted, Reads, Reads-append, tokens, tokens-Reads}
use cross_platform_benchmark.Emit.Written.{
  member, further, array, items, string, IsWord, IsPlain, Prints, Writes, Rest, Prints-same,
  Prints-append, Prints-call, Writes-append, Writes-then, no_Writes, close_object, member-Writes,
  j_str-Writes, lit_word, lit_text,
}
use cross_platform_benchmark.Emit.Rows.{row, Opens, json_rows-Prints, json_result-Prints}
use cross_platform_benchmark.Emit.Opening.{
  json_build-Writes, json_system-Writes, json_config-Writes,
}
use cross_platform_benchmark.Emit.Document.{
  dram_members, thread_members, spread_members, core_members, document,
}

hex_digits-IsPlain : (k n : ℕ) (out : Bytes) → IsPlain out → IsPlain (hex_digits k n out)
unfolding hex_digits
hex_digits-IsPlain zero n out h = h
hex_digits-IsPlain (suc k) n out h = hex_digits-IsPlain k (n / 16) _ (ground arith, h)

checksum-Writes :
    (n : ℕ)
    → Writes
        ((codes ",\n  \"checksum\": \"0x" ++ (hex_digits 16 n [] ++ codes "\"")) ∷ [])
        ((codes "checksum", string (codes "0x" ++ hex_digits 16 n [])) ∷ [])
checksum-Writes n = member-Writes (
    Prints-call (
      lit_text b',' (codes "\n  \"checksum\": \"0x") (codes "0x") (hex_digits 16 n [])
        (punct b',' ∷ quoted (codes "checksum") ∷ punct b':' ∷ []) refl (λ ts. refl)
        (hex_digits-IsPlain 16 n [] tt)))

module _ {D : Type 0} (F : Double D) (show : Show D) (six : (v : D) → IsWord (show.six v))
    (general : (v : D) → IsWord (show.general v)) where
  -- The opening calls of the three kinds of rows.
  thread_row : Opens F show six (codes "thread") (codes "    ")
  thread_row = record { apart = refl; read = λ ts. refl }

  total_row : Opens F show six (codes "total") []
  total_row = record { apart = refl; read = λ ts. refl }

  core_row : Opens F show six (codes "cpu") (codes "    ")
  core_row = record { apart = refl; read = λ ts. refl }

  dram-Writes :
      (s : Suite D) (name : Bytes) → Writes (j_dram F show s name) (dram_members F show s name)
  dram-Writes s name = elim (Bool-cases (is_positive F s.dram_hi)) [
    | inl t ↦ rw t (
        let low =
          lit_word b',' (codes "\n  \"dram\": { \"mhz_min\": ") (show.six s.dram_lo)
            (punct b','
              ∷ quoted (codes "dram")
              ∷ punct b':'
              ∷ punct b'{'
              ∷ quoted (codes "mhz_min")
              ∷ punct b':'
              ∷ [])
            refl (λ ts. refl) (six s.dram_lo) in
        let high =
          lit_word b',' (codes " \"mhz_max\": ") (show.six s.dram_hi)
            (punct b',' ∷ quoted (codes "mhz_max") ∷ punct b':' ∷ []) refl (λ ts. refl)
            (six s.dram_hi) in
        member-Writes (
          Prints-append (Prints-call (Reads-append low high))
            (Writes-then (j_str-Writes (codes "name") name refl) close_object).prints))
    | inr f ↦ rw f no_Writes
  ]

  rows_total-Writes :
      (s : Suite D)
      → Writes
          (codes ",\n  \"threads\": [\n"
            ∷ (json_rows F show s.threads (codes "thread")
                ++ (codes "  ],\n  \"total\": " ∷ json_result F show s.total (codes "total") [])))
          ((codes "threads", array (map (row F show (codes "thread")) s.threads))
            ∷ (codes "total", row F show (codes "total") s.total)
            ∷ [])
  rows_total-Writes s =
      let head : Reads (codes ",\n  \"threads\": [\n")
          (punct b',' ∷ quoted (codes "threads") ∷ punct b':' ∷ punct b'[' ∷ []) =
        record { apart = refl; read = λ ts. refl } in
      let mid : Reads (codes "  ],\n  \"total\": ")
          (punct b']' ∷ punct b',' ∷ quoted (codes "total") ∷ punct b':' ∷ []) =
        record { apart = refl; read = λ ts. refl } in
      let rows = json_rows-Prints F show six s.threads (codes "thread") thread_row in
      let total = json_result-Prints F show six s.total (codes "total") [] total_row in
      let closed = items (map (row F show (codes "thread")) s.threads) in
      let last = punct b',' ∷ member (codes "total", row F show (codes "total") s.total) in
      record {
        prints =
            Prints-same
              (ap (λ t. punct b',' ∷ quoted (codes "threads") ∷ punct b':' ∷ punct b'[' ∷ t)
                (sym (
                  append_assoc closed (punct b']' ∷ []) (last ++ [])
                  ∙ ap (λ t. closed ++ (punct b']' ∷ t)) (append-nil last))))
              (Prints-append (Prints-call head)
                (Prints-append rows (Prints-append (Prints-call mid) total)));
      }

  threads-Writes : (s : Suite D) → Writes (j_threads F show s) (thread_members F show s)
  threads-Writes s = elim (Bool-cases s.have_threads) [
    | inl t ↦ rw t (rows_total-Writes s)
    | inr f ↦ rw f no_Writes
  ]

  spread-Writes : (v : D) → Writes (j_spread F show v) (spread_members F show v)
  spread-Writes v = elim (Bool-cases (is_positive F v)) [
    | inl t ↦ rw t (
        member-Writes (
          Prints-call (
            lit_word b',' (codes "\n  \"core_spread\": ") (show.six v)
              (punct b',' ∷ quoted (codes "core_spread") ∷ punct b':' ∷ []) refl (λ ts. refl)
              (six v))))
    | inr f ↦ rw f no_Writes
  ]

  cores-Writes : (rs : List (Result D)) → Writes (j_cores F show rs) (core_members F show rs)
  cores-Writes [] = no_Writes
  cores-Writes (r ∷ rs) =
      let head : Reads (codes ",\n  \"cores\": [\n")
          (punct b',' ∷ quoted (codes "cores") ∷ punct b':' ∷ punct b'[' ∷ []) =
        record { apart = refl; read = λ ts. refl } in
      let end : Reads (codes "  ]") (punct b']' ∷ []) = record {
        apart = refl;
        read = λ ts. refl;
      } in
      let rows = json_rows-Prints F show six (r ∷ rs) (codes "cpu") core_row in
      let spread = spread-Writes (core_spread F (r ∷ rs)) in
      let closed = items (map (row F show (codes "cpu")) (r ∷ rs)) in
      record {
        prints =
            Prints-same
              (ap (λ t. punct b',' ∷ quoted (codes "cores") ∷ punct b':' ∷ punct b'[' ∷ t)
                (sym (
                  append_assoc closed (punct b']' ∷ [])
                    (further (spread_members F show (core_spread F (r ∷ rs)))))))
              (Prints-append (Prints-call head)
                (Prints-append rows (Prints-append (Prints-call end) spread.prints)));
      }

  pub emit_json-Prints :
      (s : Suite D) (dram_name mode : Bytes) (o : Config D)
      → Prints (emit_json F show s dram_name mode o) (document F show s dram_name mode o)
  unfolding emit_json json_open
  emit_json-Prints s dram_name mode o =
      let first : Reads (codes "{\n  \"schema\": \"cpu-bench/1\"")
          (punct b'{' ∷ member (codes "schema", string (codes "cpu-bench/1"))) =
        record { apart = refl; read = λ ts. refl } in
      let opening = Writes-append (j_str-Writes (codes "mode") mode refl) (
        Writes-append (json_build-Writes F show general o) (
          Writes-append (json_system-Writes F show general o)
            (Writes-append (json_config-Writes F show general o) no_Writes))) in
      let end : Rest (json_close ++ []) [] (punct b'}' ∷ []) = record {
        prints = Prints-call (record { apart = refl; read = λ ts. refl });
      } in
      let rest = Writes-then opening (
        Writes-then (dram-Writes s dram_name) (
          Writes-then (threads-Writes s)
            (Writes-then (cores-Writes s.cores) (Writes-then (checksum-Writes s.checksum) end)))) in
      Prints-append (Prints-call first) rest.prints

  -- When `%.6g` and `%g` print words, the calls of `emit_json` print one JSON object: its text is read
  -- as the tokens of the document, whatever the names hold and whichever parts are there.
  pub emit_json-document :
      (s : Suite D) (dram_name mode : Bytes) (o : Config D)
      → tokens (concat (emit_json F show s dram_name mode o))
        ≡ some (document F show s dram_name mode o)
  emit_json-document s dram_name mode o =
      tokens-Reads (concat (emit_json F show s dram_name mode o))
        (document F show s dram_name mode o) (emit_json-Prints s dram_name mode o).reads
