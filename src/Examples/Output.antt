-- ===== src/Examples/Output.antt =====
-- The theorems on the printed documents, at concrete inputs.
use cross_platform_benchmark.Prelude.{
  ℕ, List, ◌≡◌, ◌⊎◌, refl, true, false, [], ◌∷◌, none, some, codes, arith, pos, decimal, replicate,
  Bytes, decimal, map,
}
use cross_platform_benchmark.Score.Suite.{Suite, aggregate}
use cross_platform_benchmark.Emit.{hex_digits, Show, gcc, concat}
use cross_platform_benchmark.Emit.Json.{
  Config, emit_json, json_close, json_open, json_build, json_system, json_config, j_str, j_chars,
}
use cross_platform_benchmark.Emit.Lexer.{tokens}
use cross_platform_benchmark.Emit.Written.{decimal-IsWord}
use cross_platform_benchmark.Emit.Run.Documents.{
  Measured, IsShort, entry, value, run_variants-documents,
}
use cross_platform_benchmark.Emit.Run.{Entry, Printed, run_variants}
use cross_platform_benchmark.Emit.Run.Array.{sent, values}
use cross_platform_benchmark.Emit.Buffer.{no_sink, jouts}
use cross_platform_benchmark.Emit.Buffer.Grown.{jouts-text}
use cross_platform_benchmark.Emit.Tsv.{emit_tsv}
use cross_platform_benchmark.Emit.Tsv.Columns.{widths, decimal-IsCell, emit_tsv-columns}
use cross_platform_benchmark.Examples.Report.{numbers, two_rows}

abbrev pub shown : Show ℕ
shown = record { six = decimal; general = decimal }

abbrev pub two_threads : Suite ℕ
two_threads = record {
  threads = two_rows;
  total = aggregate numbers two_rows;
  have_threads = true;
  cores = two_rows;
  checksum = 0xabcdef;
  dram_lo = 800;
  dram_hi = 3200;
}

abbrev pub setup : Config ℕ
setup = record {
  compiler = gcc 13 2 0;
  compiler_version = codes "13.2.0";
  cc = codes "gcc";
  flags = codes "-O2 -DNAME=\"x\"";
  target = codes "x86_64";
  digest = none;
  vectorize = true;
  fma = false;
  cpus = pos 8;
  uname = some (codes "Linux", codes "6.1", codes "x86_64");
  models = [];
  threads = pos 2;
  seconds = 1;
  reps = pos 3;
  warmup = 1;
  mem_per_thread = 65536;
  mem_sweep = 0;
  pin = true;
  clock_raw = false;
  seed = 42;
}

jouts-text_example :
    (((jouts (λ n. true) (codes "{" ∷ json_close) no_sink).oom ≡ false)
      × ((jouts (λ n. true) (codes "{" ∷ json_close) no_sink).text
          ≡ concat (codes "{" ∷ json_close)))
    ⊎ (((jouts (λ n. true) (codes "{" ∷ json_close) no_sink).oom ≡ true)
        × ((n : ℕ) × (true ≡ false)))
jouts-text_example = jouts-text (λ n. true) (codes "{" ∷ json_close) (omega arith)

emit_tsv-columns_example :
    widths 0 (concat (emit_tsv numbers shown two_threads (codes "vec-fma") true)) ≡ replicate 6 20
emit_tsv-columns_example =
    emit_tsv-columns numbers shown decimal-IsCell two_threads (codes "vec-fma") true (
      (refl, refl),
      (
        (refl, refl),
        ((refl, refl), ((refl, refl), ((refl, refl), ((refl, refl), ((refl, refl), tt))))),
      ),
    )

-- Two variants that measured nothing.
abbrev no_rows : Suite ℕ
no_rows = record two_threads { threads = []; have_threads = false; cores = []; dram_hi = 0 }

abbrev variant_run : Bytes → Measured ℕ
variant_run name = record {
  name = name;
  suite = no_rows;
  dram_name = [];
  mode = codes "full";
  config = setup;
}

no_rows-IsShort :
    (name : Bytes) → IsShort numbers shown decimal-IsWord decimal-IsWord (variant_run name)
unfolding emit_json json_open json_build json_system json_config j_str j_chars decimal hex_digits
no_rows-IsShort name = omega arith

abbrev two_variants : List Entry
two_variants =
    map (entry numbers shown decimal-IsWord decimal-IsWord)
      (variant_run (codes "scalar") ∷ variant_run (codes "vector") ∷ [])

run_variants-documents_example :
    (p : Printed) × (run_variants (λ n. true) true true 0 2 two_variants ≡ some p)
    × (tokens p.stdout
        ≡ some (
            values (
              map
                (value numbers shown decimal-IsWord decimal-IsWord)
                (variant_run (codes "scalar") ∷ variant_run (codes "vector") ∷ []))))
    × (p.submitted ≡ sent true 2 two_variants)
run_variants-documents_example =
    run_variants-documents numbers shown decimal-IsWord decimal-IsWord (λ n. true) true
      (variant_run (codes "scalar")) (variant_run (codes "vector") ∷ []) (λ n. refl)
      (no_rows-IsShort (codes "scalar"), (no_rows-IsShort (codes "vector"), tt))
