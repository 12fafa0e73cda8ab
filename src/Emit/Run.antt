-- ===== src/Emit/Run.antt =====
-- The JSON half of `run_variant` in bench/src/bench.c, and the loop of `main` over the variants: the
-- document of each goes through a buffer to stdout, to a hub, or to both.
pub mod Array
pub mod Documents
use cross_platform_benchmark.Prelude.{
  ℕ, zero, suc, ◌+◌, Bool, true, false, ◌&&◌, ◌||◌, List, [], ◌∷◌, ◌++◌, Option, none, some, Bytes,
  codes, ltb, ◌==◌, if◌then◌else◌,
}
use cross_platform_benchmark.Emit.Buffer.{Sink, no_sink, jouts}

-- What was written to stdout, and the calls of `submit_document`: a document and the variant's name,
-- which is empty where there is one variant only.
pub record Printed : Type 0 where
  pub stdout : Bytes
  pub submitted : List (Bytes × Bytes)

-- The calls of `emit_json` for a variant of this name.
pub record Entry : Type 0 where
  pub name : Bytes
  pub calls : List Bytes

abbrev before : ℕ → ℕ → Bytes
before idx n_sel = if ltb 1 n_sel then (if idx == 0 then codes "[\n" else codes ",\n") else []

abbrev after : ℕ → ℕ → Bytes
after idx n_sel = if ltb 1 n_sel && idx + 1 == n_sel then codes "]\n" else []

-- Behind the measurements; `none` where there was no memory for the document.
unfoldable pub run_variant : (ℕ → Bool) → Bool → Bool → ℕ → ℕ → Entry → Option Printed
run_variant realloc json submit idx n_sel v =
    let doc = jouts realloc v.calls no_sink in
    if json || submit
    then (if doc.oom
        then none
        else some (record {
          stdout = if json then before idx n_sel ++ (doc.text ++ after idx n_sel) else [];
          submitted = if submit then (doc.text, if ltb 1 n_sel then v.name else []) ∷ [] else [];
        }))
    else some (record { stdout = []; submitted = [] })

abbrev pub then_printed : Option Printed → Option Printed → Option Printed
then_printed none q = none
then_printed (some p) none = none
then_printed (some p) (some q) =
    some (record { stdout = p.stdout ++ q.stdout; submitted = p.submitted ++ q.submitted })

-- The variants from number `idx` on.
unfoldable pub run_variants : (ℕ → Bool) → Bool → Bool → ℕ → ℕ → List Entry → Option Printed
run_variants realloc json submit idx n_sel [] = some (record { stdout = []; submitted = [] })
run_variants realloc json submit idx n_sel (v ∷ vs) =
    then_printed (run_variant realloc json submit idx n_sel v)
      (run_variants realloc json submit (suc idx) n_sel vs)
