-- ===== src/Main.antt =====
-- The end of `main` in bench/src/bench.c, from the settled options on: `run_variant` with its
-- measurements and its output, the loop over the variants, and the exit status.
pub mod Exit
pub mod Start
use cross_platform_benchmark.Prelude.{
  ℕ, zero, suc, ◌+◌, Bool, true, false, not, ◌&&◌, ◌||◌, List, [], ◌∷◌, ◌++◌, Option, none, some,
  Bytes, codes, ltb, ◌==◌, if◌then◌else◌, map, length, ℤ,
}
use cross_platform_benchmark.Score.{Double, Result, of}
use cross_platform_benchmark.Worker.Team.{Opts}
use cross_platform_benchmark.Worker.Measured.{Place, run_threads, run_core}
use cross_platform_benchmark.Score.Suite.{Suite, Clocks, no_sums, collect_threads}
use cross_platform_benchmark.Score.Cores.{collect_per_core, headline}
use cross_platform_benchmark.Args.{Format, fmt_text, fmt_json, fmt_tsv}
use cross_platform_benchmark.Http.Post.{Network, Curl}
use cross_platform_benchmark.Submit.{Hub, Submitted, submit_document}
use cross_platform_benchmark.Emit.{Show, concat, hex_digits}
use cross_platform_benchmark.Emit.Json.{Config, emit_json}
use cross_platform_benchmark.Emit.Tsv.{emit_tsv}
use cross_platform_benchmark.Emit.Run.{Printed, Entry}
use cross_platform_benchmark.Emit.Run
use cross_platform_benchmark.Emit.Text.Cores.{
  text_per_core_header, text_per_core_row, text_per_core_footer,
}
use cross_platform_benchmark.Emit.Text.Threads.{text_threads}
use cross_platform_benchmark.Emit.Text.Variants.{text_variant_table}

-- `run_cfg_t` without the fields that are only printed, with the output format and the upload.
pub record RunCfg : Type 0 where
  pub threads : ℕ
  pub pin : Bool
  pub cpu_list : List ℤ
  pub mem_mt : ℕ
  pub mem_pc : ℕ
  pub want_threads : Bool
  pub want_cores : Bool
  pub mode : Bytes
  pub format : Format
  pub submit : Bool
  pub hub : Hub

-- What the world answers to an upload.
pub record World : Type 0 where
  pub alloc : Bool
  pub net : Network
  pub curl : Curl

abbrev is_json : Format → Bool
is_json fmt_json = true
is_json fmt_text = false
is_json fmt_tsv = false

-- A text in the tables of the format.
abbrev in_text : Format → Bytes → Bytes
in_text fmt_text s = s
in_text fmt_json s = []
in_text fmt_tsv s = []

abbrev in_tsv : Format → Bytes → Bytes
in_tsv fmt_tsv s = s
in_tsv fmt_text s = []
in_tsv fmt_json s = []

module _ {D : Type 0} (F : Double D) (show : Show D) (fixed : ℕ → D → Bytes) where
  -- A variant on the machine: `opts` is what the workers are given, `threads` and `core` what the system
  -- and the clocks answer to `run_workers`, for all of the threads and for each CPU of the sweep;
  -- `config` is what the document says of the build and the options.
  pub record Lab : Type 0 where
    pub name : Bytes
    pub clocks : Clocks F
    pub opts : Opts D
    pub threads : Place D
    pub core : ℤ → Place D
    pub dram_name : Bytes
    pub config : Config D
    pub realloc : ℕ → Bool
    pub world : World

  -- The memory clocks of a suite start at 0.
  abbrev pub no_suite : Suite D
  no_suite = record {
    threads = [];
    total = (no_sums F).tot;
    have_threads = false;
    cores = [];
    checksum = 0;
    dram_lo = of F 0;
    dram_hi = of F 0;
  }

  abbrev swept : RunCfg → Lab → Option (Suite D) → Option (Suite D)
  swept c v none = none
  swept c v (some s) =
      if c.want_cores
      then collect_per_core F v.clocks (λ cpu. run_core F v.opts (v.core cpu) c.mem_pc cpu) s
          c.cpu_list c.pin
      else some s

  -- `none` where the workers could not be run.
  unfoldable pub measure : RunCfg → Lab → Option (Suite D)
  unfolding run_threads run_core
  measure c v = swept c v (
      if c.want_threads
      then collect_threads F v.clocks (run_threads F v.opts v.threads c.mem_mt) no_suite c.threads
          c.pin c.cpu_list
      else some no_suite)

  -- What goes to stdout in front of the document, without the prose of `msg`.
  unfoldable pub results : RunCfg → Lab → Suite D → ℕ → Bytes
  results c v s idx =
      in_text c.format (
        (if c.want_threads then concat (text_threads F fixed s c.mem_mt) else [])
        ++ (if c.want_cores
            then concat (
                text_per_core_header F fixed
                ++ (map (text_per_core_row F fixed) s.cores ++ text_per_core_footer F fixed s))
            else []))
      ++ (in_tsv c.format (concat (emit_tsv F show s v.name (idx == 0)))
          ++ in_text c.format (
              if s.have_threads
              then codes "\nchecksum: 0x" ++ (hex_digits 16 s.checksum [] ++ codes "\n")
              else []))

  -- The document; its sizes are those of the phases that were measured.
  unfoldable pub document_calls : RunCfg → Lab → Suite D → List Bytes
  document_calls c v s = emit_json F show s v.dram_name c.mode (record (v.config) {
    mem_per_thread = if c.want_threads then c.mem_mt else c.mem_pc;
    mem_sweep = if c.want_cores then c.mem_pc else 0;
  })

  -- What a variant has come to: it stopped the run (what it had printed until then is not kept), or it printed this, uploaded that and has this row
  -- for the comparison.
  pub data Ended : Type 0 where
    stopped : Ended
    ended : Bytes → List Submitted → Result D → Ended

  -- The count of the errors after these uploads.
  abbrev pub errors_after : ℕ → List Submitted → ℕ
  errors_after errors [] = errors
  errors_after errors (u ∷ us) = errors_after u.errors us

  abbrev uploaded : Submitted → Option (List Submitted) → Option (List Submitted)
  uploaded u none = none
  uploaded u (some us) = some (u ∷ us)

  -- The calls of `submit_document`, one for each document; `none` means that the network's answers ran
  -- out.
  unfoldable pub submit_all : World → Hub → ℕ → List (Bytes × Bytes) → Option (List Submitted)
  submit_all w hub errors [] = some []
  submit_all w hub errors ((doc, tag) ∷ docs) =
      elim (submit_document w.alloc w.net w.curl hub errors doc tag) [
        | none ↦ none
        | some u ↦ uploaded u (submit_all w hub u.errors docs)
      ]

  abbrev pub with_uploads : Bytes → Result D → Option (List Submitted) → Option Ended
  with_uploads out row none = none
  with_uploads out row (some us) = some (ended out us row)

  -- Behind the measurement.
  abbrev pub emitted : RunCfg → Lab → ℕ → ℕ → Suite D → Option Printed → Option Ended
  emitted c v idx errors s none = some stopped
  emitted c v idx errors s (some p) =
      with_uploads (results c v s idx ++ p.stdout) (headline F s)
        (submit_all v.world c.hub errors p.submitted)

  abbrev pub measured : RunCfg → Lab → ℕ → ℕ → ℕ → Option (Suite D) → Option Ended
  measured c v idx n_sel errors none = some stopped
  measured c v idx n_sel errors (some s) = emitted c v idx errors s (
      Run.run_variant v.realloc (is_json c.format) c.submit idx n_sel
        (record { name = v.name; calls = document_calls c v s }))

  unfoldable pub run_variant : RunCfg → Lab → ℕ → ℕ → ℕ → Option Ended
  unfolding measure submit_all
  run_variant c v idx n_sel errors = measured c v idx n_sel errors (measure c v)

  -- What the run has come to; the rows are those of the variants that were measured, with their names.
  pub record Ran : Type 0 where
    pub stdout : Bytes
    pub uploads : List Submitted
    pub rows : List (Bytes × Result D)
    pub errors : ℕ
    pub stopped_early : Bool

  abbrev pub further : Bytes → Bytes → List Submitted → Result D → Option Ran → Option Ran
  further name out us row none = none
  further name out us row (some r) = some (record {
    stdout = out ++ r.stdout;
    uploads = us ++ r.uploads;
    rows = (name, row) ∷ r.rows;
    errors = r.errors;
    stopped_early = r.stopped_early;
  })

  abbrev pub nothing_more : ℕ → Bool → Ran
  nothing_more errors stopped_early = record {
    stdout = [];
    uploads = [];
    rows = [];
    errors = errors;
    stopped_early = stopped_early;
  }

  -- The variants from number `idx` on; `return 1` at the first that could not be run.
  unfoldable pub run_loop : RunCfg → ℕ → ℕ → ℕ → List Lab → Option Ran
  unfolding run_variant
  run_loop c idx n_sel errors [] = some (nothing_more errors false)
  run_loop c idx n_sel errors (v ∷ vs) = elim (run_variant c v idx n_sel errors) [
    | none ↦ none
    | some stopped ↦ some (nothing_more errors true)
    | some (ended out us row) ↦
        further v.name out us row (run_loop c (suc idx) n_sel (errors_after errors us) vs)
  ]

  -- stdout, the uploads, the rows and the exit status.
  pub record Exited : Type 0 where
    pub stdout : Bytes
    pub uploads : List Submitted
    pub rows : List (Bytes × Result D)
    pub status : ℕ

  abbrev pub exited : RunCfg → ℕ → Option Ran → Option Exited
  exited c n_sel none = none
  exited c n_sel (some r) =
      if r.stopped_early
      then some (record { stdout = r.stdout; uploads = r.uploads; rows = r.rows; status = 1 })
      else some (record {
        stdout =
            r.stdout
            ++ (if ltb 1 n_sel
                then in_text c.format (concat (text_variant_table F fixed r.rows c.want_threads))
                else []);
        uploads = r.uploads;
        rows = r.rows;
        status = if ltb 0 r.errors then 1 else 0;
      })

  unfoldable pub run_main : RunCfg → List Lab → Option Exited
  unfolding run_loop
  run_main c vs = exited c (length vs) (run_loop c 0 (length vs) 0 vs)
