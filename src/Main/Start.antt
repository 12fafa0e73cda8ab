-- ===== src/Main/Start.antt =====
-- The middle of `main` in bench/src/bench.c: from the command line to what is to be run, and the sweep
-- of the selector periods.
pub mod Sound
use cross_platform_benchmark.Prelude.{
  ℕ, zero, suc, ◌*◌, ◌^◌, Bool, true, false, not, ◌&&◌, ◌||◌, List, [], ◌∷◌, Option, none, some,
  Bytes, codes, min, map, if◌then◌else◌, ℤ, pos, negsuc, magnitude,
}
use cross_platform_benchmark.Score.{Double}
use cross_platform_benchmark.Variants.{Variant}
use cross_platform_benchmark.Cpu.{get_cpu_count}
use cross_platform_benchmark.Cpu.Detect.{dense}
use cross_platform_benchmark.Args.{
  Conversions, Options, Format, fmt_text, fmt_json, fmt_tsv, Configured, ready, exits, parse_args,
  limited, settled, working_sets,
}
use cross_platform_benchmark.Submit.{Hub}
use cross_platform_benchmark.Worker.{Run}
use cross_platform_benchmark.Emit.{Show, concat}
use cross_platform_benchmark.Emit.Json.{Config}
use cross_platform_benchmark.Emit.Sweep.{Curve, curve_of, sweep_tsv, sweep_json, sweep_text}
use cross_platform_benchmark.Main.{RunCfg}

-- What the machine and the build answer: `plat_cpu_count`, PLAT_HAS_AFFINITY, `detect_llc_bytes`, the
-- environment and the default hub.
pub record Host : Type 0 where
  pub cpu_count : ℤ
  pub has_affinity : Bool
  pub llc : ℕ
  pub env_hub : Bytes
  pub env_token : Bytes
  pub default_hub : Bytes

-- What is to be run: nothing, with this status, the sweep, or the measured phases of these variants.
pub data Plan : Type 0 where
  leaves : ℕ → Plan
  sweeps : List ℤ → Bool → Plan
  measures : RunCfg → List Variant → Plan

abbrev pub cpus_or : List ℤ → ℕ → List ℤ
cpus_or [] want = dense 0 (min want 1024)
cpus_or (c ∷ cs) want = c ∷ cs

module _ {D : Type 0} where
  -- The variables of `main` at its start; the texts that the program has not been given are empty.
  abbrev pub initial : Host → D → D → D → Variant → Options D
  initial h half warm zero_mhz variant = record {
    threads = pos (get_cpu_count h.cpu_count);
    cpus = [];
    per_core = false;
    full = false;
    disp_sweep = false;
    pin = true;
    clock_raw = true;
    duration = half;
    warmup = warm;
    reps = pos 3;
    mem_per_thread = 16 * 2 ^ 20;
    mem_total = 0;
    mem_explicit = false;
    seed = 1;
    sel = variant ∷ [];
    mhz_given = zero_mhz;
    format = fmt_text;
    submit = false;
    hub = [];
    token = [];
    label = [];
    notes = [];
    verbose = false;
  }

  -- The CPUs of the run: those that are given, or as many as there are threads or CPUs, from 0 on.
  unfoldable pub cpu_list : ℕ → Options D → List ℤ
  cpu_list online o =
      cpus_or o.cpus
        (if o.per_core || (o.full || o.disp_sweep) then online else magnitude o.threads)

  abbrev mode_name : Options D → Bytes
  mode_name o =
      if o.full then codes "full" else if o.per_core then codes "per-core" else codes "threads"

  abbrev hub_of : Options D → Hub
  hub_of o = record { hub = o.hub; token = o.token; label = o.label; notes = o.notes }

  -- `cfg`, with the sizes of the working sets.
  abbrev pub run_cfg : Host → Options D → RunCfg
  run_cfg h o =
      let threads = magnitude o.threads in
      let sizes = working_sets o.mem_per_thread o.mem_total threads o.mem_explicit h.llc in
      record {
        threads = threads;
        pin = o.pin && h.has_affinity;
        cpu_list = cpu_list (get_cpu_count h.cpu_count) o;
        mem_mt = sizes.0;
        mem_pc = sizes.1;
        want_threads = not o.per_core;
        want_cores = o.per_core || o.full;
        mode = mode_name o;
        format = o.format;
        submit = o.submit;
        hub = hub_of o;
      }

  -- Behind the settled options.
  unfoldable pub plan : Host → Options D → Plan
  unfolding cpu_list
  plan h o =
      if o.disp_sweep
      then sweeps (run_cfg h o).cpu_list (run_cfg h o).pin
      else measures (run_cfg h o) o.sel

  abbrev pub planned : Host → Configured D → Plan
  planned h (exits code) = leaves code
  planned h (ready o) = plan h o

  abbrev pub settled_plan : Conversions D → List Variant → Host → Configured D → Plan
  settled_plan C all h (exits code) = leaves code
  settled_plan C all h (ready o) =
      planned h (settled h.env_hub h.env_token h.default_hub (limited C all o))

  -- From the arguments behind the program's name.
  unfoldable pub command_line : Conversions D → List Variant → Host → List Bytes → Options D → Plan
  unfolding plan
  command_line C all h args o = settled_plan C all h (parse_args C all args o false)

-- The measurements of the sweep: `run` is `run_workers` for one worker on a CPU, -1 for none; `none`
-- where one could not be run.
abbrev pub with_curve : {A : Type 0} → A → Option (List A) → Option (List A)
with_curve c none = none
with_curve c (some cs) = some (c ∷ cs)

unfoldable pub sweep_loop :
    {D : Type 0} → (ℤ → Option (Run D)) → Bool → List ℤ → Option (List (ℤ × Run D))
sweep_loop run pin [] = some []
sweep_loop run pin (c ∷ cs) = elim (run (if pin then c else negsuc 0)) [
  | none ↦ none
  | some r ↦ with_curve (c, r) (sweep_loop run pin cs)
]

module _ {D : Type 0} (F : Double D) (show : Show D) (fixed : ℕ → D → Bytes)
    (cpu_max_mhz : ℤ → D) where
  -- What a sweep prints, without the prose of `msg`.
  abbrev curves_text : Format → Config D → List (Curve D) → Bytes
  curves_text fmt_tsv o cs = concat (sweep_tsv F show fixed cpu_max_mhz cs)
  curves_text fmt_json o cs = concat (sweep_json F show fixed cpu_max_mhz o cs)
  curves_text fmt_text o cs = concat (sweep_text F show fixed cpu_max_mhz cs)

  abbrev swept_text : Format → Config D → Option (List (ℤ × Run D)) → Bytes × ℕ
  swept_text format o none = ([], 1)
  swept_text format o (some rs) =
      (curves_text format o (map (curve_of F show fixed cpu_max_mhz) rs), 0)

  -- stdout and the exit status; `alloc` is whether there is room for the workers.
  unfoldable pub run_sweep :
      Format → Config D → Bool → (ℤ → Option (Run D)) → Bool → List ℤ → Bytes × ℕ
  unfolding sweep_loop
  run_sweep format o alloc run pin cpus =
      swept_text format o (if alloc then sweep_loop run pin cpus else none)
