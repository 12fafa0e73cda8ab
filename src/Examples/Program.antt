-- ===== src/Examples/Program.antt =====
-- The theorems on the sweep and a whole run, at concrete inputs.
use cross_platform_benchmark.Prelude.{
  ℕ, ◌≡◌, true, List, [], ◌∷◌, some, Bytes, codes, length, leb, arith, pos, decimal, ℤ,
}
use cross_platform_benchmark.Args.{fmt_json, Conversions}
use cross_platform_benchmark.Variants.{Variant, variants}
use cross_platform_benchmark.Main.Start.{Host, initial, command_line}
use cross_platform_benchmark.Main.Start.Sound.{IsSound, command_line-IsSound}
use cross_platform_benchmark.Emit.{concat}
use cross_platform_benchmark.Emit.Lexer.{tokens}
use cross_platform_benchmark.Emit.Written.{decimal-IsWord}
use cross_platform_benchmark.Emit.Sweep.{Curve, sweep_json}
use cross_platform_benchmark.Emit.Sweep.Document.{sweep_document, sweep_json-document}
use cross_platform_benchmark.Worker.Measured.{Place}
use cross_platform_benchmark.Examples.Threads.{options, team_host, small_machine}
use cross_platform_benchmark.Main.{RunCfg, Lab}
use cross_platform_benchmark.Examples.Report.{numbers}
use cross_platform_benchmark.Examples.Output.{shown, setup}
use cross_platform_benchmark.Examples.Net.{online, tmp, board}

abbrev plain : ℕ → ℕ → Bytes
plain k v = decimal v

abbrev curve : Curve ℕ
curve = record {
  cpu = pos 3;
  mhz = 2400;
  points =
      record { period = 1; serial = 900; free = 1100 }
      ∷ record { period = 2; serial = 800; free = 1000 }
      ∷ [];
}

abbrev no_clock : ℤ → ℕ
no_clock cpu = 0

sweep_json-document_example :
    tokens (concat (sweep_json numbers shown plain no_clock setup (curve ∷ curve ∷ [])))
    ≡ some (sweep_document numbers shown plain no_clock setup (curve ∷ curve ∷ []))
sweep_json-document_example =
    sweep_json-document numbers shown plain no_clock decimal-IsWord decimal-IsWord setup
      (curve ∷ curve ∷ [])

abbrev run_cfg : RunCfg
run_cfg = record {
  threads = 2;
  pin = true;
  cpu_list = pos 0 ∷ pos 1 ∷ [];
  mem_mt = 65536;
  mem_pc = 65536;
  want_threads = true;
  want_cores = true;
  mode = codes "full";
  format = fmt_json;
  submit = true;
  hub = board;
}

abbrev place : Place ℕ
place = record { alloc = true; host = team_host; machine = λ i. small_machine }

abbrev lab : Bytes → Lab numbers shown plain
lab name = record {
  name = name;
  clocks = record { given = 0; cpu_max_mhz = no_clock; dt_cpu_mhz = no_clock };
  opts = options;
  threads = place;
  core = λ cpu. place;
  dram_name = [];
  config = setup;
  realloc = λ n. true;
  world = record { alloc = true; net = online; curl = tmp };
}

abbrev two_labs : List (Lab numbers shown plain)
two_labs = lab (codes "scalar-fma") ∷ lab (codes "vector-fma") ∷ []

abbrev conversions : Conversions ℕ
conversions = record {
  atoi = λ s. pos (length s);
  atof = λ s. length s;
  strtoull = λ s. length s;
  below = leb;
  none_of = 0;
  shortest = 1;
}

abbrev host : Host
host = record {
  cpu_count = pos 4;
  has_affinity = true;
  llc = 65536;
  env_hub = [];
  env_token = [];
  default_hub = codes "http://hub:8782";
}

abbrev first_variant : Variant
first_variant = record { name = codes "scalar-fma"; distinct = true }

abbrev words : List Bytes
words = codes "--full" ∷ codes "--cpus" ∷ codes "0-3" ∷ codes "--submit" ∷ []

command_line-IsSound_example :
    IsSound
      (command_line conversions (variants true true) host words (initial host 1 1 0 first_variant))
command_line-IsSound_example =
    command_line-IsSound conversions (variants true true) host words
      (initial host 1 1 0 first_variant) (omega arith)
