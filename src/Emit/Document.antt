-- ===== src/Emit/Document.antt =====
-- The result document of bench/src/bench.c as a JSON value.
use cross_platform_benchmark.Prelude.{
  ℕ, zero, suc, List, [], ◌∷◌, ◌++◌, Option, none, some, Bytes, codes, if◌then◌else◌, decimal, map,
}
use cross_platform_benchmark.Score.{Double, Result, is_positive}
use cross_platform_benchmark.Score.Suite.{Suite, core_spread}
use cross_platform_benchmark.Emit.{Show, compiler_string, show_int, show_bool, hex_digits}
use cross_platform_benchmark.Emit.Json.{Config}
use cross_platform_benchmark.Emit.Lexer.{Token}
use cross_platform_benchmark.Emit.Written.{Member, object, array, string, literal, kept}
use cross_platform_benchmark.Emit.Rows.{row}

-- Whole members that are there or not.
abbrev pub digest_members : Option Bytes → List Member
digest_members none = []
digest_members (some digest) = (codes "binary_sha256", string (kept digest)) ∷ []

abbrev pub uname_members : Option (Bytes × Bytes × Bytes) → List Member
uname_members none = []
uname_members (some (sysname, release, machine)) =
    (codes "sysname", string (kept sysname))
    ∷ (codes "release", string (kept release))
    ∷ (codes "machine", string (kept machine))
    ∷ []

abbrev pub model_members : Bytes → List Member
model_members [] = []
model_members (c ∷ models) = (codes "cpu_models", string (kept (c ∷ models))) ∷ []

abbrev pub sweep_members : ℕ → List Member
sweep_members zero = []
sweep_members (suc n) = (codes "mem_bytes_per_core_sweep", literal (decimal (suc n))) ∷ []

module _ {D : Type 0} (F : Double D) (show : Show D) where
  abbrev pub build : Config D → List Token
  build o =
      object (codes "compiler", string (compiler_string o.compiler))
        ((codes "compiler_version", string (kept o.compiler_version))
          ∷ (codes "cc", string (kept o.cc))
          ∷ (codes "flags", string (kept o.flags))
          ∷ (codes "target", string (kept o.target))
          ∷ (digest_members o.digest
              ++ ((codes "vectorize", literal (show_bool o.vectorize))
                  ∷ (codes "fma", literal (show_bool o.fma))
                  ∷ [])))

  abbrev pub system : Config D → List Token
  system o =
      object (codes "cpus", literal (show_int o.cpus))
        (uname_members o.uname ++ model_members o.models)

  abbrev pub config : Config D → List Token
  config o =
      object (codes "threads", literal (show_int o.threads))
        ((codes "seconds_per_phase", literal (show.general o.seconds))
          ∷ (codes "reps", literal (show_int o.reps))
          ∷ (codes "warmup_seconds", literal (show.general o.warmup))
          ∷ (codes "mem_bytes_per_thread", literal (decimal o.mem_per_thread))
          ∷ (sweep_members o.mem_sweep
              ++ ((codes "pin", literal (show_bool o.pin))
                  ∷ (codes "clock", string (if o.clock_raw then codes "raw" else codes "mono"))
                  ∷ (codes "seed", literal (decimal o.seed))
                  ∷ [])))

  abbrev pub dram_members : Suite D → Bytes → List Member
  dram_members s dram_name =
      if is_positive F s.dram_hi
      then (
        codes "dram",
        object (codes "mhz_min", literal (show.six s.dram_lo))
            ((codes "mhz_max", literal (show.six s.dram_hi))
              ∷ (codes "name", string (kept dram_name))
              ∷ []),
      )
        ∷ []
      else []

  abbrev pub thread_members : Suite D → List Member
  thread_members s =
      if s.have_threads
      then (codes "threads", array (map (row F show (codes "thread")) s.threads))
        ∷ (codes "total", row F show (codes "total") s.total)
        ∷ []
      else []

  abbrev pub spread_members : D → List Member
  spread_members spread =
      if is_positive F spread then (codes "core_spread", literal (show.six spread)) ∷ [] else []

  abbrev pub core_members : List (Result D) → List Member
  core_members [] = []
  core_members (r ∷ rs) =
      (codes "cores", array (map (row F show (codes "cpu")) (r ∷ rs)))
      ∷ spread_members (core_spread F (r ∷ rs))

  -- The document as a value.
  abbrev pub document : Suite D → Bytes → Bytes → Config D → List Token
  document s dram_name mode o =
      object (codes "schema", string (codes "cpu-bench/1"))
        ((codes "mode", string (kept mode))
          ∷ (codes "build", build o)
          ∷ (codes "system", system o)
          ∷ (codes "config", config o)
          ∷ (dram_members s dram_name
              ++ (thread_members s
                  ++ (core_members s.cores
                      ++ ((codes "checksum", string (codes "0x" ++ hex_digits 16 s.checksum []))
                          ∷ [])))))
