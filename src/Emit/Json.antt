-- ===== src/Emit/Json.antt =====
-- The JSON emitters of bench/src/bench.c: `j_num`, `j_str`, `json_result`, `json_open`, `json_close` and
-- `emit_json`.
use cross_platform_benchmark.Prelude.{
  ℕ, zero, suc, Bool, true, false, not, ◌&&◌, ◌||◌, List, [], ◌∷◌, ◌++◌, Option, none, some, Bytes,
  codes, ltb, ◌==◌, if◌then◌else◌, decimal, ℤ, is_negative,
}
use cross_platform_benchmark.Score.{
  Double, Result, DispStatus, disp_na, disp_ok, disp_none, is_positive,
}
use cross_platform_benchmark.Score.Suite.{Suite, core_spread}
use cross_platform_benchmark.Emit.{
  Show, Compiler, compiler_string, concat, show_int, show_bool, hex_digits, mhz_src_name,
}

-- What `json_open` asks of the build, the system and the options. `digest` and `uname` are `none` when
-- they cannot be had; `models` is empty when there are none.
pub record Config (D : Type 0) : Type 0 where
  pub compiler : Compiler
  pub compiler_version : Bytes
  pub cc : Bytes
  pub flags : Bytes
  pub target : Bytes
  pub digest : Option Bytes
  pub vectorize : Bool
  pub fma : Bool
  pub cpus : ℤ
  pub uname : Option (Bytes × Bytes × Bytes)
  pub models : Bytes
  pub threads : ℤ
  pub seconds : D
  pub reps : ℤ
  pub warmup : D
  pub mem_per_thread : ℕ
  pub mem_sweep : ℕ
  pub pin : Bool
  pub clock_raw : Bool
  pub seed : ℕ

abbrev pub is_ok : DispStatus → Bool
is_ok disp_ok = true
is_ok disp_na = false
is_ok disp_none = false

abbrev pub is_na : DispStatus → Bool
is_na disp_na = true
is_na disp_ok = false
is_na disp_none = false

abbrev pub prediction : DispStatus → Bytes
prediction disp_ok = codes "measured"
prediction disp_none = codes "none"
prediction disp_na = codes "unknown"

-- The loop of `j_str`: a quote or a backslash gets a backslash in front, a control character is left
-- out.
unfoldable pub j_chars : Bytes → List Bytes
j_chars [] = []
j_chars (c ∷ v) =
    (if c == 34 || c == 92 then (92 ∷ []) ∷ [] else [])
    ++ ((if ltb c 0x20 then [] else (c ∷ []) ∷ []) ++ j_chars v)

unfoldable pub j_str : Bytes → Bytes → List Bytes
j_str key v = (codes ", \"" ++ (key ++ codes "\": \"")) ∷ (j_chars v ++ (codes "\"" ∷ []))

-- What follows a row in an array.
abbrev pub separator : {A : Type 0} → List A → Bytes
separator [] = codes "\n"
separator (x ∷ xs) = codes ",\n"

abbrev pub json_close : List Bytes
json_close = codes "\n}\n" ∷ []

module _ {D : Type 0} (F : Double D) (show : Show D) where
  unfoldable pub j_num : Bytes → D → Bool → List Bytes
  j_num key v ok =
      if ok && is_positive F v
      then (codes ", \"" ++ (key ++ (codes "\": " ++ show.six v))) ∷ []
      else (codes ", \"" ++ (key ++ codes "\": null")) ∷ []

  abbrev pub j_cpu : ℤ → List Bytes
  j_cpu cpu =
      if is_negative cpu
      then codes ", \"cpu\": null" ∷ []
      else (codes ", \"cpu\": " ++ show_int cpu) ∷ []

  unfoldable pub json_result : Result D → Bytes → Bytes → List Bytes
  json_result r scope indent = concat (
      ((indent ++ (codes "{ \"scope\": \"" ++ (scope ++ codes "\""))) ∷ [])
      ∷ j_cpu r.cpu
      ∷ j_num (codes "mhz") r.mhz true
      ∷ j_str (codes "mhz_src")
          (if is_positive F r.mhz then mhz_src_name r.mhz_src else codes "unknown")
      ∷ j_num (codes "int_lat_mops") r.int_lat true
      ∷ j_num (codes "int_thr_mops") r.int_thr true
      ∷ j_num (codes "ilp") r.ilp true
      ∷ j_num (codes "mul_thr_mmul_s") r.mul_thr true
      ∷ j_num (codes "fp_lat_mflops") r.fp_lat true
      ∷ j_num (codes "fp_thr_mflops") r.fp_thr true
      ∷ j_num (codes "filp") r.filp true
      ∷ j_num (codes "mem_gbps") r.mem_gbps true
      ∷ j_num (codes "mem_lat_ns") r.mem_lat_ns true
      ∷ j_num (codes "mem_lat8_ns") r.mem_lat8_ns true
      ∷ j_num (codes "mlp") r.mlp true
      ∷ j_num (codes "disp_thr_mcall_s") r.disp_thr true
      ∷ j_num (codes "disp_cap_calls") r.disp_cap (is_ok r.disp_status)
      ∷ j_str (codes "disp_prediction") (prediction r.disp_status)
      ∷ j_num (codes "disp_gain") r.disp_gain true
      ∷ j_num (codes "disp_span") r.disp_span (not (is_na r.disp_status))
      ∷ j_num (codes "score") r.score true
      ∷ (codes " }" ∷ [])
      ∷ [])

  abbrev pub j_digest : Option Bytes → List Bytes
  j_digest none = []
  j_digest (some digest) = j_str (codes "binary_sha256") digest

  abbrev pub j_uname : Option (Bytes × Bytes × Bytes) → List Bytes
  j_uname none = []
  j_uname (some (sysname, release, machine)) =
      j_str (codes "sysname") sysname
      ++ (j_str (codes "release") release ++ j_str (codes "machine") machine)

  abbrev pub j_models : Bytes → List Bytes
  j_models [] = []
  j_models (c ∷ models) = j_str (codes "cpu_models") (c ∷ models)

  abbrev pub j_sweep : ℕ → List Bytes
  j_sweep zero = []
  j_sweep (suc n) = (codes ", \"mem_bytes_per_core_sweep\": " ++ decimal (suc n)) ∷ []

  abbrev pub build_open : Compiler → Bytes
  build_open compiler =
      codes ",\n  \"build\": { \"compiler\": \"" ++ (compiler_string compiler ++ codes "\"")

  abbrev pub build_end : Bool → Bool → Bytes
  build_end vectorize fma =
      codes ", \"vectorize\": "
      ++ (show_bool vectorize ++ (codes ", \"fma\": " ++ (show_bool fma ++ codes " }")))

  abbrev pub config_open : Config D → Bytes
  config_open o =
      codes ",\n  \"config\": { \"threads\": "
      ++ (show_int o.threads
          ++ (codes ", \"seconds_per_phase\": "
              ++ (show.general o.seconds
                  ++ (codes ", \"reps\": "
                      ++ (show_int o.reps
                          ++ (codes ", \"warmup_seconds\": "
                              ++ (show.general o.warmup
                                  ++ (codes ", \"mem_bytes_per_thread\": "
                                      ++ decimal o.mem_per_thread))))))))

  abbrev pub config_end : Config D → Bytes
  config_end o =
      codes ", \"pin\": "
      ++ (show_bool o.pin
          ++ (codes ", \"clock\": \""
              ++ ((if o.clock_raw then codes "raw" else codes "mono")
                  ++ (codes "\", \"seed\": " ++ (decimal o.seed ++ codes " }")))))

  -- The three objects of the opening half.
  unfoldable pub json_build : Config D → List Bytes
  json_build o = concat (
      (build_open o.compiler ∷ [])
      ∷ j_str (codes "compiler_version") o.compiler_version
      ∷ j_str (codes "cc") o.cc
      ∷ j_str (codes "flags") o.flags
      ∷ j_str (codes "target") o.target
      ∷ j_digest o.digest
      ∷ (build_end o.vectorize o.fma ∷ [])
      ∷ [])

  unfoldable pub json_system : Config D → List Bytes
  json_system o = concat (
      ((codes ",\n  \"system\": { \"cpus\": " ++ show_int o.cpus) ∷ [])
      ∷ j_uname o.uname
      ∷ j_models o.models
      ∷ (codes " }" ∷ [])
      ∷ [])

  unfoldable pub json_config : Config D → List Bytes
  json_config o = concat ((config_open o ∷ []) ∷ j_sweep o.mem_sweep ∷ (config_end o ∷ []) ∷ [])

  unfoldable pub json_open : Bytes → Config D → List Bytes
  json_open mode o = concat (
      (codes "{\n  \"schema\": \"cpu-bench/1\"" ∷ [])
      ∷ j_str (codes "mode") mode
      ∷ json_build o
      ∷ json_system o
      ∷ json_config o
      ∷ [])

  -- The loops over the rows.
  abbrev pub json_rows : List (Result D) → Bytes → List Bytes
  json_rows [] scope = []
  json_rows (r ∷ rs) scope =
      json_result r scope (codes "    ") ++ (separator rs ∷ json_rows rs scope)

  abbrev pub j_dram : Suite D → Bytes → List Bytes
  j_dram s dram_name =
      if is_positive F s.dram_hi
      then (codes ",\n  \"dram\": { \"mhz_min\": "
          ++ (show.six s.dram_lo ++ (codes ", \"mhz_max\": " ++ show.six s.dram_hi)))
        ∷ (j_str (codes "name") dram_name ++ (codes " }" ∷ []))
      else []

  abbrev pub j_threads : Suite D → List Bytes
  j_threads s =
      if s.have_threads
      then codes ",\n  \"threads\": [\n"
        ∷ (json_rows s.threads (codes "thread")
            ++ (codes "  ],\n  \"total\": " ∷ json_result s.total (codes "total") []))
      else []

  abbrev pub j_spread : D → List Bytes
  j_spread spread =
      if is_positive F spread then (codes ",\n  \"core_spread\": " ++ show.six spread) ∷ [] else []

  abbrev pub j_cores : List (Result D) → List Bytes
  j_cores [] = []
  j_cores (r ∷ rs) =
      codes ",\n  \"cores\": [\n"
      ∷ (json_rows (r ∷ rs) (codes "cpu") ++ (codes "  ]" ∷ j_spread (core_spread F (r ∷ rs))))

  unfoldable pub emit_json : Suite D → Bytes → Bytes → Config D → List Bytes
  emit_json s dram_name mode o = concat (
      json_open mode o
      ∷ j_dram s dram_name
      ∷ j_threads s
      ∷ j_cores s.cores
      ∷ ((codes ",\n  \"checksum\": \"0x" ++ (hex_digits 16 s.checksum [] ++ codes "\"")) ∷ [])
      ∷ json_close
      ∷ [])
