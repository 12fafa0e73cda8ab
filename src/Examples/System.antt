-- ===== src/Examples/System.antt =====
-- The theorems on what the machine says of itself, at concrete inputs.
use cross_platform_benchmark.Prelude.{
  ℕ, ◌≤◌, ◌<◌, ◌≡◌, ◌⊎◌, refl, Bool, true, List, [], ◌∷◌, none, some, Bytes, codes, All, arith, ltb,
  map, take, foldl, pos, ◌*◌,
}
use mathlib.Core.Bool.{◌&&◌}
use cross_platform_benchmark.Cpu.{models_add}
use cross_platform_benchmark.Cpu.Models.{IsPlain, models_add-distinct}
use cross_platform_benchmark.Cpu.Detect.{Machine, scan_cpuinfo, cpuinfo_line, no_names}
use cross_platform_benchmark.Cpu.Detect.Lines.{IsByte, lines, scan_cpuinfo-lines}
use cross_platform_benchmark.Clock.{
  Files, cache_bytes, detect_llc_bytes, warn_if_working_set_small, llc_loop,
}
use cross_platform_benchmark.Clock.Caches.{
  detect_llc_bytes-largest, warn_if_working_set_small-covers,
}
use cross_platform_benchmark.Examples.Report.{numbers}
use cross_platform_benchmark.Prelude.{fgets, fgets_all, fgets_loop, decimal}

abbrev has_no_nul : Bytes → Bool
has_no_nul [] = true
has_no_nul (c ∷ s) = ltb 0 c && has_no_nul s

has_no_nul-IsByte : (s : Bytes) → has_no_nul s ≡ true → All IsByte s
has_no_nul-IsByte [] h = tt
has_no_nul-IsByte (c ∷ s) h = (ground arith, has_no_nul-IsByte s (ground arith))

abbrev phone : Machine
phone = record {
  aarch64 = true;
  arch = codes "aarch64";
  cpuinfo = none;
  present = none;
  cpu_count = pos 1;
  midr_el1 = λ cpu. none;
  device_tree = none;
}

abbrev cpuinfo_text : Bytes
cpuinfo_text = codes "CPU implementer\t: 0x41\nCPU part\t: 0xd0b\nHardware\t: RK3588\n"

scan_cpuinfo-lines_example :
    scan_cpuinfo phone (some cpuinfo_text)
    ≡ foldl (cpuinfo_line phone) no_names (map (take 1023) (lines cpuinfo_text))
scan_cpuinfo-lines_example =
    scan_cpuinfo-lines phone cpuinfo_text (has_no_nul-IsByte cpuinfo_text refl)

abbrev cores : List Bytes
cores = codes "A55" ∷ codes "A76" ∷ codes "A55" ∷ []

cores-IsPlain : All IsPlain cores
cores-IsPlain =
    ((refl, (refl, (refl, tt))), ((refl, (refl, (refl, tt))), ((refl, (refl, (refl, tt))), tt)))

models_add-distinct_example :
    foldl (λ out name. models_add out 320 name) [] cores ≡ codes "A55 + A76"
models_add-distinct_example = models_add-distinct 320 cores cores-IsPlain (omega arith)

-- A machine whose caches have 32 KiB, as the conversions below read it.
abbrev small_caches : Files ℕ
small_caches = record {
  file = λ path. some (codes "32K\n");
  directory = λ path. none;
  scanf_lf = λ s. none;
  strtod = λ s. (32, codes "K\n");
  to_size = λ d. d;
}

detect_llc_bytes-largest_example :
    ((j bytes : ℕ)
      → j < 16
      → cache_bytes numbers small_caches j ≡ some bytes
      → bytes ≤ detect_llc_bytes numbers small_caches)
    × ((detect_llc_bytes numbers small_caches ≡ 0)
        ⊎ ((j : ℕ) × (j < 16)
            × (cache_bytes numbers small_caches j ≡ some (detect_llc_bytes numbers small_caches))))
detect_llc_bytes-largest_example = detect_llc_bytes-largest numbers small_caches

llc_32 : detect_llc_bytes numbers small_caches ≡ 32768
unfolding detect_llc_bytes llc_loop cache_bytes fgets fgets_all fgets_loop decimal
llc_32 = refl

quiet : warn_if_working_set_small numbers small_caches 65536 4 true ≡ none
unfolding warn_if_working_set_small
quiet = rw llc_32 refl

first_cache : cache_bytes numbers small_caches 0 ≡ some 32768
unfolding cache_bytes fgets fgets_all fgets_loop decimal
first_cache = refl

warn_if_working_set_small-covers_example : 32768 * 2 ≤ 65536
warn_if_working_set_small-covers_example =
    warn_if_working_set_small-covers numbers small_caches 65536 4 true (λ e. absurd (omega arith))
      (omega arith) (omega (arith, llc_32)) quiet 0 32768 (omega arith) first_cache
