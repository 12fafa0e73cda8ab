-- ===== src/Cpu/Detect.antt =====
-- `detect_cpu_models` and `midr_from_sysfs` of bench/src/bench.c on Linux, over what the files hold.
pub mod Lines
use cross_platform_benchmark.Prelude.{
  ℕ, zero, suc, ◌+◌, ◌-◌, ◌%◌, ◌^◌, Bool, true, false, not, ◌&&◌, ◌||◌, List, [], ◌∷◌, ◌++◌, Option,
  none, some, Bytes, codes, ltb, leb, ◌==◌, if◌then◌else◌, take, drop, foldl, str_eq, c_string,
  find_char, cspn, trim_start, trim_end, fgets, fgets_all, strtoul0, ℤ, pos,
}
use cross_platform_benchmark.Cpu.{
  get_cpu_count, parse_cpu_list, models_add, midr_add, name_is_generic, is_one_of, dt_model,
}
use cross_platform_benchmark.Cpu.Midr.{midr_name}

abbrev is_empty : Bytes → Bool
is_empty [] = true
is_empty (c ∷ s) = false

abbrev is_blank : ℕ → Bool
is_blank c = c == b' ' || c == 9

abbrev is_trailing : ℕ → Bool
is_trailing c = c == 10 || c == 13 || is_blank c

-- The key and the value of a line, at its colon.
pub record Entry : Type 0 where
  pub key : Bytes
  pub val : Bytes

abbrev entry_at : Bytes → Option ℕ → Option Entry
entry_at line none = none
entry_at line (some colon) =
    let key = trim_end is_blank (take colon line) in
    let val = trim_end is_trailing (trim_start is_blank (drop (suc colon) line)) in
    if is_empty key || is_empty val then none else some (record { key = key; val = val })

unfoldable pub entry_of : Bytes → Option Entry
entry_of line = entry_at line (find_char b':' line)

abbrev model_keys : List Bytes
model_keys =
    codes "model name" ∷ codes "Model Name" ∷ codes "cpu model" ∷ codes "cpu" ∷ codes "uarch" ∷ []

-- The variables that the lines set; `impl` is there once `have_impl` is set.
pub record Found : Type 0 where
  pub models : Bytes
  pub platform : Bytes
  pub midrs : Bytes
  pub impl : Option ℕ

-- The machine: whether it is an AArch64 one, its name by `arch_string`, and what the files hold.
pub record Machine : Type 0 where
  pub aarch64 : Bool
  pub arch : Bytes
  pub cpuinfo : Option Bytes
  pub present : Option Bytes
  pub cpu_count : ℤ
  pub midr_el1 : ℤ → Option Bytes
  pub device_tree : Option Bytes

unfoldable pub add_model : Machine → Entry → Found → Found
add_model m e f =
    if is_one_of model_keys e.key && not (name_is_generic m.arch e.val)
    then record f { models = models_add f.models 320 e.val }
    else f

unfoldable pub add_platform : Entry → Found → Found
add_platform e f =
    if is_empty f.platform && str_eq e.key (codes "Hardware")
    then record f { platform = take 127 e.val }
    else f

-- The conversion of an `unsigned long`.
abbrev unsigned_of : Bytes → ℕ
unsigned_of s = strtoul0 s % 2 ^ 32

abbrev part_of : Bytes → Found → Option ℕ → Found
part_of val f none = f
part_of val f (some impl) = record f {
  midrs = models_add f.midrs 320 (midr_name impl (unsigned_of val) 96);
}

unfoldable pub add_midr : Machine → Entry → Found → Found
add_midr m e f =
    if not m.aarch64
    then f
    else if str_eq e.key (codes "CPU implementer")
    then record f { impl = some (unsigned_of e.val) }
    else if str_eq e.key (codes "CPU part")
    then part_of e.val f f.impl
    else f

abbrev add_entry : Machine → Found → Option Entry → Found
add_entry m f none = f
add_entry m f (some e) = add_midr m e (add_platform e (add_model m e f))

-- What a line does that is not the tail of another.
unfoldable pub cpuinfo_line : Machine → Found → Bytes → Found
unfolding entry_of add_model add_platform add_midr
cpuinfo_line m f line = add_entry m f (entry_of line)

abbrev pub ends_line : Bytes → Bool
ends_line [] = true
ends_line (c ∷ []) = c == 10
ends_line (c ∷ x ∷ s) = ends_line (x ∷ s)

pub record Scan {ℓ} (A : Type ℓ) : Type ℓ where
  pub found : A
  pub continuation : Bool

-- A round of the loop over what `fgets` gives; `of_line` is what it does with a line.
unfoldable pub scan_step {ℓ} : {A : Type ℓ} → (A → Bytes → A) → Scan A → Bytes → Scan A
scan_step of_line s piece =
    let line = c_string piece in
    record {
      found = if s.continuation then s.found else of_line s.found line;
      continuation = not (ends_line line);
    }

unfoldable pub scan {ℓ} : {A : Type ℓ} → (A → Bytes → A) → ℕ → A → Bytes → Scan A
unfolding scan_step
scan of_line size f file =
    foldl (scan_step of_line) (record { found = f; continuation = false }) (fgets_all size file)

abbrev pub no_names : Found
no_names = record { models = []; platform = []; midrs = []; impl = none }

unfoldable pub scan_cpuinfo : Machine → Option Bytes → Found
unfolding scan cpuinfo_line
scan_cpuinfo m none = no_names
scan_cpuinfo m (some file) = (scan (cpuinfo_line m) 1024 no_names file).found

-- The ids of the CPUs that exist, or those from 0 on.
abbrev pub dense : ℕ → ℕ → List ℤ
dense i zero = []
dense i (suc n) = pos i ∷ dense (suc i) n

abbrev listed_or : ℤ → Option (List ℤ) → List ℤ
listed_or count (some (c ∷ cs)) = c ∷ cs
listed_or count _ = dense 0 (get_cpu_count count)

abbrev parsed_line : Option Bytes → Option (List ℤ)
parsed_line none = none
parsed_line (some spec) =
    let s = c_string spec in parse_cpu_list (take (cspn (13 ∷ 10 ∷ []) s) s) 1024

unfoldable pub present_cpus : Machine → List ℤ
present_cpus m = listed_or m.cpu_count (parsed_line (fgets 256 m.present))

unfoldable pub midr_from_sysfs : Machine → ℕ → Bytes
unfolding present_cpus
midr_from_sysfs m outsz =
    foldl (λ out c. midr_add outsz out (fgets 32 (m.midr_el1 c))) [] (present_cpus m)

-- The names of the cores, and the board's.
abbrev or_else : Bytes → Bytes → Bytes
or_else [] t = t
or_else (c ∷ s) t = c ∷ s

abbrev core_names : Machine → Found → Bytes
core_names m f =
    if m.aarch64 then or_else f.models (or_else f.midrs (midr_from_sysfs m 320)) else f.models

abbrev joined_names : Bytes → Bytes → Bytes
joined_names [] board = board
joined_names (c ∷ s) [] = c ∷ s
joined_names (c ∷ s) (b ∷ board) = (c ∷ s) ++ (codes " (" ++ ((b ∷ board) ++ codes ")"))

-- Into a buffer of `outsz` bytes.
unfoldable pub detect_cpu_models : Machine → ℕ → Bytes
unfolding scan_cpuinfo midr_from_sysfs
detect_cpu_models m outsz =
    let f = scan_cpuinfo m m.cpuinfo in
    take (outsz - 1)
      (joined_names (core_names m f) (or_else (dt_model m.device_tree 128) f.platform))
