-- ===== src/Args.antt =====
-- The options of `main` in bench/src/bench.c: the loop over the arguments, the limits behind it, where
-- an upload goes, and the sizes of the working sets. `atoi`, `atof` and `strtoull` are the library's.
pub mod Settled
pub mod Kept
use cross_platform_benchmark.Prelude.{
  ℕ, zero, suc, ◌+◌, ◌-◌, ◌*◌, ◌/◌, ◌%◌, ◌^◌, Bool, true, false, not, ◌&&◌, ◌||◌, List, [], ◌∷◌,
  ◌++◌, Option, none, some, Bytes, codes, ltb, leb, ◌==◌, if◌then◌else◌, length, drop, str_eq,
  starts_with, max, ℤ, pos, negsuc,
}
use cross_platform_benchmark.Cpu.{parse_cpu_list}
use cross_platform_benchmark.Variants.{Variant, find_variant, select_variants}

pub data Format : Type 0 where
  fmt_text fmt_json fmt_tsv : Format

-- The conversions of <stdlib.h> that the options use; the doubles' comparison is `a < b`.
pub record Conversions (D : Type 0) : Type 0 where
  pub atoi : Bytes → ℤ
  pub atof : Bytes → D
  pub strtoull : Bytes → ℕ
  pub below : D → D → Bool
  pub none_of : D
  pub shortest : D

-- The variables of `main` and the globals that the loop sets; the empty text is NULL.
pub record Options (D : Type 0) : Type 0 where
  pub threads : ℤ
  pub cpus : List ℤ
  pub per_core : Bool
  pub full : Bool
  pub disp_sweep : Bool
  pub pin : Bool
  pub clock_raw : Bool
  pub duration : D
  pub warmup : D
  pub reps : ℤ
  pub mem_per_thread : ℕ
  pub mem_total : ℕ
  pub mem_explicit : Bool
  pub seed : ℕ
  pub sel : List Variant
  pub mhz_given : D
  pub format : Format
  pub submit : Bool
  pub hub : Bytes
  pub token : Bytes
  pub label : Bytes
  pub notes : Bytes
  pub verbose : Bool

-- What one argument does: the loop goes on, behind the next argument too if it `took` it, or the
-- program ends with an exit code.
pub data Step (D : Type 0) : Type 0 where
  go_on : Options D → Bool → Step D
  stop : ℕ → Step D

pub data Configured (D : Type 0) : Type 0 where
  ready : Options D → Configured D
  exits : ℕ → Configured D

abbrev pub is_negative_int : ℤ → Bool
is_negative_int (pos n) = false
is_negative_int (negsuc n) = true

-- `if (n < 1) n = 1;`
abbrev pub at_least_one : ℤ → ℤ
at_least_one (pos n) = if ltb n 1 then pos 1 else pos n
at_least_one (negsuc n) = pos 1

module _ {D : Type 0} (C : Conversions D) (all : List Variant) where
  abbrev pub chosen : Options D → Option Variant → Step D
  chosen o none = stop 2
  chosen o (some v) = go_on (record o { sel = v ∷ [] }) true

  -- `--variants=LIST`; an empty selection is refused too.
  abbrev pub listed_variants : Options D → Option (List Variant) → Step D
  listed_variants o none = stop 2
  listed_variants o (some []) = stop 2
  listed_variants o (some (v ∷ vs)) = go_on (record o { sel = v ∷ vs }) false

  abbrev pub listed_cpus : Options D → Option (List ℤ) → Step D
  listed_cpus o none = stop 2
  listed_cpus o (some []) = stop 2
  listed_cpus o (some (c ∷ cs)) = go_on (record o { cpus = c ∷ cs }) true

  abbrev pub named_clock : Options D → Bytes → Step D
  named_clock o v =
      if str_eq v (codes "mono")
      then go_on (record o { clock_raw = false }) true
      else if str_eq v (codes "raw")
      then go_on (record o { clock_raw = true }) true
      else stop 2

  abbrev pub named_format : Options D → Bytes → Step D
  named_format o v =
      if str_eq v (codes "text")
      then go_on (record o { format = fmt_text }) true
      else if str_eq v (codes "json")
      then go_on (record o { format = fmt_json }) true
      else if str_eq v (codes "tsv")
      then go_on (record o { format = fmt_tsv }) true
      else stop 2

  -- Behind `--submit`: the next argument is the hub, unless it is an option.
  abbrev pub submit_to : Options D → List Bytes → Step D
  submit_to o [] = go_on (record o { submit = true }) false
  submit_to o ([] ∷ rest) = go_on (record o { submit = true; hub = [] }) true
  submit_to o ((c ∷ v) ∷ rest) =
      if c == b'-'
      then go_on (record o { submit = true }) false
      else go_on (record o { submit = true; hub = c ∷ v }) true

  pub selection : Option (List Variant) → List Variant
  selection none = []
  selection (some vs) = vs

  -- The options without a value; the last case is the unknown argument.
  unfoldable pub flag : Options D → Bytes → List Bytes → Step D
  unfolding selection
  flag o a rest =
      if str_eq a (codes "--variants")
      then go_on (record o { sel = selection (select_variants all none) }) false
      else if starts_with (codes "--variants=") a
      then listed_variants o (select_variants all (some (drop 11 a)))
      else if str_eq a (codes "--list-variants")
      then stop 0
      else if str_eq a (codes "--per-core")
      then go_on (record o { per_core = true }) false
      else if str_eq a (codes "--full")
      then go_on (record o { full = true }) false
      else if str_eq a (codes "--disp-sweep")
      then go_on (record o { disp_sweep = true }) false
      else if str_eq a (codes "--no-mem")
      then go_on (record o { mem_per_thread = 0; mem_total = 0; mem_explicit = true }) false
      else if str_eq a (codes "--no-pin")
      then go_on (record o { pin = false }) false
      else if str_eq a (codes "--json")
      then go_on (record o { format = fmt_json }) false
      else if str_eq a (codes "--tsv")
      then go_on (record o { format = fmt_tsv }) false
      else if str_eq a (codes "--submit")
      then submit_to o rest
      else if starts_with (codes "--submit=") a
      then go_on (record o { submit = true; hub = drop 9 a }) false
      else if str_eq a (codes "--verbose") || str_eq a (codes "-v")
      then go_on (record o { verbose = true }) false
      else if str_eq a (codes "--version") || str_eq a (codes "--help") || str_eq a (codes "-h")
      then stop 0
      else stop 2

  -- An argument `a` with another one, `v`, behind it.
  unfoldable pub valued : Options D → Bytes → Bytes → List Bytes → Step D
  valued o a v rest =
      let mhz = C.atof v in
      if str_eq a (codes "--variant")
      then chosen o (find_variant all v)
      else if str_eq a (codes "--threads")
      then go_on (record o { threads = C.atoi v }) true
      else if str_eq a (codes "--cpus")
      then listed_cpus o (parse_cpu_list v 1024)
      else if str_eq a (codes "--time")
      then go_on (record o { duration = C.atof v }) true
      else if str_eq a (codes "--reps")
      then go_on (record o { reps = C.atoi v }) true
      else if str_eq a (codes "--warmup")
      then go_on (record o { warmup = C.atof v }) true
      else if str_eq a (codes "--mem-per-thread")
      then go_on (record o { mem_per_thread = C.strtoull v; mem_explicit = true }) true
      else if str_eq a (codes "--mem")
      then go_on (record o { mem_total = C.strtoull v; mem_explicit = true }) true
      else if str_eq a (codes "--clock")
      then named_clock o v
      else if str_eq a (codes "--mhz")
      then go_on (record o { mhz_given = if C.below mhz C.none_of then C.none_of else mhz }) true
      else if str_eq a (codes "--seed")
      then go_on (record o { seed = C.strtoull v }) true
      else if str_eq a (codes "--format")
      then named_format o v
      else if str_eq a (codes "--token")
      then go_on (record o { token = v }) true
      else if str_eq a (codes "--label")
      then go_on (record o { label = v }) true
      else if str_eq a (codes "--notes")
      then go_on (record o { notes = v }) true
      else flag o a (v ∷ rest)

  abbrev pub step : Options D → Bytes → List Bytes → Step D
  step o a [] = flag o a []
  step o a (v ∷ rest) = valued o a v rest

  abbrev pub followed_by : (Options D → Bool → Configured D) → Step D → Configured D
  followed_by continue (stop code) = exits code
  followed_by continue (go_on o took) = continue o took

  -- The loop; `took` says that the argument in front was a value.
  unfoldable pub parse_args : List Bytes → Options D → Bool → Configured D
  unfolding flag valued
  parse_args [] o took = ready o
  parse_args (a ∷ rest) o true = parse_args rest o false
  parse_args (a ∷ rest) o false = followed_by (parse_args rest) (step o a rest)

  -- The limits behind the loop.
  unfoldable pub limited : Options D → Options D
  limited o = record o {
    duration = if C.below o.duration C.shortest then C.shortest else o.duration;
    warmup = if C.below o.warmup C.none_of then C.none_of else o.warmup;
    threads = at_least_one o.threads;
    reps = at_least_one o.reps;
  }

abbrev pub first_given : Bytes → Bytes → Bytes
first_given [] other = other
first_given (c ∷ s) other = c ∷ s

-- Where an upload goes: the flag, the environment, the build's default; a run that cannot be
-- uploaded ends here. Also the sweep of one variant only.
unfoldable pub settled : {D : Type 0} → Bytes → Bytes → Bytes → Options D → Configured D
settled env_hub env_token default_hub o =
    let hub = first_given (first_given o.hub env_hub) default_hub in
    let token = first_given o.token env_token in
    let o' = if o.submit then record o { hub = hub; token = token } else o in
    if o.submit && length hub == 0
    then exits 2
    else if o.submit
        && not (starts_with (codes "http://") hub || starts_with (codes "https://") hub)
    then exits 2
    else if o.submit && o.disp_sweep
    then exits 2
    else if o.disp_sweep && ltb 1 (length o.sel)
    then exits 2
    else ready o'

-- `mem &= ~4095` behind the lower limit of 1 MiB.
abbrev pub page_size : ℕ → ℕ
page_size mem =
    let mem' = if ltb 0 mem && ltb mem (2 ^ 20) then 2 ^ 20 else mem in mem' - mem' % 4096

-- The sizes of the two phases: per thread of the run, and per core of the sweep. `llc` is what
-- `detect_llc_bytes` found, and `threads` is at least 1; products wrap at 64 bits.
unfoldable pub working_sets : ℕ → ℕ → ℕ → Bool → ℕ → ℕ × ℕ
working_sets mem_per_thread mem_total threads mem_explicit llc =
    let wanted = llc * 4 % 2 ^ 64 in
    let detected = not mem_explicit && ltb 0 llc in
    let mt = if detected then max mem_per_thread (wanted / threads) else mem_per_thread in
    let pc = if detected then max mem_per_thread wanted else mem_per_thread in
    if ltb 0 mem_total
    then (page_size (mem_total / threads), page_size mem_total)
    else (page_size mt, page_size pc)
