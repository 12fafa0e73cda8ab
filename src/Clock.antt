-- ===== src/Clock.antt =====
-- What bench/src/bench.c reads of a Linux machine's clocks and caches: `read_cpu_khz` to `dram_mhz`,
-- `detect_llc_bytes` and `warn_if_working_set_small`, over what the files and directories hold.
pub mod Caches
use cross_platform_benchmark.Prelude.{
  ℕ, zero, suc, ◌+◌, ◌-◌, ◌*◌, ◌/◌, ◌%◌, ◌^◌, Bool, true, false, not, ◌&&◌, ◌||◌, List, [], ◌∷◌,
  ◌++◌, Option, none, some, Bytes, codes, ltb, leb, ◌==◌, if◌then◌else◌, take, c_string, find_str,
  fgets, starts_with, trim_end, decimal, ℤ, pos, negsuc,
}
use cross_platform_benchmark.Score.{Double, of, is_positive}
use cross_platform_benchmark.Cpu.{dt_be_int}
use cross_platform_benchmark.Emit.{show_int}

-- The answers: the bytes of a file that can be opened, and the names in a directory, in its order;
-- `scanf_lf` is what `%lf` reads of a file, `strtod` the value and the rest of a text, and `to_size` the
-- conversion of a `double` to a `size_t`.
pub record Files (D : Type 0) : Type 0 where
  pub file : Bytes → Option Bytes
  pub directory : Bytes → Option (List Bytes)
  pub scanf_lf : Bytes → Option D
  pub strtod : Bytes → D × Bytes
  pub to_size : D → ℕ

-- `g_dram_freq_path` and `g_dram_name`.
pub record Devfreq : Type 0 where
  pub freq_path : Bytes
  pub name : Bytes

abbrev is_some : {A : Type 0} → Option A → Bool
is_some none = false
is_some (some a) = true

abbrev is_empty : Bytes → Bool
is_empty [] = true
is_empty (c ∷ s) = false

abbrev pub mentions : Bytes → Bytes → Bool
mentions word id = is_some (find_str word id)

-- Whether a name is that of a memory controller.
unfoldable pub is_memory : Bytes → Bool
is_memory id = mentions (codes "dmc") id || (mentions (codes "ddr") id || mentions (codes "mem") id)

abbrev starts_dot : Bytes → Bool
starts_dot [] = false
starts_dot (c ∷ s) = c == b'.'

abbrev pub line_or : Bytes → Option Bytes → Bytes
line_or d none = d
line_or d (some []) = d
line_or d (some (c ∷ s)) = if c == 0 then d else c_string (c ∷ s)

abbrev devfreq : Bytes
devfreq = codes "/sys/class/devfreq/"

abbrev cache : ℕ → Bytes
cache i = codes "/sys/devices/system/cpu/cpu0/cache/index" ++ (decimal i ++ codes "/size")

-- The unit behind a size.
abbrev multiplier : Bytes → ℕ
multiplier [] = 1
multiplier (c ∷ s) =
    if c == b'K' || c == b'k' then 1024 else if c == b'M' || c == b'm' then 1024 * 1024 else 1

module _ {D : Type 0} (F : Double D) (sys : Files D) where
  abbrev scanned : Option Bytes → D
  scanned none = of F 0
  scanned (some s) = elim (sys.scanf_lf s) [ none ↦ of F 0 | some v ↦ v ]

  abbrev in_units : D → D → D
  in_units unit v = if is_positive F v then F.div v unit else of F 0

  unfoldable pub read_cpu_khz : ℤ → Bytes → D
  read_cpu_khz cpu what = scanned (
      sys.file (
        take 159
          (codes "/sys/devices/system/cpu/cpu" ++ (show_int cpu ++ (codes "/cpufreq/" ++ what)))))

  unfoldable pub cpu_cur_mhz : ℤ → D
  unfolding read_cpu_khz
  cpu_cur_mhz cpu = in_units (of F 1000) (read_cpu_khz cpu (codes "scaling_cur_freq"))

  unfoldable pub cpu_max_mhz : ℤ → D
  unfolding read_cpu_khz
  cpu_max_mhz cpu =
      let khz = read_cpu_khz cpu (codes "cpuinfo_max_freq") in
      in_units (of F 1000)
        (if F.le khz (of F 0) then read_cpu_khz cpu (codes "scaling_max_freq") else khz)

  -- The clock of a node of the device tree, in Hz.
  abbrev pub node_hz : Bytes → D
  node_hz node = of F (
      dt_be_int (
        sys.file
          (take 255 (codes "/proc/device-tree/cpus/" ++ (node ++ codes "/clock-frequency")))))

  -- The loop over the entries of the directory.
  unfoldable pub dt_nodes : List Bytes → D → D
  dt_nodes [] mhz = mhz
  dt_nodes (e ∷ es) mhz =
      let hz = node_hz (take 128 e) in
      let skipped = dt_nodes es mhz in
      let read = dt_nodes es (if is_positive F hz then F.div hz (of F 1000000) else mhz) in
      if not (F.le mhz (of F 0))
      then mhz
      else if starts_with (codes "cpu@") e
      then read
      else skipped

  abbrev first_node : Option (List Bytes) → D
  first_node none = of F 0
  first_node (some es) = dt_nodes es (of F 0)

  unfoldable pub dt_cpu_mhz : ℤ → D
  unfolding dt_nodes
  dt_cpu_mhz (negsuc n) = first_node (sys.directory (codes "/proc/device-tree/cpus"))
  dt_cpu_mhz (pos n) =
      let hz = node_hz (codes "cpu@" ++ decimal n) in
      if is_positive F hz
      then F.div hz (of F 1000000)
      else first_node (sys.directory (codes "/proc/device-tree/cpus"))

  -- The name of an entry of the directory of the memory controllers: its attribute, or its own.
  unfoldable pub entry_id : Bytes → Bytes
  entry_id entry =
      line_or entry (fgets 64 (sys.file (take 287 (devfreq ++ (entry ++ codes "/name")))))

  abbrev pub no_devfreq : Devfreq
  no_devfreq = record { freq_path = []; name = [] }

  unfoldable pub devfreq_loop : List Bytes → Devfreq
  unfolding entry_id
  devfreq_loop [] = no_devfreq
  devfreq_loop (e ∷ es) =
      let rest = devfreq_loop es in
      if starts_dot e
      then rest
      else if is_memory (entry_id e)
      then record {
        freq_path = take 287 (devfreq ++ (e ++ codes "/cur_freq"));
        name = take 63 (trim_end (λ c. c == 10 || c == 13) (entry_id e));
      }
      else rest

  abbrev entries_or_none : Option (List Bytes) → Devfreq
  entries_or_none none = no_devfreq
  entries_or_none (some es) = devfreq_loop es

  unfoldable pub find_dram_devfreq : Devfreq
  unfolding devfreq_loop
  find_dram_devfreq = entries_or_none (sys.directory (codes "/sys/class/devfreq"))

  unfoldable pub dram_mhz : Devfreq → D
  dram_mhz d =
      if is_empty d.freq_path
      then of F 0
      else in_units (of F 1000000) (scanned (sys.file d.freq_path))

  -- The size that the file of a cache gives.
  abbrev size_of : Option Bytes → Option ℕ
  size_of none = none
  size_of (some val) =
      let (n, rest) = sys.strtod (c_string val) in
      some (sys.to_size (F.mul n (of F (multiplier rest))))

  unfoldable pub cache_bytes : ℕ → Option ℕ
  cache_bytes i = size_of (fgets 32 (sys.file (take 159 (cache i))))

  abbrev pub larger : Option ℕ → ℕ → ℕ
  larger none best = best
  larger (some bytes) best = if ltb best bytes then bytes else best

  -- The indices from `i` on.
  unfoldable pub llc_loop : ℕ → ℕ → ℕ → ℕ
  unfolding cache_bytes
  llc_loop zero i best = best
  llc_loop (suc n) i best = llc_loop n (suc i) (larger (cache_bytes i) best)

  unfoldable pub detect_llc_bytes : ℕ
  unfolding llc_loop
  detect_llc_bytes = llc_loop 16 0 0

  -- The two numbers of KiB that a warning prints, where there is one.
  unfoldable pub warn_if_working_set_small : ℕ → ℕ → Bool → Option (ℕ × ℕ)
  unfolding detect_llc_bytes
  warn_if_working_set_small per_thread threads per_core =
      let llc = detect_llc_bytes in
      let total = if per_core then per_thread else per_thread * threads % 2 ^ 64 in
      if per_thread == 0
      then none
      else if llc == 0
      then none
      else if ltb total (llc * 2 % 2 ^ 64)
      then some (total / 2 ^ 10, llc / 2 ^ 10)
      else none
