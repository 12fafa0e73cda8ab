-- ===== src/Main/Start/Sound.antt =====
-- What `main` of bench/src/bench.c runs for a command line.
use cross_platform_benchmark.Prelude.{
  ℕ, zero, suc, ◌≤◌, ◌≡◌, refl, Bool, true, false, not, ◌&&◌, ◌||◌, List, [], ◌∷◌, Bytes, codes,
  min, length, starts_with, ltb, ◌==◌, if◌then◌else◌, if-cases, Bool-cases, inl, inr, arith, ℤ, pos,
  negsuc, magnitude,
}
use cross_platform_benchmark.Variants.{Variant}
use cross_platform_benchmark.Cpu.{get_cpu_count}
use cross_platform_benchmark.Cpu.Detect.{dense}
use cross_platform_benchmark.Args.{
  Conversions, Options, Configured, ready, exits, parse_args, limited, settled, at_least_one,
  first_given,
}
use cross_platform_benchmark.Args.Settled.{
  IsPaged, working_sets-IsPaged, OnReady, IsUpload, settled-IsUpload,
}
use cross_platform_benchmark.Args.Kept.{HasRoom, parse_args-HasRoom}
use cross_platform_benchmark.Main.{RunCfg}
use cross_platform_benchmark.Main.Start.{
  Host, Plan, leaves, sweeps, measures, cpus_or, cpu_list, run_cfg, plan, planned, settled_plan,
  command_line,
}

-- A list of CPUs that the array holds, so that `i % n_cpus` is the index of one.
abbrev pub IsCpuList : List ℤ → Type 0
IsCpuList cs = (1 ≤ length cs) × (length cs ≤ 1024)

pub record IsRun (c : RunCfg) : Type 0 where
  pub cpus : IsCpuList c.cpu_list
  pub some_thread : 1 ≤ c.threads
  pub paged_mt : IsPaged c.mem_mt
  pub paged_pc : IsPaged c.mem_pc
  pub some_phase : (c.want_threads || c.want_cores) ≡ true
  pub web_hub :
      c.submit ≡ true
      → (starts_with (codes "http://") c.hub.hub || starts_with (codes "https://") c.hub.hub) ≡ true

abbrev pub IsSound : Plan → Type 0
IsSound (leaves code) = Unit
IsSound (sweeps cpus pin) = IsCpuList cpus
IsSound (measures c sel) = IsRun c

length-dense : (i n : ℕ) → length (dense i n) ≡ n
length-dense i zero = refl
length-dense i (suc n) = omega (arith, length-dense (suc i) n)

get_cpu_count_some : (n : ℤ) → 1 ≤ get_cpu_count n
unfolding get_cpu_count
get_cpu_count_some (pos n) = ground arith
get_cpu_count_some (negsuc n) = omega arith

at_least_one_lem : (n : ℤ) → 1 ≤ magnitude (at_least_one n)
at_least_one_lem (pos n) =
    if-cases (λ m. 1 ≤ magnitude m) (ltb n 1) (λ _. omega arith) (λ f. ground arith)
at_least_one_lem (negsuc n) = omega arith

cpus_or-IsCpuList :
    (cs : List ℤ) (want : ℕ) → 1 ≤ want → length cs ≤ 1024 → IsCpuList (cpus_or cs want)
cpus_or-IsCpuList [] want some_cpu room =
    (omega (arith, length-dense 0 (min want 1024)), omega (arith, length-dense 0 (min want 1024)))
cpus_or-IsCpuList (c ∷ cs) want some_cpu room = (omega arith, room)

some_phase_lem : (per_core full : Bool) → (not per_core || (per_core || full)) ≡ true
some_phase_lem true full = refl
some_phase_lem false full = refl

choice-IsSound :
    (b : Bool) (c : RunCfg) (sel : List Variant)
    → IsRun c
    → IsSound (if b then sweeps c.cpu_list c.pin else measures c sel)
choice-IsSound true c sel h = h.cpus
choice-IsSound false c sel h = h

module _ {D : Type 0} where
  -- The options behind the limits: a thread at least, and a list that fits its array.
  record IsGood (o : Options D) : Type 0 where
    some_thread : 1 ≤ magnitude o.threads
    room : length o.cpus ≤ 1024

  cpu_list-IsCpuList :
      (online : ℕ) (o : Options D) → 1 ≤ online → IsGood o → IsCpuList (cpu_list online o)
  unfolding cpu_list
  cpu_list-IsCpuList online o some_cpu good =
      cpus_or-IsCpuList o.cpus
        (if o.per_core || (o.full || o.disp_sweep) then online else magnitude o.threads)
        (if-cases (λ n. 1 ≤ n) (o.per_core || (o.full || o.disp_sweep)) {x = online}
          {y = magnitude o.threads} (λ _. some_cpu) (λ _. good.some_thread))
        good.room

  plan-IsSound : (h : Host) (o : Options D) → IsGood o → IsUpload o → IsSound (plan h o)
  unfolding plan
  plan-IsSound h o good upload =
      let cpus =
        cpu_list-IsCpuList (get_cpu_count h.cpu_count) o (get_cpu_count_some h.cpu_count) good in
      let sizes =
        working_sets-IsPaged o.mem_per_thread o.mem_total (magnitude o.threads) o.mem_explicit
          h.llc in
      choice-IsSound o.disp_sweep (run_cfg h o) o.sel (record {
        cpus = cpus;
        some_thread = good.some_thread;
        paged_mt = sizes.0;
        paged_pc = sizes.1;
        some_phase = some_phase_lem o.per_core o.full;
        web_hub = λ t. (upload t).0;
      })

  limited-IsGood :
      (C : Conversions D) (all : List Variant) (o : Options D)
      → length o.cpus ≤ 1024
      → IsGood (limited C all o)
  unfolding limited
  limited-IsGood C all o room = record { some_thread = at_least_one_lem o.threads; room = room }

  settled-IsGood :
      (env_hub env_token default_hub : Bytes) (o : Options D)
      → IsGood o
      → OnReady IsGood (settled env_hub env_token default_hub o)
  unfolding settled
  settled-IsGood env_hub env_token default_hub o good =
      let hub = first_given (first_given o.hub env_hub) default_hub in
      let is_web = starts_with (codes "http://") hub || starts_with (codes "https://") hub in
      elim (Bool-cases o.submit) [
        | inl t ↦ elim (Bool-cases (length hub == 0)) [
          | inl e ↦ rw (t, e) tt
          | inr e ↦ elim (Bool-cases is_web) [
            | inr w ↦ rw (t, e, w) tt
            | inl w ↦ elim (Bool-cases o.disp_sweep) [
              | inl d ↦ rw (t, e, w, d) tt
              | inr d ↦
                  rw (t, e, w, d) (record { some_thread = good.some_thread; room = good.room })
            ]
          ]
        ]
        | inr f ↦ elim (Bool-cases (o.disp_sweep && ltb 1 (length o.sel))) [
          | inl d ↦ rw (f, d) tt
          | inr d ↦ rw (f, d) (record { some_thread = good.some_thread; room = good.room })
        ]
      ]

  planned-IsSound :
      (h : Host) (c : Configured D) → OnReady IsGood c → OnReady IsUpload c → IsSound (planned h c)
  planned-IsSound h (exits code) good upload = tt
  planned-IsSound h (ready o) good upload = plan-IsSound h o good upload

  settled_plan-IsSound :
      (C : Conversions D) (all : List Variant) (h : Host) (c : Configured D)
      → OnReady (HasRoom C all) c
      → IsSound (settled_plan C all h c)
  settled_plan-IsSound C all h (exits code) room = tt
  settled_plan-IsSound C all h (ready o) room =
      planned-IsSound h (settled h.env_hub h.env_token h.default_hub (limited C all o))
        (settled-IsGood h.env_hub h.env_token h.default_hub (limited C all o)
          (limited-IsGood C all o room))
        (settled-IsUpload h.env_hub h.env_token h.default_hub (limited C all o))

  -- Whatever the command line, from variables whose list of CPUs fits its array: when something is run,
  -- there is a CPU for every thread and no more than 1024; when it is not the sweep, there is a thread, a
  -- phase to measure, each working set is none or whole pages of 1 MiB at least, and what is uploaded
  -- goes to an http:// or https:// address.
  pub command_line-IsSound :
      (C : Conversions D) (all : List Variant) (h : Host) (args : List Bytes) (o : Options D)
      → length o.cpus ≤ 1024
      → IsSound (command_line C all h args o)
  unfolding command_line
  command_line-IsSound C all h args o room =
      settled_plan-IsSound C all h (parse_args C all args o false)
        (parse_args-HasRoom C all args o false room)
