-- ===== src/Args/Kept.antt =====
-- The list of CPUs through the options of `main` in bench/src/bench.c.
use cross_platform_benchmark.Prelude.{
  ◌≤◌, Bool, true, false, ◌==◌, ◌||◌, List, [], ◌∷◌, Option, none, some, Bytes, codes, drop, length,
  str_eq, starts_with, if-cases, Bool-cases, inl, inr, ℤ,
}
use cross_platform_benchmark.Cpu.{parse_cpu_list}
use cross_platform_benchmark.Cpu.Ids.{OnSome, parse_cpu_list-length}
use cross_platform_benchmark.Variants.{Variant, find_variant, select_variants}
use cross_platform_benchmark.Args.{
  Conversions, Options, Step, go_on, stop, Configured, chosen, listed_variants, listed_cpus,
  named_clock, named_format, submit_to, flag, valued, step, followed_by, parse_args,
}
use cross_platform_benchmark.Args.Settled.{OnReady}

module _ {D : Type 0} (C : Conversions D) (all : List Variant) where
  -- The list fits its array.
  abbrev pub HasRoom : Options D → Type 0
  HasRoom o = length o.cpus ≤ 1024

  abbrev Holds : Step D → Type 0
  Holds (stop code) = Unit
  Holds (go_on o took) = HasRoom o

  record OnStep (s : Step D) : Type 0 where
    holds : Holds s

  chosen-Keeps : (o : Options D) (v : Option Variant) → HasRoom o → OnStep (chosen C all o v)
  chosen-Keeps o none h = record { holds = tt }
  chosen-Keeps o (some v) h = record { holds = h }

  listed_variants-Keeps :
      (o : Options D) (vs : Option (List Variant)) → HasRoom o → OnStep (listed_variants C all o vs)
  listed_variants-Keeps o none h = record { holds = tt }
  listed_variants-Keeps o (some []) h = record { holds = tt }
  listed_variants-Keeps o (some (v ∷ vs)) h = record { holds = h }

  listed_cpus-Keeps :
      (o : Options D) (ids : Option (List ℤ))
      → OnSome (λ xs. length xs ≤ 1024) ids
      → OnStep (listed_cpus C all o ids)
  listed_cpus-Keeps o none h = record { holds = tt }
  listed_cpus-Keeps o (some []) h = record { holds = tt }
  listed_cpus-Keeps o (some (c ∷ cs)) h = record { holds = h }

  named_clock-Keeps : (o : Options D) (v : Bytes) → HasRoom o → OnStep (named_clock C all o v)
  named_clock-Keeps o v h = elim (Bool-cases (str_eq v (codes "mono"))) [
    | inl e ↦ rw e (record { holds = h })
    | inr e ↦ elim (Bool-cases (str_eq v (codes "raw"))) [
      | inl r ↦ rw (e, r) (record { holds = h })
      | inr r ↦ rw (e, r) (record { holds = tt })
    ]
  ]

  named_format-Keeps : (o : Options D) (v : Bytes) → HasRoom o → OnStep (named_format C all o v)
  named_format-Keeps o v h = elim (Bool-cases (str_eq v (codes "text"))) [
    | inl e ↦ rw e (record { holds = h })
    | inr e ↦ elim (Bool-cases (str_eq v (codes "json"))) [
      | inl j ↦ rw (e, j) (record { holds = h })
      | inr j ↦ elim (Bool-cases (str_eq v (codes "tsv"))) [
        | inl t ↦ rw (e, j, t) (record { holds = h })
        | inr t ↦ rw (e, j, t) (record { holds = tt })
      ]
    ]
  ]

  submit_to-Keeps :
      (o : Options D) (rest : List Bytes) → HasRoom o → OnStep (submit_to C all o rest)
  submit_to-Keeps o [] h = record { holds = h }
  submit_to-Keeps o ([] ∷ rest) h = record { holds = h }
  submit_to-Keeps o ((c ∷ v) ∷ rest) h =
      if-cases OnStep (c == b'-') {x = go_on (record o { submit = true }) false}
        {y = go_on (record o { submit = true; hub = c ∷ v }) true} (λ _. record { holds = h })
        (λ _. record { holds = h })

  flag-Keeps :
      (o : Options D) (a : Bytes) (rest : List Bytes) → HasRoom o → OnStep (flag C all o a rest)
  unfolding flag
  flag-Keeps o a rest h =
      if-cases OnStep (str_eq a (codes "--variants")) (λ _. record { holds = h })
        (λ _.
          if-cases OnStep (starts_with (codes "--variants=") a)
            (λ _. listed_variants-Keeps o (select_variants all (some (drop 11 a))) h)
            (λ _.
              if-cases OnStep (str_eq a (codes "--list-variants")) (λ _. record { holds = tt })
                (λ _.
                  if-cases OnStep (str_eq a (codes "--per-core")) (λ _. record { holds = h })
                    (λ _.
                      if-cases OnStep (str_eq a (codes "--full")) (λ _. record { holds = h })
                        (λ _.
                          if-cases OnStep (str_eq a (codes "--disp-sweep"))
                            (λ _. record { holds = h })
                            (λ _.
                              if-cases OnStep (str_eq a (codes "--no-mem"))
                                (λ _. record { holds = h })
                                (λ _.
                                  if-cases OnStep (str_eq a (codes "--no-pin"))
                                    (λ _. record { holds = h })
                                    (λ _.
                                      if-cases OnStep (str_eq a (codes "--json"))
                                        (λ _. record { holds = h })
                                        (λ _.
                                          if-cases OnStep (str_eq a (codes "--tsv"))
                                            (λ _. record { holds = h })
                                            (λ _.
                                              if-cases OnStep (str_eq a (codes "--submit"))
                                                (λ _. submit_to-Keeps o rest h)
                                                (λ _.
                                                  if-cases OnStep
                                                    (starts_with (codes "--submit=") a)
                                                    (λ _. record { holds = h })
                                                    (λ _.
                                                      if-cases OnStep
                                                        (str_eq a (codes "--verbose")
                                                          || str_eq a (codes "-v"))
                                                        (λ _. record { holds = h })
                                                        (λ _.
                                                          if-cases OnStep
                                                            (str_eq a (codes "--version")
                                                            || str_eq a (codes "--help")
                                                            || str_eq a (codes "-h"))
                                                            (λ _. record { holds = tt })
                                                            (λ _. record {
                                                            holds = tt;
                                                            }))))))))))))))

  valued-Keeps :
      (o : Options D) (a v : Bytes) (rest : List Bytes)
      → HasRoom o
      → OnStep (valued C all o a v rest)
  unfolding valued
  valued-Keeps o a v rest h =
      if-cases OnStep (str_eq a (codes "--variant")) (λ _. chosen-Keeps o (find_variant all v) h)
        (λ _.
          if-cases OnStep (str_eq a (codes "--threads")) (λ _. record { holds = h })
            (λ _.
              if-cases OnStep (str_eq a (codes "--cpus"))
                (λ _. listed_cpus-Keeps o (parse_cpu_list v 1024) (parse_cpu_list-length v 1024))
                (λ _.
                  if-cases OnStep (str_eq a (codes "--time")) (λ _. record { holds = h })
                    (λ _.
                      if-cases OnStep (str_eq a (codes "--reps")) (λ _. record { holds = h })
                        (λ _.
                          if-cases OnStep (str_eq a (codes "--warmup")) (λ _. record { holds = h })
                            (λ _.
                              if-cases OnStep (str_eq a (codes "--mem-per-thread"))
                                (λ _. record { holds = h })
                                (λ _.
                                  if-cases OnStep (str_eq a (codes "--mem"))
                                    (λ _. record { holds = h })
                                    (λ _.
                                      if-cases OnStep (str_eq a (codes "--clock"))
                                        (λ _. named_clock-Keeps o v h)
                                        (λ _.
                                          if-cases OnStep (str_eq a (codes "--mhz"))
                                            (λ _. record { holds = h })
                                            (λ _.
                                              if-cases OnStep (str_eq a (codes "--seed"))
                                                (λ _. record { holds = h })
                                                (λ _.
                                                  if-cases OnStep (str_eq a (codes "--format"))
                                                    (λ _. named_format-Keeps o v h)
                                                    (λ _.
                                                      if-cases OnStep (str_eq a (codes "--token"))
                                                        (λ _. record { holds = h })
                                                        (λ _.
                                                          if-cases OnStep
                                                            (str_eq a (codes "--label"))
                                                            (λ _. record { holds = h })
                                                            (λ _.
                                                            if-cases OnStep
                                                            (str_eq a (codes "--notes"))
                                                            (λ _. record { holds = h })
                                                            (λ _.
                                                            flag-Keeps o a (v ∷ rest)
                                                            h)))))))))))))))

  step-Keeps :
      (o : Options D) (a : Bytes) (rest : List Bytes) → HasRoom o → OnStep (step C all o a rest)
  step-Keeps o a [] h = flag-Keeps o a [] h
  step-Keeps o a (v ∷ rest) h = valued-Keeps o a v rest h

  followed_by-Keeps :
      (continue : Options D → Bool → Configured D) (s : Step D)
      → ((o : Options D) (took : Bool) → HasRoom o → OnReady HasRoom (continue o took))
      → OnStep s
      → OnReady HasRoom (followed_by C all continue s)
  followed_by-Keeps continue (stop code) next h = tt
  followed_by-Keeps continue (go_on o took) next h = next o took h.holds

  -- Whatever the arguments.
  pub parse_args-HasRoom :
      (args : List Bytes) (o : Options D) (took : Bool)
      → HasRoom o
      → OnReady HasRoom (parse_args C all args o took)
  unfolding parse_args
  parse_args-HasRoom [] o took h = h
  parse_args-HasRoom (a ∷ rest) o true h = parse_args-HasRoom rest o false h
  parse_args-HasRoom (a ∷ rest) o false h =
      followed_by-Keeps (parse_args C all rest) (step C all o a rest)
        (λ o' took h'. parse_args-HasRoom rest o' took h') (step-Keeps o a rest h)
