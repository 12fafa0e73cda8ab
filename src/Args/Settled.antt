-- ===== src/Args/Settled.antt =====
-- What holds behind the options of `main` in bench/src/bench.c: the limits, the hub, the sizes.
use cross_platform_benchmark.Prelude.{
  ℕ, ◌*◌, ◌/◌, ◌%◌, ◌^◌, ◌≤◌, ◌≡◌, ◌⊎◌, inl, inr, refl, sym, Bool, true, false, not, ◌&&◌, ◌||◌,
  Bytes, codes, ltb, ◌==◌, if◌then◌else◌, if-cases, Bool-cases, length, starts_with, max, arith,
  true-false,
}
use cross_platform_benchmark.Args.{
  Options, Configured, ready, exits, settled, first_given, page_size, working_sets,
}

-- Skipped, or at least 1 MiB in whole pages.
abbrev pub IsPaged : ℕ → Type 0
IsPaged n = (n % 4096 ≡ 0) × ((n ≡ 0) ⊎ (2 ^ 20 ≤ n))

page_size-IsPaged : (n : ℕ) → IsPaged (page_size n)
page_size-IsPaged n = ground arith

-- For every size that is asked for or detected: each phase is skipped or works on at least 1 MiB, in
-- whole pages.
pub working_sets-IsPaged :
    (mem_per_thread mem_total threads : ℕ) (mem_explicit : Bool) (llc : ℕ)
    → let sizes = working_sets mem_per_thread mem_total threads mem_explicit llc in
      IsPaged sizes.0 × IsPaged sizes.1
unfolding working_sets
working_sets-IsPaged per total threads explicit llc =
    let detected = not explicit && ltb 0 llc in
    let wanted = llc * 4 % 2 ^ 64 in
    if-cases (λ (p : ℕ × ℕ). IsPaged p.0 × IsPaged p.1) (ltb 0 total)
      (λ _. (page_size-IsPaged (total / threads), page_size-IsPaged total))
      (λ _. (
        page_size-IsPaged (if detected then max per (wanted / threads) else per),
        page_size-IsPaged (if detected then max per wanted else per),
      ))

abbrev pub OnReady : {D : Type 0} → (Options D → Type 0) → Configured D → Type 0
OnReady P (ready o) = P o
OnReady P (exits code) = Unit

-- An upload has somewhere to go, and a result to take there.
abbrev pub IsUpload : {D : Type 0} → Options D → Type 0
IsUpload o =
    o.submit ≡ true
    → ((starts_with (codes "http://") o.hub || starts_with (codes "https://") o.hub) ≡ true)
      × (o.disp_sweep ≡ false)

-- However the hub is given, an upload that is not refused goes to an http:// or https:// address and
-- is not one of a dispatch sweep.
pub settled-IsUpload :
    {D : Type 0} (env_hub env_token default_hub : Bytes) (o : Options D)
    → OnReady IsUpload (settled env_hub env_token default_hub o)
unfolding settled
settled-IsUpload env_hub env_token default_hub o =
    let hub = first_given (first_given o.hub env_hub) default_hub in
    let is_web = starts_with (codes "http://") hub || starts_with (codes "https://") hub in
    elim (Bool-cases o.submit) [
      | inl t ↦ elim (Bool-cases (length hub == 0)) [
        | inl e ↦ rw (t, e) tt
        | inr e ↦ elim (Bool-cases is_web) [
          | inr w ↦ rw (t, e, w) tt
          | inl w ↦ elim (Bool-cases o.disp_sweep) [
            | inl d ↦ rw (t, e, w, d) tt
            | inr d ↦ rw (t, e, w, d) (λ _. (w, refl))
          ]
        ]
      ]
      | inr f ↦ elim (Bool-cases (o.disp_sweep && ltb 1 (length o.sel))) [
        | inl d ↦ rw (f, d) tt
        | inr d ↦ rw (f, d) (λ h. absurd (true-false (sym h)))
      ]
    ]
