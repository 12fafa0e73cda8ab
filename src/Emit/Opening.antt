-- ===== src/Emit/Opening.antt =====
-- The opening half of a result document of bench/src/bench.c, as `json_open` prints it.
pub mod Parts
use cross_platform_benchmark.Prelude.{
  ℕ, zero, suc, ◌≡◌, refl, subst, Bool, true, false, List, [], ◌∷◌, ◌++◌, Option, none, some, Bytes,
  codes, if◌then◌else◌, All, decimal, decimal_digits_lem, take, ◌≤◌, arith, ℤ, pos, negsuc,
  append-nil,
}
use cross_platform_benchmark.Score.{Double}
use cross_platform_benchmark.Emit.{
  Show, Compiler, clang, gcc, other, compiler_string, version, show_int, show_bool,
}
use cross_platform_benchmark.Emit.Json.{
  Config, build_end, config_open, config_end, j_digest, j_uname, j_models, j_sweep, json_build,
  json_system, json_config,
}
use cross_platform_benchmark.Emit.Lexer.{Token, punct, quoted, Reads, Reads-append}
use cross_platform_benchmark.Emit.Written.{
  string, literal, IsWord, IsPlain, Writes, Rest, Prints-append, Prints-call, Writes-append,
  Writes-then, no_Writes, close_object, member-Writes, object-Writes, j_str-Writes, word-Writes,
  decimal-IsWord, lit_word, lit_text, decimal-word_bytes, is_plain_text, is_plain_text-IsPlain,
}
use cross_platform_benchmark.Emit.Document.{
  digest_members, uname_members, model_members, sweep_members, build, system, config,
}
use cross_platform_benchmark.Emit.Opening.Parts.{
  j_digest-Writes, j_uname-Writes, j_models-Writes, j_sweep-Writes, show_int-IsWord,
  show_bool-IsWord, build_end-Rest, digits-IsPlain, version-IsPlain, compiler_string-IsPlain,
}

module _ {D : Type 0} (F : Double D) (show : Show D)
    (general : (v : D) → IsWord (show.general v)) where
  pub json_build-Writes :
      (o : Config D) → Writes (json_build F show o) ((codes "build", build F show o) ∷ [])
  unfolding json_build
  json_build-Writes o =
      object-Writes
        (lit_text b',' (codes "\n  \"build\": { \"compiler\": \"") [] (compiler_string o.compiler)
          (punct b','
            ∷ quoted (codes "build")
            ∷ punct b':'
            ∷ punct b'{'
            ∷ quoted (codes "compiler")
            ∷ punct b':'
            ∷ [])
          refl (λ ts. refl) (compiler_string-IsPlain o.compiler))
        (Writes-then (j_str-Writes (codes "compiler_version") o.compiler_version refl) (
          Writes-then (j_str-Writes (codes "cc") o.cc refl) (
            Writes-then (j_str-Writes (codes "flags") o.flags refl) (
              Writes-then (j_str-Writes (codes "target") o.target refl) (
                Writes-then (j_digest-Writes F show o.digest)
                  (build_end-Rest F show o.vectorize o.fma))))))

  pub json_system-Writes :
      (o : Config D) → Writes (json_system F show o) ((codes "system", system F show o) ∷ [])
  unfolding json_system
  json_system-Writes o =
      object-Writes
        (lit_word b',' (codes "\n  \"system\": { \"cpus\": ") (show_int o.cpus)
          (punct b','
            ∷ quoted (codes "system")
            ∷ punct b':'
            ∷ punct b'{'
            ∷ quoted (codes "cpus")
            ∷ punct b':'
            ∷ [])
          refl (λ ts. refl) (show_int-IsWord o.cpus))
        (subst
          (λ ms.
            Rest (j_uname F show o.uname ++ (j_models F show o.models ++ (codes " }" ∷ [])))
              (uname_members o.uname ++ ms) (punct b'}' ∷ []))
          (append-nil (model_members o.models))
          (Writes-then (j_uname-Writes F show o.uname)
            (Writes-then (j_models-Writes F show o.models) close_object)))

  -- The tokens of a key and its word.
  abbrev pair : Bytes → Bytes → List Token
  pair key w = punct b',' ∷ quoted key ∷ punct b':' ∷ literal w

  config_open-Reads :
      (o : Config D)
      → Reads (config_open F show o) (
          punct b','
          ∷ quoted (codes "config")
          ∷ punct b':'
          ∷ punct b'{'
          ∷ quoted (codes "threads")
          ∷ punct b':'
          ∷ (literal (show_int o.threads)
              ++ (pair (codes "seconds_per_phase") (show.general o.seconds)
                  ++ (pair (codes "reps") (show_int o.reps)
                      ++ (pair (codes "warmup_seconds") (show.general o.warmup)
                          ++ pair (codes "mem_bytes_per_thread") (decimal o.mem_per_thread))))))
  config_open-Reads o =
      let threads =
        lit_word b',' (codes "\n  \"config\": { \"threads\": ") (show_int o.threads)
          (punct b','
            ∷ quoted (codes "config")
            ∷ punct b':'
            ∷ punct b'{'
            ∷ quoted (codes "threads")
            ∷ punct b':'
            ∷ [])
          refl (λ ts. refl) (show_int-IsWord o.threads) in
      let seconds =
        lit_word b',' (codes " \"seconds_per_phase\": ") (show.general o.seconds)
          (punct b',' ∷ quoted (codes "seconds_per_phase") ∷ punct b':' ∷ []) refl (λ ts. refl)
          (general o.seconds) in
      let reps =
        lit_word b',' (codes " \"reps\": ") (show_int o.reps)
          (punct b',' ∷ quoted (codes "reps") ∷ punct b':' ∷ []) refl (λ ts. refl)
          (show_int-IsWord o.reps) in
      let warmup =
        lit_word b',' (codes " \"warmup_seconds\": ") (show.general o.warmup)
          (punct b',' ∷ quoted (codes "warmup_seconds") ∷ punct b':' ∷ []) refl (λ ts. refl)
          (general o.warmup) in
      let mem =
        lit_word b',' (codes " \"mem_bytes_per_thread\": ") (decimal o.mem_per_thread)
          (punct b',' ∷ quoted (codes "mem_bytes_per_thread") ∷ punct b':' ∷ []) refl (λ ts. refl)
          (decimal-IsWord o.mem_per_thread) in
      Reads-append threads (Reads-append seconds (Reads-append reps (Reads-append warmup mem)))

  pin-Reads :
      (pin : Bytes) → IsWord pin → Reads (codes ", \"pin\": " ++ pin) (pair (codes "pin") pin)
  pin-Reads pin h =
      lit_word b',' (codes " \"pin\": ") pin (punct b',' ∷ quoted (codes "pin") ∷ punct b':' ∷ [])
        refl (λ ts. refl) h

  clock-Reads :
      (name : Bytes)
      → is_plain_text name ≡ true
      → Reads
          (codes ", \"clock\": \"" ++ (name ++ codes "\""))
          (punct b',' ∷ quoted (codes "clock") ∷ punct b':' ∷ string name)
  clock-Reads name h =
      lit_text b',' (codes " \"clock\": \"") [] name
        (punct b',' ∷ quoted (codes "clock") ∷ punct b':' ∷ []) refl (λ ts. refl)
        (is_plain_text-IsPlain name h)

  seed-Reads :
      (seed : Bytes)
      → IsWord seed
      → Reads
          (codes ", \"seed\": " ++ (seed ++ codes " }"))
          (pair (codes "seed") seed ++ (punct b'}' ∷ []))
  seed-Reads seed h =
      let end : Reads (codes " }") (punct b'}' ∷ []) = record { apart = refl; read = λ ts. refl } in
      Reads-append
        (lit_word b',' (codes " \"seed\": ") seed
          (punct b',' ∷ quoted (codes "seed") ∷ punct b':' ∷ []) refl (λ ts. refl) h)
        end

  -- The last three members of the options; the clock's name is one of two.
  config_tail-Reads :
      (pin seed : Bytes) (raw : Bool)
      → IsWord pin
      → IsWord seed
      → Reads
          (codes ", \"pin\": "
            ++ (pin
                ++ (codes ", \"clock\": \""
                    ++ ((if raw then codes "raw" else codes "mono")
                        ++ (codes "\", \"seed\": " ++ (seed ++ codes " }"))))))
          (pair (codes "pin") pin
            ++ (punct b','
                ∷ quoted (codes "clock")
                ∷ punct b':'
                ∷ quoted (if raw then codes "raw" else codes "mono")
                ∷ (pair (codes "seed") seed ++ (punct b'}' ∷ []))))
  config_tail-Reads pin seed true hp hs =
      Reads-append (pin-Reads pin hp)
        (Reads-append (clock-Reads (codes "raw") refl) (seed-Reads seed hs))
  config_tail-Reads pin seed false hp hs =
      Reads-append (pin-Reads pin hp)
        (Reads-append (clock-Reads (codes "mono") refl) (seed-Reads seed hs))

  pub json_config-Writes :
      (o : Config D) → Writes (json_config F show o) ((codes "config", config F show o) ∷ [])
  unfolding json_config
  json_config-Writes o =
      let last : Rest (config_end F show o ∷ [])
          ((codes "pin", literal (show_bool o.pin))
            ∷ (codes "clock", string (if o.clock_raw then codes "raw" else codes "mono"))
            ∷ (codes "seed", literal (decimal o.seed))
            ∷ [])
          (punct b'}' ∷ []) =
        record {
          prints = Prints-call (
              config_tail-Reads (show_bool o.pin) (decimal o.seed) o.clock_raw
                (show_bool-IsWord o.pin) (decimal-IsWord o.seed));
        } in
      member-Writes (
        Prints-append (Prints-call (config_open-Reads o))
          (Writes-then (j_sweep-Writes F show o.mem_sweep) last).prints)
