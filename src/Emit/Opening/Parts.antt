-- ===== src/Emit/Opening/Parts.antt =====
-- The parts of the opening half of a result document of bench/src/bench.c that are there or not, its
-- numbers and the compiler's name.
use cross_platform_benchmark.Prelude.{
  ℕ, zero, suc, refl, Bool, true, false, [], ◌∷◌, ◌++◌, Option, none, some, Bytes, codes, All,
  decimal, decimal_digits_lem, take, ◌≤◌, arith, ℤ, pos, negsuc,
}
use cross_platform_benchmark.Score.{Double}
use cross_platform_benchmark.Emit.{
  Show, Compiler, clang, gcc, other, compiler_string, version, show_int, show_bool,
}
use cross_platform_benchmark.Emit.Json.{build_end, j_digest, j_uname, j_models, j_sweep}
use cross_platform_benchmark.Emit.Lexer.{punct}
use cross_platform_benchmark.Emit.Written.{
  literal, IsWord, IsPlain, Writes, Rest, Prints-call, Writes-append, no_Writes, j_str-Writes,
  word-Writes, decimal-IsWord, decimal-word_bytes, is_plain_text-IsPlain,
}
use cross_platform_benchmark.Emit.Document.{
  digest_members, uname_members, model_members, sweep_members,
}

pub j_digest-Writes :
    {D : Type 0} (F : Double D) (show : Show D) (d : Option Bytes)
    → Writes (j_digest F show d) (digest_members d)
j_digest-Writes F show none = no_Writes
j_digest-Writes F show (some d) = j_str-Writes (codes "binary_sha256") d refl

pub j_uname-Writes :
    {D : Type 0} (F : Double D) (show : Show D) (u : Option (Bytes × Bytes × Bytes))
    → Writes (j_uname F show u) (uname_members u)
j_uname-Writes F show none = no_Writes
j_uname-Writes F show (some (s, r, m)) =
    Writes-append (j_str-Writes (codes "sysname") s refl) (
      Writes-append (j_str-Writes (codes "release") r refl) (j_str-Writes (codes "machine") m refl))

pub j_models-Writes :
    {D : Type 0} (F : Double D) (show : Show D) (models : Bytes)
    → Writes (j_models F show models) (model_members models)
j_models-Writes F show [] = no_Writes
j_models-Writes F show (c ∷ m) = j_str-Writes (codes "cpu_models") (c ∷ m) refl

pub j_sweep-Writes :
    {D : Type 0} (F : Double D) (show : Show D) (n : ℕ)
    → Writes (j_sweep F show n) (sweep_members n)
j_sweep-Writes F show zero = no_Writes
j_sweep-Writes F show (suc n) =
    word-Writes (codes "mem_bytes_per_core_sweep") (decimal (suc n)) refl (decimal-IsWord (suc n))

pub show_int-IsWord : (n : ℤ) → IsWord (show_int n)
show_int-IsWord (pos n) = decimal-IsWord n
show_int-IsWord (negsuc n) = (refl, decimal-word_bytes (suc n))

pub show_bool-IsWord : (b : Bool) → IsWord (show_bool b)
show_bool-IsWord true = (refl, (refl, (refl, (refl, tt))))
show_bool-IsWord false = (refl, (refl, (refl, (refl, (refl, tt)))))

pub build_end-Rest :
    {D : Type 0} (F : Double D) (show : Show D) (vectorize fma : Bool)
    → Rest
        (build_end F show vectorize fma ∷ [])
        ((codes "vectorize", literal (show_bool vectorize))
          ∷ (codes "fma", literal (show_bool fma))
          ∷ [])
        (punct b'}' ∷ [])
build_end-Rest F show true true = record {
  prints = Prints-call (record { apart = refl; read = λ ts. refl });
}
build_end-Rest F show true false = record {
  prints = Prints-call (record { apart = refl; read = λ ts. refl });
}
build_end-Rest F show false true = record {
  prints = Prints-call (record { apart = refl; read = λ ts. refl });
}
build_end-Rest F show false false = record {
  prints = Prints-call (record { apart = refl; read = λ ts. refl });
}

IsPlain-append : (s t : Bytes) → IsPlain s → IsPlain t → IsPlain (s ++ t)
IsPlain-append [] t hs ht = ht
IsPlain-append (c ∷ s) t (hc, hs) ht = (hc, IsPlain-append s t hs ht)

IsPlain-take : (n : ℕ) (s : Bytes) → IsPlain s → IsPlain (take n s)
IsPlain-take zero s h = tt
IsPlain-take (suc n) [] h = tt
IsPlain-take (suc n) (c ∷ s) (hc, hs) = (hc, IsPlain-take n s hs)

pub digits-IsPlain : (s : Bytes) → All (λ c. (b'0' ≤ c) × (c ≤ b'9')) s → IsPlain s
digits-IsPlain [] h = tt
digits-IsPlain (c ∷ s) ((lo, hi), hs) = (ground arith, digits-IsPlain s hs)

pub version-IsPlain : (a b c : ℕ) → IsPlain (version a b c)
version-IsPlain a b c =
    let n : (k : ℕ) → IsPlain (decimal k) =
      λ k. digits-IsPlain (decimal k) (decimal_digits_lem k) in
    IsPlain-append (decimal a) (b'.' ∷ (decimal b ++ (b'.' ∷ decimal c))) (n a)
      (refl, IsPlain-append (decimal b) (b'.' ∷ decimal c) (n b) (refl, n c))

pub compiler_string-IsPlain : (c : Compiler) → IsPlain (compiler_string c)
compiler_string-IsPlain (clang a b c) = IsPlain-take 63 (codes "clang " ++ version a b c) (
    IsPlain-append (codes "clang ") (version a b c) (is_plain_text-IsPlain (codes "clang ") refl)
      (version-IsPlain a b c))
compiler_string-IsPlain (gcc a b c) = IsPlain-take 63 (codes "gcc " ++ version a b c) (
    IsPlain-append (codes "gcc ") (version a b c) (is_plain_text-IsPlain (codes "gcc ") refl)
      (version-IsPlain a b c))
compiler_string-IsPlain other = is_plain_text-IsPlain (codes "cc") refl
