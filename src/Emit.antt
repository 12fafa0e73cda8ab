-- ===== src/Emit.antt =====
-- The documents that bench/src/bench.c prints: `jout` and `jputc`, the JSON and the TSV emitters. What
-- an emitter prints is the list of the texts that its calls of `jout`, `jputc` or `printf` format, in
-- their order; `Emit.Buffer` says what becomes of them in the buffer of an upload.
pub mod Buffer
pub mod Json
pub mod Tsv
pub mod Lexer
pub mod Written
pub mod Rows
pub mod Document
pub mod Opening
pub mod Whole
pub mod Run
pub mod Text
pub mod Sweep
use cross_platform_benchmark.Prelude.{
  ℕ, zero, suc, ◌+◌, ◌-◌, ◌/◌, ◌%◌, Bool, true, false, List, [], ◌∷◌, ◌++◌, Option, Bytes, codes,
  ltb, if◌then◌else◌, decimal, take, ℤ, pos, negsuc,
}
use cross_platform_benchmark.Score.{Double, MhzSrc, mhz_read, mhz_given, mhz_rated, mhz_estimated}

-- `%.6g` and `%g`, by the C library.
pub record Show (D : Type 0) : Type 0 where
  pub six : D → Bytes
  pub general : D → Bytes

-- Lists one after another: the texts of the calls as one text.
abbrev pub concat : {A : Type 0} → List (List A) → List A
concat [] = []
concat (p ∷ ps) = p ++ concat ps

-- `%d`.
abbrev pub show_int : ℤ → Bytes
show_int (pos n) = decimal n
show_int (negsuc n) = b'-' ∷ decimal (suc n)

abbrev hex_char : ℕ → ℕ
hex_char n = if ltb n 10 then b'0' + n else b'a' + n - 10

-- The last digits of a number in base 16; `%016llx` has 16 of them.
unfoldable pub hex_digits : ℕ → ℕ → Bytes → Bytes
hex_digits zero n out = out
hex_digits (suc k) n out = hex_digits k (n / 16) (hex_char (n % 16) ∷ out)

-- `mhz_src_name`.
abbrev pub mhz_src_name : MhzSrc → Bytes
mhz_src_name mhz_given = codes "given"
mhz_src_name mhz_rated = codes "rated"
mhz_src_name mhz_estimated = codes "estimated"
mhz_src_name mhz_read = codes "measured"

abbrev pub show_bool : Bool → Bytes
show_bool true = codes "true"
show_bool false = codes "false"

-- The compiler that the macros tell of, and its version.
pub data Compiler : Type 0 where
  clang gcc : ℕ → ℕ → ℕ → Compiler
  other : Compiler

abbrev pub version : ℕ → ℕ → ℕ → Bytes
version a b c = decimal a ++ (b'.' ∷ (decimal b ++ (b'.' ∷ decimal c)))

-- `compiler_string`, into the buffer of `json_open`.
abbrev pub compiler_string : Compiler → Bytes
compiler_string (clang a b c) = take 63 (codes "clang " ++ version a b c)
compiler_string (gcc a b c) = take 63 (codes "gcc " ++ version a b c)
compiler_string other = codes "cc"
