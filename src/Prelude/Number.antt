-- ===== src/Prelude/Number.antt =====
-- `strtol` in base 10 and `strtoul` in base 16 of <stdlib.h>, for a 64-bit `long`, on a C string. The
-- rest is the string from `end` on.
use Prim.Native.Nat.{ℕ, zero, suc, ◌+◌, ◌-◌, ◌*◌, ◌/◌, ◌%◌, ◌^◌, ◌≤◌, min}
use mathlib.Core.Bool.{Bool, true, false, ◌&&◌, ◌||◌}
use mathlib.Core.List.{[], ◌∷◌}
use mathlib.Core.Path.{◌≡◌, refl}
use native.Mathlib.Omega.{arith}
use cross_platform_benchmark.Prelude.Tests.{ltb, leb, ◌==◌, if◌then◌else◌, Bool-cases, if-cases}
use cross_platform_benchmark.Prelude.Lists.{All}
use mathlib.Core.Logic.{inl, inr}
use cross_platform_benchmark.Prelude.Text.{Bytes, is_digit, is_space}

-- `negsuc n` is -(n + 1).
pub data ℤ : Type 0 where
  pos : ℕ → ℤ
  negsuc : ℕ → ℤ

abbrev pub is_negative : ℤ → Bool
is_negative (pos n) = false
is_negative (negsuc n) = true

abbrev pub magnitude : ℤ → ℕ
magnitude (pos n) = n
magnitude (negsuc n) = 0

abbrev pub negate : ℕ → ℤ
negate zero = pos 0
negate (suc n) = negsuc n

-- `any` says whether there was a digit; without one `end` is the start.
pub record Parsed (A : Type 0) : Type 0 where
  pub value : A
  pub rest : Bytes
  pub any : Bool

abbrev pub skip_space : Bytes → Bytes
skip_space [] = []
skip_space (c ∷ s) = if is_space c then skip_space s else c ∷ s

-- The value of the digits, and what follows them.
abbrev pub digits_value : ℕ → Bytes → ℕ
digits_value acc [] = acc
digits_value acc (c ∷ s) = if is_digit c then digits_value (acc * 10 + (c - b'0')) s else acc

abbrev pub after_digits : Bytes → Bytes
after_digits [] = []
after_digits (c ∷ s) = if is_digit c then after_digits s else c ∷ s

abbrev pub starts_digit : Bytes → Bool
starts_digit [] = false
starts_digit (c ∷ s) = is_digit c

abbrev has_sign : Bytes → Bool
has_sign [] = false
has_sign (c ∷ s) = c == b'-' || c == b'+'

abbrev has_minus : Bytes → Bool
has_minus [] = false
has_minus (c ∷ s) = c == b'-'

abbrev pub after_sign : Bytes → Bytes
after_sign [] = []
after_sign (c ∷ s) = if c == b'-' || c == b'+' then s else c ∷ s

-- Out of range the value is LONG_MAX or LONG_MIN.
unfoldable pub strtol : Bytes → Parsed ℤ
strtol s =
    let t = skip_space s in
    let d = after_sign t in
    if starts_digit d
    then (let n = digits_value 0 d in
        record {
          value = if has_minus t then negate (min n (2 ^ 63)) else pos (min n (2 ^ 63 - 1));
          rest = after_digits d;
          any = true;
        })
    else record { value = pos 0; rest = s; any = false }

abbrev pub is_xdigit : ℕ → Bool
is_xdigit c = is_digit c || (leb b'a' c && leb c b'f' || leb b'A' c && leb c b'F')

abbrev pub xdigit_value : ℕ → ℕ
xdigit_value c =
    if is_digit c then c - b'0' else if leb b'a' c then c - b'a' + 10 else c - b'A' + 10

abbrev pub hex_value : ℕ → Bytes → ℕ
hex_value acc [] = acc
hex_value acc (c ∷ s) = if is_xdigit c then hex_value (acc * 16 + xdigit_value c) s else acc

abbrev pub after_xdigits : Bytes → Bytes
after_xdigits [] = []
after_xdigits (c ∷ s) = if is_xdigit c then after_xdigits s else c ∷ s

abbrev pub starts_xdigit : Bytes → Bool
starts_xdigit [] = false
starts_xdigit (c ∷ s) = is_xdigit c

-- `0x` counts as a prefix only in front of a digit.
abbrev pub after_prefix : Bytes → Bytes
after_prefix (z ∷ x ∷ s) =
    if z == b'0' && (x == b'x' || x == b'X') && starts_xdigit s then s else z ∷ x ∷ s
after_prefix s = s

-- A minus sign negates modulo 2 ^ 64; out of range the value is ULONG_MAX.
unfoldable pub strtoul16 : Bytes → Parsed ℕ
strtoul16 s =
    let t = skip_space s in
    let d = after_prefix (after_sign t) in
    if starts_xdigit d
    then (let n = min (hex_value 0 d) (2 ^ 64 - 1) in
        record {
          value =
              if has_minus t && leb (hex_value 0 d) (2 ^ 64 - 1) && ltb 0 n then 2 ^ 64 - n else n;
          rest = after_xdigits d;
          any = true;
        })
    else record { value = 0; rest = s; any = false }

-- Whether `strtoul16` sets `errno` to ERANGE.
abbrev pub overflows16 : Bytes → Bool
overflows16 s = ltb (2 ^ 64 - 1) (hex_value 0 (after_prefix (after_sign (skip_space s))))

-- The value of the digits below a base.
abbrev octal_value : ℕ → Bytes → ℕ
octal_value acc [] = acc
octal_value acc (c ∷ s) =
    if leb b'0' c && leb c b'7' then octal_value (acc * 8 + (c - b'0')) s else acc

abbrev is_prefixed : Bytes → Bool
is_prefixed (z ∷ x ∷ s) = z == b'0' && (x == b'x' || x == b'X') && starts_xdigit s
is_prefixed s = false

abbrev starts_zero : Bytes → Bool
starts_zero [] = false
starts_zero (c ∷ s) = c == b'0'

-- The value of `strtoul` in base 0, for which the text shows the base.
unfoldable pub strtoul0 : Bytes → ℕ
strtoul0 s =
    let t = skip_space s in
    let d = after_sign t in
    let v =
      if is_prefixed d
      then hex_value 0 (after_prefix d)
      else if starts_zero d
      then octal_value 0 d
      else digits_value 0 d in
    if ltb (2 ^ 64 - 1) v then 2 ^ 64 - 1 else if has_minus t && ltb 0 v then 2 ^ 64 - v else v

and_false : (b : Bool) → (b && false) ≡ false
and_false true = refl
and_false false = refl

-- On two characters that are no sign, space or prefix, the number is the value of the digits.
pub strtoul16_plain :
    (d e : ℕ) (s : Bytes)
    → is_xdigit d ≡ true
    → (e == b'x' || e == b'X') ≡ false
    → strtoul16 (d ∷ e ∷ s) ≡ record {
      value = min (hex_value 0 (d ∷ e ∷ s)) (2 ^ 64 - 1);
      rest = after_xdigits (d ∷ e ∷ s);
      any = true;
    }
unfolding strtoul16
strtoul16_plain d e s hd he =
    let no_space : is_space d ≡ false = ground arith in
    let no_sign : (d == b'-' || d == b'+') ≡ false = ground arith in
    let no_minus : (d == b'-') ≡ false = ground arith in
    rw (no_space, no_sign, he, and_false (d == b'0'), hd, no_minus) refl

-- `%zu` and `%d` of a number that is not negative; a number has fewer digits than its value plus one.
pub decimal_loop : ℕ → ℕ → Bytes → Bytes
decimal_loop zero n out = out
decimal_loop (suc fuel) n out =
    let out' = (b'0' + n % 10) ∷ out in
    let rest = decimal_loop fuel (n / 10) out' in if ltb n 10 then out' else rest

unfoldable pub decimal : ℕ → Bytes
unfolding decimal_loop
decimal n = decimal_loop (suc n) n []

decimal_loop_digits :
    (fuel n : ℕ) (out : Bytes)
    → All (λ c. (b'0' ≤ c) × (c ≤ b'9')) out
    → All (λ c. (b'0' ≤ c) × (c ≤ b'9')) (decimal_loop fuel n out)
unfolding decimal_loop
decimal_loop_digits zero n out h = h
decimal_loop_digits (suc fuel) n out h = elim (Bool-cases (ltb n 10)) [
  | inl t ↦ rw (t, decimal_loop) (omega arith, h)
  | inr f ↦ rw (f, decimal_loop) (decimal_loop_digits fuel (n / 10) _ (omega arith, h))
]

pub decimal_digits_lem : (n : ℕ) → All (λ c. (b'0' ≤ c) × (c ≤ b'9')) (decimal n)
unfolding decimal
decimal_digits_lem n = decimal_loop_digits (suc n) n [] tt

abbrev IsSome : Bytes → Type 0
IsSome s = (c : ℕ) × (t : Bytes) × (s ≡ c ∷ t)

decimal_loop-IsSome : (fuel n c : ℕ) (out : Bytes) → IsSome (decimal_loop fuel n (c ∷ out))
unfolding decimal_loop
decimal_loop-IsSome zero n c out = (c, out, refl)
decimal_loop-IsSome (suc fuel) n c out =
    if-cases IsSome (ltb n 10) (λ _. (b'0' + n % 10, c ∷ out, refl))
      (λ _. decimal_loop-IsSome fuel (n / 10) (b'0' + n % 10) (c ∷ out))

pub decimal_some : (n : ℕ) → (c : ℕ) × (s : Bytes) × (decimal n ≡ c ∷ s)
unfolding decimal decimal_loop
decimal_some n =
    if-cases IsSome (ltb n 10) (λ _. (b'0' + n % 10, [], refl))
      (λ _. decimal_loop-IsSome n (n / 10) (b'0' + n % 10) [])
