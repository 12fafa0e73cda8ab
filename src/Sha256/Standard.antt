-- ===== src/Sha256/Standard.antt =====
-- The digest of FIPS 180-4 as the standard describes it, with its constants computed from the primes.
pub mod Agrees
use Prim.Native.Nat.{bit_and, bit_or, bit_xor}
use cross_platform_benchmark.Prelude.{
  ℕ, zero, suc, ◌+◌, ◌-◌, ◌*◌, ◌/◌, ◌%◌, ◌^◌, List, [], ◌∷◌, ◌++◌, Bytes, codes, length, get_or,
  take, drop, leb, if◌then◌else◌, map, replicate,
}

abbrev pub primes : List ℕ
primes =
    2 ∷ 3 ∷ 5 ∷ 7 ∷ 11 ∷ 13 ∷ 17 ∷ 19 ∷ 23 ∷ 29 ∷ 31 ∷ 37 ∷ 41 ∷ 43 ∷ 47 ∷ 53 ∷ 59 ∷ 61 ∷ 67 ∷ 71
    ∷ 73 ∷ 79 ∷ 83 ∷ 89 ∷ 97 ∷ 101 ∷ 103 ∷ 107 ∷ 109 ∷ 113 ∷ 127 ∷ 131 ∷ 137 ∷ 139 ∷ 149 ∷ 151 ∷ 157
    ∷ 163 ∷ 167 ∷ 173 ∷ 179 ∷ 181 ∷ 191 ∷ 193 ∷ 197 ∷ 199 ∷ 211 ∷ 223 ∷ 227 ∷ 229 ∷ 233 ∷ 239 ∷ 241
    ∷ 251 ∷ 257 ∷ 263 ∷ 269 ∷ 271 ∷ 277 ∷ 281 ∷ 283 ∷ 293 ∷ 307 ∷ 311 ∷ []

-- The greatest number from `least` on, below it and 2 ^ bits together, of which the power is at most
-- `x`.
pub root : ℕ → ℕ → ℕ → ℕ → ℕ
root power zero least x = least
root power (suc bits) least x =
    let more = least + 2 ^ bits in root power bits (if leb (more ^ power) x then more else least) x

-- The first 32 bits of the fraction of a root.
pub root_fraction : ℕ → ℕ → ℕ
unfolding root
root_fraction power p = root power 35 0 (p * 2 ^ (32 * power)) % 2 ^ 32

-- The cube roots of the first 64 primes, and the square roots of the first eight.
pub constants : List ℕ
unfolding root_fraction
constants = map (root_fraction 3) primes

pub initial_value : List ℕ
unfolding root_fraction
initial_value = map (root_fraction 2) (take 8 primes)

-- ROTR and the functions of section 4.1.2, on words of 32 bits.
abbrev pub rotr : ℕ → ℕ → ℕ
rotr n x = bit_or (x / 2 ^ n) (x * 2 ^ (32 - n) % 2 ^ 32)

abbrev pub choose : ℕ → ℕ → ℕ → ℕ
choose x y z = bit_xor (bit_and x y) (bit_and (bit_xor x (2 ^ 32 - 1)) z)

abbrev pub majority : ℕ → ℕ → ℕ → ℕ
majority x y z = bit_xor (bit_xor (bit_and x y) (bit_and x z)) (bit_and y z)

abbrev pub big_sigma0 : ℕ → ℕ
big_sigma0 x = bit_xor (bit_xor (rotr 2 x) (rotr 13 x)) (rotr 22 x)

abbrev pub big_sigma1 : ℕ → ℕ
big_sigma1 x = bit_xor (bit_xor (rotr 6 x) (rotr 11 x)) (rotr 25 x)

abbrev pub small_sigma0 : ℕ → ℕ
small_sigma0 x = bit_xor (bit_xor (rotr 7 x) (rotr 18 x)) (x / 2 ^ 3)

abbrev pub small_sigma1 : ℕ → ℕ
small_sigma1 x = bit_xor (bit_xor (rotr 17 x) (rotr 19 x)) (x / 2 ^ 10)

-- The message schedule, with `left` words to go from word `t` on.
pub expand : ℕ → ℕ → List ℕ → List ℕ
expand zero t w = w
expand (suc left) t w =
    let sum =
      small_sigma1 (get_or w (t - 2) 0)
      + get_or w (t - 7) 0
      + small_sigma0 (get_or w (t - 15) 0)
      + get_or w (t - 16) 0 in
    expand left (t + 1) (w ++ sum % 2 ^ 32 ∷ [])

-- The words of a block from word `t` on: four bytes one behind the other, the first one highest.
pub block_words : ℕ → ℕ → Bytes → List ℕ
block_words zero t p = []
block_words (suc n) t p =
    bit_or
      (bit_or
        (bit_or (get_or p (t * 4) 0 * 2 ^ 24 % 2 ^ 32) (get_or p (t * 4 + 1) 0 * 2 ^ 16 % 2 ^ 32))
        (get_or p (t * 4 + 2) 0 * 2 ^ 8 % 2 ^ 32))
      (get_or p (t * 4 + 3) 0)
    ∷ block_words n (t + 1) p

-- `a` to `h`.
pub record State : Type 0 where
  pub a : ℕ
  pub b : ℕ
  pub c : ℕ
  pub d : ℕ
  pub e : ℕ
  pub f : ℕ
  pub g : ℕ
  pub h : ℕ

pub standard_round : ℕ → ℕ → State → State
standard_round k w s =
    let t1 = s.h + big_sigma1 s.e + choose s.e s.f s.g + k + w in
    let t2 = big_sigma0 s.a + majority s.a s.b s.c in
    record {
      a = (t1 + t2) % 2 ^ 32;
      b = s.a;
      c = s.b;
      d = s.c;
      e = (s.d + t1) % 2 ^ 32;
      f = s.e;
      g = s.f;
      h = s.g;
    }

pub standard_rounds : List ℕ → List ℕ → State → State
standard_rounds [] ws s = s
standard_rounds (k ∷ ks) [] s = s
standard_rounds (k ∷ ks) (w ∷ ws) s = standard_rounds ks ws (standard_round k w s)

pub start_of : List ℕ → State
start_of hs = record {
  a = get_or hs 0 0;
  b = get_or hs 1 0;
  c = get_or hs 2 0;
  d = get_or hs 3 0;
  e = get_or hs 4 0;
  f = get_or hs 5 0;
  g = get_or hs 6 0;
  h = get_or hs 7 0;
}

pub added : List ℕ → State → List ℕ
added hs s =
    (get_or hs 0 0 + s.a) % 2 ^ 32
    ∷ (get_or hs 1 0 + s.b) % 2 ^ 32
    ∷ (get_or hs 2 0 + s.c) % 2 ^ 32
    ∷ (get_or hs 3 0 + s.d) % 2 ^ 32
    ∷ (get_or hs 4 0 + s.e) % 2 ^ 32
    ∷ (get_or hs 5 0 + s.f) % 2 ^ 32
    ∷ (get_or hs 6 0 + s.g) % 2 ^ 32
    ∷ (get_or hs 7 0 + s.h) % 2 ^ 32
    ∷ []

-- The hash value behind a block.
pub standard_block : List ℕ → Bytes → List ℕ
standard_block hs p =
    added hs (standard_rounds constants (expand 48 16 (block_words 16 0 p)) (start_of hs))

-- The last `n` digits of a number, the highest one first.
pub digits_of : ℕ → ℕ → ℕ → List ℕ
digits_of base zero x = []
digits_of base (suc n) x = digits_of base n (x / base) ++ x % base ∷ []

-- The message, a one bit, the fewest zeros that make whole blocks, and the length in bits, which the
-- standard has below 2 ^ 64.
abbrev pub standard_pad : Bytes → Bytes
standard_pad m =
    m
    ++ 0x80 ∷ (replicate ((119 - length m % 64) % 64) 0 ++ digits_of 256 8 (length m * 8 % 2 ^ 64))

pub fold_blocks : ℕ → List ℕ → Bytes → List ℕ
fold_blocks zero hs p = hs
fold_blocks (suc n) hs p = fold_blocks n (standard_block hs (take 64 p)) (drop 64 p)

pub standard_hash : Bytes → List ℕ
unfolding fold_blocks
standard_hash m = fold_blocks (length (standard_pad m) / 64) initial_value (standard_pad m)

-- Words as hexadecimal digits, in lower case.
abbrev pub hex_char : ℕ → ℕ
hex_char d = get_or (codes "0123456789abcdef") d 0

pub hex_text : List ℕ → Bytes
hex_text [] = []
hex_text (x ∷ xs) = map hex_char (digits_of 16 8 x) ++ hex_text xs
