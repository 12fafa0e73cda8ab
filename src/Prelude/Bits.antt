-- ===== src/Prelude/Bits.antt =====
-- `^` and `&` on words by their lowest digits: the native operations mean `bitwise`, a recursion on
-- binary digits with fuel, which is dropped here.
use Prim.Native.Nat.{ℕ, zero, suc, ◌+◌, ◌*◌, ◌/◌, ◌%◌, ◌^◌, ◌≤◌, ◌<◌, ◌-◌, bit_xor, bit_and, min}
use Prim.Native.Nat.{digits, bitwise, differ, bit_xor-bitwise, bit_and-bitwise}
use mathlib.Core.Path.{◌≡◌, refl, sym, ap, ◌∙◌}
use native.Mathlib.Omega.{arith}
use native.Mathlib.Nat.{pow-suc, one-le-pow, div-add-mod, mod-lt, mod-eq_of_lt}
use native.Mathlib.Nat.{mul-add-mod_self_left}

one_out : (k n : ℕ) → suc k + n ≡ suc (k + n)
one_out k n = omega arith

module _ (tail : ℕ → ℕ) (op : ℕ → ℕ → ℕ) where
  one_more_digit :
      (fuel x y : ℕ) → x ≤ fuel → digits tail op (suc fuel) x y ≡ digits tail op fuel x y
  one_more_digit fuel zero y h = no_digits fuel
    where
      no_digits : (k : ℕ) → digits tail op (suc k) 0 y ≡ digits tail op k 0 y
      no_digits zero = refl
      no_digits (suc k) = refl
  one_more_digit zero (suc x) y h = elim h [ ]
  one_more_digit (suc fuel) (suc x) y h =
      ap (λ (t : ℕ). t * 2 + op (suc x % 2) (y % 2))
        (one_more_digit fuel (suc x / 2) (y / 2) (omega arith))

  spare_digits :
      (extra fuel x y : ℕ) → x ≤ fuel → digits tail op (extra + fuel) x y ≡ digits tail op fuel x y
  spare_digits zero fuel x y h = ap (λ (k : ℕ). digits tail op k x y) (omega arith)
  spare_digits (suc extra) fuel x y h =
      ap (λ (k : ℕ). digits tail op k x y) (one_out extra fuel)
      ∙ one_more_digit (extra + fuel) x y (omega arith)
      ∙ spare_digits extra fuel x y h

  lowest_digit :
      (x y : ℕ)
      → bitwise tail op (suc x) y ≡ op (suc x % 2) (y % 2) + 2 * bitwise tail op (suc x / 2) (y / 2)
  lowest_digit x y =
      let half = suc x / 2 in
      omega (
        arith,
        ap (λ (k : ℕ). digits tail op k half (y / 2)) (split half (omega arith)),
        spare_digits (x - half) half half (y / 2) (omega arith),
      )
    where
      split : (half : ℕ) → half ≤ x → x ≡ (x - half) + half
      split half h = omega arith

zero-bit_xor : (b : ℕ) → bit_xor 0 b ≡ b
zero-bit_xor b = bit_xor-bitwise 0 b

differ_lem : (a b : ℕ) → a < 2 → b < 2 → differ a b ≡ (a + b) % 2
differ_lem zero zero ha hb = refl
differ_lem zero (suc b) ha hb = omega arith
differ_lem (suc zero) zero ha hb = refl
differ_lem (suc zero) (suc zero) ha hb = refl
differ_lem (suc zero) (suc (suc b)) ha hb = absurd (omega arith)
differ_lem (suc (suc a)) b ha hb = absurd (omega arith)

bit_xor_zeros : (a b : ℕ) → a ≡ 0 → b ≡ 0 → bit_xor a b ≡ 0
bit_xor_zeros a b p q = rw (p, q)

pub bit_xor_step : (a b : ℕ) → bit_xor a b ≡ bit_xor (a / 2) (b / 2) * 2 + (a + b) % 2
bit_xor_step zero b = omega (arith, zero-bit_xor b, zero-bit_xor (b / 2))
bit_xor_step (suc a) b =
    simp bit_xor-bitwise
      (omega (arith, lowest_digit (λ y. y) differ a b, differ_lem (suc a % 2) (b % 2)))

-- By strong induction on a bound of `a`, since each step halves it.
bit_xor_cancel_below : (n a b : ℕ) → a ≤ n → b ≤ n → bit_xor (bit_xor a b) b ≡ a
bit_xor_cancel_below zero a b p q =
    let x : a ≡ 0 = omega arith in
    let y : b ≡ 0 = omega arith in rw (bit_xor_zeros a b x y, bit_xor_zeros 0 b refl y, x)
bit_xor_cancel_below (suc n) a b p q = ground (
  arith,
  bit_xor_step a b,
  bit_xor_step (bit_xor a b) b,
  bit_xor_cancel_below n (a / 2) (b / 2) (omega arith) (omega arith),
)

-- Xoring twice with the same word gives the word back.
pub bit_xor_cancel : (a b : ℕ) → bit_xor (bit_xor a b) b ≡ a
bit_xor_cancel a b = bit_xor_cancel_below (a + b) a b (omega arith) (omega arith)

pub bit_xor-lt_pow : (w a b : ℕ) → a < 2 ^ w → b < 2 ^ w → bit_xor a b < 2 ^ w
bit_xor-lt_pow zero a b p q = omega (arith, bit_xor_zeros a b (omega arith) (omega arith))
bit_xor-lt_pow (suc w) a b p q = omega (
  arith,
  bit_xor_step a b,
  pow-suc 2 w,
  bit_xor-lt_pow w (a / 2) (b / 2) (omega (arith, pow-suc 2 w)) (omega (arith, pow-suc 2 w)),
)

pub bit_and_step : (a b : ℕ) → bit_and a b ≡ bit_and (a / 2) (b / 2) * 2 + min (a % 2) (b % 2)
bit_and_step zero b = omega (arith, bit_and-bitwise 0 b, bit_and-bitwise 0 (b / 2))
bit_and_step (suc a) b = simp bit_and-bitwise (omega (arith, lowest_digit (λ y. 0) min a b))

bit_and_none : (n a : ℕ) → a ≤ n → bit_and a 0 ≡ 0
bit_and_none n zero h = bit_and-bitwise 0 0
bit_and_none zero (suc a) h = elim h [ ]
bit_and_none (suc n) (suc a) h =
    omega (arith, bit_and_step (suc a) 0, bit_and_none n (suc a / 2) (omega arith))

halves : (m a : ℕ) → 1 ≤ m → a / 2 % m * 2 + a % 2 ≡ a % (2 * m)
halves m a h =
    let r = a / 2 % m in
    let e : a ≡ 2 * m * (a / 2 / m) + (r * 2 + a % 2) = omega (arith, div-add-mod (a / 2) m) in
    let small : r * 2 + a % 2 < 2 * m = omega (arith, mod-lt (a / 2) h) in
    sym (
      ap (λ (t : ℕ). t % (2 * m)) e
      ∙ mul-add-mod_self_left (2 * m) (a / 2 / m) (r * 2 + a % 2)
      ∙ mod-eq_of_lt small)

-- A mask of `w` ones keeps the remainder by `2 ^ w`, at every width.
pub bit_and_mask : (w a : ℕ) → bit_and a (2 ^ w - 1) ≡ a % 2 ^ w
bit_and_mask zero a = omega (arith, bit_and_none a a (omega arith))
bit_and_mask (suc w) a = ground (
  arith,
  bit_and_step a (2 ^ suc w - 1),
  pow-suc 2 w,
  one-le-pow w 2,
  bit_and_mask w (a / 2),
  halves (2 ^ w) a,
)
