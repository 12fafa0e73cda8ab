-- ===== src/Cpu/Fuel.antt =====
-- The fuel of `parse_cpu_list` of bench/src/bench.c.
use cross_platform_benchmark.Prelude.{
  ℕ, zero, suc, ◌+◌, ◌<◌, ◌≤◌, ◌≡◌, refl, sym, ap, true, List, [], ◌∷◌, Option, none, some, Bytes,
  ltb, ◌==◌, ◌||◌, length, ℤ, arith, if-cases, true-false, skip_space, after_digits, starts_digit,
  after_sign, strtol, Parsed, is_negative, magnitude,
}
use cross_platform_benchmark.Cpu.{
  Range, range_end, range_of, next_range, after_range, fitting, followed, take_range, ids_from,
  parse_loop,
}
use cross_platform_benchmark.Cpu.Ids.{OnSome}

length-skip_space : (s : Bytes) → length (skip_space s) ≤ length s
length-skip_space [] = omega arith
length-skip_space (c ∷ s) = ground (arith, length-skip_space s)

length-after_digits : (s : Bytes) → length (after_digits s) ≤ length s
length-after_digits [] = omega arith
length-after_digits (c ∷ s) = ground (arith, length-after_digits s)

after_digits_shorter : (s : Bytes) → starts_digit s ≡ true → length (after_digits s) < length s
after_digits_shorter [] h = absurd (true-false (sym h))
after_digits_shorter (c ∷ s) h = ground (arith, length-after_digits s)

length-after_sign : (s : Bytes) → length (after_sign s) ≤ length s
length-after_sign [] = omega arith
length-after_sign (c ∷ s) = ground arith

-- A number takes a digit at least; without one nothing is taken.
strtol_shorter : (s : Bytes) → (strtol s).any ≡ true → length (strtol s).rest < length s
unfolding strtol
strtol_shorter s =
    if-cases (λ (p : Parsed ℤ). p.any ≡ true → length p.rest < length s)
      (starts_digit (after_sign (skip_space s)))
      (λ t _. omega (
        arith,
        after_digits_shorter (after_sign (skip_space s)) t,
        length-after_sign (skip_space s),
        length-skip_space s,
      ))
      (λ f h. absurd (true-false (sym h)))

range_end_within :
    (a : ℤ) (s : Bytes) → OnSome (λ (p : ℤ × Bytes). length p.1 ≤ length s) (range_end a s)
range_end_within a [] = omega arith
range_end_within a (c ∷ s) =
    let P = OnSome (λ (p : ℤ × Bytes). length p.1 ≤ length (c ∷ s)) in
    if-cases P (c == b'-')
      (λ _. if-cases P (strtol s).any (λ h. omega (arith, strtol_shorter s h)) (λ _. tt))
      (λ _. omega arith)

range_of_within :
    (n : ℕ) (a : ℤ) (o : Option (ℤ × Bytes))
    → OnSome (λ (p : ℤ × Bytes). length p.1 < n) o
    → OnSome (λ (r : Range). length r.rest < n) (range_of a o)
range_of_within n a none h = tt
range_of_within n a (some (b, rest)) h =
    if-cases (OnSome (λ (r : Range). length r.rest < n))
      (is_negative a || is_negative b || ltb (magnitude b) (magnitude a)) (λ _. tt) (λ _. h)

shorter_end :
    (n m : ℕ) (o : Option (ℤ × Bytes))
    → m < n
    → OnSome (λ (p : ℤ × Bytes). length p.1 ≤ m) o
    → OnSome (λ (p : ℤ × Bytes). length p.1 < n) o
shorter_end n m none b h = tt
shorter_end n m (some p) b h = omega arith

next_range_shorter : (s : Bytes) → OnSome (λ (r : Range). length r.rest < length s) (next_range s)
unfolding next_range
next_range_shorter s =
    let a = strtol s in
    if-cases (OnSome (λ (r : Range). length r.rest < length s)) a.any
      (λ h. range_of_within (length s) a.value (range_end a.value a.rest) (
        shorter_end (length s) (length a.rest) (range_end a.value a.rest) (strtol_shorter s h)
          (range_end_within a.value a.rest)))
      (λ _. tt)

after_range_within : (s : Bytes) → OnSome (λ (t : Bytes). length t ≤ length s) (after_range s)
after_range_within [] = omega arith
after_range_within (c ∷ s) =
    if-cases (OnSome (λ (t : Bytes). length t ≤ length (c ∷ s))) (c == b',') (λ _. omega arith)
      (λ _. tt)

fitting_within :
    (max_out n : ℕ) (r : Range)
    → OnSome (λ (t : Bytes). length t ≤ length r.rest) (fitting max_out n r)
unfolding fitting
fitting_within max_out n r =
    if-cases (OnSome (λ (t : Bytes). length t ≤ length r.rest)) (ltb max_out (n + r.count))
      (λ _. tt) (λ _. after_range_within r.rest)

-- A round depends on the loop at shorter texts only.
take_range_ext :
    (max_out n m : ℕ) (f g : ℕ → Bytes → Option (List ℤ)) (o : Option Range)
    → OnSome (λ (r : Range). length r.rest < m) o
    → ((k : ℕ) (t : Bytes) → length t < m → f k t ≡ g k t)
    → take_range max_out n f o ≡ take_range max_out n g o
take_range_ext max_out n m f g none h e = refl
take_range_ext max_out n m f g (some r) h e =
    with_rest (fitting max_out n r) (fitting_within max_out n r)
  where
    with_rest :
        (o : Option Bytes)
        → OnSome (λ (t : Bytes). length t ≤ length r.rest) o
        → ◌≡◌ {A = Option (List ℤ)}
            (elim o [
              | none ↦ none
              | some t ↦ followed (ids_from r.first r.count) (f (n + r.count) t)
            ])
            (elim o [
              | none ↦ none
              | some t ↦ followed (ids_from r.first r.count) (g (n + r.count) t)
            ])
    with_rest none b = refl
    with_rest (some t) b =
        ap (followed (ids_from r.first r.count)) (e (n + r.count) t (omega (arith, h)))

-- The loop over the ranges ends: any fuel above the length of the text gives the same result, so that
-- the -1 of a list is never one of missing fuel.
pub parse_loop_fuel :
    (f g max_out n : ℕ) (s : Bytes)
    → length s < f
    → length s < g
    → parse_loop f max_out n s ≡ parse_loop g max_out n s
unfolding parse_loop
parse_loop_fuel zero g max_out n s h k = absurd (omega arith)
parse_loop_fuel (suc f) zero max_out n s h k = absurd (omega arith)
parse_loop_fuel (suc f) (suc g) max_out n [] h k = refl
parse_loop_fuel (suc f) (suc g) max_out n (c ∷ s) h k =
    take_range_ext max_out n (length (c ∷ s)) (parse_loop f max_out) (parse_loop g max_out)
      (next_range (c ∷ s)) (next_range_shorter (c ∷ s))
      (λ m t b. parse_loop_fuel f g max_out m t (omega arith) (omega arith))
