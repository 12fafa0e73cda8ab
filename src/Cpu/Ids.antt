-- ===== src/Cpu/Ids.antt =====
-- The array that `parse_cpu_list` of bench/src/bench.c writes.
use cross_platform_benchmark.Prelude.{
  ℕ, zero, suc, ◌+◌, ◌≤◌, ◌≡◌, refl, List, [], ◌∷◌, Option, none, some, Bytes, ltb, length,
  length-append, ℤ, arith, if-cases,
}
use cross_platform_benchmark.Cpu.{
  Range, fitting, followed, take_range, ids_from, next_range, parse_loop, parse_cpu_list,
  after_range,
}

-- A property of the result, if there is one.
abbrev pub OnSome {ℓ κ} : {A : Type ℓ} → (A → Type κ) → Option A → Type κ
OnSome P none = Unit
OnSome P (some a) = P a

length-ids_from : (a n : ℕ) → length (ids_from a n) ≡ n
length-ids_from a zero = refl
length-ids_from a (suc n) = omega (arith, length-ids_from (suc a) n)

fitting_bound :
    (max_out n : ℕ) (r : Range) → OnSome (λ _. n + r.count ≤ max_out) (fitting max_out n r)
unfolding fitting
fitting_bound max_out n r =
    if-cases (OnSome (λ _. n + r.count ≤ max_out)) (ltb max_out (n + r.count)) (λ _. tt)
      (λ f. rest_bound (after_range r.rest) (ground arith))
  where
    rest_bound :
        {A : Type 0} (o : Option A) → n + r.count ≤ max_out → OnSome (λ _. n + r.count ≤ max_out) o
    rest_bound none h = tt
    rest_bound (some t) h = h

followed_bound :
    (n k max_out : ℕ) (ids : List ℤ) (more : Option (List ℤ))
    → length ids ≡ k
    → OnSome (λ xs. n + k + length xs ≤ max_out) more
    → OnSome (λ xs. n + length xs ≤ max_out) (followed ids more)
followed_bound n k max_out ids none e h = tt
followed_bound n k max_out ids (some xs) e h = omega (arith, length-append ids xs)

take_range_bound :
    (max_out n : ℕ) (continue : ℕ → Bytes → Option (List ℤ))
    → ((m : ℕ) (t : Bytes) → m ≤ max_out → OnSome (λ xs. m + length xs ≤ max_out) (continue m t))
    → (o : Option Range) → OnSome (λ xs. n + length xs ≤ max_out) (take_range max_out n continue o)
take_range_bound max_out n continue h none = tt
take_range_bound max_out n continue h (some r) =
    with_rest (fitting max_out n r) (fitting_bound max_out n r)
  where
    with_rest :
        (o : Option Bytes)
        → OnSome (λ _. n + r.count ≤ max_out) o
        → OnSome
            (λ xs. n + length xs ≤ max_out)
            (elim o [
              | none ↦ none
              | some t ↦ followed (ids_from r.first r.count) (continue (n + r.count) t)
            ])
    with_rest none b = tt
    with_rest (some t) b =
        followed_bound n r.count max_out (ids_from r.first r.count) (continue (n + r.count) t)
          (length-ids_from r.first r.count) (h (n + r.count) t b)

parse_loop_bound :
    (fuel max_out n : ℕ) (s : Bytes)
    → n ≤ max_out
    → OnSome (λ xs. n + length xs ≤ max_out) (parse_loop fuel max_out n s)
unfolding parse_loop
parse_loop_bound zero max_out n s h = tt
parse_loop_bound (suc fuel) max_out n [] h = omega arith
parse_loop_bound (suc fuel) max_out n (c ∷ s) h =
    take_range_bound max_out n (parse_loop fuel max_out)
      (λ m t b. parse_loop_bound fuel max_out m t b) (next_range (c ∷ s))

from_zero :
    (max_out : ℕ) (o : Option (List ℤ))
    → OnSome (λ xs. 0 + length xs ≤ max_out) o
    → OnSome (λ xs. length xs ≤ max_out) o
from_zero max_out none h = tt
from_zero max_out (some xs) h = omega arith

-- Whatever the text, a list that is accepted has room in the array: no id is written past `max_out`.
pub parse_cpu_list-length :
    (spec : Bytes) (max_out : ℕ)
    → OnSome (λ ids. length ids ≤ max_out) (parse_cpu_list spec max_out)
unfolding parse_cpu_list
parse_cpu_list-length spec max_out =
    from_zero max_out (parse_loop (suc (length spec)) max_out 0 spec)
      (parse_loop_bound (suc (length spec)) max_out 0 spec (omega arith))
