-- ===== src/Variants/Selection.antt =====
-- What `select_variants` of bench/src/bench.c selects.
use cross_platform_benchmark.Prelude.{
  ℕ, zero, suc, ◌+◌, ◌≤◌, ◌<◌, ◌≡◌, ◌⊎◌, inl, inr, refl, List, [], ◌∷◌, Option, none, some, Bytes,
  codes, leb, ◌==◌, ◌||◌, if-cases, length, All, take, find_char, str_eq, arith, length-drop, ap,
}
use cross_platform_benchmark.Variants.{
  Variant, find_variant, distinct_ones, listed, consed, name_length, behind, select_loop,
  select_variants, is_all,
}

-- One of a list.
abbrev pub IsAmong : List Variant → Variant → Type 0
IsAmong [] v = ⊥
IsAmong (x ∷ xs) v = (v ≡ x) ⊎ IsAmong xs v

-- A selection of some of `all`, with room for them behind `n` others.
abbrev pub OnSelected : List Variant → ℕ → Option (List Variant) → Type 0
OnSelected all n none = Unit
OnSelected all n (some vs) = All (IsAmong all) vs × (n + length vs ≤ length all)

abbrev OnFound : List Variant → ℕ → Option Variant → Type 0
OnFound all n none = Unit
OnFound all n (some v) = IsAmong all v × (n < length all)

abbrev OnNamed : List Variant → Option Variant → Type 0
OnNamed all none = Unit
OnNamed all (some v) = IsAmong all v

wider : (x : Variant) (vs : List Variant) (o : Option Variant) → OnNamed vs o → OnNamed (x ∷ vs) o
wider x vs none h = tt
wider x vs (some v) h = inr h

find_variant_lem : (vs : List Variant) (name : Bytes) → OnNamed vs (find_variant vs name)
unfolding find_variant
find_variant_lem [] name = tt
find_variant_lem (v ∷ vs) name =
    if-cases (OnNamed (v ∷ vs)) (str_eq name v.name) (λ _. inl refl)
      (λ _. wider v vs (find_variant vs name) (find_variant_lem vs name))

with_room :
    (all : List Variant) (n : ℕ) (o : Option Variant)
    → n < length all
    → OnNamed all o
    → OnFound all n o
with_room all n none b h = tt
with_room all n (some v) b h = (h, b)

listed_lem : (all : List Variant) (n : ℕ) (name : Bytes) → OnFound all n (listed all n name)
unfolding listed
listed_lem all n name =
    if-cases (OnFound all n) (length name == 0 || leb 32 (length name)) (λ _. tt)
      (λ _.
        if-cases (OnFound all n) (leb (length all) n) (λ _. tt)
          (λ f. with_room all n (find_variant all name) (ground arith) (find_variant_lem all name)))

consed_lem :
    (all : List Variant) (n : ℕ) (o : Option Variant) (vs : Option (List Variant))
    → OnFound all n o
    → (n < length all → OnSelected all (n + 1) vs)
    → OnSelected all n (consed o vs)
consed_lem all n none vs h k = tt
consed_lem all n (some v) none h k = tt
consed_lem all n (some v) (some vs) (i, b) k = ((i, (k b).0), omega (arith, (k b).1))

select_loop_lem :
    (all : List Variant) (fuel n : ℕ) (p : Bytes)
    → n ≤ length all
    → OnSelected all n (select_loop all fuel n p)
unfolding select_loop
select_loop_lem all zero n p h = tt
select_loop_lem all (suc fuel) n [] h = (tt, omega arith)
select_loop_lem all (suc fuel) n (c ∷ p) h =
    let comma = find_char b',' (c ∷ p) in
    let name = take (name_length (c ∷ p) comma) (c ∷ p) in
    let rest = behind (c ∷ p) comma in
    consed_lem all n (listed all n name) (select_loop all fuel (n + 1) rest) (listed_lem all n name)
      (λ b. select_loop_lem all fuel (n + 1) rest (omega arith))

still_listed :
    (x : Variant) (all vs : List Variant) → All (IsAmong all) vs → All (IsAmong (x ∷ all)) vs
still_listed x all [] h = tt
still_listed x all (v ∷ vs) (i, is) = (inr i, still_listed x all vs is)

all_lem : (all : List Variant) → OnSelected all 0 (some all)
all_lem [] = (tt, omega arith)
all_lem (v ∷ vs) = ((inl refl, still_listed v vs vs (all_lem vs).0), omega arith)

distinct_ones_lem : (all : List Variant) → OnSelected all 0 (some (distinct_ones all))
unfolding distinct_ones
distinct_ones_lem [] = (tt, omega arith)
distinct_ones_lem (v ∷ vs) =
    let h = distinct_ones_lem vs in
    let is = still_listed v vs (distinct_ones vs) h.0 in
    if-cases (λ (xs : List Variant). OnSelected (v ∷ vs) 0 (some xs)) v.distinct
      (λ _. ((inl refl, is), omega (arith, h.1))) (λ _. (is, omega (arith, h.1)))

-- Whatever the list says, a selection holds only variants of this binary, and no more than it carries:
-- the array of `main` has room for it.
pub select_variants_lem :
    (all : List Variant) (spec : Option Bytes) → OnSelected all 0 (select_variants all spec)
unfolding select_variants
select_variants_lem all none = distinct_ones_lem all
select_variants_lem all (some spec) =
    if-cases (OnSelected all 0) (str_eq spec (codes "distinct")) (λ _. distinct_ones_lem all)
      (λ _.
        if-cases (OnSelected all 0) (is_all spec) (λ _. all_lem all)
          (λ _. select_loop_lem all (suc (length spec)) 0 spec (omega arith)))

length-behind : (c : ℕ) (p : Bytes) (o : Option ℕ) → length (behind (c ∷ p) o) ≤ length p
length-behind c p none = omega arith
length-behind c p (some i) = omega (arith, length-drop (i + 1) (c ∷ p))

-- The loop over the names ends: any fuel above the length of the list gives the same result, so that
-- the -1 of a list is never one of missing fuel.
pub select_loop_fuel :
    (all : List Variant) (f g n : ℕ) (p : Bytes)
    → length p < f
    → length p < g
    → select_loop all f n p ≡ select_loop all g n p
unfolding select_loop
select_loop_fuel all zero g n p h k = absurd (omega arith)
select_loop_fuel all (suc f) zero n p h k = absurd (omega arith)
select_loop_fuel all (suc f) (suc g) n [] h k = refl
select_loop_fuel all (suc f) (suc g) n (c ∷ p) h k =
    let comma = find_char b',' (c ∷ p) in
    let rest = behind (c ∷ p) comma in
    let shorter = length-behind c p comma in
    ap (consed (listed all n (take (name_length (c ∷ p) comma) (c ∷ p))))
      (select_loop_fuel all f g (n + 1) rest (omega (arith, shorter)) (omega (arith, shorter)))
