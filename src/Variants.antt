-- ===== src/Variants.antt =====
-- `variant_t`, `find_variant` and `select_variants` of bench/src/bench.c. The target's features are
-- parameters of the build.
pub mod Selection
use cross_platform_benchmark.Prelude.{
  ℕ, zero, suc, ◌+◌, ◌-◌, Bool, true, false, ◌&&◌, ◌||◌, List, [], ◌∷◌, ◌++◌, Option, none, some,
  Bytes, codes, leb, ltb, ◌==◌, if◌then◌else◌, length, take, drop, str_eq, find_char,
}

-- A variant by its kernels' name, and whether it is distinct on this target.
pub record Variant : Type 0 where
  pub name : Bytes
  pub distinct : Bool

-- `g_variants`, with TARGET_HAS_SIMD and TARGET_HAS_FMA.
abbrev pub variants : Bool → Bool → List Variant
variants simd fma =
    record { name = codes "scalar-nofma"; distinct = true }
    ∷ record { name = codes "vector-nofma"; distinct = simd }
    ∷ record { name = codes "scalar-fma"; distinct = fma }
    ∷ record { name = codes "vector-fma"; distinct = simd && fma }
    ∷ []

unfoldable pub find_variant : List Variant → Bytes → Option Variant
find_variant [] name = none
find_variant (v ∷ vs) name =
    let rest = find_variant vs name in if str_eq name v.name then some v else rest

unfoldable pub distinct_ones : List Variant → List Variant
distinct_ones [] = []
distinct_ones (v ∷ vs) = let rest = distinct_ones vs in if v.distinct then v ∷ rest else rest

-- The name in front of the next comma, and the text behind it.
abbrev pub name_length : Bytes → Option ℕ → ℕ
name_length p none = length p
name_length p (some i) = i

abbrev pub behind : Bytes → Option ℕ → Bytes
behind p none = []
behind p (some i) = drop (i + 1) p

-- What a name gives, if it has 1 to 31 bytes, is known and finds room.
unfoldable pub listed : List Variant → ℕ → Bytes → Option Variant
listed all n name =
    if length name == 0 || leb 32 (length name)
    then none
    else if leb (length all) n
    then none
    else find_variant all name

abbrev pub consed : Option Variant → Option (List Variant) → Option (List Variant)
consed none vs = none
consed (some v) none = none
consed (some v) (some vs) = some (v ∷ vs)

-- The loop over the list of names, with `n` variants selected; each round takes a character at least.
unfoldable pub select_loop : List Variant → ℕ → ℕ → Bytes → Option (List Variant)
unfolding listed
select_loop all zero n p = none
select_loop all (suc fuel) n [] = some []
select_loop all (suc fuel) n (c ∷ p) =
    let comma = find_char b',' (c ∷ p) in
    consed (listed all n (take (name_length (c ∷ p) comma) (c ∷ p)))
      (select_loop all fuel (n + 1) (behind (c ∷ p) comma))

abbrev pub is_all : Bytes → Bool
is_all s = str_eq s (codes "all")

-- `none` for the spec is NULL; `none` for the result is -1.
unfoldable pub select_variants : List Variant → Option Bytes → Option (List Variant)
unfolding distinct_ones select_loop
select_variants all none = some (distinct_ones all)
select_variants all (some spec) =
    if str_eq spec (codes "distinct")
    then some (distinct_ones all)
    else if is_all spec
    then some all
    else select_loop all (suc (length spec)) 0 spec
