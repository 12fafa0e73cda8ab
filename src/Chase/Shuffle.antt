-- ===== src/Chase/Shuffle.antt =====
-- The shuffle of `build_chases` in bench/src/bench.c.
use cross_platform_benchmark.Prelude.{
  ℕ, zero, suc, ◌+◌, ◌*◌, ◌%◌, ◌^◌, ◌<◌, ◌≤◌, ◌≡◌, refl, sym, ap, ◌∙◌, List, length, get_or, set,
  length-set, get_or-set_self, get_or-set_ne, ◌==◌, if◌then◌else◌, arith, u32,
}
use cross_platform_benchmark.Rng.{xs64}
use cross_platform_benchmark.Chase.{own_nodes, swap, shuffle}

-- The nodes of way `wi` of `ways`, `n` of them, each once.
pub record IsOrder (ways n wi : ℕ) (order : List ℕ) : Type 0 where
  pub size : length order ≡ n
  pub distinct : (k l : ℕ) → k < n → l < n → get_or order k 0 ≡ get_or order l 0 → k ≡ l
  pub owned : (k : ℕ) → k < n → (q : ℕ) × (q < n) × (get_or order k 0 ≡ q * ways + wi)

length-own_nodes : (left i ways wi : ℕ) → length (own_nodes left i ways wi) ≡ left
unfolding own_nodes
length-own_nodes zero i ways wi = refl
length-own_nodes (suc left) i ways wi = ap suc (length-own_nodes left (i + 1) ways wi)

get_or-own_nodes :
    (left i ways wi k : ℕ)
    → k < left
    → get_or (own_nodes left i ways wi) k 0 ≡ u32 ((i + k) * ways + wi)
unfolding own_nodes
get_or-own_nodes zero i ways wi k h = elim h [ ]
get_or-own_nodes (suc left) i ways wi zero h = ap (λ (t : ℕ). u32 (t * ways + wi)) (omega arith)
get_or-own_nodes (suc left) i ways wi (suc k) h =
    get_or-own_nodes left (i + 1) ways wi k (omega arith)
    ∙ ap (λ (t : ℕ). u32 (t * ways + wi)) (omega arith)

mul-cancel : (a b w r : ℕ) → 0 < w → a * w + r ≡ b * w + r → a ≡ b
mul-cancel a b w r pos e = grind arith

pub own_nodes-IsOrder :
    (ways n wi : ℕ) → wi < ways → n * ways ≤ 2 ^ 32 → IsOrder ways n wi (own_nodes n 0 ways wi)
own_nodes-IsOrder ways n wi h fits = record {
  size = length-own_nodes n 0 ways wi;
  distinct = λ k l hk hl e. mul-cancel k l ways wi (omega arith) (sym (at k hk) ∙ e ∙ at l hl);
  owned = λ k hk. (k, hk, at k hk);
}
  where
    below : (k : ℕ) → k < n → k * ways + wi < 2 ^ 32
    below k hk = grind arith

    at : (k : ℕ) → k < n → get_or (own_nodes n 0 ways wi) k 0 ≡ k * ways + wi
    at k hk = omega (arith, get_or-own_nodes n 0 ways wi k hk, below k hk)

-- Where the entry at `k` of the swapped list comes from.
abbrev source : ℕ → ℕ → ℕ → ℕ
source i j k = if k == j then i else if k == i then j else k

get_or-swap :
    (order : List ℕ) (i j k : ℕ)
    → i < length order
    → j < length order
    → get_or (swap order i j) k 0 ≡ get_or order (source i j k) 0
get_or-swap order i j k hi hj =
    let first = set order i (get_or order j 0) in
    ground (
      arith,
      length-set order i (get_or order j 0),
      get_or-set_self first j (get_or order i 0) 0,
      get_or-set_ne first j k (get_or order i 0) 0,
      get_or-set_self order i (get_or order j 0) 0,
      get_or-set_ne order i k (get_or order j 0) 0,
    )

source-lt : (n i j k : ℕ) → i < n → j < n → k < n → source i j k < n
source-lt n i j k hi hj hk = ground arith

source-injective : (i j k l : ℕ) → source i j k ≡ source i j l → k ≡ l
source-injective i j k l e = ground arith

swap-IsOrder :
    (ways n wi i j : ℕ) (order : List ℕ)
    → i < n
    → j < n
    → IsOrder ways n wi order
    → IsOrder ways n wi (swap order i j)
swap-IsOrder ways n wi i j order hi hj o = record {
  size = length-set _ j _ ∙ length-set order i _ ∙ o.size;
  distinct = λ k l hk hl e. source-injective i j k l (
      o.distinct (source i j k) (source i j l) (source-lt n i j k hi hj hk)
        (source-lt n i j l hi hj hl) (sym (at k) ∙ e ∙ at l));
  owned = λ k hk.
      let (q, lt, e) = o.owned (source i j k) (source-lt n i j k hi hj hk) in (q, lt, at k ∙ e);
}
  where
    at : (k : ℕ) → get_or (swap order i j) k 0 ≡ get_or order (source i j k) 0
    at k = get_or-swap order i j k (omega (arith, o.size)) (omega (arith, o.size))

pub shuffle-IsOrder :
    (ways n wi i : ℕ) (order : List ℕ) (s : ℕ)
    → i < n
    → IsOrder ways n wi order
    → IsOrder ways n wi (shuffle i order s).order
unfolding shuffle
shuffle-IsOrder ways n wi zero order s h o = o
shuffle-IsOrder ways n wi (suc i) order s h o =
    shuffle-IsOrder ways n wi i _ _ (omega arith)
      (swap-IsOrder ways n wi (suc i) ((xs64 s).value % (suc i + 1)) order h (omega arith) o)
