-- ===== src/Chase/Cycle.antt =====
-- The memory that `build_chases` of bench/src/bench.c leaves, as cycles.
use cross_platform_benchmark.Prelude.{
  ℕ, zero, suc, ◌+◌, ◌-◌, ◌*◌, ◌/◌, ◌%◌, ◌^◌, ◌<◌, ◌≤◌, ◌≡◌, ◌≢◌, refl, sym, subst, ◌∙◌, List, [],
  ◌∷◌, ◌++◌, length, length-append, get_or, arith, Bool-cases, true, inl, inr, ◌==◌, ==_iff, some,
  if◌then◌else◌,
}
use cross_platform_benchmark.Chase.{
  Memory, Built, own_nodes, shuffle, build_way, build_ways, build_chases,
}
use cross_platform_benchmark.Chase.Shuffle.{IsOrder, own_nodes-IsOrder, shuffle-IsOrder}
use cross_platform_benchmark.Chase.Links.{link_at, link_other, address-injective}

-- The nodes of way `wi` are linked in one cycle, in the order that `order` gives, from `head` on.
pub record IsCycle (base stride ways n wi : ℕ) (m : Memory) (head : ℕ) : Type 0 where
  pub order : List ℕ
  pub nodes : IsOrder ways n wi order
  pub starts : head ≡ base + get_or order 0 0 * stride
  pub links :
      (k : ℕ)
      → k < n
      → m (base + get_or order k 0 * stride) ≡ base + get_or order ((k + 1) % n) 0 * stride

row_le : (w q q' : ℕ) → q < q' → q * w + w ≤ q' * w
row_le w q q' h = grind arith

way_unique :
    (ways q q' wi wi' : ℕ) → wi < ways → wi' < ways → q * ways + wi ≡ q' * ways + wi' → wi ≡ wi'
way_unique ways q q' wi wi' h h' e = ground (arith, row_le ways q q', row_le ways q' q)

get_or_last : (xs : List ℕ) (x k : ℕ) → length xs ≡ k → get_or (xs ++ x ∷ []) k 0 ≡ x
get_or_last [] x zero e = refl
get_or_last [] x (suc k) e = absurd (omega arith)
get_or_last (y ∷ xs) x zero e = absurd (omega arith)
get_or_last (y ∷ xs) x (suc k) e = get_or_last xs x k (omega arith)

get_or_before : (xs : List ℕ) (x k : ℕ) → k < length xs → get_or (xs ++ x ∷ []) k 0 ≡ get_or xs k 0
get_or_before [] x k h = elim h [ ]
get_or_before (y ∷ xs) x zero h = refl
get_or_before (y ∷ xs) x (suc k) h = get_or_before xs x k (omega arith)

module _ (base stride ways n : ℕ) (pos : 0 < stride) (some_node : 0 < n)
    (fits : n * ways ≤ 2 ^ 32) where
  order_of : ℕ → Built → List ℕ
  order_of wi b = (shuffle (n - 1) (own_nodes n 0 ways wi) b.rng).order

  order_of-IsOrder : (wi : ℕ) (b : Built) → wi < ways → IsOrder ways n wi (order_of wi b)
  unfolding order_of
  order_of-IsOrder wi b h =
      shuffle-IsOrder ways n wi (n - 1) _ b.rng (omega arith) (own_nodes-IsOrder ways n wi h fits)

  new_head : ℕ → Built → ℕ
  new_head wi b = base + get_or (order_of wi b) 0 0 * stride

  build_way-IsCycle :
      (wi : ℕ) (b : Built)
      → wi < ways
      → IsCycle base stride ways n wi (build_way base stride ways n wi b).memory (new_head wi b)
  unfolding build_way order_of new_head
  build_way-IsCycle wi b h =
      let o = order_of-IsOrder wi b h in
      record {
        order = order_of wi b;
        nodes = o;
        starts = refl;
        links = λ k hk.
            link_at base stride n (order_of wi b) n 0 b.memory k
              (λ x y hx hy e.
                o.distinct x y (omega arith) (omega arith)
                  (address-injective base stride _ _ pos e))
              (omega arith) (omega arith);
      }

  -- Another way's nodes are not written.
  build_way_keeps :
      (wi wi' head : ℕ) (b : Built)
      → wi < ways
      → wi' < ways
      → wi ≢ wi'
      → IsCycle base stride ways n wi' b.memory head
      → IsCycle base stride ways n wi' (build_way base stride ways n wi b).memory head
  unfolding build_way order_of
  build_way_keeps wi wi' head b h h' ne c =
      let o = order_of-IsOrder wi b h in
      record {
        order = c.order;
        nodes = c.nodes;
        starts = c.starts;
        links = λ k hk.
            link_other base stride n (order_of wi b) n 0 b.memory _ (λ l lo hi clash.
              let (q, _, eq) = o.owned l (omega arith) in
              let (q', _, eq') = c.nodes.owned k hk in
              ne (
                sym (
                  way_unique ways q' q wi' wi h' h
                    (sym eq' ∙ address-injective base stride _ _ pos clash ∙ eq))))
            ∙ c.links k hk;
      }

  -- What holds after the ways below `wi` are built.
  record IsBuilt (wi : ℕ) (b : Built) : Type 0 where
    counted : length b.heads ≡ wi
    cycles : (w : ℕ) → w < wi → IsCycle base stride ways n w b.memory (get_or b.heads w 0)

  build_way-IsBuilt :
      (wi : ℕ) (b : Built)
      → wi < ways
      → IsBuilt wi b
      → IsBuilt (wi + 1) (build_way base stride ways n wi b)
  unfolding build_way new_head order_of
  build_way-IsBuilt wi b h i = record {
    counted = omega (arith, length-append b.heads (new_head wi b ∷ []), i.counted);
    cycles = λ w hw. elim (Bool-cases (w == wi)) [
      | inl same ↦
          let e : wi ≡ w = sym ((==_iff w wi).0 same) in
          subst
            (λ (v : ℕ).
              IsCycle base stride ways n v (build_way base stride ways n wi b).memory
                (get_or (b.heads ++ new_head wi b ∷ []) v 0))
            e
            (subst (IsCycle base stride ways n wi (build_way base stride ways n wi b).memory)
              (sym (get_or_last b.heads (new_head wi b) wi i.counted)) (build_way-IsCycle wi b h))
      | inr other ↦
          let lt : w < wi = ground arith in
          subst (IsCycle base stride ways n w (build_way base stride ways n wi b).memory)
            (sym (get_or_before b.heads (new_head wi b) w (omega (arith, i.counted))))
            (build_way_keeps wi w (get_or b.heads w 0) b h (omega arith) (omega arith)
              (i.cycles w lt))
    ];
  }

  build_ways-IsBuilt :
      (left wi : ℕ) (b : Built)
      → wi + left ≡ ways
      → IsBuilt wi b
      → IsBuilt ways (build_ways left wi base stride ways n b)
  unfolding build_ways
  build_ways-IsBuilt zero wi b e i =
      let e' : wi ≡ ways = omega arith in subst (λ (v : ℕ). IsBuilt v b) e' i
  build_ways-IsBuilt (suc left) wi b e i =
      build_ways-IsBuilt left (wi + 1) _ (omega arith) (build_way-IsBuilt wi b (omega arith) i)

-- `build_chases` succeeds on a buffer with two nodes a way, and then every way is one cycle.
pub build_chases-IsCycle :
    (base nbytes stride ways seed : ℕ) (m : Memory)
    → 0 < stride
    → 0 < ways
    → nbytes / stride ≤ 2 ^ 32
    → 2 ≤ nbytes / stride / ways
    → (b : Built) × (build_chases true base nbytes stride ways seed m ≡ some b)
      × (length b.heads ≡ ways)
      × ((w : ℕ)
          → w < ways
          → IsCycle base stride ways (nbytes / stride / ways) w b.memory (get_or b.heads w 0))
unfolding build_chases
build_chases-IsCycle base nbytes stride ways seed m pos has_way fits enough =
    (built, ground arith, i.counted, i.cycles)
  where
    n : ℕ
    n = nbytes / stride / ways

    first : Built
    first = record { memory = m; heads = []; rng = if seed == 0 then 0x243F6A8885A308D3 else seed }

    built : Built
    built = build_ways ways 0 base stride ways n first

    i : IsBuilt base stride ways n pos (omega arith) (grind arith) ways built
    i =
        build_ways-IsBuilt base stride ways n pos (omega arith) (grind arith) ways 0 first
          (omega arith) (record { counted = refl; cycles = λ w h. absurd (omega arith) })
