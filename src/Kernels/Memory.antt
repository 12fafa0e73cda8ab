-- ===== src/Kernels/Memory.antt =====
-- The memory kernels of bench/src/kernels.c, and their walk over what `build_chases` built.
use cross_platform_benchmark.Prelude.{
  ℕ, zero, suc, ◌+◌, ◌*◌, ◌/◌, ◌%◌, ◌^◌, ◌<◌, ◌≤◌, ◌≡◌, refl, sym, ap, ◌∙◌, List, [], ◌∷◌, length,
  get_or, u64, arith, some, true,
}
use native.Mathlib.Nat.{mod-lt, mod-add-mod, mod-eq_of_lt, mod_self}
use cross_platform_benchmark.Kernels.{rounds, MemCtx, sweep, mem_kernel_bw, mem_kernel_lat}
use cross_platform_benchmark.Chase.{Built, build_chases}
use cross_platform_benchmark.Chase.Links.{address-injective}
use cross_platform_benchmark.Chase.Cycle.{IsCycle, build_chases-IsCycle}

-- The words that a sweep reaches are the whole groups of four, each raised by `n` modulo 2 ^ 64.
abbrev pub raised : ℕ → List ℕ → List ℕ
raised n (v0 ∷ v1 ∷ v2 ∷ v3 ∷ buf) =
    u64 (v0 + n) ∷ u64 (v1 + n) ∷ u64 (v2 + n) ∷ u64 (v3 + n) ∷ raised n buf
raised n buf = buf

raised-raised : (n : ℕ) (buf : List ℕ) → raised n (raised 1 buf) ≡ raised (1 + n) buf
raised-raised n [] = refl
raised-raised n (a ∷ []) = refl
raised-raised n (a ∷ b ∷ []) = refl
raised-raised n (a ∷ b ∷ c ∷ []) = refl
raised-raised n (v0 ∷ v1 ∷ v2 ∷ v3 ∷ buf) = ground (arith, raised-raised n buf)

-- One sweep from any accumulators raises the words by one and leaves four accumulators.
sweep_lem :
    (buf : List ℕ) (a0 a1 a2 a3 : ℕ)
    → (b0 : ℕ) × (b1 : ℕ) × (b2 : ℕ) × (b3 : ℕ) × (sweep buf (a0 ∷ a1 ∷ a2 ∷ a3 ∷ [])
        ≡ record { buf = raised 1 buf; acc = b0 ∷ b1 ∷ b2 ∷ b3 ∷ [] })
unfolding sweep
sweep_lem [] a0 a1 a2 a3 = (a0, a1, a2, a3, refl)
sweep_lem (x ∷ []) a0 a1 a2 a3 = (a0, a1, a2, a3, refl)
sweep_lem (x ∷ y ∷ []) a0 a1 a2 a3 = (a0, a1, a2, a3, refl)
sweep_lem (x ∷ y ∷ z ∷ []) a0 a1 a2 a3 = (a0, a1, a2, a3, refl)
sweep_lem (x ∷ y ∷ z ∷ w ∷ buf) a0 a1 a2 a3 =
    let (b0, b1, b2, b3, e) =
      sweep_lem buf (u64 (a0 + x)) (u64 (a1 + y)) (u64 (a2 + z)) (u64 (a3 + w)) in
    (
      b0,
      b1,
      b2,
      b3,
      ap
          (λ (t : MemCtx). record t {
            buf = u64 (x + 1) ∷ u64 (y + 1) ∷ u64 (z + 1) ∷ u64 (w + 1) ∷ t.buf;
          })
          e,
    )

-- After one or more passes each word that a sweep reaches is raised by the number of passes modulo
-- 2 ^ 64, and the words of an incomplete last group of four are as they were.
pub mem_kernel_bw-raised :
    (n : ℕ) (buf : List ℕ) (a0 a1 a2 a3 : ℕ)
    → (mem_kernel_bw (record { buf = buf; acc = a0 ∷ a1 ∷ a2 ∷ a3 ∷ [] }) (suc n)).buf
      ≡ raised (suc n) buf
unfolding mem_kernel_bw
mem_kernel_bw-raised zero buf a0 a1 a2 a3 =
    let (_, _, _, _, e) = sweep_lem buf a0 a1 a2 a3 in ap (λ (t : MemCtx). t.buf) e
mem_kernel_bw-raised (suc n) buf a0 a1 a2 a3 =
    let (b0, b1, b2, b3, e) = sweep_lem buf a0 a1 a2 a3 in
    ap (λ (t : MemCtx). (mem_kernel_bw t (suc n)).buf) e
    ∙ mem_kernel_bw-raised n (raised 1 buf) b0 b1 b2 b3
    ∙ raised-raised (suc n) buf
    ∙ ap (λ (k : ℕ). raised k buf) (omega arith)

module _ (base stride ways n wi head : ℕ) (m : ℕ → ℕ) (some_node : 0 < n)
    (c : IsCycle base stride ways n wi m head) where
  node_address : ℕ → ℕ
  node_address k = base + get_or c.order (k % n) 0 * stride

  -- `k` loads from the node at place `j` lead to the node at place `j + k`.
  rounds-cycle : (k j : ℕ) → rounds k m (node_address j) ≡ node_address (j + k)
  unfolding node_address
  rounds-cycle zero j = ap (λ (t : ℕ). base + get_or c.order (t % n) 0 * stride) (omega arith)
  rounds-cycle (suc k) j =
      ap (rounds k m) (
        c.links (j % n) (mod-lt j some_node)
        ∙ ap (λ (t : ℕ). base + get_or c.order t 0 * stride) (mod-add-mod j n 1))
      ∙ rounds-cycle k (j + 1)
      ∙ ap (λ (t : ℕ). base + get_or c.order (t % n) 0 * stride) (omega arith)

  at_head : head ≡ node_address 0
  unfolding node_address
  at_head =
      c.starts ∙ ap (λ (t : ℕ). base + get_or c.order t 0 * stride) (sym (mod-eq_of_lt some_node))

  rounds-head : (k : ℕ) → rounds k m head ≡ node_address k
  rounds-head k = ap (rounds k m) at_head ∙ rounds-cycle k 0 ∙ ap node_address (omega arith)

  rounds-distinct :
      (k l : ℕ) → 0 < stride → k < n → l < n → rounds k m head ≡ rounds l m head → k ≡ l
  unfolding node_address
  rounds-distinct k l pos hk hl e =
      sym (mod-eq_of_lt hk)
      ∙ c.nodes.distinct (k % n) (l % n) (mod-lt k some_node) (mod-lt l some_node)
          (address-injective base stride _ _ pos (sym (rounds-head k) ∙ e ∙ rounds-head l))
      ∙ mod-eq_of_lt hl

  rounds-return : rounds n m head ≡ head
  unfolding node_address
  rounds-return =
      rounds-head n ∙ ap (λ (t : ℕ). base + get_or c.order t 0 * stride) (mod_self n) ∙ sym c.starts

  rounds-owned : (k : ℕ) → (q : ℕ) × (q < n) × (rounds k m head ≡ base + (q * ways + wi) * stride)
  unfolding node_address
  rounds-owned k =
      let (q, lt, e) = c.nodes.owned (k % n) (mod-lt k some_node) in
      (q, lt, rounds-head k ∙ ap (λ (t : ℕ). base + t * stride) e)

-- Where the latency kernel stands after `k` units from `head`; `rest` is what the other ways of the
-- context hold.
abbrev pub chase_at : (ℕ → ℕ) → ℕ → List ℕ → ℕ → ℕ
chase_at mem head rest k = get_or (mem_kernel_lat mem (record { cur = head ∷ rest }) k).cur 0 0

-- On a buffer with at least two nodes a way and at most 2 ^ 32 nodes, `build_chases` succeeds with
-- one head a way, and the latency kernel from the head of way `w` walks one full cycle: its first
-- `per_way` stops differ, then it is back at the head, and it only ever stops at nodes of way `w`.
pub build_chases-mem_kernel_lat :
    (base nbytes stride ways seed : ℕ) (mem : ℕ → ℕ) (rest : List ℕ)
    → 0 < stride
    → 0 < ways
    → nbytes / stride ≤ 2 ^ 32
    → 2 ≤ nbytes / stride / ways
    → (b : Built) × (build_chases true base nbytes stride ways seed mem ≡ some b)
      × (length b.heads ≡ ways)
      × ((w : ℕ)
          → w < ways
          → let per_way = nbytes / stride / ways in
            let head = get_or b.heads w 0 in
            ((k l : ℕ)
              → k < per_way
              → l < per_way
              → chase_at b.memory head rest k ≡ chase_at b.memory head rest l
              → k ≡ l)
            × (chase_at b.memory head rest per_way ≡ head)
            × ((k : ℕ)
                → (q : ℕ) × (q < per_way)
                  × (chase_at b.memory head rest k ≡ base + (q * ways + w) * stride)))
unfolding mem_kernel_lat
build_chases-mem_kernel_lat base nbytes stride ways seed mem rest pos has_way fits enough =
    let (b, built, heads, cycles) =
      build_chases-IsCycle base nbytes stride ways seed mem pos has_way fits enough in
    (
      b,
      built,
      heads,
      λ w h.
          let c = cycles w h in
          let node : 0 < nbytes / stride / ways = omega arith in
          (
            λ k l hk hl e. rounds-distinct base stride ways _ w _ b.memory node c k l pos hk hl e,
            rounds-return base stride ways _ w _ b.memory node c,
            λ k. rounds-owned base stride ways _ w _ b.memory node c k,
          ),
    )
