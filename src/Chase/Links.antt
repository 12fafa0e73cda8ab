-- ===== src/Chase/Links.antt =====
-- The loop of `build_chases` in bench/src/bench.c that writes the pointers.
use cross_platform_benchmark.Prelude.{
  ℕ, zero, suc, ◌+◌, ◌*◌, ◌%◌, ◌<◌, ◌≤◌, ◌≡◌, ◌≢◌, refl, sym, ◌∙◌, List, get_or, ◌==◌, arith,
  Bool-cases, inl, inr, ==_iff,
}
use cross_platform_benchmark.Chase.{Memory, store, link}

pub address-injective :
    (base stride x y : ℕ) → 0 < stride → base + x * stride ≡ base + y * stride → x ≡ y
address-injective base stride x y pos e = grind arith

store_self : (m : Memory) (a v : ℕ) → store m a v a ≡ v
store_self m a v = ground arith

store_ne : (m : Memory) (a v b : ℕ) → b ≢ a → store m a v b ≡ m b
store_ne m a v b h = ground arith

module _ (base stride n : ℕ) (order : List ℕ) where
  abbrev pub address : ℕ → ℕ
  address k = base + get_or order k 0 * stride

  -- Addresses that are no node's keep what they hold.
  pub link_other :
      (left i : ℕ) (m : Memory) (a : ℕ)
      → ((k : ℕ) → i ≤ k → k < i + left → a ≢ address k)
      → link left i base stride n order m a ≡ m a
  unfolding link
  link_other zero i m a h = refl
  link_other (suc left) i m a h =
      link_other left (i + 1) _ a (λ k lo hi. h k (omega arith) (omega arith))
      ∙ store_ne m (address i) (address ((i + 1) % n)) a (h i (omega arith) (omega arith))

  pub link_at :
      (left i : ℕ) (m : Memory) (k : ℕ)
      → ((a b : ℕ) → a < i + left → b < i + left → address a ≡ address b → a ≡ b)
      → i ≤ k
      → k < i + left
      → link left i base stride n order m (address k) ≡ address ((k + 1) % n)
  unfolding link
  link_at zero i m k d lo hi = absurd (omega arith)
  link_at (suc left) i m k d lo hi = elim (Bool-cases (k == i)) [
    | inl same ↦
        let e : i ≡ k = sym ((==_iff k i).0 same) in
        rw e (
          link_other left (k + 1) _ (address k)
            (λ l lo' hi' clash. absurd (omega (arith, d k l (omega arith) (omega arith) clash)))
          ∙ store_self m (address k) (address ((k + 1) % n)))
    | inr other ↦
        link_at left (i + 1) _ k (λ a b ha hb. d a b (omega arith) (omega arith)) (ground arith)
          (omega arith)
  ]
