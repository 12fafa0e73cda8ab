-- ===== src/Worker/Chased.antt =====
-- The memory that the chases of `worker` in bench/src/bench.c follow.
use cross_platform_benchmark.Prelude.{
  ℕ, zero, suc, ◌+◌, ◌*◌, ◌/◌, ◌^◌, ◌<◌, ◌≤◌, ◌≡◌, refl, ap, ◌∙◌, true, [], Option, none, some, ltb,
  leb, ◌==◌, ◌||◌, if-cases, Option-cases, inl, inr, get_or, bit_xor, arith,
}
use native.Mathlib.Nat.{le-div_iff_mul-le}
use cross_platform_benchmark.Chase.{Built, build_chases}
use cross_platform_benchmark.Kernels.{chase_ways}
use cross_platform_benchmark.Kernels.Memory.{chase_at, build_chases-mem_kernel_lat}
use cross_platform_benchmark.Score.{Double, of}
use cross_platform_benchmark.Worker.{
  waited, Job, Machine, Run, reps_loop, phase_begin_mem, mem_warmup,
}
use cross_platform_benchmark.Worker.Body.{
  mem_base, chases_in, built_chases, with_chases, latency_rep, parallel_rep,
}

module _ {D : Type 0} (F : Double D) (o : Job D) (m : Machine D) where
  abbrev Keeps : (Run D → Run D) → Type 0
  Keeps f = (r : Run D) → (f r).memory ≡ r.memory

  mem_warmup-Keeps : Keeps (mem_warmup F o m true)
  unfolding mem_warmup
  mem_warmup-Keeps r = elim (Option-cases m.base) [
    | inl e ↦ rw e refl
    | inr (b, e) ↦ rw e (
        if-cases (λ (x : Run D). x.memory ≡ r.memory)
          (ltb o.mem_bytes 4096 || F.le o.warmup (of F 0)) (λ _. refl) (λ _. refl))
  ]

  phase_begin_mem-Keeps : (rep : ℕ) → Keeps (phase_begin_mem F o m rep true)
  unfolding phase_begin_mem
  phase_begin_mem-Keeps rep r =
      if-cases (λ (x : Run D). x.memory ≡ r.memory) (rep == 0)
        (λ _. mem_warmup-Keeps (record r { waits = waited o.bar r.waits })) (λ _. refl)

  latency_rep-Keeps : (b : Option Built) (rep : ℕ) → Keeps (latency_rep F o m b rep)
  unfolding latency_rep
  latency_rep-Keeps none rep r = phase_begin_mem-Keeps rep r
  latency_rep-Keeps (some b) rep r = phase_begin_mem-Keeps rep r

  parallel_rep-Keeps : (b : Option Built) (rep : ℕ) → Keeps (parallel_rep F o m b rep)
  unfolding parallel_rep
  parallel_rep-Keeps none rep r = phase_begin_mem-Keeps rep r
  parallel_rep-Keeps (some b) rep r = phase_begin_mem-Keeps rep r

  reps_loop-Keeps :
      (body : ℕ → Run D → Run D)
      → ((rep : ℕ) → Keeps (body rep))
      → (left rep : ℕ) → Keeps (reps_loop left rep body)
  unfolding reps_loop
  reps_loop-Keeps body h zero rep r = refl
  reps_loop-Keeps body h (suc left) rep r =
      reps_loop-Keeps body h left (suc rep) (body rep r) ∙ h rep r

  mem_base_lem :
      (base : ℕ)
      → m.base ≡ some base
      → chase_ways * 65536 ≤ o.mem_bytes
      → mem_base F o m ≡ some base
  unfolding mem_base
  mem_base_lem base e large =
      let enough : leb (chase_ways * 65536) o.mem_bytes ≡ true = ground arith in rw (e, enough) refl

  built_chases_lem :
      (base ways : ℕ) (r : Run D)
      → m.base ≡ some base
      → chase_ways * 65536 ≤ o.mem_bytes
      → m.order_alloc ways ≡ true
      → built_chases F o m ways r
        ≡ build_chases true base o.mem_bytes 64 ways (bit_xor o.seed 0xA5A5A5A5) r.memory
  unfolding built_chases
  built_chases_lem base ways r e large alloc =
      ap (λ x. chases_in F o m x ways r) (mem_base_lem base e large)
      ∙ ap (λ x. build_chases x base o.mem_bytes 64 ways (bit_xor o.seed 0xA5A5A5A5) r.memory) alloc

  -- With a buffer of the least size that the memory phases use or more, of at most 2^32 nodes of 64
  -- bytes, that is 256 GiB (a node's number is kept in 32 bits), and memory for the order, the chases of
  -- one way or of eight are built; however many repetitions of the latency phase, or of the parallel
  -- one, have run since, the buffer still holds the chases, warm-ups included; and from its head each
  -- way only ever stops at an address of a node of the buffer, never at another one.
  pub built_chases-followed :
      (base ways : ℕ) (r : Run D)
      → m.base ≡ some base
      → chase_ways * 65536 ≤ o.mem_bytes
      → o.mem_bytes / 64 ≤ 2 ^ 32
      → m.order_alloc ways ≡ true
      → 0 < ways
      → ways ≤ chase_ways
      → (b : Built) × (built_chases F o m ways r ≡ some b)
        × ((left rep : ℕ)
            → ((reps_loop left rep
                  (latency_rep F o m (some b))
                  (with_chases F o m (some b) r)).memory
                ≡ b.memory)
              × ((reps_loop left rep
                    (parallel_rep F o m (some b))
                    (with_chases F o m (some b) r)).memory
                  ≡ b.memory))
        × ((w k : ℕ)
            → w < ways
            → (q : ℕ) × (q < o.mem_bytes / 64 / ways)
              × (chase_at b.memory (get_or b.heads w 0) [] k ≡ base + (q * ways + w) * 64))
  built_chases-followed base ways r e large small alloc some_way few =
      let nodes : 2 ≤ o.mem_bytes / 64 / ways =
        (le-div_iff_mul-le {k = ways} {x = 2} {y = o.mem_bytes / 64} some_way).1 (omega arith) in
      let (b, built, heads, cycles) =
        build_chases-mem_kernel_lat base o.mem_bytes 64 ways (bit_xor o.seed 0xA5A5A5A5) r.memory []
          (omega arith) some_way small nodes in
      (
        b,
        built_chases_lem base ways r e large alloc ∙ built,
        λ left rep. (
          reps_loop-Keeps (latency_rep F o m (some b)) (latency_rep-Keeps (some b)) left rep
              (with_chases F o m (some b) r),
          reps_loop-Keeps (parallel_rep F o m (some b)) (parallel_rep-Keeps (some b)) left rep
              (with_chases F o m (some b) r),
        ),
        λ w k h. (cycles w h).2 k,
      )
