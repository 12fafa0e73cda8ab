-- ===== src/Worker.antt =====
-- `worker` of bench/src/bench.c, the body of a measuring thread: its phases in their order, with what
-- each does to the thread's record, its generator and its buffer. What the machine decides is a
-- parameter: which allocations succeed, which batches `run_timed` hands to a kernel and in what time, how
-- long a warm-up runs, and the clocks that are read.
pub mod Phases
pub mod Body
pub mod Waits
pub mod Team
pub mod Chased
pub mod Measured
use cross_platform_benchmark.Prelude.{
  ℕ, zero, suc, ◌+◌, ◌-◌, ◌*◌, ◌/◌, ◌%◌, ◌^◌, Bool, true, false, not, ◌&&◌, ◌||◌, List, [], ◌∷◌,
  Option, none, some, Bytes, ltb, leb, ◌==◌, if◌then◌else◌, length, get_or, set, replicate, bit_xor,
  bit_or, u8, foldl, ℤ, pos, negsuc,
}
use cross_platform_benchmark.Rng.{xs64}
use cross_platform_benchmark.Chase.{Memory, store}
use cross_platform_benchmark.Kernels.{MemCtx, mem_kernel_bw, rounds}
use cross_platform_benchmark.Score.{Double, of}
use cross_platform_benchmark.Score

-- What `run_workers` sets in a `worker_t`; `bar` is whether there is a barrier.
pub record Job (D : Type 0) : Type 0 where
  pub cpu : ℤ
  pub bar : Bool
  pub mem_bytes : ℕ
  pub seconds : D
  pub warmup : D
  pub reps : ℤ
  pub seed : ℕ
  pub disp_sweep : Bool

-- The machine's answers, each numbered by the calls before it. `timed` gives the batches
-- that a `run_timed` of so many seconds hands to the kernel, from a first one on, and the elapsed time; `warm_rounds` how often the
-- loop of `mem_warmup` runs; `base` is the address of the buffer; `to_bits` is the conversion of a
-- double to `int64_t` and from there to `uint64_t`.
pub record Machine (D : Type 0) : Type 0 where
  pub current_cpu : ℤ
  pub base : Option ℕ
  pub idx_alloc : Bool
  pub order_alloc : ℕ → Bool
  pub timed : ℕ → D → ℕ → List ℕ × D
  pub warm_rounds : ℕ → ℕ
  pub cpu_cur_mhz : ℕ → D
  pub dram_mhz : ℕ → D
  pub to_bits : D → ℕ

-- A thread between two phases: its results, `seed`, the memory of its buffer, the calls of the
-- machine so far, and how often it has called `plat_barrier_wait`.
pub record Run (D : Type 0) : Type 0 where
  pub w : Score.Worker D
  pub sweep_serial : List D
  pub sweep_free : List D
  pub seed : ℕ
  pub memory : Memory
  pub timed_calls : ℕ
  pub warm_calls : ℕ
  pub mhz_calls : ℕ
  pub dram_calls : ℕ
  pub waits : ℕ

-- `g_disp_periods` and `g_disp_ladder`.
abbrev pub disp_periods : List ℕ
disp_periods =
    1 ∷ 2 ∷ 4 ∷ 8 ∷ 16 ∷ 32 ∷ 64 ∷ 128 ∷ 256 ∷ 512 ∷ 1024 ∷ 2048 ∷ 4096 ∷ 8192 ∷ 16384 ∷ 65536 ∷ []

abbrev pub disp_ladder : List ℕ
disp_ladder =
    1 ∷ 8 ∷ 16 ∷ 32 ∷ 64 ∷ 128 ∷ 256 ∷ 512 ∷ 1024 ∷ 2048 ∷ 4096 ∷ 8192 ∷ 16384 ∷ 65536 ∷ []

-- `xs64(&seed) | 1u` for `n` places, and the seed afterwards.
pub draw_odd : ℕ → ℕ → List ℕ × ℕ
draw_odd zero seed = ([], seed)
draw_odd (suc n) seed =
    let d = xs64 seed in let rest = draw_odd n d.state in (bit_or d.value 1 ∷ rest.0, rest.1)

-- `(uint8_t)xs64(&seed)` for `n` places.
pub draw_bytes : ℕ → ℕ → Bytes × ℕ
draw_bytes zero seed = ([], seed)
draw_bytes (suc n) seed =
    let d = xs64 seed in let rest = draw_bytes n d.state in (u8 d.value ∷ rest.0, rest.1)

abbrev pub xor_into : ℕ → List ℕ → ℕ
xor_into checksum xs = foldl bit_xor checksum xs

-- The buffer as words, from an address on, and back.
pub read_words : Memory → ℕ → ℕ → List ℕ
read_words m a zero = []
read_words m a (suc n) = m a ∷ read_words m (a + 8) n

pub write_words : Memory → ℕ → List ℕ → Memory
write_words m a [] = m
write_words m a (v ∷ vs) = write_words (store m a v) (a + 8) vs

-- `reps` of a job, which is at least 1.
abbrev pub rep_count : ℤ → ℕ
rep_count (pos zero) = 1
rep_count (pos (suc n)) = suc n
rep_count (negsuc n) = 1

-- A loop over the repetitions, with `left` to go from `rep` on.
pub reps_loop {ℓ} : {S : Type ℓ} → ℕ → ℕ → (ℕ → S → S) → S → S
reps_loop zero rep body s = s
reps_loop (suc left) rep body s = reps_loop left (suc rep) body (body rep s)

-- The kernel on one batch after the other, and the count of the iterations, in 64 bits.
unfoldable pub in_batches {ℓ} : {S : Type ℓ} → (S → ℕ → S) → S → List ℕ → S
in_batches fn ctx batches = foldl fn ctx batches

unfoldable pub iterations : List ℕ → ℕ
iterations batches = foldl (λ n batch. (n + batch) % 2 ^ 64) 0 batches

-- The calls of the barrier after a `wsync`, which makes one only where there is a barrier.
unfoldable pub waited : Bool → ℕ → ℕ
waited true n = n + 1
waited false n = n

module _ {D : Type 0} (F : Double D) (o : Job D) (m : Machine D) where
  -- `wsync`, as far as the thread itself is concerned.
  abbrev pub wsync : Run D → Run D
  wsync r = record r { waits = waited o.bar r.waits }

  -- The spin of the warm-up changes nothing but a sink.
  unfoldable pub phase_begin : ℕ → Run D → Run D
  phase_begin rep r = wsync (wsync r)

  -- `mem_warmup`: the sweep of a warm-up that may write raises the words of the buffer, one that may
  -- not only reads them.
  unfoldable pub mem_warmup : Bool → Run D → Run D
  mem_warmup readonly r = elim m.base [
    | none ↦ r
    | some base ↦
        let nq = o.mem_bytes / 8 in
        let start : MemCtx = record {
          buf = read_words r.memory base nq;
          acc = 0 ∷ 0 ∷ 0 ∷ 0 ∷ [];
        } in
        let swept = rounds (m.warm_rounds r.warm_calls) (λ c. mem_kernel_bw c 1) start in
        let timed = record r { warm_calls = r.warm_calls + 1 } in
        if ltb o.mem_bytes 4096 || F.le o.warmup (of F 0)
        then r
        else if readonly
        then timed
        else record timed { memory = write_words r.memory base swept.buf }
  ]

  unfoldable pub phase_begin_mem : ℕ → Bool → Run D → Run D
  unfolding mem_warmup
  phase_begin_mem rep readonly r =
      let r' = wsync r in wsync (if rep == 0 then mem_warmup readonly r' else r')
