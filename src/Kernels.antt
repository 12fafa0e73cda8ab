-- ===== src/Kernels.antt =====
-- bench/src/kernels.c, the measured loops, on the contexts of bench/src/kernels.h. A `uint64_t` is a
-- number below 2 ^ 64; a double is an element of a type with the two operations that the kernels use.
pub mod Compute
pub mod Memory
pub mod Dispatch
use cross_platform_benchmark.Prelude.{
  ℕ, zero, suc, ◌+◌, ◌-◌, ◌*◌, ◌/◌, ◌%◌, ◌^◌, List, [], ◌∷◌, ◌++◌, map, get_or, set, u64, sub64,
  shr, bit_xor, bit_and, bit_or, Bytes,
}

abbrev pub lanes : ℕ
lanes = 8

abbrev pub chase_ways : ℕ
chase_ways = 8

abbrev pub int_ops_per_step : ℕ
int_ops_per_step = 4

abbrev pub mul_ops_per_step : ℕ
mul_ops_per_step = 1

abbrev pub fp_ops_per_step : ℕ
fp_ops_per_step = 2

-- `l[LANES]` and `k[2]`.
pub record IntCtx : Type 0 where
  pub l : List ℕ
  pub k : List ℕ

pub record MulCtx : Type 0 where
  pub l : List ℕ
  pub m : ℕ

-- `buf` holds the `nqwords` words of the buffer; `acc[4]`.
pub record MemCtx : Type 0 where
  pub buf : List ℕ
  pub acc : List ℕ

-- The addresses at which the chases stand.
pub record ChaseCtx : Type 0 where
  pub cur : List ℕ

pub record DispCtx : Type 0 where
  pub idx : Bytes
  pub mask : ℕ
  pub pos : ℕ
  pub acc : ℕ

-- INT_STEP.
unfoldable pub int_step : ℕ → ℕ → ℕ → ℕ
int_step k1 k2 a = bit_xor (sub64 (bit_xor (u64 (a + k1)) k2) k1) k2

-- `n` rounds of a loop body.
abbrev pub rounds {ℓ} : {S : Type ℓ} → ℕ → (S → S) → S → S
rounds zero body s = s
rounds (suc n) body s = rounds n body (body s)

-- LANES steps on the one lane.
unfoldable pub int_kernel_lat : IntCtx → ℕ → IntCtx
int_kernel_lat c n =
    let step = int_step (get_or c.k 0 0) (get_or c.k 1 0) in
    let body = λ (a : ℕ). step (step (step (step (step (step (step (step a))))))) in
    record c { l = set c.l 0 (rounds n body (get_or c.l 0 0)) }

-- One step on each lane.
unfoldable pub int_kernel_thr : IntCtx → ℕ → IntCtx
int_kernel_thr c n =
    let step = int_step (get_or c.k 0 0) (get_or c.k 1 0) in
    record c { l = rounds n (map step) c.l }

-- MUL_STEP.
unfoldable pub mul_step : ℕ → ℕ → ℕ
mul_step m a = u64 (a * m)

unfoldable pub mul_kernel_thr : MulCtx → ℕ → MulCtx
mul_kernel_thr c n = record c { l = rounds n (map (mul_step c.m)) c.l }

module _ {ℓ} {Double : Type ℓ} (add mul : Double → Double → Double) (zero_double : Double) where
  -- `x[LANES]`, `b[LANES]` and `c`.
  pub record FpCtx : Type ℓ where
    pub x : List Double
    pub b : List Double
    pub c : Double

  -- FP_STEP.
  unfoldable pub fp_step : Double → Double → Double → Double
  fp_step c b x = add (mul x c) b

  unfoldable pub fp_kernel_lat : FpCtx → ℕ → FpCtx
  fp_kernel_lat f n = record f {
    x = set f.x 0 (rounds n (fp_step f.c (get_or f.b 0 zero_double)) (get_or f.x 0 zero_double));
  }

  -- One round over the lanes, each with its own `b`.
  unfoldable pub fp_lanes : Double → List Double → List Double → List Double
  fp_lanes c bs [] = []
  fp_lanes c [] (x ∷ xs) = x ∷ xs
  fp_lanes c (b ∷ bs) (x ∷ xs) = fp_step c b x ∷ fp_lanes c bs xs

  unfoldable pub fp_kernel_thr : FpCtx → ℕ → FpCtx
  fp_kernel_thr f n = record f { x = rounds n (fp_lanes f.c f.b) f.x }

-- The loop over `i`, from a multiple of four on: each of four words is counted into its accumulator
-- and stored back plus one. A rest of fewer than four words is not touched.
unfoldable pub sweep : List ℕ → List ℕ → MemCtx
sweep (v0 ∷ v1 ∷ v2 ∷ v3 ∷ buf) (a0 ∷ a1 ∷ a2 ∷ a3 ∷ []) =
    let rest = sweep buf (u64 (a0 + v0) ∷ u64 (a1 + v1) ∷ u64 (a2 + v2) ∷ u64 (a3 + v3) ∷ []) in
    record rest { buf = u64 (v0 + 1) ∷ u64 (v1 + 1) ∷ u64 (v2 + 1) ∷ u64 (v3 + 1) ∷ rest.buf }
sweep buf acc = record { buf = buf; acc = acc }

unfoldable pub mem_kernel_bw : MemCtx → ℕ → MemCtx
unfolding sweep
mem_kernel_bw m n = rounds n (λ s. sweep s.buf s.acc) m

unfoldable pub mem_kernel_lat : (ℕ → ℕ) → ChaseCtx → ℕ → ChaseCtx
mem_kernel_lat mem ch n = record { cur = set ch.cur 0 (rounds n mem (get_or ch.cur 0 0)) }

unfoldable pub mem_kernel_mlp : (ℕ → ℕ) → ChaseCtx → ℕ → ChaseCtx
mem_kernel_mlp mem ch n = record { cur = rounds n (map mem) ch.cur }

unfoldable pub op_add : ℕ → ℕ
op_add v = u64 (v + 0x9E3779B9)

unfoldable pub op_xor : ℕ → ℕ
op_xor v = bit_xor v (shr v 7)

unfoldable pub op_mul : ℕ → ℕ
op_mul v = u64 (v * 2654435761)

unfoldable pub op_rot : ℕ → ℕ
op_rot v = bit_or (u64 (v * 2 ^ 13)) (shr v 51)

-- `g_op_table[sel]`, for `sel` below 4.
unfoldable pub op_table : ℕ → ℕ → ℕ
op_table zero = op_add
op_table (suc zero) = op_xor
op_table (suc (suc zero)) = op_mul
op_table (suc (suc (suc n))) = op_rot

-- A round of `disp_kernel`.
unfoldable pub disp_round : DispCtx → DispCtx
disp_round d = record d {
  acc = op_table (bit_and (get_or d.idx d.pos 0) 3) d.acc;
  pos = bit_and (d.pos + 1) d.mask;
}

unfoldable pub disp_kernel : DispCtx → ℕ → DispCtx
unfolding disp_round
disp_kernel d n = rounds n disp_round d

-- A round of `disp_kernel_free`: `arg` stays, the result goes into the sum, which `acc` holds here.
unfoldable pub free_round : ℕ → DispCtx → DispCtx
free_round arg d = record d {
  acc = bit_xor d.acc (op_table (bit_and (get_or d.idx d.pos 0) 3) arg);
  pos = bit_and (d.pos + 1) d.mask;
}

unfoldable pub disp_kernel_free : DispCtx → ℕ → DispCtx
unfolding free_round
disp_kernel_free d n = rounds n (free_round (bit_or d.acc 1)) (record d { acc = 0 })
