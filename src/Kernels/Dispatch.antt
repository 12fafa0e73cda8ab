-- ===== src/Kernels/Dispatch.antt =====
-- The dispatch kernels of bench/src/kernels.c.
use native.Mathlib.Nat.{mod-lt, mod-add-mod, mod-eq_of_lt, one-le-pow}
use cross_platform_benchmark.Prelude.{
  ℕ, zero, suc, ◌+◌, ◌-◌, ◌%◌, ◌^◌, ◌<◌, ◌≡◌, refl, sym, ap, ◌∙◌, List, [], ◌∷◌, get_or, Bytes,
  bit_xor, bit_or, arith,
}
use cross_platform_benchmark.Prelude.Bits.{bit_and_mask}
use cross_platform_benchmark.Kernels.{
  rounds, DispCtx, disp_round, free_round, disp_kernel, disp_kernel_free, op_table,
}

-- The selectors of `n` calls from place `pos` of a stream of the given period.
abbrev pub targets : Bytes → ℕ → ℕ → ℕ → List ℕ
targets idx period zero pos = []
targets idx period (suc n) pos = get_or idx pos 0 % 4 ∷ targets idx period n ((pos + 1) % period)

-- The calls of the dependent chain, and the exclusive or of the independent ones.
abbrev pub chain : List ℕ → ℕ → ℕ
chain [] acc = acc
chain (t ∷ ts) acc = chain ts (op_table t acc)

abbrev pub xor_all : List ℕ → ℕ → ℕ → ℕ
xor_all [] arg sum = sum
xor_all (t ∷ ts) arg sum = xor_all ts arg (bit_xor sum (op_table t arg))

later : (w n pos : ℕ) → ((pos + 1) % 2 ^ w + n) % 2 ^ w ≡ (pos + suc n) % 2 ^ w
later w n pos = mod-add-mod (pos + 1) (2 ^ w) n ∙ ap (λ (t : ℕ). t % 2 ^ w) (omega arith)

disp_round_lem :
    (w pos acc : ℕ) (idx : Bytes)
    → disp_round (record { idx = idx; mask = 2 ^ w - 1; pos = pos; acc = acc }) ≡ record {
      idx = idx;
      mask = 2 ^ w - 1;
      pos = (pos + 1) % 2 ^ w;
      acc = op_table (get_or idx pos 0 % 4) acc;
    }
unfolding disp_round
disp_round_lem w pos acc idx = rw (bit_and_mask w (pos + 1), bit_and_mask 2 (get_or idx pos 0))

-- With the mask of a period that is a power of two, `n` calls of the kernel apply the `n` selected
-- operations in turn and leave the place `n` further on, modulo the period.
pub disp_kernel_lem :
    (w n pos acc : ℕ) (idx : Bytes)
    → pos < 2 ^ w
    → let d = disp_kernel (record { idx = idx; mask = 2 ^ w - 1; pos = pos; acc = acc }) n in
      (d.acc ≡ chain (targets idx (2 ^ w) n pos) acc) × (d.pos ≡ (pos + n) % 2 ^ w)
unfolding disp_kernel disp_round
disp_kernel_lem w zero pos acc idx h =
    (refl, sym (ap (λ (t : ℕ). t % 2 ^ w) (omega arith) ∙ mod-eq_of_lt h))
disp_kernel_lem w (suc n) pos acc idx h =
    let (e, f) =
      disp_kernel_lem w n ((pos + 1) % 2 ^ w) (op_table (get_or idx pos 0 % 4) acc) idx
        (mod-lt (pos + 1) (one-le-pow w 2 (omega arith))) in
    let step = disp_round_lem w pos acc idx in
    (
      ap (λ (d : DispCtx). (rounds n disp_round d).acc) step ∙ e,
      ap (λ (d : DispCtx). (rounds n disp_round d).pos) step ∙ f ∙ later w n pos,
    )

free_round_lem :
    (w pos sum arg : ℕ) (idx : Bytes)
    → free_round arg (record { idx = idx; mask = 2 ^ w - 1; pos = pos; acc = sum }) ≡ record {
      idx = idx;
      mask = 2 ^ w - 1;
      pos = (pos + 1) % 2 ^ w;
      acc = bit_xor sum (op_table (get_or idx pos 0 % 4) arg);
    }
unfolding free_round
free_round_lem w pos sum arg idx = rw (bit_and_mask w (pos + 1), bit_and_mask 2 (get_or idx pos 0))

free_loop :
    (w n pos sum arg : ℕ) (idx : Bytes)
    → pos < 2 ^ w
    → let d =
        rounds n (free_round arg) (record { idx = idx; mask = 2 ^ w - 1; pos = pos; acc = sum }) in
      (d.acc ≡ xor_all (targets idx (2 ^ w) n pos) arg sum) × (d.pos ≡ (pos + n) % 2 ^ w)
free_loop w zero pos sum arg idx h =
    (refl, sym (ap (λ (t : ℕ). t % 2 ^ w) (omega arith) ∙ mod-eq_of_lt h))
free_loop w (suc n) pos sum arg idx h =
    let (e, f) =
      free_loop w n ((pos + 1) % 2 ^ w) (bit_xor sum (op_table (get_or idx pos 0 % 4) arg)) arg idx
        (mod-lt (pos + 1) (one-le-pow w 2 (omega arith))) in
    let step = free_round_lem w pos sum arg idx in
    (
      ap (λ (d : DispCtx). (rounds n (free_round arg) d).acc) step ∙ e,
      ap (λ (d : DispCtx). (rounds n (free_round arg) d).pos) step ∙ f ∙ later w n pos,
    )

-- The independent calls visit the same selectors from the same places, all with the argument that
-- the accumulator gave at the start.
pub disp_kernel_free_lem :
    (w n pos acc : ℕ) (idx : Bytes)
    → pos < 2 ^ w
    → let d = disp_kernel_free (record { idx = idx; mask = 2 ^ w - 1; pos = pos; acc = acc }) n in
      (d.acc ≡ xor_all (targets idx (2 ^ w) n pos) (bit_or acc 1) 0) × (d.pos ≡ (pos + n) % 2 ^ w)
unfolding disp_kernel_free
disp_kernel_free_lem w n pos acc idx h = free_loop w n pos 0 (bit_or acc 1) idx h
