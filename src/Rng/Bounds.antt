-- ===== src/Rng/Bounds.antt =====
-- The words of the generator of bench/src/bench.c.
use cross_platform_benchmark.Prelude.{ℕ, ◌*◌, ◌^◌, ◌<◌, u64, shr, bit_xor, arith}
use cross_platform_benchmark.Prelude.Bits.{bit_xor-lt_pow}
use cross_platform_benchmark.Rng.{xs64}

-- From a 64-bit state, the new state and the value are 64-bit words.
pub xs64-lt : (s : ℕ) → s < 2 ^ 64 → ((xs64 s).state < 2 ^ 64) × ((xs64 s).value < 2 ^ 64)
unfolding xs64
xs64-lt s h =
    let x = bit_xor s (shr s 12) in
    let y = bit_xor x (u64 (x * 2 ^ 25)) in
    let hx : x < 2 ^ 64 = bit_xor-lt_pow 64 s (shr s 12) h (omega arith) in
    let hy : y < 2 ^ 64 = bit_xor-lt_pow 64 x (u64 (x * 2 ^ 25)) hx (omega arith) in
    (bit_xor-lt_pow 64 y (shr y 27) hy (omega arith), omega arith)
