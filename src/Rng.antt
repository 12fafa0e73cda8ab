-- ===== src/Rng.antt =====
-- `xs64` of bench/src/bench.c, the xorshift64* generator of the set-up code.
pub mod Bounds
use cross_platform_benchmark.Prelude.{ℕ, ◌*◌, ◌^◌, ◌%◌, ◌/◌, u64, shr, bit_xor}

-- The new state and the value.
pub record Draw : Type 0 where
  pub state : ℕ
  pub value : ℕ

unfoldable pub xs64 : ℕ → Draw
xs64 s =
    let x = bit_xor s (shr s 12) in
    let y = bit_xor x (u64 (x * 2 ^ 25)) in
    let z = bit_xor y (shr y 27) in record { state = z; value = u64 (z * 2685821657736338717) }
