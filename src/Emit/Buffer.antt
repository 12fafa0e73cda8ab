-- ===== src/Emit/Buffer.antt =====
-- `sbuf_t`, `jout` and `jputc` of bench/src/bench.c: the buffer that a document is printed into for an
-- upload. The bytes behind `len` are not modelled: `text` is what stands before it.
pub mod Grown
use cross_platform_benchmark.Prelude.{
  ℕ, zero, suc, ◌+◌, ◌-◌, ◌*◌, ◌%◌, ◌^◌, Bool, true, false, List, [], ◌∷◌, ◌++◌, Bytes, ltb, leb,
  ◌==◌, if◌then◌else◌, length, foldl, u64,
}

pub record Sink : Type 0 where
  pub text : Bytes
  pub cap : ℕ
  pub oom : Bool

abbrev pub no_sink : Sink
no_sink = record { text = []; cap = 0; oom = false }

-- The loop that doubles `want`, which is a `size_t`.
pub grow : ℕ → ℕ → ℕ → ℕ
grow zero need want = want
grow (suc fuel) need want =
    let rest = grow fuel need (u64 (want * 2)) in if ltb want need then rest else want

-- The attempts that are left. `realloc` says which sizes can be had; `vsnprintf` fails on a text that
-- is too long for an `int`.
pub attempts : (ℕ → Bool) → Bytes → ℕ → Sink → Sink
attempts realloc s zero b = b
attempts realloc s (suc left) b =
    let n = length s in
    let room = b.cap - length b.text in
    let want = grow 64 (length b.text + n + 1) (if b.cap == 0 then 8192 else b.cap) in
    let again = attempts realloc s left (record b { cap = want }) in
    if b.oom
    then b
    else if leb (2 ^ 31) n
    then record b { oom = true }
    else if ltb n room
    then record b { text = b.text ++ s }
    else if realloc want
    then again
    else record b { oom = true }

unfoldable pub jout : (ℕ → Bool) → Sink → Bytes → Sink
unfolding attempts
jout realloc b s = attempts realloc s 2 b

-- Several calls.
abbrev pub jouts : (ℕ → Bool) → List Bytes → Sink → Sink
jouts realloc ps b = foldl (jout realloc) b ps
