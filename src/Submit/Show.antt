-- ===== src/Submit/Show.antt =====
-- `print_reply` of bench/src/bench.c: what of a stranger's bytes reaches the terminal.
use cross_platform_benchmark.Prelude.{
  ℕ, zero, suc, ◌+◌, ◌*◌, ◌≤◌, ◌≢◌, [], ◌∷◌, Bytes, length, All, All-append, length-append, take,
  arith,
}
use cross_platform_benchmark.Submit.{shown_byte, print_loop, print_reply, shown_length}

-- No control character: no escape sequence starts and no line ends.
abbrev pub IsShown : ℕ → Type 0
IsShown c = (0x20 ≤ c) × (c ≢ 0x7f)

shown_byte-IsShown : (c : ℕ) → All IsShown (shown_byte c)
shown_byte-IsShown c = ground arith

length-shown_byte : (c : ℕ) → length (shown_byte c) ≤ 4
length-shown_byte c = ground arith

print_loop-IsShown : (left : ℕ) (s : Bytes) → All IsShown (print_loop left s)
unfolding print_loop
print_loop-IsShown left [] = tt
print_loop-IsShown zero (c ∷ s) = ground arith
print_loop-IsShown (suc left) (c ∷ s) =
    All-append IsShown (shown_byte c) _ (shown_byte-IsShown c) (print_loop-IsShown left s)

length-print_loop : (left : ℕ) (s : Bytes) → length (print_loop left s) ≤ 4 * left + 4
unfolding print_loop
length-print_loop left [] = omega arith
length-print_loop zero (c ∷ s) = omega arith
length-print_loop (suc left) (c ∷ s) = omega (
  arith,
  length-append (shown_byte c) (print_loop left s),
  length-shown_byte c,
  length-print_loop left s,
)

-- Whatever a hub answers: no control character is printed, and at most 4100 bytes are.
pub print_reply-IsShown :
    (body : Bytes) → All IsShown (print_reply body) × (length (print_reply body) ≤ 4100)
unfolding print_reply
print_reply-IsShown body =
    let text = take (shown_length body (length body)) body in
    (print_loop-IsShown 1024 text, length-print_loop 1024 text)
