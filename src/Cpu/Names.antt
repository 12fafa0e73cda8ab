-- ===== src/Cpu/Names.antt =====
-- The names of bench/src/bench.c: what the device tree's model is cut to, and the part numbers' names.
use cross_platform_benchmark.Prelude.{
  ℕ, zero, suc, ◌+◌, ◌-◌, ◌≤◌, ◌≡◌, false, ◌&&◌, ◌||◌, [], ◌∷◌, Option, none, some, Bytes, ltb,
  ◌==◌, if-cases, length, All, take, arith,
}
use cross_platform_benchmark.Cpu.{model_loop, drop_blanks, reversed, dt_model, after_blank}

-- Printable ASCII.
abbrev pub IsPrintable : ℕ → Type 0
IsPrintable c = (0x20 ≤ c) × (c ≤ 0x7e)

-- What a text of the device tree becomes: printable, in `room` bytes.
pub record IsName (room : ℕ) (s : Bytes) : Type 0 where
  pub printable : All IsPrintable s
  pub fits : length s ≤ room

one_more :
    (c : ℕ) (w : Bytes) (room total : ℕ)
    → length w + suc room ≤ total
    → (ltb c 0x20 || ltb 0x7e c) ≡ false
    → IsName total w
    → IsName total (c ∷ w)
one_more c w room total b p h = record {
  printable = (ground arith, h.printable);
  fits = omega arith;
}

model_loop-IsName :
    (raw w : Bytes) (room total : ℕ)
    → length w + room ≤ total
    → IsName total w
    → IsName total (model_loop raw w room)
unfolding model_loop
model_loop-IsName [] w room total b h = h
model_loop-IsName (c ∷ raw) w zero total b h = h
model_loop-IsName (c ∷ raw) w (suc room) total b h =
    let P = IsName total in
    if-cases P (c == 0) (λ _. h)
      (λ _.
        if-cases P (ltb c 0x20 || ltb 0x7e c) (λ _. model_loop-IsName raw w (suc room) total b h)
          (λ p.
            if-cases P (c == 32 && after_blank w)
              (λ _. model_loop-IsName raw w (suc room) total b h)
              (λ _.
                model_loop-IsName raw (c ∷ w) room total (omega arith)
                  (one_more c w room total b p h))))

drop_blanks-IsName : (room : ℕ) (w : Bytes) → IsName room w → IsName room (drop_blanks w)
drop_blanks-IsName room [] h = h
drop_blanks-IsName room (c ∷ w) h =
    if-cases (IsName room) (c == 32)
      (λ _.
        drop_blanks-IsName room w
          (record { printable = h.printable.1; fits = omega (arith, h.fits) }))
      (λ _. h)

reversed-IsName :
    (room : ℕ) (w out : Bytes)
    → All IsPrintable w
    → All IsPrintable out
    → length w + length out ≤ room
    → IsName room (reversed w out)
reversed-IsName room [] out p q b = record { printable = q; fits = omega arith }
reversed-IsName room (c ∷ w) out p q b = reversed-IsName room w (c ∷ out) p.1 (p.0, q) (omega arith)

-- Whatever the device tree holds: the board's name is printable ASCII and, with its NUL, fits the
-- buffer.
pub dt_model-IsName : (file : Option Bytes) (outsz : ℕ) → IsName (outsz - 1) (dt_model file outsz)
unfolding dt_model
dt_model-IsName none outsz = record { printable = tt; fits = omega arith }
dt_model-IsName (some file) outsz =
    let w = drop_blanks (model_loop (take 127 file) [] (outsz - 1)) in
    let h = drop_blanks-IsName (outsz - 1) (model_loop (take 127 file) [] (outsz - 1)) (
      model_loop-IsName (take 127 file) [] (outsz - 1) (outsz - 1) (omega arith)
        (record { printable = tt; fits = omega arith })) in
    reversed-IsName (outsz - 1) w [] h.printable tt (omega (arith, h.fits))
