-- ===== src/Cpu/Detect/Lines.antt =====
-- The lines of a file that `scan_cpuinfo` of bench/src/bench.c reads by `fgets` in pieces.
use cross_platform_benchmark.Prelude.{
  ℕ, zero, suc, ◌+◌, ◌-◌, ◌≤◌, ◌<◌, Bool, true, false, not, ◌||◌, List, [], ◌∷◌, ◌++◌, Bytes, leb,
  ◌==◌, if◌then◌else◌, length, length-append, take, take_all, map, foldl, c_string, fgets_loop,
  fgets_all, All, ◌≡◌, refl, ap, ◌∙◌, sym, Bool-cases, arith, last_piece, some, inl, inr,
}
use cross_platform_benchmark.Cpu.Detect.{
  Scan, scan_step, scan, ends_line, Machine, cpuinfo_line, no_names, scan_cpuinfo,
}

-- The lines of a text, each with its line end; the last may have none.
abbrev pub lines_from : Bytes → Bytes → List Bytes
lines_from read [] = last_piece read
lines_from read (c ∷ file) =
    let line = read ++ (c ∷ []) in
    if c == 10 then line ∷ lines_from [] file else lines_from line file

abbrev pub lines : Bytes → List Bytes
lines file = lines_from [] file

abbrev pub IsByte : ℕ → Type 0
IsByte c = 1 ≤ c

c_string_plain : (s : Bytes) → All IsByte s → c_string s ≡ s
c_string_plain [] h = refl
c_string_plain (c ∷ s) (hc, h) =
    let e : (c == 0) ≡ false = ground arith in rw e (ap (λ t. c ∷ t) (c_string_plain s h))

ends_line-append : (s : Bytes) (c : ℕ) → ends_line (s ++ (c ∷ [])) ≡ (c == 10)
ends_line-append [] c = refl
ends_line-append (x ∷ []) c = refl
ends_line-append (x ∷ y ∷ s) c = ends_line-append (y ∷ s) c

All-snoc : (s : Bytes) (c : ℕ) → All IsByte s → IsByte c → All IsByte (s ++ (c ∷ []))
All-snoc [] c h hc = (hc, tt)
All-snoc (x ∷ s) c (hx, h) hc = (hx, All-snoc s c h hc)

length-snoc : (s : Bytes) (c : ℕ) → length (s ++ (c ∷ [])) ≡ suc (length s)
length-snoc s c = omega (arith, length-append s (c ∷ []))

take_longer :
    (n : ℕ) (whole : Bytes) (c : ℕ) → n ≤ length whole → take n (whole ++ (c ∷ [])) ≡ take n whole
take_longer zero whole c h = refl
take_longer (suc n) [] c h = absurd (omega arith)
take_longer (suc n) (x ∷ whole) c h = ap (λ t. x ∷ t) (take_longer n whole c (omega arith))

fgets_ended :
    (n room c : ℕ) (read file : Bytes)
    → (c == 10 || leb room 1) ≡ true
    → fgets_loop n room read (c ∷ file) ≡ (read ++ (c ∷ [])) ∷ fgets_loop n n [] file
unfolding fgets_loop
fgets_ended n room c read file e = rw e refl

fgets_longer :
    (n room c : ℕ) (read file : Bytes)
    → (c == 10 || leb room 1) ≡ false
    → fgets_loop n room read (c ∷ file) ≡ fgets_loop n (room - 1) (read ++ (c ∷ [])) file
unfolding fgets_loop
fgets_longer n room c read file e = rw e refl

lines_ended :
    (c : ℕ) (read file : Bytes)
    → (c == 10) ≡ true
    → lines_from read (c ∷ file) ≡ (read ++ (c ∷ [])) ∷ lines_from [] file
lines_ended c read file e = rw e refl

lines_longer :
    (c : ℕ) (read file : Bytes)
    → (c == 10) ≡ false
    → lines_from read (c ∷ file) ≡ lines_from (read ++ (c ∷ [])) file
lines_longer c read file e = rw e refl

module _ {ℓ} {A : Type ℓ} (of_line : A → Bytes → A) (n : ℕ) where
  step_first :
      (f : A) (read : Bytes) (c : ℕ) {b : Bool}
      → All IsByte read
      → IsByte c
      → length read < n
      → (c == 10) ≡ b
      → scan_step of_line (record { found = f; continuation = false }) (read ++ (c ∷ []))
        ≡ record { found = of_line f (take n (read ++ (c ∷ []))); continuation = not b }
  unfolding scan_step
  step_first f read c h hc short e =
      rw
        (
          c_string_plain (read ++ (c ∷ [])) (All-snoc read c h hc),
          ends_line-append read c,
          e,
          take_all (read ++ (c ∷ [])) n (omega (arith, length-snoc read c)),
        )
        refl

  step_tail :
      (f : A) (read : Bytes) (c : ℕ) {b : Bool}
      → All IsByte read
      → IsByte c
      → (c == 10) ≡ b
      → scan_step of_line (record { found = f; continuation = true }) (read ++ (c ∷ []))
        ≡ record { found = f; continuation = not b }
  unfolding scan_step
  step_tail f read c h hc e =
      rw (c_string_plain (read ++ (c ∷ [])) (All-snoc read c h hc), ends_line-append read c, e) refl

  run : Scan A → List Bytes → A
  run s pieces = (foldl (scan_step of_line) s pieces).found

  -- From within the first piece of a line, and from within its tail.
  abbrev FirstPiece : Bytes → Type ℓ
  FirstPiece file =
      (f : A) (read : Bytes) (room : ℕ)
      → All IsByte read
      → length read + room ≡ n
      → 1 ≤ room
      → run (record { found = f; continuation = false }) (fgets_loop n room read file)
        ≡ foldl of_line f (map (take n) (lines_from read file))

  abbrev Tail : Bytes → Type ℓ
  Tail file =
      (f : A) (read whole : Bytes) (room : ℕ)
      → All IsByte read
      → n ≤ length whole
      → 1 ≤ room
      → run (record { found = of_line f (take n whole); continuation = true })
          (fgets_loop n room read file)
        ≡ foldl of_line f (map (take n) (lines_from whole file))

  FirstPiece-end : FirstPiece []
  unfolding run fgets_loop scan_step
  FirstPiece-end f [] room h size some_room = refl
  FirstPiece-end f (x ∷ read) room h size some_room =
      rw (c_string_plain (x ∷ read) h, take_all (x ∷ read) n (omega arith)) refl

  Tail-end : 1 ≤ n → Tail []
  unfolding run fgets_loop scan_step
  Tail-end pos f [] (y ∷ whole) room h long some_room = refl
  Tail-end pos f (x ∷ read) (y ∷ whole) room h long some_room = refl
  Tail-end pos f read [] room h long some_room = absurd (omega arith)

  abbrev fed : A → List Bytes → A
  fed f ls = foldl of_line f (map (take n) ls)

  FirstPiece-more :
      (c : ℕ) (file : Bytes)
      → 1 ≤ n
      → IsByte c
      → FirstPiece file
      → Tail file
      → FirstPiece (c ∷ file)
  unfolding run
  FirstPiece-more c file pos hc ih tail f read room h size some_room =
      let piece = read ++ (c ∷ []) in
      let start : Scan A = record { found = f; continuation = false } in
      let next = fgets_loop n n [] file in
      elim (Bool-cases (c == 10)) [
        | inl e ↦
            ap (run start) (fgets_ended n room c read file (ground arith))
            ∙ ap (λ s. run s next) (step_first f read c h hc (omega arith) e)
            ∙ ih (of_line f (take n piece)) [] n tt (omega arith) pos
            ∙ ap (fed f) (sym (lines_ended c read file e))
        | inr e ↦ elim (Bool-cases (leb room 1)) [
          | inl full ↦
              ap (run start) (fgets_ended n room c read file (ground arith))
              ∙ ap (λ s. run s next) (step_first f read c h hc (omega arith) e)
              ∙ tail f [] piece n tt (ground (arith, length-snoc read c)) pos
              ∙ ap (fed f) (sym (lines_longer c read file e))
          | inr space ↦
              ap (run start) (fgets_longer n room c read file (ground arith))
              ∙ ih f piece (room - 1) (All-snoc read c h hc) (ground (arith, length-snoc read c))
                  (ground arith)
              ∙ ap (fed f) (sym (lines_longer c read file e))
        ]
      ]

  Tail-more :
      (c : ℕ) (file : Bytes) → 1 ≤ n → IsByte c → FirstPiece file → Tail file → Tail (c ∷ file)
  unfolding run
  Tail-more c file pos hc ih tail f read whole room h long some_room =
      let piece = read ++ (c ∷ []) in
      let longer = whole ++ (c ∷ []) in
      let done = of_line f (take n whole) in
      let start : Scan A = record { found = done; continuation = true } in
      let next = fgets_loop n n [] file in
      let same = take_longer n whole c long in
      let still : n ≤ length longer = omega (arith, length-snoc whole c) in
      elim (Bool-cases (c == 10)) [
        | inl e ↦
            ap (run start) (fgets_ended n room c read file (ground arith))
            ∙ ap (λ s. run s next) (step_tail done read c h hc e)
            ∙ ih done [] n tt (omega arith) pos
            ∙ ap (λ t. fed (of_line f t) (lines_from [] file)) (sym same)
            ∙ ap (fed f) (sym (lines_ended c whole file e))
        | inr e ↦ elim (Bool-cases (leb room 1)) [
          | inl full ↦
              ap (run start) (fgets_ended n room c read file (ground arith))
              ∙ ap (λ s. run s next) (step_tail done read c h hc e)
              ∙ ap (λ t. run (record { found = of_line f t; continuation = true }) next) (sym same)
              ∙ tail f [] longer n tt still pos
              ∙ ap (fed f) (sym (lines_longer c whole file e))
          | inr space ↦
              ap (run start) (fgets_longer n room c read file (ground arith))
              ∙ ap
                  (λ t.
                    run (record { found = of_line f t; continuation = true })
                      (fgets_loop n (room - 1) piece file))
                  (sym same)
              ∙ tail f piece longer (room - 1) (All-snoc read c h hc) still (ground arith)
              ∙ ap (fed f) (sym (lines_longer c whole file e))
        ]
      ]

  read_all : (file : Bytes) → 1 ≤ n → All IsByte file → FirstPiece file × Tail file
  read_all [] pos h = (FirstPiece-end, Tail-end pos)
  read_all (c ∷ file) pos (hc, h) =
      let (ih, tail) = read_all file pos h in
      (FirstPiece-more c file pos hc ih tail, Tail-more c file pos hc ih tail)

-- Reading a file without NUL bytes through a buffer of two bytes or more works on each of its lines
-- once, by as much of it as fits the buffer, however long the line is: its tail is never taken for a
-- line of its own.
pub scan-lines {ℓ} :
    {A : Type ℓ} (of_line : A → Bytes → A) (size : ℕ) (f : A) (file : Bytes)
    → 2 ≤ size
    → All IsByte file
    → (scan of_line size f file).found ≡ foldl of_line f (map (take (size - 1)) (lines file))
unfolding scan fgets_all run
scan-lines of_line size f file two h =
    (read_all of_line (size - 1) file (omega arith) h).0 f [] (size - 1) tt (omega arith)
      (omega arith)

-- A file /proc/cpuinfo without NUL bytes counts line by line, each line once and by its first 1023
-- bytes: no piece of a line that is longer than the buffer of 1024 bytes is taken for a key and a value.
pub scan_cpuinfo-lines :
    (m : Machine) (file : Bytes)
    → All IsByte file
    → scan_cpuinfo m (some file) ≡ foldl (cpuinfo_line m) no_names (map (take 1023) (lines file))
unfolding scan_cpuinfo
scan_cpuinfo-lines m file h = scan-lines (cpuinfo_line m) 1024 no_names file (omega arith) h
