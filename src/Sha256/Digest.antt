-- ===== src/Sha256/Digest.antt =====
-- The digest of a file in bench/src/sha256.c as a fold over the blocks of the padded message.
use cross_platform_benchmark.Prelude.{
  ℕ, zero, suc, ◌+◌, ◌-◌, ◌*◌, ◌/◌, ◌%◌, ◌^◌, ◌<◌, ◌≤◌, ◌≡◌, refl, ap, ap₂, sym, ◌∙◌, List, [], ◌∷◌,
  ◌++◌, some, append-nil, foldl, Bytes, length, take, drop, replicate, true, false, length-append,
  length-take, length-drop, length-replicate, take-append-drop, foldl-append, u64, arith,
}
use cross_platform_benchmark.Sha256.{
  Ctx, Stream, compress, write_at, copy_in, pad_loop, length_bytes, hex_words, final, init,
  initial_hash, read_loop, file_digest,
}
use cross_platform_benchmark.Sha256.Feed.{
  store, IsReady, store-IsReady, foldl-store-IsReady, fill, foldl-store_bytes, update_stores,
}

-- `n` blocks of `p`, folded into the hash.
unfoldable pub hash_blocks : ℕ → List ℕ → Bytes → List ℕ
hash_blocks zero hs p = hs
hash_blocks (suc n) hs p = hash_blocks n (compress hs (take 64 p)) (drop 64 p)

-- How many zeros bring a message of `n` bytes and its 0x80 to 56 modulo 64.
abbrev pub zeros_for : ℕ → ℕ
zeros_for n = (119 - n % 64) % 64

-- The message, a one bit, zeros, and the length in bits.
abbrev pub pad : Bytes → Bytes
pad m = m ++ 0x80 ∷ (replicate (zeros_for (length m)) 0 ++ length_bytes 8 0 (u64 (length m * 8)))

unfoldable pub reference_hash : Bytes → List ℕ
unfolding hash_blocks
reference_hash m = hash_blocks (length (pad m) / 64) initial_hash (pad m)

-- What the reads deliver before the first empty one.
abbrev pub content : List Bytes → Bytes
content [] = []
content ([] ∷ reads) = []
content ((x ∷ p) ∷ reads) = (x ∷ p) ++ content reads

used-store : (c : Ctx) (x : ℕ) → IsReady c → (store c x).used ≡ (c.used + 1) % 64
used-store c x r = ground arith

used-foldl : (p : Bytes) (c : Ctx) → IsReady c → (foldl store c p).used ≡ (c.used + length p) % 64
used-foldl [] c r = omega arith
used-foldl (x ∷ p) c r =
    omega (arith, used-foldl p (store c x) (store-IsReady c x r), used-store c x r)

drop_all : (xs : Bytes) (n : ℕ) → length xs ≤ n → drop n xs ≡ []
drop_all [] zero h = refl
drop_all [] (suc n) h = refl
drop_all (x ∷ xs) zero h = elim h [ ]
drop_all (x ∷ xs) (suc n) h = drop_all xs n (omega arith)

write_at_whole : (buf p : Bytes) (u : ℕ) → u ≡ 0 → length buf ≡ length p → write_at buf u p ≡ p
unfolding write_at
write_at_whole buf p u e len = rw (e, drop_all buf (0 + length p) (omega arith)) (append-nil p)

-- A whole block at an empty buffer.
store_block :
    (c : Ctx) (p : Bytes)
    → IsReady c
    → c.used ≡ 0
    → length p ≡ 64
    → ((foldl store c p).h ≡ compress c.h p) × ((foldl store c p).used ≡ 0)
unfolding copy_in
store_block c [] r e len = absurd (omega arith)
store_block c (x ∷ p) r e len =
    let whole = write_at_whole c.buf (x ∷ p) c.used e (omega (arith, r.whole)) in
    rw (fill p c x r (omega arith)) (ground (arith, whole))

store_blocks :
    (n : ℕ) (c : Ctx) (p : Bytes)
    → IsReady c
    → c.used ≡ 0
    → length p ≡ n * 64
    → (foldl store c p).h ≡ hash_blocks n c.h p
unfolding hash_blocks
store_blocks zero c [] r e len = refl
store_blocks zero c (x ∷ p) r e len = absurd (omega arith)
store_blocks (suc n) c p r e len =
    let c' : Ctx = foldl store c (take 64 p) in
    let block = store_block c (take 64 p) r e (omega (arith, length-take 64 p)) in
    let cut : foldl store c p ≡ foldl store c' (drop 64 p) =
      ap (foldl store c) (sym (take-append-drop 64 p))
      ∙ foldl-append store c (take 64 p) (drop 64 p) in
    ap (λ (t : Ctx). t.h) cut
    ∙ store_blocks n c' (drop 64 p) (foldl-store-IsReady (take 64 p) c r) block.1
        (omega (arith, length-drop 64 p))
    ∙ ap (λ (t : List ℕ). hash_blocks n t (drop 64 p)) block.0

recount : Ctx → ℕ → Ctx
recount c b = record c { bytes = b }

recount-IsReady : (c : Ctx) (b : ℕ) → IsReady c → IsReady (recount c b)
unfolding recount
recount-IsReady c b r = record { whole = r.whole; room = r.room }

-- The padding loop stores zeros until 56 bytes are held.
pad_loop_stores :
    (fuel k : ℕ) (c : Ctx)
    → IsReady c
    → (c.used + k) % 64 ≡ 56
    → k < fuel
    → k < 64
    → (b : ℕ) × (pad_loop fuel c ≡ some (recount (foldl store c (replicate k 0)) b))
unfolding pad_loop recount
pad_loop_stores zero k c r e h l = elim h [ ]
pad_loop_stores (suc fuel) zero c r e h l = (c.bytes, ground arith)
pad_loop_stores (suc fuel) (suc k) c r e h l =
    let c' : Ctx = recount (store c 0) (u64 (c.bytes + 1)) in
    let ready' = store-IsReady c 0 r in
    let rest =
      pad_loop_stores fuel k c' (record { whole = ready'.whole; room = ready'.room })
        (omega (arith, used-store c 0 r)) (omega arith) (omega arith) in
    (
      rest.0,
      ground (
        arith,
        update_stores c (0 ∷ []) r,
        rest.1,
        foldl-store_bytes (replicate k 0) (store c 0) (u64 (c.bytes + 1)),
      ),
    )

read_loop_stores :
    (reads : List Bytes) (c : Ctx)
    → IsReady c
    → c.bytes < 2 ^ 64
    → read_loop reads c
      ≡ some (recount (foldl store c (content reads)) (u64 (c.bytes + length (content reads))))
unfolding read_loop recount
read_loop_stores [] c r h = ap (λ (b : ℕ). some (recount c b)) (omega arith)
read_loop_stores ([] ∷ reads) c r h = ap (λ (b : ℕ). some (recount c b)) (omega arith)
read_loop_stores ((x ∷ p) ∷ reads) c r h =
    let c' : Ctx = recount (foldl store c (x ∷ p)) (u64 (c.bytes + length (x ∷ p))) in
    let all = content reads in
    let counts : u64 (c'.bytes + length all) ≡ u64 (c.bytes + length ((x ∷ p) ++ all)) =
      omega (arith, length-append (x ∷ p) all) in
    rw (update_stores c (x ∷ p) r) (
      read_loop_stores reads c' (recount-IsReady _ _ (foldl-store-IsReady (x ∷ p) c r))
        (omega arith)
      ∙ ap some (
          ap (λ (t : Ctx). recount t (u64 (c'.bytes + length all)))
            (foldl-store_bytes all (foldl store c (x ∷ p)) c'.bytes)
          ∙ ap₂ recount (sym (foldl-append store c (x ∷ p) all)) counts))

length-length_bytes : (n i b : ℕ) → length (length_bytes n i b) ≡ n
unfolding length_bytes
length-length_bytes zero i b = refl
length-length_bytes (suc n) i b = ap suc (length-length_bytes n (i + 1) b)

-- The counter has no part in the hash.
recount_hash : (c : Ctx) (b : ℕ) (p : Bytes) → (foldl store (recount c b) p).h ≡ (foldl store c p).h
unfolding recount
recount_hash c b p = ap (λ (t : Ctx). t.h) (foldl-store_bytes p c b)

padded_hash :
    (c : Ctx) (b b' : ℕ) (zeros bits : Bytes)
    → (foldl store (recount (foldl store (recount c b) zeros) b') bits).h
      ≡ (foldl store c (zeros ++ bits)).h
unfolding recount
padded_hash c b b' zeros bits =
    ap (λ (t : Ctx). t.h) (foldl-store_bytes bits (foldl store (recount c b) zeros) b')
    ∙ ap (λ (t : Ctx). (foldl store t bits).h) (foldl-store_bytes zeros c b)
    ∙ ap (λ (t : Ctx). t.h) (foldl-store_bytes bits (foldl store c zeros) b)
    ∙ ap (λ (t : Ctx). t.h) (sym (foldl-append store c zeros bits))

-- Closing a context stores the padding of the message that it holds.
final_stores :
    (c : Ctx)
    → IsReady c
    → final c
      ≡ some (
          hex_words
            (foldl store c
              (0x80 ∷ (replicate (zeros_for c.used) 0 ++ length_bytes 8 0 (u64 (c.bytes * 8))))).h)
unfolding final recount
final_stores c r =
    let bits = length_bytes 8 0 (u64 (c.bytes * 8)) in
    let zeros : Bytes = replicate (zeros_for c.used) 0 in
    let c₁ : Ctx = recount (store c 0x80) (u64 (c.bytes + 1)) in
    let ready₁ : IsReady c₁ = recount-IsReady _ _ (store-IsReady c 0x80 r) in
    let (b, e₂) =
      pad_loop_stores 64 (zeros_for c.used) c₁ ready₁ (omega (arith, used-store c 0x80 r))
        (omega arith) (omega arith) in
    let ready₂ : IsReady (recount (foldl store c₁ zeros) b) =
      recount-IsReady _ _ (foldl-store-IsReady zeros c₁ ready₁) in
    rw (update_stores c (0x80 ∷ []) r, e₂, update_stores _ bits ready₂)
      (ap (λ (t : List ℕ). some (hex_words t)) (padded_hash (store c 0x80) _ b zeros bits))

length-pad : (m : Bytes) → length (pad m) ≡ length (pad m) / 64 * 64
length-pad m =
    let bits = length_bytes 8 0 (u64 (length m * 8)) in
    let zeros : Bytes = replicate (zeros_for (length m)) 0 in
    omega (
      arith,
      length-append m (0x80 ∷ (zeros ++ bits)),
      length-append zeros bits,
      length-replicate {A = ℕ} (zeros_for (length m)) 0,
      length-length_bytes 8 0 (u64 (length m * 8)),
    )

-- Closing a context that has stored the message `m` from the start.
final-reference :
    (start : Ctx) (m : Bytes)
    → IsReady start
    → start.used ≡ 0
    → start.h ≡ initial_hash
    → final (recount (foldl store start m) (u64 (0 + length m)))
      ≡ some (hex_words (reference_hash m))
unfolding reference_hash
final-reference start m r e iv =
    final_stores c (recount-IsReady _ _ (foldl-store-IsReady m start r))
    ∙ ap (λ (t : List ℕ). some (hex_words t)) hash
  where
    c : Ctx
    c = recount (foldl store start m) (u64 (0 + length m))

    tail : ℕ → ℕ → Bytes
    tail u b = 0x80 ∷ (replicate (zeros_for u) 0 ++ length_bytes 8 0 (u64 (b * 8)))

    counted : c.bytes ≡ u64 (0 + length m)
    counted = unfold recount in refl

    used : c.used ≡ length m % 64
    used = unfold recount in omega (arith, used-foldl m start r)

    same_tail : tail c.used c.bytes ≡ tail (length m) (length m)
    same_tail =
        ap₂ (λ (k n : ℕ). 0x80 ∷ (replicate k 0 ++ length_bytes 8 0 n)) (omega (arith, used))
          (omega (arith, counted))

    hash :
        (foldl store c (tail c.used c.bytes)).h
        ≡ hash_blocks (length (pad m) / 64) initial_hash (pad m)
    hash =
        ap (λ (t : Bytes). (foldl store c t).h) same_tail
        ∙ recount_hash (foldl store start m) (u64 (0 + length m)) (tail (length m) (length m))
        ∙ ap (λ (t : Ctx). t.h) (sym (foldl-append store start m (tail (length m) (length m))))
        ∙ store_blocks (length (pad m) / 64) start (pad m) r e (length-pad m)
        ∙ ap (λ (t : List ℕ). hash_blocks (length (pad m) / 64) t (pad m)) iv

-- The digest that a file gets, for any cut of its bytes into reads: the blocks of the padded message,
-- folded by `compress`.
pub file_digest-blocks :
    (garbage : Ctx) (s : Stream)
    → length garbage.buf ≡ 64
    → s.error ≡ false
    → file_digest garbage (some s)
      ≡ some (record { ok = true; hex = hex_words (reference_hash (content s.reads)) })
unfolding file_digest reference_hash
file_digest-blocks garbage s whole fine =
    let m = content s.reads in
    let start : Ctx = init garbage in
    let ready : IsReady start = unfold init in record { whole = whole; room = omega arith } in
    let zero_bytes : start.bytes ≡ 0 = unfold init in refl in
    let loop : read_loop s.reads start ≡ some (recount (foldl store start m) (u64 (0 + length m))) =
      read_loop_stores s.reads start ready (omega arith)
      ∙ ap (λ (b : ℕ). some (recount (foldl store start m) (u64 (b + length m)))) zero_bytes in
    let no_bytes : start.used ≡ 0 = unfold init in refl in
    let iv : start.h ≡ initial_hash = unfold init in refl in
    rw (loop, fine, final-reference start m ready no_bytes iv)
