-- ===== src/Sha256/Standard/Agrees.antt =====
-- bench/src/sha256.c against the standard's description.
use cross_platform_benchmark.Prelude.{
  ℕ, zero, suc, ◌+◌, ◌-◌, ◌*◌, ◌/◌, ◌%◌, ◌^◌, List, [], ◌∷◌, ◌++◌, ◌≡◌, refl, ap, ap₂, ◌∙◌, Bytes,
  map, replicate, get_or, take, drop, arith, u32, u64, length, true, false, some,
}
use cross_platform_benchmark.Sha256.{
  round_constants, initial_hash, compress, ror, word_at, load_words, schedule, Work, round, rounds,
  length_bytes, Ctx, Stream, file_digest, hex_bytes, hex_words,
}
use cross_platform_benchmark.Sha256.Digest.{
  hash_blocks, pad, zeros_for, reference_hash, content, file_digest-blocks,
}
use cross_platform_benchmark.Sha256.Standard.{
  constants, initial_value, small_sigma0, small_sigma1, State, expand, block_words, standard_round,
  standard_rounds, standard_block, start_of, added, fold_blocks, standard_pad, standard_hash,
  choose, majority, big_sigma0, big_sigma1, digits_of, hex_char, hex_text,
}

constants_lem : round_constants ≡ constants
unfolding constants
constants_lem = refl

initial_value_lem : initial_hash ≡ initial_value
unfolding initial_value
initial_value_lem = refl

cons : (x y : ℕ) (xs ys : List ℕ) → x ≡ y → xs ≡ ys → x ∷ xs ≡ y ∷ ys
cons x y xs ys e f = ap₂ (λ (x : ℕ) (xs : List ℕ). x ∷ xs) e f

sums : (a b c d : ℕ) → u32 (a + b + c + d) ≡ (d + c + b + a) % 2 ^ 32
sums a b c d = omega arith

schedule_lem : (left t : ℕ) (w : List ℕ) → schedule left t w ≡ expand left t w
unfolding schedule expand ror
schedule_lem zero t w = refl
schedule_lem (suc left) t w =
    let x = get_or w (t - 15) 0 in
    let y = get_or w (t - 2) 0 in
    ap (λ (n : ℕ). schedule left (t + 1) (w ++ n ∷ []))
      (sums (get_or w (t - 16) 0) (small_sigma0 x) (get_or w (t - 7) 0) (small_sigma1 y))
    ∙ schedule_lem left (t + 1) _

load_words_lem : (n t : ℕ) (p : Bytes) → load_words n t p ≡ block_words n t p
unfolding load_words block_words word_at
load_words_lem zero t p = refl
load_words_lem (suc n) t p = cons _ _ _ _ refl (load_words_lem n (t + 1) p)

state : Work → State
state v = record { a = v.a; b = v.b; c = v.cc'; d = v.d; e = v.e; f = v.f; g = v.g; h = v.h }

temporaries :
    (x y z k w m n : ℕ)
    → u32 (u32 (x + y + z + k + w) + u32 (m + n)) ≡ (x + y + z + k + w + (m + n)) % 2 ^ 32
temporaries x y z k w m n = omega arith

round_lem : (k w : ℕ) (v : Work) → state (round k w v) ≡ standard_round k w (state v)
unfolding state round standard_round ror
round_lem k w v =
    let ch = choose v.e v.f v.g in
    ap₂
      (λ (a e : ℕ). record { a = a; b = v.a; c = v.b; d = v.cc'; e = e; f = v.e; g = v.f; h = v.g })
      (temporaries v.h (big_sigma1 v.e) ch k w (big_sigma0 v.a) (majority v.a v.b v.cc'))
      (omega arith)

rounds_lem : (ks ws : List ℕ) (v : Work) → state (rounds ks ws v) ≡ standard_rounds ks ws (state v)
unfolding rounds standard_rounds
rounds_lem [] ws v = refl
rounds_lem (k ∷ ks) [] v = refl
rounds_lem (k ∷ ks) (w ∷ ws) v =
    rounds_lem ks ws (round k w v) ∙ ap (standard_rounds ks ws) (round_lem k w v)

summed :
    (hs : List ℕ) (p : Bytes)
    → compress hs p
      ≡ added hs (
          state (
            rounds round_constants (schedule 48 16 (load_words 16 0 p)) (record {
              a = get_or hs 0 0;
              b = get_or hs 1 0;
              cc' = get_or hs 2 0;
              d = get_or hs 3 0;
              e = get_or hs 4 0;
              f = get_or hs 5 0;
              g = get_or hs 6 0;
              h = get_or hs 7 0;
            })))
unfolding compress added state
summed hs p = refl

words_lem : (p : Bytes) → schedule 48 16 (load_words 16 0 p) ≡ expand 48 16 (block_words 16 0 p)
words_lem p = schedule_lem 48 16 (load_words 16 0 p) ∙ ap (expand 48 16) (load_words_lem 16 0 p)

compress_lem : (hs : List ℕ) (p : Bytes) → compress hs p ≡ standard_block hs p
unfolding standard_block start_of state
compress_lem hs p =
    summed hs p
    ∙ ap (added hs) (
        rounds_lem round_constants (schedule 48 16 (load_words 16 0 p)) _
        ∙ ap₂ (λ (ks ws : List ℕ). standard_rounds ks ws (start_of hs)) constants_lem (words_lem p))

length_bytes_lem : (x : ℕ) → length_bytes 8 0 x ≡ digits_of 256 8 x
unfolding length_bytes digits_of
length_bytes_lem x = cons _ _ _ _ (omega arith) (
    cons _ _ _ _ (omega arith) (
      cons _ _ _ _ (omega arith) (
        cons _ _ _ _ (omega arith) (
          cons _ _ _ _ (omega arith) (
            cons _ _ _ _ (omega arith)
              (cons _ _ _ _ (omega arith) (cons _ _ _ _ (omega arith) (refl))))))))

hex_bytes_lem : (x : ℕ) → hex_bytes 4 0 x ≡ map hex_char (digits_of 16 8 x)
unfolding hex_bytes digits_of
hex_bytes_lem x = cons _ _ _ _ (ap hex_char (omega arith)) (
    cons _ _ _ _ (ap hex_char (omega arith)) (
      cons _ _ _ _ (ap hex_char (omega arith)) (
        cons _ _ _ _ (ap hex_char (omega arith)) (
          cons _ _ _ _ (ap hex_char (omega arith)) (
            cons _ _ _ _ (ap hex_char (omega arith)) (
              cons _ _ _ _ (ap hex_char (omega arith))
                (cons _ _ _ _ (ap hex_char (omega arith)) (refl))))))))

hex_words_lem : (xs : List ℕ) → hex_words xs ≡ hex_text xs
unfolding hex_words hex_text
hex_words_lem [] = refl
hex_words_lem (x ∷ xs) = ap₂ (λ (s t : Bytes). s ++ t) (hex_bytes_lem x) (hex_words_lem xs)

hash_blocks_lem : (n : ℕ) (hs : List ℕ) (p : Bytes) → hash_blocks n hs p ≡ fold_blocks n hs p
unfolding hash_blocks fold_blocks
hash_blocks_lem zero hs p = refl
hash_blocks_lem (suc n) hs p =
    hash_blocks_lem n (compress hs (take 64 p)) (drop 64 p)
    ∙ ap (λ (t : List ℕ). fold_blocks n t (drop 64 p)) (compress_lem hs (take 64 p))

pad_lem : (m : Bytes) → pad m ≡ standard_pad m
pad_lem m =
    ap (λ (t : Bytes). m ++ 0x80 ∷ (replicate (zeros_for (length m)) 0 ++ t))
      (length_bytes_lem (u64 (length m * 8)))

reference_hash_lem : (m : Bytes) → reference_hash m ≡ standard_hash m
unfolding reference_hash standard_hash
reference_hash_lem m =
    hash_blocks_lem (length (pad m) / 64) initial_hash (pad m)
    ∙ ap₂ (λ (hs : List ℕ) (t : Bytes). fold_blocks (length t / 64) hs t) initial_value_lem
        (pad_lem m)

-- A file that opens and is read without an error, in whatever pieces, gets the digest that FIPS 180-4
-- defines for its bytes, with the constants that are computed from the primes, as 64 digits in lower
-- case; the length in bits is taken modulo 2^64, above which the standard defines no digest.
pub file_digest-standard :
    (garbage : Ctx) (s : Stream)
    → length garbage.buf ≡ 64
    → s.error ≡ false
    → file_digest garbage (some s)
      ≡ some (record { ok = true; hex = hex_text (standard_hash (content s.reads)) })
file_digest-standard garbage s whole fine =
    file_digest-blocks garbage s whole fine
    ∙ ap (λ (t : Bytes). some (record { ok = true; hex = t }))
        (hex_words_lem (reference_hash (content s.reads))
          ∙ ap hex_text (reference_hash_lem (content s.reads)))
