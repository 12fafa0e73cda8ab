-- ===== src/Sha256.antt =====
-- bench/src/sha256.c: the digest of one file. The context is a record, its arrays are lists, and
-- `unsigned char` and `uint32_t` values are numbers below 2 ^ 8 and 2 ^ 32.
pub mod Feed
pub mod Digest
pub mod Standard
pub mod Tests
use Prim.Native.Nat.{bit_and, bit_or, bit_xor}
use cross_platform_benchmark.Prelude.{
  ℕ, zero, suc, ◌+◌, ◌-◌, ◌*◌, ◌/◌, ◌%◌, ◌^◌, Bool, true, false, List, [], ◌∷◌, ◌++◌, Option, none,
  some, Bytes, codes, length, get_or, take, drop, ◌==◌, ltb, if◌then◌else◌, u8, u32, u64, shr,
  not32,
}

pub record Ctx : Type 0 where
  pub h : List ℕ
  pub bytes : ℕ
  pub buf : Bytes
  pub used : ℕ

abbrev pub round_constants : List ℕ
round_constants =
    0x428a2f98 ∷ 0x71374491 ∷ 0xb5c0fbcf ∷ 0xe9b5dba5 ∷ 0x3956c25b ∷ 0x59f111f1 ∷ 0x923f82a4
    ∷ 0xab1c5ed5 ∷ 0xd807aa98 ∷ 0x12835b01 ∷ 0x243185be ∷ 0x550c7dc3 ∷ 0x72be5d74 ∷ 0x80deb1fe
    ∷ 0x9bdc06a7 ∷ 0xc19bf174 ∷ 0xe49b69c1 ∷ 0xefbe4786 ∷ 0x0fc19dc6 ∷ 0x240ca1cc ∷ 0x2de92c6f
    ∷ 0x4a7484aa ∷ 0x5cb0a9dc ∷ 0x76f988da ∷ 0x983e5152 ∷ 0xa831c66d ∷ 0xb00327c8 ∷ 0xbf597fc7
    ∷ 0xc6e00bf3 ∷ 0xd5a79147 ∷ 0x06ca6351 ∷ 0x14292967 ∷ 0x27b70a85 ∷ 0x2e1b2138 ∷ 0x4d2c6dfc
    ∷ 0x53380d13 ∷ 0x650a7354 ∷ 0x766a0abb ∷ 0x81c2c92e ∷ 0x92722c85 ∷ 0xa2bfe8a1 ∷ 0xa81a664b
    ∷ 0xc24b8b70 ∷ 0xc76c51a3 ∷ 0xd192e819 ∷ 0xd6990624 ∷ 0xf40e3585 ∷ 0x106aa070 ∷ 0x19a4c116
    ∷ 0x1e376c08 ∷ 0x2748774c ∷ 0x34b0bcb5 ∷ 0x391c0cb3 ∷ 0x4ed8aa4a ∷ 0x5b9cca4f ∷ 0x682e6ff3
    ∷ 0x748f82ee ∷ 0x78a5636f ∷ 0x84c87814 ∷ 0x8cc70208 ∷ 0x90befffa ∷ 0xa4506ceb ∷ 0xbef9a3f7
    ∷ 0xc67178f2 ∷ []

pub ror : ℕ → ℕ → ℕ
ror x n = bit_or (shr x n) (u32 (x * 2 ^ (32 - n)))

abbrev pub initial_hash : List ℕ
initial_hash =
    0x6a09e667 ∷ 0xbb67ae85 ∷ 0x3c6ef372 ∷ 0xa54ff53a ∷ 0x510e527f ∷ 0x9b05688c ∷ 0x1f83d9ab
    ∷ 0x5be0cd19 ∷ []

-- `buf` keeps whatever it held.
pub init : Ctx → Ctx
init c = record c { h = initial_hash; bytes = 0; used = 0 }

-- `w[i]` for `i < 16`: four bytes of the block, the first one highest.
word_at : Bytes → ℕ → ℕ
word_at p i =
    bit_or
      (bit_or (bit_or (u32 (get_or p (i * 4) 0 * 2 ^ 24)) (u32 (get_or p (i * 4 + 1) 0 * 2 ^ 16)))
        (u32 (get_or p (i * 4 + 2) 0 * 2 ^ 8)))
      (get_or p (i * 4 + 3) 0)

load_words : ℕ → ℕ → Bytes → List ℕ
load_words zero i p = []
load_words (suc left) i p = word_at p i ∷ load_words left (i + 1) p

-- The second loop over `w`, with `left` rounds to go from index `i`.
schedule : ℕ → ℕ → List ℕ → List ℕ
schedule zero i w = w
schedule (suc left) i w =
    let x = get_or w (i - 15) 0 in
    let y = get_or w (i - 2) 0 in
    let s0 = bit_xor (bit_xor (ror x 7) (ror x 18)) (shr x 3) in
    let s1 = bit_xor (bit_xor (ror y 17) (ror y 19)) (shr y 10) in
    schedule left (i + 1) (w ++ u32 (get_or w (i - 16) 0 + s0 + get_or w (i - 7) 0 + s1) ∷ [])

-- The eight working variables of the rounds.
pub record Work : Type 0 where
  pub a : ℕ
  pub b : ℕ
  pub cc' : ℕ
  pub d : ℕ
  pub e : ℕ
  pub f : ℕ
  pub g : ℕ
  pub h : ℕ

round : ℕ → ℕ → Work → Work
round k w v =
    let s1 = bit_xor (bit_xor (ror v.e 6) (ror v.e 11)) (ror v.e 25) in
    let ch = bit_xor (bit_and v.e v.f) (bit_and (not32 v.e) v.g) in
    let t1 = u32 (v.h + s1 + ch + k + w) in
    let s0 = bit_xor (bit_xor (ror v.a 2) (ror v.a 13)) (ror v.a 22) in
    let maj = bit_xor (bit_xor (bit_and v.a v.b) (bit_and v.a v.cc')) (bit_and v.b v.cc') in
    let t2 = u32 (s0 + maj) in
    record {
      a = u32 (t1 + t2);
      b = v.a;
      cc' = v.b;
      d = v.cc';
      e = u32 (v.d + t1);
      f = v.e;
      g = v.f;
      h = v.g;
    }

rounds : List ℕ → List ℕ → Work → Work
rounds [] ws v = v
rounds (k ∷ ks) [] v = v
rounds (k ∷ ks) (w ∷ ws) v = rounds ks ws (round k w v)

-- `sha256_block` on the eight words of the state.
pub compress : List ℕ → Bytes → List ℕ
compress hs p =
    let at = λ (i : ℕ). get_or hs i 0 in
    let start : Work = record {
      a = at 0;
      b = at 1;
      cc' = at 2;
      d = at 3;
      e = at 4;
      f = at 5;
      g = at 6;
      h = at 7;
    } in
    let v = rounds round_constants (schedule 48 16 (load_words 16 0 p)) start in
    u32 (at 0 + v.a)
    ∷ u32 (at 1 + v.b)
    ∷ u32 (at 2 + v.cc')
    ∷ u32 (at 3 + v.d)
    ∷ u32 (at 4 + v.e)
    ∷ u32 (at 5 + v.f)
    ∷ u32 (at 6 + v.g)
    ∷ u32 (at 7 + v.h)
    ∷ []

-- `memcpy(buf + at, p, length p)`.
pub write_at : Bytes → ℕ → Bytes → Bytes
write_at buf at p = take at buf ++ (p ++ drop (at + length p) buf)

-- The body of the loop of `sha256_update` from the `memcpy` on, for the `take` bytes `p`.
pub copy_in : Ctx → Bytes → Ctx
copy_in c p =
    let buf' = write_at c.buf c.used p in
    let used' = c.used + length p in
    if used' == 64
    then record c { h = compress c.h buf'; buf = buf'; used = 0 }
    else record c { buf = buf'; used = used' }

-- One round on the bytes left: the context, and what is left then.
pub update_round : Ctx → Bytes → Ctx × Bytes
update_round c p =
    let room = 64 - c.used in
    let len = if ltb (length p) room then length p else room in (copy_in c (take len p), drop len p)

-- `none` means that the fuel ran out.
pub update_loop : ℕ → Ctx → Bytes → Option Ctx
update_loop fuel c [] = some c
update_loop zero c (x ∷ p) = none
update_loop (suc fuel) c (x ∷ p) = let (c', p') = update_round c (x ∷ p) in update_loop fuel c' p'

-- A round takes a byte or more, so the length of the input is fuel enough.
unfoldable pub update : Ctx → Bytes → Option Ctx
unfolding update_loop update_round copy_in write_at
update c p = update_loop (length p) (record c { bytes = u64 (c.bytes + length p) }) p

infixl 5 ◌>>=◌
abbrev pub ◌>>=◌ {ℓ κ} : {A : Type ℓ} {B : Type κ} → Option A → (A → Option B) → Option B
none >>= f = none
some a >>= f = f a

-- `while (c->used != 56) sha256_update(c, &zero, 1)`.
pub pad_loop : ℕ → Ctx → Option Ctx
unfolding update
pad_loop zero c = none
pad_loop (suc fuel) c = elim (c.used == 56) [
  | true ↦ some c
  | false ↦ update c (0 ∷ []) >>= λ c'. pad_loop fuel c'
]

-- `len[8]`, the bit count with its highest byte first.
pub length_bytes : ℕ → ℕ → ℕ → Bytes
length_bytes zero i bits = []
length_bytes (suc left) i bits = (bits / 2 ^ (56 - 8 * i)) % 256 ∷ length_bytes left (i + 1) bits

abbrev pub hex_digits : Bytes
hex_digits = codes "0123456789abcdef"

-- The inner loop over `j`: two digits for each byte of a word, the highest first.
pub hex_bytes : ℕ → ℕ → ℕ → Bytes
hex_bytes zero j x = []
hex_bytes (suc left) j x =
    let byte = (x / 2 ^ (24 - 8 * j)) % 256 in
    get_or hex_digits (byte / 16) 0 ∷ get_or hex_digits (byte % 16) 0 ∷ hex_bytes left (j + 1) x

pub hex_words : List ℕ → Bytes
unfolding hex_bytes
hex_words [] = []
hex_words (x ∷ xs) = hex_bytes 4 0 x ++ hex_words xs

-- The 64 characters of `out_hex` before its NUL. Sixty-four rounds of padding are enough.
unfoldable pub final : Ctx → Option Bytes
unfolding pad_loop length_bytes hex_words
final c = do
  let bits = u64 (c.bytes * 8)
  c₁ ← update c (0x80 ∷ [])
  c₂ ← pad_loop 64 c₁
  c₃ ← update c₂ (length_bytes 8 0 bits)
  some (hex_words c₃.h)

-- What the C library answers: whether the file opens, what each `fread` returns, and `ferror`.
pub record Stream : Type 0 where
  pub reads : List Bytes
  pub error : Bool

-- The loop over `fread`; it stops at the first empty read.
pub read_loop : List Bytes → Ctx → Option Ctx
read_loop [] c = some c
read_loop ([] ∷ reads) c = some c
read_loop ((x ∷ p) ∷ reads) c = update c (x ∷ p) >>= λ c'. read_loop reads c'

-- The return value, true for 0 and false for -1, and what `out_hex` holds. `garbage` is the
-- uninitialised context.
pub record FileDigest : Type 0 where
  pub ok : Bool
  pub hex : Bytes

unfoldable pub file_digest : Ctx → Option Stream → Option FileDigest
unfolding init read_loop
file_digest garbage none = some (record { ok = false; hex = [] })
file_digest garbage (some s) = do
  c ← read_loop s.reads (init garbage)
  if s.error
      then some (record { ok = false; hex = [] })
      else final c >>= λ hex'. some (record { ok = true; hex = hex' })
