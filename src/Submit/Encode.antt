-- ===== src/Submit/Encode.antt =====
-- `url_encode` of bench/src/bench.c: when a text fits, and what it encodes to.
use cross_platform_benchmark.Prelude.{
  ℕ, ◌+◌, ◌-◌, ◌*◌, ◌/◌, ◌%◌, ◌<◌, ◌≤◌, ◌≡◌, ◌⊎◌, inl, inr, refl, ap, ap₂, ◌∙◌, true, false, [],
  ◌∷◌, ◌++◌, some, Bytes, ltb, ◌==◌, if◌then◌else◌, length, All, length-append, is_digit,
  Bool-cases, arith,
}
use cross_platform_benchmark.Http.Shell.{IsUnreserved}
use cross_platform_benchmark.Submit.{is_plain, hex_digit, encoded_byte, url_encode_loop, url_encode}

-- Percent-encoding without a buffer.
abbrev pub encoded : Bytes → Bytes
encoded [] = []
encoded (c ∷ s) = encoded_byte c ++ encoded s

-- The reading of a query value, as a hub does it.
abbrev pub digit_value : ℕ → ℕ
digit_value c = if is_digit c then c - b'0' else c - b'A' + 10

abbrev pub decoded : Bytes → Bytes
decoded [] = []
decoded (c ∷ []) = c ∷ []
decoded (c ∷ d ∷ []) = c ∷ d ∷ []
decoded (c ∷ d ∷ e ∷ s) =
    let short = decoded s in
    let rest = decoded (d ∷ e ∷ s) in
    if c == b'%' then (digit_value d * 16 + digit_value e) ∷ short else c ∷ rest

-- What may stand in a query value without ending it.
abbrev pub IsQueryByte : ℕ → Type 0
IsQueryByte c = (IsUnreserved c ⊎ (c ≡ b'%'))

plain-IsUnreserved : (c : ℕ) → is_plain c ≡ true → IsUnreserved c
plain-IsUnreserved c h = ground arith

pub length-encoded_byte : (c : ℕ) → length (encoded_byte c) ≡ (if is_plain c then 1 else 3)
length-encoded_byte c = elim (Bool-cases (is_plain c)) [ inl t ↦ rw t refl | inr f ↦ rw f refl ]

pub length-encoded : (s : Bytes) → length (encoded s) ≤ 3 * length s
length-encoded [] = omega arith
length-encoded (c ∷ s) =
    ground
      (arith, length-encoded s, length-append (encoded_byte c) (encoded s), length-encoded_byte c)

url_encode_loop_lem :
    (cap : ℕ) (s : Bytes) (n : ℕ)
    → n < cap
    → n + length (encoded s) < cap
    → url_encode_loop cap s n ≡ some (encoded s)
unfolding url_encode_loop
url_encode_loop_lem cap [] n h l = refl
url_encode_loop_lem cap (c ∷ s) n h l =
    let w = if is_plain c then 1 else 3 in
    let e : n + w + length (encoded s) < cap =
      omega (arith, length-append (encoded_byte c) (encoded s), length-encoded_byte c) in
    let t : ltb cap (n + w + 1) ≡ false = ground (arith, e) in
    rw (t, url_encode_loop_lem cap s (n + w) (omega (arith, e)) e) refl

pub hex_digit-plain : (n : ℕ) → n < 16 → is_plain (hex_digit n) ≡ true
hex_digit-plain n h = ground arith

hex_digit-value : (n : ℕ) → n < 16 → digit_value (hex_digit n) ≡ n
hex_digit-value n h = ground arith

byte_value :
    (c : ℕ) → c < 256 → digit_value (hex_digit (c / 16)) * 16 + digit_value (hex_digit (c % 16)) ≡ c
byte_value c h =
    omega (arith, hex_digit-value (c / 16) (omega arith), hex_digit-value (c % 16) (omega arith))

plain-percent : (c : ℕ) → is_plain c ≡ true → (c == b'%') ≡ false
plain-percent c h = ground arith

decoded_other : (c : ℕ) (s : Bytes) → (c == b'%') ≡ false → decoded (c ∷ s) ≡ c ∷ decoded s
decoded_other c [] h = refl
decoded_other c (d ∷ []) h = refl
decoded_other c (d ∷ e ∷ s) h = rw h refl

decoded-encoded : (s : Bytes) → All (λ c. c < 256) s → decoded (encoded s) ≡ s
decoded-encoded [] h = refl
decoded-encoded (c ∷ s) (hc, hs) = elim (Bool-cases (is_plain c)) [
  | inl t ↦
      rw t
        (decoded_other c (encoded s) (plain-percent c t) ∙ ap (λ t. c ∷ t) (decoded-encoded s hs))
  | inr f ↦ rw f (ap₂ (λ (x : ℕ) (t : Bytes). x ∷ t) (byte_value c hc) (decoded-encoded s hs))
]

encoded-query : (s : Bytes) → All (λ c. c < 256) s → All IsQueryByte (encoded s)
encoded-query [] h = tt
encoded-query (c ∷ s) (hc, hs) = elim (Bool-cases (is_plain c)) [
  | inl t ↦ rw t (inl (plain-IsUnreserved c t), encoded-query s hs)
  | inr f ↦ rw f (
    inr refl,
    (
      inl (plain-IsUnreserved _ (hex_digit-plain (c / 16) (omega arith))),
      (inl (plain-IsUnreserved _ (hex_digit-plain (c % 16) (omega arith))), encoded-query s hs),
    ),
  )
]

pub url_encode_fits :
    (s : Bytes) (cap : ℕ) → 3 * length s < cap → url_encode s cap ≡ some (encoded s)
unfolding url_encode
url_encode_fits s cap l =
    url_encode_loop_lem cap s 0 (omega arith) (omega (arith, length-encoded s))

-- In a buffer of three bytes for each byte of the text and one for the end, the encoding succeeds; all
-- of it are unreserved characters of RFC 3986 and percent signs, and decoding it gives the text back.
pub url_encode-decoded :
    (s : Bytes) (cap : ℕ)
    → All (λ c. c < 256) s
    → 3 * length s < cap
    → (out : Bytes) × (url_encode s cap ≡ some out) × All IsQueryByte out × (decoded out ≡ s)
url_encode-decoded s cap h l =
    (encoded s, url_encode_fits s cap l, encoded-query s h, decoded-encoded s h)
