-- ===== src/Submit/Label.antt =====
-- `copy_trimmed` and the label of an upload in bench/src/bench.c, with their buffers.
use cross_platform_benchmark.Prelude.{
  ℕ, zero, suc, ◌+◌, ◌-◌, ◌*◌, ◌/◌, ◌%◌, bit_and, ap, false, ◌==◌, ◌<◌, ◌≤◌, ◌≡◌, ◌⊎◌, inl, inr,
  refl, sym, ◌∙◌, true, false, [], ◌∷◌, ◌++◌, Bytes, codes, ltb, length, take, get_or, take_all,
  length-take, length-append, Bool-cases, arith,
}
use cross_platform_benchmark.Prelude.Bits.{bit_and_step, bit_and_mask}
use cross_platform_benchmark.Submit.{
  Copied, is_continuation, cut_at, copy_trimmed, reserve, variant_tag, joined, full_label,
  max_label, max_notes, Hub, submit_document, run_url, concluded,
}
use cross_platform_benchmark.Submit.Encode.{encoded, url_encode_fits}
use cross_platform_benchmark.Http.Post.{Network, Curl, http_post_json}

cut_at_bound : (s : Bytes) (n : ℕ) → cut_at s n ≤ n
unfolding cut_at
cut_at_bound s zero = omega arith
cut_at_bound s (suc n) = ground (arith, cut_at_bound s n)

cut_at_boundary :
    (s : Bytes) (n : ℕ) → (cut_at s n ≡ 0) ⊎ (is_continuation (get_or s (cut_at s n) 0) ≡ false)
unfolding cut_at
cut_at_boundary s zero = inl refl
cut_at_boundary s (suc n) = elim (Bool-cases (is_continuation (get_or s (suc n) 0))) [
  | inl t ↦ rw (t, cut_at) (cut_at_boundary s n)
  | inr f ↦ rw (f, cut_at) (inr f)
]

cut_at_longest :
    (s : Bytes) (n j : ℕ) → cut_at s n < j → j ≤ n → is_continuation (get_or s j 0) ≡ true
unfolding cut_at
cut_at_longest s zero j h l = absurd (omega arith)
cut_at_longest s (suc n) j h l = elim (Bool-cases (is_continuation (get_or s (suc n) 0))) [
  | inr f ↦ absurd (ground arith)
  | inl t ↦ elim (Bool-cases (j == suc n)) [
    | inl e ↦ ap (λ (i : ℕ). is_continuation (get_or s i 0)) (ground arith) ∙ t
    | inr e ↦ cut_at_longest s n j (ground arith) (ground arith)
  ]
]

-- Whether the byte is one of UTF-8 that is not the first of a character.
abbrev pub IsContinuation : ℕ → Type 0
IsContinuation c = ((128 ≤ c % 256) × (c % 256 < 192))

bit_and_6 : (c : ℕ) → bit_and c 6 ≡ c / 2 % 4 * 2
bit_and_6 c = omega (arith, bit_and_step c 6, bit_and_mask 2 (c / 2))

bit_and_12 : (c : ℕ) → bit_and c 12 ≡ c / 4 % 4 * 4
bit_and_12 c = omega (arith, bit_and_step c 12, bit_and_6 (c / 2))

bit_and_24 : (c : ℕ) → bit_and c 24 ≡ c / 8 % 4 * 8
bit_and_24 c = omega (arith, bit_and_step c 24, bit_and_12 (c / 2))

bit_and_48 : (c : ℕ) → bit_and c 48 ≡ c / 16 % 4 * 16
bit_and_48 c = omega (arith, bit_and_step c 48, bit_and_24 (c / 2))

bit_and_96 : (c : ℕ) → bit_and c 96 ≡ c / 32 % 4 * 32
bit_and_96 c = omega (arith, bit_and_step c 96, bit_and_48 (c / 2))

bit_and_upper : (c : ℕ) → bit_and c 0xc0 ≡ c / 64 % 4 * 64
bit_and_upper c = omega (arith, bit_and_step c 192, bit_and_96 (c / 2))

is_continuation-IsContinuation : (c : ℕ) → is_continuation c ≡ true → IsContinuation c
is_continuation-IsContinuation c t = ground (arith, bit_and_upper c)

other_byte : (c : ℕ) → is_continuation c ≡ false → ¬ IsContinuation c
other_byte c f (l, r) = ground (arith, bit_and_upper c)

-- What a trimmed copy is: the text itself where it fits, else its front of at most `cap - 1` bytes that
-- does not end inside a UTF-8 character, and the longest one of these.
pub record IsTrimmed (cap : ℕ) (s : Bytes) (c : Copied) : Type 0 where
  pub at : ℕ
  pub front : c.text ≡ take at s
  pub fits : length c.text < cap
  pub whole : length s < cap → (c.fit ≡ true) × (c.text ≡ s)
  pub cut :
      cap ≤ length s
      → (c.fit ≡ false)
        × (at < cap)
        × ((at ≡ 0) ⊎ (¬ IsContinuation (get_or s at 0)))
        × ((j : ℕ) → at < j → j < cap → IsContinuation (get_or s j 0))

cut-boundary : (s : Bytes) (n : ℕ) → (cut_at s n ≡ 0) ⊎ (¬ IsContinuation (get_or s (cut_at s n) 0))
cut-boundary s n = elim (cut_at_boundary s n) [
  | inl e ↦ inl e
  | inr f ↦ inr (other_byte (get_or s (cut_at s n) 0) f)
]

-- A buffer of at least one byte receives a text that is shorter than the buffer, and `copy_trimmed`
-- returns 1; of a longer one it receives the longest front that leaves room for the NUL and does not end
-- inside a UTF-8 character, and `copy_trimmed` returns 0.
pub copy_trimmed_lem : (cap : ℕ) (s : Bytes) → 1 ≤ cap → IsTrimmed cap s (copy_trimmed cap s)
unfolding copy_trimmed
copy_trimmed_lem cap s h = elim (Bool-cases (ltb (length s) cap)) [
  | inl t ↦ rw t (record {
    at = length s;
    front = sym (take_all s (length s) (omega arith));
    fits = ground arith;
    whole = λ _. (refl, refl);
    cut = λ long. absurd (ground arith);
  })
  | inr f ↦ rw f (record {
    at = cut_at s (cap - 1);
    front = refl;
    fits = omega (arith, length-take (cut_at s (cap - 1)) s, (cut_at_bound s (cap - 1)));
    whole = λ short. absurd (ground arith);
    cut = λ long. (
      refl,
      omega (arith, cut_at_bound s (cap - 1)),
      cut-boundary s (cap - 1),
      λ j l r.
          is_continuation-IsContinuation (get_or s j 0)
            (cut_at_longest s (cap - 1) j l (omega arith)),
    );
  })
]

length-reserve : (tag : Bytes) → reserve tag ≤ length tag + 1
length-reserve [] = omega arith
length-reserve (c ∷ tag) = omega arith

length-variant_tag : (v : Bytes) → length (variant_tag v) ≤ 31
length-variant_tag [] = omega arith
length-variant_tag (c ∷ v) = omega (arith, length-take 31 (codes "(" ++ ((c ∷ v) ++ codes ")")))

length-joined :
    (label tag : Bytes) (m : ℕ) → length label + reserve tag ≤ m → length (joined label tag) ≤ m
length-joined [] [] m h = h
length-joined [] (t ∷ tag) m h = omega arith
length-joined (c ∷ label) [] m h = omega arith
length-joined (c ∷ label) (t ∷ tag) m h = omega (arith, length-append (c ∷ label) (32 ∷ t ∷ tag))

-- With every label and every variant's name the label that is sent has at most `MAX_LABEL` bytes.
pub length-full_label : (label v : Bytes) → length (full_label label (variant_tag v)) ≤ max_label
unfolding full_label
length-full_label label v =
    let tag = variant_tag v in
    let room : ℕ = max_label + 1 - reserve tag in
    let trimmed =
      copy_trimmed_lem room label (omega (arith, length-reserve tag, length-variant_tag v)) in
    length-joined (copy_trimmed room label).text tag max_label
      (omega (arith, trimmed.fits, length-reserve tag, length-variant_tag v))

-- The texts of every upload fit the buffers of their encodings: "label or notes too long" is an error
-- that no upload runs into, so a run of `submit_document` posts unless the URL's allocation fails.
pub submit_document-posts :
    (net : Network) (curl : Curl) (g : Hub) (errors : ℕ) (doc variant : Bytes)
    → submit_document true net curl g errors doc variant ≡ (
        let url =
          run_url g.hub
            (encoded (full_label g.label (variant_tag variant)))
            (encoded (copy_trimmed (max_notes + 1) g.notes).text) in
        concluded errors url (http_post_json net curl url g.token doc))
unfolding submit_document
submit_document-posts net curl g errors doc variant =
    let label = full_label g.label (variant_tag variant) in
    let notes = (copy_trimmed (max_notes + 1) g.notes).text in
    let small = copy_trimmed_lem (max_notes + 1) g.notes (omega arith) in
    rw
      (
        url_encode_fits label (max_label * 3 + 1)
            (omega (arith, length-full_label g.label variant)),
        url_encode_fits notes (max_notes * 3 + 1) (omega (arith, small.fits)),
      )
      refl
