-- ===== src/Emit/Written/Words.antt =====
-- How the words and strings of a JSON document of bench/src/bench.c are read, and the tokens of a
-- member, an object and an array.
use cross_platform_benchmark.Prelude.{
  ℕ, ◌≤◌, ◌≡◌, refl, ap, ◌∙◌, sym, subst, Bool, true, false, not, ◌&&◌, ◌||◌, List, [], ◌∷◌, ◌++◌,
  Bytes, codes, ltb, ◌==◌, if◌then◌else◌, Bool-cases, true-false, inl, inr, All, append_assoc,
  append-nil, arith, decimal, decimal_digits_lem, decimal_some,
}
use cross_platform_benchmark.Emit.{concat}
use cross_platform_benchmark.Emit.Json.{j_chars}
use cross_platform_benchmark.Emit.Lexer.{
  Token, punct, quoted, word, Mode, outside, in_word, in_text, in_escape, is_delim, is_blank,
  is_punct, lex_byte, lex, push_all, Stands, Reads, lex-append, push_all-append,
}

-- A member of an object: its key and the tokens of its value.
abbrev pub Member : Type 0
Member = Bytes × List Token

abbrev pub member : Member → List Token
member (key, value) = quoted key ∷ punct b':' ∷ value

-- Every member after a comma.
abbrev pub further : List Member → List Token
further [] = []
further (m ∷ ms) = (punct b',' ∷ member m) ++ further ms

abbrev pub object : Member → List Member → List Token
object m ms = punct b'{' ∷ (member m ++ (further ms ++ (punct b'}' ∷ [])))

-- The values of an array, with commas between.
abbrev pub items : List (List Token) → List Token
items [] = []
items (v ∷ []) = v
items (v ∷ w ∷ vs) = v ++ (punct b',' ∷ items (w ∷ vs))

abbrev pub array : List (List Token) → List Token
array vs = punct b'[' ∷ (items vs ++ (punct b']' ∷ []))

abbrev pub string : Bytes → List Token
string s = quoted s ∷ []

abbrev pub literal : Bytes → List Token
literal s = word s ∷ []

-- A word: some bytes, none of which ends it.
abbrev pub IsWord : Bytes → Type 0
IsWord [] = ⊥
IsWord (c ∷ s) = (is_delim c ≡ false) × All (λ c. is_delim c ≡ false) s

-- What stands in a string as it is.
abbrev pub is_plain : ℕ → Bool
is_plain c = not (c == 34 || (c == 92 || ltb c 0x20))

abbrev pub IsPlain : Bytes → Type 0
IsPlain s = All (λ c. is_plain c ≡ true) s

and-true : (a b : Bool) → (a && b) ≡ true → (a ≡ true) × (b ≡ true)
and-true true b h = (refl, h)
and-true false b h = absurd (true-false (sym h))

-- A literal is plain when a test of all its bytes says so.
abbrev pub is_plain_text : Bytes → Bool
is_plain_text [] = true
is_plain_text (c ∷ s) = is_plain c && is_plain_text s

pub is_plain_text-IsPlain : (s : Bytes) → is_plain_text s ≡ true → IsPlain s
is_plain_text-IsPlain [] h = tt
is_plain_text-IsPlain (c ∷ s) h =
    let both = and-true (is_plain c) (is_plain_text s) h in (both.0, is_plain_text-IsPlain s both.1)

decimal-IsWord_bytes :
    (s : Bytes) → All (λ c. (b'0' ≤ c) × (c ≤ b'9')) s → All (λ c. is_delim c ≡ false) s
decimal-IsWord_bytes [] h = tt
decimal-IsWord_bytes (c ∷ s) ((lo, hi), hs) = (ground arith, decimal-IsWord_bytes s hs)

pub decimal-word_bytes : (n : ℕ) → All (λ c. is_delim c ≡ false) (decimal n)
decimal-word_bytes n = decimal-IsWord_bytes (decimal n) (decimal_digits_lem n)

pub decimal-IsWord : (n : ℕ) → IsWord (decimal n)
decimal-IsWord n =
    let (c, s, e) = decimal_some n in
    subst IsWord (sym e) (subst (All (λ c. is_delim c ≡ false)) e (decimal-word_bytes n))

-- What a string keeps of a text: all but its control characters.
abbrev pub kept : Bytes → Bytes
kept [] = []
kept (c ∷ s) = if ltb c 0x20 then kept s else c ∷ kept s

lex-IsWord :
    (s w : Bytes) (ts : List Token)
    → All (λ c. is_delim c ≡ false) s
    → lex s (ts, in_word w) ≡ (ts, in_word (w ++ s))
lex-IsWord [] w ts h = ap (λ x. (ts, in_word x)) (sym (append-nil w))
lex-IsWord (c ∷ s) w ts (hc, hs) =
    rw hc
      (lex-IsWord s (w ++ (c ∷ [])) ts hs ∙ ap (λ x. (ts, in_word x)) (append_assoc w (c ∷ []) s))

snoc :
    (c : ℕ) (s t : Bytes) (ts : List Token)
    → ◌≡◌ {A = List Token × Mode} (ts, in_text ((t ++ (c ∷ [])) ++ s)) (ts, in_text (t ++ (c ∷ s)))
snoc c s t ts = ap (λ x. (ts, in_text x)) (append_assoc t (c ∷ []) s)

lex-IsPlain :
    (s t : Bytes) (ts : List Token) → IsPlain s → lex s (ts, in_text t) ≡ (ts, in_text (t ++ s))
lex-IsPlain [] t ts h = ap (λ x. (ts, in_text x)) (sym (append-nil t))
lex-IsPlain (c ∷ s) t ts (hc, hs) =
    let quote : (c == 34) ≡ false = ground arith in
    let slash : (c == 92) ≡ false = ground arith in
    let control : ltb c 0x20 ≡ false = ground arith in
    rw (quote, slash, control) (lex-IsPlain s (t ++ (c ∷ [])) ts hs ∙ snoc c s t ts)

lex_byte-plain :
    (c : ℕ) (t : Bytes) (ts : List Token)
    → ((c == 34) ≡ false) × ((c == 92) ≡ false) × (ltb c 0x20 ≡ false)
    → lex_byte ts (in_text t) c ≡ (ts, in_text (t ++ (c ∷ [])))
lex_byte-plain c t ts (quote, slash, control) = rw (quote, slash, control) refl

lex_byte-escape :
    (c : ℕ) (t : Bytes) (ts : List Token)
    → (c == 34 || c == 92) ≡ true
    → lex_byte ts (in_escape t) c ≡ (ts, in_text (t ++ (c ∷ [])))
lex_byte-escape c t ts e = rw e refl

pub lex-j_chars :
    (v t : Bytes) (ts : List Token)
    → lex (concat (j_chars v)) (ts, in_text t) ≡ (ts, in_text (t ++ kept v))
unfolding j_chars
lex-j_chars [] t ts = ap (λ x. (ts, in_text x)) (sym (append-nil t))
lex-j_chars (c ∷ v) t ts = elim (Bool-cases (c == 34 || c == 92)) [
  | inl e ↦
      let visible : ltb c 0x20 ≡ false = ground arith in
      rw (e, visible)
        (ap (lex (concat (j_chars v))) (lex_byte-escape c t ts e)
          ∙ lex-j_chars v (t ++ (c ∷ [])) ts
          ∙ snoc c (kept v) t ts)
  | inr e ↦
      let quote : (c == 34) ≡ false = ground arith in
      let slash : (c == 92) ≡ false = ground arith in
      rw e (elim (Bool-cases (ltb c 0x20)) [
        | inl l ↦ rw l (lex-j_chars v t ts)
        | inr l ↦ rw l (
            ap (lex (concat (j_chars v))) (lex_byte-plain c t ts (quote, slash, l))
            ∙ lex-j_chars v (t ++ (c ∷ [])) ts
            ∙ snoc c (kept v) t ts)
      ])
]

-- Reading goes on behind a text in a string, and behind a word.
pub text_then :
    (s rest : Bytes) (ts : List Token)
    → IsPlain s
    → lex (s ++ rest) (ts, in_text []) ≡ lex rest (ts, in_text s)
text_then s rest ts h = lex-append s rest (ts, in_text []) ∙ ap (lex rest) (lex-IsPlain s [] ts h)

pub lex-word : (w : Bytes) (ts : List Token) → IsWord w → lex w (ts, outside) ≡ (ts, in_word w)
lex-word [] ts h = absurd h
lex-word (c ∷ s) ts (hc, hs) =
    let quote : (c == 34) ≡ false = ground arith in
    let blank : is_blank c ≡ false = ground arith in
    let mark : is_punct c ≡ false = ground arith in
    rw (quote, blank, mark) (lex-IsWord s (c ∷ []) ts hs)

pub word_then :
    (w rest : Bytes) (ts : List Token)
    → IsWord w
    → lex (w ++ rest) (ts, outside) ≡ lex rest (ts, in_word w)
word_then w rest ts h = lex-append w rest (ts, outside) ∙ ap (lex rest) (lex-word w ts h)

-- A state that stands for the tokens is reached.
pub reached :
    (us : List Token) {st st' : List Token × Mode} → st ≡ st' → Stands us st' → Stands us st
reached us e h = subst (Stands us) (sym e) h

pub concat-append : (ps qs : List Bytes) → concat (ps ++ qs) ≡ concat ps ++ concat qs
concat-append [] qs = refl
concat-append (p ∷ ps) qs =
    ap (λ t. p ++ t) (concat-append ps qs) ∙ sym (append_assoc p (concat ps) (concat qs))

-- Literal text up to a word, and the word.
pub lit_word :
    (c : ℕ) (lit w : Bytes) (new : List Token)
    → is_delim c ≡ true
    → ((ts : List Token) → lex (c ∷ lit) (ts, outside) ≡ (push_all new ts, outside))
    → IsWord w
    → Reads ((c ∷ lit) ++ w) (new ++ literal w)
lit_word c lit w new apart h hw = record {
  apart = apart;
  read = λ ts. rw (push_all-append new (literal w) ts) (
      reached (word w ∷ push_all new ts)
        (lex-append (c ∷ lit) w (ts, outside) ∙ ap (lex w) (h ts) ∙ lex-word w (push_all new ts) hw)
        refl);
}

-- Literal text up to the middle of a string, the rest of the string, and the quote at its end.
pub lit_text :
    (c : ℕ) (lit t s : Bytes) (new : List Token)
    → is_delim c ≡ true
    → ((ts : List Token) → lex (c ∷ lit) (ts, outside) ≡ (push_all new ts, in_text t))
    → IsPlain s
    → Reads ((c ∷ lit) ++ (s ++ codes "\"")) (new ++ string (t ++ s))
lit_text c lit t s new apart h plain = record {
  apart = apart;
  read = λ ts. rw (push_all-append new (string (t ++ s)) ts) (
      reached (quoted (t ++ s) ∷ push_all new ts)
        (lex-append (c ∷ lit) (s ++ codes "\"") (ts, outside)
          ∙ ap (lex (s ++ codes "\"")) (h ts)
          ∙ lex-append s (codes "\"") (push_all new ts, in_text t)
          ∙ ap (lex (codes "\"")) (lex-IsPlain s t (push_all new ts) plain))
        refl);
}
