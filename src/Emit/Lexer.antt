-- ===== src/Emit/Lexer.antt =====
-- How a reader takes a JSON text apart, byte by byte: the punctuation, the strings with their escapes
-- undone, and the words between them, which are the numbers and `true`, `false` and `null`. It reads
-- the escapes `\"` and `\\`, and refuses a control character in a string.
use cross_platform_benchmark.Prelude.{
  ℕ, ◌≡◌, refl, ap, ◌∙◌, sym, subst, Bool, true, ◌||◌, List, [], ◌∷◌, ◌++◌, Option, none, some,
  Bytes, ltb, ◌==◌, if◌then◌else◌, append-nil,
}

pub data Token : Type 0 where
  punct : ℕ → Token
  quoted : Bytes → Token
  word : Bytes → Token

-- Between tokens, or what there is so far of a word or a string; `broken` is no JSON.
pub data Mode : Type 0 where
  outside : Mode
  in_word : Bytes → Mode
  in_text : Bytes → Mode
  in_escape : Bytes → Mode
  broken : Mode

abbrev pub is_blank : ℕ → Bool
is_blank c = c == 32 || (c == 10 || (c == 9 || c == 13))

abbrev pub is_punct : ℕ → Bool
is_punct c = c == b'{' || (c == b'}' || (c == b'[' || (c == b']' || (c == b',' || c == b':'))))

-- What ends a word.
abbrev pub is_delim : ℕ → Bool
is_delim c = c == 34 || (is_blank c || is_punct c)

-- The tokens are the latest first.
abbrev pub outside_byte : ℕ → List Token → List Token × Mode
outside_byte c toks =
    if c == 34
    then (toks, in_text [])
    else if is_blank c
    then (toks, outside)
    else if is_punct c
    then (punct c ∷ toks, outside)
    else (toks, in_word (c ∷ []))

abbrev pub lex_byte : List Token → Mode → ℕ → List Token × Mode
lex_byte toks outside c = outside_byte c toks
lex_byte toks (in_word w) c =
    if is_delim c then outside_byte c (word w ∷ toks) else (toks, in_word (w ++ (c ∷ [])))
lex_byte toks (in_text s) c =
    if c == 34
    then (quoted s ∷ toks, outside)
    else if c == 92
    then (toks, in_escape s)
    else if ltb c 0x20
    then (toks, broken)
    else (toks, in_text (s ++ (c ∷ [])))
lex_byte toks (in_escape s) c =
    if c == 34 || c == 92 then (toks, in_text (s ++ (c ∷ []))) else (toks, broken)
lex_byte toks broken c = (toks, broken)

abbrev pub lex : Bytes → List Token × Mode → List Token × Mode
lex [] st = st
lex (c ∷ s) st = lex s (lex_byte st.0 st.1 c)

-- `toks` in front of the tokens that were read before them, and the other way round.
abbrev pub push_all : List Token → List Token → List Token
push_all [] toks = toks
push_all (t ∷ ts) toks = push_all ts (t ∷ toks)

abbrev pub finish : List Token × Mode → Option (List Token)
finish (toks, outside) = some (push_all toks [])
finish (toks, in_word w) = some (push_all (word w ∷ toks) [])
finish (toks, in_text s) = none
finish (toks, in_escape s) = none
finish (toks, broken) = none

-- The tokens of a text, in their order.
abbrev pub tokens : Bytes → Option (List Token)
tokens text = finish (lex text ([], outside))

pub lex-append : (a b : Bytes) (st : List Token × Mode) → lex (a ++ b) st ≡ lex b (lex a st)
lex-append [] b st = refl
lex-append (c ∷ a) b st = lex-append a b (lex_byte st.0 st.1 c)

pub push_all-append :
    (ss ts us : List Token) → push_all (ss ++ ts) us ≡ push_all ts (push_all ss us)
push_all-append [] ts us = refl
push_all-append (s ∷ ss) ts us = push_all-append ss ts (s ∷ us)

pub push_all_twice :
    (ts acc us : List Token) → push_all (push_all ts acc) us ≡ push_all acc (ts ++ us)
push_all_twice [] acc us = refl
push_all_twice (t ∷ ts) acc us = push_all_twice ts (t ∷ acc) us

-- The state after the tokens `ts`, the latest first: the last may be a word that could go on.
abbrev pub Stands : List Token → List Token × Mode → Type 0
Stands ts (toks, outside) = toks ≡ ts
Stands ts (toks, in_word w) = (word w ∷ toks) ≡ ts
Stands ts (toks, in_text s) = ⊥
Stands ts (toks, in_escape s) = ⊥
Stands ts (toks, broken) = ⊥

-- What cannot go on with a word before it.
abbrev pub IsApart : Bytes → Type 0
IsApart [] = Unit
IsApart (c ∷ s) = is_delim c ≡ true

-- The text is read as these tokens, whatever was read before it.
pub record Reads (text : Bytes) (new : List Token) : Type 0 where
  pub apart : IsApart text
  pub read : (ts : List Token) → Stands (push_all new ts) (lex text (ts, outside))

-- From a word that cannot go on, reading continues as from between two tokens.
resume :
    (b : Bytes) (ts us : List Token) (st : List Token × Mode)
    → IsApart b
    → Stands ts st
    → Stands us (lex b (ts, outside))
    → Stands us (lex b st)
resume [] ts us st apart h goal = subst (λ (x : List Token). Stands x st) goal h
resume (c ∷ b) ts us (toks, outside) apart h goal =
    subst (λ (x : List Token). Stands us (lex (c ∷ b) (x, outside))) (sym h) goal
resume (c ∷ b) ts us (toks, in_word w) apart h goal =
    rw apart (subst (λ (x : List Token). Stands us (lex (c ∷ b) (x, outside))) (sym h) goal)
resume (c ∷ b) ts us (toks, in_text s) apart h goal = absurd h
resume (c ∷ b) ts us (toks, in_escape s) apart h goal = absurd h
resume (c ∷ b) ts us (toks, broken) apart h goal = absurd h

IsApart-append : (a b : Bytes) → IsApart a → IsApart b → IsApart (a ++ b)
IsApart-append [] b ha hb = hb
IsApart-append (c ∷ a) b ha hb = ha

pub Reads-append :
    {a b : Bytes} {ss ts : List Token} → Reads a ss → Reads b ts → Reads (a ++ b) (ss ++ ts)
Reads-append {a} {b} {ss} {ts} x y = record {
  apart = IsApart-append a b x.apart y.apart;
  read = λ us.
      rw (push_all-append ss ts us, lex-append a b (us, outside))
        (resume b (push_all ss us) (push_all ts (push_all ss us)) (lex a (us, outside)) y.apart
          (x.read us) (y.read (push_all ss us)));
}

finish-Stands :
    (us : List Token) (st : List Token × Mode) → Stands us st → finish st ≡ some (push_all us [])
finish-Stands us (toks, outside) h = ap (λ x. some (push_all x [])) h
finish-Stands us (toks, in_word w) h = ap (λ x. some (push_all x [])) h
finish-Stands us (toks, in_text s) h = absurd h
finish-Stands us (toks, in_escape s) h = absurd h
finish-Stands us (toks, broken) h = absurd h

-- A text that is read as these tokens has these tokens.
pub tokens-Reads : (text : Bytes) (ts : List Token) → Reads text ts → tokens text ≡ some ts
tokens-Reads text ts r =
    finish-Stands (push_all ts []) (lex text ([], outside)) (r.read [])
    ∙ ap some (push_all_twice ts [] [] ∙ append-nil ts)
