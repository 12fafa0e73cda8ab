-- ===== src/Emit/Written.antt =====
-- What the pieces of a JSON document of bench/src/bench.c are read as: the words and strings, the
-- members that `j_num` and `j_str` print, and the objects and arrays that they make up.
pub mod Words
pub use Words.*
use cross_platform_benchmark.Prelude.{
  ℕ, ◌≤◌, ◌≡◌, refl, ap, ◌∙◌, sym, subst, Bool, true, false, not, ◌&&◌, ◌||◌, List, [], ◌∷◌, ◌++◌,
  Bytes, codes, ltb, ◌==◌, if◌then◌else◌, Bool-cases, true-false, inl, inr, All, append_assoc,
  append-nil, arith, decimal, decimal_digits_lem, decimal_some,
}
use cross_platform_benchmark.Score.{Double, is_positive}
use cross_platform_benchmark.Emit.{Show, concat}
use cross_platform_benchmark.Emit.Json.{j_chars, j_str, j_num}
use cross_platform_benchmark.Emit.Lexer.{
  Token, punct, quoted, word, Mode, outside, in_word, in_text, in_escape, is_delim, is_blank,
  is_punct, lex_byte, lex, push_all, Stands, Reads, lex-append, push_all-append, Reads-append,
}

-- The text of the calls is read as these tokens.
pub record Prints (ps : List Bytes) (new : List Token) : Type 0 where
  pub reads : Reads (concat ps) new

-- The text of the calls is read as these members, each after a comma.
pub record Writes (ps : List Bytes) (ms : List Member) : Type 0 where
  pub prints : Prints ps (further ms)

pub Prints-same : {ps : List Bytes} {ss ts : List Token} → ss ≡ ts → Prints ps ss → Prints ps ts
Prints-same {ps} e x = subst (λ t. Prints ps t) e x

pub Prints-append :
    {ps qs : List Bytes} {ss ts : List Token}
    → Prints ps ss
    → Prints qs ts
    → Prints (ps ++ qs) (ss ++ ts)
Prints-append {ps} {qs} {ss} {ts} x y = record {
  reads =
      subst (λ x. Reads x (ss ++ ts)) (sym (concat-append ps qs)) (Reads-append x.reads y.reads);
}

pub Prints-call : {p : Bytes} {ts : List Token} → Reads p ts → Prints (p ∷ []) ts
Prints-call {p} {ts} r = record { reads = subst (λ x. Reads x ts) (sym (append-nil p)) r }

further-append : (ms ns : List Member) → further (ms ++ ns) ≡ further ms ++ further ns
further-append [] ns = refl
further-append (m ∷ ms) ns =
    ap (λ t. (punct b',' ∷ member m) ++ t) (further-append ms ns)
    ∙ sym (append_assoc (punct b',' ∷ member m) (further ms) (further ns))

pub Writes-append :
    {ps qs : List Bytes} {ms ns : List Member}
    → Writes ps ms
    → Writes qs ns
    → Writes (ps ++ qs) (ms ++ ns)
Writes-append {ps} {qs} {ms} {ns} x y = record {
  prints =
      subst (λ t. Prints (ps ++ qs) t) (sym (further-append ms ns))
        (Prints-append x.prints y.prints);
}

pub no_Writes : Writes [] []
no_Writes = record { prints = record { reads = record { apart = tt; read = λ ts. refl } } }

-- The rest of an object: further members, then other tokens.
pub record Rest (ps : List Bytes) (ms : List Member) (end : List Token) : Type 0 where
  pub prints : Prints ps (further ms ++ end)

pub close_object : Rest (codes " }" ∷ []) [] (punct b'}' ∷ [])
close_object = record { prints = Prints-call (record { apart = refl; read = λ ts. refl }) }

pub Writes-then :
    {ps qs : List Bytes} {ms ns : List Member} {end : List Token}
    → Writes ps ms
    → Rest qs ns end
    → Rest (ps ++ qs) (ms ++ ns) end
Writes-then {ps} {qs} {ms} {ns} {end} x y = record {
  prints =
      subst (λ t. Prints (ps ++ qs) t)
        (sym
          (ap (λ t. t ++ end) (further-append ms ns) ∙ append_assoc (further ms) (further ns) end))
        (Prints-append x.prints y.prints);
}

pub member-Writes :
    {ps : List Bytes} {key : Bytes} {value : List Token}
    → Prints ps (punct b',' ∷ member (key, value))
    → Writes ps ((key, value) ∷ [])
member-Writes {ps} {key} {value} x = record {
  prints = subst (λ t. Prints ps t) (sym (append-nil (punct b',' ∷ member (key, value)))) x;
}

-- A member whose value is an object, from the call that opens it.
pub object-Writes :
    {p : Bytes} {qs : List Bytes} {key : Bytes} {m : Member} {ns : List Member}
    → Reads p ((punct b',' ∷ quoted key ∷ punct b':' ∷ punct b'{' ∷ []) ++ member m)
    → Rest qs ns (punct b'}' ∷ [])
    → Writes (p ∷ qs) ((key, object m ns) ∷ [])
object-Writes x y = member-Writes (Prints-append (Prints-call x) y.prints)

pub j_str-Writes :
    (key v : Bytes) → is_plain_text key ≡ true → Writes (j_str key v) ((key, string (kept v)) ∷ [])
unfolding j_str
j_str-Writes key v ok =
    let h = is_plain_text-IsPlain key ok in
    let end = codes "\"" in
    let all : Reads (concat (j_str key v)) (punct b',' ∷ member (key, string (kept v))) = record {
      apart = refl;
      read = λ ts.
          let opened = punct b',' ∷ ts in
          let named = punct b':' ∷ quoted key ∷ opened in
          reached (quoted (kept v) ∷ named)
            (ap (λ x. lex x (opened, in_text []))
                (append_assoc key (codes "\": \"") (concat (j_chars v ++ (end ∷ []))))
              ∙ text_then key (codes "\": \"" ++ concat (j_chars v ++ (end ∷ []))) opened h
              ∙ ap (λ x. lex x (named, in_text [])) (concat-append (j_chars v) (end ∷ []))
              ∙ lex-append (concat (j_chars v)) end (named, in_text [])
              ∙ ap (lex end) (lex-j_chars v [] named))
            refl;
    } in
    record { prints = record { reads = all } }

-- A member that one call prints, with a word for its value.
pub word-Writes :
    (key w : Bytes)
    → is_plain_text key ≡ true
    → IsWord w
    → Writes ((codes ", \"" ++ (key ++ (codes "\": " ++ w))) ∷ []) ((key, literal w) ∷ [])
word-Writes key w ok hw =
    let hk = is_plain_text-IsPlain key ok in
    let all : Reads (codes ", \"" ++ (key ++ (codes "\": " ++ w)))
        (punct b',' ∷ member (key, literal w)) =
      record {
        apart = refl;
        read = λ ts.
            let named = punct b':' ∷ quoted key ∷ punct b',' ∷ ts in
            reached (word w ∷ named)
              (text_then key (codes "\": " ++ w) (punct b',' ∷ ts) hk ∙ lex-word w named hw) refl;
      } in
    record { prints = Prints-call all }

-- The value that a number is given: `null` where it was not measured.
abbrev pub number : {D : Type 0} → Double D → Show D → D → Bool → List Token
number F show v ok = literal (if ok && is_positive F v then show.six v else codes "null")

module _ {D : Type 0} (F : Double D) (show : Show D) (six : (v : D) → IsWord (show.six v)) where
  pub j_num-Writes :
      (key : Bytes) (v : D) (ok : Bool)
      → is_plain_text key ≡ true
      → Writes (j_num F show key v ok) ((key, number F show v ok) ∷ [])
  unfolding j_num
  j_num-Writes key v ok h = elim (Bool-cases (ok && is_positive F v)) [
    | inl t ↦ rw t (word-Writes key (show.six v) h (six v))
    | inr f ↦ rw f (word-Writes key (codes "null") h (refl, (refl, (refl, (refl, tt)))))
  ]
