-- ===== src/Emit/Run/Array.antt =====
-- What a run with several variants of bench/src/bench.c prints as JSON.
use cross_platform_benchmark.Prelude.{
  ℕ, suc, ◌+◌, ◌^◌, ◌<◌, ◌≡◌, inl, inr, refl, ap, ap₂, ◌∙◌, sym, subst, Bool, true, false, ◌&&◌,
  List, [], ◌∷◌, ◌++◌, Option, none, some, Bytes, codes, ltb, ◌==◌, if◌then◌else◌, length,
  true-false, arith, append_assoc, append-nil,
}
use cross_platform_benchmark.Emit.{concat}
use cross_platform_benchmark.Emit.Buffer.Grown.{jouts-text}
use cross_platform_benchmark.Emit.Run.{Printed, Entry, run_variant, run_variants, then_printed}
use cross_platform_benchmark.Emit.Lexer.{Token, punct, Reads, Reads-append}
use cross_platform_benchmark.Emit.Written.{items, array}

-- What a variant's calls print, as a text of less than 2 GiB.
pub record Reported (v : Entry) (toks : List Token) : Type 0 where
  pub reads : Reads (concat v.calls) toks
  pub short : length (concat v.calls) < 2 ^ 31

abbrev pub AllReported : List Entry → List (List Token) → Type 0
AllReported [] [] = Unit
AllReported [] (t ∷ ts) = ⊥
AllReported (v ∷ vs) [] = ⊥
AllReported (v ∷ vs) (t ∷ ts) = Reported v t × AllReported vs ts

-- With memory for every size, the document of a variant is whole.
run_variant-text :
    (realloc : ℕ → Bool) (idx n_sel : ℕ) (submit : Bool) (v : Entry) (toks : List Token)
    → ((n : ℕ) → realloc n ≡ true)
    → Reported v toks
    → run_variant realloc true submit idx n_sel v
      ≡ some (record {
        stdout =
            (if ltb 1 n_sel then (if idx == 0 then codes "[\n" else codes ",\n") else [])
            ++ (concat v.calls ++ (if ltb 1 n_sel && idx + 1 == n_sel then codes "]\n" else []));
        submitted =
            if submit then (concat v.calls, if ltb 1 n_sel then v.name else []) ∷ [] else [];
      })
unfolding run_variant
run_variant-text realloc idx n_sel submit v toks memory r =
    elim (jouts-text realloc v.calls r.short) [
      | inl (whole, text) ↦ rw (whole, text) refl
      | inr (oom, (n, refused)) ↦ absurd (true-false (sym (memory n) ∙ refused))
    ]

-- Values, each after a comma.
abbrev commas : List (List Token) → List Token
commas [] = []
commas (t ∷ ts) = punct b',' ∷ (t ++ commas ts)

items-commas : (t : List Token) (ts : List (List Token)) → items (t ∷ ts) ≡ t ++ commas ts
items-commas t [] = sym (append-nil t)
items-commas t (u ∷ ts) = ap (λ x. t ++ (punct b',' ∷ x)) (items-commas u ts)

in_front :
    (t : List Token) (ts : List (List Token))
    → (t ++ []) ++ (commas ts ++ (punct b']' ∷ [])) ≡ (t ++ commas ts) ++ (punct b']' ∷ [])
in_front t ts =
    ap (λ x. x ++ (commas ts ++ (punct b']' ∷ []))) (append-nil t)
    ∙ sym (append_assoc t (commas ts) (punct b']' ∷ []))

-- The documents that go to a hub.
abbrev pub sent : Bool → ℕ → List Entry → List (Bytes × Bytes)
sent submit n_sel [] = []
sent submit n_sel (v ∷ vs) =
    (if submit then (concat v.calls, if ltb 1 n_sel then v.name else []) ∷ [] else [])
    ++ sent submit n_sel vs

-- What is printed from a variant on.
abbrev pub Prints : Bool → ℕ → List Entry → List Token → Option Printed → Type 0
Prints submit n_sel vs toks none = ⊥
Prints submit n_sel vs toks (some p) = Reads p.stdout toks × (p.submitted ≡ sent submit n_sel vs)

abbrev no_output : Printed
no_output = record { stdout = []; submitted = [] }

-- A variant in front of others.
then-Prints :
    (submit : Bool) (n_sel : ℕ) (v : Entry) (vs : List Entry) (p : Printed) (q : Option Printed)
    (ss ts : List Token)
    → Reads p.stdout ss
    → p.submitted
      ≡ (if submit then (concat v.calls, if ltb 1 n_sel then v.name else []) ∷ [] else [])
    → Prints submit n_sel vs ts q
    → Prints submit n_sel (v ∷ vs) (ss ++ ts) (then_printed (some p) q)
then-Prints submit n_sel v vs p none ss ts r e h = absurd h
then-Prints submit n_sel v vs p (some q) ss ts r e (rq, eq) =
    (Reads-append r rq, ap₂ (λ (x y : List (Bytes × Bytes)). x ++ y) e eq)

-- One document, or an array of several.
abbrev pub values : List (List Token) → List Token
values [] = []
values (t ∷ []) = t
values (t ∷ u ∷ ts) = array (t ∷ u ∷ ts)

module _ (realloc : ℕ → Bool) (memory : (n : ℕ) → realloc n ≡ true) (submit : Bool) where
  comma_line : Reads (codes ",\n") (punct b',' ∷ [])
  comma_line = record { apart = refl; read = λ ts. refl }

  close_line : Reads (codes "]\n") (punct b']' ∷ [])
  close_line = record { apart = refl; read = λ ts. refl }

  open_line : Reads (codes "[\n") (punct b'[' ∷ [])
  open_line = record { apart = refl; read = λ ts. refl }

  nothing : Reads [] []
  nothing = record { apart = tt; read = λ ts. refl }

  -- What a variant's documents are sent as.
  abbrev sends : ℕ → Entry → List (Bytes × Bytes)
  sends n_sel v = if submit then (concat v.calls, if ltb 1 n_sel then v.name else []) ∷ [] else []

  -- A variant whose document stands between two texts, in front of others.
  between :
      {pre post : Bytes} {a b : List Token} (idx n_sel : ℕ) (v : Entry) (vs : List Entry)
      (t ts us : List Token) (q : Option Printed)
      → run_variant realloc true submit idx n_sel v
        ≡ some (record { stdout = pre ++ (concat v.calls ++ post); submitted = sends n_sel v })
      → Reads pre a
      → Reads post b
      → Reported v t
      → (a ++ (t ++ b)) ++ us ≡ ts
      → Prints submit n_sel vs us q
      → Prints submit n_sel
          (v ∷ vs)
          ts
          (then_printed (run_variant realloc true submit idx n_sel v) q)
  between {pre} {post} {a} {b} idx n_sel v vs t ts us q made ra rb r e h =
      let p : Printed = record {
        stdout = pre ++ (concat v.calls ++ post);
        submitted = sends n_sel v;
      } in
      subst (λ x. Prints submit n_sel (v ∷ vs) ts (then_printed x q)) (sym made)
        (subst (λ x. Prints submit n_sel (v ∷ vs) x (then_printed (some p) q)) e
          (then-Prints submit n_sel v vs p q (a ++ (t ++ b)) us
            (Reads-append ra (Reads-append r.reads rb)) refl h))

  later-Prints :
      (idx n_sel : ℕ) (v : Entry) (vs : List Entry) (t : List Token) (ts : List (List Token))
      → 0 < idx
      → 1 < n_sel
      → idx + length (v ∷ vs) ≡ n_sel
      → AllReported (v ∷ vs) (t ∷ ts)
      → Prints submit n_sel
          (v ∷ vs)
          (commas (t ∷ ts) ++ (punct b']' ∷ []))
          (run_variants realloc true submit idx n_sel (v ∷ vs))
  unfolding run_variants
  later-Prints idx n_sel v [] t [] pos many count (r, rs) =
      let several : ltb 1 n_sel ≡ true = ground arith in
      let later : (idx == 0) ≡ false = ground arith in
      let last : (idx + 1 == n_sel) ≡ true = ground arith in
      between idx n_sel v [] t (commas (t ∷ []) ++ (punct b']' ∷ [])) [] (some no_output)
        (run_variant-text realloc idx n_sel submit v t memory r ∙ rw (several, later, last) refl)
        comma_line close_line r
        (append-nil _ ∙ ap (λ x. punct b',' ∷ (x ++ (punct b']' ∷ []))) (sym (append-nil t)))
        (nothing, refl)
  later-Prints idx n_sel v [] t (u ∷ ts) pos many count (r, rs) = absurd rs
  later-Prints idx n_sel v (w ∷ vs) t [] pos many count (r, rs) = absurd rs
  later-Prints idx n_sel v (w ∷ vs) t (u ∷ ts) pos many count (r, rs) =
      let several : ltb 1 n_sel ≡ true = ground arith in
      let later : (idx == 0) ≡ false = ground arith in
      let last : (idx + 1 == n_sel) ≡ false = ground arith in
      between idx n_sel v (w ∷ vs) t (commas (t ∷ u ∷ ts) ++ (punct b']' ∷ []))
        (commas (u ∷ ts) ++ (punct b']' ∷ []))
        (run_variants realloc true submit (suc idx) n_sel (w ∷ vs))
        (run_variant-text realloc idx n_sel submit v t memory r ∙ rw (several, later, last) refl)
        comma_line nothing r (ap (λ x. punct b',' ∷ x) (in_front t (u ∷ ts)))
        (later-Prints (suc idx) n_sel w vs u ts (omega arith) many (omega arith) rs)

  pub run_variants-Prints :
      (v : Entry) (vs : List Entry) (ts : List (List Token))
      → AllReported (v ∷ vs) ts
      → Prints submit
          (length (v ∷ vs))
          (v ∷ vs)
          (values ts)
          (run_variants realloc true submit 0 (length (v ∷ vs)) (v ∷ vs))
  unfolding run_variants
  run_variants-Prints v vs [] h = absurd h
  run_variants-Prints v [] (t ∷ []) (r, rs) =
      between 0 1 v [] t t [] (some no_output) (run_variant-text realloc 0 1 submit v t memory r)
        nothing nothing r (append-nil (t ++ []) ∙ append-nil t) (nothing, refl)
  run_variants-Prints v [] (t ∷ u ∷ ts) (r, rs) = absurd rs
  run_variants-Prints v (w ∷ vs) (t ∷ []) (r, rs) = absurd rs
  run_variants-Prints v (w ∷ vs) (t ∷ u ∷ ts) (r, rs) =
      let n = length (v ∷ w ∷ vs) in
      let several : ltb 1 n ≡ true = ground arith in
      let last : (0 + 1 == n) ≡ false = ground arith in
      between 0 n v (w ∷ vs) t (array (t ∷ u ∷ ts)) (commas (u ∷ ts) ++ (punct b']' ∷ []))
        (run_variants realloc true submit 1 n (w ∷ vs))
        (run_variant-text realloc 0 n submit v t memory r ∙ rw (several, last) refl) open_line
        nothing r
        (ap (λ x. punct b'[' ∷ x)
          (in_front t (u ∷ ts) ∙ ap (λ x. x ++ (punct b']' ∷ [])) (sym (items-commas t (u ∷ ts)))))
        (later-Prints 1 n w vs u ts (omega arith) (omega arith) (omega arith) rs)
