-- ===== src/Cpu/Models.antt =====
-- The list of names that `models_add` of bench/src/bench.c builds, against a list without repetition.
use cross_platform_benchmark.Prelude.{
  ℕ, zero, suc, ◌+◌, ◌-◌, ◌≤◌, ◌<◌, Bool, true, false, ◌||◌, List, [], ◌∷◌, ◌++◌, Bytes, some, none,
  leb, ◌==◌, if◌then◌else◌, length, length-append, take_all, take_append, drop, drop_append, foldl,
  str_eq, find_str, All, All-append, ◌≡◌, refl, ap, ap₂, ◌∙◌, sym, subst, if-cases, Bool-cases, inl,
  inr, arith, append_assoc,
}
use cross_platform_benchmark.Cpu.{separator, has_element, separated, models_add, element_end}

-- A name that has a byte, and no plus sign.
abbrev pub IsNoPlus : ℕ → Type 0
IsNoPlus c = (c == b'+') ≡ false

abbrev pub IsPlain : Bytes → Type 0
IsPlain [] = ⊥
IsPlain (c ∷ s) = IsNoPlus c × All IsNoPlus s

abbrev pub joined : List Bytes → Bytes
joined [] = []
joined (d ∷ []) = d
joined (d ∷ e ∷ ds) = d ++ (separator ++ joined (e ∷ ds))

abbrev pub occurs : Bytes → List Bytes → Bool
occurs name [] = false
occurs name (d ∷ ds) = str_eq d name || occurs name ds

-- The names behind those of `ds`, each the first time that it occurs.
abbrev pub without_repeats : List Bytes → List Bytes → List Bytes
without_repeats ds [] = ds
without_repeats ds (n ∷ ns) =
    let known = without_repeats ds ns in
    let fresh = without_repeats (ds ++ (n ∷ [])) ns in if occurs n ds then known else fresh

find_none : (s : Bytes) → All IsNoPlus s → find_str separator s ≡ none
unfolding find_str
find_none [] h = refl
find_none (x ∷ []) h = ground arith
find_none (x ∷ y ∷ s) (hx, (hy, h)) = rw (hy, find_none (y ∷ s) (hy, h)) (ground arith)

find_at :
    (d rest : Bytes)
    → All IsNoPlus d
    → find_str separator (d ++ (separator ++ rest)) ≡ some (length d)
unfolding find_str
find_at [] rest h = refl
find_at (x ∷ []) rest h = ground arith
find_at (x ∷ y ∷ d) rest (hx, (hy, h)) = rw (hy, find_at (y ∷ d) rest (hy, h)) (ground arith)

drop_past : (d rest : Bytes) → drop (length d + 3) (d ++ (separator ++ rest)) ≡ rest
drop_past d rest =
    ap (λ n. drop n (d ++ (separator ++ rest))) (sym (length-append d separator))
    ∙ ap (drop (length (d ++ separator))) (sym (append_assoc d separator rest))
    ∙ drop_append (d ++ separator) rest

-- The search compares the name with every element.
has_element-joined :
    (fuel : ℕ) (ds : List Bytes) (name : Bytes)
    → All IsPlain ds
    → length (joined ds) < fuel
    → has_element fuel (joined ds) name ≡ occurs name ds
unfolding has_element
has_element-joined zero ds name h enough = absurd (omega arith)
has_element-joined (suc fuel) [] name h enough = refl
has_element-joined (suc fuel) ([] ∷ ds) name (hd, h) enough = absurd hd
has_element-joined (suc fuel) ((c ∷ d) ∷ []) name (hd, h) enough =
    rw (find_none (c ∷ d) hd, element_end)
      (ap (λ t. str_eq t name || false) (take_all (c ∷ d) (length (c ∷ d)) (omega arith)))
has_element-joined (suc fuel) ((c ∷ d) ∷ e ∷ ds) name (hd, h) enough =
    let rest = joined (e ∷ ds) in
    let size = length-append (c ∷ d) (separator ++ rest) in
    rw (find_at (c ∷ d) rest hd, element_end)
      (ap₂ (λ t b. str_eq t name || b) (take_append (c ∷ d) (separator ++ rest))
        (ap (λ p. has_element fuel p name) (drop_past (c ∷ d) rest)
          ∙ has_element-joined fuel (e ∷ ds) name h
              (omega (arith, size, length-append separator rest))))

append_separated :
    (y : ℕ) (e : Bytes) (ds : List Bytes) (name : Bytes)
    → joined ((y ∷ e) ∷ ds) ++ (separator ++ name) ≡ separated (joined ((y ∷ e) ∷ ds)) name
append_separated y e [] name = refl
append_separated y e (f ∷ ds) name = refl

joined-snoc :
    (ds : List Bytes) (c : ℕ) (name : Bytes)
    → All IsPlain ds
    → separated (joined ds) (c ∷ name) ≡ joined (ds ++ ((c ∷ name) ∷ []))
joined-snoc [] c name h = refl
joined-snoc ([] ∷ ds) c name (hd, h) = absurd hd
joined-snoc ((x ∷ d) ∷ []) c name h = refl
joined-snoc ((x ∷ d) ∷ [] ∷ ds) c name (hd, (he, h)) = absurd he
joined-snoc ((x ∷ d) ∷ (y ∷ e) ∷ ds) c name (hd, h) =
    append_assoc (x ∷ d) (separator ++ joined ((y ∷ e) ∷ ds)) (separator ++ (c ∷ name))
    ∙ ap (λ t. (x ∷ d) ++ (separator ++ t))
        (append_separated y e ds (c ∷ name) ∙ joined-snoc ((y ∷ e) ∷ ds) c name h)

length-joined-snoc :
    (ds : List Bytes) (name : Bytes)
    → length (joined ds) + length name ≤ length (joined (ds ++ (name ∷ [])))
length-joined-snoc [] name = omega arith
length-joined-snoc (d ∷ []) name =
    omega (arith, length-append d (separator ++ name), length-append separator name)
length-joined-snoc (d ∷ e ∷ ds) name =
    let more = joined ((e ∷ ds) ++ (name ∷ [])) in
    omega (
      arith,
      length-joined-snoc (e ∷ ds) name,
      length-append d (separator ++ joined (e ∷ ds)),
      length-append separator (joined (e ∷ ds)),
      length-append d (separator ++ more),
      length-append separator more,
    )

length-without_repeats :
    (ds ns : List Bytes) → length (joined ds) ≤ length (joined (without_repeats ds ns))
length-without_repeats ds [] = omega arith
length-without_repeats ds (n ∷ ns) =
    if-cases (λ r. length (joined ds) ≤ length (joined r)) (occurs n ds)
      (λ _. length-without_repeats ds ns)
      (λ _. omega (arith, length-joined-snoc ds n, length-without_repeats (ds ++ (n ∷ [])) ns))

known_name :
    (outsz : ℕ) (ds : List Bytes) (c : ℕ) (name : Bytes)
    → All IsPlain ds
    → occurs (c ∷ name) ds ≡ true
    → models_add (joined ds) outsz (c ∷ name) ≡ joined ds
unfolding models_add
known_name outsz ds c name h e =
    rw (has_element-joined (suc (length (joined ds))) ds (c ∷ name) h (omega arith), e) refl

fresh_name :
    (outsz : ℕ) (ds : List Bytes) (c : ℕ) (name : Bytes)
    → All IsPlain ds
    → occurs (c ∷ name) ds ≡ false
    → length (joined (ds ++ ((c ∷ name) ∷ []))) < outsz
    → models_add (joined ds) outsz (c ∷ name) ≡ joined (ds ++ ((c ∷ name) ∷ []))
unfolding models_add
fresh_name outsz ds c name h e fits =
    let longer = joined (ds ++ ((c ∷ name) ∷ [])) in
    let enough : leb outsz (length (joined ds) + 1) ≡ false =
      ground (arith, length-joined-snoc ds (c ∷ name)) in
    rw
      (
        has_element-joined (suc (length (joined ds))) ds (c ∷ name) h (omega arith),
        e,
        enough,
        joined-snoc ds c name h,
      )
      (take_all longer (outsz - 1) (omega arith))

without_repeats-known :
    (ds ns : List Bytes) (n : Bytes)
    → occurs n ds ≡ true
    → without_repeats ds (n ∷ ns) ≡ without_repeats ds ns
without_repeats-known ds ns n e = rw e refl

without_repeats-fresh :
    (ds ns : List Bytes) (n : Bytes)
    → occurs n ds ≡ false
    → without_repeats ds (n ∷ ns) ≡ without_repeats (ds ++ (n ∷ [])) ns
without_repeats-fresh ds ns n e = rw e refl

abbrev added : ℕ → Bytes → List Bytes → Bytes
added outsz out names = foldl (λ s name. models_add s outsz name) out names

added-joined :
    (outsz : ℕ) (ds ns : List Bytes)
    → All IsPlain ds
    → All IsPlain ns
    → length (joined (without_repeats ds ns)) < outsz
    → added outsz (joined ds) ns ≡ joined (without_repeats ds ns)
added-joined outsz ds [] h k fits = refl
added-joined outsz ds ([] ∷ ns) h (kn, k) fits = absurd kn
added-joined outsz ds ((c ∷ n) ∷ ns) h (kn, k) fits =
    let more = ds ++ ((c ∷ n) ∷ []) in
    elim (Bool-cases (occurs (c ∷ n) ds)) [
      | inl e ↦
          let next = without_repeats-known ds ns (c ∷ n) e in
          ap (λ s. added outsz s ns) (known_name outsz ds c n h e)
          ∙ added-joined outsz ds ns h k (subst (λ r. length (joined r) < outsz) next fits)
          ∙ ap joined (sym next)
      | inr e ↦
          let next = without_repeats-fresh ds ns (c ∷ n) e in
          let fits' : length (joined (without_repeats more ns)) < outsz =
            subst (λ r. length (joined r) < outsz) next fits in
          ap (λ s. added outsz s ns)
            (fresh_name outsz ds c n h e (omega (arith, length-without_repeats more ns)))
          ∙ added-joined outsz more ns (All-append IsPlain ds ((c ∷ n) ∷ []) h (kn, tt)) k fits'
          ∙ ap joined (sym next)
    ]

-- Names that are not empty and have no plus sign, added one by one to an empty list, leave each of
-- them once, in the order in which they come first, with " + " between them, if that fits the buffer.
pub models_add-distinct :
    (outsz : ℕ) (names : List Bytes)
    → All IsPlain names
    → length (joined (without_repeats [] names)) < outsz
    → foldl (λ out name. models_add out outsz name) [] names ≡ joined (without_repeats [] names)
models_add-distinct outsz names h fits = added-joined outsz [] names tt h fits
