-- ===== src/Http/Url/Safe.antt =====
-- What `url_split` of bench/src/http.c accepts.
use cross_platform_benchmark.Prelude.{
  ℕ, suc, ◌+◌, ◌-◌, ◌<◌, ◌≤◌, Bool, true, false, not, ◌&&◌, [], ◌∷◌, none, some, if◌then◌else◌,
  Bytes, Option, codes, ltb, ltb→lt, ◌==◌, ==_iff, starts_with, has_char, cspn, spn, find_char,
  length, take, drop, get_or, All, All-take, All-drop, length-take, ◌≡◌, ◌≢◌, refl, ap, subst,
  arith, Bool-cases, inl, inr,
}
use cross_platform_benchmark.Http.Outcome.{done, ◌>>◌, require, OnDone, OnDone-bind, OnDone-require}
use cross_platform_benchmark.Http.Url.{
  Url, Cut, url_split, all_visible, is_empty, ends_port, scheme, bracket_at, bracketed, plain_host,
  host_part, port_part, target_part, decimal_digits,
}

abbrev pub IsVisible : ℕ → Type 0
IsVisible c = (0x20 < c) × (c < 0x7f)

abbrev pub IsDigit : ℕ → Type 0
IsDigit c = (b'0' ≤ c) × (c ≤ b'9')

pub record IsSafe (u : Url) : Type 0 where
  pub host_visible : All IsVisible u.host
  pub host_some : u.host ≢ []
  pub host_fits : length u.host < 256
  pub port_digits : All IsDigit u.port
  pub port_some : 0 < length u.port
  pub port_fits : length u.port < 8
  pub target_visible : All IsVisible u.target
  pub target_rooted : (t : Bytes) × (u.target ≡ b'/' ∷ t)
  pub target_fits : length u.target < 8192

all_visible-All : (s : Bytes) → all_visible s ≡ true → All IsVisible s
unfolding all_visible
all_visible-All [] h = tt
all_visible-All (c ∷ s) h = ground (arith, all_visible-All s)

scheme-IsVisible : (p : Bytes) → All IsVisible p → OnDone (λ c. All IsVisible c.rest) (scheme p)
unfolding scheme
scheme-IsVisible p v = elim (Bool-cases (starts_with (codes "https://") p)) [
  | inl t ↦ rw t (All-drop IsVisible 8 p v)
  | inr f ↦ elim (Bool-cases (starts_with (codes "http://") p)) [
    | inl t ↦ rw (f, t) (All-drop IsVisible 7 p v)
    | inr g ↦ rw (f, g) tt
  ]
]

record IsSafeHost (c : Cut Bytes) : Type 0 where
  visible : All IsVisible c.part
  fits : length c.part < 256
  rest_visible : All IsVisible c.rest

bracket_at-IsSafeHost :
    (p : Bytes) (o : Option ℕ) → All IsVisible p → OnDone IsSafeHost (bracket_at p o)
unfolding bracket_at
bracket_at-IsSafeHost p none v = tt
bracket_at-IsSafeHost p (some host_end) v =
    OnDone-require IsSafeHost (ltb (host_end - 1) 256) _ _ λ fits. record {
      visible = All-take IsVisible (host_end - 1) (drop 1 p) (All-drop IsVisible 1 p v);
      fits = omega (arith, length-take (host_end - 1) (drop 1 p), ltb→lt _ _ fits);
      rest_visible = All-drop IsVisible (host_end + 1) p v;
    }

plain_host-IsSafeHost : (p : Bytes) → All IsVisible p → OnDone IsSafeHost (plain_host p)
unfolding plain_host
plain_host-IsSafeHost p v =
    let n = cspn (codes ":/?") p in
    OnDone-require IsSafeHost (ltb n 256) _ _ λ fits. record {
      visible = All-take IsVisible n p v;
      fits = omega (arith, length-take n p, ltb→lt _ _ fits);
      rest_visible = All-drop IsVisible n p v;
    }

abbrev IsNamedHost : Cut Bytes → Type 0
IsNamedHost c = IsSafeHost c × (c.part ≢ [])

named : (h : Cut Bytes) → IsSafeHost h → not (is_empty h.part) ≡ true → IsNamedHost h
named h safe t = (safe, λ e. let bad = rw e at t in cc)

host_part-IsNamedHost : (p : Bytes) → All IsVisible p → OnDone IsNamedHost (host_part p)
unfolding host_part bracketed
host_part-IsNamedHost p v = elim (Bool-cases (get_or p 0 0 == b'[')) [
  | inl t ↦ rw t (
      OnDone-bind IsSafeHost IsNamedHost (bracket_at p (find_char b']' p)) _
        (bracket_at-IsSafeHost p (find_char b']' p) v) checked)
  | inr f ↦
      rw f (OnDone-bind IsSafeHost IsNamedHost (plain_host p) _ (plain_host-IsSafeHost p v) checked)
]
  where
    checked :
        (h : Cut Bytes)
        → IsSafeHost h
        → OnDone IsNamedHost
            (require (not (is_empty h.part)) (codes "hub URL names no host") >> done h)
    checked h safe = OnDone-require IsNamedHost _ _ _ (named h safe)

digit_lem : (c : ℕ) → has_char c decimal_digits ≡ true → IsDigit c
digit_lem c h = ground arith

take-spn : (q : Bytes) → All IsDigit (take (spn decimal_digits q) q)
take-spn [] = tt
take-spn (c ∷ q) = elim (Bool-cases (has_char c decimal_digits)) [
  | inl t ↦ rw t (digit_lem c t, take-spn q)
  | inr f ↦ rw f tt
]

spn-le : (q : Bytes) → spn decimal_digits q ≤ length q
spn-le [] = omega arith
spn-le (c ∷ q) = ground (arith, spn-le q)

record IsSafePort (c : Cut Bytes) : Type 0 where
  digits : All IsDigit c.part
  present : 0 < length c.part
  fits : length c.part < 8
  rest_visible : All IsVisible c.rest

port_part-IsSafePort :
    (tls : Bool) (p : Bytes) → All IsVisible p → OnDone IsSafePort (port_part tls p)
unfolding port_part
port_part-IsSafePort tls p v = elim (Bool-cases (get_or p 0 0 == b':')) [
  | inl t ↦
      let q = drop 1 p in
      let n = spn decimal_digits q in
      rw t (
        OnDone-require IsSafePort (not (n == 0) && ltb n 8) _ _ λ size.
          OnDone-require IsSafePort (ends_port (drop n q)) (codes "bad port in hub URL")
            (done (record { part = take n q; rest = drop n q }))
            λ _. record {
              digits = take-spn q;
              present = ground (arith, length-take n q, spn-le q, size);
              fits = ground (arith, length-take n q, size);
              rest_visible = All-drop IsVisible n q (All-drop IsVisible 1 p v);
            })
  | inr f ↦ rw f (record {
    digits = default_digits tls;
    present = ground arith;
    fits = ground arith;
    rest_visible = v;
  })
]
  where
    default_digits : (b : Bool) → All IsDigit (if b then codes "443" else codes "80")
    default_digits true = omega arith
    default_digits false = omega arith

abbrev IsSafeTarget : Bytes → Type 0
IsSafeTarget t = All IsVisible t × ((r : Bytes) × (t ≡ b'/' ∷ r)) × (length t < 8192)

target_part-IsSafeTarget : (p : Bytes) → All IsVisible p → OnDone IsSafeTarget (target_part p)
unfolding target_part
target_part-IsSafeTarget [] v = (omega arith, ([], refl), omega arith)
target_part-IsSafeTarget (c ∷ p) v = elim (Bool-cases (c == b'/')) [
  | inl t ↦
      let e = (==_iff c b'/').0 t in
      rw t (
        OnDone-require IsSafeTarget (ltb (suc (length p)) 8192) _ (done (c ∷ p))
          λ fits. (v, (p, ap (λ (x : ℕ). x ∷ p) e), ltb→lt _ _ fits))
  | inr f ↦ rw f (
      OnDone-require IsSafeTarget (ltb (suc (suc (length p))) 8192) _ (done (b'/' ∷ c ∷ p))
        λ fits. ((omega arith, v), (c ∷ p, refl), ltb→lt _ _ fits))
]

-- What `url_split` accepts is safe to put into a request: the host is not empty, the target begins
-- with a slash, the port is digits, each part fits its buffer with the NUL, and no part holds a
-- space, a control character or a byte above ASCII.
pub url_split-IsSafe : (url : Bytes) (u : Url) → url_split url ≡ done u → IsSafe u
unfolding url_split
url_split-IsSafe url u e = subst (OnDone IsSafe) e (
    OnDone-require IsSafe (all_visible url) _ _ λ visible.
      OnDone-bind (λ (s : Cut Bool). All IsVisible s.rest) IsSafe (scheme url) _
        (scheme-IsVisible url (all_visible-All url visible))
        λ s vs. OnDone-require IsSafe (not (has_char b'@' s.rest)) _ _ λ _.
          OnDone-bind IsNamedHost IsSafe (host_part s.rest) _ (host_part-IsNamedHost s.rest vs)
            λ h safe.
              OnDone-bind IsSafePort IsSafe (port_part s.part h.rest) _
                (port_part-IsSafePort s.part h.rest safe.0.rest_visible)
                λ p safe_port.
                  OnDone-bind IsSafeTarget IsSafe (target_part p.rest) _
                    (target_part-IsSafeTarget p.rest safe_port.rest_visible)
                    λ t safe_target. record {
                      host_visible = safe.0.visible;
                      host_some = safe.1;
                      host_fits = safe.0.fits;
                      port_digits = safe_port.digits;
                      port_some = safe_port.present;
                      port_fits = safe_port.fits;
                      target_visible = safe_target.0;
                      target_rooted = safe_target.1;
                      target_fits = safe_target.2;
                    })
