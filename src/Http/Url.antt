-- ===== src/Http/Url.antt =====
-- `url_split` of bench/src/http.c.
pub mod Safe
use cross_platform_benchmark.Prelude.{
  ℕ, zero, suc, ◌+◌, ◌-◌, Bool, true, false, not, ◌&&◌, ◌||◌, List, [], ◌∷◌, ◌++◌, Option, none,
  some, Bytes, codes, ltb, leb, ◌==◌, if◌then◌else◌, starts_with, has_char, cspn, spn, find_char,
  length, take, drop, get_or,
}
use cross_platform_benchmark.Http.Outcome.{Outcome, done, failed, ◌>>=◌, ◌>>◌, require}

pub record Url : Type 0 where
  pub tls : Bool
  pub host : Bytes
  pub port : Bytes
  pub target : Bytes

-- Printable ASCII other than the space.
abbrev pub is_visible : ℕ → Bool
is_visible c = ltb 0x20 c && ltb c 0x7f

unfoldable pub all_visible : Bytes → Bool
all_visible [] = true
all_visible (c ∷ s) = is_visible c && all_visible s

abbrev pub https : Bytes
https = codes "https://"

abbrev pub http : Bytes
http = codes "http://"

-- A part of the URL, and what follows it.
pub record Cut {ℓ} (A : Type ℓ) : Type ℓ where
  pub part : A
  pub rest : Bytes

unfoldable pub scheme : Bytes → Outcome (Cut Bool)
scheme p =
    if starts_with https p
    then done (record { part = true; rest = drop 8 p })
    else if starts_with http p
    then done (record { part = false; rest = drop 7 p })
    else failed (codes "hub URL must start with http:// or https://")

abbrev is_empty : Bytes → Bool
is_empty [] = true
is_empty (c ∷ s) = false

-- `[v6:address]`, at the bracket, with the place of the closing one; the host is what stands between
-- the brackets.
unfoldable pub bracket_at : Bytes → Option ℕ → Outcome (Cut Bytes)
bracket_at p none = failed (codes "unterminated [address] in hub URL")
bracket_at p (some host_end) = do
  require (ltb (host_end - 1) 256) (codes "hub address is too long")
  done (record { part = take (host_end - 1) (drop 1 p); rest = drop (host_end + 1) p })

unfoldable pub bracketed : Bytes → Outcome (Cut Bytes)
unfolding bracket_at
bracketed p = bracket_at p (find_char b']' p)

unfoldable pub plain_host : Bytes → Outcome (Cut Bytes)
plain_host p = do
  let n = cspn (codes ":/?") p
  require (ltb n 256) (codes "hub host name is too long")
  done (record { part = take n p; rest = drop n p })

unfoldable pub host_part : Bytes → Outcome (Cut Bytes)
host_part p = do
  h ← if get_or p 0 0 == b'[' then bracketed p else plain_host p
  require (not (is_empty h.part)) (codes "hub URL names no host")
  done h

abbrev pub decimal_digits : Bytes
decimal_digits = codes "0123456789"

-- Whether a port may end in front of `p`.
abbrev ends_port : Bytes → Bool
ends_port [] = true
ends_port (c ∷ s) = c == b'/' || c == b'?'

unfoldable pub port_part : Bool → Bytes → Outcome (Cut Bytes)
port_part tls p =
    if get_or p 0 0 == b':'
    then (do
      let q = drop 1 p
      let n = spn decimal_digits q
      require (not (n == 0) && ltb n 8) (codes "bad port in hub URL")
      require (ends_port (drop n q)) (codes "bad port in hub URL")
      done (record { part = take n q; rest = drop n q }))
    else done (record { part = if tls then codes "443" else codes "80"; rest = p })

unfoldable pub target_part : Bytes → Outcome Bytes
target_part [] = done (codes "/")
target_part (c ∷ p) = do
  let target = (if c == b'/' then [] else codes "/") ++ c ∷ p
  require (ltb (length target) 8192) (codes "hub URL is too long")
  done target

unfoldable pub url_split : Bytes → Outcome Url
url_split url = do
  require (all_visible url) (codes "hub URL has a space or a control character in it")
  s ← scheme url
  require (not (has_char b'@' s.rest)) (codes "hub URL must not carry credentials")
  h ← host_part s.rest
  p ← port_part s.part h.rest
  t ← target_part p.rest
  done (record { tls = s.part; host = h.part; port = p.part; target = t })
