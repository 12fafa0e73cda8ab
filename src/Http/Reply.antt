-- ===== src/Http/Reply.antt =====
-- `read_reply` and `parse_reply` of bench/src/http.c. What `recv` answers is given by call and by the
-- room that it is offered.
pub mod Bounds
pub mod Total
use cross_platform_benchmark.Prelude.{
  ℕ, zero, suc, ◌+◌, ◌-◌, ◌*◌, ◌^◌, Bool, true, false, not, ◌&&◌, ◌||◌, List, [], ◌∷◌, ◌++◌, Option,
  none, some, Bytes, codes, ltb, leb, ◌==◌, if◌then◌else◌, length, take, drop, find_char, find_str,
  starts_with, ℤ, pos, negsuc, strtol, c_string,
}
use cross_platform_benchmark.Http.Outcome.{Outcome, done, failed, ◌>>=◌, ◌>>◌, require}
use cross_platform_benchmark.Http.Header.{content_length, header_value, says_chunked}
use cross_platform_benchmark.Http.Chunks.{crlf, max_reply, chunks_complete, dechunk}

abbrev pub blank_line : Bytes
blank_line = crlf ++ crlf

pub data Received : Type 0 where
  bytes : Bytes → Received
  closed error : Received

-- The variables of the loop; `head_end` is 0 until the headers are whole.
pub record Reading : Type 0 where
  pub buf : Bytes
  pub cap : ℕ
  pub head_end : ℕ
  pub want : Option ℕ
  pub chunked : Bool

-- The headers, once they are whole, with the place of the blank line.
unfoldable pub read_head : Reading → Option ℕ → Reading
read_head s none = s
read_head s (some split) =
    let head = c_string (take split s.buf) in
    record s { head_end = split + 4; want = content_length head; chunked = says_chunked head }

abbrev is_complete : Option Bool → Bool
is_complete (some true) = true
is_complete _ = false

abbrev reaches : Option ℕ → ℕ → Bool
reaches none n = false
reaches (some want) n = leb want n

-- Whether the framing that the headers declare says that the reply is all here.
unfoldable pub framed : Reading → Bool
framed s =
    let body = drop s.head_end s.buf in
    if s.head_end == 0
    then false
    else if s.chunked
    then is_complete (chunks_complete body)
    else reaches s.want (length body)

pub data Step : Type 0 where
  stop : Outcome Bytes → Step
  next : Reading → Step

-- A round behind the call of `recv`.
unfoldable pub receive : Reading → Received → Step
unfolding read_head framed
receive s error = stop (failed (codes "reading the reply failed"))
receive s closed = stop (done s.buf)
receive s (bytes p) =
    let s₁ = record s { buf = s.buf ++ p } in
    let s₂ =
      if s₁.head_end == 0 then read_head s₁ (find_str blank_line (c_string s₁.buf)) else s₁ in
    if framed s₂ then stop (done s₂.buf) else next s₂

-- A round: more room if there may be too little, and a call. `alloc` says whether `realloc` succeeds.
unfoldable pub read_round : Bool → (ℕ → Received) → Reading → Step
unfolding receive
read_round alloc recv s =
    if leb (length s.buf + 1024) s.cap
    then receive s (recv (s.cap - length s.buf - 1))
    else if leb max_reply s.cap
    then stop (done s.buf)
    else if not alloc
    then stop (failed (codes "out of memory"))
    else receive (record s { cap = s.cap * 2 }) (recv (s.cap * 2 - length s.buf - 1))

unfoldable pub read_loop :
    (ℕ → Bool) → (ℕ → ℕ → Received) → ℕ → ℕ → Reading → Option (Outcome Bytes)
unfolding read_round
read_loop alloc recv zero k s = none
read_loop alloc recv (suc fuel) k s = elim (read_round (alloc k) (recv k) s) [
  | stop r ↦ some r
  | next s' ↦ read_loop alloc recv fuel (k + 1) s'
]

-- Each round that goes on has read a byte, and the buffer stops growing at MAX_REPLY.
unfoldable pub read_reply : Bool → (ℕ → Bool) → (ℕ → ℕ → Received) → ℕ → Option (Outcome Bytes)
unfolding read_loop
read_reply first alloc recv fuel =
    if not first
    then some (failed (codes "out of memory reading the reply"))
    else read_loop alloc recv fuel 0
        (record { buf = []; cap = 8192; head_end = 0; want = none; chunked = false })

-- `http_reply_t` where there is no error.
pub record Reply : Type 0 where
  pub status : ℤ
  pub body : Bytes
  pub location : Bytes

-- `atoi` behind the first space, or 0.
unfoldable pub status_of : Bytes → Option ℕ → ℤ
status_of raw none = pos 0
status_of raw (some sp) = (strtol (drop (sp + 1) raw)).value

abbrev is_zero : ℤ → Bool
is_zero (pos n) = n == 0
is_zero (negsuc n) = false

abbrev pub between : ℕ → ℕ → ℤ → Bool
between lo hi (pos n) = leb lo n && ltb n hi
between lo hi (negsuc n) = false

-- The header block and the body, at the blank line.
abbrev pub head_of : Bytes → Option ℕ → Bytes
head_of raw none = raw
head_of raw (some split) = take split raw

abbrev pub body_of : Bytes → Option ℕ → Bytes
body_of raw none = []
body_of raw (some split) = drop (split + 4) raw

abbrev pub decoded : Bool → Bytes → Option Bytes
decoded true body = dechunk body
decoded false body = some body

-- The copies that the reply holds.
abbrev pub with_body : Bool → ℤ → Bytes → Option Bytes → Option (Outcome Reply)
with_body alloc status location none = none
with_body alloc status location (some body) = some (
    if alloc
    then done (record { status = status; body = body; location = location })
    else failed (codes "out of memory"))

-- On the buffer as a C string; `alloc` says whether the body can be copied. The outer `none` means
-- that the fuel of `dechunk` ran out.
unfoldable pub parse_reply : Bool → Bytes → Option (Outcome Reply)
unfolding status_of
parse_reply alloc raw =
    let status = status_of raw (find_char b' ' raw) in
    let split = find_str blank_line raw in
    let head = head_of raw split in
    let location =
      if between 300 400 status then header_value head (crlf ++ codes "location:") 512 else [] in
    if not (starts_with (codes "HTTP/1.") raw)
    then some (failed (codes "the server did not answer with HTTP"))
    else if is_zero status
    then some (failed (codes "the server sent no status code"))
    else with_body alloc status location (decoded (says_chunked head) (body_of raw split))
