-- ===== src/Http/Chunks.antt =====
-- `chunks_complete` and `dechunk` of bench/src/http.c.
pub mod Framing
pub mod Total
use cross_platform_benchmark.Prelude.{
  ℕ, zero, suc, ◌+◌, ◌-◌, ◌*◌, ◌^◌, Bool, true, false, not, ◌&&◌, ◌||◌, List, [], ◌∷◌, ◌++◌, Option,
  none, some, Bytes, codes, ltb, leb, ◌==◌, if◌then◌else◌, length, take, drop, find_str, strtoul16,
  Parsed, starts_with, starts_xdigit,
}

abbrev pub crlf : Bytes
crlf = 13 ∷ 10 ∷ []

-- MAX_REPLY.
abbrev pub max_reply : ℕ
max_reply = 256 * 2 ^ 10

-- A round of `chunks_complete` on what stands from `at` on, with the offset of the next line end; `more`
-- is the round after it.
unfoldable pub complete_step : Bytes → Option ℕ → (Bytes → Option Bool) → Option Bool
complete_step rest none more = some false
complete_step rest (some eol) more =
    let n = (strtoul16 rest).value in
    let next = eol + 2 + n + 2 in
    if not (starts_xdigit rest)
    then some true
    else if n == 0
    then some true
    else if ltb max_reply n
    then some true
    else if ltb (length rest) next
    then some false
    else more (drop next rest)

-- `none` means that the fuel ran out.
unfoldable pub complete_loop : ℕ → Bytes → Option Bool
complete_loop zero rest = none
complete_loop (suc fuel) rest = complete_step rest (find_str crlf rest) (complete_loop fuel)

-- A round goes on by four bytes or more.
unfoldable pub chunks_complete : Bytes → Option Bool
chunks_complete body = complete_loop (suc (length body)) body

-- A round of `dechunk` behind the size, with the offset of the line end there and the bytes that stand
-- before `out`. The bytes are moved towards the front of the string, so what is still to be read is
-- never overwritten.
unfoldable pub dechunk_step :
    Parsed ℕ → Option ℕ → Bytes → (Bytes → Bytes → Option Bytes) → Option Bytes
dechunk_step size none out more = some out
dechunk_step size (some nl) out more =
    let from = drop (nl + 2) size.rest in
    let n = size.value in
    let after = drop n from in
    if n == 0
    then some out
    else if ltb (length from) n
    then some out
    else more (if starts_with crlf after then drop 2 after else after) (out ++ take n from)

unfoldable pub dechunk_loop : ℕ → Bytes → Bytes → Option Bytes
dechunk_loop zero rest out = none
dechunk_loop (suc fuel) rest out =
    let size = strtoul16 rest in
    if not size.any
    then some out
    else dechunk_step size (find_str crlf size.rest) out (dechunk_loop fuel)

unfoldable pub dechunk : Bytes → Option Bytes
dechunk body = dechunk_loop (suc (length body)) body []
