-- ===== src/Http/Socket.antt =====
-- `connect_deadline`, `dial` and `send_all` of bench/src/http.c as a POSIX system builds them. What the
-- system calls answer is given: by address for the connection, by call for `send`.
pub mod Deliver
use cross_platform_benchmark.Prelude.{
  ℕ, zero, suc, ◌+◌, ◌-◌, ◌^◌, Bool, true, false, not, List, [], ◌∷◌, ◌++◌, Option, none, some,
  Bytes, ltb, leb, ◌==◌, if◌then◌else◌, length, take, drop, min,
}

-- The answers of `connect`, of `errno` (EINPROGRESS), of `select` and of SO_ERROR.
pub record Connect : Type 0 where
  pub at_once : Bool
  pub in_progress : Bool
  pub writable : Bool
  pub error : Bool

-- Whether the connection stands, and whether the socket is in blocking mode.
pub record Connected : Type 0 where
  pub ok : Bool
  pub blocking : Bool

unfoldable pub connect_deadline : Connect → Connected
connect_deadline c =
    if c.at_once
    then record { ok = true; blocking = true }
    else if not c.in_progress
    then record { ok = false; blocking = false }
    else if not c.writable
    then record { ok = false; blocking = false }
    else if c.error
    then record { ok = false; blocking = false }
    else record { ok = true; blocking = true }

-- One entry of the list that `getaddrinfo` gives; `socket` says whether a socket is to be had.
pub record Address : Type 0 where
  pub socket : Bool
  pub connect : Connect

-- What the loop of `dial` has done: the address that it connected to, how many sockets it opened, how
-- many of them it closed.
pub record Dialled : Type 0 where
  pub connected : Option ℕ
  pub opened : ℕ
  pub closed : ℕ

-- From address `i` on, with so many sockets opened and so many closed before it.
unfoldable pub dial_loop : List Address → ℕ → ℕ → ℕ → Dialled
unfolding connect_deadline
dial_loop [] i opened closed = record { connected = none; opened = opened; closed = closed }
dial_loop (a ∷ list) i opened closed =
    let skip = dial_loop list (i + 1) opened closed in
    let close = dial_loop list (i + 1) (opened + 1) (closed + 1) in
    if not a.socket
    then skip
    else if (connect_deadline a.connect).ok
    then record { connected = some i; opened = opened + 1; closed = closed }
    else close

-- `none` is a name that does not resolve.
unfoldable pub dial : Option (List Address) → Dialled
unfolding dial_loop
dial none = record { connected = none; opened = 0; closed = 0 }
dial (some list) = dial_loop list 0 0 0

-- The return value, and the bytes that the socket took. `send k chunk` is what call `k` returns for a
-- chunk, with 0 for a failure.
pub record Sent : Type 0 where
  pub ok : Bool
  pub taken : Bytes

unfoldable pub send_loop : (ℕ → Bytes → ℕ) → ℕ → ℕ → Bytes → Bytes → Option Sent
send_loop send zero k [] taken = some (record { ok = true; taken = taken })
send_loop send zero k (x ∷ p) taken = none
send_loop send (suc fuel) k [] taken = some (record { ok = true; taken = taken })
send_loop send (suc fuel) k (x ∷ p) taken =
    let chunk = take (min (length (x ∷ p)) (2 ^ 20)) (x ∷ p) in
    let n = send k chunk in
    let rest = send_loop send fuel (k + 1) (drop n (x ∷ p)) (taken ++ take n (x ∷ p)) in
    if n == 0 then some (record { ok = false; taken = taken }) else rest

-- Each call that does not fail takes a byte or more.
unfoldable pub send_all : (ℕ → Bytes → ℕ) → Bytes → Option Sent
unfolding send_loop
send_all send p = send_loop send (length p) 0 p []
