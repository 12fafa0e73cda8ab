-- ===== src/Http/Reply/Total.antt =====
-- The calls of `recv` that `read_reply` of bench/src/http.c makes, and the size of a reply.
use cross_platform_benchmark.Prelude.{
  ℕ, zero, suc, ◌+◌, ◌-◌, ◌*◌, ◌<◌, ◌≤◌, Bool, true, false, not, Bytes, codes, Option, none, some,
  leb, length, length-append, length-drop, ◌≡◌, refl, if-cases, arith, ◌||◌, c_string, ℤ, subst,
  sym, ◌++◌, find_str, if◌then◌else◌, ◌==◌, ◌∷◌, [],
}
use cross_platform_benchmark.Http.Outcome.{Outcome, done, failed}
use cross_platform_benchmark.Http.Chunks.{max_reply}
use cross_platform_benchmark.Http.Chunks.Total.{Gives, dechunk-total}
use cross_platform_benchmark.Http.Reply.{
  Received, bytes, closed, error, Reading, Step, stop, next, read_head, framed, receive, read_round,
  read_loop, read_reply, Reply, parse_reply, blank_line, decoded, with_body, body_of, head_of,
}
use cross_platform_benchmark.Http.Header.{says_chunked}

-- `recv` gives one byte or more, and no more than it is offered room for.
abbrev pub FitsRoom : ℕ → Received → Type 0
FitsRoom room (bytes p) = (1 ≤ length p) × (length p ≤ room)
FitsRoom room closed = Unit
FitsRoom room error = Unit

abbrev pub IsPeer : (ℕ → ℕ → Received) → Type 0
IsPeer recv = (k room : ℕ) → FitsRoom room (recv k room)

-- The capacities that doubling 8192 goes through.
abbrev is_cap : ℕ → Bool
is_cap n = n == 8192 || (n == 16384 || (n == 32768 || (n == 65536 || (n == 131072 || n == 262144))))

-- The NUL behind the bytes has its place in the buffer.
record IsReading (s : Reading) : Type 0 where
  grown : is_cap s.cap ≡ true
  room : length s.buf < s.cap

IsReading-double :
    (s : Reading)
    → IsReading s
    → leb max_reply s.cap ≡ false
    → IsReading (record s { cap = s.cap * 2 })
IsReading-double s v h = record { grown = ground (arith, v.grown); room = omega (arith, v.room) }

-- A reply that is kept.
abbrev pub IsKept : Outcome Bytes → Type 0
IsKept (failed e) = Unit
IsKept (done raw) = length raw < max_reply

-- The outcome of a round: the end, or a state that has read more.
abbrev Moves : ℕ → Step → Type 0
Moves n (stop r) = IsKept r
Moves n (next s) = IsReading s × (n < length s.buf)

small : (s : Reading) → IsReading s → length s.buf < max_reply
small s v = ground (arith, v.grown, v.room)

read_head-IsReading :
    (s : Reading) (o : Option ℕ) {n : ℕ}
    → IsReading s
    → n < length s.buf
    → IsReading (read_head s o) × (n < length (read_head s o).buf)
unfolding read_head
read_head-IsReading s none v h = (v, h)
read_head-IsReading s (some k) v h = (record { grown = v.grown; room = v.room }, h)

receive-Moves :
    (s : Reading) (r : Received)
    → IsReading s
    → FitsRoom (s.cap - length s.buf - 1) r
    → Moves (length s.buf) (receive s r)
unfolding receive
receive-Moves s error v h = tt
receive-Moves s closed v h = small s v
receive-Moves s (bytes p) v (some_data, fits) =
    let s₁ = record s { buf = s.buf ++ p } in
    let v₁ : IsReading s₁ = record {
      grown = v.grown;
      room = omega (arith, v.room, length-append s.buf p);
    } in
    let s₂ =
      if s₁.head_end == 0 then read_head s₁ (find_str blank_line (c_string s₁.buf)) else s₁ in
    let v₂ : IsReading s₂ × (length s.buf < length s₂.buf) =
      if-cases (λ t. IsReading t × (length s.buf < length t.buf)) (s₁.head_end == 0)
        (λ _. read_head-IsReading s₁ _ v₁ (omega (arith, length-append s.buf p)))
        (λ _. (v₁, omega (arith, length-append s.buf p))) in
    if-cases (Moves (length s.buf)) (framed s₂) (λ _. small s₂ v₂.0) (λ _. v₂)

read_round-Moves :
    (alloc : Bool) (recv : ℕ → Received) (s : Reading)
    → ((room : ℕ) → FitsRoom room (recv room))
    → IsReading s
    → Moves (length s.buf) (read_round alloc recv s)
unfolding read_round
read_round-Moves alloc recv s peer v =
    let P = Moves (length s.buf) in
    if-cases P (leb (length s.buf + 1024) s.cap) (λ _. receive-Moves s _ v (peer _))
      (λ _.
        if-cases P (leb max_reply s.cap) (λ _. small s v)
          (λ few.
            if-cases P (not alloc) (λ _. tt)
              (λ _.
                receive-Moves (record s { cap = s.cap * 2 }) _ (IsReading-double s v few)
                  (peer _))))

-- The loop behind a round, over the rounds that may follow.
read_loop_step :
    (alloc : ℕ → Bool) (recv : ℕ → ℕ → Received) (fuel k n : ℕ) (s : Reading) (t : Step)
    → read_round (alloc k) (recv k) s ≡ t
    → Moves n t
    → ((s' : Reading)
        → IsReading s'
        → n < length s'.buf
        → Gives IsKept (read_loop alloc recv fuel (k + 1) s'))
    → Gives IsKept (read_loop alloc recv (suc fuel) k s)
unfolding read_loop
read_loop_step alloc recv fuel k n s (stop r) e m more = rw (e, read_loop) (r, refl, m)
read_loop_step alloc recv fuel k n s (next s') e (v, grown) more =
    rw (e, read_loop) (more s' v grown)

-- The rounds that are left are more than the bytes that there is still room for.
read_loop_total :
    (alloc : ℕ → Bool) (recv : ℕ → ℕ → Received) (fuel k : ℕ) (s : Reading)
    → IsPeer recv
    → IsReading s
    → max_reply ≤ fuel + length s.buf
    → Gives IsKept (read_loop alloc recv fuel k s)
read_loop_total alloc recv zero k s peer v h = absurd (omega (arith, small s v))
read_loop_total alloc recv (suc fuel) k s peer v h =
    read_loop_step alloc recv fuel k (length s.buf) s _ refl
      (read_round-Moves (alloc k) (recv k) s (peer k) v)
      (λ s' v' grown. read_loop_total alloc recv fuel (k + 1) s' peer v' (omega arith))

-- Whatever a peer sends, and whichever allocations succeed, the reading of a reply comes to an end
-- after at most 256 * 2^10 calls of `recv`; when it does not fail, fewer bytes are kept than that.
pub read_reply-total :
    (first : Bool) (alloc : ℕ → Bool) (recv : ℕ → ℕ → Received) (rounds : ℕ)
    → IsPeer recv
    → max_reply ≤ rounds
    → (r : Outcome Bytes) × (read_reply first alloc recv rounds ≡ some r) × IsKept r
unfolding read_reply
read_reply-total first alloc recv rounds peer enough =
    if-cases (Gives IsKept) (not first)
      (λ _. (failed (codes "out of memory reading the reply"), refl, tt))
      (λ _.
        read_loop_total alloc recv rounds 0 _ peer (record { grown = refl; room = omega arith })
          (omega arith))

pub length-c_string : (s : Bytes) → length (c_string s) ≤ length s
length-c_string [] = omega arith
length-c_string (c ∷ s) = ground (arith, length-c_string s)

-- A reply whose body is no longer than what was read.
abbrev pub IsShorter : ℕ → Outcome Reply → Type 0
IsShorter n (failed e) = Unit
IsShorter n (done r) = length r.body ≤ n

body_of-shrinks : (raw : Bytes) (o : Option ℕ) → length (body_of raw o) ≤ length raw
body_of-shrinks raw none = omega arith
body_of-shrinks raw (some n) = omega (arith, length-drop (n + 4) raw)

decoded-total :
    (chunked : Bool) (body : Bytes) → Gives (λ t. length t ≤ length body) (decoded chunked body)
decoded-total true body = (dechunk-total body).1
decoded-total false body = (body, refl, omega arith)

-- A guard with a failure in front.
pub guarded :
    {P : Outcome Reply → Type 0} {x : Option (Outcome Reply)} (b : Bool) (e : Bytes)
    → P (failed e)
    → Gives P x
    → Gives P (if b then some (failed e) else x)
guarded true e h g = (failed e, refl, h)
guarded false e h g = g

with_body-total :
    {n : ℕ} {o : Option Bytes} (alloc : Bool) (status : ℤ) (location : Bytes)
    → Gives (λ t. length t ≤ n) o
    → Gives (IsShorter n) (with_body alloc status location o)
with_body-total {n} alloc status location (body, e, h) =
    subst (λ o. Gives (IsShorter n) (with_body alloc status location o)) (sym e)
      (_, refl, if-cases (IsShorter n) alloc (λ _. h) (λ _. tt))

-- Any text is taken apart, into a failure or a reply whose body is no longer than the text.
pub parse_reply-total :
    (alloc : Bool) (raw : Bytes)
    → (r : Outcome Reply) × (parse_reply alloc raw ≡ some r) × IsShorter (length raw) r
unfolding parse_reply
parse_reply-total alloc raw =
    let split = find_str blank_line raw in
    let body = decoded-total (says_chunked (head_of raw split)) (body_of raw split) in
    guarded _ (codes "the server did not answer with HTTP") tt (
      guarded _ (codes "the server sent no status code") tt
        (with_body-total _ _ _ (body.0, body.1, omega (arith, body.2, body_of-shrinks raw split))))
