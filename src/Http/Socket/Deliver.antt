-- ===== src/Http/Socket/Deliver.antt =====
-- The sockets of `dial` and the bytes of `send_all` in bench/src/http.c.
use cross_platform_benchmark.Prelude.{
  ℕ, zero, suc, ◌+◌, ◌^◌, ◌≤◌, ◌≡◌, ◌⊎◌, inl, inr, refl, sym, ap, ◌∙◌, true, false, List, [], ◌∷◌,
  ◌++◌, append_assoc, append-nil, Option, none, some, Bytes, length, take, drop, length-drop,
  take-append-drop, Bool-cases, ◌==◌, min, arith,
}
use native.Mathlib.Nat.{le_refl}
use cross_platform_benchmark.Http.Socket.{
  Connect, connect_deadline, Address, dial, dial_loop, Sent, send_loop, send_all,
}

-- How many of the opened sockets are left open.
abbrev pub left_open : Option ℕ → ℕ
left_open none = 0
left_open (some i) = 1

dial_loop_balanced :
    (list : List Address) (i opened closed : ℕ)
    → opened ≡ closed
    → let d = dial_loop list i opened closed in d.opened ≡ d.closed + left_open d.connected
unfolding dial_loop
dial_loop_balanced [] i opened closed e = omega (arith, e)
dial_loop_balanced (a ∷ list) i opened closed e = ground (
  arith,
  dial_loop_balanced list (i + 1) opened closed e,
  dial_loop_balanced list (i + 1) (opened + 1) (closed + 1) (omega (arith, e)),
)

-- Every socket that `dial` opens is closed again, but for the one that it returns.
pub dial_balanced :
    (addresses : Option (List Address))
    → let d = dial addresses in d.opened ≡ d.closed + left_open d.connected
unfolding dial
dial_balanced none = refl
dial_balanced (some list) = dial_loop_balanced list 0 0 0 refl

-- A connection that stands is in blocking mode, and stands only if the connect succeeded at once or
-- was in progress, came ready within the deadline and left no error.
pub connect_deadline_lem :
    (c : Connect)
    → ((connect_deadline c).ok ≡ (connect_deadline c).blocking)
      × ((connect_deadline c).ok ≡ true
          → (c.at_once ≡ true) ⊎ ((c.in_progress ≡ true) × (c.writable ≡ true) × (c.error ≡ false)))
unfolding connect_deadline
connect_deadline_lem c = ground arith

-- A run that returned: what the socket took beyond `taken` is a prefix of `p`, and all of it if the
-- return value is 0.
record Delivers (p taken : Bytes) (result : Option Sent) : Type 0 where
  sent : Sent
  returns : result ≡ some sent
  front : Bytes
  back : Bytes
  split : p ≡ front ++ back
  took : sent.taken ≡ taken ++ front
  complete : sent.ok ≡ true → back ≡ []

nothing_left : (taken : Bytes) → Delivers [] taken (some (record { ok = true; taken = taken }))
nothing_left taken = record {
  sent = record { ok = true; taken = taken };
  returns = refl;
  front = [];
  back = [];
  split = refl;
  took = sym (append-nil taken);
  complete = λ _. refl;
}

send_loop-Delivers :
    (send : ℕ → Bytes → ℕ) (fuel k : ℕ) (p taken : Bytes)
    → length p ≤ fuel
    → Delivers p taken (send_loop send fuel k p taken)
unfolding send_loop
send_loop-Delivers send zero k [] taken h = nothing_left taken
send_loop-Delivers send zero k (x ∷ p) taken h = elim h [ ]
send_loop-Delivers send (suc fuel) k [] taken h = nothing_left taken
send_loop-Delivers send (suc fuel) k (x ∷ p) taken h =
    let n = send k (take (min (length (x ∷ p)) (2 ^ 20)) (x ∷ p)) in
    elim (Bool-cases (n == 0)) [
      | inl t ↦ rw t (record {
        sent = record { ok = false; taken = taken };
        returns = refl;
        front = [];
        back = x ∷ p;
        split = refl;
        took = sym (append-nil taken);
        complete = λ e. cc;
      })
      | inr f ↦
          let rest =
            send_loop-Delivers send fuel (k + 1) (drop n (x ∷ p)) (taken ++ take n (x ∷ p))
              (ground (arith, length-drop n (x ∷ p))) in
          rw f (record {
            sent = rest.sent;
            returns = rest.returns;
            front = take n (x ∷ p) ++ rest.front;
            back = rest.back;
            split =
                sym (take-append-drop n (x ∷ p))
                ∙ ap (λ (t : Bytes). take n (x ∷ p) ++ t) rest.split
                ∙ sym (append_assoc (take n (x ∷ p)) rest.front rest.back);
            took = rest.took ∙ append_assoc taken (take n (x ∷ p)) rest.front;
            complete = rest.complete;
          })
    ]

-- Sending always returns. The bytes that the socket took are a prefix of the message, in order, and
-- they are the whole message if the return value is 0.
pub send_all_lem :
    (send : ℕ → Bytes → ℕ) (p : Bytes)
    → (s : Sent) × (back : Bytes) × (send_all send p ≡ some s)
      × (p ≡ s.taken ++ back)
      × (s.ok ≡ true → s.taken ≡ p)
unfolding send_all
send_all_lem send p =
    let d = send_loop-Delivers send (length p) 0 p [] (le_refl _) in
    (
      d.sent,
      d.back,
      d.returns,
      d.split ∙ ap (λ (t : Bytes). t ++ d.back) (sym d.took),
      λ e.
          d.took
          ∙ sym (append-nil d.front)
          ∙ ap (λ (t : Bytes). d.front ++ t) (sym (d.complete e))
          ∙ sym d.split,
    )
