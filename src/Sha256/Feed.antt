-- ===== src/Sha256/Feed.antt =====
-- `sha256_update` of bench/src/sha256.c against storing one byte at a time.
use cross_platform_benchmark.Prelude.{
  ℕ, zero, suc, ◌+◌, ◌-◌, ◌<◌, ◌≤◌, ◌≡◌, refl, ap, sym, ◌∙◌, [], ◌∷◌, ◌++◌, some, foldl, Bytes,
  length, set, take, drop, length-set, length-append, length-take, length-drop, take-append-drop,
  foldl-append, append_assoc, Bool-cases, inl, inr, ◌==◌, ltb, ltb→lt, if◌then◌else◌, u64, arith,
}
use native.Mathlib.Nat.{add-zero}
use native.Mathlib.Numerals.{add-one}
use cross_platform_benchmark.Sha256.{
  Ctx, compress, write_at, copy_in, update_round, update_loop, update, ◌>>=◌,
}

-- One byte into the buffer, which is compressed when it is full.
abbrev pub store : Ctx → ℕ → Ctx
store c x =
    let buf' = set c.buf c.used x in
    if c.used + 1 == 64
    then record c { h = compress c.h buf'; buf = buf'; used = 0 }
    else record c { buf = buf'; used = c.used + 1 }

-- Between calls there is room in the buffer.
pub record IsReady (c : Ctx) : Type 0 where
  pub whole : length c.buf ≡ 64
  pub room : c.used < 64

pub store-IsReady : (c : Ctx) (x : ℕ) → IsReady c → IsReady (store c x)
store-IsReady c x r = ground (arith, length-set c.buf c.used x)

pub foldl-store-IsReady : (p : Bytes) (c : Ctx) → IsReady c → IsReady (foldl store c p)
foldl-store-IsReady [] c r = r
foldl-store-IsReady (x ∷ p) c r = foldl-store-IsReady p (store c x) (store-IsReady c x r)

take-set :
    (buf : Bytes) (u x : ℕ) → u < length buf → take (suc u) (set buf u x) ≡ take u buf ++ x ∷ []
take-set [] u x h = elim h [ ]
take-set (b ∷ buf) zero x h = refl
take-set (b ∷ buf) (suc u) x h = ap (λ t. b ∷ t) (take-set buf u x (omega arith))

drop-set : (buf : Bytes) (m u x : ℕ) → u < m → drop m (set buf u x) ≡ drop m buf
drop-set [] m u x h = refl
drop-set (b ∷ buf) zero u x h = elim h [ ]
drop-set (b ∷ buf) (suc m) zero x h = refl
drop-set (b ∷ buf) (suc m) (suc u) x h = drop-set buf m u x (omega arith)

drop-take-all : (buf : Bytes) (u : ℕ) → take u buf ++ drop (u + 0) buf ≡ buf
drop-take-all buf u = rw add-zero (take-append-drop u buf)

write_at-nil : (buf : Bytes) (u : ℕ) → write_at buf u [] ≡ buf
unfolding write_at
write_at-nil buf u = drop-take-all buf u

write_at-set :
    (buf : Bytes) (u x : ℕ) (q : Bytes)
    → u < length buf
    → write_at (set buf u x) (u + 1) q ≡ write_at buf u (x ∷ q)
unfolding write_at
write_at-set buf u x q h =
    let ends : u + 1 + length q ≡ u + suc (length q) = omega arith in
    rw (
      ends,
      drop-set buf (u + suc (length q)) u x (omega arith),
      add-one,
      take-set buf u x h,
      append_assoc,
    )

-- Storing bytes that fit, one at a time, is one write.
pub fill :
    (p : Bytes) (c : Ctx) (x : ℕ)
    → IsReady c
    → c.used + length (x ∷ p) ≤ 64
    → foldl store c (x ∷ p) ≡ copy_in c (x ∷ p)
unfolding copy_in
fill [] c x r h = rw (← write_at-set c.buf c.used x [] (omega arith), write_at-nil) refl
fill (y ∷ p) c x r h =
    let len : c.used + suc (suc (length p)) ≡ c.used + 1 + suc (length p) = omega arith in
    let c' : Ctx = record c { buf = set c.buf c.used x; used = c.used + 1 } in
    let below : store c x ≡ c' = ground arith in
    let ready : IsReady c' = ground (arith, length-set c.buf c.used x) in
    rw (below, len, ← write_at-set c.buf c.used x (y ∷ p) (omega arith))
      (fill p c' y ready (omega arith))

-- A round of the loop stores the bytes that it takes, one at least.
update_round_stores :
    (c : Ctx) (x : ℕ) (p : Bytes)
    → IsReady c
    → (k : ℕ) × (update_round c (x ∷ p) ≡ (foldl store c (x ∷ take k p), drop k p))
unfolding update_round
update_round_stores c x p r = elim (Bool-cases (ltb (suc (length p)) (64 - c.used))) [
  | inl short ↦ (
    length p,
    rw (short, ← fill (take (length p) p) c x r (omega (arith, ltb→lt _ _ short, len (length p)))),
  )
  | inr long ↦
      let room : 64 - c.used ≡ suc (63 - c.used) = omega arith in
      (
        63 - c.used,
        rw (long, room, ← fill (take (63 - c.used) p) c x r (omega (arith, len (63 - c.used)))),
      )
]
  where
    len : (k : ℕ) → length (take k p) ≤ k
    len k = omega (arith, length-take k p)

-- The loop ends within its fuel, and has stored every byte.
update_loop_stores :
    (fuel : ℕ) (c : Ctx) (p : Bytes)
    → IsReady c
    → length p ≤ fuel
    → update_loop fuel c p ≡ some (foldl store c p)
unfolding update_loop
update_loop_stores zero c [] r h = refl
update_loop_stores zero c (x ∷ p) r h = elim h [ ]
update_loop_stores (suc fuel) c [] r h = refl
update_loop_stores (suc fuel) c (x ∷ p) r h =
    let (k, e) = update_round_stores c x p r in
    let c' : Ctx = foldl store c (x ∷ take k p) in
    ap (λ (t : Ctx × Bytes). update_loop fuel t.0 t.1) e
    ∙ update_loop_stores fuel c' (drop k p) (foldl-store-IsReady (x ∷ take k p) c r)
        (omega (arith, length-drop k p))
    ∙ ap some (
        sym (foldl-append store (store c x) (take k p) (drop k p))
        ∙ ap (foldl store (store c x)) (take-append-drop k p))

store_bytes :
    (c : Ctx) (x b : ℕ) → store (record c { bytes = b }) x ≡ record (store c x) { bytes = b }
store_bytes c x b = ground arith

-- The counter goes along unused.
pub foldl-store_bytes :
    (p : Bytes) (c : Ctx) (b : ℕ)
    → foldl store (record c { bytes = b }) p ≡ record (foldl store c p) { bytes = b }
foldl-store_bytes [] c b = refl
foldl-store_bytes (x ∷ p) c b = rw (store_bytes c x b) (foldl-store_bytes p (store c x) b)

pub update_stores :
    (c : Ctx) (p : Bytes)
    → IsReady c
    → update c p ≡ some (record (foldl store c p) { bytes = u64 (c.bytes + length p) })
unfolding update
update_stores c p r =
    update_loop_stores (length p) (record c { bytes = u64 (c.bytes + length p) }) p
      (record { whole = r.whole; room = r.room }) (omega arith)
    ∙ ap some (foldl-store_bytes p c (u64 (c.bytes + length p)))

-- Feeding `p` and then `q` is feeding `p ++ q`: the whole context is the same, the counter and the
-- buffer included.
pub update-append :
    (c : Ctx) (p q : Bytes) → IsReady c → (update c p >>= λ c'. update c' q) ≡ update c (p ++ q)
update-append c p q r =
    rw (update_stores c p r, update_stores c (p ++ q) r, foldl-append store c p q)
      (update_stores mid q mid-ready ∙ ap some same)
  where
    mid : Ctx
    mid = record (foldl store c p) { bytes = u64 (c.bytes + length p) }

    mid-ready : IsReady mid
    mid-ready =
        let ready = foldl-store-IsReady p c r in record { whole = ready.whole; room = ready.room }

    counts : u64 (u64 (c.bytes + length p) + length q) ≡ u64 (c.bytes + length (p ++ q))
    counts = omega (arith, length-append p q)

    same :
        record (foldl store mid q) { bytes = u64 (mid.bytes + length q) }
        ≡ record (foldl store (foldl store c p) q) { bytes = u64 (c.bytes + length (p ++ q)) }
    same = rw (foldl-store_bytes q (foldl store c p) _, counts)
