-- ===== src/Barrier/Progress.antt =====
-- The progress of the threads at the barrier of bench/src/platform.h.
use cross_platform_benchmark.Prelude.{
  ℕ, zero, suc, ◌+◌, ◌*◌, ◌^◌, ◌<◌, ◌≡◌, ◌≢◌, ◌⊎◌, inl, inr, refl, ap, ◌∙◌, subst, List, [], ◌∷◌,
  ◌++◌, All, length, u32, arith, ◌==◌, Bool-cases,
}
use cross_platform_benchmark.Barrier.{
  Thread, running, blocked, Crew, Step, enter, release, wake, Reach, here, next, crew,
}
use cross_platform_benchmark.Barrier.Rounds.{
  AtRound, IsAt, inside, count_inside, Step-IsAt, Reach-IsAt,
}

-- No call of the barrier is left.
abbrev pub IsDone : Thread → Type 0
IsDone (running zero) = Unit
IsDone (running (suc k)) = ⊥
IsDone (blocked mine k) = ⊥

-- Done, or waiting for the generation to pass.
abbrev IsStill : ℕ → Thread → Type 0
IsStill g (running zero) = Unit
IsStill g (running (suc k)) = ⊥
IsStill g (blocked mine k) = mine ≡ g

-- The first thread that can move, if any can.
data Look (g : ℕ) (ts : List Thread) : Type 0 where
  enters : (xs ys : List Thread) (k : ℕ) → ts ≡ xs ++ (running (suc k) ∷ ys) → Look g ts
  wakes :
      (xs ys : List Thread) (mine k : ℕ) → ts ≡ xs ++ (blocked mine k ∷ ys) → mine ≢ g → Look g ts
  still : All (IsStill g) ts → Look g ts

behind_one : (g : ℕ) (t : Thread) (ts : List Thread) → IsStill g t → Look g ts → Look g (t ∷ ts)
behind_one g t ts h (enters xs ys k e) = enters (t ∷ xs) ys k (ap (λ l. t ∷ l) e)
behind_one g t ts h (wakes xs ys mine k e n) = wakes (t ∷ xs) ys mine k (ap (λ l. t ∷ l) e) n
behind_one g t ts h (still a) = still (h, a)

look : (g : ℕ) (ts : List Thread) → Look g ts
look g [] = still tt
look g (running zero ∷ ts) = behind_one g (running zero) ts tt (look g ts)
look g (running (suc k) ∷ ts) = enters [] ts k refl
look g (blocked mine k ∷ ts) = elim (Bool-cases (mine == g)) [
  | inl e ↦ behind_one g (blocked mine k) ts (ground (arith, e)) (look g ts)
  | inr n ↦ wakes [] ts mine k refl (ground (arith, n))
]

-- At the last round those that are still are done.
still_done :
    (waits g : ℕ) (ts : List Thread)
    → All (IsStill g) ts
    → All (AtRound waits waits) ts
    → g ≡ u32 waits
    → All IsDone ts
still_done waits g [] h p e = tt
still_done waits g (running zero ∷ ts) h p e = (tt, still_done waits g ts h.1 p.1 e)
still_done waits g (running (suc k) ∷ ts) h p e = absurd h.0
still_done waits g (blocked mine k ∷ ts) h p e = absurd (ground (arith, h.0, p.0))

-- Before it they all wait in the round.
still_inside :
    (waits r g : ℕ) (ts : List Thread)
    → All (IsStill g) ts
    → All (AtRound waits r) ts
    → r ≢ waits
    → count_inside g ts ≡ length ts
still_inside waits r g [] h p n = refl
still_inside waits r g (running zero ∷ ts) h p n = absurd (n (omega arith))
still_inside waits r g (running (suc k) ∷ ts) h p n = absurd h.0
still_inside waits r g (blocked mine k ∷ ts) h p n =
    let rest = still_inside waits r g ts h.1 p.1 n in
    let one : inside g (blocked mine k) ≡ 1 = ground (arith, h.0) in omega (arith, rest, one)

progress :
    (waits r : ℕ) (s : Crew) → IsAt waits r s → All IsDone s.threads ⊎ ((t : Crew) × Step s t)
progress waits r s at = elim (look s.bar.generation s.threads) [
  | enters xs ys k e ↦ inr (elim (Bool-cases (u32 (s.bar.waiting + 1) == s.bar.limit)) [
    | inl last ↦ (_, release xs ys k e (ground (arith, last)) refl)
    | inr more ↦ (_, enter xs ys k e (ground (arith, more)) refl)
  ])
  | wakes xs ys mine k e n ↦ inr (_, wake xs ys mine k e n refl)
  | still a ↦ inl (elim (Bool-cases (r == waits)) [
    | inl e ↦
        let same : r ≡ waits = ground (arith, e) in
        still_done waits s.bar.generation s.threads a
          (subst (λ q. All (AtRound waits q) s.threads) same at.placed) (at.current ∙ ap u32 same)
    | inr n ↦
        let full =
          still_inside waits r s.bar.generation s.threads a at.placed (ground (arith, n)) in
        absurd (omega (arith, full, at.counted, at.sized, at.closed))
  ])
]

-- How many sections a thread has still to go through, at most.
abbrev pub weight : Thread → ℕ
weight (running k) = 2 * k
weight (blocked mine k) = 2 * k + 1

abbrev pub total_weight : List Thread → ℕ
total_weight [] = 0
total_weight (t ∷ ts) = weight t + total_weight ts

total_weight-append :
    (xs ys : List Thread) → total_weight (xs ++ ys) ≡ total_weight xs + total_weight ys
total_weight-append [] ys = omega arith
total_weight-append (x ∷ xs) ys = omega (arith, total_weight-append xs ys)

lighter :
    (xs ys ts us : List Thread) (a b : Thread)
    → ts ≡ xs ++ (a ∷ ys)
    → us ≡ xs ++ (b ∷ ys)
    → weight b < weight a
    → total_weight us < total_weight ts
lighter xs ys ts us a b e f h = omega (
  arith,
  ap total_weight e,
  ap total_weight f,
  total_weight-append xs (a ∷ ys),
  total_weight-append xs (b ∷ ys),
)

-- Every step of any thread lessens what is left to do.
Step-lighter : {s t : Crew} → Step s t → total_weight t.threads < total_weight s.threads
Step-lighter {s} {t} (enter xs ys k e more f) =
    lighter xs ys s.threads t.threads (running (suc k)) (blocked s.bar.generation k) e
      (ap (λ (c : Crew). c.threads) f) (omega arith)
Step-lighter {s} {t} (release xs ys k e last f) =
    lighter xs ys s.threads t.threads (running (suc k)) (running k) e
      (ap (λ (c : Crew). c.threads) f) (omega arith)
Step-lighter {s} {t} (wake xs ys mine k e n f) =
    lighter xs ys s.threads t.threads (blocked mine k) (running k) e
      (ap (λ (c : Crew). c.threads) f) (omega arith)

Step-Reach : {s t u : Crew} → Step s t → Reach t u → Reach s u
Step-Reach a here = next here a
Step-Reach a (next p b) = next (Step-Reach a p) b

finish :
    (fuel waits r : ℕ) (s : Crew)
    → IsAt waits r s
    → total_weight s.threads < fuel
    → (t : Crew) × Reach s t × All IsDone t.threads
finish zero waits r s at h = absurd (omega arith)
finish (suc fuel) waits r s at h = elim (progress waits r s at) [
  | inl done ↦ (s, here, done)
  | inr (t, a) ↦
      let (q, _, at') = Step-IsAt waits r a at in
      let (u, path, done) = finish fuel waits q t at' (omega (arith, Step-lighter a)) in
      (u, Step-Reach a path, done)
]

-- For 0 < n < 2^32, however the steps of the `n` threads have interleaved so far: a state in which no
-- thread can move is one in which all have made their calls, every further step leaves less to do, and so from here all of
-- them come through.
pub Reach-finishes :
    (n waits : ℕ) {c : Crew}
    → 0 < n
    → n < 2 ^ 32
    → Reach (crew n waits) c
    → (All IsDone c.threads ⊎ ((d : Crew) × Step c d))
      × ((d : Crew) → Step c d → total_weight d.threads < total_weight c.threads)
      × ((d : Crew) × Reach c d × All IsDone d.threads)
Reach-finishes n waits {c} pos small path =
    let (r, at) = Reach-IsAt n waits pos small path in
    (
      progress waits r c at,
      λ d a. Step-lighter a,
      finish (suc (total_weight c.threads)) waits r c at (omega arith),
    )
