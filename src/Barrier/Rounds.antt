-- ===== src/Barrier/Rounds.antt =====
-- The rounds of the barrier of bench/src/platform.h, as an invariant of its reachable states.
use cross_platform_benchmark.Prelude.{
  ℕ, zero, suc, ◌+◌, ◌^◌, ◌<◌, ◌≤◌, ◌≡◌, ◌≢◌, ◌⊎◌, inl, refl, sym, ap, ◌∙◌, subst, List, [], ◌∷◌,
  ◌++◌, All, All-append, length, length-append, length-replicate, replicate, u32, arith, ◌==◌,
  if◌then◌else◌,
}
use cross_platform_benchmark.Barrier.{
  Thread, running, blocked, Crew, Step, enter, release, wake, Reach, here, next, crew,
}

-- A thread at round `r` of `waits`: it has not entered the round, or it waits in it, or it has not yet
-- noticed that the round before has opened.
abbrev pub AtRound : ℕ → ℕ → Thread → Type 0
AtRound waits r (running k) = k + r ≡ waits
AtRound waits r (blocked mine k) =
    ((mine ≡ u32 r) × (suc k + r ≡ waits)) ⊎ ((mine ≢ u32 r) × (k + r ≡ waits))

-- Whether a thread waits in the round of this generation.
abbrev pub inside : ℕ → Thread → ℕ
inside generation (running k) = 0
inside generation (blocked mine k) = if mine == generation then 1 else 0

abbrev pub count_inside : ℕ → List Thread → ℕ
count_inside generation [] = 0
count_inside generation (t ∷ ts) = inside generation t + count_inside generation ts

-- The state at round `r`: the barrier knows how many wait, and they are not all.
pub record IsAt (waits r : ℕ) (c : Crew) : Type 0 where
  pub counted : c.bar.waiting ≡ count_inside c.bar.generation c.threads
  pub current : c.bar.generation ≡ u32 r
  pub sized : c.bar.limit ≡ length c.threads
  pub closed : c.bar.waiting < c.bar.limit
  pub small : c.bar.limit < 2 ^ 32
  pub placed : All (AtRound waits r) c.threads

count_inside-append :
    (g : ℕ) (xs ys : List Thread)
    → count_inside g (xs ++ ys) ≡ count_inside g xs + count_inside g ys
count_inside-append g [] ys = omega arith
count_inside-append g (x ∷ xs) ys = omega (arith, count_inside-append g xs ys)

inside-le : (g : ℕ) (t : Thread) → inside g t ≤ 1
inside-le g (running k) = omega arith
inside-le g (blocked mine k) = ground arith

count_inside-le : (g : ℕ) (ts : List Thread) → count_inside g ts ≤ length ts
count_inside-le g [] = omega arith
count_inside-le g (t ∷ ts) = omega (arith, count_inside-le g ts, inside-le g t)

-- When every other thread waits in the round, its opening leaves them all behind.
opened :
    (waits r : ℕ) (t : Thread)
    → inside (u32 r) t ≡ 1
    → AtRound waits r t
    → AtRound waits (suc r) t × (inside (u32 (suc r)) t ≡ 0)
opened waits r (running k) e h = absurd (omega arith)
opened waits r (blocked mine k) e h = ground arith

all_opened :
    (waits r : ℕ) (ts : List Thread)
    → count_inside (u32 r) ts ≡ length ts
    → All (AtRound waits r) ts
    → All (AtRound waits (suc r)) ts × (count_inside (u32 (suc r)) ts ≡ 0)
all_opened waits r [] e h = (tt, refl)
all_opened waits r (t ∷ ts) e h =
    let le = inside-le (u32 r) t in
    let les = count_inside-le (u32 r) ts in
    let one = opened waits r t (omega (arith, le, les)) h.0 in
    let rest = all_opened waits r ts (omega (arith, le, les)) h.1 in
    ((one.0, rest.0), omega (arith, one.1, rest.1))

All-split :
    (P : Thread → Type 0) (xs : List Thread) (t : Thread) (ys : List Thread)
    → All P (xs ++ (t ∷ ys))
    → All P xs × P t × All P ys
All-split P [] t ys h = (tt, h.0, h.1)
All-split P (x ∷ xs) t ys h = let s = All-split P xs t ys h.1 in ((h.0, s.0), s.1, s.2)

All-replicate : (P : Thread → Type 0) (n : ℕ) (t : Thread) → P t → All P (replicate n t)
All-replicate P zero t h = tt
All-replicate P (suc n) t h = (h, All-replicate P n t h)

-- What is known of a state in which a thread stands between two others' lists.
record Standing (waits r : ℕ) (s : Crew) (xs ys : List Thread) (a : Thread) : Type 0 where
  all_counted :
      s.bar.waiting
      ≡ count_inside s.bar.generation xs
        + (inside s.bar.generation a + count_inside s.bar.generation ys)
  all_sized : s.bar.limit ≡ length xs + suc (length ys)
  lefts : All (AtRound waits r) xs
  mine_placed : AtRound waits r a
  rights : All (AtRound waits r) ys

standing :
    (waits r : ℕ) (s : Crew) (xs ys : List Thread) (a : Thread)
    → IsAt waits r s
    → s.threads ≡ xs ++ (a ∷ ys)
    → Standing waits r s xs ys a
standing waits r s xs ys a at e =
    let parts = All-split (AtRound waits r) xs a ys (subst (All (AtRound waits r)) e at.placed) in
    record {
      all_counted =
          at.counted
          ∙ ap (count_inside s.bar.generation) e
          ∙ count_inside-append s.bar.generation xs (a ∷ ys);
      all_sized = at.sized ∙ ap (length {0}) e ∙ length-append xs (a ∷ ys);
      lefts = parts.0;
      mine_placed = parts.1;
      rights = parts.2;
    }

enter-IsAt :
    (waits r : ℕ) (s : Crew) (xs ys : List Thread) (k : ℕ)
    → IsAt waits r s
    → s.threads ≡ xs ++ (running (suc k) ∷ ys)
    → u32 (s.bar.waiting + 1) ≢ s.bar.limit
    → IsAt waits r (record {
      bar = record s.bar { waiting = u32 (s.bar.waiting + 1) };
      threads = xs ++ (blocked s.bar.generation k ∷ ys);
    })
enter-IsAt waits r s xs ys k at e more =
    let st = standing waits r s xs ys (running (suc k)) at e in
    let one : inside s.bar.generation (blocked s.bar.generation k) ≡ 1 = ground arith in
    let split = count_inside-append s.bar.generation xs (blocked s.bar.generation k ∷ ys) in
    record {
      counted = omega (arith, st.all_counted, one, split, at.closed, at.small);
      current = at.current;
      sized = omega (arith, st.all_sized, length-append xs (blocked s.bar.generation k ∷ ys));
      closed = omega (arith, at.closed, at.small);
      small = at.small;
      placed =
          All-append (AtRound waits r) xs (blocked s.bar.generation k ∷ ys) st.lefts
            (inl (at.current, st.mine_placed), st.rights);
    }

release-IsAt :
    (waits r : ℕ) (s : Crew) (xs ys : List Thread) (k : ℕ)
    → IsAt waits r s
    → s.threads ≡ xs ++ (running (suc k) ∷ ys)
    → u32 (s.bar.waiting + 1) ≡ s.bar.limit
    → IsAt waits (suc r) (record {
      bar = record s.bar { waiting = 0; generation = u32 (s.bar.generation + 1) };
      threads = xs ++ (running k ∷ ys);
    })
release-IsAt waits r s xs ys k at e last =
    let st = standing waits r s xs ys (running (suc k)) at e in
    let g = s.bar.generation in
    let lx = count_inside-le g xs in
    let ly = count_inside-le g ys in
    let full : s.bar.waiting + 1 ≡ s.bar.limit = omega (arith, at.closed, at.small) in
    let fx : count_inside (u32 r) xs ≡ length xs =
      subst (λ g. count_inside g xs ≡ length xs) at.current
        (omega (arith, st.all_counted, st.all_sized)) in
    let fy : count_inside (u32 r) ys ≡ length ys =
      subst (λ g. count_inside g ys ≡ length ys) at.current
        (omega (arith, st.all_counted, st.all_sized)) in
    let ox = all_opened waits r xs fx st.lefts in
    let oy = all_opened waits r ys fy st.rights in
    let next_g : u32 (g + 1) ≡ u32 (suc r) = omega (arith, at.current) in
    let split = count_inside-append (u32 (suc r)) xs (running k ∷ ys) in
    record {
      counted =
          subst (λ g. 0 ≡ count_inside g (xs ++ (running k ∷ ys))) (sym next_g)
            (omega (arith, split, ox.1, oy.1));
      current = next_g;
      sized = omega (arith, st.all_sized, length-append xs (running k ∷ ys));
      closed = omega (arith, at.closed);
      small = at.small;
      placed =
          All-append (AtRound waits (suc r)) xs (running k ∷ ys) ox.0
            (omega (arith, st.mine_placed), oy.0);
    }

wake-IsAt :
    (waits r : ℕ) (s : Crew) (xs ys : List Thread) (mine k : ℕ)
    → IsAt waits r s
    → s.threads ≡ xs ++ (blocked mine k ∷ ys)
    → mine ≢ s.bar.generation
    → IsAt waits r (record s { threads = xs ++ (running k ∷ ys) })
wake-IsAt waits r s xs ys mine k at e awake =
    let st = standing waits r s xs ys (blocked mine k) at e in
    let g = s.bar.generation in
    let none_here : inside g (blocked mine k) ≡ 0 = ground arith in
    let placed : k + r ≡ waits = ground (arith, st.mine_placed, at.current) in
    record {
      counted = omega (arith, st.all_counted, none_here, count_inside-append g xs (running k ∷ ys));
      current = at.current;
      sized = omega (arith, st.all_sized, length-append xs (running k ∷ ys));
      closed = at.closed;
      small = at.small;
      placed = All-append (AtRound waits r) xs (running k ∷ ys) st.lefts (placed, st.rights);
    }

pub Step-IsAt :
    (waits r : ℕ) {s t : Crew} → Step s t → IsAt waits r s → (q : ℕ) × (r ≤ q) × IsAt waits q t
Step-IsAt waits r (enter xs ys k e more f) at =
    (r, omega arith, subst (IsAt waits r) (sym f) (enter-IsAt waits r _ xs ys k at e more))
Step-IsAt waits r (release xs ys k e last f) at = (
  suc r,
  omega arith,
  subst (IsAt waits (suc r)) (sym f) (release-IsAt waits r _ xs ys k at e last),
)
Step-IsAt waits r (wake xs ys mine k e awake f) at =
    (r, omega arith, subst (IsAt waits r) (sym f) (wake-IsAt waits r _ xs ys mine k at e awake))

count_inside-replicate : (g n k : ℕ) → count_inside g (replicate n (running k)) ≡ 0
count_inside-replicate g zero k = refl
count_inside-replicate g (suc n) k = omega (arith, count_inside-replicate g n k)

crew-IsAt : (n waits : ℕ) → 0 < n → n < 2 ^ 32 → IsAt waits 0 (crew n waits)
crew-IsAt n waits pos small = record {
  counted = sym (count_inside-replicate 0 n waits);
  current = refl;
  sized = sym (length-replicate n (running waits));
  closed = pos;
  small = small;
  placed = All-replicate (AtRound waits 0) n (running waits) (omega arith);
}

-- For 0 < n < 2^32: in every state that `n` threads with `waits` calls each can reach, there is a round
-- of the barrier that each thread has not entered yet, or waits in, or has reached without having noticed yet that
-- the round before it has opened: no thread is a round ahead of another one that has not entered.
pub Reach-IsAt :
    (n waits : ℕ) {c : Crew}
    → 0 < n
    → n < 2 ^ 32
    → Reach (crew n waits) c
    → (r : ℕ) × IsAt waits r c
Reach-IsAt n waits pos small here = (0, crew-IsAt n waits pos small)
Reach-IsAt n waits pos small (next path step) =
    let (r, at) = Reach-IsAt n waits pos small path in
    let (q, _, at') = Step-IsAt waits r step at in (q, at')
