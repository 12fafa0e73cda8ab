-- ===== src/Kernels/Compute.antt =====
-- The integer and floating-point kernels of bench/src/kernels.c.
use cross_platform_benchmark.Prelude.{
  ℕ, zero, suc, ◌+◌, ◌*◌, ◌/◌, ◌%◌, ◌^◌, ◌<◌, ◌≡◌, ◌≢◌, refl, sym, ap, ap₂, ◌∙◌, List, [], ◌∷◌, map,
  length, All, get_or, get_or-set_self, u64, sub64, bit_xor, arith,
}
use cross_platform_benchmark.Prelude.Bits.{bit_xor_cancel, bit_xor-lt_pow}
use cross_platform_benchmark.Kernels.{
  rounds, IntCtx, MulCtx, FpCtx, int_step, int_kernel_lat, int_kernel_thr, mul_step, mul_kernel_thr,
  fp_step, fp_lanes, fp_kernel_lat, fp_kernel_thr,
}

get_or-map {ℓ κ} :
    {A : Type ℓ} {B : Type κ} (f : A → B) (xs : List A) (i : ℕ) (d : A) (e : B)
    → i < length xs
    → get_or (map f xs) i e ≡ f (get_or xs i d)
get_or-map f [] i d e h = elim h [ ]
get_or-map f (x ∷ xs) zero d e h = refl
get_or-map f (x ∷ xs) (suc i) d e h = get_or-map f xs i d e (omega arith)

length-map {ℓ} : {A : Type ℓ} (f : A → A) (xs : List A) → length (map f xs) ≡ length xs
length-map f [] = refl
length-map f (x ∷ xs) = ap suc (length-map f xs)

-- Rounds over a list of lanes are rounds on each.
get_or-rounds {ℓ} :
    {A : Type ℓ} (f : A → A) (n : ℕ) (xs : List A) (i : ℕ) (d : A)
    → i < length xs
    → get_or (rounds n (map f) xs) i d ≡ rounds n f (get_or xs i d)
get_or-rounds f zero xs i d h = refl
get_or-rounds f (suc n) xs i d h =
    get_or-rounds f n (map f xs) i d (omega (arith, length-map f xs))
    ∙ ap (rounds n f) (get_or-map f xs i d d h)

rounds_eight {ℓ} :
    {A : Type ℓ} (f : A → A) (n : ℕ) (a : A)
    → rounds n (λ x. f (f (f (f (f (f (f (f x)))))))) a ≡ rounds (8 * n) f a
rounds_eight f zero a = refl
rounds_eight {A = A} f (suc n) a =
    let e : 8 * suc n ≡ suc (suc (suc (suc (suc (suc (suc (suc (8 * n)))))))) = omega arith in
    rounds_eight f n _ ∙ ap (λ (k : ℕ). rounds k f a) (sym e)

-- The latency kernel retires on its lane what the throughput kernel retires there in eight times as
-- many rounds: the same sequence of operations.
pub int_kernel_lat-thr :
    (c : IntCtx) (n : ℕ)
    → 0 < length c.l
    → get_or (int_kernel_lat c n).l 0 0 ≡ get_or (int_kernel_thr c (8 * n)).l 0 0
unfolding int_kernel_lat int_kernel_thr
int_kernel_lat-thr c n h =
    get_or-set_self c.l 0 _ 0 h
    ∙ rounds_eight _ n (get_or c.l 0 0)
    ∙ sym (get_or-rounds _ (8 * n) c.l 0 0 h)

-- What takes an integer step back.
int_unstep : ℕ → ℕ → ℕ → ℕ
int_unstep k1 k2 x = sub64 (bit_xor (u64 (bit_xor x k2 + k1)) k2) k1

int_unstep-int_step :
    (k1 k2 a : ℕ) → k1 < 2 ^ 64 → k2 < 2 ^ 64 → a < 2 ^ 64 → int_unstep k1 k2 (int_step k1 k2 a) ≡ a
unfolding int_step int_unstep
int_unstep-int_step k1 k2 a h1 h2 ha =
    let p = u64 (a + k1) in
    let q = bit_xor p k2 in
    let r = sub64 q k1 in
    let hq : q < 2 ^ 64 = bit_xor-lt_pow 64 p k2 (omega arith) h2 in
    let back : u64 (r + k1) ≡ q = omega arith in
    rw (bit_xor_cancel r k2, back, bit_xor_cancel p k2) (omega arith)

int_step-lt : (k1 k2 a : ℕ) → k2 < 2 ^ 64 → int_step k1 k2 a < 2 ^ 64
unfolding int_step
int_step-lt k1 k2 a h2 = bit_xor-lt_pow 64 _ k2 (omega arith) h2

rounds-injective :
    (k1 k2 n a b : ℕ)
    → k1 < 2 ^ 64
    → k2 < 2 ^ 64
    → a < 2 ^ 64
    → b < 2 ^ 64
    → rounds n (int_step k1 k2) a ≡ rounds n (int_step k1 k2) b
    → a ≡ b
rounds-injective k1 k2 zero a b h1 h2 ha hb e = e
rounds-injective k1 k2 (suc n) a b h1 h2 ha hb e =
    sym (int_unstep-int_step k1 k2 a h1 h2 ha)
    ∙ ap (int_unstep k1 k2)
        (rounds-injective k1 k2 n _ _ h1 h2 (int_step-lt k1 k2 a h2) (int_step-lt k1 k2 b h2) e)
    ∙ int_unstep-int_step k1 k2 b h1 h2 hb

-- Lanes that differ still differ after any number of rounds: no information is lost on the way.
pub int_kernel_thr-injective :
    (c : IntCtx) (n i j : ℕ)
    → i < length c.l
    → j < length c.l
    → get_or c.k 0 0 < 2 ^ 64
    → get_or c.k 1 0 < 2 ^ 64
    → get_or c.l i 0 < 2 ^ 64
    → get_or c.l j 0 < 2 ^ 64
    → get_or c.l i 0 ≢ get_or c.l j 0
    → get_or (int_kernel_thr c n).l i 0 ≢ get_or (int_kernel_thr c n).l j 0
unfolding int_kernel_thr
int_kernel_thr-injective c n i j hi hj h1 h2 ha hb ne e = ne (
    rounds-injective _ _ n _ _ h1 h2 ha hb
      (sym (get_or-rounds _ n c.l i 0 hi) ∙ e ∙ get_or-rounds _ n c.l j 0 hj))

odd_mul : (p q : ℕ) → ((2 * p + 1) * (2 * q + 1)) % 2 ≡ 1
odd_mul p q = omega arith

mul_step_odd : (m a : ℕ) → m % 2 ≡ 1 → a % 2 ≡ 1 → mul_step m a % 2 ≡ 1
unfolding mul_step
mul_step_odd m a hm ha =
    let e : m ≡ 2 * (m / 2) + 1 = omega arith in
    let f : a ≡ 2 * (a / 2) + 1 = omega arith in
    let odd : (a * m) % 2 ≡ 1 = ap₂ (λ (x y : ℕ). (x * y) % 2) f e ∙ odd_mul (a / 2) (m / 2) in
    omega arith

abbrev pub IsOdd : ℕ → Type 0
IsOdd a = a % 2 ≡ 1

map-IsOdd : (m : ℕ) (xs : List ℕ) → m % 2 ≡ 1 → All IsOdd xs → All IsOdd (map (mul_step m) xs)
map-IsOdd m [] hm h = tt
map-IsOdd m (x ∷ xs) hm (hx, h) = (mul_step_odd m x hm hx, map-IsOdd m xs hm h)

rounds-IsOdd :
    (m n : ℕ) (xs : List ℕ) → m % 2 ≡ 1 → All IsOdd xs → All IsOdd (rounds n (map (mul_step m)) xs)
rounds-IsOdd m zero xs hm h = h
rounds-IsOdd m (suc n) xs hm h = rounds-IsOdd m n _ hm (map-IsOdd m xs hm h)

-- With an odd multiplier and odd lanes, as the driver seeds them, every lane is odd after any number
-- of rounds: none collapses to zero.
pub mul_kernel_thr-IsOdd :
    (c : MulCtx) (n : ℕ) → IsOdd c.m → All IsOdd c.l → All IsOdd (mul_kernel_thr c n).l
unfolding mul_kernel_thr
mul_kernel_thr-IsOdd c n hm h = rounds-IsOdd c.m n c.l hm h

module _ {ℓ} {Double : Type ℓ} (add mul : Double → Double → Double) (z : Double) where
  length-fp_lanes :
      (c : Double) (bs xs : List Double) → length (fp_lanes add mul z c bs xs) ≡ length xs
  unfolding fp_lanes
  length-fp_lanes c bs [] = refl
  length-fp_lanes c [] (x ∷ xs) = refl
  length-fp_lanes c (b ∷ bs) (x ∷ xs) = ap suc (length-fp_lanes c bs xs)

  get_or-fp_once :
      (c : Double) (i : ℕ) (bs xs : List Double)
      → i < length xs
      → i < length bs
      → get_or (fp_lanes add mul z c bs xs) i z
        ≡ fp_step add mul z c (get_or bs i z) (get_or xs i z)
  unfolding fp_lanes
  get_or-fp_once c i bs [] h k = elim h [ ]
  get_or-fp_once c i [] (x ∷ xs) h k = elim k [ ]
  get_or-fp_once c zero (b ∷ bs) (x ∷ xs) h k = refl
  get_or-fp_once c (suc i) (b ∷ bs) (x ∷ xs) h k =
      get_or-fp_once c i bs xs (omega arith) (omega arith)

  get_or-fp_lanes :
      (c : Double) (n i : ℕ) (bs xs : List Double)
      → i < length xs
      → i < length bs
      → get_or (rounds n (fp_lanes add mul z c bs) xs) i z
        ≡ rounds n (fp_step add mul z c (get_or bs i z)) (get_or xs i z)
  get_or-fp_lanes c zero i bs xs h k = refl
  get_or-fp_lanes c (suc n) i bs xs h k =
      get_or-fp_lanes c n i bs (fp_lanes add mul z c bs xs) (rw (length-fp_lanes c bs xs) h) k
      ∙ ap (rounds n (fp_step add mul z c (get_or bs i z))) (get_or-fp_once c i bs xs h k)

  -- After the same number of rounds the latency kernel and lane 0 of the throughput kernel hold the
  -- same value, whatever the arithmetic of doubles is.
  pub fp_kernel_lat-thr :
      (f : FpCtx add mul z) (n : ℕ)
      → 0 < length f.x
      → 0 < length f.b
      → get_or (fp_kernel_lat add mul z f n).x 0 z ≡ get_or (fp_kernel_thr add mul z f n).x 0 z
  unfolding fp_kernel_lat fp_kernel_thr
  fp_kernel_lat-thr f n h k =
      get_or-set_self f.x 0 _ z h ∙ sym (get_or-fp_lanes f.c n 0 f.b f.x h k)
