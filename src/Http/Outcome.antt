-- ===== src/Http/Outcome.antt =====
-- Results that may carry an error text, and the sequencing of them.
use cross_platform_benchmark.Prelude.{Bytes, Bool, true, false, ◌≡◌, refl}

pub data Outcome {ℓ} (A : Type ℓ) : Type ℓ where
  done : A → Outcome A
  failed : Bytes → Outcome A

infixl 5 ◌>>=◌ ◌>>◌
abbrev pub ◌>>=◌ {ℓ κ} : {A : Type ℓ} {B : Type κ} → Outcome A → (A → Outcome B) → Outcome B
done a >>= f = f a
failed e >>= f = failed e

abbrev pub ◌>>◌ {ℓ} : {B : Type ℓ} → Outcome (Unit {0}) → Outcome B → Outcome B
m >> k = m >>= λ _. k

-- `if (!test) return fail(r, e);`
abbrev pub require : Bool → Bytes → Outcome (Unit {0})
require true e = done tt
require false e = failed e

-- What holds of the value, if there is one.
abbrev pub OnDone {ℓ κ} : {A : Type ℓ} → (A → Type κ) → Outcome A → Type κ
OnDone P (done a) = P a
OnDone P (failed e) = Unit

pub OnDone-bind {ℓ ℓ' κ μ} :
    {A : Type ℓ} {B : Type ℓ'} (Q : A → Type κ) (P : B → Type μ) (m : Outcome A) (f : A → Outcome B)
    → OnDone Q m
    → ((a : A) → Q a → OnDone P (f a))
    → OnDone P (m >>= f)
OnDone-bind Q P (done a) f q h = h a q
OnDone-bind Q P (failed e) f q h = tt

pub OnDone-require {ℓ κ} :
    {A : Type ℓ} (P : A → Type κ) (t : Bool) (e : Bytes) (k : Outcome A)
    → (t ≡ true → OnDone P k)
    → OnDone P (require t e >> k)
OnDone-require P true e k h = h refl
OnDone-require P false e k h = tt
