-- ===== src/Base/Results.antt =====
-- Fallible code: a Go function that returns `(value, error)`.
use mathlib.Core.Path.{◌≡◌, refl}
use mathlib.Core.Bool.{Bool, true, false}
use mathlib.Core.Option.{Option, none, some}

pub data Result {ℓ κ} (E : Type ℓ) (A : Type κ) : Type (ℓ ⊔ κ) where
  ok : A → Result E A
  err : E → Result E A

-- `if !b { return e }`
abbrev pub guard {ℓ} : {E : Type ℓ} → Bool → E → Result E (Unit {0})
guard false failure = err failure
guard true failure = ok tt

-- `if b { return e }`
abbrev pub fail_if {ℓ} : {E : Type ℓ} → Bool → E → Result E (Unit {0})
fail_if true failure = err failure
fail_if false failure = ok tt

-- a row that has to be there
abbrev pub or_err {ℓ κ} : {E : Type ℓ} {A : Type κ} → Option A → E → Result E A
or_err none failure = err failure
or_err (some row) failure = ok row

module _ {ℓ κ μ} {E : Type ℓ} {A : Type κ} {B : Type μ} where
  infixl 5 ◌>>=◌
  abbrev pub ◌>>=◌ : Result E A → (A → Result E B) → Result E B
  err failure >>= rest = err failure
  ok value >>= rest = rest value

  -- What a function that succeeded had from its first call.
  pub >>=-eq-ok :
      (first : Result E A) (rest : A → Result E B) {r : B}
      → (first >>= rest) ≡ ok r
      → (value : A) × (first ≡ ok value) × (rest value ≡ ok r)
  >>=-eq-ok (err failure) rest e = cc
  >>=-eq-ok (ok value) rest e = (value, refl, e)

infixl 5 ◌>>◌
abbrev pub ◌>>◌ {ℓ κ} : {E : Type ℓ} {B : Type κ} → Result E (Unit {0}) → Result E B → Result E B
check >> rest = check >>= λ _. rest

module _ {ℓ κ} {E : Type ℓ} {B : Type κ} where
  pub guard-eq-ok :
      (c : Bool) (e : E) (k : Result E B) {b : B}
      → (guard c e >> k) ≡ ok b
      → (c ≡ true) × (k ≡ ok b)
  guard-eq-ok true e k h = (refl, h)
  guard-eq-ok false e k h = cc

  pub fail_if-eq-ok :
      (c : Bool) (e : E) (k : Result E B) {b : B}
      → (fail_if c e >> k) ≡ ok b
      → (c ≡ false) × (k ≡ ok b)
  fail_if-eq-ok true e k h = cc
  fail_if-eq-ok false e k h = (refl, h)

pub guard_inv {ℓ} : {E : Type ℓ} (c : Bool) (e : E) → guard c e ≡ ok tt → c ≡ true
guard_inv true e h = refl
guard_inv false e h = cc

pub or_err-eq-ok {ℓ κ μ} :
    {E : Type ℓ} {A : Type κ} {B : Type μ} (o : Option A) (e : E) (f : A → Result E B) {b : B}
    → (or_err o e >>= f) ≡ ok b
    → (a : A) × (o ≡ some a) × (f a ≡ ok b)
or_err-eq-ok none e f h = cc
or_err-eq-ok (some a) e f h = (a, refl, h)

pub ok-injective {ℓ κ} :
    {E : Type ℓ} {A : Type κ} {a b : A} → ◌≡◌ {A = Result E A} (ok a) (ok b) → a ≡ b
ok-injective e = cc

pub ok-eq_0 {ℓ κ μ} :
    {E : Type ℓ} {A : Type κ} {B : Type μ} {a : A} {b : B} {r : A × B}
    → ◌≡◌ {A = Result E (A × B)} (ok (a, b)) (ok r)
    → r.0 ≡ a
ok-eq_0 e = cc

pub ok-eq_1 {ℓ κ μ} :
    {E : Type ℓ} {A : Type κ} {B : Type μ} {a : A} {b : B} {r : A × B}
    → ◌≡◌ {A = Result E (A × B)} (ok (a, b)) (ok r)
    → r.1 ≡ b
ok-eq_1 e = cc
