-- ===== src/Prelude/Results.antt =====
-- Results of fallible code over any type of errors.
use mathlib.Core.Path.{◌≡◌, refl, subst}
use mathlib.Core.Bool.{Bool, true, false}
use mathlib.Core.Option.{Option, none, some}

-- A call of the source: what it throws, or what it returns.
pub data Result {ℓ κ} (E : Type κ) (A : Type ℓ) : Type (ℓ ⊔ κ) where
  err : E → Result E A
  ok : A → Result E A

module _ {ε} {E : Type ε} where
  -- `if (bad) throw problem`, with the condition under which the code goes on.
  abbrev pub require : Bool → E → Result E (Unit {0})
  require false problem = err problem
  require true problem = ok tt

  infixl 5 ◌>>=◌ ◌>>◌
  abbrev pub ◌>>=◌ {μ ν} :
      {Value : Type μ} {Next : Type ν} → Result E Value → (Value → Result E Next) → Result E Next
  err problem >>= next = err problem
  ok value >>= next = next value

  -- The next call does not read the value.
  abbrev pub ◌>>◌ {ν} : {Next : Type ν} → Result E (Unit {0}) → Result E Next → Result E Next
  first >> next = first >>= λ _. next

  -- `if (!value) throw e`.
  abbrev pub or_fail {ℓ} : {A : Type ℓ} → Option A → E → Result E A
  or_fail none e = err e
  or_fail (some a) e = ok a

  -- A bind that returns: both parts have returned.
  pub >>=-eq-ok {μ ν} :
      {Value : Type μ} {Next : Type ν} (first : Result E Value) (next : Value → Result E Next)
      {result : Next}
      → (first >>= next) ≡ ok result
      → (value : Value) × (first ≡ ok value) × (next value ≡ ok result)
  >>=-eq-ok (err problem) next returns = cc
  >>=-eq-ok (ok value) next returns = (value, refl, returns)

  pub or_fail-eq-ok {ℓ} :
      {A : Type ℓ} (o : Option A) (e : E) {a : A} → or_fail o e ≡ ok a → o ≡ some a
  or_fail-eq-ok none e h = cc
  or_fail-eq-ok (some b) e h = cc

  pub require-eq-ok : (b : Bool) (e : E) {u : Unit {0}} → require b e ≡ ok u → b ≡ true
  require-eq-ok true e h = refl
  require-eq-ok false e h = cc

  pub ok-injective {ℓ} : {A : Type ℓ} (a b : A) → ◌≡◌ {A = Result E A} (ok a) (ok b) → a ≡ b
  ok-injective a b h = cc

  -- A fact about the value of a successful call.
  pub subst_ok {ℓ κ} :
      {A : Type ℓ} (P : A → Type κ) (a b : A) → ◌≡◌ {A = Result E A} (ok a) (ok b) → P a → P b
  subst_ok P a b h p = subst P (ok-injective a b h) p

  -- Whatever the call returns has the property; it may also fail.
  abbrev pub Ensures {ℓ κ} : {A : Type ℓ} → (A → Type κ) → Result E A → Type κ
  Ensures P (ok a) = P a
  Ensures P (err e) = Unit

  pub Ensures-ok {ℓ κ} :
      {A : Type ℓ} (P : A → Type κ) (m : Result E A) {a : A} → Ensures P m → m ≡ ok a → P a
  Ensures-ok P m {a} h e = rw e at h

  pub Ensures-intro {ℓ κ} :
      {A : Type ℓ} (P : A → Type κ) (m : Result E A) → ((a : A) → m ≡ ok a → P a) → Ensures P m
  Ensures-intro P (ok a) h = h a refl
  Ensures-intro P (err e) h = tt

  pub Ensures-bind {ℓ κ μ} :
      {A : Type ℓ} {B : Type μ} (P : B → Type κ) (m : Result E A) (f : A → Result E B)
      → ((a : A) → m ≡ ok a → Ensures P (f a))
      → Ensures P (m >>= f)
  Ensures-bind P (ok a) f h = h a refl
  Ensures-bind P (err e) f h = tt

  -- Whatever the call throws has the property; it may also return.
  abbrev pub Raises {ℓ κ} : {A : Type ℓ} → (E → Type κ) → Result E A → Type κ
  Raises P (ok a) = Unit
  Raises P (err e) = P e

  pub Raises-err {ℓ κ} :
      {A : Type ℓ} (P : E → Type κ) (m : Result E A) {e : E} → Raises P m → m ≡ err e → P e
  Raises-err P m {e} h same = rw same at h

  pub Raises-bind {ℓ κ μ} :
      {A : Type ℓ} {B : Type μ} (P : E → Type κ) (m : Result E A) (f : A → Result E B)
      → Raises P m
      → ((a : A) → Raises P (f a))
      → Raises P (m >>= f)
  Raises-bind P (ok a) f h k = k a
  Raises-bind P (err e) f h k = h

  pub Raises-require {κ} : (P : E → Type κ) (b : Bool) (e : E) → P e → Raises P (require b e)
  Raises-require P true e h = tt
  Raises-require P false e h = h

  pub Raises-or_fail {ℓ κ} :
      {A : Type ℓ} (P : E → Type κ) (o : Option A) (e : E) → P e → Raises P (or_fail o e)
  Raises-or_fail P none e h = h
  Raises-or_fail P (some a) e h = tt

  -- What comes after may rely on the value of the first call.
  pub Raises-then {ℓ κ μ} :
      {A : Type ℓ} {B : Type μ} (P : E → Type κ) (m : Result E A) (f : A → Result E B)
      → Raises P m
      → ((a : A) → m ≡ ok a → Raises P (f a))
      → Raises P (m >>= f)
  Raises-then P (ok a) f h k = k a refl
  Raises-then P (err e) f h k = h
