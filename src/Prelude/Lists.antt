-- ===== src/Prelude/Lists.antt =====
-- Lists over the native numbers, predicates on all elements, and tables of rows.
use Prim.Native.Nat.{ℕ, zero, suc, ◌+◌}
use mathlib.Core.Path.{◌≡◌, refl, subst}
use mathlib.Core.Bool.{Bool, true, false}
use mathlib.Core.Logic.{inl, inr}
use mathlib.Core.List.{List, [], ◌∷◌, ◌++◌}
use mathlib.Core.Option.{Option, none, some, some-injective}
use native.Mathlib.Omega.{arith}
use ev_web3_award_system.Prelude.Tests.{if◌then◌else◌, Bool-cases}

module _ {ℓ} {A : Type ℓ} where
  abbrev pub length : List A → ℕ
  length [] = 0
  length (x ∷ xs) = suc (length xs)

  abbrev pub take : ℕ → List A → List A
  take zero xs = []
  take (suc n) [] = []
  take (suc n) (x ∷ xs) = x ∷ take n xs

  abbrev pub drop : ℕ → List A → List A
  drop zero xs = xs
  drop (suc n) [] = []
  drop (suc n) (x ∷ xs) = drop n xs

  pub length-append : (xs ys : List A) → length (xs ++ ys) ≡ length xs + length ys
  length-append [] ys = omega arith
  length-append (x ∷ xs) ys = omega (arith, length-append xs ys)

  abbrev pub All {κ} : (A → Type κ) → List A → Type κ
  All P [] = Unit
  All P (x ∷ xs) = P x × All P xs

  pub All-mono {κ μ} :
      (P : A → Type κ) (Q : A → Type μ) (xs : List A) → ((x : A) → P x → Q x) → All P xs → All Q xs
  All-mono P Q [] f h = tt
  All-mono P Q (x ∷ xs) f (p, h) = (f x p, All-mono P Q xs f h)

  pub All-intro {κ} : (P : A → Type κ) (xs : List A) → ((x : A) → P x) → All P xs
  All-intro P [] f = tt
  All-intro P (x ∷ xs) f = (f x, All-intro P xs f)

  pub All-zip {κ μ ν} :
      (P : A → Type κ) (Q : A → Type μ) (R : A → Type ν) (xs : List A)
      → ((x : A) → P x → Q x → R x)
      → All P xs
      → All Q xs
      → All R xs
  All-zip P Q R [] f h k = tt
  All-zip P Q R (x ∷ xs) f (p, h) (q, k) = (f x p q, All-zip P Q R xs f h k)

-- A table: its rows, the first that fits, the rows rewritten by an UPDATE, a SUM over those that
-- fit.
module _ {ℓ} {A : Type ℓ} where
  abbrev pub find_by : (A → Bool) → List A → Option A
  find_by p [] = none
  find_by p (x ∷ xs) = if p x then some x else find_by p xs

  abbrev pub update_where : (A → Bool) → (A → A) → List A → List A
  update_where p f [] = []
  update_where p f (x ∷ xs) = (if p x then f x else x) ∷ update_where p f xs

  abbrev pub sum_where : (A → Bool) → (A → ℕ) → List A → ℕ
  sum_where p n [] = 0
  sum_where p n (x ∷ xs) = (if p x then n x else 0) + sum_where p n xs

  abbrev pub delete_where : (A → Bool) → List A → List A
  delete_where p [] = []
  delete_where p (x ∷ xs) = let rest = delete_where p xs in if p x then rest else x ∷ rest

  abbrev pub count : (A → Bool) → List A → ℕ
  count p [] = 0
  count p (x ∷ xs) = (if p x then 1 else 0) + count p xs

  pub find_by-none : (p : A → Bool) (xs : List A) → find_by p xs ≡ none → All (λ x. p x ≡ false) xs
  find_by-none p [] h = tt
  find_by-none p (x ∷ xs) h = elim (Bool-cases (p x)) [
    | inl e ↦ absurd (ground arith)
    | inr e ↦ (e, find_by-none p xs (ground arith))
  ]

  pub find_by-All {κ} :
      (P : A → Type κ) (p : A → Bool) (xs : List A) {a : A}
      → All P xs
      → find_by p xs ≡ some a
      → P a × (p a ≡ true)
  find_by-All P p [] h e = cc
  find_by-All P p (x ∷ xs) {a} (px, h) e = elim (Bool-cases (p x)) [
    | inl hit ↦ found hit (some-injective x a (rw hit at e))
    | inr miss ↦ find_by-All P p xs h (rw miss at e)
  ]
    where
      found : p x ≡ true → x ≡ a → P a × (p a ≡ true)
      found hit same = (subst P same px, subst (λ y. p y ≡ true) same hit)

  pub find_by-true : (p : A → Bool) (xs : List A) {a : A} → find_by p xs ≡ some a → p a ≡ true
  find_by-true p xs e = (find_by-All (λ _. Unit {0}) p xs (All-intro _ xs (λ _. tt)) e).1

  pub find_by-All-none :
      (p : A → Bool) (xs : List A) → All (λ x. p x ≡ false) xs → find_by p xs ≡ none
  find_by-All-none p [] h = refl
  find_by-All-none p (x ∷ xs) (px, h) = rw px (find_by-All-none p xs h)

  pub find_by-weaken :
      (p q : A → Bool) (xs : List A) {a : A}
      → ((x : A) → p x ≡ true → q x ≡ true)
      → find_by p xs ≡ some a
      → (b : A) × (find_by q xs ≡ some b)
  find_by-weaken p q [] f e = cc
  find_by-weaken p q (x ∷ xs) f e = elim (Bool-cases (q x)) [
    | inl hit ↦ (x, rw hit refl)
    | inr miss ↦ elim (Bool-cases (p x)) [
      | inl found ↦ absurd (clash (f x found) miss)
      | inr lost ↦ let (b, e') = find_by-weaken p q xs f (rw lost at e) in (b, rw miss e')
    ]
  ]
    where
      clash : q x ≡ true → q x ≡ false → ⊥
      clash a b = cc

  pub All-update_where {κ} :
      (P : A → Type κ) (p : A → Bool) (f : A → A) (xs : List A)
      → ((x : A) → p x ≡ true → P x → P (f x))
      → All P xs
      → All P (update_where p f xs)
  All-update_where P p f [] k h = tt
  All-update_where P p f (x ∷ xs) k (px, h) = elim (Bool-cases (p x)) [
    | inl e ↦ (rw e (k x e px), All-update_where P p f xs k h)
    | inr e ↦ (rw e px, All-update_where P p f xs k h)
  ]

  -- No two rows clash.
  abbrev pub Apart : (A → A → Bool) → List A → Type 0
  Apart clash [] = Unit
  Apart clash (x ∷ xs) = All (λ y. clash x y ≡ false) xs × Apart clash xs
