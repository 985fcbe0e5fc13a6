-- ===== src/Prelude/Tables.antt =====
-- Tables whose rows change only in the ways that a reflexive relation allows.
use mathlib.Core.Path.{◌≡◌, refl, subst, ◌∙◌}
use mathlib.Core.Bool.{Bool, true, false}
use mathlib.Core.Logic.{inl, inr}
use mathlib.Core.List.{List, [], ◌∷◌}
use mathlib.Core.Option.{some, some-injective}
use ev_web3_award_system.Prelude.Tests.{if◌then◌else◌, Bool-cases}
use ev_web3_award_system.Prelude.Lists.{All, All-mono, Apart, find_by, update_where}

-- Where rows that `hit` finds clash with each other, and no two rows clash, it finds one row at most.
pub only_found :
    {A : Type 0} (hit : A → Bool) (clash : A → A → Bool) (rows : List A) (r : A)
    → ((x q : A) → hit x ≡ true → hit q ≡ true → clash x q ≡ true)
    → Apart clash rows
    → find_by hit rows ≡ some r
    → All (λ q. hit q ≡ true → q ≡ r) rows
only_found hit clash [] r same u h = tt
only_found {A} hit clash (x ∷ rows) r same (fresh, u) h = elim (Bool-cases (hit x)) [
  | inl found ↦ (
    λ _. some-injective x r (rw found at h),
    All-mono _ _ rows (λ q apart found'. clashing q apart (same x q found found')) fresh,
  )
  | inr miss ↦ (λ found. impossible found miss, only_found hit clash rows r same u (rw miss at h))
]
  where
    clashing : (q : A) → clash x q ≡ false → clash x q ≡ true → q ≡ r
    clashing q a b = absurd (cc)

    impossible : hit x ≡ true → hit x ≡ false → x ≡ r
    impossible a b = absurd (cc)

module _ {A : Type 0} (Change : A → A → Type 0) (Change-refl : (r : A) → Change r r) where
  -- What a lookup by `hit` finds: a change of the row `r`.
  abbrev pub Found : (A → Bool) → A → List A → Type 0
  Found hit r rows = (s : A) × (find_by hit rows ≡ some s) × Change r s

  module _ (p : A → Bool) (f : A → A) where
    -- An UPDATE changes each row in an allowed way.
    abbrev pub Edits : List A → Type 0
    Edits rows = All (λ r. p r ≡ true → Change r (f r)) rows

    edited : (r : A) → (p r ≡ true → Change r (f r)) → Change r (if p r then f r else r)
    edited r h = elim (Bool-cases (p r)) [ inl e ↦ rw e (h e) | inr e ↦ rw e (Change-refl r) ]

    module _ (clash : A → A → Bool)
        (stable : (x x' y y' : A) → Change x x' → Change y y' → clash x' y' ≡ clash x y) where
      fresh-update :
          (x x' : A) (rows : List A)
          → Change x x'
          → Edits rows
          → All (λ y. clash x y ≡ false) rows
          → All (λ y. clash x' y ≡ false) (update_where p f rows)
      fresh-update x x' [] a h k = tt
      fresh-update x x' (y ∷ rows) a (hy, h) (ky, k) = (
        stable x x' y (if p y then f y else y) a (edited y hy) ∙ ky,
        fresh-update x x' rows a h k,
      )

      pub Apart-update :
          (rows : List A) → Edits rows → Apart clash rows → Apart clash (update_where p f rows)
      Apart-update [] h k = tt
      Apart-update (x ∷ rows) (hx, h) (fresh, k) = (
        fresh-update x (if p x then f x else x) rows (edited x hx) h fresh,
        Apart-update rows h k,
      )

    pub Found-update :
        (hit : A → Bool) (stable : (x y : A) → Change x y → hit y ≡ hit x) (rows : List A) (r : A)
        → Edits rows
        → find_by hit rows ≡ some r
        → Found hit r (update_where p f rows)
    Found-update hit stable [] r h e = cc
    Found-update hit stable (x ∷ rows) r (hx, h) e =
        let change = edited x hx in
        let same = stable x (if p x then f x else x) change in
        elim (Bool-cases (hit x)) [
          | inl is_hit ↦ (
            (if p x then f x else x),
            rw (same ∙ is_hit) refl,
            subst (λ y. Change y (if p x then f x else x)) (some-injective x r (rw is_hit at e))
                change,
          )
          | inr miss ↦ rw (same ∙ miss) (Found-update hit stable rows r h (rw miss at e))
        ]
