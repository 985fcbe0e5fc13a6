-- ===== src/Wallets/Counts.antt =====
-- Counts of the rows of a table after an UPDATE or a DELETE.
use ev_web3_award_system.Prelude.{
  ℕ, ◌+◌, ◌≡◌, refl, ap, ap₂, inl, inr, Bool, false, ◌&&◌, not, List, [], ◌∷◌, some, find_by,
  update_where, delete_where, count, if◌then◌else◌, All, Apart, Bool-cases, arith, find_by-All-none,
}

-- What a row counts.
abbrev one : Bool → ℕ
one b = if b then 1 else 0

module _ {A : Type 0} where
  pub count_ext :
      (p q : A → Bool) (rows : List A) → All (λ r. p r ≡ q r) rows → count p rows ≡ count q rows
  count_ext p q [] h = refl
  count_ext p q (r ∷ rows) (same, h) = ap₂ ◌+◌ (ap one same) (count_ext p q rows h)

  pub count-update_where :
      (p q : A → Bool) (f : A → A) (rows : List A)
      → count p (update_where q f rows) ≡ count (λ r. p (if q r then f r else r)) rows
  count-update_where p q f [] = refl
  count-update_where p q f (r ∷ rows) =
      ap (one (p (if q r then f r else r)) +◌) (count-update_where p q f rows)

  pub count-delete_where :
      (p q : A → Bool) (rows : List A)
      → count p (delete_where q rows) ≡ count (λ r. p r && not (q r)) rows
  count-delete_where p q [] = refl
  count-delete_where p q (r ∷ rows) = elim (Bool-cases (q r)) [
    | inl gone ↦ ground (arith, count-delete_where p q rows)
    | inr stays ↦ ground (arith, count-delete_where p q rows)
  ]

  pub count_zero : (p : A → Bool) (rows : List A) → count p rows ≡ 0 → All (λ r. p r ≡ false) rows
  count_zero p [] h = tt
  count_zero p (r ∷ rows) h = elim (Bool-cases (p r)) [
    | inl hit ↦ absurd (ground arith)
    | inr miss ↦ (miss, count_zero p rows (ground arith))
  ]

  pub count_none : (p : A → Bool) (rows : List A) → All (λ r. p r ≡ false) rows → count p rows ≡ 0
  count_none p [] h = refl
  count_none p (r ∷ rows) (miss, h) = rw miss (omega (arith, count_none p rows h))

  pub count_found :
      (p : A → Bool) (rows : List A) {r : A} → find_by p rows ≡ some r → count p rows ≡ 0 → ⊥
  count_found p rows e h = let lost = find_by-All-none p rows (count_zero p rows h) in cc

  pub All-delete_where {κ} :
      (P : A → Type κ) (p : A → Bool) (rows : List A) → All P rows → All P (delete_where p rows)
  All-delete_where P p [] h = tt
  All-delete_where P p (r ∷ rows) (at_row, h) = elim (Bool-cases (p r)) [
    | inl gone ↦ rw gone (All-delete_where P p rows h)
    | inr stays ↦ rw stays (at_row, All-delete_where P p rows h)
  ]

  pub Apart-delete_where :
      (clash : A → A → Bool) (p : A → Bool) (rows : List A)
      → Apart clash rows
      → Apart clash (delete_where p rows)
  Apart-delete_where clash p [] h = tt
  Apart-delete_where clash p (r ∷ rows) (fresh, h) = elim (Bool-cases (p r)) [
    | inl gone ↦ rw gone (Apart-delete_where clash p rows h)
    | inr stays ↦
        rw stays (
          All-delete_where (λ q. clash r q ≡ false) p rows fresh,
          Apart-delete_where clash p rows h,
        )
  ]

  pub All-edited {κ} :
      (P : A → Type κ) (p : A → Bool) (f : A → A) (rows : List A)
      → ((r : A) → P (if p r then f r else r))
      → All P (update_where p f rows)
  All-edited P p f [] h = tt
  All-edited P p f (r ∷ rows) h = (h r, All-edited P p f rows h)
