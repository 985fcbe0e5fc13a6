-- ===== src/Text/Laws.antt =====
-- Laws of the text operations.
use ev_web3_award_system.Prelude.{
  ℕ, ◌≡◌, refl, ap₂, ◌↔◌, true, [], ◌∷◌, arith, ◌==◌, ==_iff, and_true,
}
use ev_web3_award_system.Text.{Text, text_eq, lower_unit, to_lower, same_lower}

pub text_eq_refl : (s : Text) → text_eq s s ≡ true
unfolding text_eq
text_eq_refl [] = refl
text_eq_refl (c ∷ s) = ground (arith, text_eq_refl s)

pub eq_of_text_eq : (s t : Text) → text_eq s t ≡ true → s ≡ t
unfolding text_eq
eq_of_text_eq [] [] h = refl
eq_of_text_eq [] (d ∷ t) h = cc
eq_of_text_eq (c ∷ s) [] h = cc
eq_of_text_eq (c ∷ s) (d ∷ t) h =
    let (same, rest) = and_true (c == d) (text_eq s t) h in
    ap₂ ◌∷◌ ((==_iff c d).0 same) (eq_of_text_eq s t rest)

pub text_eq_iff : (s t : Text) → (text_eq s t ≡ true) ↔ (s ≡ t)
text_eq_iff s t = (eq_of_text_eq s t, λ e. rw e (text_eq_refl t))

pub text_eq_sym : (s t : Text) → text_eq s t ≡ text_eq t s
unfolding text_eq
text_eq_sym [] [] = refl
text_eq_sym [] (d ∷ t) = refl
text_eq_sym (c ∷ s) [] = refl
text_eq_sym (c ∷ s) (d ∷ t) = ground (arith, text_eq_sym s t)

pub lower_unit_idem : (c : ℕ) → lower_unit (lower_unit c) ≡ lower_unit c
unfolding lower_unit
lower_unit_idem c = ground arith

pub to_lower_idem : (s : Text) → to_lower (to_lower s) ≡ to_lower s
unfolding to_lower
to_lower_idem [] = refl
to_lower_idem (c ∷ s) = ap₂ ◌∷◌ (lower_unit_idem c) (to_lower_idem s)

pub same_lower_refl : (s : Text) → same_lower s s ≡ true
unfolding same_lower
same_lower_refl s = text_eq_refl (to_lower s)

pub same_lower_lower : (s t : Text) → same_lower (to_lower s) t ≡ same_lower s t
unfolding same_lower
same_lower_lower s t = rw (to_lower_idem s)
