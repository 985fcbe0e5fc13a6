-- ===== src/Amount/Laws.antt =====
-- A canonical amount is read back unchanged, by canonicalTokenAmount and by decimalUnits.
use ev_web3_award_system.Prelude.{
  ◌≡◌, refl, subst, true, false, [], ◌∷◌, ◌++◌, some, ok, arith, length, Option-cases, inl, inr,
}
use mathlib.Core.Option.{some-injective}
use ev_web3_award_system.Text.{Text, is_empty}
use ev_web3_award_system.Amount.{
  Value, text, decimal_text, match_decimal, strip_zeros, DecimalParts, strip_parts, map_option,
  decimal_parts, cents, CanonicalTokenAmount, amount_of, canonical_of, canonical_token_amount,
  units_of, decimal_units, is_digits,
}
use ev_web3_award_system.Amount.Scan.{
  Digits, is_digits-Digits, match_decimal-Digits, strip_zeros-is_digits, strip_zeros_idem,
  cents-Digits, cents_two, trim-decimal, match_decimal-print,
}

-- The parts of an accepted value: digits without leading zeros, and digits.
pub record IsParts (p : DecimalParts) : Type 0 where
  pub whole_digits : is_digits p.whole ≡ true
  pub fraction_digits : Digits p.fraction
  pub stripped : strip_zeros p.whole ≡ p.whole

strip_parts-IsParts : (w f : Text) → is_digits w ≡ true → Digits f → IsParts (strip_parts (w, f))
strip_parts-IsParts w f h k = record {
  whole_digits = strip_zeros-is_digits w h;
  fraction_digits = k;
  stripped = strip_zeros_idem w;
}

matched-IsParts :
    (s : Text) (p : DecimalParts) → map_option strip_parts (match_decimal s) ≡ some p → IsParts p
matched-IsParts s p h = elim (Option-cases (match_decimal s)) [
  | inl e ↦ absurd (ground arith)
  | inr ((w, f), e) ↦
      let (dw, df) = match_decimal-Digits s w f e in
      subst IsParts (some-injective _ p (rw e at h)) (strip_parts-IsParts w f dw df)
]

pub decimal_parts-IsParts : (v : Value) (p : DecimalParts) → decimal_parts v ≡ some p → IsParts p
unfolding decimal_parts
decimal_parts-IsParts v p h = elim (Option-cases (decimal_text v)) [
  | inl e ↦ absurd (ground arith)
  | inr (s, e) ↦ matched-IsParts s p (rw e at h)
]

cents-is_digits : (f : Text) → Digits f → is_digits (cents f) ≡ true
unfolding is_digits
cents-is_digits f h = let (a, b, e) = cents_two f in ground (arith, cents-Digits f h, e)

cents_idem : (f : Text) → cents (cents f) ≡ cents f
cents_idem [] = refl
cents_idem (a ∷ []) = refl
cents_idem (a ∷ b ∷ f) = refl

length-cents : (f : Text) → length (cents f) ≡ 2
length-cents [] = refl
length-cents (a ∷ []) = refl
length-cents (a ∷ b ∷ f) = refl

abbrev two_places : DecimalParts → DecimalParts
two_places p = record { whole = p.whole; fraction = cents p.fraction }

amount_of-two_places : (p : DecimalParts) → amount_of (two_places p) ≡ amount_of p
unfolding amount_of
amount_of-two_places p = rw (cents_idem p.fraction)

append_dot-ne_nil : (w f : Text) → is_empty (w ++ b'.' ∷ f) ≡ false
append_dot-ne_nil [] f = refl
append_dot-ne_nil (c ∷ w) f = refl

decimal_text-print :
    (w f : Text) → Digits w → Digits f → decimal_text (text (w ++ b'.' ∷ f)) ≡ some (w ++ b'.' ∷ f)
unfolding decimal_text
decimal_text-print w f h k = rw (trim-decimal w f h k, append_dot-ne_nil w f)

-- The text of an amount is read back as its parts, with two places.
reread :
    (p : DecimalParts)
    → IsParts p
    → decimal_parts (text (amount_of p).decimal) ≡ some (two_places p)
unfolding decimal_parts amount_of
reread p good =
    rw
      (decimal_text-print p.whole (cents p.fraction) (is_digits-Digits p.whole good.whole_digits)
        (cents-Digits p.fraction good.fraction_digits))
      (rw
        (match_decimal-print p.whole (cents p.fraction) good.whole_digits
          (cents-is_digits p.fraction good.fraction_digits))
        (rw good.stripped refl))

canonical_of-two_places : (p : DecimalParts) → canonical_of (two_places p) ≡ some (amount_of p)
unfolding canonical_of
canonical_of-two_places p = rw (length-cents p.fraction) (rw (amount_of-two_places p) refl)

-- Inversion: a canonical amount comes from parts with at most two places.
canonical-parts :
    (v : Value) (a : CanonicalTokenAmount)
    → canonical_token_amount v ≡ some a
    → (p : DecimalParts) × (decimal_parts v ≡ some p) × (amount_of p ≡ a)
unfolding canonical_token_amount canonical_of
canonical-parts v a h = elim (Option-cases (decimal_parts v)) [
  | inl e ↦ absurd (ground arith)
  | inr (p, e) ↦ (p, e, ground arith)
]

decimal_units-print :
    (p : DecimalParts) → IsParts p → decimal_units (amount_of p).decimal ≡ ok (amount_of p).units
unfolding decimal_units amount_of units_of
decimal_units-print p good =
    rw
      (trim-decimal p.whole (cents p.fraction) (is_digits-Digits p.whole good.whole_digits)
        (cents-Digits p.fraction good.fraction_digits))
      (rw
        (match_decimal-print p.whole (cents p.fraction) good.whole_digits
          (cents-is_digits p.fraction good.fraction_digits))
        (rw (length-cents p.fraction) (rw (cents_idem p.fraction) refl)))

-- The decimal text of a canonical amount is itself canonical, and stands for the same amount: it is
-- read back unchanged by canonicalTokenAmount, and decimalUnits reads its units from it.
pub canonical_round_trip :
    (v : Value) (a : CanonicalTokenAmount)
    → canonical_token_amount v ≡ some a
    → (canonical_token_amount (text a.decimal) ≡ some a) × (decimal_units a.decimal ≡ ok a.units)
canonical_round_trip v a h =
    let (p, e, same) = canonical-parts v a h in
    let good = decimal_parts-IsParts v p e in
    rw (← same) (
      unfold canonical_token_amount in rw (reread p good) (canonical_of-two_places p),
      decimal_units-print p good,
    )
