-- ===== src/Amount/Floor.antt =====
-- truncateTokenAmount rounds down to two places, and canonicalTokenAmount is exact.
use native.Mathlib.Nat.{pow-suc}
use ev_web3_award_system.Prelude.{
  ℕ, ◌+◌, ◌*◌, ◌-◌, ◌^◌, ◌≤◌, ◌<◌, ◌≡◌, refl, ap, subst, ◌∙◌, true, [], ◌∷◌, ◌++◌, some, arith, suc,
  length, Option, none, inl, inr, ltb, Bool-cases,
}
use mathlib.Core.Option.{some-injective}
use ev_web3_award_system.Text.{Text, is_digit}
use ev_web3_award_system.Amount.{
  Value, DecimalParts, decimal_parts, digits_from, big_int, cents, CanonicalTokenAmount, amount_of,
  truncate_token_amount, canonical_of, canonical_token_amount,
}
use ev_web3_award_system.Amount.Scan.{Digits, Digits-cons}
use ev_web3_award_system.Amount.Laws.{decimal_parts-IsParts}

shift : (acc d p : ℕ) → (acc * 10 + d) * p ≡ acc * (p * 10) + d * p
shift acc d p = omega arith

combine :
    (x y z acc d p q : ℕ)
    → q ≡ p * 10
    → x ≡ (acc * 10 + d) * p + z
    → y ≡ (0 * 10 + d) * p + z
    → x ≡ acc * q + y
combine x y z acc d p q e f g = omega (arith, shift acc d p, shift 0 d p, ap (λ (t : ℕ). acc * t) e)

digits_from-acc : (acc : ℕ) (s : Text) → digits_from acc s ≡ acc * 10 ^ length s + digits_from 0 s
unfolding digits_from
digits_from-acc acc [] = omega arith
digits_from-acc acc (c ∷ s) =
    combine _ _ (digits_from 0 s) acc (c - b'0') (10 ^ length s) _ (pow-suc 10 (length s))
      (digits_from-acc (acc * 10 + (c - b'0')) s) (digits_from-acc (0 * 10 + (c - b'0')) s)

digit-le : (c : ℕ) → is_digit c ≡ true → c - b'0' ≤ 9
digit-le c h = ground arith

scaled-le : (d p : ℕ) → d ≤ 9 → d * p ≤ 9 * p
scaled-le d p h = grind arith

below : (x d p q z : ℕ) → q ≡ p * 10 → x ≡ (0 * 10 + d) * p + z → d ≤ 9 → z < p → x < q
below x d p q z e f h k = omega (arith, shift 0 d p, scaled-le d p h)

digits_from-lt : (s : Text) → Digits s → digits_from 0 s < 10 ^ length s
unfolding digits_from
digits_from-lt [] h = omega arith
digits_from-lt (c ∷ s) h =
    let (one, rest) = Digits-cons c s h in
    below _ (c - b'0') (10 ^ length s) _ (digits_from 0 s) (pow-suc 10 (length s))
      (digits_from-acc (0 * 10 + (c - b'0')) s) (digit-le c one) (digits_from-lt s rest)

digits_from-append :
    (acc : ℕ) (s t : Text) → digits_from acc (s ++ t) ≡ digits_from (digits_from acc s) t
unfolding digits_from
digits_from-append acc [] t = refl
digits_from-append acc (c ∷ s) t = digits_from-append (acc * 10 + (c - b'0')) s t

-- The exact value of the parts, in units of the last place of the fraction.
abbrev pub exact : DecimalParts → ℕ
exact p = big_int (p.whole ++ p.fraction)

hundredfold : (n : ℕ) → 10 ^ suc (suc n) ≡ 100 * 10 ^ n
hundredfold n = omega (arith, pow-suc 10 (suc n), pow-suc 10 n)

floor_step :
    (u x z p q : ℕ)
    → q ≡ 100 * p
    → x ≡ u * p + z
    → z < p
    → (u * q ≤ 100 * x) × (100 * x < (u + 1) * q)
floor_step u x z p q e f h = omega (arith, ap (λ (t : ℕ). u * t) e)

cents_floor :
    (f : Text)
    → Digits f
    → (big_int (cents f) * 10 ^ length f ≤ 100 * big_int f)
      × (100 * big_int f < (big_int (cents f) + 1) * 10 ^ length f)
unfolding digits_from
cents_floor [] h = omega arith
cents_floor (a ∷ []) h = omega arith
cents_floor (a ∷ b ∷ f) h =
    let (_, rest) = Digits-cons a (b ∷ f) h in
    let (_, last) = Digits-cons b f rest in
    let u = (0 * 10 + (a - b'0')) * 10 + (b - b'0') in
    floor_step u _ (digits_from 0 f) (10 ^ length f) _ (hundredfold (length f))
      (digits_from-acc u f) (digits_from-lt f last)

whole_floor :
    (w u x n q : ℕ)
    → n ≡ w * q + x
    → (u * q ≤ 100 * x) × (100 * x < (u + 1) * q)
    → ((w * 100 + u) * q ≤ 100 * n) × (100 * n < (w * 100 + u + 1) * q)
whole_floor w u x n q e h = omega arith

exact-parts :
    (p : DecimalParts) → exact p ≡ big_int p.whole * 10 ^ length p.fraction + big_int p.fraction
exact-parts p =
    digits_from-append 0 p.whole p.fraction ∙ digits_from-acc (big_int p.whole) p.fraction

abbrev IsFloor : DecimalParts → CanonicalTokenAmount → Type 0
IsFloor p b =
    (b.units * 10 ^ length p.fraction ≤ 100 * exact p)
    × (100 * exact p < (b.units + 1) * 10 ^ length p.fraction)

amount_of-IsFloor : (p : DecimalParts) → Digits p.fraction → IsFloor p (amount_of p)
unfolding amount_of
amount_of-IsFloor p h =
    whole_floor (big_int p.whole) (big_int (cents p.fraction)) (big_int p.fraction) (exact p)
      (10 ^ length p.fraction) (exact-parts p) (cents_floor p.fraction h)

-- With n / 10 ^ k the exact value of an accepted decimal text, the units that truncateTokenAmount
-- returns are the largest number of hundredths that does not exceed it.
pub truncate_floor :
    (v : Value) (a : CanonicalTokenAmount) (p : DecimalParts)
    → decimal_parts v ≡ some p
    → truncate_token_amount v ≡ some a
    → (a.units * 10 ^ length p.fraction ≤ 100 * exact p)
      × (100 * exact p < (a.units + 1) * 10 ^ length p.fraction)
unfolding truncate_token_amount
truncate_floor v a p e h =
    subst (IsFloor p) (some-injective _ a (rw e at h))
      (amount_of-IsFloor p (decimal_parts-IsParts v p e).fraction_digits)

cents_exact : (f : Text) → length f ≤ 2 → big_int (cents f) * 10 ^ length f ≡ 100 * big_int f
unfolding digits_from
cents_exact [] h = refl
cents_exact (a ∷ []) h = omega arith
cents_exact (a ∷ b ∷ []) h = omega arith
cents_exact (a ∷ b ∷ c ∷ f) h = absurd (omega arith)

whole_exact : (w u x n q : ℕ) → n ≡ w * q + x → u * q ≡ 100 * x → (w * 100 + u) * q ≡ 100 * n
whole_exact w u x n q e h = omega arith

-- The amount stands for the exact value.
abbrev pub IsExact : DecimalParts → CanonicalTokenAmount → Type 0
IsExact p a = a.units * 10 ^ length p.fraction ≡ 100 * exact p

amount_of-IsExact : (p : DecimalParts) → length p.fraction ≤ 2 → IsExact p (amount_of p)
unfolding amount_of
amount_of-IsExact p h =
    whole_exact (big_int p.whole) (big_int (cents p.fraction)) (big_int p.fraction) (exact p)
      (10 ^ length p.fraction) (exact-parts p) (cents_exact p.fraction h)

-- Too many places are refused, and what is accepted is exact.
abbrev pub Accepts : DecimalParts → Option CanonicalTokenAmount → Type 0
Accepts p none = 2 < length p.fraction
Accepts p (some a) = (length p.fraction ≤ 2) × IsExact p a

canonical_of-Accepts : (p : DecimalParts) → Accepts p (canonical_of p)
unfolding canonical_of
canonical_of-Accepts p = elim (Bool-cases (ltb 2 (length p.fraction))) [
  | inl long ↦ rw long (ground arith)
  | inr fits ↦
      let short : length p.fraction ≤ 2 = ground arith in rw fits (short, amount_of-IsExact p short)
]

-- With n / 10 ^ k the exact value of a decimal text with k places, canonicalTokenAmount refuses it if it has more than two
-- places, and otherwise accepts it and loses nothing: the units are the value in hundredths, exactly.
pub canonical_token_amount-Accepts :
    (v : Value) (p : DecimalParts) → decimal_parts v ≡ some p → Accepts p (canonical_token_amount v)
unfolding canonical_token_amount
canonical_token_amount-Accepts v p e = rw e (canonical_of-Accepts p)
