-- ===== src/Amount/Scan.antt =====
-- What the scanner of decimal texts accepts, and how it reads a printed amount back.
use ev_web3_award_system.Prelude.{
  ℕ, zero, suc, inl, inr, ◌≡◌, refl, Bool, true, false, ◌||◌, append-nil, [], ◌∷◌, ◌++◌, Option,
  none, some, arith, ◌==◌, ==_iff, take, Bool-cases, and_true,
}
use ev_web3_award_system.Text.{
  Text, is_space, trim_start, keep_unit, trim_end, trim, is_digit, all_units,
}
use ev_web3_award_system.Amount.{
  split_dot, is_digits, match_parts, match_decimal, strip_zeros, digits_from, big_int, cents,
}

abbrev pub Digits : Text → Type 0
Digits s = all_units is_digit s ≡ true

pub Digits-cons : (c : ℕ) (s : Text) → Digits (c ∷ s) → (is_digit c ≡ true) × Digits s
unfolding all_units
Digits-cons c s h = and_true (is_digit c) (all_units is_digit s) h

pub Digits-append : (s t : Text) → Digits s → Digits t → Digits (s ++ t)
unfolding all_units
Digits-append [] t h k = k
Digits-append (c ∷ s) t h k =
    let (one, rest) = Digits-cons c s h in rw (one, Digits-append s t rest k)

pub Digits-take : (n : ℕ) (s : Text) → Digits s → Digits (take n s)
unfolding all_units
Digits-take zero s h = refl
Digits-take (suc n) [] h = refl
Digits-take (suc n) (c ∷ s) h =
    let (one, rest) = Digits-cons c s h in rw (one, Digits-take n s rest)

pub is_digits-Digits : (s : Text) → is_digits s ≡ true → Digits s
unfolding is_digits
is_digits-Digits [] h = refl
is_digits-Digits (c ∷ s) h = h

all_units-nil : Digits []
unfolding all_units
all_units-nil = refl

-- A text of digits with a dot behind it splits at that dot.
pub split_dot-append : (w f : Text) → Digits w → split_dot (w ++ b'.' ∷ f) ≡ (w, some f)
unfolding split_dot all_units
split_dot-append [] f h = refl
split_dot-append (c ∷ w) f h =
    let (one, rest) = Digits-cons c w h in rw (split_dot-append w f rest) (ground arith)

match_parts-Digits :
    (p : Text × Option Text) (w f : Text)
    → match_parts p ≡ some (w, f)
    → (is_digits w ≡ true) × Digits f
unfolding match_parts
match_parts-Digits (a, none) w f h = ground (arith, all_units-nil)
match_parts-Digits (a, some b) w f h = ground (arith, is_digits-Digits b)

-- An accepted text is digits, and digits behind the dot.
pub match_decimal-Digits :
    (s w f : Text) → match_decimal s ≡ some (w, f) → (is_digits w ≡ true) × Digits f
unfolding match_decimal
match_decimal-Digits s w f h = match_parts-Digits (split_dot s) w f h

-- Leading zeros carry no value, and are stripped at once.
pub strip_zeros-is_digits : (s : Text) → is_digits s ≡ true → is_digits (strip_zeros s) ≡ true
unfolding strip_zeros is_digits
strip_zeros-is_digits [] h = h
strip_zeros-is_digits (c ∷ []) h = h
strip_zeros-is_digits (c ∷ d ∷ s) h =
    let (one, rest) = Digits-cons c (d ∷ s) h in ground (arith, strip_zeros-is_digits (d ∷ s) rest)

pub strip_zeros_idem : (s : Text) → strip_zeros (strip_zeros s) ≡ strip_zeros s
unfolding strip_zeros
strip_zeros_idem [] = refl
strip_zeros_idem (c ∷ []) = refl
strip_zeros_idem (c ∷ d ∷ s) = ground (arith, strip_zeros_idem (d ∷ s))

pub big_int-strip_zeros : (s : Text) → big_int (strip_zeros s) ≡ big_int s
unfolding strip_zeros digits_from
big_int-strip_zeros [] = refl
big_int-strip_zeros (c ∷ []) = refl
big_int-strip_zeros (c ∷ d ∷ s) = elim (Bool-cases (c == b'0')) [
  | inl e ↦ rw (e, (==_iff c b'0').0 e) (big_int-strip_zeros (d ∷ s))
  | inr e ↦ rw e refl
]

pub cents-Digits : (f : Text) → Digits f → Digits (cents f)
cents-Digits f h =
    Digits-take 2 (f ++ b'0' ∷ b'0' ∷ [])
      (Digits-append f (b'0' ∷ b'0' ∷ []) h (unfold all_units in refl))

pub cents_two : (f : Text) → (a : ℕ) × (b : ℕ) × (cents f ≡ a ∷ b ∷ [])
cents_two [] = (b'0', b'0', refl)
cents_two (a ∷ []) = (a, b'0', refl)
cents_two (a ∷ b ∷ f) = (a, b, refl)

-- A text of digits and dots has no white space to trim.
abbrev plain : ℕ → Bool
plain c = is_digit c || c == b'.'

abbrev Plain : Text → Type 0
Plain s = all_units plain s ≡ true

plain-is_space : (c : ℕ) → plain c ≡ true → is_space c ≡ false
unfolding is_space
plain-is_space c h = ground arith

trim_start_lem : (s : Text) → Plain s → trim_start s ≡ s
unfolding trim_start all_units
trim_start_lem [] h = refl
trim_start_lem (c ∷ s) h = rw (plain-is_space c (and_true (plain c) _ h).0)

keep_unit_lem : (c : ℕ) (s : Text) → plain c ≡ true → keep_unit c s ≡ c ∷ s
unfolding keep_unit
keep_unit_lem c [] h = rw (plain-is_space c h)
keep_unit_lem c (d ∷ s) h = refl

trim_end_lem : (s : Text) → Plain s → trim_end s ≡ s
unfolding trim_end all_units
trim_end_lem [] h = refl
trim_end_lem (c ∷ s) h =
    let (one, rest) = and_true (plain c) (all_units plain s) h in
    rw (trim_end_lem s rest) (keep_unit_lem c s one)

Plain-append : (s t : Text) → Digits s → Plain t → Plain (s ++ t)
unfolding all_units
Plain-append [] t h k = k
Plain-append (c ∷ s) t h k =
    let (one, rest) = Digits-cons c s h in rw (one, Plain-append s t rest k)

Plain-of_Digits : (s : Text) → Digits s → Plain s
Plain-of_Digits s h = rw (append-nil s) at (Plain-append s [] h (unfold all_units in refl))

Plain-dot : (f : Text) → Digits f → Plain (b'.' ∷ f)
unfolding all_units
Plain-dot f h = Plain-of_Digits f h

pub trim-decimal : (w f : Text) → Digits w → Digits f → trim (w ++ b'.' ∷ f) ≡ w ++ b'.' ∷ f
unfolding trim
trim-decimal w f h k =
    let good = Plain-append w (b'.' ∷ f) h (Plain-dot f k) in
    rw (trim_start_lem (w ++ b'.' ∷ f) good) (trim_end_lem (w ++ b'.' ∷ f) good)

-- A printed decimal is read back part by part.
pub match_decimal-print :
    (w f : Text)
    → is_digits w ≡ true
    → is_digits f ≡ true
    → match_decimal (w ++ b'.' ∷ f) ≡ some (w, f)
unfolding match_decimal match_parts
match_decimal-print w f h k = rw (split_dot-append w f (is_digits-Digits w h)) (rw (h, k) refl)
