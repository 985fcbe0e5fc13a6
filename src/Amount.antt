-- ===== src/Amount.antt =====
-- Exact token amounts: the decimal functions of src/database/tokenOperation.ts and `decimalUnits`
-- of src/database/service.ts. A JavaScript number comes in as its text `String(value)`, so that the
-- model computes no floating point here; the field `value` of CanonicalTokenAmount, Number(units) / 100,
-- is Binary64.token_number of the units. Units are hundredths of a token.
pub mod Scan
pub mod Laws
pub mod Floor
mod Tests
use ev_web3_award_system.Prelude.{
  ℕ, ◌+◌, ◌*◌, ◌-◌, ◌≡◌, refl, Bool, true, false, ◌&&◌, ◌||◌, not, List, [], ◌∷◌, ◌++◌, Option,
  none, some, Result, ok, err, ◌>>=◌, or_fail, leb, ltb, ◌==◌, if◌then◌else◌, length, take,
}
use ev_web3_award_system.Text.{Text, codes, trim, is_empty, is_digit, all_units}

-- A value of type `unknown`: a finite number (by its text), another number, a string, anything else.
pub data Value : Type 0 where
  number : Text → Value
  not_finite : Value
  text : Text → Value
  other : Value

unfoldable pub decimal_text : Value → Option Text
decimal_text (number s) = some s
decimal_text not_finite = none
decimal_text (text s) = let trimmed = trim s in if is_empty trimmed then none else some trimmed
decimal_text other = none

-- The text before the first dot, and what follows it, if there is a dot.
unfoldable pub split_dot : Text → Text × Option Text
split_dot [] = ([], none)
split_dot (c ∷ s) =
    let (whole, rest) = split_dot s in if c == b'.' then ([], some s) else (c ∷ whole, rest)

-- One or more digits.
unfoldable pub is_digits : Text → Bool
unfolding all_units
is_digits s = not (is_empty s) && all_units is_digit s

-- The match of `^\d+(?:\.\d+)?$`, with its parts; no fraction is the empty text.
unfoldable pub match_parts : Text × Option Text → Option (Text × Text)
unfolding is_digits
match_parts (whole, none) = if is_digits whole then some (whole, []) else none
match_parts (whole, some fraction) =
    if is_digits whole && is_digits fraction then some (whole, fraction) else none

unfoldable pub match_decimal : Text → Option (Text × Text)
unfolding match_parts split_dot
match_decimal s = match_parts (split_dot s)

-- `whole.replace(/^0+(?=\d)/, '')`, of a text of digits.
unfoldable pub strip_zeros : Text → Text
strip_zeros [] = []
strip_zeros (c ∷ []) = c ∷ []
strip_zeros (c ∷ d ∷ s) = let rest = strip_zeros (d ∷ s) in if c == b'0' then rest else c ∷ d ∷ s

pub record DecimalParts : Type 0 where
  pub whole : Text
  pub fraction : Text

abbrev pub strip_parts : Text × Text → DecimalParts
strip_parts (whole, fraction) = record { whole = strip_zeros whole; fraction = fraction }

abbrev pub map_option {ℓ κ} : {A : Type ℓ} {B : Type κ} → (A → B) → Option A → Option B
map_option f none = none
map_option f (some a) = some (f a)

abbrev pub bind_option {ℓ κ} : {A : Type ℓ} {B : Type κ} → Option A → (A → Option B) → Option B
bind_option none f = none
bind_option (some a) f = f a

unfoldable pub decimal_parts : Value → Option DecimalParts
unfolding decimal_text match_decimal strip_zeros
decimal_parts value = map_option strip_parts (bind_option (decimal_text value) match_decimal)

-- `BigInt(text)`, of a text of digits.
unfoldable pub digits_from : ℕ → Text → ℕ
digits_from acc [] = acc
digits_from acc (c ∷ s) = digits_from (acc * 10 + (c - b'0')) s

abbrev pub big_int : Text → ℕ
big_int s = digits_from 0 s

-- `(fraction + '00').slice(0, 2)`.
abbrev pub cents : Text → Text
cents fraction = take 2 (fraction ++ b'0' ∷ b'0' ∷ [])

pub record CanonicalTokenAmount : Type 0 where
  pub units : ℕ
  pub decimal : Text

unfoldable pub amount_of : DecimalParts → CanonicalTokenAmount
unfolding digits_from
amount_of parts = record {
  units = big_int parts.whole * 100 + big_int (cents parts.fraction);
  decimal = parts.whole ++ b'.' ∷ cents parts.fraction;
}

unfoldable pub canonical_of : DecimalParts → Option CanonicalTokenAmount
unfolding amount_of
canonical_of parts = if ltb 2 (length parts.fraction) then none else some (amount_of parts)

unfoldable pub canonical_token_amount : Value → Option CanonicalTokenAmount
unfolding decimal_parts canonical_of
canonical_token_amount value = bind_option (decimal_parts value) canonical_of

unfoldable pub truncate_token_amount : Value → Option CanonicalTokenAmount
unfolding decimal_parts amount_of
truncate_token_amount value = map_option amount_of (decimal_parts value)

pub data AmountError : Type 0 where
  invalid_decimal_amount unsupported_token_precision : AmountError

unfoldable pub units_of : Text × Text → Result AmountError ℕ
unfolding digits_from
units_of (whole, fraction) =
    if ltb 2 (length fraction)
    then err unsupported_token_precision
    else ok (big_int whole * 100 + big_int (cents fraction))

-- `decimalUnits`, of the text that the database driver returns.
unfoldable pub decimal_units : Text → Result AmountError ℕ
unfolding match_decimal units_of trim
decimal_units value = do
  parts ← or_fail (match_decimal (trim value)) invalid_decimal_amount
  units_of parts
