-- ===== src/Binary64.antt =====
-- The JavaScript numbers of the amounts in src/reservation.ts, src/database/tokenOperation.ts and
-- src/database/service.ts: Number(units) / 100, the difference of two numbers, and toFixed(2). A
-- number from 0 is a fraction; each operation rounds the exact result to the nearest number with 53
-- bits, a tie to the even one. Numbers from 2 ^ 1024, which are Infinity there, are beyond any
-- amount that a table holds.
pub mod Rounding
pub mod Difference
mod Tests
use ev_web3_award_system.Prelude.{
  ℕ, zero, suc, ◌+◌, ◌-◌, ◌*◌, ◌/◌, ◌%◌, ◌^◌, Bool, true, false, ◌||◌, ◌&&◌, ltb, leb, ◌==◌,
  if◌then◌else◌,
}

pub record Double : Type 0 where
  pub numerator : ℕ
  pub denominator : ℕ

abbrev pub zero_number : Double
zero_number = record { numerator = 0; denominator = 1 }

-- The quotient as a whole number, rounded to the nearest, a tie to the even one.
unfoldable pub round_even : ℕ → ℕ → ℕ
round_even n d = if ltb (n % d * 2) d || n % d * 2 == d && n / d % 2 == 0 then n / d else n / d + 1

-- The first k from the given one with n < d * 2 ^ 53 * 2 ^ k.
unfoldable pub up_from : (rounds k n d : ℕ) → ℕ
up_from zero k n d = k
up_from (suc rounds) k n d = elim (leb (d * 2 ^ 53 * 2 ^ k) n) [
  | true ↦ up_from rounds (suc k) n d
  | false ↦ k
]

-- The first k from the given one with d * 2 ^ 52 <= n * 2 ^ k.
unfoldable pub down_from : (rounds k n d : ℕ) → ℕ
down_from zero k n d = k
down_from (suc rounds) k n d = elim (ltb (n * 2 ^ k) (d * 2 ^ 52)) [
  | true ↦ down_from rounds (suc k) n d
  | false ↦ k
]

-- The exponents of the format go up to 2 ^ 971 and down to 2 ^ -1074.
abbrev pub up_shift : ℕ → ℕ → ℕ
up_shift n d = up_from 971 0 n d

abbrev pub down_shift : ℕ → ℕ → ℕ
down_shift n d = down_from 1074 0 n d

-- `Number(n)` of a bigint.
unfoldable pub number_of : ℕ → ℕ
unfolding up_from round_even
number_of n = round_even n (2 ^ up_shift n 1) * 2 ^ up_shift n 1

-- The number nearest to n / d.
unfoldable pub quotient : ℕ → ℕ → Double
unfolding up_from down_from round_even
quotient zero d = zero_number
quotient (suc n) d =
    let up = up_shift (suc n) d in
    let down = down_shift (suc n) d in
    record {
      numerator = round_even (suc n * 2 ^ down) (d * 2 ^ up) * 2 ^ up;
      denominator = 2 ^ down;
    }

-- `Number(units) / 100`.
unfoldable pub token_number : ℕ → Double
unfolding number_of quotient
token_number units = quotient (number_of units) 100

-- `x - y`, for y up to x.
unfoldable pub subtract : Double → Double → Double
unfolding quotient
subtract x y =
    quotient (x.numerator * y.denominator - y.numerator * x.denominator)
      (x.denominator * y.denominator)

-- `x > 0`.
abbrev pub is_positive : Double → Bool
is_positive x = ltb 0 x.numerator

-- `x.toFixed(2)`, in hundredths: the nearest, of two the larger one.
unfoldable pub to_fixed : Double → ℕ
to_fixed x = (x.numerator * 200 + x.denominator) / (2 * x.denominator)
