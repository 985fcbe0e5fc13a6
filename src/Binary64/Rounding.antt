-- ===== src/Binary64/Rounding.antt =====
-- Below 2 ^ 46 tokens the two decimals of Number(units) / 100 are the units.
use native.Mathlib.Nat.{pow-le-pow_right, div-add-mod, mod-lt}
use ev_web3_award_system.Prelude.{
  ℕ, zero, suc, ◌+◌, ◌*◌, ◌/◌, ◌^◌, ◌≤◌, ◌<◌, ◌≡◌, refl, inl, inr, true, false, ltb, leb,
  Bool-cases, arith,
}
use ev_web3_award_system.Binary64.{
  round_even, up_from, down_from, up_shift, down_shift, number_of, quotient, token_number, to_fixed,
}

-- 2 ^ 46 tokens, in hundredths.
abbrev pub exact_limit : ℕ
exact_limit = 7036874417766400

round_even_one : (n : ℕ) → round_even n 1 ≡ n
unfolding round_even
round_even_one n = ground arith

at_most : (a b : ℕ) → a < b → leb b a ≡ false
at_most a b h = ground arith

smaller : (a b : ℕ) → a < b → ltb a b ≡ true
smaller a b h = ground arith

pub no_up : (rounds n d : ℕ) → n < d * 2 ^ 53 * 2 ^ 0 → up_from rounds 0 n d ≡ 0
unfolding up_from
no_up zero n d h = refl
no_up (suc rounds) n d h = rw (at_most n (d * 2 ^ 53 * 2 ^ 0) h, up_from) refl

down_from-le : (rounds k n d : ℕ) → k ≤ down_from rounds k n d
unfolding down_from
down_from-le zero k n d = omega arith
down_from-le (suc rounds) k n d = elim (Bool-cases (ltb (n * 2 ^ k) (d * 2 ^ 52))) [
  | inl more ↦ rw (more, down_from) (omega (arith, down_from-le rounds (suc k) n d))
  | inr done ↦ rw (done, down_from) (omega arith)
]

scaled : (n p q : ℕ) → p ≤ q → n * p ≤ n * q
scaled n p q h = grind arith

-- The search goes past every k that does not do.
pub down_from-past :
    (rounds k n d j : ℕ)
    → n * 2 ^ j < d * 2 ^ 52
    → k ≤ j
    → j < k + rounds
    → suc j ≤ down_from rounds k n d
unfolding down_from
down_from-past zero k n d j h below enough = absurd (omega arith)
down_from-past (suc rounds) k n d j h below enough =
    let more =
      smaller (n * 2 ^ k) (d * 2 ^ 52)
        (omega (arith, scaled n (2 ^ k) (2 ^ j) (pow-le-pow_right (omega arith) below))) in
    elim (Bool-cases (ltb k j)) [
      | inl before ↦
          rw (more, down_from) (down_from-past rounds (suc k) n d j h (ground arith) (omega arith))
      | inr last ↦
          let same : j ≡ k = ground arith in
          rw (more, down_from) (omega (arith, down_from-le rounds (suc k) n d))
    ]

pub divided : (x d u : ℕ) → 0 < d → u * d ≤ x → x < u * d + d → x / d ≡ u
divided x d u pos low high = grind (arith, div-add-mod x d, mod-lt x pos)

double_product : (u d : ℕ) → u * (2 * d) ≡ 2 * (u * d)
double_product u d = omega arith

-- A product that was divided by a hundred, and rounded, is found again.
divide_back :
    (u m d : ℕ)
    → 100 < d
    → 100 * m ≤ u * d + 50
    → u * d ≤ 100 * m + 50
    → (m * 200 + d) / (2 * d) ≡ u
divide_back u m d h below above =
    divided (m * 200 + d) (2 * d) u (omega arith) (omega (arith, double_product u d))
      (omega (arith, double_product u d))

pub hundredth : (x : ℕ) → (100 * round_even x 100 ≤ x + 50) × (x ≤ 100 * round_even x 100 + 50)
unfolding round_even
hundredth x = ground arith

pub number_of_small : (n : ℕ) → n < 2 ^ 53 → number_of n ≡ n
unfolding number_of
number_of_small n h = rw (no_up 971 n 1 (omega arith)) (rw (round_even_one n) (omega arith))

fixed_of :
    (n up down : ℕ)
    → up ≡ 0
    → 7 ≤ down
    → to_fixed (record {
      numerator = round_even (n * 2 ^ down) (100 * 2 ^ up) * 2 ^ up;
      denominator = 2 ^ down;
    })
      ≡ n
unfolding to_fixed
fixed_of n up down none enough =
    let (above, below) = hundredth (n * 2 ^ down) in
    rw none (
      divide_back n (round_even (n * 2 ^ down) 100 * 1) (2 ^ down)
        (omega (arith, pow-le-pow_right {n = 2} (omega arith) enough)) (omega (arith, above))
        (omega (arith, below)))

to_fixed-quotient : (u : ℕ) → suc u < exact_limit → to_fixed (quotient (suc u) 100) ≡ suc u
unfolding quotient
to_fixed-quotient u h =
    fixed_of (suc u) (up_shift (suc u) 100) (down_shift (suc u) 100)
      (no_up 971 (suc u) 100 (omega arith))
      (down_from-past 1074 0 (suc u) 100 6 (omega arith) (omega arith) (omega arith))

-- For fewer than 2 ^ 46 tokens the numbers lie closer together than hundredths.
pub to_fixed-token_number :
    (units : ℕ) → units < exact_limit → to_fixed (token_number units) ≡ units
unfolding token_number
to_fixed-token_number zero h = unfold to_fixed number_of quotient in refl
to_fixed-token_number (suc u) h = rw (number_of_small (suc u) (omega arith)) (to_fixed-quotient u h)
