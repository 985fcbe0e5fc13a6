-- ===== src/Binary64/Difference.antt =====
-- Below 2 ^ 43 tokens the two decimals of a difference of amounts are the difference in hundredths.
use native.Mathlib.Nat.{pow-le-pow_right, div-add-mod, mod-lt, le_of_mul-le-mul_right}
use ev_web3_award_system.Prelude.{
  ℕ, zero, suc, ◌+◌, ◌-◌, ◌*◌, ◌/◌, ◌%◌, ◌^◌, ◌≤◌, ◌<◌, ◌≡◌, refl, sym, inl, inr, Bool, true, false,
  ltb, ◌==◌, ◌&&◌, ◌||◌, Bool-cases, arith,
}
use ev_web3_award_system.Binary64.{
  Double, round_even, up_shift, down_shift, number_of, quotient, token_number, subtract, to_fixed,
}
use ev_web3_award_system.Binary64.Rounding.{
  no_up, down_from-past, divided, hundredth, number_of_small,
}

-- 2 ^ 43 tokens, in hundredths.
abbrev pub difference_limit : ℕ
difference_limit = 879609302220800

-- A number is nearer than a twentieth of a hundredth to an amount of hundredths.
record Near (units : ℕ) (x : Double) : Type 0 where
  positive : 0 < x.denominator
  above : 102400 * x.numerator ≤ 1024 * (units * x.denominator) + 50 * x.denominator
  below : 1024 * (units * x.denominator) ≤ 102400 * x.numerator + 50 * x.denominator

quotient-Near : (u : ℕ) → suc u < difference_limit → Near (suc u) (quotient (suc u) 100)
unfolding quotient
quotient-Near u h =
    near_of (suc u) (up_shift (suc u) 100) (down_shift (suc u) 100)
      (no_up 971 (suc u) 100 (omega arith))
      (down_from-past 1074 0 (suc u) 100 9 (omega arith) (omega arith) (omega arith))
  where
    near_of :
        (n up down : ℕ)
        → up ≡ 0
        → 10 ≤ down
        → Near n (record {
          numerator = round_even (n * 2 ^ down) (100 * 2 ^ up) * 2 ^ up;
          denominator = 2 ^ down;
        })
    near_of n up down none enough =
        let (high, low) = hundredth (n * 2 ^ down) in
        let large : 1024 ≤ 2 ^ down = pow-le-pow_right {n = 2} (omega arith) enough in
        rw none (record {
          positive = omega (arith, large);
          above = omega (arith, high, large);
          below = omega (arith, low, large);
        })

token_number-Near : (units : ℕ) → units < difference_limit → Near units (token_number units)
unfolding token_number
token_number-Near zero h =
    unfold number_of quotient in
    record { positive = omega arith; above = omega arith; below = omega arith }
token_number-Near (suc u) h = rw (number_of_small (suc u) (omega arith)) (quotient-Near u h)

rounds_down : (a d : ℕ) (even : Bool) → (ltb a d || a == d && even) ≡ true → a ≤ d
rounds_down a d even h = ground arith

rounds_up : (a d : ℕ) (even : Bool) → (ltb a d || a == d && even) ≡ false → d ≤ a
rounds_up a d even h = ground arith

-- The nearest whole number is off by at most a half.
round_even-half :
    (n d : ℕ)
    → 0 < d
    → (2 * (d * round_even n d) ≤ 2 * n + d) × (2 * n ≤ 2 * (d * round_even n d) + d)
unfolding round_even
round_even-half n d pos =
    let parts = div-add-mod n d in
    let small = mod-lt n pos in
    elim (Bool-cases (ltb (n % d * 2) d || n % d * 2 == d && n / d % 2 == 0)) [
      | inl down ↦
          let half = rounds_down (n % d * 2) d (n / d % 2 == 0) down in
          rw down (omega (arith, parts, small, half), omega (arith, parts, small, half))
      | inr up ↦
          let half = rounds_up (n % d * 2) d (n / d % 2 == 0) up in
          rw up (omega (arith, parts, small, half), omega (arith, parts, small, half))
    ]

times : (a b c : ℕ) → a ≤ b → a * c ≤ b * c
times a b c h = grind arith

-- The exact difference of two near numbers.
record NearDifference (d n e : ℕ) : Type 0 where
  above : 1024 * (100 * n) ≤ 1024 * (d * e) + 100 * e
  below : 1024 * (d * e) ≤ 1024 * (100 * n) + 100 * e

difference-Near :
    (b d : ℕ) (x y : Double)
    → Near (b + d) x
    → Near b y
    → NearDifference d
        (x.numerator * y.denominator - y.numerator * x.denominator)
        (x.denominator * y.denominator)
difference-Near b d x y p q =
    let xa = times _ _ y.denominator p.above in
    let xb = times _ _ y.denominator p.below in
    let ya = times _ _ x.denominator q.above in
    let yb = times _ _ x.denominator q.below in
    record { above = omega (arith, xa, xb, ya, yb); below = omega (arith, xa, xb, ya, yb) }

-- The rounded quotient of a near difference, at a scale z.
module _ (d n e z m : ℕ) (near : NearDifference d n e) (pos : 0 < e) (fine : 1024 ≤ z)
    (high : 2 * (e * m) ≤ 2 * (n * z) + e) (low : 2 * (n * z) ≤ 2 * (e * m) + e) where
  not_above : 204800 * m ≤ 2048 * (d * z) + 300 * z
  not_above =
      let scaled_near = times _ _ z near.above in
      let scaled_fine = times _ _ e fine in
      let product : 204800 * m * e ≤ (2048 * (d * z) + 300 * z) * e =
        omega (arith, scaled_near, scaled_fine, high) in
      le_of_mul-le-mul_right product pos

  not_below : 2048 * (d * z) ≤ 204800 * m + 300 * z
  not_below =
      let scaled_near = times _ _ z near.below in
      let scaled_fine = times _ _ e fine in
      let product : 2048 * (d * z) * e ≤ (204800 * m + 300 * z) * e =
        omega (arith, scaled_near, scaled_fine, low) in
      le_of_mul-le-mul_right product pos

  read_back : (m * 200 + z) / (2 * z) ≡ d
  read_back =
      divided (m * 200 + z) (2 * z) d (omega (arith, fine)) (omega (arith, not_below, fine))
        (omega (arith, not_above, fine))

fixed_difference :
    (d n e up down : ℕ)
    → NearDifference d n e
    → 0 < e
    → up ≡ 0
    → 10 ≤ down
    → to_fixed (record {
      numerator = round_even (n * 2 ^ down) (e * 2 ^ up) * 2 ^ up;
      denominator = 2 ^ down;
    })
      ≡ d
unfolding to_fixed
fixed_difference d n e up down near pos none enough =
    let (high, low) = round_even-half (n * 2 ^ down) (e * 1) (omega (arith, pos)) in
    let fine : 1024 ≤ 2 ^ down = pow-le-pow_right {n = 2} (omega arith) enough in
    rw none (
      read_back d n e (2 ^ down) (round_even (n * 2 ^ down) (e * 1) * 1) near pos fine
        (omega (arith, high)) (omega (arith, low)))

no_difference : (d e : ℕ) → NearDifference d 0 e → 0 < e → d ≡ 0
no_difference zero e near pos = refl
no_difference (suc d) e near pos = absurd (omega (arith, near.below, pos))

-- The search for the scale of the quotient goes past 9.
quotient-fixed :
    (d n e : ℕ)
    → NearDifference d n e
    → 0 < e
    → n * 2 ^ 9 < e * 2 ^ 52
    → to_fixed (quotient n e) ≡ d
unfolding quotient
quotient-fixed d zero e near pos h = unfold to_fixed in sym (no_difference d e near pos)
quotient-fixed d (suc n) e near pos h =
    fixed_difference d (suc n) e (up_shift (suc n) e) (down_shift (suc n) e) near pos
      (no_up 971 (suc n) e (omega (arith, h)))
      (down_from-past 1074 0 (suc n) e 9 h (omega arith) (omega arith))

-- A near number of fewer than 2 ^ 43 tokens is below 2 ^ 43.
numerator-lt :
    (a : ℕ) (x : Double)
    → Near a x
    → a < difference_limit
    → x.numerator < 8796093022208 * x.denominator
numerator-lt a x p h =
    let most = times (suc a) difference_limit x.denominator h in
    omega (arith, p.above, p.positive, most)

product_pos : (a b : ℕ) → 0 < a → 0 < b → 0 < a * b
product_pos a b h k = grind arith

-- What is shown for what is left of an amount.
pub to_fixed-subtract :
    (b d : ℕ)
    → b + d < difference_limit
    → to_fixed (subtract (token_number (b + d)) (token_number b)) ≡ d
unfolding subtract
to_fixed-subtract b d h =
    let x = token_number (b + d) in
    let y = token_number b in
    let p = token_number-Near (b + d) h in
    let q = token_number-Near b (omega arith) in
    let small = times _ _ y.denominator (numerator-lt (b + d) x p h) in
    quotient-fixed d (x.numerator * y.denominator - y.numerator * x.denominator)
      (x.denominator * y.denominator) (difference-Near b d x y p q)
      (product_pos x.denominator y.denominator p.positive q.positive)
      (omega (arith, small, q.positive))
