-- ===== src/Binary64/Tests.antt =====
-- JavaScript's own results on amounts.
use ev_web3_award_system.Prelude.{◌^◌, ◌≡◌, refl}
use ev_web3_award_system.Binary64.{Double, token_number, subtract, to_fixed}

-- 0.3 - 0.1 is 0.19999999999999998, just below the number 0.2; both show as 0.20.
abbrev difference : Double
difference = subtract (token_number 30) (token_number 10)

difference_test : difference ≡ record { numerator = 7205759403792793; denominator = 2 ^ 55 }
unfolding subtract token_number
difference_test = refl

fifth_test : token_number 20 ≡ record { numerator = 7205759403792794; denominator = 2 ^ 55 }
unfolding token_number
fifth_test = refl

difference_fixed : to_fixed difference ≡ 20
unfolding to_fixed subtract token_number
difference_fixed = refl

-- 90071992547409.97 becomes 90071992547409.95.
large_test : to_fixed (token_number 9007199254740997) ≡ 9007199254740995
unfolding to_fixed token_number
large_test = refl
