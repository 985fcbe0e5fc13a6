-- ===== src/Amount/Tests.antt =====
-- Token amounts on concrete texts.
use ev_web3_award_system.Prelude.{◌+◌, ◌*◌, ◌^◌, ◌≤◌, ◌<◌, ◌≡◌, refl, none, some, ok}
use ev_web3_award_system.Text.{codes, trim}
use ev_web3_award_system.Amount.{
  text, number, DecimalParts, CanonicalTokenAmount, decimal_parts, canonical_token_amount,
  truncate_token_amount, decimal_units,
}
use ev_web3_award_system.Amount.Laws.{canonical_round_trip}
use ev_web3_award_system.Amount.Floor.{
  exact, truncate_floor, Accepts, canonical_token_amount-Accepts,
}

canonical_test :
    canonical_token_amount (text (codes " 0012.5 "))
    ≡ some (record { units = 1250; decimal = codes "12.50" })
unfolding canonical_token_amount trim
canonical_test = refl

truncate_test :
    truncate_token_amount (number (codes "3.149"))
    ≡ some (record { units = 314; decimal = codes "3.14" })
unfolding truncate_token_amount
truncate_test = refl

reject_test :
    (canonical_token_amount (number (codes "0.30000000000000004")) ≡ none)
    × (canonical_token_amount (number (codes "1e21")) ≡ none)
unfolding canonical_token_amount
reject_test = (refl, refl)

abbrev twelve : CanonicalTokenAmount
twelve = record { units = 1250; decimal = codes "12.50" }

abbrev twelve_parts : DecimalParts
twelve_parts = record { whole = codes "12"; fraction = codes "5" }

canonical_token_amount-Accepts_example :
    Accepts twelve_parts (canonical_token_amount (text (codes "012.5")))
unfolding decimal_parts trim
canonical_token_amount-Accepts_example =
    canonical_token_amount-Accepts (text (codes "012.5")) twelve_parts refl

canonical_round_trip_example :
    (canonical_token_amount (text (codes "12.50")) ≡ some twelve)
    × (decimal_units (codes "12.50") ≡ ok 1250)
unfolding canonical_token_amount trim
canonical_round_trip_example = canonical_round_trip (text (codes "012.5")) twelve refl

truncate_floor_example :
    (314 * 10 ^ 4 ≤ 100 * exact (record { whole = codes "3"; fraction = codes "1499" }))
    × (100 * exact (record { whole = codes "3"; fraction = codes "1499" }) < (314 + 1) * 10 ^ 4)
unfolding decimal_parts truncate_token_amount
truncate_floor_example =
    truncate_floor (number (codes "3.1499")) (record { units = 314; decimal = codes "3.14" })
      (record { whole = codes "3"; fraction = codes "1499" }) refl refl
