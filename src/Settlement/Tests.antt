-- ===== src/Settlement/Tests.antt =====
-- A settlement on concrete amounts.
use ev_web3_award_system.Prelude.{◌≡◌, refl, ok, arith}
use ev_web3_award_system.Text.{codes, trim}
use ev_web3_award_system.Amount.{
  CanonicalTokenAmount, text, number, canonical_token_amount, truncate_token_amount,
}
use ev_web3_award_system.Binary64.{token_number}
use ev_web3_award_system.Settlement.{
  ReservationSettlement, calculate_reservation_settlement, IsSettlement,
  calculate_reservation_settlement-IsSettlement,
}

abbrev reserved : CanonicalTokenAmount
reserved = record { units = 1000; decimal = codes "10.00" }

abbrev delivered : CanonicalTokenAmount
delivered = record { units = 314; decimal = codes "3.14" }

-- Of 10 tokens, 3.149 kWh settle 3.14 and release 6.86.
settlement_test :
    calculate_reservation_settlement (text (codes "10")) (number (codes "3.149"))
    ≡ ok (record { settled_amount = token_number 314; released_amount = token_number 686 })
unfolding calculate_reservation_settlement canonical_token_amount truncate_token_amount trim
settlement_test = refl

calculate_reservation_settlement-IsSettlement_example :
    (s : ReservationSettlement) × (calculate_reservation_settlement
        (text (codes "10"))
        (number (codes "3.149"))
      ≡ ok s)
    × IsSettlement 1000 314 s
unfolding canonical_token_amount truncate_token_amount trim
calculate_reservation_settlement-IsSettlement_example =
    calculate_reservation_settlement-IsSettlement (text (codes "10")) (number (codes "3.149"))
      reserved delivered refl refl (omega arith)
