-- ===== src/Settlement.antt =====
-- src/reservation.ts: the part of a reservation that a delivery redeems. One SPARKZ redeems one kWh.
mod Tests
use ev_web3_award_system.Prelude.{
  ℕ, ◌+◌, ◌-◌, ◌≤◌, ◌<◌, ◌≡◌, ◌⊎◌, refl, inl, inr, Option, none, some, Result, ok, err, ◌>>=◌,
  or_fail, ltb, if◌then◌else◌, arith,
}
use ev_web3_award_system.Amount.{
  Value, CanonicalTokenAmount, canonical_token_amount, truncate_token_amount,
}
use ev_web3_award_system.Binary64.{Double, token_number, to_fixed}
use ev_web3_award_system.Binary64.Rounding.{exact_limit, to_fixed-token_number}

pub data SettlementError : Type 0 where
  invalid_reserved_sparkz invalid_delivered_kwh : SettlementError

-- The amounts in hundredths of a token.
pub record UnitSplit : Type 0 where
  pub settled_units : ℕ
  pub released_units : ℕ

pub record ReservationSettlement : Type 0 where
  pub settled_amount : Double
  pub released_amount : Double

-- `min(reserved, delivered)` is settled and the rest is released.
unfoldable pub split_units : ℕ → ℕ → UnitSplit
split_units reserved delivered =
    let settled = if ltb reserved delivered then reserved else delivered in
    record { settled_units = settled; released_units = reserved - settled }

-- The numbers that the caller gets.
abbrev pub settlement_of : UnitSplit → ReservationSettlement
settlement_of split = record {
  settled_amount = token_number split.settled_units;
  released_amount = token_number split.released_units;
}

unfoldable pub calculate_reservation_settlement :
    Value → Value → Result SettlementError ReservationSettlement
unfolding split_units token_number
calculate_reservation_settlement reserved_sparkz delivered_kwh = do
  reserved ← or_fail (canonical_token_amount reserved_sparkz) invalid_reserved_sparkz
  delivered ← or_fail (truncate_token_amount delivered_kwh) invalid_delivered_kwh
  ok (settlement_of (split_units reserved.units delivered.units))

-- What a settlement of `reserved` units against a delivery of `delivered` units must be, to the two
-- decimals of its numbers; and each number is the one of these decimals.
pub record IsSettlement (reserved delivered : ℕ) (s : ReservationSettlement) : Type 0 where
  pub conserved : to_fixed s.settled_amount + to_fixed s.released_amount ≡ reserved
  pub delivered_bound : to_fixed s.settled_amount ≤ delivered
  pub exhausted : (to_fixed s.released_amount ≡ 0) ⊎ (to_fixed s.settled_amount ≡ delivered)
  pub settled_number : s.settled_amount ≡ token_number (to_fixed s.settled_amount)
  pub released_number : s.released_amount ≡ token_number (to_fixed s.released_amount)

-- Both parts are at most the whole.
pub split_units-exact :
    (reserved delivered : ℕ)
    → reserved < exact_limit
    → let split = split_units reserved delivered in
      (to_fixed (token_number split.settled_units) ≡ split.settled_units)
      × (to_fixed (token_number split.released_units) ≡ split.released_units)
unfolding split_units
split_units-exact reserved delivered h =
    (to_fixed-token_number _ (ground (arith, h)), to_fixed-token_number _ (ground (arith, h)))

pub split_units-sum :
    (reserved delivered : ℕ)
    → let split = split_units reserved delivered in
      (split.settled_units + split.released_units ≡ reserved)
      × (split.settled_units ≤ delivered)
      × ((split.released_units ≡ 0) ⊎ (split.settled_units ≡ delivered))
unfolding split_units
split_units-sum reserved delivered = ground arith

settlement_of-IsSettlement :
    (reserved delivered : ℕ)
    → reserved < exact_limit
    → IsSettlement reserved delivered (settlement_of (split_units reserved delivered))
settlement_of-IsSettlement reserved delivered h =
    let (settled, released) = split_units-exact reserved delivered h in
    let (sum, bound, used) = split_units-sum reserved delivered in
    record {
      conserved = rw (settled, released) sum;
      delivered_bound = rw settled bound;
      exhausted = rw (settled, released) used;
      settled_number = rw settled refl;
      released_number = rw released refl;
    }

-- For an accepted reservation of less than 2 ^ 46 tokens and an accepted delivery, a settlement is computed. To two
-- decimals, its numbers split the reserved amount into a settled and a released part without loss, settle no
-- more than was delivered (rounded down to two places), and release something only when the whole delivery is settled;
-- and they are the numbers nearest to these decimals.
pub calculate_reservation_settlement-IsSettlement :
    (reserved_sparkz delivered_kwh : Value) (reserved delivered : CanonicalTokenAmount)
    → canonical_token_amount reserved_sparkz ≡ some reserved
    → truncate_token_amount delivered_kwh ≡ some delivered
    → reserved.units < exact_limit
    → (s : ReservationSettlement) × (calculate_reservation_settlement reserved_sparkz delivered_kwh
        ≡ ok s)
      × IsSettlement reserved.units delivered.units s
unfolding calculate_reservation_settlement
calculate_reservation_settlement-IsSettlement reserved_sparkz delivered_kwh reserved delivered r d
      h =
    (
      settlement_of (split_units reserved.units delivered.units),
      rw (r, d) refl,
      settlement_of-IsSettlement reserved.units delivered.units h,
    )
