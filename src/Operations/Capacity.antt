-- ===== src/Operations/Capacity.antt =====
-- What is held of a wallet's balance: active reservations, and manual spends whose movement is not
-- settled. The queries stand twice in src/database/service.ts, in TokenOperations.claim and in
-- SpendReservations.reserve.
use ev_web3_award_system.Prelude.{ℕ, ◌+◌, Bool, true, false, ◌&&◌, ◌||◌, not, is_some, sum_where}
use ev_web3_award_system.Text.{Text, same_lower}
use ev_web3_award_system.Store.{
  Database, TokenOperationRecord, SpendReservationRecord, ReservationStatus,
}
use ev_web3_award_system.Operations.Rows.{
  is_spend, before_projection, is_projected, may_have_moved, has_key,
}

-- `whereIn('status', ['reserved', 'settling'])`.
abbrev pub is_active : ReservationStatus → Bool
is_active ReservationStatus.reserved = true
is_active ReservationStatus.settling = true
is_active _ = false

unfoldable pub holds_wallet : Text → SpendReservationRecord → Bool
unfolding same_lower
holds_wallet wallet r = same_lower r.wallet_address wallet && is_active r.status

unfoldable pub reserved_total : Text → Database → ℕ
unfolding holds_wallet
reserved_total wallet db =
    sum_where (holds_wallet wallet) (λ r. r.reserved_amount) db.spend_reservations

-- A spend without a reservation that may have moved tokens and is not projected.
unfoldable pub is_unresolved : Text → TokenOperationRecord → Bool
unfolding same_lower
is_unresolved wallet r =
    is_spend r.operation_type
    && not (is_some r.reservation_id)
    && same_lower r.wallet_address wallet
    && not (is_projected r.status)
    && may_have_moved r.movement_outcome
    && (is_some r.tx_hash || before_projection r.status)

unfoldable pub unresolved_total : Text → Database → ℕ
unfolding is_unresolved
unresolved_total wallet db = sum_where (is_unresolved wallet) (λ r. r.amount) db.token_operations

-- `whereNot({ operation_key })`: the claim leaves its own row out.
unfoldable pub other_unresolved_total : Text → Text → Database → ℕ
unfolding is_unresolved has_key
other_unresolved_total key wallet db =
    sum_where (λ r. not (has_key key r) && is_unresolved wallet r) (λ r. r.amount)
      db.token_operations

-- All that is held of a wallet.
unfoldable pub held_total : Text → Database → ℕ
unfolding reserved_total unresolved_total
held_total wallet db = reserved_total wallet db + unresolved_total wallet db
