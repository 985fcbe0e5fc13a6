-- ===== src/Keys.antt =====
-- The operation keys of src/database/tokenOperation.ts: awardOperationKey, spendOperationKey and
-- reservationOperationKey. The hash of node's crypto module is a parameter, from a text to the hex
-- digits of its SHA-256.
pub mod Tuples
mod Tests
use ev_web3_award_system.Prelude.{
  ℕ, zero, suc, ◌+◌, ◌/◌, ◌%◌, List, [], ◌∷◌, ◌++◌, ltb, length, if◌then◌else◌,
}
use ev_web3_award_system.Text.{Text, codes}

-- `${n}`: the digits of n, for which n rounds are enough.
unfoldable pub decimal_digits : (rounds n : ℕ) → Text
decimal_digits zero n = (b'0' + n) ∷ []
decimal_digits (suc rounds) n =
    let front = decimal_digits rounds (n / 10) in
    if ltb n 10 then (b'0' + n) ∷ [] else front ++ ((b'0' + n % 10) ∷ [])

unfoldable pub decimal : ℕ → Text
unfolding decimal_digits
decimal n = decimal_digits n n

-- `${a.length}:${a}${b.length}:${b}`.
unfoldable pub length_delimited : Text → Text → Text
unfolding decimal
length_delimited a b = decimal (length a) ++ (b':' ∷ (a ++ (decimal (length b) ++ (b':' ∷ b))))

module _ (sha256 : Text → Text) where
  unfoldable pub award_operation_key : (provider_id session_id : Text) → Text
  unfolding length_delimited
  award_operation_key provider_id session_id =
      codes "award:" ++ sha256 (length_delimited provider_id session_id)

  unfoldable pub spend_operation_key : (uid idempotency_key : Text) → Text
  unfolding length_delimited
  spend_operation_key uid idempotency_key =
      codes "spend:" ++ sha256 (length_delimited uid idempotency_key)

unfoldable pub reservation_operation_key : Text → Text
reservation_operation_key reservation_id = codes "reservation:" ++ reservation_id
