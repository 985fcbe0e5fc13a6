-- ===== src/Reservations/Settle.antt =====
-- The closing half of SpendReservations: persistSettlementContext, complete and retry.
use ev_web3_award_system.Prelude.{
  ℕ, Bool, true, ◌&&◌, ◌||◌, not, [], Option, none, some, Result, ok, ◌>>=◌, ◌>>◌, require, or_fail,
  is_some, or_else, get_or, if◌then◌else◌, length, ltb,
}
use ev_web3_award_system.Text.{Text, text_eq, to_lower}
use ev_web3_award_system.Amount.{Value, canonical_token_amount, match_decimal, split_dot}
use ev_web3_award_system.Settlement.{split_units}
use ev_web3_award_system.Binary64.{token_number, to_fixed, is_positive}
use ev_web3_award_system.Store.{
  Database, SpendReservationRecord, ReservationStatus, SettlementContext, Error,
  unsupported_token_precision, reservation_not_found, settlement_context_mismatch,
  invalid_settlement_context, reservation_tx_hash_mismatch,
}
use ev_web3_award_system.Operations.Rows.{truthy}
use ev_web3_award_system.Reservations.{
  has_id, find_by_id, update_reservations, optional_hash, three_decimals, all_decimals, context_of,
  is_closed, set_settling,
}

-- The parts of a delivered energy, given by the text of the number; a number that is not finite or
-- is negative has no such text.
unfoldable pub delivered_parts : Text → Result Error (Text × Text)
unfolding match_decimal
delivered_parts delivered = or_fail (match_decimal delivered) invalid_settlement_context

abbrev pub column_parts : Text → Text × Text
column_parts s = let (whole, fraction) = split_dot s in (whole, get_or fraction [])

-- The delivery that a row already holds is the given one: in full where the row has its context, to
-- three decimals where it has only the column `delivered_kwh`.
unfoldable pub same_context : Option SettlementContext → Option Text → Text × Text → Bool
unfolding text_eq split_dot
same_context (some context) delivered parts = text_eq context.delivered_kwh (all_decimals parts)
same_context none (some delivered) parts =
    text_eq (three_decimals (column_parts delivered)) (three_decimals parts)
same_context none none parts = true

abbrev pub has_context : SpendReservationRecord → Bool
has_context r = is_some r.settlement_context || is_some r.delivered_kwh

unfoldable pub set_context : ℕ → Text × Text → SpendReservationRecord → SpendReservationRecord
set_context now parts r = record r {
  delivered_kwh = some (three_decimals parts);
  settlement_context = some (context_of parts);
  updated_at = now;
}

-- `UPDATE ... WHERE id`, and the row that it returns.
abbrev pub updated_row :
    ℕ
    → (SpendReservationRecord → SpendReservationRecord)
    → SpendReservationRecord
    → Database
    → SpendReservationRecord × Database
updated_row id f r db = (f r, update_reservations (has_id id) f db)

unfoldable pub persist_row :
    ℕ
    → ℕ
    → Text × Text
    → SpendReservationRecord
    → Database
    → Result Error (SpendReservationRecord × Database)
unfolding same_context set_context has_id
persist_row now id parts current db = do
  require (same_context current.settlement_context current.delivered_kwh parts)
      settlement_context_mismatch
  ok (
      if has_context current
      then (current, db)
      else updated_row id (set_context now parts) current db)

unfoldable pub persist_settlement_context :
    ℕ → ℕ → Text → Database → Result Error (SpendReservationRecord × Database)
unfolding persist_row delivered_parts find_by_id
persist_settlement_context now id delivered db = do
  parts ← delivered_parts delivered
  require (not (ltb 12 (length parts.1))) invalid_settlement_context
  current ← or_fail (find_by_id id db) (reservation_not_found id)
  persist_row now id parts current db

-- A closed row keeps its hash: a retry with another one is refused.
abbrev pub hash_agrees : Option Text → Option Text → Bool
hash_agrees (some normalized) (some saved) = text_eq (to_lower saved) normalized
hash_agrees _ _ = true

-- Part of a hold is settled, and the rest released; the columns get the texts of `toFixed(2)`.
unfoldable pub set_completed :
    ℕ → Text × Text → ℕ → Option Text → SpendReservationRecord → SpendReservationRecord
unfolding split_units token_number to_fixed
set_completed now parts requested hash r =
    let split = split_units r.reserved_amount requested in
    let settled = token_number split.settled_units in
    let released = token_number split.released_units in
    record r {
      status =
          if is_positive settled then ReservationStatus.settled else ReservationStatus.released;
      delivered_kwh = or_else (truthy r.delivered_kwh) (some (three_decimals parts));
      settlement_context = or_else r.settlement_context (some (context_of parts));
      settled_amount = some (to_fixed settled);
      released_amount = some (to_fixed released);
      tx_hash = or_else hash (truthy r.tx_hash);
      settled_at = some now;
      updated_at = now;
    }

unfoldable pub complete_open :
    ℕ
    → ℕ
    → Text
    → Value
    → Option Text
    → SpendReservationRecord
    → Database
    → Result Error (SpendReservationRecord × Database)
unfolding same_context set_completed has_id delivered_parts
complete_open now id delivered settled_amount hash current db = do
  requested ← or_fail (canonical_token_amount settled_amount) unsupported_token_precision
  parts ← delivered_parts delivered
  require (same_context current.settlement_context current.delivered_kwh parts)
      settlement_context_mismatch
  ok (updated_row id (set_completed now parts requested.units hash) current db)

unfoldable pub complete_row :
    ℕ
    → ℕ
    → Text
    → Value
    → Option Text
    → SpendReservationRecord
    → Database
    → Result Error (SpendReservationRecord × Database)
unfolding complete_open
complete_row now id delivered settled_amount hash current db =
    if is_closed current.status
    then require (hash_agrees hash (truthy current.tx_hash)) reservation_tx_hash_mismatch
      >> ok (current, db)
    else complete_open now id delivered settled_amount hash current db

unfoldable pub complete :
    ℕ → ℕ → Text → Value → Option Text → Database → Result Error (SpendReservationRecord × Database)
unfolding complete_row find_by_id
complete now id delivered settled_amount tx_hash db = do
  hash ← optional_hash (truthy tx_hash)
  current ← or_fail (find_by_id id db) (reservation_not_found id)
  complete_row now id delivered settled_amount hash current db

unfoldable pub open_with_id : ℕ → SpendReservationRecord → Bool
unfolding has_id
open_with_id id r = has_id id r && not (is_closed r.status)

-- The guard of the row that is read and that of the UPDATE are the same.
unfoldable pub retry : ℕ → ℕ → Text → Database → Database
unfolding open_with_id set_settling
retry now id error db = update_reservations (open_with_id id) (set_settling now (some error)) db
