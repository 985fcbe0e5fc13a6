-- ===== src/Reservations.antt =====
-- SpendReservations of src/database/service.ts: holds on a wallet for a charging session. Each
-- function is one transaction; a number that a caller passes comes in as its JavaScript text.
pub mod Settle
pub mod Reads
pub mod Backing
pub mod Lifecycle
pub mod Table
pub mod Steps
pub mod History
pub mod Once
mod Tests
use ev_web3_award_system.Prelude.{
  ℕ, ◌+◌, ◌-◌, ◌≡◌, refl, Bool, true, false, ◌&&◌, ◌||◌, not, List, [], ◌∷◌, ◌++◌, Option, none,
  some, Result, ok, err, ◌>>=◌, ◌>>◌, require, or_fail, is_some, or_else, get_or, find_by,
  update_where, if◌then◌else◌, take, length, ltb, ◌==◌,
}
use ev_web3_award_system.Text.{Text, codes, text_eq, nullable_eq, same_lower, to_lower, trim}
use ev_web3_award_system.Amount.{
  Value, canonical_token_amount, truncate_token_amount, match_decimal, map_option, bind_option,
}
use ev_web3_award_system.Binary64.{Double, zero_number, token_number, subtract}
use ev_web3_award_system.Store.{
  Database, SpendReservationRecord, ReservationStatus, SettlementContext, Error,
  unsupported_token_precision, spend_balance_unavailable, insufficient_sparkz,
  reservation_intent_mismatch, reservation_not_found, settlement_context_mismatch,
  invalid_settlement_context, reservation_tx_hash_mismatch, unique_violation,
}
use ev_web3_award_system.Operations.Hash.{require_canonical_transaction_hash}
use ev_web3_award_system.Operations.Rows.{truthy}
use ev_web3_award_system.Operations.Capacity.{reserved_total, unresolved_total}

pub record ReserveRequest : Type 0 where
  pub uid : Text
  pub wallet_address : Text
  pub session_id : Text
  pub provider_id : Text
  pub amount : Value
  pub on_chain_balance : Option Value
  pub get_on_chain_balance : Option (Result Error Value)
  pub authorization_tx_hash : Option Text
  pub authorization_amount : Option Value

pub record ReserveResult : Type 0 where
  pub reservation : SpendReservationRecord
  pub available_balance : Double
  pub existing : Bool

-- `where({ uid, session_id, provider_id })`.
unfoldable pub of_session : Text → Text → Text → SpendReservationRecord → Bool
unfolding text_eq
of_session uid session provider r =
    text_eq r.uid uid && text_eq r.session_id session && text_eq r.provider_id provider

unfoldable pub has_id : ℕ → SpendReservationRecord → Bool
has_id id r = r.id == id

unfoldable pub find_by_id : ℕ → Database → Option SpendReservationRecord
unfolding has_id
find_by_id id db = find_by (has_id id) db.spend_reservations

abbrev pub update_reservations :
    (SpendReservationRecord → Bool)
    → (SpendReservationRecord → SpendReservationRecord)
    → Database
    → Database
update_reservations p f db = record db {
  spend_reservations = update_where p f db.spend_reservations;
}

-- The optional amount that the provider authorized.
abbrev pub authorized_units : Option Value → Result Error (Option ℕ)
authorized_units none = ok none
authorized_units (some value) = do
  amount ← or_fail (canonical_token_amount value) unsupported_token_precision
  ok (some amount.units)

abbrev pub optional_hash : Option Text → Result Error (Option Text)
optional_hash none = ok none
optional_hash (some hash) = do
  normalized ← require_canonical_transaction_hash hash
  ok (some normalized)

-- The sampler, if the caller passes one, or else the balance that the caller read.
abbrev pub chain_balance : ReserveRequest → Result Error (Option Value)
chain_balance request = elim request.get_on_chain_balance [
  | none ↦ ok request.on_chain_balance
  | some sample ↦ sample >>= λ balance. ok (some balance)
]

unfoldable pub retry_reserve :
    ReserveRequest → ℕ → SpendReservationRecord → Database → Result Error (ReserveResult × Database)
unfolding same_lower
retry_reserve request amount r db = do
  require (same_lower r.wallet_address request.wallet_address && r.reserved_amount == amount)
      reservation_intent_mismatch
  ok (record { reservation = r; available_balance = zero_number; existing = true }, db)

unfoldable pub new_reservation :
    ℕ → ℕ → ReserveRequest → ℕ → Option Text → Option ℕ → SpendReservationRecord
new_reservation now id request amount hash authorized = record {
  id = id;
  uid = request.uid;
  wallet_address = request.wallet_address;
  session_id = request.session_id;
  provider_id = request.provider_id;
  reserved_amount = amount;
  settled_amount = none;
  released_amount = none;
  delivered_kwh = none;
  settlement_context = none;
  status = ReservationStatus.reserved;
  tx_hash = none;
  error_message = none;
  authorization_tx_hash = hash;
  authorization_amount = authorized;
  reserved_at = now;
  settled_at = none;
  updated_at = now;
}

-- No row of the session yet: the hold must fit in what the chain balance leaves. The primary key
-- refuses an id that a row has.
unfoldable pub reserve_new :
    ℕ → ℕ → ReserveRequest → ℕ → Option ℕ → Database → Result Error (ReserveResult × Database)
unfolding new_reservation reserved_total unresolved_total find_by_id token_number subtract
reserve_new now id request amount authorized db = do
  sampled ← chain_balance request
  balance ← or_fail (bind_option sampled truncate_token_amount) spend_balance_unavailable
  let held = reserved_total request.wallet_address db + unresolved_total request.wallet_address db
  require (not (ltb balance.units (amount + held)))
      (insufficient_sparkz (token_number (balance.units - held)))
  hash ← optional_hash (truthy request.authorization_tx_hash)
  require (not (is_some (find_by_id id db))) unique_violation
  let reservation = new_reservation now id request amount hash authorized
  ok (
    record {
      reservation = reservation;
      available_balance = subtract (token_number (balance.units - held)) (token_number amount);
      existing = false;
    },
    record db { spend_reservations = reservation ∷ db.spend_reservations },
  )

abbrev pub reserve_found :
    ℕ
    → ℕ
    → ReserveRequest
    → ℕ
    → Option ℕ
    → Option SpendReservationRecord
    → Database
    → Result Error (ReserveResult × Database)
reserve_found now id request amount authorized (some r) db = retry_reserve request amount r db
reserve_found now id request amount authorized none db =
    reserve_new now id request amount authorized db

-- `id` is the one that the database gives to a new row.
unfoldable pub reserve : ℕ → ℕ → ReserveRequest → Database → Result Error (ReserveResult × Database)
unfolding reserve_new retry_reserve of_session
reserve now id request db = do
  amount ← or_fail (canonical_token_amount request.amount) unsupported_token_precision
  authorized ← authorized_units request.authorization_amount
  reserve_found now id request amount.units authorized
      (find_by (of_session request.uid request.session_id request.provider_id)
        db.spend_reservations)
      db

abbrev pub is_reserved : ReservationStatus → Bool
is_reserved ReservationStatus.reserved = true
is_reserved _ = false

-- `status === 'settled' || status === 'released'`.
abbrev pub is_closed : ReservationStatus → Bool
is_closed ReservationStatus.settled = true
is_closed ReservationStatus.released = true
is_closed _ = false

unfoldable pub settlement_claimable : Text → Text → Text → SpendReservationRecord → Bool
unfolding of_session
settlement_claimable uid session provider r =
    of_session uid session provider r && is_reserved r.status

unfoldable pub set_settling : ℕ → Option Text → SpendReservationRecord → SpendReservationRecord
set_settling now error r = record r {
  status = ReservationStatus.settling;
  error_message = error;
  updated_at = now;
}

unfoldable pub claim_for_settlement :
    ℕ → Text → Text → Text → Database → Option SpendReservationRecord × Database
unfolding settlement_claimable set_settling
claim_for_settlement now uid session provider db = (
  map_option (set_settling now none)
      (find_by (settlement_claimable uid session provider) db.spend_reservations),
  update_reservations (settlement_claimable uid session provider) (set_settling now none) db,
)

-- `${whole}.${fraction.slice(0, 3).padEnd(3, '0')}` and `${whole}.${fraction || '0'}`.
abbrev pub three_decimals : Text × Text → Text
three_decimals (whole, fraction) = whole ++ b'.' ∷ take 3 (fraction ++ codes "000")

abbrev pub all_decimals : Text × Text → Text
all_decimals (whole, []) = whole ++ b'.' ∷ codes "0"
all_decimals (whole, c ∷ fraction) = whole ++ b'.' ∷ c ∷ fraction

abbrev pub context_of : Text × Text → SettlementContext
context_of (whole, fraction) = record {
  delivered_kwh = all_decimals (whole, fraction);
  normalized_three_decimal = three_decimals (whole, fraction);
  source_precision = length fraction;
}
