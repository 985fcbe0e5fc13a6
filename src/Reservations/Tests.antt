-- ===== src/Reservations/Tests.antt =====
-- SpendReservations on concrete rows.
use ev_web3_award_system.Prelude.{ℕ, ◌≡◌, refl, false, List, [], ◌∷◌, none, some, ok}
use ev_web3_award_system.Text.{codes, text_eq, trim}
use ev_web3_award_system.Amount.{number, canonical_token_amount, truncate_token_amount}
use ev_web3_award_system.Binary64.{token_number, subtract, to_fixed}
use ev_web3_award_system.Store.{Database, SpendReservationRecord, ReservationStatus}
use ev_web3_award_system.Reservations.{
  ReserveRequest, ReserveResult, find_by_id, claim_for_settlement, reserve,
}
use ev_web3_award_system.Reservations.Lifecycle.{Progress}
use ev_web3_award_system.Reservations.Backing.{Backed, reserve-Backed}
use ev_web3_award_system.Reservations.Table.{WellHeld}
use ev_web3_award_system.Reservations.History.{
  Call, reserve_call, complete_call, retry_call, run_all, run_all-WellHeld, run_all-Progress,
}
use ev_web3_award_system.Reservations.Once.{settlement_claimed_once}

abbrev empty : Database
empty = record {
  token_operations = [];
  spend_reservations = [];
  awards = [];
  users = [];
  spends = [];
  balances = [];
  linked_wallet_links = [];
  leases = [];
  approval_preparations = [];
}

-- A hold of 5 tokens on a wallet of 12.345.
abbrev session_request : ReserveRequest
session_request = record {
  uid = codes "alice";
  wallet_address = codes "0xA1";
  session_id = codes "s1";
  provider_id = codes "p1";
  amount = number (codes "5");
  on_chain_balance = some (number (codes "12.345"));
  get_on_chain_balance = none;
  authorization_tx_hash = none;
  authorization_amount = none;
}

abbrev held_row : SpendReservationRecord
held_row = record {
  id = 1;
  uid = codes "alice";
  wallet_address = codes "0xA1";
  session_id = codes "s1";
  provider_id = codes "p1";
  reserved_amount = 500;
  settled_amount = none;
  released_amount = none;
  delivered_kwh = none;
  settlement_context = none;
  status = ReservationStatus.reserved;
  tx_hash = none;
  error_message = none;
  authorization_tx_hash = none;
  authorization_amount = none;
  reserved_at = 7;
  settled_at = none;
  updated_at = 7;
}

abbrev settling_row : SpendReservationRecord
settling_row = record held_row { status = ReservationStatus.settling; updated_at = 8 }

abbrev one_hold : Database
one_hold = record empty { spend_reservations = held_row ∷ [] }

abbrev held : ReserveResult
held = record {
  reservation = held_row;
  available_balance = subtract (token_number 1234) (token_number 500);
  existing = false;
}

reserve_test : reserve 7 1 session_request empty ≡ ok (held, one_hold)
unfolding reserve canonical_token_amount truncate_token_amount trim
reserve_test = refl

reserve-Backed_example : Backed session_request held one_hold
reserve-Backed_example = reserve-Backed 7 1 session_request empty held one_hold reserve_test refl

one_hold-WellHeld : WellHeld one_hold.spend_reservations
one_hold-WellHeld = record {
  ids = (tt, tt);
  sessions = (tt, tt);
  balanced = (λ closed small. absurd (cc), tt);
}

-- 3.5 kWh of the hold are delivered, and a settlement of 3.5 tokens completes it.
abbrev later_calls : List (ℕ × Call)
later_calls =
    (9, retry_call 1 (codes "timeout"))
    ∷ (10, complete_call 1 (codes "3.5") (number (codes "3.5")) none)
    ∷ (11, reserve_call 2 session_request)
    ∷ []

settlement_claimed_once_example :
    (claim_for_settlement 12 (codes "alice") (codes "s1") (codes "p1") (
      run_all later_calls
        (claim_for_settlement 8 (codes "alice") (codes "s1") (codes "p1") one_hold).1)).0
    ≡ none
unfolding claim_for_settlement text_eq
settlement_claimed_once_example =
    settlement_claimed_once (codes "alice") (codes "s1") (codes "p1") 8 12 later_calls one_hold
      settling_row one_hold-WellHeld refl

run_all-WellHeld_example : WellHeld (run_all later_calls one_hold).spend_reservations
run_all-WellHeld_example = run_all-WellHeld later_calls one_hold one_hold-WellHeld

run_all-Progress_example :
    (s : SpendReservationRecord) × (find_by_id 1 (run_all later_calls one_hold) ≡ some s)
    × Progress held_row s
unfolding find_by_id
run_all-Progress_example = run_all-Progress later_calls one_hold 1 held_row one_hold-WellHeld refl

abbrev settled_row : SpendReservationRecord
settled_row = record held_row {
  status = ReservationStatus.settled;
  settled_amount = some 350;
  released_amount = some 150;
  delivered_kwh = some (codes "3.500");
  settlement_context = some (record {
    delivered_kwh = codes "3.5";
    normalized_three_decimal = codes "3.500";
    source_precision = 1;
  });
  error_message = some (codes "timeout");
  settled_at = some 10;
  updated_at = 10;
}

complete_test : (run_all later_calls one_hold).spend_reservations ≡ settled_row ∷ []
unfolding run_all canonical_token_amount truncate_token_amount trim text_eq to_fixed token_number
complete_test = refl
