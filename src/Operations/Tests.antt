-- ===== src/Operations/Tests.antt =====
-- TokenOperations on concrete rows.
use ev_web3_award_system.Prelude.{◌≡◌, refl, [], ◌∷◌, none, some, ok, err}
use ev_web3_award_system.Text.{Text, codes, text_eq, to_lower, trim}
use ev_web3_award_system.Amount.{number, canonical_token_amount, truncate_token_amount}
use ev_web3_award_system.Binary64.{token_number}
use ev_web3_award_system.Store.{
  Error, Database, TokenOperationRecord, TokenOperationType, TokenOperationStatus,
  TokenMovementOutcome,
}
use ev_web3_award_system.Operations.Rows.{find_by_key}
use ev_web3_award_system.Operations.Claim.{
  ClaimRequest, TokenOperationClaim, acquired, existing, claim,
}
use ev_web3_award_system.Operations.Ledger.{Allowed}
use ev_web3_award_system.Operations.Hash.{require_canonical_transaction_hash}
use ev_web3_award_system.Operations.Lookup.{
  has_hash, find_by_tx_hash, Answer, find_by_tx_hash-Answer,
}
use ev_web3_award_system.Operations.Unique.{WellKeyed}
use ev_web3_award_system.Operations.History.{
  claim_call, projected_call, run_all, run_all-WellKeyed, run_all-Kept, saved_hash_never_reacquired,
}
use ev_web3_award_system.Operations.Backing.{Covered, claim_backed}

abbrev empty : Database
empty = record {
  token_operations = [];
  spend_reservations = [];
  awards = [];
  users = [];
  spends = [];
  balances = [];
  linked_wallet_links = [];
  leases = [];
  approval_preparations = [];
}

-- A manual spend of 5 tokens by a wallet of 10.
abbrev spend_request : ClaimRequest
spend_request = record {
  operation_key = codes "spend:1";
  operation_type = TokenOperationType.spend;
  request_fingerprint = codes "f1";
  uid = codes "alice";
  wallet_address = codes "0xA1";
  amount = codes "5.00";
  session_id = none;
  provider_id = none;
  charging_session_id = none;
  reservation_id = none;
  intent_context = none;
  legacy_key = none;
  get_on_chain_balance = some (ok (number (codes "10")));
}

abbrev spend_row : TokenOperationRecord
spend_row = record {
  operation_key = codes "spend:1";
  operation_type = TokenOperationType.spend;
  legacy_key = none;
  request_fingerprint = codes "f1";
  uid = codes "alice";
  wallet_address = codes "0xA1";
  amount = 500;
  session_id = none;
  provider_id = none;
  charging_session_id = none;
  reservation_id = none;
  intent_context = none;
  status = TokenOperationStatus.submitting;
  movement_outcome = some TokenMovementOutcome.unknown;
  tx_hash = none;
  tx_nonce = none;
  tx_context = none;
  diagnostic_context = none;
  error_message = none;
  submitted_at = none;
  confirmed_at = none;
  projected_at = none;
  created_at = 7;
  updated_at = 7;
}

abbrev hashed_row : TokenOperationRecord
hashed_row = record spend_row {
  tx_hash = some (codes "0xab");
  status = TokenOperationStatus.submitted;
}

abbrev projected_row : TokenOperationRecord
projected_row = record hashed_row {
  status = TokenOperationStatus.projected;
  movement_outcome = some TokenMovementOutcome.confirmed;
  projected_at = some 8;
  updated_at = 8;
}

abbrev one_row : TokenOperationRecord → Database
one_row r = record empty { token_operations = r ∷ [] }

one_row-WellKeyed : (r : TokenOperationRecord) → WellKeyed (r ∷ [])
one_row-WellKeyed r = record { keys = (tt, tt); sessions = (tt, tt); legacy_keys = (tt, tt) }

claim_test : claim 7 spend_request empty ≡ ok (acquired spend_row, one_row spend_row)
unfolding claim canonical_token_amount trim truncate_token_amount
claim_test = refl

-- The wallet of 10 tokens cannot pay a second manual spend of 6.
abbrev second_request : ClaimRequest
second_request = record spend_request {
  operation_key = codes "spend:2";
  amount = codes "6";
  request_fingerprint = codes "f2";
}

refused_test :
    claim 9 second_request (one_row hashed_row)
    ≡ err (Error.insufficient_sparkz_available (token_number 500))
unfolding claim canonical_token_amount trim truncate_token_amount
refused_test = refl

abbrev answer : TokenOperationClaim × Database
answer = (existing projected_row, one_row projected_row)

saved_hash_never_reacquired_example :
    (s : TokenOperationRecord) × (s.tx_hash ≡ some (codes "0xab"))
    × (answer
        ≡ (existing s, run_all ((8, projected_call (codes "spend:1")) ∷ []) (one_row hashed_row)))
unfolding run_all claim find_by_key canonical_token_amount trim text_eq to_lower
saved_hash_never_reacquired_example =
    saved_hash_never_reacquired ((8, projected_call (codes "spend:1")) ∷ []) (one_row hashed_row)
      hashed_row (codes "0xab") 9 spend_request answer (one_row-WellKeyed hashed_row) refl refl refl

claim_backed_example : Covered spend_request (one_row spend_row)
claim_backed_example =
    claim_backed 7 spend_request empty spend_row (one_row spend_row)
      (record { is_a_spend = refl; without_reservation = refl; samples = refl }) tt claim_test

run_all-WellKeyed_example :
    WellKeyed (run_all ((7, claim_call spend_request) ∷ []) empty).token_operations
run_all-WellKeyed_example =
    run_all-WellKeyed ((7, claim_call spend_request) ∷ []) empty
      (record { keys = tt; sessions = tt; legacy_keys = tt })

run_all-Kept_example :
    (s : TokenOperationRecord) × (find_by_key (codes "spend:1") (
        run_all
          ((8, projected_call (codes "spend:1")) ∷ (9, claim_call second_request) ∷ [])
          (one_row hashed_row))
      ≡ some s)
    × Allowed hashed_row s
unfolding find_by_key text_eq
run_all-Kept_example =
    run_all-Kept ((8, projected_call (codes "spend:1")) ∷ (9, claim_call second_request) ∷ [])
      (one_row hashed_row) (codes "spend:1") hashed_row (one_row-WellKeyed hashed_row) refl

abbrev hash_text : Text
hash_text = codes "0x00000000000000000000000000000000000000000000000000000000000000ab"

abbrev found_row : TokenOperationRecord
found_row = record hashed_row { tx_hash = some hash_text }

find_by_tx_hash-Answer_example :
    (hash : Text) × (require_canonical_transaction_hash
        (codes " 0x00000000000000000000000000000000000000000000000000000000000000AB")
      ≡ ok hash)
    × Answer (has_hash hash) (found_row ∷ spend_row ∷ []) (some found_row)
unfolding find_by_tx_hash trim to_lower text_eq
find_by_tx_hash-Answer_example =
    find_by_tx_hash-Answer
      (codes " 0x00000000000000000000000000000000000000000000000000000000000000AB")
      (record empty { token_operations = found_row ∷ spend_row ∷ [] }) (some found_row) refl
