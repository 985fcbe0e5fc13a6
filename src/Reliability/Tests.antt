-- ===== src/Reliability/Tests.antt =====
-- Calls of prepareAndBroadcastTransaction with concrete answers.
use ev_web3_award_system.Prelude.{
  ℕ, zero, suc, ◌≡◌, ◌≤◌, refl, true, List, [], ◌∷◌, none, some, Result, ok, err, find_by, length,
}
use ev_web3_award_system.Text.{Text, codes}
use ev_web3_award_system.Store.{
  Database, TransactionDiagnostic, TreasuryTransactionLeaseRecord, TreasuryTransactionTargetType,
}
use ev_web3_award_system.Treasury.{has_lease_key}
use ev_web3_award_system.Rpc.{RpcError}
use ev_web3_award_system.Rpc.Retry.{Answer, timeout_error}
use ev_web3_award_system.Reliability.{
  TreasuryTransactionRequest, FeeData, World, locked, no_details,
}
use ev_web3_award_system.Operations.Hash.{require_canonical_transaction_hash}
use ev_web3_award_system.Operations.Rows.{truthy}
use ev_web3_award_system.Reliability.Sign.{sign_failed}
use ev_web3_award_system.Reliability.Broadcast.{prepare_and_broadcast_transaction}
use ev_web3_award_system.Reliability.Once.{BroadcastSaved, broadcast_saved}
use ev_web3_award_system.Reliability.Verdicts.{Proves, pre_broadcast-Proves}
use ev_web3_award_system.Reliability.Events.{Event, attempt, broadcasts, broadcast_once}

abbrev hash_text : Text
hash_text = codes "0x00000000000000000000000000000000000000000000000000000000000000cd"

abbrev fees : FeeData
fees = record { gas_price = some 5; max_fee_per_gas = none; max_priority_fee_per_gas = none }

-- The endpoint gives the first fee read up; what is sent is answered with a given result.
abbrev fee_answer : ℕ → Answer FeeData
fee_answer (suc zero) = record { result = err timeout_error; took = 2500 }
fee_answer _ = record { result = ok fees; took = 30 }

abbrev world_with : (signs : Result RpcError Text) (sent : Result RpcError Text) → World
world_with signs sent = record {
  has_provider = true;
  signer_address = ok (codes "0xaa");
  get_address = λ a. ok a;
  transaction_count = λ n. record { result = ok (some 4); took = 10 };
  fee_data = fee_answer;
  estimate_gas = λ tx n. record { result = ok 21000; took = 10 };
  sign_transaction = some (λ tx. signs);
  keccak256 = λ raw. hash_text;
  broadcast_transaction = λ raw. sent;
  begin = locked;
  submitted_saved = ok tt;
  unknown_saved = true;
  error_details = λ error. no_details;
}

abbrev request : TreasuryTransactionRequest
request = record {
  operation_key = codes "award:1";
  target_operation_key = none;
  target_type = TreasuryTransactionTargetType.standalone;
  chain_id = codes "80002";
  to = codes "0xbb";
  call_data = none;
  value = some 3;
  access_list = none;
}

abbrev empty : Database
empty = record {
  token_operations = [];
  spend_reservations = [];
  awards = [];
  users = [];
  spends = [];
  balances = [];
  linked_wallet_links = [];
  leases = [];
  approval_preparations = [];
}

abbrev raw : Text
raw = codes "0xsigned"

abbrev world : World
world = world_with (ok raw) (ok hash_text)

abbrev silent : World
silent = world_with (ok raw) (err timeout_error)

sends : (prepare_and_broadcast_transaction 9 world request empty).broadcast ≡ some raw
unfolding prepare_and_broadcast_transaction require_canonical_transaction_hash
sends = refl

broadcast_saved_example :
    BroadcastSaved world request empty (prepare_and_broadcast_transaction 9 world request empty) raw
broadcast_saved_example = broadcast_saved 9 world request empty raw sends

abbrev unsigned : World
unsigned = world_with (err timeout_error) (ok hash_text)

abbrev sign_diagnostic : TransactionDiagnostic
sign_diagnostic = sign_failed 4 timeout_error.details

refuses : (prepare_and_broadcast_transaction 9 unsigned request empty).result ≡ err sign_diagnostic
unfolding prepare_and_broadcast_transaction
refuses = refl

no_lease :
    (lease : TreasuryTransactionLeaseRecord)
    → find_by (has_lease_key request.operation_key) empty.leases ≡ some lease
    → truthy (some lease.tx_hash) ≡ some lease.tx_hash
no_lease lease e = cc

pre_broadcast-Proves_example :
    Proves request empty
      (prepare_and_broadcast_transaction 9 unsigned request empty)
      sign_diagnostic
pre_broadcast-Proves_example =
    pre_broadcast-Proves 9 unsigned request empty sign_diagnostic no_lease refuses

-- The chain does not answer the first attempt; another one follows.
abbrev events : List (ℕ × Event)
events = (9, attempt silent request) ∷ (10, attempt world request) ∷ []

one_broadcast : broadcasts request.operation_key events empty ≡ raw ∷ []
unfolding broadcasts require_canonical_transaction_hash
one_broadcast = refl

broadcast_once_example : length (broadcasts request.operation_key events empty) ≤ 1
broadcast_once_example = broadcast_once request.operation_key events empty
