-- ===== src/Treasury/Tests.antt =====
-- A treasury nonce on concrete leases.
use ev_web3_award_system.Prelude.{
  find_by, ℕ, ◌+◌, ◌≤◌, ◌≡◌, refl, true, false, List, [], ◌∷◌, none, some, ok, arith,
}
use ev_web3_award_system.Text.{Text, codes, text_eq, to_lower, trim}
use ev_web3_award_system.Store.{
  TransactionDiagnostic, TransactionDiagnosticStage, Database, TreasuryTransactionLeaseRecord,
  TreasuryTransactionTargetType, LeaseStatus, PreparedTransactionContext,
}
use ev_web3_award_system.Operations.Hash.{require_canonical_transaction_hash}
use ev_web3_award_system.Treasury.{
  has_lease_key, TreasuryTransactionPreparationRequest, Preparation, max_safe_integer,
}
use ev_web3_award_system.Treasury.Choice.{next_nonce, choose_nonce, nonce_free}
use ev_web3_award_system.Treasury.Prepare.{prepare}
use ev_web3_award_system.Treasury.Leases.{Progress}
use ev_web3_award_system.Treasury.History.{
  Call, unknown_call, prepare_call, run_all, lease-Progress,
}
use ev_web3_award_system.Treasury.Nonces.{Leased, prepare_nonce_fresh, choose_nonce-free}

abbrev hash_text : Text
hash_text = codes "0x00000000000000000000000000000000000000000000000000000000000000ab"

abbrev context_at : ℕ → PreparedTransactionContext
context_at nonce = record {
  chain_id = codes "1";
  signer_address = codes "0xaa";
  nonce = nonce;
  to = codes "0xbb";
  call_data = none;
  value = 3;
  gas_limit = none;
  gas_price = none;
  max_fee_per_gas = none;
  max_priority_fee_per_gas = none;
  tx_type = none;
  access_list = none;
}

abbrev lease_at : Text → ℕ → LeaseStatus → TreasuryTransactionLeaseRecord
lease_at key nonce status = record {
  operation_key = key;
  target_operation_key = some key;
  target_type = TreasuryTransactionTargetType.standalone;
  chain_id = codes "1";
  signer_address = codes "0xaa";
  nonce = nonce;
  tx_hash = hash_text;
  tx_context = context_at nonce;
  status = status;
  diagnostic_context = none;
  error_message = none;
  created_at = 7;
  updated_at = 7;
}

-- A submitted lease of nonce 4, and a failed one of nonce 2; the endpoint still answers 3.
abbrev before : List TreasuryTransactionLeaseRecord
before =
    lease_at (codes "a") 4 LeaseStatus.submitted ∷ lease_at (codes "b") 2 LeaseStatus.failed ∷ []

abbrev with_leases : List TreasuryTransactionLeaseRecord → Database
with_leases leases = record {
  token_operations = [];
  spend_reservations = [];
  awards = [];
  users = [];
  spends = [];
  balances = [];
  linked_wallet_links = [];
  leases = leases;
  approval_preparations = [];
}

abbrev request : TreasuryTransactionPreparationRequest
request = record {
  operation_key = codes "c";
  target_operation_key = none;
  target_type = TreasuryTransactionTargetType.standalone;
  chain_id = codes "1";
  signer_address = codes "0xAA";
  to = codes "0xbb";
  call_data = none;
  value = some 3;
  access_list = none;
  get_pending_nonce = ok (some 3);
  prepare = λ nonce.
      ok
        (record { tx_hash = hash_text; context = context_at nonce; raw_transaction = codes "raw" });
}

abbrev prepared : Preparation
prepared = record {
  lease = lease_at (codes "c") 5 LeaseStatus.prepared;
  already_prepared = false;
  raw_transaction = some (codes "raw");
}

abbrev after : List TreasuryTransactionLeaseRecord
after = lease_at (codes "c") 5 LeaseStatus.prepared ∷ before

prepare_test : prepare 7 request (with_leases before) ≡ ok (prepared, with_leases after)
unfolding prepare text_eq to_lower trim require_canonical_transaction_hash
prepare_test = refl

nonces_safe : next_nonce (codes "1") (codes "0xAA") before ≤ max_safe_integer + 1
unfolding next_nonce text_eq to_lower
nonces_safe = omega arith

prepare_nonce_fresh_example : Leased request (with_leases before) prepared (with_leases after)
prepare_nonce_fresh_example =
    prepare_nonce_fresh 7 request (with_leases before) prepared (with_leases after) nonces_safe
      prepare_test refl

choose_nonce-free_example :
    nonce_free (codes "1") (codes "0xAA") (choose_nonce (codes "1") (codes "0xAA") 3 before) before
    ≡ true
choose_nonce-free_example =
    choose_nonce-free (codes "1") (codes "0xAA") 3 before nonces_safe
      (λ _ failed. absurd (cc), (λ _ _. omega arith, tt))

abbrev unreachable : TransactionDiagnostic
unreachable = record {
  stage = TransactionDiagnosticStage.broadcast;
  category = none;
  rpc_method = none;
  provider_code = none;
  rpc_code = none;
  http_status = none;
  trace_id = none;
  rpc_endpoint = none;
  error_code = codes "TIMEOUT";
  retryable = true;
  saved_hash = none;
  nonce = none;
}

abbrev lease_calls : List (ℕ × Call)
lease_calls = (8, unknown_call (codes "a") unreachable none) ∷ (9, prepare_call request) ∷ []

lease-Progress_example :
    (s : TreasuryTransactionLeaseRecord) × (find_by
        (has_lease_key (codes "a"))
        (run_all lease_calls (with_leases before)).leases
      ≡ some s)
    × Progress (lease_at (codes "a") 4 LeaseStatus.submitted) s
unfolding has_lease_key text_eq
lease-Progress_example =
    lease-Progress lease_calls (with_leases before) (codes "a")
      (lease_at (codes "a") 4 LeaseStatus.submitted) refl
