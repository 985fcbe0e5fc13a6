-- ===== src/Treasury/Prepare.antt =====
-- TreasuryTransactions.prepare: sign for the chosen nonce, and write the lease and the row that the
-- transaction pays for, before anything is broadcast.
use ev_web3_award_system.Prelude.{
  ℕ, Bool, true, false, ◌&&◌, ◌||◌, not, ◌∷◌, Option, none, some, Result, ok, ◌>>=◌, ◌>>◌, require,
  or_fail, is_some, or_else, find_by, update_where, leb, ◌==◌,
}
use ev_web3_award_system.Text.{Text, text_eq, nullable_eq, same_lower}
use ev_web3_award_system.Store.{
  Database, TreasuryTransactionLeaseRecord, TreasuryTransactionTargetType, token_operation,
  approval_funding, standalone, PreparedTransactionContext, TokenOperationRecord,
  TokenOperationStatus, TokenMovementOutcome, ApprovalPreparationRecord, ApprovalPreparationStatus,
  Error, unique_violation, treasury_transaction_intent_mismatch, treasury_pending_nonce_unavailable,
  treasury_nonce_unavailable, treasury_transaction_context_mismatch, token_operation_not_found,
  token_operation_terminal_state, token_operation_tx_hash_mismatch, approval_preparation_not_found,
  approval_preparation_terminal_state, approval_funding_attempt_mismatch,
  approval_funding_tx_hash_mismatch,
}
use ev_web3_award_system.Operations.Hash.{require_canonical_transaction_hash}
use ev_web3_award_system.Operations.Rows.{
  in_flight, has_key, find_by_key, update_operations, hash_free, truthy, nullable_same_lower,
}
use ev_web3_award_system.Treasury.{
  TreasuryTransactionPreparationRequest, Preparation, max_safe_integer, target_key,
  treasury_intent_matches, has_lease_key,
}
use ev_web3_award_system.Treasury.Choice.{no_gap, choose_nonce, new_lease, nonce_free}

unfoldable pub set_prepared :
    ℕ → Text → ℕ → PreparedTransactionContext → TokenOperationRecord → TokenOperationRecord
set_prepared now hash nonce context r = record r {
  tx_hash = some hash;
  tx_nonce = some nonce;
  tx_context = some context;
  status = TokenOperationStatus.submitting;
  movement_outcome = or_else r.movement_outcome (some TokenMovementOutcome.unknown);
  error_message = none;
  updated_at = now;
}

-- The token operation that the transaction pays.
unfoldable pub prepare_operation :
    ℕ → Text → Text → ℕ → PreparedTransactionContext → Database → Result Error Database
unfolding find_by_key hash_free has_key set_prepared same_lower
prepare_operation now key hash nonce context db = do
  current ← or_fail (find_by_key key db) token_operation_not_found
  require (in_flight current.status) token_operation_terminal_state
  require (not (is_some (truthy current.tx_hash)) || nullable_same_lower hash current.tx_hash)
      token_operation_tx_hash_mismatch
  require (hash_free key hash db.token_operations) unique_violation
  ok (update_operations (has_key key) (set_prepared now hash nonce context) db)

unfoldable pub approval_has_key : Text → ApprovalPreparationRecord → Bool
unfolding text_eq
approval_has_key key r = text_eq r.operation_key key

abbrev pub update_approvals :
    (ApprovalPreparationRecord → Bool)
    → (ApprovalPreparationRecord → ApprovalPreparationRecord)
    → Database
    → Database
update_approvals p f db = record db {
  approval_preparations = update_where p f db.approval_preparations;
}

-- `['funding', 'funded', 'unknown'].includes(status)`.
abbrev pub takes_funding : ApprovalPreparationStatus → Bool
takes_funding ApprovalPreparationStatus.funding = true
takes_funding ApprovalPreparationStatus.funded = true
takes_funding ApprovalPreparationStatus.unknown = true
takes_funding _ = false

abbrev pub own_attempt : Text → ApprovalPreparationRecord → Bool
own_attempt key r = nullable_eq r.funding_attempt_key (some key)

unfoldable pub set_funding :
    ℕ
    → Text
    → Text
    → ℕ
    → PreparedTransactionContext
    → ApprovalPreparationRecord
    → ApprovalPreparationRecord
set_funding now attempt hash nonce context r = record r {
  funding_tx_hash = some hash;
  funding_tx_nonce = some nonce;
  funding_tx_context = some context;
  funding_attempt_key = some attempt;
  funding_attempt_value = some context.value;
  status = ApprovalPreparationStatus.funding;
  error_message = none;
  updated_at = now;
}

-- The approval preparation that the transaction funds.
unfoldable pub prepare_funding :
    ℕ → Text → Text → Text → ℕ → PreparedTransactionContext → Database → Result Error Database
unfolding approval_has_key set_funding nullable_eq same_lower
prepare_funding now attempt key hash nonce context db = do
  current ←
      or_fail (find_by (approval_has_key key) db.approval_preparations)
        approval_preparation_not_found
  require (takes_funding current.status) approval_preparation_terminal_state
  require (not (is_some (truthy current.funding_attempt_key)) || own_attempt attempt current)
      approval_funding_attempt_mismatch
  require
      (not (is_some (truthy current.funding_tx_hash))
        || nullable_same_lower hash current.funding_tx_hash
        || own_attempt attempt current)
      approval_funding_tx_hash_mismatch
  ok (update_approvals (approval_has_key key) (set_funding now attempt hash nonce context) db)

abbrev pub prepare_target :
    ℕ
    → TreasuryTransactionPreparationRequest
    → Text
    → ℕ
    → PreparedTransactionContext
    → Database
    → TreasuryTransactionTargetType
    → Result Error Database
prepare_target now request hash nonce context db token_operation =
    prepare_operation now (target_key request) hash nonce context db
prepare_target now request hash nonce context db approval_funding =
    prepare_funding now request.operation_key (target_key request) hash nonce context db
prepare_target now request hash nonce context db standalone = ok db

unfoldable pub context_matches :
    TreasuryTransactionPreparationRequest → ℕ → PreparedTransactionContext → Bool
unfolding text_eq same_lower
context_matches request nonce context =
    context.nonce == nonce
    && text_eq context.chain_id request.chain_id
    && same_lower context.signer_address request.signer_address

abbrev pub add_lease : TreasuryTransactionLeaseRecord → Database → Database
add_lease lease db = record db { leases = lease ∷ db.leases }

-- Sign for the nonce, and write the lease and its target before anything is broadcast.
unfoldable pub sign_and_lease :
    ℕ → TreasuryTransactionPreparationRequest → ℕ → Database → Result Error (Preparation × Database)
unfolding context_matches nonce_free new_lease prepare_operation prepare_funding
sign_and_lease now request nonce db = do
  prepared ← request.prepare nonce
  hash ← require_canonical_transaction_hash prepared.tx_hash
  require (context_matches request nonce prepared.context) treasury_transaction_context_mismatch
  require (nonce_free request.chain_id request.signer_address nonce db.leases) unique_violation
  let lease = new_lease now request nonce hash prepared.context
  db' ←
      prepare_target now request hash nonce prepared.context (add_lease lease db)
        request.target_type
  ok (
    record {
      lease = lease;
      already_prepared = false;
      raw_transaction = some prepared.raw_transaction;
    },
    db',
  )

unfoldable pub prepare_new :
    ℕ → TreasuryTransactionPreparationRequest → Database → Result Error (Preparation × Database)
unfolding no_gap choose_nonce sign_and_lease
prepare_new now request db = do
  answered ← request.get_pending_nonce
  pending ← or_fail answered treasury_pending_nonce_unavailable
  no_gap now request.chain_id request.signer_address pending db
  let nonce = choose_nonce request.chain_id request.signer_address pending db.leases
  require (leb nonce max_safe_integer) treasury_nonce_unavailable
  sign_and_lease now request nonce db

abbrev pub prepare_found :
    ℕ
    → TreasuryTransactionPreparationRequest
    → Option TreasuryTransactionLeaseRecord
    → Database
    → Result Error (Preparation × Database)
prepare_found now request none db = prepare_new now request db
prepare_found now request (some lease) db =
    require (treasury_intent_matches lease request) treasury_transaction_intent_mismatch
    >> ok (record { lease = lease; already_prepared = true; raw_transaction = none }, db)

unfoldable pub prepare :
    ℕ → TreasuryTransactionPreparationRequest → Database → Result Error (Preparation × Database)
unfolding prepare_new treasury_intent_matches has_lease_key
prepare now request db =
    prepare_found now request (find_by (has_lease_key request.operation_key) db.leases) db
