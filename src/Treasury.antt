-- ===== src/Treasury.antt =====
-- TreasuryTransactions of src/database/service.ts: the durable nonces of the signer of the treasury.
-- Here stand the request and what an existing lease must match. The advisory lock of the chain and
-- signer makes a call one atomic step; waiting for it, and its timeout, are left out.
pub mod Choice
pub mod Prepare
pub mod Marks
pub mod Written
pub mod Nonces
pub mod Leases
pub mod History
mod Tests
use ev_web3_award_system.Prelude.{
  ℕ, ◌+◌, ◌-◌, ◌≡◌, refl, Bool, true, false, ◌&&◌, ◌||◌, not, List, [], ◌∷◌, Option, none, some,
  Result, ok, err, ◌>>=◌, ◌>>◌, require, or_fail, is_some, or_else, get_or, find_by, update_where,
  if◌then◌else◌, ltb, leb, ◌==◌, max, map,
}
use ev_web3_award_system.Text.{Text, codes, text_eq, nullable_eq, same_lower, to_lower}
use ev_web3_award_system.Store.{
  Database, TreasuryTransactionLeaseRecord, TreasuryTransactionTargetType, token_operation,
  approval_funding, standalone, LeaseStatus, PreparedTransactionContext, TokenOperationRecord,
  TokenOperationStatus, TokenMovementOutcome, ApprovalPreparationRecord, ApprovalPreparationStatus,
  Error, unique_violation, treasury_transaction_intent_mismatch, treasury_pending_nonce_unavailable,
  treasury_nonce_unavailable, treasury_transaction_context_mismatch, treasury_nonce_busy_retryable,
  treasury_nonce_gap_requires_review, token_operation_not_found, token_operation_terminal_state,
  token_operation_tx_hash_mismatch, approval_preparation_not_found,
  approval_preparation_terminal_state, approval_funding_attempt_mismatch,
  approval_funding_tx_hash_mismatch,
}
use ev_web3_award_system.Operations.Hash.{require_canonical_transaction_hash}
use ev_web3_award_system.Operations.Rows.{
  in_flight, has_key, find_by_key, update_operations, hash_free, truthy, nullable_same_lower,
}

pub record PreparedTreasuryTransaction : Type 0 where
  pub tx_hash : Text
  pub context : PreparedTransactionContext
  pub raw_transaction : Text

-- `get_pending_nonce` is what the RPC endpoint will answer, `none` for a number that is no safe
-- non-negative integer, and `prepare` what the signer returns for a nonce.
pub record TreasuryTransactionPreparationRequest : Type 0 where
  pub operation_key : Text
  pub target_operation_key : Option Text
  pub target_type : TreasuryTransactionTargetType
  pub chain_id : Text
  pub signer_address : Text
  pub to : Text
  pub call_data : Option Text
  pub value : Option ℕ
  pub access_list : Option (List (Text × List Text))
  pub get_pending_nonce : Result Error (Option ℕ)
  pub prepare : ℕ → Result Error PreparedTreasuryTransaction

pub record Preparation : Type 0 where
  pub lease : TreasuryTransactionLeaseRecord
  pub already_prepared : Bool
  pub raw_transaction : Option Text

-- TREASURY_NONCE_BUSY_WINDOW_MS and Number.MAX_SAFE_INTEGER.
abbrev pub treasury_nonce_busy_window_ms : ℕ
treasury_nonce_busy_window_ms = 10000

abbrev pub max_safe_integer : ℕ
max_safe_integer = 9007199254740991

abbrev pub normalise_lease_access_list : Option (List (Text × List Text)) → List (Text × List Text)
normalise_lease_access_list none = []
normalise_lease_access_list (some entries) = map (λ e. (to_lower e.0, map to_lower e.1)) entries

abbrev pub texts_eq : List Text → List Text → Bool
texts_eq [] [] = true
texts_eq (a ∷ rest) (b ∷ others) = text_eq a b && texts_eq rest others
texts_eq _ _ = false

abbrev pub access_lists_eq : List (Text × List Text) → List (Text × List Text) → Bool
access_lists_eq [] [] = true
access_lists_eq ((a, ks) ∷ rest) ((b, ls) ∷ others) =
    text_eq a b && texts_eq ks ls && access_lists_eq rest others
access_lists_eq _ _ = false

abbrev pub same_target : TreasuryTransactionTargetType → TreasuryTransactionTargetType → Bool
same_target token_operation token_operation = true
same_target approval_funding approval_funding = true
same_target standalone standalone = true
same_target _ _ = false

abbrev pub target_key : TreasuryTransactionPreparationRequest → Text
target_key request = get_or (truthy request.target_operation_key) request.operation_key

abbrev pub lease_target : TreasuryTransactionLeaseRecord → Text
lease_target lease = get_or (truthy lease.target_operation_key) lease.operation_key

unfoldable pub treasury_intent_matches :
    TreasuryTransactionLeaseRecord → TreasuryTransactionPreparationRequest → Bool
unfolding same_lower text_eq
treasury_intent_matches lease request =
    same_target lease.target_type request.target_type
    && text_eq (lease_target lease) (target_key request)
    && text_eq lease.chain_id request.chain_id
    && same_lower lease.signer_address request.signer_address
    && same_lower lease.tx_context.to request.to
    && same_lower (get_or (truthy lease.tx_context.call_data) (codes "0x"))
        (get_or (truthy request.call_data) (codes "0x"))
    && lease.tx_context.value == get_or request.value 0
    && access_lists_eq (normalise_lease_access_list lease.tx_context.access_list)
        (normalise_lease_access_list request.access_list)

unfoldable pub has_lease_key : Text → TreasuryTransactionLeaseRecord → Bool
unfolding text_eq
has_lease_key key lease = text_eq lease.operation_key key
