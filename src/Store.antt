-- ===== src/Store.antt =====
-- The tables of the database (src/database/service.ts, types in src/types.ts) as lists of rows.
-- DECIMAL(20, 2) columns hold their number of hundredths, timestamps are milliseconds, and a jsonb
-- document that no query looks into is its text.
use ev_web3_award_system.Prelude.{ℕ, Bool, List, Option}
use ev_web3_award_system.Text.{Text}
use ev_web3_award_system.Binary64.{Double}

pub data TransactionDiagnosticStage : Type 0 where
  asset_context preflight prepare persist_hash broadcast receipt : TransactionDiagnosticStage

pub data TransactionDiagnosticCategory : Type 0 where
  rpc_unavailable confirmation_pending database_unavailable review_required :
      TransactionDiagnosticCategory
  preflight_category : TransactionDiagnosticCategory

-- The endpoint evidence `rpcFailover` is left out: nothing here reads it.
pub record TransactionDiagnostic : Type 0 where
  pub stage : TransactionDiagnosticStage
  pub category : Option TransactionDiagnosticCategory
  pub rpc_method : Option Text
  pub provider_code : Option Text
  pub rpc_code : Option Text
  pub http_status : Option ℕ
  pub trace_id : Option Text
  pub rpc_endpoint : Option Text
  pub error_code : Text
  pub retryable : Bool
  pub saved_hash : Option Text
  pub nonce : Option ℕ

pub record PreparedTransactionContext : Type 0 where
  pub chain_id : Text
  pub signer_address : Text
  pub nonce : ℕ
  pub to : Text
  pub call_data : Option Text
  pub value : ℕ
  pub gas_limit : Option ℕ
  pub gas_price : Option ℕ
  pub max_fee_per_gas : Option ℕ
  pub max_priority_fee_per_gas : Option ℕ
  pub tx_type : Option ℕ
  pub access_list : Option (List (Text × List Text))

pub data TokenOperationType : Type 0 where
  award spend : TokenOperationType

pub data TokenOperationStatus : Type 0 where
  submitting submitted confirmed projected unknown failed : TokenOperationStatus

pub data TokenMovementOutcome : Type 0 where
  unknown confirmed no_movement review : TokenMovementOutcome

pub record TokenOperationRecord : Type 0 where
  pub operation_key : Text
  pub operation_type : TokenOperationType
  pub legacy_key : Option Text
  pub request_fingerprint : Text
  pub uid : Text
  pub wallet_address : Text
  pub amount : ℕ
  pub session_id : Option Text
  pub provider_id : Option Text
  pub charging_session_id : Option Text
  pub reservation_id : Option Text
  pub intent_context : Option Text
  pub status : TokenOperationStatus
  pub movement_outcome : Option TokenMovementOutcome
  pub tx_hash : Option Text
  pub tx_nonce : Option ℕ
  pub tx_context : Option PreparedTransactionContext
  pub diagnostic_context : Option TransactionDiagnostic
  pub error_message : Option Text
  pub submitted_at : Option ℕ
  pub confirmed_at : Option ℕ
  pub projected_at : Option ℕ
  pub created_at : ℕ
  pub updated_at : ℕ

pub data ReservationStatus : Type 0 where
  reserved settling settled released : ReservationStatus

pub record SettlementContext : Type 0 where
  pub delivered_kwh : Text
  pub normalized_three_decimal : Text
  pub source_precision : ℕ

pub record SpendReservationRecord : Type 0 where
  pub id : ℕ
  pub uid : Text
  pub wallet_address : Text
  pub session_id : Text
  pub provider_id : Text
  pub reserved_amount : ℕ
  pub settled_amount : Option ℕ
  pub released_amount : Option ℕ
  pub delivered_kwh : Option Text
  pub settlement_context : Option SettlementContext
  pub status : ReservationStatus
  pub tx_hash : Option Text
  pub error_message : Option Text
  pub authorization_tx_hash : Option Text
  pub authorization_amount : Option ℕ
  pub reserved_at : ℕ
  pub settled_at : Option ℕ
  pub updated_at : ℕ

-- The columns of `awards`, `spends` and `balances` that are read here.
pub record AwardRecord : Type 0 where
  pub user_id : Text
  pub session_id : Text
  pub provider_id : Text
  pub dedup_key : Text
  pub amount : ℕ
  pub tx_hash : Text

pub record SpendRecord : Type 0 where
  pub user_id : Text
  pub tx_hash : Text

pub record BalanceRecord : Type 0 where
  pub user_id : Text

pub record UserRecord : Type 0 where
  pub id : Text
  pub uid : Text
  pub wallet_address : Text
  pub wallet_name : Option Text
  pub is_active : Bool
  pub created_at : ℕ
  pub updated_at : ℕ

pub record LinkedWalletAddressRecord : Type 0 where
  pub id : Text
  pub uid : Text
  pub wallet_address : Text
  pub wallet_name : Option Text
  pub created_at : ℕ
  pub updated_at : ℕ

pub data TreasuryTransactionTargetType : Type 0 where
  token_operation approval_funding standalone : TreasuryTransactionTargetType

pub data LeaseStatus : Type 0 where
  prepared submitted unknown confirmed failed : LeaseStatus

pub record TreasuryTransactionLeaseRecord : Type 0 where
  pub operation_key : Text
  pub target_operation_key : Option Text
  pub target_type : TreasuryTransactionTargetType
  pub chain_id : Text
  pub signer_address : Text
  pub nonce : ℕ
  pub tx_hash : Text
  pub tx_context : PreparedTransactionContext
  pub status : LeaseStatus
  pub diagnostic_context : Option TransactionDiagnostic
  pub error_message : Option Text
  pub created_at : ℕ
  pub updated_at : ℕ

pub data ApprovalPreparationStatus : Type 0 where
  funding funded approving approved unknown failed : ApprovalPreparationStatus

pub record ApprovalPreparationRecord : Type 0 where
  pub operation_key : Text
  pub wallet_address : Text
  pub token_contract_address : Text
  pub chain_id : Text
  pub treasury_address : Text
  pub status : ApprovalPreparationStatus
  pub funding_tx_hash : Option Text
  pub funding_tx_nonce : Option ℕ
  pub funding_tx_context : Option PreparedTransactionContext
  pub funding_attempt_key : Option Text
  pub funding_attempt_value : Option ℕ
  pub approval_tx_hash : Option Text
  pub diagnostic_context : Option TransactionDiagnostic
  pub error_message : Option Text
  pub created_at : ℕ
  pub updated_at : ℕ

pub record Database : Type 0 where
  pub token_operations : List TokenOperationRecord
  pub spend_reservations : List SpendReservationRecord
  pub awards : List AwardRecord
  pub users : List UserRecord
  pub leases : List TreasuryTransactionLeaseRecord
  pub approval_preparations : List ApprovalPreparationRecord
  pub spends : List SpendRecord
  pub balances : List BalanceRecord
  pub linked_wallet_links : List LinkedWalletAddressRecord

-- What the operations throw.
pub data Error : Type 0 where
  unsupported_token_precision invalid_transaction_hash unique_violation : Error
  spend_balance_unavailable charging_session_mismatch operation_intent_mismatch : Error
  legacy_tuple_collision legacy_owner_collision token_operation_tx_hash_mismatch : Error
  reservation_intent_mismatch settlement_context_mismatch invalid_settlement_context : Error
  reservation_tx_hash_mismatch : Error
  insufficient_sparkz_available insufficient_sparkz : Double → Error
  charging_session_collision legacy_claim_collision token_operation_missing : Text → Error
  reservation_not_found : ℕ → Error
  chain_read_failed : Text → Error
  tx_hash_ambiguous_review : Error
  treasury_transaction_intent_mismatch treasury_pending_nonce_unavailable : Error
  treasury_nonce_unavailable treasury_transaction_context_mismatch : Error
  treasury_nonce_busy_retryable treasury_nonce_gap_requires_review :
      (key : Text) (nonce : ℕ) → Error
  token_operation_not_found token_operation_terminal_state : Error
  approval_preparation_not_found approval_preparation_terminal_state : Error
  approval_funding_attempt_mismatch approval_funding_tx_hash_mismatch : Error
  approval_preparation_intent_mismatch approval_funding_prior_evidence_required : Error
  approval_preparation_missing : Text → Error
  treasury_nonce_lock_timeout database_failure : Error
  transaction_reliability : TransactionDiagnostic → Error
  contract_id_not_found wallet_already_linked too_many_linked_wallets : Error
