-- ===== src/Reliability.antt =====
-- src/transactionReliability.ts: one treasury transaction is prepared, saved and broadcast. Here
-- stand the request, what the signer, the chain and the database answer, and the diagnostics.
pub mod Sign
pub mod Broadcast
pub mod Attempts
pub mod Failures
pub mod Once
pub mod Verdicts
pub mod Events
mod Tests
use ev_web3_award_system.Prelude.{
  ℕ, ◌≡◌, Bool, true, false, ◌&&◌, not, List, [], ◌∷◌, Option, none, some, is_some, get_or, or_else,
  Result, ok, err, find_by, if◌then◌else◌,
}
use ev_web3_award_system.Text.{Text, codes, text_eq}
use ev_web3_award_system.Store.{
  Database, TransactionDiagnostic, TransactionDiagnosticStage, TransactionDiagnosticCategory,
  TreasuryTransactionTargetType, PreparedTransactionContext, Error, treasury_nonce_lock_timeout,
  database_failure,
}
use ev_web3_award_system.Operations.Rows.{truthy}
use ev_web3_award_system.Rpc.{RpcDiagnosticDetails, RpcError}
use ev_web3_award_system.Rpc.Retry.{Answer}

pub record TreasuryTransactionRequest : Type 0 where
  pub operation_key : Text
  pub target_operation_key : Option Text
  pub target_type : TreasuryTransactionTargetType
  pub chain_id : Text
  pub to : Text
  pub call_data : Option Text
  pub value : Option ℕ
  pub access_list : Option (List (Text × List Text))

pub record TransactionReliabilityResult : Type 0 where
  pub tx_hash : Text
  pub context : PreparedTransactionContext
  pub broadcasted : Bool
  pub already_prepared : Bool

pub record FeeData : Type 0 where
  pub gas_price : Option ℕ
  pub max_fee_per_gas : Option ℕ
  pub max_priority_fee_per_gas : Option ℕ

-- `ethers.TransactionRequest`: what is estimated and signed.
pub record TransactionRequest : Type 0 where
  pub to : Text
  pub call_data : Text
  pub value : ℕ
  pub nonce : ℕ
  pub chain_id : Text
  pub access_list : Option (List (Text × List Text))
  pub tx_type : Option ℕ
  pub gas_price : Option ℕ
  pub max_fee_per_gas : Option ℕ
  pub max_priority_fee_per_gas : Option ℕ
  pub gas_limit : Option ℕ

-- How the transaction of TreasuryTransactions.prepare starts: with its advisory lock, without it in
-- time, or not at all.
pub data Begin : Type 0 where
  locked lock_timeout no_connection : Begin

abbrev pub begin_transaction : Begin → Result Error (Unit {0})
begin_transaction locked = ok tt
begin_transaction lock_timeout = err treasury_nonce_lock_timeout
begin_transaction no_connection = err database_failure

-- What the signer, its provider, ethers and the database answer during one call. `submitted_saved`
-- and `unknown_saved` are the connection in the two updates after the broadcast, and `error_details` what extractRpcDiagnostic reads
-- from an error of the database layer.
pub record World : Type 0 where
  pub has_provider : Bool
  pub signer_address : Result RpcError Text
  pub get_address : Text → Result RpcError Text
  pub transaction_count : ℕ → Answer (Option ℕ)
  pub fee_data : ℕ → Answer FeeData
  pub estimate_gas : TransactionRequest → ℕ → Answer ℕ
  pub sign_transaction : Option (TransactionRequest → Result RpcError Text)
  pub keccak256 : Text → Text
  pub broadcast_transaction : Text → Result RpcError Text
  pub begin : Begin
  pub submitted_saved : Result RpcDiagnosticDetails (Unit {0})
  pub unknown_saved : Bool
  pub error_details : Error → RpcDiagnosticDetails

-- `['asset_context', 'preflight', 'prepare', 'persist_hash'].includes(stage)`.
abbrev pub before_broadcast_stage : TransactionDiagnosticStage → Bool
before_broadcast_stage TransactionDiagnosticStage.broadcast = false
before_broadcast_stage TransactionDiagnosticStage.receipt = false
before_broadcast_stage _ = true

unfoldable pub is_pre_broadcast_transaction_diagnostic : Option TransactionDiagnostic → Bool
is_pre_broadcast_transaction_diagnostic none = false
is_pre_broadcast_transaction_diagnostic (some diagnostic) =
    not (is_some (truthy diagnostic.saved_hash)) && before_broadcast_stage diagnostic.stage

pub record DiagnosticOptions : Type 0 where
  pub rpc_method : Option Text
  pub retryable : Option Bool
  pub category : Option TransactionDiagnosticCategory
  pub saved_hash : Option Text
  pub nonce : Option ℕ

abbrev pub no_details : RpcDiagnosticDetails
no_details = record {
  provider_code = none;
  rpc_code = none;
  http_status = none;
  trace_id = none;
  endpoint_label = none;
}

-- diagnosticFor, on what extractRpcDiagnostic reads from its error.
abbrev pub diagnostic_for :
    TransactionDiagnosticStage
    → Text
    → RpcDiagnosticDetails
    → DiagnosticOptions
    → TransactionDiagnostic
diagnostic_for stage error_code details options = record {
  stage = stage;
  category = options.category;
  rpc_method = truthy options.rpc_method;
  provider_code = truthy details.provider_code;
  rpc_code = details.rpc_code;
  http_status = details.http_status;
  trace_id = truthy details.trace_id;
  rpc_endpoint = truthy details.endpoint_label;
  error_code = error_code;
  retryable = get_or options.retryable false;
  saved_hash = truthy options.saved_hash;
  nonce = options.nonce;
}
