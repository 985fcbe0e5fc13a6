-- ===== src/SpendEvidence.antt =====
-- src/spendEvidence.ts: is a mined ERC20 transfer the spend that was asked for? Here stand the
-- request, what the provider and ethers answer, and the failures, whose messages are left out.
pub mod Lookup
pub mod Transfers
pub mod Verdicts
pub mod Proofs
pub mod Failures
mod Tests
use ev_web3_award_system.Prelude.{
  ℕ, Bool, true, false, List, Option, none, some, Result, ok, err, or_fail, leb, if◌then◌else◌,
}
use ev_web3_award_system.Text.{Text}
use ev_web3_award_system.Amount.{is_digits, digits_from, big_int}
use ev_web3_award_system.Treasury.{max_safe_integer}
use ev_web3_award_system.Rpc.{RpcDiagnosticDetails, RpcError, is_transient_rpc_read_error}
use ev_web3_award_system.Rpc.Retry.{RpcReadRetryOptions, Answer}

pub data FailureCode : Type 0 where
  invalid_tx_hash invalid_address invalid_amount invalid_chain_id : FailureCode
  transaction_not_found receipt_pending transaction_failed : FailureCode
  transaction_identity_mismatch receipt_identity_mismatch wrong_chain : FailureCode
  wrong_token_contract malformed_call unsupported_token_call : FailureCode
  wrong_sender wrong_recipient wrong_amount : FailureCode
  missing_transfer_event malformed_transfer_log malformed_receipt provider_error : FailureCode

pub record ReadDiagnostic : Type 0 where
  pub rpc_method : Text
  pub details : RpcDiagnosticDetails
  pub retryable : Bool

pub record SpendEvidenceFailure : Type 0 where
  pub code : FailureCode
  pub pending : Bool
  pub diagnostic : Option ReadDiagnostic

abbrev pub failure : FailureCode → SpendEvidenceFailure
failure code = record { code = code; pending = false; diagnostic = none }

-- A number that the caller gives: `other_input` is negative, fractional, or no number.
pub data IntegerInput : Type 0 where
  bigint_input number_input : ℕ → IntegerInput
  text_input : Text → IntegerInput
  other_input : IntegerInput

-- An address is `none` where the value is no string.
pub record SpendEvidenceRequest : Type 0 where
  pub token_contract_address : Option Text
  pub chain_id : IntegerInput
  pub source_wallet : Option Text
  pub treasury_recipient : Option Text
  pub amount_units : IntegerInput
  pub tx_hash : Text
  pub read_retry : RpcReadRetryOptions

pub data TransferMethod : Type 0 where
  transfer transfer_from : TransferMethod

pub record SpendEvidenceProof : Type 0 where
  pub tx_hash : Text
  pub chain_id : ℕ
  pub token_contract_address : Text
  pub source_wallet : Text
  pub treasury_recipient : Text
  pub amount_units : ℕ
  pub transfer_method : TransferMethod
  pub transaction_from : Text
  pub block_number : ℕ
  pub log_index : ℕ

-- `ethers.TransactionResponse`; the chain id is missing, or `some none` where BigInt throws on it.
pub record Transaction : Type 0 where
  pub hash : Option Text
  pub chain_id : Option (Option ℕ)
  pub to : Option Text
  pub from : Option Text
  pub call_data : Text
  pub value : ℕ

-- The fields of a log that have the right types.
pub record Log : Type 0 where
  pub address : Text
  pub topics : List (Option Text)
  pub log_data : Text
  pub index : Option ℕ

-- `ethers.TransactionReceipt`; a log whose fields have other types is `none`.
pub record Receipt : Type 0 where
  pub hash : Option Text
  pub to : Option Text
  pub from : Option Text
  pub status : Option ℕ
  pub logs : List (Option Log)
  pub block_number : ℕ

-- What the decoders of ethers return: they throw, find nothing, or decode.
pub data Parsed (A : Type 0) : Type 0 where
  throws nothing : Parsed A
  parsed : A → Parsed A

pub data TokenCall : Type 0 where
  transfer_call : (to : Text) (amount : ℕ) → TokenCall
  transfer_from_call : (from to : Text) (amount : ℕ) → TokenCall
  other_call : TokenCall

pub record TransferEvent : Type 0 where
  pub from : Text
  pub to : Text
  pub value : ℕ

-- The provider, and the functions of ethers: `none` of `get_address` is a throw, `none` of a network's
-- chain id one of BigInt.
pub record Chain : Type 0 where
  pub network : ℕ → Answer (Option ℕ)
  pub transaction : Text → ℕ → Answer (Option Transaction)
  pub receipt : Text → ℕ → Answer (Option Receipt)
  pub get_address : Text → Option Text
  pub parse_transaction : (call_data : Text) (value : ℕ) → Parsed TokenCall
  pub parse_log : (topics : List (Option Text)) (log_data : Text) → Parsed TransferEvent
  pub transfer_topic : Text

abbrev pub canonical_address : Chain → Option Text → Result SpendEvidenceFailure Text
canonical_address chain none = err (failure invalid_address)
canonical_address chain (some value) = or_fail (chain.get_address value) (failure invalid_address)

abbrev pub digits_value : Text → Option ℕ
digits_value text = if is_digits text then some (big_int text) else none

unfoldable pub parse_chain_id : IntegerInput → Option ℕ
unfolding is_digits digits_from
parse_chain_id (bigint_input n) = some n
parse_chain_id (number_input n) = if leb n max_safe_integer then some n else none
parse_chain_id (text_input text) = digits_value text
parse_chain_id other_input = none

unfoldable pub parse_amount_units : IntegerInput → Option ℕ
unfolding is_digits digits_from
parse_amount_units (bigint_input n) = some n
parse_amount_units (text_input text) = digits_value text
parse_amount_units _ = none

-- `catch (error) { return failure('PROVIDER_ERROR', ...) }` around a read.
unfoldable pub unread : Text → RpcError → SpendEvidenceFailure
unfolding is_transient_rpc_read_error
unread rpc_method error = record {
  code = provider_error;
  pending = false;
  diagnostic = some (record {
    rpc_method = rpc_method;
    details = error.details;
    retryable = is_transient_rpc_read_error error;
  });
}

abbrev pub or_unread : {A : Type 0} → Text → Result RpcError A → Result SpendEvidenceFailure A
or_unread rpc_method (ok value) = ok value
or_unread rpc_method (err error) = err (unread rpc_method error)
