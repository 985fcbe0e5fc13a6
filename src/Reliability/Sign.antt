-- ===== src/Reliability/Sign.antt =====
-- The callbacks that prepareAndBroadcastTransaction gives to TreasuryTransactions.prepare: the
-- pending nonce, and the signed transaction for a nonce.
use ev_web3_award_system.Prelude.{
  ℕ, Bool, true, false, List, [], ◌∷◌, Option, none, some, is_some, get_or, Result, ok, err, ◌>>=◌,
  if◌then◌else◌,
}
use ev_web3_award_system.Text.{Text, codes}
use ev_web3_award_system.Store.{
  TransactionDiagnostic, TransactionDiagnosticStage, TransactionDiagnosticCategory, rpc_unavailable,
  preflight_category, PreparedTransactionContext, Error, transaction_reliability,
}
use ev_web3_award_system.Operations.Rows.{truthy}
use ev_web3_award_system.Treasury.{
  PreparedTreasuryTransaction, TreasuryTransactionPreparationRequest,
}
use ev_web3_award_system.Rpc.{RpcDiagnosticDetails, RpcError, is_transient_rpc_read_error}
use ev_web3_award_system.Rpc.Retry.{default_options, with_rpc_read_retry}
use ev_web3_award_system.Reliability.{
  TreasuryTransactionRequest, TransactionRequest, FeeData, World, no_details, diagnostic_for,
}

-- `try { ... } catch (error) { throw new TransactionReliabilityError(...) }`.
abbrev pub or_diagnose :
    {A : Type 0} → Result RpcError A → (RpcError → TransactionDiagnostic) → Result Error A
or_diagnose (ok value) diagnose = ok value
or_diagnose (err error) diagnose = err (transaction_reliability (diagnose error))

-- What the failed calls of this file have in common.
abbrev pub prepare_diagnostic :
    Text
    → RpcDiagnosticDetails
    → Option Text
    → Bool
    → TransactionDiagnosticCategory
    → Option ℕ
    → TransactionDiagnostic
prepare_diagnostic error_code details rpc_method retryable category nonce =
    diagnostic_for TransactionDiagnosticStage.prepare error_code details record {
      rpc_method = rpc_method;
      retryable = some retryable;
      category = some category;
      saved_hash = none;
      nonce = nonce;
    }

unfoldable pub read_unavailable : Text → Option ℕ → RpcError → TransactionDiagnostic
unfolding is_transient_rpc_read_error
read_unavailable rpc_method nonce error =
    prepare_diagnostic (codes "RPC_READ_UNAVAILABLE") error.details (some rpc_method)
      (is_transient_rpc_read_error error) rpc_unavailable nonce

unfoldable pub pending_nonce : World → Result Error (Option ℕ)
unfolding with_rpc_read_retry read_unavailable
pending_nonce world =
    or_diagnose (with_rpc_read_retry default_options world.transaction_count).outcome
      (read_unavailable (codes "eth_getTransactionCount") none)

abbrev pub request_value : Option ℕ → ℕ
request_value value = get_or value 0

abbrev pub base_request : TreasuryTransactionRequest → ℕ → TransactionRequest
base_request request nonce = record {
  to = request.to;
  call_data = get_or (truthy request.call_data) (codes "0x");
  value = request_value request.value;
  nonce = nonce;
  chain_id = request.chain_id;
  access_list = request.access_list;
  tx_type = none;
  gas_price = none;
  max_fee_per_gas = none;
  max_priority_fee_per_gas = none;
  gas_limit = none;
}

abbrev pub fee_unavailable : ℕ → TransactionDiagnostic
fee_unavailable nonce =
    prepare_diagnostic (codes "FEE_DATA_UNAVAILABLE") no_details
      (some (codes "provider.getFeeData")) true rpc_unavailable (some nonce)

-- Both fees of type 2, else a gas price.
abbrev pub with_gas_price : TransactionRequest → Option ℕ → Result Error TransactionRequest
with_gas_price base (some price) = ok (record base { gas_price = some price })
with_gas_price base none = err (transaction_reliability (fee_unavailable base.nonce))

abbrev pub with_fees :
    TransactionRequest → Option ℕ → Option ℕ → Option ℕ → Result Error TransactionRequest
with_fees base (some max_fee) (some priority_fee) price = ok (record base {
  tx_type = some 2;
  max_fee_per_gas = some max_fee;
  max_priority_fee_per_gas = some priority_fee;
})
with_fees base _ _ price = with_gas_price base price

unfoldable pub estimate_rejected : ℕ → RpcError → TransactionDiagnostic
unfolding is_transient_rpc_read_error
estimate_rejected nonce error =
    let retryable = is_transient_rpc_read_error error in
    prepare_diagnostic
      (if retryable then codes "RPC_READ_UNAVAILABLE" else codes "TRANSACTION_ESTIMATE_REJECTED")
      error.details (some (codes "eth_estimateGas")) retryable
      (if retryable then rpc_unavailable else preflight_category) (some nonce)

abbrev pub sign_failed : ℕ → RpcDiagnosticDetails → TransactionDiagnostic
sign_failed nonce details =
    prepare_diagnostic (codes "SIGN_TRANSACTION_FAILED") details (some (codes "signTransaction"))
      false preflight_category (some nonce)

-- A signer without `signTransaction` fails as one that throws.
abbrev pub sign :
    Option (TransactionRequest → Result RpcError Text) → TransactionRequest → Result Error Text
sign none tx = err (transaction_reliability (sign_failed tx.nonce no_details))
sign (some sign_transaction) tx =
    or_diagnose (sign_transaction tx) (λ error. sign_failed tx.nonce error.details)

abbrev pub normalized_access_list :
    (Text → Result RpcError Text)
    → List (Text × List Text)
    → Result RpcError (List (Text × List Text))
normalized_access_list get_address [] = ok []
normalized_access_list get_address ((address, keys) ∷ entries) = do
  checked ← get_address address
  rest ← normalized_access_list get_address entries
  ok ((checked, keys) ∷ rest)

abbrev pub context_access_list :
    (Text → Result RpcError Text)
    → Option (List (Text × List Text))
    → Result RpcError (Option (List (Text × List Text)))
context_access_list get_address none = ok none
context_access_list get_address (some entries) = do
  normalized ← normalized_access_list get_address entries
  ok (some normalized)

abbrev pub type_of : TransactionRequest → Option ℕ
type_of tx = elim tx.tx_type [
  | some t ↦ some t
  | none ↦ if is_some tx.gas_price then some 0 else none
]

unfoldable pub to_context :
    World
    → TreasuryTransactionRequest
    → Text
    → ℕ
    → TransactionRequest
    → Result RpcError PreparedTransactionContext
to_context world request signer_address nonce tx = do
  entries ← context_access_list world.get_address tx.access_list
  to ← world.get_address request.to
  ok (record {
    chain_id = request.chain_id;
    signer_address = signer_address;
    nonce = nonce;
    to = to;
    call_data = some tx.call_data;
    value = request_value request.value;
    gas_limit = tx.gas_limit;
    gas_price = tx.gas_price;
    max_fee_per_gas = tx.max_fee_per_gas;
    max_priority_fee_per_gas = tx.max_priority_fee_per_gas;
    tx_type = type_of tx;
    access_list = entries;
  })

abbrev pub context_invalid : ℕ → RpcError → TransactionDiagnostic
context_invalid nonce error =
    prepare_diagnostic (codes "SIGNING_CONTEXT_INVALID") error.details none false preflight_category
      (some nonce)

unfoldable pub read_fees : World → ℕ → Result Error FeeData
unfolding with_rpc_read_retry read_unavailable
read_fees world nonce =
    or_diagnose (with_rpc_read_retry default_options world.fee_data).outcome
      (read_unavailable (codes "provider.getFeeData") (some nonce))

unfoldable pub read_gas : World → ℕ → TransactionRequest → Result Error ℕ
unfolding with_rpc_read_retry estimate_rejected
read_gas world nonce base =
    or_diagnose (with_rpc_read_retry default_options (world.estimate_gas base)).outcome
      (estimate_rejected nonce)

unfoldable pub signing_context :
    World
    → TreasuryTransactionRequest
    → Text
    → ℕ
    → TransactionRequest
    → Result Error PreparedTransactionContext
unfolding to_context
signing_context world request signer_address nonce tx =
    or_diagnose (to_context world request signer_address nonce tx) (context_invalid nonce)

-- The `prepare` callback: fees, gas, signature and context for a nonce.
unfoldable pub prepare_transaction :
    World → TreasuryTransactionRequest → Text → ℕ → Result Error PreparedTreasuryTransaction
unfolding read_fees read_gas signing_context
prepare_transaction world request signer_address nonce = do
  fees ← read_fees world nonce
  base ←
      with_fees (base_request request nonce) fees.max_fee_per_gas fees.max_priority_fee_per_gas
        fees.gas_price
  gas ← read_gas world nonce base
  let tx = record base { gas_limit = some gas }
  raw_transaction ← sign world.sign_transaction tx
  context ← signing_context world request signer_address nonce tx
  ok (record {
    tx_hash = world.keccak256 raw_transaction;
    context = context;
    raw_transaction = raw_transaction;
  })

unfoldable pub preparation_request :
    World → TreasuryTransactionRequest → Text → TreasuryTransactionPreparationRequest
unfolding pending_nonce prepare_transaction
preparation_request world request signer_address = record {
  operation_key = request.operation_key;
  target_operation_key = request.target_operation_key;
  target_type = request.target_type;
  chain_id = request.chain_id;
  signer_address = signer_address;
  to = request.to;
  call_data = request.call_data;
  value = request.value;
  access_list = request.access_list;
  get_pending_nonce = pending_nonce world;
  prepare = prepare_transaction world request signer_address;
}
