-- ===== src/Reliability/Broadcast.antt =====
-- prepareAndBroadcastTransaction of src/transactionReliability.ts: prepare and save, then broadcast,
-- then save what became of it.
use ev_web3_award_system.Prelude.{
  ℕ, Bool, true, false, not, [], Option, none, some, get_or, Result, ok, err, ◌>>=◌, ◌>>◌,
  if◌then◌else◌, leb,
}
use ev_web3_award_system.Text.{Text, codes, same_lower}
use ev_web3_award_system.Store.{
  Database, TransactionDiagnostic, TransactionDiagnosticStage, TransactionDiagnosticCategory,
  rpc_unavailable, database_unavailable, review_required, TreasuryTransactionLeaseRecord,
  LeaseStatus, Error, treasury_transaction_intent_mismatch, treasury_pending_nonce_unavailable,
  treasury_nonce_unavailable, treasury_transaction_context_mismatch, treasury_nonce_busy_retryable,
  treasury_nonce_gap_requires_review, treasury_nonce_lock_timeout, token_operation_not_found,
  token_operation_terminal_state, token_operation_tx_hash_mismatch, approval_preparation_not_found,
  approval_preparation_terminal_state, approval_funding_attempt_mismatch,
  approval_funding_tx_hash_mismatch, transaction_reliability,
}
use ev_web3_award_system.Treasury.{Preparation, max_safe_integer}
use ev_web3_award_system.Treasury.Prepare.{prepare}
use ev_web3_award_system.Treasury.Marks.{mark_submitted, mark_unknown}
use ev_web3_award_system.Rpc.{RpcDiagnosticDetails, RpcError}
use ev_web3_award_system.Reliability.{
  TreasuryTransactionRequest, TransactionReliabilityResult, World, begin_transaction, no_details,
  diagnostic_for,
}
use ev_web3_award_system.Reliability.Sign.{preparation_request, prepare_diagnostic}

-- The message of a TreasuryTransactionPreparationError, up to its first colon.
abbrev pub preparation_code : Error → Option Text
preparation_code treasury_nonce_lock_timeout = some (codes "TREASURY_NONCE_LOCK_TIMEOUT")
preparation_code (treasury_nonce_busy_retryable _ _) = some (codes "TREASURY_NONCE_BUSY_RETRYABLE")
preparation_code treasury_pending_nonce_unavailable =
    some (codes "TREASURY_PENDING_NONCE_UNAVAILABLE")
preparation_code treasury_nonce_unavailable = some (codes "TREASURY_NONCE_UNAVAILABLE")
preparation_code (treasury_nonce_gap_requires_review _ _) =
    some (codes "TREASURY_NONCE_GAP_REQUIRES_REVIEW")
preparation_code treasury_transaction_intent_mismatch =
    some (codes "TREASURY_TRANSACTION_INTENT_MISMATCH")
preparation_code treasury_transaction_context_mismatch =
    some (codes "TREASURY_TRANSACTION_CONTEXT_MISMATCH")
preparation_code token_operation_not_found = some (codes "TOKEN_OPERATION_NOT_FOUND")
preparation_code token_operation_terminal_state = some (codes "TOKEN_OPERATION_TERMINAL_STATE")
preparation_code token_operation_tx_hash_mismatch = some (codes "TOKEN_OPERATION_TX_HASH_MISMATCH")
preparation_code approval_preparation_not_found = some (codes "APPROVAL_PREPARATION_NOT_FOUND")
preparation_code approval_preparation_terminal_state =
    some (codes "APPROVAL_PREPARATION_TERMINAL_STATE")
preparation_code approval_funding_attempt_mismatch =
    some (codes "APPROVAL_FUNDING_ATTEMPT_MISMATCH")
preparation_code approval_funding_tx_hash_mismatch =
    some (codes "APPROVAL_FUNDING_TX_HASH_MISMATCH")
preparation_code _ = none

-- The table of coordinator outcomes: stage `prepare` in each.
pub record CoordinatorDiagnostic : Type 0 where
  pub retryable : Bool
  pub category : TransactionDiagnosticCategory
  pub rpc_method : Option Text

abbrev pub coordinator_diagnostic : Error → Option CoordinatorDiagnostic
coordinator_diagnostic treasury_nonce_lock_timeout =
    some (record { retryable = true; category = database_unavailable; rpc_method = none })
coordinator_diagnostic (treasury_nonce_busy_retryable _ _) =
    some (record { retryable = true; category = database_unavailable; rpc_method = none })
coordinator_diagnostic treasury_pending_nonce_unavailable = some (record {
  retryable = true;
  category = rpc_unavailable;
  rpc_method = some (codes "eth_getTransactionCount");
})
coordinator_diagnostic treasury_nonce_unavailable =
    some (record { retryable = true; category = database_unavailable; rpc_method = none })
coordinator_diagnostic (treasury_nonce_gap_requires_review _ _) =
    some (record { retryable = false; category = review_required; rpc_method = none })
coordinator_diagnostic _ = none

-- `permanentPreparationCodes`.
abbrev pub is_permanent : Error → Bool
is_permanent treasury_transaction_intent_mismatch = true
is_permanent treasury_transaction_context_mismatch = true
is_permanent token_operation_not_found = true
is_permanent token_operation_terminal_state = true
is_permanent token_operation_tx_hash_mismatch = true
is_permanent approval_preparation_not_found = true
is_permanent approval_preparation_terminal_state = true
is_permanent approval_funding_attempt_mismatch = true
is_permanent approval_funding_tx_hash_mismatch = true
is_permanent _ = false

abbrev pub persist_code : Error → Text → Text
persist_code error code =
    if is_permanent error then code else codes "TRANSACTION_HASH_PERSISTENCE_FAILED"

-- A TreasuryTransactionPreparationError that is no coordinator outcome.
abbrev pub persist_diagnostic : Error → Text → RpcDiagnosticDetails → TransactionDiagnostic
persist_diagnostic error code details =
    diagnostic_for TransactionDiagnosticStage.persist_hash (persist_code error code) details
      record {
        rpc_method = none;
        retryable = some (not (is_permanent error));
        category = some (if is_permanent error then review_required else database_unavailable);
        saved_hash = none;
        nonce = none;
      }

abbrev pub preparation_diagnostic :
    Error
    → Option Text
    → Option CoordinatorDiagnostic
    → RpcDiagnosticDetails
    → TransactionDiagnostic
preparation_diagnostic error none _ details =
    prepare_diagnostic (codes "TRANSACTION_PREPARATION_FAILED") details none true
      database_unavailable none
preparation_diagnostic error (some code) (some outcome) details =
    prepare_diagnostic code details outcome.rpc_method outcome.retryable outcome.category none
preparation_diagnostic error (some code) none details = persist_diagnostic error code details

-- `error instanceof TransactionReliabilityError`, with its diagnostic.
abbrev pub reliability_diagnostic : Error → Option TransactionDiagnostic
reliability_diagnostic (transaction_reliability diagnostic) = some diagnostic
reliability_diagnostic _ = none

-- The `catch` of the preparation.
unfoldable pub catch_preparation : World → Error → TransactionDiagnostic
catch_preparation world error = get_or (reliability_diagnostic error) (
    preparation_diagnostic error (preparation_code error) (coordinator_diagnostic error)
      (world.error_details error))

-- One call: what it throws or returns, the database after it, and the bytes that it broadcast.
pub record Attempt : Type 0 where
  pub result : Result TransactionDiagnostic TransactionReliabilityResult
  pub database : Database
  pub broadcast : Option Text

abbrev pub fails : TransactionDiagnostic → Database → Option Text → Attempt
fails diagnostic db raw = record { result = err diagnostic; database = db; broadcast = raw }

-- `try { await TreasuryTransactions.markUnknown(...) } catch {}`.
unfoldable pub try_mark_unknown : ℕ → World → Text → TransactionDiagnostic → Database → Database
unfolding mark_unknown
try_mark_unknown now world key diagnostic db =
    if world.unknown_saved then (mark_unknown now key diagnostic none db).1 else db

abbrev pub review_diagnostic : TreasuryTransactionLeaseRecord → TransactionDiagnostic
review_diagnostic lease =
    diagnostic_for TransactionDiagnosticStage.persist_hash
      (codes "TRANSACTION_PREPARED_REVIEW_REQUIRED") no_details
      record {
        rpc_method = none;
        retryable = some false;
        category = some review_required;
        saved_hash = some lease.tx_hash;
        nonce = if leb lease.nonce max_safe_integer then some lease.nonce else none;
      }

abbrev pub result_of :
    TreasuryTransactionLeaseRecord
    → (broadcasted already_prepared : Bool) → TransactionReliabilityResult
result_of lease broadcasted already_prepared = record {
  tx_hash = lease.tx_hash;
  context = lease.tx_context;
  broadcasted = broadcasted;
  already_prepared = already_prepared;
}

abbrev pub is_prepared : LeaseStatus → Bool
is_prepared LeaseStatus.prepared = true
is_prepared _ = false

-- A lease that was there before: nothing is broadcast.
unfoldable pub already_prepared :
    ℕ → World → Text → TreasuryTransactionLeaseRecord → Database → Attempt
unfolding try_mark_unknown
already_prepared now world key lease db =
    if is_prepared lease.status
    then fails (review_diagnostic lease)
        (try_mark_unknown now world key (review_diagnostic lease) db) none
    else record { result = ok (result_of lease false true); database = db; broadcast = none }

-- The diagnostics after a broadcast.
abbrev pub broadcast_diagnostic :
    Text → RpcDiagnosticDetails → TreasuryTransactionLeaseRecord → TransactionDiagnostic
broadcast_diagnostic error_code details lease =
    diagnostic_for TransactionDiagnosticStage.broadcast error_code details record {
      rpc_method = some (codes "eth_sendRawTransaction");
      retryable = some false;
      category = some review_required;
      saved_hash = some lease.tx_hash;
      nonce = some lease.nonce;
    }

abbrev pub broadcast_fails : ℕ → World → Text → TransactionDiagnostic → Text → Database → Attempt
broadcast_fails now world key diagnostic raw db =
    fails diagnostic (try_mark_unknown now world key diagnostic db) (some raw)

abbrev pub outcome_unknown :
    RpcDiagnosticDetails → TreasuryTransactionLeaseRecord → TransactionDiagnostic
outcome_unknown details lease = broadcast_diagnostic (codes "CHAIN_OUTCOME_UNKNOWN") details lease

-- TreasuryTransactions.markSubmitted, which the database may refuse.
unfoldable pub save_submitted :
    ℕ → World → Text → Text → Database → Result RpcDiagnosticDetails Database
unfolding mark_submitted
save_submitted now world key tx_hash db =
    world.submitted_saved >> (elim (mark_submitted now key tx_hash db) [
      | err error ↦ err (world.error_details error)
      | ok (_, db') ↦ ok db'
    ])

abbrev pub accepted :
    ℕ
    → World
    → Text
    → TreasuryTransactionLeaseRecord
    → Text
    → Database
    → Result RpcDiagnosticDetails Database
    → Attempt
accepted now world key lease raw db (ok db') = record {
  result = ok (result_of lease true false);
  database = db';
  broadcast = some raw;
}
accepted now world key lease raw db (err details) =
    broadcast_fails now world key (outcome_unknown details lease) raw db

abbrev pub answered :
    ℕ
    → World
    → Text
    → TreasuryTransactionLeaseRecord
    → Text
    → Database
    → Result RpcError Text
    → Attempt
answered now world key lease raw db (err error) =
    broadcast_fails now world key (outcome_unknown error.details lease) raw db
answered now world key lease raw db (ok hash) =
    if same_lower hash lease.tx_hash
    then accepted now world key lease raw db (save_submitted now world key lease.tx_hash db)
    else broadcast_fails now world key
        (broadcast_diagnostic (codes "BROADCAST_HASH_MISMATCH") no_details lease) raw db

-- The bytes are sent once, and then what became of them is saved.
unfoldable pub broadcast :
    ℕ → World → Text → TreasuryTransactionLeaseRecord → Text → Database → Attempt
unfolding try_mark_unknown save_submitted same_lower
broadcast now world key lease raw db =
    answered now world key lease raw db (world.broadcast_transaction raw)

abbrev pub after_preparation :
    ℕ
    → World
    → TreasuryTransactionRequest
    → Database
    → Result Error (Preparation × Database)
    → Attempt
after_preparation now world request db (err error) = fails (catch_preparation world error) db none
after_preparation now world request db (ok (prepared, db')) =
    if prepared.already_prepared
    then already_prepared now world request.operation_key prepared.lease db'
    else broadcast now world request.operation_key prepared.lease
        (get_or prepared.raw_transaction []) db'

abbrev pub provider_required : TransactionDiagnostic
provider_required =
    diagnostic_for TransactionDiagnosticStage.asset_context (codes "PROVIDER_REQUIRED") no_details
      record {
        rpc_method = none;
        retryable = some true;
        category = some rpc_unavailable;
        saved_hash = none;
        nonce = none;
      }

abbrev pub address_unavailable : RpcError → TransactionDiagnostic
address_unavailable error =
    prepare_diagnostic (codes "SIGNER_ADDRESS_UNAVAILABLE") error.details
      (some (codes "signer.getAddress")) true rpc_unavailable none

-- `ethers.getAddress(await signer.getAddress())`.
abbrev pub checked_address : World → Result RpcError Text
checked_address world = world.signer_address >>= world.get_address

abbrev pub with_signer :
    ℕ → World → TreasuryTransactionRequest → Database → Result RpcError Text → Attempt
with_signer now world request db (err error) = fails (address_unavailable error) db none
with_signer now world request db (ok signer) =
    after_preparation now world request db
      (begin_transaction world.begin >> prepare now (preparation_request world request signer) db)

unfoldable pub prepare_and_broadcast_transaction :
    ℕ → World → TreasuryTransactionRequest → Database → Attempt
unfolding catch_preparation already_prepared broadcast prepare preparation_request
prepare_and_broadcast_transaction now world request db =
    if world.has_provider
    then with_signer now world request db (checked_address world)
    else fails provider_required db none
