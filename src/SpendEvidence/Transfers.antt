-- ===== src/SpendEvidence/Transfers.antt =====
-- The second half of verifySpendEvidence: the call and the Transfer events of the transaction.
use ev_web3_award_system.Prelude.{
  ℕ, suc, Bool, true, false, ◌&&◌, ◌||◌, not, List, [], ◌∷◌, Option, none, some, get_or, Result, ok,
  err, ◌>>=◌, ◌>>◌, require, or_fail, ◌==◌, if◌then◌else◌,
}
use ev_web3_award_system.Text.{Text, text_eq, to_lower, same_lower}
use ev_web3_award_system.Operations.Rows.{truthy}
use ev_web3_award_system.SpendEvidence.{
  SpendEvidenceRequest, SpendEvidenceFailure, SpendEvidenceProof, Chain, Transaction, Receipt, Log,
  TransferMethod, transfer, transfer_from, FailureCode, Parsed, throws, nothing, parsed, TokenCall,
  transfer_call, transfer_from_call, other_call, TransferEvent, failure, malformed_call,
  unsupported_token_call, wrong_sender, wrong_recipient, wrong_amount, missing_transfer_event,
  malformed_transfer_log,
}
use ev_web3_award_system.SpendEvidence.Lookup.{
  Expected, read_request, find_transaction, find_receipt, find_sender, check_status,
}

-- The arguments of the call, with addresses that ethers accepts.
pub record CallArguments : Type 0 where
  pub method : TransferMethod
  pub source : Text
  pub recipient : Text
  pub amount : ℕ

abbrev pub call_arguments : Chain → Text → TokenCall → Result SpendEvidenceFailure CallArguments
call_arguments chain sender (transfer_call to amount) = do
  recipient ← or_fail (chain.get_address to) (failure malformed_call)
  ok (record { method = transfer; source = sender; recipient = recipient; amount = amount })
call_arguments chain sender (transfer_from_call from to amount) = do
  source ← or_fail (chain.get_address from) (failure malformed_call)
  recipient ← or_fail (chain.get_address to) (failure malformed_call)
  ok (record { method = transfer_from; source = source; recipient = recipient; amount = amount })
call_arguments chain sender other_call = err (failure unsupported_token_call)

abbrev pub decoded_call :
    Chain → Text → Parsed TokenCall → Result SpendEvidenceFailure CallArguments
decoded_call chain sender throws = err (failure malformed_call)
decoded_call chain sender nothing = err (failure malformed_call)
decoded_call chain sender (parsed call) = call_arguments chain sender call

-- The call moves the expected amount between the expected accounts.
unfoldable pub check_call :
    Chain → Expected → Transaction → (sender : Text) → Result SpendEvidenceFailure TransferMethod
unfolding same_lower
check_call chain expected transaction sender = do
  call ← decoded_call chain sender (chain.parse_transaction transaction.call_data transaction.value)
  require (same_lower call.source expected.source_wallet) (failure wrong_sender)
  require (same_lower call.recipient expected.treasury_recipient) (failure wrong_recipient)
  require (call.amount == expected.amount) (failure wrong_amount)
  ok call.method

-- What one log of the receipt is.
pub data LogKind : Type 0 where
  unrelated no_log bad_transfer : LogKind
  other_transfer : (sender recipient amount : Bool) → LogKind
  the_transfer : LogKind

abbrev pub first_topic : List (Option Text) → Option Text
first_topic [] = none
first_topic (topic ∷ _) = truthy topic

abbrev pub has_transfer_topic : Chain → Log → Bool
has_transfer_topic chain log = elim (first_topic log.topics) [
  | none ↦ false
  | some topic ↦ text_eq (to_lower topic) chain.transfer_topic
]

abbrev pub compare_transfer : Expected → Text → Text → ℕ → LogKind
compare_transfer expected source recipient amount =
    let same_source = same_lower source expected.source_wallet in
    let same_recipient = same_lower recipient expected.treasury_recipient in
    let same_amount = amount == expected.amount in
    if same_source && same_recipient && same_amount
    then the_transfer
    else other_transfer (not same_source) (not same_recipient) (not same_amount)

abbrev pub checked_transfer : Expected → Option Text → Option Text → ℕ → LogKind
checked_transfer expected (some source) (some recipient) amount =
    compare_transfer expected source recipient amount
checked_transfer expected _ _ amount = bad_transfer

abbrev pub transfer_kind : Chain → Expected → Parsed TransferEvent → LogKind
transfer_kind chain expected throws = bad_transfer
transfer_kind chain expected nothing = bad_transfer
transfer_kind chain expected (parsed event) =
    checked_transfer expected (chain.get_address event.from) (chain.get_address event.to)
      event.value

unfoldable pub log_kind : Chain → Expected → Option Log → LogKind
unfolding same_lower text_eq to_lower
log_kind chain expected none = no_log
log_kind chain expected (some log) =
    if same_lower log.address expected.token_contract && has_transfer_topic chain log
    then transfer_kind chain expected (chain.parse_log log.topics log.log_data)
    else unrelated

-- The flags of the loop over the logs.
pub record Flags : Type 0 where
  pub saw_transfer_log : Bool
  pub malformed : Bool
  pub sender : Bool
  pub recipient : Bool
  pub amount : Bool

abbrev pub no_flags : Flags
no_flags = record {
  saw_transfer_log = false;
  malformed = false;
  sender = false;
  recipient = false;
  amount = false;
}

abbrev pub raise_flags : LogKind → Flags → Flags
raise_flags unrelated flags = flags
raise_flags no_log flags = record flags { malformed = true }
raise_flags bad_transfer flags = record flags { saw_transfer_log = true; malformed = true }
raise_flags (other_transfer sender recipient amount) flags = record flags {
  saw_transfer_log = true;
  sender = flags.sender || sender;
  recipient = flags.recipient || recipient;
  amount = flags.amount || amount;
}
raise_flags the_transfer flags = record flags { saw_transfer_log = true }

-- After the loop.
abbrev pub no_transfer : Flags → FailureCode
no_transfer flags =
    if flags.malformed
    then malformed_transfer_log
    else if not flags.saw_transfer_log
    then missing_transfer_event
    else if flags.sender
    then wrong_sender
    else if flags.recipient
    then wrong_recipient
    else if flags.amount
    then wrong_amount
    else malformed_transfer_log

abbrev pub is_the_transfer : LogKind → Bool
is_the_transfer the_transfer = true
is_the_transfer _ = false

-- `log.index ?? index`.
abbrev pub index_of : ℕ → Option Log → ℕ
index_of index none = index
index_of index (some log) = get_or log.index index

-- The loop over the logs: the index of the first one that is the transfer.
unfoldable pub scan_logs :
    Chain → Expected → ℕ → Flags → List (Option Log) → Result SpendEvidenceFailure ℕ
unfolding log_kind
scan_logs chain expected index flags [] = err (failure (no_transfer flags))
scan_logs chain expected index flags (log ∷ logs) =
    let kind = log_kind chain expected log in
    let rest = scan_logs chain expected (suc index) (raise_flags kind flags) logs in
    if is_the_transfer kind then ok (index_of index log) else rest

abbrev pub proof_of : Expected → Receipt → (sender : Text) → TransferMethod → ℕ → SpendEvidenceProof
proof_of expected receipt sender method log_index = record {
  tx_hash = expected.tx_hash;
  chain_id = expected.chain_id;
  token_contract_address = expected.token_contract;
  source_wallet = expected.source_wallet;
  treasury_recipient = expected.treasury_recipient;
  amount_units = expected.amount;
  transfer_method = method;
  transaction_from = sender;
  block_number = receipt.block_number;
  log_index = log_index;
}

unfoldable pub verify_spend_evidence :
    Chain → SpendEvidenceRequest → Result SpendEvidenceFailure SpendEvidenceProof
unfolding read_request find_transaction find_receipt find_sender check_status check_call scan_logs
verify_spend_evidence chain input = do
  expected ← read_request chain input
  transaction ← find_transaction chain input expected
  receipt ← find_receipt chain input expected
  sender ← find_sender chain transaction receipt
  check_status receipt
  method ← check_call chain expected transaction sender
  log_index ← scan_logs chain expected 0 no_flags receipt.logs
  ok (proof_of expected receipt sender method log_index)
