-- ===== src/SpendEvidence/Lookup.antt =====
-- The first half of verifySpendEvidence: the request is read, and the mined transaction is found and
-- identified.
use ev_web3_award_system.Prelude.{
  ℕ, Bool, true, false, ◌||◌, not, Option, none, some, Result, ok, err, ◌>>=◌, ◌>>◌, require,
  or_fail, ◌==◌,
}
use ev_web3_award_system.Text.{Text, codes, text_eq, to_lower, same_lower}
use ev_web3_award_system.Operations.Hash.{matches_hash}
use ev_web3_award_system.Operations.Rows.{truthy}
use ev_web3_award_system.Rpc.Retry.{with_rpc_read_retry, with_nullable_rpc_read_retry}
use ev_web3_award_system.SpendEvidence.{
  SpendEvidenceRequest, SpendEvidenceFailure, Chain, Transaction, Receipt, failure, invalid_tx_hash,
  invalid_chain_id, invalid_amount, transaction_not_found, receipt_pending, transaction_failed,
  transaction_identity_mismatch, receipt_identity_mismatch, wrong_chain, wrong_token_contract,
  malformed_receipt, provider_error, canonical_address, parse_chain_id, parse_amount_units,
  or_unread,
}

-- The checked fields of the request.
pub record Expected : Type 0 where
  pub tx_hash : Text
  pub token_contract : Text
  pub source_wallet : Text
  pub treasury_recipient : Text
  pub chain_id : ℕ
  pub amount : ℕ

unfoldable pub read_request : Chain → SpendEvidenceRequest → Result SpendEvidenceFailure Expected
unfolding matches_hash to_lower parse_chain_id parse_amount_units
read_request chain input = do
  require (matches_hash input.tx_hash) (failure invalid_tx_hash)
  token_contract ← canonical_address chain input.token_contract_address
  source_wallet ← canonical_address chain input.source_wallet
  treasury_recipient ← canonical_address chain input.treasury_recipient
  chain_id ← or_fail (parse_chain_id input.chain_id) (failure invalid_chain_id)
  amount ← or_fail (parse_amount_units input.amount_units) (failure invalid_amount)
  ok (record {
    tx_hash = to_lower input.tx_hash;
    token_contract = token_contract;
    source_wallet = source_wallet;
    treasury_recipient = treasury_recipient;
    chain_id = chain_id;
    amount = amount;
  })

-- `typeof hash === 'string' && hash.toLowerCase() === txHash`.
abbrev pub is_hash : Text → Option Text → Bool
is_hash tx_hash none = false
is_hash tx_hash (some hash) = text_eq (to_lower hash) tx_hash

-- `to && to.toLowerCase() === tokenContract.toLowerCase()`.
abbrev pub is_target : Text → Option Text → Bool
is_target token_contract to = elim (truthy to) [
  | none ↦ false
  | some t ↦ same_lower t token_contract
]

-- A legacy transaction has no chain id, or the chain id 0.
abbrev pub check_chain : ℕ → Option (Option ℕ) → Result SpendEvidenceFailure (Unit {0})
check_chain expected none = ok tt
check_chain expected (some none) = err (failure transaction_identity_mismatch)
check_chain expected (some (some n)) = require (n == 0 || n == expected) (failure wrong_chain)

unfoldable pub find_transaction :
    Chain → SpendEvidenceRequest → Expected → Result SpendEvidenceFailure Transaction
unfolding with_rpc_read_retry with_nullable_rpc_read_retry text_eq to_lower same_lower
find_transaction chain input expected = do
  network ←
      or_unread (codes "eth_chainId") (with_rpc_read_retry input.read_retry chain.network).outcome
  found ←
      or_unread (codes "eth_getTransactionByHash")
        (with_nullable_rpc_read_retry input.read_retry (chain.transaction expected.tx_hash)).outcome
  actual_chain_id ← or_fail network (failure provider_error)
  require (actual_chain_id == expected.chain_id) (failure wrong_chain)
  transaction ← or_fail found (failure transaction_not_found)
  require (is_hash expected.tx_hash transaction.hash) (failure transaction_identity_mismatch)
  check_chain expected.chain_id transaction.chain_id
  require (is_target expected.token_contract transaction.to) (failure wrong_token_contract)
  ok transaction

abbrev pub not_mined : SpendEvidenceFailure
not_mined = record { code = receipt_pending; pending = true; diagnostic = none }

-- The receipt of the transaction, of whatever status.
unfoldable pub find_receipt :
    Chain → SpendEvidenceRequest → Expected → Result SpendEvidenceFailure Receipt
unfolding with_nullable_rpc_read_retry text_eq to_lower same_lower
find_receipt chain input expected = do
  found ←
      or_unread (codes "eth_getTransactionReceipt")
        (with_nullable_rpc_read_retry input.read_retry (chain.receipt expected.tx_hash)).outcome
  receipt ← or_fail found not_mined
  require (is_hash expected.tx_hash receipt.hash) (failure receipt_identity_mismatch)
  require (is_target expected.token_contract receipt.to) (failure wrong_token_contract)
  ok receipt

-- A sender of the receipt that is no address is another failure than one of the transaction.
abbrev pub receipt_address : Chain → Option Text → Result SpendEvidenceFailure Text
receipt_address chain from = elim (canonical_address chain from) [
  | ok address ↦ ok address
  | err _ ↦ err (failure receipt_identity_mismatch)
]

-- Both have the same sender, who is returned.
unfoldable pub find_sender : Chain → Transaction → Receipt → Result SpendEvidenceFailure Text
unfolding same_lower
find_sender chain transaction receipt = do
  transaction_from ← canonical_address chain transaction.from
  receipt_from ← receipt_address chain receipt.from
  require (same_lower receipt_from transaction_from) (failure receipt_identity_mismatch)
  ok transaction_from

-- `receipt.status === 0`, then `receipt.status !== 1`.
abbrev pub has_status : ℕ → Option ℕ → Bool
has_status n none = false
has_status n (some status) = status == n

unfoldable pub check_status : Receipt → Result SpendEvidenceFailure (Unit {0})
check_status receipt = do
  require (not (has_status 0 receipt.status)) (failure transaction_failed)
  require (has_status 1 receipt.status) (failure malformed_receipt)
