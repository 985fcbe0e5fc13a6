-- ===== src/SpendEvidence/Failures.antt =====
-- The failures of verifySpendEvidence that its callers act on: a failed transaction, which proves that
-- nothing moved, and a transaction that is not mined yet.
use ev_web3_award_system.Prelude.{
  ℕ, suc, ◌≡◌, refl, inl, inr, Bool, true, false, not, List, [], ◌∷◌, Option, none, some, Result,
  ok, err, require, or_fail, if◌then◌else◌, Ensures-ok, Bool-cases, Raises, Raises-err, Raises-bind,
  Raises-then, Raises-require, Raises-or_fail,
}
use ev_web3_award_system.Text.{Text, codes}
use ev_web3_award_system.Rpc.{RpcError}
use ev_web3_award_system.Rpc.Retry.{with_nullable_rpc_read_retry}
use ev_web3_award_system.SpendEvidence.{
  SpendEvidenceRequest, SpendEvidenceFailure, Chain, Transaction, Receipt, Log, Parsed, throws,
  nothing, parsed, TokenCall, transfer_call, transfer_from_call, other_call, FailureCode,
  receipt_pending, transaction_failed, failure, canonical_address, or_unread, unread,
  receipt_identity_mismatch,
}
use ev_web3_award_system.SpendEvidence.Lookup.{
  Expected, read_request, check_chain, find_transaction, find_receipt, not_mined, receipt_address,
  find_sender, has_status, check_status,
}
use ev_web3_award_system.SpendEvidence.Transfers.{
  Flags, no_flags, no_transfer, call_arguments, decoded_call, check_call, log_kind, is_the_transfer,
  raise_flags, scan_logs, verify_spend_evidence,
}
use ev_web3_award_system.SpendEvidence.Verdicts.{
  IsRead, read_request-IsRead, IsMined, find_receipt-IsMined, has_status-eq, or_unread-ok,
}

-- The receipt of the requested transaction failed.
pub record FailedOnChain (chain : Chain) (input : SpendEvidenceRequest) : Type 0 where
  pub expected : Expected
  pub read : IsRead chain input expected
  pub receipt : Receipt
  pub mined : IsMined chain input expected receipt
  pub failed : receipt.status ≡ some 0

-- The chain has no receipt of the requested transaction.
pub record NotMined (chain : Chain) (input : SpendEvidenceRequest) : Type 0 where
  pub expected : Expected
  pub read : IsRead chain input expected
  pub no_receipt :
      (with_nullable_rpc_read_retry input.read_retry (chain.receipt expected.tx_hash)).outcome
      ≡ ok none

-- What a failure tells of the chain: its code, and its flag `pending`.
abbrev pub Tells : Chain → SpendEvidenceRequest → FailureCode → Bool → Type 0
Tells chain input transaction_failed pending = (pending ≡ false) × FailedOnChain chain input
Tells chain input receipt_pending pending = (pending ≡ true) × NotMined chain input
Tells chain input _ pending = pending ≡ false

abbrev pub Explained : Chain → SpendEvidenceRequest → SpendEvidenceFailure → Type 0
Explained chain input f = Tells chain input f.code f.pending

module _ (chain : Chain) (input : SpendEvidenceRequest) where
  abbrev P : SpendEvidenceFailure → Type 0
  P = Explained chain input

  canonical_address-Explained : (value : Option Text) → Raises P (canonical_address chain value)
  canonical_address-Explained none = refl
  canonical_address-Explained (some a) = Raises-or_fail P (chain.get_address a) _ refl

  or_unread-Explained :
      {A : Type 0} (method : Text) (r : Result RpcError A) → Raises P (or_unread method r)
  unfolding unread
  or_unread-Explained method (ok value) = tt
  or_unread-Explained method (err error) = refl

  read_request-Explained : Raises P (read_request chain input)
  unfolding read_request
  read_request-Explained =
      search (Raises-bind, Raises-require, Raises-or_fail, canonical_address-Explained) depth 16

  check_chain-Explained :
      (expected : ℕ) (id : Option (Option ℕ)) → Raises P (check_chain expected id)
  check_chain-Explained expected none = tt
  check_chain-Explained expected (some none) = refl
  check_chain-Explained expected (some (some n)) = Raises-require P _ _ refl

  find_transaction-Explained : (e : Expected) → Raises P (find_transaction chain input e)
  unfolding find_transaction
  find_transaction-Explained e =
      search
        (Raises-bind, Raises-require, Raises-or_fail, or_unread-Explained, check_chain-Explained)
        depth 20

  find_receipt-Explained :
      (e : Expected) → IsRead chain input e → Raises P (find_receipt chain input e)
  unfolding find_receipt
  find_receipt-Explained e read =
      let answer =
        (with_nullable_rpc_read_retry input.read_retry (chain.receipt e.tx_hash)).outcome in
      Raises-then P (or_unread (codes "eth_getTransactionReceipt") answer) _
        (or_unread-Explained _ answer)
        λ found answered.
          Raises-bind P (or_fail found not_mined) _ (mined found (or_unread-ok _ answer answered))
            λ r. search (Raises-bind, Raises-require) depth 8
    where
      mined :
          (found : Option Receipt)
          → (with_nullable_rpc_read_retry input.read_retry (chain.receipt e.tx_hash)).outcome
            ≡ ok found
          → Raises P (or_fail found not_mined)
      mined none answered = (refl, record { expected = e; read = read; no_receipt = answered })
      mined (some r) answered = tt

  receipt_address-Explained : (from : Option Text) → Raises P (receipt_address chain from)
  receipt_address-Explained from = at_address (canonical_address chain from)
    where
      at_address :
          (r : Result SpendEvidenceFailure Text)
          → Raises P (elim r as (λ _. Result SpendEvidenceFailure Text) [
            | ok address ↦ ok address
            | err _ ↦ err (failure receipt_identity_mismatch)
          ])
      at_address (ok address) = tt
      at_address (err f) = refl

  find_sender-Explained : (t : Transaction) (r : Receipt) → Raises P (find_sender chain t r)
  unfolding find_sender
  find_sender-Explained t r =
      search (Raises-bind, Raises-require, canonical_address-Explained, receipt_address-Explained)
        depth 10

  check_status-Explained :
      (e : Expected) (r : Receipt)
      → IsRead chain input e
      → IsMined chain input e r
      → Raises P (check_status r)
  unfolding check_status
  check_status-Explained e r read mined =
      Raises-bind P (require (not (has_status 0 r.status)) (failure transaction_failed)) _
        (at_status (has_status 0 r.status) refl) (λ _. Raises-require P _ _ refl)
    where
      at_status :
          (b : Bool)
          → has_status 0 r.status ≡ b
          → Raises P (require (not b) (failure transaction_failed))
      at_status true failed = (
        refl,
        record {
          expected = e;
          read = read;
          receipt = r;
          mined = mined;
          failed = has_status-eq 0 r.status failed;
        },
      )
      at_status false other = tt

  call_arguments-Explained :
      (sender : Text) (call : TokenCall) → Raises P (call_arguments chain sender call)
  call_arguments-Explained sender (transfer_call to amount) =
      search (Raises-bind, Raises-or_fail) depth 8
  call_arguments-Explained sender (transfer_from_call from to amount) =
      search (Raises-bind, Raises-or_fail) depth 10
  call_arguments-Explained sender other_call = refl

  decoded_call-Explained :
      (sender : Text) (call : Parsed TokenCall) → Raises P (decoded_call chain sender call)
  decoded_call-Explained sender throws = refl
  decoded_call-Explained sender nothing = refl
  decoded_call-Explained sender (parsed call) = call_arguments-Explained sender call

  check_call-Explained :
      (e : Expected) (t : Transaction) (sender : Text) → Raises P (check_call chain e t sender)
  unfolding check_call
  check_call-Explained e t sender =
      search (Raises-bind, Raises-require, decoded_call-Explained) depth 12

  if-Explained :
      (b : Bool) (x y : FailureCode)
      → Explained chain input (failure x)
      → Explained chain input (failure y)
      → Explained chain input (failure (if b then x else y))
  if-Explained true x y h k = h
  if-Explained false x y h k = k

  no_transfer-Explained : (flags : Flags) → Explained chain input (failure (no_transfer flags))
  no_transfer-Explained flags = if-Explained flags.malformed _ _ refl (
      if-Explained (not flags.saw_transfer_log) _ _ refl (
        if-Explained flags.sender _ _ refl
          (if-Explained flags.recipient _ _ refl (if-Explained flags.amount _ _ refl refl))))

  scan_logs-Explained :
      (e : Expected) (index : ℕ) (flags : Flags) (logs : List (Option Log))
      → Raises P (scan_logs chain e index flags logs)
  unfolding scan_logs
  scan_logs-Explained e index flags [] = no_transfer-Explained flags
  scan_logs-Explained e index flags (log ∷ logs) =
      elim (Bool-cases (is_the_transfer (log_kind chain e log))) [
        | inl hit ↦ rw hit tt
        | inr miss ↦
            rw miss
              (scan_logs-Explained e (suc index) (raise_flags (log_kind chain e log) flags) logs)
      ]

  verify-Explained : Raises P (verify_spend_evidence chain input)
  unfolding verify_spend_evidence
  verify-Explained =
      Raises-then P (read_request chain input) _ read_request-Explained λ e at_request.
        let read = Ensures-ok _ _ (read_request-IsRead chain input) at_request in
        Raises-bind P (find_transaction chain input e) _ (find_transaction-Explained e) λ t.
          Raises-then P (find_receipt chain input e) _ (find_receipt-Explained e read)
            λ r at_receipt.
              let mined = Ensures-ok _ _ (find_receipt-IsMined chain input e) at_receipt in
              Raises-bind P (find_sender chain t r) _ (find_sender-Explained t r) λ sender.
                Raises-bind P (check_status r) _ (check_status-Explained e r read mined) λ _.
                  Raises-bind P (check_call chain e t sender) _ (check_call-Explained e t sender)
                    λ method.
                      Raises-bind P (scan_logs chain e 0 no_flags r.logs) _
                        (scan_logs-Explained e 0 no_flags r.logs) (λ i. tt)

-- Each failure of verifySpendEvidence is pending only if its code is RECEIPT_PENDING, and then the chain has no receipt
-- of the requested hash. With the code TRANSACTION_FAILED, the chain has a receipt of the requested hash to the token
-- contract, with status 0.
pub failure-Explained :
    (chain : Chain) (input : SpendEvidenceRequest) (f : SpendEvidenceFailure)
    → verify_spend_evidence chain input ≡ err f
    → Explained chain input f
failure-Explained chain input f e =
    Raises-err (Explained chain input) (verify_spend_evidence chain input)
      (verify-Explained chain input) e
