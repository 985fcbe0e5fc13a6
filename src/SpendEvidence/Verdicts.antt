-- ===== src/SpendEvidence/Verdicts.antt =====
-- What each check of verifySpendEvidence establishes.
use ev_web3_award_system.Prelude.{
  ℕ, ◌≡◌, refl, ap, true, not, Option, none, some, Result, ok, err, require, or_fail, ◌==◌, Ensures,
  Ensures-bind, Ensures-intro, Ensures-ok, ◌∙◌, ==_iff, or_fail-eq-ok, require-eq-ok,
}
use ev_web3_award_system.Text.{Text, codes, to_lower}
use ev_web3_award_system.Operations.Hash.{matches_hash}
use ev_web3_award_system.Rpc.{RpcError}
use ev_web3_award_system.Rpc.Retry.{with_rpc_read_retry, with_nullable_rpc_read_retry}
use ev_web3_award_system.SpendEvidence.{
  SpendEvidenceRequest, Chain, Transaction, Receipt, failure, invalid_tx_hash, invalid_chain_id,
  invalid_amount, wrong_chain, wrong_token_contract, transaction_not_found,
  transaction_identity_mismatch, receipt_identity_mismatch, provider_error, transaction_failed,
  malformed_receipt, canonical_address, parse_chain_id, parse_amount_units, or_unread,
}
use ev_web3_award_system.SpendEvidence.Lookup.{
  Expected, read_request, is_hash, is_target, check_chain, find_transaction, find_receipt,
  not_mined, check_status, has_status,
}

-- A field of the request that names an address.
abbrev pub Names : Chain → Option Text → Text → Type 0
Names chain value address = (a : Text) × (value ≡ some a) × (chain.get_address a ≡ some address)

pub record IsRead (chain : Chain) (input : SpendEvidenceRequest) (e : Expected) : Type 0 where
  pub well_formed : matches_hash input.tx_hash ≡ true
  pub same_hash : e.tx_hash ≡ to_lower input.tx_hash
  pub token : Names chain input.token_contract_address e.token_contract
  pub source : Names chain input.source_wallet e.source_wallet
  pub treasury : Names chain input.treasury_recipient e.treasury_recipient
  pub chain_id : parse_chain_id input.chain_id ≡ some e.chain_id
  pub amount : parse_amount_units input.amount_units ≡ some e.amount

canonical_address-Names :
    (chain : Chain) (value : Option Text)
    → Ensures (Names chain value) (canonical_address chain value)
canonical_address-Names chain none = tt
canonical_address-Names chain (some a) =
    Ensures-intro _ (or_fail (chain.get_address a) _)
      (λ x e. (a, refl, or_fail-eq-ok (chain.get_address a) _ e))

named :
    (chain : Chain) (value : Option Text) {address : Text}
    → canonical_address chain value ≡ ok address
    → Names chain value address
named chain value e =
    Ensures-ok _ (canonical_address chain value) (canonical_address-Names chain value) e

pub read_request-IsRead :
    (chain : Chain) (input : SpendEvidenceRequest)
    → Ensures (IsRead chain input) (read_request chain input)
unfolding read_request
read_request-IsRead chain input =
    Ensures-bind _ (require (matches_hash input.tx_hash) (failure invalid_tx_hash)) _ λ _ hash.
      Ensures-bind _ (canonical_address chain input.token_contract_address) _ λ token a.
        Ensures-bind _ (canonical_address chain input.source_wallet) _ λ source b.
          Ensures-bind _ (canonical_address chain input.treasury_recipient) _ λ treasury c.
            Ensures-bind _ (or_fail (parse_chain_id input.chain_id) (failure invalid_chain_id)) _
              λ chain_id d.
                Ensures-bind _
                  (or_fail (parse_amount_units input.amount_units) (failure invalid_amount)) _
                  λ amount e. record {
                    well_formed = require-eq-ok _ _ hash;
                    same_hash = refl;
                    token = named chain input.token_contract_address a;
                    source = named chain input.source_wallet b;
                    treasury = named chain input.treasury_recipient c;
                    chain_id = or_fail-eq-ok (parse_chain_id input.chain_id) _ d;
                    amount = or_fail-eq-ok (parse_amount_units input.amount_units) _ e;
                  }

pub or_unread-ok :
    {A : Type 0} (method : Text) (r : Result RpcError A) {a : A}
    → or_unread method r ≡ ok a
    → r ≡ ok a
or_unread-ok method (ok b) e = cc
or_unread-ok method (err b) e = cc

-- The transaction that the chain has under the expected hash calls the expected contract.
pub record IsFound (chain : Chain) (input : SpendEvidenceRequest) (e : Expected) (t : Transaction)
    : Type 0 where
  pub network : (with_rpc_read_retry input.read_retry chain.network).outcome ≡ ok (some e.chain_id)
  pub on_chain :
      (with_nullable_rpc_read_retry input.read_retry (chain.transaction e.tx_hash)).outcome
      ≡ ok (some t)
  pub hash : is_hash e.tx_hash t.hash ≡ true
  pub target : is_target e.token_contract t.to ≡ true

pub find_transaction-IsFound :
    (chain : Chain) (input : SpendEvidenceRequest) (e : Expected)
    → Ensures (IsFound chain input e) (find_transaction chain input e)
unfolding find_transaction
find_transaction-IsFound chain input e =
    let network_read = (with_rpc_read_retry input.read_retry chain.network).outcome in
    let transaction_read =
      (with_nullable_rpc_read_retry input.read_retry (chain.transaction e.tx_hash)).outcome in
    Ensures-bind _ (or_unread (codes "eth_chainId") network_read) _ λ network a.
      Ensures-bind _ (or_unread (codes "eth_getTransactionByHash") transaction_read) _ λ found b.
        Ensures-bind _ (or_fail network (failure provider_error)) _ λ actual c.
          Ensures-bind _ (require (actual == e.chain_id) (failure wrong_chain)) _ λ _ same.
            Ensures-bind _ (or_fail found (failure transaction_not_found)) _ λ t d.
              Ensures-bind _
                (require (is_hash e.tx_hash t.hash) (failure transaction_identity_mismatch)) _
                λ _ hash. Ensures-bind _ (check_chain e.chain_id t.chain_id) _ λ _ _.
                  Ensures-bind _
                    (require (is_target e.token_contract t.to) (failure wrong_token_contract)) _
                    λ _ target. record {
                      network =
                          or_unread-ok _ network_read a
                          ∙ ap ok (
                              or_fail-eq-ok network _ c
                              ∙ ap some ((==_iff actual e.chain_id).0 (require-eq-ok _ _ same)));
                      on_chain =
                          or_unread-ok _ transaction_read b ∙ ap ok (or_fail-eq-ok found _ d);
                      hash = require-eq-ok _ _ hash;
                      target = require-eq-ok _ _ target;
                    }

pub record IsMined (chain : Chain) (input : SpendEvidenceRequest) (e : Expected) (r : Receipt)
    : Type 0 where
  pub mined :
      (with_nullable_rpc_read_retry input.read_retry (chain.receipt e.tx_hash)).outcome
      ≡ ok (some r)
  pub hash : is_hash e.tx_hash r.hash ≡ true
  pub target : is_target e.token_contract r.to ≡ true

pub find_receipt-IsMined :
    (chain : Chain) (input : SpendEvidenceRequest) (e : Expected)
    → Ensures (IsMined chain input e) (find_receipt chain input e)
unfolding find_receipt
find_receipt-IsMined chain input e =
    let read = (with_nullable_rpc_read_retry input.read_retry (chain.receipt e.tx_hash)).outcome in
    Ensures-bind _ (or_unread (codes "eth_getTransactionReceipt") read) _ λ found b.
      Ensures-bind _ (or_fail found not_mined) _ λ r d.
        Ensures-bind _ (require (is_hash e.tx_hash r.hash) (failure receipt_identity_mismatch)) _
          λ _ hash.
            Ensures-bind _
              (require (is_target e.token_contract r.to) (failure wrong_token_contract)) _
              λ _ target. record {
                mined = or_unread-ok _ read b ∙ ap ok (or_fail-eq-ok found _ d);
                hash = require-eq-ok _ _ hash;
                target = require-eq-ok _ _ target;
              }

pub has_status-eq : (n : ℕ) (status : Option ℕ) → has_status n status ≡ true → status ≡ some n
has_status-eq n none h = cc
has_status-eq n (some m) h = ap some ((==_iff m n).0 h)

pub check_status-one : (r : Receipt) → Ensures (λ _. r.status ≡ some 1) (check_status r)
unfolding check_status
check_status-one r =
    Ensures-bind _ (require (not (has_status 0 r.status)) (failure transaction_failed)) _ λ _ _.
      Ensures-intro _ (require (has_status 1 r.status) (failure malformed_receipt))
        (λ _ one. has_status-eq 1 r.status (require-eq-ok _ _ one))
