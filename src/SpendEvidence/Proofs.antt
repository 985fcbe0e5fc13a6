-- ===== src/SpendEvidence/Proofs.antt =====
-- The verdicts of verifySpendEvidence against what the chain shows.
use ev_web3_award_system.Prelude.{
  ℕ, zero, suc, ◌+◌, ◌≡◌, ◌↔◌, refl, sym, ap, ◌∙◌, inl, inr, true, ◌&&◌, List, [], ◌∷◌, Option,
  none, some, ok, ◌>>=◌, arith, Ensures, Ensures-bind, Ensures-intro, Ensures-ok, >>=-eq-ok,
  Bool-cases, and_true,
}
use mathlib.Core.Option.{some-injective}
use ev_web3_award_system.Text.{Text, same_lower}
use ev_web3_award_system.SpendEvidence.{
  SpendEvidenceRequest, SpendEvidenceProof, Chain, Transaction, Receipt, Log, TransferEvent, Parsed,
  TransferMethod, throws, nothing, parsed,
}
use ev_web3_award_system.SpendEvidence.Lookup.{
  Expected, read_request, find_transaction, find_receipt, find_sender, check_status,
}
use ev_web3_award_system.SpendEvidence.Transfers.{
  has_transfer_topic, compare_transfer, checked_transfer, transfer_kind, log_kind, Flags, no_flags,
  raise_flags, is_the_transfer, index_of, check_call, scan_logs, proof_of, verify_spend_evidence,
}
use ev_web3_award_system.SpendEvidence.Verdicts.{
  IsRead, read_request-IsRead, IsFound, find_transaction-IsFound, IsMined, find_receipt-IsMined,
  check_status-one,
}

-- A Transfer event of the expected token that moves the expected amount between the expected accounts.
pub record Moves (chain : Chain) (e : Expected) (log : Option Log) : Type 0 where
  pub entry : Log
  pub is_log : log ≡ some entry
  pub of_token : same_lower entry.address e.token_contract ≡ true
  pub topic : has_transfer_topic chain entry ≡ true
  pub event : TransferEvent
  pub decoded : chain.parse_log entry.topics entry.log_data ≡ parsed event
  pub source : Text
  pub source_address : chain.get_address event.from ≡ some source
  pub from_source : same_lower source e.source_wallet ≡ true
  pub recipient : Text
  pub recipient_address : chain.get_address event.to ≡ some recipient
  pub to_treasury : same_lower recipient e.treasury_recipient ≡ true
  pub amount : event.value ≡ e.amount

compare-true :
    (e : Expected) (source recipient : Text) (amount : ℕ)
    → is_the_transfer (compare_transfer e source recipient amount) ≡ true
    → (same_lower source e.source_wallet ≡ true)
      × (same_lower recipient e.treasury_recipient ≡ true)
      × (amount ≡ e.amount)
compare-true e source recipient amount h = ground arith

checked-true :
    (e : Expected) (source recipient : Option Text) (amount : ℕ)
    → is_the_transfer (checked_transfer e source recipient amount) ≡ true
    → (s : Text) × (source ≡ some s)
      × (same_lower s e.source_wallet ≡ true)
      × (r : Text) × (recipient ≡ some r)
      × (same_lower r e.treasury_recipient ≡ true)
      × (amount ≡ e.amount)
checked-true e none recipient amount h = absurd (cc)
checked-true e (some s) none amount h = absurd (cc)
checked-true e (some s) (some r) amount h =
    let (a, b, c) = compare-true e s r amount h in (s, refl, a, r, refl, b, c)

module _ (chain : Chain) (e : Expected) where
  parsed-true :
      (entry : Log) (p : Parsed TransferEvent)
      → chain.parse_log entry.topics entry.log_data ≡ p
      → same_lower entry.address e.token_contract ≡ true
      → has_transfer_topic chain entry ≡ true
      → is_the_transfer (transfer_kind chain e p) ≡ true
      → Moves chain e (some entry)
  parsed-true entry throws same token topic h = absurd (cc)
  parsed-true entry nothing same token topic h = absurd (cc)
  parsed-true entry (parsed event) same token topic h =
      let (s, a, b, r, c, d, amount) =
        checked-true e (chain.get_address event.from) (chain.get_address event.to) event.value h in
      record {
        entry = entry;
        is_log = refl;
        of_token = token;
        topic = topic;
        event = event;
        decoded = same;
        source = s;
        source_address = a;
        from_source = b;
        recipient = r;
        recipient_address = c;
        to_treasury = d;
        amount = amount;
      }

  -- The code's test of a log is its description.
  log_kind-Moves :
      (log : Option Log) → is_the_transfer (log_kind chain e log) ≡ true → Moves chain e log
  unfolding log_kind
  log_kind-Moves none h = absurd (cc)
  log_kind-Moves (some entry) h =
      elim (Bool-cases
        (same_lower entry.address e.token_contract && has_transfer_topic chain entry)) [
          | inl own ↦
              let (token, topic) = and_true _ _ own in
              parsed-true entry (chain.parse_log entry.topics entry.log_data) refl token topic
                (rw own at h)
          | inr foreign ↦ absurd (ground arith)
        ]

  Moves-log_kind :
      (log : Option Log) → Moves chain e log → is_the_transfer (log_kind chain e log) ≡ true
  unfolding log_kind
  Moves-log_kind log m =
      rw
        (
          m.is_log, m.of_token, m.topic, m.decoded, m.source_address, m.recipient_address,
          m.from_source, m.to_treasury, m.amount,
        )
        (ground arith)

abbrev pub get_elem : {A : Type 0} → List A → ℕ → Option A
get_elem [] n = none
get_elem (x ∷ xs) zero = some x
get_elem (x ∷ xs) (suc n) = get_elem xs n

-- A log of the receipt that moves the amount, with its index.
pub record Shown (chain : Chain) (e : Expected) (first : ℕ) (logs : List (Option Log)) (i : ℕ)
    : Type 0 where
  pub position : ℕ
  pub log : Option Log
  pub at_position : get_elem logs position ≡ some log
  pub moves : Moves chain e log
  pub number : ℕ
  pub numbered : number ≡ position + first
  pub same_index : i ≡ index_of number log

module _ (chain : Chain) (e : Expected) where
  scan_logs-Shown :
      (first : ℕ) (flags : Flags) (logs : List (Option Log))
      → Ensures (Shown chain e first logs) (scan_logs chain e first flags logs)
  unfolding scan_logs
  scan_logs-Shown first flags [] = tt
  scan_logs-Shown first flags (log ∷ logs) =
      elim (Bool-cases (is_the_transfer (log_kind chain e log))) [
        | inl hit ↦ rw hit record {
          position = 0;
          log = log;
          at_position = refl;
          moves = log_kind-Moves chain e log hit;
          number = first;
          numbered = omega arith;
          same_index = refl;
        }
        | inr miss ↦ rw miss (
            Ensures-intro _
              (scan_logs chain e (suc first) (raise_flags (log_kind chain e log) flags) logs)
              λ i found.
                let h =
                  Ensures-ok _ _
                    (scan_logs-Shown (suc first) (raise_flags (log_kind chain e log) flags) logs)
                    found in
                record {
                  position = suc h.position;
                  log = h.log;
                  at_position = h.at_position;
                  moves = h.moves;
                  number = h.number;
                  numbered = omega (arith, h.numbered);
                  same_index = h.same_index;
                })
      ]

  -- A log that moves the amount is enough.
  scan_logs-finds :
      (first : ℕ) (flags : Flags) (logs : List (Option Log)) (position : ℕ) (log : Option Log)
      → get_elem logs position ≡ some log
      → Moves chain e log
      → (i : ℕ) × (scan_logs chain e first flags logs ≡ ok i)
  unfolding scan_logs
  scan_logs-finds first flags [] position log there m = absurd (cc)
  scan_logs-finds first flags (l ∷ logs) zero log there m = (
    index_of first l,
    rw (ap (log_kind chain e) (some-injective l log there), Moves-log_kind chain e log m) refl,
  )
  scan_logs-finds first flags (l ∷ logs) (suc position) log there m =
      elim (Bool-cases (is_the_transfer (log_kind chain e l))) [
        | inl hit ↦ (index_of first l, rw hit refl)
        | inr miss ↦
            let (i, e') =
              scan_logs-finds (suc first) (raise_flags (log_kind chain e l) flags) logs position log
                there m in
            (i, rw miss e')
      ]

-- What the chain shows for a proof.
pub record Proven (chain : Chain) (input : SpendEvidenceRequest) (proof : SpendEvidenceProof)
    : Type 0 where
  pub expected : Expected
  pub read : IsRead chain input expected
  pub same_hash : proof.tx_hash ≡ expected.tx_hash
  pub same_chain : proof.chain_id ≡ expected.chain_id
  pub same_token : proof.token_contract_address ≡ expected.token_contract
  pub same_source : proof.source_wallet ≡ expected.source_wallet
  pub same_treasury : proof.treasury_recipient ≡ expected.treasury_recipient
  pub same_amount : proof.amount_units ≡ expected.amount
  pub transaction : Transaction
  pub found : IsFound chain input expected transaction
  pub receipt : Receipt
  pub mined : IsMined chain input expected receipt
  pub succeeded : receipt.status ≡ some 1
  pub in_block : proof.block_number ≡ receipt.block_number
  pub shown : Shown chain expected 0 receipt.logs proof.log_index

verify-Proven :
    (chain : Chain) (input : SpendEvidenceRequest)
    → Ensures (Proven chain input) (verify_spend_evidence chain input)
unfolding verify_spend_evidence
verify-Proven chain input = Ensures-bind _ (read_request chain input) _ λ e read.
    Ensures-bind _ (find_transaction chain input e) _ λ t found.
      Ensures-bind _ (find_receipt chain input e) _ λ r mined.
        Ensures-bind _ (find_sender chain t r) _ λ sender _.
          Ensures-bind _ (check_status r) _ λ _ status.
            Ensures-bind _ (check_call chain e t sender) _ λ method _.
              Ensures-bind _ (scan_logs chain e 0 no_flags r.logs) _ λ i shown. record {
                expected = e;
                read = Ensures-ok _ _ (read_request-IsRead chain input) read;
                same_hash = refl;
                same_chain = refl;
                same_token = refl;
                same_source = refl;
                same_treasury = refl;
                same_amount = refl;
                transaction = t;
                found = Ensures-ok _ _ (find_transaction-IsFound chain input e) found;
                receipt = r;
                mined = Ensures-ok _ _ (find_receipt-IsMined chain input e) mined;
                succeeded = Ensures-ok _ (check_status r) (check_status-one r) status;
                in_block = refl;
                shown = Ensures-ok _ _ (scan_logs-Shown chain e 0 no_flags r.logs) shown;
              }

-- A proof of verifySpendEvidence repeats the request: its hash, chain, token contract, wallets and amount. The chain
-- has a transaction of that hash that calls the token contract, its receipt succeeded, and the log of the receipt
-- that the proof names is a Transfer event of the token contract, of the amount, from the wallet to the treasury.
pub valid-Proven :
    (chain : Chain) (input : SpendEvidenceRequest) (proof : SpendEvidenceProof)
    → verify_spend_evidence chain input ≡ ok proof
    → Proven chain input proof
valid-Proven chain input proof e =
    Ensures-ok (Proven chain input) (verify_spend_evidence chain input) (verify-Proven chain input)
      e

-- If a successful transaction is found for a request and its call is the expected one, verifySpendEvidence returns a
-- proof exactly if some log of the receipt is a Transfer event of the expected token that moves the expected amount
-- between the expected accounts.
pub transfer_decides :
    (chain : Chain) (input : SpendEvidenceRequest) (e : Expected) (t : Transaction) (r : Receipt)
    (sender : Text) (method : TransferMethod)
    → read_request chain input ≡ ok e
    → find_transaction chain input e ≡ ok t
    → find_receipt chain input e ≡ ok r
    → find_sender chain t r ≡ ok sender
    → r.status ≡ some 1
    → check_call chain e t sender ≡ ok method
    → ((proof : SpendEvidenceProof) × (verify_spend_evidence chain input ≡ ok proof)) ↔ (
        (position : ℕ) × (log : Option Log) × (get_elem r.logs position ≡ some log)
        × Moves chain e log)
unfolding verify_spend_evidence check_status
transfer_decides chain input e t r sender method read found mined same status call =
    (shows, accepts)
  where
    rest :
        verify_spend_evidence chain input
        ≡ (scan_logs chain e 0 no_flags r.logs >>= λ i. ok (proof_of e r sender method i))
    rest = rw (read, found, mined, same, status, call) refl

    shows :
        (proof : SpendEvidenceProof) × (verify_spend_evidence chain input ≡ ok proof)
        → (position : ℕ) × (log : Option Log) × (get_elem r.logs position ≡ some log)
          × Moves chain e log
    shows (proof, valid) =
        let (i, scanned, _) =
          >>=-eq-ok (scan_logs chain e 0 no_flags r.logs) _ (sym rest ∙ valid) in
        let shown = Ensures-ok _ _ (scan_logs-Shown chain e 0 no_flags r.logs) scanned in
        (shown.position, shown.log, shown.at_position, shown.moves)

    accepts :
        (position : ℕ) × (log : Option Log) × (get_elem r.logs position ≡ some log)
          × Moves chain e log
        → (proof : SpendEvidenceProof) × (verify_spend_evidence chain input ≡ ok proof)
    accepts (position, log, there, m) =
        let (i, scanned) = scan_logs-finds chain e 0 no_flags r.logs position log there m in
        (proof_of e r sender method i, rest ∙ rw scanned refl)
