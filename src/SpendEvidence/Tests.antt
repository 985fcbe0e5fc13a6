-- ===== src/SpendEvidence/Tests.antt =====
-- verifySpendEvidence on a concrete chain.
use ev_web3_award_system.Prelude.{ℕ, ◌≡◌, ◌↔◌, refl, List, [], ◌∷◌, Option, none, some, ok, err}
use ev_web3_award_system.Text.{Text, codes, to_lower}
use ev_web3_award_system.Rpc.Retry.{default_options}
use ev_web3_award_system.SpendEvidence.{
  SpendEvidenceRequest, SpendEvidenceProof, Chain, Transaction, Receipt, Log, parsed, transfer_call,
  failure, transaction_failed, bigint_input, text_input, transfer,
}
use ev_web3_award_system.SpendEvidence.Lookup.{
  Expected, read_request, find_transaction, find_receipt, find_sender,
}
use ev_web3_award_system.SpendEvidence.Transfers.{verify_spend_evidence, proof_of, check_call}
use ev_web3_award_system.SpendEvidence.Proofs.{
  Proven, Moves, get_elem, valid-Proven, transfer_decides,
}
use ev_web3_award_system.SpendEvidence.Failures.{Explained, failure-Explained}

abbrev hash_text : Text
hash_text = codes "0x00000000000000000000000000000000000000000000000000000000000000AB"

abbrev transaction : Transaction
transaction = record {
  hash = some hash_text;
  chain_id = some (some 80002);
  to = some (codes "0xT");
  from = some (codes "0xAA");
  call_data = codes "0x1";
  value = 0;
}

-- A log of another contract, then the transfer.
abbrev logs : List (Option Log)
logs =
    some (record { address = codes "0xe"; topics = []; log_data = []; index = none })
    ∷ some (record {
      address = codes "0xt";
      topics = some (codes "0xTopic") ∷ [];
      log_data = [];
      index = none;
    })
    ∷ []

abbrev receipt_of : ℕ → Receipt
receipt_of status = record {
  hash = some hash_text;
  to = some (codes "0xt");
  from = some (codes "0xaa");
  status = some status;
  logs = logs;
  block_number = 77;
}

abbrev chain_of : ℕ → Chain
chain_of status = record {
  network = λ n. record { result = ok (some 80002); took = 5 };
  transaction = λ hash n. record { result = ok (some transaction); took = 5 };
  receipt = λ hash n. record { result = ok (some (receipt_of status)); took = 5 };
  get_address = λ a. some a;
  parse_transaction = λ d v. parsed (transfer_call (codes "0xbb") 300);
  parse_log = λ t d. parsed (record { from = codes "0xAA"; to = codes "0xbb"; value = 300 });
  transfer_topic = codes "0xtopic";
}

abbrev input : SpendEvidenceRequest
input = record {
  token_contract_address = some (codes "0xT");
  chain_id = text_input (codes "80002");
  source_wallet = some (codes "0xaa");
  treasury_recipient = some (codes "0xBB");
  amount_units = bigint_input 300;
  tx_hash = hash_text;
  read_retry = default_options;
}

abbrev expected : Expected
expected = record {
  tx_hash = to_lower hash_text;
  token_contract = codes "0xT";
  source_wallet = codes "0xaa";
  treasury_recipient = codes "0xBB";
  chain_id = 80002;
  amount = 300;
}

abbrev proof : SpendEvidenceProof
proof = proof_of expected (receipt_of 1) (codes "0xAA") transfer 1

accepted : verify_spend_evidence (chain_of 1) input ≡ ok proof
unfolding verify_spend_evidence to_lower
accepted = refl

rejected : verify_spend_evidence (chain_of 0) input ≡ err (failure transaction_failed)
unfolding verify_spend_evidence
rejected = refl

valid-Proven_example : Proven (chain_of 1) input proof
valid-Proven_example = valid-Proven (chain_of 1) input proof accepted

failure-Explained_example : Explained (chain_of 0) input (failure transaction_failed)
failure-Explained_example =
    failure-Explained (chain_of 0) input (failure transaction_failed) rejected

read : read_request (chain_of 1) input ≡ ok expected
unfolding read_request
read = refl

found : find_transaction (chain_of 1) input expected ≡ ok transaction
unfolding find_transaction
found = refl

mined : find_receipt (chain_of 1) input expected ≡ ok (receipt_of 1)
unfolding find_receipt
mined = refl

sender : find_sender (chain_of 1) transaction (receipt_of 1) ≡ ok (codes "0xAA")
unfolding find_sender
sender = refl

call : check_call (chain_of 1) expected transaction (codes "0xAA") ≡ ok transfer
unfolding check_call
call = refl

abbrev Decided : Type 0
Decided = ((p : SpendEvidenceProof) × (verify_spend_evidence (chain_of 1) input ≡ ok p)) ↔ (
    (position : ℕ) × (log : Option Log) × (get_elem logs position ≡ some log)
    × Moves (chain_of 1) expected log)

transfer_decides_example : Decided
transfer_decides_example =
    transfer_decides (chain_of 1) input expected transaction (receipt_of 1) (codes "0xAA") transfer
      read found mined sender refl call
