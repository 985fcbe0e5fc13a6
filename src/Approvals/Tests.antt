-- ===== src/Approvals/Tests.antt =====
-- An approval preparation on concrete rows.
use ev_web3_award_system.Prelude.{ℕ, ◌≡◌, refl, false, List, [], ◌∷◌, none, some, ok}
use ev_web3_award_system.Text.{codes, text_eq}
use ev_web3_award_system.Store.{Database, ApprovalPreparationRecord, ApprovalPreparationStatus}
use ev_web3_award_system.Approvals.{find_approval, claim_approval_submission}
use ev_web3_award_system.Approvals.Once.{
  Call, unknown_call, recover_call, run_all, run_all-HasApproval, HasApproval,
  approval_submission_once,
}

abbrev saved_row : ApprovalPreparationRecord
saved_row = record {
  operation_key = codes "approval:1";
  wallet_address = codes "0xa1";
  token_contract_address = codes "0xcc";
  chain_id = codes "1";
  treasury_address = codes "0xaa";
  status = ApprovalPreparationStatus.approving;
  funding_tx_hash = some (codes "0x01");
  funding_tx_nonce = none;
  funding_tx_context = none;
  funding_attempt_key = none;
  funding_attempt_value = none;
  approval_tx_hash = some (codes "0x02");
  diagnostic_context = none;
  error_message = none;
  created_at = 7;
  updated_at = 7;
}

abbrev saved_db : Database
saved_db = record {
  token_operations = [];
  spend_reservations = [];
  awards = [];
  users = [];
  spends = [];
  balances = [];
  linked_wallet_links = [];
  leases = [];
  approval_preparations = saved_row ∷ [];
}

-- The outcome is lost, and the recovery finds the approval's hash.
abbrev lost_calls : List (ℕ × Call)
lost_calls =
    (
      8,
      unknown_call (codes "approval:1") (codes "timeout") (record {
        funding_tx_hash = none;
        funding_attempt_key = none;
        clear_funding_hash = false;
        diagnostic = none;
      }),
    )
    ∷ (9, recover_call (codes "approval:1"))
    ∷ []

approval_submission_once_example :
    (s : ApprovalPreparationRecord) × (claim_approval_submission 10
        (codes "approval:1")
        (run_all lost_calls saved_db)
      ≡ ok (record { preparation = s; acquired = false }, run_all lost_calls saved_db))
unfolding find_approval text_eq
approval_submission_once_example =
    approval_submission_once lost_calls saved_db (codes "approval:1") saved_row 10 (λ _. refl, tt)
      refl refl

run_all-HasApproval_example :
    (s : ApprovalPreparationRecord) × (find_approval
        (codes "approval:1")
        (run_all lost_calls saved_db)
      ≡ some s)
    × HasApproval s
unfolding find_approval text_eq
run_all-HasApproval_example =
    run_all-HasApproval lost_calls saved_db (codes "approval:1") saved_row (λ _. refl, tt) refl refl
