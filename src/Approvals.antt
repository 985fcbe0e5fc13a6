-- ===== src/Approvals.antt =====
-- ApprovalPreparations of src/database/service.ts: the durable state of the gas funding and the
-- allowance of a managed wallet. Each function is taken as one atomic step.
pub mod Marks
pub mod Lifecycle
pub mod Once
mod Tests
use ev_web3_award_system.Prelude.{
  ℕ, ◌≡◌, refl, Bool, true, false, ◌&&◌, ◌||◌, not, List, [], ◌∷◌, Option, none, some, Result, ok,
  err, ◌>>=◌, ◌>>◌, require, or_fail, is_some, find_by, if◌then◌else◌,
}
use ev_web3_award_system.Text.{Text, text_eq, nullable_eq, same_lower, to_lower}
use ev_web3_award_system.Store.{
  Database, ApprovalPreparationRecord, ApprovalPreparationStatus, TransactionDiagnostic,
  TransactionDiagnosticStage, TreasuryTransactionLeaseRecord, TreasuryTransactionTargetType,
  approval_funding, Error, approval_preparation_intent_mismatch,
  approval_funding_prior_evidence_required, approval_preparation_missing,
}
use ev_web3_award_system.Operations.Rows.{truthy}
use ev_web3_award_system.Treasury.{same_target}
use ev_web3_award_system.Treasury.Prepare.{approval_has_key, update_approvals}

pub record ApprovalRequest : Type 0 where
  pub operation_key : Text
  pub wallet_address : Text
  pub token_contract_address : Text
  pub chain_id : Text
  pub treasury_address : Text

pub record ApprovalClaim : Type 0 where
  pub preparation : ApprovalPreparationRecord
  pub acquired : Bool

unfoldable pub find_approval : Text → Database → Option ApprovalPreparationRecord
unfolding approval_has_key
find_approval key db = find_by (approval_has_key key) db.approval_preparations

unfoldable pub approval_intent_matches : ApprovalPreparationRecord → ApprovalRequest → Bool
unfolding same_lower text_eq
approval_intent_matches r request =
    same_lower r.wallet_address request.wallet_address
    && same_lower r.token_contract_address request.token_contract_address
    && text_eq r.chain_id request.chain_id
    && same_lower r.treasury_address request.treasury_address

abbrev pub approval_failed : ApprovalPreparationStatus → Bool
approval_failed ApprovalPreparationStatus.failed = true
approval_failed _ = false

abbrev pub is_funded : ApprovalPreparationStatus → Bool
is_funded ApprovalPreparationStatus.funded = true
is_funded _ = false

-- `['prepare', 'persist_hash', 'preflight', 'asset_context'].includes(stage)`.
abbrev pub before_broadcast : TransactionDiagnosticStage → Bool
before_broadcast TransactionDiagnosticStage.prepare = true
before_broadcast TransactionDiagnosticStage.persist_hash = true
before_broadcast TransactionDiagnosticStage.preflight = true
before_broadcast TransactionDiagnosticStage.asset_context = true
before_broadcast _ = false

abbrev pub proves_unsent : Option TransactionDiagnostic → Bool
proves_unsent none = false
proves_unsent (some d) = before_broadcast d.stage && not (is_some (truthy d.saved_hash))

-- A failure before any broadcast, which may be claimed again.
unfoldable pub approval_reclaimable : ApprovalPreparationRecord → Bool
approval_reclaimable r =
    approval_failed r.status
    && not (is_some (truthy r.funding_tx_hash))
    && proves_unsent r.diagnostic_context

unfoldable pub failed_with_key : Text → ApprovalPreparationRecord → Bool
unfolding approval_has_key
failed_with_key key r = approval_has_key key r && approval_failed r.status

unfoldable pub restart_funding :
    ℕ → Option Text → Option ℕ → ApprovalPreparationRecord → ApprovalPreparationRecord
restart_funding now attempt value r = record r {
  status = ApprovalPreparationStatus.funding;
  funding_attempt_key = attempt;
  funding_attempt_value = value;
  error_message = none;
  updated_at = now;
}

unfoldable pub new_approval : ℕ → ApprovalRequest → ApprovalPreparationRecord
new_approval now request = record {
  operation_key = request.operation_key;
  wallet_address = to_lower request.wallet_address;
  token_contract_address = to_lower request.token_contract_address;
  chain_id = request.chain_id;
  treasury_address = to_lower request.treasury_address;
  status = ApprovalPreparationStatus.funding;
  funding_tx_hash = none;
  funding_tx_nonce = none;
  funding_tx_context = none;
  funding_attempt_key = none;
  funding_attempt_value = none;
  approval_tx_hash = none;
  diagnostic_context = none;
  error_message = none;
  created_at = now;
  updated_at = now;
}

abbrev pub claim_found :
    ℕ
    → ApprovalRequest
    → Option ApprovalPreparationRecord
    → Database
    → Result Error (ApprovalClaim × Database)
claim_found now request none db = ok (
  record { preparation = new_approval now request; acquired = true },
  record db { approval_preparations = new_approval now request ∷ db.approval_preparations },
)
claim_found now request (some r) db =
    require (approval_intent_matches r request) approval_preparation_intent_mismatch
    >> ok (
        if approval_reclaimable r
        then (
          record { preparation = restart_funding now none none r; acquired = true },
          update_approvals (failed_with_key request.operation_key) (restart_funding now none none)
              db,
        )
        else (record { preparation = r; acquired = false }, db))

unfoldable pub claim : ℕ → ApprovalRequest → Database → Result Error (ApprovalClaim × Database)
unfolding approval_intent_matches approval_reclaimable failed_with_key restart_funding new_approval
    find_approval
claim now request db = claim_found now request (find_approval request.operation_key db) db

-- Funded, and no approval sent.
unfoldable pub awaits_approval : Text → ApprovalPreparationRecord → Bool
unfolding approval_has_key
awaits_approval key r =
    approval_has_key key r && is_funded r.status && not (is_some r.approval_tx_hash)

unfoldable pub funded_with_key : Text → ApprovalPreparationRecord → Bool
unfolding approval_has_key
funded_with_key key r = approval_has_key key r && is_funded r.status

-- The lease that keeps the evidence of an earlier funding transaction.
unfoldable pub is_prior_lease : Text → Text → TreasuryTransactionLeaseRecord → Bool
unfolding nullable_eq same_lower
is_prior_lease key hash lease =
    nullable_eq lease.target_operation_key (some key)
    && same_target lease.target_type approval_funding
    && same_lower lease.tx_hash hash

unfoldable pub prior_evidence : Text → Option Text → Database → Result Error (Unit {0})
unfolding is_prior_lease
prior_evidence key none db = ok tt
prior_evidence key (some hash) db =
    require (is_some (find_by (is_prior_lease key hash) db.leases))
      approval_funding_prior_evidence_required

unfoldable pub top_up :
    ℕ
    → Text
    → Text
    → ℕ
    → ApprovalPreparationRecord
    → Database
    → Result Error (ApprovalClaim × Database)
unfolding prior_evidence awaits_approval restart_funding
top_up now key attempt value current db =
    prior_evidence key (truthy current.funding_tx_hash) db
    >> ok (
      record {
        preparation = restart_funding now (some attempt) (some value) current;
        acquired = true;
      },
      update_approvals (awaits_approval key) (restart_funding now (some attempt) (some value)) db,
    )

-- One measured top-up of a confirmed funding.
unfoldable pub claim_funding_top_up :
    ℕ → Text → Text → ℕ → Database → Result Error (ApprovalClaim × Database)
unfolding top_up find_approval
claim_funding_top_up now key attempt value db = do
  current ← or_fail (find_approval key db) (approval_preparation_missing key)
  if is_funded current.status && not (is_some current.approval_tx_hash)
      then top_up now key attempt value current db
      else ok (record { preparation = current; acquired = false }, db)

unfoldable pub set_approving : ℕ → ApprovalPreparationRecord → ApprovalPreparationRecord
set_approving now r = record r {
  status = ApprovalPreparationStatus.approving;
  error_message = none;
  updated_at = now;
}

-- `funded` is the only state from which a caller may broadcast the approval.
unfoldable pub claim_approval_submission :
    ℕ → Text → Database → Result Error (ApprovalClaim × Database)
unfolding funded_with_key set_approving find_approval
claim_approval_submission now key db = do
  current ← or_fail (find_approval key db) (approval_preparation_missing key)
  ok (
      if is_funded current.status
      then (
        record { preparation = set_approving now current; acquired = true },
        update_approvals (funded_with_key key) (set_approving now) db,
      )
      else (record { preparation = current; acquired = false }, db))
