-- ===== src/Approvals/Lifecycle.antt =====
-- What every operation on an approval preparation respects.
use ev_web3_award_system.Prelude.{
  ℕ, ◌≡◌, refl, Bool, true, false, ◌||◌, List, ◌∷◌, Option, none, some, is_some, Result, find_by,
  update_where, arith, Ensures, ◌∙◌,
}
use ev_web3_award_system.Text.{Text}
use ev_web3_award_system.Store.{
  Database, ApprovalPreparationRecord, ApprovalPreparationStatus, TransactionDiagnostic, Error,
}
use ev_web3_award_system.Treasury.Prepare.{approval_has_key}
use ev_web3_award_system.Approvals.{
  failed_with_key, restart_funding, is_funded, awaits_approval, funded_with_key, set_approving,
}
use ev_web3_award_system.Approvals.Marks.{
  FundingOptions, UnknownOptions, with_status, set_funding_submitted, preflight_open,
  set_preflight_failed, set_funded, recoverable, set_approval_submitted, set_approved, set_unknown,
  is_funding, is_approving, is_approved, may_be_unknown,
}

-- The statuses after the funding. A preparation with the hash of its approval has one of them.
abbrev pub after_funding : ApprovalPreparationStatus → Bool
after_funding ApprovalPreparationStatus.approving = true
after_funding ApprovalPreparationStatus.approved = true
after_funding ApprovalPreparationStatus.unknown = true
after_funding _ = false

abbrev pub PastFunding : ApprovalPreparationRecord → Type 0
PastFunding r = is_some r.approval_tx_hash ≡ true → after_funding r.status ≡ true

-- A row keeps a hash of its approval, and stays past its funding.
pub record Progress (r s : ApprovalPreparationRecord) : Type 0 where
  pub same_key : s.operation_key ≡ r.operation_key
  pub keeps_hash : is_some r.approval_tx_hash ≡ true → is_some s.approval_tx_hash ≡ true
  pub keeps : PastFunding r → PastFunding s

pub Progress-refl : (r : ApprovalPreparationRecord) → Progress r r
Progress-refl r = record { same_key = refl; keeps_hash = λ h. h; keeps = λ h. h }

pub Progress-trans :
    (r s t : ApprovalPreparationRecord) → Progress r s → Progress s t → Progress r t
Progress-trans r s t a b = record {
  same_key = b.same_key ∙ a.same_key;
  keeps_hash = λ h. b.keeps_hash (a.keeps_hash h);
  keeps = λ h. b.keeps (a.keeps h);
}

pub data Step (before after : List ApprovalPreparationRecord) : Type 0 where
  stay : after ≡ before → Step before after
  edit :
      (p : ApprovalPreparationRecord → Bool)
      (f : ApprovalPreparationRecord → ApprovalPreparationRecord)
      → ((r : ApprovalPreparationRecord) → p r ≡ true → Progress r (f r))
      → after ≡ update_where p f before
      → Step before after
  add :
      (r : ApprovalPreparationRecord)
      → PastFunding r
      → find_by (approval_has_key r.operation_key) before ≡ none
      → after ≡ r ∷ before
      → Step before after

abbrev pub Stepped : Database → Database → Type 0
Stepped db db' = Step db.approval_preparations db'.approval_preparations

abbrev pub Steps {ℓ} : {A : Type ℓ} → Database → Result Error (A × Database) → Type 0
Steps db = Ensures (λ q. Stepped db q.1)

pub restart-Progress :
    (now : ℕ) (key : Text) (r : ApprovalPreparationRecord)
    → failed_with_key key r ≡ true
    → Progress r (restart_funding now none none r)
unfolding failed_with_key restart_funding
restart-Progress now key r h = ground arith

pub top_up-Progress :
    (now : ℕ) (key attempt : Text) (value : ℕ) (r : ApprovalPreparationRecord)
    → awaits_approval key r ≡ true
    → Progress r (restart_funding now (some attempt) (some value) r)
unfolding awaits_approval restart_funding
top_up-Progress now key attempt value r h = ground arith

pub submitted-Progress :
    (now : ℕ) (key hash : Text) (options : FundingOptions) (r : ApprovalPreparationRecord)
    → with_status is_funding key r ≡ true
    → Progress r (set_funding_submitted now hash options r)
unfolding with_status set_funding_submitted
submitted-Progress now key hash options r h = ground arith

pub preflight-Progress :
    (now : ℕ) (key error : Text) (diagnostic : Option (Option TransactionDiagnostic))
    (r : ApprovalPreparationRecord)
    → preflight_open key r ≡ true
    → Progress r (set_preflight_failed now error diagnostic r)
unfolding preflight_open set_preflight_failed
preflight-Progress now key error diagnostic r h = ground arith

pub funded-Progress :
    (now : ℕ) (key : Text) (r : ApprovalPreparationRecord)
    → with_status (λ s. is_funding s || is_funded s) key r ≡ true
    → Progress r (set_funded now r)
unfolding with_status set_funded
funded-Progress now key r h = ground arith

pub recover-Progress :
    (now : ℕ) (key : Text) (r : ApprovalPreparationRecord)
    → recoverable key r ≡ true
    → Progress r (set_funded now r)
unfolding recoverable set_funded
recover-Progress now key r h = ground arith

pub approving-Progress :
    (now : ℕ) (key : Text) (r : ApprovalPreparationRecord)
    → with_status is_funded key r ≡ true
    → Progress r (set_approving now r)
unfolding with_status set_approving
approving-Progress now key r h = ground arith

pub submission-Progress :
    (now : ℕ) (key : Text) (r : ApprovalPreparationRecord)
    → funded_with_key key r ≡ true
    → Progress r (set_approving now r)
unfolding funded_with_key set_approving
submission-Progress now key r h = ground arith

pub approval-Progress :
    (now : ℕ) (key hash : Text) (r : ApprovalPreparationRecord)
    → with_status is_approving key r ≡ true
    → Progress r (set_approval_submitted now hash r)
unfolding with_status set_approval_submitted
approval-Progress now key hash r h = ground arith

pub approved-Progress :
    (now : ℕ) (key : Text) (r : ApprovalPreparationRecord)
    → with_status (λ s. is_approving s || is_approved s) key r ≡ true
    → Progress r (set_approved now r)
unfolding with_status set_approved
approved-Progress now key r h = ground arith

pub unknown-Progress :
    (now : ℕ) (key error : Text) (hash : Option Text) (options : UnknownOptions)
    (r : ApprovalPreparationRecord)
    → with_status may_be_unknown key r ≡ true
    → Progress r (set_unknown now error hash options r)
unfolding with_status set_unknown
unknown-Progress now key error hash options r h = ground arith
