-- ===== src/Approvals/Once.antt =====
-- About an approval whose hash was saved, over the calls of ApprovalPreparations. The source sends an
-- approval before it saves the hash: of one that was sent and not saved, nothing is said here.
use ev_web3_award_system.Prelude.{
  ℕ, ◌≡◌, refl, inl, inr, true, false, ◌&&◌, ◌||◌, not, List, [], ◌∷◌, Option, none, some, is_some,
  Result, ok, err, require, or_fail, find_by, All, All-intro, All-update_where, find_by-All, arith,
  Bool-cases, Option-cases, Ensures-bind, subst, sym, ap, Found, Found-update,
}
use ev_web3_award_system.Text.{Text, text_eq}
use ev_web3_award_system.Text.Laws.{text_eq_iff}
use ev_web3_award_system.Store.{
  Database, ApprovalPreparationRecord, TransactionDiagnostic, Error,
  approval_preparation_intent_mismatch, approval_preparation_missing,
  approval_funding_tx_hash_mismatch,
}
use ev_web3_award_system.Operations.History.{commit}
use ev_web3_award_system.Operations.Hash.{require_canonical_transaction_hash}
use ev_web3_award_system.Operations.Rows.{truthy}
use ev_web3_award_system.Reservations.{optional_hash}
use ev_web3_award_system.Treasury.Prepare.{approval_has_key}
use ev_web3_award_system.Approvals.{
  ApprovalRequest, find_approval, approval_intent_matches, approval_reclaimable, failed_with_key,
  restart_funding, new_approval, claim_found, claim, is_funded, awaits_approval, funded_with_key,
  prior_evidence, top_up, claim_funding_top_up, set_approving, claim_approval_submission,
}
use ev_web3_award_system.Approvals.Marks.{
  FundingOptions, UnknownOptions, with_status, set_funding_submitted, funding_hash_agrees,
  mark_funding_submitted, preflight_open, set_preflight_failed, mark_funding_preflight_failed,
  set_funded, mark_funded, recoverable, recover_funded_after_read_only_proof, mark_approving,
  set_approval_submitted, mark_approval_submitted, set_approved, mark_approved, set_unknown,
  stale_attempt, stale_hash, mark_unknown_row, mark_unknown_found, mark_unknown, is_funding,
  is_approving, is_approved, may_be_unknown,
}
use ev_web3_award_system.Approvals.Lifecycle.{
  after_funding, PastFunding, Progress, Progress-refl, Progress-trans, Step, stay, edit, add,
  Stepped, Steps, restart-Progress, top_up-Progress, submitted-Progress, preflight-Progress,
  funded-Progress, recover-Progress, approving-Progress, submission-Progress, approval-Progress,
  approved-Progress, unknown-Progress,
}

pub data Call : Type 0 where
  claim_call : ApprovalRequest → Call
  funding_submitted_call :
      (key tx_hash : Text) → FundingOptions → Option ApprovalPreparationRecord → Call
  preflight_failed_call : (key error : Text) → Option (Option TransactionDiagnostic) → Call
  funded_call recover_call approving_call submission_call approved_call : (key : Text) → Call
  top_up_call : (key attempt : Text) (value : ℕ) → Call
  approval_submitted_call : (key tx_hash : Text) → Call
  unknown_call : (key error : Text) → UnknownOptions → Call

unfoldable pub run : ℕ → Call → Database → Database
unfolding claim mark_funding_submitted mark_funding_preflight_failed mark_funded
    recover_funded_after_read_only_proof mark_approving claim_approval_submission mark_approved
    claim_funding_top_up mark_approval_submitted mark_unknown
run now (claim_call request) db = commit db (claim now request db)
run now (funding_submitted_call key tx_hash options current) db =
    commit db (mark_funding_submitted now key tx_hash options current db)
run now (preflight_failed_call key error diagnostic) db =
    (mark_funding_preflight_failed now key error diagnostic db).1
run now (funded_call key) db = (mark_funded now key db).1
run now (recover_call key) db = (recover_funded_after_read_only_proof now key db).1
run now (approving_call key) db = (mark_approving now key db).1
run now (submission_call key) db = commit db (claim_approval_submission now key db)
run now (approved_call key) db = (mark_approved now key db).1
run now (top_up_call key attempt value) db =
    commit db (claim_funding_top_up now key attempt value db)
run now (approval_submitted_call key tx_hash) db =
    commit db (mark_approval_submitted now key tx_hash db)
run now (unknown_call key error options) db = commit db (mark_unknown now key error options db)

unfoldable pub run_all : List (ℕ × Call) → Database → Database
unfolding run
run_all [] db = db
run_all ((now, call) ∷ calls) db = run_all calls (run now call db)

commit-Stepped {ℓ} :
    {A : Type ℓ} (db : Database) (r : Result Error (A × Database))
    → Steps db r
    → Stepped db (commit db r)
commit-Stepped db (ok (a, db')) s = s
commit-Stepped db (err e) s = stay refl

claim-Steps :
    (now : ℕ) (request : ApprovalRequest) (db : Database) → Steps db (claim now request db)
unfolding claim find_approval
claim-Steps now request db = elim (Option-cases (find_approval request.operation_key db)) [
  | inl e ↦
      rw (e, claim_found)
        (add (new_approval now request) (unfold new_approval in λ h. absurd (not_sent h))
          (unfold new_approval in e) refl)
  | inr (r, e) ↦
      rw (e, claim_found)
        (Ensures-bind _
          (require (approval_intent_matches r request) approval_preparation_intent_mismatch) _
          (λ _ _. elim (Bool-cases (approval_reclaimable r)) [
            | inl again ↦ rw again (
                edit (failed_with_key request.operation_key) (restart_funding now none none)
                  (restart-Progress now request.operation_key) refl)
            | inr other ↦ rw other (stay refl)
          ]))
]
  where
    not_sent : false ≡ true → ⊥
    not_sent h = cc

claim_approval_submission-Steps :
    (now : ℕ) (key : Text) (db : Database) → Steps db (claim_approval_submission now key db)
unfolding claim_approval_submission
claim_approval_submission-Steps now key db =
    Ensures-bind _ (or_fail (find_approval key db) (approval_preparation_missing key)) _ λ r _.
      elim (Bool-cases (is_funded r.status)) [
        | inl funded ↦
            rw funded
              (edit (funded_with_key key) (set_approving now) (submission-Progress now key) refl)
        | inr other ↦ rw other (stay refl)
      ]

claim_funding_top_up-Steps :
    (now : ℕ) (key attempt : Text) (value : ℕ) (db : Database)
    → Steps db (claim_funding_top_up now key attempt value db)
unfolding claim_funding_top_up top_up
claim_funding_top_up-Steps now key attempt value db =
    Ensures-bind _ (or_fail (find_approval key db) (approval_preparation_missing key)) _ λ r _.
      elim (Bool-cases (is_funded r.status && not (is_some r.approval_tx_hash))) [
        | inl funded ↦ rw funded (
            Ensures-bind _ (prior_evidence key (truthy r.funding_tx_hash) db) _ (λ _ _.
              edit (awaits_approval key) (restart_funding now (some attempt) (some value))
                (top_up-Progress now key attempt value) refl))
        | inr other ↦ rw other (stay refl)
      ]

mark_unknown-Steps :
    (now : ℕ) (key error : Text) (options : UnknownOptions) (db : Database)
    → Steps db (mark_unknown now key error options db)
unfolding mark_unknown
mark_unknown-Steps now key error options db = elim (Option-cases (find_approval key db)) [
  | inl e ↦ rw (e, mark_unknown_found) (stay refl)
  | inr (r, e) ↦ elim (Bool-cases (stale_attempt options.funding_attempt_key r)) [
    | inl stale ↦ rw (e, mark_unknown_found) (rw stale (stay refl))
    | inr fresh ↦
        rw (e, mark_unknown_found)
          (rw fresh (
            Ensures-bind _ (optional_hash (truthy options.funding_tx_hash)) _
              (λ hash _. row r hash)))
  ]
]
  where
    row :
        (r : ApprovalPreparationRecord) (hash : Option Text)
        → Stepped db (mark_unknown_row now key error options r hash db).1
    row r hash = elim (Bool-cases (stale_hash hash (truthy r.funding_tx_hash))) [
      | inl stale ↦ unfold mark_unknown_row in rw stale (stay refl)
      | inr fresh ↦
          unfold mark_unknown_row in
          rw fresh (
            edit (with_status may_be_unknown key) (set_unknown now error hash options)
              (unknown-Progress now key error hash options) refl)
    ]

run-Stepped : (now : ℕ) (call : Call) (db : Database) → Stepped db (run now call db)
unfolding run mark_funding_submitted mark_funding_preflight_failed mark_funded
    recover_funded_after_read_only_proof mark_approving mark_approved mark_approval_submitted
run-Stepped now (claim_call request) db = commit-Stepped db _ (claim-Steps now request db)
run-Stepped now (funding_submitted_call key tx_hash options current) db = commit-Stepped db _ (
    Ensures-bind _ (require_canonical_transaction_hash tx_hash) _ (λ hash _.
      Ensures-bind _
        (require (funding_hash_agrees hash options.attempt_key current)
          approval_funding_tx_hash_mismatch)
        _
        (λ _ _.
          edit (with_status is_funding key) (set_funding_submitted now hash options)
            (submitted-Progress now key hash options) refl)))
run-Stepped now (preflight_failed_call key error diagnostic) db =
    edit (preflight_open key) (set_preflight_failed now error diagnostic)
      (preflight-Progress now key error diagnostic) refl
run-Stepped now (funded_call key) db =
    edit (with_status (λ s. is_funding s || is_funded s) key) (set_funded now)
      (funded-Progress now key) refl
run-Stepped now (recover_call key) db =
    edit (recoverable key) (set_funded now) (recover-Progress now key) refl
run-Stepped now (approving_call key) db =
    edit (with_status is_funded key) (set_approving now) (approving-Progress now key) refl
run-Stepped now (submission_call key) db =
    commit-Stepped db _ (claim_approval_submission-Steps now key db)
run-Stepped now (approved_call key) db =
    edit (with_status (λ s. is_approving s || is_approved s) key) (set_approved now)
      (approved-Progress now key) refl
run-Stepped now (top_up_call key attempt value) db =
    commit-Stepped db _ (claim_funding_top_up-Steps now key attempt value db)
run-Stepped now (approval_submitted_call key tx_hash) db = commit-Stepped db _ (
    Ensures-bind _ (require_canonical_transaction_hash tx_hash) _ (λ hash _.
      edit (with_status is_approving key) (set_approval_submitted now hash)
        (approval-Progress now key hash) refl))
run-Stepped now (unknown_call key error options) db =
    commit-Stepped db _ (mark_unknown-Steps now key error options db)

Step-PastFunding :
    (before after : List ApprovalPreparationRecord)
    → Step before after
    → All PastFunding before
    → All PastFunding after
Step-PastFunding before after (stay same) w = subst (All PastFunding) (sym same) w
Step-PastFunding before after (edit p f h same) w =
    subst (All PastFunding) (sym same)
      (All-update_where PastFunding p f before (λ r hit. (h r hit).keeps) w)
Step-PastFunding before after (add r sent new same) w = subst (All PastFunding) (sym same) (sent, w)

run_all-PastFunding :
    (calls : List (ℕ × Call)) (db : Database)
    → All PastFunding db.approval_preparations
    → All PastFunding (run_all calls db).approval_preparations
unfolding run_all
run_all-PastFunding [] db w = w
run_all-PastFunding ((now, call) ∷ calls) db w =
    run_all-PastFunding calls (run now call db)
      (Step-PastFunding db.approval_preparations _ (run-Stepped now call db) w)

approval_has_key-stable :
    (key : Text) (r s : ApprovalPreparationRecord)
    → Progress r s
    → approval_has_key key s ≡ approval_has_key key r
unfolding approval_has_key
approval_has_key-stable key r s c = ap (λ k. text_eq k key) c.same_key

abbrev Kept : Text → ApprovalPreparationRecord → List ApprovalPreparationRecord → Type 0
Kept key = Found Progress Progress-refl (approval_has_key key)

-- A key that finds a row is not the one of a row that is new.
other_key :
    (key : Text) (x : ApprovalPreparationRecord) (rows : List ApprovalPreparationRecord)
    {r : ApprovalPreparationRecord}
    → find_by (approval_has_key x.operation_key) rows ≡ none
    → find_by (approval_has_key key) rows ≡ some r
    → approval_has_key key x ≡ false
unfolding approval_has_key
other_key key x rows {r} new e = elim (Bool-cases (text_eq x.operation_key key)) [
  | inl same ↦ absurd (clash ((text_eq_iff x.operation_key key).0 same))
  | inr other ↦ other
]
  where
    clash : x.operation_key ≡ key → ⊥
    clash same = found (subst (λ k. find_by (approval_has_key k) rows ≡ none) same new)
      where
        found : find_by (approval_has_key key) rows ≡ none → ⊥
        found lost = cc

Step-Kept :
    (key : Text) (before after : List ApprovalPreparationRecord) (r : ApprovalPreparationRecord)
    → Step before after
    → find_by (approval_has_key key) before ≡ some r
    → Kept key r after
Step-Kept key before after r (stay same) e = (r, rw same e, Progress-refl r)
Step-Kept key before after r (edit p f h same) e = subst (Kept key r) (sym same) (
    Found-update Progress Progress-refl p f (approval_has_key key) (approval_has_key-stable key)
      before r (All-intro _ before h) e)
Step-Kept key before after r (add x sent new same) e =
    subst (Kept key r) (sym same) (r, rw (other_key key x before new e) e, Progress-refl r)

preparation-Kept :
    (calls : List (ℕ × Call)) (db : Database) (key : Text) (r : ApprovalPreparationRecord)
    → find_approval key db ≡ some r
    → Kept key r (run_all calls db).approval_preparations
unfolding run_all find_approval
preparation-Kept [] db key r e = (r, e, Progress-refl r)
preparation-Kept ((now, call) ∷ calls) db key r e =
    let (s, found, first) =
      Step-Kept key db.approval_preparations _ r (run-Stepped now call db) e in
    let (t, found', rest) = preparation-Kept calls (run now call db) key s found in
    (t, found', Progress-trans r s t first rest)

-- The preparation is past its funding and has a hash of its approval.
abbrev pub HasApproval : ApprovalPreparationRecord → Type 0
HasApproval s = (is_some s.approval_tx_hash ≡ true) × (after_funding s.status ≡ true)

-- Once the hash of a preparation's approval is saved, and if every preparation with such a hash is approving, approved or
-- unknown, then after any sequence of ApprovalPreparations calls the preparation is there under its key, has a hash of
-- its approval, and is approving, approved or unknown: it is never back in its funding.
pub run_all-HasApproval :
    (calls : List (ℕ × Call)) (db : Database) (key : Text) (r : ApprovalPreparationRecord)
    → All PastFunding db.approval_preparations
    → find_approval key db ≡ some r
    → is_some r.approval_tx_hash ≡ true
    → (s : ApprovalPreparationRecord) × (find_approval key (run_all calls db) ≡ some s)
      × HasApproval s
unfolding find_approval
run_all-HasApproval calls db key r w e h =
    let (s, found, c) = preparation-Kept calls db key r e in
    let (past, _) =
      find_by-All PastFunding (approval_has_key key) _ (run_all-PastFunding calls db w) found in
    (s, found, (c.keeps_hash h, past (c.keeps_hash h)))

not_funded :
    (s : ApprovalPreparationRecord) → after_funding s.status ≡ true → is_funded s.status ≡ false
not_funded s h = ground arith

-- Once the hash of a preparation's approval is saved, and if every preparation with such a hash is approving, approved or
-- unknown, then after any sequence of ApprovalPreparations calls a claim to submit its approval returns, acquires
-- nothing and changes nothing.
pub approval_submission_once :
    (calls : List (ℕ × Call)) (db : Database) (key : Text) (r : ApprovalPreparationRecord) (now : ℕ)
    → All PastFunding db.approval_preparations
    → find_approval key db ≡ some r
    → is_some r.approval_tx_hash ≡ true
    → (s : ApprovalPreparationRecord) × (claim_approval_submission now key (run_all calls db)
        ≡ ok (record { preparation = s; acquired = false }, run_all calls db))
unfolding claim_approval_submission
approval_submission_once calls db key r now w e h =
    let (s, found, (_, past)) = run_all-HasApproval calls db key r w e h in
    (s, rw (found, not_funded s past) refl)
