-- ===== src/Operations/History.antt =====
-- Any sequence of calls of TokenOperations, from any number of processes: each call is one
-- transaction on the rows it locks, so that the calls take effect one after the other.
use ev_web3_award_system.Prelude.{
  ℕ, ◌≡◌, refl, inl, inr, true, false, not, List, [], ◌∷◌, Option, some, is_some, Result, ok, err,
  arith, ◌∙◌, Ensures, Ensures-bind, Ensures-ok, or_fail,
}
use ev_web3_award_system.Text.{Text}
use ev_web3_award_system.Amount.{canonical_token_amount, text}
use ev_web3_award_system.Store.{
  Database, TokenOperationRecord, TokenMovementOutcome, TransactionDiagnostic, Error,
  unsupported_token_precision,
}
use ev_web3_award_system.Operations.Rows.{is_award, find_by_key}
use ev_web3_award_system.Operations.Claim.{
  ClaimRequest, TokenOperationClaim, existing, assert_operation_intent, is_reclaimable,
  claim_existing, claim_key, claim,
}
use ev_web3_award_system.Operations.Marks.{
  mark_submitted, submitted_before, mark_unknown, mark_confirmed, mark_projection_error,
  mark_projected, mark_failed, mark_preflight_failed,
}
use ev_web3_award_system.Operations.Ledger.{Allowed, Allowed-refl, Allowed-trans, stay}
use ev_web3_award_system.Operations.Steps.{
  Stepped, Steps, mark_submitted-Steps, submitted_before-Steps, mark_unknown-Stepped,
  mark_confirmed-Stepped, mark_projection_error-Stepped, mark_projected-Stepped,
  mark_failed-Stepped, mark_preflight_failed-Stepped,
}
use ev_web3_award_system.Operations.ClaimSteps.{claim-Steps}
use ev_web3_award_system.Operations.Unique.{WellKeyed, Step-WellKeyed, Step-Kept}

pub data Call : Type 0 where
  claim_call : ClaimRequest → Call
  submitted_call : (key tx_hash : Text) → Call
  -- The second UPDATE of markSubmitted, by a row that was read before other calls came between.
  resubmitted_call : (key tx_hash : Text) → TokenOperationRecord → Call
  unknown_call : (key error : Text) → Option (Option TransactionDiagnostic) → Call
  confirmed_call : (key : Text) → Option Text → Call
  projection_error_call : (key error : Text) → Call
  projected_call : (key : Text) → Call
  failed_call :
      (key error : Text) → TokenMovementOutcome → Option (Option TransactionDiagnostic) → Call
  preflight_failed_call : (key error : Text) → Option (Option TransactionDiagnostic) → Call

-- A transaction that throws is rolled back.
abbrev pub commit {ℓ} : {A : Type ℓ} → Database → Result Error (A × Database) → Database
commit db (ok (_, db')) = db'
commit db (err _) = db

unfoldable pub run : ℕ → Call → Database → Database
unfolding claim mark_submitted submitted_before mark_unknown mark_confirmed mark_projection_error
    mark_projected mark_failed mark_preflight_failed
run now (claim_call request) db = commit db (claim now request db)
run now (submitted_call key tx_hash) db = commit db (mark_submitted now key tx_hash db)
run now (resubmitted_call key hash current) db =
    commit db (submitted_before now key hash current db)
run now (unknown_call key error diagnostic) db = (mark_unknown now key error diagnostic db).1
run now (confirmed_call key error) db = (mark_confirmed now key error db).1
run now (projection_error_call key error) db = (mark_projection_error now key error db).1
run now (projected_call key) db = (mark_projected now key db).1
run now (failed_call key error outcome diagnostic) db =
    (mark_failed now key error outcome diagnostic db).1
run now (preflight_failed_call key error diagnostic) db =
    (mark_preflight_failed now key error diagnostic db).1

-- The calls with their times.
unfoldable pub run_all : List (ℕ × Call) → Database → Database
unfolding run
run_all [] db = db
run_all ((now, call) ∷ calls) db = run_all calls (run now call db)

commit-Stepped {ℓ} :
    {A : Type ℓ} (db : Database) (r : Result Error (A × Database))
    → Steps db r
    → Stepped db (commit db r)
commit-Stepped db (ok (a, db')) s = s
commit-Stepped db (err e) s = stay refl

run-Stepped :
    (now : ℕ) (call : Call) (db : Database)
    → WellKeyed db.token_operations
    → Stepped db (run now call db)
unfolding run
run-Stepped now (claim_call request) db w =
    commit-Stepped db (claim now request db) (claim-Steps now request db w.keys)
run-Stepped now (submitted_call key tx_hash) db w =
    commit-Stepped db (mark_submitted now key tx_hash db) (mark_submitted-Steps now key tx_hash db)
run-Stepped now (resubmitted_call key hash current) db w =
    commit-Stepped db (submitted_before now key hash current db)
      (submitted_before-Steps now key hash current db)
run-Stepped now (unknown_call key error diagnostic) db w =
    mark_unknown-Stepped now key error diagnostic db
run-Stepped now (confirmed_call key error) db w = mark_confirmed-Stepped now key error db
run-Stepped now (projection_error_call key error) db w =
    mark_projection_error-Stepped now key error db
run-Stepped now (projected_call key) db w = mark_projected-Stepped now key db
run-Stepped now (failed_call key error outcome diagnostic) db w =
    mark_failed-Stepped now key error outcome diagnostic db
run-Stepped now (preflight_failed_call key error diagnostic) db w =
    mark_preflight_failed-Stepped now key error diagnostic db

-- After any sequence of TokenOperations calls, from a table whose rows are well keyed, no two operations have one
-- key, no two awards one charging session of a provider, and no two awards one legacy key.
pub run_all-WellKeyed :
    (calls : List (ℕ × Call)) (db : Database)
    → WellKeyed db.token_operations
    → WellKeyed (run_all calls db).token_operations
unfolding run_all
run_all-WellKeyed [] db w = w
run_all-WellKeyed ((now, call) ∷ calls) db w =
    run_all-WellKeyed calls (run now call db)
      (Step-WellKeyed db.token_operations _ (run-Stepped now call db w) w)

-- After any sequence of TokenOperations calls, an operation that was in a well-keyed table is still there under its
-- key: what its claim fixed is unchanged, a hash that it had is unchanged, and if it had a hash, it is
-- failed if it was, confirmed or projected if it was one of these, and projected if it was.
pub run_all-Kept :
    (calls : List (ℕ × Call)) (db : Database) (key : Text) (r : TokenOperationRecord)
    → WellKeyed db.token_operations
    → find_by_key key db ≡ some r
    → (s : TokenOperationRecord) × (find_by_key key (run_all calls db) ≡ some s) × Allowed r s
unfolding run_all find_by_key
run_all-Kept [] db key r w e = (r, e, Allowed-refl r)
run_all-Kept ((now, call) ∷ calls) db key r w e =
    let step = run-Stepped now call db w in
    let (s, found, first) = Step-Kept key db.token_operations _ r step e in
    let (t, found', rest) =
      run_all-Kept calls (run now call db) key s (Step-WellKeyed db.token_operations _ step w)
        found in
    (t, found', Allowed-trans r s t first rest)

hashed-not_reclaimable :
    (r : TokenOperationRecord) → is_some r.tx_hash ≡ true → is_reclaimable r ≡ false
unfolding is_reclaimable
hashed-not_reclaimable r h = ground arith

-- A claim of an operation that has a hash acquires nothing and changes nothing.
abbrev Answers : TokenOperationRecord → Database → TokenOperationClaim × Database → Type 0
Answers s db q = q ≡ (existing s, db)

claim_hashed :
    (now : ℕ) (request : ClaimRequest) (db : Database) (s : TokenOperationRecord)
    → find_by_key request.operation_key db ≡ some s
    → is_some s.tx_hash ≡ true
    → Ensures (Answers s db) (claim now request db)
unfolding claim claim_existing
claim_hashed now request db s e h =
    Ensures-bind _
      (or_fail (canonical_token_amount (text request.amount)) unsupported_token_precision) _
      λ amount _.
        rw (e, claim_key)
          (Ensures-bind _
            (assert_operation_intent s request amount.units (not (is_award request.operation_type)))
            _ λ _ _. rw (hashed-not_reclaimable s h) refl)

-- Once an operation of a well-keyed table has a transaction hash, then after any sequence of TokenOperations calls a
-- claim of its key that returns acquires nothing: it returns the existing row, which still has that
-- hash, and leaves the database as it is.
pub saved_hash_never_reacquired :
    (calls : List (ℕ × Call)) (db : Database) (r : TokenOperationRecord) (hash : Text) (now : ℕ)
    (request : ClaimRequest) (result : TokenOperationClaim × Database)
    → WellKeyed db.token_operations
    → find_by_key request.operation_key db ≡ some r
    → r.tx_hash ≡ some hash
    → claim now request (run_all calls db) ≡ ok result
    → (s : TokenOperationRecord) × (s.tx_hash ≡ some hash)
      × (result ≡ (existing s, run_all calls db))
saved_hash_never_reacquired calls db r hash now request result w e h c =
    let (s, found, a) = run_all-Kept calls db request.operation_key r w e in
    let kept : s.tx_hash ≡ some hash = elim a.hash_kept [
      | inl lost ↦ absurd (cc)
      | inr same ↦ same ∙ h
    ] in
    (
      s,
      kept,
      Ensures-ok (Answers s (run_all calls db)) (claim now request (run_all calls db))
          (claim_hashed now request (run_all calls db) s found (rw kept refl)) c,
    )
