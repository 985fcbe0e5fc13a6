-- ===== src/Operations/Steps.antt =====
-- The operations of TokenOperations as steps of the abstract ledger.
use ev_web3_award_system.Prelude.{
  ℕ, ◌≡◌, refl, inl, inr, Bool, true, ◌&&◌, not, Option, is_some, Result, find_by, All-intro, arith,
  Option-cases, Ensures, Ensures-bind, require, Bool-cases, ◌==◌,
}
use ev_web3_award_system.Text.{Text, text_eq, to_lower}
use ev_web3_award_system.Store.{
  Database, TokenOperationRecord, TokenMovementOutcome, TransactionDiagnostic, Error,
  unique_violation,
}
use ev_web3_award_system.Operations.Rows.{is_failed, find_by_key, hash_free}
use ev_web3_award_system.Operations.Hash.{require_canonical_transaction_hash}
use ev_web3_award_system.Operations.Marks.{
  marked, set_submitted, resubmit, without_hash_in_flight, with_hash_in_flight, submitted_before,
  no_row_submitted, save_hash, mark_submitted, key_in_flight, set_unknown, mark_unknown,
  hashed_before_projection, set_confirmed, mark_confirmed, set_projection_error,
  mark_projection_error, projectable, set_projected, outcome_of, project_row, mark_projected,
  hashed_in_flight, set_failed, mark_failed, hashless, mark_preflight_failed,
}
use ev_web3_award_system.Operations.Ledger.{Allowed, Step, stay, edit}

abbrev pub Stepped : Database → Database → Type 0
Stepped db db' = Step db.token_operations db'.token_operations

-- One lemma for each UPDATE.
set_submitted-Allowed :
    (now : ℕ) (key hash : Text) (r : TokenOperationRecord)
    → without_hash_in_flight key r ≡ true
    → Allowed r (set_submitted now hash r)
unfolding without_hash_in_flight set_submitted
set_submitted-Allowed now key hash r h = ground arith

resubmit-Allowed :
    (now : ℕ) (key hash : Text) (r : TokenOperationRecord)
    → with_hash_in_flight key hash r ≡ true
    → Allowed r (resubmit now r)
unfolding with_hash_in_flight resubmit
resubmit-Allowed now key hash r h = ground arith

set_unknown-Allowed :
    (now : ℕ) (key error : Text) (diagnostic : Option (Option TransactionDiagnostic))
    (r : TokenOperationRecord)
    → key_in_flight key r ≡ true
    → Allowed r (set_unknown now error diagnostic r)
unfolding key_in_flight set_unknown
set_unknown-Allowed now key error diagnostic r h = ground arith

set_confirmed-Allowed :
    (now : ℕ) (key : Text) (error : Option Text) (r : TokenOperationRecord)
    → hashed_before_projection key r ≡ true
    → Allowed r (set_confirmed now error r)
unfolding hashed_before_projection set_confirmed
set_confirmed-Allowed now key error r h = ground arith

set_projection_error-Allowed :
    (now : ℕ) (key error : Text) (r : TokenOperationRecord)
    → hashed_before_projection key r ≡ true
    → Allowed r (set_projection_error now error r)
unfolding hashed_before_projection set_projection_error
set_projection_error-Allowed now key error r h = ground arith

set_projected-Allowed :
    (now : ℕ) (key : Text) (outcome : TokenMovementOutcome) (r : TokenOperationRecord)
    → projectable key r ≡ true
    → Allowed r (set_projected now outcome r)
unfolding projectable set_projected
set_projected-Allowed now key outcome r h = ground arith

mark_failed-Allowed :
    (now : ℕ) (key error : Text) (outcome : TokenMovementOutcome)
    (diagnostic : Option (Option TransactionDiagnostic)) (r : TokenOperationRecord)
    → hashed_in_flight key r ≡ true
    → Allowed r (set_failed now error outcome diagnostic r)
unfolding hashed_in_flight set_failed
mark_failed-Allowed now key error outcome diagnostic r h = ground arith

mark_preflight_failed-Allowed :
    (now : ℕ) (key error : Text) (outcome : TokenMovementOutcome)
    (diagnostic : Option (Option TransactionDiagnostic)) (r : TokenOperationRecord)
    → hashless key r ≡ true
    → Allowed r (set_failed now error outcome diagnostic r)
unfolding hashless set_failed
mark_preflight_failed-Allowed now key error outcome diagnostic r h = ground arith

-- An UPDATE all of whose changes are allowed is a step.
marked-Stepped :
    (p : TokenOperationRecord → Bool) (f : TokenOperationRecord → TokenOperationRecord) (key : Text)
    (db : Database)
    → ((r : TokenOperationRecord) → p r ≡ true → Allowed r (f r))
    → Stepped db (marked p f key db).1
marked-Stepped p f key db h = edit p f (All-intro _ db.token_operations h) refl

pub mark_unknown-Stepped :
    (now : ℕ) (key error : Text) (diagnostic : Option (Option TransactionDiagnostic))
    (db : Database)
    → Stepped db (mark_unknown now key error diagnostic db).1
unfolding mark_unknown
mark_unknown-Stepped now key error diagnostic db =
    marked-Stepped (key_in_flight key) (set_unknown now error diagnostic) key db
      (set_unknown-Allowed now key error diagnostic)

pub mark_confirmed-Stepped :
    (now : ℕ) (key : Text) (error : Option Text) (db : Database)
    → Stepped db (mark_confirmed now key error db).1
unfolding mark_confirmed
mark_confirmed-Stepped now key error db =
    marked-Stepped (hashed_before_projection key) (set_confirmed now error) key db
      (set_confirmed-Allowed now key error)

pub mark_projection_error-Stepped :
    (now : ℕ) (key error : Text) (db : Database)
    → Stepped db (mark_projection_error now key error db).1
unfolding mark_projection_error
mark_projection_error-Stepped now key error db =
    marked-Stepped (hashed_before_projection key) (set_projection_error now error) key db
      (set_projection_error-Allowed now key error)

pub mark_failed-Stepped :
    (now : ℕ) (key error : Text) (outcome : TokenMovementOutcome)
    (diagnostic : Option (Option TransactionDiagnostic)) (db : Database)
    → Stepped db (mark_failed now key error outcome diagnostic db).1
unfolding mark_failed
mark_failed-Stepped now key error outcome diagnostic db =
    marked-Stepped (hashed_in_flight key) (set_failed now error outcome diagnostic) key db
      (mark_failed-Allowed now key error outcome diagnostic)

pub mark_preflight_failed-Stepped :
    (now : ℕ) (key error : Text) (diagnostic : Option (Option TransactionDiagnostic))
    (db : Database)
    → Stepped db (mark_preflight_failed now key error diagnostic db).1
unfolding mark_preflight_failed
mark_preflight_failed-Stepped now key error diagnostic db =
    marked-Stepped (hashless key) _ key db
      (mark_preflight_failed-Allowed now key _ TokenMovementOutcome.no_movement diagnostic)

project_row-Stepped :
    (now : ℕ) (key : Text) (current : TokenOperationRecord) (db : Database)
    → Stepped db (project_row now key current db).1
unfolding project_row
project_row-Stepped now key current db = elim (Bool-cases (is_failed current.status)) [
  | inl e ↦ rw e (stay refl)
  | inr e ↦ elim (Bool-cases (not (is_some current.tx_hash) && not (current.amount == 0))) [
    | inl k ↦ rw (e, k) (stay refl)
    | inr k ↦
        rw (e, k)
          (marked-Stepped (projectable key) (set_projected now (outcome_of current.amount)) key db
            (set_projected-Allowed now key (outcome_of current.amount)))
  ]
]

pub mark_projected-Stepped :
    (now : ℕ) (key : Text) (db : Database) → Stepped db (mark_projected now key db).1
unfolding mark_projected
mark_projected-Stepped now key db = elim (Option-cases (find_by_key key db)) [
  | inl e ↦ rw (e, mark_projected) (stay refl)
  | inr (current, e) ↦ rw (e, mark_projected) (project_row-Stepped now key current db)
]

-- Whatever a fallible operation returns with, the table has made a step. (A failure rolls back.)
abbrev pub Steps {ℓ} : {A : Type ℓ} → Database → Result Error (A × Database) → Type 0
Steps db = Ensures (λ q. Stepped db q.1)

pub submitted_before-Steps :
    (now : ℕ) (key hash : Text) (current : TokenOperationRecord) (db : Database)
    → Steps db (submitted_before now key hash current db)
unfolding submitted_before
submitted_before-Steps now key hash current db = elim (Option-cases current.tx_hash) [
  | inl e ↦ rw (e, submitted_before) (stay refl)
  | inr (saved, e) ↦ elim (Bool-cases (text_eq (to_lower saved) hash)) [
    | inl same ↦
        rw (e, submitted_before)
          (rw same (
            marked-Stepped (with_hash_in_flight key hash) (resubmit now) key db
              (resubmit-Allowed now key hash)))
    | inr other ↦ rw (e, submitted_before) (rw other tt)
  ]
]

no_row_submitted-Steps :
    (now : ℕ) (key hash : Text) (db : Database) → Steps db (no_row_submitted now key hash db)
unfolding no_row_submitted
no_row_submitted-Steps now key hash db = elim (Option-cases (find_by_key key db)) [
  | inl e ↦ rw (e, no_row_submitted) tt
  | inr (current, e) ↦ rw (e, no_row_submitted) (submitted_before-Steps now key hash current db)
]

save_hash-Steps : (now : ℕ) (key hash : Text) (db : Database) → Steps db (save_hash now key hash db)
unfolding save_hash
save_hash-Steps now key hash db =
    elim (Option-cases (find_by (without_hash_in_flight key) db.token_operations)) [
      | inl e ↦ rw (e, save_hash) (no_row_submitted-Steps now key hash db)
      | inr (r, e) ↦
          rw (e, save_hash)
            (Ensures-bind _ (require (hash_free key hash db.token_operations) unique_violation) _
              (λ _ _.
                marked-Stepped (without_hash_in_flight key) (set_submitted now hash) key db
                  (set_submitted-Allowed now key hash)))
    ]

pub mark_submitted-Steps :
    (now : ℕ) (key tx_hash : Text) (db : Database) → Steps db (mark_submitted now key tx_hash db)
unfolding mark_submitted
mark_submitted-Steps now key tx_hash db =
    Ensures-bind _ (require_canonical_transaction_hash tx_hash) _
      (λ hash _. save_hash-Steps now key hash db)
