-- ===== src/Operations/Marks.antt =====
-- The state changes of a claimed operation; `now` is the database clock. Each function is one atomic
-- step. In the source the parts of markSubmitted are statements of their own; Operations/History
-- also runs the last one, submitted_before, apart, by a row that was read at any earlier time.
use ev_web3_award_system.Prelude.{
  ℕ, Bool, ◌&&◌, ◌||◌, not, ◌++◌, Option, none, some, Result, ok, err, ◌>>=◌, ◌>>◌, require,
  is_some, find_by, if◌then◌else◌, take, ◌==◌,
}
use ev_web3_award_system.Text.{Text, codes, text_eq, to_lower, same_lower}
use ev_web3_award_system.Store.{
  Database, TokenOperationRecord, TokenOperationStatus, TokenMovementOutcome, TransactionDiagnostic,
  Error, unique_violation, token_operation_missing, token_operation_tx_hash_mismatch,
}
use ev_web3_award_system.Operations.Hash.{require_canonical_transaction_hash}
use ev_web3_award_system.Operations.Rows.{
  in_flight, before_projection, is_failed, has_key, find_by_key, update_operations, hash_free,
  nullable_same_lower, truthy,
}

-- `update(...).returning('*')`, or else the row as it is.
abbrev pub marked :
    (TokenOperationRecord → Bool)
    → (TokenOperationRecord → TokenOperationRecord)
    → Text
    → Database
    → Option TokenOperationRecord × Database
marked p f key db =
    let db' = update_operations p f db in (find_by (has_key key) db'.token_operations, db')

unfoldable pub set_submitted : ℕ → Text → TokenOperationRecord → TokenOperationRecord
set_submitted now hash r = record r {
  tx_hash = some hash;
  status = TokenOperationStatus.submitted;
  submitted_at = some now;
  diagnostic_context = none;
  error_message = none;
  updated_at = now;
}

-- The second UPDATE of markSubmitted keeps the stored spelling of the hash.
unfoldable pub resubmit : ℕ → TokenOperationRecord → TokenOperationRecord
resubmit now r = record r {
  status = TokenOperationStatus.submitted;
  submitted_at = some now;
  diagnostic_context = none;
  error_message = none;
  updated_at = now;
}

unfoldable pub without_hash_in_flight : Text → TokenOperationRecord → Bool
unfolding has_key
without_hash_in_flight key r = has_key key r && not (is_some r.tx_hash) && in_flight r.status

unfoldable pub with_hash_in_flight : Text → Text → TokenOperationRecord → Bool
unfolding has_key same_lower
with_hash_in_flight key hash r =
    has_key key r && nullable_same_lower hash r.tx_hash && in_flight r.status

-- No row took the hash: an earlier call saved it, or saved another.
unfoldable pub submitted_before :
    ℕ
    → Text
    → Text
    → TokenOperationRecord
    → Database
    → Result Error (Option TokenOperationRecord × Database)
unfolding with_hash_in_flight resubmit same_lower
submitted_before now key hash current db = elim current.tx_hash [
  | none ↦ ok (some current, db)
  | some saved ↦
      if text_eq (to_lower saved) hash
      then ok (marked (with_hash_in_flight key hash) (resubmit now) key db)
      else err token_operation_tx_hash_mismatch
]

unfoldable pub no_row_submitted :
    ℕ → Text → Text → Database → Result Error (Option TokenOperationRecord × Database)
unfolding submitted_before find_by_key
no_row_submitted now key hash db = elim (find_by_key key db) [
  | none ↦ err (token_operation_missing key)
  | some current ↦ submitted_before now key hash current db
]

unfoldable pub save_hash :
    ℕ → Text → Text → Database → Result Error (Option TokenOperationRecord × Database)
unfolding without_hash_in_flight set_submitted no_row_submitted hash_free
save_hash now key hash db = elim (find_by (without_hash_in_flight key) db.token_operations) [
  | none ↦ no_row_submitted now key hash db
  | some _ ↦
      require (hash_free key hash db.token_operations) unique_violation
      >> ok (marked (without_hash_in_flight key) (set_submitted now hash) key db)
]

unfoldable pub mark_submitted :
    ℕ → Text → Text → Database → Result Error (Option TokenOperationRecord × Database)
unfolding save_hash require_canonical_transaction_hash
mark_submitted now key tx_hash db = do
  hash ← require_canonical_transaction_hash tx_hash
  save_hash now key hash db

-- `...(diagnostic === undefined ? {} : { diagnostic_context: diagnostic })`: nothing given keeps the
-- column, `some none` is an explicit null.
abbrev pub keep_or {ℓ} : {A : Type ℓ} → Option A → A → A
keep_or none old = old
keep_or (some new) old = new

unfoldable pub key_in_flight : Text → TokenOperationRecord → Bool
unfolding has_key
key_in_flight key r = has_key key r && in_flight r.status

unfoldable pub set_unknown :
    ℕ → Text → Option (Option TransactionDiagnostic) → TokenOperationRecord → TokenOperationRecord
set_unknown now error diagnostic r = record r {
  status = TokenOperationStatus.unknown;
  error_message = some (take 500 error);
  diagnostic_context = keep_or diagnostic r.diagnostic_context;
  updated_at = now;
}

unfoldable pub mark_unknown :
    ℕ
    → Text
    → Text
    → Option (Option TransactionDiagnostic)
    → Database
    → Option TokenOperationRecord × Database
unfolding key_in_flight set_unknown
mark_unknown now key error diagnostic =
    marked (key_in_flight key) (set_unknown now error diagnostic) key

unfoldable pub hashed_before_projection : Text → TokenOperationRecord → Bool
unfolding has_key
hashed_before_projection key r = has_key key r && is_some r.tx_hash && before_projection r.status

unfoldable pub set_confirmed : ℕ → Option Text → TokenOperationRecord → TokenOperationRecord
set_confirmed now error r = record r {
  status = TokenOperationStatus.confirmed;
  movement_outcome = some TokenMovementOutcome.confirmed;
  error_message = truthy error;
  confirmed_at = some now;
  updated_at = now;
}

unfoldable pub mark_confirmed :
    ℕ → Text → Option Text → Database → Option TokenOperationRecord × Database
unfolding hashed_before_projection set_confirmed
mark_confirmed now key error = marked (hashed_before_projection key) (set_confirmed now error) key

unfoldable pub set_projection_error : ℕ → Text → TokenOperationRecord → TokenOperationRecord
set_projection_error now error r = record r {
  status = TokenOperationStatus.confirmed;
  error_message = some error;
  updated_at = now;
}

unfoldable pub mark_projection_error :
    ℕ → Text → Text → Database → Option TokenOperationRecord × Database
unfolding hashed_before_projection set_projection_error
mark_projection_error now key error =
    marked (hashed_before_projection key) (set_projection_error now error) key

unfoldable pub projectable : Text → TokenOperationRecord → Bool
unfolding has_key
projectable key r =
    has_key key r && not (is_failed r.status) && (is_some r.tx_hash || r.amount == 0)

unfoldable pub set_projected :
    ℕ → TokenMovementOutcome → TokenOperationRecord → TokenOperationRecord
set_projected now outcome r = record r {
  status = TokenOperationStatus.projected;
  movement_outcome = some outcome;
  error_message = none;
  projected_at = some now;
  updated_at = now;
}

abbrev pub outcome_of : ℕ → TokenMovementOutcome
outcome_of amount =
    if amount == 0 then TokenMovementOutcome.no_movement else TokenMovementOutcome.confirmed

-- The early returns of markProjected: no such row, a failed one, an amount that never got a hash.
unfoldable pub project_row :
    ℕ → Text → TokenOperationRecord → Database → Option TokenOperationRecord × Database
unfolding projectable set_projected
project_row now key current db =
    if is_failed current.status
    then (some current, db)
    else if not (is_some current.tx_hash) && not (current.amount == 0)
    then (some current, db)
    else marked (projectable key) (set_projected now (outcome_of current.amount)) key db

unfoldable pub mark_projected : ℕ → Text → Database → Option TokenOperationRecord × Database
unfolding project_row find_by_key
mark_projected now key db = elim (find_by_key key db) [
  | none ↦ (none, db)
  | some current ↦ project_row now key current db
]

unfoldable pub hashed_in_flight : Text → TokenOperationRecord → Bool
unfolding has_key
hashed_in_flight key r = has_key key r && is_some r.tx_hash && in_flight r.status

unfoldable pub set_failed :
    ℕ
    → Text
    → TokenMovementOutcome
    → Option (Option TransactionDiagnostic)
    → TokenOperationRecord
    → TokenOperationRecord
set_failed now error outcome diagnostic r = record r {
  status = TokenOperationStatus.failed;
  movement_outcome = some outcome;
  error_message = some error;
  diagnostic_context = keep_or diagnostic r.diagnostic_context;
  updated_at = now;
}

unfoldable pub mark_failed :
    ℕ
    → Text
    → Text
    → TokenMovementOutcome
    → Option (Option TransactionDiagnostic)
    → Database
    → Option TokenOperationRecord × Database
unfolding hashed_in_flight set_failed
mark_failed now key error outcome diagnostic =
    marked (hashed_in_flight key) (set_failed now error outcome diagnostic) key

unfoldable pub hashless : Text → TokenOperationRecord → Bool
unfolding has_key
hashless key r = has_key key r && not (is_some r.tx_hash)

unfoldable pub mark_preflight_failed :
    ℕ
    → Text
    → Text
    → Option (Option TransactionDiagnostic)
    → Database
    → Option TokenOperationRecord × Database
unfolding hashless set_failed
mark_preflight_failed now key error diagnostic =
    marked (hashless key)
      (set_failed now (codes "PREFLIGHT:" ++ error) TokenMovementOutcome.no_movement diagnostic) key
