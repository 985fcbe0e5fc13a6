-- ===== src/Approvals/Marks.antt =====
-- The state changes of an approval preparation that has been claimed.
use ev_web3_award_system.Prelude.{
  ℕ, Bool, true, false, ◌&&◌, ◌||◌, not, Option, none, some, Result, ok, ◌>>=◌, ◌>>◌, require,
  is_some, or_else, if◌then◌else◌, take,
}
use ev_web3_award_system.Text.{Text, nullable_eq, same_lower}
use ev_web3_award_system.Store.{
  Database, ApprovalPreparationRecord, ApprovalPreparationStatus, PreparedTransactionContext,
  TransactionDiagnostic, Error, approval_funding_tx_hash_mismatch,
}
use ev_web3_award_system.Operations.Hash.{require_canonical_transaction_hash}
use ev_web3_award_system.Operations.Rows.{truthy, nullable_same_lower}
use ev_web3_award_system.Operations.Marks.{keep_or}
use ev_web3_award_system.Reservations.{optional_hash}
use ev_web3_award_system.Treasury.Prepare.{approval_has_key, update_approvals}
use ev_web3_award_system.Approvals.{find_approval, set_approving, approval_failed, is_funded}

-- `update(...).returning('*')`, or else the row as it is.
abbrev pub marked :
    (ApprovalPreparationRecord → Bool)
    → (ApprovalPreparationRecord → ApprovalPreparationRecord)
    → Text
    → Database
    → Option ApprovalPreparationRecord × Database
marked p f key db = let db' = update_approvals p f db in (find_approval key db', db')

-- The rows of a key whose status is in a list.
unfoldable pub with_status :
    (ApprovalPreparationStatus → Bool) → Text → ApprovalPreparationRecord → Bool
unfolding approval_has_key
with_status statuses key r = approval_has_key key r && statuses r.status

abbrev pub is_funding : ApprovalPreparationStatus → Bool
is_funding ApprovalPreparationStatus.funding = true
is_funding _ = false

abbrev pub is_approving : ApprovalPreparationStatus → Bool
is_approving ApprovalPreparationStatus.approving = true
is_approving _ = false

abbrev pub is_unknown : ApprovalPreparationStatus → Bool
is_unknown ApprovalPreparationStatus.unknown = true
is_unknown _ = false

abbrev pub is_approved : ApprovalPreparationStatus → Bool
is_approved ApprovalPreparationStatus.approved = true
is_approved _ = false

-- The optional data of markFundingSubmitted; nothing given keeps the column.
pub record FundingOptions : Type 0 where
  pub nonce : Option ℕ
  pub context : Option PreparedTransactionContext
  pub diagnostic : Option (Option TransactionDiagnostic)
  pub attempt_key : Option Text

unfoldable pub set_funding_submitted :
    ℕ → Text → FundingOptions → ApprovalPreparationRecord → ApprovalPreparationRecord
set_funding_submitted now hash options r = record r {
  funding_tx_hash = some hash;
  funding_tx_nonce = or_else options.nonce r.funding_tx_nonce;
  funding_tx_context = or_else options.context r.funding_tx_context;
  funding_attempt_key = or_else options.attempt_key r.funding_attempt_key;
  diagnostic_context = keep_or options.diagnostic r.diagnostic_context;
  status = ApprovalPreparationStatus.funding;
  error_message = none;
  updated_at = now;
}

-- No hash yet, the same one, or the caller's own attempt. (A null attempt key is never the
-- `undefined` of an option that is left out.)
unfoldable pub funding_hash_agrees : Text → Option Text → Option ApprovalPreparationRecord → Bool
unfolding nullable_eq same_lower
funding_hash_agrees hash attempt none = true
funding_hash_agrees hash attempt (some r) =
    not (is_some (truthy r.funding_tx_hash))
    || nullable_same_lower hash r.funding_tx_hash
    || is_some attempt && nullable_eq r.funding_attempt_key attempt

-- `current` is the row that findByKey read before, outside of a transaction; other calls may have
-- changed it since.
unfoldable pub mark_funding_submitted :
    ℕ
    → Text
    → Text
    → FundingOptions
    → Option ApprovalPreparationRecord
    → Database
    → Result Error (Option ApprovalPreparationRecord × Database)
unfolding funding_hash_agrees set_funding_submitted with_status find_approval
mark_funding_submitted now key tx_hash options current db = do
  hash ← require_canonical_transaction_hash tx_hash
  require (funding_hash_agrees hash options.attempt_key current) approval_funding_tx_hash_mismatch
  ok (marked (with_status is_funding key) (set_funding_submitted now hash options) key db)

unfoldable pub preflight_open : Text → ApprovalPreparationRecord → Bool
unfolding approval_has_key
preflight_open key r =
    approval_has_key key r
    && not (is_some r.funding_tx_hash)
    && (is_funding r.status || approval_failed r.status)

unfoldable pub set_preflight_failed :
    ℕ
    → Text
    → Option (Option TransactionDiagnostic)
    → ApprovalPreparationRecord
    → ApprovalPreparationRecord
set_preflight_failed now error diagnostic r = record r {
  status = ApprovalPreparationStatus.failed;
  error_message = some (take 500 error);
  funding_attempt_key = none;
  funding_attempt_value = none;
  diagnostic_context = keep_or diagnostic r.diagnostic_context;
  updated_at = now;
}

unfoldable pub mark_funding_preflight_failed :
    ℕ
    → Text
    → Text
    → Option (Option TransactionDiagnostic)
    → Database
    → Option ApprovalPreparationRecord × Database
unfolding preflight_open set_preflight_failed find_approval
mark_funding_preflight_failed now key error diagnostic =
    marked (preflight_open key) (set_preflight_failed now error diagnostic) key

unfoldable pub set_funded : ℕ → ApprovalPreparationRecord → ApprovalPreparationRecord
set_funded now r = record r {
  status = ApprovalPreparationStatus.funded;
  funding_attempt_key = none;
  funding_attempt_value = none;
  error_message = none;
  updated_at = now;
}

unfoldable pub mark_funded : ℕ → Text → Database → Option ApprovalPreparationRecord × Database
unfolding with_status set_funded find_approval
mark_funded now key =
    marked (with_status (λ s. is_funding s || is_funded s) key) (set_funded now) key

unfoldable pub recoverable : Text → ApprovalPreparationRecord → Bool
unfolding approval_has_key
recoverable key r =
    approval_has_key key r
    && is_unknown r.status
    && is_some r.funding_tx_hash
    && not (is_some r.approval_tx_hash)

unfoldable pub recover_funded_after_read_only_proof :
    ℕ → Text → Database → Option ApprovalPreparationRecord × Database
unfolding recoverable set_funded find_approval
recover_funded_after_read_only_proof now key = marked (recoverable key) (set_funded now) key

unfoldable pub mark_approving : ℕ → Text → Database → Option ApprovalPreparationRecord × Database
unfolding with_status set_approving find_approval
mark_approving now key = marked (with_status is_funded key) (set_approving now) key

unfoldable pub set_approval_submitted :
    ℕ → Text → ApprovalPreparationRecord → ApprovalPreparationRecord
set_approval_submitted now hash r = record r {
  approval_tx_hash = some hash;
  status = ApprovalPreparationStatus.approving;
  error_message = none;
  updated_at = now;
}

unfoldable pub mark_approval_submitted :
    ℕ → Text → Text → Database → Result Error (Option ApprovalPreparationRecord × Database)
unfolding with_status set_approval_submitted find_approval
mark_approval_submitted now key tx_hash db = do
  hash ← require_canonical_transaction_hash tx_hash
  ok (marked (with_status is_approving key) (set_approval_submitted now hash) key db)

unfoldable pub set_approved : ℕ → ApprovalPreparationRecord → ApprovalPreparationRecord
set_approved now r = record r {
  status = ApprovalPreparationStatus.approved;
  error_message = none;
  updated_at = now;
}

unfoldable pub mark_approved : ℕ → Text → Database → Option ApprovalPreparationRecord × Database
unfolding with_status set_approved find_approval
mark_approved now key =
    marked (with_status (λ s. is_approving s || is_approved s) key) (set_approved now) key

pub record UnknownOptions : Type 0 where
  pub funding_tx_hash : Option Text
  pub funding_attempt_key : Option Text
  pub clear_funding_hash : Bool
  pub diagnostic : Option (Option TransactionDiagnostic)

-- `['funding', 'funded', 'approving', 'unknown']`.
abbrev pub may_be_unknown : ApprovalPreparationStatus → Bool
may_be_unknown ApprovalPreparationStatus.approved = false
may_be_unknown ApprovalPreparationStatus.failed = false
may_be_unknown _ = true

abbrev pub replaced_hash : Option Text → Bool → Option Text → Option Text
replaced_hash (some hash) clear old = some hash
replaced_hash none clear old = if clear then none else old

unfoldable pub set_unknown :
    ℕ → Text → Option Text → UnknownOptions → ApprovalPreparationRecord → ApprovalPreparationRecord
set_unknown now error hash options r = record r {
  status = ApprovalPreparationStatus.unknown;
  error_message = some (take 500 error);
  funding_tx_hash = replaced_hash hash options.clear_funding_hash r.funding_tx_hash;
  diagnostic_context = keep_or options.diagnostic r.diagnostic_context;
  updated_at = now;
}

-- A callback of an older attempt, or of another hash, changes nothing.
abbrev pub stale_attempt : Option Text → ApprovalPreparationRecord → Bool
stale_attempt none r = false
stale_attempt (some attempt) r = not (nullable_eq r.funding_attempt_key (some attempt))

abbrev pub stale_hash : Option Text → Option Text → Bool
stale_hash (some hash) (some saved) = not (same_lower saved hash)
stale_hash _ _ = false

unfoldable pub mark_unknown_row :
    ℕ
    → Text
    → Text
    → UnknownOptions
    → ApprovalPreparationRecord
    → Option Text
    → Database
    → Option ApprovalPreparationRecord × Database
unfolding with_status set_unknown same_lower find_approval
mark_unknown_row now key error options current hash db =
    if stale_hash hash (truthy current.funding_tx_hash)
    then (some current, db)
    else marked (with_status may_be_unknown key) (set_unknown now error hash options) key db

abbrev pub mark_unknown_found :
    ℕ
    → Text
    → Text
    → UnknownOptions
    → Option ApprovalPreparationRecord
    → Database
    → Result Error (Option ApprovalPreparationRecord × Database)
mark_unknown_found now key error options none db = ok (none, db)
mark_unknown_found now key error options (some current) db =
    if stale_attempt options.funding_attempt_key current
    then ok (some current, db)
    else optional_hash (truthy options.funding_tx_hash) >>= λ hash.
        ok (mark_unknown_row now key error options current hash db)

unfoldable pub mark_unknown :
    ℕ
    → Text
    → Text
    → UnknownOptions
    → Database
    → Result Error (Option ApprovalPreparationRecord × Database)
unfolding mark_unknown_row find_approval
mark_unknown now key error options db =
    mark_unknown_found now key error options (find_approval key db) db
