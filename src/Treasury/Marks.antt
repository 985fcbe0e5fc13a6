-- ===== src/Treasury/Marks.antt =====
-- The later state changes of a lease: markSubmitted, markUnknown and markFailed of
-- TreasuryTransactions, with the rows that the lease stands for.
use ev_web3_award_system.Prelude.{
  ℕ, Bool, true, false, ◌&&◌, Option, none, some, Result, ok, ◌>>=◌, get_or, find_by, update_where,
  if◌then◌else◌, take,
}
use ev_web3_award_system.Text.{Text, text_eq, nullable_eq, same_lower}
use ev_web3_award_system.Store.{
  Database, TreasuryTransactionLeaseRecord, TreasuryTransactionTargetType, token_operation,
  approval_funding, standalone, LeaseStatus, TokenOperationRecord, TokenOperationStatus,
  TokenMovementOutcome, ApprovalPreparationRecord, ApprovalPreparationStatus, TransactionDiagnostic,
  Error,
}
use ev_web3_award_system.Operations.Hash.{require_canonical_transaction_hash}
use ev_web3_award_system.Operations.Rows.{update_operations, nullable_same_lower}
use ev_web3_award_system.Operations.Marks.{key_in_flight, hashed_in_flight, set_unknown, set_failed}
use ev_web3_award_system.Treasury.{has_lease_key, lease_target}
use ev_web3_award_system.Treasury.Prepare.{approval_has_key, update_approvals, own_attempt}

abbrev pub update_leases :
    (TreasuryTransactionLeaseRecord → Bool)
    → (TreasuryTransactionLeaseRecord → TreasuryTransactionLeaseRecord)
    → Database
    → Database
update_leases p f db = record db { leases = update_where p f db.leases }

-- `whereIn('status', ['prepared', 'submitted', 'unknown'])`.
abbrev pub lease_open : LeaseStatus → Bool
lease_open LeaseStatus.prepared = true
lease_open LeaseStatus.submitted = true
lease_open LeaseStatus.unknown = true
lease_open _ = false

unfoldable pub open_lease : Text → TreasuryTransactionLeaseRecord → Bool
unfolding has_lease_key
open_lease key lease = has_lease_key key lease && lease_open lease.status

unfoldable pub lease_with_hash : Text → Text → TreasuryTransactionLeaseRecord → Bool
unfolding has_lease_key text_eq
lease_with_hash key hash lease = has_lease_key key lease && text_eq lease.tx_hash hash

unfoldable pub open_lease_with_hash : Text → Text → TreasuryTransactionLeaseRecord → Bool
unfolding lease_with_hash
open_lease_with_hash key hash lease = lease_with_hash key hash lease && lease_open lease.status

unfoldable pub lease_submitted : ℕ → TreasuryTransactionLeaseRecord → TreasuryTransactionLeaseRecord
lease_submitted now lease = record lease {
  status = LeaseStatus.submitted;
  error_message = none;
  updated_at = now;
}

unfoldable pub operation_submitted : ℕ → TokenOperationRecord → TokenOperationRecord
operation_submitted now r = record r { status = TokenOperationStatus.submitted; updated_at = now }

abbrev pub submit_target : ℕ → Text → TreasuryTransactionTargetType → Database → Database
submit_target now key token_operation db =
    update_operations (key_in_flight key) (operation_submitted now) db
submit_target now key _ db = db

-- Returned is the lease after the update, or as it was found where none was open.
unfoldable pub mark_submitted :
    ℕ → Text → Text → Database → Result Error (Option TreasuryTransactionLeaseRecord × Database)
unfolding lease_with_hash open_lease_with_hash lease_submitted operation_submitted key_in_flight
    has_lease_key
mark_submitted now key tx_hash db = do
  hash ← require_canonical_transaction_hash tx_hash
  elim (find_by (lease_with_hash key hash) db.leases) [
    | none ↦ ok (find_by (has_lease_key key) db.leases, db)
    | some lease ↦
        let db' = update_leases (open_lease_with_hash key hash) (lease_submitted now) db in
        ok (
          find_by (lease_with_hash key hash) db'.leases,
          submit_target now (lease_target lease) lease.target_type db',
        )
  ]

-- `['funding', 'unknown'].includes(status)`.
abbrev pub awaits_funding : ApprovalPreparationStatus → Bool
awaits_funding ApprovalPreparationStatus.funding = true
awaits_funding ApprovalPreparationStatus.unknown = true
awaits_funding _ = false

unfoldable pub current_funding : TreasuryTransactionLeaseRecord → ApprovalPreparationRecord → Bool
unfolding approval_has_key nullable_eq same_lower
current_funding lease r =
    approval_has_key (lease_target lease) r
    && awaits_funding r.status
    && own_attempt lease.operation_key r
    && nullable_same_lower lease.tx_hash r.funding_tx_hash

unfoldable pub funding_closed :
    ℕ
    → ApprovalPreparationStatus
    → TransactionDiagnostic
    → Text
    → ApprovalPreparationRecord
    → ApprovalPreparationRecord
funding_closed now status diagnostic error r = record r {
  status = status;
  diagnostic_context = some diagnostic;
  error_message = some (take 500 error);
  updated_at = now;
}

-- Only the lease of the preparation's current funding attempt reaches it.
unfoldable pub update_approval_funding_parent :
    ℕ
    → TreasuryTransactionLeaseRecord
    → ApprovalPreparationStatus
    → TransactionDiagnostic
    → Text
    → Database
    → Database
unfolding current_funding funding_closed
update_approval_funding_parent now lease status diagnostic error =
    update_approvals (current_funding lease) (funding_closed now status diagnostic error)

unfoldable pub lease_closed :
    ℕ
    → LeaseStatus
    → TransactionDiagnostic
    → Text
    → TreasuryTransactionLeaseRecord
    → TreasuryTransactionLeaseRecord
lease_closed now status diagnostic error lease = record lease {
  status = status;
  diagnostic_context = some diagnostic;
  error_message = some (take 500 error);
  updated_at = now;
}

abbrev pub unknown_target :
    ℕ
    → TreasuryTransactionLeaseRecord
    → TransactionDiagnostic
    → Text
    → TreasuryTransactionTargetType
    → Database
    → Database
unknown_target now lease diagnostic error token_operation =
    update_operations (key_in_flight (lease_target lease))
      (set_unknown now error (some (some diagnostic)))
unknown_target now lease diagnostic error approval_funding =
    update_approval_funding_parent now lease ApprovalPreparationStatus.unknown diagnostic error
unknown_target now lease diagnostic error standalone = λ db. db

abbrev pub failed_target :
    ℕ
    → TreasuryTransactionLeaseRecord
    → TransactionDiagnostic
    → Text
    → TreasuryTransactionTargetType
    → Database
    → Database
failed_target now lease diagnostic error token_operation =
    update_operations (hashed_in_flight (lease_target lease))
      (set_failed now (take 500 error) TokenMovementOutcome.no_movement (some (some diagnostic)))
failed_target now lease diagnostic error approval_funding =
    update_approval_funding_parent now lease ApprovalPreparationStatus.failed diagnostic error
failed_target now lease diagnostic error standalone = λ db. db

-- The lease of the key is closed with a status if it is open, and then its target.
unfoldable pub close_lease :
    ℕ
    → Text
    → LeaseStatus
    → (TreasuryTransactionLeaseRecord → TreasuryTransactionTargetType → Database → Database)
    → TransactionDiagnostic
    → Text
    → Database
    → Option TreasuryTransactionLeaseRecord × Database
unfolding open_lease lease_closed has_lease_key
close_lease now key status target diagnostic error db =
    let db' = update_leases (open_lease key) (lease_closed now status diagnostic error) db in
    elim (find_by (has_lease_key key) db.leases) [
      | none ↦ (none, db)
      | some lease ↦
          if lease_open lease.status
          then (find_by (has_lease_key key) db'.leases, target lease lease.target_type db')
          else (some lease, db)
    ]

unfoldable pub mark_unknown :
    ℕ
    → Text
    → TransactionDiagnostic
    → Option Text
    → Database
    → Option TreasuryTransactionLeaseRecord × Database
unfolding close_lease set_unknown key_in_flight update_approval_funding_parent
mark_unknown now key diagnostic error db =
    let message = get_or error diagnostic.error_code in
    close_lease now key LeaseStatus.unknown (λ lease. unknown_target now lease diagnostic message)
      diagnostic message db

unfoldable pub mark_failed :
    ℕ
    → Text
    → TransactionDiagnostic
    → Option Text
    → Database
    → Option TreasuryTransactionLeaseRecord × Database
unfolding close_lease set_failed hashed_in_flight update_approval_funding_parent
mark_failed now key diagnostic error db =
    let message = get_or error diagnostic.error_code in
    close_lease now key LeaseStatus.failed (λ lease. failed_target now lease diagnostic message)
      diagnostic message db
