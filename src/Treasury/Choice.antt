-- ===== src/Treasury/Choice.antt =====
-- The choice of a nonce in TreasuryTransactions.prepare, and the lease for it.
use ev_web3_award_system.Prelude.{
  ℕ, ◌+◌, ◌-◌, Bool, true, false, ◌&&◌, not, List, [], ◌∷◌, Option, none, some, Result, ok, err,
  is_some, find_by, if◌then◌else◌, leb, ◌==◌, max,
}
use ev_web3_award_system.Text.{Text, text_eq, same_lower, to_lower}
use ev_web3_award_system.Store.{
  Database, TreasuryTransactionLeaseRecord, LeaseStatus, PreparedTransactionContext, Error,
  treasury_nonce_busy_retryable, treasury_nonce_gap_requires_review,
}
use ev_web3_award_system.Treasury.{
  TreasuryTransactionPreparationRequest, treasury_nonce_busy_window_ms, max_safe_integer,
  target_key,
}

-- `where({ chain_id }).whereRaw('lower(signer_address) = lower(?)')`.
unfoldable pub of_signer : Text → Text → TreasuryTransactionLeaseRecord → Bool
unfolding text_eq same_lower
of_signer chain signer lease =
    text_eq lease.chain_id chain && same_lower lease.signer_address signer

-- `whereIn('status', ['prepared', 'unknown'])`.
abbrev pub is_prepared : LeaseStatus → Bool
is_prepared LeaseStatus.prepared = true
is_prepared _ = false

abbrev pub is_uncertain : LeaseStatus → Bool
is_uncertain LeaseStatus.prepared = true
is_uncertain LeaseStatus.unknown = true
is_uncertain _ = false

abbrev pub lease_failed : LeaseStatus → Bool
lease_failed LeaseStatus.failed = true
lease_failed _ = false

unfoldable pub blocks_nonce : Text → Text → ℕ → TreasuryTransactionLeaseRecord → Bool
unfolding of_signer
blocks_nonce chain signer pending lease =
    of_signer chain signer lease && is_uncertain lease.status && leb pending lease.nonce

-- `orderBy('nonce', 'asc').first()`.
abbrev pub lower_nonce :
    TreasuryTransactionLeaseRecord
    → Option TreasuryTransactionLeaseRecord
    → TreasuryTransactionLeaseRecord
lower_nonce lease none = lease
lower_nonce lease (some other) = if leb lease.nonce other.nonce then lease else other

unfoldable pub lowest_where :
    (TreasuryTransactionLeaseRecord → Bool)
    → List TreasuryTransactionLeaseRecord
    → Option TreasuryTransactionLeaseRecord
lowest_where p [] = none
lowest_where p (lease ∷ leases) =
    let rest = lowest_where p leases in if p lease then some (lower_nonce lease rest) else rest

-- An uncertain lease stops the choice: it is just being sent, or it is a gap for an operator.
unfoldable pub nonce_blocked : ℕ → TreasuryTransactionLeaseRecord → Error
nonce_blocked now lease =
    if is_prepared lease.status
      && leb lease.updated_at now
      && leb (now - lease.updated_at) treasury_nonce_busy_window_ms
    then treasury_nonce_busy_retryable lease.operation_key lease.nonce
    else treasury_nonce_gap_requires_review lease.operation_key lease.nonce

unfoldable pub no_gap : ℕ → Text → Text → ℕ → Database → Result Error (Unit {0})
unfolding blocks_nonce lowest_where nonce_blocked
no_gap now chain signer pending db =
    elim (lowest_where (blocks_nonce chain signer pending) db.leases) [
      | none ↦ ok tt
      | some lease ↦ err (nonce_blocked now lease)
    ]

-- `max({ maxNonce: 'nonce' })` over the leases that did not fail, plus one; 0 without any.
unfoldable pub next_nonce : Text → Text → List TreasuryTransactionLeaseRecord → ℕ
unfolding of_signer
next_nonce chain signer [] = 0
next_nonce chain signer (lease ∷ leases) =
    let rest = next_nonce chain signer leases in
    if of_signer chain signer lease && not (lease_failed lease.status)
    then max (lease.nonce + 1) rest
    else rest

-- A highest nonce beyond the safe integers is not counted on.
unfoldable pub choose_nonce : Text → Text → ℕ → List TreasuryTransactionLeaseRecord → ℕ
unfolding next_nonce
choose_nonce chain signer pending leases =
    let next = next_nonce chain signer leases in
    if leb next (max_safe_integer + 1) then max pending next else pending

unfoldable pub new_lease :
    ℕ
    → TreasuryTransactionPreparationRequest
    → ℕ
    → Text
    → PreparedTransactionContext
    → TreasuryTransactionLeaseRecord
new_lease now request nonce hash context = record {
  operation_key = request.operation_key;
  target_operation_key = some (target_key request);
  target_type = request.target_type;
  chain_id = request.chain_id;
  signer_address = to_lower request.signer_address;
  nonce = nonce;
  tx_hash = hash;
  tx_context = context;
  status = LeaseStatus.prepared;
  diagnostic_context = none;
  error_message = none;
  created_at = now;
  updated_at = now;
}

-- The unique index on chain, signer and nonce, of src/database/tokenOperationSchema.ts.
unfoldable pub nonce_free : Text → Text → ℕ → List TreasuryTransactionLeaseRecord → Bool
unfolding of_signer
nonce_free chain signer nonce leases =
    not (is_some (find_by (λ lease. of_signer chain signer lease && lease.nonce == nonce) leases))
