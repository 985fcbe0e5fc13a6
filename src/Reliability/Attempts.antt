-- ===== src/Reliability/Attempts.antt =====
-- What one call of prepareAndBroadcastTransaction does to the leases, and when it broadcasts.
use ev_web3_award_system.Prelude.{
  ℕ, ◌≡◌, refl, ◌⊎◌, inl, inr, Bool, true, false, Option, none, some, Result, ok, err, ◌>>◌,
  if◌then◌else◌, find_by, Bool-cases, Ensures, Ensures-bind, Raises,
}
use ev_web3_award_system.Text.{Text, same_lower}
use ev_web3_award_system.Store.{
  Database, TransactionDiagnostic, TransactionDiagnosticStage, TreasuryTransactionLeaseRecord,
  Error,
}
use ev_web3_award_system.Operations.Rows.{truthy}
use ev_web3_award_system.Treasury.{Preparation, has_lease_key}
use ev_web3_award_system.Treasury.Prepare.{prepare}
use ev_web3_award_system.Treasury.Marks.{mark_submitted}
use ev_web3_award_system.Treasury.Leases.{Stepped, stay}
use ev_web3_award_system.Treasury.Written.{Prepared, Written, found, written, prepare-Prepared}
use ev_web3_award_system.Treasury.History.{unknown_call, run, run-Stepped, mark_submitted-Steps}
use ev_web3_award_system.Rpc.{RpcDiagnosticDetails, RpcError}
use ev_web3_award_system.Reliability.{
  TreasuryTransactionRequest, TransactionReliabilityResult, World, begin_transaction, no_details,
  is_pre_broadcast_transaction_diagnostic,
}
use ev_web3_award_system.Reliability.Sign.{preparation_request}
use ev_web3_award_system.Reliability.Broadcast.{
  Attempt, fails, try_mark_unknown, already_prepared, save_submitted, accepted, answered, broadcast,
  broadcast_fails, broadcast_diagnostic, after_preparation, with_signer,
  prepare_and_broadcast_transaction, is_prepared, catch_preparation, review_diagnostic,
  checked_address, result_of, provider_required,
}
use ev_web3_award_system.Reliability.Failures.{
  PreBroadcast, Unsent, catch_preparation-PreBroadcast, preparation-Unsent,
}

pub try_mark_unknown-Stepped :
    (now : ℕ) (world : World) (key : Text) (diagnostic : TransactionDiagnostic) (db : Database)
    → Stepped db (try_mark_unknown now world key diagnostic db)
unfolding try_mark_unknown
try_mark_unknown-Stepped now world key diagnostic db = elim (Bool-cases world.unknown_saved) [
  | inl e ↦ rw e (unfold run in run-Stepped now (unknown_call key diagnostic none) db)
  | inr e ↦ rw e (stay refl)
]

save_submitted-Stepped :
    (now : ℕ) (world : World) (key tx_hash : Text) (db : Database)
    → Ensures (Stepped db) (save_submitted now world key tx_hash db)
unfolding save_submitted
save_submitted-Stepped now world key tx_hash db =
    Ensures-bind _ world.submitted_saved _
      λ _ _. saved (mark_submitted now key tx_hash db) (mark_submitted-Steps now key tx_hash db)
  where
    saved :
        (r : Result Error (Option TreasuryTransactionLeaseRecord × Database))
        → Ensures (λ q. Stepped db q.1) r
        → Ensures
            (Stepped db)
            (elim r [ err error ↦ err (world.error_details error) | ok (_, db') ↦ ok db' ])
    saved (err error) h = tt
    saved (ok (lease, db')) h = h

-- What a call tells after a broadcast: the hash of the lease, or a failure that is not to be retried
-- and carries it.
abbrev pub Told :
    TreasuryTransactionLeaseRecord
    → Result TransactionDiagnostic TransactionReliabilityResult
    → Type 0
Told lease (ok r) = (r.tx_hash ≡ lease.tx_hash) × (r.broadcasted ≡ true)
Told lease (err d) =
    (d.stage ≡ TransactionDiagnosticStage.broadcast)
    × (d.retryable ≡ false)
    × (d.saved_hash ≡ truthy (some lease.tx_hash))

pub record Broadcasts (lease : TreasuryTransactionLeaseRecord) (raw : Text) (db : Database)
    (attempt : Attempt) : Type 0 where
  pub bytes : attempt.broadcast ≡ some raw
  pub stepped : Stepped db attempt.database
  pub told : Told lease attempt.result

broadcast-Broadcasts :
    (now : ℕ) (world : World) (key : Text) (lease : TreasuryTransactionLeaseRecord) (raw : Text)
    (db : Database)
    → Broadcasts lease raw db (broadcast now world key lease raw db)
unfolding broadcast
broadcast-Broadcasts now world key lease raw db = at_answer (world.broadcast_transaction raw)
  where
    failed :
        (code : Text) (details : RpcDiagnosticDetails)
        → Broadcasts lease raw db
            (broadcast_fails now world key (broadcast_diagnostic code details lease) raw db)
    failed code details = record {
      bytes = refl;
      stepped = try_mark_unknown-Stepped now world key (broadcast_diagnostic code details lease) db;
      told = (refl, refl, refl);
    }

    at_saved :
        (r : Result RpcDiagnosticDetails Database)
        → Ensures (Stepped db) r
        → Broadcasts lease raw db (accepted now world key lease raw db r)
    at_saved (ok db') h = record { bytes = refl; stepped = h; told = (refl, refl) }
    at_saved (err details) h = failed _ details

    at_answer :
        (answer : Result RpcError Text)
        → Broadcasts lease raw db (answered now world key lease raw db answer)
    at_answer (err error) = failed _ error.details
    at_answer (ok hash) = elim (Bool-cases (same_lower hash lease.tx_hash)) [
      | inl e ↦ rw e (at_saved _ (save_submitted-Stepped now world key lease.tx_hash db))
      | inr e ↦ rw e (failed _ no_details)
    ]

-- What one call does: it fails before the preparation has written, it finds the lease of its key, or it
-- writes the lease and broadcasts.
pub data Outcome (world : World) (request : TreasuryTransactionRequest) (db : Database)
    (attempt : Attempt) : Type 0 where
  refused :
      (diagnostic : TransactionDiagnostic)
      → attempt.result ≡ err diagnostic
      → PreBroadcast diagnostic
      → attempt.broadcast ≡ none
      → attempt.database ≡ db
      → Outcome world request db attempt
  held :
      (lease : TreasuryTransactionLeaseRecord)
      → find_by (has_lease_key request.operation_key) db.leases ≡ some lease
      → (attempt.result ≡ err (review_diagnostic lease))
        ⊎ ((attempt.result ≡ ok (result_of lease false true)) × (attempt.database ≡ db))
      → attempt.broadcast ≡ none
      → Stepped db attempt.database
      → Outcome world request db attempt
  sent :
      (signer : Text) (p : Preparation) (db' : Database)
      → (w : Written (preparation_request world request signer) db p db')
      → Broadcasts p.lease w.made.raw_transaction db' attempt
      → Outcome world request db attempt

module _ (now : ℕ) (world : World) (request : TreasuryTransactionRequest) (db : Database) where
  already_prepared-Outcome :
      (lease : TreasuryTransactionLeaseRecord)
      → find_by (has_lease_key request.operation_key) db.leases ≡ some lease
      → Outcome world request db (already_prepared now world request.operation_key lease db)
  unfolding already_prepared
  already_prepared-Outcome lease e = elim (Bool-cases (is_prepared lease.status)) [
    | inl prepared ↦ rw prepared (
        held lease e (inl refl) refl
          (try_mark_unknown-Stepped now world request.operation_key (review_diagnostic lease) db))
    | inr other ↦ rw other (held lease e (inr (refl, refl)) refl (stay refl))
  ]

  prepared-Outcome :
      (signer : Text) (p : Preparation) (db' : Database)
      → Prepared (preparation_request world request signer) db p db'
      → Outcome world request db (after_preparation now world request db (ok (p, db')))
  unfolding preparation_request already_prepared broadcast
  prepared-Outcome signer p db' (found again e same) =
      rw (again, same) (already_prepared-Outcome p.lease e)
  prepared-Outcome signer p db' (written new w) =
      rw (new, w.raw)
        (sent signer p db' w
          (broadcast-Broadcasts now world request.operation_key p.lease w.made.raw_transaction db'))

  after_preparation-Outcome :
      (signer : Text) (r : Result Error (Preparation × Database))
      → Raises Unsent r
      → Ensures (λ q. Prepared (preparation_request world request signer) db q.0 q.1) r
      → Outcome world request db (after_preparation now world request db r)
  after_preparation-Outcome signer (err error) unsent h =
      refused (catch_preparation world error) refl
        (catch_preparation-PreBroadcast world error unsent) refl refl
  after_preparation-Outcome signer (ok (p, db')) unsent h = prepared-Outcome signer p db' h

  pub prepare_and_broadcast-Outcome :
      Outcome world request db (prepare_and_broadcast_transaction now world request db)
  unfolding prepare_and_broadcast_transaction is_pre_broadcast_transaction_diagnostic
  prepare_and_broadcast-Outcome = at_provider world.has_provider
    where
      at_signer :
          (signer : Result RpcError Text)
          → Outcome world request db (with_signer now world request db signer)
      at_signer (err error) = refused _ refl refl refl refl
      at_signer (ok signer) =
          after_preparation-Outcome signer
            (begin_transaction world.begin
              >> prepare now (preparation_request world request signer) db)
            (preparation-Unsent now world request signer db)
            (Ensures-bind _ (begin_transaction world.begin) _
              (λ _ _. prepare-Prepared now (preparation_request world request signer) db))

      at_provider :
          (has_provider : Bool)
          → Outcome world request db (
              if has_provider
              then with_signer now world request db (checked_address world)
              else fails provider_required db none)
      at_provider true = at_signer (checked_address world)
      at_provider false = refused _ refl refl refl refl
