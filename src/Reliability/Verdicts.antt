-- ===== src/Reliability/Verdicts.antt =====
-- What the diagnostic of a failed prepareAndBroadcastTransaction proves about the chain.
use ev_web3_award_system.Prelude.{
  ◌≡◌, refl, subst, ℕ, ◌⊎◌, inl, inr, Option, none, some, arith, Result, ok, err, find_by,
}
use ev_web3_award_system.Text.{Text}
use ev_web3_award_system.Store.{Database, TransactionDiagnostic, TreasuryTransactionLeaseRecord}
use ev_web3_award_system.Operations.Rows.{truthy}
use ev_web3_award_system.Treasury.{has_lease_key}
use ev_web3_award_system.Reliability.{
  TreasuryTransactionRequest, TransactionReliabilityResult, World,
  is_pre_broadcast_transaction_diagnostic,
}
use ev_web3_award_system.Reliability.Broadcast.{
  Attempt, prepare_and_broadcast_transaction, review_diagnostic,
}
use ev_web3_award_system.Reliability.Failures.{PreBroadcast}
use ev_web3_award_system.Reliability.Attempts.{
  Told, Outcome, refused, held, sent, prepare_and_broadcast-Outcome,
}
use ev_web3_award_system.Reliability.Once.{canonical-truthy}

-- A diagnostic with a saved hash is not one from before the broadcast.
hash-not_pre :
    (d : TransactionDiagnostic) (hash : Text) → truthy d.saved_hash ≡ some hash → PreBroadcast d → ⊥
unfolding is_pre_broadcast_transaction_diagnostic
hash-not_pre d hash e pre = let not_pre = pre in ground arith

err-injective :
    {d e : TransactionDiagnostic} {r : Result TransactionDiagnostic TransactionReliabilityResult}
    → r ≡ err d
    → r ≡ err e
    → d ≡ e
err-injective a b = cc

Told-saved_hash :
    (lease : TreasuryTransactionLeaseRecord)
    (r : Result TransactionDiagnostic TransactionReliabilityResult) (d : TransactionDiagnostic)
    → r ≡ err d
    → Told lease r
    → d.saved_hash ≡ truthy (some lease.tx_hash)
Told-saved_hash lease r d e told = let (_, _, same) = rw e at told in same

-- The diagnostic of a failed call, and what the call did.
abbrev pub Proves : TreasuryTransactionRequest → Database → Attempt → TransactionDiagnostic → Type 0
Proves request db attempt d =
    (PreBroadcast d → (attempt.broadcast ≡ none) × (attempt.database ≡ db))
    × (attempt.broadcast ≡ none
        → PreBroadcast d
          ⊎ ((lease : TreasuryTransactionLeaseRecord) × (find_by
                  (has_lease_key request.operation_key) db.leases
                ≡ some lease)
              × (d ≡ review_diagnostic lease)))

-- If an earlier lease of the key has a hash, a call of prepareAndBroadcastTransaction whose failure is diagnosed as
-- before the broadcast has sent nothing and written nothing. A call that fails without having sent anything is
-- diagnosed so, unless it found that earlier lease and puts it under review.
pub pre_broadcast-Proves :
    (now : ℕ) (world : World) (request : TreasuryTransactionRequest) (db : Database)
    (d : TransactionDiagnostic)
    → ((lease : TreasuryTransactionLeaseRecord)
        → find_by (has_lease_key request.operation_key) db.leases ≡ some lease
        → truthy (some lease.tx_hash) ≡ some lease.tx_hash)
    → (prepare_and_broadcast_transaction now world request db).result ≡ err d
    → Proves request db (prepare_and_broadcast_transaction now world request db) d
pre_broadcast-Proves now world request db d hashes h =
    at_outcome (prepare_and_broadcast_transaction now world request db)
      (prepare_and_broadcast-Outcome now world request db) h
  where
    clash : {raw : Text} {sent : Option Text} → sent ≡ none → sent ≡ some raw → ⊥
    clash a b = cc

    returned :
        {r : Result TransactionDiagnostic TransactionReliabilityResult}
        {value : TransactionReliabilityResult}
        → r ≡ ok value
        → r ≡ err d
        → ⊥
    returned a b = cc

    review :
        (lease : TreasuryTransactionLeaseRecord)
        → truthy (some lease.tx_hash) ≡ some lease.tx_hash
        → d ≡ review_diagnostic lease
        → truthy d.saved_hash ≡ some lease.tx_hash
    review lease full same = rw (same, full, full) refl

    at_outcome :
        (attempt : Attempt)
        → Outcome world request db attempt
        → attempt.result ≡ err d
        → Proves request db attempt d
    at_outcome attempt (refused e at_result pre quiet same) h =
        (λ _. (quiet, same), λ _. inl (subst PreBroadcast (err-injective at_result h) pre))
    at_outcome attempt (held lease e (inl at_result) quiet step) h =
        let same = err-injective h at_result in
        (
          λ pre. absurd (hash-not_pre d lease.tx_hash (review lease (hashes lease e) same) pre),
          λ _. inr (lease, e, same),
        )
    at_outcome attempt (held lease e (inr (at_result, _)) quiet step) h =
        absurd (returned at_result h)
    at_outcome attempt (sent signer p db' w b) h =
        let full = canonical-truthy w.made.tx_hash p.lease.tx_hash w.hash in
        let same = Told-saved_hash p.lease attempt.result d h b.told in
        (
          λ pre. absurd (hash-not_pre d p.lease.tx_hash (rw (same, full, full) refl) pre),
          λ quiet. absurd (clash quiet b.bytes),
        )
