-- ===== src/Reliability/Once.antt =====
-- What prepareAndBroadcastTransaction promises its callers: one broadcast for a key at most, a lease
-- before it, and diagnostics that tell whether there was one.
use ev_web3_award_system.Prelude.{
  ℕ, ◌≡◌, refl, sym, subst, ◌∙◌, inl, inr, [], ◌∷◌, Option, none, some, ok, if◌then◌else◌, find_by,
  Bool-cases, arith, or_fail-eq-ok,
}
use mathlib.Core.Option.{some-injective}
use ev_web3_award_system.Text.{Text, trim, to_lower, lower_unit}
use ev_web3_award_system.Store.{Database, TreasuryTransactionLeaseRecord}
use ev_web3_award_system.Operations.Hash.{
  matches_hash, canonical_transaction_hash, require_canonical_transaction_hash,
}
use ev_web3_award_system.Operations.Rows.{truthy}
use ev_web3_award_system.Treasury.{Preparation, has_lease_key}
use ev_web3_award_system.Treasury.Leases.{Progress-refl, Progress-trans, add}
use ev_web3_award_system.Treasury.Written.{Written, Written-found}
use ev_web3_award_system.Treasury.History.{Kept, Step-Kept}
use ev_web3_award_system.Reliability.{TreasuryTransactionRequest, World}
use ev_web3_award_system.Reliability.Sign.{preparation_request}
use ev_web3_award_system.Reliability.Broadcast.{Attempt, prepare_and_broadcast_transaction}
use ev_web3_award_system.Reliability.Attempts.{
  Told, Outcome, refused, held, sent, prepare_and_broadcast-Outcome,
}

lower-truthy :
    (t hash : Text)
    → (if matches_hash t then some (to_lower t) else none) ≡ some hash
    → truthy (some hash) ≡ some hash
unfolding matches_hash to_lower
lower-truthy [] hash e = cc
lower-truthy (c ∷ s) hash e = elim (Bool-cases (matches_hash (c ∷ s))) [
  | inl hit ↦ at_hash (some-injective _ hash (rw hit at e))
  | inr miss ↦ absurd (ground arith)
]
  where
    at_hash : (lower_unit c ∷ to_lower s) ≡ hash → truthy (some hash) ≡ some hash
    at_hash same = subst (λ t. truthy (some t) ≡ some t) same refl

-- A canonical hash is a text that JavaScript takes for true.
pub canonical-truthy :
    (value hash : Text)
    → require_canonical_transaction_hash value ≡ ok hash
    → truthy (some hash) ≡ some hash
unfolding require_canonical_transaction_hash canonical_transaction_hash
canonical-truthy value hash h =
    lower-truthy (trim value) hash (or_fail-eq-ok (canonical_transaction_hash value) _ h)

pub attempt-Kept :
    (world : World) (request : TreasuryTransactionRequest) (db : Database) (attempt : Attempt)
    → Outcome world request db attempt
    → (key : Text) (r : TreasuryTransactionLeaseRecord)
    → find_by (has_lease_key key) db.leases ≡ some r
    → Kept key r attempt.database.leases
unfolding preparation_request
attempt-Kept world request db attempt (refused _ _ _ _ same) key r e =
    rw same (r, e, Progress-refl r)
attempt-Kept world request db attempt (held _ _ _ _ step) key r e =
    Step-Kept key db.leases _ r step e
attempt-Kept world request db attempt (sent signer p db' w b) key r e =
    let (s, found, first) =
      Step-Kept key db.leases db'.leases r
        (add p.lease
          (subst (λ k. find_by (has_lease_key k) db.leases ≡ none) (sym w.same_key) w.absent)
          w.added)
        e in
    let (t, found', rest) = Step-Kept key db'.leases _ s b.stepped found in
    (t, found', Progress-trans r s t first rest)

-- What a call of prepareAndBroadcastTransaction that broadcasts leaves: it is the first of its key, the
-- signer made the bytes for the nonce of the lease, and the lease has their hash and stays.
pub record BroadcastSaved (world : World) (request : TreasuryTransactionRequest) (db : Database)
    (attempt : Attempt) (raw : Text) : Type 0 where
  pub first : find_by (has_lease_key request.operation_key) db.leases ≡ none
  pub signer : Text
  pub p : Preparation
  pub saved : Database
  pub is_written : Written (preparation_request world request signer) db p saved
  pub same_bytes : is_written.made.raw_transaction ≡ raw
  pub in_table : find_by (has_lease_key request.operation_key) saved.leases ≡ some p.lease
  pub kept : Kept request.operation_key p.lease attempt.database.leases
  pub told : Told p.lease attempt.result

not_broadcast : {raw : Text} {sent : Option Text} → sent ≡ none → sent ≡ some raw → ⊥
not_broadcast a b = cc

-- A call that broadcasts some bytes had no lease of its key before. The lease of those bytes, signed for its nonce,
-- was in the table before the broadcast, and is there after it with the same hash. The call returns that hash, or
-- fails in stage broadcast, not to be retried, with that hash.
pub broadcast_saved :
    (now : ℕ) (world : World) (request : TreasuryTransactionRequest) (db : Database) (raw : Text)
    → (prepare_and_broadcast_transaction now world request db).broadcast ≡ some raw
    → BroadcastSaved world request db (prepare_and_broadcast_transaction now world request db) raw
unfolding preparation_request
broadcast_saved now world request db raw h =
    at_outcome (prepare_and_broadcast_transaction now world request db)
      (prepare_and_broadcast-Outcome now world request db) h
  where
    at_outcome :
        (attempt : Attempt)
        → Outcome world request db attempt
        → attempt.broadcast ≡ some raw
        → BroadcastSaved world request db attempt raw
    at_outcome attempt (refused _ _ _ quiet _) h = absurd (not_broadcast quiet h)
    at_outcome attempt (held _ _ _ quiet _) h = absurd (not_broadcast quiet h)
    at_outcome attempt (sent signer p db' w b) h =
        let in_table = Written-found (preparation_request world request signer) db p db' w in
        record {
          first = w.absent;
          signer = signer;
          p = p;
          saved = db';
          is_written = w;
          same_bytes = some-injective w.made.raw_transaction raw (sym b.bytes ∙ h);
          in_table = in_table;
          kept = Step-Kept request.operation_key db'.leases _ p.lease b.stepped in_table;
          told = b.told;
        }
