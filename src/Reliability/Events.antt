-- ===== src/Reliability/Events.antt =====
-- Attempts of prepareAndBroadcastTransaction among other calls of TreasuryTransactions.
use ev_web3_award_system.Prelude.{
  ℕ, ◌≡◌, ◌≤◌, ◌⊎◌, refl, inl, inr, [], ◌∷◌, ◌++◌, List, Option, none, some, if◌then◌else◌, find_by,
  Bool-cases, Option-cases, length, arith, subst, append-nil,
}
use ev_web3_award_system.Text.{Text, text_eq}
use ev_web3_award_system.Text.Laws.{text_eq_iff}
use ev_web3_award_system.Store.{Database, TreasuryTransactionLeaseRecord}
use ev_web3_award_system.Treasury.{has_lease_key}
use ev_web3_award_system.Treasury.History.{Call, run, Step-Kept, run-Stepped}
use ev_web3_award_system.Reliability.{TreasuryTransactionRequest, World}
use ev_web3_award_system.Reliability.Broadcast.{Attempt, prepare_and_broadcast_transaction}
use ev_web3_award_system.Reliability.Attempts.{prepare_and_broadcast-Outcome}
use ev_web3_award_system.Reliability.Once.{attempt-Kept, broadcast_saved}

pub data Event : Type 0 where
  attempt : World → TreasuryTransactionRequest → Event
  call : Call → Event

-- The bytes of an attempt, if it is one of the key.
abbrev pub bytes_for : Text → TreasuryTransactionRequest → Option Text → List Text
bytes_for key request none = []
bytes_for key request (some raw) = if text_eq request.operation_key key then raw ∷ [] else []

-- All that is broadcast for a key.
unfoldable pub broadcasts : Text → List (ℕ × Event) → Database → List Text
unfolding prepare_and_broadcast_transaction run text_eq
broadcasts key [] db = []
broadcasts key ((now, attempt world request) ∷ events) db =
    let done = prepare_and_broadcast_transaction now world request db in
    bytes_for key request done.broadcast ++ broadcasts key events done.database
broadcasts key ((now, call c) ∷ events) db = broadcasts key events (run now c db)

module _ (key : Text) (now : ℕ) (world : World) (request : TreasuryTransactionRequest)
    (db : Database) where
  abbrev done : Attempt
  done = prepare_and_broadcast_transaction now world request db

  -- Once the key has a lease, an attempt broadcasts nothing for it.
  held-silent :
      (r : TreasuryTransactionLeaseRecord)
      → find_by (has_lease_key key) db.leases ≡ some r
      → bytes_for key request done.broadcast ≡ []
  held-silent r e = elim (Option-cases done.broadcast) [
    | inl quiet ↦ rw quiet refl
    | inr (raw, bytes) ↦ elim (Bool-cases (text_eq request.operation_key key)) [
      | inr other ↦ rw (bytes, other) refl
      | inl same ↦ absurd (
          clash ((text_eq_iff request.operation_key key).0 same)
            (broadcast_saved now world request db raw bytes).first)
    ]
  ]
    where
      clash :
          request.operation_key ≡ key
          → find_by (has_lease_key request.operation_key) db.leases ≡ none
          → ⊥
      clash same lost =
          let gone = subst (λ k. find_by (has_lease_key k) db.leases ≡ none) same lost in cc

  -- An attempt that broadcasts for the key leaves a lease of it.
  silent-or_held :
      (bytes_for key request done.broadcast ≡ [])
      ⊎ ((length (bytes_for key request done.broadcast) ≡ 1)
          × (r : TreasuryTransactionLeaseRecord) × (find_by (has_lease_key key) done.database.leases
              ≡ some r))
  silent-or_held = elim (Option-cases done.broadcast) [
    | inl quiet ↦ inl (rw quiet refl)
    | inr (raw, bytes) ↦ elim (Bool-cases (text_eq request.operation_key key)) [
      | inr other ↦ inl (rw (bytes, other) refl)
      | inl same ↦
          let (r, there, _) = (broadcast_saved now world request db raw bytes).kept in
          inr (
            rw (bytes, same) refl,
            r,
            subst (λ k. find_by (has_lease_key k) done.database.leases ≡ some r)
                ((text_eq_iff request.operation_key key).0 same) there,
          )
    ]
  ]

-- Nothing is broadcast for a key that has a lease.
pub held-broadcasts :
    (key : Text) (events : List (ℕ × Event)) (db : Database) (r : TreasuryTransactionLeaseRecord)
    → find_by (has_lease_key key) db.leases ≡ some r
    → broadcasts key events db ≡ []
unfolding broadcasts
held-broadcasts key [] db r e = refl
held-broadcasts key ((now, attempt world request) ∷ events) db r e =
    let (s, there, _) =
      attempt-Kept world request db (prepare_and_broadcast_transaction now world request db)
        (prepare_and_broadcast-Outcome now world request db) key r e in
    rw (held-silent key now world request db r e) (held-broadcasts key events _ s there)
held-broadcasts key ((now, call c) ∷ events) db r e =
    let (s, there, _) = Step-Kept key db.leases _ r (run-Stepped now c db) e in
    held-broadcasts key events (run now c db) s there

-- Over any sequence of calls of prepareAndBroadcastTransaction, with whatever the signer, the chain and the database
-- answer to each, and of the other calls of TreasuryTransactions, at most one transaction is broadcast for an
-- operation key.
pub broadcast_once :
    (key : Text) (events : List (ℕ × Event)) (db : Database) → length (broadcasts key events db) ≤ 1
unfolding broadcasts
broadcast_once key [] db = omega arith
broadcast_once key ((now, attempt world request) ∷ events) db =
    elim (silent-or_held key now world request db) [
      | inl silent ↦ rw silent (
          broadcast_once key events
            (prepare_and_broadcast_transaction now world request db).database)
      | inr (one, r, there) ↦
          rw
            (
              held-broadcasts key events
                  (prepare_and_broadcast_transaction now world request db).database r there,
              append-nil,
            )
            (omega (arith, one))
    ]
broadcast_once key ((now, call c) ∷ events) db = broadcast_once key events (run now c db)
