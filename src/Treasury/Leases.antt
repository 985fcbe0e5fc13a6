-- ===== src/Treasury/Leases.antt =====
-- What any sequence of calls of TreasuryTransactions keeps of a lease.
use ev_web3_award_system.Prelude.{
  ℕ, ◌≡◌, refl, inl, inr, Bool, true, false, List, ◌∷◌, Option, none, find_by, update_where, arith,
  Bool-cases, Option-cases, subst, sym, ◌∙◌,
}
use ev_web3_award_system.Text.{Text}
use ev_web3_award_system.Store.{
  Database, TreasuryTransactionLeaseRecord, TreasuryTransactionTargetType, token_operation,
  approval_funding, standalone, LeaseStatus, PreparedTransactionContext, TransactionDiagnostic,
}
use ev_web3_award_system.Treasury.{has_lease_key}
use ev_web3_award_system.Treasury.Marks.{
  lease_open, open_lease, open_lease_with_hash, lease_submitted, submit_target, lease_closed,
  unknown_target, failed_target, close_lease, update_approval_funding_parent,
}

-- What a lease is for, and what was signed.
pub record Signed : Type 0 where
  pub operation_key : Text
  pub target_operation_key : Option Text
  pub target_type : TreasuryTransactionTargetType
  pub chain_id : Text
  pub signer_address : Text
  pub nonce : ℕ
  pub tx_hash : Text
  pub tx_context : PreparedTransactionContext
  pub created_at : ℕ

abbrev pub signed : TreasuryTransactionLeaseRecord → Signed
signed lease = record {
  operation_key = lease.operation_key;
  target_operation_key = lease.target_operation_key;
  target_type = lease.target_type;
  chain_id = lease.chain_id;
  signer_address = lease.signer_address;
  nonce = lease.nonce;
  tx_hash = lease.tx_hash;
  tx_context = lease.tx_context;
  created_at = lease.created_at;
}

-- A lease may become another: what was signed stays, and a lease that failed or is confirmed stays as
-- it is.
pub record Progress (r s : TreasuryTransactionLeaseRecord) : Type 0 where
  pub same_signed : signed s ≡ signed r
  pub closed_final : lease_open r.status ≡ false → s ≡ r

pub Progress-refl : (r : TreasuryTransactionLeaseRecord) → Progress r r
Progress-refl r = record { same_signed = refl; closed_final = λ _. refl }

pub Progress-trans :
    (r s t : TreasuryTransactionLeaseRecord) → Progress r s → Progress s t → Progress r t
Progress-trans r s t a b = record {
  same_signed = b.same_signed ∙ a.same_signed;
  closed_final = λ closed.
      let same = a.closed_final closed in
      b.closed_final (subst (λ l. lease_open l.status ≡ false) (sym same) closed) ∙ same;
}

pub data Step (before after : List TreasuryTransactionLeaseRecord) : Type 0 where
  stay : after ≡ before → Step before after
  edit :
      (p : TreasuryTransactionLeaseRecord → Bool)
      (f : TreasuryTransactionLeaseRecord → TreasuryTransactionLeaseRecord)
      → ((r : TreasuryTransactionLeaseRecord) → p r ≡ true → Progress r (f r))
      → after ≡ update_where p f before
      → Step before after
  add :
      (r : TreasuryTransactionLeaseRecord)
      → find_by (has_lease_key r.operation_key) before ≡ none
      → after ≡ r ∷ before
      → Step before after

abbrev pub Stepped : Database → Database → Type 0
Stepped db db' = Step db.leases db'.leases

closed-Progress :
    (now : ℕ) (key : Text) (status : LeaseStatus) (diagnostic : TransactionDiagnostic)
    (error : Text) (r : TreasuryTransactionLeaseRecord)
    → open_lease key r ≡ true
    → Progress r (lease_closed now status diagnostic error r)
unfolding open_lease lease_closed
closed-Progress now key status diagnostic error r h = record {
  same_signed = refl;
  closed_final = λ closed. absurd (ground arith);
}

pub submitted-Progress :
    (now : ℕ) (key hash : Text) (r : TreasuryTransactionLeaseRecord)
    → open_lease_with_hash key hash r ≡ true
    → Progress r (lease_submitted now r)
unfolding open_lease_with_hash lease_submitted
submitted-Progress now key hash r h = record {
  same_signed = refl;
  closed_final = λ closed. absurd (ground arith);
}

-- The writes to the other tables leave the leases as they are.
pub submit_target-leases :
    (now : ℕ) (key : Text) (t : TreasuryTransactionTargetType) (db : Database)
    → (submit_target now key t db).leases ≡ db.leases
submit_target-leases now key token_operation db = refl
submit_target-leases now key approval_funding db = refl
submit_target-leases now key standalone db = refl

pub unknown_target-leases :
    (now : ℕ) (lease : TreasuryTransactionLeaseRecord) (diagnostic : TransactionDiagnostic)
    (error : Text) (t : TreasuryTransactionTargetType) (db : Database)
    → (unknown_target now lease diagnostic error t db).leases ≡ db.leases
unfolding update_approval_funding_parent
unknown_target-leases now lease diagnostic error token_operation db = refl
unknown_target-leases now lease diagnostic error approval_funding db = refl
unknown_target-leases now lease diagnostic error standalone db = refl

pub failed_target-leases :
    (now : ℕ) (lease : TreasuryTransactionLeaseRecord) (diagnostic : TransactionDiagnostic)
    (error : Text) (t : TreasuryTransactionTargetType) (db : Database)
    → (failed_target now lease diagnostic error t db).leases ≡ db.leases
unfolding update_approval_funding_parent
failed_target-leases now lease diagnostic error token_operation db = refl
failed_target-leases now lease diagnostic error approval_funding db = refl
failed_target-leases now lease diagnostic error standalone db = refl

pub close_lease-Stepped :
    (now : ℕ) (key : Text) (status : LeaseStatus)
    (target : TreasuryTransactionLeaseRecord → TreasuryTransactionTargetType → Database → Database)
    (diagnostic : TransactionDiagnostic) (error : Text) (db : Database)
    → ((lease : TreasuryTransactionLeaseRecord) (t : TreasuryTransactionTargetType) (db' : Database)
        → (target lease t db').leases ≡ db'.leases)
    → Stepped db (close_lease now key status target diagnostic error db).1
unfolding close_lease
close_lease-Stepped now key status target diagnostic error db same =
    elim (Option-cases (find_by (has_lease_key key) db.leases)) [
      | inl e ↦ rw (e, close_lease) (stay refl)
      | inr (lease, e) ↦ elim (Bool-cases (lease_open lease.status)) [
        | inl open_ ↦
            rw (e, close_lease)
              (rw open_ (
                edit (open_lease key) (lease_closed now status diagnostic error)
                  (closed-Progress now key status diagnostic error)
                  (same lease lease.target_type _)))
        | inr closed ↦ rw (e, close_lease) (rw closed (stay refl))
      ]
    ]
