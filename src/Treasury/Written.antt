-- ===== src/Treasury/Written.antt =====
-- What TreasuryTransactions.prepare returns: the lease of the key, or one that is new.
use ev_web3_award_system.Prelude.{
  ℕ, ◌≡◌, refl, true, false, ◌∷◌, Option, none, some, ok, require, or_fail, find_by, Ensures,
  Ensures-ok, Ensures-bind, require-eq-ok, leb,
}
use ev_web3_award_system.Text.{Text}
use ev_web3_award_system.Text.Laws.{text_eq_refl}
use ev_web3_award_system.Store.{
  Database, TreasuryTransactionLeaseRecord, TreasuryTransactionTargetType, token_operation,
  approval_funding, standalone, LeaseStatus, PreparedTransactionContext, unique_violation,
  treasury_transaction_intent_mismatch, treasury_pending_nonce_unavailable,
  treasury_nonce_unavailable, treasury_transaction_context_mismatch,
}
use ev_web3_award_system.Operations.Hash.{require_canonical_transaction_hash}
use ev_web3_award_system.Treasury.{
  TreasuryTransactionPreparationRequest, PreparedTreasuryTransaction, Preparation, max_safe_integer,
  treasury_intent_matches, has_lease_key,
}
use ev_web3_award_system.Treasury.Choice.{no_gap, choose_nonce, new_lease, nonce_free}
use ev_web3_award_system.Treasury.Prepare.{
  prepare_target, prepare_operation, prepare_funding, context_matches, add_lease, sign_and_lease,
  prepare_new, prepare_found, prepare,
}

-- A target's row is written, and no lease.
pub prepare_target-leases :
    (now : ℕ) (request : TreasuryTransactionPreparationRequest) (hash : Text) (nonce : ℕ)
    (context : PreparedTransactionContext) (db : Database) (t : TreasuryTransactionTargetType)
    → Ensures (λ db'. db'.leases ≡ db.leases) (prepare_target now request hash nonce context db t)
unfolding prepare_operation prepare_funding
prepare_target-leases now request hash nonce context db token_operation = search (Ensures-bind)
prepare_target-leases now request hash nonce context db approval_funding = search (Ensures-bind)
prepare_target-leases now request hash nonce context db standalone = refl

module _ {κ} (now : ℕ) (request : TreasuryTransactionPreparationRequest) (db : Database)
    (P : Preparation × Database → Type κ) where
  -- What holds of every lease that signing for a nonce can add holds of what it returns.
  pub sign_and_lease-Ensures :
      (nonce : ℕ)
      → ((prepared : PreparedTreasuryTransaction) (hash : Text) (db' : Database)
          → request.prepare nonce ≡ ok prepared
          → require_canonical_transaction_hash prepared.tx_hash ≡ ok hash
          → nonce_free request.chain_id request.signer_address nonce db.leases ≡ true
          → db'.leases ≡ new_lease now request nonce hash prepared.context ∷ db.leases
          → P (
            record {
              lease = new_lease now request nonce hash prepared.context;
              already_prepared = false;
              raw_transaction = some prepared.raw_transaction;
            },
            db',
          ))
      → Ensures P (sign_and_lease now request nonce db)
  unfolding sign_and_lease
  sign_and_lease-Ensures nonce h = Ensures-bind _ (request.prepare nonce) _ λ prepared made.
      Ensures-bind _ (require_canonical_transaction_hash prepared.tx_hash) _ λ hash canonical.
        Ensures-bind _
          (require (context_matches request nonce prepared.context)
            treasury_transaction_context_mismatch)
          _
          λ _ _.
            Ensures-bind _
              (require (nonce_free request.chain_id request.signer_address nonce db.leases)
                unique_violation)
              _
              λ _ free.
                Ensures-bind _
                  (prepare_target now request hash nonce prepared.context
                    (add_lease (new_lease now request nonce hash prepared.context) db)
                    request.target_type)
                  _
                  λ db' target. h prepared hash db' made canonical (require-eq-ok _ _ free) (
                    Ensures-ok _ _
                      (prepare_target-leases now request hash nonce prepared.context
                        (add_lease (new_lease now request nonce hash prepared.context) db)
                        request.target_type)
                      target)

  -- What holds of the lease of the key, and of every signing for a chosen nonce, holds of what prepare
  -- returns.
  pub prepare-Ensures :
      ((lease : TreasuryTransactionLeaseRecord)
        → find_by (has_lease_key request.operation_key) db.leases ≡ some lease
        → P (record { lease = lease; already_prepared = true; raw_transaction = none }, db))
      → ((pending : ℕ)
          → find_by (has_lease_key request.operation_key) db.leases ≡ none
          → Ensures P (
              sign_and_lease now request
                (choose_nonce request.chain_id request.signer_address pending db.leases)
                db))
      → Ensures P (prepare now request db)
  unfolding prepare prepare_new
  prepare-Ensures h k = split (find_by (has_lease_key request.operation_key) db.leases) refl
    where
      split :
          (lease : Option TreasuryTransactionLeaseRecord)
          → find_by (has_lease_key request.operation_key) db.leases ≡ lease
          → Ensures P (prepare_found now request lease db)
      split none e = Ensures-bind _ request.get_pending_nonce _ λ answered _.
          Ensures-bind _ (or_fail answered treasury_pending_nonce_unavailable) _ λ pending _.
            Ensures-bind _ (no_gap now request.chain_id request.signer_address pending db) _ λ _ _.
              Ensures-bind _
                (require
                  (leb (choose_nonce request.chain_id request.signer_address pending db.leases)
                    max_safe_integer)
                  treasury_nonce_unavailable)
                _ (λ _ _. k pending e)
      split (some lease) e =
          Ensures-bind _
            (require (treasury_intent_matches lease request) treasury_transaction_intent_mismatch) _
            (λ _ _. h lease e)

-- A new lease, and what it was signed from.
pub record Written (request : TreasuryTransactionPreparationRequest) (db : Database)
    (p : Preparation) (db' : Database) : Type 0 where
  pub absent : find_by (has_lease_key request.operation_key) db.leases ≡ none
  pub added : db'.leases ≡ p.lease ∷ db.leases
  pub same_key : p.lease.operation_key ≡ request.operation_key
  pub is_prepared : p.lease.status ≡ LeaseStatus.prepared
  pub made : PreparedTreasuryTransaction
  pub was_made : request.prepare p.lease.nonce ≡ ok made
  pub raw : p.raw_transaction ≡ some made.raw_transaction
  pub hash : require_canonical_transaction_hash made.tx_hash ≡ ok p.lease.tx_hash
  pub context : p.lease.tx_context ≡ made.context

-- The lease is there under its key.
pub Written-found :
    (request : TreasuryTransactionPreparationRequest) (db : Database) (p : Preparation)
    (db' : Database)
    → Written request db p db'
    → find_by (has_lease_key request.operation_key) db'.leases ≡ some p.lease
unfolding has_lease_key
Written-found request db p db' w = rw (w.added, w.same_key, text_eq_refl request.operation_key) refl

-- The two ways in which prepare returns.
pub data Prepared (request : TreasuryTransactionPreparationRequest) (db : Database)
    (p : Preparation) (db' : Database) : Type 0 where
  found :
      p.already_prepared ≡ true
      → find_by (has_lease_key request.operation_key) db.leases ≡ some p.lease
      → db' ≡ db
      → Prepared request db p db'
  written : p.already_prepared ≡ false → Written request db p db' → Prepared request db p db'

pub prepare-Prepared :
    (now : ℕ) (request : TreasuryTransactionPreparationRequest) (db : Database)
    → Ensures (λ q. Prepared request db q.0 q.1) (prepare now request db)
prepare-Prepared now request db =
    prepare-Ensures now request db (λ q. Prepared request db q.0 q.1) (λ lease e. found refl e refl)
      (λ pending new.
        sign_and_lease-Ensures now request db (λ q. Prepared request db q.0 q.1)
          (choose_nonce request.chain_id request.signer_address pending db.leases)
          (λ prepared hash db' made canonical free added.
            written refl (is_written new prepared hash db' made canonical added)))
  where
    is_written :
        {nonce : ℕ}
        → find_by (has_lease_key request.operation_key) db.leases ≡ none
        → (prepared : PreparedTreasuryTransaction) (hash : Text) (db' : Database)
        → request.prepare nonce ≡ ok prepared
        → require_canonical_transaction_hash prepared.tx_hash ≡ ok hash
        → db'.leases ≡ new_lease now request nonce hash prepared.context ∷ db.leases
        → Written request db
            record {
              lease = new_lease now request nonce hash prepared.context;
              already_prepared = false;
              raw_transaction = some prepared.raw_transaction;
            }
            db'
    is_written new prepared hash db' made canonical added =
        unfold new_lease in
        record {
          absent = new;
          added = added;
          same_key = refl;
          is_prepared = refl;
          made = prepared;
          was_made = made;
          raw = refl;
          hash = canonical;
          context = refl;
        }
