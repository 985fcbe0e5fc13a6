-- ===== src/Treasury/History.antt =====
-- Any sequence of calls of TreasuryTransactions.
use ev_web3_award_system.Prelude.{
  ℕ, ◌≡◌, refl, inl, inr, false, List, [], ◌∷◌, Option, none, some, Result, ok, err, find_by,
  All-intro, Bool-cases, Found, Found-update, Ensures, Ensures-bind, subst, sym, ap, get_or,
}
use ev_web3_award_system.Text.{Text, text_eq}
use ev_web3_award_system.Text.Laws.{text_eq_iff}
use ev_web3_award_system.Store.{
  Database, TreasuryTransactionLeaseRecord, LeaseStatus, TransactionDiagnostic, Error,
}
use ev_web3_award_system.Operations.Hash.{require_canonical_transaction_hash}
use ev_web3_award_system.Operations.History.{commit}
use ev_web3_award_system.Treasury.{
  TreasuryTransactionPreparationRequest, has_lease_key, lease_target,
}
use ev_web3_award_system.Treasury.Choice.{choose_nonce, new_lease}
use ev_web3_award_system.Treasury.Prepare.{prepare}
use ev_web3_award_system.Treasury.Written.{sign_and_lease-Ensures, prepare-Ensures}
use ev_web3_award_system.Treasury.Marks.{
  update_leases, lease_with_hash, open_lease_with_hash, lease_submitted, submit_target,
  mark_submitted, unknown_target, failed_target, mark_unknown, mark_failed,
}
use ev_web3_award_system.Treasury.Leases.{
  Progress, Progress-refl, Progress-trans, Step, stay, edit, add, Stepped, submitted-Progress,
  submit_target-leases, unknown_target-leases, failed_target-leases, close_lease-Stepped,
}

pub data Call : Type 0 where
  prepare_call : TreasuryTransactionPreparationRequest → Call
  submitted_call : (key tx_hash : Text) → Call
  unknown_call failed_call : (key : Text) → TransactionDiagnostic → Option Text → Call

unfoldable pub run : ℕ → Call → Database → Database
unfolding prepare mark_submitted mark_unknown mark_failed
run now (prepare_call request) db = commit db (prepare now request db)
run now (submitted_call key tx_hash) db = commit db (mark_submitted now key tx_hash db)
run now (unknown_call key diagnostic error) db = (mark_unknown now key diagnostic error db).1
run now (failed_call key diagnostic error) db = (mark_failed now key diagnostic error db).1

unfoldable pub run_all : List (ℕ × Call) → Database → Database
unfolding run
run_all [] db = db
run_all ((now, call) ∷ calls) db = run_all calls (run now call db)

abbrev pub Steps {ℓ} : {A : Type ℓ} → Database → Result Error (A × Database) → Type 0
Steps db = Ensures (λ q. Stepped db q.1)

commit-Stepped {ℓ} :
    {A : Type ℓ} (db : Database) (r : Result Error (A × Database))
    → Steps db r
    → Stepped db (commit db r)
commit-Stepped db (ok (a, db')) s = s
commit-Stepped db (err e) s = stay refl

pub prepare-Steps :
    (now : ℕ) (request : TreasuryTransactionPreparationRequest) (db : Database)
    → Steps db (prepare now request db)
unfolding new_lease
prepare-Steps now request db =
    prepare-Ensures now request db (λ q. Stepped db q.1) (λ _ _. stay refl)
      λ pending new.
        sign_and_lease-Ensures now request db (λ q. Stepped db q.1)
          (choose_nonce request.chain_id request.signer_address pending db.leases)
          (λ prepared hash db' _ _ _ added.
            add
              (new_lease now request
                (choose_nonce request.chain_id request.signer_address pending db.leases) hash
                prepared.context)
              new added)

pub mark_submitted-Steps :
    (now : ℕ) (key tx_hash : Text) (db : Database) → Steps db (mark_submitted now key tx_hash db)
unfolding mark_submitted
mark_submitted-Steps now key tx_hash db =
    Ensures-bind _ (require_canonical_transaction_hash tx_hash) _
      λ hash _. found hash (find_by (lease_with_hash key hash) db.leases)
  where
    found :
        (hash : Text) (lease : Option TreasuryTransactionLeaseRecord)
        → Steps db (elim lease [
          | none ↦ ok (find_by (has_lease_key key) db.leases, db)
          | some lease ↦
              let db' = update_leases (open_lease_with_hash key hash) (lease_submitted now) db in
              ok (
                find_by (lease_with_hash key hash) db'.leases,
                submit_target now (lease_target lease) lease.target_type db',
              )
        ])
    found hash none = stay refl
    found hash (some lease) =
        edit (open_lease_with_hash key hash) (lease_submitted now) (submitted-Progress now key hash)
          (submit_target-leases now (lease_target lease) lease.target_type _)

pub run-Stepped : (now : ℕ) (call : Call) (db : Database) → Stepped db (run now call db)
unfolding run mark_unknown mark_failed
run-Stepped now (prepare_call request) db = commit-Stepped db _ (prepare-Steps now request db)
run-Stepped now (submitted_call key tx_hash) db =
    commit-Stepped db _ (mark_submitted-Steps now key tx_hash db)
run-Stepped now (unknown_call key diagnostic error) db =
    close_lease-Stepped now key LeaseStatus.unknown
      (λ lease. unknown_target now lease diagnostic (get_or error diagnostic.error_code)) diagnostic
      (get_or error diagnostic.error_code) db
      (λ lease. unknown_target-leases now lease diagnostic (get_or error diagnostic.error_code))
run-Stepped now (failed_call key diagnostic error) db =
    close_lease-Stepped now key LeaseStatus.failed
      (λ lease. failed_target now lease diagnostic (get_or error diagnostic.error_code)) diagnostic
      (get_or error diagnostic.error_code) db
      (λ lease. failed_target-leases now lease diagnostic (get_or error diagnostic.error_code))

has_lease_key-stable :
    (key : Text) (r s : TreasuryTransactionLeaseRecord)
    → Progress r s
    → has_lease_key key s ≡ has_lease_key key r
unfolding has_lease_key
has_lease_key-stable key r s c = ap (λ l. text_eq l.operation_key key) c.same_signed

-- A key that finds a lease is not the one of a lease that is new.
other_key :
    (key : Text) (x : TreasuryTransactionLeaseRecord) (rows : List TreasuryTransactionLeaseRecord)
    {r : TreasuryTransactionLeaseRecord}
    → find_by (has_lease_key x.operation_key) rows ≡ none
    → find_by (has_lease_key key) rows ≡ some r
    → has_lease_key key x ≡ false
unfolding has_lease_key
other_key key x rows {r} new e = elim (Bool-cases (text_eq x.operation_key key)) [
  | inl same ↦ absurd (
      clash (
        subst (λ k. find_by (has_lease_key k) rows ≡ none)
          ((text_eq_iff x.operation_key key).0 same) new))
  | inr other ↦ other
]
  where
    clash : find_by (has_lease_key key) rows ≡ none → ⊥
    clash lost = cc

abbrev pub Kept :
    Text → TreasuryTransactionLeaseRecord → List TreasuryTransactionLeaseRecord → Type 0
Kept key = Found Progress Progress-refl (has_lease_key key)

pub Step-Kept :
    (key : Text) (before after : List TreasuryTransactionLeaseRecord)
    (r : TreasuryTransactionLeaseRecord)
    → Step before after
    → find_by (has_lease_key key) before ≡ some r
    → Kept key r after
Step-Kept key before after r (stay same) e = (r, rw same e, Progress-refl r)
Step-Kept key before after r (edit p f h same) e = subst (Kept key r) (sym same) (
    Found-update Progress Progress-refl p f (has_lease_key key) (has_lease_key-stable key) before r
      (All-intro _ before h) e)
Step-Kept key before after r (add x new same) e =
    subst (Kept key r) (sym same) (r, rw (other_key key x before new e) e, Progress-refl r)

-- After any sequence of TreasuryTransactions calls, a lease is still there under its key: its nonce, hash, context and
-- target are unchanged, and a lease that failed or is confirmed is unchanged altogether.
pub lease-Progress :
    (calls : List (ℕ × Call)) (db : Database) (key : Text) (r : TreasuryTransactionLeaseRecord)
    → find_by (has_lease_key key) db.leases ≡ some r
    → (s : TreasuryTransactionLeaseRecord) × (find_by (has_lease_key key) (run_all calls db).leases
        ≡ some s)
      × Progress r s
unfolding run_all
lease-Progress [] db key r e = (r, e, Progress-refl r)
lease-Progress ((now, call) ∷ calls) db key r e =
    let (s, found, first) = Step-Kept key db.leases _ r (run-Stepped now call db) e in
    let (t, found', rest) = lease-Progress calls (run now call db) key s found in
    (t, found', Progress-trans r s t first rest)
