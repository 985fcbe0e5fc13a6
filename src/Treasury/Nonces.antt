-- ===== src/Treasury/Nonces.antt =====
-- The nonces that TreasuryTransactions.prepare gives out.
use ev_web3_award_system.Prelude.{
  ℕ, ◌+◌, ◌≤◌, ◌<◌, ◌≡◌, ◌≢◌, refl, inl, inr, true, false, ◌&&◌, List, [], ◌∷◌, ok, find_by, All,
  All-mono, arith, Option-cases, Ensures, Ensures-ok, find_by-none, find_by-All-none, ◌==◌,
}
use ev_web3_award_system.Text.{Text}
use ev_web3_award_system.Store.{Database, TreasuryTransactionLeaseRecord}
use ev_web3_award_system.Treasury.{
  TreasuryTransactionPreparationRequest, Preparation, max_safe_integer,
}
use ev_web3_award_system.Treasury.Choice.{
  of_signer, lease_failed, next_nonce, choose_nonce, new_lease, nonce_free,
}
use ev_web3_award_system.Treasury.Prepare.{sign_and_lease, prepare}
use ev_web3_award_system.Treasury.Written.{sign_and_lease-Ensures, prepare-Ensures}

-- A lease of the chain and signer that did not fail has a nonce below `n`.
abbrev pub Below : Text → Text → ℕ → TreasuryTransactionLeaseRecord → Type 0
Below chain signer n lease =
    of_signer chain signer lease ≡ true → lease_failed lease.status ≡ false → lease.nonce < n

next_nonce-Below :
    (chain signer : Text) (leases : List TreasuryTransactionLeaseRecord)
    → All (Below chain signer (next_nonce chain signer leases)) leases
unfolding next_nonce
next_nonce-Below chain signer [] = tt
next_nonce-Below chain signer (lease ∷ leases) = (
  λ of live. ground arith,
  All-mono _ _ leases (λ l below of live. let lt = below of live in ground arith)
      (next_nonce-Below chain signer leases),
)

choose_nonce-Below :
    (chain signer : Text) (pending : ℕ) (leases : List TreasuryTransactionLeaseRecord)
    → next_nonce chain signer leases ≤ max_safe_integer + 1
    → All (Below chain signer (choose_nonce chain signer pending leases)) leases
unfolding choose_nonce
choose_nonce-Below chain signer pending leases safe =
    All-mono _ _ leases (λ l below of live. let lt = below of live in ground arith)
      (next_nonce-Below chain signer leases)

-- No lease of the chain and signer has the nonce `n`.
abbrev pub Unused : Text → Text → ℕ → TreasuryTransactionLeaseRecord → Type 0
Unused chain signer n lease = of_signer chain signer lease ≡ true → lease.nonce ≢ n

Unused-row :
    (chain signer : Text) (n : ℕ) (lease : TreasuryTransactionLeaseRecord)
    → of_signer chain signer lease && lease.nonce == n ≡ false
    → Unused chain signer n lease
Unused-row chain signer n lease h of same = ground arith

nonce_free-Unused :
    (chain signer : Text) (n : ℕ) (leases : List TreasuryTransactionLeaseRecord)
    → nonce_free chain signer n leases ≡ true
    → All (Unused chain signer n) leases
unfolding nonce_free
nonce_free-Unused chain signer n leases h =
    elim (Option-cases
      (find_by (λ lease. of_signer chain signer lease && lease.nonce == n) leases)) [
        | inl e ↦ All-mono _ _ leases (Unused-row chain signer n) (find_by-none _ leases e)
        | inr (l, e) ↦ absurd (ground arith)
      ]

-- What a new preparation leaves: one more lease, whose nonce no lease of the chain and signer has and
-- which is above that of each of them that did not fail.
pub record Leased (request : TreasuryTransactionPreparationRequest) (db : Database)
    (p : Preparation) (db' : Database) : Type 0 where
  pub added : db'.leases ≡ p.lease ∷ db.leases
  pub unused : All (Unused request.chain_id request.signer_address p.lease.nonce) db.leases
  pub above : All (Below request.chain_id request.signer_address p.lease.nonce) db.leases

abbrev NewLeased :
    TreasuryTransactionPreparationRequest → Database → Preparation × Database → Type 0
NewLeased request db q = q.0.already_prepared ≡ false → Leased request db q.0 q.1

sign_and_lease-Leased :
    (now : ℕ) (request : TreasuryTransactionPreparationRequest) (nonce : ℕ) (db : Database)
    → All (Below request.chain_id request.signer_address nonce) db.leases
    → Ensures (NewLeased request db) (sign_and_lease now request nonce db)
unfolding new_lease
sign_and_lease-Leased now request nonce db below =
    sign_and_lease-Ensures now request db (NewLeased request db) nonce
      λ prepared hash db' _ _ free added _. record {
        added = added;
        unused = nonce_free-Unused request.chain_id request.signer_address nonce db.leases free;
        above = below;
      }

not_new : true ≡ false → ⊥
not_new h = cc

-- A preparation that is new adds one lease to the treasury's; its nonce belongs to no lease of the
-- chain and signer, and is above that of each of them that did not fail, if the nonces of those that
-- did not fail are safe integers.
pub prepare_nonce_fresh :
    (now : ℕ) (request : TreasuryTransactionPreparationRequest) (db : Database) (p : Preparation)
    (db' : Database)
    → next_nonce request.chain_id request.signer_address db.leases ≤ max_safe_integer + 1
    → prepare now request db ≡ ok (p, db')
    → p.already_prepared ≡ false
    → Leased request db p db'
prepare_nonce_fresh now request db p db' safe e new =
    Ensures-ok (NewLeased request db) (prepare now request db)
      (prepare-Ensures now request db (NewLeased request db) (λ lease _ old. absurd (not_new old))
        (λ pending _.
          sign_and_lease-Leased now request
            (choose_nonce request.chain_id request.signer_address pending db.leases) db
            (choose_nonce-Below request.chain_id request.signer_address pending db.leases safe)))
      e new

-- The nonce that is chosen belongs to no lease of the chain and signer, so that the unique index
-- accepts it, if each of their leases that failed is below the endpoint's pending nonce and the nonces
-- of the others are safe integers.
pub choose_nonce-free :
    (chain signer : Text) (pending : ℕ) (leases : List TreasuryTransactionLeaseRecord)
    → next_nonce chain signer leases ≤ max_safe_integer + 1
    → All
        (λ l. of_signer chain signer l ≡ true → lease_failed l.status ≡ true → l.nonce < pending)
        leases
    → nonce_free chain signer (choose_nonce chain signer pending leases) leases ≡ true
unfolding nonce_free
choose_nonce-free chain signer pending leases safe failed =
    rw
      (find_by-All-none
        (λ l. of_signer chain signer l && l.nonce == choose_nonce chain signer pending leases)
        leases (clear leases (choose_nonce-Below chain signer pending leases safe) failed))
      refl
  where
    above : pending ≤ choose_nonce chain signer pending leases
    above = unfold choose_nonce in ground arith

    clear :
        (rows : List TreasuryTransactionLeaseRecord)
        → All (Below chain signer (choose_nonce chain signer pending leases)) rows
        → All
            (λ l.
              of_signer chain signer l ≡ true → lease_failed l.status ≡ true → l.nonce < pending)
            rows
        → All
            (λ l.
              of_signer chain signer l && l.nonce == choose_nonce chain signer pending leases
              ≡ false)
            rows
    clear [] h k = tt
    clear (l ∷ rows) (b, h) (f, k) = (let le = above in ground arith, clear rows h k)
