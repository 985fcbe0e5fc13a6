-- ===== src/Operations/Backing.antt =====
-- About the balance that backs a manual spend.
use ev_web3_award_system.Prelude.{
  ℕ, ◌+◌, ◌≤◌, ◌≡◌, refl, inl, inr, Bool, true, false, ◌&&◌, not, List, [], ◌∷◌, Option, none, some,
  is_some, Result, ok, err, require, or_fail, find_by, update_where, sum_where, All, All-mono,
  Apart, arith, if◌then◌else◌, Bool-cases, Option-cases, Ensures, Ensures-ok, Ensures-bind,
  or_fail-eq-ok, require-eq-ok, find_by-none, subst, ap, >>=-eq-ok,
}
use mathlib.Core.Option.{some-injective}
use ev_web3_award_system.Text.{Text}
use ev_web3_award_system.Amount.{
  Value, CanonicalTokenAmount, canonical_token_amount, truncate_token_amount, text,
}
use ev_web3_award_system.Store.{
  Database, TokenOperationRecord, TokenOperationType, Error, unsupported_token_precision,
  charging_session_mismatch, operation_intent_mismatch,
}
use ev_web3_award_system.Operations.Rows.{
  update_operations, is_award, is_spend, truthy, has_key, find_by_key,
}
use ev_web3_award_system.Operations.Capacity.{
  is_unresolved, reserved_total, unresolved_total, other_unresolved_total, held_total,
}
use ev_web3_award_system.Operations.Claim.{
  ClaimRequest, TokenOperationClaim, acquired, session_matches, intent_matches,
  assert_operation_intent, capacity_ok, sampled_capacity, check_manual_capacity, is_reclaimable,
  reclaim, claim_existing, new_operation, insert_operation, claim_new, claim_key, claim,
}
use ev_web3_award_system.Operations.Ledger.{same_key}
use ev_web3_award_system.Operations.ClaimSteps.{Keyed, has_key-same}

-- The holds fit in the balance that the sampler answered, rounded down to hundredths of a token.
pub record Covered (request : ClaimRequest) (db : Database) : Type 0 where
  pub sampled : Value
  pub balance : CanonicalTokenAmount
  pub was_sampled : request.get_on_chain_balance ≡ some (ok sampled)
  pub was_read : truncate_token_amount sampled ≡ some balance
  pub fits : held_total request.wallet_address db ≤ balance.units

-- A manual spend whose caller samples the balance.
pub record IsManual (request : ClaimRequest) : Type 0 where
  pub is_a_spend : is_spend request.operation_type ≡ true
  pub without_reservation : truthy request.reservation_id ≡ none
  pub samples : is_some request.get_on_chain_balance ≡ true

other_total-eq :
    (key wallet : Text) (rows : List TokenOperationRecord)
    → All (λ q. has_key key q ≡ false) rows
    → sum_where (is_unresolved wallet) (λ r. r.amount) rows
      ≡ sum_where (λ r. not (has_key key r) && is_unresolved wallet r) (λ r. r.amount) rows
other_total-eq key wallet [] h = refl
other_total-eq key wallet (x ∷ rows) (hx, h) = rw (hx, other_total-eq key wallet rows h) refl

update_absent :
    (key : Text) (f : TokenOperationRecord → TokenOperationRecord)
    (rows : List TokenOperationRecord)
    → All (λ q. has_key key q ≡ false) rows
    → update_where (has_key key) f rows ≡ rows
update_absent key f [] h = refl
update_absent key f (x ∷ rows) (hx, h) = rw (hx, update_absent key f rows h) refl

-- A row of another key than one that has the key does not have it.
key_absent :
    (key : Text) (x q : TokenOperationRecord)
    → has_key key x ≡ true
    → same_key x q ≡ false
    → has_key key q ≡ false
key_absent key x q hit apart = elim (Bool-cases (has_key key q)) [
  | inl hit' ↦ absurd (clash (has_key-same key x q hit hit'))
  | inr miss ↦ miss
]
  where
    clash : same_key x q ≡ true → ⊥
    clash same = cc

at_most : (b : Bool) (n m s : ℕ) → n ≡ m → (if b then n else 0) + s ≤ m + (0 + s)
at_most b n m s h = ground arith

reclaimed_total-le :
    (now : ℕ) (key wallet : Text) (rows : List TokenOperationRecord) (r : TokenOperationRecord)
    → Apart same_key rows
    → find_by (has_key key) rows ≡ some r
    → sum_where
        (is_unresolved wallet)
        (λ r. r.amount)
        (update_where (has_key key) (reclaim now) rows)
      ≤ r.amount
        + sum_where (λ r. not (has_key key r) && is_unresolved wallet r) (λ r. r.amount) rows
reclaimed_total-le now key wallet [] r u e = cc
reclaimed_total-le now key wallet (x ∷ rows) r (fresh, u) e = elim (Bool-cases (has_key key x)) [
  | inl hit ↦
      let absent : All (λ q. has_key key q ≡ false) rows =
        All-mono _ _ rows (λ q apart. key_absent key x q hit apart) fresh in
      let same : x ≡ r = some-injective x r (rw hit at e) in
      rw (hit, update_absent key (reclaim now) rows absent, other_total-eq key wallet rows absent)
        (at_most (is_unresolved wallet (reclaim now x)) (reclaim now x).amount r.amount _
          (unfold reclaim in ap (λ y. y.amount) same))
  | inr miss ↦
      let rest = reclaimed_total-le now key wallet rows r u (rw miss at e) in rw miss (ground arith)
]

-- The check has passed: the amount fits in what the other holds leave.
record Checked (request : ClaimRequest) (amount : ℕ) (db : Database) : Type 0 where
  sampled : Value
  balance : CanonicalTokenAmount
  was_sampled : request.get_on_chain_balance ≡ some (ok sampled)
  was_read : truncate_token_amount sampled ≡ some balance
  fits :
      amount
        + (reserved_total request.wallet_address db
            + other_unresolved_total request.operation_key request.wallet_address db)
      ≤ balance.units

sampled_capacity-Checked :
    (request : ClaimRequest) (amount : ℕ) (sample : Option (Result Error Value)) (db : Database)
    {u : Unit {0}}
    → request.get_on_chain_balance ≡ sample
    → is_some sample ≡ true
    → sampled_capacity request amount sample db ≡ ok u
    → Checked request amount db
unfolding sampled_capacity capacity_ok
sampled_capacity-Checked request amount none db g s h = absurd (cc)
sampled_capacity-Checked request amount (some (err x)) db g s h = absurd (cc)
sampled_capacity-Checked request amount (some (ok sampled)) db g s h =
    let (balance, b, rest) = >>=-eq-ok _ _ h in
    let enough = require-eq-ok _ _ rest in
    record {
      sampled = sampled;
      balance = balance;
      was_sampled = g;
      was_read = or_fail-eq-ok _ _ b;
      fits = ground arith;
    }

check-Checked :
    (request : ClaimRequest) (amount : ℕ) (db : Database) {u : Unit {0}}
    → IsManual request
    → check_manual_capacity request amount db ≡ ok u
    → Checked request amount db
unfolding check_manual_capacity
check-Checked request amount db m h =
    sampled_capacity-Checked request amount request.get_on_chain_balance db refl m.samples
      (rw (m.is_a_spend, m.without_reservation) at h)

abbrev pub acquires : TokenOperationClaim → Bool
acquires (acquired _) = true
acquires _ = false

abbrev AcquiredCovered : ClaimRequest → TokenOperationClaim × Database → Type 0
AcquiredCovered request q = acquires q.0 ≡ true → Covered request q.1

covered :
    (request : ClaimRequest) (amount : ℕ) (db db' : Database)
    → Checked request amount db
    → held_total request.wallet_address db'
      ≤ amount
        + (reserved_total request.wallet_address db
            + other_unresolved_total request.operation_key request.wallet_address db)
    → Covered request db'
covered request amount db db' c h =
    let fits = c.fits in
    record {
      sampled = c.sampled;
      balance = c.balance;
      was_sampled = c.was_sampled;
      was_read = c.was_read;
      fits = omega (arith, h, fits);
    }

inserted-le :
    (now : ℕ) (request : ClaimRequest) (amount : ℕ) (db : Database)
    → All (λ q. has_key request.operation_key q ≡ false) db.token_operations
    → held_total request.wallet_address
        (record db { token_operations = new_operation now request amount ∷ db.token_operations })
      ≤ amount
        + (reserved_total request.wallet_address db
            + other_unresolved_total request.operation_key request.wallet_address db)
unfolding held_total reserved_total unresolved_total other_unresolved_total
inserted-le now request amount db absent =
    let same =
      other_total-eq request.operation_key request.wallet_address db.token_operations absent in
    let row =
      at_most (is_unresolved request.wallet_address (new_operation now request amount))
        (new_operation now request amount).amount amount
        (sum_where (is_unresolved request.wallet_address) (λ r. r.amount) db.token_operations)
        (unfold new_operation in refl) in
    omega (arith, same, row)

reclaimed-le :
    (now : ℕ) (request : ClaimRequest) (r : TokenOperationRecord) (db : Database)
    → Keyed db
    → find_by (has_key request.operation_key) db.token_operations ≡ some r
    → held_total request.wallet_address
        (update_operations (has_key request.operation_key) (reclaim now) db)
      ≤ r.amount
        + (reserved_total request.wallet_address db
            + other_unresolved_total request.operation_key request.wallet_address db)
unfolding held_total reserved_total unresolved_total other_unresolved_total
reclaimed-le now request r db u e =
    let le =
      reclaimed_total-le now request.operation_key request.wallet_address db.token_operations r u
        e in
    omega (arith, le)

intent_matches-amount :
    (r : TokenOperationRecord) (request : ClaimRequest) (amount : ℕ)
    → is_spend request.operation_type ≡ true
    → intent_matches r request amount (not (is_award request.operation_type)) ≡ true
    → r.amount ≡ amount
unfolding intent_matches
intent_matches-amount r request amount s h = ground arith

intent_amount :
    (r : TokenOperationRecord) (request : ClaimRequest) (amount : ℕ) {v : Unit {0}}
    → is_spend request.operation_type ≡ true
    → assert_operation_intent r request amount (not (is_award request.operation_type)) ≡ ok v
    → r.amount ≡ amount
unfolding assert_operation_intent
intent_amount r request amount s h =
    let (_, _, intent) =
      >>=-eq-ok (require (session_matches r request) charging_session_mismatch)
        (λ _.
          require (intent_matches r request amount (not (is_award request.operation_type)))
            operation_intent_mismatch)
        h in
    intent_matches-amount r request amount s (require-eq-ok _ _ intent)

not_acquired : false ≡ true → ⊥
not_acquired h = cc

spend_only : (t : TokenOperationType) → is_spend t ≡ true → is_award t ≡ false
spend_only t h = ground arith

claim_existing-Covered :
    (now : ℕ) (request : ClaimRequest) (amount : ℕ) (r : TokenOperationRecord) (db : Database)
    → IsManual request
    → Keyed db
    → find_by (has_key request.operation_key) db.token_operations ≡ some r
    → Ensures (AcquiredCovered request) (claim_existing now request amount r db)
unfolding claim_existing
claim_existing-Covered now request amount r db m u e =
    Ensures-bind _
      (assert_operation_intent r request amount (not (is_award request.operation_type))) _
      λ _ i. elim (Bool-cases (is_reclaimable r)) [
        | inl again ↦ rw again (
            Ensures-bind _ (check_manual_capacity request amount db) _ λ _ c _.
              covered request amount db _ (check-Checked request amount db m c) (
                subst
                  (λ n.
                    held_total request.wallet_address
                      (update_operations (has_key request.operation_key) (reclaim now) db)
                    ≤ n
                      + (reserved_total request.wallet_address db
                          + other_unresolved_total request.operation_key request.wallet_address db))
                  (intent_amount r request amount m.is_a_spend i)
                  (reclaimed-le now request r db u e)))
        | inr other ↦ rw other (λ old. absurd (not_acquired old))
      ]

claim_new-Covered :
    (now : ℕ) (request : ClaimRequest) (amount : ℕ) (db : Database)
    → IsManual request
    → find_by (has_key request.operation_key) db.token_operations ≡ none
    → Ensures (AcquiredCovered request) (claim_new now request amount db)
unfolding claim_new insert_operation
claim_new-Covered now request amount db m e = rw (spend_only request.operation_type m.is_a_spend) (
    Ensures-bind _ (check_manual_capacity request amount db) _ λ _ c _.
      covered request amount db _ (check-Checked request amount db m c)
        (inserted-le now request amount db (find_by-none _ db.token_operations e)))

-- A spend without a reservation, whose caller samples the balance, and which is acquired, for a new
-- operation or again for one that failed before any broadcast, leaves the wallet's active holds and
-- its unsettled manual spends, its own included, no greater than the balance that the sampler
-- answered, rounded down to hundredths of a token, if no two operations have one key.
pub claim_backed :
    (now : ℕ) (request : ClaimRequest) (db : Database) (op : TokenOperationRecord) (db' : Database)
    → IsManual request
    → Keyed db
    → claim now request db ≡ ok (acquired op, db')
    → Covered request db'
unfolding claim find_by_key
claim_backed now request db op db' m u h =
    Ensures-ok (AcquiredCovered request) _
      (Ensures-bind _
        (or_fail (canonical_token_amount (text request.amount)) unsupported_token_precision) _
        λ amount _.
          elim (Option-cases (find_by (has_key request.operation_key) db.token_operations)) [
            | inl e ↦ rw (e, claim_key) (claim_new-Covered now request amount.units db m e)
            | inr (r, e) ↦
                rw (e, claim_key) (claim_existing-Covered now request amount.units r db m u e)
          ])
      h refl
