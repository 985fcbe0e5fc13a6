-- ===== src/Operations/ClaimSteps.antt =====
-- A claim as a step of the abstract ledger, on a table whose keys are unique.
use ev_web3_award_system.Prelude.{
  ℕ, ◌≡◌, refl, inl, inr, true, false, ◌&&◌, not, List, Option, none, some, is_some, ok, find_by,
  All, Apart, arith, Option-cases, find_by-none, Ensures-bind, Bool-cases, All-mono, All-zip,
  All-intro, or_fail, subst, sym, ◌∙◌, only_found,
}
use ev_web3_award_system.Text.{Text}
use ev_web3_award_system.Text.Laws.{text_eq_iff}
use ev_web3_award_system.Amount.{canonical_token_amount, text}
use ev_web3_award_system.Store.{
  Database, TokenOperationRecord, AwardRecord, unsupported_token_precision,
}
use ev_web3_award_system.Operations.Rows.{is_award, truthy, has_key, find_by_key}
use ev_web3_award_system.Operations.Claim.{
  ClaimRequest, assert_operation_intent, check_manual_capacity, is_reclaimable, reclaim,
  claim_existing, clashes_session, charging_session_free, clashes_legacy, legacy_key_free,
  accept_legacy, find_legacy, new_operation, insert_operation, claim_legacy, claim_award, claim_new,
  claim_key, claim,
}
use ev_web3_award_system.Operations.Ledger.{
  Allowed, shares_session, shares_legacy, same_key, stay, edit, add,
}
use ev_web3_award_system.Operations.Steps.{Steps}

abbrev pub Keyed : Database → Type 0
Keyed db = Apart same_key db.token_operations

pub has_key-same :
    (key : Text) (x q : TokenOperationRecord)
    → has_key key x ≡ true
    → has_key key q ≡ true
    → same_key x q ≡ true
unfolding has_key same_key
has_key-same key x q h k =
    let same_keys =
      (text_eq_iff q.operation_key key).0 k ∙ sym ((text_eq_iff x.operation_key key).0 h) in
    (text_eq_iff q.operation_key x.operation_key).1 same_keys

-- With unique keys, the row that a key finds is the only one of that key.
pub only_row :
    (key : Text) (rows : List TokenOperationRecord) (r : TokenOperationRecord)
    → Apart same_key rows
    → find_by (has_key key) rows ≡ some r
    → All (λ q. has_key key q ≡ true → q ≡ r) rows
only_row key rows r = only_found (has_key key) same_key rows r (has_key-same key)

reclaim-Allowed :
    (now : ℕ) (r : TokenOperationRecord) → is_reclaimable r ≡ true → Allowed r (reclaim now r)
unfolding is_reclaimable reclaim
reclaim-Allowed now r h = ground arith

claim_existing-Steps :
    (now : ℕ) (request : ClaimRequest) (amount : ℕ) (r : TokenOperationRecord) (db : Database)
    → Keyed db
    → find_by (has_key request.operation_key) db.token_operations ≡ some r
    → Steps db (claim_existing now request amount r db)
unfolding claim_existing
claim_existing-Steps now request amount r db u e =
    Ensures-bind _
      (assert_operation_intent r request amount (not (is_award request.operation_type))) _
      λ _ _. elim (Bool-cases (is_reclaimable r)) [
        | inl yes_ ↦ rw yes_ (
            Ensures-bind _ (check_manual_capacity request amount db) _ λ _ _.
              edit (has_key request.operation_key) (reclaim now)
                (All-mono _ _ db.token_operations
                  (λ q same hit.
                    subst (λ x. Allowed x (reclaim now x)) (sym (same hit))
                      (reclaim-Allowed now r yes_))
                  (only_row request.operation_key db.token_operations r u e))
                refl)
        | inr no_ ↦ rw no_ (stay refl)
      ]

-- What the guards leave: no other row of the key, the session or the legacy key.
pub record IsFresh (now : ℕ) (request : ClaimRequest) (amount : ℕ) (db : Database) : Type 0 where
  pub key_free :
      All (λ q. same_key (new_operation now request amount) q ≡ false) db.token_operations
  pub session_free :
      All (λ q. shares_session (new_operation now request amount) q ≡ false) db.token_operations
  pub legacy_free :
      All (λ q. shares_legacy (new_operation now request amount) q ≡ false) db.token_operations

insert_operation-Steps :
    (now : ℕ) (request : ClaimRequest) (amount : ℕ) (db : Database)
    → IsFresh now request amount db
    → Steps db (insert_operation now request amount db)
unfolding insert_operation
insert_operation-Steps now request amount db fresh =
    Ensures-bind _ (check_manual_capacity request amount db) _ λ _ _.
      add (new_operation now request amount) (unfold new_operation in refl)
        (unfold new_operation in refl) fresh.key_free fresh.session_free fresh.legacy_free refl

claim_legacy-Steps :
    (now : ℕ) (request : ClaimRequest) (amount : ℕ) (legacy : Option AwardRecord) (db : Database)
    → IsFresh now request amount db
    → Steps db (claim_legacy now request amount legacy db)
unfolding claim_legacy
claim_legacy-Steps now request amount none db fresh =
    insert_operation-Steps now request amount db fresh
claim_legacy-Steps now request amount (some legacy) db fresh =
    Ensures-bind _ (accept_legacy request legacy db) _ (λ _ _. stay refl)

spend-IsFresh :
    (now : ℕ) (request : ClaimRequest) (amount : ℕ) (q : TokenOperationRecord)
    → is_award request.operation_type ≡ false
    → (shares_session (new_operation now request amount) q ≡ false)
      × (shares_legacy (new_operation now request amount) q ≡ false)
unfolding shares_session shares_legacy new_operation
spend-IsFresh now request amount q h = ground arith

session-IsFresh :
    (now : ℕ) (request : ClaimRequest) (amount : ℕ) (provider session : Text)
    (q : TokenOperationRecord)
    → truthy request.provider_id ≡ some provider
    → truthy request.charging_session_id ≡ some session
    → has_key request.operation_key q ≡ false
    → clashes_session request.operation_key provider session q ≡ false
    → shares_session (new_operation now request amount) q ≡ false
unfolding shares_session clashes_session new_operation
session-IsFresh now request amount provider session q p s k h = rw (p, s) (ground arith)

no_session-IsFresh :
    (now : ℕ) (request : ClaimRequest) (amount : ℕ) (q : TokenOperationRecord)
    → is_some (truthy request.provider_id) && is_some (truthy request.charging_session_id) ≡ false
    → shares_session (new_operation now request amount) q ≡ false
unfolding shares_session new_operation
no_session-IsFresh now request amount q h = ground arith

legacy-IsFresh :
    (now : ℕ) (request : ClaimRequest) (amount : ℕ) (legacy : Text) (q : TokenOperationRecord)
    → truthy request.legacy_key ≡ some legacy
    → has_key request.operation_key q ≡ false
    → clashes_legacy request.operation_key legacy q ≡ false
    → shares_legacy (new_operation now request amount) q ≡ false
unfolding shares_legacy clashes_legacy new_operation
legacy-IsFresh now request amount legacy q l k h = rw l (ground arith)

no_legacy-IsFresh :
    (now : ℕ) (request : ClaimRequest) (amount : ℕ) (q : TokenOperationRecord)
    → truthy request.legacy_key ≡ none
    → shares_legacy (new_operation now request amount) q ≡ false
unfolding shares_legacy new_operation
no_legacy-IsFresh now request amount q l = rw l (ground arith)

sessions_free :
    (now : ℕ) (request : ClaimRequest) (amount : ℕ) (provider session : Option Text) (db : Database)
    → truthy request.provider_id ≡ provider
    → truthy request.charging_session_id ≡ session
    → All (λ q. has_key request.operation_key q ≡ false) db.token_operations
    → charging_session_free request provider session db ≡ ok tt
    → All (λ q. shares_session (new_operation now request amount) q ≡ false) db.token_operations
unfolding charging_session_free
sessions_free now request amount none session db p s k h =
    All-intro _ db.token_operations (λ q. no_session-IsFresh now request amount q (rw p refl))
sessions_free now request amount (some provider) none db p s k h =
    All-intro _ db.token_operations (λ q. no_session-IsFresh now request amount q (rw (p, s) refl))
sessions_free now request amount (some provider) (some session) db p s k h =
    elim (Option-cases
      (find_by (clashes_session request.operation_key provider session) db.token_operations)) [
        | inl e ↦
            All-zip _ _ _ db.token_operations
              (λ q. session-IsFresh now request amount provider session q p s) k
              (find_by-none _ db.token_operations e)
        | inr (r, e) ↦ absurd (ground arith)
      ]

legacies_free :
    (now : ℕ) (request : ClaimRequest) (amount : ℕ) (legacy : Option Text) (db : Database)
    → truthy request.legacy_key ≡ legacy
    → All (λ q. has_key request.operation_key q ≡ false) db.token_operations
    → legacy_key_free request legacy db ≡ ok tt
    → All (λ q. shares_legacy (new_operation now request amount) q ≡ false) db.token_operations
unfolding legacy_key_free
legacies_free now request amount none db l k h =
    All-intro _ db.token_operations (λ q. no_legacy-IsFresh now request amount q l)
legacies_free now request amount (some legacy) db l k h =
    elim (Option-cases
      (find_by (clashes_legacy request.operation_key legacy) db.token_operations)) [
        | inl e ↦
            All-zip _ _ _ db.token_operations (λ q. legacy-IsFresh now request amount legacy q l) k
              (find_by-none _ db.token_operations e)
        | inr (r, e) ↦ absurd (ground arith)
      ]

keys_free :
    (now : ℕ) (request : ClaimRequest) (amount : ℕ) (db : Database)
    → All (λ q. has_key request.operation_key q ≡ false) db.token_operations
    → All (λ q. same_key (new_operation now request amount) q ≡ false) db.token_operations
unfolding same_key new_operation has_key
keys_free now request amount db k = k

claim_award-Steps :
    (now : ℕ) (request : ClaimRequest) (amount : ℕ) (db : Database)
    → All (λ q. has_key request.operation_key q ≡ false) db.token_operations
    → Steps db (claim_award now request amount db)
unfolding claim_award
claim_award-Steps now request amount db k =
    Ensures-bind _ (charging_session_free request _ _ db) _ λ _ s.
      Ensures-bind _ (legacy_key_free request _ db) _ λ _ l.
        claim_legacy-Steps now request amount (find_legacy (truthy request.legacy_key) db) db
          (record {
            key_free = keys_free now request amount db k;
            session_free = sessions_free now request amount _ _ db refl refl k s;
            legacy_free = legacies_free now request amount _ db refl k l;
          })

claim_new-Steps :
    (now : ℕ) (request : ClaimRequest) (amount : ℕ) (db : Database)
    → All (λ q. has_key request.operation_key q ≡ false) db.token_operations
    → Steps db (claim_new now request amount db)
unfolding claim_new
claim_new-Steps now request amount db k = elim (Bool-cases (is_award request.operation_type)) [
  | inl award ↦ rw award (claim_award-Steps now request amount db k)
  | inr spend ↦ rw spend (
      insert_operation-Steps now request amount db (record {
        key_free = keys_free now request amount db k;
        session_free =
            All-intro _ db.token_operations (λ q. (spend-IsFresh now request amount q spend).0);
        legacy_free =
            All-intro _ db.token_operations (λ q. (spend-IsFresh now request amount q spend).1);
      }))
]

pub claim-Steps :
    (now : ℕ) (request : ClaimRequest) (db : Database) → Keyed db → Steps db (claim now request db)
unfolding claim find_by_key
claim-Steps now request db u =
    Ensures-bind _
      (or_fail (canonical_token_amount (text request.amount)) unsupported_token_precision) _
      λ amount _.
        elim (Option-cases (find_by (has_key request.operation_key) db.token_operations)) [
          | inl e ↦
              rw (e, claim_key)
                (claim_new-Steps now request amount.units db (find_by-none _ db.token_operations e))
          | inr (r, e) ↦ rw (e, claim_key) (claim_existing-Steps now request amount.units r db u e)
        ]
