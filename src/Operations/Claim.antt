-- ===== src/Operations/Claim.antt =====
-- TokenOperations.claim and assertOperationIntent. The advisory locks make a claim one atomic step.
use ev_web3_award_system.Prelude.{
  ℕ, ◌+◌, ◌-◌, Bool, false, ◌&&◌, ◌||◌, not, ◌∷◌, Option, none, some, Result, ok, err, ◌>>=◌, ◌>>◌,
  require, or_fail, is_some, find_by, if◌then◌else◌, ltb, ◌==◌,
}
use ev_web3_award_system.Text.{Text, codes, text_eq, nullable_eq, same_lower, starts_with}
use ev_web3_award_system.Amount.{Value, text, canonical_token_amount, truncate_token_amount}
use ev_web3_award_system.Binary64.{token_number}
use ev_web3_award_system.Store.{
  Database, TokenOperationRecord, TokenOperationType, TokenOperationStatus, TokenMovementOutcome,
  AwardRecord, UserRecord, Error, unsupported_token_precision, charging_session_mismatch,
  operation_intent_mismatch, spend_balance_unavailable, insufficient_sparkz_available,
  charging_session_collision, legacy_claim_collision, legacy_tuple_collision,
  legacy_owner_collision,
}
use ev_web3_award_system.Operations.Rows.{
  is_award, is_spend, is_failed, same_type, has_key, find_by_key, truthy, update_operations,
}
use ev_web3_award_system.Operations.Capacity.{reserved_total, other_unresolved_total}

-- `get_on_chain_balance` is what the balance sampler will answer, if the caller passes one.
pub record ClaimRequest : Type 0 where
  pub operation_key : Text
  pub operation_type : TokenOperationType
  pub request_fingerprint : Text
  pub uid : Text
  pub wallet_address : Text
  pub amount : Text
  pub session_id : Option Text
  pub provider_id : Option Text
  pub charging_session_id : Option Text
  pub reservation_id : Option Text
  pub intent_context : Option Text
  pub legacy_key : Option Text
  pub get_on_chain_balance : Option (Result Error Value)

pub data TokenOperationClaim : Type 0 where
  acquired existing : TokenOperationRecord → TokenOperationClaim
  legacy_record : AwardRecord → TokenOperationClaim

-- The award row is bound to a charging session, and the request to that one.
unfoldable pub session_matches : TokenOperationRecord → ClaimRequest → Bool
unfolding nullable_eq
session_matches r request =
    not (is_award r.operation_type && is_some (truthy r.charging_session_id))
    || nullable_eq r.charging_session_id request.charging_session_id

unfoldable pub intent_matches : TokenOperationRecord → ClaimRequest → ℕ → Bool → Bool
unfolding same_lower text_eq
intent_matches r request amount compare_amount =
    same_type r.operation_type request.operation_type
    && text_eq r.request_fingerprint request.request_fingerprint
    && text_eq r.uid request.uid
    && same_lower r.wallet_address request.wallet_address
    && (not compare_amount || r.amount == amount)

unfoldable pub assert_operation_intent :
    TokenOperationRecord → ClaimRequest → ℕ → Bool → Result Error (Unit {0})
unfolding session_matches intent_matches
assert_operation_intent r request amount compare_amount = do
  require (session_matches r request) charging_session_mismatch
  require (intent_matches r request amount compare_amount) operation_intent_mismatch

-- A manual spend whose caller samples the balance.
unfoldable pub capacity_ok : ClaimRequest → ℕ → ℕ → Database → Result Error (Unit {0})
unfolding reserved_total other_unresolved_total token_number
capacity_ok request amount balance db =
    let held =
      reserved_total request.wallet_address db
      + other_unresolved_total request.operation_key request.wallet_address db in
    require (not (ltb balance (amount + held)))
      (insufficient_sparkz_available (token_number (balance - held)))

unfoldable pub sampled_capacity :
    ClaimRequest → ℕ → Option (Result Error Value) → Database → Result Error (Unit {0})
unfolding capacity_ok
sampled_capacity request amount none db = ok tt
sampled_capacity request amount (some sample) db = do
  sampled_balance ← sample
  balance ← or_fail (truncate_token_amount sampled_balance) spend_balance_unavailable
  capacity_ok request amount balance.units db

unfoldable pub check_manual_capacity : ClaimRequest → ℕ → Database → Result Error (Unit {0})
unfolding sampled_capacity
check_manual_capacity request amount db =
    if is_spend request.operation_type && not (is_some (truthy request.reservation_id))
    then sampled_capacity request amount request.get_on_chain_balance db
    else ok tt

abbrev pub begins_preflight : Option Text → Bool
begins_preflight none = false
begins_preflight (some message) = starts_with (codes "PREFLIGHT:") message

-- A failure before any broadcast, which a retry may claim again.
unfoldable pub is_reclaimable : TokenOperationRecord → Bool
unfolding starts_with
is_reclaimable r = is_failed r.status && not (is_some r.tx_hash) && begins_preflight r.error_message

unfoldable pub reclaim : ℕ → TokenOperationRecord → TokenOperationRecord
reclaim now r = record r {
  status = TokenOperationStatus.submitting;
  movement_outcome = some TokenMovementOutcome.unknown;
  error_message = none;
  updated_at = now;
}

unfoldable pub claim_existing :
    ℕ
    → ClaimRequest
    → ℕ
    → TokenOperationRecord
    → Database
    → Result Error (TokenOperationClaim × Database)
unfolding assert_operation_intent is_reclaimable check_manual_capacity reclaim has_key
claim_existing now request amount r db =
    assert_operation_intent r request amount (not (is_award request.operation_type))
    >> (if is_reclaimable r
        then check_manual_capacity request amount db
          >> ok (
            acquired (reclaim now r),
            update_operations (has_key request.operation_key) (reclaim now) db,
          )
        else ok (existing r, db))

-- Another award of the same provider and physical charging session.
unfoldable pub clashes_session : Text → Text → Text → TokenOperationRecord → Bool
unfolding nullable_eq has_key
clashes_session key provider session r =
    is_award r.operation_type
    && nullable_eq r.provider_id (some provider)
    && nullable_eq r.charging_session_id (some session)
    && not (has_key key r)

unfoldable pub charging_session_free :
    ClaimRequest → Option Text → Option Text → Database → Result Error (Unit {0})
unfolding clashes_session
charging_session_free request (some provider) (some session) db =
    elim (find_by (clashes_session request.operation_key provider session) db.token_operations) [
      | none ↦ ok tt
      | some r ↦ err (charging_session_collision r.operation_key)
    ]
charging_session_free request _ _ db = ok tt

-- Another award of the same legacy key.
unfoldable pub clashes_legacy : Text → Text → TokenOperationRecord → Bool
unfolding nullable_eq has_key
clashes_legacy key legacy r =
    is_award r.operation_type && nullable_eq r.legacy_key (some legacy) && not (has_key key r)

unfoldable pub legacy_key_free : ClaimRequest → Option Text → Database → Result Error (Unit {0})
unfolding clashes_legacy
legacy_key_free request none db = ok tt
legacy_key_free request (some legacy) db =
    elim (find_by (clashes_legacy request.operation_key legacy) db.token_operations) [
      | none ↦ ok tt
      | some r ↦ err (legacy_claim_collision r.operation_key)
    ]

abbrev pub owned_by : ClaimRequest → Option UserRecord → Bool
owned_by request none = false
owned_by request (some user) =
    text_eq user.uid request.uid && same_lower user.wallet_address request.wallet_address

-- An award from before the ledger counts as a duplicate if session, provider and owner agree.
unfoldable pub accept_legacy : ClaimRequest → AwardRecord → Database → Result Error (Unit {0})
unfolding nullable_eq text_eq same_lower
accept_legacy request legacy db = do
  require
      (nullable_eq (some legacy.session_id) request.session_id
        && nullable_eq (some legacy.provider_id) request.provider_id)
      legacy_tuple_collision
  require (owned_by request (find_by (λ u. text_eq u.id legacy.user_id) db.users))
      legacy_owner_collision

unfoldable pub find_legacy : Option Text → Database → Option AwardRecord
unfolding text_eq
find_legacy none db = none
find_legacy (some legacy) db = find_by (λ a. text_eq a.dedup_key legacy) db.awards

unfoldable pub new_operation : ℕ → ClaimRequest → ℕ → TokenOperationRecord
new_operation now request amount = record {
  operation_key = request.operation_key;
  operation_type = request.operation_type;
  legacy_key = truthy request.legacy_key;
  request_fingerprint = request.request_fingerprint;
  uid = request.uid;
  wallet_address = request.wallet_address;
  amount = amount;
  session_id = truthy request.session_id;
  provider_id = truthy request.provider_id;
  charging_session_id = truthy request.charging_session_id;
  reservation_id = truthy request.reservation_id;
  intent_context = request.intent_context;
  status = TokenOperationStatus.submitting;
  movement_outcome = some TokenMovementOutcome.unknown;
  tx_hash = none;
  tx_nonce = none;
  tx_context = none;
  diagnostic_context = none;
  error_message = none;
  submitted_at = none;
  confirmed_at = none;
  projected_at = none;
  created_at = now;
  updated_at = now;
}

unfoldable pub insert_operation :
    ℕ → ClaimRequest → ℕ → Database → Result Error (TokenOperationClaim × Database)
unfolding check_manual_capacity new_operation
insert_operation now request amount db =
    check_manual_capacity request amount db
    >> ok (
      acquired (new_operation now request amount),
      record db { token_operations = new_operation now request amount ∷ db.token_operations },
    )

unfoldable pub claim_legacy :
    ℕ
    → ClaimRequest
    → ℕ
    → Option AwardRecord
    → Database
    → Result Error (TokenOperationClaim × Database)
unfolding insert_operation accept_legacy
claim_legacy now request amount none db = insert_operation now request amount db
claim_legacy now request amount (some legacy) db =
    accept_legacy request legacy db >> ok (legacy_record legacy, db)

-- The guards of an award come before the insertion.
unfoldable pub claim_award :
    ℕ → ClaimRequest → ℕ → Database → Result Error (TokenOperationClaim × Database)
unfolding claim_legacy charging_session_free legacy_key_free find_legacy
claim_award now request amount db = do
  charging_session_free request (truthy request.provider_id) (truthy request.charging_session_id) db
  legacy_key_free request (truthy request.legacy_key) db
  claim_legacy now request amount (find_legacy (truthy request.legacy_key) db) db

-- No row has the key yet.
unfoldable pub claim_new :
    ℕ → ClaimRequest → ℕ → Database → Result Error (TokenOperationClaim × Database)
unfolding claim_award insert_operation
claim_new now request amount db =
    if is_award request.operation_type
    then claim_award now request amount db
    else insert_operation now request amount db

unfoldable pub claim_key :
    ℕ
    → ClaimRequest
    → ℕ
    → Option TokenOperationRecord
    → Database
    → Result Error (TokenOperationClaim × Database)
unfolding claim_existing claim_new
claim_key now request amount (some r) db = claim_existing now request amount r db
claim_key now request amount none db = claim_new now request amount db

unfoldable pub claim : ℕ → ClaimRequest → Database → Result Error (TokenOperationClaim × Database)
unfolding claim_key find_by_key
claim now request db = do
  amount ← or_fail (canonical_token_amount (text request.amount)) unsupported_token_precision
  claim_key now request amount.units (find_by_key request.operation_key db) db
