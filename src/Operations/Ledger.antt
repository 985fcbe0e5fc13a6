-- ===== src/Operations/Ledger.antt =====
-- The abstract ledger: which changes of a row are allowed, and what a step of the table is.
-- Operations/Steps gives the step of each operation.
use ev_web3_award_system.Prelude.{
  ℕ, ◌≡◌, ◌⊎◌, Bool, true, false, ◌&&◌, List, ◌∷◌, Option, none, is_some, update_where, All, arith,
}
use ev_web3_award_system.Text.{Text, text_eq, nullable_eq}
use ev_web3_award_system.Store.{TokenOperationRecord, TokenOperationType, TokenOperationStatus}
use ev_web3_award_system.Operations.Rows.{is_award}

-- What a claim fixes for good.
pub record Identity : Type 0 where
  pub operation_key : Text
  pub operation_type : TokenOperationType
  pub legacy_key : Option Text
  pub request_fingerprint : Text
  pub uid : Text
  pub wallet_address : Text
  pub amount : ℕ
  pub session_id : Option Text
  pub provider_id : Option Text
  pub charging_session_id : Option Text
  pub reservation_id : Option Text
  pub intent_context : Option Text
  pub created_at : ℕ

abbrev pub identity : TokenOperationRecord → Identity
identity r = record {
  operation_key = r.operation_key;
  operation_type = r.operation_type;
  legacy_key = r.legacy_key;
  request_fingerprint = r.request_fingerprint;
  uid = r.uid;
  wallet_address = r.wallet_address;
  amount = r.amount;
  session_id = r.session_id;
  provider_id = r.provider_id;
  charging_session_id = r.charging_session_id;
  reservation_id = r.reservation_id;
  intent_context = r.intent_context;
  created_at = r.created_at;
}

-- The movement is confirmed on the chain.
abbrev pub has_moved : TokenOperationStatus → Bool
has_moved TokenOperationStatus.confirmed = true
has_moved TokenOperationStatus.projected = true
has_moved _ = false

-- A row may become another: the claim's data stay, a saved hash stays, and with a saved hash failed,
-- moved and projected are final.
pub record Allowed (r s : TokenOperationRecord) : Type 0 where
  pub same_identity : identity s ≡ identity r
  pub hash_kept : (r.tx_hash ≡ none) ⊎ (s.tx_hash ≡ r.tx_hash)
  pub failed_final :
      is_some r.tx_hash ≡ true
      → r.status ≡ TokenOperationStatus.failed
      → s.status ≡ TokenOperationStatus.failed
  pub moved_final : is_some r.tx_hash ≡ true → has_moved r.status ≡ true → has_moved s.status ≡ true
  pub projected_final :
      is_some r.tx_hash ≡ true
      → r.status ≡ TokenOperationStatus.projected
      → s.status ≡ TokenOperationStatus.projected

pub Allowed-refl : (r : TokenOperationRecord) → Allowed r r
Allowed-refl r = ground arith

pub Allowed-trans : (r s t : TokenOperationRecord) → Allowed r s → Allowed s t → Allowed r t
Allowed-trans r s t a b = ground arith

-- Two awards of one provider and physical charging session.
unfoldable pub shares_session : TokenOperationRecord → TokenOperationRecord → Bool
unfolding nullable_eq
shares_session r q =
    is_award r.operation_type
    && is_award q.operation_type
    && is_some r.provider_id
    && is_some r.charging_session_id
    && nullable_eq q.provider_id r.provider_id
    && nullable_eq q.charging_session_id r.charging_session_id

-- Two awards of one legacy key.
unfoldable pub shares_legacy : TokenOperationRecord → TokenOperationRecord → Bool
unfolding nullable_eq
shares_legacy r q =
    is_award r.operation_type
    && is_award q.operation_type
    && is_some r.legacy_key
    && nullable_eq q.legacy_key r.legacy_key

unfoldable pub same_key : TokenOperationRecord → TokenOperationRecord → Bool
unfolding text_eq
same_key r q = text_eq q.operation_key r.operation_key

pub data Step (before after : List TokenOperationRecord) : Type 0 where
  stay : after ≡ before → Step before after
  edit :
      (p : TokenOperationRecord → Bool) (f : TokenOperationRecord → TokenOperationRecord)
      → All (λ r. p r ≡ true → Allowed r (f r)) before
      → after ≡ update_where p f before
      → Step before after
  add :
      (r : TokenOperationRecord)
      → r.tx_hash ≡ none
      → r.status ≡ TokenOperationStatus.submitting
      → All (λ q. same_key r q ≡ false) before
      → All (λ q. shares_session r q ≡ false) before
      → All (λ q. shares_legacy r q ≡ false) before
      → after ≡ r ∷ before
      → Step before after
