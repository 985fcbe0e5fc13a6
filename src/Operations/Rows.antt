-- ===== src/Operations/Rows.antt =====
-- The conditions of the queries on token_operations.
use ev_web3_award_system.Prelude.{
  Bool, true, false, ◌&&◌, not, List, Option, none, some, is_some, find_by, update_where,
  if◌then◌else◌,
}
use ev_web3_award_system.Text.{Text, text_eq, same_lower, is_empty}
use ev_web3_award_system.Store.{
  Database, TokenOperationRecord, TokenOperationType, TokenOperationStatus, TokenMovementOutcome,
}

abbrev pub is_award : TokenOperationType → Bool
is_award TokenOperationType.award = true
is_award TokenOperationType.spend = false

abbrev pub is_spend : TokenOperationType → Bool
is_spend TokenOperationType.award = false
is_spend TokenOperationType.spend = true

abbrev pub same_type : TokenOperationType → TokenOperationType → Bool
same_type TokenOperationType.award t = is_award t
same_type TokenOperationType.spend t = is_spend t

-- `whereIn('status', ['submitting', 'submitted', 'unknown'])`.
abbrev pub in_flight : TokenOperationStatus → Bool
in_flight TokenOperationStatus.submitting = true
in_flight TokenOperationStatus.submitted = true
in_flight TokenOperationStatus.unknown = true
in_flight _ = false

-- `whereIn('status', ['submitting', 'submitted', 'unknown', 'confirmed'])`.
abbrev pub before_projection : TokenOperationStatus → Bool
before_projection TokenOperationStatus.confirmed = true
before_projection status = in_flight status

abbrev pub is_failed : TokenOperationStatus → Bool
is_failed TokenOperationStatus.failed = true
is_failed _ = false

abbrev pub is_projected : TokenOperationStatus → Bool
is_projected TokenOperationStatus.projected = true
is_projected _ = false

-- `movement_outcome is null or movement_outcome <> 'no_movement'`.
abbrev pub may_have_moved : Option TokenMovementOutcome → Bool
may_have_moved (some TokenMovementOutcome.no_movement) = false
may_have_moved _ = true

-- `where({ operation_key })`.
unfoldable pub has_key : Text → TokenOperationRecord → Bool
has_key key r = text_eq r.operation_key key

-- `value || null` on a nullable text.
abbrev pub truthy : Option Text → Option Text
truthy none = none
truthy (some s) = if is_empty s then none else some s

unfoldable pub find_by_key : Text → Database → Option TokenOperationRecord
unfolding has_key
find_by_key key db = find_by (has_key key) db.token_operations

-- UPDATE token_operations.
abbrev pub update_operations :
    (TokenOperationRecord → Bool)
    → (TokenOperationRecord → TokenOperationRecord)
    → Database
    → Database
update_operations p f db = record db { token_operations = update_where p f db.token_operations }

-- A row other than that of `key` holds the hash: the unique index on lower(tx_hash) of
-- src/database/tokenOperationSchema.ts refuses the write.
abbrev pub nullable_same_lower : Text → Option Text → Bool
nullable_same_lower h none = false
nullable_same_lower h (some t) = same_lower t h

unfoldable pub hash_free : Text → Text → List TokenOperationRecord → Bool
unfolding has_key
hash_free key hash rows =
    not (is_some (find_by (λ r. not (has_key key r) && nullable_same_lower hash r.tx_hash) rows))
