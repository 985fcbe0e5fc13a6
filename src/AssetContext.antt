-- ===== src/AssetContext.antt =====
-- The asset context of src/database/tokenOperation.ts: the contract, chain, treasury and signer that
-- an operation was claimed with, which a retry must not change.
mod Laws
mod Tests
use ev_web3_award_system.Prelude.{
  ℕ, ◌≡◌, refl, Bool, true, false, ◌&&◌, ◌||◌, not, Option, none, some, is_some, Result, ok, err,
  ◌>>=◌, ◌>>◌, require, or_fail, if◌then◌else◌,
}
use ev_web3_award_system.Text.{Text, text_eq, nullable_eq, to_lower, is_empty}
use ev_web3_award_system.Operations.Rows.{truthy}

pub record TokenAssetContext : Type 0 where
  pub token_contract_address : Text
  pub chain_id : Text
  pub treasury_address : Option Text
  pub signer_address : Text

-- A field of the stored JSON document: missing, null, a text, or anything else by its `String(value)`.
pub data StoredField : Type 0 where
  missing null : StoredField
  text other : Text → StoredField

pub record StoredAssetContext : Type 0 where
  pub token_contract_address : StoredField
  pub chain_id : StoredField
  pub treasury_address : StoredField
  pub signer_address : StoredField

pub data AssetMismatch : Type 0 where
  unavailable incomplete contract_changed chain_changed treasury_changed signer_changed :
      AssetMismatch

-- `typeof value === 'string' ? value.toLowerCase() : undefined`.
abbrev pub lower_text : StoredField → Option Text
lower_text (text s) = some (to_lower s)
lower_text _ = none

-- `value === undefined || value === null ? undefined : String(value)`.
abbrev pub string_of : StoredField → Option Text
string_of (text s) = some s
string_of (other s) = some s
string_of _ = none

-- The treasury may also be null.
abbrev pub lower_nullable : StoredField → Option (Option Text)
lower_nullable (text s) = some (some (to_lower s))
lower_nullable null = some none
lower_nullable _ = none

abbrev pub lower_treasury : Option Text → Option Text
lower_treasury none = none
lower_treasury (some s) = if is_empty s then none else some (to_lower s)

-- The stored fields that are there, compared with the current ones.
unfoldable pub compare_context :
    Text → Text → Option Text → Text → TokenAssetContext → Result AssetMismatch (Unit {0})
unfolding text_eq nullable_eq
compare_context contract chain treasury signer current = do
  require (text_eq contract (to_lower current.token_contract_address)) contract_changed
  require (is_empty chain || text_eq chain current.chain_id) chain_changed
  require (nullable_eq treasury (lower_treasury current.treasury_address)) treasury_changed
  require (text_eq signer (to_lower current.signer_address)) signer_changed

-- `ok` is the source's `undefined`: no mismatch.
unfoldable pub asset_context_mismatch :
    Option StoredAssetContext → TokenAssetContext → Result AssetMismatch (Unit {0})
unfolding compare_context
asset_context_mismatch stored current = do
  asset ← or_fail stored unavailable
  contract ← or_fail (truthy (lower_text asset.token_contract_address)) incomplete
  chain ← or_fail (string_of asset.chain_id) incomplete
  treasury ← or_fail (lower_nullable asset.treasury_address) incomplete
  signer ← or_fail (truthy (lower_text asset.signer_address)) incomplete
  compare_context contract chain treasury signer current
