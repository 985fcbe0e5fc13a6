-- ===== src/Operations/Hash.antt =====
-- canonicalTransactionHash of src/database/tokenOperation.ts.
use ev_web3_award_system.Prelude.{
  ℕ, ◌≡◌, Bool, false, ◌&&◌, ◌||◌, ◌∷◌, Option, none, some, Result, or_fail, leb, ◌==◌,
  if◌then◌else◌, length, arith, ok, or_fail-eq-ok,
}
use ev_web3_award_system.Text.{Text, trim, to_lower, all_units}
use ev_web3_award_system.Text.Laws.{to_lower_idem}
use ev_web3_award_system.Store.{Error, invalid_transaction_hash}

unfoldable pub is_hex : ℕ → Bool
is_hex c = leb b'0' c && leb c b'9' || leb b'a' c && leb c b'f' || leb b'A' c && leb c b'F'

-- `^0x[0-9a-fA-F]{64}$`.
unfoldable pub matches_hash : Text → Bool
unfolding all_units is_hex
matches_hash (z ∷ x ∷ digits) =
    z == b'0' && x == b'x' && length digits == 64 && all_units is_hex digits
matches_hash _ = false

unfoldable pub canonical_transaction_hash : Text → Option Text
unfolding matches_hash trim to_lower
canonical_transaction_hash value =
    let trimmed = trim value in if matches_hash trimmed then some (to_lower trimmed) else none

unfoldable pub require_canonical_transaction_hash : Text → Result Error Text
unfolding canonical_transaction_hash
require_canonical_transaction_hash value =
    or_fail (canonical_transaction_hash value) invalid_transaction_hash

-- A canonical hash is in lower case.
pub canonical-IsLower :
    (value hash : Text) → canonical_transaction_hash value ≡ some hash → to_lower hash ≡ hash
unfolding canonical_transaction_hash
canonical-IsLower value hash h = ground (arith, to_lower_idem (trim value))

pub require_canonical-IsLower :
    (value : Text) {hash : Text}
    → require_canonical_transaction_hash value ≡ ok hash
    → to_lower hash ≡ hash
unfolding require_canonical_transaction_hash
require_canonical-IsLower value {hash} h =
    canonical-IsLower value hash (or_fail-eq-ok (canonical_transaction_hash value) _ h)
