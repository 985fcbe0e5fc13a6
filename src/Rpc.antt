-- ===== src/Rpc.antt =====
-- Reads of the chain in src/rpcProvider.ts: which errors are transient, and the bounded retry of
-- withRpcReadRetry and withNullableRpcReadRetry, and the provider's failover. An error is what extractRpcDiagnostic and
-- collectErrorCodes read from the thrown value; their walk over that untyped value is left out.
pub mod Retry
pub mod Bounds
pub mod Protocol
pub mod Failover
pub mod Send
mod Ends
mod Confirmed
mod Chains
mod Vouched
mod Once
mod Tests
mod SendTests
use ev_web3_award_system.Prelude.{
  ℕ, Bool, true, false, ◌&&◌, ◌||◌, not, List, [], ◌∷◌, Option, none, some, is_some, leb, ◌==◌,
  if◌then◌else◌,
}
use ev_web3_award_system.Text.{Text, codes, text_eq, to_lower, starts_with, is_digit}

-- The endpoint evidence `failover` is left out.
pub record RpcDiagnosticDetails : Type 0 where
  pub provider_code : Option Text
  pub rpc_code : Option Text
  pub http_status : Option ℕ
  pub trace_id : Option Text
  pub endpoint_label : Option Text

-- `rpc_number` is `rpc_code` where that is not negative, the codes are what collectErrorCodes
-- returns, as finite numbers and as strings, and `message` is the text that the last test reads.
pub record RpcError : Type 0 where
  pub details : RpcDiagnosticDetails
  pub rpc_number : Option ℕ
  pub numeric_codes : List ℕ
  pub string_codes : List Text
  pub message : Text

abbrev pub includes : List ℕ → ℕ → Bool
includes [] n = false
includes (m ∷ rest) n = m == n || includes rest n

abbrev pub includes_text : List Text → Text → Bool
includes_text [] s = false
includes_text (t ∷ rest) s = text_eq t s || includes_text rest s

abbrev pub option_in : List ℕ → Option ℕ → Bool
option_in accepted none = false
option_in accepted (some n) = includes accepted n

abbrev pub any_in : List ℕ → List ℕ → Bool
any_in accepted [] = false
any_in accepted (n ∷ rest) = includes accepted n || any_in accepted rest

abbrev pub transient_rpc_codes : List ℕ
transient_rpc_codes = 19 ∷ 26 ∷ 30 ∷ []

abbrev pub transient_http_statuses : List ℕ
transient_http_statuses = 408 ∷ 425 ∷ 429 ∷ 500 ∷ 502 ∷ 503 ∷ 504 ∷ []

-- The codes of a failed connection, in lower case as they are compared here.
abbrev pub transient_provider_codes : List Text
transient_provider_codes =
    codes "network_error"
    ∷ codes "timeout"
    ∷ codes "timeout_error"
    ∷ codes "etimedout"
    ∷ codes "econnreset"
    ∷ codes "econnrefused"
    ∷ codes "enetunreach"
    ∷ []

-- `[...].includes(code.toUpperCase())`.
abbrev pub connection_failed : Text → Bool
connection_failed code = includes_text transient_provider_codes (to_lower code)

abbrev pub is_server_error : Text → Bool
is_server_error code = text_eq (to_lower code) (codes "server_error")

abbrev pub any_code : (Text → Bool) → List Text → Bool
any_code test [] = false
any_code test (code ∷ rest) = test code || any_code test rest

abbrev pub provider_code_is : (Text → Bool) → RpcError → Bool
provider_code_is test error = elim error.details.provider_code [
  | none ↦ false
  | some code ↦ test code
]

-- `server response 5\d\d`, at the start of the text.
abbrev pub server_response : Text → Bool
server_response (a ∷ b ∷ c ∷ _) = a == b'5' && is_digit b && is_digit c
server_response _ = false

abbrev pub after : Text → Text → Option Text
after [] s = some s
after (_ ∷ _) [] = none
after (c ∷ p) (d ∷ s) = let rest = after p s in if c == d then rest else none

unfoldable pub transient_at : Text → Bool
unfolding starts_with
transient_at s =
    starts_with (codes "unknown block") s
    || starts_with (codes "request timeout") s
    || starts_with (codes "temporary internal error") s
    || starts_with (codes "timed out") s
    || starts_with (codes "time out") s
    || starts_with (codes "network error") s
    || (elim (after (codes "server response ") s) [
      | none ↦ false
      | some rest ↦ server_response rest
    ])
    || starts_with (codes "internal server error") s

-- The expression is searched for anywhere in the text.
unfoldable pub transient_message : Text → Bool
unfolding transient_at
transient_message [] = false
transient_message (c ∷ s) = transient_at (c ∷ s) || transient_message s

unfoldable pub is_transient_rpc_read_error : RpcError → Bool
unfolding transient_message text_eq to_lower
is_transient_rpc_read_error error =
    option_in transient_rpc_codes error.rpc_number
    || option_in transient_http_statuses error.details.http_status
    || provider_code_is connection_failed error
    || provider_code_is is_server_error error && not (is_some error.details.http_status)
    || any_in transient_rpc_codes error.numeric_codes
    || any_code connection_failed error.string_codes
    || any_code is_server_error error.string_codes && not (is_some error.details.http_status)
    || any_in transient_http_statuses error.numeric_codes
    || transient_message (to_lower error.message)
