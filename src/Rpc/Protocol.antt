-- ===== src/Rpc/Protocol.antt =====
-- The JSON-RPC messages of src/rpcProvider.ts: validateRpcResponse, responseForId and
-- chainIdFromResult. What a thrown error shows to the code is an RpcError with its own `code`; the
-- chain ids in the text of an error are left out.
use ev_web3_award_system.Prelude.{
  ℕ, Bool, true, false, not, ◌&&◌, ◌||◌, List, [], ◌∷◌, Option, none, some, is_some, Result, ok,
  err, require, ◌>>◌, ◌==◌, leb, length,
}
use ev_web3_award_system.Text.{Text, codes}
use ev_web3_award_system.Rpc.{RpcError}

-- The methods that the code names, and any other.
pub data Method : Type 0 where
  eth_chain_id : Method
  eth_send_raw_transaction : Method
  eth_send_transaction : Method
  personal_send_transaction : Method
  eth_get_transaction_by_hash : Method
  eth_get_transaction_receipt : Method
  other_method : Text → Method

-- The parameters are what a signed transaction or a query is written as.
pub record JsonRpcPayload : Type 0 where
  pub id : ℕ
  pub method : Method
  pub params : List Text

abbrev pub is_chain_id : Method → Bool
is_chain_id eth_chain_id = true
is_chain_id _ = false

abbrev pub is_write_method : Method → Bool
is_write_method eth_send_raw_transaction = true
is_write_method eth_send_transaction = true
is_write_method personal_send_transaction = true
is_write_method _ = false

abbrev pub is_raw_transaction : Method → Bool
is_raw_transaction eth_send_raw_transaction = true
is_raw_transaction _ = false

abbrev pub is_null_propagation_method : Method → Bool
is_null_propagation_method eth_get_transaction_by_hash = true
is_null_propagation_method eth_get_transaction_receipt = true
is_null_propagation_method _ = false

-- `code` is the error's own, where it is a text.
pub record SendError : Type 0 where
  pub code : Option Text
  pub read : RpcError

-- A result that is null, one that BigInt reads as a number from 0, and any other.
pub data JsonValue : Type 0 where
  null : JsonValue
  number : ℕ → JsonValue
  other_value : Text → JsonValue

-- The value at `error`: is it an object with a numeric code, and what is responseError's error of it?
pub record Envelope : Type 0 where
  pub is_valid : Bool
  pub thrown : SendError

-- An element of the body; `id` is none for one that is no object.
pub record Entry : Type 0 where
  pub id : Option ℕ
  pub is_version_2 : Bool
  pub result : Option JsonValue
  pub error : Option Envelope

abbrev pub is_id : ℕ → Option ℕ → Bool
is_id id none = false
is_id id (some n) = n == id

abbrev pub response_for_id : List Entry → ℕ → Option Entry
response_for_id [] id = none
response_for_id (entry ∷ rest) id =
    let later = response_for_id rest id in
    elim (is_id id entry.id) [ true ↦ some entry | false ↦ later ]

-- An error of the provider's own, whose code is a text.
abbrev pub coded_error : Text → Text → SendError
coded_error code message = record {
  code = some code;
  read = record {
    details = record {
      provider_code = some code;
      rpc_code = none;
      http_status = none;
      trace_id = none;
      endpoint_label = none;
    };
    rpc_number = none;
    numeric_codes = [];
    string_codes = code ∷ [];
    message = message;
  };
}

-- `new Error(message)`.
abbrev pub plain_error : Text → SendError
plain_error message = record {
  code = none;
  read = record {
    details = record {
      provider_code = none;
      rpc_code = none;
      http_status = none;
      trace_id = none;
      endpoint_label = none;
    };
    rpc_number = none;
    numeric_codes = [];
    string_codes = [];
    message = message;
  };
}

abbrev pub malformed_rpc_response : Text → SendError
malformed_rpc_response = coded_error (codes "RPC_MALFORMED_RESPONSE")

abbrev pub seen_id : List ℕ → ℕ → Bool
seen_id [] id = false
seen_id (n ∷ seen) id = n == id || seen_id seen id

abbrev pub valid_envelope : Option Envelope → Bool
valid_envelope none = true
valid_envelope (some envelope) = envelope.is_valid

-- `hasResult !== hasError`.
abbrev pub one_of : Bool → Bool → Bool
one_of true b = not b
one_of false b = b

abbrev pub validate_entry : List ℕ → ℕ → Option Entry → Result SendError (Unit {0})
validate_entry seen id none =
    err (malformed_rpc_response (codes "response id does not match request"))
validate_entry seen id (some entry) =
    require entry.is_version_2 (malformed_rpc_response (codes "missing jsonrpc 2.0 envelope"))
    >> require (not (seen_id seen id)) (malformed_rpc_response (codes "duplicate response id"))
    >> require (one_of (is_some entry.result) (is_some entry.error))
        (malformed_rpc_response (codes "response must contain exactly one result or error"))
    >> require (valid_envelope entry.error)
        (malformed_rpc_response (codes "RPC error envelope is invalid"))

abbrev pub validate_entries :
    List ℕ → List JsonRpcPayload → List Entry → Result SendError (Unit {0})
validate_entries seen [] response = ok tt
validate_entries seen (request ∷ rest) response =
    validate_entry seen request.id (response_for_id response request.id)
    >> validate_entries (request.id ∷ seen) rest response

unfoldable pub validate_rpc_response :
    List Entry → List JsonRpcPayload → Result SendError (List Entry)
validate_rpc_response response expected =
    require (length response == length expected && not (length response == 0))
      (malformed_rpc_response (codes "response count does not match request"))
    >> validate_entries [] expected response
    >> ok response

-- `Number.isSafeInteger`.
abbrev pub is_safe_integer : ℕ → Bool
is_safe_integer n = leb n 9007199254740991

abbrev pub chain_id_of_value : Option JsonValue → ℕ → Result SendError (Unit {0})
chain_id_of_value (some (number n)) expected =
    require (is_safe_integer n) (plain_error (codes "RPC_CHAIN_ID_INVALID"))
    >> require (n == expected)
        (coded_error (codes "CHAIN_ID_MISMATCH") (codes "RPC endpoint chain ID differs"))
chain_id_of_value _ expected = err (plain_error (codes "RPC_CHAIN_ID_INVALID"))

-- An accepted chain id is the expected one.
unfoldable pub chain_id_from_result : Option Entry → ℕ → Result SendError (Unit {0})
chain_id_from_result none expected = err (plain_error (codes "RPC_CHAIN_ID_RESPONSE_MISSING"))
chain_id_from_result (some entry) expected = elim entry.error [
  | some envelope ↦ err envelope.thrown
  | none ↦ chain_id_of_value entry.result expected
]
