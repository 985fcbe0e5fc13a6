-- ===== src/Rpc/Failover.antt =====
-- The endpoints of FailoverJsonRpcProvider of src/rpcProvider.ts, and what _send concludes from a
-- response or an error. The evidence of the endpoints, which is added to errors and answers, is
-- left out.
use ev_web3_award_system.Prelude.{
  ℕ, Bool, true, false, not, ◌&&◌, ◌||◌, List, [], ◌∷◌, Option, none, some, Result, ok, err,
  if◌then◌else◌,
}
use ev_web3_award_system.Text.{Text, codes, text_eq}
use ev_web3_award_system.Rpc.{is_transient_rpc_read_error}
use ev_web3_award_system.Rpc.Protocol.{
  Method, eth_chain_id, JsonRpcPayload, is_chain_id, is_write_method, is_raw_transaction,
  is_null_propagation_method, SendError, null, Entry, response_for_id, chain_id_from_result,
}

-- `identity` stands for the URL.
pub record Endpoint : Type 0 where
  pub identity : ℕ
  pub label : Text
  pub validated_chain_id : Option ℕ

-- One request to an endpoint.
pub record RpcCall : Type 0 where
  pub identity : ℕ
  pub requests : List JsonRpcPayload
  pub timeout : ℕ

-- The elements of the body, or what FetchRequest throws.
pub record Reply : Type 0 where
  pub body : Result SendError (List Entry)
  pub took : ℕ

-- The calls made, the last one first, and the time.
pub record Line : Type 0 where
  pub calls : List RpcCall
  pub clock : ℕ

-- The outcome of a request or of a round, the endpoint as it leaves it, and the line.
pub record Tried (A : Type 0) : Type 0 where
  pub outcome : A
  pub endpoint : Endpoint
  pub line : Line

-- What a round ends with: a return, a throw, or the next endpoint after an error or a null response.
pub data Verdict : Type 0 where
  answered : List Entry → Verdict
  raised : SendError → Verdict
  failed_over : SendError → Verdict
  null_response : List Entry → Verdict

pub record Sending : Type 0 where
  pub outcome : Result SendError (List Entry)
  pub endpoints : List Endpoint
  pub line : Line

abbrev pub any_method : (Method → Bool) → List JsonRpcPayload → Bool
any_method test [] = false
any_method test (request ∷ rest) = test request.method || any_method test rest

abbrev pub managed_write : Method → Bool
managed_write method = is_write_method method && not (is_raw_transaction method)

-- `!requests.every(request => !isWriteMethod(request.method) || ...)`.
abbrev pub has_managed_write : List JsonRpcPayload → Bool
has_managed_write = any_method managed_write

abbrev pub has_write : List JsonRpcPayload → Bool
has_write = any_method is_write_method

-- `!allowWriteFailover && requests.some(request => isWriteMethod(request.method))`.
abbrev pub must_not_fail_over : List JsonRpcPayload → Bool
must_not_fail_over requests = has_managed_write requests && has_write requests

abbrev pub not_chain_id : Method → Bool
not_chain_id method = not (is_chain_id method)

abbrev pub chain_payload : List JsonRpcPayload
chain_payload = record { id = 0; method = eth_chain_id; params = [] } ∷ []

abbrev pub validated_as : ℕ → Endpoint → Endpoint
validated_as expected endpoint = record {
  identity = endpoint.identity;
  label = endpoint.label;
  validated_chain_id = some expected;
}

-- validateEndpoint notes the chain id if the response is accepted.
abbrev pub with_chain_id : ℕ → Result SendError (Unit {0}) → Endpoint → Endpoint
with_chain_id expected (err _) endpoint = endpoint
with_chain_id expected (ok _) endpoint = validated_as expected endpoint

abbrev pub has_code : SendError → Text → Bool
has_code error code = elim error.code [ none ↦ false | some c ↦ text_eq c code ]

abbrev pub is_retryable : SendError → Bool
is_retryable error =
    is_transient_rpc_read_error error.read
    || has_code error (codes "CHAIN_ID_MISMATCH")
    || has_code error (codes "RPC_MALFORMED_RESPONSE")

-- The first error of a response.
abbrev pub first_error : List Entry → Option SendError
first_error [] = none
first_error (entry ∷ rest) =
    let later = first_error rest in
    elim entry.error [ none ↦ later | some envelope ↦ some envelope.thrown ]

abbrev pub is_null_entry : Option Entry → Bool
is_null_entry none = false
is_null_entry (some entry) = elim entry.result [ some null ↦ true | _ ↦ false ]

abbrev pub null_result : List JsonRpcPayload → List Entry → Bool
null_result (request ∷ []) response =
    is_null_propagation_method request.method && is_null_entry (response_for_id response request.id)
null_result _ response = false

-- An eth_chainId request notes the chain id, unless its response is refused.
abbrev pub noted : ℕ → Bool → Endpoint → Endpoint
noted expected false endpoint = endpoint
noted expected true endpoint = validated_as expected endpoint

abbrev pub note_chain_id :
    Bool
    → Result SendError (Unit {0})
    → Endpoint
    → (Result SendError (Unit {0})) × Endpoint
    → (Result SendError (Unit {0})) × Endpoint
note_chain_id false checked endpoint later = later
note_chain_id true (err error) endpoint later = (err error, endpoint)
note_chain_id true (ok _) endpoint later = later

-- The loop over the eth_chainId requests: an endpoint keeps the chain id of an earlier one.
abbrev pub check_chain_ids :
    ℕ → List JsonRpcPayload → List Entry → Endpoint → (Result SendError (Unit {0})) × Endpoint
check_chain_ids expected [] response endpoint = (ok tt, endpoint)
check_chain_ids expected (request ∷ rest) response endpoint =
    let asks = is_chain_id request.method in
    note_chain_id asks (chain_id_from_result (response_for_id response request.id) expected)
      endpoint (check_chain_ids expected rest response (noted expected asks endpoint))

-- The catch of a round.
abbrev pub caught : List JsonRpcPayload → SendError → Verdict
caught requests error =
    if not (is_retryable error) || must_not_fail_over requests
    then raised error
    else failed_over error

-- A response with an error.
abbrev pub error_verdict : List JsonRpcPayload → List Entry → SendError → Verdict
error_verdict requests response error =
    if not (is_transient_rpc_read_error error.read) || must_not_fail_over requests
    then answered response
    else failed_over error

abbrev pub result_verdict : List JsonRpcPayload → Bool → List Entry → Verdict
result_verdict requests has_next response =
    if null_result requests response && has_next then null_response response else answered response

-- A response with no error, after the loop over its eth_chainId requests.
abbrev pub settle_checked :
    List JsonRpcPayload
    → Bool
    → List Entry
    → (Result SendError (Unit {0})) × Endpoint
    → Verdict × Endpoint
settle_checked requests has_next response (err error, endpoint) = (caught requests error, endpoint)
settle_checked requests has_next response (ok _, endpoint) =
    (result_verdict requests has_next response, endpoint)

abbrev pub settle_with :
    ℕ → List JsonRpcPayload → Bool → List Entry → Endpoint → Option SendError → Verdict × Endpoint
settle_with expected requests has_next response endpoint (some error) =
    (error_verdict requests response error, endpoint)
settle_with expected requests has_next response endpoint none =
    settle_checked requests has_next response (check_chain_ids expected requests response endpoint)

-- A response, from the filter of its errors on.
unfoldable pub settle : ℕ → List JsonRpcPayload → Bool → List Entry → Endpoint → Verdict × Endpoint
unfolding is_transient_rpc_read_error chain_id_from_result text_eq
settle expected requests has_next response endpoint =
    settle_with expected requests has_next response endpoint (first_error response)
