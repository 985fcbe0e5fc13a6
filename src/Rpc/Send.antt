-- ===== src/Rpc/Send.antt =====
-- requestEndpoint, validateEndpoint and _send of src/rpcProvider.ts. The network is a parameter: what
-- it replies to a call, after the calls made before it. The clock advances by the time of a reply.
use ev_web3_award_system.Prelude.{
  ℕ, ◌+◌, ◌-◌, ◌*◌, min, max, Bool, true, false, List, [], ◌∷◌, Option, none, some, get_or, Result,
  ok, err, ◌>>=◌, leb, length, if◌then◌else◌,
}
use ev_web3_award_system.Text.{Text, codes, text_eq}
use ev_web3_award_system.Rpc.Retry.{rpc_read_timeout_ms}
use ev_web3_award_system.Rpc.{is_transient_rpc_read_error}
use ev_web3_award_system.Rpc.Protocol.{
  JsonRpcPayload, SendError, Entry, is_id, response_for_id, coded_error, validate_rpc_response,
  chain_id_from_result,
}
use ev_web3_award_system.Rpc.Failover.{
  Endpoint, RpcCall, Reply, Line, Tried, Verdict, answered, raised, failed_over, null_response,
  Sending, any_method, not_chain_id, chain_payload, with_chain_id, caught, settle,
}

-- What _send does after the loop.
abbrev pub finish : Option SendError → Option (List Entry) → Result SendError (List Entry)
finish last_error (some response) = ok response
finish last_error none =
    err (get_or last_error (coded_error (codes "NETWORK_ERROR") (codes "RPC_FAILOVER_UNAVAILABLE")))

abbrev pub keep_endpoint : Endpoint → Sending → Sending
keep_endpoint endpoint sending = record {
  outcome = sending.outcome;
  endpoints = endpoint ∷ sending.endpoints;
  line = sending.line;
}

abbrev pub is_cons : List Endpoint → Bool
is_cons [] = false
is_cons (_ ∷ _) = true

-- What a round makes of the rest of the loop, which is given the last error and the last null.
abbrev pub go_on :
    Option SendError
    → Option (List Entry)
    → Endpoint
    → Line
    → List Endpoint
    → (Option SendError → Option (List Entry) → Sending)
    → Verdict
    → Sending
go_on last_error last_null endpoint line rest later (answered response) = record {
  outcome = ok response;
  endpoints = endpoint ∷ rest;
  line = line;
}
go_on last_error last_null endpoint line rest later (raised error) = record {
  outcome = err error;
  endpoints = endpoint ∷ rest;
  line = line;
}
go_on last_error last_null endpoint line rest later (failed_over error) =
    keep_endpoint endpoint (later (some error) last_null)
go_on last_error last_null endpoint line rest later (null_response response) =
    keep_endpoint endpoint (later last_error (some response))

module _ (network : List RpcCall → RpcCall → Reply) (expected : ℕ) where
  unfoldable pub request_endpoint :
      Endpoint → List JsonRpcPayload → ℕ → Line → Tried (Result SendError (List Entry))
  unfolding validate_rpc_response
  request_endpoint endpoint requests timeout line =
      let call : RpcCall = record {
        identity = endpoint.identity;
        requests = requests;
        timeout = max 1 timeout;
      } in
      let reply = network line.calls call in
      record {
        outcome = reply.body >>= λ body. validate_rpc_response body requests;
        endpoint = endpoint;
        line = record { calls = call ∷ line.calls; clock = line.clock + reply.took };
      }

  -- What validateEndpoint does with the response to its request.
  abbrev pub accept_chain_id :
      Tried (Result SendError (List Entry)) → Tried (Result SendError (Unit {0}))
  accept_chain_id asked =
      let verdict =
        asked.outcome >>= λ response. chain_id_from_result (response_for_id response 0) expected in
      record {
        outcome = verdict;
        endpoint = with_chain_id expected verdict asked.endpoint;
        line = asked.line;
      }

  unfoldable pub validate_endpoint : Endpoint → ℕ → Line → Tried (Result SendError (Unit {0}))
  unfolding request_endpoint chain_id_from_result
  validate_endpoint endpoint deadline line =
      if is_id expected endpoint.validated_chain_id
      then record { outcome = ok tt; endpoint = endpoint; line = line }
      else if leb deadline line.clock
      then record {
        outcome = err (coded_error (codes "TIMEOUT") (codes "RPC_FAILOVER_TIMEOUT"));
        endpoint = endpoint;
        line = line;
      }
      else accept_chain_id (request_endpoint endpoint chain_payload (deadline - line.clock) line)

  module _ (requests : List JsonRpcPayload) where
    -- The validation, which requests of eth_chainId alone do without.
    unfoldable pub validate_for : Endpoint → ℕ → Line → Tried (Result SendError (Unit {0}))
    unfolding validate_endpoint
    validate_for endpoint deadline line =
        if any_method not_chain_id requests
        then validate_endpoint endpoint deadline line
        else record { outcome = ok tt; endpoint = endpoint; line = line }

    abbrev pub settle_request :
        Bool → Endpoint → Line → Result SendError (List Entry) → Tried Verdict
    settle_request has_next endpoint line (err error) = record {
      outcome = caught requests error;
      endpoint = endpoint;
      line = line;
    }
    settle_request has_next endpoint line (ok response) =
        let settled = settle expected requests has_next response endpoint in
        record { outcome = settled.0; endpoint = settled.1; line = line }

    -- The request of the payload, after a validation that ends at `line`.
    abbrev pub request_payload : Bool → ℕ → Endpoint → Line → Tried Verdict
    request_payload has_next deadline endpoint line =
        let asked = request_endpoint endpoint requests (deadline - line.clock) line in
        settle_request has_next asked.endpoint asked.line asked.outcome

    abbrev pub request_validated :
        Bool → ℕ → Endpoint → Line → Result SendError (Unit {0}) → Tried Verdict
    request_validated has_next deadline endpoint line (err error) = record {
      outcome = caught requests error;
      endpoint = endpoint;
      line = line;
    }
    request_validated has_next deadline endpoint line (ok _) =
        request_payload has_next deadline endpoint line

    -- The try and the catch of one endpoint.
    unfoldable pub round : Bool → ℕ → Endpoint → Line → Tried Verdict
    unfolding validate_for request_endpoint settle is_transient_rpc_read_error text_eq
    round has_next deadline endpoint line =
        let checked = validate_for endpoint deadline line in
        request_validated has_next deadline checked.endpoint checked.line checked.outcome

    unfoldable pub send_loop :
        (deadline timeout : ℕ)
        → List Endpoint
        → Option SendError
        → Option (List Entry)
        → Line
        → Sending
    unfolding round
    send_loop deadline timeout [] last_error last_null line = record {
      outcome = finish last_error last_null;
      endpoints = [];
      line = line;
    }
    send_loop deadline timeout (endpoint ∷ rest) last_error last_null line =
        let tried = round (is_cons rest) (min deadline (line.clock + timeout)) endpoint line in
        let further =
          go_on last_error last_null tried.endpoint tried.line rest
            (λ (e : Option SendError).
              λ (n : Option (List Entry)). send_loop deadline timeout rest e n tried.line)
            tried.outcome in
        if leb deadline line.clock
        then record {
          outcome = finish last_error last_null;
          endpoints = endpoint ∷ rest;
          line = line;
        }
        else further

  -- `_send`, with the time-out that the constructor keeps for an endpoint.
  unfoldable pub send : ℕ → List JsonRpcPayload → List Endpoint → Line → Sending
  unfolding send_loop
  send timeout requests endpoints line =
      send_loop requests (line.clock + timeout * length endpoints) timeout endpoints none none line

-- `Math.max(100, Math.min(RPC_READ_TIMEOUT_MS, Math.floor(endpointTimeoutMs)))`.
abbrev pub endpoint_timeout : ℕ → ℕ
endpoint_timeout requested = max 100 (min rpc_read_timeout_ms requested)

-- The constructor's copy of the configured endpoints.
abbrev pub endpoints_of : List (ℕ × Text) → List Endpoint
endpoints_of [] = []
endpoints_of ((identity, label) ∷ configs) =
    record { identity = identity; label = label; validated_chain_id = none } ∷ endpoints_of configs

-- One call after another of the provider's `_send`.
unfoldable pub send_all :
    (List RpcCall → RpcCall → Reply)
    → ℕ
    → ℕ
    → List (List JsonRpcPayload)
    → List Endpoint
    → Line
    → List RpcCall
unfolding send
send_all network expected timeout [] endpoints line = line.calls
send_all network expected timeout (requests ∷ later) endpoints line =
    let sending = send network expected timeout requests endpoints line in
    send_all network expected timeout later sending.endpoints sending.line
