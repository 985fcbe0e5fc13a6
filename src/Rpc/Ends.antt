-- ===== src/Rpc/Ends.antt =====
-- A round of _send of src/rpcProvider.ts with a write that a provider signs is the last one.
use ev_web3_award_system.Prelude.{
  ℕ, ◌-◌, ◌≡◌, refl, Bool, true, false, not, ◌||◌, List, [], ◌∷◌, Option, none, some, ok, err,
  Result, arith, if◌then◌else◌,
}
use ev_web3_award_system.Rpc.{is_transient_rpc_read_error}
use ev_web3_award_system.Rpc.Protocol.{
  Method, eth_chain_id, eth_send_raw_transaction, eth_send_transaction, personal_send_transaction,
  eth_get_transaction_by_hash, eth_get_transaction_receipt, other_method, JsonRpcPayload,
  is_null_propagation_method, SendError, Entry,
}
use ev_web3_award_system.Rpc.Failover.{
  Endpoint, RpcCall, Reply, Line, Verdict, answered, raised, failed_over, null_response,
  managed_write, has_managed_write, has_write, must_not_fail_over, null_result, first_error,
  check_chain_ids, caught, is_retryable, settle_checked, settle_with, settle,
}
use ev_web3_award_system.Rpc.Send.{
  request_endpoint, validate_for, settle_request, request_validated, round,
}

-- The round does not go on to another endpoint.
abbrev pub Ends : Verdict → Type 0
Ends (answered _) = Unit
Ends (raised _) = Unit
Ends (failed_over _) = ⊥
Ends (null_response _) = ⊥

managed-write :
    (requests : List JsonRpcPayload) → has_managed_write requests ≡ true → has_write requests ≡ true
managed-write [] h = cc
managed-write (request ∷ rest) h = ground (arith, managed-write rest)

-- A write is not one of the methods whose null is passed on.
write_not_null_method :
    (method : Method) → managed_write method ≡ true → is_null_propagation_method method ≡ false
write_not_null_method eth_chain_id h = refl
write_not_null_method eth_send_raw_transaction h = refl
write_not_null_method eth_send_transaction h = refl
write_not_null_method personal_send_transaction h = refl
write_not_null_method eth_get_transaction_by_hash h = cc
write_not_null_method eth_get_transaction_receipt h = cc
write_not_null_method (other_method name) h = refl

write_not_null :
    (requests : List JsonRpcPayload) (response : List Entry)
    → has_managed_write requests ≡ true
    → null_result requests response ≡ false
write_not_null [] response h = refl
write_not_null (request ∷ []) response h =
    rw (write_not_null_method request.method (ground arith)) refl
write_not_null (request ∷ second ∷ rest) response h = refl

Ends-if : (a b : Bool) (x y : Verdict) → b ≡ true → Ends x → Ends (if a || b then x else y)
Ends-if true b x y e h = h
Ends-if false true x y e h = h
Ends-if false false x y e h = cc

module _ (requests : List JsonRpcPayload) (managed : has_managed_write requests ≡ true) where
  must_not : must_not_fail_over requests ≡ true
  must_not = ground (arith, managed-write requests managed)

  caught-Ends : (error : SendError) → Ends (caught requests error)
  caught-Ends error =
      Ends-if (not (is_retryable error)) (must_not_fail_over requests) (raised error)
        (failed_over error) must_not tt

  settle_checked-Ends :
      (has_next : Bool) (response : List Entry) (checked : (Result SendError (Unit {0})) × Endpoint)
      → Ends ((settle_checked requests has_next response checked).0)
  settle_checked-Ends has_next response (err error, endpoint) = caught-Ends error
  settle_checked-Ends has_next response (ok _, endpoint) =
      rw (write_not_null requests response managed) tt

  settle_with-Ends :
      (expected : ℕ) (has_next : Bool) (response : List Entry) (endpoint : Endpoint)
      (found : Option SendError)
      → Ends ((settle_with expected requests has_next response endpoint found).0)
  settle_with-Ends expected has_next response endpoint (some error) =
      Ends-if (not (is_transient_rpc_read_error error.read)) (must_not_fail_over requests)
        (answered response) (failed_over error) must_not tt
  settle_with-Ends expected has_next response endpoint none =
      settle_checked-Ends has_next response (check_chain_ids expected requests response endpoint)

  module _ (network : List RpcCall → RpcCall → Reply) (expected : ℕ) where
    settle_request-Ends :
        (has_next : Bool) (endpoint : Endpoint) (line : Line) (r : Result SendError (List Entry))
        → Ends (settle_request network expected requests has_next endpoint line r).outcome
    unfolding settle
    settle_request-Ends has_next endpoint line (err error) = caught-Ends error
    settle_request-Ends has_next endpoint line (ok response) =
        settle_with-Ends expected has_next response endpoint (first_error response)

    request_validated-Ends :
        (has_next : Bool) (deadline : ℕ) (endpoint : Endpoint) (line : Line)
        (r : Result SendError (Unit {0}))
        → Ends
            (request_validated network expected requests has_next deadline endpoint line r).outcome
    request_validated-Ends has_next deadline endpoint line (err error) = caught-Ends error
    request_validated-Ends has_next deadline endpoint line (ok _) =
        let asked =
          request_endpoint network expected endpoint requests (deadline - line.clock) line in
        settle_request-Ends has_next asked.endpoint asked.line asked.outcome

    pub round-Ends :
        (has_next : Bool) (deadline : ℕ) (endpoint : Endpoint) (line : Line)
        → Ends (round network expected requests has_next deadline endpoint line).outcome
    unfolding round
    round-Ends has_next deadline endpoint line =
        let checked = validate_for network expected requests endpoint deadline line in
        request_validated-Ends has_next deadline checked.endpoint checked.line checked.outcome
