-- ===== src/Rpc/Once.antt =====
-- How often _send of src/rpcProvider.ts sends a payload that writes.
use ev_web3_award_system.Prelude.{
  ℕ, suc, ◌+◌, ◌-◌, ◌*◌, ◌≤◌, ◌≡◌, refl, inl, inr, min, Bool, true, List, [], ◌∷◌, Option, none,
  some, ok, err, Result, length, leb, Bool-cases, arith, if◌then◌else◌,
}
use ev_web3_award_system.Rpc.Protocol.{JsonRpcPayload, SendError, Entry}
use ev_web3_award_system.Rpc.Failover.{
  Endpoint, RpcCall, Reply, Line, Verdict, answered, raised, failed_over, null_response, Sending,
  has_managed_write, has_write,
}
use ev_web3_award_system.Rpc.Ends.{Ends, round-Ends}
use ev_web3_award_system.Rpc.Send.{
  request_endpoint, validate_endpoint, validate_for, settle_request, request_validated, round,
  is_cons, go_on, send_loop, send,
}

-- The calls that send a write.
abbrev pub writes : List RpcCall → ℕ
writes [] = 0
writes (call ∷ earlier) = if has_write call.requests then suc (writes earlier) else writes earlier

go_on-writes :
    (last_error : Option SendError) (last_null : Option (List Entry)) (endpoint : Endpoint)
    (line : Line) (rest : List Endpoint) (later : Option SendError → Option (List Entry) → Sending)
    (bound : ℕ) (v : Verdict)
    → writes line.calls ≤ bound
    → ((e : Option SendError) (n : Option (List Entry)) → writes (later e n).line.calls ≤ bound)
    → writes (go_on last_error last_null endpoint line rest later v).line.calls ≤ bound
go_on-writes last_error last_null endpoint line rest later bound (answered r) h k = h
go_on-writes last_error last_null endpoint line rest later bound (raised e) h k = h
go_on-writes last_error last_null endpoint line rest later bound (failed_over e) h k =
    k (some e) last_null
go_on-writes last_error last_null endpoint line rest later bound (null_response r) h k =
    k last_error (some r)

go_on-ended :
    (last_error : Option SendError) (last_null : Option (List Entry)) (endpoint : Endpoint)
    (line : Line) (rest : List Endpoint) (later : Option SendError → Option (List Entry) → Sending)
    (v : Verdict)
    → Ends v
    → (go_on last_error last_null endpoint line rest later v).line ≡ line
go_on-ended last_error last_null endpoint line rest later (answered r) h = refl
go_on-ended last_error last_null endpoint line rest later (raised e) h = refl
go_on-ended last_error last_null endpoint line rest later (failed_over e) h = elim h [ ]
go_on-ended last_error last_null endpoint line rest later (null_response r) h = elim h [ ]

module _ (network : List RpcCall → RpcCall → Reply) (expected : ℕ) where
  validate_endpoint-writes :
      (endpoint : Endpoint) (deadline : ℕ) (line : Line)
      → writes (validate_endpoint network expected endpoint deadline line).line.calls
        ≡ writes line.calls
  unfolding validate_endpoint request_endpoint
  validate_endpoint-writes endpoint deadline line = ground arith

  module _ (requests : List JsonRpcPayload) where
    validate_for-writes :
        (endpoint : Endpoint) (deadline : ℕ) (line : Line)
        → writes (validate_for network expected requests endpoint deadline line).line.calls
          ≡ writes line.calls
    unfolding validate_for
    validate_for-writes endpoint deadline line =
        ground (arith, validate_endpoint-writes endpoint deadline line)

    settle_request-line :
        (has_next : Bool) (endpoint : Endpoint) (line : Line) (r : Result SendError (List Entry))
        → (settle_request network expected requests has_next endpoint line r).line ≡ line
    settle_request-line has_next endpoint line (err error) = refl
    settle_request-line has_next endpoint line (ok response) = refl

    request_endpoint-writes :
        (endpoint : Endpoint) (timeout : ℕ) (line : Line)
        → writes (request_endpoint network expected endpoint requests timeout line).line.calls
          ≤ suc (writes line.calls)
    unfolding request_endpoint
    request_endpoint-writes endpoint timeout line = ground arith

    request_validated-writes :
        (has_next : Bool) (deadline : ℕ) (endpoint : Endpoint) (line : Line)
        (r : Result SendError (Unit {0}))
        → writes
            (request_validated network expected requests has_next deadline endpoint line
              r).line.calls
          ≤ suc (writes line.calls)
    request_validated-writes has_next deadline endpoint line (err error) = omega arith
    request_validated-writes has_next deadline endpoint line (ok _) =
        let asked =
          request_endpoint network expected endpoint requests (deadline - line.clock) line in
        rw (settle_request-line has_next asked.endpoint asked.line asked.outcome)
          (request_endpoint-writes endpoint (deadline - line.clock) line)

    round-writes :
        (has_next : Bool) (deadline : ℕ) (endpoint : Endpoint) (line : Line)
        → writes (round network expected requests has_next deadline endpoint line).line.calls
          ≤ suc (writes line.calls)
    unfolding round
    round-writes has_next deadline endpoint line =
        let checked = validate_for network expected requests endpoint deadline line in
        omega (
          arith,
          validate_for-writes endpoint deadline line,
          request_validated-writes has_next deadline checked.endpoint checked.line checked.outcome,
        )

    send_loop-writes :
        (deadline timeout : ℕ) (endpoints : List Endpoint) (last_error : Option SendError)
        (last_null : Option (List Entry)) (line : Line)
        → writes
            (send_loop network expected requests deadline timeout endpoints last_error last_null
              line).line.calls
          ≤ writes line.calls + length endpoints
    unfolding send_loop
    send_loop-writes deadline timeout [] last_error last_null line = omega arith
    send_loop-writes deadline timeout (endpoint ∷ rest) last_error last_null line =
        let until = min deadline (line.clock + timeout) in
        let tried = round network expected requests (is_cons rest) until endpoint line in
        let counted = round-writes (is_cons rest) until endpoint line in
        elim (Bool-cases (leb deadline line.clock)) [
          | inl late ↦ rw late (omega arith)
          | inr early ↦ rw early (
              go_on-writes last_error last_null tried.endpoint tried.line rest
                (λ (e : Option SendError). λ (n : Option (List Entry)).
                  send_loop network expected requests deadline timeout rest e n tried.line)
                (writes line.calls + length (endpoint ∷ rest)) tried.outcome
                (omega (arith, counted))
                (λ e n.
                  omega (arith, counted, send_loop-writes deadline timeout rest e n tried.line)))
        ]

    send_loop-managed :
        (deadline timeout : ℕ) (endpoints : List Endpoint) (last_error : Option SendError)
        (last_null : Option (List Entry)) (line : Line)
        → has_managed_write requests ≡ true
        → writes
            (send_loop network expected requests deadline timeout endpoints last_error last_null
              line).line.calls
          ≤ suc (writes line.calls)
    unfolding send_loop
    send_loop-managed deadline timeout [] last_error last_null line managed = omega arith
    send_loop-managed deadline timeout (endpoint ∷ rest) last_error last_null line managed =
        let until = min deadline (line.clock + timeout) in
        let tried = round network expected requests (is_cons rest) until endpoint line in
        elim (Bool-cases (leb deadline line.clock)) [
          | inl late ↦ rw late (omega arith)
          | inr early ↦
              rw
                (
                  early,
                  go_on-ended last_error last_null tried.endpoint tried.line rest
                      (λ (e : Option SendError). λ (n : Option (List Entry)).
                        send_loop network expected requests deadline timeout rest e n tried.line)
                      tried.outcome
                      (round-Ends requests managed network expected (is_cons rest) until endpoint
                        line),
                )
                (round-writes (is_cons rest) until endpoint line)
        ]

    -- However the network replies, one call of _send sends a payload that writes at most as often as there are
    -- endpoints, and at most once if the payload holds eth_sendTransaction or personal_sendTransaction.
    pub send-Once :
        (timeout : ℕ) (endpoints : List Endpoint) (line : Line)
        → writes (send network expected timeout requests endpoints line).line.calls
          ≤ writes line.calls + (if has_managed_write requests then 1 else length endpoints)
    unfolding send
    send-Once timeout endpoints line =
        let deadline = line.clock + timeout * length endpoints in
        elim (Bool-cases (has_managed_write requests)) [
          | inl managed ↦
              rw managed
                (omega (arith, send_loop-managed deadline timeout endpoints none none line managed))
          | inr free ↦ rw free (send_loop-writes deadline timeout endpoints none none line)
        ]
