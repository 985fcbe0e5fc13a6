-- ===== src/Rpc/Vouched.antt =====
-- The calls of _send of src/rpcProvider.ts go to endpoints whose chain is confirmed.
use ev_web3_award_system.Prelude.{
  ℕ, ◌+◌, ◌-◌, ◌*◌, ◌≡◌, refl, ◌∙◌, inl, inr, min, Bool, true, List, [], ◌∷◌, Option, none, some,
  Result, ok, err, length, leb, Bool-cases,
}
use ev_web3_award_system.Text.{Text}
use ev_web3_award_system.Rpc.Protocol.{JsonRpcPayload, Entry, SendError, is_id}
use ev_web3_award_system.Rpc.Failover.{
  Endpoint, RpcCall, Reply, Line, Verdict, answered, raised, failed_over, null_response, Sending,
  any_method, not_chain_id, first_error, settle,
}
use ev_web3_award_system.Rpc.Send.{
  request_endpoint, validate_for, settle_request, request_validated, round, is_cons, keep_endpoint,
  go_on, send_loop, send, endpoints_of, send_all,
}
use ev_web3_award_system.Rpc.Chains.{validate_for-Checked, with-Settled}
use ev_web3_award_system.Rpc.Confirmed.{
  confirmed, OnChain, names_chain, Safe, Safe-trans, request-Safe, request_confirms,
}

module _ (network : List RpcCall → RpcCall → Reply) (expected : ℕ) where
  module _ (requests : List JsonRpcPayload) where
    settle_request-Safe :
        (has_next : Bool) (first : Endpoint) (before : List RpcCall) (endpoint : Endpoint)
        (line : Line) (r : Result SendError (List Entry))
        → Safe expected network first before endpoint line.calls
        → ((response : List Entry)
            → r ≡ ok response
            → names_chain expected requests response ≡ true
            → confirmed expected network line.calls endpoint.identity ≡ true)
        → Safe expected network first before
            (settle_request network expected requests has_next endpoint line r).endpoint
            (settle_request network expected requests has_next endpoint line r).line.calls
    unfolding settle
    settle_request-Safe has_next first before endpoint line (err error) h k = h
    settle_request-Safe has_next first before endpoint line (ok response) h k =
        let settled =
          with-Settled network expected requests has_next response endpoint
            (first_error response) in
        record {
          same = settled.same ∙ h.same;
          vouched = λ e.
              rw (settled.same) (elim (settled.named e) [
                | inl old ↦ h.vouched old
                | inr new ↦ k response refl new
              ]);
          on_chain = h.on_chain;
          stays = h.stays;
        }

    request_validated-Safe :
        (has_next : Bool) (deadline : ℕ) (first : Endpoint) (before : List RpcCall)
        (endpoint : Endpoint) (line : Line) (r : Result SendError (Unit {0}))
        → Safe expected network first before endpoint line.calls
        → ((u : Unit {0})
            → r ≡ ok u
            → any_method not_chain_id requests ≡ true
            → confirmed expected network line.calls endpoint.identity ≡ true)
        → Safe expected network first before
            (request_validated network expected requests has_next deadline endpoint line r).endpoint
            (request_validated network expected requests has_next deadline endpoint line
              r).line.calls
    request_validated-Safe has_next deadline first before endpoint line (err error) h k = h
    request_validated-Safe has_next deadline first before endpoint line (ok u) h k =
        let timeout = deadline - line.clock in
        let asked = request_endpoint network expected endpoint requests timeout line in
        let safe =
          request-Safe expected network endpoint requests timeout line h.on_chain h.vouched
            (k u refl) in
        settle_request-Safe has_next first before asked.endpoint asked.line asked.outcome
          (Safe-trans expected network first endpoint asked.endpoint before line.calls
            asked.line.calls h safe)
          (λ response e names.
            rw (safe.same)
              (request_confirms expected network endpoint requests timeout line e names))

    round-Safe :
        (has_next : Bool) (deadline : ℕ) (endpoint : Endpoint) (line : Line)
        → OnChain expected network line.calls
        → (is_id expected endpoint.validated_chain_id ≡ true
            → confirmed expected network line.calls endpoint.identity ≡ true)
        → Safe expected network endpoint line.calls
            (round network expected requests has_next deadline endpoint line).endpoint
            (round network expected requests has_next deadline endpoint line).line.calls
    unfolding round
    round-Safe has_next deadline endpoint line chain vouched =
        let checked = validate_for network expected requests endpoint deadline line in
        let h =
          validate_for-Checked network expected endpoint line chain vouched requests deadline in
        request_validated-Safe has_next deadline endpoint line.calls checked.endpoint checked.line
          checked.outcome h.safe h.passed

  -- Every endpoint that is noted as validated is confirmed by a reply of its own.
  abbrev AllVouched : List RpcCall → List Endpoint → Type 0
  AllVouched calls [] = Unit
  AllVouched calls (endpoint ∷ rest) =
      (is_id expected endpoint.validated_chain_id ≡ true
        → confirmed expected network calls endpoint.identity ≡ true)
      × AllVouched calls rest

  AllVouched-stays :
      (before after : List RpcCall) (endpoints : List Endpoint)
      → ((identity : ℕ)
          → confirmed expected network before identity ≡ true
          → confirmed expected network after identity ≡ true)
      → AllVouched before endpoints
      → AllVouched after endpoints
  AllVouched-stays before after [] stays h = tt
  AllVouched-stays before after (endpoint ∷ rest) stays (h, more) =
      (λ e. stays endpoint.identity (h e), AllVouched-stays before after rest stays more)

  record Sound (before : List RpcCall) (s : Sending) : Type 0 where
    vouched : AllVouched s.line.calls s.endpoints
    on_chain : OnChain expected network s.line.calls
    stays :
        (identity : ℕ)
        → confirmed expected network before identity ≡ true
        → confirmed expected network s.line.calls identity ≡ true

  module _ (first : Endpoint) (before : List RpcCall) (endpoint : Endpoint) (line : Line)
      (rest : List Endpoint) (safe : Safe expected network first before endpoint line.calls)
      (vouched : AllVouched line.calls rest) where
    stop-Sound :
        (outcome : Result SendError (List Entry))
        → Sound before (record { outcome = outcome; endpoints = endpoint ∷ rest; line = line })
    stop-Sound outcome = record {
      vouched = (safe.vouched, vouched);
      on_chain = safe.on_chain;
      stays = safe.stays;
    }

    keep-Sound :
        (later : Sending) → Sound line.calls later → Sound before (keep_endpoint endpoint later)
    keep-Sound later h = record {
      vouched = (λ e. h.stays endpoint.identity (safe.vouched e), h.vouched);
      on_chain = h.on_chain;
      stays = λ i e. h.stays i (safe.stays i e);
    }

    go_on-Sound :
        (last_error : Option SendError) (last_null : Option (List Entry))
        (later : Option SendError → Option (List Entry) → Sending) (v : Verdict)
        → ((e : Option SendError) (n : Option (List Entry)) → Sound line.calls (later e n))
        → Sound before (go_on last_error last_null endpoint line rest later v)
    go_on-Sound last_error last_null later (answered r) k = stop-Sound (ok r)
    go_on-Sound last_error last_null later (raised r) k = stop-Sound (err r)
    go_on-Sound last_error last_null later (failed_over e) k =
        keep-Sound (later (some e) last_null) (k (some e) last_null)
    go_on-Sound last_error last_null later (null_response r) k =
        keep-Sound (later last_error (some r)) (k last_error (some r))

  send_loop-Sound :
      (requests : List JsonRpcPayload) (deadline timeout : ℕ) (endpoints : List Endpoint)
      (last_error : Option SendError) (last_null : Option (List Entry)) (line : Line)
      → OnChain expected network line.calls
      → AllVouched line.calls endpoints
      → Sound line.calls
          (send_loop network expected requests deadline timeout endpoints last_error last_null line)
  unfolding send_loop
  send_loop-Sound requests deadline timeout [] last_error last_null line chain vouched = record {
    vouched = tt;
    on_chain = chain;
    stays = λ i h. h;
  }
  send_loop-Sound requests deadline timeout (endpoint ∷ rest) last_error last_null line chain
        (vouched, others) =
      let until = min deadline (line.clock + timeout) in
      let tried = round network expected requests (is_cons rest) until endpoint line in
      let safe = round-Safe requests (is_cons rest) until endpoint line chain vouched in
      let kept = AllVouched-stays line.calls tried.line.calls rest safe.stays others in
      elim (Bool-cases (leb deadline line.clock)) [
        | inl late ↦
            rw late (record { vouched = (vouched, others); on_chain = chain; stays = λ i h. h })
        | inr early ↦ rw early (
            go_on-Sound endpoint line.calls tried.endpoint tried.line rest safe kept last_error
              last_null
              (λ (e : Option SendError). λ (n : Option (List Entry)).
                send_loop network expected requests deadline timeout rest e n tried.line)
              tried.outcome
              (λ e n.
                send_loop-Sound requests deadline timeout rest e n tried.line safe.on_chain kept))
      ]

  send-Sound :
      (timeout : ℕ) (requests : List JsonRpcPayload) (endpoints : List Endpoint) (line : Line)
      → OnChain expected network line.calls
      → AllVouched line.calls endpoints
      → Sound line.calls (send network expected timeout requests endpoints line)
  unfolding send
  send-Sound timeout requests endpoints line chain vouched =
      send_loop-Sound requests (line.clock + timeout * length endpoints) timeout endpoints none none
        line chain vouched

  send_all-kept :
      (timeout : ℕ) (payloads : List (List JsonRpcPayload)) (endpoints : List Endpoint)
      (line : Line)
      → OnChain expected network line.calls
      → AllVouched line.calls endpoints
      → OnChain expected network (send_all network expected timeout payloads endpoints line)
  unfolding send_all
  send_all-kept timeout [] endpoints line chain vouched = chain
  send_all-kept timeout (requests ∷ later) endpoints line chain vouched =
      let sending = send network expected timeout requests endpoints line in
      let h = send-Sound timeout requests endpoints line chain vouched in
      send_all-kept timeout later sending.endpoints sending.line h.on_chain h.vouched

  fresh-AllVouched : (configs : List (ℕ × Text)) → AllVouched [] (endpoints_of configs)
  fresh-AllVouched [] = tt
  fresh-AllVouched ((identity, label) ∷ configs) = (λ e. cc, fresh-AllVouched configs)

  -- Over any sequence of calls of _send on a new provider, and however the network replies, a request with a method
  -- other than eth_chainId goes only to an endpoint that has itself replied before with the expected chain id.
  pub send_all-OnChain :
      (timeout start : ℕ) (configs : List (ℕ × Text)) (payloads : List (List JsonRpcPayload))
      → OnChain expected network (
          send_all network expected timeout payloads
            (endpoints_of configs)
            (record { calls = []; clock = start }))
  send_all-OnChain timeout start configs payloads =
      send_all-kept timeout payloads (endpoints_of configs) (record { calls = []; clock = start })
        tt (fresh-AllVouched configs)
