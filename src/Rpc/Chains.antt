-- ===== src/Rpc/Chains.antt =====
-- The chain that the endpoints of _send of src/rpcProvider.ts are on.
use ev_web3_award_system.Prelude.{
  ℕ, ◌-◌, ◌≡◌, refl, ◌∙◌, ◌⊎◌, inl, inr, Bool, true, List, Option, none, some, Result, ok, err,
  ◌>>=◌, >>=-eq-ok, leb, Bool-cases,
}
use ev_web3_award_system.Rpc.Protocol.{
  JsonRpcPayload, Entry, SendError, is_id, response_for_id, chain_id_from_result,
}
use ev_web3_award_system.Rpc.Failover.{
  Endpoint, RpcCall, Reply, Line, Tried, any_method, not_chain_id, chain_payload, with_chain_id,
  check_chain_ids, settle_checked, settle_with,
}
use ev_web3_award_system.Rpc.Send.{
  request_endpoint, accept_chain_id, validate_endpoint, validate_for,
}
use ev_web3_award_system.Rpc.Confirmed.{
  confirmed, OnChain, names_chain, Safe, from_result_says, checked_names, checked_identity,
  request-Safe, request_confirms,
}

module _ (network : List RpcCall → RpcCall → Reply) (expected : ℕ) where
  accepted_vouched :
      (verdict : Result SendError (Unit {0})) (endpoint : Endpoint) (known : Bool)
      → ((u : Unit {0}) → verdict ≡ ok u → known ≡ true)
      → (is_id expected endpoint.validated_chain_id ≡ true → known ≡ true)
      → is_id expected (with_chain_id expected verdict endpoint).validated_chain_id ≡ true
      → known ≡ true
  accepted_vouched (err error) endpoint known h k e = k e
  accepted_vouched (ok u) endpoint known h k e = h u refl

  accepted_identity :
      (verdict : Result SendError (Unit {0})) (endpoint : Endpoint)
      → (with_chain_id expected verdict endpoint).identity ≡ endpoint.identity
  accepted_identity (err error) endpoint = refl
  accepted_identity (ok u) endpoint = refl

  -- A validation: safe, and an endpoint that passes it is confirmed, if `needed`.
  pub record Checked (needed : Bool) (first : Endpoint) (before : List RpcCall)
      (t : Tried (Result SendError (Unit {0}))) : Type 0 where
    pub safe : Safe expected network first before t.endpoint t.line.calls
    pub passed :
        (u : Unit {0})
        → t.outcome ≡ ok u
        → needed ≡ true
        → confirmed expected network t.line.calls t.endpoint.identity ≡ true

  module _ (endpoint : Endpoint) (line : Line) (chain : OnChain expected network line.calls)
      (vouched : is_id expected endpoint.validated_chain_id ≡ true
        → confirmed expected network line.calls endpoint.identity ≡ true) where
    unchanged : Safe expected network endpoint line.calls endpoint line.calls
    unchanged = record { same = refl; vouched = vouched; on_chain = chain; stays = λ i h. h }

    confirms :
        (timeout : ℕ) (u : Unit {0})
        → ((request_endpoint network expected endpoint chain_payload timeout line).outcome
            >>= λ response. chain_id_from_result (response_for_id response 0) expected)
          ≡ ok u
        → confirmed expected network
            (request_endpoint network expected endpoint chain_payload timeout line).line.calls
            endpoint.identity
          ≡ true
    confirms timeout u e =
        let (response, returned, checked) =
          >>=-eq-ok (request_endpoint network expected endpoint chain_payload timeout line).outcome
            (λ (response : List Entry). chain_id_from_result (response_for_id response 0) expected)
            e in
        request_confirms expected network endpoint chain_payload timeout line returned
          (rw (from_result_says expected (response_for_id response 0) checked) refl)

    accept-Checked :
        (timeout : ℕ)
        → Checked true endpoint line.calls (
            accept_chain_id network expected
              (request_endpoint network expected endpoint chain_payload timeout line))
    accept-Checked timeout =
        let asked = request_endpoint network expected endpoint chain_payload timeout line in
        let safe =
          request-Safe expected network endpoint chain_payload timeout line chain vouched
            (λ e. cc) in
        let verdict : Result SendError (Unit {0}) = asked.outcome >>= λ response.
        chain_id_from_result (response_for_id response 0) expected in
        let known : (u : Unit {0})
            → verdict ≡ ok u
            → confirmed expected network asked.line.calls endpoint.identity ≡ true =
          λ u e. confirms timeout u e in
        record {
          safe = record {
            same = accepted_identity verdict asked.endpoint ∙ safe.same;
            vouched =
                accepted_vouched verdict asked.endpoint
                  (confirmed expected network asked.line.calls
                    (with_chain_id expected verdict asked.endpoint).identity)
                  (λ u e. rw (accepted_identity verdict asked.endpoint ∙ safe.same) (known u e))
                  (λ h. rw (accepted_identity verdict asked.endpoint) (safe.vouched h));
            on_chain = safe.on_chain;
            stays = safe.stays;
          };
          passed = λ u e n. rw (accepted_identity verdict asked.endpoint ∙ safe.same) (known u e);
        }

    validate_endpoint-Checked :
        (deadline : ℕ)
        → Checked true endpoint line.calls
            (validate_endpoint network expected endpoint deadline line)
    unfolding validate_endpoint
    validate_endpoint-Checked deadline =
        elim (Bool-cases (is_id expected endpoint.validated_chain_id)) [
          | inl known ↦ rw known (record { safe = unchanged; passed = λ u e n. vouched known })
          | inr unknown ↦ elim (Bool-cases (leb deadline line.clock)) [
            | inl late ↦ rw (unknown, late) (record { safe = unchanged; passed = λ u e n. cc })
            | inr early ↦ rw (unknown, early) (accept-Checked (deadline - line.clock))
          ]
        ]

    pub validate_for-Checked :
        (requests : List JsonRpcPayload) (deadline : ℕ)
        → Checked
            (any_method not_chain_id requests)
            endpoint
            line.calls
            (validate_for network expected requests endpoint deadline line)
    unfolding validate_for
    validate_for-Checked requests deadline = elim (Bool-cases (any_method not_chain_id requests)) [
      | inl asks ↦ rw asks (validate_endpoint-Checked deadline)
      | inr only ↦ rw only (record { safe = unchanged; passed = λ u e n. cc })
    ]

  -- The endpoint after a response: its identity, and a chain id only if the response names it.
  pub record Settled (requests : List JsonRpcPayload) (response : List Entry)
      (first endpoint : Endpoint) : Type 0 where
    pub same : endpoint.identity ≡ first.identity
    pub named :
        is_id expected endpoint.validated_chain_id ≡ true
        → (is_id expected first.validated_chain_id ≡ true)
          ⊎ (names_chain expected requests response ≡ true)

  checked-Settled :
      (requests : List JsonRpcPayload) (has_next : Bool) (response : List Entry) (first : Endpoint)
      (checked : (Result SendError (Unit {0})) × Endpoint)
      → Settled requests response first checked.1
      → Settled requests response first (settle_checked requests has_next response checked).1
  checked-Settled requests has_next response first (err error, endpoint) h = h
  checked-Settled requests has_next response first (ok u, endpoint) h = h

  pub with-Settled :
      (requests : List JsonRpcPayload) (has_next : Bool) (response : List Entry) (first : Endpoint)
      (found : Option SendError)
      → Settled requests response first
          (settle_with expected requests has_next response first found).1
  with-Settled requests has_next response first (some error) = record {
    same = refl;
    named = λ h. inl h;
  }
  with-Settled requests has_next response first none =
      checked-Settled requests has_next response first
        (check_chain_ids expected requests response first)
        (record {
          same = checked_identity expected requests response first;
          named = checked_names expected requests response first;
        })
