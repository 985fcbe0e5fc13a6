-- ===== src/Rpc/Confirmed.antt =====
-- The chain of an endpoint that _send of src/rpcProvider.ts asks: how it is confirmed by the
-- endpoint's own replies.
use ev_web3_award_system.Prelude.{
  ℕ, ◌≡◌, refl, sym, ◌∙◌, ◌⊎◌, inl, inr, Bool, true, false, ◌&&◌, ◌||◌, List, [], ◌∷◌, Option, none,
  some, Result, ok, err, ◌>>=◌, ◌>>◌, ◌==◌, arith,
}
use ev_web3_award_system.Rpc.Protocol.{
  JsonRpcPayload, JsonValue, null, number, other_value, Entry, Envelope, SendError, is_id,
  is_chain_id, response_for_id, validate_rpc_response, chain_id_of_value, chain_id_from_result,
}
use ev_web3_award_system.Rpc.Failover.{
  Endpoint, RpcCall, Reply, Line, any_method, not_chain_id, noted, note_chain_id, check_chain_ids,
}
use ev_web3_award_system.Rpc.Send.{request_endpoint}

module _ (expected : ℕ) where
  -- The entry has the expected number as its result.
  abbrev pub is_expected : Option JsonValue → Bool
  is_expected (some (number n)) = n == expected
  is_expected _ = false

  abbrev pub says_chain : Option Entry → Bool
  says_chain none = false
  says_chain (some entry) = is_expected entry.result

  -- One of the eth_chainId requests is answered so.
  abbrev pub names_chain : List JsonRpcPayload → List Entry → Bool
  names_chain [] body = false
  names_chain (request ∷ rest) body =
      is_chain_id request.method && says_chain (response_for_id body request.id)
      || names_chain rest body

  abbrev pub reply_names : List JsonRpcPayload → Result SendError (List Entry) → Bool
  reply_names requests (err _) = false
  reply_names requests (ok body) = names_chain requests body

  abbrev pub Vouches : Option ℕ → Bool → Type 0
  Vouches validated b = is_id expected validated ≡ true → b ≡ true

  value_says :
      (o : Option JsonValue) {u : Unit {0}}
      → chain_id_of_value o expected ≡ ok u
      → is_expected o ≡ true
  value_says (some (number n)) h = ground arith
  value_says none h = cc
  value_says (some null) h = cc
  value_says (some (other_value s)) h = cc

  entry_says :
      (error : Option Envelope) (o : Option JsonValue) {u : Unit {0}}
      → (elim error [ some envelope ↦ err envelope.thrown | none ↦ chain_id_of_value o expected ])
        ≡ ok u
      → is_expected o ≡ true
  entry_says none o h = value_says o h
  entry_says (some envelope) o h = cc

  pub from_result_says :
      (entry : Option Entry) {u : Unit {0}}
      → chain_id_from_result entry expected ≡ ok u
      → says_chain entry ≡ true
  unfolding chain_id_from_result
  from_result_says none h = cc
  from_result_says (some entry) h = entry_says entry.error entry.result h

  note_names :
      (asks says more : Bool) (checked : Result SendError (Unit {0})) (endpoint : Endpoint)
      (later : (Result SendError (Unit {0})) × Endpoint)
      → ((u : Unit {0}) → checked ≡ ok u → says ≡ true)
      → (is_id expected later.1.validated_chain_id ≡ true
          → (is_id expected (noted expected asks endpoint).validated_chain_id ≡ true)
            ⊎ (more ≡ true))
      → is_id expected (note_chain_id asks checked endpoint later).1.validated_chain_id ≡ true
      → (is_id expected endpoint.validated_chain_id ≡ true) ⊎ ((asks && says || more) ≡ true)
  note_names false says more checked endpoint later h ih e = ih e
  note_names true says more (err error) endpoint later h ih e = inl e
  note_names true says more (ok u) endpoint later h ih e = rw (h u refl) (inr refl)

  -- The loop over the eth_chainId requests notes a chain id only where the response names it.
  pub checked_names :
      (requests : List JsonRpcPayload) (response : List Entry) (endpoint : Endpoint)
      → is_id expected (check_chain_ids expected requests response endpoint).1.validated_chain_id
        ≡ true
      → (is_id expected endpoint.validated_chain_id ≡ true) ⊎ (names_chain requests response ≡ true)
  checked_names [] response endpoint h = inl h
  checked_names (request ∷ rest) response endpoint h =
      let entry = response_for_id response request.id in
      let asks = is_chain_id request.method in
      note_names asks (says_chain entry) (names_chain rest response)
        (chain_id_from_result entry expected) endpoint
        (check_chain_ids expected rest response (noted expected asks endpoint))
        (λ u e. from_result_says entry e)
        (checked_names rest response (noted expected asks endpoint)) h

  note_identity :
      (asks : Bool) (checked : Result SendError (Unit {0})) (endpoint : Endpoint)
      (later : (Result SendError (Unit {0})) × Endpoint)
      → later.1.identity ≡ (noted expected asks endpoint).identity
      → (note_chain_id asks checked endpoint later).1.identity ≡ endpoint.identity
  note_identity false checked endpoint later h = h
  note_identity true (err error) endpoint later h = refl
  note_identity true (ok u) endpoint later h = h

  pub checked_identity :
      (requests : List JsonRpcPayload) (response : List Entry) (endpoint : Endpoint)
      → (check_chain_ids expected requests response endpoint).1.identity ≡ endpoint.identity
  checked_identity [] response endpoint = refl
  checked_identity (request ∷ rest) response endpoint =
      let asks = is_chain_id request.method in
      note_identity asks (chain_id_from_result (response_for_id response request.id) expected)
        endpoint (check_chain_ids expected rest response (noted expected asks endpoint))
        (checked_identity rest response (noted expected asks endpoint))

  module _ (network : List RpcCall → RpcCall → Reply) where
    -- The endpoint itself has replied with the expected chain id.
    abbrev pub confirmed : List RpcCall → ℕ → Bool
    confirmed [] identity = false
    confirmed (call ∷ earlier) identity =
        call.identity == identity && reply_names call.requests (network earlier call).body
        || confirmed earlier identity

    -- Each call with a method other than eth_chainId goes to an endpoint that was confirmed before.
    abbrev pub OnChain : List RpcCall → Type 0
    OnChain [] = Unit
    OnChain (call ∷ earlier) =
        (any_method not_chain_id call.requests ≡ true → confirmed earlier call.identity ≡ true)
        × OnChain earlier

    -- What a call leaves: the endpoint's identity, and confirmations that stay.
    pub record Safe (first : Endpoint) (before : List RpcCall) (endpoint : Endpoint)
        (after : List RpcCall) : Type 0 where
      pub same : endpoint.identity ≡ first.identity
      pub vouched :
          is_id expected endpoint.validated_chain_id ≡ true
          → confirmed after endpoint.identity ≡ true
      pub on_chain : OnChain after
      pub stays :
          (identity : ℕ) → confirmed before identity ≡ true → confirmed after identity ≡ true

    pub Safe-trans :
        (a b c : Endpoint) (x y z : List RpcCall) → Safe a x b y → Safe b y c z → Safe a x c z
    Safe-trans a b c x y z p q = record {
      same = q.same ∙ p.same;
      vouched = q.vouched;
      on_chain = q.on_chain;
      stays = λ i h. q.stays i (p.stays i h);
    }

    ok_after :
        {A : Type 0} (first : Result SendError (Unit {0})) (a : A) {b : A}
        → (first >> ok a) ≡ ok b
        → a ≡ b
    ok_after (ok u) a h = cc
    ok_after (err error) a h = cc

    validated_names :
        (body : Result SendError (List Entry)) (requests : List JsonRpcPayload)
        {response : List Entry}
        → (body >>= λ b. validate_rpc_response b requests) ≡ ok response
        → names_chain requests response ≡ true
        → reply_names requests body ≡ true
    unfolding validate_rpc_response
    validated_names (err error) requests h e = cc
    validated_names (ok body) requests h e = rw (sym (ok_after _ body h)) at e

    -- A request is safe if it asks for nothing but the chain id or the endpoint is confirmed.
    pub request-Safe :
        (endpoint : Endpoint) (requests : List JsonRpcPayload) (timeout : ℕ) (line : Line)
        → OnChain line.calls
        → (is_id expected endpoint.validated_chain_id ≡ true
            → confirmed line.calls endpoint.identity ≡ true)
        → (any_method not_chain_id requests ≡ true → confirmed line.calls endpoint.identity ≡ true)
        → Safe endpoint line.calls
            (request_endpoint network expected endpoint requests timeout line).endpoint
            (request_endpoint network expected endpoint requests timeout line).line.calls
    unfolding request_endpoint
    request-Safe endpoint requests timeout line chain vouched allowed = record {
      same = refl;
      vouched = λ h. ground (arith, vouched h);
      on_chain = (allowed, chain);
      stays = λ i h. ground (arith, h);
    }

    -- A validated response that names the chain confirms the endpoint.
    pub request_confirms :
        (endpoint : Endpoint) (requests : List JsonRpcPayload) (timeout : ℕ) (line : Line)
        {response : List Entry}
        → (request_endpoint network expected endpoint requests timeout line).outcome ≡ ok response
        → names_chain requests response ≡ true
        → confirmed
            (request_endpoint network expected endpoint requests timeout line).line.calls
            endpoint.identity
          ≡ true
    unfolding request_endpoint
    request_confirms endpoint requests timeout line h names =
        ground (arith, validated_names _ requests h names)
