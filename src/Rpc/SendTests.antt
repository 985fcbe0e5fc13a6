-- ===== src/Rpc/SendTests.antt =====
-- Runs of the failover over two endpoints, the first of which is on another chain.
use ev_web3_award_system.Prelude.{
  ℕ, ◌≤◌, ◌≡◌, refl, true, List, [], ◌∷◌, none, some, ok, err, ◌==◌, map, if◌then◌else◌,
}
use ev_web3_award_system.Text.{Text, codes}
use ev_web3_award_system.Rpc.Protocol.{
  Method, eth_chain_id, eth_send_raw_transaction, eth_send_transaction, JsonRpcPayload, number,
  other_value, Entry, coded_error,
}
use ev_web3_award_system.Rpc.Failover.{RpcCall, Reply, Line, any_method, not_chain_id}
use ev_web3_award_system.Rpc.Send.{endpoints_of, send, send_all}
use ev_web3_award_system.Rpc.Confirmed.{OnChain}
use ev_web3_award_system.Rpc.Once.{writes, send-Once}
use ev_web3_award_system.Rpc.Vouched.{send_all-OnChain}

abbrev chain_entry : ℕ → Entry
chain_entry n = record { id = some 0; is_version_2 = true; result = some (number n); error = none }

abbrev hash_entry : Entry
hash_entry = record {
  id = some 5;
  is_version_2 = true;
  result = some (other_value (codes "0xab"));
  error = none;
}

abbrev network : List RpcCall → RpcCall → Reply
network earlier call =
    if any_method not_chain_id call.requests
    then record { body = ok (hash_entry ∷ []); took = 30 }
    else record {
      body = ok (chain_entry (if call.identity == 1 then 137 else 80002) ∷ []);
      took = 20;
    }

abbrev configs : List (ℕ × Text)
configs = (1, codes "primary") ∷ (2, codes "fallback-1") ∷ []

abbrev new_line : Line
new_line = record { calls = []; clock = 0 }

abbrev payload : Method → List JsonRpcPayload
payload method = record { id = 5; method = method; params = codes "0x02" ∷ [] } ∷ []

abbrev identity_of : RpcCall → ℕ
identity_of call = call.identity

-- The raw transaction goes to the second endpoint, after both were asked for their chain.
raw_outcome :
    (send network 80002 2500
      (payload eth_send_raw_transaction)
      (endpoints_of configs)
      new_line).outcome
    ≡ ok (hash_entry ∷ [])
unfolding send
raw_outcome = refl

raw_calls :
    map identity_of
      (send network 80002 2500
        (payload eth_send_raw_transaction)
        (endpoints_of configs)
        new_line).line.calls
    ≡ 2 ∷ 2 ∷ 1 ∷ []
unfolding send
raw_calls = refl

-- A transaction that the provider would sign stops at the first endpoint.
managed_outcome :
    (send network 80002 2500 (payload eth_send_transaction) (endpoints_of configs) new_line).outcome
    ≡ err (coded_error (codes "CHAIN_ID_MISMATCH") (codes "RPC endpoint chain ID differs"))
unfolding send
managed_outcome = refl

managed_calls :
    map identity_of
      (send network 80002 2500
        (payload eth_send_transaction)
        (endpoints_of configs)
        new_line).line.calls
    ≡ 1 ∷ []
unfolding send
managed_calls = refl

send-Once_example :
    writes
      (send network 80002 2500
        (payload eth_send_raw_transaction)
        (endpoints_of configs)
        new_line).line.calls
    ≤ 2
send-Once_example =
    send-Once network 80002 (payload eth_send_raw_transaction) 2500 (endpoints_of configs) new_line

send_all-OnChain_example : OnChain 80002 network (
    send_all network 80002 2500
      (payload eth_send_raw_transaction ∷ payload eth_chain_id ∷ payload eth_send_transaction ∷ [])
      (endpoints_of configs)
      new_line)
send_all-OnChain_example =
    send_all-OnChain network 80002 2500 0 configs
      (payload eth_send_raw_transaction ∷ payload eth_chain_id ∷ payload eth_send_transaction ∷ [])
