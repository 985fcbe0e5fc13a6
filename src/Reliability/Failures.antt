-- ===== src/Reliability/Failures.antt =====
-- Whatever the preparation in prepareAndBroadcastTransaction throws is diagnosed as happening before
-- the broadcast.
use ev_web3_award_system.Prelude.{
  ℕ, ◌-◌, ◌≡◌, refl, inl, inr, true, Option, none, some, Result, ok, err, ◌>>◌, require, or_fail,
  leb, ◌&&◌, find_by, Bool-cases, Raises, Raises-bind, Raises-require, Raises-or_fail, get_or,
}
use ev_web3_award_system.Text.{Text}
use ev_web3_award_system.Store.{
  Database, TransactionDiagnostic, TreasuryTransactionLeaseRecord, Error,
  TreasuryTransactionTargetType, token_operation, approval_funding, standalone,
  PreparedTransactionContext,
}
use ev_web3_award_system.Operations.Hash.{require_canonical_transaction_hash}
use ev_web3_award_system.Treasury.{
  TreasuryTransactionPreparationRequest, max_safe_integer, treasury_nonce_busy_window_ms,
  has_lease_key, treasury_intent_matches,
}
use ev_web3_award_system.Treasury.Choice.{
  is_prepared, no_gap, blocks_nonce, lowest_where, nonce_blocked, choose_nonce, nonce_free,
  new_lease,
}
use ev_web3_award_system.Treasury.Prepare.{
  prepare_operation, prepare_funding, prepare_target, context_matches, add_lease, sign_and_lease,
  prepare_new, prepare_found, prepare,
}
use ev_web3_award_system.Rpc.{RpcDiagnosticDetails, RpcError}
use ev_web3_award_system.Rpc.Retry.{default_options, with_rpc_read_retry}
use ev_web3_award_system.Reliability.{
  TreasuryTransactionRequest, TransactionRequest, World, Begin, begin_transaction, locked,
  lock_timeout, no_connection, is_pre_broadcast_transaction_diagnostic,
}
use ev_web3_award_system.Reliability.Sign.{
  or_diagnose, read_fees, read_gas, signing_context, read_unavailable, pending_nonce, base_request,
  with_fees, with_gas_price, estimate_rejected, sign, to_context, prepare_transaction,
  preparation_request,
}
use ev_web3_award_system.Reliability.Broadcast.{
  CoordinatorDiagnostic, preparation_code, coordinator_diagnostic, preparation_diagnostic,
  reliability_diagnostic, catch_preparation,
}

abbrev pub PreBroadcast : TransactionDiagnostic → Type 0
PreBroadcast d = is_pre_broadcast_transaction_diagnostic (some d) ≡ true

-- An error that is diagnosed already is diagnosed as before the broadcast.
abbrev pub Diagnosed : Option TransactionDiagnostic → Type 0
Diagnosed none = Unit
Diagnosed (some d) = PreBroadcast d

abbrev pub Unsent : Error → Type 0
Unsent error = Diagnosed (reliability_diagnostic error)

or_diagnose-Unsent :
    {A : Type 0} (r : Result RpcError A) (diagnose : RpcError → TransactionDiagnostic)
    → ((error : RpcError) → PreBroadcast (diagnose error))
    → Raises Unsent (or_diagnose r diagnose)
or_diagnose-Unsent (ok value) diagnose h = tt
or_diagnose-Unsent (err error) diagnose h = h error

with_gas_price-Unsent :
    (base : TransactionRequest) (price : Option ℕ) → Raises Unsent (with_gas_price base price)
unfolding is_pre_broadcast_transaction_diagnostic
with_gas_price-Unsent base none = refl
with_gas_price-Unsent base (some price) = tt

with_fees-Unsent :
    (base : TransactionRequest) (max_fee priority_fee price : Option ℕ)
    → Raises Unsent (with_fees base max_fee priority_fee price)
with_fees-Unsent base none none price = with_gas_price-Unsent base price
with_fees-Unsent base none (some p) price = with_gas_price-Unsent base price
with_fees-Unsent base (some m) none price = with_gas_price-Unsent base price
with_fees-Unsent base (some m) (some p) price = tt

sign-Unsent :
    (signer : Option (TransactionRequest → Result RpcError Text)) (tx : TransactionRequest)
    → Raises Unsent (sign signer tx)
unfolding is_pre_broadcast_transaction_diagnostic
sign-Unsent none tx = refl
sign-Unsent (some sign_transaction) tx = or_diagnose-Unsent (sign_transaction tx) _ (λ error. refl)

pending_nonce-Unsent : (world : World) → Raises Unsent (pending_nonce world)
unfolding pending_nonce read_unavailable is_pre_broadcast_transaction_diagnostic
pending_nonce-Unsent world =
    or_diagnose-Unsent (with_rpc_read_retry default_options world.transaction_count).outcome _
      (λ error. refl)

read_fees-Unsent : (world : World) (nonce : ℕ) → Raises Unsent (read_fees world nonce)
unfolding read_fees read_unavailable is_pre_broadcast_transaction_diagnostic
read_fees-Unsent world nonce =
    or_diagnose-Unsent (with_rpc_read_retry default_options world.fee_data).outcome _
      (λ error. refl)

read_gas-Unsent :
    (world : World) (nonce : ℕ) (base : TransactionRequest)
    → Raises Unsent (read_gas world nonce base)
unfolding read_gas estimate_rejected is_pre_broadcast_transaction_diagnostic
read_gas-Unsent world nonce base =
    or_diagnose-Unsent (with_rpc_read_retry default_options (world.estimate_gas base)).outcome _
      (λ error. refl)

signing_context-Unsent :
    (world : World) (request : TreasuryTransactionRequest) (signer : Text) (nonce : ℕ)
    (tx : TransactionRequest)
    → Raises Unsent (signing_context world request signer nonce tx)
unfolding signing_context is_pre_broadcast_transaction_diagnostic
signing_context-Unsent world request signer nonce tx =
    or_diagnose-Unsent (to_context world request signer nonce tx) _ (λ error. refl)

prepare_transaction-Unsent :
    (world : World) (request : TreasuryTransactionRequest) (signer : Text) (nonce : ℕ)
    → Raises Unsent (prepare_transaction world request signer nonce)
unfolding prepare_transaction
prepare_transaction-Unsent world request signer nonce =
    Raises-bind Unsent (read_fees world nonce) _ (read_fees-Unsent world nonce) λ fees.
      Raises-bind Unsent
        (with_fees (base_request request nonce) fees.max_fee_per_gas fees.max_priority_fee_per_gas
          fees.gas_price)
        _ (with_fees-Unsent (base_request request nonce) _ _ _)
        λ base.
          Raises-bind Unsent (read_gas world nonce base) _ (read_gas-Unsent world nonce base) λ gas.
            let tx = record base { gas_limit = some gas } in
            Raises-bind Unsent (sign world.sign_transaction tx) _
              (sign-Unsent world.sign_transaction tx)
              λ raw.
                Raises-bind Unsent (signing_context world request signer nonce tx) _
                  (signing_context-Unsent world request signer nonce tx) (λ context. tt)

prepare_target-Unsent :
    (now : ℕ) (request : TreasuryTransactionPreparationRequest) (hash : Text) (nonce : ℕ)
    (context : PreparedTransactionContext) (db : Database) (t : TreasuryTransactionTargetType)
    → Raises Unsent (prepare_target now request hash nonce context db t)
unfolding prepare_operation prepare_funding
prepare_target-Unsent now request hash nonce context db token_operation =
    search (Raises-bind, Raises-require, Raises-or_fail)
prepare_target-Unsent now request hash nonce context db approval_funding =
    search (Raises-bind, Raises-require, Raises-or_fail)
prepare_target-Unsent now request hash nonce context db standalone = tt

nonce_blocked-Unsent :
    (now : ℕ) (lease : TreasuryTransactionLeaseRecord) → Unsent (nonce_blocked now lease)
unfolding nonce_blocked
nonce_blocked-Unsent now lease =
    elim (Bool-cases (
      is_prepared lease.status
      && leb lease.updated_at now
      && leb (now - lease.updated_at) treasury_nonce_busy_window_ms)) [
        | inl e ↦ rw e tt
        | inr e ↦ rw e tt
      ]

no_gap-Unsent :
    (now : ℕ) (chain signer : Text) (pending : ℕ) (db : Database)
    → Raises Unsent (no_gap now chain signer pending db)
unfolding no_gap
no_gap-Unsent now chain signer pending db =
    blocked (lowest_where (blocks_nonce chain signer pending) db.leases)
  where
    blocked :
        (lease : Option TreasuryTransactionLeaseRecord)
        → Raises Unsent (elim lease as (λ _. Result Error (Unit {0})) [
          | none ↦ ok tt
          | some lease ↦ err (nonce_blocked now lease)
        ])
    blocked none = tt
    blocked (some lease) = nonce_blocked-Unsent now lease

module _ (now : ℕ) (request : TreasuryTransactionPreparationRequest) (db : Database)
    (signs : (nonce : ℕ) → Raises Unsent (request.prepare nonce))
    (reads : Raises Unsent request.get_pending_nonce) where
  sign_and_lease-Unsent : (nonce : ℕ) → Raises Unsent (sign_and_lease now request nonce db)
  unfolding sign_and_lease require_canonical_transaction_hash
  sign_and_lease-Unsent nonce =
      Raises-bind Unsent (request.prepare nonce) _ (signs nonce) λ prepared.
        Raises-bind Unsent (require_canonical_transaction_hash prepared.tx_hash) _
          (Raises-or_fail Unsent _ _ tt)
          λ hash.
            Raises-bind Unsent (require (context_matches request nonce prepared.context) _) _
              (Raises-require Unsent _ _ tt)
              λ _.
                Raises-bind Unsent
                  (require (nonce_free request.chain_id request.signer_address nonce db.leases) _) _
                  (Raises-require Unsent _ _ tt)
                  λ _.
                    Raises-bind Unsent
                      (prepare_target now request hash nonce prepared.context
                        (add_lease (new_lease now request nonce hash prepared.context) db)
                        request.target_type)
                      _
                      (prepare_target-Unsent now request hash nonce prepared.context _
                        request.target_type)
                      (λ db'. tt)

  prepare-Unsent : Raises Unsent (prepare now request db)
  unfolding prepare prepare_new
  prepare-Unsent = split (find_by (has_lease_key request.operation_key) db.leases)
    where
      split :
          (lease : Option TreasuryTransactionLeaseRecord)
          → Raises Unsent (prepare_found now request lease db)
      split none = Raises-bind Unsent request.get_pending_nonce _ reads λ answered.
          Raises-bind Unsent (or_fail answered _) _ (Raises-or_fail Unsent answered _ tt) λ pending.
            Raises-bind Unsent (no_gap now request.chain_id request.signer_address pending db) _
              (no_gap-Unsent now request.chain_id request.signer_address pending db)
              λ _.
                Raises-bind Unsent
                  (require
                    (leb (choose_nonce request.chain_id request.signer_address pending db.leases)
                      max_safe_integer)
                    _)
                  _ (Raises-require Unsent _ _ tt) λ _. sign_and_lease-Unsent _
      split (some lease) =
          Raises-bind Unsent (require (treasury_intent_matches lease request) _) _
            (Raises-require Unsent _ _ tt) (λ _. tt)

preparation_diagnostic-PreBroadcast :
    (error : Error) (code : Option Text) (outcome : Option CoordinatorDiagnostic)
    (details : RpcDiagnosticDetails)
    → PreBroadcast (preparation_diagnostic error code outcome details)
unfolding is_pre_broadcast_transaction_diagnostic
preparation_diagnostic-PreBroadcast error none outcome details = refl
preparation_diagnostic-PreBroadcast error (some code) none details = refl
preparation_diagnostic-PreBroadcast error (some code) (some outcome) details = refl

pub catch_preparation-PreBroadcast :
    (world : World) (error : Error) → Unsent error → PreBroadcast (catch_preparation world error)
unfolding catch_preparation
catch_preparation-PreBroadcast world error h = split (reliability_diagnostic error) h
  where
    split :
        (d : Option TransactionDiagnostic)
        → Diagnosed d
        → PreBroadcast (
            get_or d (
              preparation_diagnostic error
                (preparation_code error)
                (coordinator_diagnostic error)
                (world.error_details error)))
    split none h =
        preparation_diagnostic-PreBroadcast error (preparation_code error)
          (coordinator_diagnostic error) (world.error_details error)
    split (some d) h = h

begin_transaction-Unsent : (begin : Begin) → Raises Unsent (begin_transaction begin)
begin_transaction-Unsent locked = tt
begin_transaction-Unsent lock_timeout = tt
begin_transaction-Unsent no_connection = tt

-- The whole preparation of a call.
pub preparation-Unsent :
    (now : ℕ) (world : World) (request : TreasuryTransactionRequest) (signer : Text) (db : Database)
    → Raises Unsent
        (begin_transaction world.begin >> prepare now (preparation_request world request signer) db)
unfolding preparation_request
preparation-Unsent now world request signer db =
    Raises-bind Unsent (begin_transaction world.begin) _ (begin_transaction-Unsent world.begin) λ _.
      prepare-Unsent now (preparation_request world request signer) db
        (prepare_transaction-Unsent world request signer) (pending_nonce-Unsent world)
