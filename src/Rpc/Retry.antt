-- ===== src/Rpc/Retry.antt =====
-- withRpcReadRetry and withNullableRpcReadRetry of src/rpcProvider.ts. A read is what the chain
-- answers to each attempt and after how many milliseconds; the clock advances by that, by the
-- time-out of an attempt that takes as long or longer, and by the sleep before the next attempt.
use ev_web3_award_system.Prelude.{
  ℕ, zero, suc, ◌+◌, ◌-◌, ◌*◌, min, max, Bool, false, ◌||◌, not, [], ◌∷◌, Option, none, some,
  is_some, get_or, Result, ok, err, ltb, leb, if◌then◌else◌,
}
use ev_web3_award_system.Text.{codes}
use ev_web3_award_system.Rpc.{RpcError, is_transient_rpc_read_error}

abbrev pub rpc_read_max_attempts : ℕ
rpc_read_max_attempts = 3

abbrev pub rpc_read_retry_delay_ms : ℕ
rpc_read_retry_delay_ms = 100

abbrev pub rpc_read_timeout_ms : ℕ
rpc_read_timeout_ms = 10000

-- The options, each rounded down to a whole number. The hook `sleep` of the tests is left out: a sleep
-- takes the time that it is asked for.
pub record RpcReadRetryOptions : Type 0 where
  pub max_attempts : Option ℕ
  pub delay_ms : Option ℕ
  pub timeout_ms : Option ℕ

abbrev pub default_options : RpcReadRetryOptions
default_options = record { max_attempts = none; delay_ms = none; timeout_ms = none }

abbrev pub attempts_of : RpcReadRetryOptions → ℕ
attempts_of options =
    min rpc_read_max_attempts (max 1 (get_or options.max_attempts rpc_read_max_attempts))

abbrev pub delay_of : RpcReadRetryOptions → ℕ
delay_of options = min 1000 (get_or options.delay_ms rpc_read_retry_delay_ms)

abbrev pub timeout_of : RpcReadRetryOptions → ℕ
timeout_of options = max 1 (min 30000 (get_or options.timeout_ms rpc_read_timeout_ms))

-- `Object.assign(new Error('RPC_READ_TIMEOUT'), { code: 'TIMEOUT' })`.
abbrev pub timeout_error : RpcError
timeout_error = record {
  details = record {
    provider_code = some (codes "TIMEOUT");
    rpc_code = none;
    http_status = none;
    trace_id = none;
    endpoint_label = none;
  };
  rpc_number = none;
  numeric_codes = [];
  string_codes = codes "TIMEOUT" ∷ [];
  message = codes "RPC_READ_TIMEOUT";
}

-- The answer to one attempt, and when it comes.
pub record Answer (A : Type 0) : Type 0 where
  pub result : Result RpcError A
  pub took : ℕ

-- What a read ends with: the number of attempts made and the time that has passed.
pub record Reading (A : Type 0) : Type 0 where
  pub outcome : Result RpcError A
  pub attempts : ℕ
  pub elapsed : ℕ

-- An error is tried again if it is transient.
abbrev pub again_error : {A : Type 0} → Result RpcError A → Bool
again_error (ok value) = false
again_error (err error) = is_transient_rpc_read_error error

-- So is a null, which may be a transaction that is still propagating.
abbrev pub again_null : {A : Type 0} → Result RpcError (Option A) → Bool
again_null (ok value) = not (is_some value)
again_null (err error) = is_transient_rpc_read_error error

module _ {A : Type 0} where
  unfoldable pub with_read_timeout : ℕ → Answer A → Answer A
  with_read_timeout timeout answer =
      if ltb answer.took timeout
      then answer
      else record { result = err timeout_error; took = timeout }

  module _ (again : Result RpcError A → Bool) (delay timeout : ℕ) (read : ℕ → Answer A) where
    -- The answer to an attempt that starts at a time.
    abbrev pub attempt_at : (attempt clock : ℕ) → Answer A
    attempt_at attempt clock =
        with_read_timeout (min timeout (max 1 (timeout - clock))) (read attempt)

    -- The time at which the attempt has ended, and that at which the next one starts.
    abbrev pub ended_at : (attempt clock : ℕ) → ℕ
    ended_at attempt clock = clock + (attempt_at attempt clock).took

    abbrev pub next_at : (attempt clock : ℕ) → ℕ
    next_at attempt clock =
        ended_at attempt clock + min (delay * attempt) (timeout - ended_at attempt clock)

    -- The loop, with the number of attempts that are left after this one.
    unfoldable pub retry_loop : (left attempt clock : ℕ) → Reading A
    unfolding with_read_timeout
    retry_loop zero attempt clock = record {
      outcome = (attempt_at attempt clock).result;
      attempts = attempt;
      elapsed = ended_at attempt clock;
    }
    retry_loop (suc left) attempt clock =
        let rest = retry_loop left (suc attempt) (next_at attempt clock) in
        if not (again (attempt_at attempt clock).result) || leb timeout (ended_at attempt clock)
        then record {
          outcome = (attempt_at attempt clock).result;
          attempts = attempt;
          elapsed = ended_at attempt clock;
        }
        else rest

  unfoldable pub with_rpc_read_retry : RpcReadRetryOptions → (ℕ → Answer A) → Reading A
  unfolding retry_loop is_transient_rpc_read_error
  with_rpc_read_retry options read =
      retry_loop again_error (delay_of options) (timeout_of options) read (attempts_of options - 1)
        1 0

unfoldable pub with_nullable_rpc_read_retry :
    {A : Type 0} → RpcReadRetryOptions → (ℕ → Answer (Option A)) → Reading (Option A)
unfolding retry_loop is_transient_rpc_read_error
with_nullable_rpc_read_retry options read =
    retry_loop again_null (delay_of options) (timeout_of options) read (attempts_of options - 1) 1 0
