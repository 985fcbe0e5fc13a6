-- ===== src/Rpc/Tests.antt =====
-- Runs of the bounded retry.
use ev_web3_award_system.Prelude.{ℕ, zero, suc, ◌≡◌, refl, true, Option, none, some, ok, err}
use ev_web3_award_system.Text.{codes}
use ev_web3_award_system.Rpc.{transient_message}
use ev_web3_award_system.Rpc.Retry.{
  Answer, RpcReadRetryOptions, with_rpc_read_retry, with_nullable_rpc_read_retry, timeout_error,
  again_error, again_null,
}
use ev_web3_award_system.Rpc.Bounds.{
  Retried, Bounded, with_rpc_read_retry-Retried, with_nullable_rpc_read_retry-Retried,
  read_retry-Bounded,
}

-- The first attempt takes too long, the second finds nothing yet, the third a receipt.
abbrev receipt : ℕ → Answer (Option ℕ)
receipt (suc zero) = record { result = ok (some 7); took = 2500 }
receipt (suc (suc zero)) = record { result = ok none; took = 40 }
receipt _ = record { result = ok (some 7); took = 60 }

abbrev options : RpcReadRetryOptions
options = record { max_attempts = none; delay_ms = some 50; timeout_ms = some 2000 }

abbrev propagating : ℕ → Answer (Option ℕ)
propagating (suc zero) = record { result = err timeout_error; took = 300 }
propagating (suc (suc zero)) = record { result = ok none; took = 40 }
propagating _ = record { result = ok (some 7); took = 60 }

-- 300 ms, a sleep of 50, 40 ms, a sleep of 100, 60 ms.
found_third :
    with_nullable_rpc_read_retry options propagating
    ≡ record { outcome = ok (some 7); attempts = 3; elapsed = 550 }
unfolding with_nullable_rpc_read_retry
found_third = refl

-- The plain retry returns the null.
null_second :
    with_rpc_read_retry options propagating
    ≡ record { outcome = ok none; attempts = 2; elapsed = 390 }
unfolding with_rpc_read_retry
null_second = refl

-- An attempt that takes the whole time is not repeated.
timed_out :
    with_rpc_read_retry options receipt
    ≡ record { outcome = err timeout_error; attempts = 1; elapsed = 2000 }
unfolding with_rpc_read_retry
timed_out = refl

server_text : transient_message (codes "bad: server response 503 (x)") ≡ true
unfolding transient_message
server_text = refl

with_rpc_read_retry-Retried_example :
    Retried again_error 50 2000 propagating 2 0 (with_rpc_read_retry options propagating)
with_rpc_read_retry-Retried_example = with_rpc_read_retry-Retried options propagating

with_nullable_rpc_read_retry-Retried_example :
    Retried again_null 50 2000 propagating 2 0 (with_nullable_rpc_read_retry options propagating)
with_nullable_rpc_read_retry-Retried_example =
    with_nullable_rpc_read_retry-Retried options propagating

abbrev BothBounded : Type 0
BothBounded =
    Bounded options (with_rpc_read_retry options propagating)
    × Bounded options (with_nullable_rpc_read_retry options propagating)

read_retry-Bounded_example : BothBounded
read_retry-Bounded_example = read_retry-Bounded options propagating
