-- ===== src/Rpc/Bounds.antt =====
-- What the bounded retry of src/rpcProvider.ts ends with, and that it ends.
use ev_web3_award_system.Prelude.{
  ℕ, zero, suc, ◌+◌, ◌-◌, ◌≤◌, ◌<◌, ◌≡◌, refl, ◌⊎◌, inl, inr, min, max, Bool, true, Option, get_or,
  Result, ltb, leb, arith, Bool-cases,
}
use ev_web3_award_system.Rpc.{RpcError}
use ev_web3_award_system.Rpc.Retry.{
  Answer, Reading, RpcReadRetryOptions, attempts_of, delay_of, timeout_of, again_error, again_null,
  with_read_timeout, attempt_at, ended_at, next_at, retry_loop, with_rpc_read_retry,
  with_nullable_rpc_read_retry,
}

le_cases : (a b : ℕ) → a ≤ b → (a ≡ b) ⊎ (suc a ≤ b)
le_cases a b h = omega arith

module _ {A : Type 0} (again : Result RpcError A → Bool) (delay timeout : ℕ)
    (read : ℕ → Answer A) where
  -- The time at which attempt `suc n` starts.
  abbrev pub start_of : ℕ → ℕ
  start_of zero = 0
  start_of (suc n) = next_at again delay timeout read (suc n) (start_of n)

  abbrev pub answer_of : ℕ → Result RpcError A
  answer_of n = (attempt_at again delay timeout read (suc n) (start_of n)).result

  -- A reading of at most `left` attempts after attempt `suc first`: the last one is attempt `suc last`.
  pub record Retried (left first : ℕ) (r : Reading A) : Type 0 where
    pub last : ℕ
    pub attempts : r.attempts ≡ suc last
    pub from : first ≤ last
    pub below : last ≤ first + left
    pub answer : r.outcome ≡ answer_of last
    pub tried : (i : ℕ) → first ≤ i → i < last → again (answer_of i) ≡ true
    pub stopped : again r.outcome ≡ true → (last ≡ first + left) ⊎ (timeout ≤ r.elapsed)
    pub in_time : r.elapsed ≤ timeout + 1

  took_within : (t : ℕ) (a : Answer A) → (with_read_timeout t a).took ≤ t
  unfolding with_read_timeout
  took_within t a = elim (Bool-cases (ltb a.took t)) [
    | inl e ↦ rw e (ground arith)
    | inr e ↦ rw e (omega arith)
  ]

  ended :
      (attempt clock : ℕ)
      → clock ≤ timeout
      → ended_at again delay timeout read attempt clock ≤ timeout + 1
  ended attempt clock h =
      ground (arith, took_within (min timeout (max 1 (timeout - clock))) (read attempt))

  -- The reading that ends with an attempt.
  abbrev ends_at : ℕ → Reading A
  ends_at n = record {
    outcome = answer_of n;
    attempts = suc n;
    elapsed = ended_at again delay timeout read (suc n) (start_of n);
  }

  ends-Retried :
      (left first : ℕ)
      → start_of first ≤ timeout
      → (again (answer_of first) ≡ true
          → (first ≡ first + left)
            ⊎ (timeout ≤ ended_at again delay timeout read (suc first) (start_of first)))
      → Retried left first (ends_at first)
  ends-Retried left first h stop = record {
    last = first;
    attempts = refl;
    from = omega arith;
    below = omega arith;
    answer = refl;
    tried = λ i a b. absurd (omega arith);
    stopped = stop;
    in_time = ended (suc first) (start_of first) h;
  }

  goes_on-Retried :
      (left first : ℕ) (r : Reading A)
      → again (answer_of first) ≡ true
      → Retried left (suc first) r
      → Retried (suc left) first r
  goes_on-Retried left first r more h = record {
    last = h.last;
    attempts = h.attempts;
    from = omega (arith, h.from);
    below = omega (arith, h.below);
    answer = h.answer;
    tried = λ i a b. elim (le_cases first i a) [
      | inl same ↦ rw same at more
      | inr above ↦ h.tried i above b
    ];
    stopped = λ e. elim (h.stopped e) [ inl all ↦ inl (omega arith) | inr time ↦ inr time ];
    in_time = h.in_time;
  }

  loop-Retried :
      (left first : ℕ)
      → start_of first ≤ timeout
      → Retried left first (retry_loop again delay timeout read left (suc first) (start_of first))
  unfolding retry_loop
  loop-Retried zero first h = ends-Retried zero first h (λ _. inl (omega arith))
  loop-Retried (suc left) first h = elim (Bool-cases (again (answer_of first))) [
    | inr done ↦ rw done (ends-Retried (suc left) first h (λ more. absurd (cc)))
    | inl more ↦
        elim (Bool-cases
          (leb timeout (ended_at again delay timeout read (suc first) (start_of first)))) [
            | inl late ↦ rw (more, late) (ends-Retried (suc left) first h (λ _. inr (ground arith)))
            | inr early ↦
                rw (more, early)
                  (goes_on-Retried left first _ more (loop-Retried left (suc first) (ground arith)))
          ]
  ]

-- withRpcReadRetry answers what its last attempt answered, or was timed out to. Each earlier attempt failed with a
-- transient error. If the last one did too, all the attempts were made or the time was up.
pub with_rpc_read_retry-Retried :
    {A : Type 0} (options : RpcReadRetryOptions) (read : ℕ → Answer A)
    → Retried again_error
        (delay_of options)
        (timeout_of options)
        read
        (attempts_of options - 1)
        0
        (with_rpc_read_retry options read)
unfolding with_rpc_read_retry
with_rpc_read_retry-Retried options read =
    loop-Retried again_error (delay_of options) (timeout_of options) read (attempts_of options - 1)
      0 (omega arith)

-- withNullableRpcReadRetry answers what its last attempt answered, or was timed out to. Each earlier attempt answered
-- null or failed with a transient error. If the last one did too, all the attempts were made or the time was up.
pub with_nullable_rpc_read_retry-Retried :
    {A : Type 0} (options : RpcReadRetryOptions) (read : ℕ → Answer (Option A))
    → Retried again_null
        (delay_of options)
        (timeout_of options)
        read
        (attempts_of options - 1)
        0
        (with_nullable_rpc_read_retry options read)
unfolding with_nullable_rpc_read_retry
with_nullable_rpc_read_retry-Retried options read =
    loop-Retried again_null (delay_of options) (timeout_of options) read (attempts_of options - 1) 0
      (omega arith)

-- A reading makes one to three attempts, no more than asked for, and takes no longer than its time-out and one
-- millisecond.
abbrev pub Bounded : {A : Type 0} → RpcReadRetryOptions → Reading A → Type 0
Bounded options r =
    (1 ≤ r.attempts)
    × (r.attempts ≤ 3)
    × (r.attempts ≤ max 1 (get_or options.max_attempts 3))
    × (r.elapsed ≤ timeout_of options + 1)
    × (r.elapsed ≤ 30001)

Retried-Bounded :
    {A : Type 0} (options : RpcReadRetryOptions) (again : Result RpcError A → Bool)
    (read : ℕ → Answer A) (r : Reading A)
    → Retried again (delay_of options) (timeout_of options) read (attempts_of options - 1) 0 r
    → Bounded options r
Retried-Bounded options again read r h = (
  omega (arith, h.attempts),
  omega (arith, h.attempts, h.below),
  omega (arith, h.attempts, h.below),
  h.in_time,
  omega (arith, h.in_time),
)

-- Whatever the chain answers, withRpcReadRetry and withNullableRpcReadRetry end within at most three attempts, within
-- the number asked for, and within one millisecond after their time-out, which is at most 30 seconds.
pub read_retry-Bounded :
    {A : Type 0} (options : RpcReadRetryOptions) (read : ℕ → Answer (Option A))
    → Bounded options (with_rpc_read_retry options read)
      × Bounded options (with_nullable_rpc_read_retry options read)
read_retry-Bounded options read = (
  Retried-Bounded options again_error read (with_rpc_read_retry options read)
      (with_rpc_read_retry-Retried options read),
  Retried-Bounded options again_null read (with_nullable_rpc_read_retry options read)
      (with_nullable_rpc_read_retry-Retried options read),
)
