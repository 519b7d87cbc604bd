-- ===== src/Transport/Client/Backoff.antt =====
-- How long a request sleeps before and between its attempts.
use typescript_starter.Common.{
  ℕ, zero, suc, ◌+◌, ◌*◌, ◌^◌, ◌≤◌, ◌<◌, min, String, arith, sum_of, length, refl, ap, ◌≡◌, str_eq,
  Bool-cases, inl, inr,
}
use typescript_starter.Transport.Client.Retry.{Verdict-cases, loop-end, loop-retry}
use typescript_starter.Transport.Client.{
  KeyRole, Keys, get_api_key, max_retries, Reply, judge, backoff_ms, retry_loop, newest_error,
  request_with_retry, Run, Queues, last_at, wait_ms, slot_wait,
}

-- The sleep before jitter.
abbrev base_ms : ℕ → ℕ
base_ms attempt = min 60000 (1000 * 2 ^ attempt)

-- The longest sleep of `rounds` rounds from `attempt` on, each with a wait for a slot of 250 ms.
abbrev pub longest_sleep : ℕ → ℕ → ℕ
longest_sleep zero attempt = 0
longest_sleep (suc rounds) attempt = base_ms attempt + 499 + longest_sleep rounds (suc attempt)

-- How long a run slept in all, between its requests and for its slots.
abbrev pub slept : Run → ℕ
slept run = sum_of (λ ms. ms) run.sleeps + sum_of (λ ms. ms) run.slot_waits

module _ (upstream : ℕ → Reply) (jitter : ℕ → ℕ) (slots : ℕ → Queues × ℕ) (role : KeyRole)
    (small : (attempt : ℕ) → jitter attempt < 250)
    (past : (attempt : ℕ) → last_at (slots attempt).0 role ≤ (slots attempt).1) where
  backoff-le : (attempt : ℕ) → backoff_ms upstream jitter slots role attempt ≤ base_ms attempt + 249
  unfolding backoff_ms
  backoff-le attempt = omega (arith, small attempt)

  slot_wait-le : (attempt : ℕ) → slot_wait upstream jitter slots role attempt ≤ 250
  unfolding wait_ms
  slot_wait-le attempt = omega (arith, past attempt)

  slept-loop :
      (rounds attempt : ℕ) (last_error : String)
      → slept (retry_loop upstream jitter slots role rounds attempt last_error)
        ≤ longest_sleep rounds attempt
  slept-loop zero attempt last_error = unfold retry_loop in omega arith
  slept-loop (suc rounds) attempt last_error = elim (Verdict-cases (judge (upstream attempt))) [
    | inl (o, ends) ↦
        rw (loop-end upstream jitter slots role rounds attempt last_error o ends)
          (omega (arith, slot_wait-le attempt))
    | inr (error, first) ↦
        rw (loop-retry upstream jitter slots role rounds attempt last_error error first) (
          omega (
            arith,
            backoff-le attempt,
            slot_wait-le attempt,
            slept-loop rounds (suc attempt) (newest_error error last_error),
          ))
  ]

  waits-loop :
      (rounds attempt : ℕ) (last_error : String)
      → let run = retry_loop upstream jitter slots role rounds attempt last_error in
        length run.slot_waits ≡ run.requests
  waits-loop zero attempt last_error = unfold retry_loop in refl
  waits-loop (suc rounds) attempt last_error = elim (Verdict-cases (judge (upstream attempt))) [
    | inl (o, ends) ↦ rw (loop-end upstream jitter slots role rounds attempt last_error o ends) refl
    | inr (error, first) ↦
        rw (loop-retry upstream jitter slots role rounds attempt last_error error first)
          (ap suc (waits-loop rounds (suc attempt) (newest_error error last_error)))
  ]

  -- If the random part of each backoff is below 250 ms, and no slot of the role lies in the future
  -- when a request's own turn for one has come, then the request sleeps for less than 187 seconds in
  -- all, in its backoffs and its waits for a slot, one wait for each request it sends, whatever
  -- the replies are. The time in which it awaits the turns of other requests is not counted.
  pub request_sleeps_bounded :
      (keys : Keys)
      → let run = request_with_retry upstream jitter slots role keys in
        (slept run < 187000) × (length run.slot_waits ≡ run.requests)
  unfolding request_with_retry
  request_sleeps_bounded keys = elim (Bool-cases (str_eq (get_api_key keys role) "")) [
    | inl missing ↦ rw missing (omega arith, refl)
    | inr present ↦
        rw present (
          omega (arith, slept-loop max_retries 0 "undefined"),
          waits-loop max_retries 0 "undefined",
        )
  ]
