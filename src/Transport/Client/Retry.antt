-- ===== src/Transport/Client/Retry.antt =====
-- How many requests the retry loop sends, and which reply decides the outcome.
use typescript_starter.Common.{
  ℕ, zero, suc, ◌+◌, ◌≤◌, ◌<◌, String, Option, none, [], ◌∷◌, true, false, ◌≡◌, ◌≢◌, refl, ap,
  subst, ◌∙◌, ◌↔◌, eq_iff, or_else, arith, length, str_eq, inl, inr, ◌⊎◌, Bool-cases,
}
use typescript_starter.Transport.Client.{
  KeyRole, Keys, get_api_key, max_retries, Response, Reply, response, failure, Outcome, answered,
  unavailable, Verdict, finish, retry, judge, is_quota_exhausted, Run, add_round, retry_loop,
  newest_error, is_rate_limited, request_with_retry, Queues, slot_wait,
}

-- The loop goes on after such a reply.
abbrev pub IsTransient : Reply → Type 0
IsTransient reply = (error : Option String) × (judge reply ≡ retry error)

-- The loop ends with such a reply, in this outcome.
abbrev pub Ends : Reply → Outcome → Type 0
Ends reply outcome = judge reply ≡ finish outcome

pub Verdict-cases :
    (v : Verdict) → ((o : Outcome) × (v ≡ finish o)) ⊎ ((e : Option String) × (v ≡ retry e))
Verdict-cases (finish o) = inl (o, refl)
Verdict-cases (retry e) = inr (e, refl)

module _ (upstream : ℕ → Reply) (jitter : ℕ → ℕ) (slots : ℕ → Queues × ℕ) (role : KeyRole) where
  abbrev pub loop : ℕ → ℕ → String → Run
  loop rounds attempt last_error = retry_loop upstream jitter slots role rounds attempt last_error

  pub loop-end :
      (rounds attempt : ℕ) (last_error : String) (outcome : Outcome)
      → Ends (upstream attempt) outcome
      → loop (suc rounds) attempt last_error ≡ record {
        outcome = outcome;
        requests = 1;
        sleeps = [];
        slot_waits = slot_wait upstream jitter slots role attempt ∷ [];
      }
  unfolding retry_loop
  loop-end rounds attempt last_error outcome e = rw (e, retry_loop)

  pub loop-retry :
      (rounds attempt : ℕ) (last_error : String) (error : Option String)
      → judge (upstream attempt) ≡ retry error
      → loop (suc rounds) attempt last_error
        ≡ add_round upstream jitter slots role attempt
            (loop rounds (suc attempt) (newest_error error last_error))
  unfolding retry_loop
  loop-retry rounds attempt last_error error e = rw (e, retry_loop)

  loop_stops :
      (k rounds attempt n : ℕ) (last_error : String) (outcome : Outcome)
      → n ≡ attempt + k
      → k < rounds
      → ((i : ℕ) → attempt ≤ i → i < n → IsTransient (upstream i))
      → Ends (upstream n) outcome
      → ((loop rounds attempt last_error).outcome ≡ outcome)
        × ((loop rounds attempt last_error).requests ≡ suc k)
        × (length (loop rounds attempt last_error).sleeps ≡ k)
  loop_stops k zero attempt n last_error outcome at h before e = absurd (omega arith)
  loop_stops zero (suc rounds) attempt n last_error outcome at h before e =
      let here : Ends (upstream attempt) outcome =
        subst (λ m. Ends (upstream m) outcome) (omega arith) e in
      rw (loop-end rounds attempt last_error outcome here) (refl, refl, refl)
  loop_stops (suc k) (suc rounds) attempt n last_error outcome at h before e =
      let (error, first) = before attempt (omega arith) (omega arith) in
      let (same, sent, slept) =
        loop_stops k rounds (suc attempt) n (newest_error error last_error) outcome (omega arith)
          (omega arith) (λ i lo hi. before i (omega arith) hi) e in
      rw (loop-retry rounds attempt last_error error first) (same, ap suc sent, ap suc slept)

  loop_gives_up :
      (rounds attempt : ℕ) (last_error : String)
      → ((i : ℕ) → attempt ≤ i → i < attempt + rounds → IsTransient (upstream i))
      → ((message : String) × ((loop rounds attempt last_error).outcome ≡ unavailable message))
        × ((loop rounds attempt last_error).requests ≡ rounds)
  loop_gives_up zero attempt last_error before = unfold retry_loop in ((_, refl), refl)
  loop_gives_up (suc rounds) attempt last_error before =
      let (error, first) = before attempt (omega arith) (omega arith) in
      let (given_up, sent) =
        loop_gives_up rounds (suc attempt) (newest_error error last_error)
          (λ i lo hi. before i (omega arith) (omega arith)) in
      rw (loop-retry rounds attempt last_error error first) (given_up, ap suc sent)

  loop_answered :
      (rounds attempt : ℕ) (last_error : String) (r : Response)
      → (loop rounds attempt last_error).outcome ≡ answered r
      → (n : ℕ) × (n < attempt + rounds)
        × Ends (upstream n) (answered r)
        × ((loop rounds attempt last_error).requests + attempt ≡ suc n)
  loop_answered zero attempt last_error r e = absurd (unfold retry_loop in cc)
  loop_answered (suc rounds) attempt last_error r e =
      elim (Verdict-cases (judge (upstream attempt))) [
        | inl (o, ends) ↦
            let same : o ≡ answered r = rw (loop-end rounds attempt last_error o ends) at e in
            (
              attempt,
              omega arith,
              ends ∙ ap finish same,
              rw (loop-end rounds attempt last_error o ends) (omega arith),
            )
        | inr (error, first) ↦
            let step = loop-retry rounds attempt last_error error first in
            let (n, below, ends, sent) =
              loop_answered rounds (suc attempt) (newest_error error last_error) r (rw step at e) in
            (n, omega arith, ends, rw step (omega (arith, sent)))
      ]

  requests-loop :
      (rounds attempt : ℕ) (last_error : String)
      → (loop rounds attempt last_error).requests ≤ rounds
  requests-loop zero attempt last_error = unfold retry_loop in omega arith
  requests-loop (suc rounds) attempt last_error = elim (Verdict-cases (judge (upstream attempt))) [
    | inl (o, ends) ↦ rw (loop-end rounds attempt last_error o ends) (omega arith)
    | inr (error, first) ↦
        rw (loop-retry rounds attempt last_error error first)
          (omega (arith, requests-loop rounds (suc attempt) (newest_error error last_error)))
  ]

-- Only a reply with a status from 200 to 299 ends the loop with a response.
answered_success :
    (reply : Reply) (r : Response)
    → Ends reply (answered r)
    → (reply ≡ response r) × (200 ≤ r.status) × (r.status < 300)
unfolding judge
answered_success (response given) r e = ground arith
answered_success (failure status message) r e = ground arith

module _ (upstream : ℕ → Reply) (jitter : ℕ → ℕ) (slots : ℕ → Queues × ℕ) (role : KeyRole)
    (keys : Keys) where
  abbrev request : Run
  request = request_with_retry upstream jitter slots role keys

  -- At most eight requests are sent, and none at all where the role has no key; a response is
  -- handed on only if it is the reply to the last request sent and its status is from 200 to 299.
  pub request_sound :
      (request.requests ≤ max_retries)
      × (get_api_key keys role ≡ "" → request.requests ≡ 0)
      × ((r : Response)
          → request.outcome ≡ answered r
          → (n : ℕ) × (request.requests ≡ suc n)
            × (upstream n ≡ response r)
            × (200 ≤ r.status)
            × (r.status < 300))
  unfolding request_with_retry
  request_sound = elim (Bool-cases (str_eq (get_api_key keys role) "")) [
    | inl missing ↦ rw missing (omega arith, λ h. refl, λ r e. absurd (cc))
    | inr present ↦ rw present (
      requests-loop upstream jitter slots role max_retries 0 "undefined",
      λ h. absurd (ground (arith, eq_iff (get_api_key keys role) "")),
      λ r e.
          let (n, below, ends, sent) =
            loop_answered upstream jitter slots role max_retries 0 "undefined" r e in
          let (same, lo, hi) = answered_success (upstream n) r ends in
          (n, omega (arith, sent), same, lo, hi),
    )
  ]

  module _ (present : get_api_key keys role ≢ "") where
    request-eq-loop : request ≡ retry_loop upstream jitter slots role max_retries 0 "undefined"
    unfolding request_with_retry
    request-eq-loop = ground (arith, eq_iff (get_api_key keys role) "")

    -- With a key, the first reply that is not transient decides the outcome, if it is among the
    -- first eight: it is the last one asked for, with one sleep before each further request.
    pub request_stops :
        (n : ℕ) (outcome : Outcome)
        → n < max_retries
        → ((i : ℕ) → i < n → IsTransient (upstream i))
        → Ends (upstream n) outcome
        → (request.outcome ≡ outcome) × (request.requests ≡ suc n) × (length request.sleeps ≡ n)
    request_stops n outcome below before ends = rw request-eq-loop (
        loop_stops upstream jitter slots role n max_retries 0 n "undefined" outcome (omega arith)
          below (λ i lo hi. before i hi) ends)

    -- With a key and eight transient replies the request fails as unavailable after the eighth.
    pub request_gives_up :
        ((i : ℕ) → i < max_retries → IsTransient (upstream i))
        → ((message : String) × (request.outcome ≡ unavailable message))
          × (request.requests ≡ max_retries)
    request_gives_up before = rw request-eq-loop (
        loop_gives_up upstream jitter slots role max_retries 0 "undefined" (λ i lo hi. before i hi))

-- An exhausted quota ends the loop, also where the reply reads like a rate limit; of the other
-- replies outside 200 to 299 exactly the rate-limited ones and those with status 503 or 504 are
-- asked again.
pub judge_response_iff :
    (r : Response)
    → ((r.status < 200) ⊎ (300 ≤ r.status))
    → let detail = or_else r.error_detail "" in
      (judge (response r) ≡ retry none) ↔ (
        (is_quota_exhausted r.status detail r.message ≡ false)
        × ((is_rate_limited r.status detail r.message ≡ true)
            ⊎ ((r.status ≡ 503) ⊎ (r.status ≡ 504))))
unfolding judge
judge_response_iff r h = (λ e. ground arith, λ e. ground arith)
