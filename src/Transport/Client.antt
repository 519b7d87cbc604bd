-- ===== src/Transport/Client.antt =====
-- transport/tfnsw-http.client.ts: credentials, retries with backoff, and the slots that space the
-- requests of a role. The upstream server is a function from the attempt's number to its reply,
-- and `Math.floor(Math.random() * 250)` is a function that stays below 250. The queues and the time
-- that an attempt finds when its turn for a slot has come are a function of its number, for other
-- requests take slots in between.
pub mod Retry
pub mod Backoff
pub mod Slots
use Prim.Native.String
use typescript_starter.Common.{
  ℕ, zero, suc, ◌+◌, ◌*◌, ◌-◌, ◌^◌, min, String, Option, none, some, List, [], ◌∷◌, ◌++◌, Bool,
  true, false, ◌&&◌, ◌||◌, ltb, leb, ◌==◌, or_else, is_some, str_eq, if◌then◌else◌,
}
use typescript_starter.Common.Text.{trim, to_lower, includes, strip_quotes, strip_apikey}

pub data KeyRole : Type 0 where
  realtime static : KeyRole

abbrev pub max_rps : ℕ
max_rps = 4

-- Math.ceil(1000 / MAX_RPS)
abbrev pub min_interval_ms : ℕ
min_interval_ms = 250

abbrev pub max_retries : ℕ
max_retries = 8

pub record Keys : Type 0 where
  pub realtime : String
  pub static : String

unfoldable pub normalize_api_key : Option String → String
unfolding trim strip_quotes strip_apikey
normalize_api_key none = ""
normalize_api_key (some value) =
    if str_eq value "" then "" else trim (strip_apikey (strip_quotes (trim value)))

-- The constructor: the static role falls back to the realtime key.
unfoldable pub configure_keys : Option String → Option String → Keys
unfolding normalize_api_key
configure_keys api_key static_api_key =
    let realtime_key = normalize_api_key api_key in
    let static_key = normalize_api_key static_api_key in
    record {
      realtime = realtime_key;
      static = if str_eq static_key "" then realtime_key else static_key;
    }

abbrev pub get_api_key : Keys → KeyRole → String
get_api_key keys realtime = keys.realtime
get_api_key keys static = keys.static

-- `lastAt` of the two queues.
pub record Queues : Type 0 where
  pub realtime : ℕ
  pub static : ℕ

abbrev pub last_at : Queues → KeyRole → ℕ
last_at q realtime = q.realtime
last_at q static = q.static

abbrev set_last_at : Queues → KeyRole → ℕ → Queues
set_last_at q realtime t = record q { realtime = t }
set_last_at q static t = record q { static = t }

-- A run that starts at `now`; the clock then has moved past the wait by `late` milliseconds, for
-- `setTimeout` may fire late and never early. `lastAt + 250 - now` below zero is no wait.
pub record Arrival : Type 0 where
  pub role : KeyRole
  pub now : ℕ
  pub late : ℕ

unfoldable pub wait_ms : Queues → Arrival → ℕ
wait_ms q a = last_at q a.role + min_interval_ms - a.now

unfoldable pub acquire_slot : Queues → Arrival → Queues
unfolding wait_ms
acquire_slot q a = set_last_at q a.role (a.now + wait_ms q a + a.late)

-- A reply as the loop reads it: `message` is what extractErrorMessage takes from the body.
pub record Response : Type 0 where
  pub status : ℕ
  pub error_detail : Option String
  pub message : String

-- A rejected request carries a message and perhaps a `status`.
pub data Reply : Type 0 where
  response : Response → Reply
  failure : Option ℕ → String → Reply

-- What a request ends in: a response, a ServiceUnavailableException (its message without the
-- status and the URL), or the rejection itself.
pub data Outcome : Type 0 where
  answered : Response → Outcome
  unavailable : String → Outcome
  rethrown : String → Outcome

abbrev error_text : String → String → String
error_text detail body_msg = to_lower (String.◌++◌ detail (String.◌++◌ " " body_msg))

unfoldable pub is_rate_limited : ℕ → String → String → Bool
is_rate_limited status detail body_msg =
    let text = error_text detail body_msg in
    status == 429
    || status == 403 && (includes text "over rate limit" || includes text "rate limit")

unfoldable pub is_quota_exhausted : ℕ → String → String → Bool
is_quota_exhausted status detail body_msg =
    let text = error_text detail body_msg in
    (status == 403 || status == 401) && (includes text "over quota" || includes text "quota limit")

-- What the body of the loop does with a reply: it ends the request, or sleeps and goes on, with
-- the error to report in the end, if the reply sets one.
pub data Verdict : Type 0 where
  finish : Outcome → Verdict
  retry : Option String → Verdict

judge_response : Response → Verdict
judge_response r =
    let detail = or_else r.error_detail "" in
    if leb 200 r.status && ltb r.status 300
    then finish (answered r)
    else if is_quota_exhausted r.status detail r.message
    then finish (unavailable "TfNSW daily request quota is exhausted")
    else if is_rate_limited r.status detail r.message
    then retry none
    else if r.status == 503 || r.status == 504
    then retry none
    else if r.status == 401 || r.status == 403
    then finish (unavailable "TfNSW authentication is currently unavailable")
    else finish (unavailable "TfNSW request failed")

abbrev has_status : ℕ → Option ℕ → Bool
has_status n none = false
has_status n (some status) = status == n

unfoldable pub judge : Reply → Verdict
unfolding judge_response
judge (response r) = judge_response r
judge (failure status message) =
    if has_status 503 status then finish (rethrown message) else retry (some message)

-- How a request went: its outcome, the number of requests sent, the sleeps between them, and the
-- sleeps for a slot, one before each request.
pub record Run : Type 0 where
  pub outcome : Outcome
  pub requests : ℕ
  pub sleeps : List ℕ
  pub slot_waits : List ℕ

abbrev pub not_configured : Run
not_configured = record {
  outcome = unavailable "TfNSW API credentials are not configured";
  requests = 0;
  sleeps = [];
  slot_waits = [];
}

abbrev newest_error : Option String → String → String
newest_error none last = last
newest_error (some message) last = message

module _ (upstream : ℕ → Reply) (jitter : ℕ → ℕ) (slots : ℕ → Queues × ℕ) (role : KeyRole) where
  unfoldable pub backoff_ms : ℕ → ℕ
  backoff_ms attempt = min 60000 (1000 * 2 ^ attempt) + jitter attempt

  -- The sleep of acquireSlot before an attempt.
  abbrev slot_wait : ℕ → ℕ
  slot_wait attempt =
      wait_ms (slots attempt).0 (record { role = role; now = (slots attempt).1; late = 0 })

  abbrev add_round : ℕ → Run → Run
  add_round attempt run = record run {
    requests = suc run.requests;
    sleeps = backoff_ms attempt ∷ run.sleeps;
    slot_waits = slot_wait attempt ∷ run.slot_waits;
  }

  -- The loop with `rounds` rounds left, of which `attempt` is the first.
  unfoldable pub retry_loop : ℕ → ℕ → String → Run
  retry_loop zero attempt last_error = record {
    outcome = unavailable (String.◌++◌ "TfNSW request failed after retries: " last_error);
    requests = 0;
    sleeps = [];
    slot_waits = [];
  }
  retry_loop (suc rounds) attempt last_error = elim (judge (upstream attempt)) [
    | finish outcome ↦ record {
      outcome = outcome;
      requests = 1;
      sleeps = [];
      slot_waits = slot_wait attempt ∷ [];
    }
    | retry error ↦
        add_round attempt (retry_loop rounds (suc attempt) (newest_error error last_error))
  ]

  unfoldable pub request_with_retry : Keys → Run
  unfolding retry_loop
  request_with_retry keys =
      if str_eq (get_api_key keys role) ""
      then not_configured
      else retry_loop max_retries 0 "undefined"
