-- ===== src/Transport/Tests.antt =====
-- Test data for the TfNSW client, runs of it, and the theorems at concrete inputs.
use typescript_starter.Common.{
  ℕ, zero, suc, ◌+◌, ◌*◌, ◌-◌, ◌≤◌, ◌<◌, String, none, some, List, [], ◌∷◌, ◌≡◌, refl, arith,
  length,
}
use typescript_starter.Common.Text.{to_lower}
use typescript_starter.Transport.Client.{
  realtime, static, Keys, get_api_key, max_retries, Response, Reply, response, failure, answered,
  judge, retry, is_quota_exhausted, is_rate_limited, request_with_retry, retry_loop, configure_keys,
  normalize_api_key, backoff_ms, min_interval_ms, Queues, Arrival, last_at, acquire_slot, wait_ms,
}
use typescript_starter.Transport.Client.Retry.{request_sound, request_stops, IsTransient}
use typescript_starter.Transport.Client.Backoff.{slept, request_sleeps_bounded}
use typescript_starter.Transport.Client.Slots.{slot_times, slot_gap}

client : Unit {0}
unfolding to_lower judge is_quota_exhausted is_rate_limited request_with_retry retry_loop
    normalize_api_key configure_keys backoff_ms wait_ms
client = tt

abbrev keys : Keys
keys = record { realtime = "k1"; static = "k1" }

keys_tests :
    (normalize_api_key (some " 'ApiKey  abc' ") ≡ "abc")
    × (configure_keys (some "k1") (some "  ") ≡ keys)
unfolding client
keys_tests = (refl, refl)

abbrev replied : ℕ → String → Reply
replied status message =
    response (record { status = status; error_detail = none; message = message })

abbrev success : Response
success = record { status = 200; error_detail = none; message = "" }

-- Two transient replies, then a success.
abbrev upstream : ℕ → Reply
upstream zero = replied 503 ""
upstream (suc zero) = failure none "socket hang up"
upstream (suc (suc n)) = response success

abbrev no_jitter : ℕ → ℕ
no_jitter attempt = 7

-- Each attempt finds that a slot of the realtime role was taken 100 ms before.
abbrev slots : ℕ → Queues × ℕ
slots attempt = (record { realtime = 1000 + 3000 * attempt; static = 900 }, 1100 + 3000 * attempt)

request_tests :
    ((request_with_retry upstream no_jitter slots realtime keys).outcome ≡ answered success)
    × ((request_with_retry upstream no_jitter slots realtime keys).requests ≡ 3)
    × ((request_with_retry upstream no_jitter slots realtime keys).sleeps ≡ 1007 ∷ 2007 ∷ [])
    × ((request_with_retry upstream no_jitter slots realtime keys).slot_waits
        ≡ 150 ∷ 150 ∷ 150 ∷ [])
    × (judge (replied 403 "Over Rate Limit") ≡ retry none)
unfolding client
request_tests = (refl, refl, refl, refl, refl)

before_two : (i : ℕ) → i < 2 → IsTransient (upstream i)
unfolding client
before_two zero h = (none, refl)
before_two (suc zero) h = (some "socket hang up", refl)
before_two (suc (suc i)) h = absurd (omega arith)

request_stops_example :
    ((request_with_retry upstream no_jitter slots realtime keys).outcome ≡ answered success)
    × ((request_with_retry upstream no_jitter slots realtime keys).requests ≡ 3)
    × (length (request_with_retry upstream no_jitter slots realtime keys).sleeps ≡ 2)
unfolding client
request_stops_example =
    request_stops upstream no_jitter slots realtime keys (λ e. cc) 2 (answered success)
      (omega arith) before_two refl

request_sound_example :
    ((request_with_retry upstream no_jitter slots realtime keys).requests ≤ max_retries)
    × (get_api_key keys realtime ≡ ""
        → (request_with_retry upstream no_jitter slots realtime keys).requests ≡ 0)
    × ((r : Response)
        → (request_with_retry upstream no_jitter slots realtime keys).outcome ≡ answered r
        → (n : ℕ) × ((request_with_retry upstream no_jitter slots realtime keys).requests ≡ suc n)
          × (upstream n ≡ response r)
          × (200 ≤ r.status)
          × (r.status < 300))
request_sound_example = request_sound upstream no_jitter slots realtime keys

jitter_small : (attempt : ℕ) → no_jitter attempt < 250
jitter_small attempt = omega arith

no_future : (attempt : ℕ) → last_at (slots attempt).0 static ≤ (slots attempt).1
no_future attempt = omega arith

request_sleeps_bounded_example :
    let run = request_with_retry upstream no_jitter slots static keys in
    (slept run < 187000) × (length run.slot_waits ≡ run.requests)
request_sleeps_bounded_example =
    request_sleeps_bounded upstream no_jitter slots static jitter_small no_future keys

abbrev arrivals : List Arrival
arrivals =
    record { role = realtime; now = 1000; late = 0 }
    ∷ record { role = static; now = 1000; late = 0 }
    ∷ record { role = realtime; now = 1010; late = 5 }
    ∷ record { role = realtime; now = 2000; late = 0 }
    ∷ []

abbrev idle : Queues
idle = record { realtime = 0; static = 0 }

slots_run : slot_times realtime idle arrivals ≡ 1000 ∷ 1255 ∷ 2000 ∷ []
unfolding slot_times acquire_slot
slots_run = refl

slot_gap_example : 1000 + (1 - 0) * min_interval_ms ≤ 1255
unfolding slot_times acquire_slot
slot_gap_example = slot_gap realtime idle arrivals 0 1 (omega arith) refl refl
