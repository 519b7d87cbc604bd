-- ===== src/Realtime/Tests.antt =====
-- A small feed, schedule and store, and the theorems of the realtime part applied to them.

use typescript_starter.Common.{
  ℕ, ◌+◌, String, Option, none, some, List, [], ◌∷◌, true, ◌≡◌, refl, ltb, contains, if◌then◌else◌,
  arith,
}
use typescript_starter.Common.Dict.{lookup, insert}
use typescript_starter.Cache.Redis.{Json}
use typescript_starter.Cache.Service.{get}
use typescript_starter.Cache.{memory_redis, json_of, option_codec, list_codec}
use typescript_starter.Realtime.Match.{Entity, Reference, tier_of, find_realtime_match}
use typescript_starter.Realtime.Match.Loop.{Least}
use typescript_starter.Realtime.Match.Least.{
  has_exact_id, find_realtime_match-Least, find_realtime_match-exact,
}
use typescript_starter.Realtime.Stops.{StaticStop, LiveStop, enrich_stop_time_updates}
use typescript_starter.Realtime.Stops.Kept.{Itinerary, enrich_stop_time_updates-Itinerary}
use typescript_starter.Realtime.Stops.Live.{In, live_part, enrich_stop_time_updates-keeps}
use typescript_starter.Realtime.Sticky.{
  get_or_set, settle_answer, fetch_with_sticky_fallback, fetch_with_sticky_fallback-again,
}
use typescript_starter.Realtime.Poller.{
  subscribed, unsubscribed, run, polled_trips, subscribers, polled_trips-run,
}
use typescript_starter.Realtime.Track.{track_trip, track_trip-again}

abbrev no_date : String → Option ℕ
no_date s = none

abbrev reference : Reference
reference = record {
  scheduled_trip_id = none;
  route_id = some "NSN_1a";
  start_date = some "20240301";
  start_time = some "08:00:00";
  direction_id = none;
}

abbrev entity : Option String → Option String → Entity
entity trip_id start_time = record {
  trip_id = trip_id;
  route_id = some "NSN_2b";
  direction_id = some 1;
  start_date = some "20240301";
  start_time = start_time;
  stop_time_updates = [];
}

-- An entity at the same time, then one with the same id.
abbrev feed : List Entity
feed = entity none (some "08:02") ∷ entity (some "t-1001") none ∷ []

find_realtime_match-Least_example :
    Least
      (λ item. tier_of no_date "t-1001" reference item)
      feed
      (find_realtime_match no_date (λ (e : Entity). e) feed "t-1001" reference)
find_realtime_match-Least_example =
    find_realtime_match-Least no_date (λ (e : Entity). e) feed "t-1001" reference

find_realtime_match-exact_example :
    (x : Entity) × (find_realtime_match no_date (λ (e : Entity). e) feed "t-1001" reference
      ≡ some x)
    × (has_exact_id "t-1001" reference x ≡ true)
find_realtime_match-exact_example =
    find_realtime_match-exact no_date (λ (e : Entity). e) feed "t-1001" reference refl

abbrev stop : ℕ → StaticStop
stop n = record {
  stop_sequence = n;
  stop_id = "s";
  arrival_time = some "08:00:00";
  departure_time = none;
  pickup_type = some 0;
  drop_off_type = none;
}

abbrev update : Option ℕ → LiveStop
update n = record {
  stop_sequence = n;
  stop_id = none;
  arrival_delay = none;
  arrival_uncertainty = none;
  departure_delay = none;
  departure_uncertainty = none;
  arrival_time = some 1700000000;
  departure_time = none;
  schedule_relationship = none;
  departure_occupancy_status = none;
  pickup_type = none;
  drop_off_type = none;
}

abbrev no_epoch : String → String → Option ℕ
no_epoch d t = none

enrich_stop_time_updates-Itinerary_example :
    Itinerary no_epoch "20240301" (stop 2 ∷ stop 1 ∷ []) (update (some 7) ∷ update (some 2) ∷ []) (
      enrich_stop_time_updates no_epoch "20240301" none
        (some (stop 2 ∷ stop 1 ∷ []))
        (update (some 7) ∷ update (some 2) ∷ []))
enrich_stop_time_updates-Itinerary_example =
    enrich_stop_time_updates-Itinerary no_epoch "20240301" none (stop 2) (stop 1 ∷ [])
      (update (some 7) ∷ update (some 2) ∷ [])

enrich_stop_time_updates-keeps_example :
    (x : LiveStop) × In x (
      enrich_stop_time_updates no_epoch "20240301" none
        (some (stop 2 ∷ []))
        (update none ∷ update (some 2) ∷ update (some 3) ∷ []))
    × (live_part x ≡ live_part (update (some 2)))
enrich_stop_time_updates-keeps_example =
    enrich_stop_time_updates-keeps no_epoch "20240301" none (some (stop 2 ∷ [])) (update none ∷ [])
      (update (some 2)) (update (some 3) ∷ []) refl

polled_trips-run_example :
    contains "t1"
      (polled_trips (run (subscribed "t1" none ∷ subscribed "t2" none ∷ unsubscribed "t1" ∷ []) []))
    ≡ ltb 0
        (subscribers "t1" (subscribed "t1" none ∷ subscribed "t2" none ∷ unsubscribed "t1" ∷ []) 0)
polled_trips-run_example =
    polled_trips-run "t1" (subscribed "t1" none ∷ subscribed "t2" none ∷ unsubscribed "t1" ∷ [])

feed_json : Json (List String)
feed_json = json_of list_codec

-- The feed has one vehicle, and is empty twenty seconds later.
fetch_with_sticky_fallback-again_example :
    (fetch_with_sticky_fallback memory_redis feed_json 21000 "metro" 15
      (some [])
      (fetch_with_sticky_fallback memory_redis feed_json 1000 "metro" 15 (some ("v1" ∷ [])) []).1).0
    ≡ some (if ltb 21000 (1000 + 60000) then "v1" ∷ [] else [])
unfolding get_or_set fetch_with_sticky_fallback settle_answer get lookup insert
fetch_with_sticky_fallback-again_example =
    fetch_with_sticky_fallback-again memory_redis feed_json 1000 21000 "metro" 15 15
      (some ("v1" ∷ [])) (some []) [] "v1" [] (omega arith) refl refl

trip_json : Json (Option String)
trip_json = json_of option_codec

-- The first call finds nothing, the second one the trip, five seconds later.
track_trip-again_example :
    (track_trip memory_redis trip_json 6000 "trip"
      (some "v1")
      (track_trip memory_redis trip_json 1000 "trip" none []).1).0
    ≡ some "v1"
unfolding lookup get
track_trip-again_example =
    track_trip-again memory_redis trip_json 1000 6000 "trip" none (some "v1") [] (omega arith) refl
