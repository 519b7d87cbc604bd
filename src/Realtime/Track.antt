-- ===== src/Realtime/Track.antt =====
-- realtime/realtime.service.ts, trackTrip: the search of the feeds for a trip and its cache. The
-- object that is returned is built of the mode, the vehicle and the update that are found; a feed that
-- cannot be had is an empty list, as for the code.

use typescript_starter.Common.{
  ℕ, ◌+◌, ◌≤◌, String, Option, none, some, List, [], ◌∷◌, Bool, false, ◌≡◌, refl, inl, inr, ◌⊎◌,
  ltb, str_eq, if◌then◌else◌, Bool-cases, Option-cases,
}
use typescript_starter.Cache.Redis.{Redis, Json}
use typescript_starter.Cache.Service.{get, set, get-set}
use typescript_starter.Realtime.Match.{Entity, Reference, find_realtime_match}

-- The feeds of a mode: the positions and the trip updates.
pub record Feeds (V U : Type 0) : Type 0 where
  pub vehicles : List V
  pub updates : List U

pub record Found (V U : Type 0) : Type 0 where
  pub mode : String
  pub vehicle : Option V
  pub update : Option U

module _ {V U : Type 0} (vehicle_entity : V → Entity) (update_entity : U → Entity)
    (parse_date : String → Option ℕ) where
  abbrev same_trip : Option String → Option String → Bool
  same_trip (some a) (some b) = str_eq a b
  same_trip _ _ = false

  vehicle_of : Option String → List V → Option V
  vehicle_of trip_id [] = none
  vehicle_of trip_id (v ∷ rest) =
      if same_trip (vehicle_entity v).trip_id trip_id then some v else vehicle_of trip_id rest

  -- The vehicle of the matched update's trip, or else what the matcher finds.
  unfoldable pub tracked_vehicle : String → Reference → Option U → List V → Option V
  unfolding vehicle_of find_realtime_match
  tracked_vehicle trip_id reference update vehicles =
      let direct : Option V = elim update [
        | none ↦ none
        | some u ↦ vehicle_of (update_entity u).trip_id vehicles
      ] in
      elim direct [
        | some v ↦ some v
        | none ↦ find_realtime_match parse_date vehicle_entity vehicles trip_id reference
      ]

  -- The first mode whose feeds have a vehicle or an update for the trip.
  unfoldable pub find_tracked :
      String → Reference → (String → Feeds V U) → List String → Option (Found V U)
  unfolding tracked_vehicle find_realtime_match
  find_tracked trip_id reference feeds [] = none
  find_tracked trip_id reference feeds (mode ∷ modes) =
      let later = find_tracked trip_id reference feeds modes in
      let update =
        find_realtime_match parse_date update_entity (feeds mode).updates trip_id reference in
      let vehicle = tracked_vehicle trip_id reference update (feeds mode).vehicles in
      elim vehicle [
        | some v ↦ some (record { mode = mode; vehicle = some v; update = update })
        | none ↦ elim update [
          | some u ↦ some (record { mode = mode; vehicle = none; update = some u })
          | none ↦ later
        ]
      ]

module _ (redis : Redis) {R : Type 0} (json : Json (Option R)) where
  -- CacheTTL.VEHICLE_POSITIONS
  abbrev pub found_ttl : ℕ
  found_ttl = 15

  -- What the search found is stored, as a null where it found nothing.
  abbrev store_track : ℕ → String → Option R → redis.State → Option R × redis.State
  store_track now cache_key (some result) s =
      (some result, set redis json now cache_key (some result) found_ttl s)
  store_track now cache_key none s = (none, set redis json now cache_key none 10 s)

  -- A stored null and an absent key are both no hit. `search` is the outcome of the search of all
  -- modes.
  unfoldable pub track_trip : ℕ → String → Option R → redis.State → Option R × redis.State
  unfolding get set
  track_trip now cache_key search s = elim (get redis json now cache_key s) [
    | some (some cached) ↦ (some cached, s)
    | _ ↦ store_track now cache_key search s
  ]

  no_hit :
      (now : ℕ) (cache_key : String) (search : Option R) (s : redis.State)
      → (get redis json now cache_key s ≡ none) ⊎ (get redis json now cache_key s ≡ some none)
      → (track_trip now cache_key search s).0 ≡ search
  unfolding track_trip
  no_hit now cache_key none s (inl h) = rw (h, track_trip) refl
  no_hit now cache_key (some r) s (inl h) = rw (h, track_trip) refl
  no_hit now cache_key none s (inr h) = rw (h, track_trip) refl
  no_hit now cache_key (some r) s (inr h) = rw (h, track_trip) refl

  hit :
      (now : ℕ) (cache_key : String) (search : Option R) (s : redis.State) (result : R)
      → get redis json now cache_key s ≡ some (some result)
      → (track_trip now cache_key search s).0 ≡ some result
  unfolding track_trip
  hit now cache_key search s result h = rw (h, track_trip) refl

  -- What a second call of trackTrip answers, after one that missed the cache: the trip that the first
  -- one found, for 15 seconds, and else what a new search of the feeds finds. Where the first one found
  -- no trip, the second one searches again at any time, although the first one stored a null.
  pub track_trip-again :
      (now later : ℕ) (cache_key : String) (search search_later : Option R) (s : redis.State)
      → now ≤ later
      → get redis json now cache_key s ≡ none
      → (track_trip later cache_key search_later (track_trip now cache_key search s).1).0
        ≡ (elim search [
          | none ↦ search_later
          | some result ↦ if ltb later (now + 15000) then some result else search_later
        ])
  unfolding track_trip
  track_trip-again now later cache_key search search_later s le missed =
      elim (Option-cases search) [
        | inl absent ↦
            let stored : get redis json later cache_key (track_trip now cache_key search s).1
                ≡ (if ltb later (now + 10000) then some none else none) =
              rw (missed, absent, track_trip)
                (get-set redis json now later cache_key none 10 s le) in
            rw absent (
              no_hit later cache_key search_later (track_trip now cache_key none s).1
                (elim (Bool-cases (ltb later (now + 10000))) [
                  | inl soon ↦ inr (rw (absent, soon) at stored)
                  | inr past ↦ inl (rw (absent, past) at stored)
                ]))
        | inr (result, there) ↦
            let stored : get redis json later cache_key (track_trip now cache_key search s).1
                ≡ (if ltb later (now + 15000) then some (some result) else none) =
              rw (missed, there, track_trip)
                (get-set redis json now later cache_key (some result) found_ttl s le) in
            rw there (elim (Bool-cases (ltb later (now + 15000))) [
              | inl soon ↦ rw soon (
                  hit later cache_key search_later (track_trip now cache_key (some result) s).1
                    result (rw (there, soon) at stored))
              | inr past ↦ rw past (
                  no_hit later cache_key search_later (track_trip now cache_key (some result) s).1
                    (inl (rw (there, past) at stored)))
            ])
      ]
