-- ===== src/Realtime/Stops.antt =====
-- realtime/realtime.service.ts, enrichStopTimeUpdates: the stops of a trip, of the static schedule and
-- of the live feed. A schedule that cannot be read is `none`.
pub mod Kept
pub mod Live
use Prim.Native.String
use typescript_starter.Common.{
  ℕ, suc, ◌+◌, String, Option, none, some, List, [], ◌∷◌, ◌++◌, Bool, true, false, not, leb, ◌==◌,
  or_else, ◌>>=◌, any, keep, map, if◌then◌else◌,
}
use typescript_starter.Common.Int.{ℤ}
use typescript_starter.History.LineIdentity.{truthy}

pub record StaticStop : Type 0 where
  pub stop_sequence : ℕ
  pub stop_id : String
  pub arrival_time : Option String
  pub departure_time : Option String
  pub pickup_type : Option ℕ
  pub drop_off_type : Option ℕ

pub record LiveStop : Type 0 where
  pub stop_sequence : Option ℕ
  pub stop_id : Option String
  pub arrival_delay : Option ℤ
  pub arrival_uncertainty : Option ℕ
  pub departure_delay : Option ℤ
  pub departure_uncertainty : Option ℕ
  pub arrival_time : Option ℕ
  pub departure_time : Option ℕ
  pub schedule_relationship : Option String
  pub departure_occupancy_status : Option String
  pub pickup_type : Option ℕ
  pub drop_off_type : Option ℕ

abbrev pub is_at : ℕ → LiveStop → Bool
is_at n u = elim u.stop_sequence [ none ↦ false | some m ↦ m == n ]

-- `liveBySequence.get(n)`: the last update with the sequence number.
unfoldable pub live_at : ℕ → List LiveStop → Option LiveStop
live_at n [] = none
live_at n (u ∷ rest) = elim (live_at n rest) [
  | some later ↦ some later
  | none ↦ if is_at n u then some u else none
]

-- `staticBySequence.has(n)`
abbrev pub has_stop : ℕ → List StaticStop → Bool
has_stop n stops = any (λ s. s.stop_sequence == n) stops

insert_stop : StaticStop → List StaticStop → List StaticStop
insert_stop s [] = s ∷ []
insert_stop s (t ∷ rest) =
    if leb s.stop_sequence t.stop_sequence then s ∷ t ∷ rest else t ∷ insert_stop s rest

-- The sort by sequence number keeps the order of equals.
unfoldable pub sort_stops : List StaticStop → List StaticStop
unfolding insert_stop
sort_stops [] = []
sort_stops (s ∷ rest) = insert_stop s (sort_stops rest)

-- The update is of no stop of the schedule.
abbrev pub is_extra : List StaticStop → LiveStop → Bool
is_extra stops u = elim u.stop_sequence [ none ↦ true | some n ↦ not (has_stop n stops) ]

module _ (epoch : String → String → Option ℕ) where
  unfoldable pub enrich_stop : String → List LiveStop → StaticStop → LiveStop
  unfolding live_at
  enrich_stop anchor_date live s = elim (live_at s.stop_sequence live) [
    | some u ↦ record u { pickup_type = s.pickup_type; drop_off_type = s.drop_off_type }
    | none ↦ record {
      stop_sequence = some s.stop_sequence;
      stop_id = some s.stop_id;
      arrival_delay = none;
      arrival_uncertainty = none;
      departure_delay = none;
      departure_uncertainty = none;
      arrival_time = truthy s.arrival_time >>= λ time. epoch anchor_date time;
      departure_time = truthy s.departure_time >>= λ time. epoch anchor_date time;
      schedule_relationship = some "SCHEDULED";
      departure_occupancy_status = none;
      pickup_type = s.pickup_type;
      drop_off_type = s.drop_off_type;
    }
  ]

  unfoldable pub enrich_stop_time_updates :
      String → Option String → Option (List StaticStop) → List LiveStop → List LiveStop
  unfolding enrich_stop sort_stops
  enrich_stop_time_updates today start_date none live = live
  enrich_stop_time_updates today start_date (some []) live = live
  enrich_stop_time_updates today start_date (some (s ∷ stops)) live =
      map (enrich_stop (or_else start_date today) live) (sort_stops (s ∷ stops))
      ++ keep (is_extra (s ∷ stops)) live
