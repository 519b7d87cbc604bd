-- ===== src/History/Aggregate.antt =====
-- aggregateHistorySample of history/history-aggregate.util.ts: three loops over the trip updates,
-- the vehicles and the alerts, which write into one entry for each mode and line.
pub mod Entries
pub mod Routes
pub mod Invariant
pub mod Conservation
pub mod Totals
pub mod Dedup
pub mod Events
use typescript_starter.Common.{
  ℕ, ◌-◌, ◌/◌, String, Option, none, some, List, [], ◌∷◌, ◌++◌, Bool, true, false, not, ◌&&◌, ◌||◌,
  ltb, or_else, is_some, str_eq, length, any, contains, if◌then◌else◌, ◌>>=◌, max,
}
use typescript_starter.Common.Int.{ℤ, pos}
use typescript_starter.Common.Dict.{Dict, lookup}
use typescript_starter.History.Feed.{StopTimeUpdate, TripUpdate, VehiclePosition, ServiceAlert}
use typescript_starter.History.Disruption.{
  disruption_minutes_for_effect, is_alert_active_at, is_service_affecting_severity,
}
use typescript_starter.History.SydneyTime.{sydney_local_hour, is_sydney_peak_hour}
use typescript_starter.History.LineIdentity.{RouteMetadata, resolve_line, truthy}
use typescript_starter.History.Accumulator.{
  LineAccumulator, count_tracked, count_cancelled, count_skipped, count_delay, count_vehicle,
  count_disruption,
}
use typescript_starter.History.Aggregate.Entries.{ByLine, line_key, entry_of, put_entry}
use typescript_starter.History.Aggregate.Routes.{trip_routes, alert_routes, add_lines}

abbrev pub stale_feed_threshold_seconds : ℕ
stale_feed_threshold_seconds = 600

-- AggregateSampleInput. `at` is in milliseconds. The two sets of trips that were counted earlier
-- are empty where the caller leaves them out.
pub record SampleInput : Type 0 where
  pub trip_updates : List TripUpdate
  pub vehicles : List VehiclePosition
  pub alerts : List ServiceAlert
  pub route_metadata : Dict RouteMetadata
  pub stop_to_route_ids : Dict (List String)
  pub trip_to_route_id : Dict String
  pub scheduled_by_line : Dict ℕ
  pub at : ℕ
  pub already_counted_cancelled : List String
  pub already_counted_skipped : List String

pub record DisruptionEvent : Type 0 where
  pub mode : String
  pub line : String
  pub alert_id : String
  pub effect : Option String
  pub cause : Option String

-- AggregateSampleResult.
pub record SampleResult : Type 0 where
  pub by_line : ByLine
  pub disruption_events : List DisruptionEvent
  pub feed_stale : Bool
  pub trip_update_count : ℕ
  pub vehicle_count : ℕ
  pub is_peak : Bool
  pub newly_cancelled : List String
  pub newly_skipped : List String

-- The variables that the trip loop writes.
pub record TripLoop : Type 0 where
  pub by_line : ByLine
  pub newly_cancelled : List String
  pub newly_skipped : List String

-- The variables that the alert loop writes.
pub record AlertLoop : Type 0 where
  pub by_line : ByLine
  pub events : List DisruptionEvent

abbrev last_stop : List StopTimeUpdate → Option StopTimeUpdate
last_stop [] = none
last_stop (s ∷ []) = some s
last_stop (s ∷ t ∷ ss) = last_stop (t ∷ ss)

abbrev first_some : Option ℤ → Option ℤ → Option ℤ
first_some none b = b
first_some (some a) b = some a

unfoldable pub trip_delay : TripUpdate → ℤ
trip_delay tu =
    let last = last_stop tu.stop_time_updates in
    or_else
      (first_some tu.delay
        (first_some (last >>= λ s. s.departure_delay) (last >>= λ s. s.arrival_delay)))
      (pos 0)

abbrev has_relationship : String → Option String → Bool
has_relationship name none = false
has_relationship name (some given) = str_eq given name

unfoldable pub has_skipped_stop : TripUpdate → Bool
has_skipped_stop tu =
    any (λ (s : StopTimeUpdate). has_relationship "SKIPPED" s.schedule_relationship)
      tu.stop_time_updates

unfoldable pub is_canceled : TripUpdate → Bool
is_canceled tu = has_relationship "CANCELED" tu.schedule_relationship

-- The loop over the timestamps: whether there was one, and the newest.
newest_timestamp : Bool × ℕ → List TripUpdate → Bool × ℕ
newest_timestamp state [] = state
newest_timestamp (any_ts, newest) (tu ∷ tus) =
    newest_timestamp
      (elim tu.timestamp [
        | none ↦ (any_ts, newest)
        | some t ↦ (true, if ltb newest t then t else newest)
      ])
      tus

-- JavaScript's difference may be negative, and is then not above the threshold; nor is 0.
unfoldable pub feed_is_stale : ℕ → List TripUpdate → Bool
unfolding newest_timestamp
feed_is_stale at_unix tus =
    let (any_ts, newest) = newest_timestamp (false, 0) tus in
    any_ts && ltb stale_feed_threshold_seconds (at_unix - newest)

abbrev pub event_of : ServiceAlert → String → DisruptionEvent
event_of alert line = record {
  mode = alert.mode;
  line = line;
  alert_id = alert.id;
  effect = alert.effect;
  cause = alert.cause;
}

abbrev pub counts_alert : ℕ → ServiceAlert → Bool
counts_alert at_unix alert =
    is_service_affecting_severity alert.severity_level && is_alert_active_at alert at_unix

abbrev pub or_network : List String → List String
or_network [] = "NETWORK" ∷ []
or_network (line ∷ lines) = line ∷ lines

module _ (input : SampleInput) where
  -- The line of a route and trip, and the body of `acc`.
  abbrev pub line_for_route : Option String → Option String → String
  line_for_route route_id trip_id = resolve_line route_id trip_id input.route_metadata

  abbrev pub update_line : String → String → (LineAccumulator → LineAccumulator) → ByLine → ByLine
  update_line mode line change by_line =
      put_entry mode line (change (entry_of input.scheduled_by_line mode line by_line)) by_line

  abbrev pub is_new_cancellation : TripUpdate → Bool
  is_new_cancellation tu =
      is_canceled tu && not (contains tu.trip_id input.already_counted_cancelled)

  abbrev pub is_new_skip : TripUpdate → Bool
  is_new_skip tu =
      not (is_canceled tu)
      && (has_skipped_stop tu && not (contains tu.trip_id input.already_counted_skipped))

  -- `vehicle.routeId ?? (vehicle.tripId ? tripRoute.get(vehicle.tripId) : undefined)`
  abbrev pub vehicle_route : Dict String → VehiclePosition → Option String
  vehicle_route trip_route v = elim v.route_id [
    | some route ↦ some route
    | none ↦ truthy v.trip_id >>= λ trip. lookup trip trip_route
  ]

  unfoldable pub vehicle_step : Dict String → ByLine → VehiclePosition → ByLine
  vehicle_step trip_route by_line v =
      update_line v.mode (line_for_route (vehicle_route trip_route v) v.trip_id)
        (count_vehicle v.occupancy_status) by_line

  unfoldable pub vehicle_loop : Dict String → ByLine → List VehiclePosition → ByLine
  vehicle_loop trip_route by_line [] = by_line
  vehicle_loop trip_route by_line (v ∷ vs) =
      vehicle_loop trip_route (vehicle_step trip_route by_line v) vs

  -- The lines that an alert touches: those of its routes, or the whole network.
  unfoldable pub alert_lines : Dict String → ServiceAlert → List String
  alert_lines trip_route alert = or_network (
      add_lines (λ route. line_for_route (some route) none) []
        (alert_routes input.stop_to_route_ids input.trip_to_route_id trip_route
          alert.informed_entities))

  -- The body of the loop over the lines of an alert.
  unfoldable pub mark_line : ServiceAlert → AlertLoop → String → AlertLoop
  mark_line alert s line =
      let effect = or_else alert.effect "UNKNOWN_EFFECT" in
      record {
        by_line =
            update_line alert.mode line
              (count_disruption effect (disruption_minutes_for_effect (some effect))) s.by_line;
        events = s.events ++ event_of alert line ∷ [];
      }

  unfoldable pub mark_lines : ServiceAlert → AlertLoop → List String → AlertLoop
  mark_lines alert s [] = s
  mark_lines alert s (line ∷ lines) = mark_lines alert (mark_line alert s line) lines

  -- The body of the loop over the alerts.
  unfoldable pub alert_step : Dict String → ℕ → AlertLoop → ServiceAlert → AlertLoop
  alert_step trip_route at_unix s alert =
      if counts_alert at_unix alert then mark_lines alert s (alert_lines trip_route alert) else s

  unfoldable pub alert_loop : Dict String → ℕ → AlertLoop → List ServiceAlert → AlertLoop
  alert_loop trip_route at_unix s [] = s
  alert_loop trip_route at_unix s (alert ∷ alerts) =
      alert_loop trip_route at_unix (alert_step trip_route at_unix s alert) alerts

module _ (input : SampleInput) (peak : Bool) where
  -- What one trip update does to its entry.
  unfoldable pub count_trip : TripUpdate → LineAccumulator → LineAccumulator
  count_trip tu e =
      let tracked = count_tracked peak e in
      if is_canceled tu
      then (if is_new_cancellation input tu then count_cancelled tracked else tracked)
      else count_delay peak (trip_delay tu) (count_skipped (is_new_skip input tu) tracked)

  unfoldable pub trip_step : TripLoop → TripUpdate → TripLoop
  trip_step s tu = record {
    by_line =
        update_line input tu.mode (line_for_route input tu.route_id (some tu.trip_id))
          (count_trip tu) s.by_line;
    newly_cancelled =
        if is_new_cancellation input tu
        then s.newly_cancelled ++ tu.trip_id ∷ []
        else s.newly_cancelled;
    newly_skipped =
        if is_new_skip input tu then s.newly_skipped ++ tu.trip_id ∷ [] else s.newly_skipped;
  }

  unfoldable pub trip_loop : TripLoop → List TripUpdate → TripLoop
  trip_loop s [] = s
  trip_loop s (tu ∷ tus) = trip_loop (trip_step s tu) tus

module _ (intl_hour : ℕ → ℕ) (input : SampleInput) where
  abbrev pub at_unix : ℕ
  at_unix = input.at / 1000

  abbrev pub peak : Bool
  peak = is_sydney_peak_hour (sydney_local_hour intl_hour input.at)

  abbrev pub trip_route : Dict String
  trip_route = trip_routes input.trip_updates input.trip_to_route_id

  abbrev pub after_trips : TripLoop
  after_trips =
      trip_loop input peak (record { by_line = []; newly_cancelled = []; newly_skipped = [] })
        input.trip_updates

  abbrev pub after_vehicles : ByLine
  after_vehicles = vehicle_loop input trip_route after_trips.by_line input.vehicles

  abbrev pub after_alerts : AlertLoop
  after_alerts =
      alert_loop input trip_route at_unix (record { by_line = after_vehicles; events = [] })
        input.alerts

  unfoldable pub aggregate_history_sample : SampleResult
  aggregate_history_sample = record {
    by_line = after_alerts.by_line;
    disruption_events = after_alerts.events;
    feed_stale = feed_is_stale at_unix input.trip_updates;
    trip_update_count = length input.trip_updates;
    vehicle_count = length input.vehicles;
    is_peak = peak;
    newly_cancelled = after_trips.newly_cancelled;
    newly_skipped = after_trips.newly_skipped;
  }
