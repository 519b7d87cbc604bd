-- ===== src/History/Tests.antt =====
-- Test data for the history part, runs of the aggregation, and the theorems at concrete inputs.
use typescript_starter.Common.{
  ℕ, ◌+◌, String, none, some, [], ◌∷◌, true, false, ◌≡◌, refl, map, length, count_if, contains,
  or_else, Option, List, arith,
}
use typescript_starter.Common.Int.{pos}
use typescript_starter.Common.Dict.{Values, total, lookup, insert}
use typescript_starter.History.Feed.{TripUpdate, VehiclePosition, ServiceAlert}
use typescript_starter.History.Occupancy.{is_crowded_occupancy, occupancy_score}
use typescript_starter.History.Percentile.{percentile}
use typescript_starter.History.Snapshot.{
  SnapshotRow, snapshot_row_from_accumulator, line_of_key, snapshot_rows,
}
use typescript_starter.History.Accumulator.{
  count_tracked, count_cancelled, count_skipped, count_delay, count_vehicle, count_disruption,
}
use typescript_starter.History.Aggregate.Routes.{add_lines, alert_routes, trip_routes}
use typescript_starter.History.Aggregate.Entries.{line_key}
use typescript_starter.History.LineIdentity.{resolve_line}
use typescript_starter.History.Disruption.{
  is_alert_active_at, is_service_affecting_severity, disruption_minutes_for_effect,
}
use typescript_starter.History.SydneyTime.{is_sydney_peak_hour, sydney_local_hour}
use typescript_starter.History.Accumulator.Consistency.{IsConsistent}
use typescript_starter.History.Aggregate.{
  SampleInput, SampleResult, trip_loop, trip_step, count_trip, has_skipped_stop, trip_delay,
  vehicle_loop, vehicle_step, alert_loop, alert_step, mark_lines, mark_line, feed_is_stale,
  aggregate_history_sample, alert_lines, trip_route, is_canceled,
}
use typescript_starter.History.Aggregate.Invariant.{aggregate-IsConsistent}
use typescript_starter.History.Aggregate.Totals.{
  aggregate_conserves, avg_divisor_counts_old_cancellations, tracked_for_avg, is_old_cancellation,
}
use typescript_starter.Cache.{memory_redis, json_of, list_codec}
use typescript_starter.Cache.Redis.{Json}
use typescript_starter.Cache.Service.{get, set}
use typescript_starter.History.Sampler.{
  cancelled, newly, Visit, samples, aggregated, already_counted, remember, sample,
}
use typescript_starter.History.Sampler.Once.{counter, run, counted_once}
use typescript_starter.History.Aggregate.Events.{aggregate-events, EventsOf}

runs : Unit {0}
unfolding aggregate_history_sample trip_loop trip_step count_trip is_canceled has_skipped_stop
    trip_delay count_tracked count_cancelled count_skipped count_delay count_vehicle
    count_disruption vehicle_loop vehicle_step alert_loop alert_step mark_lines mark_line
    alert_lines add_lines alert_routes trip_routes line_key lookup insert resolve_line snapshot_rows
    snapshot_row_from_accumulator line_of_key percentile feed_is_stale is_alert_active_at
    is_service_affecting_severity disruption_minutes_for_effect occupancy_score is_crowded_occupancy
    is_sydney_peak_hour sydney_local_hour
runs = tt

-- A clock whose hour in Sydney is always eight in the morning.
abbrev at_eight : ℕ → ℕ
at_eight at = 8

abbrev late_trip : TripUpdate
late_trip = record {
  mode = "sydneytrains";
  trip_id = "a1";
  route_id = some "CCN_1a";
  schedule_relationship = none;
  stop_time_updates =
      record {
        arrival_delay = some (pos 20);
        departure_delay = none;
        schedule_relationship = some "SKIPPED";
      }
      ∷ [];
  timestamp = some 1000;
  delay = some (pos 400);
}

abbrev cancelled_trip : String → TripUpdate
cancelled_trip trip_id = record {
  mode = "sydneytrains";
  trip_id = trip_id;
  route_id = some "CCN_1a";
  schedule_relationship = some "CANCELED";
  stop_time_updates = [];
  timestamp = none;
  delay = none;
}

abbrev full_vehicle : VehiclePosition
full_vehicle = record {
  mode = "sydneytrains";
  trip_id = some "a1";
  route_id = none;
  occupancy_status = some "FULL";
}

abbrev stop_alert : ServiceAlert
stop_alert = record {
  mode = "sydneytrains";
  id = "al";
  cause = none;
  effect = some "DETOUR";
  severity_level = some "SEVERE";
  active_periods = record { start = some 900; end = none } ∷ [];
  informed_entities = record { route_id = some "NSN_2"; stop_id = none; trip_id = some "a1" } ∷ [];
}

abbrev feeds_sample : SampleInput
feeds_sample = record {
  trip_updates = late_trip ∷ cancelled_trip "b2" ∷ cancelled_trip "c3" ∷ [];
  vehicles = full_vehicle ∷ [];
  alerts = stop_alert ∷ [];
  route_metadata = [];
  stop_to_route_ids = [];
  trip_to_route_id = [];
  scheduled_by_line = ("sydneytrains|CCN", 12) ∷ [];
  at = 1200000;
  already_counted_cancelled = "c3" ∷ [];
  already_counted_skipped = [];
}

aggregate_runs :
    ((aggregate_history_sample at_eight feeds_sample).newly_cancelled ≡ "b2" ∷ [])
    × ((aggregate_history_sample at_eight feeds_sample).newly_skipped ≡ "a1" ∷ [])
    × (map
          (λ (row : SnapshotRow). row.line)
          (snapshot_rows (aggregate_history_sample at_eight feeds_sample).by_line)
        ≡ some "CCN" ∷ some "T1" ∷ [])
    × (map
          (λ (row : SnapshotRow). row.avg_delay_seconds)
          (snapshot_rows (aggregate_history_sample at_eight feeds_sample).by_line)
        ≡ 200 ∷ 0 ∷ [])
    × ((aggregate_history_sample at_eight feeds_sample).feed_stale ≡ false)
unfolding runs
aggregate_runs = (refl, refl, refl, refl, refl)

aggregate-IsConsistent_example :
    Values IsConsistent (aggregate_history_sample at_eight feeds_sample).by_line
aggregate-IsConsistent_example = aggregate-IsConsistent at_eight feeds_sample

aggregate_conserves_example :
    (total (λ e. e.tracked_trips) (aggregate_history_sample at_eight feeds_sample).by_line ≡ 3)
    × (total (λ e. e.vehicles) (aggregate_history_sample at_eight feeds_sample).by_line ≡ 1)
    × (total (λ e. e.disruptions) (aggregate_history_sample at_eight feeds_sample).by_line
        ≡ length (aggregate_history_sample at_eight feeds_sample).disruption_events)
aggregate_conserves_example = aggregate_conserves at_eight feeds_sample

avg_divisor_example :
    total tracked_for_avg (aggregate_history_sample at_eight feeds_sample).by_line
    ≡ total (λ e. length e.delays) (aggregate_history_sample at_eight feeds_sample).by_line
      + count_if (is_old_cancellation feeds_sample) feeds_sample.trip_updates
avg_divisor_example = avg_divisor_counts_old_cancellations at_eight feeds_sample

-- Two samples on one day, five minutes apart, of the same feeds.
abbrev visit : ℕ → Visit
visit at = record { now = at; done = at + 100; db_up = true; feeds = feeds_sample }

abbrev one_day : ℕ → String
one_day at = "1970-01-01"

abbrev lists : Json (List String)
lists = json_of list_codec

abbrev first_sample : Option SampleResult × memory_redis.State
first_sample = run memory_redis lists one_day at_eight (visit 1200000) []

counted_once_example :
    (contains "b2" (
        newly cancelled (
          or_else
            (run memory_redis lists one_day at_eight (visit 1500000) first_sample.1).0
            (aggregate_history_sample at_eight feeds_sample)))
      ≡ false)
    × (total
          (counter cancelled)
          (or_else
            (run memory_redis lists one_day at_eight (visit 1500000) first_sample.1).0
            (aggregate_history_sample at_eight feeds_sample)).by_line
        ≡ length (
            newly cancelled (
              or_else
                (run memory_redis lists one_day at_eight (visit 1500000) first_sample.1).0
                (aggregate_history_sample at_eight feeds_sample))))
unfolding runs samples sample aggregated already_counted remember get set
counted_once_example =
    counted_once memory_redis lists one_day at_eight cancelled "b2" [] (visit 1200000)
      (visit 1500000) [] (or_else first_sample.0 (aggregate_history_sample at_eight feeds_sample))
      (or_else (run memory_redis lists one_day at_eight (visit 1500000) first_sample.1).0
        (aggregate_history_sample at_eight feeds_sample))
      refl refl (omega arith, omega arith, tt) (omega arith) refl refl

aggregate-events_example :
    EventsOf feeds_sample
      (trip_route at_eight feeds_sample)
      1200
      (stop_alert ∷ [])
      (aggregate_history_sample at_eight feeds_sample).disruption_events
aggregate-events_example = aggregate-events at_eight feeds_sample
