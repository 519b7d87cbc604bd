-- ===== src/History/Aggregate/Invariant.antt =====
-- Every entry of a sample is consistent: the invariant of the three loops.
use typescript_starter.Common.{
  ℕ, String, Option, some, List, [], ◌∷◌, Bool, arith, inl, inr, Bool-cases, or_else, contains,
}
use typescript_starter.Common.Dict.{Dict, Values}
use typescript_starter.History.Feed.{TripUpdate, VehiclePosition, ServiceAlert}
use typescript_starter.History.Disruption.{disruption_minutes_for_effect, disruption_minutes_bounds}
use typescript_starter.History.Accumulator.{
  LineAccumulator, count_tracked, count_cancelled, count_skipped, count_delay, count_vehicle,
  count_disruption,
}
use typescript_starter.History.Accumulator.Consistency.{
  TripsAgree, VehiclesAgree, DisruptionsAgree, IsConsistent, IsConsistent-empty,
  count_tracked-agree, count_cancelled-agree, no_outcome-agree, count_delay-agree,
  count_vehicle-agree, count_disruption-agree,
}
use typescript_starter.History.Aggregate.Entries.{ByLine, Values-put_entry}
use typescript_starter.History.Aggregate.{
  SampleInput, TripLoop, AlertLoop, is_canceled, trip_delay, count_trip, trip_step, trip_loop,
  vehicle_step, vehicle_loop, mark_lines, alert_lines, counts_alert, mark_line, alert_step,
  alert_loop, aggregate_history_sample,
}

module _ (input : SampleInput) (peak : Bool) where
  count_trip-TripsAgree :
      (tu : TripUpdate) (e : LineAccumulator)
      → TripsAgree 0 e
      → TripsAgree 0 (count_trip input peak tu e)
  unfolding count_trip
  count_trip-TripsAgree tu e h =
      let tracked = count_tracked-agree peak h in
      elim (Bool-cases (is_canceled tu)) [
        | inl gone ↦ elim (Bool-cases (contains tu.trip_id input.already_counted_cancelled)) [
          | inl old ↦ rw (gone, old) (no_outcome-agree tracked)
          | inr new ↦ rw (gone, new) (count_cancelled-agree tracked)
        ]
        | inr runs ↦ rw runs (count_delay-agree peak _ (trip_delay tu) tracked)
      ]

  count_trip-others :
      (tu : TripUpdate) (e : LineAccumulator)
      → VehiclesAgree e × DisruptionsAgree e
      → VehiclesAgree (count_trip input peak tu e) × DisruptionsAgree (count_trip input peak tu e)
  unfolding count_trip count_tracked count_cancelled count_skipped count_delay
  count_trip-others tu e h = ground arith

  count_trip-IsConsistent :
      (tu : TripUpdate) (e : LineAccumulator)
      → IsConsistent e
      → IsConsistent (count_trip input peak tu e)
  count_trip-IsConsistent tu e h =
      let (vehicles, disruptions) = count_trip-others tu e (h.vehicles, h.disruptions) in
      record {
        trips = count_trip-TripsAgree tu e h.trips;
        vehicles = vehicles;
        disruptions = disruptions;
      }

  pub trip_loop-IsConsistent :
      (s : TripLoop) (tus : List TripUpdate)
      → Values IsConsistent s.by_line
      → Values IsConsistent (trip_loop input peak s tus).by_line
  unfolding trip_loop trip_step
  trip_loop-IsConsistent s [] h = h
  trip_loop-IsConsistent s (tu ∷ tus) h = trip_loop-IsConsistent (trip_step input peak s tu) tus (
      Values-put_entry input.scheduled_by_line _ _ IsConsistent (count_trip input peak tu)
        (IsConsistent-empty _ _) (count_trip-IsConsistent tu) s.by_line h)

count_vehicle-IsConsistent :
    (status : Option String) (e : LineAccumulator)
    → IsConsistent e
    → IsConsistent (count_vehicle status e)
unfolding count_vehicle
count_vehicle-IsConsistent status e h =
    let vehicles = count_vehicle-agree status h.vehicles in ground arith

count_disruption-IsConsistent :
    (effect : String) (e : LineAccumulator)
    → IsConsistent e
    → IsConsistent (count_disruption effect (disruption_minutes_for_effect (some effect)) e)
unfolding count_disruption
count_disruption-IsConsistent effect e h =
    let (lo, hi) = disruption_minutes_bounds (some effect) in
    let disruptions = count_disruption-agree effect _ lo hi h.disruptions in ground arith

module _ (input : SampleInput) where
  pub vehicle_loop-IsConsistent :
      (trip_route : Dict String) (by_line : ByLine) (vs : List VehiclePosition)
      → Values IsConsistent by_line
      → Values IsConsistent (vehicle_loop input trip_route by_line vs)
  unfolding vehicle_loop vehicle_step
  vehicle_loop-IsConsistent trip_route by_line [] h = h
  vehicle_loop-IsConsistent trip_route by_line (v ∷ vs) h =
      vehicle_loop-IsConsistent trip_route (vehicle_step input trip_route by_line v) vs (
        Values-put_entry input.scheduled_by_line _ _ IsConsistent (count_vehicle v.occupancy_status)
          (IsConsistent-empty _ _) (count_vehicle-IsConsistent v.occupancy_status) by_line h)

  mark_lines-IsConsistent :
      (alert : ServiceAlert) (s : AlertLoop) (lines : List String)
      → Values IsConsistent s.by_line
      → Values IsConsistent (mark_lines input alert s lines).by_line
  unfolding mark_lines mark_line
  mark_lines-IsConsistent alert s [] h = h
  mark_lines-IsConsistent alert s (line ∷ lines) h =
      mark_lines-IsConsistent alert (mark_line input alert s line) lines (
        Values-put_entry input.scheduled_by_line alert.mode line IsConsistent _
          (IsConsistent-empty _ _)
          (count_disruption-IsConsistent (or_else alert.effect "UNKNOWN_EFFECT")) s.by_line h)

  alert_step-IsConsistent :
      (trip_route : Dict String) (at : ℕ) (s : AlertLoop) (alert : ServiceAlert)
      → Values IsConsistent s.by_line
      → Values IsConsistent (alert_step input trip_route at s alert).by_line
  unfolding alert_step
  alert_step-IsConsistent trip_route at s alert h = elim (Bool-cases (counts_alert at alert)) [
    | inl counted ↦
        rw counted (mark_lines-IsConsistent alert s (alert_lines input trip_route alert) h)
    | inr skipped ↦ rw skipped h
  ]

  pub alert_loop-IsConsistent :
      (trip_route : Dict String) (at : ℕ) (s : AlertLoop) (alerts : List ServiceAlert)
      → Values IsConsistent s.by_line
      → Values IsConsistent (alert_loop input trip_route at s alerts).by_line
  unfolding alert_loop
  alert_loop-IsConsistent trip_route at s [] h = h
  alert_loop-IsConsistent trip_route at s (alert ∷ alerts) h =
      alert_loop-IsConsistent trip_route at (alert_step input trip_route at s alert) alerts
        (alert_step-IsConsistent trip_route at s alert h)

-- Whatever the feeds hold, the counters of every line entry of a sample agree: the tracked and the
-- delayed trips split into peak and off-peak; cancelled trips and recorded delays together are at
-- most the tracked trips; late and early trips are disjoint among the recorded delays; `delaySum`
-- is the sum of the positive delays and `maxDelay` bounds each of them; the occupancy score is at
-- most 4 for each sample and at least 3 for each crowded vehicle; disruption minutes lie between 1
-- and 5 for each disruption, and the counts by effect sum to the disruptions.
pub aggregate-IsConsistent :
    (intl_hour : ℕ → ℕ) (input : SampleInput)
    → Values IsConsistent (aggregate_history_sample intl_hour input).by_line
unfolding aggregate_history_sample
aggregate-IsConsistent intl_hour input = alert_loop-IsConsistent input _ _ _ input.alerts (
    vehicle_loop-IsConsistent input _ _ input.vehicles
      (trip_loop-IsConsistent input _ _ input.trip_updates tt))
