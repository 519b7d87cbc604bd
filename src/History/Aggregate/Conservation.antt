-- ===== src/History/Aggregate/Conservation.antt =====
-- Nothing is lost and nothing is counted twice: sums of the counters over the lines of a sample.
use typescript_starter.Common.{
  ℕ, ◌+◌, ◌*◌, String, Option, some, List, [], ◌∷◌, Bool, ◌≡◌, refl, ap, arith, inl, inr,
  Bool-cases, or_else, length, sum_of, length-append,
}
use typescript_starter.Common.Dict.{Dict, total}
use typescript_starter.History.Feed.{TripUpdate, VehiclePosition, ServiceAlert}
use typescript_starter.History.Disruption.{disruption_minutes_for_effect}
use typescript_starter.History.Accumulator.{LineAccumulator, count_vehicle, count_disruption}
use typescript_starter.History.Aggregate.Entries.{ByLine, fresh_entry, total-put_entry}
use typescript_starter.History.Aggregate.{
  SampleInput, TripLoop, AlertLoop, count_trip, trip_step, trip_loop, vehicle_step, vehicle_loop,
  mark_line, mark_lines, event_of, alert_lines, counts_alert, alert_step, alert_loop, after_trips,
  after_vehicles, trip_route, at_unix, peak, aggregate_history_sample,
}

-- A counter that a trip update raises by `trip`, a vehicle by `vehicle` and a disruption of a line
-- by `disruption`.
pub record IsCounter (input : SampleInput) (peak : Bool) (f : LineAccumulator → ℕ)
    (trip : TripUpdate → ℕ) (vehicle disruption : ℕ) : Type 0 where
  pub fresh : (mode line : String) → f (fresh_entry input.scheduled_by_line mode line) ≡ 0
  pub trips :
      (tu : TripUpdate) (e : LineAccumulator) → f (count_trip input peak tu e) ≡ f e + trip tu
  pub vehicles :
      (status : Option String) (e : LineAccumulator) → f (count_vehicle status e) ≡ f e + vehicle
  pub disruptions :
      (effect : String) (minutes : ℕ) (e : LineAccumulator)
      → f (count_disruption effect minutes e) ≡ f e + disruption

module _ (input : SampleInput) (peak : Bool) {f : LineAccumulator → ℕ} {trip : TripUpdate → ℕ}
    {vehicle disruption : ℕ} (c : IsCounter input peak f trip vehicle disruption) where
  trip_loop-total :
      (s : TripLoop) (tus : List TripUpdate)
      → total f (trip_loop input peak s tus).by_line ≡ total f s.by_line + sum_of trip tus
  unfolding trip_loop trip_step
  trip_loop-total s [] = omega arith
  trip_loop-total s (tu ∷ tus) = omega (
    arith,
    trip_loop-total (trip_step input peak s tu) tus,
    total-put_entry input.scheduled_by_line tu.mode _ f (count_trip input peak tu) (trip tu)
        (c.fresh tu.mode _) (c.trips tu) s.by_line,
  )

  vehicle_loop-total :
      (trip_route : Dict String) (by_line : ByLine) (vs : List VehiclePosition)
      → total f (vehicle_loop input trip_route by_line vs) ≡ total f by_line + vehicle * length vs
  unfolding vehicle_loop vehicle_step
  vehicle_loop-total trip_route by_line [] = omega arith
  vehicle_loop-total trip_route by_line (v ∷ vs) = omega (
    arith,
    vehicle_loop-total trip_route (vehicle_step input trip_route by_line v) vs,
    total-put_entry input.scheduled_by_line v.mode _ f (count_vehicle v.occupancy_status) vehicle
        (c.fresh v.mode _) (c.vehicles v.occupancy_status) by_line,
  )

  mark_lines-total :
      (alert : ServiceAlert) (s : AlertLoop) (lines : List String)
      → total f (mark_lines input alert s lines).by_line + disruption * length s.events
        ≡ total f s.by_line + disruption * length (mark_lines input alert s lines).events
  unfolding mark_lines mark_line
  mark_lines-total alert s [] = omega arith
  mark_lines-total alert s (line ∷ lines) =
      let effect = or_else alert.effect "UNKNOWN_EFFECT" in
      omega (
        arith,
        mark_lines-total alert (mark_line input alert s line) lines,
        total-put_entry input.scheduled_by_line alert.mode line f
            (count_disruption effect (disruption_minutes_for_effect (some effect))) disruption
            (c.fresh alert.mode line) (c.disruptions effect _) s.by_line,
        ap (λ (n : ℕ). disruption * n) (length-append {0} s.events (event_of alert line ∷ [])),
      )

  alert_step-total :
      (trip_route : Dict String) (at : ℕ) (s : AlertLoop) (alert : ServiceAlert)
      → total f (alert_step input trip_route at s alert).by_line + disruption * length s.events
        ≡ total f s.by_line + disruption * length (alert_step input trip_route at s alert).events
  unfolding alert_step
  alert_step-total trip_route at s alert = elim (Bool-cases (counts_alert at alert)) [
    | inl counted ↦ rw counted (mark_lines-total alert s (alert_lines input trip_route alert))
    | inr skipped ↦ rw skipped
  ]

  alert_loop-total :
      (trip_route : Dict String) (at : ℕ) (s : AlertLoop) (alerts : List ServiceAlert)
      → total f (alert_loop input trip_route at s alerts).by_line + disruption * length s.events
        ≡ total f s.by_line + disruption * length (alert_loop input trip_route at s alerts).events
  unfolding alert_loop
  alert_loop-total trip_route at s [] = refl
  alert_loop-total trip_route at s (alert ∷ alerts) = omega (
    arith,
    alert_loop-total trip_route at (alert_step input trip_route at s alert) alerts,
    alert_step-total trip_route at s alert,
  )

module _ (intl_hour : ℕ → ℕ) (input : SampleInput) where
  -- The sum of a counter over the lines of a sample.
  pub aggregate-total :
      {f : LineAccumulator → ℕ} {trip : TripUpdate → ℕ} {vehicle disruption : ℕ}
      → IsCounter input (peak intl_hour input) f trip vehicle disruption
      → total f (aggregate_history_sample intl_hour input).by_line
        ≡ sum_of trip input.trip_updates
          + vehicle * length input.vehicles
          + disruption * length (aggregate_history_sample intl_hour input).disruption_events
  unfolding aggregate_history_sample
  aggregate-total {f} {trip} {vehicle} {disruption} c = omega (
    arith,
    trip_loop-total input (peak intl_hour input) c
        (record { by_line = []; newly_cancelled = []; newly_skipped = [] }) input.trip_updates,
    vehicle_loop-total input (peak intl_hour input) c (trip_route intl_hour input)
        (after_trips intl_hour input).by_line input.vehicles,
    alert_loop-total input (peak intl_hour input) c (trip_route intl_hour input)
        (at_unix intl_hour input) (record { by_line = after_vehicles intl_hour input; events = [] })
        input.alerts,
  )
