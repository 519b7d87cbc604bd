-- ===== src/History/Accumulator/Consistency.antt =====
-- The counters of one line entry agree with each other, and every update keeps that.
use typescript_starter.Common.{
  ℕ, ◌+◌, ◌*◌, ◌≤◌, String, Option, List, [], ◌∷◌, ◌++◌, Bool, true, false, ◌≡◌, arith, length,
  sum_of, All, All-append, or_else, length-append, sum_of-append,
}
use typescript_starter.Common.Int.{ℤ, pos_part}
use typescript_starter.Common.Dict.{total, total-insert, lookup}
use typescript_starter.History.Occupancy.{occupancy_score-IsScore, is_crowded_occupancy_iff}
use typescript_starter.History.Accumulator.{
  LineAccumulator, empty_accumulator, count_tracked, count_cancelled, count_skipped, record_delay,
  count_delay, count_vehicle, count_disruption,
}

abbrev pub IsAtMost : ℕ → ℤ → Type 0
IsAtMost n delay = pos_part delay ≤ n

abbrev same_count : ℕ → ℕ
same_count n = n

-- What the trip loop keeps. `room` is how many tracked trips have no outcome yet.
pub record TripsAgree (room : ℕ) (e : LineAccumulator) : Type 0 where
  pub tracked : e.tracked_trips ≡ e.peak_tracked_trips + e.off_peak_tracked_trips
  pub delayed : e.delayed_trips ≡ e.peak_delayed_trips + e.off_peak_delayed_trips
  pub outcomes : e.cancelled_trips + length e.delays + room ≤ e.tracked_trips
  pub disjoint : e.delayed_trips + e.early_trips ≤ length e.delays
  pub skipped : e.skipped_trips ≤ length e.delays
  pub summed : e.delay_sum ≡ sum_of pos_part e.delays
  pub bounded : All (IsAtMost e.max_delay) e.delays

-- What the vehicle loop keeps.
pub record VehiclesAgree (e : LineAccumulator) : Type 0 where
  pub sampled : e.occupancy_samples ≤ e.vehicles
  pub crowded : e.crowded_vehicles ≤ e.occupancy_samples
  pub scored : e.occupancy_score_sum ≤ 4 * e.occupancy_samples
  pub crowd_scored : 3 * e.crowded_vehicles ≤ e.occupancy_score_sum

-- What the alert loop keeps.
pub record DisruptionsAgree (e : LineAccumulator) : Type 0 where
  pub at_least : e.disruptions ≤ e.disruption_minutes
  pub at_most : e.disruption_minutes ≤ 5 * e.disruptions
  pub by_effect : total same_count e.disruption_count_by_effect ≡ e.disruptions

pub record IsConsistent (e : LineAccumulator) : Type 0 where
  pub trips : TripsAgree 0 e
  pub vehicles : VehiclesAgree e
  pub disruptions : DisruptionsAgree e

pub IsConsistent-empty :
    (mode : String) (n : ℕ) → IsConsistent (record (empty_accumulator mode) { scheduled_trips = n })
IsConsistent-empty mode n = ground arith

All-IsAtMost-mono :
    (n m : ℕ) (delays : List ℤ) → n ≤ m → All (IsAtMost n) delays → All (IsAtMost m) delays
All-IsAtMost-mono n m [] h k = tt
All-IsAtMost-mono n m (d ∷ ds) h (p, k) = (omega arith, All-IsAtMost-mono n m ds h k)

module _ (delay : ℤ) (e : LineAccumulator) where
  max_delay-record_delay :
      (e.max_delay ≤ (record_delay delay e).max_delay)
      × (pos_part delay ≤ (record_delay delay e).max_delay)
  unfolding record_delay
  max_delay-record_delay = ground arith

  bounded-record_delay :
      All (IsAtMost e.max_delay) e.delays
      → All (IsAtMost (record_delay delay e).max_delay) (e.delays ++ delay ∷ [])
  bounded-record_delay h =
      let (grows, fits) = max_delay-record_delay in
      All-append (IsAtMost _) e.delays (delay ∷ []) (All-IsAtMost-mono _ _ e.delays grows h)
        (fits, tt)

module _ {e : LineAccumulator} where
  pub count_tracked-agree : (peak : Bool) → TripsAgree 0 e → TripsAgree 1 (count_tracked peak e)
  unfolding count_tracked
  count_tracked-agree true h = ground arith
  count_tracked-agree false h = ground arith

  pub count_cancelled-agree : TripsAgree 1 e → TripsAgree 0 (count_cancelled e)
  unfolding count_cancelled
  count_cancelled-agree h = ground arith

  -- A cancelled trip that was counted in an earlier sample has no outcome in this one.
  pub no_outcome-agree : TripsAgree 1 e → TripsAgree 0 e
  no_outcome-agree h = ground arith

  pub count_delay-agree :
      (peak fresh : Bool) (delay : ℤ)
      → TripsAgree 1 e
      → TripsAgree 0 (count_delay peak delay (count_skipped fresh e))
  unfolding count_delay count_skipped
  count_delay-agree peak fresh delay h = ground (
    arith,
    bounded-record_delay delay e h.bounded,
    length-append {0} e.delays (delay ∷ []),
    sum_of-append {0} pos_part e.delays (delay ∷ []),
  )

  pub count_vehicle-agree :
      (status : Option String) → VehiclesAgree e → VehiclesAgree (count_vehicle status e)
  unfolding count_vehicle
  count_vehicle-agree status h =
      ground (arith, occupancy_score-IsScore status, is_crowded_occupancy_iff status)

  pub count_disruption-agree :
      (effect : String) (minutes : ℕ)
      → 1 ≤ minutes
      → minutes ≤ 5
      → DisruptionsAgree e
      → DisruptionsAgree (count_disruption effect minutes e)
  unfolding count_disruption
  count_disruption-agree effect minutes lo hi h = ground (
    arith,
    total-insert same_count effect (or_else (lookup effect e.disruption_count_by_effect) 0 + 1)
        e.disruption_count_by_effect,
  )
