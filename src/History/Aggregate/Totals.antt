-- ===== src/History/Aggregate/Totals.antt =====
-- The sums of single counters over the lines of a sample, and the divisor of the average delay.
use typescript_starter.Common.{
  ℕ, ◌+◌, ◌-◌, List, [], ◌∷◌, Bool, not, ◌≡◌, refl, arith, contains, length, sum_of, count_if, bit,
  length-append, ◌&&◌,
}
use typescript_starter.Common.Dict.{total, Values}
use typescript_starter.History.Feed.{TripUpdate}
use typescript_starter.History.Accumulator.{
  LineAccumulator, count_tracked, count_cancelled, count_skipped, count_delay, count_vehicle,
  count_disruption,
}
use typescript_starter.History.Accumulator.Consistency.{IsConsistent}
use typescript_starter.History.Aggregate.Entries.{ByLine}
use typescript_starter.History.Aggregate.Invariant.{aggregate-IsConsistent}
use typescript_starter.History.Aggregate.Conservation.{IsCounter, aggregate-total}
use typescript_starter.History.Aggregate.{
  SampleInput, is_canceled, is_new_cancellation, is_new_skip, trip_delay, count_trip,
  aggregate_history_sample,
}

entry_updates : Unit {0}
unfolding count_trip count_tracked count_cancelled count_skipped count_delay count_vehicle
    count_disruption
entry_updates = tt

module _ (input : SampleInput) (p : Bool) where
  tracked-IsCounter : IsCounter input p (λ e. e.tracked_trips) (λ _. 1) 0 0
  unfolding entry_updates
  tracked-IsCounter = record {
    fresh = λ mode line. refl;
    trips = λ tu e. ground arith;
    vehicles = λ status e. ground arith;
    disruptions = λ effect minutes e. omega arith;
  }

  vehicles-IsCounter : IsCounter input p (λ e. e.vehicles) (λ _. 0) 1 0
  unfolding entry_updates
  vehicles-IsCounter = record {
    fresh = λ mode line. refl;
    trips = λ tu e. ground arith;
    vehicles = λ status e. ground arith;
    disruptions = λ effect minutes e. omega arith;
  }

  disruptions-IsCounter : IsCounter input p (λ e. e.disruptions) (λ _. 0) 0 1
  unfolding entry_updates
  disruptions-IsCounter = record {
    fresh = λ mode line. refl;
    trips = λ tu e. ground arith;
    vehicles = λ status e. ground arith;
    disruptions = λ effect minutes e. refl;
  }

  delays-IsCounter : IsCounter input p (λ e. length e.delays) (λ tu. bit (not (is_canceled tu))) 0 0
  unfolding entry_updates
  delays-IsCounter = record {
    fresh = λ mode line. refl;
    trips = λ tu e. ground (arith, length-append {0} e.delays (trip_delay tu ∷ []));
    vehicles = λ status e. ground arith;
    disruptions = λ effect minutes e. omega arith;
  }

  pub cancelled-IsCounter :
      IsCounter input p (λ e. e.cancelled_trips) (λ tu. bit (is_new_cancellation input tu)) 0 0
  unfolding entry_updates
  cancelled-IsCounter = record {
    fresh = λ mode line. refl;
    trips = λ tu e. ground arith;
    vehicles = λ status e. ground arith;
    disruptions = λ effect minutes e. omega arith;
  }

  pub skipped-IsCounter :
      IsCounter input p (λ e. e.skipped_trips) (λ tu. bit (is_new_skip input tu)) 0 0
  unfolding entry_updates
  skipped-IsCounter = record {
    fresh = λ mode line. refl;
    trips = λ tu e. ground arith;
    vehicles = λ status e. ground arith;
    disruptions = λ effect minutes e. omega arith;
  }

sum_of-one : (tus : List TripUpdate) → sum_of (λ _. 1) tus ≡ length tus
sum_of-one [] = refl
sum_of-one (tu ∷ tus) = omega (arith, sum_of-one tus)

sum_of-zero : (tus : List TripUpdate) → sum_of (λ _. 0) tus ≡ 0
sum_of-zero [] = refl
sum_of-zero (tu ∷ tus) = omega (arith, sum_of-zero tus)

-- `trackedForAvg` of snapshotRowFromAccumulator.
abbrev pub tracked_for_avg : LineAccumulator → ℕ
tracked_for_avg e = e.tracked_trips - e.cancelled_trips

-- A cancelled trip of the feed that an earlier sample has counted.
abbrev pub is_old_cancellation : SampleInput → TripUpdate → Bool
is_old_cancellation input tu = is_canceled tu && contains tu.trip_id input.already_counted_cancelled

total-tracked_for_avg :
    (by_line : ByLine)
    → Values IsConsistent by_line
    → total tracked_for_avg by_line + total (λ e. e.cancelled_trips) by_line
      ≡ total (λ e. e.tracked_trips) by_line
total-tracked_for_avg [] h = refl
total-tracked_for_avg ((k, e) ∷ rest) (c, h) =
    omega (arith, total-tracked_for_avg rest h, c.trips.outcomes)

trips_split :
    (input : SampleInput) (tus : List TripUpdate)
    → sum_of (λ tu. bit (not (is_canceled tu))) tus
        + sum_of (λ tu. bit (is_new_cancellation input tu)) tus
        + count_if (is_old_cancellation input) tus
      ≡ length tus
trips_split input [] = refl
trips_split input (tu ∷ tus) = ground (arith, trips_split input tus)

module _ (intl_hour : ℕ → ℕ) (input : SampleInput) where
  abbrev by_line : ByLine
  by_line = (aggregate_history_sample intl_hour input).by_line

  -- Over all lines together, the tracked trips are the trip updates of the feed, the vehicles are
  -- the vehicles of the feed, and the disruptions are the disruption events of the result.
  pub aggregate_conserves :
      (total (λ e. e.tracked_trips) by_line ≡ length input.trip_updates)
      × (total (λ e. e.vehicles) by_line ≡ length input.vehicles)
      × (total (λ e. e.disruptions) by_line
          ≡ length (aggregate_history_sample intl_hour input).disruption_events)
  aggregate_conserves = (
    omega (
      arith,
      aggregate-total intl_hour input (tracked-IsCounter input _),
      sum_of-one input.trip_updates,
    ),
    omega (
      arith,
      aggregate-total intl_hour input (vehicles-IsCounter input _),
      sum_of-zero input.trip_updates,
    ),
    omega (
      arith,
      aggregate-total intl_hour input (disruptions-IsCounter input _),
      sum_of-zero input.trip_updates,
    ),
  )

  -- Over all lines together, the divisors of the average delay (tracked trips less cancelled trips)
  -- sum to the number of recorded delays plus the number of cancelled trips of the feed that an
  -- earlier sample has counted: each of those raises a divisor and adds no delay.
  pub avg_divisor_counts_old_cancellations :
      total tracked_for_avg by_line
      ≡ total (λ e. length e.delays) by_line
        + count_if (is_old_cancellation input) input.trip_updates
  avg_divisor_counts_old_cancellations = omega (
    arith,
    aggregate-total intl_hour input (tracked-IsCounter input _),
    aggregate-total intl_hour input (cancelled-IsCounter input _),
    aggregate-total intl_hour input (delays-IsCounter input _),
    sum_of-one input.trip_updates,
    trips_split input input.trip_updates,
    total-tracked_for_avg by_line (aggregate-IsConsistent intl_hour input),
  )
