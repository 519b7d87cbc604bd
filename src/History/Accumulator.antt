-- ===== src/History/Accumulator.antt =====
-- LineAccumulator of history/history-aggregate.util.ts, and what the three loops of
-- aggregateHistorySample do to one entry.
pub mod Consistency
use typescript_starter.Common.{
  ℕ, ◌+◌, String, Option, none, some, List, [], ◌∷◌, ◌++◌, Bool, ltb, or_else, if◌then◌else◌,
}
use typescript_starter.Common.Int.{ℤ, pos, pos_part, ltb_ℤ}
use typescript_starter.Common.Dict.{Dict, lookup, insert}
use typescript_starter.History.Occupancy.{occupancy_score, is_crowded_occupancy}

abbrev pub delay_threshold_seconds : ℕ
delay_threshold_seconds = 300

pub record LineAccumulator : Type 0 where
  pub mode : String
  pub vehicles : ℕ
  pub tracked_trips : ℕ
  pub delayed_trips : ℕ
  pub cancelled_trips : ℕ
  pub skipped_trips : ℕ
  pub early_trips : ℕ
  pub delay_sum : ℕ
  pub delays : List ℤ
  pub max_delay : ℕ
  pub occupancy_score_sum : ℕ
  pub occupancy_samples : ℕ
  pub crowded_vehicles : ℕ
  pub disruptions : ℕ
  pub disruption_minutes : ℕ
  pub disruption_count_by_effect : Dict ℕ
  pub scheduled_trips : ℕ
  pub peak_tracked_trips : ℕ
  pub peak_delayed_trips : ℕ
  pub off_peak_tracked_trips : ℕ
  pub off_peak_delayed_trips : ℕ

abbrev pub empty_accumulator : String → LineAccumulator
empty_accumulator mode = record {
  mode = mode;
  vehicles = 0;
  tracked_trips = 0;
  delayed_trips = 0;
  cancelled_trips = 0;
  skipped_trips = 0;
  early_trips = 0;
  delay_sum = 0;
  delays = [];
  max_delay = 0;
  occupancy_score_sum = 0;
  occupancy_samples = 0;
  crowded_vehicles = 0;
  disruptions = 0;
  disruption_minutes = 0;
  disruption_count_by_effect = [];
  scheduled_trips = 0;
  peak_tracked_trips = 0;
  peak_delayed_trips = 0;
  off_peak_tracked_trips = 0;
  off_peak_delayed_trips = 0;
}

unfoldable pub count_tracked : Bool → LineAccumulator → LineAccumulator
count_tracked peak e =
    if peak
    then record e {
      tracked_trips = e.tracked_trips + 1;
      peak_tracked_trips = e.peak_tracked_trips + 1;
    }
    else record e {
      tracked_trips = e.tracked_trips + 1;
      off_peak_tracked_trips = e.off_peak_tracked_trips + 1;
    }

unfoldable pub count_cancelled : LineAccumulator → LineAccumulator
count_cancelled e = record e { cancelled_trips = e.cancelled_trips + 1 }

unfoldable pub count_skipped : Bool → LineAccumulator → LineAccumulator
count_skipped fresh e = if fresh then record e { skipped_trips = e.skipped_trips + 1 } else e

-- `delays`, `delaySum`, `earlyTrips` and `maxDelay`.
record_delay : ℤ → LineAccumulator → LineAccumulator
record_delay delay e = record e {
  delays = e.delays ++ delay ∷ [];
  delay_sum = e.delay_sum + pos_part delay;
  early_trips = if ltb_ℤ delay (pos 0) then e.early_trips + 1 else e.early_trips;
  max_delay = if ltb_ℤ (pos e.max_delay) delay then pos_part delay else e.max_delay;
}

-- `delayedTrips` and its split.
count_delayed : Bool → LineAccumulator → LineAccumulator
count_delayed peak e =
    if peak
    then record e {
      delayed_trips = e.delayed_trips + 1;
      peak_delayed_trips = e.peak_delayed_trips + 1;
    }
    else record e {
      delayed_trips = e.delayed_trips + 1;
      off_peak_delayed_trips = e.off_peak_delayed_trips + 1;
    }

unfoldable pub count_delay : Bool → ℤ → LineAccumulator → LineAccumulator
unfolding record_delay count_delayed
count_delay peak delay e =
    if ltb_ℤ (pos delay_threshold_seconds) delay
    then count_delayed peak (record_delay delay e)
    else record_delay delay e

add_score : Option ℕ → LineAccumulator → LineAccumulator
add_score none e = e
add_score (some score) e = record e {
  occupancy_score_sum = e.occupancy_score_sum + score;
  occupancy_samples = e.occupancy_samples + 1;
}

unfoldable pub count_vehicle : Option String → LineAccumulator → LineAccumulator
unfolding add_score
count_vehicle status e =
    let scored = add_score (occupancy_score status) (record e { vehicles = e.vehicles + 1 }) in
    if is_crowded_occupancy status
    then record scored { crowded_vehicles = scored.crowded_vehicles + 1 }
    else scored

unfoldable pub count_disruption : String → ℕ → LineAccumulator → LineAccumulator
count_disruption effect minutes e = record e {
  disruptions = e.disruptions + 1;
  disruption_minutes = e.disruption_minutes + minutes;
  disruption_count_by_effect =
      insert effect (or_else (lookup effect e.disruption_count_by_effect) 0 + 1)
        e.disruption_count_by_effect;
}
