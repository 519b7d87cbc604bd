-- ===== src/History/Snapshot.antt =====
-- snapshotRowFromAccumulator of history/history-aggregate.util.ts: the row that is stored for an
-- entry. `Math.round(a / b)` rounds a half up; it is taken exactly, which holds for the quotients
-- of integers below 2 ^ 50.
use native.Mathlib.Nat.{div-lt_iff_lt-mul}
use typescript_starter.Common.{
  ℕ, zero, suc, ◌+◌, ◌*◌, ◌/◌, ◌≤◌, String, Option, List, [], ◌∷◌, map, arith, mul_mono, length,
  sum_of, ltb, ◌==◌, All, get_elem?, if◌then◌else◌,
}
use typescript_starter.Common.Int.{ℤ, pos, pos_part, ◌≤ℤ◌}
use typescript_starter.Common.Text.{split_at}
use typescript_starter.Common.Dict.{Dict, Values}
use typescript_starter.History.Percentile.{percentile, percentile-All, percentile-mono}
use typescript_starter.History.Accumulator.{LineAccumulator}
use typescript_starter.History.Accumulator.Consistency.{IsConsistent, IsAtMost}
use typescript_starter.History.Aggregate.Entries.{ByLine}
use typescript_starter.History.Aggregate.Invariant.{aggregate-IsConsistent}
use typescript_starter.History.Aggregate.{SampleInput, aggregate_history_sample}
use typescript_starter.History.Aggregate.Totals.{tracked_for_avg}

pub record SnapshotRow : Type 0 where
  pub mode : String
  pub line : Option String
  pub vehicles : ℕ
  pub tracked_trips : ℕ
  pub delayed_trips : ℕ
  pub cancelled_trips : ℕ
  pub skipped_trips : ℕ
  pub early_trips : ℕ
  pub avg_delay_seconds : ℕ
  pub max_delay_seconds : ℕ
  pub delay_p50_seconds : ℤ
  pub delay_p90_seconds : ℤ
  pub avg_occupancy : ℕ
  pub crowded_vehicles : ℕ
  pub active_disruptions : ℕ
  pub scheduled_trips : ℕ
  pub disruption_minutes : ℕ
  pub disruption_count_by_effect : Dict ℕ
  pub peak_tracked_trips : ℕ
  pub peak_delayed_trips : ℕ
  pub off_peak_tracked_trips : ℕ
  pub off_peak_delayed_trips : ℕ
  pub occupancy_score_sum : ℕ
  pub occupancy_samples : ℕ

-- `b > 0 ? Math.round(a / b) : 0`
unfoldable pub round_div : ℕ → ℕ → ℕ
round_div a b = if ltb 0 b then (2 * a + b) / (2 * b) else 0

-- `key.split('|')[1]`
unfoldable pub line_of_key : String → Option String
unfolding split_at
line_of_key key = get_elem? (split_at (λ c. c == b'|') key) 1

-- The source tests `trackedTrips - cancelledTrips > 0`; a negative difference gives 0, as the
-- truncated one does.
unfoldable pub snapshot_row_from_accumulator : String → LineAccumulator → SnapshotRow
unfolding round_div
snapshot_row_from_accumulator key e = record {
  mode = e.mode;
  line = line_of_key key;
  vehicles = e.vehicles;
  tracked_trips = e.tracked_trips;
  delayed_trips = e.delayed_trips;
  cancelled_trips = e.cancelled_trips;
  skipped_trips = e.skipped_trips;
  early_trips = e.early_trips;
  avg_delay_seconds = round_div e.delay_sum (tracked_for_avg e);
  max_delay_seconds = e.max_delay;
  delay_p50_seconds = percentile e.delays 50;
  delay_p90_seconds = percentile e.delays 90;
  avg_occupancy = round_div e.occupancy_score_sum e.occupancy_samples;
  crowded_vehicles = e.crowded_vehicles;
  active_disruptions = e.disruptions;
  scheduled_trips = e.scheduled_trips;
  disruption_minutes = e.disruption_minutes;
  disruption_count_by_effect = e.disruption_count_by_effect;
  peak_tracked_trips = e.peak_tracked_trips;
  peak_delayed_trips = e.peak_delayed_trips;
  off_peak_tracked_trips = e.off_peak_tracked_trips;
  off_peak_delayed_trips = e.off_peak_delayed_trips;
  occupancy_score_sum = e.occupancy_score_sum;
  occupancy_samples = e.occupancy_samples;
}

-- A rounded average over `b` of values whose sum is at most that of `n` values of at most `m`.
round_div-le : (a b m n : ℕ) → a ≤ m * n → n ≤ b → round_div a b ≤ m
unfolding round_div
round_div-le a zero m n h k = omega arith
round_div-le a (suc b) m n h k = ground (
  arith,
  (div-lt_iff_lt-mul {k = 2 * suc b} {x = 2 * a + suc b} {y = suc m} (omega arith)).1
      (omega (arith, mul_mono n (suc b) m k)),
)

sum_of-le :
    (m : ℕ) (delays : List ℤ) → All (IsAtMost m) delays → sum_of pos_part delays ≤ m * length delays
sum_of-le m [] h = omega arith
sum_of-le m (d ∷ ds) (p, h) = omega (arith, sum_of-le m ds h)

-- The bounds of one stored row.
pub record IsBounded (row : SnapshotRow) : Type 0 where
  pub average : row.avg_delay_seconds ≤ row.max_delay_seconds
  pub ordered : row.delay_p50_seconds ≤ℤ row.delay_p90_seconds
  pub percentiles : row.delay_p90_seconds ≤ℤ pos row.max_delay_seconds
  pub occupancy : row.avg_occupancy ≤ 4

snapshot_row-IsBounded :
    (key : String) (e : LineAccumulator)
    → IsConsistent e
    → IsBounded (snapshot_row_from_accumulator key e)
unfolding snapshot_row_from_accumulator
snapshot_row-IsBounded key e c = record {
  average =
      round_div-le e.delay_sum (tracked_for_avg e) e.max_delay (length e.delays)
        (omega (arith, c.trips.summed, sum_of-le e.max_delay e.delays c.trips.bounded))
        (omega (arith, c.trips.outcomes));
  ordered = percentile-mono e.delays 50 90 (omega arith) (omega arith);
  percentiles = omega (
    arith,
    percentile-All (IsAtMost e.max_delay) e.delays 90 (omega arith) c.trips.bounded (omega arith),
  );
  occupancy =
      round_div-le e.occupancy_score_sum e.occupancy_samples 4 e.occupancy_samples c.vehicles.scored
        (omega arith);
}

-- The rows of the sampler's `persist`.
unfoldable pub snapshot_rows : ByLine → List SnapshotRow
snapshot_rows by_line =
    map (λ (entry : String × LineAccumulator). snapshot_row_from_accumulator entry.0 entry.1)
      by_line

snapshot_rows-IsBounded :
    (by_line : ByLine) → Values IsConsistent by_line → All IsBounded (snapshot_rows by_line)
unfolding snapshot_rows
snapshot_rows-IsBounded [] h = tt
snapshot_rows-IsBounded ((key, e) ∷ rest) (c, h) =
    (snapshot_row-IsBounded key e c, snapshot_rows-IsBounded rest h)

-- In every row of every sample the average delay and the 90th percentile are at most the maximal
-- delay, the median is at most the 90th percentile, and the average occupancy is at most 4.
pub sample_rows-IsBounded :
    (intl_hour : ℕ → ℕ) (input : SampleInput)
    → All IsBounded (snapshot_rows (aggregate_history_sample intl_hour input).by_line)
sample_rows-IsBounded intl_hour input =
    snapshot_rows-IsBounded _ (aggregate-IsConsistent intl_hour input)
