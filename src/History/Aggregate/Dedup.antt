-- ===== src/History/Aggregate/Dedup.antt =====
-- The cancellations and skipped stops that aggregateHistorySample counts: the trips that a sample
-- counts are those of the feed that no earlier sample has counted.
use typescript_starter.Common.{
  ℕ, String, List, [], ◌∷◌, ◌++◌, map, Bool, true, false, ◌≡◌, refl, sym, ap, ◌∙◌, arith, inl, inr,
  Bool-cases, contains, length, sum_of, bit, keep, eq_iff,
}
use mathlib.Core.List.{append_assoc, append-nil}
use typescript_starter.Common.Dict.{total}
use typescript_starter.History.Feed.{TripUpdate}
use typescript_starter.History.Aggregate.Conservation.{aggregate-total}
use typescript_starter.History.Aggregate.Totals.{cancelled-IsCounter, skipped-IsCounter}
use typescript_starter.History.Aggregate.{
  SampleInput, TripLoop, is_new_cancellation, is_new_skip, trip_step, trip_loop,
  aggregate_history_sample,
}

abbrev pub trip_ids : (TripUpdate → Bool) → List TripUpdate → List String
trip_ids test tus = map (λ (tu : TripUpdate). tu.trip_id) (keep test tus)

length-trip_ids :
    (test : TripUpdate → Bool) (tus : List TripUpdate)
    → length (trip_ids test tus) ≡ sum_of (λ tu. bit (test tu)) tus
length-trip_ids test [] = refl
length-trip_ids test (tu ∷ tus) = ground (arith, length-trip_ids test tus)

module _ (input : SampleInput) (peak : Bool) where
  newly_cancelled-trip_loop :
      (s : TripLoop) (tus : List TripUpdate)
      → (trip_loop input peak s tus).newly_cancelled
        ≡ s.newly_cancelled ++ trip_ids (is_new_cancellation input) tus
  unfolding trip_loop trip_step
  newly_cancelled-trip_loop s [] = sym (append-nil _)
  newly_cancelled-trip_loop s (tu ∷ tus) = elim (Bool-cases (is_new_cancellation input tu)) [
    | inl new ↦
        newly_cancelled-trip_loop (trip_step input peak s tu) tus
        ∙ rw new (append_assoc s.newly_cancelled _ _)
    | inr old ↦ newly_cancelled-trip_loop (trip_step input peak s tu) tus ∙ rw old
  ]

  newly_skipped-trip_loop :
      (s : TripLoop) (tus : List TripUpdate)
      → (trip_loop input peak s tus).newly_skipped
        ≡ s.newly_skipped ++ trip_ids (is_new_skip input) tus
  unfolding trip_loop trip_step
  newly_skipped-trip_loop s [] = sym (append-nil _)
  newly_skipped-trip_loop s (tu ∷ tus) = elim (Bool-cases (is_new_skip input tu)) [
    | inl new ↦
        newly_skipped-trip_loop (trip_step input peak s tu) tus
        ∙ rw new (append_assoc s.newly_skipped _ _)
    | inr old ↦ newly_skipped-trip_loop (trip_step input peak s tu) tus ∙ rw old
  ]

module _ (intl_hour : ℕ → ℕ) (input : SampleInput) where
  newly_counted :
      ((aggregate_history_sample intl_hour input).newly_cancelled
        ≡ trip_ids (is_new_cancellation input) input.trip_updates)
      × ((aggregate_history_sample intl_hour input).newly_skipped
          ≡ trip_ids (is_new_skip input) input.trip_updates)
  unfolding aggregate_history_sample
  newly_counted = (
    newly_cancelled-trip_loop input _ _ input.trip_updates,
    newly_skipped-trip_loop input _ _ input.trip_updates,
  )

  -- The sum of the cancelled trips over the lines is the number of newly counted trip ids, and so
  -- is the sum of the skipped trips.
  pub aggregate_counts_new_trips :
      (total (λ e. e.cancelled_trips) (aggregate_history_sample intl_hour input).by_line
        ≡ length (aggregate_history_sample intl_hour input).newly_cancelled)
      × (total (λ e. e.skipped_trips) (aggregate_history_sample intl_hour input).by_line
          ≡ length (aggregate_history_sample intl_hour input).newly_skipped)
  aggregate_counts_new_trips =
      let (cancelled, skipped) = newly_counted in
      (
        omega (
          arith,
          aggregate-total intl_hour input (cancelled-IsCounter input _),
          ap length cancelled,
          length-trip_ids (is_new_cancellation input) input.trip_updates,
        ),
        omega (
          arith,
          aggregate-total intl_hour input (skipped-IsCounter input _),
          ap length skipped,
          length-trip_ids (is_new_skip input) input.trip_updates,
        ),
      )

new_trips_are_new :
    (test : TripUpdate → Bool) (seen : List String)
    → ((tu : TripUpdate) → test tu ≡ true → contains tu.trip_id seen ≡ false)
    → (trip : String) (tus : List TripUpdate) → contains trip seen ≡ true
    → contains trip (trip_ids test tus) ≡ false
new_trips_are_new test seen fresh trip [] h = refl
new_trips_are_new test seen fresh trip (tu ∷ tus) h = ground (
  arith,
  new_trips_are_new test seen fresh trip tus h,
  fresh tu,
  eq_iff tu.trip_id trip,
  ap (λ t. contains t seen) ((eq_iff tu.trip_id trip).0 _),
)

new_cancellation-unseen :
    (input : SampleInput) (tu : TripUpdate)
    → is_new_cancellation input tu ≡ true
    → contains tu.trip_id input.already_counted_cancelled ≡ false
new_cancellation-unseen input tu h = ground arith

new_skip-unseen :
    (input : SampleInput) (tu : TripUpdate)
    → is_new_skip input tu ≡ true
    → contains tu.trip_id input.already_counted_skipped ≡ false
new_skip-unseen input tu h = ground arith

-- A trip that an earlier sample counted is not counted again.
pub newly_counted-fresh :
    (intl_hour : ℕ → ℕ) (input : SampleInput) (trip : String)
    → (contains trip input.already_counted_cancelled ≡ true
        → contains trip (aggregate_history_sample intl_hour input).newly_cancelled ≡ false)
      × (contains trip input.already_counted_skipped ≡ true
          → contains trip (aggregate_history_sample intl_hour input).newly_skipped ≡ false)
newly_counted-fresh intl_hour input trip =
    let (cancelled, skipped) = newly_counted intl_hour input in
    (
      λ h. rw cancelled (
          new_trips_are_new (is_new_cancellation input) input.already_counted_cancelled
            (new_cancellation-unseen input) trip input.trip_updates h),
      λ h. rw skipped (
          new_trips_are_new (is_new_skip input) input.already_counted_skipped
            (new_skip-unseen input) trip input.trip_updates h),
    )
