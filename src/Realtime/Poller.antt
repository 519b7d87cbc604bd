-- ===== src/Realtime/Poller.antt =====
-- realtime/realtime-poller.service.ts: the trips that subscribers follow, and which of them the timer
-- polls. What a poll fetches and publishes is not modelled here.

use typescript_starter.Common.{
  ℕ, suc, ◌+◌, ◌-◌, ◌≤◌, String, Option, none, some, List, [], ◌∷◌, Bool, true, false, ◌≡◌, refl,
  inl, inr, ltb, lt→ltb, str_eq, eq_iff, eq_refl, ◌∙◌, is_some, contains, if◌then◌else◌, Bool-cases,
  Option-cases, arith,
}
use typescript_starter.Common.Dict.{Dict, lookup, insert, remove, lookup-insert, lookup-remove}

pub record Subscription : Type 0 where
  pub count : ℕ
  pub mode : Option String

abbrev first : Option String → Option String → Option String
first none b = b
first (some a) b = some a

-- The second part says whether the trip is polled at once.
unfoldable pub add_trip : String → Option String → Dict Subscription → Dict Subscription × Bool
unfolding lookup insert
add_trip trip_id mode trips = elim (lookup trip_id trips) [
  | some existing ↦ (
    insert trip_id (record { count = existing.count + 1; mode = first mode existing.mode }) trips,
    false,
  )
  | none ↦ (insert trip_id (record { count = 1; mode = mode }) trips, true)
]

unfoldable pub remove_trip : String → Dict Subscription → Dict Subscription
unfolding lookup insert remove
remove_trip trip_id trips = elim (lookup trip_id trips) [
  | some existing ↦
      if ltb 1 existing.count
      then insert trip_id (record { count = existing.count - 1; mode = existing.mode }) trips
      else remove trip_id trips
  | none ↦ remove trip_id trips
]

-- The trips that pollActiveTrips polls.
unfoldable pub polled_trips : Dict Subscription → List String
polled_trips [] = []
polled_trips ((trip_id, s) ∷ rest) = trip_id ∷ polled_trips rest

pub data Event : Type 0 where
  subscribed : String → Option String → Event
  unsubscribed : String → Event

unfoldable pub run : List Event → Dict Subscription → Dict Subscription
unfolding add_trip remove_trip
run [] trips = trips
run (subscribed trip_id mode ∷ rest) trips = run rest (add_trip trip_id mode trips).0
run (unsubscribed trip_id ∷ rest) trips = run rest (remove_trip trip_id trips)

-- How many subscribers a trip has after the events: an end without a beginning is ignored.
unfoldable pub subscribers : String → List Event → ℕ → ℕ
subscribers trip_id [] n = n
subscribers trip_id (subscribed t mode ∷ rest) n =
    subscribers trip_id rest (if str_eq t trip_id then suc n else n)
subscribers trip_id (unsubscribed t ∷ rest) n =
    subscribers trip_id rest (if str_eq t trip_id then n - 1 else n)

abbrev Tracks : Option Subscription → ℕ → Type 0
Tracks none n = n ≡ 0
Tracks (some s) n = (s.count ≡ n) × (1 ≤ n)

module _ (trip : String) (trips : Dict Subscription) (n : ℕ)
    (h : Tracks (lookup trip trips) n) where
  add_trip-Tracks_own :
      (mode : Option String) → Tracks (lookup trip (add_trip trip mode trips).0) (suc n)
  unfolding add_trip
  add_trip-Tracks_own mode = elim (Option-cases (lookup trip trips)) [
    | inl fresh ↦
        let start : n ≡ 0 = rw fresh at h in
        rw
          (
            fresh,
            add_trip,
            lookup-insert trip trip (record { count = 1; mode = mode }) trips,
            eq_refl trip,
          )
          (omega (arith, start), omega arith)
    | inr (s, old) ↦
        let counted : (s.count ≡ n) × (1 ≤ n) = rw old at h in
        let next : Subscription = record { count = s.count + 1; mode = first mode s.mode } in
        rw (old, add_trip, lookup-insert trip trip next trips, eq_refl trip)
          (omega (arith, counted.0), omega arith)
  ]

  remove_trip-Tracks_own : Tracks (lookup trip (remove_trip trip trips)) (n - 1)
  unfolding remove_trip
  remove_trip-Tracks_own = elim (Option-cases (lookup trip trips)) [
    | inl absent ↦
        let start : n ≡ 0 = rw absent at h in
        rw (absent, remove_trip, lookup-remove trip trip trips, eq_refl trip) (omega (arith, start))
    | inr (s, old) ↦
        let counted : (s.count ≡ n) × (1 ≤ n) = rw old at h in
        elim (Bool-cases (ltb 1 s.count)) [
          | inl more ↦
              let next : Subscription = record { count = s.count - 1; mode = s.mode } in
              rw (old, more, remove_trip, lookup-insert trip trip next trips, eq_refl trip)
                (omega (arith, counted.0), ground (arith, more, counted.0))
          | inr last ↦
              rw (old, last, remove_trip, lookup-remove trip trip trips, eq_refl trip)
                (ground (arith, last, counted.0))
        ]
  ]

  module _ (t : String) (other : str_eq t trip ≡ false) where
    add_trip-Tracks_other :
        (mode : Option String) → Tracks (lookup trip (add_trip t mode trips).0) n
    unfolding add_trip
    add_trip-Tracks_other mode = elim (Option-cases (lookup t trips)) [
      | inl fresh ↦
          rw
            (fresh, add_trip, lookup-insert t trip (record { count = 1; mode = mode }) trips, other)
            h
      | inr (s, old) ↦
          let next : Subscription = record { count = s.count + 1; mode = first mode s.mode } in
          rw (old, add_trip, lookup-insert t trip next trips, other) h
    ]

    remove_trip-Tracks_other : Tracks (lookup trip (remove_trip t trips)) n
    unfolding remove_trip
    remove_trip-Tracks_other = elim (Option-cases (lookup t trips)) [
      | inl absent ↦ rw (absent, remove_trip, lookup-remove t trip trips, other) h
      | inr (s, old) ↦ elim (Bool-cases (ltb 1 s.count)) [
        | inl more ↦
            let next : Subscription = record { count = s.count - 1; mode = s.mode } in
            rw (old, more, remove_trip, lookup-insert t trip next trips, other) h
        | inr last ↦ rw (old, last, remove_trip, lookup-remove t trip trips, other) h
      ]
    ]

run-Tracks :
    (trip : String) (events : List Event) (trips : Dict Subscription) (n : ℕ)
    → Tracks (lookup trip trips) n
    → Tracks (lookup trip (run events trips)) (subscribers trip events n)
unfolding run subscribers
run-Tracks trip [] trips n h = h
run-Tracks trip (subscribed t mode ∷ rest) trips n h =
    run-Tracks trip rest (add_trip t mode trips).0 (if str_eq t trip then suc n else n)
      (elim (Bool-cases (str_eq t trip)) [
        | inl same ↦
            rw ((eq_iff t trip).0 same, eq_refl trip) (add_trip-Tracks_own trip trips n h mode)
        | inr other ↦ rw other (add_trip-Tracks_other trip trips n h t other mode)
      ])
run-Tracks trip (unsubscribed t ∷ rest) trips n h =
    run-Tracks trip rest (remove_trip t trips) (if str_eq t trip then n - 1 else n)
      (elim (Bool-cases (str_eq t trip)) [
        | inl same ↦
            rw ((eq_iff t trip).0 same, eq_refl trip) (remove_trip-Tracks_own trip trips n h)
        | inr other ↦ rw other (remove_trip-Tracks_other trip trips n h t other)
      ])

contains-polled_trips :
    (trip : String) (trips : Dict Subscription)
    → contains trip (polled_trips trips) ≡ is_some (lookup trip trips)
unfolding polled_trips lookup
contains-polled_trips trip [] = refl
contains-polled_trips trip ((t, s) ∷ rest) =
    ground (arith, contains-polled_trips trip rest, eq_iff t trip)

-- From the start of the service, after any subscriptions and ends of subscriptions, the timer polls a
-- trip exactly while it has a subscriber: the beginnings outnumber the ends since the last time that
-- there was none.
pub polled_trips-run :
    (trip : String) (events : List Event)
    → contains trip (polled_trips (run events [])) ≡ ltb 0 (subscribers trip events 0)
unfolding lookup
polled_trips-run trip events =
    let tracked = run-Tracks trip events [] 0 refl in
    contains-polled_trips trip (run events []) ∙ elim (Option-cases (lookup trip (run events []))) [
      | inl absent ↦
          let nobody : subscribers trip events 0 ≡ 0 = rw absent at tracked in
          rw (absent, nobody) refl
      | inr (s, there) ↦
          let counted : (s.count ≡ subscribers trip events 0) × (1 ≤ subscribers trip events 0) =
            rw there at tracked in
          rw (there, lt→ltb 0 (subscribers trip events 0) counted.1) refl
    ]
