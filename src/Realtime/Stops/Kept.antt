-- ===== src/Realtime/Stops/Kept.antt =====
-- What the stops of a tracked trip are, enrichStopTimeUpdates of realtime/realtime.service.ts: the
-- whole schedule in order, with what the feed says of each stop, and the other live updates.

use typescript_starter.Common.{
  ℕ, ◌+◌, ◌≤◌, String, Option, none, some, List, [], ◌∷◌, ◌++◌, Bool, true, ◌≡◌, refl, ap, ◌∙◌, inl,
  inr, bit, leb, ◌==◌, or_else, not, any, ◌>>=◌, str_eq, if◌then◌else◌, false, ◌⊎◌, keep, map,
  count_if, All, Bool-cases, Option-cases, arith,
}
use typescript_starter.History.LineIdentity.{truthy}
use typescript_starter.Realtime.Stops.{
  StaticStop, LiveStop, is_at, live_at, insert_stop, sort_stops, enrich_stop,
  enrich_stop_time_updates,
}

-- No stop has a greater sequence number than one behind it.
abbrev pub IsOrdered : {A : Type 0} → (A → ℕ) → List A → Type 0
IsOrdered f [] = Unit
IsOrdered f (x ∷ xs) = All (λ y. f x ≤ f y) xs × IsOrdered f xs

All-insert_stop :
    (P : StaticStop → Type 0) (s : StaticStop) (xs : List StaticStop)
    → P s
    → All P xs
    → All P (insert_stop s xs)
unfolding insert_stop
All-insert_stop P s [] p h = (p, tt)
All-insert_stop P s (t ∷ rest) p (q, h) = elim (Bool-cases (leb s.stop_sequence t.stop_sequence)) [
  | inl le ↦ rw le (p, (q, h))
  | inr gt ↦ rw gt (q, All-insert_stop P s rest p h)
]

All-after :
    (n m : ℕ) (xs : List StaticStop)
    → n ≤ m
    → All (λ y. m ≤ y.stop_sequence) xs
    → All (λ y. n ≤ y.stop_sequence) xs
All-after n m [] le h = tt
All-after n m (x ∷ xs) le (p, h) = (omega (arith, le, p), All-after n m xs le h)

insert_stop-IsOrdered :
    (s : StaticStop) (xs : List StaticStop)
    → IsOrdered (λ y. y.stop_sequence) xs
    → IsOrdered (λ y. y.stop_sequence) (insert_stop s xs)
unfolding insert_stop
insert_stop-IsOrdered s [] h = (tt, tt)
insert_stop-IsOrdered s (t ∷ rest) (front, h) =
    elim (Bool-cases (leb s.stop_sequence t.stop_sequence)) [
      | inl le ↦
          let low : s.stop_sequence ≤ t.stop_sequence = ground (arith, le) in
          rw le ((low, All-after s.stop_sequence t.stop_sequence rest low front), (front, h))
      | inr gt ↦ rw gt (
        All-insert_stop (λ y. t.stop_sequence ≤ y.stop_sequence) s rest (ground (arith, gt)) front,
        insert_stop-IsOrdered s rest h,
      )
    ]

sort_stops-IsOrdered : (xs : List StaticStop) → IsOrdered (λ y. y.stop_sequence) (sort_stops xs)
unfolding sort_stops
sort_stops-IsOrdered [] = tt
sort_stops-IsOrdered (s ∷ rest) =
    insert_stop-IsOrdered s (sort_stops rest) (sort_stops-IsOrdered rest)

count_if-insert_stop :
    (p : StaticStop → Bool) (s : StaticStop) (xs : List StaticStop)
    → count_if p (insert_stop s xs) ≡ bit (p s) + count_if p xs
unfolding insert_stop
count_if-insert_stop p s [] = omega arith
count_if-insert_stop p s (t ∷ rest) = elim (Bool-cases (leb s.stop_sequence t.stop_sequence)) [
  | inl le ↦ rw le (omega arith)
  | inr gt ↦ rw gt (omega (arith, count_if-insert_stop p s rest))
]

count_if-sort_stops :
    (p : StaticStop → Bool) (xs : List StaticStop) → count_if p (sort_stops xs) ≡ count_if p xs
unfolding sort_stops
count_if-sort_stops p [] = refl
count_if-sort_stops p (s ∷ rest) =
    omega (arith, count_if-insert_stop p s (sort_stops rest), count_if-sort_stops p rest)

is_at-sequence : (n : ℕ) (u : LiveStop) → is_at n u ≡ true → u.stop_sequence ≡ some n
is_at-sequence n u h = elim (Option-cases u.stop_sequence) [
  | inl absent ↦ ground (arith, h, absent)
  | inr (m, e) ↦ e ∙ ap some (let same : (m == n) ≡ true = rw e at h in ground (arith, same))
]

-- The update is the last of the list with the sequence number.
pub record IsLast (n : ℕ) (u : LiveStop) (live : List LiveStop) : Type 0 where
  pub before : List LiveStop
  pub after : List LiveStop
  pub place : live ≡ before ++ u ∷ after
  pub number : u.stop_sequence ≡ some n
  pub no_later : any (is_at n) after ≡ false

live_at-cases :
    (n : ℕ) (live : List LiveStop)
    → ((live_at n live ≡ none) × (any (is_at n) live ≡ false))
      ⊎ ((u : LiveStop) × (live_at n live ≡ some u) × IsLast n u live)
unfolding live_at
live_at-cases n [] = inl (refl, refl)
live_at-cases n (v ∷ rest) = elim (live_at-cases n rest) [
  | inr (u, found, last) ↦ inr (
    u,
    rw found refl,
    record {
      before = v ∷ last.before;
      after = last.after;
      place = ap (λ us. v ∷ us) last.place;
      number = last.number;
      no_later = last.no_later;
    },
  )
  | inl (absent, nowhere) ↦ elim (Bool-cases (is_at n v)) [
    | inl at ↦ inr (
      v,
      rw (absent, at) refl,
      record {
        before = [];
        after = rest;
        place = refl;
        number = is_at-sequence n v at;
        no_later = nowhere;
      },
    )
    | inr off ↦ inl (rw (absent, off) refl, rw off nowhere)
  ]
]

abbrev scheduled_time : (String → String → Option ℕ) → String → Option String → Option ℕ
scheduled_time epoch date none = none
scheduled_time epoch date (some time) = if str_eq time "" then none else epoch date time

-- What a stop of the schedule becomes: the last live update of it with the two facts that the
-- schedule adds, or, where there is none, the stop as it is scheduled.
abbrev pub Planned :
    (String → String → Option ℕ) → String → List LiveStop → StaticStop → LiveStop → Type 0
Planned epoch date live s y =
    ((any (is_at s.stop_sequence) live ≡ false)
      × (y ≡ record {
        stop_sequence = some s.stop_sequence;
        stop_id = some s.stop_id;
        arrival_delay = none;
        arrival_uncertainty = none;
        departure_delay = none;
        departure_uncertainty = none;
        arrival_time = scheduled_time epoch date s.arrival_time;
        departure_time = scheduled_time epoch date s.departure_time;
        schedule_relationship = some "SCHEDULED";
        departure_occupancy_status = none;
        pickup_type = s.pickup_type;
        drop_off_type = s.drop_off_type;
      }))
    ⊎ ((u : LiveStop) × IsLast s.stop_sequence u live
        × (y ≡ record u { pickup_type = s.pickup_type; drop_off_type = s.drop_off_type }))

-- The two lists are of the same length, and related place by place.
pub data Pairwise {A B : Type 0} (R : A → B → Type 0) : List A → List B → Type 0 where
  none_left : Pairwise R [] []
  and_then :
      (x : A) (y : B) (xs : List A) (ys : List B)
      → R x y
      → Pairwise R xs ys
      → Pairwise R (x ∷ xs) (y ∷ ys)

module _ (epoch : String → String → Option ℕ) (date : String) (live : List LiveStop) where
  scheduled_time-truthy :
      (time : Option String)
      → (truthy time >>= λ given. epoch date given) ≡ scheduled_time epoch date time
  scheduled_time-truthy none = refl
  scheduled_time-truthy (some time) = elim (Bool-cases (str_eq time "")) [
    | inl empty ↦ rw empty refl
    | inr given ↦ rw given refl
  ]

  enrich_stop-Planned : (s : StaticStop) → Planned epoch date live s (enrich_stop epoch date live s)
  unfolding enrich_stop
  enrich_stop-Planned s = elim (live_at-cases s.stop_sequence live) [
    | inl (absent, nowhere) ↦ inl (
      nowhere,
      rw
          (
            absent,
            enrich_stop,
            scheduled_time-truthy s.arrival_time,
            scheduled_time-truthy s.departure_time,
          )
          refl,
    )
    | inr (u, found, last) ↦ inr (u, last, rw (found, enrich_stop) refl)
  ]

  enriched-Planned :
      (xs : List StaticStop)
      → Pairwise (Planned epoch date live) xs (map (enrich_stop epoch date live) xs)
  enriched-Planned [] = none_left
  enriched-Planned (x ∷ xs) = and_then x _ xs _ (enrich_stop-Planned x) (enriched-Planned xs)

-- The stops of the schedule in order, each as often as it stands in the schedule, and behind them,
-- in their order, the live updates of stops that the schedule does not have.
pub record Itinerary (epoch : String → String → Option ℕ) (date : String) (stops : List StaticStop)
    (live out : List LiveStop) : Type 0 where
  pub plan : List StaticStop
  pub scheduled : List LiveStop
  pub parts :
      out
      ≡ scheduled
        ++ keep
            (λ (u : LiveStop). elim u.stop_sequence [
              | none ↦ true
              | some n ↦ not (any (λ (s : StaticStop). s.stop_sequence == n) stops)
            ])
            live
  pub ordered : IsOrdered (λ (s : StaticStop). s.stop_sequence) plan
  pub complete : (p : StaticStop → Bool) → count_if p plan ≡ count_if p stops
  pub planned : Pairwise (Planned epoch date live) plan scheduled

-- Where the trip has a schedule, the result of enrichStopTimeUpdates is first the schedule, in order
-- of its sequence numbers and every stop of it as often as it stands there: a stop with live updates
-- is the last of them, with the pickup and drop-off types of the schedule, and any other stop is as
-- scheduled, with its times of the start date, or of today where there is none. Behind it come, in
-- their order, exactly the live updates whose stops are not in the schedule.
pub enrich_stop_time_updates-Itinerary :
    (epoch : String → String → Option ℕ) (today : String) (start_date : Option String)
    (s : StaticStop) (stops : List StaticStop) (live : List LiveStop)
    → Itinerary epoch
        (or_else start_date today)
        (s ∷ stops)
        live
        (enrich_stop_time_updates epoch today start_date (some (s ∷ stops)) live)
unfolding enrich_stop_time_updates
enrich_stop_time_updates-Itinerary epoch today start_date s stops live =
    let date = or_else start_date today in
    record {
      plan = sort_stops (s ∷ stops);
      scheduled = map (enrich_stop epoch date live) (sort_stops (s ∷ stops));
      parts = refl;
      ordered = sort_stops-IsOrdered (s ∷ stops);
      complete = λ p. count_if-sort_stops p (s ∷ stops);
      planned = enriched-Planned epoch date live (sort_stops (s ∷ stops));
    }
