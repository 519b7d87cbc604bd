-- ===== src/Realtime/Stops/Live.antt =====
-- enrichStopTimeUpdates of realtime/realtime.service.ts keeps what the live feed says.

use typescript_starter.Common.{
  ℕ, String, Option, none, some, List, [], ◌∷◌, ◌++◌, Bool, true, false, ◌≡◌, refl, inl, inr, leb,
  ◌==◌, or_else, any, keep, map, Bool-cases, Option-cases, arith,
}
use typescript_starter.Realtime.Stops.{
  StaticStop, LiveStop, is_at, live_at, has_stop, insert_stop, sort_stops, is_extra, enrich_stop,
  enrich_stop_time_updates,
}

pub data In {A : Type 0} (x : A) : List A → Type 0 where
  here : (xs : List A) → In x (x ∷ xs)
  there : (y : A) (xs : List A) → In x xs → In x (y ∷ xs)

module _ {A : Type 0} where
  In-append : (x : A) (ys xs : List A) → In x xs → In x (ys ++ xs)
  In-append x [] xs h = h
  In-append x (y ∷ ys) xs h = there y (ys ++ xs) (In-append x ys xs h)

  In-append_left : (x : A) (xs ys : List A) → In x xs → In x (xs ++ ys)
  In-append_left x _ ys (here xs) = here (xs ++ ys)
  In-append_left x _ ys (there y xs h) = there y (xs ++ ys) (In-append_left x xs ys h)

  In-keep : (p : A → Bool) (x : A) (xs : List A) → p x ≡ true → In x xs → In x (keep p xs)
  In-keep p x _ h (here xs) = rw h (here (keep p xs))
  In-keep p x _ h (there y xs k) = elim (Bool-cases (p y)) [
    | inl yes_there ↦ rw yes_there (there y (keep p xs) (In-keep p x xs h k))
    | inr other ↦ rw other (In-keep p x xs h k)
  ]

  any-In : (p : A → Bool) (xs : List A) → any p xs ≡ true → (x : A) × In x xs × (p x ≡ true)
  any-In p [] h = ground (arith, h)
  any-In p (x ∷ xs) h = elim (Bool-cases (p x)) [
    | inl yes_there ↦ (x, here xs, yes_there)
    | inr other ↦ let (y, k, py) = any-In p xs (rw other at h) in (y, there x xs k, py)
  ]

In-map : {A B : Type 0} (f : A → B) (x : A) (xs : List A) → In x xs → In (f x) (map f xs)
In-map f x _ (here xs) = here (map f xs)
In-map f x _ (there y xs h) = there (f y) (map f xs) (In-map f x xs h)

insert_stop-In : (s : StaticStop) (xs : List StaticStop) → In s (insert_stop s xs)
unfolding insert_stop
insert_stop-In s [] = here []
insert_stop-In s (t ∷ rest) = elim (Bool-cases (leb s.stop_sequence t.stop_sequence)) [
  | inl le ↦ rw le (here (t ∷ rest))
  | inr gt ↦ rw gt (there t (insert_stop s rest) (insert_stop-In s rest))
]

In-insert_stop : (x s : StaticStop) (xs : List StaticStop) → In x xs → In x (insert_stop s xs)
unfolding insert_stop
In-insert_stop x s _ (here xs) = elim (Bool-cases (leb s.stop_sequence x.stop_sequence)) [
  | inl le ↦ rw le (there s (x ∷ xs) (here xs))
  | inr gt ↦ rw gt (here (insert_stop s xs))
]
In-insert_stop x s _ (there t xs h) = elim (Bool-cases (leb s.stop_sequence t.stop_sequence)) [
  | inl le ↦ rw le (there s (t ∷ xs) (there t xs h))
  | inr gt ↦ rw gt (there t (insert_stop s xs) (In-insert_stop x s xs h))
]

In-sort_stops : (x : StaticStop) (xs : List StaticStop) → In x xs → In x (sort_stops xs)
unfolding sort_stops
In-sort_stops x _ (here xs) = insert_stop-In x (sort_stops xs)
In-sort_stops x _ (there y xs h) = In-insert_stop x y (sort_stops xs) (In-sort_stops x xs h)

-- A later update is of the same stop.
abbrev pub is_replaced_by : LiveStop → LiveStop → Bool
is_replaced_by u v = elim u.stop_sequence [ none ↦ false | some n ↦ is_at n v ]

live_at-absent :
    (n : ℕ) (after : List LiveStop) → any (is_at n) after ≡ false → live_at n after ≡ none
unfolding live_at
live_at-absent n [] h = refl
live_at-absent n (v ∷ after) h =
    rw (live_at-absent n after (ground (arith, h)), live_at) (ground (arith, h))

live_at-last :
    (n : ℕ) (u : LiveStop) (before after : List LiveStop)
    → is_at n u ≡ true
    → any (is_at n) after ≡ false
    → live_at n (before ++ u ∷ after) ≡ some u
unfolding live_at
live_at-last n u [] after at h = rw (live_at-absent n after h, at, live_at) refl
live_at-last n u (v ∷ before) after at h = rw (live_at-last n u before after at h, live_at) refl

-- What the feed says of a stop: all but the two facts that the schedule adds.
abbrev pub live_part : LiveStop → LiveStop
live_part u = record u { pickup_type = none; drop_off_type = none }

-- Whether or not the trip has a schedule, enrichStopTimeUpdates keeps what a live update says, with a
-- change in its pickup and drop-off types at most, unless a later update is of the same stop.
pub enrich_stop_time_updates-keeps :
    (epoch : String → String → Option ℕ) (today : String) (start_date : Option String)
    (stops : Option (List StaticStop)) (before : List LiveStop) (u : LiveStop)
    (after : List LiveStop)
    → any (is_replaced_by u) after ≡ false
    → (x : LiveStop) × In x
        (enrich_stop_time_updates epoch today start_date stops (before ++ u ∷ after))
      × (live_part x ≡ live_part u)
unfolding enrich_stop_time_updates
enrich_stop_time_updates-keeps epoch today start_date none before u after h =
    (u, In-append u before (u ∷ after) (here after), refl)
enrich_stop_time_updates-keeps epoch today start_date (some []) before u after h =
    (u, In-append u before (u ∷ after) (here after), refl)
enrich_stop_time_updates-keeps epoch today start_date (some (s ∷ stops)) before u after h =
    let live = before ++ u ∷ after in
    let date = or_else start_date today in
    let first = map (enrich_stop epoch date live) (sort_stops (s ∷ stops)) in
    let extra = λ (e : is_extra (s ∷ stops) u ≡ true).
      In-append u first (keep (is_extra (s ∷ stops)) live)
        (In-keep (is_extra (s ∷ stops)) u live e (In-append u before (u ∷ after) (here after))) in
    elim (Option-cases u.stop_sequence) [
      | inl absent ↦ (u, extra (rw absent refl), refl)
      | inr (n, at) ↦ elim (Bool-cases (has_stop n (s ∷ stops))) [
        | inr off ↦ (u, extra (rw (at, off) refl), refl)
        | inl on ↦
            let (t, t_in, t_at) = any-In (λ y. y.stop_sequence == n) (s ∷ stops) on in
            let same : t.stop_sequence ≡ n = ground (arith, t_at) in
            let found : live_at t.stop_sequence live ≡ some u =
              rw same (live_at-last n u before after (rw at (ground arith)) (rw at at h)) in
            (
              enrich_stop epoch date live t,
              In-append_left (enrich_stop epoch date live t) first
                  (keep (is_extra (s ∷ stops)) live)
                  (In-map (enrich_stop epoch date live) t (sort_stops (s ∷ stops))
                    (In-sort_stops t (s ∷ stops) t_in)),
              rw (found, enrich_stop) refl,
            )
      ]
    ]
