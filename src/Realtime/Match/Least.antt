-- ===== src/Realtime/Match/Least.antt =====
-- findRealtimeMatch, realtime/realtime.service.ts, against what it looks for: the item of the least
-- tier, the first one among equals.

use typescript_starter.Common.{
  ℕ, ◌≤◌, ◌<◌, String, Option, none, some, List, [], Bool, true, false, ◌≡◌, refl, ◌∙◌, inl, inr,
  Option-cases, any, contains, arith,
}
use typescript_starter.Realtime.Match.{
  Entity, Reference, tier_of, id_tier, schedule_tier, exact_ids, max_safe_integer,
  find_realtime_match,
}
use typescript_starter.Realtime.Match.Loop.{Least, Seen.none_yet, scan-Least, Least-first}

id_tier-bounds :
    (ids : List String) (o : Option String) (t : ℕ) → id_tier ids o ≡ some t → (1 ≤ t) × (t < 3)
unfolding id_tier
id_tier-bounds ids o t h = ground (arith, h)

schedule_tier-bounds :
    (parse_date : String → Option ℕ) (reference : Reference) (item : Entity) (t : ℕ)
    → schedule_tier parse_date reference item ≡ some t
    → (3 ≤ t) × (t < 5)
unfolding schedule_tier
schedule_tier-bounds parse_date reference item t h = ground (arith, h)

tier_of-bounds :
    (parse_date : String → Option ℕ) (trip_id : String) (reference : Reference) (item : Entity)
    (t : ℕ)
    → tier_of parse_date trip_id reference item ≡ some t
    → (1 ≤ t) × (t < 5)
unfolding tier_of
tier_of-bounds parse_date trip_id reference item t h =
    elim (Option-cases (id_tier (exact_ids trip_id reference.scheduled_trip_id) item.trip_id)) [
      | inl e ↦
          let b = schedule_tier-bounds parse_date reference item t (rw (e, tier_of) at h) in
          (omega (arith, b.0), b.1)
      | inr (u, e) ↦
          let b = id_tier-bounds (exact_ids trip_id reference.scheduled_trip_id) item.trip_id u e in
          let same : some u ≡ some t = rw (e, tier_of) at h in ground (arith, same, b.0, b.1)
    ]

abbrev pub has_exact_id : String → Reference → Entity → Bool
has_exact_id trip_id reference item = elim item.trip_id [
  | none ↦ false
  | some id ↦ contains id (exact_ids trip_id reference.scheduled_trip_id)
]

tier_of-exact :
    (parse_date : String → Option ℕ) (trip_id : String) (reference : Reference) (item : Entity)
    → has_exact_id trip_id reference item ≡ true
    → tier_of parse_date trip_id reference item ≡ some 1
unfolding tier_of id_tier
tier_of-exact parse_date trip_id reference item h = rw (h, id_tier, tier_of) refl

id_tier-only_exact :
    (ids : List String) (o : Option String)
    → id_tier ids o ≡ some 1
    → (elim o [ none ↦ false | some id ↦ contains id ids ]) ≡ true
unfolding id_tier
id_tier-only_exact ids o h = ground (arith, h)

tier_of-only_exact :
    (parse_date : String → Option ℕ) (trip_id : String) (reference : Reference) (item : Entity)
    → tier_of parse_date trip_id reference item ≡ some 1
    → has_exact_id trip_id reference item ≡ true
unfolding tier_of
tier_of-only_exact parse_date trip_id reference item h =
    let ids = exact_ids trip_id reference.scheduled_trip_id in
    elim (Option-cases (id_tier ids item.trip_id)) [
      | inl e ↦
          let b = schedule_tier-bounds parse_date reference item 1 (rw (e, tier_of) at h) in
          absurd (omega (arith, b.0))
      | inr (u, e) ↦
          let same : some u ≡ some 1 = rw (e, tier_of) at h in
          id_tier-only_exact ids item.trip_id (e ∙ same)
    ]

module _ {T : Type 0} (parse_date : String → Option ℕ) (entity : T → Entity) where
  -- Of the entities of a feed findRealtimeMatch returns one of the least tier, the first one where
  -- several share it, and none exactly where no entity has a tier.
  pub find_realtime_match-Least :
      (items : List T) (trip_id : String) (reference : Reference)
      → Least
          (λ item. tier_of parse_date trip_id reference (entity item))
          items
          (find_realtime_match parse_date entity items trip_id reference)
  unfolding find_realtime_match
  find_realtime_match-Least items trip_id reference =
      let tier = λ (item : T). tier_of parse_date trip_id reference (entity item) in
      scan-Least tier
        (λ x t h.
          let b = tier_of-bounds parse_date trip_id reference (entity x) t h in
          (b.0, omega (arith, b.1)))
        items [] none max_safe_integer (none_yet tt)

  -- Where an entity of the feed carries the trip id that is asked for, or the scheduled id of the
  -- reference, as it stands, findRealtimeMatch returns one that does.
  pub find_realtime_match-exact :
      (items : List T) (trip_id : String) (reference : Reference)
      → any (λ item. has_exact_id trip_id reference (entity item)) items ≡ true
      → (x : T) × (find_realtime_match parse_date entity items trip_id reference ≡ some x)
        × (has_exact_id trip_id reference (entity x) ≡ true)
  find_realtime_match-exact items trip_id reference h =
      Least-first (λ item. tier_of parse_date trip_id reference (entity item))
        (λ item. has_exact_id trip_id reference (entity item)) items
        (find_realtime_match parse_date entity items trip_id reference)
        (λ x t e.
          let b = tier_of-bounds parse_date trip_id reference (entity x) t e in
          (b.0, omega (arith, b.1)))
        (λ x. (
          tier_of-exact parse_date trip_id reference (entity x),
          tier_of-only_exact parse_date trip_id reference (entity x),
        ))
        h (find_realtime_match-Least items trip_id reference)
