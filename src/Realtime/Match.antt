-- ===== src/Realtime/Match.antt =====
-- realtime/realtime.service.ts, findRealtimeMatch and its helpers: which entity of a live feed is the
-- trip that a client asks for. Instants are seconds from 1970 on; Date.parse is a parameter.
pub mod Loop
pub mod Least
use Prim.Native.Char.{code}
use Prim.Native.String
use typescript_starter.Common.{
  ℕ, zero, suc, ◌+◌, ◌-◌, ◌*◌, String, Option, none, some, List, [], ◌∷◌, Bool, true, false, ◌&&◌,
  ◌||◌, not, leb, ltb, ◌==◌, or_else, is_some, ◌>>=◌, str_eq, any, all, contains, keep, map,
  if◌then◌else◌,
}
use typescript_starter.Common.Int.{ℤ, pos, pos_part, neg_part}
use typescript_starter.Common.Text.{
  to_upper, trim, split_at, starts_with, utf16_length, first_chars,
}
use typescript_starter.Realtime.Texts.{normalise_id, times_within, within, all_digits, iso_start}
use typescript_starter.History.LineIdentity.{truthy, line_for}

pub record StopTime : Type 0 where
  pub departure_time : Option ℕ
  pub departure_delay : Option ℤ
  pub arrival_time : Option ℕ
  pub arrival_delay : Option ℤ

-- What the matcher reads of a vehicle position or a trip update; a position has no stop times.
pub record Entity : Type 0 where
  pub trip_id : Option String
  pub route_id : Option String
  pub direction_id : Option ℕ
  pub start_date : Option String
  pub start_time : Option String
  pub stop_time_updates : List StopTime

pub record Reference : Type 0 where
  pub scheduled_trip_id : Option String
  pub route_id : Option String
  pub start_date : Option String
  pub start_time : Option String
  pub direction_id : Option ℕ

abbrev some_of : Option ℕ → List ℕ → List ℕ
some_of none rest = rest
some_of (some n) rest = n ∷ rest

-- The texts of a list that are not empty: the set of ids.
abbrev exact_ids : String → Option String → List String
exact_ids trip_id none = keep (λ id. not (str_eq id "")) (trip_id ∷ [])
exact_ids trip_id (some scheduled) = keep (λ id. not (str_eq id "")) (trip_id ∷ scheduled ∷ [])

normalised_ids : List String → List String
unfolding normalise_id
normalised_ids [] = []
normalised_ids (id ∷ rest) =
    let later = normalised_ids rest in
    elim (normalise_id (some id)) [ none ↦ later | some n ↦ n ∷ later ]

abbrev same_id : String → String → Bool
unfolding starts_with
same_id item reference =
    str_eq reference item || starts_with item reference || starts_with reference item

-- Tier 1 or 2: the ids agree, exactly or after normalisation.
unfoldable pub id_tier : List String → Option String → Option ℕ
unfolding normalised_ids normalise_id utf16_length starts_with
id_tier ids trip_id =
    if elim trip_id [ none ↦ false | some id ↦ contains id ids ]
    then some 1
    else elim (normalise_id trip_id) [
      | none ↦ none
      | some n ↦
          if leb 6 (utf16_length n) && any (same_id n) (normalised_ids ids) then some 2 else none
    ]

-- The scheduled instant of the first stop, a time less its delay, is within the tolerance.
abbrev scheduled_near : ℕ → Option ℤ → ℕ → Bool
scheduled_near time delay epoch =
    let d = or_else delay (pos 0) in within (time + neg_part d) (epoch + pos_part d) 120

abbrev first_near : List StopTime → ℕ → Bool
first_near [] epoch = false
first_near (s ∷ rest) epoch = elim s.departure_time [
  | some time ↦ scheduled_near time s.departure_delay epoch
  | none ↦ elim s.arrival_time [
    | some time ↦ scheduled_near time s.arrival_delay epoch
    | none ↦ false
  ]
]

abbrev same_text : Option String → Option String → Bool
same_text (some a) (some b) = str_eq a b
same_text _ _ = false

abbrev direction_ok : Option ℕ → Option ℕ → Bool
direction_ok (some a) (some b) = b == a
direction_ok _ _ = true

module _ (parse_date : String → Option ℕ) where
  unfoldable pub sydney_epoch_candidates : Option String → Option String → List ℕ
  unfolding all_digits iso_start utf16_length
  sydney_epoch_candidates start_date start_time = elim (truthy start_date) [
    | none ↦ []
    | some date ↦ elim (truthy start_time) [
      | none ↦ []
      | some time ↦
          if utf16_length date == 8 && all_digits date
          then some_of (parse_date (String.◌++◌ (iso_start date time) "+10:00"))
              (some_of (parse_date (String.◌++◌ (iso_start date time) "+11:00")) [])
          else []
    ]
  ]

  -- Tier 3 or 4: the same family of lines in the same direction, at the same time.
  unfoldable pub schedule_tier : Reference → Entity → Option ℕ
  unfolding line_for times_within sydney_epoch_candidates
  schedule_tier reference item = elim (truthy reference.route_id) [
    | none ↦ none
    | some route ↦
        let family_matches : Bool = elim item.route_id [
          | none ↦ false
          | some r ↦ str_eq (line_for (some r) none) (line_for (some route) none)
        ] in
        if family_matches && direction_ok reference.direction_id item.direction_id
        then (if same_text reference.start_date item.start_date
              && times_within item.start_time reference.start_time 180
            then some 3
            else if any (first_near item.stop_time_updates)
                (sydney_epoch_candidates reference.start_date reference.start_time)
            then some 4
            else none)
        else none
  ]

  unfoldable pub tier_of : String → Reference → Entity → Option ℕ
  unfolding id_tier schedule_tier
  tier_of trip_id reference item =
      elim (id_tier (exact_ids trip_id reference.scheduled_trip_id) item.trip_id) [
        | some tier ↦ some tier
        | none ↦ schedule_tier reference item
      ]

-- The loop over the items, with the best one so far and its tier; tier 1 ends it.
module _ {T : Type 0} (tier : T → Option ℕ) where
  unfoldable pub scan : List T → Option T → ℕ → Option T
  scan [] best best_tier = best
  scan (item ∷ rest) best best_tier =
      let skip = scan rest best best_tier in
      elim (tier item) [
        | none ↦ skip
        | some t ↦
            let taken = scan rest (some item) t in
            if ltb t best_tier then (if t == 1 then some item else taken) else skip
      ]

-- Number.MAX_SAFE_INTEGER
abbrev pub max_safe_integer : ℕ
max_safe_integer = 9007199254740991

unfoldable pub find_realtime_match :
    {T : Type 0} → (String → Option ℕ) → (T → Entity) → List T → String → Reference → Option T
unfolding scan tier_of
find_realtime_match parse_date entity items trip_id reference =
    scan (λ item. tier_of parse_date trip_id reference (entity item)) items none max_safe_integer
