-- ===== src/History/Occupancy.antt =====
-- history/occupancy.util.ts: the occupancy score, and when a vehicle counts as crowded.
use typescript_starter.Common.{
  ℕ, ◌≤◌, String, Option, none, some, List, [], ◌∷◌, Bool, true, false, ◌≡◌, ◌↔◌, str_eq, arith,
  contains, if◌then◌else◌, by_text,
}
use typescript_starter.Common.Dict.{Dict, lookup}

abbrev pub occupancy_scores : Dict ℕ
occupancy_scores =
    ("EMPTY", 0)
    ∷ ("MANY_SEATS_AVAILABLE", 1)
    ∷ ("FEW_SEATS_AVAILABLE", 2)
    ∷ ("STANDING_ROOM_ONLY", 3)
    ∷ ("CRUSHED_STANDING_ROOM_ONLY", 4)
    ∷ ("FULL", 4)
    ∷ ("NOT_ACCEPTING_PASSENGERS", 4)
    ∷ []

abbrev pub crowded_statuses : List String
crowded_statuses =
    "STANDING_ROOM_ONLY" ∷ "CRUSHED_STANDING_ROOM_ONLY" ∷ "FULL" ∷ "NOT_ACCEPTING_PASSENGERS" ∷ []

unfoldable pub occupancy_score : Option String → Option ℕ
unfolding lookup
occupancy_score none = none
occupancy_score (some status) = if str_eq "" status then none else lookup status occupancy_scores

unfoldable pub is_crowded_occupancy : Option String → Bool
is_crowded_occupancy none = false
is_crowded_occupancy (some status) = contains status crowded_statuses

abbrev pub ScoreAtLeast : ℕ → Option ℕ → Type 0
ScoreAtLeast n none = ⊥
ScoreAtLeast n (some score) = n ≤ score

abbrev pub IsScore : Option ℕ → Type 0
IsScore none = Unit
IsScore (some score) = score ≤ 4

pub occupancy_score-IsScore : (status : Option String) → IsScore (occupancy_score status)
unfolding occupancy_score
occupancy_score-IsScore none = tt
occupancy_score-IsScore (some status) = ground arith

abbrev CrowdedIff : String → Type 0
CrowdedIff status =
    (is_crowded_occupancy (some status) ≡ true) ↔ ScoreAtLeast 3 (occupancy_score (some status))

-- A status counts as crowded exactly when it has a score and the score is at least 3.
pub is_crowded_occupancy_iff :
    (status : Option String)
    → (is_crowded_occupancy status ≡ true) ↔ ScoreAtLeast 3 (occupancy_score status)
unfolding is_crowded_occupancy occupancy_score
is_crowded_occupancy_iff none = ground arith
is_crowded_occupancy_iff (some s) = by_text CrowdedIff "" s (ground arith) λ h0.
    by_text CrowdedIff "EMPTY" s (ground arith) λ h1.
      by_text CrowdedIff "MANY_SEATS_AVAILABLE" s (ground arith)
        λ h2. by_text CrowdedIff "FEW_SEATS_AVAILABLE" s (ground arith) λ h3. ground arith
