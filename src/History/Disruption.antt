-- ===== src/History/Disruption.antt =====
-- history/disruption.util.ts: disruption minutes by effect, active periods, and severity.
use typescript_starter.Common.{
  ℕ, ◌≤◌, ◌+◌, ◌*◌, ◌/◌, ◌^◌, ◌-◌, String, Option, none, some, [], ◌∷◌, Bool, true, false, str_eq,
  arith, leb, any, or_else, ◌&&◌, ◌||◌,
}
use typescript_starter.Common.Dict.{Dict, lookup}
use typescript_starter.History.Feed.{ActivePeriod, ServiceAlert}

abbrev pub sample_interval_minutes : ℕ
sample_interval_minutes = 5

-- The weights, in quarters: 0.75 is 3.
abbrev pub disruption_effect_weight : Dict ℕ
disruption_effect_weight =
    ("NO_SERVICE", 4)
    ∷ ("SIGNIFICANT_DELAYS", 3)
    ∷ ("DETOUR", 2)
    ∷ ("REDUCED_SERVICE", 2)
    ∷ ("STOP_MOVED", 1)
    ∷ ("OTHER_EFFECT", 1)
    ∷ ("UNKNOWN_EFFECT", 1)
    ∷ []

-- `Math.round(q / 4)`, which rounds a half up.
abbrev round_quarters : ℕ → ℕ
round_quarters q = (q + 2) / 4

unfoldable pub disruption_minutes_for_effect : Option String → ℕ
unfolding lookup
disruption_minutes_for_effect effect =
    round_quarters
      (sample_interval_minutes * or_else (lookup (or_else effect "") disruption_effect_weight) 2)

-- Number.MAX_SAFE_INTEGER
abbrev pub max_safe_integer : ℕ
max_safe_integer = 2 ^ 53 - 1

abbrev pub covers : ℕ → ActivePeriod → Bool
covers at_unix period =
    leb (or_else period.start 0) at_unix && leb at_unix (or_else period.end max_safe_integer)

unfoldable pub is_alert_active_at : ServiceAlert → ℕ → Bool
is_alert_active_at alert at_unix = elim alert.active_periods [
  | [] ↦ true
  | p ∷ ps ↦ any (covers at_unix) (p ∷ ps)
]

unfoldable pub is_service_affecting_severity : Option String → Bool
is_service_affecting_severity none = false
is_service_affecting_severity (some severity) =
    str_eq severity "WARNING" || str_eq severity "SEVERE"

pub disruption_minutes_bounds :
    (effect : Option String)
    → (1 ≤ disruption_minutes_for_effect effect)
      × (disruption_minutes_for_effect effect ≤ sample_interval_minutes)
unfolding disruption_minutes_for_effect
disruption_minutes_bounds effect = ground arith
