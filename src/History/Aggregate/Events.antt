-- ===== src/History/Aggregate/Events.antt =====
-- Which disruption events a sample holds: one for each line of each alert that counts.
pub mod Lines
use mathlib.Core.List.{append_assoc, append-nil}
use typescript_starter.Common.{
  ◌/◌, ◌^◌, ◌-◌, Option, none, some, Bool, true, any, leb, or_else, ◌&&◌, ◌||◌, ◌⊎◌, ◌↔◌, subst,
  str_eq, eq_refl, contains-add, ℕ, String, List, [], ◌∷◌, ◌++◌, map, false, ◌≡◌, refl, sym, ◌∙◌,
  arith, inl, inr, Bool-cases, contains, add, if◌then◌else◌, eq_iff, contains-append,
}
use typescript_starter.Common.Dict.{Dict}
use typescript_starter.History.Feed.{ActivePeriod, ServiceAlert}
use typescript_starter.History.Disruption.{is_alert_active_at, is_service_affecting_severity}
use typescript_starter.History.LineIdentity.{resolve_line}
use typescript_starter.History.Aggregate.Routes.{
  add_lines, alert_routes, mentions, contains-alert_routes,
}
use typescript_starter.History.Aggregate.{
  SampleInput, AlertLoop, DisruptionEvent, event_of, mark_line, mark_lines, alert_lines, or_network,
  counts_alert, alert_step, alert_loop, trip_route, aggregate_history_sample,
}
use typescript_starter.History.Aggregate.Events.Lines.{List-cases, AreLines, alert_lines-AreLines}

-- The severity affects service, and the alert has no active period, or one that covers the time.
abbrev pub has_severity : String → ServiceAlert → Bool
has_severity name alert = elim alert.severity_level [ none ↦ false | some s ↦ str_eq s name ]

abbrev pub covers_now : ℕ → List ActivePeriod → Bool
covers_now at [] = true
covers_now at (p ∷ ps) =
    any (λ (q : ActivePeriod). leb (or_else q.start 0) at && leb at (or_else q.end (2 ^ 53 - 1)))
      (p ∷ ps)

abbrev pub affects_now : ℕ → ServiceAlert → Bool
affects_now at alert =
    (has_severity "WARNING" alert || has_severity "SEVERE" alert)
    && covers_now at alert.active_periods

severity-affects :
    (severity : Option String)
    → is_service_affecting_severity severity ≡ (
        (elim severity [ none ↦ false | some s ↦ str_eq s "WARNING" ])
        || (elim severity [ none ↦ false | some s ↦ str_eq s "SEVERE" ]))
unfolding is_service_affecting_severity
severity-affects none = refl
severity-affects (some s) = refl

active-covers_now :
    (at : ℕ) (alert : ServiceAlert)
    → is_alert_active_at alert at ≡ covers_now at alert.active_periods
unfolding is_alert_active_at
active-covers_now at alert = elim (List-cases alert.active_periods) [
  | inl empty ↦ rw (empty, is_alert_active_at) refl
  | inr (p, ps, listed) ↦ rw (listed, is_alert_active_at) refl
]

counts-affects_now : (at : ℕ) (alert : ServiceAlert) → counts_alert at alert ≡ affects_now at alert
counts-affects_now at alert =
    rw (severity-affects alert.severity_level, active-covers_now at alert) refl

module _ (input : SampleInput) (routes : Dict String) where
  -- The events of the alerts, in order: none for an alert that does not affect service now, and for
  -- each other one an event with its data for each of its lines.
  pub data EventsOf (at : ℕ) : List ServiceAlert → List DisruptionEvent → Type 0 where
    no_alert : EventsOf at [] []
    skipped :
        (alert : ServiceAlert) (alerts : List ServiceAlert) (events : List DisruptionEvent)
        → affects_now at alert ≡ false
        → EventsOf at alerts events
        → EventsOf at (alert ∷ alerts) events
    counted :
        (alert : ServiceAlert) (alerts : List ServiceAlert) (lines : List String)
        (events : List DisruptionEvent)
        → affects_now at alert ≡ true
        → AreLines input routes alert lines
        → EventsOf at alerts events
        → EventsOf at (alert ∷ alerts) (
            map
              (λ (line : String). record {
                mode = alert.mode;
                line = line;
                alert_id = alert.id;
                effect = alert.effect;
                cause = alert.cause;
              })
              lines
            ++ events)

  abbrev events_of : ℕ → List ServiceAlert → List DisruptionEvent
  events_of at [] = []
  events_of at (alert ∷ alerts) =
      let rest = events_of at alerts in
      if counts_alert at alert
      then map (event_of alert) (alert_lines input routes alert) ++ rest
      else rest

  events_of-EventsOf :
      (at : ℕ) (alerts : List ServiceAlert) → EventsOf at alerts (events_of at alerts)
  events_of-EventsOf at [] = no_alert
  events_of-EventsOf at (alert ∷ alerts) =
      let rest = events_of-EventsOf at alerts in
      elim (Bool-cases (counts_alert at alert)) [
        | inl now ↦ rw now (
            counted alert alerts (alert_lines input routes alert) (events_of at alerts)
              (sym (counts-affects_now at alert) ∙ now) (alert_lines-AreLines input routes alert)
              rest)
        | inr later ↦ rw later (
            skipped alert alerts (events_of at alerts) (sym (counts-affects_now at alert) ∙ later)
              rest)
      ]

  mark_lines-events :
      (alert : ServiceAlert) (s : AlertLoop) (lines : List String)
      → (mark_lines input alert s lines).events ≡ s.events ++ map (event_of alert) lines
  unfolding mark_lines mark_line
  mark_lines-events alert s [] = sym (append-nil _)
  mark_lines-events alert s (line ∷ lines) =
      mark_lines-events alert (mark_line input alert s line) lines ∙ append_assoc s.events _ _

  alert_loop-events :
      (at : ℕ) (s : AlertLoop) (alerts : List ServiceAlert)
      → (alert_loop input routes at s alerts).events ≡ s.events ++ events_of at alerts
  unfolding alert_loop alert_step
  alert_loop-events at s [] = sym (append-nil _)
  alert_loop-events at s (alert ∷ alerts) = elim (Bool-cases (counts_alert at alert)) [
    | inl included ↦
        alert_loop-events at (alert_step input routes at s alert) alerts
        ∙ rw included (
            rw (mark_lines-events alert s (alert_lines input routes alert))
              (append_assoc s.events _ _))
    | inr left_out ↦ alert_loop-events at (alert_step input routes at s alert) alerts ∙ rw left_out
  ]

-- The disruption events of a sample are, in order, for each alert of severity WARNING or SEVERE that
-- has no active period or one that covers the sample's time, one event with the alert's mode, id,
-- effect and cause for each of its lines, and none for any other alert. Its lines, each of them once,
-- are exactly those of the routes that its entities name, or else NETWORK.
pub aggregate-events :
    (intl_hour : ℕ → ℕ) (input : SampleInput)
    → EventsOf input
        (trip_route intl_hour input)
        (input.at / 1000)
        input.alerts
        (aggregate_history_sample intl_hour input).disruption_events
unfolding aggregate_history_sample
aggregate-events intl_hour input =
    let routes = trip_route intl_hour input in
    subst (λ events. EventsOf input routes (input.at / 1000) input.alerts events)
      (sym (alert_loop-events input routes (input.at / 1000) _ input.alerts))
      (events_of-EventsOf input routes (input.at / 1000) input.alerts)
