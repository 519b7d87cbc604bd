-- ===== src/Alerts/Commute.antt =====
-- push/commute-alert.service.ts: the scan of the newest snapshots. A share of delayed trips is
-- compared exactly: with d of t trips late, the code's d / t >= 0.3 is 3 t <= 10 d, and d / t > 0.15
-- is 15 t < 100 d, for every count below 10^15. The hour in Sydney is a parameter, one reading of
-- the clock serves a scan, and a notification's text is the numbers that it is composed of.
use Prim.Native.String
use typescript_starter.Common.{
  ℕ, ◌*◌, ◌-◌, String, Option, none, some, List, [], ◌∷◌, ◌++◌, Bool, not, ◌&&◌, ◌||◌, ltb, leb,
  or_else, contains, add, if◌then◌else◌,
}
use typescript_starter.Common.Int.{ℤ}
use typescript_starter.Common.Dict.{Dict, lookup, insert}
use typescript_starter.Alerts.Lines.{
  Severity, delays, cancellations, disruption, Table, upsert_active, resolve_stale,
}

abbrev pub rail_lines : List String
rail_lines =
    "T1" ∷ "T2" ∷ "T3" ∷ "T4" ∷ "T5" ∷ "T6" ∷ "T7" ∷ "T8" ∷ "T9" ∷ "M1" ∷ "CCN" ∷ "BMT" ∷ "HUN"
    ∷ "SCO" ∷ "SHL" ∷ []

abbrev pub min_tracked_trips : ℕ
min_tracked_trips = 5

abbrev pub cooldown_ms : ℕ
cooldown_ms = 2700000

abbrev quiet_start_hour : ℕ
quiet_start_hour = 22

abbrev quiet_end_hour : ℕ
quiet_end_hour = 5

-- What the scan reads of a line's newest snapshot.
pub record Snapshot : Type 0 where
  pub line : String
  pub tracked_trips : ℕ
  pub delayed_trips : ℕ
  pub cancelled_trips : ℕ
  pub active_disruptions : ℕ
  pub avg_delay_seconds : ℤ

-- The text of an alert: the services cancelled, or the late trips, of how many, and their average.
pub data Body : Type 0 where
  services_cancelled : ℕ → Body
  running_late : ℕ → ℕ → ℤ → Body

abbrev pub is_quiet : ℕ → Bool
is_quiet hour = leb quiet_start_hour hour || ltb hour quiet_end_hour

abbrev pub widespread_delays : Snapshot → Bool
widespread_delays s = leb (3 * s.tracked_trips) (10 * s.delayed_trips)

abbrev pub severe_disruption : Snapshot → Bool
severe_disruption s =
    ltb 0 s.active_disruptions && ltb (15 * s.tracked_trips) (100 * s.delayed_trips)

abbrev pub has_cancellations : Snapshot → Bool
has_cancellations s = leb 3 s.cancelled_trips

-- The conditions under which the loop does not skip the snapshot.
abbrev pub is_degraded : Snapshot → Bool
is_degraded s =
    contains s.line rail_lines
    && leb min_tracked_trips s.tracked_trips
    && (widespread_delays s || severe_disruption s || has_cancellations s)

abbrev pub body_of : Snapshot → Body
body_of s =
    if has_cancellations s
    then services_cancelled s.cancelled_trips
    else running_late s.delayed_trips s.tracked_trips s.avg_delay_seconds

abbrev pub severity_of : Snapshot → Severity
severity_of s =
    if has_cancellations s
    then cancellations
    else if severe_disruption s
    then disruption
    else delays

abbrev pub title_of : Snapshot → String
title_of s = String.◌++◌ s.line " line delays"

-- What a scan changes: the table of alerts, the time of each line's last push, the degraded lines
-- seen so far, and the lines that it has pushed to.
pub record Scan : Type 0 where
  pub table : Table Body
  pub last_alert_at : Dict ℕ
  pub degraded : List String
  pub pushed : List String

abbrev pub in_cooldown : ℕ → Snapshot → Scan → Bool
in_cooldown now s scan = ltb (now - or_else (lookup s.line scan.last_alert_at) 0) cooldown_ms

-- The alert of a degraded line, before the push.
abbrev pub raise_alert : ℕ → Snapshot → Scan → Scan
raise_alert now s scan = record scan {
  table = upsert_active now s.line (severity_of s) (title_of s) (body_of s) scan.table;
  degraded = add s.line scan.degraded;
}

abbrev pub push_alert : ℕ → Snapshot → Scan → Scan
push_alert now s scan = record scan {
  last_alert_at = insert s.line now scan.last_alert_at;
  pushed = scan.pushed ++ s.line ∷ [];
}

-- The body of the loop.
unfoldable pub scan_line : ℕ → ℕ → Snapshot → Scan → Scan
unfolding upsert_active lookup insert
scan_line hour now s scan =
    if not (is_degraded s)
    then scan
    else (let raised = raise_alert now s scan in
        if is_quiet hour
        then raised
        else if in_cooldown now s raised
        then raised
        else push_alert now s raised)

unfoldable pub scan_lines : ℕ → ℕ → List Snapshot → Scan → Scan
unfolding scan_line
scan_lines hour now [] scan = scan
scan_lines hour now (s ∷ rest) scan = scan_lines hour now rest (scan_line hour now s scan)

-- What lasts from one scan to the next.
pub record State : Type 0 where
  pub table : Table Body
  pub last_alert_at : Dict ℕ

abbrev pub start_scan : State → Scan
start_scan st = record {
  table = st.table;
  last_alert_at = st.last_alert_at;
  degraded = [];
  pushed = [];
}

-- `snapshots` is none where reading them throws; the result has the lines pushed to.
unfoldable pub evaluate : Bool → ℕ → ℕ → Option (List Snapshot) → State → List String × State
unfolding scan_lines resolve_stale
evaluate disabled hour now none st = ([], st)
evaluate disabled hour now (some snapshots) st =
    if disabled
    then ([], st)
    else (let done = scan_lines hour now snapshots (start_scan st) in
        (
          done.pushed,
          record {
            table = resolve_stale now rail_lines done.degraded done.table;
            last_alert_at = done.last_alert_at;
          },
        ))
