-- ===== src/Alerts/Tests.antt =====
-- Runs of the alerts and of the scan.
use typescript_starter.Common.{◌≤◌, some, List, [], ◌∷◌, false, ◌≡◌, refl, bit, any, arith}
use typescript_starter.Common.Int.{pos}
use typescript_starter.Alerts.Lines.{delays, Table, upsert_active}
use typescript_starter.Alerts.Open.{open_count}
use typescript_starter.Alerts.Resolving.{raise, empty, after_step, one_open_alert}
use typescript_starter.Alerts.Commute.{
  Snapshot, Body, services_cancelled, State, evaluate, scan_line,
}
use typescript_starter.Alerts.Scanning.{degrades, evaluate_open}
use typescript_starter.Alerts.Cooldown.{Tick, push_times, Spaced, last_push, pushes-Spaced}

abbrev no_alerts : Table Body
no_alerts = record { rows = []; next_id = 1 }

abbrev t1_table : Table Body
t1_table = upsert_active 1000 "T1" delays "T1 line delays" (services_cancelled 2) no_alerts

one_open_alert_example : open_count "T1" t1_table.rows ≤ 1
one_open_alert_example =
    one_open_alert
      (after_step (empty 1)
        (raise no_alerts 1000 "T1" delays "T1 line delays" (services_cancelled 2)))
      "T1"

abbrev t1_late : Snapshot
t1_late = record {
  line = "T1";
  tracked_trips = 10;
  delayed_trips = 3;
  cancelled_trips = 0;
  active_disruptions = 0;
  avg_delay_seconds = pos 400;
}

abbrev start : State
start = record { table = no_alerts; last_alert_at = [] }

evaluate_open_example :
    open_count "T1" (evaluate false 8 3000000 (some (t1_late ∷ [])) start).1.table.rows
    ≡ bit (any (degrades "T1") (t1_late ∷ []))
evaluate_open_example = evaluate_open 8 3000000 (t1_late ∷ []) start "T1" (λ l. omega arith) refl

abbrev ticks : List Tick
ticks =
    record { disabled = false; hour = 8; now = 3000000; snapshots = some (t1_late ∷ []) }
    ∷ record { disabled = false; hour = 8; now = 3300000; snapshots = some (t1_late ∷ []) }
    ∷ record { disabled = false; hour = 9; now = 5700000; snapshots = some (t1_late ∷ []) }
    ∷ []

push_times-ticks : push_times "T1" ticks start ≡ 3000000 ∷ 5700000 ∷ []
unfolding push_times scan_line
push_times-ticks = refl

pushes-Spaced_example : Spaced (last_push "T1" start.last_alert_at) (push_times "T1" ticks start)
pushes-Spaced_example = pushes-Spaced "T1" ticks start
