-- ===== src/Alerts/Lines.antt =====
-- history/line-health-alerts.service.ts: the table of alerts and the operations on it. The rows are
-- in the order in which the database returns them, each time is read once per operation, and an
-- operation that the database refuses is not modelled.

use typescript_starter.Common.{
  ℕ, suc, ◌+◌, String, Option, none, some, List, [], ◌∷◌, ◌++◌, Bool, true, false, not, ◌&&◌, ltb,
  leb, ◌==◌, any, keep, contains, str_eq, if◌then◌else◌,
}
use typescript_starter.Common.Dict.{Dict, insert}

pub data Severity : Type 0 where
  delays cancellations disruption : Severity

-- A row of the table `line_health_alerts`; times are in milliseconds.
pub record Alert (Body : Type 0) : Type 0 where
  pub id : ℕ
  pub line : String
  pub severity : Severity
  pub title : String
  pub body : Body
  pub created_at : ℕ
  pub updated_at : ℕ
  pub expires_at : ℕ
  pub resolved_at : Option ℕ

-- The table, with the next value of its serial id.
pub record Table (Body : Type 0) : Type 0 where
  pub rows : List (Alert Body)
  pub next_id : ℕ

abbrev pub alert_ttl_ms : ℕ
alert_ttl_ms = 10800000

abbrev pub is_unresolved : Option ℕ → Bool
is_unresolved none = true
is_unresolved (some at) = false

module _ {Body : Type 0} where
  -- line = line AND resolved_at IS NULL
  abbrev pub is_open : String → Alert Body → Bool
  is_open line a = str_eq a.line line && is_unresolved a.resolved_at

  -- SELECT id FROM line_health_alerts WHERE ... LIMIT 1
  unfoldable pub open_id : String → List (Alert Body) → Option ℕ
  open_id line [] = none
  open_id line (a ∷ rest) = if is_open line a then some a.id else open_id line rest

  -- UPDATE line_health_alerts SET ... WHERE id = id
  unfoldable pub update_row :
      (Alert Body → Bool) → (Alert Body → Alert Body) → List (Alert Body) → List (Alert Body)
  update_row test change [] = []
  update_row test change (a ∷ rest) = (if test a then change a else a) ∷ update_row test change rest

  abbrev pub refreshed : ℕ → Severity → String → Body → Alert Body → Alert Body
  refreshed now severity title body a = record a {
    severity = severity;
    title = title;
    body = body;
    updated_at = now;
    expires_at = now + alert_ttl_ms;
  }

  abbrev pub created : ℕ → ℕ → String → Severity → String → Body → Alert Body
  created id now line severity title body = record {
    id = id;
    line = line;
    severity = severity;
    title = title;
    body = body;
    created_at = now;
    updated_at = now;
    expires_at = now + alert_ttl_ms;
    resolved_at = none;
  }

  unfoldable pub upsert_active : ℕ → String → Severity → String → Body → Table Body → Table Body
  unfolding open_id update_row
  upsert_active now line severity title body t = elim (open_id line t.rows) [
    | some id ↦ record t {
      rows = update_row (λ a. a.id == id) (refreshed now severity title body) t.rows;
    }
    | none ↦ record {
      rows = t.rows ++ created t.next_id now line severity title body ∷ [];
      next_id = suc t.next_id;
    }
  ]

  abbrev pub resolved : ℕ → Alert Body → Alert Body
  resolved now a = record a { resolved_at = some now }

  -- The condition of the first update: the line is tracked, and not degraded any more.
  abbrev pub is_cleared : List String → List String → Alert Body → Bool
  is_cleared tracked degraded a =
      is_unresolved a.resolved_at
      && contains a.line (keep (λ l. not (contains l degraded)) tracked)
      && not (contains a.line degraded)

  -- The condition of the second: the alert has run past its time.
  abbrev pub is_overdue : ℕ → Alert Body → Bool
  is_overdue now a = is_unresolved a.resolved_at && leb a.expires_at now

  unfoldable pub resolve_stale : ℕ → List String → List String → Table Body → Table Body
  unfolding update_row
  resolve_stale now tracked degraded t = record t {
    rows =
        update_row (is_overdue now) (resolved now)
          (update_row (is_cleared tracked degraded) (resolved now) t.rows);
  }

  unfoldable pub resolve_manually : ℕ → String → Table Body → Bool × Table Body
  unfolding update_row
  resolve_manually now line t = (
    any (is_open line) t.rows,
    record t { rows = update_row (is_open line) (resolved now) t.rows },
  )

  -- Unresolved and not expired.
  abbrev pub is_active : ℕ → Alert Body → Bool
  is_active now a = is_unresolved a.resolved_at && ltb now a.expires_at

  -- The loop of `map.set` over the active rows; a later row of a line replaces an earlier one.
  unfoldable pub by_line : List (Alert Body) → Dict (Alert Body) → Dict (Alert Body)
  unfolding insert
  by_line [] m = m
  by_line (a ∷ rest) m = by_line rest (insert a.line a m)

  unfoldable pub active_by_line : ℕ → Table Body → Dict (Alert Body)
  unfolding by_line
  active_by_line now t = by_line (keep (is_active now) t.rows) []
