-- ===== src/Alerts/Resolving.antt =====
-- Which alerts resolveStale and resolveManually of history/line-health-alerts.service.ts close, and
-- that no line ever has two open alerts.
use typescript_starter.Common.{
  ℕ, ◌≤◌, String, List, [], ◌∷◌, Bool, true, false, not, ◌≡◌, ◌↔◌, ◌≢◌, refl, ap, ◌∙◌, inl, inr,
  bit, if◌then◌else◌, any, contains, contains-keep, count_if, str_eq, eq_iff, Bool-cases, arith,
}
use typescript_starter.Alerts.Lines.{
  Severity, Alert, Table, is_open, update_row, upsert_active, resolved, is_cleared, is_overdue,
  resolve_stale, resolve_manually,
}
use typescript_starter.Alerts.Open.{
  open_count, is_fresh, fresh_count, IsWellFormed, IsWellFormed-upsert_active,
}

module _ {Body : Type 0} where
  module _ (now : ℕ) (tracked degraded : List String) where
    -- What the two updates make of a row.
    abbrev stale_row : Alert Body → Alert Body
    stale_row a =
        let b = if is_cleared tracked degraded a then resolved now a else a in
        if is_overdue now b then resolved now b else b

    row_cleared :
        (line : String) (a : Alert Body)
        → contains line tracked ≡ true
        → contains line degraded ≡ false
        → is_open line (stale_row a) ≡ false
    row_cleared line a here gone = elim (Bool-cases (str_eq a.line line)) [
      | inr other ↦ ground arith
      | inl same ↦
          let at = (eq_iff a.line line).0 same in
          let h : contains a.line tracked ≡ true = rw at here in
          let g : contains a.line degraded ≡ false = rw at gone in
          ground (arith, contains-keep (λ l. not (contains l degraded)) a.line tracked)
    ]

    row_kept :
        (line : String) (a : Alert Body)
        → contains line degraded ≡ true
        → is_open line (stale_row a) ≡ is_fresh now line a
    row_kept line a still = elim (Bool-cases (str_eq a.line line)) [
      | inr other ↦ ground arith
      | inl same ↦
          let at = (eq_iff a.line line).0 same in
          let g : contains a.line degraded ≡ true = rw at still in ground arith
    ]

    abbrev stale_rows : List (Alert Body) → List (Alert Body)
    stale_rows rows =
        update_row (is_overdue now) (resolved now)
          (update_row (is_cleared tracked degraded) (resolved now) rows)

    open-stale_rows :
        (line : String) (f : Alert Body → Bool)
        → ((a : Alert Body) → is_open line (stale_row a) ≡ f a)
        → (rows : List (Alert Body)) → open_count line (stale_rows rows) ≡ count_if f rows
    unfolding update_row
    open-stale_rows line f h [] = refl
    open-stale_rows line f h (a ∷ rest) = omega (arith, ap bit (h a), open-stale_rows line f h rest)

    none_true : (rows : List (Alert Body)) → count_if (λ (a : Alert Body). false) rows ≡ 0
    none_true [] = refl
    none_true (a ∷ rest) = omega (arith, none_true rest)

    module _ (t : Table Body) where
      abbrev after : Table Body
      after = resolve_stale now tracked degraded t

      -- After resolveStale a tracked line that is not degraded has no open alert, and a degraded
      -- line has just as many as it had open alerts that had not expired.
      pub resolve_stale_open :
          (line : String)
          → (contains line tracked ≡ true
              → contains line degraded ≡ false
              → open_count line after.rows ≡ 0)
            × (contains line degraded ≡ true
                → open_count line after.rows ≡ fresh_count now line t.rows)
      unfolding resolve_stale
      resolve_stale_open line = (
        λ here gone.
            open-stale_rows line (λ a. false) (λ a. row_cleared line a here gone) t.rows
            ∙ none_true t.rows,
        λ still. open-stale_rows line (is_fresh now line) (λ a. row_kept line a still) t.rows,
      )

  open-resolved :
      (now : ℕ) (test : Alert Body → Bool) (line : String) (rows : List (Alert Body))
      → open_count line (update_row test (resolved now) rows) ≤ open_count line rows
  unfolding update_row
  open-resolved now test line [] = omega arith
  open-resolved now test line (a ∷ rest) =
      let ih = open-resolved now test line rest in ground (arith, ih)

  pub IsWellFormed-resolve_stale :
      (now : ℕ) (tracked degraded : List String) (t : Table Body)
      → IsWellFormed t
      → IsWellFormed (resolve_stale now tracked degraded t)
  unfolding resolve_stale
  IsWellFormed-resolve_stale now tracked degraded t h line = omega (
    arith,
    h line,
    open-resolved now (is_cleared tracked degraded) line t.rows,
    open-resolved now (is_overdue now) line
        (update_row (is_cleared tracked degraded) (resolved now) t.rows),
  )

  -- The operations on the table.
  pub data Step : Table Body → Table Body → Type 0 where
    raise :
        (t : Table Body) (now : ℕ) (line : String) (severity : Severity) (title : String)
        (body : Body)
        → Step t (upsert_active now line severity title body t)
    clear :
        (t : Table Body) (now : ℕ) (tracked degraded : List String)
        → Step t (resolve_stale now tracked degraded t)
    override : (t : Table Body) (now : ℕ) (line : String) → Step t (resolve_manually now line t).1

  -- The tables that operations lead to from the empty one.
  pub data Reachable : Table Body → Type 0 where
    empty : (id : ℕ) → Reachable (record { rows = []; next_id = id })
    after_step : {t u : Table Body} → Reachable t → Step t u → Reachable u

  -- From an empty table, whatever operations are done in whatever order, no line ever has two open
  -- alerts.
  pub one_open_alert : {t : Table Body} → Reachable t → IsWellFormed t
  unfolding resolve_manually
  one_open_alert (empty id) line = omega arith
  one_open_alert (after_step r (raise t now l severity title body)) line =
      IsWellFormed-upsert_active now l severity title body t (one_open_alert r) line
  one_open_alert (after_step r (clear t now tracked degraded)) line =
      IsWellFormed-resolve_stale now tracked degraded t (one_open_alert r) line
  one_open_alert (after_step r (override t now l)) line =
      omega (arith, one_open_alert r line, open-resolved now (is_open l) line t.rows)

  any-count :
      (f : Alert Body → Bool) (rows : List (Alert Body))
      → (any f rows ≡ true) ↔ (1 ≤ count_if f rows)
  any-count f [] = (λ e. absurd (cc), λ h. absurd (omega arith))
  any-count f (a ∷ rest) =
      let (to, from) = any-count f rest in
      elim (Bool-cases (f a)) [
        | inl here ↦ rw here (λ e. omega arith, λ h. refl)
        | inr other ↦ rw other (λ e. omega (arith, to e), λ h. from (omega arith))
      ]

  manual-none :
      (now : ℕ) (line : String) (rows : List (Alert Body))
      → open_count line (update_row (is_open line) (resolved now) rows) ≡ 0
  unfolding update_row
  manual-none now line [] = refl
  manual-none now line (a ∷ rest) = ground (arith, manual-none now line rest)

  manual-other :
      (now : ℕ) (line : String) (rows : List (Alert Body)) (other : String)
      → line ≢ other
      → open_count other (update_row (is_open line) (resolved now) rows) ≡ open_count other rows
  unfolding update_row
  manual-other now line [] other h = refl
  manual-other now line (a ∷ rest) other h =
      ground (arith, manual-other now line rest other h, eq_iff a.line line, eq_iff a.line other, h)

  -- The administrator's override says whether the line had an open alert; it leaves the line none,
  -- and leaves every other line its own.
  pub resolve_manually_open :
      (now : ℕ) (line : String) (t : Table Body)
      → let result = resolve_manually now line t in
        ((result.0 ≡ true) ↔ (1 ≤ open_count line t.rows))
        × (open_count line result.1.rows ≡ 0)
        × ((other : String)
            → line ≢ other
            → open_count other result.1.rows ≡ open_count other t.rows)
  unfolding resolve_manually
  resolve_manually_open now line t =
      (any-count (is_open line) t.rows, manual-none now line t.rows, manual-other now line t.rows)
