-- ===== src/Alerts/Scanning.antt =====
-- The scan of push/commute-alert.service.ts: which lines have an open alert after it, and how far
-- apart it pushes to a line.
use typescript_starter.Common.{
  ℕ, ◌≤◌, String, some, List, [], ◌∷◌, Bool, true, false, ◌&&◌, ◌||◌, ◌≡◌, refl, subst, ◌∙◌, inl,
  inr, bit, if◌then◌else◌, any, contains, contains-add, str_eq, eq_iff, Bool-cases, arith,
}
use typescript_starter.Alerts.Open.{
  open_count, fresh_count, fresh-le-open, IsWellFormed, upsert_fresh, IsWellFormed-upsert_active,
}
use typescript_starter.Alerts.Resolving.{resolve_stale_open}
use typescript_starter.Alerts.Commute.{
  rail_lines, Snapshot, is_quiet, is_degraded, body_of, severity_of, title_of, Scan, in_cooldown,
  raise_alert, scan_line, scan_lines, State, start_scan, evaluate,
}

-- A snapshot calls for an alert of the line.
abbrev pub degrades : String → Snapshot → Bool
degrades line s = is_degraded s && str_eq s.line line

or_comm : (a b : Bool) → (a || b) ≡ (b || a)
or_comm a b = ground arith

or_false : (a : Bool) → a ≡ (a || false)
or_false a = ground arith

module _ (hour now : ℕ) where
  scan_line-alerts :
      (s : Snapshot) (scan : Scan)
      → let done = if is_degraded s then raise_alert now s scan else scan in
        ((scan_line hour now s scan).table ≡ done.table)
        × ((scan_line hour now s scan).degraded ≡ done.degraded)
  unfolding scan_line
  scan_line-alerts s scan = elim (Bool-cases (is_degraded s)) [
    | inr fine ↦ rw fine (refl, refl)
    | inl bad ↦ elim (Bool-cases (is_quiet hour)) [
      | inl quiet ↦ rw (bad, quiet) (refl, refl)
      | inr loud ↦ elim (Bool-cases (in_cooldown now s (raise_alert now s scan))) [
        | inl early ↦ rw (bad, loud, early) (refl, refl)
        | inr due ↦ rw (bad, loud, due) (refl, refl)
      ]
    ]
  ]

  -- The table is well-formed, and each line seen as degraded has an alert that has not expired.
  abbrev Tracks : Scan → Type 0
  Tracks scan =
      IsWellFormed scan.table
      × ((line : String)
          → contains line scan.degraded ≡ true
          → 1 ≤ fresh_count now line scan.table.rows)

  Tracks-raise : (s : Snapshot) (scan : Scan) → Tracks scan → Tracks (raise_alert now s scan)
  Tracks-raise s scan (formed, fresh) =
      let (one, more) =
        upsert_fresh now s.line (severity_of s) (title_of s) (body_of s) scan.table in
      (
        IsWellFormed-upsert_active now s.line (severity_of s) (title_of s) (body_of s) scan.table
            formed,
        λ line seen. elim (Bool-cases (str_eq s.line line)) [
          | inl same ↦
              subst (λ l. 1 ≤ fresh_count now l (raise_alert now s scan).table.rows)
                ((eq_iff s.line line).0 same) one
          | inr other ↦
              let before : contains line scan.degraded ≡ true =
                rw (contains-add line s.line scan.degraded, other) at seen in
              omega (arith, fresh line before, more line)
        ],
      )

  Tracks-scan_line : (s : Snapshot) (scan : Scan) → Tracks scan → Tracks (scan_line hour now s scan)
  Tracks-scan_line s scan h =
      let (table, degraded) = scan_line-alerts s scan in
      rw (table, degraded)
        (elim (Bool-cases (is_degraded s)) [
          | inl bad ↦ rw bad (Tracks-raise s scan h)
          | inr fine ↦ rw fine h
        ])

  Tracks-scan_lines :
      (ss : List Snapshot) (scan : Scan) → Tracks scan → Tracks (scan_lines hour now ss scan)
  unfolding scan_lines
  Tracks-scan_lines [] scan h = h
  Tracks-scan_lines (s ∷ rest) scan h =
      Tracks-scan_lines rest (scan_line hour now s scan) (Tracks-scan_line s scan h)

  degraded-scan_line :
      (line : String) (s : Snapshot) (scan : Scan)
      → contains line (scan_line hour now s scan).degraded
        ≡ (contains line scan.degraded || degrades line s)
  degraded-scan_line line s scan =
      rw (scan_line-alerts s scan).1 (elim (Bool-cases (is_degraded s)) [
        | inl bad ↦
            rw (bad, contains-add line s.line scan.degraded)
              (or_comm (str_eq s.line line) (contains line scan.degraded))
        | inr fine ↦ rw fine (or_false (contains line scan.degraded))
      ])

  degraded-scan_lines :
      (line : String) (ss : List Snapshot) (scan : Scan)
      → contains line (scan_lines hour now ss scan).degraded
        ≡ (contains line scan.degraded || any (degrades line) ss)
  unfolding scan_lines
  degraded-scan_lines line [] scan = ground arith
  degraded-scan_lines line (s ∷ rest) scan =
      let ih = degraded-scan_lines line rest (scan_line hour now s scan) in
      ground (arith, ih, degraded-scan_line line s scan)

  -- After a scan that is not disabled and could read the snapshots, a rail line has an open alert
  -- exactly if one of the snapshots calls for it, and then it has one; that holds whatever alerts
  -- were open before, if no line had two.
  pub evaluate_open :
      (ss : List Snapshot) (st : State) (line : String)
      → IsWellFormed st.table
      → contains line rail_lines ≡ true
      → open_count line (evaluate false hour now (some ss) st).1.table.rows
        ≡ bit (any (degrades line) ss)
  unfolding evaluate
  evaluate_open ss st line formed rail =
      let done = scan_lines hour now ss (start_scan st) in
      let (kept, fresh) = Tracks-scan_lines ss (start_scan st) (formed, λ l h. absurd (cc)) in
      let seen : contains line done.degraded ≡ any (degrades line) ss =
        degraded-scan_lines line ss (start_scan st) in
      let (cleared, stays) = resolve_stale_open now rail_lines done.degraded done.table line in
      elim (Bool-cases (any (degrades line) ss)) [
        | inl bad ↦
            rw (stays (seen ∙ bad), bad)
              (omega
                (arith, fresh line (seen ∙ bad), kept line, fresh-le-open now line done.table.rows))
        | inr fine ↦ rw (cleared rail (seen ∙ fine), fine) refl
      ]
