-- ===== src/Alerts/Cooldown.antt =====
-- How often the scans of push/commute-alert.service.ts push to a line.
use typescript_starter.Common.{
  ℕ, suc, ◌+◌, ◌≤◌, String, Option, none, some, List, [], ◌∷◌, Bool, true, false, ◌≡◌, refl, subst,
  ap, ◌∙◌, inl, inr, ◌⊎◌, bit, or_else, if◌then◌else◌, ◌++◌, count_if, sum_of-append, str_eq,
  eq_iff, Bool-cases, arith,
}
use typescript_starter.Common.Dict.{Dict, lookup, lookup-insert}
use typescript_starter.Alerts.Commute.{
  cooldown_ms, Snapshot, is_quiet, is_degraded, Scan, in_cooldown, raise_alert, push_alert,
  scan_line, scan_lines, State, start_scan, evaluate,
}

-- The time of the last push to the line; 0 stands for none.
abbrev pub last_push : String → Dict ℕ → ℕ
last_push line m = or_else (lookup line m) 0

abbrev pub push_count : String → List String → ℕ
push_count line pushed = count_if (λ l. str_eq l line) pushed

module _ (hour now : ℕ) (line : String) where
  -- Between two states of a scan there was no push to the line, or just one, which the cooldown
  -- and the hour allow and whose time is recorded.
  abbrev pub PushedOnce : ℕ → Dict ℕ → ℕ → Dict ℕ → Type 0
  PushedOnce before last after last_after =
      ((after ≡ before) × (last_push line last_after ≡ last_push line last))
      ⊎ ((after ≡ suc before)
          × (is_quiet hour ≡ false)
          × (last_push line last + cooldown_ms ≤ now)
          × (last_push line last_after ≡ now))

  abbrev Allows : Scan → Scan → Type 0
  Allows a b =
      PushedOnce (push_count line a.pushed) a.last_alert_at (push_count line b.pushed)
        b.last_alert_at

  push_alert-Allows :
      (s : Snapshot) (scan : Scan)
      → is_quiet hour ≡ false
      → in_cooldown now s scan ≡ false
      → Allows scan (push_alert now s scan)
  push_alert-Allows s scan loud due = elim (Bool-cases (str_eq s.line line)) [
    | inl same ↦
        let at = (eq_iff s.line line).0 same in
        inr (
          ground (arith, sum_of-append (λ l. bit (str_eq l line)) scan.pushed (s.line ∷ [])),
          loud,
          subst (λ l. or_else (lookup l scan.last_alert_at) 0 + cooldown_ms ≤ now) at
              (ground arith),
          rw (lookup-insert s.line line now scan.last_alert_at, same) refl,
        )
    | inr other ↦ inl (
      ground (arith, sum_of-append (λ l. bit (str_eq l line)) scan.pushed (s.line ∷ [])),
      rw (lookup-insert s.line line now scan.last_alert_at, other) refl,
    )
  ]

  scan_line-Allows : (s : Snapshot) (scan : Scan) → Allows scan (scan_line hour now s scan)
  unfolding scan_line
  scan_line-Allows s scan = elim (Bool-cases (is_degraded s)) [
    | inr fine ↦ rw fine (inl (refl, refl))
    | inl bad ↦ elim (Bool-cases (is_quiet hour)) [
      | inl quiet ↦ rw (bad, quiet) (inl (refl, refl))
      | inr loud ↦ elim (Bool-cases (in_cooldown now s (raise_alert now s scan))) [
        | inl early ↦ rw (bad, loud, early) (inl (refl, refl))
        | inr due ↦
            let allowed = push_alert-Allows s (raise_alert now s scan) loud due in
            rw (bad, loud, due) (rw loud at allowed)
      ]
    ]
  ]

  -- A second push at the same time would be within the cooldown.
  PushedOnce-then :
      (a b c : ℕ) (la lb lc : Dict ℕ)
      → PushedOnce a la b lb
      → PushedOnce b lb c lc
      → PushedOnce a la c lc
  PushedOnce-then a b c la lb lc (inl (same, kept)) (inl (same2, kept2)) =
      inl (same2 ∙ same, kept2 ∙ kept)
  PushedOnce-then a b c la lb lc (inl (same, kept)) (inr (one, loud, due, at)) =
      inr (one ∙ ap suc same, loud, omega (arith, kept, due), at)
  PushedOnce-then a b c la lb lc (inr (one, loud, due, at)) (inl (same, kept)) =
      inr (same ∙ one, loud, due, kept ∙ at)
  PushedOnce-then a b c la lb lc (inr (one, loud, due, at)) (inr (one2, loud2, due2, at2)) =
      absurd (omega (arith, at, due2))

  scan_lines-Allows : (ss : List Snapshot) (scan : Scan) → Allows scan (scan_lines hour now ss scan)
  unfolding scan_lines
  scan_lines-Allows [] scan = inl (refl, refl)
  scan_lines-Allows (s ∷ rest) scan =
      let next = scan_line hour now s scan in
      let done = scan_lines hour now rest next in
      PushedOnce-then (push_count line scan.pushed) (push_count line next.pushed)
        (push_count line done.pushed) scan.last_alert_at next.last_alert_at done.last_alert_at
        (scan_line-Allows s scan) (scan_lines-Allows rest next)

  -- A scan pushes to a line at most once, and only outside the quiet hours and 45 minutes or more
  -- after the last push to it, whose time it then replaces by its own.
  pub evaluate_pushes :
      (disabled : Bool) (snapshots : Option (List Snapshot)) (st : State)
      → let (pushed, after) = evaluate disabled hour now snapshots st in
        PushedOnce 0 st.last_alert_at (push_count line pushed) after.last_alert_at
  unfolding evaluate
  evaluate_pushes disabled none st = inl (refl, refl)
  evaluate_pushes true (some ss) st = inl (refl, refl)
  evaluate_pushes false (some ss) st = scan_lines-Allows ss (start_scan st)

-- A scan of the schedule: whether it is disabled, the hour, the time, and the snapshots.
pub record Tick : Type 0 where
  pub disabled : Bool
  pub hour : ℕ
  pub now : ℕ
  pub snapshots : Option (List Snapshot)

abbrev pub tick : Tick → State → List String × State
tick k st = evaluate k.disabled k.hour k.now k.snapshots st

-- The time of a scan, once for each of its pushes to the line.
unfoldable pub times_of : String → ℕ → List String → List ℕ
times_of line now [] = []
times_of line now (l ∷ pushed) =
    let rest = times_of line now pushed in if str_eq l line then now ∷ rest else rest

-- The times of the pushes to the line, those of one scan each by itself.
unfoldable pub push_times : String → List Tick → State → List ℕ
unfolding evaluate times_of
push_times line [] st = []
push_times line (k ∷ rest) st =
    times_of line k.now (tick k st).0 ++ push_times line rest (tick k st).1

-- Each time comes 45 minutes or more after the one before it, the first after `last`.
abbrev pub Spaced : ℕ → List ℕ → Type 0
Spaced last [] = Unit
Spaced last (t ∷ rest) = (last + cooldown_ms ≤ t) × Spaced t rest

times_of-none :
    (line : String) (now : ℕ) (pushed : List String)
    → push_count line pushed ≡ 0
    → times_of line now pushed ≡ []
unfolding times_of
times_of-none line now [] h = refl
times_of-none line now (l ∷ pushed) h = elim (Bool-cases (str_eq l line)) [
  | inl same ↦ absurd (let e = rw same at h in omega (arith, e))
  | inr other ↦ rw other (times_of-none line now pushed (let e = rw other at h in omega (arith, e)))
]

times_of-once :
    (line : String) (now : ℕ) (pushed : List String)
    → push_count line pushed ≡ 1
    → times_of line now pushed ≡ now ∷ []
unfolding times_of
times_of-once line now [] h = absurd (omega (arith, h))
times_of-once line now (l ∷ pushed) h = elim (Bool-cases (str_eq l line)) [
  | inl same ↦ rw same (
      ap (λ ts. now ∷ ts)
        (times_of-none line now pushed (let e = rw same at h in omega (arith, e))))
  | inr other ↦ rw other (times_of-once line now pushed (let e = rw other at h in omega (arith, e)))
]

-- Over every sequence of scans, at whatever times, two pushes to the same line, in one scan or in
-- two, are 45 minutes or more apart, and so is the first from the last one before.
pub pushes-Spaced :
    (line : String) (ticks : List Tick) (st : State)
    → Spaced (last_push line st.last_alert_at) (push_times line ticks st)
unfolding push_times
pushes-Spaced line [] st = tt
pushes-Spaced line (k ∷ rest) st =
    let (pushed, next) = tick k st in
    let later = pushes-Spaced line rest next in
    elim (evaluate_pushes k.hour k.now line k.disabled k.snapshots st) [
      | inl (unsent, kept) ↦ rw (times_of-none line k.now pushed unsent) (rw kept at later)
      | inr (one, loud, due, at) ↦ rw (times_of-once line k.now pushed one) (due, rw at at later)
    ]
