-- ===== src/Alerts/Open.antt =====
-- Which alerts of history/line-health-alerts.service.ts are open after each operation.
use typescript_starter.Common.{
  ℕ, ◌+◌, ◌≤◌, String, none, some, List, [], ◌∷◌, ◌++◌, Bool, true, ◌&&◌, ◌≡◌, refl, sym, ap,
  sum_of-append, inl, inr, ltb, ◌==◌, bit, count_if, str_eq, eq_iff, eq_refl, Bool-cases,
  Option-cases, arith,
}
use typescript_starter.Alerts.Lines.{
  Severity, Alert, Table, is_open, open_id, update_row, refreshed, created, upsert_active,
}

module _ {Body : Type 0} where
  abbrev pub open_count : String → List (Alert Body) → ℕ
  open_count line rows = count_if (is_open line) rows

  -- Open, and not expired at a time.
  abbrev pub is_fresh : ℕ → String → Alert Body → Bool
  is_fresh now line a = is_open line a && ltb now a.expires_at

  abbrev pub fresh_count : ℕ → String → List (Alert Body) → ℕ
  fresh_count now line rows = count_if (is_fresh now line) rows

  -- No line has two open alerts.
  abbrev pub IsWellFormed : Table Body → Type 0
  IsWellFormed t = (line : String) → open_count line t.rows ≤ 1

  open_id-none :
      (line : String) (rows : List (Alert Body))
      → open_id line rows ≡ none
      → open_count line rows ≡ 0
  unfolding open_id
  open_id-none line [] h = refl
  open_id-none line (a ∷ rest) h = ground (arith, open_id-none line rest)

  pub fresh-le-open :
      (now : ℕ) (line : String) (rows : List (Alert Body))
      → fresh_count now line rows ≤ open_count line rows
  fresh-le-open now line [] = omega arith
  fresh-le-open now line (a ∷ rest) = ground (arith, fresh-le-open now line rest)

  module _ (now : ℕ) (severity : Severity) (title : String) (body : Body) where
    abbrev refresh : (Alert Body → Bool) → List (Alert Body) → List (Alert Body)
    refresh test rows = update_row test (refreshed now severity title body) rows

    fresh-refreshed :
        (line : String) (a : Alert Body)
        → is_fresh now line (refreshed now severity title body a) ≡ is_open line a
    fresh-refreshed line a = ground arith

    open_count-refresh :
        (test : Alert Body → Bool) (line : String) (rows : List (Alert Body))
        → open_count line (refresh test rows) ≡ open_count line rows
    unfolding update_row
    open_count-refresh test line [] = refl
    open_count-refresh test line (a ∷ rest) = elim (Bool-cases (test a)) [
      | inl hit ↦ rw hit (ap (λ n. bit (is_open line a) + n) (open_count-refresh test line rest))
      | inr miss ↦ rw miss (ap (λ n. bit (is_open line a) + n) (open_count-refresh test line rest))
    ]

    fresh_count-refresh :
        (test : Alert Body → Bool) (line : String) (rows : List (Alert Body))
        → fresh_count now line rows ≤ fresh_count now line (refresh test rows)
    unfolding update_row
    fresh_count-refresh test line [] = omega arith
    fresh_count-refresh test line (a ∷ rest) =
        let ih = fresh_count-refresh test line rest in
        elim (Bool-cases (test a)) [
          | inl hit ↦ let one = fresh-refreshed line a in rw (hit, one) (ground (arith, ih))
          | inr miss ↦ rw miss (omega (arith, ih))
        ]

    fresh-open_id :
        (line : String) (id : ℕ) (rows : List (Alert Body))
        → open_id line rows ≡ some id
        → 1 ≤ fresh_count now line (refresh (λ a. a.id == id) rows)
    unfolding update_row open_id
    fresh-open_id line id [] h = absurd (cc)
    fresh-open_id line id (a ∷ rest) h = elim (Bool-cases (is_open line a)) [
      | inl here ↦
          let same : a.id ≡ id = (let e = rw here at h in ground arith) in
          let hit : (a.id == id) ≡ true = ground arith in
          rw (hit, fresh-refreshed line a, here) (omega arith)
      | inr other ↦ let ih = fresh-open_id line id rest (rw other at h) in omega (arith, ih)
    ]

  module _ (now : ℕ) (line : String) (severity : Severity) (title : String) (body : Body)
      (t : Table Body) where
    abbrev upserted : Table Body
    upserted = upsert_active now line severity title body t

    upsert-update :
        (id : ℕ)
        → open_id line t.rows ≡ some id
        → upserted.rows ≡ refresh now severity title body (λ a. a.id == id) t.rows
    unfolding upsert_active
    upsert-update id e = rw (e, upsert_active) refl

    upsert-create :
        open_id line t.rows ≡ none
        → upserted.rows ≡ t.rows ++ created t.next_id now line severity title body ∷ []
    unfolding upsert_active
    upsert-create e = rw (e, upsert_active) refl

    -- Raising an alert leaves at least one alert of the line that has not expired, and takes none
    -- from any other line.
    pub upsert_fresh :
        (1 ≤ fresh_count now line upserted.rows)
        × ((asked : String) → fresh_count now asked t.rows ≤ fresh_count now asked upserted.rows)
    upsert_fresh = elim (Option-cases (open_id line t.rows)) [
      | inr (id, e) ↦ rw (upsert-update id e) (
        fresh-open_id now severity title body line id t.rows e,
        λ asked. fresh_count-refresh now severity title body (λ a. a.id == id) asked t.rows,
      )
      | inl e ↦
          let new = created t.next_id now line severity title body in
          rw (upsert-create e) (
            ground (
              arith,
              sum_of-append (λ a. bit (is_fresh now line a)) t.rows (new ∷ []),
              eq_refl line,
            ),
            λ asked.
                ground (arith, sum_of-append (λ a. bit (is_fresh now asked a)) t.rows (new ∷ [])),
          )
    ]

    pub IsWellFormed-upsert_active : IsWellFormed t → IsWellFormed upserted
    IsWellFormed-upsert_active h asked = elim (Option-cases (open_id line t.rows)) [
      | inr (id, e) ↦
          rw
            (
              upsert-update id e,
              open_count-refresh now severity title body (λ a. a.id == id) asked t.rows,
            )
            (h asked)
      | inl e ↦
          let new = created t.next_id now line severity title body in
          rw (upsert-create e, sum_of-append (λ a. bit (is_open asked a)) t.rows (new ∷ []))
            (elim (Bool-cases (str_eq line asked)) [
              | inl same ↦
                  let none_open = open_id-none line t.rows e in
                  rw (sym ((eq_iff line asked).0 same), eq_refl line) (omega (arith, none_open))
              | inr other ↦ rw other (omega (arith, h asked))
            ])
    ]
