-- ===== src/Gtfs/Dedupe.antt =====
-- The rows that one INSERT ... ON CONFLICT may have, dedupeByKey of gtfs-static/gtfs-ingest.util.ts.

use typescript_starter.Common.{
  ℕ, ◌≤◌, ◌==◌, String, Option, none, some, List, [], ◌∷◌, true, false, ◌&&◌, ◌≡◌, refl, sym, ap,
  ◌∙◌, inl, inr, str_eq, eq_iff, eq_refl, count_if, All, if◌then◌else◌, Bool-cases, arith,
}
use typescript_starter.Common.Dict.{Dict, lookup, insert, lookup-insert}
use typescript_starter.Gtfs.{values, collect, dedupe_by_key}

module _ {T : Type 0} (key_fn : T → String) where
  abbrev pub rows_at : String → List T → ℕ
  rows_at key rows = count_if (λ r. str_eq (key_fn r) key) rows

  -- The last row of a list with the key, or else what stands before.
  unfoldable pub last_at : String → List T → Option T → Option T
  last_at key [] before = before
  last_at key (r ∷ rows) before =
      last_at key rows (if str_eq (key_fn r) key then some r else before)

  -- The first row with the key.
  unfoldable pub row_at : String → List T → Option T
  row_at key [] = none
  row_at key (r ∷ rows) = if str_eq (key_fn r) key then some r else row_at key rows

  -- Every row stands under its own key.
  abbrev IsKeyed : Dict T → Type 0
  IsKeyed m = All (λ e. str_eq (key_fn e.1) e.0 ≡ true) m

  insert-IsKeyed : (r : T) (m : Dict T) → IsKeyed m → IsKeyed (insert (key_fn r) r m)
  unfolding insert
  insert-IsKeyed r [] h = (eq_refl (key_fn r), tt)
  insert-IsKeyed r ((k, v) ∷ rest) (p, h) = elim (Bool-cases (str_eq k (key_fn r))) [
    | inl same ↦ rw same (eq_refl (key_fn r), h)
    | inr other ↦ rw other (p, insert-IsKeyed r rest h)
  ]

  row_at-values : (key : String) (m : Dict T) → IsKeyed m → row_at key (values m) ≡ lookup key m
  unfolding row_at values lookup
  row_at-values key [] h = refl
  row_at-values key ((k, v) ∷ rest) (p, h) =
      rw ((eq_iff (key_fn v) k).0 p) (ground (arith, row_at-values key rest h))

  rows_at-insert :
      (key : String) (r : T) (m : Dict T)
      → IsKeyed m
      → rows_at key (values (insert (key_fn r) r m)) ≡ (
          if str_eq (key_fn r) key && rows_at key (values m) == 0
          then 1
          else rows_at key (values m))
  unfolding values insert
  rows_at-insert key r [] h = ground arith
  rows_at-insert key r ((k, v) ∷ rest) (p, h) =
      let own : key_fn v ≡ k = (eq_iff (key_fn v) k).0 p in
      rw (sym own) (
        ground (
          arith,
          rows_at-insert key r rest h,
          eq_iff (key_fn v) (key_fn r),
          eq_iff (key_fn v) key,
          eq_iff (key_fn r) key,
        ))

  -- What the loop keeps, for a key that is not empty.
  collect-rows :
      (key : String) (rows : List T) (m : Dict T)
      → str_eq key "" ≡ false
      → IsKeyed m
      → rows_at key (values m) ≤ 1
      → (rows_at key (values (collect key_fn rows m)) ≤ 1)
        × (row_at key (values (collect key_fn rows m)) ≡ last_at key rows (lookup key m))
  unfolding collect last_at
  collect-rows key [] m filled keyed few = (few, row_at-values key m keyed)
  collect-rows key (r ∷ rows) m filled keyed few = elim (Bool-cases (str_eq (key_fn r) "")) [
    | inl empty ↦
        let other : str_eq (key_fn r) key ≡ false =
          ground (arith, eq_iff (key_fn r) "", eq_iff (key_fn r) key, empty, filled, eq_refl key) in
        rw (empty, other) (collect-rows key rows m filled keyed few)
    | inr full ↦
        let next =
          collect-rows key rows (insert (key_fn r) r m) filled (insert-IsKeyed r m keyed)
            (rw (rows_at-insert key r m keyed) (ground (arith, few))) in
        rw full (next.0, next.1 ∙ ap (last_at key rows) (lookup-insert (key_fn r) key r m))
  ]

  -- For every key that is not empty, the result of dedupeByKey has at most one row with the key, and
  -- that is the last of the given rows with it.
  pub dedupe_by_key-last :
      (rows : List T) (key : String)
      → str_eq key "" ≡ false
      → (rows_at key (dedupe_by_key key_fn rows) ≤ 1)
        × (row_at key (dedupe_by_key key_fn rows) ≡ last_at key rows none)
  unfolding dedupe_by_key values lookup
  dedupe_by_key-last rows key filled = collect-rows key rows [] filled tt (omega arith)
