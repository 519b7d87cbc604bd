-- ===== src/History/Aggregate/Entries.antt =====
-- The map `byLine` of aggregateHistorySample, and the closure `acc` that gets or creates an entry.
use Prim.Native.String
use typescript_starter.Common.{ℕ, ◌+◌, String, ◌≡◌, sym, arith, or_else, Option-cases, inl, inr}
use typescript_starter.Common.Dict.{
  Dict, lookup, insert, total, total-insert, weight, Values, Values-insert, Values-lookup,
}
use typescript_starter.History.Accumulator.{LineAccumulator, empty_accumulator}

abbrev pub ByLine : Type 0
ByLine = Dict LineAccumulator

-- `${mode}|${line}`
unfoldable pub line_key : String → String → String
line_key mode line = String.◌++◌ mode (String.◌++◌ "|" line)

module _ (scheduled : Dict ℕ) (mode line : String) where
  abbrev pub fresh_entry : LineAccumulator
  fresh_entry = record (empty_accumulator mode) {
    scheduled_trips = or_else (lookup (line_key mode line) scheduled) 0;
  }

  abbrev pub entry_of : ByLine → LineAccumulator
  entry_of by_line = or_else (lookup (line_key mode line) by_line) fresh_entry

abbrev pub put_entry : String → String → LineAccumulator → ByLine → ByLine
put_entry mode line e by_line = insert (line_key mode line) e by_line

module _ (scheduled : Dict ℕ) (mode line : String) where
  -- A property that the update keeps, and that a fresh entry has, is kept for all entries.
  pub Values-put_entry :
      (P : LineAccumulator → Type 0) (change : LineAccumulator → LineAccumulator)
      → P (fresh_entry scheduled mode line)
      → ((e : LineAccumulator) → P e → P (change e))
      → (by_line : ByLine) → Values P by_line
      → Values P (put_entry mode line (change (entry_of scheduled mode line by_line)) by_line)
  Values-put_entry P change fresh keeps by_line h =
      elim (Option-cases (lookup (line_key mode line) by_line)) [
        | inl absent ↦ rw absent (Values-insert P (line_key mode line) _ by_line (keeps _ fresh) h)
        | inr (e, found) ↦ rw found (
            Values-insert P (line_key mode line) _ by_line
              (keeps e (Values-lookup P (line_key mode line) by_line h found)) h)
      ]

  weight-eq-entry_of :
      (f : LineAccumulator → ℕ)
      → f (fresh_entry scheduled mode line) ≡ 0
      → (by_line : ByLine)
      → weight f (lookup (line_key mode line) by_line) ≡ f (entry_of scheduled mode line by_line)
  weight-eq-entry_of f fresh by_line = elim (Option-cases (lookup (line_key mode line) by_line)) [
    | inl absent ↦ rw absent (sym fresh)
    | inr (e, found) ↦ rw found
  ]

  -- An update that raises a counter by `n` raises its sum over the lines by `n`.
  pub total-put_entry :
      (f : LineAccumulator → ℕ) (change : LineAccumulator → LineAccumulator) (n : ℕ)
      → f (fresh_entry scheduled mode line) ≡ 0
      → ((e : LineAccumulator) → f (change e) ≡ f e + n)
      → (by_line : ByLine)
      → total f (put_entry mode line (change (entry_of scheduled mode line by_line)) by_line)
        ≡ total f by_line + n
  total-put_entry f change n fresh raises by_line =
      let old = entry_of scheduled mode line by_line in
      omega (
        arith,
        total-insert f (line_key mode line) (change old) by_line,
        weight-eq-entry_of f fresh by_line,
        raises old,
      )
