-- ===== src/Audit/Pages/Walk.antt =====
-- Reading the audit trail page by page, audit/audit.service.ts: a cursor is read as it was written,
-- and the pages together are the whole answer.

use mathlib.Core.List.{append_assoc}
use typescript_starter.Common.{
  ℕ, zero, suc, ◌+◌, ◌^◌, ◌-◌, ◌≤◌, ◌<◌, String, Option, none, some, List, [], ◌∷◌, ◌++◌, Bool,
  true, false, ◌&&◌, ◌≡◌, refl, sym, ap, ◌∙◌, inl, inr, ltb, leb, or_else, ◌>>=◌, str_eq, keep,
  take, length, length-append, All, Bool-cases, arith,
}
use typescript_starter.Common.Text.{utf16_length}
use typescript_starter.Audit.Events.{EventRow}
use typescript_starter.Audit.Records.{entry}
use typescript_starter.Audit.Query.{
  Platform, Query, cursor_value, encode_cursor, decode_cursor, cursor_condition, is_after, matches,
  valid_query, valid_fields,
}
use typescript_starter.Audit.Pages.{Page, page_of, query_page, sort_rows}
use typescript_starter.Audit.Pages.Order.{
  IsDistinct, IsSorted, sort_rows-IsSorted, keep-IsDistinct, keep-sort_rows, All-kept, All-sort,
}
use typescript_starter.Audit.Pages.Cuts.{
  split_row, last_row-append, take-take, take_whole, length-take, keep-and, keep_everything,
  nothing_cut, length-sort_rows, All-middle, keep-after,
}

and-other : (a b c d : Bool) → (a && (b && d)) ≡ true → c ≡ true → (a && (c && d)) ≡ true
and-other a b c d h k = ground (arith, h, k)

within_safe : (n : ℕ) → n ≤ 2 ^ 53 - 1 → leb n (2 ^ 53 - 1) ≡ true
within_safe n h = ground arith

module _ (p : Platform) where
  -- The cursor of a row, where its sequence number is a safe integer, is decoded to the time and the
  -- sequence number of the row.
  pub decode-encode_cursor :
      (r : EventRow)
      → r.sequence ≤ 2 ^ 53 - 1
      → decode_cursor p (encode_cursor p r) ≡ some (r.occurred_at, r.sequence)
  unfolding decode_cursor encode_cursor entry
  decode-encode_cursor r safe =
      rw
        (
          p.from-base64url
              (p.stringify (cursor_value (p.to_iso r.occurred_at) (p.number_text r.sequence))),
          p.parse-stringify (p.to_iso r.occurred_at) (p.number_text r.sequence),
          p.date_parse-to_iso r.occurred_at,
          p.integer-number_text r.sequence,
          within_safe r.sequence safe,
        )
        refl

  -- What the cursor of a row needs to be accepted: a safe sequence number, and a length that the
  -- validation of queries allows.
  abbrev pub IsReadable : EventRow → Type 0
  IsReadable r =
      (r.sequence ≤ 2 ^ 53 - 1)
      × (str_eq (encode_cursor p r) "" ≡ false)
      × (leb (utf16_length (encode_cursor p r)) 1000 ≡ true)

  -- A client that follows the cursors, on fuel; `none` where a query fails or the fuel is used up.
  unfoldable pub walk : ℕ → List EventRow → Query → Option (List EventRow)
  walk zero table q = none
  walk (suc fuel) table q = query_page p table q >>= λ page. elim page.next_cursor [
    | none ↦ some page.rows
    | some c ↦ walk fuel table (record q { cursor = some c }) >>= λ later. some (page.rows ++ later)
  ]

  valid_query-cursor :
      (q : Query) (c : EventRow)
      → valid_query p q ≡ true
      → IsReadable c
      → valid_query p (record q { cursor = some (encode_cursor p c) }) ≡ true
  unfolding valid_query valid_fields
  valid_query-cursor q c h readable = and-other _ _ _ _ h readable.2

  cursor_condition-cursor :
      (c : EventRow)
      → IsReadable c
      → cursor_condition p (some (encode_cursor p c)) ≡ some (is_after c.occurred_at c.sequence)
  unfolding cursor_condition
  cursor_condition-cursor c readable =
      rw (readable.1, cursor_condition, decode-encode_cursor c readable.0) refl

  -- A page is the last one, or the next one starts behind its last row.
  data PageOf (rows : List EventRow) : Page → Type 0 where
    last_page : PageOf rows (record { rows = rows; next_cursor = none })
    more :
        (before : List EventRow) (c : EventRow) (after : List EventRow)
        → rows ≡ before ++ c ∷ after
        → PageOf rows (record { rows = before ++ c ∷ []; next_cursor = some (encode_cursor p c) })

  page_of-PageOf :
      (l : ℕ) (rows : List EventRow) → PageOf rows (page_of p (suc l) (take (suc l + 1) rows))
  unfolding page_of
  page_of-PageOf l rows = elim (Bool-cases (ltb (suc l) (length rows))) [
    | inr fits ↦
        let all_rows : take (suc l + 1) rows ≡ rows =
          take_whole (suc l + 1) rows (ground (arith, fits)) in
        rw (all_rows, fits, page_of) last_page
    | inl longer ↦
        let (before, c, after, e, k) = split_row l rows (ground (arith, longer)) in
        let two : suc l + 1 ≡ suc (suc l) = omega arith in
        let full : length (take (suc (suc l)) rows) ≡ suc (suc l) =
          length-take (suc l) rows (ground (arith, longer)) in
        let past : ltb (suc l) (suc (suc l)) ≡ true = ground arith in
        rw (two, full, past, take-take (suc l) rows, k, last_row-append before c, page_of)
          (more before c after e)
  ]

  module _ (table : List EventRow) (distinct : IsDistinct table) (q : Query) (l : ℕ)
      (limit : or_else q.limit 50 ≡ suc l) where
    abbrev at_cursor : Option String → Query
    at_cursor k = record q { cursor = k }

    query_page-page :
        (k : Option String) (a : EventRow → Bool) (rows : List EventRow)
        → valid_query p (at_cursor k) ≡ true
        → cursor_condition p k ≡ some a
        → sort_rows (keep (λ r. matches p q r && a r) table) ≡ rows
        → query_page p table (at_cursor k) ≡ some (page_of p (suc l) (take (suc l + 1) rows))
    unfolding query_page matches
    query_page-page k a rows valid condition e = rw (valid, condition, limit, e, query_page) refl

    behind_cursor :
        (before : List EventRow) (c : EventRow) (after : List EventRow)
        → sort_rows (keep (matches p q) table) ≡ before ++ c ∷ after
        → sort_rows (keep (λ r. matches p q r && is_after c.occurred_at c.sequence r) table) ≡ after
    behind_cursor before c after split =
        let matching = keep (matches p q) table in
        let fine = keep-IsDistinct (matches p q) table distinct in
        let sorted : IsSorted (before ++ c ∷ after) =
          rw split at (sort_rows-IsSorted matching fine) in
        ap sort_rows (keep-and (matches p q) (is_after c.occurred_at c.sequence) table)
        ∙ sym (keep-sort_rows (is_after c.occurred_at c.sequence) matching fine)
        ∙ ap (keep (is_after c.occurred_at c.sequence)) split
        ∙ keep-after before c after sorted

    -- What the client has, where the rest of the walk yields what is behind the page.
    follow :
        (fuel : ℕ) (rows : List EventRow) (page : Page)
        → PageOf rows page
        → ((before : List EventRow) (c : EventRow) (after : List EventRow)
            → rows ≡ before ++ c ∷ after
            → walk fuel table (at_cursor (some (encode_cursor p c))) ≡ some after)
        → (elim page.next_cursor [
          | none ↦ some page.rows
          | some c ↦ walk fuel table (at_cursor (some c)) >>= λ later. some (page.rows ++ later)
        ])
          ≡ some rows
    follow fuel rows _ last_page go = refl
    follow fuel rows _ (more b c after e) go =
        rw (go b c after e) (ap some (append_assoc b (c ∷ []) after ∙ sym e))

    walk-from :
        (fuel : ℕ) (k : Option String) (a : EventRow → Bool) (before rows : List EventRow)
        → valid_query p (at_cursor k) ≡ true
        → cursor_condition p k ≡ some a
        → sort_rows (keep (λ r. matches p q r && a r) table) ≡ rows
        → sort_rows (keep (matches p q) table) ≡ before ++ rows
        → All IsReadable rows
        → length rows < fuel
        → walk fuel table (at_cursor k) ≡ some rows
    unfolding walk
    walk-from zero k a before rows valid condition e split readable enough =
        absurd (omega (arith, enough))
    walk-from (suc fuel) k a before rows valid condition e split readable enough =
        rw (query_page-page k a rows valid condition e) (
          follow fuel rows (page_of p (suc l) (take (suc l + 1) rows)) (page_of-PageOf l rows)
            (λ b c after e'.
              let whole : sort_rows (keep (matches p q) table) ≡ (before ++ b) ++ c ∷ after =
                split ∙ ap (λ xs. before ++ xs) e' ∙ sym (append_assoc before b (c ∷ after)) in
              let behind = All-middle IsReadable b c after (rw e' at readable) in
              let size : length rows ≡ length b + suc (length after) =
                ap length e' ∙ length-append b (c ∷ after) in
              walk-from fuel (some (encode_cursor p c)) (is_after c.occurred_at c.sequence)
                ((before ++ b) ++ c ∷ []) after (valid_query-cursor (at_cursor k) c valid behind.0)
                (cursor_condition-cursor c behind.0) (behind_cursor (before ++ b) c after whole)
                (whole ∙ sym (append_assoc (before ++ b) (c ∷ []) after)) behind.1
                (omega (arith, size, enough))))

    -- From a query without a cursor that is valid, over rows with distinct sequence numbers and with
    -- readable cursors, a client that follows the cursors ends, on any fuel above the number of rows
    -- that match, and has then got exactly these rows, each once, in the order of the query.
    pub walk_complete :
        (fuel : ℕ)
        → q.cursor ≡ none
        → valid_query p q ≡ true
        → All IsReadable table
        → length (keep (matches p q) table) < fuel
        → walk fuel table q ≡ some (sort_rows (keep (matches p q) table))
    unfolding cursor_condition
    walk_complete fuel no_cursor valid readable enough =
        let matching = keep (matches p q) table in
        let unconditional : keep (λ r. matches p q r && true) table ≡ matching =
          keep-and (matches p q) (λ r. true) table
          ∙ keep_everything (λ r. true) matching (nothing_cut matching) in
        walk-from fuel q.cursor (λ r. true) [] (sort_rows matching) valid (rw no_cursor refl)
          (ap sort_rows unconditional) refl
          (All-sort IsReadable matching (All-kept IsReadable (matches p q) table readable))
          (omega (arith, length-sort_rows matching, enough))
