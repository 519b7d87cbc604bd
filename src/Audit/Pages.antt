-- ===== src/Audit/Pages.antt =====
-- audit/audit.service.ts, the reading side: the answer of a query in pages that a cursor links.
pub mod Order
pub mod Cuts
pub mod Walk
use Prim.Native.String
use typescript_starter.Common.{
  ℕ, zero, suc, ◌+◌, ◌-◌, ◌*◌, ◌^◌, ◌≤◌, String, Option, none, some, List, [], ◌∷◌, ◌++◌, Bool,
  true, false, not, ◌&&◌, ◌||◌, ◌≡◌, ltb, leb, ◌==◌, or_else, is_some, ◌>>=◌, str_eq, any, all,
  contains, keep, take, length, if◌then◌else◌,
}
use typescript_starter.Common.Text.{utf16_length}
use typescript_starter.History.LineIdentity.{truthy}
use typescript_starter.Audit.Redaction.{Value, text, number, object, Fields, field, end}
use typescript_starter.Audit.Events.{
  ActorType, user, api_key, system, anonymous, Outcome, attempted, succeeded, failed, denied,
  Severity, info, warning, high, critical, Source, EventRow,
}
use typescript_starter.Audit.Records.{entry}
use typescript_starter.Audit.Query.{
  cursor_value, Platform, Query, is_after, encode_cursor, decode_cursor, matches, valid_range,
  valid_fields, valid_query, cursor_condition,
}

pub record Page : Type 0 where
  pub rows : List EventRow
  pub next_cursor : Option String

-- ORDER BY occurred_at DESC, sequence DESC
unfoldable pub insert_row_sorted : EventRow → List EventRow → List EventRow
insert_row_sorted r [] = r ∷ []
insert_row_sorted r (s ∷ rest) =
    if is_after r.occurred_at r.sequence s then r ∷ s ∷ rest else s ∷ insert_row_sorted r rest

unfoldable pub sort_rows : List EventRow → List EventRow
unfolding insert_row_sorted
sort_rows [] = []
sort_rows (r ∷ rest) = insert_row_sorted r (sort_rows rest)

abbrev pub last_row : List EventRow → Option EventRow
last_row [] = none
last_row (r ∷ []) = some r
last_row (r ∷ s ∷ rest) = last_row (s ∷ rest)

module _ (p : Platform) where
  -- The rows of SELECT ... LIMIT limit + 1, cut at the limit.
  unfoldable pub page_of : ℕ → List EventRow → Page
  unfolding encode_cursor
  page_of limit rows =
      let has_more = ltb limit (length rows) in
      let shown = if has_more then take limit rows else rows in
      record {
        rows = shown;
        next_cursor =
            if has_more
            then elim (last_row shown) [ none ↦ none | some r ↦ some (encode_cursor p r) ]
            else none;
      }

  -- `query`: `none` where it throws.
  unfoldable pub query_page : List EventRow → Query → Option Page
  unfolding valid_query cursor_condition sort_rows matches page_of
  query_page table q =
      if valid_query p q
      then (cursor_condition p q.cursor >>= λ condition.
          let limit = or_else q.limit 50 in
          some (
            page_of limit
              (take (limit + 1) (sort_rows (keep (λ r. matches p q r && condition r) table)))))
      else none
