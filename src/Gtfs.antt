-- ===== src/Gtfs.antt =====
-- gtfs-static/gtfs-ingest.util.ts: the cleaning of the rows and fields of static GTFS files before they
-- are stored. parseFloat and the texts of errors are left out.
pub mod Dedupe
mod Tests
use Prim.Native.Char.{code}
use Prim.Native.String
use typescript_starter.Common.{
  ℕ, ◌+◌, ◌-◌, ◌*◌, String, Option, none, some, List, [], ◌∷◌, Bool, true, false, ◌&&◌, leb, ◌==◌,
  str_eq, or_else, if◌then◌else◌,
}
use typescript_starter.Common.Dict.{Dict, lookup, insert}
use typescript_starter.Common.Text.{to_lower, trim}

-- `[...map.values()]`
unfoldable pub values : {T : Type 0} → Dict T → List T
values [] = []
values ((key, row) ∷ rest) = row ∷ values rest

module _ {T : Type 0} (key_fn : T → String) where
  -- The loop: rows with an empty key are passed over.
  unfoldable pub collect : List T → Dict T → Dict T
  unfolding insert
  collect [] m = m
  collect (row ∷ rows) m =
      collect rows (if str_eq (key_fn row) "" then m else insert (key_fn row) row m)

  unfoldable pub dedupe_by_key : List T → List T
  unfolding collect values
  dedupe_by_key rows = values (collect rows [])

unfoldable pub strip_utf8_bom : List ℕ → List ℕ
strip_utf8_bom (a ∷ b ∷ c ∷ rest) =
    if a == 0xef && b == 0xbb && c == 0xbf then rest else a ∷ b ∷ c ∷ rest
strip_utf8_bom bytes = bytes

without_bom : String → String
without_bom String.[] = String.[]
without_bom (String.◌∷◌ c s) = if code c == 0xfeff then s else String.◌∷◌ c s

unfoldable pub normalize_csv_header : String → String
unfolding without_bom trim
normalize_csv_header header = trim (without_bom header)

by_header : String → Dict String → String
unfolding normalize_csv_header to_lower
by_header lower [] = ""
by_header lower ((key, value) ∷ rest) =
    if str_eq (to_lower (normalize_csv_header key)) lower then value else by_header lower rest

unfoldable pub csv_field : Dict String → String → String
unfolding by_header lookup to_lower
csv_field fields name =
    if str_eq (or_else (lookup name fields) "") ""
    then by_header (to_lower name) fields
    else or_else (lookup name fields) ""
