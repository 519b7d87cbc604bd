-- ===== src/Gtfs/Tests.antt =====
-- Rows and fields of a small GTFS file.

use typescript_starter.Common.{ℕ, ◌≤◌, String, none, List, [], ◌∷◌, ◌≡◌, refl}
use typescript_starter.Common.Dict.{lookup}
use typescript_starter.Common.Text.{to_lower, trim}
use typescript_starter.Gtfs.{dedupe_by_key, csv_field, normalize_csv_header, strip_utf8_bom}
use typescript_starter.Gtfs.Dedupe.{rows_at, row_at, last_at, dedupe_by_key-last}

abbrev stops : List (String × ℕ)
stops = ("s1", 1) ∷ ("", 2) ∷ ("s2", 3) ∷ ("s1", 4) ∷ []

abbrev stop_id : String × ℕ → String
stop_id s = s.0

dedupe_by_key-last_example :
    (rows_at stop_id "s1" (dedupe_by_key stop_id stops) ≤ 1)
    × (row_at stop_id "s1" (dedupe_by_key stop_id stops) ≡ last_at stop_id "s1" stops none)
dedupe_by_key-last_example = dedupe_by_key-last stop_id stops "s1" refl

field_tests :
    (csv_field (("Stop_ID ", "7") ∷ []) "stop_id" ≡ "7")
    × (csv_field (("stop_id", "") ∷ ("STOP_ID", "8") ∷ []) "stop_id" ≡ "")
    × (csv_field [] "stop_id" ≡ "")
    × (strip_utf8_bom (0xef ∷ 0xbb ∷ 0xbf ∷ 65 ∷ []) ≡ 65 ∷ [])
unfolding csv_field normalize_csv_header strip_utf8_bom to_lower trim lookup
field_tests = (refl, refl, refl, refl)
