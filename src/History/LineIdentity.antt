-- ===== src/History/LineIdentity.antt =====
-- history/line-identity.util.ts and line-identity.map.json: the line badge of a route or trip.
-- `toUpperCase` is modelled on ASCII letters, which the route and trip ids of the feeds use.
use typescript_starter.Common.{
  ℕ, String, Option, none, some, List, [], ◌∷◌, Bool, ◌≡◌, refl, str_eq, leb, ◌==◌, ◌&&◌, ◌||◌,
  ◌>>=◌, if◌then◌else◌,
}
use typescript_starter.Common.Dict.{Dict, lookup}
use typescript_starter.Common.Text.{to_upper, trim, split_at, leading, is_space, utf16_length}

-- line-identity.map.json without the keys that start with "_".
abbrev pub family_to_line : Dict String
family_to_line =
    ("NSN", "T1")
    ∷ ("WST", "T1")
    ∷ ("NTHW", "T1")
    ∷ ("IWL", "T2")
    ∷ ("LEP", "T2")
    ∷ ("BNK", "T3")
    ∷ ("LVP", "T3")
    ∷ ("ESI", "T4")
    ∷ ("ILL", "T4")
    ∷ ("CMB", "T5")
    ∷ ("CAR", "T6")
    ∷ ("LDB", "T6")
    ∷ ("OLY", "T7")
    ∷ ("APS", "T8")
    ∷ ("NTH", "T9")
    ∷ ("BMT", "BMT")
    ∷ ("CCN", "CCN")
    ∷ ("HUN", "HUN")
    ∷ ("SCO", "SCO")
    ∷ ("SHL", "SHL")
    ∷ ("M1", "M1")
    ∷ ("SMNW", "M1")
    ∷ ("MTRO", "M1")
    ∷ []

pub record RouteMetadata : Type 0 where
  pub line_code : String

-- A text is truthy when it is there and not empty.
abbrev pub truthy : Option String → Option String
truthy none = none
truthy (some s) = if str_eq s "" then none else some s

abbrev is_separator : ℕ → Bool
is_separator c = c == b'.' || c == b'_' || c == b'-'

abbrev first : Option String → Option String → Option String
first none b = b
first (some a) b = some a

-- The body of the inner loop: the segment itself, then its leading letters.
segment_line : String → Option String
unfolding lookup leading
segment_line segment = first (lookup segment family_to_line) (do
  prefix ← truthy (some (leading (λ c. leb b'A' c && leb c b'Z') segment))
  lookup prefix family_to_line)

scan_segments : List String → Option String
unfolding segment_line
scan_segments [] = none
scan_segments (s ∷ ss) = first (segment_line s) (scan_segments ss)

scan_source : Option String → Option String
unfolding scan_segments split_at to_upper
scan_source source = do
  s ← truthy source
  scan_segments (split_at (λ c. is_separator c || is_space c) (to_upper s))

abbrev head_or : List String → String → String
head_or [] d = d
head_or (x ∷ xs) d = x

-- The raw family, if it has between one and six characters.
raw_family : Option String → String
unfolding split_at to_upper utf16_length
raw_family none = "OTHER"
raw_family (some route_id) =
    let family = head_or (split_at is_separator (to_upper route_id)) "" in
    if str_eq family "" then "OTHER" else if leb (utf16_length family) 6 then family else "OTHER"

unfoldable pub line_for : Option String → Option String → String
unfolding scan_source raw_family
line_for route_id trip_id = elim (first (scan_source route_id) (scan_source trip_id)) [
  | none ↦ raw_family route_id
  | some line ↦ line
]

abbrev metadata_code : Option String → Dict RouteMetadata → Option String
metadata_code route_id metadata = do
  route ← truthy route_id
  found ← lookup route metadata
  truthy (some (trim found.line_code))

unfoldable pub resolve_line : Option String → Option String → Dict RouteMetadata → String
unfolding line_for lookup trim to_upper
resolve_line route_id trip_id metadata = elim (metadata_code route_id metadata) [
  | none ↦ line_for route_id trip_id
  | some code ↦ to_upper code
]

line_for_tests :
    (line_for (some "CCN_1a") none ≡ "CCN")
    × (line_for (some "2459_1") (some "x.NSN.1") ≡ "T1")
    × (line_for (some "bus-99") none ≡ "BUS")
    × (line_for none none ≡ "OTHER")
    × (line_for (some "SMNW_M1") none ≡ "M1")
unfolding line_for
line_for_tests = (refl, refl, refl, refl, refl)
