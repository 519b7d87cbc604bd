-- ===== src/Realtime/Texts.antt =====
-- realtime/realtime.service.ts: the ids and the local times that the matcher compares, as texts.
-- `Number` is modelled on texts of digits and spaces.
use Prim.Native.Char.{code}
use Prim.Native.String
use typescript_starter.Common.{
  ℕ, zero, suc, ◌+◌, ◌-◌, ◌*◌, String, Option, none, some, List, [], ◌∷◌, Bool, true, false, ◌&&◌,
  ◌||◌, leb, ◌==◌, is_some, ◌>>=◌, all, if◌then◌else◌,
}
use typescript_starter.Common.Text.{to_upper, trim, split_at, utf16_length, first_chars}
use typescript_starter.History.LineIdentity.{truthy}

abbrev is_alphanumeric : ℕ → Bool
is_alphanumeric c = leb b'A' c && leb c b'Z' || leb b'0' c && leb c b'9'

alphanumerics : String → String
alphanumerics String.[] = String.[]
alphanumerics (String.◌∷◌ c s) =
    let rest = alphanumerics s in if is_alphanumeric (code c) then String.◌∷◌ c rest else rest

unfoldable pub normalise_id : Option String → Option String
unfolding alphanumerics to_upper
normalise_id id = truthy id >>= λ s. truthy (some (alphanumerics (to_upper s)))

digits : String → ℕ → Option ℕ
digits String.[] n = some n
digits (String.◌∷◌ c s) n =
    let rest = digits s (10 * n + (code c - b'0')) in
    if leb b'0' (code c) && leb (code c) b'9' then rest else none

-- `Number`; `none` is NaN. It makes 0 of a blank text.
unfoldable pub number : String → Option ℕ
unfolding digits trim
number s = digits (trim s) 0

seconds_of : List String → Option ℕ
unfolding number
seconds_of (h ∷ m ∷ []) = number h >>= λ x. number m >>= λ y. some (x * 3600 + y * 60 + 0)
seconds_of (h ∷ m ∷ s ∷ rest) = number h >>= λ x. number m >>= λ y. number s >>= λ z.
    if all (λ part. is_some (number part)) rest then some (x * 3600 + y * 60 + z) else none
seconds_of _ = none

unfoldable pub parse_time : String → Option ℕ
unfolding split_at seconds_of
parse_time value = seconds_of (split_at (λ c. c == b':') value)

abbrev pub within : ℕ → ℕ → ℕ → Bool
within a b tolerance = leb a (b + tolerance) && leb b (a + tolerance)

unfoldable pub times_within : Option String → Option String → ℕ → Bool
unfolding parse_time
times_within none none tolerance = true
times_within none (some b) tolerance = false
times_within (some a) none tolerance = false
times_within (some a) (some b) tolerance = elim (parse_time a) [
  | none ↦ false
  | some x ↦ elim (parse_time b) [ none ↦ false | some y ↦ within x y tolerance ]
]

unfoldable pub all_digits : String → Bool
all_digits String.[] = true
all_digits (String.◌∷◌ c s) = leb b'0' (code c) && leb (code c) b'9' && all_digits s

-- `s.slice(n)`
unfoldable pub from_char : ℕ → String → String
from_char zero s = s
from_char (suc n) String.[] = String.[]
from_char (suc n) (String.◌∷◌ c s) = from_char n s

-- `yyyy-mm-ddThh:mm:ss` of a date of eight digits.
unfoldable pub iso_start : String → String → String
unfolding first_chars from_char utf16_length
iso_start date time =
    let full_time = if utf16_length time == 5 then String.◌++◌ time ":00" else time in
    String.◌++◌ (first_chars 4 date) (
      String.◌++◌ "-" (
        String.◌++◌ (first_chars 2 (from_char 4 date)) (
          String.◌++◌ "-"
            (String.◌++◌ (first_chars 2 (from_char 6 date)) (String.◌++◌ "T" full_time)))))
