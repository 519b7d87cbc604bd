-- ===== src/Realtime/Clock.antt =====
-- realtime/gtfs-time.util.ts: the instant of a stop time of the static schedule. Date.UTC, in
-- milliseconds from 1970 on, and the name that Intl prints for the offset of Sydney are parameters.
use Prim.Native.Char.{code}
use typescript_starter.Common.{
  ℕ, zero, suc, ◌+◌, ◌-◌, ◌*◌, ◌/◌, String, Option, none, some, List, [], ◌∷◌, Bool, ◌==◌, leb,
  ◌&&◌, or_else, str_eq, ◌>>=◌, if◌then◌else◌,
}
use typescript_starter.Common.Int.{ℤ, pos, negsuc, pos_part, neg_part}
use typescript_starter.Common.Text.{starts_with, split_at, first_chars, leading}
use typescript_starter.Realtime.Texts.{number, from_char}

abbrev negated : ℕ → ℤ
negated zero = pos 0
negated (suc n) = negsuc n

abbrev is_digit : ℕ → Bool
is_digit c = leb b'0' c && leb c b'9'

-- `[+-]\d+` at the start of a text, as the number that parseInt makes of it.
signed_hours : String → Option ℤ
unfolding leading number
signed_hours String.[] = none
signed_hours (String.◌∷◌ c s) =
    let digits = leading is_digit s in
    if str_eq digits ""
    then none
    else if code c == b'+'
    then (number digits >>= λ n. some (pos n))
    else if code c == b'-'
    then (number digits >>= λ n. some (negated n))
    else none

-- The first match of `GMT([+-]\d+)`.
gmt_hours : String → Option ℤ
unfolding signed_hours starts_with from_char
gmt_hours String.[] = none
gmt_hours (String.◌∷◌ c s) =
    let later = gmt_hours s in
    let here = if starts_with "GMT" (String.◌∷◌ c s) then signed_hours (from_char 2 s) else none in
    elim here [ some hours ↦ some hours | none ↦ later ]

module _ (intl_offset_name : ℕ → Option String) (date_utc : ℕ → ℕ → ℕ → ℕ → ℕ → ℕ → ℕ) where
  unfoldable pub sydney_offset_hours : ℕ → ℤ
  unfolding gmt_hours
  sydney_offset_hours utc_guess =
      or_else (gmt_hours (or_else (intl_offset_name utc_guess) "GMT+10")) (pos 10)

  abbrev epoch_of : ℕ → ℕ → ℕ → List String → Option ℕ
  unfolding sydney_offset_hours number
  epoch_of year month day (h ∷ m ∷ s ∷ []) = number h >>= λ hours. number m >>= λ minutes.
      number s >>= λ seconds.
      let utc_guess = date_utc year (month - 1) day hours minutes seconds in
      let offset = sydney_offset_hours utc_guess in
      some ((utc_guess + neg_part offset * 3600000 - pos_part offset * 3600000) / 1000)
  epoch_of year month day _ = none

  -- `Number(text)`, unless it is falsy: NaN or 0.
  abbrev positive_number : String → Option ℕ
  unfolding number
  positive_number text = number text >>= λ n. if n == 0 then none else some n

  unfoldable pub gtfs_scheduled_epoch_seconds : String → String → Option ℕ
  unfolding number first_chars from_char split_at sydney_offset_hours
  gtfs_scheduled_epoch_seconds start_date hhmmss =
      positive_number (first_chars 4 start_date) >>= λ year.
      positive_number (first_chars 2 (from_char 4 start_date)) >>= λ month.
      positive_number (first_chars 2 (from_char 6 start_date)) >>= λ day.
      epoch_of year month day (split_at (λ c. c == b':') hhmmss)
