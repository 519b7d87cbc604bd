-- ===== src/Audit/Redaction.antt =====
-- audit/audit.redaction.ts: what of a JSON value may stand in an audit event. A number is the text
-- that JSON writes; a value of another kind (`other`) is the text that `String` makes of it. A cut
-- between the two halves of a surrogate pair drops both.
pub mod Clean
use Prim.Native.Char.{code}
use Prim.Native.String
use Prim.Native.String.{[], ◌∷◌}
use typescript_starter.Common.{
  ℕ, ◌+◌, ◌-◌, String, Option, none, some, Bool, true, false, not, ◌&&◌, ◌||◌, ltb, leb, ◌==◌,
  or_else, is_some, str_eq, if◌then◌else◌,
}
use typescript_starter.Common.Text.{trim, utf16_length, after_prefix}

mutual
  pub data Value : Type 0 where
    null : Value
    text : String → Value
    number : String → Value
    flag : Bool → Value
    date : String → Value
    array : Items → Value
    object : Fields → Value
    other : String → Value

  pub data Items : Type 0 where
    nil : Items
    cons : Value → Items → Items

  pub data Fields : Type 0 where
    end : Fields
    field : String → Value → Fields → Fields

abbrev pub max_depth : ℕ
max_depth = 6

abbrev pub max_array : ℕ
max_array = 100

abbrev pub max_string : ℕ
max_string = 2000

-- The control characters that the pattern removes: all below the space but tab, line feed and
-- carriage return.
abbrev pub is_control : ℕ → Bool
is_control c = leb c 8 || c == 0xb || c == 0xc || leb 0xe c && leb c 0x1f

strip_control : String → String
strip_control [] = []
strip_control (c ∷ s) = let rest = strip_control s in if is_control (code c) then rest else c ∷ rest

-- `s.slice(0, max)`
slice_units : ℕ → String → String
slice_units max [] = []
slice_units max (c ∷ s) =
    let units = if leb 0x10000 (code c) then 2 else 1 in
    let rest = slice_units (max - units) s in if leb units max then c ∷ rest else []

unfoldable pub bounded_string : String → ℕ → String
unfolding strip_control slice_units
bounded_string value max = slice_units max (strip_control value)

-- A pattern of the alternatives, at some place of the text, in any case of its letters.
unfoldable pub has_word : String → String → Bool
unfolding after_prefix
has_word word [] = false
has_word word (c ∷ s) = is_some (after_prefix word (c ∷ s)) || has_word word s

-- The character is one UTF-16 unit, and ends no line.
abbrev is_dot : ℕ → Bool
is_dot c = not (leb 0x10000 c || c == 10 || c == 13 || c == 0x2028 || c == 0x2029)

-- The second word comes at once, or after one character that `.` matches: one UTF-16 unit that
-- ends no line.
follows : String → Option String → Bool
unfolding after_prefix
follows second none = false
follows second (some []) = false
follows second (some (c ∷ s)) =
    is_some (after_prefix second (c ∷ s)) || is_dot (code c) && is_some (after_prefix second s)

unfoldable pub has_pair : String → String → String → Bool
unfolding after_prefix follows
has_pair first second [] = false
has_pair first second (c ∷ s) =
    follows second (after_prefix first (c ∷ s)) || has_pair first second s

-- SENSITIVE_KEY.test(key)
unfoldable pub is_sensitive : String → Bool
unfolding has_word has_pair
is_sensitive key =
    has_word "authorization" key
    || has_word "cookie" key
    || has_word "password" key
    || has_word "passwd" key
    || has_word "secret" key
    || has_word "token" key
    || has_word "credential" key
    || has_pair "api" "key" key
    || has_word "firebase" key
    || has_pair "private" "key" key
    || has_word "session" key

-- `result[key] = value`: a key that is there keeps its place.
unfoldable pub put_field : String → Value → Fields → Fields
put_field key value end = field key value end
put_field key value (field k v rest) =
    if str_eq k key then field key value rest else field k v (put_field key value rest)

unfoldable mutual
  unfolding bounded_string is_sensitive put_field

  pub redact_audit_value : Value → ℕ → Value
  redact_audit_value null depth = if ltb max_depth depth then text "[TRUNCATED]" else null
  redact_audit_value (text s) depth =
      if ltb max_depth depth then text "[TRUNCATED]" else text (bounded_string s max_string)
  redact_audit_value (number n) depth = if ltb max_depth depth then text "[TRUNCATED]" else number n
  redact_audit_value (flag b) depth = if ltb max_depth depth then text "[TRUNCATED]" else flag b
  redact_audit_value (date s) depth = if ltb max_depth depth then text "[TRUNCATED]" else text s
  redact_audit_value (array xs) depth =
      let entries = redact_items xs max_array (depth + 1) in
      if ltb max_depth depth then text "[TRUNCATED]" else array entries
  redact_audit_value (object fs) depth =
      let result = redact_fields fs 100 (depth + 1) end in
      if ltb max_depth depth then text "[TRUNCATED]" else object result
  redact_audit_value (other s) depth =
      if ltb max_depth depth then text "[TRUNCATED]" else text (bounded_string s max_string)

  -- The first `left` entries.
  pub redact_items : Items → ℕ → ℕ → Items
  redact_items nil left depth = nil
  redact_items (cons x xs) left depth =
      let rest = redact_items xs (left - 1) depth in
      if left == 0 then nil else cons (redact_audit_value x depth) rest

  -- The loop over the first `left` entries, with the result so far.
  pub redact_fields : Fields → ℕ → ℕ → Fields → Fields
  redact_fields end left depth result = result
  redact_fields (field raw_key entry fs) left depth result =
      let key = bounded_string raw_key 100 in
      let redacted = redact_audit_value entry depth in
      let value = if is_sensitive key then text "[REDACTED]" else redacted in
      let rest = redact_fields fs (left - 1) depth (put_field key value result) in
      if left == 0 then result else rest

-- An absent record stays absent.
unfoldable pub redact_audit_record : Option Fields → Option Value
unfolding redact_audit_value
redact_audit_record none = none
redact_audit_record (some fs) = some (redact_audit_value (object fs) 0)

unfoldable pub sanitize_audit_text : Option String → ℕ → Option String
unfolding trim bounded_string
sanitize_audit_text none max = none
sanitize_audit_text (some value) max = some (bounded_string (trim value) max)

abbrev check_length : String → Option String
unfolding utf16_length
check_length sanitized = if ltb (utf16_length sanitized) 10 then none else some sanitized

-- `none` where the code throws.
unfoldable pub validate_audit_reason : Option String → Option String
unfolding sanitize_audit_text utf16_length
validate_audit_reason reason = check_length (or_else (sanitize_audit_text reason 1000) "")
