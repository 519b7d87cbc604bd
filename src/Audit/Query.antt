-- ===== src/Audit/Query.antt =====
-- audit/audit.service.ts, the queries of the audit trail: their validation, their conditions on the
-- rows, and the cursor as a text. JSON, base64url and dates are the platform's: an interface with
-- laws.

use typescript_starter.Common.{
  ℕ, ◌-◌, ◌*◌, ◌^◌, String, Option, none, some, List, [], ◌∷◌, Bool, true, false, ◌&&◌, ◌||◌, ◌≡◌,
  ltb, leb, ◌==◌, or_else, is_some, ◌>>=◌, str_eq, all, contains, if◌then◌else◌,
}
use typescript_starter.Common.Text.{utf16_length}
use typescript_starter.History.LineIdentity.{truthy}
use typescript_starter.Audit.Redaction.{Value, text, number, object, field, end}
use typescript_starter.Audit.Events.{
  ActorType, user, api_key, system, anonymous, Outcome, attempted, succeeded, failed, denied,
  Severity, info, warning, high, critical, Source, EventRow,
}
use typescript_starter.Audit.Records.{entry}

-- The JSON object of a cursor.
abbrev pub cursor_value : String → String → Value
cursor_value occurred_at sequence =
    object (field "occurredAt" (text occurred_at) (field "sequence" (number sequence) end))

-- JSON, base64url in UTF-8, and the texts of dates and numbers. `none` is an exception, an invalid
-- date or a number that is no integer; sequence numbers and dates are natural numbers.
pub record Platform : Type 0 where
  pub stringify : Value → String
  pub parse : String → Option Value
  pub base64url : String → String
  pub from_base64url : String → String
  pub to_iso : ℕ → String
  pub date_parse : String → Option ℕ
  pub number_text : ℕ → String
  pub integer : String → Option ℕ
  pub parse-stringify :
      (a b : String) → parse (stringify (cursor_value a b)) ≡ some (cursor_value a b)
  pub from-base64url : (s : String) → from_base64url (base64url s) ≡ s
  pub date_parse-to_iso : (t : ℕ) → date_parse (to_iso t) ≡ some t
  pub integer-number_text : (n : ℕ) → integer (number_text n) ≡ some n

pub record Query : Type 0 where
  pub cursor : Option String
  pub limit : Option ℕ
  pub from : Option String
  pub to : Option String
  pub event_id : Option String
  pub category : Option String
  pub action : Option String
  pub actor_type : Option String
  pub actor_id : Option String
  pub target_type : Option String
  pub target_id : Option String
  pub outcome : Option String
  pub severity : Option String
  pub request_id : Option String
  pub correlation_id : Option String
  pub source : Option String

abbrev actor_type_text : ActorType → String
actor_type_text user = "user"
actor_type_text api_key = "api_key"
actor_type_text system = "system"
actor_type_text anonymous = "anonymous"

abbrev outcome_text : Outcome → String
outcome_text attempted = "attempted"
outcome_text succeeded = "succeeded"
outcome_text failed = "failed"
outcome_text denied = "denied"

abbrev severity_text : Severity → String
severity_text info = "info"
severity_text warning = "warning"
severity_text high = "high"
severity_text critical = "critical"

abbrev source_text : Source → String
source_text Source.rest = "rest"
source_text Source.graphql = "graphql"
source_text Source.auth = "auth"
source_text Source.job = "job"

-- A condition on a column, where the query has a value that is not empty; NULL equals nothing.
abbrev equals : Option String → Option String → Bool
equals asked column = elim (truthy asked) [
  | none ↦ true
  | some value ↦ elim column [ none ↦ false | some c ↦ str_eq c value ]
]

-- `occurred_at < t OR (occurred_at = t AND sequence < n)`
abbrev pub is_after : ℕ → ℕ → EventRow → Bool
is_after t n r = ltb r.occurred_at t || r.occurred_at == t && ltb r.sequence n

module _ (p : Platform) where
  unfoldable pub encode_cursor : EventRow → String
  encode_cursor r =
      p.base64url (p.stringify (cursor_value (p.to_iso r.occurred_at) (p.number_text r.sequence)))

  -- The checks of the decoded object; a safe integer is at most 2^53 - 1.
  abbrev cursor_of : Value → Value → Option (ℕ × ℕ)
  cursor_of (text occurred_at) (number sequence) = p.date_parse occurred_at >>= λ t.
      p.integer sequence >>= λ n. if leb n (2 ^ 53 - 1) then some (t, n) else none
  cursor_of _ _ = none

  abbrev cursor_fields : Value → Option (ℕ × ℕ)
  unfolding entry
  cursor_fields (object fs) = cursor_of (entry "occurredAt" fs) (entry "sequence" fs)
  cursor_fields _ = none

  unfoldable pub decode_cursor : String → Option (ℕ × ℕ)
  unfolding entry
  decode_cursor cursor = p.parse (p.from_base64url cursor) >>= λ value. cursor_fields value

  -- A bound on the time of a row.
  abbrev holds_from : Option String → EventRow → Bool
  holds_from from r = elim (truthy from) [
    | none ↦ true
    | some date ↦ elim (p.date_parse date) [ none ↦ false | some t ↦ leb t r.occurred_at ]
  ]

  abbrev holds_to : Option String → EventRow → Bool
  holds_to to r = elim (truthy to) [
    | none ↦ true
    | some date ↦ elim (p.date_parse date) [ none ↦ false | some t ↦ leb r.occurred_at t ]
  ]

  unfoldable pub matches : Query → EventRow → Bool
  matches q r =
      holds_from q.from r
      && holds_to q.to r
      && equals q.event_id (some r.id)
      && equals q.category (some r.category)
      && equals q.action (some r.action)
      && equals q.actor_type (some (actor_type_text r.actor_type))
      && equals q.actor_id r.actor_id
      && equals q.target_type r.target_type
      && equals q.target_id r.target_id
      && equals q.outcome (some (outcome_text r.outcome))
      && equals q.severity (some (severity_text r.severity))
      && equals q.request_id r.request_id
      && equals q.correlation_id r.correlation_id
      && equals q.source (some (source_text r.source))

  abbrev is_date : Option String → Bool
  is_date d = elim (truthy d) [ none ↦ true | some date ↦ is_some (p.date_parse date) ]

  abbrev date_of : Option String → Option ℕ
  date_of d = truthy d >>= λ date. p.date_parse date

  abbrev in_order : Option ℕ → Option ℕ → Bool
  in_order (some from) (some to) = leb from to && leb (to - from) (90 * 24 * 60 * 60 * 1000)
  in_order _ _ = true

  unfoldable pub valid_range : Option String → Option String → Bool
  valid_range from to = is_date from && is_date to && in_order (date_of from) (date_of to)

  abbrev one_of : Option String → List String → Bool
  one_of asked allowed = elim (truthy asked) [ none ↦ true | some a ↦ contains a allowed ]

  abbrev short : Option String → Bool
  unfolding utf16_length
  short none = true
  short (some s) = leb (utf16_length s) 1000

  -- What validateQuery asks of the range, the limit and the enumerations.
  unfoldable pub valid_fields : Query → Bool
  unfolding valid_range
  valid_fields q =
      let limit = or_else q.limit 50 in
      valid_range q.from q.to
      && leb 1 limit
      && leb limit 200
      && one_of q.actor_type ("user" ∷ "api_key" ∷ "system" ∷ "anonymous" ∷ [])
      && one_of q.outcome ("attempted" ∷ "succeeded" ∷ "failed" ∷ "denied" ∷ [])
      && one_of q.severity ("info" ∷ "warning" ∷ "high" ∷ "critical" ∷ [])
      && one_of q.source ("rest" ∷ "graphql" ∷ "auth" ∷ "job" ∷ [])

  -- Whether validateQuery lets the query pass; a limit that is no integer does not occur.
  unfoldable pub valid_query : Query → Bool
  unfolding valid_fields utf16_length
  valid_query q =
      valid_fields q
      && all short (
          q.cursor ∷ q.from ∷ q.to ∷ q.event_id ∷ q.category ∷ q.action ∷ q.actor_type ∷ q.actor_id
          ∷ q.target_type ∷ q.target_id ∷ q.outcome ∷ q.severity ∷ q.request_id ∷ q.correlation_id
          ∷ q.source ∷ [])

  -- The condition of the cursor; the query fails where it cannot be decoded.
  unfoldable pub cursor_condition : Option String → Option (EventRow → Bool)
  unfolding decode_cursor
  cursor_condition cursor = elim (truthy cursor) [
    | none ↦ some (λ r. true)
    | some c ↦ decode_cursor c >>= λ (t, n). some (is_after t n)
  ]
