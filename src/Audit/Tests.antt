-- ===== src/Audit/Tests.antt =====
-- Concrete events for the recording of the audit trail, and the theorems applied to them.

use typescript_starter.Common.{
  ℕ, ◌≤◌, String, Option, none, some, List, [], ◌∷◌, ◌++◌, Bool, true, false, ◌≡◌, refl, ap, keep,
  ◌>>=◌, arith,
}
use typescript_starter.Audit.Redaction.{
  Value, Fields.end, Fields.field, Value.text, Value.object, Value.number,
}
use typescript_starter.Audit.Redaction.Clean.{Clean}
use typescript_starter.Audit.Events.{
  EventRow, user, RequestContext, EventInput, Source.auth, Outcome.failed,
}
use typescript_starter.Audit.Records.{
  Env, Trail, row_of, row_by_id, reason_of, record_event, record_best_effort, retry_queued,
}
use typescript_starter.Cache.{
  put_text, take_text, take-put_text, marks, count_marks, count_marks-marks,
}
use typescript_starter.Common.Text.{utf16_length}
use typescript_starter.Audit.Query.{
  Platform, Query, cursor_value, encode_cursor, decode_cursor, matches, valid_query, valid_fields,
  valid_range,
}
use typescript_starter.Audit.Pages.{sort_rows}
use typescript_starter.Audit.Pages.Walk.{walk, decode-encode_cursor, walk_complete}
use typescript_starter.Audit.Delivery.{row_count, IsOnce, IsKept}
use typescript_starter.Audit.Delivery.Kept.{
  Steps, Steps.still, Steps.step, Step.recorded_best, Step.retried, empty_trail,
  never_recorded_twice, best_effort-IsKept,
}
use typescript_starter.Audit.Delivery.Drained.{retries, retries-recorded}
use typescript_starter.Audit.Delivery.Replay.{IsOrphaned, replayed-IsOrphaned}

abbrev env : Env
env = record { now = 5000; random_id = "e1"; stringify = λ v. ""; trim_count = 100 }

abbrev sign_in_failed : EventInput
sign_in_failed = record {
  id = none;
  occurred_at = none;
  category = "auth";
  action = "auth.login_failed";
  severity = none;
  outcome = failed;
  actor = none;
  target_type = none;
  target_id = none;
  reason = none;
  before = none;
  after = none;
  changed_fields = none;
  metadata = none;
  error = none;
  correlation_id = none;
  source = none;
}

abbrev by_user : RequestContext
by_user = record {
  request_id = "r1";
  correlation_id = none;
  source = auth;
  method = some "POST";
  route = none;
  graphql_operation = none;
  ip_network = none;
  ip_fingerprint = none;
  user_agent = none;
  actor = record { type = user; id = some "u1"; role = none; impersonator_user_id = none };
}

abbrev all_up : ℕ → Bool × Bool
all_up j = (true, true)

-- The event is queued, then replayed.
abbrev queued : Trail
queued = record_best_effort env false true (some by_user) sign_in_failed empty_trail

queued_then_replayed : Steps empty_trail (retry_queued env all_up 100 queued).1
queued_then_replayed =
    step _ _ _
      (step _ _ _ (still empty_trail)
        (recorded_best env false true (some by_user) sign_in_failed empty_trail))
      (retried env all_up 100 queued)

never_recorded_twice_example : IsOnce (retry_queued env all_up 100 queued).1
never_recorded_twice_example = never_recorded_twice queued_then_replayed

best_effort-IsKept_example : IsKept "e1" (retry_queued env all_up 100 queued).1
unfolding reason_of record_best_effort
best_effort-IsKept_example =
    best_effort-IsKept env false true (some by_user) sign_in_failed empty_trail
      (retry_queued env all_up 100 queued).1 refl (omega arith)
      (step _ _ _ (still queued) (retried env all_up 100 queued)) (tt, omega arith)

retries-recorded_example :
    ((retries env all_up 100 1 queued).queue ≡ [])
    × ((id : String) → IsKept id queued → 1 ≤ row_count id (retries env all_up 100 1 queued).rows)
unfolding reason_of record_best_effort record_event
retries-recorded_example =
    retries-recorded env all_up 100 1 queued (λ j. refl) (refl, tt) (omega arith)

-- A purge whose event names no actor and no reason.
abbrev purge : EventInput
purge = record sign_in_failed { id = some "e2"; action = "history.purge.attempted" }

replayed-IsOrphaned_example :
    (r : EventRow) × ((retry_queued env all_up 100
        (record_best_effort env false true (some by_user) sign_in_failed empty_trail)).1.rows
      ≡ [] ++ r ∷ [])
    × IsOrphaned 5000 sign_in_failed r
unfolding reason_of row_by_id
replayed-IsOrphaned_example =
    replayed-IsOrphaned env env all_up 99 by_user sign_in_failed empty_trail none (λ j. refl) refl
      refl refl refl

abbrev profile : Value
profile = object (field "name" (text "Ada") (field "password" (text "secret") end))

abbrev cursor_text : Value → String
unfolding put_text
cursor_text (object (field j (text a) (field k (number b) end))) = put_text a b
cursor_text _ = ""

abbrev read_number : String → Option ℕ
read_number s = some (count_marks s)

-- A platform that writes cursors as two texts, and dates and numbers in unary.
abbrev platform : Platform
unfolding put_text marks
platform = record {
  stringify = cursor_text;
  parse = λ s. take_text s >>= λ (a, b). some (cursor_value a b);
  base64url = λ s. s;
  from_base64url = λ s. s;
  to_iso = marks;
  date_parse = read_number;
  number_text = marks;
  integer = read_number;
  parse-stringify = λ a b. rw (take-put_text a b) refl;
  from-base64url = λ s. refl;
  date_parse-to_iso = λ n. ap some (count_marks-marks n);
  integer-number_text = λ n. ap some (count_marks-marks n);
}

abbrev row : ℕ → ℕ → EventRow
row n t = record (row_of env n none none sign_in_failed) { occurred_at = t }

decode-encode_cursor_example :
    decode_cursor platform (encode_cursor platform (row 2 3)) ≡ some (3, 2)
unfolding row_of
decode-encode_cursor_example = decode-encode_cursor platform (row 2 3) (omega arith)

abbrev two_by_two : Query
two_by_two = record {
  cursor = none;
  limit = some 2;
  from = none;
  to = none;
  event_id = none;
  category = none;
  action = none;
  actor_type = none;
  actor_id = none;
  target_type = none;
  target_id = none;
  outcome = none;
  severity = none;
  request_id = none;
  correlation_id = none;
  source = none;
}

abbrev table : List EventRow
table = row 1 5 ∷ row 2 3 ∷ row 3 5 ∷ []

walk-all_example :
    walk platform 4 table two_by_two ≡ some (sort_rows (keep (matches platform two_by_two) table))
unfolding matches valid_query valid_fields valid_range row_of encode_cursor utf16_length put_text
    marks
walk-all_example =
    walk_complete platform table ((refl, (refl, tt)), ((refl, tt), (tt, tt))) two_by_two 1 refl 4
      refl refl
      ((omega arith, refl, refl), ((omega arith, refl, refl), ((omega arith, refl, refl), tt)))
      (omega arith)
