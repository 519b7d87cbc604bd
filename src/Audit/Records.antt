-- ===== src/Audit/Records.antt =====
-- audit/audit.service.ts, the writing side: the row of an event, its insertion, and the queue in
-- which an event waits that the database did not take. JSON.stringify of a redacted value is a
-- parameter; an event in the queue reads back as it was written.
use Prim.Native.Nat.{Ordering}
use Prim.Native.String
use typescript_starter.Common.{
  ℕ, suc, ◌-◌, min, length, drop, String, Option, none, some, List, [], ◌∷◌, ◌++◌, Bool, true,
  false, not, ◌&&◌, ◌||◌, ◌==◌, or_else, is_some, ◌>>=◌, add, contains, keep, take, str_eq,
  if◌then◌else◌,
}
use typescript_starter.Common.Text.{trim}
use typescript_starter.Audit.Redaction.{
  Value, null, object, Fields, end, field, redact_audit_record, sanitize_audit_text,
  validate_audit_reason,
}
use typescript_starter.Audit.Events.{
  ActorType, system, job, info, Actor, RequestContext, EventError, EventInput, EventRow,
  high_risk_reason_actions,
}

keys : Fields → List String → List String
keys end found = found
keys (field k v fs) found = keys fs (add k found)

abbrev keys_of : Option Value → List String → List String
unfolding keys
keys_of (some (object fs)) found = keys fs found
keys_of _ found = found

unfoldable pub entry : String → Fields → Value
entry key end = null
entry key (field k v fs) = if str_eq k key then v else entry key fs

abbrev entry_of : String → Option Value → Value
unfolding entry
entry_of key (some (object fs)) = entry key fs
entry_of key _ = null

-- `sort()`, for keys of characters up to U+FFFF.
insert_key : String → List String → List String
insert_key k [] = k ∷ []
insert_key k (j ∷ js) = elim (String.compare k j) [
  | Ordering.gt ↦ j ∷ insert_key k js
  | _ ↦ k ∷ j ∷ js
]

sort_keys : List String → List String
unfolding insert_key
sort_keys [] = []
sort_keys (k ∷ ks) = insert_key k (sort_keys ks)

unfoldable pub changed_fields : (Value → String) → Option Value → Option Value → List String
unfolding sort_keys entry keys
changed_fields stringify before after = sort_keys (
    keep (λ key. not (str_eq (stringify (entry_of key before)) (stringify (entry_of key after))))
      (keys_of after (keys_of before [])))

abbrev is_system : ActorType → Bool
is_system system = true
is_system _ = false

abbrev is_system_actor : Option Actor → Bool
is_system_actor none = false
is_system_actor (some a) = is_system a.type

abbrev is_system_context : Option RequestContext → Bool
is_system_context none = false
is_system_context (some c) = is_system c.actor.type

abbrev is_blank : Option String → Bool
is_blank none = true
is_blank (some reason) = str_eq (trim reason) ""

-- The reason that is stored; `none` where its validation throws.
unfoldable pub reason_of : Option RequestContext → EventInput → Option (Option String)
unfolding trim validate_audit_reason sanitize_audit_text
reason_of context input =
    let is_explicit_system_event = is_system_actor input.actor || is_system_context context in
    if contains input.action high_risk_reason_actions
    then (if is_explicit_system_event && is_blank input.reason
        then some (some (String.◌++◌ "Automatic backend operation: " input.action))
        else validate_audit_reason input.reason >>= λ reason. some (some reason))
    else some (sanitize_audit_text input.reason 1000)

abbrev pub system_actor : Actor
system_actor = record { type = system; id = none; role = none; impersonator_user_id = none }

abbrev context_actor : Option RequestContext → Actor
context_actor none = system_actor
context_actor (some c) = c.actor

-- `current?.f`
abbrev of_context {ℓ} :
    {A : Type ℓ} → (RequestContext → Option A) → Option RequestContext → Option A
of_context f none = none
of_context f (some c) = f c

abbrev sanitized_error : Option EventError → Option EventError
unfolding sanitize_audit_text
sanitized_error none = none
sanitized_error (some e) =
    some (record {
      code = sanitize_audit_text e.code 100;
      message = sanitize_audit_text e.message 1000;
    })

-- What a write needs besides the event: the time, a random id, JSON.stringify, and how many entries
-- Redis is ready to trim from the queue; `MAXLEN ~` leaves that to Redis.
pub record Env : Type 0 where
  pub now : ℕ
  pub random_id : String
  pub stringify : Value → String
  pub trim_count : ℕ

unfoldable pub row_of : Env → ℕ → Option RequestContext → Option String → EventInput → EventRow
unfolding sanitize_audit_text redact_audit_record changed_fields
row_of env sequence current reason input =
    let actor = or_else input.actor (context_actor current) in
    let before = redact_audit_record input.before in
    let after = redact_audit_record input.after in
    record {
      sequence = sequence;
      id = or_else input.id env.random_id;
      version = 1;
      occurred_at = or_else input.occurred_at env.now;
      category = or_else (sanitize_audit_text (some input.category) 100) "unknown";
      action = input.action;
      severity = or_else input.severity info;
      outcome = input.outcome;
      actor_type = actor.type;
      actor_id = sanitize_audit_text actor.id 200;
      actor_role = sanitize_audit_text actor.role 100;
      impersonator_user_id = sanitize_audit_text actor.impersonator_user_id 200;
      target_type = sanitize_audit_text input.target_type 100;
      target_id = sanitize_audit_text input.target_id 300;
      reason = reason;
      before = before;
      after = after;
      changed_fields = or_else input.changed_fields (changed_fields env.stringify before after);
      metadata = redact_audit_record input.metadata;
      error = sanitized_error input.error;
      request_id = of_context (λ c. some c.request_id) current;
      correlation_id =
          if is_some (sanitize_audit_text input.correlation_id 200)
          then sanitize_audit_text input.correlation_id 200
          else of_context (λ c. c.correlation_id) current;
      source = or_else input.source (or_else (of_context (λ c. some c.source) current) job);
      method = of_context (λ c. c.method) current;
      route = of_context (λ c. c.route) current;
      graphql_operation = of_context (λ c. c.graphql_operation) current;
      ip_network = of_context (λ c. c.ip_network) current;
      ip_fingerprint = of_context (λ c. c.ip_fingerprint) current;
      user_agent = of_context (λ c. c.user_agent) current;
    }

-- The table with the next value of its serial number, and the stream of events that wait.
pub record Trail : Type 0 where
  pub rows : List EventRow
  pub next_sequence : ℕ
  pub queue : List (ℕ × EventInput)
  pub next_stream_id : ℕ

-- SELECT * FROM audit_event WHERE id = id LIMIT 1
unfoldable pub row_by_id : String → List EventRow → Option EventRow
row_by_id id [] = none
row_by_id id (r ∷ rest) = if str_eq r.id id then some r else row_by_id id rest

-- INSERT ... ON CONFLICT (id) DO NOTHING RETURNING *; after a conflict the row is looked up by the
-- event's own id.
unfoldable pub insert_row : EventInput → EventRow → Trail → Option EventRow × Trail
unfolding row_by_id
insert_row input row t = elim (row_by_id row.id t.rows) [
  | some found ↦ (row_by_id (or_else input.id "") t.rows, t)
  | none ↦ (some row, record t { rows = t.rows ++ row ∷ []; next_sequence = suc t.next_sequence })
]

-- `record`: `none` where it throws. `db_up` says whether the database answers.
unfoldable pub record_event :
    Env → Bool → Option RequestContext → EventInput → Trail → Option EventRow × Trail
unfolding reason_of row_of row_by_id insert_row
record_event env db_up current input t = elim (reason_of current input) [
  | none ↦ (none, t)
  | some reason ↦
      if db_up
      then insert_row input (row_of env t.next_sequence current reason input) t
      else (none, t)
]

abbrev pub max_queued : ℕ
max_queued = 100000

-- XADD audit:pending MAXLEN ~ 100000: a queue that is longer then may lose its oldest entries, down
-- to that length.
unfoldable pub enqueue : ℕ → ℕ × EventInput → List (ℕ × EventInput) → List (ℕ × EventInput)
enqueue trim_count entry queue =
    let longer = queue ++ entry ∷ [] in drop (min trim_count (length longer - max_queued)) longer

-- The event goes into the table, or else into the queue, or else is lost.
unfoldable pub record_best_effort :
    Env → Bool → Bool → Option RequestContext → EventInput → Trail → Trail
unfolding record_event enqueue
record_best_effort env db_up redis_up current input t =
    let event = record input { id = some (or_else input.id env.random_id) } in
    let recorded = record_event env db_up current event t in
    if is_some recorded.0
    then recorded.1
    else if redis_up
    then record t {
      queue = enqueue env.trim_count (t.next_stream_id, event) t.queue;
      next_stream_id = suc t.next_stream_id;
    }
    else t

-- XDEL
unfoldable pub ack : ℕ → List (ℕ × EventInput) → List (ℕ × EventInput)
ack id [] = []
ack id ((j, e) ∷ rest) = if id == j then rest else (j, e) ∷ ack id rest

-- The loop of retryQueued; a retry runs in a job, outside every request. For each entry of the
-- stream `up` says whether the database and then Redis answer. The result has the number completed.
unfoldable pub retry_loop : Env → (ℕ → Bool × Bool) → List (ℕ × EventInput) → Trail → ℕ × Trail
unfolding record_event ack
retry_loop env up [] t = (0, t)
retry_loop env up ((stream_id, event) ∷ rest) t =
    let recorded = record_event env (up stream_id).0 none event t in
    let kept = recorded.1 in
    let acked = record kept { queue = ack stream_id kept.queue } in
    let later = retry_loop env up rest acked in
    if is_some recorded.0
    then (if (up stream_id).1 then (suc later.0, later.1) else (0, kept))
    else (0, kept)

unfoldable pub retry_queued : Env → (ℕ → Bool × Bool) → ℕ → Trail → ℕ × Trail
unfolding retry_loop
retry_queued env up limit t = retry_loop env up (take limit t.queue) t
