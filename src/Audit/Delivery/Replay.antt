-- ===== src/Audit/Delivery/Replay.antt =====
-- What the row of an event says that waited in the queue, against what it would have said at once.
use typescript_starter.Common.{
  ℕ, zero, suc, take, String, Option, none, some, [], ◌∷◌, ◌++◌, Bool, true, false, ◌≡◌, refl, ap,
  or_else, Option-cases, inl, inr, arith,
}
use typescript_starter.Audit.Redaction.{sanitize_audit_text}
use typescript_starter.Audit.Events.{system, Actor, RequestContext, EventInput, EventRow}
use typescript_starter.Audit.Records.{
  Env, Trail, system_actor, reason_of, row_of, row_by_id, insert_row, record_event, enqueue,
  record_best_effort, retry_loop, retry_queued,
}
use typescript_starter.Audit.Delivery.{ack-head}
use typescript_starter.Audit.Delivery.Kept.{named_event, enqueue-append}

-- What the request says of a row is lost when the event has no actor of its own.
pub record IsOrphaned (now : ℕ) (e : EventInput) (r : EventRow) : Type 0 where
  by_system : r.actor_type ≡ system
  by_nobody : r.actor_id ≡ none
  no_request : r.request_id ≡ none
  dated : r.occurred_at ≡ or_else e.occurred_at now

row_of-IsOrphaned :
    (env : Env) (n : ℕ) (reason : Option String) (e : EventInput)
    → e.actor ≡ none
    → IsOrphaned env.now e (row_of env n none reason e)
unfolding row_of sanitize_audit_text
row_of-IsOrphaned env n reason e h = record {
  by_system = ap (λ (a : Option Actor). (or_else a system_actor).type) h;
  by_nobody = rw h (refl);
  no_request = refl;
  dated = refl;
}

insert_row-free :
    (e : EventInput) (r : EventRow) (t : Trail)
    → row_by_id r.id t.rows ≡ none
    → insert_row e r t
      ≡ (some r, record t { rows = t.rows ++ r ∷ []; next_sequence = suc t.next_sequence })
unfolding insert_row
insert_row-free e r t free = rw (free, insert_row) refl

queued_alone :
    (env : Env) (current : Option RequestContext) (e : EventInput) (t : Trail)
    → record_best_effort env false true current e t ≡ record t {
      queue = enqueue env.trim_count (t.next_stream_id, named_event env e) t.queue;
      next_stream_id = suc t.next_stream_id;
    }
unfolding record_best_effort record_event
queued_alone env current e t = elim (Option-cases (reason_of current (named_event env e))) [
  | inl bad ↦ rw (bad, record_event) refl
  | inr (reason, good) ↦ rw (good, record_event) refl
]

take-nil : (n : ℕ) → take {A = ℕ × EventInput} n [] ≡ []
take-nil zero = refl
take-nil (suc n) = refl

retry_queued-alone :
    (env : Env) (up : ℕ → Bool × Bool) (limit j : ℕ) (e : EventInput) (t : Trail)
    (reason : Option String)
    → ((i : ℕ) → up i ≡ (true, true))
    → t.queue ≡ (j, e) ∷ []
    → reason_of none e ≡ some reason
    → row_by_id (or_else e.id env.random_id) t.rows ≡ none
    → (retry_queued env up (suc limit) t).1 ≡ record {
      rows = t.rows ++ row_of env t.next_sequence none reason e ∷ [];
      next_sequence = suc t.next_sequence;
      queue = [];
      next_stream_id = t.next_stream_id;
    }
unfolding retry_queued retry_loop record_event row_of
retry_queued-alone env up limit j e t reason h q good free =
    let row = row_of env t.next_sequence none reason e in
    let u : Trail = record {
      rows = t.rows;
      next_sequence = t.next_sequence;
      queue = (j, e) ∷ [];
      next_stream_id = t.next_stream_id;
    } in
    let stored : record_event env true none e u
        ≡ (some row, record u { rows = t.rows ++ row ∷ []; next_sequence = suc t.next_sequence }) =
      rw (good, record_event) (insert_row-free e row u free) in
    rw (q, take-nil limit, h j, stored, ack-head j e []) refl

-- An event without an actor of its own, for which recordBestEffort reaches only Redis in a request
-- by any actor, into an empty queue, is stored by the next retry (all services answering, its reason
-- accepted, its id free) in a row that names the system as the actor, no actor id and no request,
-- and, where the event has no time of its own, the time of the retry.
pub replayed-IsOrphaned :
    (env later : Env) (up : ℕ → Bool × Bool) (limit : ℕ) (c : RequestContext) (e : EventInput)
    (t : Trail) (reason : Option String)
    → ((j : ℕ) → up j ≡ (true, true))
    → t.queue ≡ []
    → e.actor ≡ none
    → reason_of none (named_event env e) ≡ some reason
    → row_by_id (or_else e.id env.random_id) t.rows ≡ none
    → (r : EventRow) × ((retry_queued later up
          (suc limit)
          (record_best_effort env false true (some c) e t)).1.rows
        ≡ t.rows ++ r ∷ [])
      × IsOrphaned later.now e r
replayed-IsOrphaned env later up limit c e t reason h empty own good free =
    let event = named_event env e in
    let r = row_of later t.next_sequence none reason event in
    let u : Trail = record {
      rows = t.rows;
      next_sequence = t.next_sequence;
      queue = (t.next_stream_id, event) ∷ [];
      next_stream_id = suc t.next_stream_id;
    } in
    let queued : record_best_effort env false true (some c) e t ≡ u =
      rw
        (
          queued_alone env (some c) e t,
          empty,
          enqueue-append env.trim_count (t.next_stream_id, event) [] (omega arith),
        )
        refl in
    let orphan = row_of-IsOrphaned later t.next_sequence reason event own in
    (
      r,
      rw
          (
            queued,
            retry_queued-alone later up limit t.next_stream_id event u reason h refl good free,
          )
          refl,
      record {
        by_system = orphan.by_system;
        by_nobody = orphan.by_nobody;
        no_request = orphan.no_request;
        dated = orphan.dated;
      },
    )
