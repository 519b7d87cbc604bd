-- ===== src/Audit/Delivery/Kept.antt =====
-- An audit event is never recorded twice, and one that was taken on is not lost while the queue has
-- room.

use typescript_starter.Common.{
  ℕ, zero, suc, String, Option, some, List, [], ◌∷◌, ◌++◌, Bool, true, false, ◌&&◌, ◌||◌, ◌≡◌, refl,
  sym, ap, ◌∙◌, inl, inr, ◌⊎◌, is_some, or_else, eq_iff, eq_refl, Bool-cases, Option-cases, any,
  take, drop, ◌<◌, ◌-◌, min, length, length-append, arith,
}
use typescript_starter.Audit.Events.{RequestContext, EventInput, EventRow}
use typescript_starter.Audit.Records.{
  Env, Trail, reason_of, row_of, row_by_id, insert_row, record_event, max_queued, enqueue,
  record_best_effort, retry_queued,
}
use typescript_starter.Audit.Delivery.{
  IsOnce, has_id, IsKept, Effect, Effect-IsOnce, Effect-rows, Effect-queue, Effect-recorded,
  record_event-Effect, Loop, Loop.at_end, Loop.pause, Loop.next, retry_loop-Loop,
}

any-append :
    {A : Type 0} (p : A → Bool) (xs ys : List A) → any p (xs ++ ys) ≡ (any p xs || any p ys)
any-append p [] ys = refl
any-append p (x ∷ xs) ys = ground (arith, any-append p xs ys)

pub take-drop : {A : Type 0} (n : ℕ) (xs : List A) → xs ≡ take n xs ++ drop n xs
take-drop zero xs = refl
take-drop (suc n) [] = refl
take-drop (suc n) (x ∷ xs) = ap (λ ys. x ∷ ys) (take-drop n xs)

Loop-IsOnce :
    {env : Env} {es tail : List (ℕ × EventInput)} {t u : Trail}
    → Loop env es tail t u
    → IsOnce t
    → IsOnce u
Loop-IsOnce (at_end t tail q) h = h
Loop-IsOnce (pause j e rest tail t x q effect) h = Effect-IsOnce effect h
Loop-IsOnce (next j e rest tail t u x q effect well later) h =
    Loop-IsOnce later (Effect-IsOnce effect h)

has_id-some : (id : String) (e : EventInput) → has_id id e ≡ true → e.id ≡ some id
has_id-some id e h = elim (Option-cases e.id) [
  | inl absent ↦ ground (arith, h, absent)
  | inr (own, is) ↦ is ∙ ap some ((eq_iff own id).0 (rw is at h))
]

Effect-IsKept :
    {env : Env} {e : EventInput} {t : Trail} {x : Option EventRow × Trail} (id : String)
    → Effect env e t x
    → IsKept id t
    → IsKept id x.1
Effect-IsKept {e = e} {t = t} {x = x} id effect (inl there) =
    inl (omega (arith, Effect-rows effect id, there))
Effect-IsKept {e = e} {t = t} {x = x} id effect (inr waits) =
    inr (ap (λ q. any (λ (w : ℕ × EventInput). has_id id w.1) q) (Effect-queue effect) ∙ waits)

pub Loop-IsKept :
    {env : Env} {es tail : List (ℕ × EventInput)} {t u : Trail} (id : String)
    → Loop env es tail t u
    → IsKept id t
    → IsKept id u
Loop-IsKept id (at_end t tail q) h = h
Loop-IsKept id (pause j e rest tail t x q effect) h = Effect-IsKept id effect h
Loop-IsKept id (next j e rest tail t u x q effect well later) h = Loop-IsKept id later (elim h [
  | inl there ↦ inl (omega (arith, Effect-rows effect id, there))
  | inr waits ↦ elim (Bool-cases (has_id id e)) [
    | inl own ↦ inl (Effect-recorded id effect (has_id-some id e own) well)
    | inr other ↦
        let queued : (has_id id e || any (λ (w : ℕ × EventInput). has_id id w.1) (rest ++ tail))
            ≡ true =
          ap (any (λ (w : ℕ × EventInput). has_id id w.1)) (sym q) ∙ waits in
        inr (rw other at queued)
  ]
])

-- One call of the service: `record`, `recordBestEffort` or `retryQueued`.
pub data Step : Trail → Trail → Type 0 where
  recorded :
      (env : Env) (db_up : Bool) (current : Option RequestContext) (e : EventInput) (t : Trail)
      → Step t (record_event env db_up current e t).1
  recorded_best :
      (env : Env) (db_up redis_up : Bool) (current : Option RequestContext) (e : EventInput)
      (t : Trail)
      → Step t (record_best_effort env db_up redis_up current e t)
  retried :
      (env : Env) (up : ℕ → Bool × Bool) (limit : ℕ) (t : Trail)
      → Step t (retry_queued env up limit t).1

pub data Steps : Trail → Trail → Type 0 where
  still : (t : Trail) → Steps t t
  step : (t u v : Trail) → Steps t u → Step u v → Steps t v

pub retry_queued-Loop :
    (env : Env) (up : ℕ → Bool × Bool) (limit : ℕ) (t : Trail)
    → Loop env (take limit t.queue) (drop limit t.queue) t (retry_queued env up limit t).1
unfolding retry_queued
retry_queued-Loop env up limit t =
    retry_loop-Loop env up (take limit t.queue) (drop limit t.queue) t (take-drop limit t.queue)

abbrev pub named_event : Env → EventInput → EventInput
named_event env e = record e { id = some (or_else e.id env.random_id) }

-- What recordBestEffort does: record the event, or else queue it, or else nothing.
record_best_effort-cases :
    (env : Env) (db_up redis_up : Bool) (current : Option RequestContext) (e : EventInput)
    (t : Trail) (P : Trail → Type 0)
    → (is_some (record_event env db_up current (named_event env e) t).0 ≡ true
        → P (record_event env db_up current (named_event env e) t).1)
    → (redis_up ≡ true
        → P (record t {
          queue = enqueue env.trim_count (t.next_stream_id, named_event env e) t.queue;
          next_stream_id = suc t.next_stream_id;
        }))
    → (is_some (record_event env db_up current (named_event env e) t).0 ≡ false
        → redis_up ≡ false
        → P t)
    → P (record_best_effort env db_up redis_up current e t)
unfolding record_best_effort
record_best_effort-cases env db_up redis_up current e t P well queued lost =
    elim (Bool-cases (is_some (record_event env db_up current (named_event env e) t).0)) [
      | inl yes_there ↦ rw yes_there (well yes_there)
      | inr failed ↦ elim (Bool-cases redis_up) [
        | inl up ↦ rw (failed, up) (queued up)
        | inr down ↦ rw (failed, down) (lost failed down)
      ]
    ]

Step-IsOnce : {t u : Trail} → Step t u → IsOnce t → IsOnce u
Step-IsOnce (recorded env db_up current e t) h =
    Effect-IsOnce (record_event-Effect env db_up current e t) h
Step-IsOnce (recorded_best env db_up redis_up current e t) h =
    record_best_effort-cases env db_up redis_up current e t IsOnce
      (λ well. Effect-IsOnce (record_event-Effect env db_up current (named_event env e) t) h)
      (λ up. h) (λ failed down. h)
Step-IsOnce (retried env up limit t) h = Loop-IsOnce (retry_queued-Loop env up limit t) h

-- The queue is shorter than the length at which Redis may trim it.
abbrev pub HasRoom : Trail → Type 0
HasRoom t = length t.queue < max_queued

pub enqueue-append :
    (trim_count : ℕ) (entry : ℕ × EventInput) (queue : List (ℕ × EventInput))
    → length queue < max_queued
    → enqueue trim_count entry queue ≡ queue ++ entry ∷ []
unfolding enqueue
enqueue-append trim_count entry queue room =
    let kept : min trim_count (length (queue ++ entry ∷ []) - max_queued) ≡ 0 =
      omega (arith, length-append queue (entry ∷ []), room) in
    rw kept refl

IsKept-queued :
    (id : String) (trim_count j : ℕ) (e : EventInput) (t : Trail)
    → HasRoom t
    → IsKept id t ⊎ (has_id id e ≡ true)
    → IsKept id (record t {
      queue = enqueue trim_count (j, e) t.queue;
      next_stream_id = suc t.next_stream_id;
    })
IsKept-queued id trim_count j e t room (inl (inl there)) = inl there
IsKept-queued id trim_count j e t room (inl (inr waits)) =
    rw (enqueue-append trim_count (j, e) t.queue room) (
      inr
        (rw (any-append (λ (w : ℕ × EventInput). has_id id w.1) t.queue ((j, e) ∷ []), waits) refl))
IsKept-queued id trim_count j e t room (inr own) =
    rw (enqueue-append trim_count (j, e) t.queue room) (
      inr (
        ground
          (arith, any-append (λ (w : ℕ × EventInput). has_id id w.1) t.queue ((j, e) ∷ []), own)))

Step-IsKept : (id : String) {t u : Trail} → Step t u → HasRoom t → IsKept id t → IsKept id u
Step-IsKept id (recorded env db_up current e t) room h =
    Effect-IsKept id (record_event-Effect env db_up current e t) h
Step-IsKept id (recorded_best env db_up redis_up current e t) room h =
    record_best_effort-cases env db_up redis_up current e t (IsKept id)
      (λ well. Effect-IsKept id (record_event-Effect env db_up current (named_event env e) t) h)
      (λ up. IsKept-queued id env.trim_count t.next_stream_id (named_event env e) t room (inl h))
      (λ failed down. h)
Step-IsKept id (retried env up limit t) room h = Loop-IsKept id (retry_queued-Loop env up limit t) h

insert_row-answers :
    (e : EventInput) (r : EventRow) (id : String) (t : Trail)
    → e.id ≡ some id
    → r.id ≡ id
    → is_some (insert_row e r t).0 ≡ true
unfolding insert_row
insert_row-answers e r id t own same = elim (Option-cases (row_by_id r.id t.rows)) [
  | inl free ↦ rw (free, insert_row) refl
  | inr (s, there) ↦ rw (there, own, sym same, there, insert_row) refl
]

pub record_event-answers :
    (env : Env) (current : Option RequestContext) (e : EventInput) (id : String) (t : Trail)
    → e.id ≡ some id
    → is_some (reason_of current e) ≡ true
    → is_some (record_event env true current e t).0 ≡ true
unfolding record_event row_of
record_event-answers env current e id t own good = elim (Option-cases (reason_of current e)) [
  | inl bad ↦ ground (arith, good, bad)
  | inr (reason, is) ↦
      rw (is, record_event)
        (insert_row-answers e (row_of env t.next_sequence current reason e) id t own
          (ap (λ (o : Option String). or_else o env.random_id) own))
]

abbrev pub empty_trail : Trail
empty_trail = record { rows = []; next_sequence = 1; queue = []; next_stream_id = 0 }

Steps-IsOnce : {t u : Trail} → Steps t u → IsOnce t → IsOnce u
Steps-IsOnce (still t) h = h
Steps-IsOnce (step t u v before s) h = Step-IsOnce s (Steps-IsOnce before h)

-- The queue has room before each of the calls.
abbrev pub HaveRoom : {t u : Trail} → Steps t u → Type 0
HaveRoom (still t) = Unit
HaveRoom (step t u v before s) = HaveRoom before × HasRoom u

Steps-IsKept : (id : String) {t u : Trail} (s : Steps t u) → HaveRoom s → IsKept id t → IsKept id u
Steps-IsKept id (still t) room h = h
Steps-IsKept id (step t u v before s) (earlier, room) h =
    Step-IsKept id s room (Steps-IsKept id before earlier h)

-- From an empty table and queue, no sequence of calls of record, recordBestEffort and retryQueued
-- stores two rows with the same event id, whichever of the calls reach the database or Redis.
pub never_recorded_twice : {t : Trail} → Steps empty_trail t → IsOnce t
never_recorded_twice s = Steps-IsOnce s (λ id. omega arith)

-- An event given to recordBestEffort, while the database answers and the reason of the event is
-- accepted, or else while Redis answers, has a row or waits in the queue after any later calls, if
-- fewer than 100000 events wait in the queue before it is given and before each of the later calls.
pub best_effort-IsKept :
    (env : Env) (db_up redis_up : Bool) (current : Option RequestContext) (e : EventInput)
    (t u : Trail)
    → (((db_up && is_some (reason_of current (named_event env e))) || redis_up) ≡ true)
    → HasRoom t
    → (later : Steps (record_best_effort env db_up redis_up current e t) u) → HaveRoom later
    → IsKept (or_else e.id env.random_id) u
best_effort-IsKept env db_up redis_up current e t u answers room later rooms =
    let id : String = or_else e.id env.random_id in
    Steps-IsKept id later rooms (
      record_best_effort-cases env db_up redis_up current e t (IsKept id)
        (λ well. inl (
          Effect-recorded id (record_event-Effect env db_up current (named_event env e) t) refl
            well))
        (λ up.
          IsKept-queued id env.trim_count t.next_stream_id (named_event env e) t room
            (inr (eq_refl id)))
        (λ failed down. elim (Bool-cases db_up) [
          | inl up ↦
              let good : is_some (reason_of current (named_event env e)) ≡ true =
                ground (arith, answers, up, down) in
              ground (
                arith,
                up,
                failed,
                record_event-answers env current (named_event env e) id t refl good,
              )
          | inr no_db ↦ ground (arith, answers, no_db, down)
        ]))
