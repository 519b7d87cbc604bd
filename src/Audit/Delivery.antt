-- ===== src/Audit/Delivery.antt =====
-- What one call of audit/audit.service.ts may do to the table and the queue of events.
pub mod Kept
pub mod Drained
pub mod Replay
use Prim.Native.String
use typescript_starter.Common.{
  ℕ, zero, suc, ◌+◌, ◌-◌, ◌*◌, ◌≤◌, ◌<◌, min, String, Option, none, some, List, [], ◌∷◌, ◌++◌, Bool,
  true, false, ◌≡◌, ◌≢◌, refl, sym, ap, ◌∙◌, inl, inr, ◌⊎◌, bit, is_some, or_else, str_eq, eq_iff,
  eq_refl, ◌==◌, if◌then◌else◌, Bool-cases, Option-cases, All, any, count_if, take, length,
  sum_of-append, arith,
}
use typescript_starter.Audit.Events.{ActorType, system, RequestContext, EventInput, EventRow}
use typescript_starter.Audit.Records.{
  Env, Trail, row_of, row_by_id, reason_of, insert_row, record_event, record_best_effort, ack,
  retry_loop, retry_queued,
}

-- How many rows have the id.
abbrev pub row_count : String → List EventRow → ℕ
row_count id rows = count_if (λ r. str_eq r.id id) rows

-- No event has two rows.
abbrev pub IsOnce : Trail → Type 0
IsOnce t = (id : String) → row_count id t.rows ≤ 1

abbrev pub has_id : String → EventInput → Bool
has_id id e = elim e.id [ none ↦ false | some own ↦ str_eq own id ]

-- The event has a row or waits in the queue.
abbrev pub IsKept : String → Trail → Type 0
IsKept id t = (1 ≤ row_count id t.rows) ⊎ (any (λ q. has_id id q.1) t.queue ≡ true)

row_by_id-count :
    (id : String) (rows : List EventRow)
    → ((row_by_id id rows ≡ none) × (row_count id rows ≡ 0))
      ⊎ ((r : EventRow) × (row_by_id id rows ≡ some r) × (1 ≤ row_count id rows))
unfolding row_by_id
row_by_id-count id [] = inl (refl, refl)
row_by_id-count id (r ∷ rest) = elim (Bool-cases (str_eq r.id id)) [
  | inl here ↦ rw here (inr (r, refl, omega arith))
  | inr other ↦ elim (row_by_id-count id rest) [
    | inl (e, n) ↦ rw other (inl (e, omega (arith, n)))
    | inr (s, e, n) ↦ rw other (inr (s, e, omega (arith, n)))
  ]
]

-- What recording an event may do: nothing, nothing but to find its row, or to add a row under an id
-- that no row has.
pub data Effect (env : Env) (e : EventInput) (t : Trail) : Option EventRow × Trail → Type 0 where
  refused : Effect env e t (none, t)
  found : (r : EventRow) → 1 ≤ row_count (or_else e.id "") t.rows → Effect env e t (some r, t)
  added :
      (r : EventRow)
      → r.id ≡ or_else e.id env.random_id
      → row_count r.id t.rows ≡ 0
      → Effect env e t
          (some r, record t { rows = t.rows ++ r ∷ []; next_sequence = suc t.next_sequence })

insert_row-Effect :
    (env : Env) (e : EventInput) (t : Trail) (r : EventRow)
    → r.id ≡ or_else e.id env.random_id
    → Effect env e t (insert_row e r t)
unfolding insert_row
insert_row-Effect env e t r at = elim (row_by_id-count r.id t.rows) [
  | inl (free, none_there) ↦ rw (free, insert_row) (added r at none_there)
  | inr (s, taken, there) ↦ elim (row_by_id-count (or_else e.id "") t.rows) [
    | inl (gone, n) ↦ rw (taken, gone, insert_row) refused
    | inr (own, here, n) ↦ rw (taken, here, insert_row) (found own n)
  ]
]

pub record_event-Effect :
    (env : Env) (db_up : Bool) (current : Option RequestContext) (e : EventInput) (t : Trail)
    → Effect env e t (record_event env db_up current e t)
unfolding record_event row_of
record_event-Effect env db_up current e t = elim (Option-cases (reason_of current e)) [
  | inl bad ↦ rw (bad, record_event) refused
  | inr (reason, good) ↦ elim (Bool-cases db_up) [
    | inl up ↦
        rw (good, up, record_event)
          (insert_row-Effect env e t (row_of env t.next_sequence current reason e) refl)
    | inr down ↦ rw (good, down, record_event) refused
  ]
]

row_count-append :
    (id : String) (rows : List EventRow) (r : EventRow)
    → row_count id (rows ++ r ∷ []) ≡ row_count id rows + bit (str_eq r.id id)
row_count-append id rows r =
    omega (arith, sum_of-append (λ (s : EventRow). bit (str_eq s.id id)) rows (r ∷ []))

module _ {env : Env} {e : EventInput} {t : Trail} where
  pub Effect-IsOnce : {x : Option EventRow × Trail} → Effect env e t x → IsOnce t → IsOnce x.1
  Effect-IsOnce refused h id = h id
  Effect-IsOnce (found r n) h id = h id
  Effect-IsOnce (added r at free) h id = elim (Bool-cases (str_eq r.id id)) [
    | inl same ↦
        let other : row_count id t.rows ≡ 0 = rw ((eq_iff r.id id).0 same) at free in
        rw (row_count-append id t.rows r, same) (omega (arith, other))
    | inr differs ↦ rw (row_count-append id t.rows r, differs) (omega (arith, h id))
  ]

  pub Effect-rows :
      {x : Option EventRow × Trail}
      → Effect env e t x
      → (id : String) → row_count id t.rows ≤ row_count id x.1.rows
  Effect-rows refused id = omega arith
  Effect-rows (found r n) id = omega arith
  Effect-rows (added r at free) id = rw (row_count-append id t.rows r) (omega arith)

  pub Effect-queue : {x : Option EventRow × Trail} → Effect env e t x → x.1.queue ≡ t.queue
  Effect-queue refused = refl
  Effect-queue (found r n) = refl
  Effect-queue (added r at free) = refl

  -- A success leaves the event's own row.
  pub Effect-recorded :
      {x : Option EventRow × Trail} (id : String)
      → Effect env e t x
      → e.id ≡ some id
      → is_some x.0 ≡ true
      → 1 ≤ row_count id x.1.rows
  Effect-recorded id refused own h = absurd (cc)
  Effect-recorded id (found r n) own h = rw own at n
  Effect-recorded id (added r at free) own h =
      let named : r.id ≡ id = at ∙ ap (λ (o : Option String). or_else o env.random_id) own in
      rw (row_count-append id t.rows r, named, eq_refl id) (omega arith)

-- The queue after one entry of it is acknowledged, where the entry stands first.
ack-head : (j : ℕ) (e : EventInput) (rest : List (ℕ × EventInput)) → ack j ((j, e) ∷ rest) ≡ rest
unfolding ack
ack-head j e rest = ground arith

-- What the loop of retryQueued may do with entries that stand first in the queue: record each and
-- drop it from the queue, in order, up to the end or to an entry at which it stops.
pub data Loop (env : Env)
    : List (ℕ × EventInput) → List (ℕ × EventInput) → Trail → Trail → Type 0 where
  at_end : (t : Trail) (tail : List (ℕ × EventInput)) → t.queue ≡ tail → Loop env [] tail t t
  pause :
      (j : ℕ) (e : EventInput) (rest tail : List (ℕ × EventInput)) (t : Trail)
      (x : Option EventRow × Trail)
      → t.queue ≡ ((j, e) ∷ rest) ++ tail
      → Effect env e t x
      → Loop env ((j, e) ∷ rest) tail t x.1
  next :
      (j : ℕ) (e : EventInput) (rest tail : List (ℕ × EventInput)) (t u : Trail)
      (x : Option EventRow × Trail)
      → t.queue ≡ ((j, e) ∷ rest) ++ tail
      → Effect env e t x
      → is_some x.0 ≡ true
      → Loop env rest tail (record x.1 { queue = rest ++ tail }) u
      → Loop env ((j, e) ∷ rest) tail t u

pub retry_loop-Loop :
    (env : Env) (up : ℕ → Bool × Bool) (es tail : List (ℕ × EventInput)) (t : Trail)
    → t.queue ≡ es ++ tail
    → Loop env es tail t (retry_loop env up es t).1
unfolding retry_loop
retry_loop-Loop env up [] tail t h = at_end t tail h
retry_loop-Loop env up ((j, e) ∷ rest) tail t h =
    let x = record_event env (up j).0 none e t in
    let effect = record_event-Effect env (up j).0 none e t in
    let acked : ack j x.1.queue ≡ rest ++ tail =
      ap (ack j) (Effect-queue effect ∙ h) ∙ ack-head j e (rest ++ tail) in
    elim (Bool-cases (is_some x.0)) [
      | inr failed ↦ rw failed (pause j e rest tail t x h effect)
      | inl well ↦ elim (Bool-cases (up j).1) [
        | inr down ↦ rw (well, down) (pause j e rest tail t x h effect)
        | inl answers ↦
            rw (well, answers, acked)
              (next j e rest tail t _ x h effect well
                (retry_loop-Loop env up rest tail (record x.1 { queue = rest ++ tail }) refl))
      ]
    ]
