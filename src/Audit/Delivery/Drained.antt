-- ===== src/Audit/Delivery/Drained.antt =====
-- The queue of audit events empties once the database and Redis answer, unless its first event is
-- one that cannot be recorded.
use typescript_starter.Common.{
  ℕ, zero, suc, ◌-◌, ◌*◌, ◌≤◌, String, none, List, [], ◌∷◌, ◌++◌, Bool, true, ◌&&◌, ◌≡◌, refl, sym,
  ap, ◌∙◌, inl, inr, is_some, Option-cases, All, any, take, drop, length, arith,
}
use typescript_starter.Audit.Events.{EventInput}
use typescript_starter.Audit.Records.{
  Env, Trail, reason_of, record_event, ack, retry_loop, retry_queued,
}
use typescript_starter.Audit.Delivery.{
  row_count, IsKept, has_id, Effect-queue, record_event-Effect, ack-head,
}
use typescript_starter.Audit.Delivery.Kept.{
  take-drop, record_event-answers, Loop-IsKept, retry_queued-Loop,
}

-- A replay of the event is not refused: it has an id, and its reason is accepted outside a request.
abbrev pub IsReplayable : ℕ × EventInput → Type 0
IsReplayable (j, e) = (is_some e.id && is_some (reason_of none e)) ≡ true

replay-answers :
    (env : Env) (q : ℕ × EventInput) (t : Trail)
    → IsReplayable q
    → is_some (record_event env true none q.1 t).0 ≡ true
replay-answers env (j, e) t h = elim (Option-cases e.id) [
  | inl absent ↦ ground (arith, h, absent)
  | inr (id, own) ↦ record_event-answers env none e id t own (ground (arith, h, own))
]

retry_loop-drained :
    (env : Env) (up : ℕ → Bool × Bool) (es tail : List (ℕ × EventInput)) (t : Trail)
    → ((j : ℕ) → up j ≡ (true, true))
    → All IsReplayable es
    → t.queue ≡ es ++ tail
    → ((retry_loop env up es t).0 ≡ length es) × ((retry_loop env up es t).1.queue ≡ tail)
unfolding retry_loop
retry_loop-drained env up [] tail t h good q = (refl, q)
retry_loop-drained env up ((j, e) ∷ rest) tail t h (g, good) q =
    let x = record_event env true none e t in
    let acked : ack j x.1.queue ≡ rest ++ tail =
      ap (ack j) (Effect-queue (record_event-Effect env true none e t) ∙ q)
      ∙ ack-head j e (rest ++ tail) in
    let later =
      retry_loop-drained env up rest tail (record x.1 { queue = rest ++ tail }) h good refl in
    rw (h j, replay-answers env (j, e) t g, acked) (ap suc later.0, later.1)

module _ (P : ℕ × EventInput → Type 0) where
  All-drop : (n : ℕ) (xs : List (ℕ × EventInput)) → All P xs → All P (drop n xs)
  All-drop zero xs h = h
  All-drop (suc n) [] h = h
  All-drop (suc n) (x ∷ xs) (p, h) = All-drop n xs h

  All-take : (n : ℕ) (xs : List (ℕ × EventInput)) → All P xs → All P (take n xs)
  All-take zero xs h = tt
  All-take (suc n) [] h = h
  All-take (suc n) (x ∷ xs) (p, h) = (p, All-take n xs h)

length-drop : {A : Type 0} (n : ℕ) (xs : List A) → length (drop n xs) ≡ length xs - n
length-drop zero xs = omega arith
length-drop (suc n) [] = omega arith
length-drop (suc n) (x ∷ xs) = omega (arith, length-drop n xs)

-- What the timer of the retry service does: retryQueued, a number of times.
abbrev pub retries : Env → (ℕ → Bool × Bool) → ℕ → ℕ → Trail → Trail
retries env up limit zero t = t
retries env up limit (suc k) t = retries env up limit k (retry_queued env up limit t).1

retry_queued-drained :
    (env : Env) (up : ℕ → Bool × Bool) (limit : ℕ) (t : Trail)
    → ((j : ℕ) → up j ≡ (true, true))
    → All IsReplayable t.queue
    → (retry_queued env up limit t).1.queue ≡ drop limit t.queue
unfolding retry_queued
retry_queued-drained env up limit t h good =
    (retry_loop-drained env up (take limit t.queue) (drop limit t.queue) t h
      (All-take IsReplayable limit t.queue good) (take-drop limit t.queue)).1

left_over : (n limit k : ℕ) → n ≤ suc k * limit → n - limit ≤ k * limit
left_over n limit k h = grind arith

no_longer : {A : Type 0} (xs : List A) → length xs ≤ 0 → xs ≡ []
no_longer [] h = refl
no_longer (x ∷ xs) h = absurd (omega (arith, h))

retries-queue :
    (env : Env) (up : ℕ → Bool × Bool) (limit k : ℕ) (t : Trail)
    → ((j : ℕ) → up j ≡ (true, true))
    → All IsReplayable t.queue
    → length t.queue ≤ k * limit
    → (retries env up limit k t).queue ≡ []
retries-queue env up limit zero t h good short = no_longer t.queue (omega (arith, short))
retries-queue env up limit (suc k) t h good short =
    let after = (retry_queued env up limit t).1 in
    let left : after.queue ≡ drop limit t.queue = retry_queued-drained env up limit t h good in
    retries-queue env up limit k after h (rw left (All-drop IsReplayable limit t.queue good))
      (rw (left, length-drop limit t.queue) (left_over (length t.queue) limit k short))

retries-IsKept :
    (env : Env) (up : ℕ → Bool × Bool) (limit k : ℕ) (t : Trail) (id : String)
    → IsKept id t
    → IsKept id (retries env up limit k t)
retries-IsKept env up limit zero t id h = h
retries-IsKept env up limit (suc k) t id h =
    retries-IsKept env up limit k (retry_queued env up limit t).1 id
      (Loop-IsKept id (retry_queued-Loop env up limit t) h)

-- While the database and Redis answer and no replay is refused, k calls of retryQueued with a limit
-- empty a queue of at most k times the limit, and every event that waited in it has a row then.
pub retries-recorded :
    (env : Env) (up : ℕ → Bool × Bool) (limit k : ℕ) (t : Trail)
    → ((j : ℕ) → up j ≡ (true, true))
    → All IsReplayable t.queue
    → length t.queue ≤ k * limit
    → ((retries env up limit k t).queue ≡ [])
      × ((id : String) → IsKept id t → 1 ≤ row_count id (retries env up limit k t).rows)
retries-recorded env up limit k t h good short =
    let empty = retries-queue env up limit k t h good short in
    (
      empty,
      λ id kept. elim (retries-IsKept env up limit k t id kept) [
        | inl there ↦ there
        | inr waits ↦
            let none_left : any (λ (q : ℕ × EventInput). has_id id q.1) [] ≡ true =
              ap (any (λ (q : ℕ × EventInput). has_id id q.1)) (sym empty) ∙ waits in
            ground (arith, none_left)
      ],
    )

-- An event at the head of the queue whose reason is refused outside a request stops every retry:
-- retryQueued completes nothing and leaves the table and the queue as they are.
pub retry_queued-stuck :
    (env : Env) (up : ℕ → Bool × Bool) (limit j : ℕ) (e : EventInput) (rest : List (ℕ × EventInput))
    (t : Trail)
    → t.queue ≡ (j, e) ∷ rest
    → reason_of none e ≡ none
    → retry_queued env up limit t ≡ (0, t)
unfolding retry_queued retry_loop record_event
retry_queued-stuck env up zero j e rest t q bad = refl
retry_queued-stuck env up (suc limit) j e rest t q bad = rw (q, bad, record_event) refl
