-- ===== src/Transport/Client/Slots.antt =====
-- acquireSlot of transport/tfnsw-http.client.ts: the runs of a role are chained, so one starts when
-- the one before it has ended, and each ends at least 250 ms after the end of the one before.
use typescript_starter.Common.{
  ℕ, zero, suc, ◌+◌, ◌*◌, ◌-◌, ◌≤◌, some, List, [], ◌∷◌, Bool, true, false, ◌≡◌, arith, get_elem?,
  if◌then◌else◌, Bool-cases, inl, inr, subst,
}
use typescript_starter.Transport.Client.{
  KeyRole, realtime, static, min_interval_ms, Queues, last_at, Arrival, acquire_slot,
}

-- The times at which one role gets its slots, in order, over the runs of both roles.
abbrev same_role : KeyRole → KeyRole → Bool
same_role realtime realtime = true
same_role static static = true
same_role _ _ = false

unfoldable pub slot_times : KeyRole → Queues → List Arrival → List ℕ
slot_times role q [] = []
slot_times role q (a ∷ as') =
    let rest = slot_times role (acquire_slot q a) as' in
    if same_role role a.role then last_at (acquire_slot q a) role ∷ rest else rest

-- Each time in a list is at least 250 ms after the one before it, and the first after `last`.
abbrev pub IsSpaced : ℕ → List ℕ → Type 0
IsSpaced last [] = Unit
IsSpaced last (t ∷ ts) = (last + min_interval_ms ≤ t) × IsSpaced t ts

acquire_same :
    (q : Queues) (role : KeyRole) (a : Arrival)
    → same_role role a.role ≡ true
    → last_at q role + min_interval_ms ≤ last_at (acquire_slot q a) role
unfolding acquire_slot
acquire_same q realtime a h = ground arith
acquire_same q static a h = ground arith

acquire_other :
    (q : Queues) (role : KeyRole) (a : Arrival)
    → same_role role a.role ≡ false
    → last_at (acquire_slot q a) role ≡ last_at q role
unfolding acquire_slot
acquire_other q role a h = ground arith

slot_times-IsSpaced :
    (role : KeyRole) (q : Queues) (as' : List Arrival)
    → IsSpaced (last_at q role) (slot_times role q as')
unfolding slot_times
slot_times-IsSpaced role q [] = tt
slot_times-IsSpaced role q (a ∷ as') = elim (Bool-cases (same_role role a.role)) [
  | inl mine ↦ rw mine (acquire_same q role a mine, slot_times-IsSpaced role (acquire_slot q a) as')
  | inr other ↦ rw other (
      subst (λ t. IsSpaced t (slot_times role (acquire_slot q a) as'))
        (acquire_other q role a other) (slot_times-IsSpaced role (acquire_slot q a) as'))
]

IsSpaced-gap :
    (k last : ℕ) (ts : List ℕ) {t : ℕ}
    → IsSpaced last ts
    → get_elem? ts k ≡ some t
    → last + (k + 1) * min_interval_ms ≤ t
IsSpaced-gap k last [] h e = cc
IsSpaced-gap zero last (s ∷ ts) h e = ground arith
IsSpaced-gap (suc k) last (s ∷ ts) h e = omega (arith, IsSpaced-gap k s ts h.1 e, h.0)

spaced_gap :
    (i j last : ℕ) (ts : List ℕ) {s t : ℕ}
    → IsSpaced last ts
    → i ≤ j
    → get_elem? ts i ≡ some s
    → get_elem? ts j ≡ some t
    → s + (j - i) * min_interval_ms ≤ t
spaced_gap i j last [] h le es et = cc
spaced_gap zero zero last (x ∷ xs) h le es et = ground arith
spaced_gap zero (suc j) last (x ∷ xs) h le es et = ground (arith, IsSpaced-gap j x xs h.1 et)
spaced_gap (suc i) zero last (x ∷ xs) h le es et = absurd (omega arith)
spaced_gap (suc i) (suc j) last (x ∷ xs) h le es et =
    omega (arith, spaced_gap i j x xs h.1 (omega arith) es et)

-- Whatever the order in which the requests of the two roles arrive and however late the timers
-- fire, the slots number `i` and `j` of a role, with `i` at most `j`, lie at least `j - i` times
-- 250 ms apart, four of them thus at least a second.
pub slot_gap :
    (role : KeyRole) (q : Queues) (as' : List Arrival) (i j : ℕ) {s t : ℕ}
    → i ≤ j
    → get_elem? (slot_times role q as') i ≡ some s
    → get_elem? (slot_times role q as') j ≡ some t
    → s + (j - i) * min_interval_ms ≤ t
slot_gap role q as' i j le es et =
    spaced_gap i j (last_at q role) (slot_times role q as') (slot_times-IsSpaced role q as') le es
      et
