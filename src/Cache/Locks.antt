-- ===== src/Cache/Locks.antt =====
-- What the locks and the single-use values of cache/cache.service.ts promise to callers that share
-- a Redis: their requests reach it one after another, in any order.
use typescript_starter.Common.{
  ℕ, ◌+◌, ◌*◌, ◌≤◌, ◌<◌, String, Option, none, some, List, [], ◌∷◌, Bool, true, false, ◌&&◌, ◌≡◌,
  ◌≢◌, refl, ◌∙◌, inl, inr, ◌⊎◌, lt→ltb, bit, is_some, str_eq, str_ne, eq_iff, All, Bool-cases,
  Option-cases, count_if, arith,
}
use typescript_starter.Cache.Redis.{Redis, Json}
use typescript_starter.Cache.Service.{del, acquire_lock, consume_once}

-- A request to the cache: an attempt to take a lock, a write, or a deletion, which a release is too.
pub data Request : Type 0 where
  attempt : ℕ → String → ℕ → Request
  store : ℕ → String → String → ℕ → Request
  drop : String → Request

module _ (redis : Redis) where
  abbrev handle : Request → redis.State → Bool × redis.State
  unfolding acquire_lock del
  handle (attempt now key ttl) s = acquire_lock redis now key ttl s
  handle (store now key value ttl) s = (false, redis.write now key value ttl s)
  handle (drop key) s = (false, del redis key s)

  abbrev asks_for : String → Request → Bool
  asks_for key (attempt now asked ttl) = str_eq asked key
  asks_for key (store now asked value ttl) = false
  asks_for key (drop asked) = false

  -- How many attempts on the lock succeed.
  unfoldable pub grants : String → List Request → redis.State → ℕ
  unfolding handle
  grants key [] s = 0
  grants key (r ∷ rest) s = bit (asks_for key r && (handle r s).0) + grants key rest (handle r s).1

  -- An attempt between two times, or a request for another key.
  abbrev pub Within : String → ℕ → ℕ → Request → Type 0
  Within key from until (attempt now asked ttl) = (from ≤ now) × (now < until)
  Within key from until (store now asked value ttl) = asked ≢ key
  Within key from until (drop asked) = asked ≢ key

  attempt-taken :
      (now : ℕ) (key value : String) (ttl : ℕ) (s : redis.State)
      → redis.read now key s ≡ some value
      → acquire_lock redis now key ttl s ≡ (false, s)
  unfolding acquire_lock
  attempt-taken now key value ttl s e = redis.write_if_absent-eq now key "1" ttl s ∙ rw e refl

  attempt-free :
      (now : ℕ) (key : String) (ttl : ℕ) (s : redis.State)
      → redis.read now key s ≡ none
      → acquire_lock redis now key ttl s ≡ (true, redis.write now key "1" ttl s)
  unfolding acquire_lock
  attempt-free now key ttl s e = redis.write_if_absent-eq now key "1" ttl s ∙ rw e refl

  module _ (key : String) (from until : ℕ) where
    abbrev Held : redis.State → Type 0
    Held s = (now : ℕ) → from ≤ now → now < until → redis.read now key s ≡ some "1"

    -- The request is not granted the lock, and leaves it held.
    abbrev Respects : Request → redis.State → Type 0
    Respects r s = ((asks_for key r && (handle r s).0) ≡ false) × Held (handle r s).1

    attempt-Respects :
        (now : ℕ) (asked : String) (ttl : ℕ) (s : redis.State)
        → from ≤ now
        → now < until
        → Held s
        → Respects (attempt now asked ttl) s
    unfolding handle
    attempt-Respects now asked ttl s lo hi held = elim (Bool-cases (str_eq asked key)) [
      | inl same ↦
          let taken : redis.read now asked s ≡ some "1" =
            rw ((eq_iff asked key).0 same) (held now lo hi) in
          rw (attempt-taken now asked "1" ttl s taken, same) (refl, held)
      | inr other ↦ elim (Option-cases (redis.read now asked s)) [
        | inr (value, taken) ↦ rw (attempt-taken now asked value ttl s taken, other) (refl, held)
        | inl free ↦
            rw (attempt-free now asked ttl s free, other)
              (
                refl,
                λ u lo_u hi_u.
                    redis.read-write_ne now u asked key "1" ttl s (str_ne asked key other)
                    ∙ held u lo_u hi_u,
              )
      ]
    ]

    request-Respects :
        (r : Request) (s : redis.State) → Within key from until r → Held s → Respects r s
    unfolding del handle
    request-Respects (attempt now asked ttl) s (lo, hi) held =
        attempt-Respects now asked ttl s lo hi held
    request-Respects (store now asked value ttl) s other held =
        (refl, λ u lo hi. redis.read-write_ne now u asked key value ttl s other ∙ held u lo hi)
    request-Respects (drop asked) s other held =
        (refl, λ u lo hi. redis.read-erase_ne u asked key s other ∙ held u lo hi)

    grants-Held :
        (rs : List Request) (s : redis.State)
        → All (Within key from until) rs
        → Held s
        → grants key rs s ≡ 0
    unfolding grants
    grants-Held [] s h held = refl
    grants-Held (r ∷ rest) s (h, hs) held =
        let (refused, still) = request-Respects r s h held in
        rw refused (omega (arith, grants-Held rest (handle r s).1 hs still))

  -- Once a caller has taken a lock, every further attempt on it fails until its time has passed,
  -- through any sequence of attempts on this and other locks and of writes and deletions of other
  -- keys, so long as nobody writes or releases the lock itself.
  pub lock_exclusive :
      (now : ℕ) (key : String) (ttl : ℕ) (s : redis.State) (rs : List Request)
      → (acquire_lock redis now key ttl s).0 ≡ true
      → All (Within key now (now + 1000 * ttl)) rs
      → grants key rs (acquire_lock redis now key ttl s).1 ≡ 0
  lock_exclusive now key ttl s rs taken within = elim (Option-cases (redis.read now key s)) [
    | inr (value, held) ↦
        absurd (let e = rw (attempt-taken now key value ttl s held) at taken in cc)
    | inl free ↦ rw (attempt-free now key ttl s free) (
        grants-Held key now (now + 1000 * ttl) rs (redis.write now key "1" ttl s) within (λ u lo hi.
          redis.read-write now u key "1" ttl s lo ∙ rw (lt→ltb u (now + 1000 * ttl) hi) refl))
  ]

  module _ {V : Type 0} (json : Json V) where
    -- Callers that consume a key at the given times, one after another.
    unfoldable pub consume_all : String → List ℕ → redis.State → List (Option V)
    unfolding consume_once
    consume_all key [] s = []
    consume_all key (now ∷ rest) s =
        let (value, next) = consume_once redis json now key s in value ∷ consume_all key rest next

    consumed :
        (now : ℕ) (key : String) (s : redis.State)
        → ((consume_once redis json now key s).0 ≡ none)
          ⊎ ((later : ℕ) → redis.read later key (consume_once redis json now key s).1 ≡ none)
    unfolding consume_once
    consumed now key s = elim (Option-cases (redis.read now key s)) [
      | inl absent ↦ inl (rw absent refl)
      | inr (value, found) ↦ inr (λ later. rw found (redis.read-erase later key s))
    ]

    consume_all-absent :
        (key : String) (times : List ℕ) (s : redis.State)
        → ((later : ℕ) → redis.read later key s ≡ none)
        → count_if is_some (consume_all key times s) ≡ 0
    unfolding consume_all consume_once
    consume_all-absent key [] s h = refl
    consume_all-absent key (now ∷ rest) s h =
        let ih = consume_all-absent key rest s h in rw (h now) (omega (arith, ih))

    -- However many callers consume a key, at most one of them gets its value.
    pub consumed_at_most_once :
        (key : String) (times : List ℕ) (s : redis.State)
        → count_if is_some (consume_all key times s) ≤ 1
    unfolding consume_all
    consumed_at_most_once key [] s = omega arith
    consumed_at_most_once key (now ∷ rest) s = elim (consumed now key s) [
      | inl nothing ↦
          rw nothing
            (omega (arith, consumed_at_most_once key rest (consume_once redis json now key s).1))
      | inr gone ↦
          let after = consume_all-absent key rest (consume_once redis json now key s).1 gone in
          ground (arith, after)
    ]
