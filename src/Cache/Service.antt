-- ===== src/Cache/Service.antt =====
-- cache/cache.service.ts: the operations of CacheService on keys and values, over a Redis and the
-- JSON of the values.

use typescript_starter.Common.{
  ℕ, ◌+◌, ◌*◌, ◌≤◌, String, Option, none, some, Bool, ◌≡◌, ◌≢◌, refl, inl, inr, ltb, is_some,
  str_eq, eq_iff, if◌then◌else◌, Bool-cases, arith,
}
use typescript_starter.Cache.Redis.{Redis, Json}

module _ (redis : Redis) where
  module _ {V : Type 0} (json : Json V) where
    -- An absent value and an empty text are both `!value`.
    abbrev pub decode : Option String → Option V
    decode none = none
    decode (some text) = if str_eq text "" then none else json.parse text

    unfoldable pub get : ℕ → String → redis.State → Option V
    get now key s = decode (redis.read now key s)

    unfoldable pub set : ℕ → String → V → ℕ → redis.State → redis.State
    set now key value ttl_seconds s = redis.write now key (json.stringify value) ttl_seconds s

    -- The script reads the key and deletes it if it is there, in one step.
    unfoldable pub consume_once : ℕ → String → redis.State → Option V × redis.State
    consume_once now key s =
        let value = redis.read now key s in
        (decode value, if is_some value then redis.erase key s else s)

  unfoldable pub del : String → redis.State → redis.State
  del key s = redis.erase key s

  unfoldable pub acquire_lock : ℕ → String → ℕ → redis.State → Bool × redis.State
  acquire_lock now key ttl_seconds s = redis.write_if_absent now key "1" ttl_seconds s

  unfoldable pub release_lock : String → redis.State → redis.State
  release_lock key s = redis.erase key s

  module _ {V : Type 0} (json : Json V) where
    pub get-set :
        (now later : ℕ) (key : String) (value : V) (ttl : ℕ) (s : redis.State)
        → now ≤ later
        → get json later key (set json now key value ttl s)
          ≡ (if ltb later (now + 1000 * ttl) then some value else none)
    unfolding get set
    get-set now later key value ttl s h =
        rw (redis.read-write now later key (json.stringify value) ttl s h)
          (elim (Bool-cases (ltb later (now + 1000 * ttl))) [
            | inl inside ↦ rw inside (
                ground (
                  arith,
                  eq_iff (json.stringify value) "",
                  json.stringify-nonempty value,
                  json.parse-stringify value,
                ))
            | inr past ↦ rw past refl
          ])

    pub get-set_ne :
        {W : Type 0} (other : Json W) (now later : ℕ) (key asked : String) (value : W) (ttl : ℕ)
        (s : redis.State)
        → key ≢ asked
        → get json later asked (set other now key value ttl s) ≡ get json later asked s
    unfolding get set
    get-set_ne other now later key asked value ttl s h =
        rw (redis.read-write_ne now later key asked (other.stringify value) ttl s h) refl

    pub get-del :
        (later : ℕ) (key : String) (s : redis.State) → get json later key (del key s) ≡ none
    unfolding get del
    get-del later key s = rw (redis.read-erase later key s) refl

    pub get-del_ne :
        (later : ℕ) (key asked : String) (s : redis.State)
        → key ≢ asked
        → get json later asked (del key s) ≡ get json later asked s
    unfolding get del
    get-del_ne later key asked s h = rw (redis.read-erase_ne later key asked s h) refl
