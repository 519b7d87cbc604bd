-- ===== src/Cache/Redis.antt =====
-- What cache/cache.service.ts relies on of the packages it calls: Redis as a store of texts with
-- expiry, whose clock counts milliseconds, and JSON as an encoding of the values of a type.
use typescript_starter.Common.{
  ℕ, ◌+◌, ◌*◌, ◌≤◌, String, Option, none, some, Bool, true, false, ◌≡◌, ◌≢◌, ltb, is_some,
  if◌then◌else◌,
}

pub record Redis : Type 1 where
  pub State : Type 0
  -- GET, at a time
  pub read : ℕ → String → State → Option String
  -- SET key value EX ttl, at a time; the ttl is in seconds
  pub write : ℕ → String → String → ℕ → State → State
  -- SET key value EX ttl NX: whether the reply is OK
  pub write_if_absent : ℕ → String → String → ℕ → State → Bool × State
  -- DEL
  pub erase : String → State → State
  pub read-write :
      (now later : ℕ) (key value : String) (ttl : ℕ) (s : State)
      → now ≤ later
      → read later key (write now key value ttl s)
        ≡ (if ltb later (now + 1000 * ttl) then some value else none)
  pub read-write_ne :
      (now later : ℕ) (key asked value : String) (ttl : ℕ) (s : State)
      → key ≢ asked
      → read later asked (write now key value ttl s) ≡ read later asked s
  pub read-erase : (later : ℕ) (key : String) (s : State) → read later key (erase key s) ≡ none
  pub read-erase_ne :
      (later : ℕ) (key asked : String) (s : State)
      → key ≢ asked
      → read later asked (erase key s) ≡ read later asked s
  pub write_if_absent-eq :
      (now : ℕ) (key value : String) (ttl : ℕ) (s : State)
      → write_if_absent now key value ttl s
        ≡ (if is_some (read now key s) then (false, s) else (true, write now key value ttl s))

-- JSON.stringify and JSON.parse on the values of a type; `none` where parsing throws.
pub record Json (V : Type 0) : Type 0 where
  pub stringify : V → String
  pub parse : String → Option V
  pub parse-stringify : (v : V) → parse (stringify v) ≡ some v
  pub stringify-nonempty : (v : V) → stringify v ≢ ""
