-- ===== src/Auth.antt =====
-- auth/: the tables and the outside services that the authentication code uses, and its parts: the
-- refresh of sessions, the resolution of credentials, and the guards.
pub mod Refresh
pub mod Rotation
pub mod Refusal
pub mod Credentials
pub mod Exchange
pub mod Guards
pub mod Access
mod Tests
use Prim.Native.String
use typescript_starter.Common.{ℕ, String, Option, List, Bool}
use typescript_starter.Cache.Redis.{Redis, Json}

-- A row of the table `users`, as far as the authentication code reads and writes it.
pub record User : Type 0 where
  pub id : String
  pub name : String
  pub email : String
  pub role : String
  pub banned : Bool
  pub supabase_user_id : Option String

-- A row of the table `session`; times are in milliseconds.
pub record Session : Type 0 where
  pub id : String
  pub user_id : String
  pub token : String
  pub expires_at : ℕ
  pub refresh_token : Option String
  pub refresh_token_expires_at : Option ℕ
  pub impersonated_by : Option String

-- The claims that the code reads from a verified Supabase token.
pub record Payload : Type 0 where
  pub sub : Option String
  pub email : Option String
  pub full_name : Option String
  pub user_name : Option String
  pub app_role : Option String
  pub role : Option String

-- RefreshGraceReplay
pub record Replay : Type 0 where
  pub user_id : String
  pub session_token : String
  pub refresh_token : String
  pub expires_at : ℕ
  pub role : String

-- What a session token resolves to.
pub record SessionUser : Type 0 where
  pub user_id : String
  pub role : String
  pub impersonated_by : Option String

-- What a bearer credential resolves to.
pub record BearerUser : Type 0 where
  pub user_id : String
  pub role : String
  pub banned : Bool
  pub impersonated_by : Option String

-- VerifyResult
pub record VerifyResult : Type 0 where
  pub valid : Bool
  pub user_id : Option String
  pub key_id : Option String
  pub permissions : List String

-- A row of the table `apikey`: `key` is the stored text, which better-auth hashes.
pub record ApiKeyRow : Type 0 where
  pub id : String
  pub key : String
  pub reference_id : String
  pub enabled : Bool

-- What better-auth answers about a key: the permissions under `api`, if there are any.
pub record KeyCheck : Type 0 where
  pub valid : Bool
  pub user_id : Option String
  pub key_id : Option String
  pub api_permissions : Option (List String)

-- What the code uses of other packages: Redis, JSON, `Date.UTC` of a time's local fields, the
-- verification of Supabase tokens (jose) and that of API keys (better-auth). The token's check is `none`
-- where it throws.
pub record Platform : Type 1 where
  pub redis : Redis
  pub json_replay : Json Replay
  pub json_text : Json String
  pub json_session : Json SessionUser
  pub json_bearer : Json BearerUser
  pub json_verify : Json VerifyResult
  pub date_utc : ℕ → ℕ
  pub verify_token : ℕ → String → Option Payload
  pub verify_key : ℕ → String → List ApiKeyRow → KeyCheck

pub record Config : Type 0 where
  pub ttl_seconds : ℕ
  pub refresh_ttl_seconds : ℕ

-- The state that requests share: the tables and the cache.
pub record World (p : Platform) : Type 0 where
  pub sessions : List Session
  pub users : List User
  pub keys : List ApiKeyRow
  pub cache : p.redis.State
