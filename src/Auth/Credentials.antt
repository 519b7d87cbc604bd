-- ===== src/Auth/Credentials.antt =====
-- auth/api-key.service.ts and resolveOrCreateUser of auth/supabase-auth.service.ts: what a session
-- token, a bearer credential and an API key resolve to, and what a revocation does.
pub mod Users
pub mod Accounts
pub mod Caching
use Prim.Native.String
use typescript_starter.Common.{
  ℕ, ◌≤◌, String, Option, none, some, List, [], ◌∷◌, Bool, true, false, ltb, or_else, str_eq, ◌>>=◌,
  if◌then◌else◌,
}
use typescript_starter.Cache.Service.{get, set, del}
use typescript_starter.Auth.{
  User, Session, SessionUser, BearerUser, VerifyResult, ApiKeyRow, KeyCheck, Platform, World,
}
use typescript_starter.Auth.Refresh.{user_by_id}
use typescript_starter.Auth.Credentials.Users.{claim, resolve_or_create_user}

abbrev pub session_key : String → String
session_key token = String.◌++◌ "session:user-full:" token

abbrev pub bearer_key : String → String
bearer_key credential = String.◌++◌ "auth:bearer:" credential

abbrev pub verify_cache_key : String → String
verify_cache_key value = String.◌++◌ "apiKey:verify:" value

abbrev pub session_ttl : ℕ
session_ttl = 120

abbrev pub supabase_token_ttl : ℕ
supabase_token_ttl = 120

abbrev pub apikey_verify_ttl : ℕ
apikey_verify_ttl = 60

-- SELECT ... FROM session WHERE token = token LIMIT 1
unfoldable pub by_token : String → List Session → Option Session
by_token token [] = none
by_token token (s ∷ rest) = if str_eq s.token token then some s else by_token token rest

-- The inner join of the session with its user.
unfoldable pub session_row : String → List User → List Session → Option (Session × User)
unfolding user_by_id by_token
session_row token users sessions =
    by_token token sessions >>= λ s. user_by_id s.user_id users >>= λ u. some (s, u)

abbrev pub session_user : Session → User → SessionUser
session_user s u = record {
  user_id = u.id;
  role = u.role;
  impersonated_by = claim s.impersonated_by;
}

abbrev pub from_account : User → BearerUser
from_account u = record { user_id = u.id; role = u.role; banned = u.banned; impersonated_by = none }

-- { ...viaSession, banned: false }
abbrev pub from_session : SessionUser → BearerUser
from_session s = record {
  user_id = s.user_id;
  role = s.role;
  banned = false;
  impersonated_by = s.impersonated_by;
}

abbrev pub verified : KeyCheck → VerifyResult
verified check =
    if check.valid
    then record {
      valid = true;
      user_id = check.user_id;
      key_id = check.key_id;
      permissions = or_else check.api_permissions ("user" ∷ []);
    }
    else record { valid = false; user_id = none; key_id = none; permissions = [] }

module _ (p : Platform) where
  unfoldable pub get_user_from_session : ℕ → String → World p → Option SessionUser × World p
  unfolding session_row
  get_user_from_session now token w =
      elim (get p.redis p.json_session now (session_key token) w.cache) [
        | some cached ↦ (some cached, w)
        | none ↦ elim (session_row token w.users w.sessions) [
          | none ↦ (none, w)
          | some (s, u) ↦ if ltb (p.date_utc s.expires_at) now then (none, w) else (
            some (session_user s u),
            record w {
              cache =
                  set p.redis p.json_session now (session_key token) (session_user s u) session_ttl
                    w.cache;
            },
          )
        ]
      ]

  -- A token that is not Supabase's, and an account that cannot be resolved, are both null.
  unfoldable pub authenticate_bearer_token :
      ℕ → String → String → World p → Option BearerUser × World p
  unfolding resolve_or_create_user
  authenticate_bearer_token now id token w = elim (p.verify_token now token) [
    | none ↦ (none, w)
    | some payload ↦
        let resolved = resolve_or_create_user id payload w.users in
        (resolved.0 >>= λ u. some (from_account u), record w { users = resolved.1 })
  ]

  abbrev pub by_session : ℕ → String → World p → Option BearerUser × World p
  by_session now credential w =
      let found = get_user_from_session now credential w in
      (found.0 >>= λ s. some (from_session s), found.1)

  unfoldable pub resolve_user_from_bearer :
      ℕ → String → String → World p → Option BearerUser × World p
  unfolding authenticate_bearer_token get_user_from_session
  resolve_user_from_bearer now id credential w =
      elim (get p.redis p.json_bearer now (bearer_key credential) w.cache) [
        | some cached ↦ (some cached, w)
        | none ↦
            let via_supabase = authenticate_bearer_token now id credential w in
            elim via_supabase.0 [
              | some account ↦ (
                some account,
                record w {
                  users = via_supabase.1.users;
                  cache =
                      set p.redis p.json_bearer now (bearer_key credential) account
                        supabase_token_ttl w.cache;
                },
              )
              | none ↦ by_session now credential via_supabase.1
            ]
      ]

  unfoldable pub verify_api_key : ℕ → String → World p → VerifyResult × World p
  verify_api_key now value w =
      elim (get p.redis p.json_verify now (verify_cache_key value) w.cache) [
        | some cached ↦ (cached, w)
        | none ↦
            let check = p.verify_key now value w.keys in
            (
              verified check,
              record w {
                cache =
                    set p.redis p.json_verify now (verify_cache_key value) (verified check)
                      (if check.valid then apikey_verify_ttl else 10) w.cache;
              },
            )
      ]

-- SELECT ... FROM apikey WHERE id = id LIMIT 1
unfoldable pub key_by_id : String → List ApiKeyRow → Option ApiKeyRow
key_by_id id [] = none
key_by_id id (k ∷ rest) = if str_eq k.id id then some k else key_by_id id rest

-- UPDATE apikey SET enabled = false WHERE id = id
unfoldable pub disable : String → List ApiKeyRow → List ApiKeyRow
disable id [] = []
disable id (k ∷ rest) =
    (if str_eq k.id id then record k { enabled = false } else k) ∷ disable id rest

pub data Revocation : Type 0 where
  revoked not_found not_owner : Revocation

unfoldable pub revoke_api_key : (p : Platform) → String → String → World p → Revocation × World p
unfolding key_by_id disable
revoke_api_key p key_id user_id w = elim (key_by_id key_id w.keys) [
  | none ↦ (not_found, w)
  | some row ↦
      if str_eq row.reference_id user_id
      then (
        revoked,
        record w {
          keys = disable key_id w.keys;
          cache = del p.redis (verify_cache_key row.key) w.cache;
        },
      )
      else (not_owner, w)
]
