-- ===== src/Auth/Tests.antt =====
-- Runs of the authentication code on a store in memory.

use typescript_starter.Common.{
  ◌+◌, ◌*◌, none, some, [], ◌∷◌, true, false, ◌≡◌, ◌↔◌, refl, str_eq, str_ne, if◌then◌else◌, arith,
}
use typescript_starter.Cache.{
  memory_redis, json_of, Codec, text_codec, number_codec, flag_codec, option_codec, list_codec,
  pair_codec, via,
}
use typescript_starter.Cache.Service.{get, set, get-set}
use typescript_starter.Auth.{
  User, Session, Payload, Replay, SessionUser, BearerUser, VerifyResult, ApiKeyRow, Platform,
  Config, World,
}
use typescript_starter.Auth.Refresh.{
  Answer, refreshed, reuse_detected, by_refresh_token, user_by_id, refresh_session,
}
use typescript_starter.Auth.Rotation.{
  refresh_rotates, replay_in_grace, reuse_revokes, Revoked, IsRotated,
}
use typescript_starter.Common.Dict.{lookup}
use typescript_starter.Common.Text.{starts_with, after_prefix, trim}
use typescript_starter.Auth.Credentials.{
  session_key, verify_cache_key, session_row, session_user, from_session, get_user_from_session,
  authenticate_bearer_token, resolve_user_from_bearer, verified, verify_api_key, key_by_id,
  revoke_api_key, revoked,
}
use typescript_starter.Auth.Credentials.Users.{by_email, resolve_or_create_user}
use typescript_starter.Auth.Credentials.Accounts.{AdminAt, resolve_stable, admin_kept}
use typescript_starter.Auth.Credentials.Caching.{revoke_keeps_answer, rotated_session_stays_cached}
use typescript_starter.Auth.Exchange.{NewValues}
use typescript_starter.Auth.Guards.{
  Request, Caller, allow, user_caller, credential_of, api_key_guard, admin_guard, bearer_value,
}
use typescript_starter.Auth.Access.{Authorized, Administers, api_key_guard_sound, admin_guard_iff}
use typescript_starter.Auth.Refusal.{refresh_refuses, RefusesSafely}

replay_codec : Codec Replay
replay_codec =
    via (λ (r : Replay). (r.user_id, (r.session_token, (r.refresh_token, (r.expires_at, r.role)))))
      (λ (a, (b, (c, (d, e)))). record {
        user_id = a;
        session_token = b;
        refresh_token = c;
        expires_at = d;
        role = e;
      })
      (λ r. refl)
      (pair_codec text_codec
        (pair_codec text_codec (pair_codec text_codec (pair_codec number_codec text_codec))))

session_codec : Codec SessionUser
session_codec =
    via (λ (r : SessionUser). (r.user_id, (r.role, r.impersonated_by)))
      (λ (a, (b, c)). record { user_id = a; role = b; impersonated_by = c }) (λ r. refl)
      (pair_codec text_codec (pair_codec text_codec option_codec))

bearer_codec : Codec BearerUser
bearer_codec =
    via (λ (r : BearerUser). (r.user_id, (r.role, (r.banned, r.impersonated_by))))
      (λ (a, (b, (c, d))). record { user_id = a; role = b; banned = c; impersonated_by = d })
      (λ r. refl)
      (pair_codec text_codec (pair_codec text_codec (pair_codec flag_codec option_codec)))

verify_codec : Codec VerifyResult
verify_codec =
    via (λ (r : VerifyResult). (r.valid, (r.user_id, (r.key_id, r.permissions))))
      (λ (a, (b, (c, d))). record { valid = a; user_id = b; key_id = c; permissions = d })
      (λ r. refl)
      (pair_codec flag_codec (pair_codec option_codec (pair_codec option_codec list_codec)))

abbrev admin_payload : Payload
admin_payload = record {
  sub = some "sub-1";
  email = some "ana@example.org";
  full_name = none;
  user_name = some "Ana";
  app_role = none;
  role = some "authenticated";
}

abbrev platform : Platform
platform = record {
  redis = memory_redis;
  json_replay = json_of replay_codec;
  json_text = json_of text_codec;
  json_session = json_of session_codec;
  json_bearer = json_of bearer_codec;
  json_verify = json_of verify_codec;
  date_utc = λ t. t;
  verify_token = λ now token. if str_eq token "jwt" then some admin_payload else none;
  verify_key = λ now value keys. record {
    valid = str_eq value "nsw_raw";
    user_id = some "u1";
    key_id = some "k1";
    api_permissions = none;
  };
}

abbrev config : Config
config = record { ttl_seconds = 3600; refresh_ttl_seconds = 604800 }

abbrev row : Session
row = record {
  id = "s1";
  user_id = "u1";
  token = "t1";
  expires_at = 3600000;
  refresh_token = some "r1";
  refresh_token_expires_at = some 604800000;
  impersonated_by = none;
}

abbrev ana : User
ana = record {
  id = "u1";
  name = "Ana";
  email = "ana@example.org";
  role = "admin";
  banned = true;
  supabase_user_id = none;
}

abbrev key_row : ApiKeyRow
key_row = record { id = "k1"; key = "hash"; reference_id = "u1"; enabled = true }

abbrev world : World platform
world = record { sessions = row ∷ []; users = ana ∷ []; keys = key_row ∷ []; cache = [] }

abbrev rotated : Answer × World platform
rotated = refresh_session platform config 1000 "t2" "r2" "r1" world

refresh_rotates_example :
    (rotated.0
      ≡ refreshed (record {
        session_token = "t2";
        refresh_token = "r2";
        expires_at = 1000 + 3600 * 1000;
        role = "admin";
      }))
    × (by_refresh_token "r1" rotated.1.sessions ≡ none)
    × ((s : Session) × (by_refresh_token "r2" rotated.1.sessions ≡ some s)
        × IsRotated "s1" "t2" (1000 + 3600 * 1000) s)
unfolding by_refresh_token user_by_id
refresh_rotates_example =
    refresh_rotates platform config 1000 "t2" "r2" "r1" row world refl refl (λ h. refl, tt)
      (str_ne _ _ refl) (refl, tt)

replay_in_grace_example : refresh_session platform config 30999 "t3" "r3" "r1" rotated.1 ≡ rotated
unfolding by_refresh_token
replay_in_grace_example =
    replay_in_grace platform config 1000 "t2" "r2" "r1" row world refl refl (λ h. refl, tt)
      (str_ne _ _ refl) 30999 "t3" "r3" (omega arith) (omega arith)

abbrev reused : Answer × World platform
reused = refresh_session platform config 31000 "t3" "r3" "r1" rotated.1

reuse_revokes_example : (reused.0 ≡ reuse_detected) × Revoked "u1" reused.1.sessions
unfolding by_refresh_token
reuse_revokes_example =
    reuse_revokes platform config 1000 "t2" "r2" "r1" row world refl refl (λ h. refl, tt)
      (str_ne _ _ refl) 31000 "t3" "r3" (omega arith) (str_ne _ _ refl) (omega arith) (omega arith)

refresh_refuses_example :
    let result = refresh_session platform config 1000 "t2" "r2" "unknown" world in
    RefusesSafely platform config 1000 "unknown" world result
    × (result.0 ≡ reuse_detected → by_refresh_token "unknown" world.sessions ≡ none)
refresh_refuses_example = refresh_refuses platform config 1000 "t2" "r2" "unknown" world

resolve_stable_example :
    let result = resolve_or_create_user "u2" admin_payload world.users in
    ((u : User) × (result.0 ≡ some u))
    × (resolve_or_create_user "u3" admin_payload result.1 ≡ result)
resolve_stable_example =
    resolve_stable admin_payload "sub-1" "ana@example.org" refl refl "u2" "u3" world.users

admin_kept_example :
    AdminAt "ana@example.org" (resolve_or_create_user "u2" admin_payload world.users).1
unfolding by_email
admin_kept_example =
    admin_kept admin_payload "sub-1" "ana@example.org" refl refl "u2" "ana@example.org" world.users
      (ana, refl, refl)

abbrev valid_key : VerifyResult
valid_key = verified (platform.verify_key 1000 "nsw_raw" (key_row ∷ []))

-- The key was verified at 1000, and its answer is cached.
abbrev with_key : World platform
with_key = record world {
  cache = set platform.redis platform.json_verify 1000 (verify_cache_key "nsw_raw") valid_key 60 [];
}

revoke_keeps_answer_example :
    let result = revoke_api_key platform "k1" "u1" with_key in
    (result.0 ≡ revoked) × ((verify_api_key platform 9000 "nsw_raw" result.1).0 ≡ valid_key)
unfolding key_by_id
revoke_keeps_answer_example =
    revoke_keeps_answer platform 9000 "k1" "u1" "nsw_raw" with_key key_row valid_key refl refl
      (str_ne _ _ refl)
      (get-set platform.redis platform.json_verify 1000 9000 (verify_cache_key "nsw_raw") valid_key
        60 [] (omega arith))

-- Ana's session was resolved at 500, and is cached.
abbrev with_session : World platform
with_session = record world {
  cache =
      set platform.redis platform.json_session 500 (session_key "t1") (session_user row ana) 120 [];
}

rotated_session_stays_cached_example :
    (get_user_from_session platform 9000 "t1"
      (refresh_session platform config 1000 "t2" "r2" "r1" with_session).1).0
    ≡ some (session_user row ana)
unfolding by_refresh_token
rotated_session_stays_cached_example =
    rotated_session_stays_cached platform config 1000 "t2" "r2" "r1" row with_session refl refl 9000
      (session_user row ana)
      (get-set platform.redis platform.json_session 500 9000 (session_key "t1")
        (session_user row ana) 120 [] (omega arith))

abbrev request : Request
request = record {
  is_public = false;
  client = none;
  api_key = none;
  authorization = some "Bearer t1";
  session_cookie = none;
}

abbrev ana_caller : Caller
ana_caller = user_caller (from_session (session_user row ana))

guarded_allows : (api_key_guard platform none 1000 "u9" request world).0 ≡ allow (some ana_caller)
unfolding api_key_guard credential_of get lookup session_row starts_with resolve_user_from_bearer
    get_user_from_session authenticate_bearer_token bearer_value after_prefix trim
guarded_allows = refl

api_key_guard_sound_example : Authorized platform 1000 "u9" request world none (some ana_caller)
api_key_guard_sound_example =
    api_key_guard_sound platform 1000 "u9" request world none (some ana_caller) guarded_allows

admin_guard_iff_example :
    ((admin_guard platform 1000 "u9" request world).0 ≡ allow (some ana_caller))
    ↔ Administers platform 1000 "u9" request world (some ana_caller)
admin_guard_iff_example = admin_guard_iff platform 1000 "u9" request world (some ana_caller)

abbrev values : NewValues
values = record { session_token = "t5"; refresh_token = "r5"; session_id = "s5"; account_id = "u5" }

abbrev linked : User
linked = record ana { supabase_user_id = some "sub-1" }
