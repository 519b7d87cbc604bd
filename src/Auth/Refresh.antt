-- ===== src/Auth/Refresh.antt =====
-- auth/supabase-auth.service.ts, refreshSession: the rotation of a refresh token, the replay of a
-- token that was just rotated, and the revocation of a user's sessions on reuse.
use Prim.Native.String
use typescript_starter.Common.{
  ℕ, ◌+◌, ◌*◌, String, Option, none, some, List, [], ◌∷◌, Bool, false, ltb, ◌==◌, str_eq, ◌||◌,
  if◌then◌else◌,
}
use typescript_starter.Cache.Service.{get, set, del}
use typescript_starter.Auth.{User, Session, Replay, Platform, Config, World}

abbrev pub grace_key : String → String
grace_key token = String.◌++◌ "refresh:grace:" token

abbrev pub used_key : String → String
used_key token = String.◌++◌ "refresh:used:" token

abbrev pub refresh_grace_seconds : ℕ
refresh_grace_seconds = 30

abbrev pub is_token : Option String → String → Bool
is_token none token = false
is_token (some held) token = str_eq held token

-- SELECT ... FROM session WHERE refresh_token = token LIMIT 1
unfoldable pub by_refresh_token : String → List Session → Option Session
by_refresh_token token [] = none
by_refresh_token token (s ∷ rest) =
    if is_token s.refresh_token token then some s else by_refresh_token token rest

-- SELECT ... FROM users WHERE id = id LIMIT 1
unfoldable pub user_by_id : String → List User → Option User
user_by_id id [] = none
user_by_id id (u ∷ rest) = if str_eq u.id id then some u else user_by_id id rest

-- UPDATE session SET token, expires_at, refresh_token, refresh_token_expires_at WHERE id = id
unfoldable pub rotate_row : String → String → ℕ → String → ℕ → List Session → List Session
rotate_row id token expires refresh refresh_expires [] = []
rotate_row id token expires refresh refresh_expires (s ∷ rest) =
    (if str_eq s.id id
      then record s {
        token = token;
        expires_at = expires;
        refresh_token = some refresh;
        refresh_token_expires_at = some refresh_expires;
      }
      else s)
    ∷ rotate_row id token expires refresh refresh_expires rest

-- DELETE FROM session WHERE user_id = user_id
unfoldable pub revoke_user : String → List Session → List Session
revoke_user user_id [] = []
revoke_user user_id (s ∷ rest) =
    let others = revoke_user user_id rest in if str_eq s.user_id user_id then others else s ∷ others

pub record Refreshed : Type 0 where
  pub session_token : String
  pub refresh_token : String
  pub expires_at : ℕ
  pub role : String

pub data Answer : Type 0 where
  refreshed : Refreshed → Answer
  reuse_detected : Answer
  invalid_token : Answer

-- No expiry counts as the time 0.
abbrev expiry_time : (ℕ → ℕ) → Option ℕ → ℕ
expiry_time date_utc none = 0
expiry_time date_utc (some time) = date_utc time

abbrev pub refresh_expired : (ℕ → ℕ) → ℕ → Session → Bool
refresh_expired date_utc now s =
    let time = expiry_time date_utc s.refresh_token_expires_at in time == 0 || ltb time now

abbrev pub replayed : Replay → Refreshed
replayed grace = record {
  session_token = grace.session_token;
  refresh_token = grace.refresh_token;
  expires_at = grace.expires_at;
  role = grace.role;
}

abbrev role_of : Option User → String
role_of none = "user"
role_of (some u) = u.role

module _ (p : Platform) (config : Config) where
  -- No session has the token.
  unfoldable pub unknown_token : ℕ → String → World p → Answer × World p
  unfolding revoke_user
  unknown_token now token w = elim (get p.redis p.json_replay now (grace_key token) w.cache) [
    | some grace ↦ (refreshed (replayed grace), w)
    | none ↦ elim (get p.redis p.json_text now (used_key token) w.cache) [
      | none ↦ (invalid_token, w)
      | some user_id ↦
          if str_eq user_id ""
          then (invalid_token, w)
          else (reuse_detected, record w { sessions = revoke_user user_id w.sessions })
    ]
  ]

  -- The answer to a rotation, from the two random tokens.
  abbrev pub rotation : ℕ → String → String → Session → World p → Refreshed
  rotation now new_session new_refresh old w = record {
    session_token = new_session;
    refresh_token = new_refresh;
    expires_at = now + config.ttl_seconds * 1000;
    role = role_of (user_by_id old.user_id w.users);
  }

  abbrev pub grace_of : Session → Refreshed → Replay
  grace_of old r = record {
    user_id = old.user_id;
    session_token = r.session_token;
    refresh_token = r.refresh_token;
    expires_at = r.expires_at;
    role = r.role;
  }

  -- The cache after a rotation: the replay, the mark of a used token, and a deleted key.
  unfoldable pub rotated_cache : ℕ → String → Session → Refreshed → p.redis.State → p.redis.State
  rotated_cache now token old r cache =
      let with_grace =
        set p.redis p.json_replay now (grace_key token) (grace_of old r) refresh_grace_seconds
          cache in
      let with_mark =
        set p.redis p.json_text now (used_key token) old.user_id config.refresh_ttl_seconds
          with_grace in
      del p.redis (String.◌++◌ "session:user:" old.token) with_mark

  unfoldable pub rotate : ℕ → String → String → String → Session → World p → Answer × World p
  unfolding rotate_row
  rotate now new_session new_refresh token old w =
      let r = rotation now new_session new_refresh old w in
      (
        refreshed r,
        record w {
          sessions =
              rotate_row old.id new_session r.expires_at new_refresh
                (now + config.refresh_ttl_seconds * 1000) w.sessions;
          cache = rotated_cache now token old r w.cache;
        },
      )

  unfoldable pub refresh_session : ℕ → String → String → String → World p → Answer × World p
  unfolding unknown_token rotate by_refresh_token
  refresh_session now new_session new_refresh token w = elim (by_refresh_token token w.sessions) [
    | none ↦ unknown_token now token w
    | some old ↦
        if refresh_expired p.date_utc now old
        then (invalid_token, w)
        else rotate now new_session new_refresh token old w
  ]
