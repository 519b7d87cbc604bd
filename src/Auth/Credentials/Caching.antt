-- ===== src/Auth/Credentials/Caching.antt =====
-- How long a resolved credential is served from the cache, and what a revocation or a refresh does
-- to it.

use typescript_starter.Common.{
  ℕ, ◌+◌, ◌*◌, ◌≤◌, ◌<◌, String, Option, none, some, true, false, ◌≡◌, ◌≢◌, refl, ap, ◌∙◌, ltb,
  lt→ltb, str_eq, eq_iff, ◌>>=◌, if◌then◌else◌, arith,
}
use text.Mathlib.TextLemmas.{append_cancel_left}
use typescript_starter.Common.Text.{clash-append}
use typescript_starter.Cache.Service.{get, set, get-set, get-set_ne, get-del_ne}
use typescript_starter.Auth.{
  User, Session, SessionUser, BearerUser, ApiKeyRow, VerifyResult, Platform, Config, World,
}
use typescript_starter.Auth.Refresh.{
  by_refresh_token, refresh_expired, rotation, rotated_cache, rotate, refresh_session,
}
use typescript_starter.Auth.Rotation.{first-rotate}
use typescript_starter.Auth.Credentials.{
  session_key, bearer_key, verify_cache_key, apikey_verify_ttl, session_row, session_user,
  from_session, by_session, get_user_from_session, authenticate_bearer_token,
  resolve_user_from_bearer, verified, verify_api_key, key_by_id, revoke_api_key, revoked,
}

module _ (p : Platform) where
  -- How long the answer to a check is kept, in milliseconds.
  abbrev pub kept_ms : ℕ → String → World p → ℕ
  kept_ms now value w =
      1000 * (if (p.verify_key now value w.keys).valid then apikey_verify_ttl else 10)

  cached_verify :
      (now : ℕ) (value : String) (w : World p) (r : VerifyResult)
      → get p.redis p.json_verify now (verify_cache_key value) w.cache ≡ some r
      → verify_api_key p now value w ≡ (r, w)
  unfolding verify_api_key
  cached_verify now value w r e = rw (e, verify_api_key) refl

  fresh_verify :
      (now : ℕ) (value : String) (w : World p)
      → get p.redis p.json_verify now (verify_cache_key value) w.cache ≡ none
      → verify_api_key p now value w ≡ (
        verified (p.verify_key now value w.keys),
        record w {
          cache =
              set p.redis p.json_verify now
                (verify_cache_key value)
                (verified (p.verify_key now value w.keys))
                (if (p.verify_key now value w.keys).valid then apikey_verify_ttl else 10)
                w.cache;
        },
      )
  unfolding verify_api_key
  fresh_verify now value w e = rw (e, verify_api_key) refl

  -- The answer about an API key that is not cached is better-auth's; it is given again, with
  -- nothing changed, for a minute, or for ten seconds if the key is not valid, and after that
  -- better-auth is asked again.
  pub verify_cached :
      (now later : ℕ) (value : String) (w : World p)
      → get p.redis p.json_verify now (verify_cache_key value) w.cache ≡ none
      → now ≤ later
      → let first = verify_api_key p now value w in
        (first.0 ≡ verified (p.verify_key now value w.keys))
        × (later < now + kept_ms now value w → verify_api_key p later value first.1 ≡ first)
        × (now + kept_ms now value w ≤ later
            → (verify_api_key p later value first.1).0
              ≡ verified (p.verify_key later value first.1.keys))
  verify_cached now later value w missing order = rw (fresh_verify now value w missing) (
    refl,
    λ h. cached_verify later value _ _ (
        get-set p.redis p.json_verify now later _ _ _ _ order
        ∙ rw (lt→ltb later (now + kept_ms now value w) h) refl),
    λ h.
        let late : ltb later (now + kept_ms now value w) ≡ false = ground arith in
        ap (λ (r : VerifyResult × World p). r.0)
          (fresh_verify later value _
            (get-set p.redis p.json_verify now later _ _ _ _ order ∙ rw late refl)),
  )

  cached_session :
      (now : ℕ) (token : String) (w : World p) (s : SessionUser)
      → get p.redis p.json_session now (session_key token) w.cache ≡ some s
      → get_user_from_session p now token w ≡ (some s, w)
  unfolding get_user_from_session
  cached_session now token w s e = rw (e, get_user_from_session) refl

  -- A raw key that is not the key's stored text, and whose answer is cached, is still answered from
  -- the cache after the owner has revoked the key.
  pub revoke_keeps_answer :
      (later : ℕ) (key_id user_id raw : String) (w : World p) (row : ApiKeyRow) (r : VerifyResult)
      → key_by_id key_id w.keys ≡ some row
      → row.reference_id ≡ user_id
      → row.key ≢ raw
      → get p.redis p.json_verify later (verify_cache_key raw) w.cache ≡ some r
      → let result = revoke_api_key p key_id user_id w in
        (result.0 ≡ revoked) × ((verify_api_key p later raw result.1).0 ≡ r)
  unfolding revoke_api_key
  revoke_keeps_answer later key_id user_id raw w row r found owner other cached =
      let owned : str_eq row.reference_id user_id ≡ true =
        (eq_iff row.reference_id user_id).1 owner in
      let apart : verify_cache_key row.key ≢ verify_cache_key raw =
        λ e. other (append_cancel_left "apiKey:verify:" row.key raw e) in
      rw (found, owned, revoke_api_key)
        (
          refl,
          ap (λ (a : VerifyResult × World p). a.0)
              (cached_verify later raw _ r
                (get-del_ne p.redis p.json_verify later _ _ w.cache apart ∙ cached)),
        )

  not_supabase :
      (now : ℕ) (id token : String) (w : World p)
      → p.verify_token now token ≡ none
      → authenticate_bearer_token p now id token w ≡ (none, w)
  unfolding authenticate_bearer_token
  not_supabase now id token w e = rw (e, authenticate_bearer_token) refl

  to_session :
      (now : ℕ) (id token : String) (w : World p)
      → get p.redis p.json_bearer now (bearer_key token) w.cache ≡ none
      → authenticate_bearer_token p now id token w ≡ (none, w)
      → resolve_user_from_bearer p now id token w ≡ by_session p now token w
  unfolding resolve_user_from_bearer
  to_session now id token w uncached e =
      rw (uncached, e, resolve_user_from_bearer)
        (ap (λ (a : Option BearerUser × World p). by_session p now token a.1) e)

  live_session :
      (now : ℕ) (token : String) (w : World p) (s : Session) (u : User)
      → get p.redis p.json_session now (session_key token) w.cache ≡ none
      → session_row token w.users w.sessions ≡ some (s, u)
      → ltb (p.date_utc s.expires_at) now ≡ false
      → (get_user_from_session p now token w).0 ≡ some (session_user s u)
  unfolding get_user_from_session
  live_session now token w s u unknown row valid =
      rw (unknown, row, valid, get_user_from_session) refl

  -- A session token that is no token of Supabase and is not cached, of a session that has not
  -- expired, resolves to the session's user with that user's role, and counts as not banned
  -- whatever the user's row says.
  pub session_resolves :
      (now : ℕ) (id token : String) (w : World p) (s : Session) (u : User)
      → get p.redis p.json_bearer now (bearer_key token) w.cache ≡ none
      → p.verify_token now token ≡ none
      → get p.redis p.json_session now (session_key token) w.cache ≡ none
      → session_row token w.users w.sessions ≡ some (s, u)
      → now ≤ p.date_utc s.expires_at
      → ((resolve_user_from_bearer p now id token w).0 ≡ some (from_session (session_user s u)))
        × ((from_session (session_user s u)).banned ≡ false)
  session_resolves now id token w s u uncached no_payload unknown row live =
      let route = to_session now id token w uncached (not_supabase now id token w no_payload) in
      let found = live_session now token w s u unknown row (ground arith) in
      (
        ap (λ (a : Option BearerUser × World p). a.0) route
            ∙ ap (λ (a : Option SessionUser). a >>= λ x. some (from_session x)) found,
        refl,
      )

  module _ (config : Config) (now : ℕ) (ns nr token : String) (old : Session) (w : World p)
      (held : by_refresh_token token w.sessions ≡ some old)
      (valid : refresh_expired p.date_utc now old ≡ false) where
    session-rotated :
        (later : ℕ) (asked : String)
        → get p.redis p.json_session later
            (session_key asked)
            (refresh_session p config now ns nr token w).1.cache
          ≡ get p.redis p.json_session later (session_key asked) w.cache
    unfolding rotate rotated_cache
    session-rotated later asked =
        let r = rotation p config now ns nr old w in
        rw (first-rotate p config now ns nr token old w held valid) (
          get-del_ne p.redis p.json_session later _ (session_key asked) _
            (clash-append "session:user:" "session:user-full:" old.token asked refl)
          ∙ get-set_ne p.redis p.json_session p.json_text now later _ (session_key asked) _ _ _
              (clash-append "refresh:used:" "session:user-full:" token asked refl)
          ∙ get-set_ne p.redis p.json_session p.json_replay now later _ (session_key asked) _ _ _
              (clash-append "refresh:grace:" "session:user-full:" token asked refl))

    -- After the rotation of a refresh token that has not expired, the session token that it
    -- replaces still resolves to the user of its cache entry, at every time at which that entry
    -- could be read before the rotation.
    pub rotated_session_stays_cached :
        (later : ℕ) (s : SessionUser)
        → get p.redis p.json_session later (session_key old.token) w.cache ≡ some s
        → (get_user_from_session p later old.token (refresh_session p config now ns nr token w).1).0
          ≡ some s
    rotated_session_stays_cached later s cached =
        ap (λ (a : Option SessionUser × World p). a.0)
          (cached_session later old.token _ s (session-rotated later old.token ∙ cached))
