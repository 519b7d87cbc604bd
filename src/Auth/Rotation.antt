-- ===== src/Auth/Rotation.antt =====
-- refreshSession over several requests: what a rotation leaves for the old token and for the new
-- one, inside the grace window and after it.
mod Rows
pub use Rows.{OnlyHolder, Fresh, Revoked, IsRotated}
use Rows.{old_token_gone, new_token_found, Revoked-revoke_user}
use Prim.Native.String
use typescript_starter.Common.{
  ℕ, ◌+◌, ◌*◌, ◌≤◌, ◌<◌, String, none, some, List, [], ◌∷◌, true, false, ◌≡◌, ◌≢◌, refl, sym, ◌∙◌,
  ap, inl, inr, ltb, lt→ltb, str_eq, eq_iff, eq_refl, if◌then◌else◌, Bool-cases, All, arith,
}
use typescript_starter.Common.Text.{clash-append}
use typescript_starter.Cache.Service.{get, get-set, get-set_ne, get-del_ne}
use typescript_starter.Auth.{Session, Replay, Platform, Config, World}
use typescript_starter.Auth.Refresh.{
  Refreshed, Answer, refreshed, reuse_detected, grace_key, used_key, refresh_grace_seconds,
  is_token, by_refresh_token, user_by_id, rotate_row, revoke_user, refresh_expired, replayed,
  rotation, grace_of, rotated_cache, rotate, unknown_token, refresh_session,
}

grace-ne-session : (x y : String) → String.◌++◌ "session:user:" x ≢ grace_key y
grace-ne-session x y = clash-append "session:user:" "refresh:grace:" x y refl

used-ne-session : (x y : String) → String.◌++◌ "session:user:" x ≢ used_key y
used-ne-session x y = clash-append "session:user:" "refresh:used:" x y refl

used-ne-grace : (x y : String) → used_key x ≢ grace_key y
used-ne-grace x y = clash-append "refresh:used:" "refresh:grace:" x y refl

module _ (p : Platform) (config : Config) where
  module _ (now later : ℕ) (token : String) (old : Session) (r : Refreshed)
      (order : now ≤ later) where
    grace-rotated :
        (cache : p.redis.State)
        → get p.redis p.json_replay later
            (grace_key token)
            (rotated_cache p config now token old r cache)
          ≡ (if ltb later (now + 1000 * refresh_grace_seconds)
              then some (grace_of p config old r)
              else none)
    unfolding rotated_cache
    grace-rotated cache =
        get-del_ne p.redis p.json_replay later _ (grace_key token) _
          (grace-ne-session old.token token)
        ∙ get-set_ne p.redis p.json_replay p.json_text now later (used_key token) (grace_key token)
            old.user_id config.refresh_ttl_seconds _ (used-ne-grace token token)
        ∙ get-set p.redis p.json_replay now later (grace_key token) (grace_of p config old r)
            refresh_grace_seconds cache order

    used-rotated :
        (cache : p.redis.State)
        → get p.redis p.json_text later
            (used_key token)
            (rotated_cache p config now token old r cache)
          ≡ (if ltb later (now + 1000 * config.refresh_ttl_seconds) then some old.user_id else none)
    unfolding rotated_cache
    used-rotated cache =
        get-del_ne p.redis p.json_text later _ (used_key token) _ (used-ne-session old.token token)
        ∙ get-set p.redis p.json_text now later (used_key token) old.user_id
            config.refresh_ttl_seconds _ order

  -- A request with a token that no session has.
  unknown_step :
      (now : ℕ) (ns nr token : String) (w : World p)
      → by_refresh_token token w.sessions ≡ none
      → refresh_session p config now ns nr token w ≡ unknown_token p config now token w
  unfolding refresh_session
  unknown_step now ns nr token w e = rw (e, refresh_session) refl

  unknown_replayed :
      (now : ℕ) (token : String) (w : World p) (grace : Replay)
      → get p.redis p.json_replay now (grace_key token) w.cache ≡ some grace
      → unknown_token p config now token w ≡ (refreshed (replayed grace), w)
  unfolding unknown_token
  unknown_replayed now token w grace e = rw (e, unknown_token) refl

  unknown_reused :
      (now : ℕ) (token user_id : String) (w : World p)
      → get p.redis p.json_replay now (grace_key token) w.cache ≡ none
      → get p.redis p.json_text now (used_key token) w.cache ≡ some user_id
      → str_eq user_id "" ≡ false
      → unknown_token p config now token w
        ≡ (reuse_detected, record w { sessions = revoke_user user_id w.sessions })
  unfolding unknown_token
  unknown_reused now token user_id w g u e = rw (g, u, e, unknown_token) refl

  module _ (now : ℕ) (ns nr token : String) (old : Session) (w : World p)
      (held : by_refresh_token token w.sessions ≡ some old)
      (valid : refresh_expired p.date_utc now old ≡ false) where
    abbrev first : Answer × World p
    first = refresh_session p config now ns nr token w

    abbrev answer : Refreshed
    answer = rotation p config now ns nr old w

    pub first-rotate : first ≡ rotate p config now ns nr token old w
    unfolding refresh_session
    first-rotate = rw (held, valid, refresh_session) refl

    module _ (only : OnlyHolder token old.id w.sessions) (other : nr ≢ token) where
      no_holder : by_refresh_token token first.1.sessions ≡ none
      unfolding rotate
      no_holder = rw first-rotate (
          old_token_gone old.id ns nr answer.expires_at (now + config.refresh_ttl_seconds * 1000)
            token w.sessions other only)

      -- A refresh token that has not expired and that no row but its session's holds is exchanged
      -- for a different one: the answer has the new session token, the new refresh token, the
      -- expiry after the configured time, and the role of the session's user, or `user` where there
      -- is none; no session holds the old token then, and, if no session held the new one before,
      -- the new one finds the old session's row, which has the new session token and expiry.
      pub refresh_rotates :
          Fresh nr w.sessions
          → (first.0
              ≡ refreshed (record {
                session_token = ns;
                refresh_token = nr;
                expires_at = now + config.ttl_seconds * 1000;
                role = elim (user_by_id old.user_id w.users) [ none ↦ "user" | some u ↦ u.role ];
              }))
            × (by_refresh_token token first.1.sessions ≡ none)
            × ((row : Session) × (by_refresh_token nr first.1.sessions ≡ some row)
                × IsRotated old.id ns (now + config.ttl_seconds * 1000) row)
      unfolding rotate
      refresh_rotates fresh = rw first-rotate (
        refl,
        old_token_gone old.id ns nr answer.expires_at (now + config.refresh_ttl_seconds * 1000)
            token w.sessions other only,
        new_token_found old.id ns nr answer.expires_at (now + config.refresh_ttl_seconds * 1000)
            token old w.sessions held refl fresh,
      )

      module _ (later : ℕ) (ns2 nr2 : String) (order : now ≤ later) where
        abbrev second : Answer × World p
        second = refresh_session p config later ns2 nr2 token first.1

        grace-first :
            get p.redis p.json_replay later (grace_key token) first.1.cache
            ≡ (if ltb later (now + 30000) then some (grace_of p config old answer) else none)
        unfolding rotate
        grace-first =
            ap
              (λ (f : Answer × World p).
                get p.redis p.json_replay later (grace_key token) f.1.cache)
              first-rotate
            ∙ grace-rotated now later token old answer order w.cache

        used-first : get p.redis p.json_text later (used_key token) first.1.cache ≡ (
            if ltb later (now + 1000 * config.refresh_ttl_seconds) then some old.user_id else none)
        unfolding rotate
        used-first =
            ap (λ (f : Answer × World p). get p.redis p.json_text later (used_key token) f.1.cache)
              first-rotate
            ∙ used-rotated now later token old answer order w.cache

        -- A refresh token that had not expired and that no row but its session's held, if it was
        -- rotated to a different one and is presented again within 30 seconds of the rotation, and
        -- not before it, gets the same answer as the first time, and nothing changes.
        pub replay_in_grace : later < now + 30000 → second ≡ first
        unfolding rotate
        replay_in_grace h =
            unknown_step later ns2 nr2 token first.1 no_holder
            ∙ unknown_replayed later token first.1 (grace_of p config old answer)
                (grace-first ∙ rw (lt→ltb later (now + 30000) h) refl)
            ∙ ap (λ (f : Answer × World p). (refreshed answer, f.1)) first-rotate
            ∙ sym first-rotate

        -- A refresh token that had not expired and that no row but its session's held, if it was
        -- rotated to a different one and is presented again 30 seconds after the rotation or
        -- later, while the mark of a used token lasts, is reported as reuse, and no session of its
        -- user, whose id is not empty, is left.
        pub reuse_revokes :
            old.user_id ≢ ""
            → now + 30000 ≤ later
            → later < now + 1000 * config.refresh_ttl_seconds
            → (second.0 ≡ reuse_detected) × Revoked old.user_id second.1.sessions
        reuse_revokes named h below =
            let late : ltb later (now + 30000) ≡ false = ground arith in
            let e =
              unknown_step later ns2 nr2 token first.1 no_holder
              ∙ unknown_reused later token old.user_id first.1 (grace-first ∙ rw late refl)
                  (used-first
                    ∙ rw (lt→ltb later (now + 1000 * config.refresh_ttl_seconds) below) refl)
                  (ground (arith, eq_iff old.user_id "")) in
            rw e (refl, Revoked-revoke_user old.user_id first.1.sessions)
