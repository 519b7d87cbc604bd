-- ===== src/Auth/Refusal.antt =====
-- refreshSession where it refuses: what it leaves of the tables and of the cache.
use typescript_starter.Common.{
  ℕ, String, none, some, List, [], ◌∷◌, not, keep, ap, ◌≡◌, refl, inl, inr, str_eq, Bool-cases,
  Option-cases,
}
use typescript_starter.Cache.Service.{get}
use typescript_starter.Auth.{Session, Platform, Config, World}
use typescript_starter.Auth.Refresh.{
  Answer, reuse_detected, invalid_token, grace_key, used_key, by_refresh_token, revoke_user,
  refresh_expired, unknown_token, rotate, refresh_session,
}

revoke_user-keep :
    (user_id : String) (sessions : List Session)
    → revoke_user user_id sessions ≡ keep (λ s. not (str_eq s.user_id user_id)) sessions
unfolding revoke_user
revoke_user-keep user_id [] = refl
revoke_user-keep user_id (s ∷ rest) = elim (Bool-cases (str_eq s.user_id user_id)) [
  | inl same ↦ rw same (revoke_user-keep user_id rest)
  | inr differs ↦ rw differs (ap (λ others. s ∷ others) (revoke_user-keep user_id rest))
]

module _ (p : Platform) (config : Config) (now : ℕ) where
  -- A refusal of the token: nothing changed, or exactly the sessions of the user whose used token
  -- it is are gone.
  abbrev pub RefusesSafely : String → World p → Answer × World p → Type 0
  RefusesSafely token w result =
      (result.0 ≡ invalid_token → result.1 ≡ w)
      × (result.0 ≡ reuse_detected
          → (user_id : String) × (get p.redis p.json_text now (used_key token) w.cache
              ≡ some user_id)
            × (get p.redis p.json_replay now (grace_key token) w.cache ≡ none)
            × (result.1
                ≡ record w { sessions = keep (λ s. not (str_eq s.user_id user_id)) w.sessions }))

  unknown_token_refuses :
      (token : String) (w : World p) → RefusesSafely token w (unknown_token p config now token w)
  unfolding unknown_token
  unknown_token_refuses token w =
      elim (Option-cases (get p.redis p.json_replay now (grace_key token) w.cache)) [
        | inr (grace, e) ↦ rw (e, unknown_token) (λ h. refl, λ h. absurd (cc))
        | inl fresh ↦ elim (Option-cases (get p.redis p.json_text now (used_key token) w.cache)) [
          | inl unused ↦ rw (fresh, unused, unknown_token) (λ h. refl, λ h. absurd (cc))
          | inr (user_id, used) ↦ elim (Bool-cases (str_eq user_id "")) [
            | inl empty ↦ rw (fresh, used, empty, unknown_token) (λ h. refl, λ h. absurd (cc))
            | inr named ↦
                rw (fresh, used, named, unknown_token)
                  (
                    λ h. absurd (cc),
                    λ h. (
                      user_id,
                      refl,
                      refl,
                      ap (λ (kept : List Session). record w { sessions = kept })
                          (revoke_user-keep user_id w.sessions),
                    ),
                  )
          ]
        ]
      ]

  -- A refused refresh changes nothing, except that a reported reuse deletes exactly the sessions of
  -- the user whom the cache names for the used token; it reports none inside the grace window, nor
  -- for a token that a session holds.
  pub refresh_refuses :
      (ns nr token : String) (w : World p)
      → let result = refresh_session p config now ns nr token w in
        RefusesSafely token w result
        × (result.0 ≡ reuse_detected → by_refresh_token token w.sessions ≡ none)
  unfolding refresh_session rotate
  refresh_refuses ns nr token w = elim (Option-cases (by_refresh_token token w.sessions)) [
    | inl missing ↦ rw (missing, refresh_session) (unknown_token_refuses token w, λ h. refl)
    | inr (old, held) ↦ elim (Bool-cases (refresh_expired p.date_utc now old)) [
      | inl expired ↦
          rw (held, expired, refresh_session) ((λ h. refl, λ h. absurd (cc)), λ h. absurd (cc))
      | inr valid ↦
          rw (held, valid, refresh_session) ((λ h. absurd (cc), λ h. absurd (cc)), λ h. absurd (cc))
    ]
  ]
