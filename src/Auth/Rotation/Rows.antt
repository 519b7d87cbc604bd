-- ===== src/Auth/Rotation/Rows.antt =====
-- The rows of the table `session` under the statements of refreshSession: who holds a refresh token
-- after a rotation, and whose sessions are left after a revocation.

use typescript_starter.Common.{
  ℕ, String, none, some, List, [], ◌∷◌, true, false, ◌≡◌, ◌≢◌, refl, ap, inl, inr, str_eq, eq_iff,
  eq_refl, Bool-cases, All, arith,
}
use typescript_starter.Auth.{Session}
use typescript_starter.Auth.Refresh.{is_token, by_refresh_token, rotate_row, revoke_user}

-- The column's uniqueness, for one token: only the row `id` may hold it.
abbrev pub OnlyHolder : String → String → List Session → Type 0
OnlyHolder token id sessions =
    All (λ (s : Session). is_token s.refresh_token token ≡ true → s.id ≡ id) sessions

-- No row holds the token.
abbrev pub Fresh : String → List Session → Type 0
Fresh token sessions = All (λ (s : Session). is_token s.refresh_token token ≡ false) sessions

-- No row belongs to the user.
abbrev pub Revoked : String → List Session → Type 0
Revoked user_id sessions = All (λ (s : Session). s.user_id ≢ user_id) sessions

-- What a rotated row holds.
abbrev pub IsRotated : String → String → ℕ → Session → Type 0
IsRotated id token expires s = (s.id ≡ id) × (s.token ≡ token) × (s.expires_at ≡ expires)

module _ (id ns nr : String) (expires refresh_expires : ℕ) where
  abbrev rotated : List Session → List Session
  rotated sessions = rotate_row id ns expires nr refresh_expires sessions

  pub old_token_gone :
      (token : String) (sessions : List Session)
      → nr ≢ token
      → OnlyHolder token id sessions
      → by_refresh_token token (rotated sessions) ≡ none
  unfolding by_refresh_token rotate_row
  old_token_gone token [] other h = refl
  old_token_gone token (s ∷ rest) other (first, h) =
      let ih = old_token_gone token rest other h in
      elim (Bool-cases (str_eq s.id id)) [
        | inl same ↦ ground (arith, ih, same, eq_iff nr token, other)
        | inr differs ↦ elim (Bool-cases (is_token s.refresh_token token)) [
          | inl held ↦ absurd (ground (arith, eq_iff s.id id, first held, differs))
          | inr free ↦ rw (differs, free) ih
        ]
      ]

  pub new_token_found :
      (token : String) (old : Session) (sessions : List Session)
      → by_refresh_token token sessions ≡ some old
      → old.id ≡ id
      → Fresh nr sessions
      → (row : Session) × (by_refresh_token nr (rotated sessions) ≡ some row)
        × IsRotated id ns expires row
  unfolding by_refresh_token rotate_row
  new_token_found token old [] found at h = absurd (cc)
  new_token_found token old (s ∷ rest) found at (free, h) = elim (Bool-cases (str_eq s.id id)) [
    | inl same ↦ rw (same, eq_refl nr) (_, refl, ((eq_iff s.id id).0 same, refl, refl))
    | inr differs ↦ elim (Bool-cases (is_token s.refresh_token token)) [
      | inl held ↦
          let here : s ≡ old = (let e = rw held at found in cc) in
          absurd (ground (arith, eq_iff s.id id, ap (λ (x : Session). x.id) here, at, differs))
      | inr other ↦ rw (differs, free) (new_token_found token old rest (rw other at found) at h)
    ]
  ]

pub Revoked-revoke_user :
    (user_id : String) (sessions : List Session) → Revoked user_id (revoke_user user_id sessions)
unfolding revoke_user
Revoked-revoke_user user_id [] = tt
Revoked-revoke_user user_id (s ∷ rest) = elim (Bool-cases (str_eq s.user_id user_id)) [
  | inl same ↦ rw same (Revoked-revoke_user user_id rest)
  | inr differs ↦ rw differs (
    λ e. absurd (ground (arith, eq_iff s.user_id user_id, e, differs)),
    Revoked-revoke_user user_id rest,
  )
]
