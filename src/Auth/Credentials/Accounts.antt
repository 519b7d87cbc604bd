-- ===== src/Auth/Credentials/Accounts.antt =====
-- resolveOrCreateUser over several sign-ins: which account a token resolves to, and what a sign-in
-- does to the role of the accounts.

use typescript_starter.Common.{
  String, Option, none, some, List, [], ◌∷◌, ◌≡◌, refl, ◌∙◌, inl, inr, str_eq, eq_iff, eq_refl,
  if◌then◌else◌, Bool-cases, Option-cases, arith,
}
use typescript_starter.Auth.{User, Payload}
use typescript_starter.Auth.Credentials.Users.{
  is_linked, by_supabase_id, by_email, sync_role, upsert, new_user, claim, resolve_claims,
  resolve_or_create_user,
}

-- What the upsert of `new` makes of the row with its email.
abbrev merged : User → Option User → User
merged new none = new
merged new (some u) = record u {
  role = sync_role u.role new.role;
  supabase_user_id = new.supabase_user_id;
}

by_email-upsert :
    (new : User) (email : String) (users : List User)
    → by_email email (upsert new users) ≡ (
        if str_eq new.email email
        then some (merged new (by_email new.email users))
        else by_email email users)
unfolding by_email upsert
by_email-upsert new email [] = refl
by_email-upsert new email (u ∷ rest) = ground (
  arith,
  by_email-upsert new email rest,
  eq_iff u.email new.email,
  eq_iff u.email email,
  eq_iff new.email email,
)

by_supabase_id-upsert :
    (new : User) (sub : String) (users : List User)
    → new.supabase_user_id ≡ some sub
    → by_supabase_id sub users ≡ none
    → by_supabase_id sub (upsert new users) ≡ by_email new.email (upsert new users)
unfolding by_supabase_id by_email upsert
by_supabase_id-upsert new sub [] linked h = rw (linked, eq_refl sub, eq_refl new.email) refl
by_supabase_id-upsert new sub (u ∷ rest) linked h = elim (Bool-cases (is_linked sub u)) [
  | inl is_here ↦ absurd (let e = rw is_here at h in cc)
  | inr absent ↦
      let ih = by_supabase_id-upsert new sub rest linked (rw absent at h) in
      elim (Bool-cases (str_eq u.email new.email)) [
        | inl same ↦ rw (same, linked, eq_refl sub, same) refl
        | inr differs ↦ rw (differs, absent, differs) ih
      ]
]

-- The account with the email is there, and is an admin.
abbrev pub AdminAt : String → List User → Type 0
AdminAt email users = (u : User) × (by_email email users ≡ some u) × (u.role ≡ "admin")

AdminAt-upsert :
    (new : User) (asked : String) (users : List User)
    → AdminAt asked users
    → AdminAt asked (upsert new users)
AdminAt-upsert new asked users (u, found, admin) = elim (Bool-cases (str_eq new.email asked)) [
  | inr differs ↦ (u, by_email-upsert new asked users ∙ rw differs found, admin)
  | inl same ↦
      let here : by_email new.email users ≡ some u = rw ((eq_iff new.email asked).0 same) found in
      let step = by_email-upsert new asked users ∙ rw (same, here) refl in
      (merged new (some u), step, rw admin refl)
]

-- A verified token with a `sub` and an email.
module _ (payload : Payload) (sub email : String) (has_sub : claim payload.sub ≡ some sub)
    (has_email : claim payload.email ≡ some email) where
  resolve-claims :
      (id : String) (users : List User)
      → resolve_or_create_user id payload users ≡ resolve_claims id sub email payload users
  unfolding resolve_or_create_user
  resolve-claims id users = rw (has_sub, has_email, resolve_or_create_user) refl

  -- A token with a `sub` and an email always resolves to an account, and when it is presented
  -- again it resolves to the same one, with no further change to the table.
  pub resolve_stable :
      (id later_id : String) (users : List User)
      → let result = resolve_or_create_user id payload users in
        ((u : User) × (result.0 ≡ some u))
        × (resolve_or_create_user later_id payload result.1 ≡ result)
  unfolding resolve_claims
  resolve_stable id later_id users =
      rw (resolve-claims id users) (elim (Option-cases (by_supabase_id sub users)) [
        | inr (u, found) ↦
            rw (found, resolve_claims)
              ((u, refl), resolve-claims later_id users ∙ rw (found, resolve_claims) refl)
        | inl missing ↦
            let new = new_user id sub email payload in
            let stored = upsert new users in
            let in_table : by_email email stored ≡ some (merged new (by_email email users)) =
              by_email-upsert new email users ∙ rw (eq_refl email) refl in
            let linked = by_supabase_id-upsert new sub users refl missing ∙ in_table in
            rw (missing, resolve_claims)
              (
                (_, in_table),
                resolve-claims later_id stored ∙ rw (linked, in_table, resolve_claims) refl,
              )
      ])

  -- If the account with some email is an admin, it still is one after a sign-in with any token
  -- that has a `sub` and an email, whatever role the token carries.
  pub admin_kept :
      (id asked : String) (users : List User)
      → AdminAt asked users
      → AdminAt asked (resolve_or_create_user id payload users).1
  unfolding resolve_claims
  admin_kept id asked users admin =
      rw (resolve-claims id users) (elim (Option-cases (by_supabase_id sub users)) [
        | inr (u, found) ↦ rw (found, resolve_claims) admin
        | inl missing ↦
            rw (missing, resolve_claims)
              (AdminAt-upsert (new_user id sub email payload) asked users admin)
      ])
