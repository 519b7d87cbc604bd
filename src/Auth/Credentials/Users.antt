-- ===== src/Auth/Credentials/Users.antt =====
-- auth/supabase-auth.service.ts, resolveOrCreateUser: the account of a verified Supabase token,
-- found by its `sub`, or else created or linked by its email.

use typescript_starter.Common.{
  String, Option, none, some, List, [], ◌∷◌, Bool, false, not, ◌==◌, or_else, str_eq, if◌then◌else◌,
}
use typescript_starter.Common.Text.{leading}
use typescript_starter.Auth.{User, Payload}

abbrev holds : Option String → String → Bool
holds none sub = false
holds (some held) sub = str_eq held sub

abbrev pub is_linked : String → User → Bool
is_linked sub u = holds u.supabase_user_id sub

-- SELECT ... FROM users WHERE supabase_user_id = sub LIMIT 1
unfoldable pub by_supabase_id : String → List User → Option User
by_supabase_id sub [] = none
by_supabase_id sub (u ∷ rest) = if is_linked sub u then some u else by_supabase_id sub rest

-- SELECT ... FROM users WHERE email = email LIMIT 1
unfoldable pub by_email : String → List User → Option User
by_email email [] = none
by_email email (u ∷ rest) = if str_eq u.email email then some u else by_email email rest

-- `authenticated` and `anon` are Supabase's own roles.
abbrev own_role : Option String → Option String
own_role none = none
own_role (some role) =
    if str_eq role "authenticated" then none else if str_eq role "anon" then none else some role

abbrev pub jwt_role : Payload → String
jwt_role payload = or_else payload.app_role (or_else (own_role payload.role) "user")

-- The CASE of the upsert: an admin stays one, and any other role becomes that of the token.
abbrev pub sync_role : String → String → String
sync_role stored from_jwt = if str_eq stored "admin" then "admin" else from_jwt

-- INSERT ... ON CONFLICT (email) DO UPDATE SET role, supabase_user_id
unfoldable pub upsert : User → List User → List User
upsert new [] = new ∷ []
upsert new (u ∷ rest) =
    if str_eq u.email new.email
    then record u { role = sync_role u.role new.role; supabase_user_id = new.supabase_user_id }
      ∷ rest
    else u ∷ upsert new rest

abbrev pub new_user : String → String → String → Payload → User
new_user id sub email payload = record {
  id = id;
  name =
      or_else payload.full_name (or_else payload.user_name (leading (λ c. not (c == b'@')) email));
  email = email;
  role = jwt_role payload;
  banned = false;
  supabase_user_id = some sub;
}

-- A missing claim and an empty one are the same to the code.
abbrev pub claim : Option String → Option String
claim none = none
claim (some text) = if str_eq text "" then none else some text

-- The account of a token with both claims.
unfoldable pub resolve_claims :
    String → String → String → Payload → List User → Option User × List User
unfolding by_supabase_id by_email upsert
resolve_claims id sub email payload users = elim (by_supabase_id sub users) [
  | some u ↦ (some u, users)
  | none ↦
      let stored = upsert (new_user id sub email payload) users in (by_email email stored, stored)
]

-- `none` where the code throws; `id` is the random id of an account that is created.
unfoldable pub resolve_or_create_user : String → Payload → List User → Option User × List User
unfolding resolve_claims
resolve_or_create_user id payload users = elim (claim payload.sub) [
  | none ↦ (none, users)
  | some sub ↦ elim (claim payload.email) [
    | none ↦ (none, users)
    | some email ↦ resolve_claims id sub email payload users
  ]
]
