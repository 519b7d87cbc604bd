-- ===== src/Auth/Exchange.antt =====
-- auth/supabase-auth.service.ts, exchangeSupabaseToken: a verified Supabase token is exchanged for a
-- session of the account that it belongs to. The insertion of the session does not fail: its random
-- tokens are new.
use typescript_starter.Common.{
  ℕ, ◌+◌, ◌*◌, String, Option, none, some, List, [], ◌∷◌, ◌++◌, Bool, false, ◌||◌, ◌≡◌, ltb,
  if◌then◌else◌,
}
use typescript_starter.Auth.{User, Session, Payload, Platform, Config, World}
use typescript_starter.Auth.Credentials.Users.{resolve_or_create_user}

pub record Exchanged : Type 0 where
  pub session_token : String
  pub refresh_token : String
  pub expires_at : ℕ
  pub user_id : String
  pub role : String

pub data Outcome : Type 0 where
  exchanged : Exchanged → Outcome
  invalid_jwt : Outcome
  bad_ttl : Outcome
  unresolved : Outcome

-- The random values of an exchange: the two tokens, and the ids of a session and of an account.
pub record NewValues : Type 0 where
  pub session_token : String
  pub refresh_token : String
  pub session_id : String
  pub account_id : String

abbrev pub is_bad_ttl : Config → Bool
is_bad_ttl config = ltb config.ttl_seconds 300 || ltb 86400 config.ttl_seconds

abbrev pub minted : Config → ℕ → NewValues → User → Session
minted config now v u = record {
  id = v.session_id;
  user_id = u.id;
  token = v.session_token;
  expires_at = now + config.ttl_seconds * 1000;
  refresh_token = some v.refresh_token;
  refresh_token_expires_at = some (now + config.refresh_ttl_seconds * 1000);
  impersonated_by = none;
}

abbrev pub exchange_answer : Config → ℕ → NewValues → User → Exchanged
exchange_answer config now v u = record {
  session_token = v.session_token;
  refresh_token = v.refresh_token;
  expires_at = now + config.ttl_seconds * 1000;
  user_id = u.id;
  role = u.role;
}

module _ (p : Platform) (config : Config) (now : ℕ) (v : NewValues) where
  abbrev mint : Option User × List User → World p → Outcome × World p
  mint (none, users) w = (unresolved, record w { users = users })
  mint (some u, users) w = (
    exchanged (exchange_answer config now v u),
    record w { users = users; sessions = w.sessions ++ minted config now v u ∷ [] },
  )

  unfoldable pub exchange_supabase_token : String → World p → Outcome × World p
  unfolding resolve_or_create_user
  exchange_supabase_token token w = elim (p.verify_token now token) [
    | none ↦ (invalid_jwt, w)
    | some payload ↦
        if is_bad_ttl config
        then (bad_ttl, w)
        else mint (resolve_or_create_user v.account_id payload w.users) w
  ]

  module _ (token : String) (w : World p) (payload : Payload) (u : User)
      (verified : p.verify_token now token ≡ some payload) (good_ttl : is_bad_ttl config ≡ false)
      (resolved : (resolve_or_create_user v.account_id payload w.users).0 ≡ some u) where
    abbrev result : Outcome × World p
    result = exchange_supabase_token token w
