-- ===== src/Auth/Guards.antt =====
-- auth/guards/: which requests ApiKeyGuard, AdminGuard and RolesGuard let through, and the caller
-- that they attach to the request. The audit events that they record are not modelled.

use typescript_starter.Common.{
  ℕ, zero, suc, String, Option, none, some, List, [], Bool, true, false, not, ◌&&◌, ◌||◌, or_else,
  any, contains, str_eq, ◌>>=◌, if◌then◌else◌,
}
use typescript_starter.Common.Text.{trim, after_prefix, starts_with, starts_with_space}
use typescript_starter.Auth.{BearerUser, VerifyResult, Platform, World}
use typescript_starter.Auth.Credentials.{resolve_user_from_bearer, verify_api_key}

-- What the guards read of a request; a repeated X-API-Key header counts by its first value.
pub record Request : Type 0 where
  pub is_public : Bool
  pub client : Option String
  pub api_key : Option String
  pub authorization : Option String
  pub session_cookie : Option String

-- The caller as the guards attach it to the request.
pub record Caller : Type 0 where
  pub user_id : Option String
  pub role : Option String
  pub key_id : Option String
  pub permissions : List String

pub data Denial : Type 0 where
  missing_credential invalid_key invalid_session banned_user not_admin : Denial

pub data Decision : Type 0 where
  allow : Option Caller → Decision
  deny : Denial → Decision

-- Without a configured secret every client counts as the application's own.
abbrev pub own_client : Option String → Option String → Bool
own_client none client = true
own_client (some secret) none = str_eq secret ""
own_client (some secret) (some client) = str_eq secret "" || str_eq client secret

-- `match(/^Bearer\s+(.+)$/i)?.[1]?.trim()`, for a header without line ends. Where only white space
-- follows the word, the pattern may fail to match; this yields the empty text, which is no
-- credential either.
unfoldable pub bearer_value : Option String → Option String
unfolding after_prefix trim
bearer_value none = none
bearer_value (some header) = after_prefix "bearer" header >>= λ rest.
    if starts_with_space rest then some (trim rest) else none

abbrev trimmed : Option String → Option String
trimmed none = none
trimmed (some text) = some (trim text)

-- `apiKeyValue ?? bearerValue`: an empty X-API-Key header hides the bearer credential. The empty
-- text is no credential.
unfoldable pub credential_of : Request → String
unfolding bearer_value
credential_of req = or_else (trimmed req.api_key) (or_else (bearer_value req.authorization) "")

abbrev pub key_caller : VerifyResult → Caller
key_caller r = record {
  user_id = r.user_id;
  role = none;
  key_id = r.key_id;
  permissions = r.permissions;
}

abbrev pub user_caller : BearerUser → Caller
user_caller u = record {
  user_id = some u.user_id;
  role = some u.role;
  key_id = none;
  permissions = [];
}

abbrev pub decide_key : VerifyResult → Decision
decide_key r = if r.valid then allow (some (key_caller r)) else deny invalid_key

abbrev pub decide_user : Option BearerUser → Decision
decide_user none = deny invalid_session
decide_user (some u) = if u.banned then deny banned_user else allow (some (user_caller u))

abbrev pub decide_admin : Option BearerUser → Decision
decide_admin none = deny invalid_session
decide_admin (some u) =
    if not (str_eq u.role "admin") || u.banned then deny not_admin else allow (some (user_caller u))

-- `s.slice(n)` of ASCII text
dropped : ℕ → String → String
dropped zero s = s
dropped (suc n) String.[] = ""
dropped (suc n) (String.◌∷◌ c s) = dropped n s

-- `authHeader.slice(7)` of a header that starts with `Bearer `, unless that is an API key.
bearer_token : String → String
unfolding dropped
bearer_token header =
    if starts_with "Bearer " header
    then (let raw = dropped 7 header in if starts_with "nsw_" raw then "" else raw)
    else ""

-- The admin session's token: of the header, or else of the cookie; the empty text is none.
unfoldable pub admin_token : Request → String
unfolding bearer_token
admin_token req =
    let token = bearer_token (or_else req.authorization "") in
    if str_eq token "" then or_else req.session_cookie "" else token

module _ (p : Platform) (secret : Option String) where
  unfoldable pub api_key_guard : ℕ → String → Request → World p → Decision × World p
  api_key_guard now id req w =
      if req.is_public && own_client secret req.client
      then (allow none, w)
      else (let credential = credential_of req in
          if str_eq credential ""
          then (deny missing_credential, w)
          else if starts_with "nsw_" credential
          then (let checked = verify_api_key p now credential w in
              (decide_key checked.0, checked.1))
          else (let resolved = resolve_user_from_bearer p now id credential w in
              (decide_user resolved.0, resolved.1)))

unfoldable pub admin_guard : (p : Platform) → ℕ → String → Request → World p → Decision × World p
unfolding admin_token
admin_guard p now id req w =
    let token = admin_token req in
    if str_eq token ""
    then (deny missing_credential, w)
    else (let resolved = resolve_user_from_bearer p now id token w in
        (decide_admin resolved.0, resolved.1))

-- RolesGuard.canActivate returns true, returns false, or throws.
pub data Access : Type 0 where
  granted refused forbidden : Access

abbrev pub has_role : Option String → List String → Bool
has_role none required = false
has_role (some role) required = not (str_eq role "") && contains role required

unfoldable pub roles_guard : Option (List String) → Option Caller → Access
roles_guard none caller = granted
roles_guard (some required) none = refused
roles_guard (some required) (some caller) =
    if has_role caller.role required
    then granted
    else if any (λ role. contains role caller.permissions) required
    then granted
    else forbidden
