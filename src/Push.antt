-- ===== src/Push.antt =====
-- push/push.service.ts: the devices of users, the pairing codes that link a device to an account, and
-- the tokens that a send finds dead. Firebase is a parameter: its replies to a send. The audit events
-- are left out.
pub mod Links
pub mod Devices
mod Tests
use Prim.Native.Char.{code}
use Prim.Native.String
use typescript_starter.Common.{
  ℕ, ◌+◌, String, Option, none, some, List, [], ◌∷◌, ◌++◌, Bool, true, false, not, ◌&&◌, ◌||◌, leb,
  is_some, or_else, str_eq, contains, keep, map, length, count_if, if◌then◌else◌,
}
use typescript_starter.Common.Text.{to_upper, trim}
use typescript_starter.Cache.Redis.{Redis, Json}
use typescript_starter.Cache.Service.{set, consume_once}

-- A row of the table `device_tokens`.
pub record Device : Type 0 where
  pub id : String
  pub user_id : String
  pub fcm_token : String
  pub platform : Option String
  pub created_at : ℕ
  pub updated_at : ℕ

alphanumerics : String → String
alphanumerics String.[] = String.[]
alphanumerics (String.◌∷◌ c s) =
    let rest = alphanumerics s in
    if leb b'A' (code c) && leb (code c) b'Z' || leb b'0' (code c) && leb (code c) b'9'
    then String.◌∷◌ c rest
    else rest

unfoldable pub line_topic : String → String
unfolding alphanumerics to_upper
line_topic line = String.◌++◌ "line-" (alphanumerics (to_upper line))

-- INSERT ... ON CONFLICT (fcm_token) DO UPDATE
unfoldable pub register_device_token :
    ℕ → String → String → String → Option String → List Device → List Device
register_device_token now id user_id fcm_token platform [] =
    record {
      id = id;
      user_id = user_id;
      fcm_token = fcm_token;
      platform = platform;
      created_at = now;
      updated_at = now;
    }
    ∷ []
register_device_token now id user_id fcm_token platform (d ∷ devices) =
    if str_eq d.fcm_token fcm_token
    then record d { user_id = user_id; platform = platform; updated_at = now } ∷ devices
    else d ∷ register_device_token now id user_id fcm_token platform devices

unfoldable pub tokens_of : String → List Device → List String
tokens_of user_id [] = []
tokens_of user_id (d ∷ devices) =
    let later = tokens_of user_id devices in
    if str_eq d.user_id user_id then d.fcm_token ∷ later else later

pub record SendReply : Type 0 where
  pub success : Bool
  pub error_code : Option String

abbrev is_dead : SendReply → Bool
is_dead r =
    not r.success
    && contains (or_else r.error_code "") (
        "messaging/registration-token-not-registered" ∷ "messaging/invalid-registration-token" ∷ [])

-- The replies stand in the order of the tokens, one for each.
unfoldable pub dead_tokens : List SendReply → List String → List String
dead_tokens [] tokens = []
dead_tokens (r ∷ replies) [] = []
dead_tokens (r ∷ replies) (t ∷ tokens) =
    let later = dead_tokens replies tokens in if is_dead r then t ∷ later else later

unfoldable pub delete_tokens : List String → List Device → List Device
delete_tokens [] devices = devices
delete_tokens (t ∷ tokens) devices =
    delete_tokens tokens (keep (λ d. not (str_eq d.fcm_token t)) devices)

-- `sendToUser`, with the numbers of the sent and the pruned, where Firebase does not throw.
unfoldable pub send_to_user :
    Bool → (List String → List SendReply) → String → List Device → (ℕ × ℕ) × List Device
unfolding tokens_of dead_tokens delete_tokens
send_to_user enabled firebase user_id devices = elim (tokens_of user_id devices) [
  | [] ↦ ((0, 0), devices)
  | token ∷ tokens ↦
      if enabled
      then (let replies = firebase (token ∷ tokens) in
          let dead = dead_tokens replies (token ∷ tokens) in
          ((count_if (λ r. r.success) replies, length dead), delete_tokens dead devices))
      else ((0, 0), devices)
]

abbrev pub link_code_ttl_seconds : ℕ
link_code_ttl_seconds = 300

abbrev pub link_code_key : String → String
link_code_key code = String.◌++◌ "push:link-code:" code

abbrev link_code_alphabet : String
link_code_alphabet = "ABCDEFGHJKMNPQRSTUVWXYZ23456789"

-- The code that eight random indices spell.
unfoldable pub spell_code : List ℕ → String
spell_code [] = String.[]
spell_code (i ∷ indices) = String.◌∷◌ (String.char_at link_code_alphabet i) (spell_code indices)

module _ (redis : Redis) (json : Json String) where
  -- `random` is eight indices below the length of the alphabet. The claim is the user id.
  unfoldable pub create_device_link_code : ℕ → List ℕ → String → redis.State → String × redis.State
  unfolding spell_code set
  create_device_link_code now random admin_user_id s =
      let code = spell_code random in
      (code, set redis json now (link_code_key code) admin_user_id link_code_ttl_seconds s)

  -- What follows the answer of consumeOnce.
  unfoldable pub link_device :
      ℕ
      → String
      → String
      → Option String
      → List Device
      → Option String × redis.State
      → Option String × redis.State × List Device
  unfolding register_device_token
  link_device now id fcm_token platform devices (none, s) = (none, s, devices)
  link_device now id fcm_token platform devices (some user_id, s) =
      (some user_id, s, register_device_token now id user_id fcm_token platform devices)

  -- `redeemDeviceLinkCode`: the user id, or `none` where it throws; with the cache and the devices.
  unfoldable pub redeem_device_link_code :
      ℕ
      → String
      → String
      → String
      → Option String
      → redis.State
      → List Device
      → Option String × redis.State × List Device
  unfolding consume_once to_upper trim link_device
  redeem_device_link_code now id code fcm_token platform s devices =
      let normalized = to_upper (trim code) in
      link_device now id fcm_token platform devices
        (consume_once redis json now (link_code_key normalized) s)
