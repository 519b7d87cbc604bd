-- ===== src/Push/Devices.antt =====
-- The registered devices, push/push.service.ts: one row for each token, of the user who registered it
-- last, until a send finds the token dead.

use typescript_starter.Common.{
  ℕ, ◌≤◌, ◌==◌, String, Option, none, some, List, [], ◌∷◌, ◌&&◌, ◌≡◌, refl, ap, ◌∙◌, str_eq, eq_iff,
  count_if, if◌then◌else◌, arith,
}
use typescript_starter.Push.{Device, register_device_token}

-- The user of the first row with the token.
unfoldable pub owner : String → List Device → Option String
owner token [] = none
owner token (d ∷ devices) = if str_eq d.fcm_token token then some d.user_id else owner token devices

abbrev pub rows_of : String → List Device → ℕ
rows_of token devices = count_if (λ d. str_eq d.fcm_token token) devices

pub record Registration : Type 0 where
  pub at : ℕ
  pub new_id : String
  pub user : String
  pub token : String
  pub platform : Option String

unfoldable pub register_all : List Registration → List Device → List Device
unfolding register_device_token
register_all [] devices = devices
register_all (r ∷ rest) devices =
    register_all rest (register_device_token r.at r.new_id r.user r.token r.platform devices)

-- Who registered the token last.
unfoldable pub last_user : String → List Registration → Option String → Option String
last_user token [] before = before
last_user token (r ∷ rest) before =
    last_user token rest (if str_eq r.token token then some r.user else before)

owner-register :
    (asked token user id : String) (now : ℕ) (platform : Option String) (devices : List Device)
    → owner asked (register_device_token now id user token platform devices)
      ≡ (if str_eq token asked then some user else owner asked devices)
unfolding owner register_device_token
owner-register asked token user id now platform [] = ground arith
owner-register asked token user id now platform (d ∷ devices) = ground (
  arith,
  owner-register asked token user id now platform devices,
  eq_iff d.fcm_token token,
  eq_iff d.fcm_token asked,
  eq_iff token asked,
)

-- At most one more row, and that one only for a token that has none.
rows_of-register :
    (asked token user id : String) (now : ℕ) (platform : Option String) (devices : List Device)
    → rows_of asked (register_device_token now id user token platform devices)
      ≡ (if str_eq token asked && rows_of asked devices == 0 then 1 else rows_of asked devices)
unfolding register_device_token
rows_of-register asked token user id now platform [] = ground arith
rows_of-register asked token user id now platform (d ∷ devices) = ground (
  arith,
  rows_of-register asked token user id now platform devices,
  eq_iff d.fcm_token token,
  eq_iff d.fcm_token asked,
  eq_iff token asked,
)

register_all-rows :
    (token : String) (registrations : List Registration) (devices : List Device)
    → rows_of token devices ≤ 1
    → rows_of token (register_all registrations devices) ≤ 1
unfolding register_all
register_all-rows token [] devices h = h
register_all-rows token (r ∷ rest) devices h =
    register_all-rows token rest
      (register_device_token r.at r.new_id r.user r.token r.platform devices)
      (rw (rows_of-register token r.token r.user r.new_id r.at r.platform devices)
        (ground (arith, h)))

register_all-owner :
    (token : String) (registrations : List Registration) (devices : List Device)
    → owner token (register_all registrations devices)
      ≡ last_user token registrations (owner token devices)
unfolding register_all last_user
register_all-owner token [] devices = refl
register_all-owner token (r ∷ rest) devices =
    register_all-owner token rest
      (register_device_token r.at r.new_id r.user r.token r.platform devices)
    ∙ ap (last_user token rest)
        (owner-register token r.token r.user r.new_id r.at r.platform devices)

-- From an empty table, after any registrations, a device token has at most one row, and it belongs to
-- the user who registered it last.
pub registered_to_last_user :
    (registrations : List Registration) (token : String)
    → (rows_of token (register_all registrations []) ≤ 1)
      × (owner token (register_all registrations []) ≡ last_user token registrations none)
unfolding owner
registered_to_last_user registrations token = (
  register_all-rows token registrations [] (omega arith),
  register_all-owner token registrations [],
)
