-- ===== src/Push/Links.antt =====
-- Pairing codes, push/push.service.ts: a code is good for one redemption within five minutes.

use typescript_starter.Common.{
  ℕ, ◌+◌, ◌≤◌, String, Option, none, some, List, false, ◌≡◌, refl, ap, inl, inr, ltb, eq_iff,
  if◌then◌else◌, Bool-cases, arith,
}
use typescript_starter.Common.Text.{to_upper, trim}
use typescript_starter.Cache.Redis.{Redis, Json}
use typescript_starter.Cache.Service.{decode, set, consume_once}
use typescript_starter.Push.{
  Device, link_code_key, spell_code, register_device_token, link_device, create_device_link_code,
  redeem_device_link_code,
}

module _ (redis : Redis) (json : Json String) where
  decode-stringify : (v : String) → decode redis json (some (json.stringify v)) ≡ some v
  decode-stringify v =
      ground
        (arith, eq_iff (json.stringify v) "", json.stringify-nonempty v, json.parse-stringify v)

  consume-absent :
      (now : ℕ) (key : String) (s : redis.State)
      → redis.read now key s ≡ none
      → consume_once redis json now key s ≡ (none, s)
  unfolding consume_once
  consume-absent now key s h = rw h refl

  consume-present :
      (now : ℕ) (key user : String) (s : redis.State)
      → redis.read now key s ≡ some (json.stringify user)
      → consume_once redis json now key s ≡ (some user, redis.erase key s)
  unfolding consume_once
  consume-present now key user s h = rw (h, decode-stringify user) refl

  -- What a redemption does, by what the cache has under the code's key.
  module _ (now : ℕ) (id code token : String) (platform : Option String) (s : redis.State)
      (devices : List Device) where
    redeem-absent :
        redis.read now (link_code_key (to_upper (trim code))) s ≡ none
        → redeem_device_link_code redis json now id code token platform s devices
          ≡ (none, s, devices)
    unfolding redeem_device_link_code link_device
    redeem-absent h =
        ap (link_device redis json now id token platform devices)
          (consume-absent now (link_code_key (to_upper (trim code))) s h)

    redeem-present :
        (user : String)
        → redis.read now (link_code_key (to_upper (trim code))) s ≡ some (json.stringify user)
        → redeem_device_link_code redis json now id code token platform s devices ≡ (
          some user,
          redis.erase (link_code_key (to_upper (trim code))) s,
          register_device_token now id user token platform devices,
        )
    unfolding redeem_device_link_code link_device
    redeem-present user h =
        ap (link_device redis json now id token platform devices)
          (consume-present now (link_code_key (to_upper (trim code))) user s h)

  -- A pairing code, typed in any case and with blanks round it, links the first device that redeems it
  -- within five minutes to the admin who made it, and no device later than that; no second redemption
  -- is accepted, and it registers no device.
  pub redeemed_once :
      (now first second : ℕ) (random : List ℕ) (admin id id' typed again token token' : String)
      (platform platform' : Option String) (s : redis.State) (devices : List Device)
      → now ≤ first
      → first ≤ second
      → to_upper (trim typed) ≡ spell_code random
      → to_upper (trim again) ≡ spell_code random
      → let one =
          redeem_device_link_code redis json first id typed token platform
            (create_device_link_code redis json now random admin s).1
            devices in
        let two =
          redeem_device_link_code redis json second id' again token' platform' one.1 one.2 in
        (one.0 ≡ (if ltb first (now + 300000) then some admin else none))
        × (one.2 ≡ (
            if ltb first (now + 300000)
            then register_device_token first id admin token platform devices
            else devices))
        × (two.0 ≡ none)
        × (two.2 ≡ one.2)
  unfolding create_device_link_code set
  redeemed_once now first second random admin id id' typed again token token' platform platform' s
        devices early late e e' =
      let key = link_code_key (spell_code random) in
      let s1 = (create_device_link_code redis json now random admin s).1 in
      let stored : (later : ℕ)
          → now ≤ later
          → redis.read later key s1
            ≡ (if ltb later (now + 300000) then some (json.stringify admin) else none) =
        λ later le. redis.read-write now later key (json.stringify admin) 300 s le in
      elim (Bool-cases (ltb first (now + 300000))) [
        | inl soon ↦
            let s2 = redis.erase (link_code_key (to_upper (trim typed))) s1 in
            let linked = register_device_token first id admin token platform devices in
            let one_eq : redeem_device_link_code redis json first id typed token platform s1 devices
                ≡ (some admin, s2, linked) =
              redeem-present first id typed token platform s1 devices admin
                (rw (e, stored first early, soon) refl) in
            let two_eq : redeem_device_link_code redis json second id' again token' platform' s2
                  linked
                ≡ (none, s2, linked) =
              redeem-absent second id' again token' platform' s2 linked
                (rw (e', e) (redis.read-erase second key s1)) in
            rw (one_eq, two_eq, soon) (refl, refl, refl, refl)
        | inr past ↦
            let one_eq : redeem_device_link_code redis json first id typed token platform s1 devices
                ≡ (none, s1, devices) =
              redeem-absent first id typed token platform s1 devices
                (rw (e, stored first early, past) refl) in
            let still : ltb second (now + 300000) ≡ false = ground (arith, past, late) in
            let two_eq : redeem_device_link_code redis json second id' again token' platform' s1
                  devices
                ≡ (none, s1, devices) =
              redeem-absent second id' again token' platform' s1 devices
                (rw (e', stored second (omega (arith, early, late)), still) refl) in
            rw (one_eq, two_eq, past) (refl, refl, refl, refl)
      ]
