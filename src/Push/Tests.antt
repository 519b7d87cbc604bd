-- ===== src/Push/Tests.antt =====
-- Devices and pairing codes on a store in memory.

use typescript_starter.Common.{
  ℕ, ◌+◌, String, none, some, List, [], ◌∷◌, ◌≡◌, refl, ltb, if◌then◌else◌, arith,
}
use typescript_starter.Common.Text.{to_upper, trim}
use typescript_starter.Cache.{memory_redis, json_of, text_codec}
use typescript_starter.Cache.Redis.{Json}
use typescript_starter.Push.{
  spell_code, register_device_token, create_device_link_code, redeem_device_link_code,
}
use typescript_starter.Push.Links.{redeemed_once}

json : Json String
json = json_of text_codec

abbrev indices : List ℕ
indices = 0 ∷ 1 ∷ 2 ∷ 3 ∷ 4 ∷ 5 ∷ 6 ∷ 7 ∷ []

redeemed_once_example :
    let one =
      redeem_device_link_code memory_redis json 61000 "d1" " abcdefgh" "phone" none
        (create_device_link_code memory_redis json 1000 indices "ada" []).1
        [] in
    let two =
      redeem_device_link_code memory_redis json 62000 "d2" "ABCDEFGH" "other" none one.1 one.2 in
    (one.0 ≡ (if ltb 61000 (1000 + 300000) then some "ada" else none))
    × (one.2 ≡ (
        if ltb 61000 (1000 + 300000)
        then register_device_token 61000 "d1" "ada" "phone" none []
        else []))
    × (two.0 ≡ none)
    × (two.2 ≡ one.2)
unfolding to_upper trim spell_code
redeemed_once_example =
    redeemed_once memory_redis json 1000 61000 62000 indices "ada" "d1" "d2" " abcdefgh" "ABCDEFGH"
      "phone" "other" none none [] [] (omega arith) (omega arith) refl refl
