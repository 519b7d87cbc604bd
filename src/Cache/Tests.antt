-- ===== src/Cache/Tests.antt =====
-- Runs of the cache on a store in memory.
use typescript_starter.Common.{ℕ, ◌≤◌, String, none, [], ◌∷◌, ◌≡◌, ◌↔◌, refl, str_ne, arith}
use typescript_starter.Common.Dict.{lookup}
use typescript_starter.Cache.{memory_redis, json_of, text_codec}
use typescript_starter.Cache.Redis.{Json}
use typescript_starter.Cache.Service.{acquire_lock}
use typescript_starter.Cache.Locks.{attempt, store, grants, lock_exclusive}
use typescript_starter.Cache.Flights.{Flights, start, go_on, resume, joined, fetches, one_fetch}

abbrev json : Json String
json = json_of text_codec

lock_exclusive_example :
    grants memory_redis "lock"
      (attempt 2000 "lock" 10 ∷ store 3000 "stops" "all" 60 ∷ attempt 10999 "lock" 10 ∷ [])
      (acquire_lock memory_redis 1000 "lock" 10 []).1
    ≡ 0
unfolding acquire_lock lookup
lock_exclusive_example =
    lock_exclusive memory_redis 1000 "lock" 10 []
      (attempt 2000 "lock" 10 ∷ store 3000 "stops" "all" 60 ∷ attempt 10999 "lock" 10 ∷ []) refl
      ((omega arith, omega arith), (str_ne _ _ refl, ((omega arith, omega arith), tt)))

abbrev idle : Flights memory_redis
idle = record { cache = []; in_flight = []; running = []; next = 1 }

-- A first caller has missed the cache.
abbrev fetching : Flights memory_redis
fetching = (resume memory_redis json "stops" none idle).1

one_fetch_example :
    (fetches "stops" fetching.running ≤ 1)
    × ((1 ≤ fetches "stops" fetching.running)
        ↔ ((id : ℕ) × ((resume memory_redis json "stops" none fetching).0 ≡ joined id)))
one_fetch_example = one_fetch memory_redis json (go_on "stops" none (start [] 1)) "stops"
