-- ===== src/Realtime/Sticky.antt =====
-- realtime/realtime.service.ts, fetchWithStickyFallback over getOrSet of cache/cache.service.ts, for
-- one caller: a feed that comes back empty is covered for a while by the last answer that was not.
-- Nothing else writes to the two keys between the calls.
use Prim.Native.String
use text.Mathlib.TextLemmas.{cons-append, tail-eq_of_cons-eq}
use typescript_starter.Common.{
  ℕ, ◌+◌, ◌≤◌, String, Option, none, some, List, [], ◌∷◌, ◌≡◌, ◌≢◌, refl, ap, ◌∙◌, inl, inr, ltb,
  if◌then◌else◌, Bool-cases, Option-cases,
}
use typescript_starter.Cache.Redis.{Redis, Json}
use typescript_starter.Cache.Service.{get, set, get-set, get-set_ne}

module _ (redis : Redis) {T : Type 0} (json : Json (List T)) where
  -- getOrSet; `fetched` is what the factory answers, `none` where it throws.
  unfoldable pub get_or_set :
      ℕ → String → ℕ → Option (List T) → redis.State → Option (List T) × redis.State
  unfolding get set
  get_or_set now key ttl fetched s = elim (get redis json now key s) [
    | some cached ↦ (some cached, s)
    | none ↦ elim fetched [
      | none ↦ (none, s)
      | some value ↦ (some value, set redis json now key value ttl s)
    ]
  ]

  abbrev pub last_good_key : String → String
  last_good_key key = String.◌++◌ key ":lastgood"

  abbrev pub or_last_good : Option (List T) → List T
  or_last_good (some (x ∷ xs)) = x ∷ xs
  or_last_good _ = []

  -- What follows the answer of getOrSet.
  unfoldable pub settle_answer :
      ℕ → String → Option (List T) × redis.State → Option (List T) × redis.State
  unfolding get set
  settle_answer now key (none, s) = (none, s)
  settle_answer now key (some [], s) =
      (some (or_last_good (get redis json now (last_good_key key) s)), s)
  settle_answer now key (some (x ∷ xs), s) =
      (some (x ∷ xs), set redis json now (last_good_key key) (x ∷ xs) 60 s)

  unfoldable pub fetch_with_sticky_fallback :
      ℕ → String → ℕ → Option (List T) → redis.State → Option (List T) × redis.State
  unfolding get_or_set settle_answer
  fetch_with_sticky_fallback now key ttl fetched s =
      settle_answer now key (get_or_set now key ttl fetched s)

  ne-last_good_key : (key : String) → key ≢ last_good_key key
  ne-last_good_key String.[] h = cc
  ne-last_good_key (String.◌∷◌ c s) h =
      ne-last_good_key s (tail-eq_of_cons-eq (h ∙ cons-append c s ":lastgood"))

  get-get_or_set :
      (now : ℕ) (key : String) (ttl : ℕ) (fetched : Option (List T)) (s : redis.State)
      → get redis json now (last_good_key key) (get_or_set now key ttl fetched s).1
        ≡ get redis json now (last_good_key key) s
  unfolding get_or_set
  get-get_or_set now key ttl fetched s = elim (Option-cases (get redis json now key s)) [
    | inr (cached, hit) ↦ rw (hit, get_or_set) refl
    | inl missed ↦ elim (Option-cases fetched) [
      | inl failed ↦ rw (missed, failed, get_or_set) refl
      | inr (value, well) ↦
          rw (missed, well, get_or_set)
            (get-set_ne redis json json now now key (last_good_key key) value ttl s
              (ne-last_good_key key))
    ]
  ]

  settle_answer-empty :
      (now : ℕ) (key : String) (a : Option (List T) × redis.State)
      → a.0 ≡ some []
      → (settle_answer now key a).0
        ≡ some (or_last_good (get redis json now (last_good_key key) a.1))
  unfolding settle_answer
  settle_answer-empty now key (o, s) h = rw h refl

  settle_answer-full :
      (now : ℕ) (key : String) (a : Option (List T) × redis.State) (x : T) (xs : List T)
      → a.0 ≡ some (x ∷ xs)
      → (settle_answer now key a).1 ≡ set redis json now (last_good_key key) (x ∷ xs) 60 a.1
  unfolding settle_answer
  settle_answer-full now key (o, s) x xs h = rw h refl

  -- After an answer that was not empty, the next answer of the cache or feed that is empty (at any
  -- later time) is replaced by the one before within 60 seconds, and returned as it is after that.
  pub fetch_with_sticky_fallback-again :
      (now later : ℕ) (key : String) (ttl ttl_later : ℕ) (fetched fetched_later : Option (List T))
      (s : redis.State) (x : T) (xs : List T)
      → now ≤ later
      → (get_or_set now key ttl fetched s).0 ≡ some (x ∷ xs)
      → (get_or_set later key ttl_later fetched_later
          (fetch_with_sticky_fallback now key ttl fetched s).1).0
        ≡ some []
      → (fetch_with_sticky_fallback later key ttl_later fetched_later
          (fetch_with_sticky_fallback now key ttl fetched s).1).0
        ≡ some (if ltb later (now + 60000) then x ∷ xs else [])
  unfolding fetch_with_sticky_fallback settle_answer
  fetch_with_sticky_fallback-again now later key ttl ttl_later fetched fetched_later s x xs le full
        empty =
      let s1 = (get_or_set now key ttl fetched s).1 in
      let t = (fetch_with_sticky_fallback now key ttl fetched s).1 in
      let answer = get_or_set later key ttl_later fetched_later t in
      let kept : t ≡ set redis json now (last_good_key key) (x ∷ xs) 60 s1 =
        settle_answer-full now key (get_or_set now key ttl fetched s) x xs full in
      let remembered : get redis json later (last_good_key key) answer.1
          ≡ (if ltb later (now + 60000) then some (x ∷ xs) else none) =
        get-get_or_set later key ttl_later fetched_later t
        ∙ ap (get redis json later (last_good_key key)) kept
        ∙ get-set redis json now later (last_good_key key) (x ∷ xs) 60 s1 le in
      settle_answer-empty later key answer empty
      ∙ ap (λ o. some (or_last_good o)) remembered
      ∙ elim (Bool-cases (ltb later (now + 60000))) [
        | inl soon ↦ rw soon refl
        | inr past ↦ rw past refl
      ]
