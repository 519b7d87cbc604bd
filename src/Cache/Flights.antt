-- ===== src/Cache/Flights.antt =====
-- getOrSet of cache/cache.service.ts with concurrent callers. A caller reads the cache, and when the
-- answer arrives it goes on in one piece: it returns a hit, joins the fetch under way for its key,
-- or starts one. A fetch ends in one piece too, as far as `inFlight` is concerned.
use typescript_starter.Common.{
  ℕ, suc, ◌+◌, ◌≤◌, String, Option, none, some, List, [], ◌∷◌, true, ◌≡◌, ◌↔◌, refl, inl, inr, bit,
  is_some, str_eq, eq_iff, contains, count_if, if◌then◌else◌, Bool-cases, Option-cases, arith,
}
use typescript_starter.Common.Dict.{Dict, lookup, insert, remove, lookup-insert, lookup-remove}
use typescript_starter.Cache.Redis.{Redis, Json}
use typescript_starter.Cache.Service.{set}

-- `in_flight` has a number for each pending promise; `running` has the keys of the fetches under
-- way.
pub record Flights (redis : Redis) : Type 0 where
  pub cache : redis.State
  pub in_flight : Dict ℕ
  pub running : List String
  pub next : ℕ

pub data Reply (V : Type 0) : Type 0 where
  hit : V → Reply V
  joined : ℕ → Reply V
  started : ℕ → Reply V

unfoldable pub drop_one : String → List String → List String
drop_one key [] = []
drop_one key (k ∷ ks) = if str_eq k key then ks else k ∷ drop_one key ks

module _ (redis : Redis) {V : Type 0} (json : Json V) where
  -- The caller goes on with what the cache answered.
  unfoldable pub resume : String → Option V → Flights redis → Reply V × Flights redis
  unfolding lookup insert
  resume key (some value) f = (hit value, f)
  resume key none f = elim (lookup key f.in_flight) [
    | some id ↦ (joined id, f)
    | none ↦ (
      started f.next,
      record f {
        in_flight = insert key f.next f.in_flight;
        running = key ∷ f.running;
        next = suc f.next;
      },
    )
  ]

  abbrev store_result : ℕ → String → ℕ → Option V → redis.State → redis.State
  store_result now key ttl none cache = cache
  store_result now key ttl (some value) cache = set redis json now key value ttl cache

  -- A fetch ends: its value is stored, unless it failed, and the key is free again.
  unfoldable pub settle : ℕ → String → ℕ → Option V → Flights redis → Flights redis
  unfolding remove drop_one
  settle now key ttl result f = record f {
    cache = store_result now key ttl result f.cache;
    in_flight = remove key f.in_flight;
    running = drop_one key f.running;
  }

  pub data Reachable : Flights redis → Type 0 where
    start :
        (cache : redis.State) (id : ℕ)
        → Reachable (record { cache = cache; in_flight = []; running = []; next = id })
    go_on :
        {f : Flights redis} (key : String) (cached : Option V)
        → Reachable f
        → Reachable (resume key cached f).1
    finish :
        {f : Flights redis} (now : ℕ) (key : String) (ttl : ℕ) (result : Option V)
        → contains key f.running ≡ true
        → Reachable f
        → Reachable (settle now key ttl result f)
    elsewhere :
        {f : Flights redis} (cache : redis.State)
        → Reachable f
        → Reachable (record f { cache = cache })

abbrev pub fetches : String → List String → ℕ
fetches key running = count_if (λ k. str_eq k key) running

fetches-drop_one :
    (key asked : String) (ks : List String)
    → contains key ks ≡ true
    → fetches asked (drop_one key ks) + bit (str_eq key asked) ≡ fetches asked ks
unfolding drop_one
fetches-drop_one key asked [] h = absurd (cc)
fetches-drop_one key asked (k ∷ ks) h = elim (Bool-cases (str_eq k key)) [
  | inl same ↦ rw (same, (eq_iff k key).0 same) (omega arith)
  | inr other ↦
      let ih = fetches-drop_one key asked ks (rw other at h) in rw other (omega (arith, ih))
]

module _ (redis : Redis) {V : Type 0} (json : Json V) where
  -- The fetches under way are those that `inFlight` names.
  abbrev InStep : Flights redis → Type 0
  InStep f = (key : String) → fetches key f.running ≡ bit (is_some (lookup key f.in_flight))

  InStep-resume :
      (asked : String) (cached : Option V) (f : Flights redis)
      → InStep f
      → InStep (resume redis json asked cached f).1
  unfolding resume
  InStep-resume asked (some value) f h key = h key
  InStep-resume asked none f h key = elim (Option-cases (lookup asked f.in_flight)) [
    | inr (id, pending) ↦ rw (pending, resume) (h key)
    | inl free ↦
        rw (free, resume, lookup-insert asked key f.next f.in_flight)
          (elim (Bool-cases (str_eq asked key)) [
            | inl same ↦
                let at = (eq_iff asked key).0 same in
                let before = h asked in ground (arith, before, free, at)
            | inr other ↦ rw other (omega (arith, h key))
          ])
  ]

  InStep-settle :
      (now : ℕ) (asked : String) (ttl : ℕ) (result : Option V) (f : Flights redis)
      → contains asked f.running ≡ true
      → InStep f
      → InStep (settle redis json now asked ttl result f)
  unfolding settle
  InStep-settle now asked ttl result f running h key =
      rw (lookup-remove asked key f.in_flight) (elim (Bool-cases (str_eq asked key)) [
        | inl same ↦
            let one = fetches-drop_one asked key f.running running in
            let at = h key in ground (arith, one, at)
        | inr other ↦
            let one = fetches-drop_one asked key f.running running in
            rw other (omega (arith, h key, rw other at one))
      ])

  Reachable-InStep : {f : Flights redis} → Reachable redis json f → InStep f
  Reachable-InStep (start cache id) key = unfold lookup in refl
  Reachable-InStep (go_on asked cached r) key =
      InStep-resume asked cached _ (Reachable-InStep r) key
  Reachable-InStep (finish now asked ttl result running r) key =
      InStep-settle now asked ttl result _ running (Reachable-InStep r) key
  Reachable-InStep (elsewhere cache r) key = Reachable-InStep r key

  -- However callers and fetches interleave, at most one fetch is under way for a key, and a caller
  -- that missed the cache joins a fetch exactly if there is one.
  pub one_fetch :
      {f : Flights redis}
      → Reachable redis json f
      → (key : String)
      → (fetches key f.running ≤ 1)
        × ((1 ≤ fetches key f.running)
            ↔ ((id : ℕ) × ((resume redis json key none f).0 ≡ joined id)))
  unfolding resume
  one_fetch {f} r key =
      let tied = Reachable-InStep r key in
      elim (Option-cases (lookup key f.in_flight)) [
        | inr (id, pending) ↦
            let one : fetches key f.running ≡ 1 = rw pending at tied in
            (omega (arith, one), (λ h. (id, rw (pending, resume) refl), λ h. omega (arith, one)))
        | inl free ↦
            let unused : fetches key f.running ≡ 0 = rw free at tied in
            (
              omega (arith, unused),
              (
                λ h. absurd (omega (arith, unused)),
                λ (id, e). absurd (let g = rw (free, resume) at e in cc),
              ),
            )
      ]
