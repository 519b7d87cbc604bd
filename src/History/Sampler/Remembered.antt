-- ===== src/History/Sampler/Remembered.antt =====
-- How long the cache has a counted trip in the set of its day, over the samples that follow.
use typescript_starter.Common.{
  ℕ, ◌+◌, ◌*◌, ◌≤◌, ◌<◌, String, some, List, [], ◌∷◌, ◌++◌, true, ◌≡◌, refl, sym, ap, ◌∙◌, inl, inr,
  lt→ltb, contains, contains-append, str_eq, eq_iff, Bool-cases, arith,
}
use typescript_starter.Cache.Redis.{Redis, Json}
use typescript_starter.Cache.Service.{get, set, get-set, get-set_ne}
use typescript_starter.History.Aggregate.Routes.{contains-add_all}
use typescript_starter.History.Sampler.{
  Kind, cancelled, skipped, dedup_key, dedup_ttl_seconds, Visit, is_empty, already_counted,
  aggregated, remember, sample, samples,
}

-- The samples come one after the other, the first not before `from`.
abbrev pub InOrder : ℕ → List Visit → Type 0
InOrder from [] = Unit
InOrder from (v ∷ vs) = (from ≤ v.now) × (v.now ≤ v.done) × InOrder v.done vs

InOrder-last :
    (from : ℕ) (vs : List Visit) (last : Visit) → InOrder from (vs ++ last ∷ []) → from ≤ last.now
InOrder-last from [] last h = h.0
InOrder-last from (v ∷ vs) last (a, b, h) = omega (arith, a, b, InOrder-last v.done vs last h)

module _ (redis : Redis) (json : Json (List String)) where
  -- From one time on, until another, the set under the key has the trip.
  abbrev pub Holds : String → String → ℕ → ℕ → redis.State → Type 0
  Holds key trip from until cache =
      (t : ℕ)
      → from ≤ t
      → t < until
      → (seen : List String) × (get redis json t key cache ≡ some seen)
        × (contains trip seen ≡ true)

  module _ (day_of : ℕ → String) (intl_hour : ℕ → ℕ) where
    abbrev pub key_of : Kind → Visit → String
    key_of kind v = dedup_key kind (day_of v.feeds.at)

    module _ (key trip : String) (until : ℕ) where
      pub remember-Holds :
          (kind : Kind) (v : Visit) (seen trips : List String) (cache : redis.State)
          → until ≤ v.done + 1000 * dedup_ttl_seconds
          → Holds key trip v.done until cache
          → (str_eq (key_of kind v) key ≡ true → contains trip (seen ++ trips) ≡ true)
          → Holds key trip v.done until
              (remember redis json day_of intl_hour kind v seen trips cache)
      unfolding remember
      remember-Holds kind v seen [] cache within held h = held
      remember-Holds kind v seen (x ∷ xs) cache within held h = λ t lo hi.
          elim (Bool-cases (str_eq (key_of kind v) key)) [
            | inl same ↦ (
              seen ++ x ∷ xs,
              ap
                    (λ k. get redis json t k (
                      set redis json v.done (key_of kind v) (seen ++ x ∷ xs) dedup_ttl_seconds
                        cache))
                    (sym ((eq_iff (key_of kind v) key).0 same))
                  ∙ get-set redis json v.done t (key_of kind v) (seen ++ x ∷ xs) dedup_ttl_seconds
                      cache lo
                  ∙ rw (lt→ltb t (v.done + 1000 * dedup_ttl_seconds) (omega (arith, hi, within)))
                      refl,
              h same,
            )
            | inr other ↦
                let (s, found, has) = held t lo hi in
                (
                  s,
                  get-set_ne redis json json v.done t (key_of kind v) key (seen ++ x ∷ xs)
                        dedup_ttl_seconds cache
                        (λ e. absurd (ground (arith, eq_iff (key_of kind v) key, e, other)))
                      ∙ found,
                  has,
                )
          ]

      pub already_counted-has :
          (kind : Kind) (v : Visit) (cache : redis.State) (seen : List String)
          → get redis json v.now key cache ≡ some seen
          → contains trip seen ≡ true
          → str_eq (key_of kind v) key ≡ true
          → contains trip (already_counted redis json day_of intl_hour kind v cache) ≡ true
      unfolding already_counted
      already_counted-has kind v cache seen found has same =
          rw ((eq_iff (key_of kind v) key).0 same, found)
            (ground (arith, contains-add_all trip seen [], has))

      sample-Holds :
          (v : Visit) (from : ℕ) (cache : redis.State)
          → until ≤ v.done + 1000 * dedup_ttl_seconds
          → from ≤ v.now
          → v.now ≤ v.done
          → v.now < until
          → Holds key trip from until cache
          → Holds key trip v.done until (sample redis json day_of intl_hour v cache).1
      unfolding sample
      sample-Holds v from cache within order lasts inside held =
          let result = aggregated redis json day_of intl_hour v cache in
          let kept : Holds key trip v.done until cache = λ t lo hi. held t (omega arith) hi in
          let (seen, found, has) = held v.now order inside in
          let counted : (kind : Kind) (new : List String)
              → str_eq (key_of kind v) key ≡ true
              → contains trip (already_counted redis json day_of intl_hour kind v cache ++ new)
                ≡ true =
            λ kind new same.
              rw
                (
                  contains-append trip (already_counted redis json day_of intl_hour kind v cache)
                      new,
                  already_counted-has kind v cache seen found has same,
                )
                refl in
          elim (Bool-cases result.feed_stale) [
            | inl stale ↦ rw stale kept
            | inr live ↦ elim (Bool-cases (is_empty result.by_line)) [
              | inl empty ↦ rw (live, empty) kept
              | inr filled ↦ elim (Bool-cases v.db_up) [
                | inr down ↦ rw (live, filled, down) kept
                | inl up ↦
                    rw (live, filled, up)
                      (remember-Holds skipped v _ result.newly_skipped _ within
                        (remember-Holds cancelled v _ result.newly_cancelled cache within kept
                          (counted cancelled result.newly_cancelled))
                        (counted skipped result.newly_skipped))
              ]
            ]
          ]

      pub samples-Holds :
          (between : List Visit) (last : Visit) (from : ℕ) (cache : redis.State)
          → until ≤ from + 1000 * dedup_ttl_seconds
          → InOrder from (between ++ last ∷ [])
          → last.now < until
          → Holds key trip from until cache
          → Holds key trip last.now until (samples redis json day_of intl_hour between cache)
      unfolding samples
      samples-Holds [] last from cache within order inside held =
          λ t lo hi. held t (omega (arith, order.0, lo)) hi
      samples-Holds (v ∷ vs) last from cache within (a, b, order) inside held =
          let ends = InOrder-last v.done vs last order in
          samples-Holds vs last v.done _ (omega arith) order inside
            (sample-Holds v from cache (omega arith) a b (omega arith) held)
