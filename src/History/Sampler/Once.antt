-- ===== src/History/Sampler/Once.antt =====
-- A trip is counted as cancelled, or as skipped, by one stored sample of a day at most.
use typescript_starter.Common.{
  ℕ, ◌+◌, ◌*◌, ◌<◌, String, Option, some, List, [], ◌∷◌, ◌++◌, true, false, ◌≡◌, refl, sym, ap, ◌∙◌,
  inl, inr, lt→ltb, contains, contains-append, length, eq_iff, Bool-cases, arith,
}
use typescript_starter.Common.Dict.{total}
use typescript_starter.Common.Text.{clash-append}
use typescript_starter.Cache.Redis.{Redis, Json}
use typescript_starter.Cache.Service.{get-set}
use typescript_starter.History.Accumulator.{LineAccumulator}
use typescript_starter.History.Aggregate.{SampleResult}
use typescript_starter.History.Aggregate.Dedup.{newly_counted-fresh, aggregate_counts_new_trips}
use typescript_starter.History.Sampler.{
  Kind, cancelled, skipped, dedup_key, dedup_ttl_seconds, newly, Visit, is_empty, already_counted,
  aggregated, remember, sample, samples,
}
use typescript_starter.History.Sampler.Remembered.{
  InOrder, Holds, key_of, remember-Holds, already_counted-has, samples-Holds,
}

-- The counter of the trips of the kind.
abbrev pub counter : Kind → LineAccumulator → ℕ
counter cancelled e = e.cancelled_trips
counter skipped e = e.skipped_trips

module _ (redis : Redis) (json : Json (List String)) (day_of : ℕ → String) (intl_hour : ℕ → ℕ) where
  abbrev pub run : Visit → redis.State → Option SampleResult × redis.State
  run v cache = sample redis json day_of intl_hour v cache

  -- What a stored sample stores, and the cache after it.
  sample-stored :
      (v : Visit) (cache : redis.State) (result : SampleResult)
      → (run v cache).0 ≡ some result
      → (result ≡ aggregated redis json day_of intl_hour v cache)
        × ((run v cache).1
            ≡ remember redis json day_of intl_hour skipped v
                (already_counted redis json day_of intl_hour skipped v cache)
                result.newly_skipped
                (remember redis json day_of intl_hour cancelled v
                  (already_counted redis json day_of intl_hour cancelled v cache)
                  result.newly_cancelled
                  cache))
  unfolding sample
  sample-stored v cache result h =
      let found = aggregated redis json day_of intl_hour v cache in
      elim (Bool-cases found.feed_stale) [
        | inl stale ↦ absurd (let e = rw stale at h in cc)
        | inr live ↦ elim (Bool-cases (is_empty found.by_line)) [
          | inl empty ↦ absurd (let e = rw (live, empty) at h in cc)
          | inr filled ↦ elim (Bool-cases v.db_up) [
            | inr down ↦ absurd (let e = rw (live, filled, down) at h in cc)
            | inl up ↦
                let e = rw (live, filled, up) at h in
                let same : found ≡ result = cc in (sym same, rw (live, filled, up, same) refl)
          ]
        ]
      ]

  remember-new :
      (kind : Kind) (v : Visit) (trip : String) (seen trips : List String) (cache : redis.State)
      → contains trip trips ≡ true
      → Holds redis json
          (key_of redis json day_of intl_hour kind v)
          trip
          v.done
          (v.done + 1000 * dedup_ttl_seconds)
          (remember redis json day_of intl_hour kind v seen trips cache)
  unfolding remember
  remember-new kind v trip seen [] cache h = absurd (cc)
  remember-new kind v trip seen (x ∷ xs) cache h = λ t lo hi. (
    seen ++ x ∷ xs,
    get-set redis json v.done t (key_of redis json day_of intl_hour kind v) (seen ++ x ∷ xs)
          dedup_ttl_seconds cache lo
        ∙ rw (lt→ltb t (v.done + 1000 * dedup_ttl_seconds) hi) refl,
    ground (arith, contains-append trip seen (x ∷ xs), h),
  )

  stored-Holds :
      (kind : Kind) (v : Visit) (cache : redis.State) (result : SampleResult) (trip : String)
      → (run v cache).0 ≡ some result
      → contains trip (newly kind result) ≡ true
      → Holds redis json
          (key_of redis json day_of intl_hour kind v)
          trip
          v.done
          (v.done + 1000 * dedup_ttl_seconds)
          (run v cache).1
  stored-Holds cancelled v cache result trip stored h =
      rw ((sample-stored v cache result stored).1) (
        remember-Holds redis json day_of intl_hour (key_of redis json day_of intl_hour cancelled v)
          trip (v.done + 1000 * dedup_ttl_seconds) skipped v _ result.newly_skipped _ (omega arith)
          (remember-new cancelled v trip _ result.newly_cancelled cache h)
          (λ same. absurd (
            clash-append "history:dedup:skipped:" "history:dedup:cancelled:" (day_of v.feeds.at)
              (day_of v.feeds.at) refl
              ((eq_iff (key_of redis json day_of intl_hour skipped v)
                  (key_of redis json day_of intl_hour cancelled v)).0
                same))))
  stored-Holds skipped v cache result trip stored h =
      rw ((sample-stored v cache result stored).1)
        (remember-new skipped v trip _ result.newly_skipped _ h)

  not_counted_again :
      (kind : Kind) (v : Visit) (cache : redis.State) (trip : String)
      → contains trip (already_counted redis json day_of intl_hour kind v cache) ≡ true
      → contains trip (newly kind (aggregated redis json day_of intl_hour v cache)) ≡ false
  unfolding aggregated
  not_counted_again cancelled v cache trip h = (newly_counted-fresh intl_hour _ trip).0 h
  not_counted_again skipped v cache trip h = (newly_counted-fresh intl_hour _ trip).1 h

  counter-newly :
      (kind : Kind) (v : Visit) (cache : redis.State)
      → let result = aggregated redis json day_of intl_hour v cache in
        total (counter kind) result.by_line ≡ length (newly kind result)
  unfolding aggregated
  counter-newly cancelled v cache = (aggregate_counts_new_trips intl_hour _).0
  counter-newly skipped v cache = (aggregate_counts_new_trips intl_hour _).1

  -- A trip that a stored sample counts as cancelled is not among the trips that a later stored
  -- sample of the same Sydney day counts, whatever the feeds hold and whatever samples come in
  -- between, stale, empty or failed ones and those of another day too, if the later one reads the
  -- cache within 26 hours of the first one's writing it; and the counters of cancelled trips of
  -- the later one add up to the number of trips it counts. The same holds of skipped trips.
  pub counted_once :
      (kind : Kind) (trip : String) (cache : redis.State) (first last : Visit)
      (between : List Visit) (a b : SampleResult)
      → (run first cache).0 ≡ some a
      → contains trip (newly kind a) ≡ true
      → InOrder first.done (between ++ last ∷ [])
      → last.now < first.done + 1000 * (26 * 60 * 60)
      → day_of last.feeds.at ≡ day_of first.feeds.at
      → (run last (samples redis json day_of intl_hour between (run first cache).1)).0 ≡ some b
      → (contains trip (newly kind b) ≡ false)
        × (total (counter kind) b.by_line ≡ length (newly kind b))
  counted_once kind trip cache first last between a b stored counted order inside same_day later =
      let before = samples redis json day_of intl_hour between (run first cache).1 in
      let (seen, found, has) =
        samples-Holds redis json day_of intl_hour (key_of redis json day_of intl_hour kind first)
          trip (first.done + 1000 * dedup_ttl_seconds) between last first.done (run first cache).1
          (omega arith) order inside (stored-Holds kind first cache a trip stored counted) last.now
          (omega arith) inside in
      let known =
        already_counted-has redis json day_of intl_hour
          (key_of redis json day_of intl_hour kind first) trip
          (first.done + 1000 * dedup_ttl_seconds) kind last before seen found has
          ((eq_iff (key_of redis json day_of intl_hour kind last)
              (key_of redis json day_of intl_hour kind first)).1
            (ap (dedup_key kind) same_day)) in
      rw ((sample-stored last before b later).0)
        (not_counted_again kind last before trip known, counter-newly kind last before)
