-- ===== src/History/Sampler.antt =====
-- history/history-sampler.service.ts, the core of `sample`: which trips of the day were counted, as the
-- cache has it, the aggregation, and what is stored and remembered. The lock keeps samples apart, so
-- they come one after the other; a sample reads the cache at one time and writes it at another. The
-- day that Intl prints is a parameter, and Redis answers.
pub mod Remembered
pub mod Once
use Prim.Native.String
use typescript_starter.Common.{
  ℕ, ◌*◌, String, Option, none, some, List, [], ◌∷◌, ◌++◌, Bool, true, false, or_else,
  if◌then◌else◌,
}
use typescript_starter.Cache.Redis.{Redis, Json}
use typescript_starter.Cache.Service.{get, set}
use typescript_starter.History.Aggregate.Entries.{ByLine}
use typescript_starter.History.Aggregate.Routes.{add_all}
use typescript_starter.History.Aggregate.{SampleInput, SampleResult, aggregate_history_sample}

pub data Kind : Type 0 where
  cancelled skipped : Kind

-- DEDUP_CANCELLED_KEY_PREFIX and DEDUP_SKIPPED_KEY_PREFIX, with the day
abbrev pub dedup_key : Kind → String → String
dedup_key cancelled day = String.◌++◌ "history:dedup:cancelled:" day
dedup_key skipped day = String.◌++◌ "history:dedup:skipped:" day

abbrev pub dedup_ttl_seconds : ℕ
dedup_ttl_seconds = 26 * 60 * 60

abbrev pub newly : Kind → SampleResult → List String
newly cancelled result = result.newly_cancelled
newly skipped result = result.newly_skipped

-- A run of `sample` that got the lock: when it reads the cache and when it writes it, whether the
-- transaction of `persist` succeeds, and the feeds. The two sets of counted trips of the feeds are
-- replaced by those of the cache.
pub record Visit : Type 0 where
  pub now : ℕ
  pub done : ℕ
  pub db_up : Bool
  pub feeds : SampleInput

abbrev pub is_empty : ByLine → Bool
is_empty [] = true
is_empty (entry ∷ entries) = false

module _ (redis : Redis) (json : Json (List String)) (day_of : ℕ → String) (intl_hour : ℕ → ℕ) where
  -- `new Set(seen ?? [])`
  unfoldable pub already_counted : Kind → Visit → redis.State → List String
  unfolding add_all
  already_counted kind v cache =
      add_all (or_else (get redis json v.now (dedup_key kind (day_of v.feeds.at)) cache) []) []

  unfoldable pub aggregated : Visit → redis.State → SampleResult
  unfolding already_counted
  aggregated v cache = aggregate_history_sample intl_hour (record v.feeds {
    already_counted_cancelled = already_counted cancelled v cache;
    already_counted_skipped = already_counted skipped v cache;
  })

  -- The set is written only where there are newly counted trips.
  unfoldable pub remember : Kind → Visit → List String → List String → redis.State → redis.State
  remember kind v seen [] cache = cache
  remember kind v seen (trip ∷ trips) cache =
      set redis json v.done (dedup_key kind (day_of v.feeds.at)) (seen ++ trip ∷ trips)
        dedup_ttl_seconds cache

  -- What is handed to `persist` and stored, if anything is, and the cache after it.
  unfoldable pub sample : Visit → redis.State → Option SampleResult × redis.State
  unfolding aggregated already_counted remember
  sample v cache =
      let result = aggregated v cache in
      if result.feed_stale
      then (none, cache)
      else if is_empty result.by_line
      then (none, cache)
      else if v.db_up
      then (
        some result,
        remember skipped v (already_counted skipped v cache) result.newly_skipped
            (remember cancelled v (already_counted cancelled v cache) result.newly_cancelled cache),
      )
      else (none, cache)

  -- The cache after several samples.
  unfoldable pub samples : List Visit → redis.State → redis.State
  unfolding sample
  samples [] cache = cache
  samples (v ∷ vs) cache = samples vs (sample v cache).1
