-- ===== src/Cache.antt =====
-- cache/cache.service.ts: what the program relies on of Redis and of JSON, the operations of
-- CacheService over them, and the de-duplication of concurrent `getOrSet` calls.
pub mod Redis
pub mod Service
mod Sample
pub mod Locks
pub mod Flights
pub mod Flush
mod Tests
pub use Sample.{
  memory_redis, take_text, take-put_text, count_marks, count_marks-marks, json_of, Codec,
  text_codec, number_codec, flag_codec, option_codec, list_codec, pair_codec, via,
}
unfoldable pub use Sample.{put_text, marks}
