-- ===== src/History/Feed.antt =====
-- The decoded feeds (src/transport/nsw-gtfs-rt.types.ts), by the fields that the history part reads,
-- with the `mode` that history-aggregate.util.ts joins to each entity. Undefined and null are `none`.
use typescript_starter.Common.{ℕ, String, Option, List}
use typescript_starter.Common.Int.{ℤ}

pub record StopTimeUpdate : Type 0 where
  pub arrival_delay : Option ℤ
  pub departure_delay : Option ℤ
  pub schedule_relationship : Option String

pub record TripUpdate : Type 0 where
  pub mode : String
  pub trip_id : String
  pub route_id : Option String
  pub schedule_relationship : Option String
  pub stop_time_updates : List StopTimeUpdate
  pub timestamp : Option ℕ
  pub delay : Option ℤ

pub record VehiclePosition : Type 0 where
  pub mode : String
  pub trip_id : Option String
  pub route_id : Option String
  pub occupancy_status : Option String

pub record ActivePeriod : Type 0 where
  pub start : Option ℕ
  pub end : Option ℕ

pub record InformedEntity : Type 0 where
  pub route_id : Option String
  pub stop_id : Option String
  pub trip_id : Option String

pub record ServiceAlert : Type 0 where
  pub mode : String
  pub id : String
  pub cause : Option String
  pub effect : Option String
  pub severity_level : Option String
  pub active_periods : List ActivePeriod
  pub informed_entities : List InformedEntity
