-- ===== src/History.antt =====
-- The history part (src/history): metrics for each mode and line, sampled from the realtime feeds.
pub mod Feed
pub mod Occupancy
pub mod Disruption
pub mod SydneyTime
pub mod Percentile
pub mod LineIdentity
pub mod Accumulator
pub mod Aggregate
pub mod Sampler
pub mod Snapshot
mod Tests
