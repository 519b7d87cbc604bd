-- ===== src/Realtime.antt =====
-- realtime/: matching a planned trip with the live feeds, its stop times, and the trips that
-- subscribers follow.
pub mod Texts
pub mod Clock
pub mod Match
pub mod Stops
pub mod Sticky
pub mod Poller
pub mod Track
mod Tests
