-- ===== src/Transport.antt =====
-- The access to the TfNSW open data API (src/transport).
pub mod Client
mod Tests
