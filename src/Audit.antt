-- ===== src/Audit.antt =====
-- audit/: the redaction of what an audit event carries, the record of events with its queue of
-- retries, and the pages in which events are read.
pub mod Redaction
pub mod Events
pub mod Records
pub mod Delivery
pub mod Query
pub mod Pages
mod Tests
