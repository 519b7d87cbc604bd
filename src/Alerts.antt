-- ===== src/Alerts.antt =====
-- history/line-health-alerts.service.ts and push/commute-alert.service.ts: the alerts that the
-- application shows for degraded lines, and the scan that opens, resolves and pushes them.
pub mod Lines
pub mod Commute
pub mod Open
pub mod Resolving
pub mod Scanning
pub mod Cooldown
mod Tests
