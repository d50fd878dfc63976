-- ===== src/Probe.antt =====
-- The probes of a scan beside the registration check, and the scan that runs them.
pub mod Version
pub mod Support
pub mod Scan
mod Tests
