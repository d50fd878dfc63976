-- ===== src/Policy.antt =====
-- bot/csreg_scanner/policy.py: governance of the policy list, and the writes to it.
pub mod Schema
pub mod BotVersion
pub mod State
pub mod Config
pub mod Glob
pub mod Fold
pub mod Write
pub mod Reconcile
pub mod Floor
pub mod Tests
mod ConfigTests
mod ConcurrentTests
