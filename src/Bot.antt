-- ===== src/Bot.antt =====
-- bot/csreg_scanner/bot.py: the loops of the plugin.
pub mod Launch
pub mod Staleness
pub mod Ingest
pub mod Scan
pub mod Refresh
mod Tests
