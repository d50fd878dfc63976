-- ===== src/Psl.antt =====
-- bot/csreg_scanner/psl.py: the public suffix list, and the holder of the active list.
pub mod Version
pub mod Rules
pub mod Suffix
pub mod Holder
mod Tests
