-- ===== src/Resolver.antt =====
-- bot/csreg_scanner/resolver.py.
pub mod Name
pub mod Body
pub mod Srv
