-- ===== src/Regcheck.antt =====
-- bot/csreg_scanner/regcheck.py: the classification of a server's registration.
pub mod Flows
pub mod Probes
pub mod Verdict
pub mod Evidence
pub mod Issuers
pub mod Precedence
mod Tests
