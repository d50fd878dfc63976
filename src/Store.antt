-- ===== src/Store.antt =====
-- bot/csreg_scanner/db.py: the tables, and what the statements of each method do to them.
-- A table is the list of its rows. The database runs a transaction as one step.
pub mod Queue
pub mod Record
pub mod Overdue
pub mod Counts
pub mod Documents
pub mod Invariant
pub mod Pinned
mod Tests
use matrix_federation_scanne.Prelude.{
  ℕ, Bool, true, false, ◌||◌, Option, none, some, String, List, [], ◌∷◌, if◌then◌else◌,
}
use matrix_federation_scanne.Prelude.Text.{Text, same}

-- scan_queue.
pub record QueueRow : Type 0 where
  pub scan_target : Text
  pub leased_until : Option ℕ

-- scanned.
pub record ScannedRow : Type 0 where
  pub scan_target : Text
  pub domain : Text
  pub discovered_at : ℕ
  pub last_scan_at : ℕ
  pub last_success_at : Option ℕ
  pub reg_status : String
  pub scan_count : ℕ
  pub error_streak : ℕ
  pub status_since : ℕ
  pub fed_name : Option Text
  pub fed_version : Option Text
  pub fed_version_at : Option ℕ

-- support_info.
pub record SupportRow : Type 0 where
  pub domain : Text
  pub support_json : Text
  pub fetched_at : ℕ

-- psl_cache, whose CHECK admits one row.
pub record PslRow : Type 0 where
  pub version_raw : Text
  pub commit_hash : Option Text
  pub body : Text
  pub fetched_at : ℕ

pub record Store : Type 0 where
  pub queue : List QueueRow
  pub scanned : List ScannedRow
  pub support : List SupportRow
  pub psl_cache : Option PslRow

-- After `upgrade_v1` to `upgrade_v5`.
abbrev pub empty : Store
empty = record { queue = []; scanned = []; support = []; psl_cache = none }

-- Whether a table has a row with a key.
unfoldable pub is_queued : Text → List QueueRow → Bool
unfolding same
is_queued t [] = false
is_queued t (r ∷ rest) = same r.scan_target t || is_queued t rest

unfoldable pub is_scanned : Text → List ScannedRow → Bool
unfolding same
is_scanned t [] = false
is_scanned t (r ∷ rest) = same r.scan_target t || is_scanned t rest
