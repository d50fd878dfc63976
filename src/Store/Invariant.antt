-- ===== src/Store/Invariant.antt =====
-- The tables of db.py as they are reached by its methods, with a clock that does not run backwards.
pub mod Scans
pub mod Queued
pub mod Reached
use matrix_federation_scanne.Prelude.{
  ℕ, ◌≤◌, ◌≡◌, Bool, true, false, Option, none, some, List, [], ◌∷◌,
}
use matrix_federation_scanne.Prelude.Text.{Text}
use matrix_federation_scanne.Util.{strip_port}
use matrix_federation_scanne.Store.{QueueRow, ScannedRow, Store, empty, is_queued, is_scanned}
use matrix_federation_scanne.Store.Queue.{enqueue, pending}
use matrix_federation_scanne.Store.Record.{Scan, record_scan}
use matrix_federation_scanne.Store.Documents.{record_support, put_cached_psl}

-- A row of `scanned` at a time.
pub record RowOk (clock : ℕ) (r : ScannedRow) : Type 0 where
  pub derived : r.domain ≡ strip_port r.scan_target
  pub counted : 1 ≤ r.scan_count
  pub since : r.status_since ≤ r.last_scan_at
  pub discovered : r.discovered_at ≤ r.last_scan_at
  pub past : r.last_scan_at ≤ clock

-- Every row holds, and no two rows have one key.
abbrev pub RowsOk : ℕ → List ScannedRow → Type 0
RowsOk clock [] = Unit
RowsOk clock (r ∷ rest) =
    RowOk clock r × (is_scanned r.scan_target rest ≡ false) × RowsOk clock rest

-- No queued target has a row in `scanned`, and no two rows have one key.
abbrev pub QueueOk : List ScannedRow → List QueueRow → Type 0
QueueOk rows [] = Unit
QueueOk rows (r ∷ rest) =
    (is_scanned r.scan_target rows ≡ false)
    × (is_queued r.scan_target rest ≡ false)
    × QueueOk rows rest

pub record WellFormed (clock : ℕ) (s : Store) : Type 0 where
  pub rows : RowsOk clock s.scanned
  pub queued : QueueOk s.scanned s.queue

-- The stores that sequences of the methods that write reach from the empty one.
pub data Reaches : ℕ → Store → Type 0 where
  created : Reaches 0 empty
  waited : (clock later : ℕ) (s : Store) → clock ≤ later → Reaches clock s → Reaches later s
  enqueued :
      (clock : ℕ) (s : Store) (sqlite : Bool) (targets : List Text)
      → Reaches clock s
      → Reaches clock (enqueue sqlite targets s)
  leased :
      (clock : ℕ) (s : Store) (precedes : Text → Text → Bool) (sqlite : Bool)
      (limit lease_seconds : ℕ)
      → Reaches clock s
      → Reaches clock (pending precedes sqlite clock limit lease_seconds s).0
  recorded :
      (clock : ℕ) (s : Store) (t : Text) (scan : Scan)
      → Reaches clock s
      → Reaches clock (record_scan clock t scan s).0
  documented :
      (clock : ℕ) (s : Store) (domain raw_json : Text)
      → Reaches clock s
      → Reaches clock (record_support clock domain raw_json s)
  cached :
      (clock : ℕ) (s : Store) (version_raw : Text) (commit_hash : Option Text) (body : Text)
      (given : Option ℕ)
      → Reaches clock s
      → Reaches clock (put_cached_psl version_raw commit_hash body given clock s)
