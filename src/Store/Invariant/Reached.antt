-- ===== src/Store/Invariant/Reached.antt =====
-- What holds of every store that the methods of db.py reach.
use matrix_federation_scanne.Prelude.{ℕ, ◌≤◌, List, [], ◌∷◌, arith, length}
use matrix_federation_scanne.Store.{ScannedRow, Store}
use matrix_federation_scanne.Store.Queue.{pending}
use matrix_federation_scanne.Store.Documents.{record_support, put_cached_psl}
use matrix_federation_scanne.Store.Counts.{sum_scans}
use matrix_federation_scanne.Store.Invariant.{
  RowsOk, WellFormed, Reaches, created, waited, enqueued, leased, recorded, documented, cached,
}
use matrix_federation_scanne.Store.Invariant.Scans.{later-RowsOk, record_scan-RowsOk}
use matrix_federation_scanne.Store.Invariant.Queued.{
  enqueue-QueueOk, enqueue-scanned, pending-QueueOk, record_scan-QueueOk,
}

pub Reaches-WellFormed : (clock : ℕ) (s : Store) → Reaches clock s → WellFormed clock s
unfolding pending record_support put_cached_psl
Reaches-WellFormed _ _ created = record { rows = tt; queued = tt }
Reaches-WellFormed _ _ (waited clock later s le h) =
    let ok = Reaches-WellFormed clock s h in
    record { rows = later-RowsOk clock later s.scanned le ok.rows; queued = ok.queued }
Reaches-WellFormed _ _ (enqueued clock s sqlite targets h) =
    let ok = Reaches-WellFormed clock s h in
    record {
      rows = rw (enqueue-scanned sqlite targets s) ok.rows;
      queued = enqueue-QueueOk sqlite targets s ok.queued;
    }
Reaches-WellFormed _ _ (leased clock s precedes sqlite limit lease_seconds h) =
    let ok = Reaches-WellFormed clock s h in
    record {
      rows = ok.rows;
      queued = pending-QueueOk precedes sqlite clock limit lease_seconds s ok.queued;
    }
Reaches-WellFormed _ _ (recorded clock s t scan h) =
    let ok = Reaches-WellFormed clock s h in
    record {
      rows = record_scan-RowsOk clock t scan s ok.rows;
      queued = record_scan-QueueOk clock t scan s ok.queued;
    }
Reaches-WellFormed _ _ (documented clock s domain raw_json h) =
    let ok = Reaches-WellFormed clock s h in record { rows = ok.rows; queued = ok.queued }
Reaches-WellFormed _ _ (cached clock s version_raw commit_hash body given h) =
    let ok = Reaches-WellFormed clock s h in record { rows = ok.rows; queued = ok.queued }

-- Where the rows hold, no row counts fewer scans than one.
pub RowsOk-scans :
    (clock : ℕ) (rows : List ScannedRow) → RowsOk clock rows → length rows ≤ sum_scans rows
unfolding sum_scans
RowsOk-scans clock [] ok = omega arith
RowsOk-scans clock (r ∷ rest) ok = omega (arith, ok.0.counted, RowsOk-scans clock rest ok.2)
