-- ===== src/Store/Record/Outcome.antt =====
-- `record_scan` of db.py: the row, the queue and the answer it leaves.
use matrix_federation_scanne.Prelude.{
  ℕ, ◌+◌, ◌≡◌, refl, Bool, false, not, Option, none, some, String, str_eq, eq_iff, arith,
  if◌then◌else◌,
}
use matrix_federation_scanne.Prelude.Text.{Text, same}
use matrix_federation_scanne.Store.{ScannedRow, Store, is_queued}
use matrix_federation_scanne.Store.Record.{
  ScanRecord, Scan, find_scanned, incoming, scan_record, transition, overwrite, new_status,
  new_streak, record_scan, statuses_for_domain, or_unknown, stored_name, stored_version,
}
use matrix_federation_scanne.Store.Record.Rows.{
  merged, find-upsert, find-upsert-other, is_queued-delete, is_queued-delete-other, statuses-upsert,
}

-- A status is the one that stood in the row before.
abbrev pub is_status : String → Option String → Bool
is_status status none = false
is_status status (some old) = str_eq status old

-- The row that a scan stores.
abbrev pub stored : ℕ → Text → Scan → Store → ScannedRow
stored ts t scan s =
    merged scan.fed_observed (incoming ts t scan (find_scanned t s.scanned))
      (find_scanned t s.scanned)

find-record_scan :
    (ts : ℕ) (t : Text) (scan : Scan) (s : Store)
    → find_scanned t (record_scan ts t scan s).0.scanned ≡ some (stored ts t scan s)
unfolding record_scan incoming
find-record_scan ts t scan s =
    find-upsert scan.fed_observed (incoming ts t scan (find_scanned t s.scanned)) s.scanned

abbrev pub stored_success : Option ScannedRow → Option ℕ
stored_success none = none
stored_success (some r) = r.last_success_at

-- The status that stands in a row, if there is one.
abbrev pub status_before : Option ScannedRow → Option String
status_before none = none
status_before (some r) = some r.reg_status

abbrev pub stored_status : Option ScannedRow → String
stored_status none = "unknown"
stored_status (some r) = r.reg_status

-- What a scan of `t` leaves for `t`.
pub record Recorded (ts : ℕ) (t : Text) (scan : Scan) (s after : Store) (answer : ScanRecord)
    : Type 0 where
  pub row : ScannedRow
  pub found : find_scanned t after.scanned ≡ some row
  pub dequeued : is_queued t after.queue ≡ false
  pub attempted : row.last_scan_at ≡ ts
  pub since : row.status_since ≡ answer.status_since
  pub previous : answer.previous_status ≡ status_before (find_scanned t s.scanned)
  pub changed :
      answer.changed ≡ not (is_status row.reg_status (status_before (find_scanned t s.scanned)))
  pub status :
      row.reg_status
      ≡ (if scan.ok then or_unknown scan.status else stored_status (find_scanned t s.scanned))
  pub success :
      row.last_success_at ≡ (if scan.ok then some ts else stored_success (find_scanned t s.scanned))
  pub name :
      row.fed_name
      ≡ (if scan.fed_observed then scan.fed_name else stored_name (find_scanned t s.scanned))
  pub version :
      row.fed_version
      ≡ (if scan.fed_observed then scan.fed_version else stored_version (find_scanned t s.scanned))

abbrev behind : ℕ → Text → Scan → Option ScannedRow → ScannedRow
behind ts t scan existing = merged scan.fed_observed (incoming ts t scan existing) existing

behind-attempted :
    (ts : ℕ) (t : Text) (scan : Scan) (existing : Option ScannedRow)
    → (behind ts t scan existing).last_scan_at ≡ ts
unfolding incoming overwrite
behind-attempted ts t scan none = refl
behind-attempted ts t scan (some r) = refl

behind-since :
    (ts : ℕ) (t : Text) (scan : Scan) (existing : Option ScannedRow)
    → (behind ts t scan existing).status_since ≡ (scan_record ts scan existing).status_since
unfolding incoming overwrite scan_record
behind-since ts t scan none = refl
behind-since ts t scan (some r) = refl

behind-previous :
    (ts : ℕ) (scan : Scan) (existing : Option ScannedRow)
    → (scan_record ts scan existing).previous_status ≡ status_before existing
unfolding scan_record
behind-previous ts scan none = refl
behind-previous ts scan (some r) = refl

behind-changed :
    (ts : ℕ) (t : Text) (scan : Scan) (existing : Option ScannedRow)
    → (scan_record ts scan existing).changed
      ≡ not (is_status (behind ts t scan existing).reg_status (status_before existing))
unfolding scan_record transition incoming overwrite
behind-changed ts t scan none = refl
behind-changed ts t scan (some r) = ground arith

behind-status :
    (ts : ℕ) (t : Text) (scan : Scan) (existing : Option ScannedRow)
    → (behind ts t scan existing).reg_status
      ≡ (if scan.ok then or_unknown scan.status else stored_status existing)
unfolding incoming overwrite new_status
behind-status ts t scan none = refl
behind-status ts t scan (some r) = refl

behind-success :
    (ts : ℕ) (t : Text) (scan : Scan) (existing : Option ScannedRow)
    → (behind ts t scan existing).last_success_at
      ≡ (if scan.ok then some ts else stored_success existing)
unfolding incoming overwrite
behind-success ts t scan none = refl
behind-success ts t scan (some r) = ground arith

behind-name :
    (ts : ℕ) (t : Text) (scan : Scan) (existing : Option ScannedRow)
    → (behind ts t scan existing).fed_name
      ≡ (if scan.fed_observed then scan.fed_name else stored_name existing)
unfolding incoming overwrite
behind-name ts t scan none = refl
behind-name ts t scan (some r) = ground arith

behind-version :
    (ts : ℕ) (t : Text) (scan : Scan) (existing : Option ScannedRow)
    → (behind ts t scan existing).fed_version
      ≡ (if scan.fed_observed then scan.fed_version else stored_version existing)
unfolding incoming overwrite
behind-version ts t scan none = refl
behind-version ts t scan (some r) = ground arith

-- Every scan leaves a row of its target and no queue row. The row has the time of the scan, the
-- `status_since` of the answer, and the status, the last success and the version that the scan
-- observed or else those that were stored, a first failure being `unknown` without a success. The
-- answer's previous status is that of the row before, if there was one, and it says that the status
-- changed exactly if there was no row before with the status stored now.
pub record_scan-Recorded :
    (ts : ℕ) (t : Text) (scan : Scan) (s : Store)
    → Recorded ts t scan s (record_scan ts t scan s).0 (record_scan ts t scan s).1
unfolding record_scan
record_scan-Recorded ts t scan s =
    let existing = find_scanned t s.scanned in
    record {
      row = behind ts t scan existing;
      found = find-record_scan ts t scan s;
      dequeued = is_queued-delete t s.queue;
      attempted = behind-attempted ts t scan existing;
      since = behind-since ts t scan existing;
      previous = behind-previous ts scan existing;
      changed = behind-changed ts t scan existing;
      status = behind-status ts t scan existing;
      success = behind-success ts t scan existing;
      name = behind-name ts t scan existing;
      version = behind-version ts t scan existing;
    }

-- What a failed scan keeps of the row that was there.
pub record Kept (old : ScannedRow) (t : Text) (s after : Store) (answer : ScanRecord) : Type 0 where
  pub row : ScannedRow
  pub found : find_scanned t after.scanned ≡ some row
  pub status : row.reg_status ≡ old.reg_status
  pub discovered : row.discovered_at ≡ old.discovered_at
  pub success : row.last_success_at ≡ old.last_success_at
  pub streak : row.error_streak ≡ old.error_streak + 1
  pub unchanged : answer.changed ≡ false
  pub domains : (d : Text) → statuses_for_domain d after.scanned ≡ statuses_for_domain d s.scanned

kept-status :
    (ts : ℕ) (t : Text) (scan : Scan) (old : ScannedRow)
    → scan.ok ≡ false
    → (behind ts t scan (some old)).reg_status ≡ old.reg_status
unfolding incoming overwrite new_status
kept-status ts t scan old failed = rw failed refl

kept-success :
    (ts : ℕ) (t : Text) (scan : Scan) (old : ScannedRow)
    → scan.ok ≡ false
    → (behind ts t scan (some old)).last_success_at ≡ old.last_success_at
unfolding incoming overwrite
kept-success ts t scan old failed = rw failed refl

kept-streak :
    (ts : ℕ) (t : Text) (scan : Scan) (old : ScannedRow)
    → scan.ok ≡ false
    → (behind ts t scan (some old)).error_streak ≡ old.error_streak + 1
unfolding incoming overwrite new_streak
kept-streak ts t scan old failed = rw failed refl

kept-discovered :
    (ts : ℕ) (t : Text) (scan : Scan) (old : ScannedRow)
    → (behind ts t scan (some old)).discovered_at ≡ old.discovered_at
unfolding overwrite
kept-discovered ts t scan old = refl

failed-changed :
    (ts : ℕ) (scan : Scan) (old : ScannedRow)
    → scan.ok ≡ false
    → (scan_record ts scan (some old)).changed ≡ false
unfolding scan_record transition new_status
failed-changed ts scan old failed = rw (failed, (eq_iff old.reg_status old.reg_status).1 refl) refl

failed-status :
    (ts : ℕ) (t : Text) (scan : Scan) (old : ScannedRow)
    → scan.ok ≡ false
    → (incoming ts t scan (some old)).reg_status ≡ old.reg_status
unfolding incoming new_status
failed-status ts t scan old failed = rw failed refl

-- A scan that fails, of a target with a row, keeps the status, the first time and the last success
-- of the row, counts one more error, reports no change and leaves what `statuses_for_domain`
-- answers for every domain.
pub record_scan-Kept :
    (ts : ℕ) (t : Text) (scan : Scan) (s : Store) (old : ScannedRow)
    → scan.ok ≡ false
    → find_scanned t s.scanned ≡ some old
    → Kept old t s (record_scan ts t scan s).0 (record_scan ts t scan s).1
unfolding record_scan incoming
record_scan-Kept ts t scan s old failed here =
    let existing = find_scanned t s.scanned in
    record {
      row = behind ts t scan existing;
      found = find-record_scan ts t scan s;
      status = rw here (kept-status ts t scan old failed);
      discovered = rw here (kept-discovered ts t scan old);
      success = rw here (kept-success ts t scan old failed);
      streak = rw here (kept-streak ts t scan old failed);
      unchanged = rw here (failed-changed ts scan old failed);
      domains = λ d.
          statuses-upsert scan.fed_observed (incoming ts t scan existing) old d s.scanned here
            (rw here (failed-status ts t scan old failed));
    }

-- A scan leaves the rows of other targets, and whether they are queued.
pub record_scan_others :
    (ts : ℕ) (t u : Text) (scan : Scan) (s : Store)
    → same t u ≡ false
    → (find_scanned u (record_scan ts t scan s).0.scanned ≡ find_scanned u s.scanned)
      × (is_queued u (record_scan ts t scan s).0.queue ≡ is_queued u s.queue)
unfolding record_scan incoming
record_scan_others ts t u scan s other = (
  find-upsert-other scan.fed_observed (incoming ts t scan (find_scanned t s.scanned)) u s.scanned
      other,
  is_queued-delete-other t u s.queue other,
)
