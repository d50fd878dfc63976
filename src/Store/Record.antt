-- ===== src/Store/Record.antt =====
-- `record_scan`, `statuses_for_domain` and the row updates of db.py.
pub mod Rows
pub mod Outcome
use matrix_federation_scanne.Prelude.{
  ℕ, zero, suc, ◌+◌, ◌≡◌, refl, Bool, true, false, not, ◌&&◌, ◌||◌, Option, none, some, String,
  str_eq, List, [], ◌∷◌, if◌then◌else◌,
}
use matrix_federation_scanne.Prelude.Text.{Text, same}
use matrix_federation_scanne.Util.{strip_port}
use matrix_federation_scanne.Store.{QueueRow, ScannedRow, Store}

-- ScanRecord of db.py.
pub record ScanRecord : Type 0 where
  pub changed : Bool
  pub previous_status : Option String
  pub version_changed : Bool
  pub previous_version : Option (Option Text × Option Text)
  pub status_since : ℕ

-- The arguments of `record_scan` behind the target.
pub record Scan : Type 0 where
  pub ok : Bool
  pub status : Option String
  pub fed_observed : Bool
  pub fed_name : Option Text
  pub fed_version : Option Text

-- `SELECT ... FROM scanned WHERE scan_target = $1`.
unfoldable pub find_scanned : Text → List ScannedRow → Option ScannedRow
unfolding same
find_scanned t [] = none
find_scanned t (r ∷ rest) =
    let later = find_scanned t rest in if same r.scan_target t then some r else later

-- `COALESCE(a, b)`.
abbrev pub coalesce : Option ℕ → Option ℕ → Option ℕ
coalesce none b = b
coalesce (some a) b = some a

-- The `SET` of the `ON CONFLICT` branch: `r` is the stored row, `new` the excluded one.
unfoldable pub overwrite : Bool → ScannedRow → ScannedRow → ScannedRow
overwrite observed new r = record {
  scan_target = r.scan_target;
  domain = r.domain;
  discovered_at = r.discovered_at;
  last_scan_at = new.last_scan_at;
  last_success_at = coalesce new.last_success_at r.last_success_at;
  reg_status = new.reg_status;
  scan_count = r.scan_count + 1;
  error_streak = new.error_streak;
  status_since = new.status_since;
  fed_name = if observed then new.fed_name else r.fed_name;
  fed_version = if observed then new.fed_version else r.fed_version;
  fed_version_at = if observed then new.fed_version_at else r.fed_version_at;
}

-- `INSERT INTO scanned ... ON CONFLICT (scan_target) DO UPDATE`.
unfoldable pub upsert : Bool → ScannedRow → List ScannedRow → List ScannedRow
unfolding same overwrite
upsert observed new [] = new ∷ []
upsert observed new (r ∷ rest) =
    let later = upsert observed new rest in
    if same r.scan_target new.scan_target then overwrite observed new r ∷ rest else r ∷ later

-- `DELETE FROM scan_queue WHERE scan_target = $1`.
unfoldable pub delete_queued : Text → List QueueRow → List QueueRow
unfolding same
delete_queued t [] = []
delete_queued t (r ∷ rest) =
    let later = delete_queued t rest in if same r.scan_target t then later else r ∷ later

-- `status or "unknown"`.
abbrev pub or_unknown : Option String → String
or_unknown none = "unknown"
or_unknown (some status) = if str_eq status "" then "unknown" else status

unfoldable pub new_status : Scan → Option ScannedRow → String
new_status scan existing =
    if scan.ok
    then or_unknown scan.status
    else (elim existing [ none ↦ "unknown" | some r ↦ r.reg_status ])

unfoldable pub new_streak : Scan → Option ScannedRow → ℕ
new_streak scan existing =
    if scan.ok then 0 else (elim existing [ none ↦ 1 | some r ↦ r.error_streak + 1 ])

-- `changed` and `status_since`, from one comparison; `since or ts` takes 0 for none.
unfoldable pub transition : ℕ → String → Option ScannedRow → Bool × ℕ
transition ts status none = (true, ts)
transition ts status (some r) =
    if str_eq status r.reg_status
    then (false, elim r.status_since [ zero ↦ ts | suc n ↦ suc n ])
    else (true, ts)

abbrev pub same_option : Option Text → Option Text → Bool
same_option none none = true
same_option (some a) (some b) = same a b
same_option _ _ = false

abbrev pub stored_name : Option ScannedRow → Option Text
stored_name none = none
stored_name (some r) = r.fed_name

abbrev pub stored_version : Option ScannedRow → Option Text
stored_version none = none
stored_version (some r) = r.fed_version

abbrev pub is_none : Option Text → Bool
is_none none = true
is_none (some a) = false

unfoldable pub version_moved : Scan → Option ScannedRow → Bool
unfolding same
version_moved scan existing =
    scan.fed_observed
    && not (
        same_option scan.fed_name (stored_name existing)
        && same_option scan.fed_version (stored_version existing))
    && not (is_none scan.fed_name && is_none scan.fed_version)

-- The values of the `INSERT`.
unfoldable pub incoming : ℕ → Text → Scan → Option ScannedRow → ScannedRow
unfolding strip_port new_status new_streak transition
incoming ts t scan existing = record {
  scan_target = t;
  domain = strip_port t;
  discovered_at = ts;
  last_scan_at = ts;
  last_success_at = if scan.ok then some ts else none;
  reg_status = new_status scan existing;
  scan_count = 1;
  error_streak = new_streak scan existing;
  status_since = (transition ts (new_status scan existing) existing).1;
  fed_name = if scan.fed_observed then scan.fed_name else none;
  fed_version = if scan.fed_observed then scan.fed_version else none;
  fed_version_at = if scan.fed_observed then some ts else none;
}

unfoldable pub scan_record : ℕ → Scan → Option ScannedRow → ScanRecord
unfolding new_status transition version_moved
scan_record ts scan existing = record {
  changed = (transition ts (new_status scan existing) existing).0;
  previous_status = elim existing [ none ↦ none | some r ↦ some r.reg_status ];
  version_changed = version_moved scan existing;
  previous_version = elim existing [ none ↦ none | some r ↦ some (r.fed_name, r.fed_version) ];
  status_since = (transition ts (new_status scan existing) existing).1;
}

-- `record_scan`, at the time `ts`.
unfoldable pub record_scan : ℕ → Text → Scan → Store → Store × ScanRecord
unfolding find_scanned upsert delete_queued incoming scan_record
record_scan ts t scan s =
    let existing = find_scanned t s.scanned in
    (
      record s {
        scanned = upsert scan.fed_observed (incoming ts t scan existing) s.scanned;
        queue = delete_queued t s.queue;
      },
      scan_record ts scan existing,
    )

-- `statuses_for_domain`.
unfoldable pub statuses_for_domain : Text → List ScannedRow → List (Text × String)
unfolding same
statuses_for_domain d [] = []
statuses_for_domain d (r ∷ rest) =
    let later = statuses_for_domain d rest in
    if same r.domain d then (r.scan_target, r.reg_status) ∷ later else later
