-- ===== src/Store/Tests.antt =====
-- The tables of db.py at a few servers.
use matrix_federation_scanne.Prelude.{
  ℕ, ◌+◌, ◌≡◌, refl, Bool, true, false, ◌&&◌, none, some, String, List, [], ◌∷◌, arith, map, take,
  is_some, if◌then◌else◌, leb, length,
}
use matrix_federation_scanne.Prelude.Text.{Text, codes, same}
use matrix_federation_scanne.Json.{ℤ, pos}
use matrix_federation_scanne.Util.{strip_port}
use matrix_federation_scanne.Policy.Reconcile.{Env, reconcile, ban_content}
use matrix_federation_scanne.Policy.Reconcile.Guards.{WroteOnly}
use matrix_federation_scanne.Policy.Tests.{sample, world}
use matrix_federation_scanne.Policy.State.{decide}
use matrix_federation_scanne.Store.{ScannedRow, Store, empty, is_scanned}
use matrix_federation_scanne.Store.Queue.{enqueue, pending}
use matrix_federation_scanne.Store.Queue.Batches.{dialects_agree}
use matrix_federation_scanne.Store.Record.{Scan, find_scanned, record_scan, statuses_for_domain}
use matrix_federation_scanne.Store.Record.Outcome.{
  Recorded, Kept, record_scan-Recorded, record_scan-Kept,
}
use matrix_federation_scanne.Store.Overdue.{overdue, most_overdue, check_staleness, row_period}
use matrix_federation_scanne.Store.Overdue.Ranked.{count_rows, Descending, most_overdue-Descending}
use matrix_federation_scanne.Store.Counts.{sum_scans, scan_totals}
use matrix_federation_scanne.Store.Counts.Totals.{scan_totals-record_scan}
use matrix_federation_scanne.Store.Documents.{
  record_support, get_support, put_cached_psl, get_cached_psl,
}
use matrix_federation_scanne.Store.Documents.Stored.{documents_round_trip}
use matrix_federation_scanne.Store.Invariant.{Reaches, created, waited, enqueued}
use matrix_federation_scanne.Store.Pinned.{ban_pins_domain}

abbrev here : Text
here = codes "a.org"

abbrev ported : Text
ported = codes "a.org:84"

abbrev there : Text
there = codes "b.org"

-- The database's order on these names: the shorter first.
abbrev precedes : Text → Text → Bool
precedes s t = leb (length s) (length t)

abbrev found_open : Scan
found_open = record {
  ok = true;
  status = some "open";
  fed_observed = true;
  fed_name = some (codes "Synapse");
  fed_version = none;
}

abbrev failed : Scan
failed = record {
  ok = false;
  status = none;
  fed_observed = false;
  fed_name = none;
  fed_version = none;
}

abbrev queued : Store
queued = enqueue true (here ∷ there ∷ []) empty

abbrev scanned_once : Store
scanned_once = (record_scan 100 here found_open queued).0

abbrev old_row : ScannedRow
old_row = record {
  scan_target = here;
  domain = here;
  discovered_at = 100;
  last_scan_at = 100;
  last_success_at = some 100;
  reg_status = "open";
  scan_count = 1;
  error_streak = 0;
  status_since = 100;
  fed_name = some (codes "Synapse");
  fed_version = none;
  fed_version_at = some 100;
}

abbrev one_row : Store
one_row = record { queue = []; scanned = old_row ∷ []; support = []; psl_cache = none }

first_row : scanned_once.scanned ≡ old_row ∷ []
unfolding record_scan enqueue is_scanned
first_row = refl

reached : Reaches 100 queued
reached = waited 0 100 queued (omega arith) (enqueued 0 empty true (here ∷ there ∷ []) created)

record_scan-Recorded_example :
    Recorded 100 here found_open queued
      (record_scan 100 here found_open queued).0
      (record_scan 100 here found_open queued).1
record_scan-Recorded_example = record_scan-Recorded 100 here found_open queued

record_scan-Kept_example :
    Kept old_row here one_row
      (record_scan 200 here failed one_row).0
      (record_scan 200 here failed one_row).1
unfolding find_scanned
record_scan-Kept_example = record_scan-Kept 200 here failed one_row old_row refl refl

abbrev over_the_store : Env
over_the_store = record world { domain_statuses = λ d. statuses_for_domain d scanned_once.scanned }

ban_pins_domain_example :
    WroteOnly
      (λ key content w. content ≡ ban_content sample (strip_port ported))
      sample
      (reconcile over_the_store ported "closed" sample)
unfolding strip_port decide
ban_pins_domain_example =
    ban_pins_domain 100 queued here ported found_open over_the_store "closed" sample reached refl
      refl refl refl

dialects_agree_example :
    (enqueue true (here ∷ there ∷ []) one_row ≡ enqueue false (here ∷ there ∷ []) one_row)
    × (pending precedes true 100 1 60 one_row ≡ pending precedes false 100 1 60 one_row)
dialects_agree_example = dialects_agree precedes (here ∷ there ∷ []) 100 1 60 one_row

abbrev is_letter : ℕ → Bool
is_letter c = leb 97 c && leb c 122

abbrev periods : List (String × ℤ)
periods = ("open", pos 3600) ∷ ("closed", pos 36000) ∷ []

most_overdue-Descending_example :
    (rows : List ScannedRow) × (most_overdue is_letter 5000 periods 3 one_row
      ≡ overdue (map (λ (r : ScannedRow). r.scan_target) (take 3 rows)))
    × Descending 5000 (row_period periods) rows
    × ((p : ScannedRow → Bool) → count_rows p rows ≡ count_rows p one_row.scanned)
unfolding check_staleness
most_overdue-Descending_example = most_overdue-Descending is_letter 5000 periods 3 one_row refl

scan_totals-record_scan_example : scan_totals (record_scan 200 here failed one_row).0 ≡ (
    if is_some (find_scanned here one_row.scanned)
    then ((scan_totals one_row).0, ((scan_totals one_row).1.0 + 1, (scan_totals one_row).1.1 + 1))
    else ((scan_totals one_row).0 + 1, ((scan_totals one_row).1.0, (scan_totals one_row).1.1 + 1)))
unfolding sum_scans
scan_totals-record_scan_example = scan_totals-record_scan 200 here failed one_row (omega arith)

documents_round_trip_example :
    (get_support here (record_support 300 here (codes "{}") one_row) ≡ some (codes "{}", 300))
    × (get_support there (record_support 300 here (codes "{}") one_row) ≡ get_support there one_row)
    × (get_cached_psl (put_cached_psl (codes "v") none (codes "org") none 300 one_row)
        ≡ some (codes "v", (none, (codes "org", 300))))
unfolding same
documents_round_trip_example =
    documents_round_trip 300 here (codes "{}") one_row (codes "v") none (codes "org") none 300 there
      refl
