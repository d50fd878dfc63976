-- ===== src/Store/Counts.antt =====
-- `all_statuses`, `bucket_counts`, `fed_version_counts`, `support_coverage` and `scan_totals` of
-- db.py. The groups of a GROUP BY come in the order of the database; here the last row's is first.
pub mod Totals
pub mod Groups
use matrix_federation_scanne.Prelude.{
  ℕ, ◌+◌, ◌-◌, Bool, not, ◌&&◌, Option, none, some, String, str_eq, List, [], ◌∷◌, if◌then◌else◌,
  length, any,
}
use matrix_federation_scanne.Prelude.Text.{Text, same}
use matrix_federation_scanne.Store.{ScannedRow, SupportRow, Store}

unfoldable pub all_statuses : List ScannedRow → List (Text × (String × ℕ))
all_statuses [] = []
all_statuses (r ∷ rest) = (r.scan_target, (r.reg_status, r.status_since)) ∷ all_statuses rest

-- One more row of a status.
unfoldable pub add_status : String → List (String × ℕ) → List (String × ℕ)
add_status status [] = (status, 1) ∷ []
add_status status ((k, n) ∷ rest) =
    let later = add_status status rest in
    if str_eq k status then (k, n + 1) ∷ rest else (k, n) ∷ later

unfoldable pub bucket_counts : List ScannedRow → List (String × ℕ)
unfolding add_status
bucket_counts [] = []
bucket_counts (r ∷ rest) = add_status r.reg_status (bucket_counts rest)

-- A group of `fed_version_counts`.
pub record VersionCount : Type 0 where
  pub name : Text
  pub version : Text
  pub n : ℕ
  pub n_reachable : ℕ

-- `reg_status <> 'unknown'`.
abbrev pub is_reachable : ScannedRow → Bool
is_reachable r = not (str_eq r.reg_status "unknown")

abbrev pub or_empty : Option Text → Text
or_empty none = []
or_empty (some a) = a

-- One more row of a name and a version.
unfoldable pub add_version : Text → Text → ℕ → List VersionCount → List VersionCount
unfolding same
add_version name version reachable [] =
    record { name = name; version = version; n = 1; n_reachable = reachable } ∷ []
add_version name version reachable (g ∷ rest) =
    let later = add_version name version reachable rest in
    if same g.name name && same g.version version
    then record g { n = g.n + 1; n_reachable = g.n_reachable + reachable } ∷ rest
    else g ∷ later

unfoldable pub fed_version_counts : List ScannedRow → List VersionCount
unfolding add_version
fed_version_counts [] = []
fed_version_counts (r ∷ rest) = elim r.fed_name [
  | none ↦ fed_version_counts rest
  | some name ↦
      add_version name (or_empty r.fed_version) (if is_reachable r then 1 else 0)
        (fed_version_counts rest)
]

-- The EXISTS of `support_coverage`.
unfoldable pub has_reachable : Text → List ScannedRow → Bool
unfolding same
has_reachable domain rows = any (λ r. same r.domain domain && is_reachable r) rows

unfoldable pub count_reachable : List ScannedRow → List SupportRow → ℕ
unfolding has_reachable
count_reachable rows [] = 0
count_reachable rows (d ∷ rest) =
    (if has_reachable d.domain rows then 1 else 0) + count_reachable rows rest

unfoldable pub support_coverage : Store → ℕ × ℕ
unfolding count_reachable
support_coverage s = (length s.support, count_reachable s.scanned s.support)

-- `SUM(scan_count)`.
unfoldable pub sum_scans : List ScannedRow → ℕ
sum_scans [] = 0
sum_scans (r ∷ rest) = r.scan_count + sum_scans rest

-- `scan_totals`: first scans, rescans and all scans. `max(a - b, 0)` is the subtraction on ℕ.
unfoldable pub scan_totals : Store → ℕ × (ℕ × ℕ)
unfolding sum_scans
scan_totals s =
    let targets = length s.scanned in
    let scans = sum_scans s.scanned in (targets, (scans - targets, scans))
