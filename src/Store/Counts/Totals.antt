-- ===== src/Store/Counts/Totals.antt =====
-- `scan_totals` of db.py beside `record_scan`.
use matrix_federation_scanne.Prelude.{
  ℕ, suc, ◌+◌, ◌≤◌, ◌≡◌, refl, Bool, List, [], ◌∷◌, arith, Bool-cases, inl, inr, if◌then◌else◌,
  length, is_some,
}
use matrix_federation_scanne.Prelude.Text.{Text}
use matrix_federation_scanne.Store.{ScannedRow, Store}
use matrix_federation_scanne.Store.Record.{
  Scan, find_scanned, upsert, overwrite, incoming, record_scan,
}
use matrix_federation_scanne.Store.Counts.{sum_scans, scan_totals}

length-upsert :
    (observed : Bool) (new : ScannedRow) (rows : List ScannedRow)
    → length (upsert observed new rows)
      ≡ (if is_some (find_scanned new.scan_target rows) then length rows else suc (length rows))
unfolding find_scanned upsert
length-upsert observed new [] = refl
length-upsert observed new (r ∷ rest) = ground (arith, length-upsert observed new rest)

sum_scans-upsert :
    (observed : Bool) (new : ScannedRow) (rows : List ScannedRow)
    → new.scan_count ≡ 1
    → sum_scans (upsert observed new rows) ≡ sum_scans rows + 1
unfolding find_scanned upsert overwrite sum_scans
sum_scans-upsert observed new [] one = omega (arith, one)
sum_scans-upsert observed new (r ∷ rest) one =
    ground (arith, one, sum_scans-upsert observed new rest one)

triple : {a b c d e f : ℕ} → a ≡ d → b ≡ e → c ≡ f → Path (ℕ × (ℕ × ℕ)) (a, (b, c)) (d, (e, f))
triple p q r = rw (p, q, r) refl

-- Where no row counts fewer scans than one, a scan of a new target adds one to the first scans, a
-- scan of a target with a row adds one to the rescans, and each adds one to all scans.
pub scan_totals-record_scan :
    (ts : ℕ) (t : Text) (scan : Scan) (s : Store)
    → length s.scanned ≤ sum_scans s.scanned
    → scan_totals (record_scan ts t scan s).0 ≡ (
        if is_some (find_scanned t s.scanned)
        then ((scan_totals s).0, ((scan_totals s).1.0 + 1, (scan_totals s).1.1 + 1))
        else ((scan_totals s).0 + 1, ((scan_totals s).1.0, (scan_totals s).1.1 + 1)))
unfolding scan_totals record_scan incoming
scan_totals-record_scan ts t scan s ge =
    let new = incoming ts t scan (find_scanned t s.scanned) in
    let rows = length-upsert scan.fed_observed new s.scanned in
    let sums = sum_scans-upsert scan.fed_observed new s.scanned refl in
    elim (Bool-cases (is_some (find_scanned t s.scanned))) [
      | inl old ↦
          rw old
            (rw (sums, rw old at rows) (triple (omega arith) (omega (arith, ge)) (omega arith)))
      | inr fresh ↦
          rw fresh
            (rw (sums, rw fresh at rows) (triple (omega arith) (omega (arith, ge)) (omega arith)))
    ]
