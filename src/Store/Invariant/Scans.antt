-- ===== src/Store/Invariant/Scans.antt =====
-- `record_scan` of db.py and the rows of `scanned`.
use matrix_federation_scanne.Prelude.{
  ℕ, zero, suc, ◌≤◌, ◌≡◌, refl, sym, ◌∙◌, Bool, ◌||◌, Option, none, some, String, str_eq, List, [],
  ◌∷◌, arith, Bool-cases, inl, inr,
}
use mathlib.Core.Path.{subst}
use matrix_federation_scanne.Prelude.Text.{Text, same}
use matrix_federation_scanne.Prelude.Text.Same.{same→eq, same_comm}
use matrix_federation_scanne.Util.{strip_port}
use matrix_federation_scanne.Store.{ScannedRow, Store, is_scanned}
use matrix_federation_scanne.Store.Record.{
  Scan, find_scanned, overwrite, upsert, incoming, new_status, transition, record_scan,
}
use matrix_federation_scanne.Store.Invariant.{RowOk, RowsOk}

pub is_scanned-upsert :
    (u : Text) (observed : Bool) (new : ScannedRow) (rows : List ScannedRow)
    → is_scanned u (upsert observed new rows) ≡ (is_scanned u rows || same new.scan_target u)
unfolding is_scanned upsert overwrite
is_scanned-upsert u observed new [] = ground arith
is_scanned-upsert u observed new (r ∷ rest) =
    elim (Bool-cases (same r.scan_target new.scan_target)) [
      | inl here ↦
          let e = same→eq r.scan_target new.scan_target here in rw here (rw (sym e) (ground arith))
      | inr other ↦ rw other (ground (arith, is_scanned-upsert u observed new rest))
    ]

-- The rows a scan writes at the time `ts`: what holds of the values of the `INSERT`.
record Incoming (ts : ℕ) (new : ScannedRow) : Type 0 where
  derived : new.domain ≡ strip_port new.scan_target
  counted : new.scan_count ≡ 1
  since : new.status_since ≤ ts
  discovered : new.discovered_at ≡ ts
  last : new.last_scan_at ≡ ts

new-RowOk : (ts : ℕ) (new : ScannedRow) → Incoming ts new → RowOk ts new
new-RowOk ts new h = record {
  derived = h.derived;
  counted = omega (arith, h.counted);
  since = omega (arith, h.since, h.last);
  discovered = omega (arith, h.discovered, h.last);
  past = omega (arith, h.last);
}

overwrite-RowOk :
    (clock ts : ℕ) (observed : Bool) (new r : ScannedRow)
    → clock ≤ ts
    → Incoming ts new
    → RowOk clock r
    → RowOk ts (overwrite observed new r)
unfolding overwrite
overwrite-RowOk clock ts observed new r later h ok = record {
  derived = ok.derived;
  counted = omega (arith, ok.counted);
  since = omega (arith, h.since, h.last);
  discovered = omega (arith, ok.discovered, ok.past, h.last, later);
  past = omega (arith, h.last);
}

pub later-RowOk : (clock ts : ℕ) (r : ScannedRow) → clock ≤ ts → RowOk clock r → RowOk ts r
later-RowOk clock ts r later ok = record {
  derived = ok.derived;
  counted = ok.counted;
  since = ok.since;
  discovered = ok.discovered;
  past = omega (arith, ok.past, later);
}

pub later-RowsOk :
    (clock ts : ℕ) (rows : List ScannedRow) → clock ≤ ts → RowsOk clock rows → RowsOk ts rows
later-RowsOk clock ts [] later ok = tt
later-RowsOk clock ts (r ∷ rest) later ok =
    (later-RowOk clock ts r later ok.0, ok.1, later-RowsOk clock ts rest later ok.2)

upsert-RowsOk :
    (clock : ℕ) (observed : Bool) (new : ScannedRow) (rows : List ScannedRow)
    → Incoming clock new
    → RowsOk clock rows
    → RowsOk clock (upsert observed new rows)
unfolding upsert overwrite is_scanned
upsert-RowsOk clock observed new [] h ok = (new-RowOk clock new h, refl, tt)
upsert-RowsOk clock observed new (r ∷ rest) h ok =
    elim (Bool-cases (same r.scan_target new.scan_target)) [
      | inl here ↦
          rw here (overwrite-RowOk clock clock observed new r (omega arith) h ok.0, ok.1, ok.2)
      | inr other ↦ rw other (
        ok.0,
        is_scanned-upsert r.scan_target observed new rest
            ∙ ground (arith, ok.1, other, same_comm r.scan_target new.scan_target),
        upsert-RowsOk clock observed new rest h ok.2,
      )
    ]

pub find-RowOk :
    (clock : ℕ) (t : Text) (r : ScannedRow) (rows : List ScannedRow)
    → RowsOk clock rows
    → find_scanned t rows ≡ some r
    → RowOk clock r × (r.scan_target ≡ t)
unfolding find_scanned
find-RowOk clock t r [] ok found = cc found
find-RowOk clock t r (q ∷ rest) ok found = elim (Bool-cases (same q.scan_target t)) [
  | inl here ↦
      let e : q ≡ r = cc (rw here at found) in
      subst (λ x. RowOk clock x × (x.scan_target ≡ t)) e (ok.0, same→eq q.scan_target t here)
  | inr other ↦ find-RowOk clock t r rest ok.2 (rw other at found)
]

since_past :
    (clock : ℕ) (status : String) (existing : Option ScannedRow)
    → ((r : ScannedRow) → existing ≡ some r → r.status_since ≤ clock)
    → (transition clock status existing).1 ≤ clock
unfolding transition
since_past clock status none past = omega arith
since_past clock status (some r) past = elim (Bool-cases (str_eq status r.reg_status)) [
  | inr moved ↦ rw moved (omega arith)
  | inl still ↦ rw still (or_clock r.status_since (past r refl))
]
  where
    or_clock : (n : ℕ) → n ≤ clock → (elim n [ zero ↦ clock | suc k ↦ suc k ]) ≤ clock
    or_clock zero h = omega arith
    or_clock (suc k) h = h

pub record_scan-RowsOk :
    (clock : ℕ) (t : Text) (scan : Scan) (s : Store)
    → RowsOk clock s.scanned
    → RowsOk clock (record_scan clock t scan s).0.scanned
unfolding record_scan incoming
record_scan-RowsOk clock t scan s ok =
    let existing = find_scanned t s.scanned in
    upsert-RowsOk clock scan.fed_observed (incoming clock t scan existing) s.scanned
      (record {
        derived = refl;
        counted = refl;
        discovered = refl;
        last = refl;
        since = since_past clock (new_status scan existing) existing λ r found.
            let row = (find-RowOk clock t r s.scanned ok found).0 in
            omega (arith, row.since, row.past);
      })
      ok
