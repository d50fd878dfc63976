-- ===== src/Store/Record/Rows.antt =====
-- What an upsert and a delete of db.py leave in their tables, key by key.
use matrix_federation_scanne.Prelude.{
  ◌≡◌, refl, sym, ap, ◌∙◌, Bool, false, Option, none, some, List, [], ◌∷◌, Bool-cases, inl, inr,
}
use matrix_federation_scanne.Prelude.Text.{Text, same}
use matrix_federation_scanne.Prelude.Text.Same.{same_refl, same→eq}
use matrix_federation_scanne.Store.{QueueRow, ScannedRow, is_queued}
use matrix_federation_scanne.Store.Record.{
  find_scanned, overwrite, upsert, delete_queued, statuses_for_domain,
}

-- The row of a key behind an upsert of that key.
abbrev pub merged : Bool → ScannedRow → Option ScannedRow → ScannedRow
merged observed new none = new
merged observed new (some r) = overwrite observed new r

module _ (observed : Bool) (new : ScannedRow) where
  pub find-upsert :
      (rows : List ScannedRow)
      → find_scanned new.scan_target (upsert observed new rows)
        ≡ some (merged observed new (find_scanned new.scan_target rows))
  unfolding find_scanned upsert overwrite
  find-upsert [] = rw (same_refl new.scan_target) refl
  find-upsert (r ∷ rest) = elim (Bool-cases (same r.scan_target new.scan_target)) [
    | inl here ↦ rw (here, here) refl
    | inr other ↦ rw (other, other, find-upsert rest) refl
  ]

  pub find-upsert-other :
      (u : Text) (rows : List ScannedRow)
      → same new.scan_target u ≡ false
      → find_scanned u (upsert observed new rows) ≡ find_scanned u rows
  unfolding find_scanned upsert overwrite
  find-upsert-other u [] other = rw other refl
  find-upsert-other u (r ∷ rest) other = elim (Bool-cases (same r.scan_target new.scan_target)) [
    | inl here ↦
        let e = same→eq r.scan_target new.scan_target here in
        let apart : same r.scan_target u ≡ false = rw e other in rw (here, apart) refl
    | inr elsewhere ↦ rw (elsewhere, find-upsert-other u rest other) refl
  ]

pub is_queued-delete : (t : Text) (q : List QueueRow) → is_queued t (delete_queued t q) ≡ false
unfolding is_queued delete_queued
is_queued-delete t [] = refl
is_queued-delete t (r ∷ rest) = elim (Bool-cases (same r.scan_target t)) [
  | inl here ↦ rw here (is_queued-delete t rest)
  | inr other ↦ rw (other, other) (is_queued-delete t rest)
]

pub is_queued-delete-other :
    (t u : Text) (q : List QueueRow)
    → same t u ≡ false
    → is_queued u (delete_queued t q) ≡ is_queued u q
unfolding is_queued delete_queued
is_queued-delete-other t u [] other = refl
is_queued-delete-other t u (r ∷ rest) other = elim (Bool-cases (same r.scan_target t)) [
  | inl here ↦
      let e = same→eq r.scan_target t here in
      let apart : same r.scan_target u ≡ false = rw e other in
      rw (here, apart) (is_queued-delete-other t u rest other)
  | inr elsewhere ↦ rw (elsewhere, is_queued-delete-other t u rest other) refl
]

-- An upsert that keeps the status of a stored row.
pub statuses-upsert :
    (observed : Bool) (new old : ScannedRow) (d : Text) (rows : List ScannedRow)
    → find_scanned new.scan_target rows ≡ some old
    → new.reg_status ≡ old.reg_status
    → statuses_for_domain d (upsert observed new rows) ≡ statuses_for_domain d rows
unfolding find_scanned upsert overwrite statuses_for_domain
statuses-upsert observed new old d [] found keeps = cc
statuses-upsert observed new old d (r ∷ rest) found keeps =
    elim (Bool-cases (same r.scan_target new.scan_target)) [
      | inl here ↦
          let e : r ≡ old = cc (rw here at found) in
          let status : new.reg_status ≡ r.reg_status =
            keeps ∙ sym (ap (λ (x : ScannedRow). x.reg_status) e) in
          rw (here, status) refl
      | inr other ↦
          rw (other, statuses-upsert observed new old d rest (rw other at found) keeps) refl
    ]
