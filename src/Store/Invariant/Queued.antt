-- ===== src/Store/Invariant/Queued.antt =====
-- The queue of db.py beside `scanned`.
use matrix_federation_scanne.Prelude.{
  ℕ, ◌+◌, ◌≡◌, refl, ◌∙◌, Bool, true, false, none, List, [], ◌∷◌, ◌++◌, arith, Bool-cases, inl, inr,
}
use matrix_federation_scanne.Prelude.Text.{Text, same, contains}
use matrix_federation_scanne.Prelude.Text.Same.{same_comm}
use matrix_federation_scanne.Store.{QueueRow, ScannedRow, Store, is_queued, is_scanned}
use matrix_federation_scanne.Store.Queue.{
  unique_from, insert_queue, insert_new, enqueue_unnest, enqueue, lease_any, claimed, pending,
}
use matrix_federation_scanne.Store.Queue.Batches.{sqlite_chunks}
use matrix_federation_scanne.Store.Queue.Added.{is_queued-end}
use matrix_federation_scanne.Store.Queue.Claims.{queue_behind}
use matrix_federation_scanne.Store.Record.{
  Scan, find_scanned, upsert, delete_queued, incoming, record_scan,
}
use matrix_federation_scanne.Store.Record.Rows.{is_queued-delete-other}
use matrix_federation_scanne.Store.Invariant.{QueueOk}
use matrix_federation_scanne.Store.Invariant.Scans.{is_scanned-upsert}

same_queue :
    (lease : ℕ) (ts : List Text) (u : Text) (q : List QueueRow)
    → is_queued u (lease_any lease ts q) ≡ is_queued u q
unfolding lease_any is_queued
same_queue lease ts u [] = refl
same_queue lease ts u (r ∷ rest) = elim (Bool-cases (contains ts r.scan_target)) [
  | inl now_leased ↦ rw (now_leased, same_queue lease ts u rest) refl
  | inr other ↦ rw (other, same_queue lease ts u rest) refl
]

module _ (rows : List ScannedRow) where
  QueueOk-end :
      (t : Text) (q : List QueueRow)
      → is_scanned t rows ≡ false
      → is_queued t q ≡ false
      → QueueOk rows q
      → QueueOk rows (q ++ record { scan_target = t; leased_until = none } ∷ [])
  unfolding is_queued
  QueueOk-end t [] new absent ok = (new, refl, tt)
  QueueOk-end t (r ∷ rest) new absent ok = (
    ok.0,
    is_queued-end r.scan_target t rest ∙ ground (arith, ok.1, absent, same_comm r.scan_target t),
    QueueOk-end t rest new (ground (arith, absent)) ok.2,
  )

  insert_new-QueueOk :
      (ts : List Text) (q : List QueueRow) → QueueOk rows q → QueueOk rows (insert_new rows ts q)
  unfolding insert_new insert_queue
  insert_new-QueueOk [] q ok = ok
  insert_new-QueueOk (t ∷ ts) q ok = elim (Bool-cases (is_scanned t rows)) [
    | inl known ↦ rw known (insert_new-QueueOk ts q ok)
    | inr new ↦ elim (Bool-cases (is_queued t q)) [
      | inl old ↦ rw (new, old) (insert_new-QueueOk ts q ok)
      | inr absent ↦
          rw (new, absent)
            (insert_new-QueueOk ts (q ++ record { scan_target = t; leased_until = none } ∷ [])
              (QueueOk-end t q new absent ok))
    ]
  ]

  lease_any-QueueOk :
      (lease : ℕ) (ts : List Text) (q : List QueueRow)
      → QueueOk rows q
      → QueueOk rows (lease_any lease ts q)
  unfolding lease_any
  lease_any-QueueOk lease ts [] ok = tt
  lease_any-QueueOk lease ts (r ∷ rest) ok = elim (Bool-cases (contains ts r.scan_target)) [
    | inl now_leased ↦
        rw now_leased (
          ok.0,
          same_queue lease ts r.scan_target rest ∙ ok.1,
          lease_any-QueueOk lease ts rest ok.2,
        )
    | inr other ↦
        rw other (
          ok.0,
          same_queue lease ts r.scan_target rest ∙ ok.1,
          lease_any-QueueOk lease ts rest ok.2,
        )
  ]

pub enqueue-QueueOk :
    (sqlite : Bool) (targets : List Text) (s : Store)
    → QueueOk s.scanned s.queue
    → QueueOk (enqueue sqlite targets s).scanned (enqueue sqlite targets s).queue
unfolding enqueue enqueue_unnest
enqueue-QueueOk sqlite [] s ok = ok
enqueue-QueueOk true (t ∷ ts) s ok =
    rw (sqlite_chunks s.scanned (unique_from [] (t ∷ ts)) s.queue)
      (insert_new-QueueOk s.scanned (unique_from [] (t ∷ ts)) s.queue ok)
enqueue-QueueOk false (t ∷ ts) s ok =
    insert_new-QueueOk s.scanned (unique_from [] (t ∷ ts)) s.queue ok

pub enqueue-scanned :
    (sqlite : Bool) (targets : List Text) (s : Store)
    → (enqueue sqlite targets s).scanned ≡ s.scanned
unfolding enqueue
enqueue-scanned sqlite [] s = refl
enqueue-scanned true (t ∷ ts) s = refl
enqueue-scanned false (t ∷ ts) s = refl

pub pending-QueueOk :
    (precedes : Text → Text → Bool) (sqlite : Bool) (ts limit lease_seconds : ℕ) (s : Store)
    → QueueOk s.scanned s.queue
    → QueueOk s.scanned (pending precedes sqlite ts limit lease_seconds s).0.queue
unfolding pending
pending-QueueOk precedes sqlite ts limit lease_seconds s ok =
    let lease = ts + lease_seconds in
    let targets = claimed precedes ts limit s.queue in
    rw (queue_behind sqlite lease targets s.queue)
      (lease_any-QueueOk s.scanned lease targets s.queue ok)

delete-QueueOk :
    (observed : Bool) (new : ScannedRow) (rows : List ScannedRow) (q : List QueueRow)
    → QueueOk rows q
    → QueueOk (upsert observed new rows) (delete_queued new.scan_target q)
unfolding delete_queued
delete-QueueOk observed new rows [] ok = tt
delete-QueueOk observed new rows (r ∷ rest) ok =
    let later = delete-QueueOk observed new rows rest ok.2 in
    elim (Bool-cases (same r.scan_target new.scan_target)) [
      | inl here ↦ rw here later
      | inr other ↦
          let apart = same_comm r.scan_target new.scan_target in
          rw other (
            is_scanned-upsert r.scan_target observed new rows ∙ ground (arith, ok.0, other, apart),
            is_queued-delete-other new.scan_target r.scan_target rest (ground (arith, other, apart))
                ∙ ok.1,
            later,
          )
    ]

pub record_scan-QueueOk :
    (ts : ℕ) (t : Text) (scan : Scan) (s : Store)
    → QueueOk s.scanned s.queue
    → QueueOk (record_scan ts t scan s).0.scanned (record_scan ts t scan s).0.queue
unfolding record_scan incoming
record_scan-QueueOk ts t scan s ok =
    delete-QueueOk scan.fed_observed (incoming ts t scan (find_scanned t s.scanned)) s.scanned
      s.queue ok
