-- ===== src/Store/Queue/Added.antt =====
-- What `enqueue` of db.py adds to the queue, name by name.
use matrix_federation_scanne.Prelude.{
  ◌≡◌, refl, sym, ◌∙◌, Bool, true, false, not, ◌&&◌, ◌||◌, none, List, [], ◌∷◌, ◌++◌, arith,
  Bool-cases, inl, inr,
}
use matrix_federation_scanne.Prelude.Text.{Text, contains, same}
use matrix_federation_scanne.Prelude.Text.Same.{same→eq, same_comm, contains_nil}
use matrix_federation_scanne.Store.{QueueRow, ScannedRow, Store, is_queued, is_scanned}
use matrix_federation_scanne.Store.Queue.{
  unique_from, insert_queue, insert_new, enqueue_unnest, enqueue,
}
use matrix_federation_scanne.Store.Queue.Batches.{sqlite_chunks}

pub is_queued-end :
    (u t : Text) (q : List QueueRow)
    → is_queued u (q ++ record { scan_target = t; leased_until = none } ∷ [])
      ≡ (is_queued u q || same t u)
unfolding is_queued
is_queued-end u t [] = ground arith
is_queued-end u t (r ∷ rest) = ground (arith, is_queued-end u t rest)

pub is_queued-insert :
    (u t : Text) (q : List QueueRow) → is_queued u (insert_queue t q) ≡ (is_queued u q || same t u)
unfolding insert_queue
is_queued-insert u t q = elim (Bool-cases (is_queued t q)) [
  | inr new ↦ rw new (is_queued-end u t q)
  | inl old ↦ elim (Bool-cases (same t u)) [
    | inr other ↦ ground (arith, old, other)
    | inl here ↦
        let e = same→eq t u here in
        let queued : is_queued u q ≡ true = rw e at old in ground (arith, old, queued, here)
  ]
]

same_name :
    (scanned : List ScannedRow) (t u : Text) (b : Bool)
    → is_scanned t scanned ≡ b
    → (same t u && is_scanned u scanned) ≡ (same t u && b)
same_name scanned t u b known = elim (Bool-cases (same t u)) [
  | inr other ↦ rw other refl
  | inl here ↦ let e = same→eq t u here in rw here (rw e at known)
]

is_queued-insert_new :
    (scanned : List ScannedRow) (u : Text) (ts : List Text) (q : List QueueRow)
    → is_queued u (insert_new scanned ts q)
      ≡ (is_queued u q || (contains ts u && not (is_scanned u scanned)))
unfolding insert_new contains
is_queued-insert_new scanned u [] q = ground arith
is_queued-insert_new scanned u (t ∷ ts) q = elim (Bool-cases (is_scanned t scanned)) [
  | inl known ↦ rw known (
      is_queued-insert_new scanned u ts q
      ∙ ground (arith, same_name scanned t u true known, same_comm t u))
  | inr unknown ↦ rw unknown (
      is_queued-insert_new scanned u ts (insert_queue t q)
      ∙ ground (arith, is_queued-insert u t q, same_name scanned t u false unknown, same_comm t u))
]

same_member :
    (seen : List Text) (u t : Text)
    → contains seen t ≡ true
    → (same u t && contains seen u) ≡ same u t
same_member seen u t known = elim (Bool-cases (same u t)) [
  | inr other ↦ rw other refl
  | inl here ↦ let e = same→eq u t here in rw here (rw (sym e) at known)
]

contains-unique_from :
    (u : Text) (seen ts : List Text)
    → (contains (unique_from seen ts) u || contains seen u) ≡ (contains ts u || contains seen u)
unfolding unique_from contains
contains-unique_from u seen [] = refl
contains-unique_from u seen (t ∷ ts) = elim (Bool-cases (contains seen t)) [
  | inl known ↦
      rw known (contains-unique_from u seen ts ∙ ground (arith, same_member seen u t known))
  | inr new ↦ rw new (ground (arith, contains-unique_from u (t ∷ seen) ts))
]

no_targets :
    (s : Store) (u : Text)
    → is_queued u s.queue ≡ (is_queued u s.queue || (contains [] u && not (is_scanned u s.scanned)))
unfolding contains
no_targets s u = ground arith

batch :
    (targets : List Text) (s : Store) (u : Text)
    → is_queued u (enqueue_unnest s.scanned (unique_from [] targets) s.queue)
      ≡ (is_queued u s.queue || (contains targets u && not (is_scanned u s.scanned)))
unfolding enqueue_unnest
batch targets s u =
    is_queued-insert_new s.scanned u (unique_from [] targets) s.queue
    ∙ ground (arith, contains-unique_from u [] targets, contains_nil u)

-- Behind `enqueue`, a target is queued exactly if it was queued before, or is one of the names that
-- were handed in and has no row in `scanned`.
pub is_queued-enqueue :
    (sqlite : Bool) (targets : List Text) (s : Store) (u : Text)
    → is_queued u (enqueue sqlite targets s).queue
      ≡ (is_queued u s.queue || (contains targets u && not (is_scanned u s.scanned)))
unfolding enqueue
is_queued-enqueue sqlite [] s u = no_targets s u
is_queued-enqueue true (t ∷ ts) s u =
    rw (sqlite_chunks s.scanned (unique_from [] (t ∷ ts)) s.queue) (batch (t ∷ ts) s u)
is_queued-enqueue false (t ∷ ts) s u = batch (t ∷ ts) s u
