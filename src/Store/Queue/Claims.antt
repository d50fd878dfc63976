-- ===== src/Store/Queue/Claims.antt =====
-- The claims of `pending` of db.py and their leases.
use matrix_federation_scanne.Prelude.{
  ℕ, zero, suc, ◌≡◌, refl, sym, ◌∙◌, Bool, true, false, ◌&&◌, ◌||◌, List, [], ◌∷◌, arith,
  Bool-cases, inl, inr, leb, if◌then◌else◌, length, take, is_empty,
}
use matrix_federation_scanne.Prelude.Text.{Text, contains, same}
use matrix_federation_scanne.Prelude.Text.Same.{same_comm, contains_nil}
use matrix_federation_scanne.Store.{QueueRow, Store, is_queued}
use matrix_federation_scanne.Store.Queue.{
  is_claimable, claimable, lease_each, lease_any, insert_text, order_texts, claimed, pending,
}
use matrix_federation_scanne.Store.Queue.Batches.{lease_each-any}

length-take {ℓ} :
    {A : Type ℓ} (n : ℕ) (xs : List A)
    → length (take n xs) ≡ (if leb n (length xs) then n else length xs)
length-take zero xs = ground arith
length-take (suc n) [] = ground arith
length-take (suc n) (x ∷ xs) = ground (arith, length-take n xs)

contains-take :
    (n : ℕ) (t : Text) (xs : List Text) → contains xs t ≡ false → contains (take n xs) t ≡ false
unfolding contains
contains-take zero t xs h = refl
contains-take (suc n) t [] h = refl
contains-take (suc n) t (x ∷ xs) h = ground (arith, h, contains-take n t xs)

module _ (precedes : Text → Text → Bool) where
  contains-insert :
      (t u : Text) (xs : List Text)
      → contains (insert_text precedes u xs) t ≡ (same t u || contains xs t)
  unfolding insert_text contains
  contains-insert t u [] = refl
  contains-insert t u (x ∷ xs) = elim (Bool-cases (precedes u x)) [
    | inl before ↦ rw before refl
    | inr after ↦ rw after (ground (arith, contains-insert t u xs))
  ]

  contains-order :
      (t : Text) (xs : List Text) → contains (order_texts precedes xs) t ≡ contains xs t
  unfolding order_texts contains
  contains-order t [] = refl
  contains-order t (x ∷ xs) =
      ground (arith, contains-insert t x (order_texts precedes xs), contains-order t xs)

  length-insert : (u : Text) (xs : List Text) → length (insert_text precedes u xs) ≡ suc (length xs)
  unfolding insert_text
  length-insert u [] = refl
  length-insert u (x ∷ xs) = ground (arith, length-insert u xs)

  length-order : (xs : List Text) → length (order_texts precedes xs) ≡ length xs
  unfolding order_texts
  length-order [] = refl
  length-order (x ∷ xs) = omega (arith, length-insert x (order_texts precedes xs), length-order xs)

contains-claim :
    (b : Bool) (t u : Text) (xs : List Text)
    → contains (if b then u ∷ xs else xs) t ≡ ((b && same t u) || contains xs t)
unfolding contains
contains-claim true t u xs = refl
contains-claim false t u xs = refl

unqueued :
    (ts : ℕ) (t : Text) (q : List QueueRow)
    → is_queued t q ≡ false
    → contains (claimable ts q) t ≡ false
unfolding claimable is_queued
unqueued ts t [] h = contains_nil t
unqueued ts t (r ∷ rest) h =
    contains-claim (is_claimable ts r) t r.scan_target (claimable ts rest)
    ∙ ground (arith, h, same_comm t r.scan_target, unqueued ts t rest)

lease_any-nil : (lease : ℕ) (q : List QueueRow) → lease_any lease [] q ≡ q
unfolding lease_any contains
lease_any-nil lease [] = refl
lease_any-nil lease (r ∷ rest) = rw (lease_any-nil lease rest) refl

-- The queue behind a claim.
pub queue_behind :
    (sqlite : Bool) (lease : ℕ) (targets : List Text) (q : List QueueRow)
    → (if is_empty targets
        then q
        else if sqlite
        then lease_each lease targets q
        else lease_any lease targets q)
      ≡ lease_any lease targets q
queue_behind sqlite lease [] q = sym (lease_any-nil lease q)
queue_behind true lease (t ∷ ts) q = lease_each-any lease (t ∷ ts) q
queue_behind false lease (t ∷ ts) q = refl

module _ (precedes : Text → Text → Bool) where
  unclaimed :
      (ts limit : ℕ) (t : Text) (q : List QueueRow)
      → contains (claimable ts q) t ≡ false
      → contains (claimed precedes ts limit q) t ≡ false
  unfolding claimed
  unclaimed ts limit t q none_left =
      contains-take limit t (order_texts precedes (claimable ts q))
        (contains-order precedes t (claimable ts q) ∙ none_left)

  -- A claim takes as many rows as can be claimed, up to its limit.
  pub pending_size :
      (sqlite : Bool) (ts limit lease_seconds : ℕ) (s : Store)
      → length (pending precedes sqlite ts limit lease_seconds s).1 ≡ (
          if leb limit (length (claimable ts s.queue))
          then limit
          else length (claimable ts s.queue))
  unfolding pending claimed
  pending_size sqlite ts limit lease_seconds s =
      rw (sym (length-order precedes (claimable ts s.queue)))
        (length-take limit (order_texts precedes (claimable ts s.queue)))

  pub unqueued-unclaimed :
      (sqlite : Bool) (ts limit lease_seconds : ℕ) (s : Store) (t : Text)
      → is_queued t s.queue ≡ false
      → contains (pending precedes sqlite ts limit lease_seconds s).1 t ≡ false
  unfolding pending
  unqueued-unclaimed sqlite ts limit lease_seconds s t absent =
      unclaimed ts limit t s.queue (unqueued ts t s.queue absent)
