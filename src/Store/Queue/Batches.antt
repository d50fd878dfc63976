-- ===== src/Store/Queue/Batches.antt =====
-- The two SQL dialects of `enqueue` and `pending` side by side.
use matrix_federation_scanne.Prelude.{
  ℕ, zero, suc, ◌+◌, ◌≤◌, ◌≡◌, refl, sym, ap, ◌∙◌, Bool, true, false, some, List, [], ◌∷◌, ◌++◌,
  arith, Bool-cases, inl, inr, if◌then◌else◌, length, take, drop,
}
use matrix_federation_scanne.Prelude.Text.{Text, contains, same}
use matrix_federation_scanne.Store.{QueueRow, ScannedRow, Store, is_scanned}
use matrix_federation_scanne.Store.Queue.{
  unique_from, insert_queue, insert_new, enqueue_unnest, enqueue_chunks, enqueue_sqlite, enqueue,
  lease_one, lease_each, lease_any, claimed, pending,
}

insert_new-append :
    (scanned : List ScannedRow) (xs ys : List Text) (q : List QueueRow)
    → insert_new scanned (xs ++ ys) q ≡ insert_new scanned ys (insert_new scanned xs q)
unfolding insert_new
insert_new-append scanned [] ys q = refl
insert_new-append scanned (x ∷ xs) ys q =
    insert_new-append scanned xs ys (if is_scanned x scanned then q else insert_queue x q)

take-drop {ℓ} : {A : Type ℓ} (n : ℕ) (xs : List A) → take n xs ++ drop n xs ≡ xs
take-drop zero xs = refl
take-drop (suc n) [] = refl
take-drop (suc n) (x ∷ xs) = rw (take-drop n xs) refl

length-drop {ℓ} : {A : Type ℓ} (n : ℕ) (xs : List A) → length (drop n xs) ≤ length xs
length-drop zero xs = omega arith
length-drop (suc n) [] = omega arith
length-drop (suc n) (x ∷ xs) = omega (arith, length-drop n xs)

-- Enough rounds insert every name.
enqueue_chunks_all :
    (rounds k : ℕ) (scanned : List ScannedRow) (ts : List Text) (q : List QueueRow)
    → length ts ≤ rounds
    → enqueue_chunks rounds (suc k) scanned ts q ≡ insert_new scanned ts q
unfolding enqueue_chunks
enqueue_chunks_all zero k scanned [] q enough = refl
enqueue_chunks_all zero k scanned (t ∷ ts) q enough = ground (arith, enough)
enqueue_chunks_all (suc rounds) k scanned [] q enough = refl
enqueue_chunks_all (suc rounds) k scanned (t ∷ ts) q enough =
    let rest = drop k ts in
    let first = insert_new scanned (t ∷ take k ts) q in
    enqueue_chunks_all rounds k scanned rest first (omega (arith, length-drop k ts, enough))
    ∙ sym (insert_new-append scanned (t ∷ take k ts) rest q)
    ∙ ap (λ (l : List Text). insert_new scanned (t ∷ l) q) (take-drop k ts)

pub sqlite_chunks :
    (scanned : List ScannedRow) (ts : List Text) (q : List QueueRow)
    → enqueue_sqlite scanned ts q ≡ enqueue_unnest scanned ts q
unfolding enqueue_sqlite enqueue_unnest
sqlite_chunks scanned ts q = enqueue_chunks_all (length ts) 499 scanned ts q (omega arith)

if_same {ℓ} : {A : Type ℓ} (b : Bool) (a : A) → (if b then a else a) ≡ a
if_same true a = refl
if_same false a = refl

lease_each-cons :
    (lease : ℕ) (ts : List Text) (r : QueueRow) (rest : List QueueRow)
    → lease_each lease ts (r ∷ rest)
      ≡ (if contains ts r.scan_target then record r { leased_until = some lease } else r)
        ∷ lease_each lease ts rest
unfolding lease_each contains lease_one
lease_each-cons lease [] r rest = refl
lease_each-cons lease (t ∷ ts) r rest = elim (Bool-cases (same r.scan_target t)) [
  | inl here ↦
      rw
        (
          here,
          lease_each-cons lease ts (record r { leased_until = some lease })
              (lease_one lease t rest),
          if_same (contains ts r.scan_target) (record r { leased_until = some lease }),
        )
        refl
  | inr other ↦ rw (other, lease_each-cons lease ts r (lease_one lease t rest)) refl
]

lease_each-nil : (lease : ℕ) (ts : List Text) → lease_each lease ts [] ≡ []
unfolding lease_each lease_one
lease_each-nil lease [] = refl
lease_each-nil lease (t ∷ ts) = lease_each-nil lease ts

pub lease_each-any :
    (lease : ℕ) (ts : List Text) (q : List QueueRow) → lease_each lease ts q ≡ lease_any lease ts q
unfolding lease_any
lease_each-any lease ts [] = lease_each-nil lease ts
lease_each-any lease ts (r ∷ rest) =
    rw (lease_each-cons lease ts r rest, lease_each-any lease ts rest) refl

-- The statements of SQLite and those of the other databases do the same, `enqueue` for every list
-- of targets, however many chunks it takes, and `pending` for every claim.
pub dialects_agree :
    (precedes : Text → Text → Bool) (targets : List Text) (ts limit lease_seconds : ℕ) (s : Store)
    → (enqueue true targets s ≡ enqueue false targets s)
      × (pending precedes true ts limit lease_seconds s
          ≡ pending precedes false ts limit lease_seconds s)
unfolding enqueue pending
dialects_agree precedes targets ts limit lease_seconds s = (
  rw (sqlite_chunks s.scanned (unique_from [] targets) s.queue) refl,
  rw (lease_each-any (ts + lease_seconds) (claimed precedes ts limit s.queue) s.queue) refl,
)
