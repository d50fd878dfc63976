-- ===== src/Store/Queue.antt =====
-- `enqueue` and `pending` of db.py, in both SQL dialects.
pub mod Batches
pub mod Added
pub mod Claims
-- The order of texts in `ORDER BY scan_target` is the database's, and a parameter.
use matrix_federation_scanne.Prelude.{
  ℕ, zero, suc, ◌+◌, ◌≡◌, refl, Bool, true, false, not, ◌&&◌, ◌||◌, Option, none, some, List, [],
  ◌∷◌, ◌++◌, ltb, if◌then◌else◌, length, take, drop, is_empty,
}
use matrix_federation_scanne.Prelude.Text.{Text, contains, same}
use matrix_federation_scanne.Store.{QueueRow, ScannedRow, Store, is_queued, is_scanned}

-- `dict.fromkeys(targets)`: each name once, where it stands first.
unfoldable pub unique_from : List Text → List Text → List Text
unfolding contains
unique_from seen [] = []
unique_from seen (t ∷ ts) =
    let rest = unique_from (t ∷ seen) ts in
    if contains seen t then unique_from seen ts else t ∷ rest

-- `ON CONFLICT (scan_target) DO NOTHING`.
unfoldable pub insert_queue : Text → List QueueRow → List QueueRow
unfolding is_queued
insert_queue t q =
    if is_queued t q then q else q ++ record { scan_target = t; leased_until = none } ∷ []

-- One `INSERT ... SELECT ... WHERE NOT EXISTS` over some names. It leaves `scanned` alone.
unfoldable pub insert_new : List ScannedRow → List Text → List QueueRow → List QueueRow
unfolding is_scanned insert_queue
insert_new scanned [] q = q
insert_new scanned (t ∷ ts) q =
    insert_new scanned ts (if is_scanned t scanned then q else insert_queue t q)

-- `_enqueue_unnest`.
unfoldable pub enqueue_unnest : List ScannedRow → List Text → List QueueRow → List QueueRow
unfolding insert_new
enqueue_unnest scanned targets q = insert_new scanned targets q

abbrev pub sqlite_chunk : ℕ
sqlite_chunk = 500

-- The loop of `_enqueue_sqlite` over `range(0, len(targets), chunk)`; the fuel counts its rounds.
unfoldable pub enqueue_chunks : ℕ → ℕ → List ScannedRow → List Text → List QueueRow → List QueueRow
unfolding insert_new
enqueue_chunks zero chunk scanned targets q = q
enqueue_chunks (suc rounds) chunk scanned [] q = q
enqueue_chunks (suc rounds) chunk scanned (t ∷ ts) q =
    enqueue_chunks rounds chunk scanned (drop chunk (t ∷ ts))
      (insert_new scanned (take chunk (t ∷ ts)) q)

-- `_enqueue_sqlite`.
unfoldable pub enqueue_sqlite : List ScannedRow → List Text → List QueueRow → List QueueRow
unfolding enqueue_chunks
enqueue_sqlite scanned targets q = enqueue_chunks (length targets) sqlite_chunk scanned targets q

-- `enqueue`; `sqlite` is the test of the scheme.
unfoldable pub enqueue : Bool → List Text → Store → Store
unfolding unique_from enqueue_sqlite enqueue_unnest
enqueue sqlite targets s =
    if is_empty targets
    then s
    else if sqlite
    then record s { queue = enqueue_sqlite s.scanned (unique_from [] targets) s.queue }
    else record s { queue = enqueue_unnest s.scanned (unique_from [] targets) s.queue }

-- `leased_until IS NULL OR leased_until < $1`.
abbrev pub is_claimable : ℕ → QueueRow → Bool
is_claimable ts r = elim r.leased_until [ none ↦ true | some lease ↦ ltb lease ts ]

unfoldable pub claimable : ℕ → List QueueRow → List Text
claimable ts [] = []
claimable ts (r ∷ rest) =
    if is_claimable ts r then r.scan_target ∷ claimable ts rest else claimable ts rest

-- `UPDATE ... WHERE scan_target = $2`.
unfoldable pub lease_one : ℕ → Text → List QueueRow → List QueueRow
unfolding same
lease_one lease t [] = []
lease_one lease t (r ∷ rest) =
    (if same r.scan_target t then record r { leased_until = some lease } else r)
    ∷ lease_one lease t rest

-- The loop of the SQLite path.
unfoldable pub lease_each : ℕ → List Text → List QueueRow → List QueueRow
unfolding lease_one
lease_each lease [] q = q
lease_each lease (t ∷ ts) q = lease_each lease ts (lease_one lease t q)

-- `UPDATE ... WHERE scan_target = ANY($2)`.
unfoldable pub lease_any : ℕ → List Text → List QueueRow → List QueueRow
unfolding contains
lease_any lease ts [] = []
lease_any lease ts (r ∷ rest) =
    (if contains ts r.scan_target then record r { leased_until = some lease } else r)
    ∷ lease_any lease ts rest

module _ (precedes : Text → Text → Bool) where
  unfoldable pub insert_text : Text → List Text → List Text
  insert_text t [] = t ∷ []
  insert_text t (u ∷ us) =
      let later = insert_text t us in if precedes t u then t ∷ u ∷ us else u ∷ later

  -- `ORDER BY scan_target`.
  unfoldable pub order_texts : List Text → List Text
  unfolding insert_text
  order_texts [] = []
  order_texts (t ∷ ts) = insert_text t (order_texts ts)

  unfoldable pub claimed : ℕ → ℕ → List QueueRow → List Text
  unfolding order_texts claimable
  claimed ts limit q = take limit (order_texts (claimable ts q))

  -- `pending(limit, lease_seconds)`, at the time `ts`.
  unfoldable pub pending : Bool → ℕ → ℕ → ℕ → Store → Store × List Text
  unfolding claimed lease_each lease_any
  pending sqlite ts limit lease_seconds s =
      let targets = claimed ts limit s.queue in
      let lease = ts + lease_seconds in
      (
        record s {
          queue =
              if is_empty targets
              then s.queue
              else if sqlite
              then lease_each lease targets s.queue
              else lease_any lease targets s.queue;
        },
        targets,
      )

-- `queue_depth`.
unfoldable pub queue_depth : Store → ℕ
queue_depth s = length s.queue
