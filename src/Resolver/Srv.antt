-- ===== src/Resolver/Srv.antt =====
-- `_order_srv` and `_weighted_pick_index` of resolver.py.
-- The generator of random numbers is a parameter. A draw of `uniform` counts by its whole part: it
-- is only compared with whole numbers, by `<`.
pub mod Band
pub mod Priorities
pub mod Order
pub mod Weight
mod Tests
use matrix_federation_scanne.Prelude.{
  ℕ, zero, suc, ◌+◌, ◌-◌, ◌≡◌, refl, Bool, true, false, Option, none, some, List, [], ◌∷◌, ◌++◌,
  ltb, ◌==◌, if◌then◌else◌, length, ◌>>=◌,
}
use matrix_federation_scanne.Prelude.Text.{Text}

pub record Srv : Type 0 where
  pub priority : ℕ
  pub weight : ℕ
  pub port : ℕ
  pub target : Text

-- What the generator gives as its n-th draw.
pub record Random : Type 0 where
  pub uniform : ℕ → ℕ → ℕ
  pub randrange : ℕ → ℕ → ℕ

unfoldable pub total_weight : List Srv → ℕ
total_weight [] = 0
total_weight (r ∷ rest) = r.weight + total_weight rest

-- The loop over the records, at index `i` and with the weights so far; `none` where it ends.
unfoldable pub pick_from : ℕ → ℕ → ℕ → List Srv → Option ℕ
pick_from pick upto i [] = none
pick_from pick upto i (r ∷ rest) =
    let later = pick_from pick (upto + r.weight) (suc i) rest in
    if ltb pick (upto + r.weight) then some i else later

-- `_weighted_pick_index`, at the n-th draw.
unfoldable pub weighted_pick_index : Random → ℕ → List Srv → ℕ
unfolding total_weight pick_from
weighted_pick_index random n records =
    if total_weight records == 0
    then random.randrange n (length records)
    else (elim (pick_from (random.uniform n (total_weight records)) 0 0 records) [
      | some i ↦ i
      | none ↦ length records - 1
    ])

-- `band.pop(i)`; `none` is the IndexError.
unfoldable pub pop : ℕ → List Srv → Option (Srv × List Srv)
pop i [] = none
pop zero (r ∷ rest) = some (r, rest)
pop (suc i) (r ∷ rest) = elim (pop i rest) [ none ↦ none | some (x, left) ↦ some (x, r ∷ left) ]

-- `while band:`. The fuel is the length of the band; `none` is an exception.
unfoldable pub order_band : ℕ → Random → ℕ → List Srv → Option (List Srv)
unfolding weighted_pick_index pop
order_band fuel random n [] = some []
order_band zero random n (r ∷ rest) = none
order_band (suc fuel) random n (r ∷ rest) = do
  (x, left) ← pop (weighted_pick_index random n (r ∷ rest)) (r ∷ rest)
  ordered ← order_band fuel random (suc n) left
  some (x ∷ ordered)

-- `by_priority[priority]`.
unfoldable pub band_of : ℕ → List Srv → List Srv
band_of priority [] = []
band_of priority (r ∷ rest) =
    if r.priority == priority then r ∷ band_of priority rest else band_of priority rest

-- A sorted list without repetitions, with one number more.
unfoldable pub insert_priority : ℕ → List ℕ → List ℕ
insert_priority p [] = p ∷ []
insert_priority p (q ∷ rest) =
    let later = insert_priority p rest in
    if p == q then q ∷ rest else if ltb p q then p ∷ q ∷ rest else q ∷ later

-- `sorted(by_priority)`.
unfoldable pub priorities : List Srv → List ℕ
unfolding insert_priority
priorities [] = []
priorities (r ∷ rest) = insert_priority r.priority (priorities rest)

-- The loop over the priorities.
unfoldable pub order_bands : Random → ℕ → List Srv → List ℕ → Option (List Srv)
unfolding order_band band_of
order_bands random n records [] = some []
order_bands random n records (p ∷ ps) = do
  band ← order_band (length (band_of p records)) random n (band_of p records)
  later ← order_bands random (n + length (band_of p records)) records ps
  some (band ++ later)

-- `_order_srv`.
unfoldable pub order_srv : Random → List Srv → Option (List Srv)
unfolding order_bands priorities
order_srv random records = order_bands random 0 records (priorities records)
