-- ===== src/Resolver/Srv/Weight.antt =====
-- The weighted pick of `_order_srv` and records of weight zero.
use matrix_federation_scanne.Prelude.{
  ℕ, suc, ◌+◌, ◌≤◌, ◌<◌, ◌≡◌, refl, ap, false, some, List, [], ◌∷◌, arith, Bool-cases, inl, inr,
  ltb, ◌==◌, ltb→lt,
}
use matrix_federation_scanne.Resolver.Srv.{
  Srv, Random, total_weight, pick_from, weighted_pick_index, pop,
}

-- `pop` takes out a record with a weight.
abbrev pub PicksWeight : ℕ → List Srv → Type 0
PicksWeight k l = (x : Srv) × (left : List Srv) × (pop k l ≡ some (x, left)) × (0 < x.weight)

PicksWeight-suc :
    (k : ℕ) (r : Srv) (rest : List Srv) → PicksWeight k rest → PicksWeight (suc k) (r ∷ rest)
unfolding pop
PicksWeight-suc k r rest (x, left, e, heavy) = (x, r ∷ left, rw (e, pop) refl, heavy)

-- The loop ends at a record with a weight, where the draw is below the total.
pick_from-PicksWeight :
    (pick upto i : ℕ) (l : List Srv)
    → upto ≤ pick
    → pick < upto + total_weight l
    → (k : ℕ) × (pick_from pick upto i l ≡ some (i + k)) × PicksWeight k l
unfolding pick_from total_weight pop
pick_from-PicksWeight pick upto i [] le lt = absurd (omega (arith, le, lt))
pick_from-PicksWeight pick upto i (r ∷ rest) le lt =
    elim (Bool-cases (ltb pick (upto + r.weight))) [
      | inl here ↦
          let below = ltb→lt pick (upto + r.weight) here in
          (
            0,
            rw (here, pick_from) (ap some (omega arith)),
            (r, rest, refl, omega (arith, le, below)),
          )
      | inr later ↦
          let (k, e, picked) =
            pick_from-PicksWeight pick (upto + r.weight) (suc i) rest (ground (arith, later))
              (omega (arith, lt)) in
          (suc k, rw (later, e, pick_from) (ap some (omega arith)), PicksWeight-suc k r rest picked)
    ]

-- Where the draw of `uniform` is below the total of the weights, `_weighted_pick_index` picks a
-- record whose weight is not zero.
pub weighted_pick_index-PicksWeight :
    (random : Random) (n : ℕ) (records : List Srv)
    → random.uniform n (total_weight records) < total_weight records
    → PicksWeight (weighted_pick_index random n records) records
unfolding weighted_pick_index
weighted_pick_index-PicksWeight random n records lt =
    let (k, e, picked) =
      pick_from-PicksWeight (random.uniform n (total_weight records)) 0 0 records (omega arith)
        (omega (arith, lt)) in
    let some_weight : (total_weight records == 0) ≡ false = ground (arith, lt) in
    let at_zero : 0 + k ≡ k = omega arith in
    rw (some_weight, e, weighted_pick_index) (rw at_zero picked)
