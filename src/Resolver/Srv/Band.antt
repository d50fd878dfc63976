-- ===== src/Resolver/Srv/Band.antt =====
-- A band of SRV records under the weighted selection without replacement.
use matrix_federation_scanne.Prelude.{
  ℕ, zero, suc, ◌+◌, ◌≤◌, ◌<◌, ◌≡◌, refl, inl, inr, Bool, some, List, [], ◌∷◌, ◌++◌, arith,
  Bool-cases, Option-cases, ◌==◌, if◌then◌else◌, length,
}
use matrix_federation_scanne.Resolver.Srv.{
  Srv, Random, total_weight, pick_from, weighted_pick_index, pop, order_band,
}

-- What is documented of the generator: `uniform(0, t)` is at most `t`, and `randrange(n)` is below `n`.
pub record InRange (random : Random) : Type 0 where
  pub uniform : (n t : ℕ) → random.uniform n t ≤ t
  pub randrange : (n k : ℕ) → 0 < k → random.randrange n k < k

-- How many records of a list pass a test.
abbrev pub how_many : (Srv → Bool) → List Srv → ℕ
how_many q [] = 0
how_many q (r ∷ rest) = (if q r then 1 else 0) + how_many q rest

pub how_many-append :
    (q : Srv → Bool) (a b : List Srv) → how_many q (a ++ b) ≡ how_many q a + how_many q b
how_many-append q [] b = omega arith
how_many-append q (r ∷ a) b = omega (arith, how_many-append q a b)

-- A pick of the loop is an index of its list.
pick_from-lt :
    (pick upto i : ℕ) (l : List Srv) (j : ℕ) → pick_from pick upto i l ≡ some j → j < i + length l
unfolding pick_from
pick_from-lt pick upto i [] j h = cc
pick_from-lt pick upto i (r ∷ rest) j h =
    ground (arith, h, pick_from-lt pick (upto + r.weight) (suc i) rest j)

pub weighted_pick_index-lt :
    (random : Random) (n : ℕ) (r : Srv) (rest : List Srv)
    → InRange random
    → weighted_pick_index random n (r ∷ rest) < length (r ∷ rest)
unfolding weighted_pick_index
weighted_pick_index-lt random n r rest h = elim (Bool-cases (total_weight (r ∷ rest) == 0)) [
  | inl even ↦ rw (even, weighted_pick_index) (h.randrange n (length (r ∷ rest)) (omega arith))
  | inr weighted ↦
      elim (Option-cases (pick_from (random.uniform n (total_weight (r ∷ rest))) 0 0 (r ∷ rest))) [
        | inr (j, e) ↦
            rw (weighted, e, weighted_pick_index)
              (omega (
                arith,
                pick_from-lt (random.uniform n (total_weight (r ∷ rest))) 0 0 (r ∷ rest) j e,
              ))
        | inl past ↦ rw (weighted, past, weighted_pick_index) (omega arith)
      ]
]

-- What `pop` takes out at an index of the list.
pub record Popped (l : List Srv) (x : Srv) (left : List Srv) : Type 0 where
  pub shorter : length l ≡ suc (length left)
  pub same : (q : Srv → Bool) → how_many q l ≡ (if q x then 1 else 0) + how_many q left

pop_total :
    (i : ℕ) (l : List Srv)
    → i < length l
    → (x : Srv) × (left : List Srv) × (pop i l ≡ some (x, left)) × Popped l x left
unfolding pop
pop_total i [] h = absurd (omega (arith, h))
pop_total zero (r ∷ rest) h = (r, rest, refl, record { shorter = refl; same = λ q. refl })
pop_total (suc i) (r ∷ rest) h =
    let (x, left, e, p) = pop_total i rest (omega (arith, h)) in
    (
      x,
      r ∷ left,
      rw (e, pop) refl,
      record { shorter = omega (arith, p.shorter); same = λ q. omega (arith, p.same q) },
    )

-- A band is ordered, and holds each record as often as before.
pub order_band_total :
    (random : Random) (fuel n : ℕ) (l : List Srv)
    → InRange random
    → length l ≤ fuel
    → (o : List Srv) × (order_band fuel random n l ≡ some o)
      × ((q : Srv → Bool) → how_many q o ≡ how_many q l)
unfolding order_band
order_band_total random fuel n [] h le = ([], refl, λ q. refl)
order_band_total random zero n (r ∷ rest) h le = absurd (omega (arith, le))
order_band_total random (suc fuel) n (r ∷ rest) h le =
    let i = weighted_pick_index random n (r ∷ rest) in
    let (x, left, e, p) = pop_total i (r ∷ rest) (weighted_pick_index-lt random n r rest h) in
    let (o, eo, same) =
      order_band_total random fuel (suc n) left h (omega (arith, le, p.shorter)) in
    (x ∷ o, rw (e, eo, order_band) refl, λ q. omega (arith, same q, p.same q))
