-- ===== src/Resolver/Srv/Tests.antt =====
-- The order of three records.
use matrix_federation_scanne.Prelude.{◌≡◌, refl, Bool, some, List, [], ◌∷◌, arith}
use matrix_federation_scanne.Prelude.Text.{codes}
use matrix_federation_scanne.Resolver.Srv.{
  Srv, Random, total_weight, pick_from, weighted_pick_index, order_srv,
}
use matrix_federation_scanne.Resolver.Srv.Band.{InRange, how_many}
use matrix_federation_scanne.Resolver.Srv.Order.{Ascending, order_srv_total}
use matrix_federation_scanne.Resolver.Srv.Weight.{PicksWeight, weighted_pick_index-PicksWeight}

abbrev lowest : Random
lowest = record { uniform = λ n t. 0; randrange = λ n k. 0 }

lowest-InRange : InRange lowest
lowest-InRange = record { uniform = λ n t. omega arith; randrange = λ n k h. h }

abbrev highest : Random
highest = record { uniform = λ n t. t; randrange = λ n k. 0 }

abbrev primary : Srv
primary = record { priority = 10; weight = 5; port = 8448; target = codes "a.example.org" }

abbrev backup : Srv
backup = record { priority = 10; weight = 0; port = 8448; target = codes "b.example.org" }

abbrev last_resort : Srv
last_resort = record { priority = 20; weight = 0; port = 443; target = codes "c.example.org" }

abbrev answer : List Srv
answer = last_resort ∷ primary ∷ backup ∷ []

order_srv_total_example :
    (o : List Srv) × (order_srv lowest answer ≡ some o)
    × ((q : Srv → Bool) → how_many q o ≡ how_many q answer)
    × Ascending o
order_srv_total_example = order_srv_total lowest answer lowest-InRange

weighted_pick_index-PicksWeight_example : PicksWeight (weighted_pick_index lowest 0 answer) answer
unfolding total_weight
weighted_pick_index-PicksWeight_example =
    weighted_pick_index-PicksWeight lowest 0 answer (omega arith)

-- A draw of the total itself picks the last record of a band, whose weight may be zero.
picks_weightless : weighted_pick_index highest 0 (primary ∷ backup ∷ []) ≡ 1
unfolding weighted_pick_index total_weight pick_from
picks_weightless = refl
