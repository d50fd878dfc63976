-- ===== src/Resolver/Srv/Order.antt =====
-- The try-order of `_order_srv`: what it holds, and how it is sorted.
use matrix_federation_scanne.Prelude.{
  ℕ, ◌+◌, ◌≤◌, ◌≡◌, refl, sym, ◌∙◌, inl, inr, Bool, not, some, List, [], ◌∷◌, ◌++◌, arith,
  Bool-cases, ◌==◌, ==_iff, if◌then◌else◌, length,
}
use matrix_federation_scanne.Resolver.Srv.{
  Srv, Random, band_of, insert_priority, priorities, order_bands, order_srv,
}
use matrix_federation_scanne.Resolver.Srv.Band.{
  InRange, how_many, how_many-append, order_band_total,
}
use matrix_federation_scanne.Resolver.Srv.Priorities.{
  occurs, AllAbove, Sorted, insert_priority-Sorted, occurs-insert,
}

-- The records in the bands of some priorities.
abbrev in_bands : (Srv → Bool) → List Srv → List ℕ → ℕ
in_bands q records [] = 0
in_bands q records (p ∷ ps) = how_many q (band_of p records) + in_bands q records ps

in_bands-none : (q : Srv → Bool) (ps : List ℕ) → in_bands q [] ps ≡ 0
unfolding band_of
in_bands-none q [] = refl
in_bands-none q (p ∷ ps) = omega (arith, in_bands-none q ps)

-- Each record has one band.
AllOnce : List ℕ → List Srv → Type 0
AllOnce ps [] = Unit
AllOnce ps (r ∷ rest) = (occurs r.priority ps ≡ 1) × AllOnce ps rest

band_of-cons :
    (q : Srv → Bool) (p : ℕ) (r : Srv) (rest : List Srv)
    → how_many q (band_of p (r ∷ rest))
      ≡ (if p == r.priority then (if q r then 1 else 0) else 0) + how_many q (band_of p rest)
unfolding band_of
band_of-cons q p r rest = elim (Bool-cases (p == r.priority)) [
  | inl here ↦ rw (here, (==_iff r.priority p).1 (sym ((==_iff p r.priority).0 here))) refl
  | inr other ↦ ground (arith, other)
]

in_bands-cons :
    (q : Srv → Bool) (r : Srv) (rest : List Srv) (ps : List ℕ)
    → in_bands q (r ∷ rest) ps ≡ (if q r then occurs r.priority ps else 0) + in_bands q rest ps
in_bands-cons q r rest [] = ground arith
in_bands-cons q r rest (p ∷ ps) = ground (arith, band_of-cons q p r rest, in_bands-cons q r rest ps)

in_bands-AllOnce :
    (q : Srv → Bool) (records : List Srv) (ps : List ℕ)
    → AllOnce ps records
    → in_bands q records ps ≡ how_many q records
unfolding AllOnce
in_bands-AllOnce q [] ps h = in_bands-none q ps
in_bands-AllOnce q (r ∷ rest) ps h =
    ground (arith, h.0, in_bands-cons q r rest ps, in_bands-AllOnce q rest ps h.1)

insert-AllOnce :
    (p : ℕ) (ps : List ℕ) (records : List Srv)
    → Sorted ps
    → AllOnce ps records
    → AllOnce (insert_priority p ps) records
unfolding AllOnce
insert-AllOnce p ps [] sorted h = tt
insert-AllOnce p ps (r ∷ rest) sorted h =
    (rw occurs-insert (ground (arith, h.0)), insert-AllOnce p ps rest sorted h.1)

priorities-Sorted : (records : List Srv) → Sorted (priorities records)
unfolding priorities
priorities-Sorted [] = tt
priorities-Sorted (r ∷ rest) =
    insert_priority-Sorted r.priority (priorities rest) (priorities-Sorted rest)

priorities-AllOnce : (records : List Srv) → AllOnce (priorities records) records
unfolding priorities AllOnce
priorities-AllOnce [] = tt
priorities-AllOnce (r ∷ rest) = (
  ground (arith, occurs-insert r.priority r.priority (priorities rest) (priorities-Sorted rest)),
  insert-AllOnce r.priority (priorities rest) rest (priorities-Sorted rest)
      (priorities-AllOnce rest),
)

abbrev pub AtLeast : ℕ → List Srv → Type 0
AtLeast b [] = Unit
AtLeast b (r ∷ rest) = (b ≤ r.priority) × AtLeast b rest

-- In the order of the priorities.
abbrev pub Ascending : List Srv → Type 0
Ascending [] = Unit
Ascending (r ∷ rest) = AtLeast r.priority rest × Ascending rest

abbrev AllAt : ℕ → List Srv → Type 0
AllAt p [] = Unit
AllAt p (r ∷ rest) = (r.priority ≡ p) × AllAt p rest

abbrev is_other : ℕ → Srv → Bool
is_other p r = not (r.priority == p)

band_of-others : (p : ℕ) (l : List Srv) → how_many (is_other p) (band_of p l) ≡ 0
unfolding band_of
band_of-others p [] = refl
band_of-others p (r ∷ rest) = ground (arith, band_of-others p rest)

others-AllAt : (p : ℕ) (l : List Srv) → how_many (is_other p) l ≡ 0 → AllAt p l
others-AllAt p [] h = tt
others-AllAt p (r ∷ rest) h = (ground (arith, h), others-AllAt p rest (ground (arith, h)))

AtLeast-append :
    (b p : ℕ) (l later : List Srv) → b ≤ p → AllAt p l → AtLeast b later → AtLeast b (l ++ later)
AtLeast-append b p [] later le h above = above
AtLeast-append b p (r ∷ l) later le h above =
    (omega (arith, le, h.0), AtLeast-append b p l later le h.1 above)

Ascending-append :
    (p : ℕ) (l later : List Srv)
    → AllAt p l
    → AtLeast p later
    → Ascending later
    → Ascending (l ++ later)
Ascending-append p [] later h above sorted = sorted
Ascending-append p (r ∷ l) later h above sorted = (
  rw h.0 (AtLeast-append p p l later (omega arith) h.1 above),
  Ascending-append p l later h.1 above sorted,
)

-- What the loop over the priorities leaves.
record Ordered (records : List Srv) (ps : List ℕ) (o : List Srv) : Type 0 where
  held : (q : Srv → Bool) → how_many q o ≡ in_bands q records ps
  ascending : Ascending o
  bounded : (b : ℕ) → AllAbove b ps → AtLeast b o

order_bands_total :
    (random : Random) (n : ℕ) (records : List Srv) (ps : List ℕ)
    → InRange random
    → Sorted ps
    → (o : List Srv) × (order_bands random n records ps ≡ some o) × Ordered records ps o
unfolding order_bands
order_bands_total random n records [] range sorted =
    ([], refl, record { held = λ q. refl; ascending = tt; bounded = λ b h. tt })
order_bands_total random n records (p ∷ ps) range sorted =
    let band = band_of p records in
    let (o, eo, same) = order_band_total random (length band) n band range (omega arith) in
    let (later, el, rest) = order_bands_total random (n + length band) records ps range sorted.1 in
    let at_p = others-AllAt p o (same (is_other p) ∙ band_of-others p records) in
    (
      o ++ later,
      rw (eo, el, order_bands) refl,
      record {
        held = λ q. omega (arith, how_many-append q o later, same q, rest.held q);
        ascending = Ascending-append p o later at_p (rest.bounded p sorted.0) rest.ascending;
        bounded = λ b h. AtLeast-append b p o later (omega (arith, h.0)) at_p (rest.bounded b h.1);
      },
    )

-- `_order_srv` returns, given that the draws are in their documented ranges: every record stands
-- in the result as often as in the answer, whichever test tells it apart, and the priorities
-- ascend.
pub order_srv_total :
    (random : Random) (records : List Srv)
    → InRange random
    → (o : List Srv) × (order_srv random records ≡ some o)
      × ((q : Srv → Bool) → how_many q o ≡ how_many q records)
      × Ascending o
unfolding order_srv
order_srv_total random records range =
    let sorted = priorities-Sorted records in
    let (o, e, ordered) = order_bands_total random 0 records (priorities records) range sorted in
    (
      o,
      e,
      λ q.
          ordered.held q
          ∙ in_bands-AllOnce q records (priorities records) (priorities-AllOnce records),
      ordered.ascending,
    )
