-- ===== src/Resolver/Srv/Priorities.antt =====
-- `sorted(by_priority)` as a list of numbers.
use matrix_federation_scanne.Prelude.{
  ℕ, ◌+◌, ◌<◌, ◌≡◌, refl, inl, inr, List, [], ◌∷◌, arith, Bool-cases, ltb, ◌==◌, ==_iff,
  if◌then◌else◌, ltb→lt,
}
use matrix_federation_scanne.Resolver.Srv.{insert_priority}

-- The number of times that a priority stands in a list of priorities.
abbrev pub occurs : ℕ → List ℕ → ℕ
occurs p [] = 0
occurs p (q ∷ rest) = (if q == p then 1 else 0) + occurs p rest

abbrev pub AllAbove : ℕ → List ℕ → Type 0
AllAbove p [] = Unit
AllAbove p (q ∷ rest) = (p < q) × AllAbove p rest

abbrev pub Sorted : List ℕ → Type 0
Sorted [] = Unit
Sorted (p ∷ rest) = AllAbove p rest × Sorted rest

AllAbove-insert : (b p : ℕ) (l : List ℕ) → b < p → AllAbove b l → AllAbove b (insert_priority p l)
unfolding insert_priority
AllAbove-insert b p [] lt h = (lt, tt)
AllAbove-insert b p (q ∷ rest) lt h = ground (arith, lt, h, AllAbove-insert b p rest lt h.1)

AllAbove-below : (a b : ℕ) (l : List ℕ) → a < b → AllAbove b l → AllAbove a l
AllAbove-below a b [] lt h = tt
AllAbove-below a b (q ∷ rest) lt h = (omega (arith, lt, h.0), AllAbove-below a b rest lt h.1)

pub insert_priority-Sorted : (p : ℕ) (l : List ℕ) → Sorted l → Sorted (insert_priority p l)
unfolding insert_priority
insert_priority-Sorted p [] h = (tt, tt)
insert_priority-Sorted p (q ∷ rest) h = elim (Bool-cases (p == q)) [
  | inl old ↦ rw old h
  | inr new ↦ elim (Bool-cases (ltb p q)) [
    | inl lt ↦ rw (new, lt) ((ltb→lt p q lt, AllAbove-below p q rest (ltb→lt p q lt) h.0), h)
    | inr above ↦
        rw (new, above)
          (
            AllAbove-insert q p rest (ground (arith, new, above)) h.0,
            insert_priority-Sorted p rest h.1,
          )
  ]
]

occurs-AllAbove : (p : ℕ) (l : List ℕ) → AllAbove p l → occurs p l ≡ 0
occurs-AllAbove p [] h = refl
occurs-AllAbove p (q ∷ rest) h = ground (arith, h.0, occurs-AllAbove p rest h.1)

-- A priority that is inserted stands in the list once; the others as often as before.
pub occurs-insert :
    (p x : ℕ) (l : List ℕ)
    → Sorted l
    → occurs x (insert_priority p l) ≡ (if p == x then 1 else occurs x l)
unfolding insert_priority
occurs-insert p x [] h = omega arith
occurs-insert p x (q ∷ rest) h = elim (Bool-cases (p == q)) [
  | inl old ↦
      let e : p ≡ q = (==_iff p q).0 old in rw (old, e) (ground (arith, first_once q x rest h.0))
  | inr new ↦ elim (Bool-cases (ltb p q)) [
    | inl lt ↦
        let above = AllAbove-below p q rest (ltb→lt p q lt) h.0 in
        rw (new, lt) (first_once p x (q ∷ rest) (ltb→lt p q lt, above))
    | inr above ↦ rw (new, above) (ground (arith, new, above, occurs-insert p x rest h.1))
  ]
]
  where
    first_once :
        (a x : ℕ) (l : List ℕ)
        → AllAbove a l
        → (if a == x then 1 else 0) + occurs x l ≡ (if a == x then 1 else occurs x l)
    first_once a x l above = elim (Bool-cases (a == x)) [
      | inr other ↦ rw other (omega arith)
      | inl here ↦
          let e : a ≡ x = (==_iff a x).0 here in
          let none_left : occurs x l ≡ 0 = rw e at (occurs-AllAbove a l above) in
          rw (here, none_left) (omega arith)
    ]
