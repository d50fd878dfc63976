-- ===== src/Store/Overdue/Ranked.antt =====
-- The order of `most_overdue` of db.py.
use matrix_federation_scanne.Prelude.{
  ℕ, zero, suc, ◌+◌, ◌*◌, ◌≤◌, ◌<◌, ◌≡◌, refl, Bool, true, false, none, String, List, [], ◌∷◌, map,
  arith, Bool-cases, inl, inr, if◌then◌else◌, take,
}
use native.Mathlib.Nat.{mul-le-mul_left, le_of_mul-le-mul_left}
use matrix_federation_scanne.Json.{ℤ, pos, negsuc}
use matrix_federation_scanne.Store.{ScannedRow, Store}
use matrix_federation_scanne.Store.Overdue.{
  overdue, period, is_positive, seconds, default_period, less_overdue, insert_row, ranked,
  row_period, is_safe_key, check_staleness, most_overdue,
}

-- The rows of a list that pass a test.
abbrev pub count_rows : (ScannedRow → Bool) → List ScannedRow → ℕ
count_rows p [] = 0
count_rows p (r ∷ rest) = (if p r then 1 else 0) + count_rows p rest

module _ (ts : ℕ) (t : ScannedRow → ℕ) where
  -- No row of a list is more overdue than one row.
  abbrev pub AllBelow : ScannedRow → List ScannedRow → Type 0
  AllBelow r [] = Unit
  AllBelow r (q ∷ rest) = (less_overdue ts t r q ≡ false) × AllBelow r rest

  abbrev pub Descending : List ScannedRow → Type 0
  Descending [] = Unit
  Descending (r ∷ rest) = AllBelow r rest × Descending rest

  not_less_trans :
      (a b c : ScannedRow)
      → 0 < t b
      → less_overdue ts t a b ≡ false
      → less_overdue ts t b c ≡ false
      → less_overdue ts t a c ≡ false
  unfolding less_overdue
  not_less_trans a b c positive ab bc =
      let below_ab : ts * t a + a.last_scan_at * t b ≤ ts * t b + b.last_scan_at * t a =
        ground (arith, ab) in
      let below_bc : ts * t b + b.last_scan_at * t c ≤ ts * t c + c.last_scan_at * t b =
        ground (arith, bc) in
      let scaled_ab = mul-le-mul_left (t c) below_ab in
      let scaled_bc = mul-le-mul_left (t a) below_bc in
      let scaled : t b * (ts * t a + a.last_scan_at * t c)
          ≤ t b * (ts * t c + c.last_scan_at * t a) =
        omega (arith, scaled_ab, scaled_bc) in
      let below_ac = le_of_mul-le-mul_left scaled positive in ground (arith, below_ac)

  less-asym : (a b : ScannedRow) → less_overdue ts t a b ≡ true → less_overdue ts t b a ≡ false
  unfolding less_overdue
  less-asym a b h = ground arith

  AllBelow-insert :
      (q r : ScannedRow) (l : List ScannedRow)
      → less_overdue ts t q r ≡ false
      → AllBelow q l
      → AllBelow q (insert_row ts t r l)
  unfolding insert_row
  AllBelow-insert q r [] h below = (h, tt)
  AllBelow-insert q r (x ∷ rest) h below = elim (Bool-cases (less_overdue ts t r x)) [
    | inl less ↦ rw less (below.0, AllBelow-insert q r rest h below.1)
    | inr not_less ↦ rw not_less (h, below)
  ]

  module _ (positive : (r : ScannedRow) → 0 < t r) where
    AllBelow-trans :
        (r q : ScannedRow) (l : List ScannedRow)
        → less_overdue ts t r q ≡ false
        → AllBelow q l
        → AllBelow r l
    AllBelow-trans r q [] h below = tt
    AllBelow-trans r q (x ∷ rest) h below =
        (not_less_trans r q x (positive q) h below.0, AllBelow-trans r q rest h below.1)

    Descending-insert :
        (r : ScannedRow) (l : List ScannedRow) → Descending l → Descending (insert_row ts t r l)
    unfolding insert_row
    Descending-insert r [] h = (tt, tt)
    Descending-insert r (q ∷ rest) h = elim (Bool-cases (less_overdue ts t r q)) [
      | inl less ↦
          rw less (AllBelow-insert q r rest (less-asym r q less) h.0, Descending-insert r rest h.1)
      | inr not_less ↦ rw not_less ((not_less, AllBelow-trans r q rest not_less h.0), h)
    ]

    ranked-Descending : (rows : List ScannedRow) → Descending (ranked ts t rows)
    unfolding ranked
    ranked-Descending [] = tt
    ranked-Descending (r ∷ rest) = Descending-insert r (ranked ts t rest) (ranked-Descending rest)

  count_rows-insert :
      (p : ScannedRow → Bool) (r : ScannedRow) (l : List ScannedRow)
      → count_rows p (insert_row ts t r l) ≡ (if p r then 1 else 0) + count_rows p l
  unfolding insert_row
  count_rows-insert p r [] = refl
  count_rows-insert p r (q ∷ rest) = elim (Bool-cases (less_overdue ts t r q)) [
    | inl less ↦ rw less (omega (arith, count_rows-insert p r rest))
    | inr not_less ↦ rw not_less refl
  ]

  count_rows-ranked :
      (p : ScannedRow → Bool) (rows : List ScannedRow)
      → count_rows p (ranked ts t rows) ≡ count_rows p rows
  unfolding ranked
  count_rows-ranked p [] = refl
  count_rows-ranked p (r ∷ rest) =
      omega (arith, count_rows-insert p r (ranked ts t rest), count_rows-ranked p rest)

module _ (is_alnum : ℕ → Bool) where
  -- What a map that passes the checks has at its first entry, and behind it.
  check_parts :
      (k : String) (n : ℤ) (rest : List (String × ℤ))
      → check_staleness is_alnum ((k, n) ∷ rest) ≡ none
      → (is_positive n ≡ true) × (check_staleness is_alnum rest ≡ none)
  unfolding check_staleness
  check_parts k n rest checked = elim (Bool-cases (is_safe_key is_alnum k)) [
    | inr unsafe ↦ cc (rw unsafe at checked)
    | inl safe ↦ elim (Bool-cases (is_positive n)) [
      | inr not_pos ↦ cc (rw (safe, not_pos) at checked)
      | inl is_pos ↦ (is_pos, rw (safe, is_pos) at checked)
    ]
  ]

  pub period_positive :
      (status : String) (default : ℤ) (staleness : List (String × ℤ))
      → is_positive default ≡ true
      → check_staleness is_alnum staleness ≡ none
      → is_positive (period status default staleness) ≡ true
  unfolding period check_staleness
  period_positive status default [] h checked = h
  period_positive status default ((k, n) ∷ rest) h checked =
      let parts = check_parts k n rest checked in
      let later = period_positive status default rest h parts.1 in ground (arith, parts.0, later)

  pub seconds_positive : (n : ℤ) → is_positive n ≡ true → 0 < seconds n
  seconds_positive (pos zero) h = ground (arith, h)
  seconds_positive (pos (suc n)) h = omega arith
  seconds_positive (negsuc n) h = ground (arith, h)

  row_period_positive :
      (staleness : List (String × ℤ)) (r : ScannedRow)
      → check_staleness is_alnum staleness ≡ none
      → 0 < row_period staleness r
  unfolding row_period default_period
  row_period_positive staleness r checked =
      seconds_positive (period r.reg_status (default_period staleness) staleness) (
        period_positive r.reg_status (default_period staleness) staleness
          (period_positive "unknown" (pos 86400) staleness refl checked) checked)

  -- With a map that passes the checks, the answer is the beginning, up to the limit, of a list of
  -- all the rows in which no row is more overdue, in ratio to its period, than one before it.
  pub most_overdue-Descending :
      (ts : ℕ) (staleness : List (String × ℤ)) (limit : ℕ) (s : Store)
      → check_staleness is_alnum staleness ≡ none
      → (rows : List ScannedRow) × (most_overdue is_alnum ts staleness limit s
          ≡ overdue (map (λ (r : ScannedRow). r.scan_target) (take limit rows)))
        × Descending ts (row_period staleness) rows
        × ((p : ScannedRow → Bool) → count_rows p rows ≡ count_rows p s.scanned)
  unfolding most_overdue
  most_overdue-Descending ts staleness limit s checked =
      let t = row_period staleness in
      (
        ranked ts t s.scanned,
        rw (checked, most_overdue) refl,
        ranked-Descending ts t (λ r. row_period_positive staleness r checked) s.scanned,
        λ p. count_rows-ranked ts t p s.scanned,
      )
