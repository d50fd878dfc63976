-- ===== src/Store/Overdue.antt =====
-- `most_overdue` of db.py. The database divides floats; here two ratios are compared exactly, by
-- multiplying with both periods. Rows of one ratio come in the order of the table.
pub mod Ranked
-- The parameter is `str.isalnum` of one character.
use matrix_federation_scanne.Prelude.{
  ℕ, zero, suc, ◌+◌, ◌*◌, Bool, true, false, not, ◌&&◌, ◌||◌, Option, none, some, String, str_eq,
  List, [], ◌∷◌, map, ltb, ◌==◌, if◌then◌else◌, all, is_empty, take,
}
use matrix_federation_scanne.Prelude.Text.{Text, codes}
use matrix_federation_scanne.Json.{ℤ, pos, negsuc}
use matrix_federation_scanne.Store.{ScannedRow, Store}

-- The two `ValueError`s.
pub data OverdueError : Type 0 where
  unsafe_key not_positive : String → OverdueError

pub data Overdue : Type 0 where
  overdue : List Text → Overdue
  overdue_error : OverdueError → Overdue

-- `staleness.get(status, default)`, and the CASE over `reg_status`.
unfoldable pub period : String → ℤ → List (String × ℤ) → ℤ
period status default [] = default
period status default ((k, t) ∷ rest) =
    let later = period status default rest in if str_eq k status then t else later

-- `status.replace("_", "")`.
unfoldable pub drop_underscores : Text → Text
drop_underscores [] = []
drop_underscores (c ∷ s) = let rest = drop_underscores s in if c == b'_' then rest else c ∷ rest

-- `int(t) <= 0`.
abbrev pub is_positive : ℤ → Bool
is_positive (pos zero) = false
is_positive (pos (suc n)) = true
is_positive (negsuc n) = false

abbrev pub seconds : ℤ → ℕ
seconds (pos n) = n
seconds (negsuc n) = 0

-- `default_t`.
unfoldable pub default_period : List (String × ℤ) → ℤ
unfolding period
default_period staleness = period "unknown" (pos 86400) staleness

-- The ratio of `a` is below that of `b`: (ts - a.last_scan_at) / T_a < (ts - b.last_scan_at) / T_b.
unfoldable pub less_overdue : ℕ → (ScannedRow → ℕ) → ScannedRow → ScannedRow → Bool
less_overdue ts t a b = ltb (ts * t b + b.last_scan_at * t a) (ts * t a + a.last_scan_at * t b)

-- `ORDER BY ratio DESC`.
unfoldable pub insert_row : ℕ → (ScannedRow → ℕ) → ScannedRow → List ScannedRow → List ScannedRow
unfolding less_overdue
insert_row ts t r [] = r ∷ []
insert_row ts t r (q ∷ rest) =
    let later = insert_row ts t r rest in if less_overdue ts t r q then q ∷ later else r ∷ q ∷ rest

unfoldable pub ranked : ℕ → (ScannedRow → ℕ) → List ScannedRow → List ScannedRow
unfolding insert_row
ranked ts t [] = []
ranked ts t (r ∷ rest) = insert_row ts t r (ranked ts t rest)

-- The period of a row in the query.
unfoldable pub row_period : List (String × ℤ) → ScannedRow → ℕ
unfolding period default_period
row_period staleness r = seconds (period r.reg_status (default_period staleness) staleness)

module _ (is_alnum : ℕ → Bool) where
  -- `status and status.replace("_", "").isalnum()`.
  unfoldable pub is_safe_key : String → Bool
  unfolding drop_underscores
  is_safe_key status =
      let rest = drop_underscores (codes status) in not (is_empty rest) && all is_alnum rest

  -- The loop over the map's items.
  unfoldable pub check_staleness : List (String × ℤ) → Option OverdueError
  unfolding is_safe_key
  check_staleness [] = none
  check_staleness ((status, t) ∷ rest) =
      let later = check_staleness rest in
      if not (is_safe_key status)
      then some (unsafe_key status)
      else if not (is_positive t)
      then some (not_positive status)
      else later

  -- `most_overdue`, at the time `ts`.
  unfoldable pub most_overdue : ℕ → List (String × ℤ) → ℕ → Store → Overdue
  unfolding check_staleness ranked row_period
  most_overdue ts staleness limit s = elim (check_staleness staleness) [
    | some e ↦ overdue_error e
    | none ↦ overdue (
        map (λ (r : ScannedRow). r.scan_target)
          (take limit (ranked ts (row_period staleness) s.scanned)))
  ]
