-- ===== src/Bot/Staleness/Safe.antt =====
-- The map that `_sanitize_staleness` of bot.py makes, where db.py and `_required_rate` read it.
use matrix_federation_scanne.Prelude.{
  ℕ, ◌<◌, ◌≡◌, Bool, true, not, ◌&&◌, none, String, List, all, leb, is_empty,
}
use matrix_federation_scanne.Prelude.Text.{codes}
use matrix_federation_scanne.Json.{Json, ℤ}
use matrix_federation_scanne.Store.Overdue.{drop_underscores, check_staleness}
use matrix_federation_scanne.Bot.Staleness.{period_of, required_rate}

module _ (is_alnum : ℕ → Bool)
    (letters : (c : ℕ) → (leb 97 c && leb c 122) ≡ true → is_alnum c ≡ true) where
  -- A key of small letters and underscores is safe.
  abbrev has_letters : String → Bool
  has_letters status =
      let rest = drop_underscores (codes status) in
      not (is_empty rest) && all (λ c. leb 97 c && leb c 122) rest

  -- What its readers rely on.
  pub record Usable (m : List (String × ℤ)) : Type 0 where
    pub checked : check_staleness is_alnum m ≡ none
    pub divides : (status : String) → 0 < period_of m status
    pub rate : (buckets : List (String × ℕ)) → 0 < (required_rate m buckets).per_seconds
