-- ===== src/Bot/Staleness.antt =====
-- `_sanitize_staleness` and `_required_rate` of bot.py, with KNOWN_STATUSES of taxonomy.py.
pub mod Entries
pub mod Safe
-- Parameter: Python's `int` on a value of the configuration.
use matrix_federation_scanne.Prelude.{
  ℕ, zero, suc, ◌+◌, ◌*◌, ◌≡◌, Bool, true, false, Option, none, some, String, str_eq, List, [], ◌∷◌,
  ◌++◌, any, if◌then◌else◌, ◌>>=◌,
}
use matrix_federation_scanne.Json.{Json, Fields, end, field, ℤ, pos}
use matrix_federation_scanne.Store.Overdue.{period, is_positive, seconds}

abbrev pub known_statuses : List String
known_statuses = "dangerously_open" ∷ "open" ∷ "oauth_open" ∷ "oauth" ∷ "unknown" ∷ "closed" ∷ []

-- `_DEFAULT_STALENESS_SECONDS`.
abbrev pub default_staleness_seconds : ℕ
default_staleness_seconds = 86400

-- What `int` does: a number, its TypeError or ValueError, or its OverflowError (of an infinity).
pub data Whole : Type 0 where
  whole : ℤ → Whole
  refused overflowed : Whole

-- What an entry adds to the map, where no exception escapes.
abbrev pub kept_seconds : String → ℤ → List (String × ℤ)
kept_seconds status n = if is_positive n then (status, n) ∷ [] else []

module _ (to_int : Json → Whole) where
  -- One entry of the map; `none` is the OverflowError, which is not caught.
  unfoldable pub clean_entry : String → Json → Option (List (String × ℤ))
  clean_entry status secs =
      if any (str_eq status) known_statuses
      then (elim (to_int secs) [
        | whole n ↦ some (kept_seconds status n)
        | refused ↦ some []
        | overflowed ↦ none
      ])
      else some []

  -- `_sanitize_staleness` on the items of the map.
  unfoldable pub sanitize_staleness : Fields → Option (List (String × ℤ))
  unfolding clean_entry
  sanitize_staleness end = some []
  sanitize_staleness (field status secs rest) = do
    entry ← clean_entry status secs
    later ← sanitize_staleness rest
    some (entry ++ later)

-- `_staleness.get(status, default_t)`, in seconds.
unfoldable pub period_of : List (String × ℤ) → String → ℕ
unfolding period
period_of staleness status =
    seconds (period status (period "unknown" (pos default_staleness_seconds) staleness) staleness)

-- An exact rate, in scans per second, where the source has a float.
pub record Rate : Type 0 where
  pub scans : ℕ
  pub per_seconds : ℕ

-- `rate + n / t`.
abbrev pub add_demand : ℕ → ℕ → Rate → Rate
add_demand n t rate = record {
  scans = n * rate.per_seconds + rate.scans * t;
  per_seconds = t * rate.per_seconds;
}

-- `_required_rate`.
unfoldable pub required_rate : List (String × ℤ) → List (String × ℕ) → Rate
unfolding period_of
required_rate staleness [] = record { scans = 0; per_seconds = 1 }
required_rate staleness ((status, n) ∷ rest) =
    add_demand n (period_of staleness status) (required_rate staleness rest)
