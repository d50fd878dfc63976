-- ===== src/Policy/Schema.antt =====
-- The schema field table of policy.py, and `_field`, the one door through which a field is read.
use matrix_federation_scanne.Prelude.{
  ℕ, Bool, true, false, ◌&&◌, Option, none, some, String, List, [], ◌∷◌, ltb, leb, if◌then◌else◌,
  str_eq,
}
use matrix_federation_scanne.Json.{Json, Fields, get_or}

abbrev pub max_supported_schema_version : ℕ
max_supported_schema_version = 2

-- (introduced, removed): the first schema version in which the key is read, and the first in which
-- it is read no longer.
pub record Window : Type 0 where
  pub introduced : ℕ
  pub removed : Option ℕ

abbrev since : ℕ → Window
since n = record { introduced = n; removed = none }

unfoldable pub schema_fields : List (String × Window)
schema_fields =
    ("recommendation", since 1)
    ∷ ("default_action", since 1)
    ∷ ("decision_map", since 1)
    ∷ ("hold_targets", since 1)
    ∷ ("write_policies_for_ip_literals", since 1)
    ∷ ("ban_reason", since 1)
    ∷ ("min_bot_version", since 2)
    ∷ ("stale_max_age", since 2)
    ∷ ("cleanup_bot_ids", since 2)
    ∷ ("max_bans_per_etld1", since 2)
    ∷ ("min_psl_version", since 2)
    ∷ []

unfoldable pub window_of : String → List (String × Window) → Option Window
window_of name [] = none
window_of name ((k, w) ∷ rest) = if str_eq k name then some w else window_of name rest

-- `removed is None or version < removed`.
abbrev pub before_removal : ℕ → Option ℕ → Bool
before_removal version none = true
before_removal version (some removed) = ltb version removed

abbrev pub window_active : ℕ → Option Window → Bool
window_active version none = false
window_active version (some w) = leb w.introduced version && before_removal version w.removed

-- `key_active`, over any table.
unfoldable pub key_active_in : List (String × Window) → String → ℕ → Bool
unfolding window_of
key_active_in table name version = window_active version (window_of name table)

unfoldable pub key_active : String → ℕ → Bool
unfolding key_active_in schema_fields
key_active name version = key_active_in schema_fields name version

-- `PolicyManager._field`.
unfoldable pub read_field : Fields → String → ℕ → Json → Json
unfolding key_active get_or
read_field d name version default =
    if key_active name version then get_or name default d else default
