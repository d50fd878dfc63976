-- ===== src/Policy/Config.antt =====
-- `_apply_auto_config` of policy.py, and the two ways into it.
pub mod Gates
pub mod Closed
pub mod Windows
pub mod Unhashable
use matrix_federation_scanne.Prelude.{
  ℕ, zero, suc, ◌+◌, ◌≡◌, refl, Bool, true, false, not, ◌&&◌, ◌||◌, Option, none, some, String,
  str_eq, List, [], ◌∷◌, any, ltb, leb, if◌then◌else◌, is_empty,
}
use matrix_federation_scanne.Prelude.Text.{Text, codes, contains, same, strip, starts_with, has}
use matrix_federation_scanne.Json.{
  Json, null, bool, int, str, arr, obj, Items, nil, cons, Fields, end, field, pos, negsuc, find,
  get_or,
}
use matrix_federation_scanne.Util.{strip_port, validate_server_name}
use matrix_federation_scanne.Psl.Rules.{set_add}
use matrix_federation_scanne.Psl.Version.{parse_psl_version}
use matrix_federation_scanne.Policy.Schema.{read_field}
use matrix_federation_scanne.Policy.State.{
  Policy, Action, ban, unban, hold, reevaluate_psl_floor, running, absent, unreadable,
}
use Gates.{Step, go, stop, raise, ◌>>=◌, schema_gate, bot_floor_gate, recommendation_gate}

-- The default that `ban_reason` falls back to.
abbrev pub default_ban_reason : Text
default_ban_reason = codes "open registration"

unfoldable pub ban_reason_of : Json → Text
ban_reason_of (str []) = default_ban_reason
ban_reason_of (str (c ∷ s)) = c ∷ s
ban_reason_of _ = default_ban_reason

pub data Lookup : Type 0 where
  action : Action → Lookup
  invalid : Lookup
  unhashable : Lookup

-- `value in ACTIONS`: a list or a dict cannot be hashed, and the test raises TypeError.
unfoldable pub lookup_action : Json → Lookup
unfolding same
lookup_action (str s) =
    if same s (codes "ban")
    then action ban
    else if same s (codes "unban")
    then action unban
    else if same s (codes "hold")
    then action hold
    else invalid
lookup_action (arr items) = unhashable
lookup_action (obj fields) = unhashable
lookup_action _ = invalid

unfoldable pub set_default_action : Json → Policy → Step
unfolding lookup_action
set_default_action value p = elim (lookup_action value) [
  | action a ↦ go (record p { default_action = a })
  | invalid ↦ go (record p { default_action = hold })
  | unhashable ↦ raise p
]

abbrev pub prepend :
    String → Action → Option (List (String × Action)) → Option (List (String × Action))
prepend key a none = none
prepend key a (some m) = some ((key, a) ∷ m)

-- The loop over `decision_map`: unknown keys are dropped, invalid actions become hold, and an
-- action that cannot be hashed raises.
unfoldable pub clean_map : List String → Fields → Option (List (String × Action))
unfolding lookup_action
clean_map known end = some []
clean_map known (field key value rest) =
    let more = clean_map known rest in
    if any (str_eq key) known
    then (elim (lookup_action value) [
      | action a ↦ prepend key a more
      | invalid ↦ prepend key hold more
      | unhashable ↦ none
    ])
    else more

unfoldable pub set_decision_map : Json → Policy → Step
unfolding clean_map
set_decision_map (obj fields) p = elim (clean_map p.known_statuses fields) [
  | none ↦ raise p
  | some m ↦ go (record p { decision_map = m })
]
set_decision_map _ p = go (record p { decision_map = [] })

-- The loop over `hold_targets`; the entries are stored without their port.
unfoldable pub hold_set : Items → List Text
unfolding strip validate_server_name strip_port set_add
hold_set nil = []
hold_set (cons (str item) rest) =
    let more = hold_set rest in
    if validate_server_name (strip item) then set_add (strip_port (strip item)) more else more
hold_set (cons _ rest) = hold_set rest

-- The loop over `cleanup_bot_ids`.
unfoldable pub mxid_set : Items → List Text
unfolding strip starts_with has set_add
mxid_set nil = []
mxid_set (cons (str item) rest) =
    let more = mxid_set rest in
    let id = strip item in
    if starts_with id (codes "@") && has b':' id then set_add id more else more
mxid_set (cons _ rest) = mxid_set rest

-- A field that has to be a list: anything else counts as the empty one.
abbrev pub items_of : Json → Items
items_of (arr items) = items
items_of _ = nil

-- `isinstance(v, int) and not isinstance(v, bool) and v > 0`, else the field is off.
unfoldable pub positive_int : Json → Option ℕ
positive_int (int (pos zero)) = none
positive_int (int (pos (suc n))) = some (suc n)
positive_int _ = none

abbrev pub is_true : Json → Bool
is_true (bool b) = b
is_true _ = false

-- The soft fields between `decision_map` and the suffix-list floor.
unfoldable pub set_soft_fields : Fields → ℕ → Policy → Policy
set_soft_fields d version p = record p {
  hold_targets = hold_set (items_of (read_field d "hold_targets" version (arr nil)));
  write_policies_for_ip_literals =
      is_true (read_field d "write_policies_for_ip_literals" version null);
  stale_max_age_seconds = positive_int (read_field d "stale_max_age" version null);
  cleanup_bot_ids = mxid_set (items_of (read_field d "cleanup_bot_ids" version (arr nil)));
  max_bans_per_etld1 = positive_int (read_field d "max_bans_per_etld1" version null);
}

abbrev pub raw_text : Json → Option Text
raw_text (str s) = some (strip s)
raw_text _ = none

-- `min_psl_version`: malformed halts where a cap is configured, and is ignored elsewhere.
unfoldable pub set_psl_floor : Json → Policy → Step
unfolding parse_psl_version strip
set_psl_floor null p = go (record p { min_psl_version = none; min_psl_version_raw = none })
set_psl_floor value p = elim (parse_psl_version value) [
  | some v ↦ go (record p { min_psl_version = some v; min_psl_version_raw = raw_text value })
  | none ↦
      let q : Policy = record p { min_psl_version = none; min_psl_version_raw = none } in
      Gates.refuse_unreadable_floor q
]

-- The last lines: the suffix-list halt is recomputed, and the configuration runs.
unfoldable pub resume : Policy → Policy
unfolding reevaluate_psl_floor
resume p =
    let q = reevaluate_psl_floor p in
    record q { config_halted = false; config_halt_reason = running }

-- From `ban_reason` to `min_psl_version`.
unfoldable pub read_soft_fields : Fields → ℕ → Policy → Step
read_soft_fields d version p = do
  let p₁ : Policy = record p { ban_reason = ban_reason_of (read_field d "ban_reason" version null) }
  p₂ ← set_default_action (read_field d "default_action" version (str (codes "hold"))) p₁
  p₃ ← set_decision_map (read_field d "decision_map" version (obj end)) p₂
  set_psl_floor (read_field d "min_psl_version" version null) (set_soft_fields d version p₃)

unfoldable pub read_fields : Fields → ℕ → Policy → Step
read_fields d version p = do
  p₁ ← recommendation_gate (read_field d "recommendation" version null) p
  p₂ ← read_soft_fields d version p₁
  go (resume p₂)

-- `_apply_auto_config`.
unfoldable pub apply_auto_config : Fields → Policy → Step
apply_auto_config d p = Gates.with_version (schema_gate d p) λ version q.
    bot_floor_gate (read_field d "min_bot_version" version null) q >>= read_fields d version

-- What `get_state_event` gave `refresh_auto_config`.
pub data ConfigRead : Type 0 where
  not_found failed : ConfigRead
  content : Fields → ConfigRead

-- `refresh_auto_config`: the state, and whether the read succeeded; `raise` is an exception.
unfoldable pub refresh_auto_config : ConfigRead → Policy → Step × Bool
refresh_auto_config not_found p = (stop (Gates.halt_for absent p), true)
refresh_auto_config failed p = (stop (Gates.halt_for unreadable p), false)
refresh_auto_config (content d) p = (apply_auto_config d p, true)
