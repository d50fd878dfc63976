-- ===== src/Policy/State.antt =====
-- The state of `PolicyManager` in policy.py, its three sources of a halt, and the suffix-list floor.
-- Log lines are not modelled. A halt reason is a constructor, with the values that its text shows.
use matrix_federation_scanne.Prelude.{
  ℕ, ◌+◌, Bool, true, false, not, ◌&&◌, ◌||◌, Option, none, some, String, str_eq, List, [], ◌∷◌,
  ltb, if◌then◌else◌,
}
use matrix_federation_scanne.Prelude.Text.{Text, codes, same}
use matrix_federation_scanne.Json.{Fields}
use matrix_federation_scanne.Psl.Rules.{PublicSuffixList}
use matrix_federation_scanne.Psl.Holder.{PslHolder}

pub data Action : Type 0 where
  ban unban hold : Action

pub data ConfigHalt : Type 0 where
  running : ConfigHalt
  not_yet_read absent unreadable : ConfigHalt
  schema_not_integer schema_malformed schema_unsupported : ConfigHalt
  floor_malformed own_version_unparseable below_floor : ConfigHalt
  recommendation_missing psl_floor_malformed : ConfigHalt

-- `_psl_halt_reason`; `clear` is the empty text.
pub data PslHalt : Type 0 where
  clear : PslHalt
  no_list : PslHalt
  no_version : Text → PslHalt
  too_old : Option Text → Option Text → PslHalt

pub record Policy : Type 0 where
  pub own_version : Option Text
  pub mxid : Text
  pub known_statuses : List String
  pub config_halted : Bool
  pub config_halt_reason : ConfigHalt
  pub rules_loaded : Bool
  pub recommendation : Text
  pub ban_reason : Text
  pub default_action : Action
  pub decision_map : List (String × Action)
  pub hold_targets : List Text
  pub write_policies_for_ip_literals : Bool
  pub stale_max_age_seconds : Option ℕ
  pub cleanup_bot_ids : List Text
  pub max_bans_per_etld1 : Option ℕ
  pub min_psl_version : Option ℕ
  pub min_psl_version_raw : Option Text
  pub psl_holder : Option PslHolder
  pub psl_halt_reason : PslHalt
  -- How often `_on_psl_floor_halt` has been called.
  pub floor_wakes : ℕ
  -- The local fold of the room: state key and content, which is empty for a removed rule.
  pub rules : List (Text × Fields)
  -- In milliseconds of the event loop's clock.
  pub min_interval : ℕ
  pub last_write : ℕ

-- `__init__`.
abbrev pub initial : Option Text → Text → List String → Option PslHolder → ℕ → Policy
initial own mxid known holder interval = record {
  own_version = own;
  mxid = mxid;
  known_statuses = known;
  config_halted = true;
  config_halt_reason = not_yet_read;
  rules_loaded = false;
  recommendation = [];
  ban_reason = codes "open registration";
  default_action = hold;
  decision_map = [];
  hold_targets = [];
  write_policies_for_ip_literals = false;
  stale_max_age_seconds = none;
  cleanup_bot_ids = [];
  max_bans_per_etld1 = none;
  min_psl_version = none;
  min_psl_version_raw = none;
  psl_holder = holder;
  psl_halt_reason = clear;
  floor_wakes = 0;
  rules = [];
  min_interval = interval;
  last_write = 0;
}

abbrev pub is_clear : PslHalt → Bool
is_clear clear = true
is_clear _ = false

unfoldable pub halted : Policy → Bool
halted p = p.config_halted || not p.rules_loaded || not (is_clear p.psl_halt_reason)

-- `psl`.
unfoldable pub active_psl : Policy → Option PublicSuffixList
active_psl p = elim p.psl_holder [ none ↦ none | some h ↦ h.current ]

abbrev same_option : Option Text → Option Text → Bool
same_option none none = true
same_option (some a) (some b) = same a b
same_option _ _ = false

-- `reason == self._psl_halt_reason`.
unfoldable pub same_halt : PslHalt → PslHalt → Bool
unfolding same
same_halt clear clear = true
same_halt no_list no_list = true
same_halt (no_version a) (no_version b) = same a b
same_halt (too_old a m) (too_old b n) = same_option a b && same_option m n
same_halt _ _ = false

-- `_set_psl_halt`.
unfoldable pub set_psl_halt : PslHalt → Policy → Policy
unfolding same_halt
set_psl_halt reason p = if same_halt reason p.psl_halt_reason then p else record p {
  psl_halt_reason = reason;
  floor_wakes = if is_clear reason then p.floor_wakes else p.floor_wakes + 1;
}

-- The halt that an active list is under a floor, by its version.
abbrev pub version_halt : PublicSuffixList → Option Text → Option ℕ → Option ℕ → PslHalt
version_halt active raw none v = clear
version_halt active raw (some floor) none = no_version active.source
version_halt active raw (some floor) (some v) =
    if ltb v floor then too_old active.version_raw raw else clear

-- The reason that `reevaluate_psl_floor` sets.
unfoldable pub psl_floor : Option ℕ → Option PublicSuffixList → Option ℕ → Option Text → PslHalt
psl_floor none active floor raw = clear
psl_floor (some cap) none floor raw = no_list
psl_floor (some cap) (some active) floor raw = version_halt active raw floor active.version

unfoldable pub reevaluate_psl_floor : Policy → Policy
unfolding set_psl_halt psl_floor active_psl
reevaluate_psl_floor p =
    set_psl_halt
      (psl_floor p.max_bans_per_etld1 (active_psl p) p.min_psl_version p.min_psl_version_raw) p

-- `_halt`.
unfoldable pub halt : ConfigHalt → Policy → Policy
halt reason p = record p { config_halted = true; config_halt_reason = reason }

abbrev pub find_action : String → List (String × Action) → Option Action
find_action status [] = none
find_action status ((k, a) ∷ rest) = if str_eq k status then some a else find_action status rest

-- `decide`.
unfoldable pub decide : Policy → String → Action
decide p status = elim (find_action status p.decision_map) [ some a ↦ a | none ↦ p.default_action ]
