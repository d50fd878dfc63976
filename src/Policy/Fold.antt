-- ===== src/Policy/Fold.antt =====
-- The local fold of room state in policy.py: the rules, and the guards that read them.
pub mod Scannable
pub mod Laws
use matrix_federation_scanne.Prelude.{
  ℕ, suc, ◌+◌, ◌≡◌, refl, Bool, true, false, not, ◌&&◌, ◌||◌, Option, none, some, String, str_eq,
  List, [], ◌∷◌, ◌++◌, leb, if◌then◌else◌, is_empty,
}
use matrix_federation_scanne.Prelude.Text.{Text, codes, contains, same, has}
use matrix_federation_scanne.Json.{Json, str, Fields, end, field, find, is_end}
use matrix_federation_scanne.Util.{strip_port, validate_server_name, is_ip_literal}
use matrix_federation_scanne.Psl.Rules.{PublicSuffixList}
use matrix_federation_scanne.Psl.Suffix.{etld1}
use matrix_federation_scanne.Policy.Glob.{glob_covers}
use matrix_federation_scanne.Policy.State.{Policy, active_psl}

abbrev pub RuleFold : Type 0
RuleFold = List (Text × Fields)

-- `rules.get(key)`; a missing rule reads as an empty one.
unfoldable pub rule_at : Text → RuleFold → Fields
unfolding same
rule_at key [] = end
rule_at key ((k, c) ∷ rest) = if same k key then c else rule_at key rest

-- `rules[key] = content`.
unfoldable pub put_rule : Text → Fields → RuleFold → RuleFold
unfolding same
put_rule key content [] = (key, content) ∷ []
put_rule key content ((k, c) ∷ rest) =
    if same k key then (key, content) ∷ rest else (k, c) ∷ put_rule key content rest

-- `bool(rules.get(key))`.
unfoldable pub is_banned : Text → RuleFold → Bool
unfolding rule_at
is_banned key rules = not (is_end (rule_at key rules))

unfoldable pub active_rules_in : RuleFold → ℕ
active_rules_in [] = 0
active_rules_in ((k, c) ∷ rest) = (if is_end c then 0 else 1) + active_rules_in rest

-- `active_rules`.
unfoldable pub active_rules : Policy → ℕ
unfolding active_rules_in
active_rules p = active_rules_in p.rules

-- `content.get("entity")` where it is a string.
unfoldable pub entity_of : Fields → Option Text
unfolding find
entity_of c = elim (find "entity" c) [ some (str s) ↦ some s | some _ ↦ none | none ↦ none ]

unfoldable pub is_glob : Text → Bool
unfolding has
is_glob s = has b'*' s || has b'?' s

abbrev covers : Option Text → Text → Bool
covers none entity = false
covers (some pat) entity = is_glob pat && glob_covers pat entity

-- `_covering_glob`: the first glob rule that covers the entity.
unfoldable pub covering_glob : Text → RuleFold → Option Text
covering_glob entity [] = none
covering_glob entity ((k, c) ∷ rest) =
    if covers (entity_of c) entity then entity_of c else covering_glob entity rest

-- The recommendation of a rule is the active one.
unfoldable pub recommends : Text → Fields → Bool
unfolding find same
recommends recommendation c = elim (find "recommendation" c) [
  | some (str s) ↦ same s recommendation
  | some _ ↦ false
  | none ↦ false
]

-- The entity of a rule that counts toward a cap: an exact rule under the active recommendation
-- whose entity is no IP literal. The body of the loop of `_etld1_ban_count` and `etld1s_at_cap`.
unfoldable pub counted_entity : Text → Fields → Option Text
counted_entity recommendation c = elim (entity_of c) [
  | none ↦ none
  | some e ↦
      if is_empty e || is_glob e || not (recommends recommendation c) || is_ip_literal e
      then none
      else some e
]

-- `psl.etld1(host)[0]`.
abbrev pub bucket : PublicSuffixList → Text → Text
bucket psl host = (etld1 psl host).0

unfoldable pub in_bucket : PublicSuffixList → Text → Text → Fields → Bool
in_bucket psl recommendation target c = elim (counted_entity recommendation c) [
  | none ↦ false
  | some e ↦ same (bucket psl e) target
]

unfoldable pub count_bans : PublicSuffixList → Text → Text → RuleFold → ℕ
count_bans psl recommendation target [] = 0
count_bans psl recommendation target ((k, c) ∷ rest) =
    (if in_bucket psl recommendation target c then 1 else 0)
    + count_bans psl recommendation target rest

-- `_etld1_ban_count`: the bucket of the entity, and how many bans it holds.
unfoldable pub etld1_ban_count : PublicSuffixList → Policy → Text → Text × ℕ
etld1_ban_count psl p entity =
    let target = bucket psl entity in (target, count_bans psl p.recommendation target p.rules)

-- The counts of `etld1s_at_cap`: how many rules each bucket holds.
unfoldable pub add_count : Text → List (Text × ℕ) → List (Text × ℕ)
unfolding same
add_count b [] = (b, 1) ∷ []
add_count b ((k, n) ∷ rest) = if same k b then (k, n + 1) ∷ rest else (k, n) ∷ add_count b rest

unfoldable pub bucket_counts :
    PublicSuffixList → Text → RuleFold → List (Text × ℕ) → List (Text × ℕ)
bucket_counts psl recommendation [] counts = counts
bucket_counts psl recommendation ((k, c) ∷ rest) counts =
    bucket_counts psl recommendation rest (elim (counted_entity recommendation c) [
      | none ↦ counts
      | some e ↦ add_count (bucket psl e) counts
    ])

unfoldable pub at_least : ℕ → List (Text × ℕ) → ℕ
at_least cap [] = 0
at_least cap ((k, n) ∷ rest) = (if leb cap n then 1 else 0) + at_least cap rest

unfoldable pub at_cap : Option ℕ → Option PublicSuffixList → Text → RuleFold → ℕ
at_cap (some cap) (some psl) recommendation rules =
    at_least cap (bucket_counts psl recommendation rules [])
at_cap _ _ recommendation rules = 0

-- `etld1s_at_cap`.
unfoldable pub etld1s_at_cap : Policy → ℕ
etld1s_at_cap p = at_cap p.max_bans_per_etld1 (active_psl p) p.recommendation p.rules

-- The portless domain that a rule gives the scanner, if it is scannable.
unfoldable pub scannable_domain : Fields → Option Text
unfolding entity_of is_glob strip_port validate_server_name
scannable_domain c = elim (entity_of c) [
  | none ↦ none
  | some e ↦
      let domain = strip_port e in
      if is_empty e || is_glob e || is_empty domain || not (validate_server_name domain)
      then none
      else some domain
]

unfoldable pub scannable_from : RuleFold → List Text → List Text
unfolding scannable_domain contains
scannable_from [] seen = []
scannable_from ((k, c) ∷ rest) seen = elim (scannable_domain c) [
  | none ↦ scannable_from rest seen
  | some d ↦
      if contains seen d then scannable_from rest seen else d ∷ scannable_from rest (d ∷ seen)
]

-- `scannable_entities`.
unfoldable pub scannable_entities : Policy → List Text
unfolding scannable_from
scannable_entities p = scannable_from p.rules []

-- A state event of the room, as `load_rules` reads it; `content` is what `_as_dict` gives.
pub record RoomEvent : Type 0 where
  pub is_state_event : Bool
  pub kind : String
  pub state_key : Text
  pub content : Fields

unfoldable pub fold_state : List RoomEvent → RuleFold → RuleFold
unfolding put_rule
fold_state [] rules = rules
fold_state (e ∷ es) rules = fold_state es (
    if e.is_state_event && str_eq e.kind "m.policy.rule.server"
    then put_rule e.state_key e.content rules
    else rules)

-- `load_rules`: `none` is a failed read. The fold is replaced only where the read succeeded.
unfoldable pub load_rules : Option (List RoomEvent) → Policy → Policy × Bool
unfolding fold_state
load_rules none p = (record p { rules_loaded = false }, false)
load_rules (some state) p = (record p { rules = fold_state state []; rules_loaded = true }, true)

-- `note_rule`.
unfoldable pub note_rule : Text → Fields → Policy → Policy
unfolding put_rule
note_rule state_key content p = record p { rules = put_rule state_key content p.rules }
