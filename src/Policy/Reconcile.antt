-- ===== src/Policy/Reconcile.antt =====
-- `reconcile` and `consider_stale_cleanup` of policy.py.
pub mod Guards
pub mod Sent
pub mod Cleanup
pub mod Repeat
pub mod Cap
pub mod Concurrent
-- Parameters: the key function of `_state_key` (SHA-256 and Base64 of the entity and the
-- recommendation), the database accessor, `json.loads` and the homeserver.
use matrix_federation_scanne.Prelude.{
  ℕ, ◌+◌, ◌-◌, ◌≡◌, refl, Bool, true, false, not, ◌&&◌, ◌||◌, Option, none, some, String, str_eq,
  List, [], ◌∷◌, ◌++◌, leb, if◌then◌else◌,
}
use matrix_federation_scanne.Prelude.Text.{Text, contains}
use matrix_federation_scanne.Json.{Json, str, Fields, end, field}
use matrix_federation_scanne.Util.{strip_port, is_ip_literal}
use matrix_federation_scanne.Psl.Rules.{PublicSuffixList}
use matrix_federation_scanne.Policy.State.{
  Policy, Action, ban, unban, hold, halted, active_psl, decide,
}
use matrix_federation_scanne.Policy.Fold.{is_banned, covering_glob, etld1_ban_count}
use matrix_federation_scanne.Policy.Write.{Attempt, LoopEnd, Written, write}

-- What the outside gives the policy layer.
pub record Env : Type 0 where
  pub key_of : Text → Text
  pub domain_statuses : Text → List (Text × String)
  pub loads : Text → Option Json
  pub server : ℕ → Attempt
  -- The event loop's clock when a write begins.
  pub time : ℕ

-- Why nothing was written, in the order of the guards.
pub data Skip : Type 0 where
  policy_halted held undecided ip_literal : Skip
  already_banned : Skip
  covered : Text → Skip
  at_cap : Text → ℕ → Skip
  not_banned pinned : Skip
  cleanup_off not_stale no_clock too_young : Skip

pub data Report : Type 0 where
  skipped : Skip → Policy → Report
  -- The state key and the content of the write, and what came of it.
  wrote : Text → Fields → Written → Report
  out_of_fuel : Report

unfoldable pub state_key : Env → Policy → Text → Text
state_key env p entity = env.key_of (entity ++ p.recommendation)

-- The content of a ban.
abbrev pub ban_content : Policy → Text → Fields
ban_content p entity =
    field "entity" (str entity)
      (field "recommendation" (str p.recommendation) (field "reason" (str p.ban_reason) end))

unfoldable pub any_ban : Policy → List (Text × String) → Bool
unfolding decide
any_ban p [] = false
any_ban p ((target, status) ∷ rest) = elim (decide p status) [
  | ban ↦ true
  | unban ↦ any_ban p rest
  | hold ↦ any_ban p rest
]

-- `_domain_has_ban`.
unfoldable pub domain_has_ban : Env → Policy → Text → Bool
domain_has_ban env p domain = any_ban p (env.domain_statuses domain)

unfoldable pub send : Env → Text → Fields → Policy → Report
send env key content p = elim (write env.loads env.server env.time key content p) [
  | none ↦ out_of_fuel
  | some w ↦ wrote key content w
]

-- The per-eTLD+1 guard: `some` where it refuses the ban. It is off without a cap, without a list,
-- and for an IP literal.
unfoldable pub cap_refuses : Policy → Text → Option (Text × ℕ)
cap_refuses p entity = elim p.max_bans_per_etld1 [
  | none ↦ none
  | some cap ↦ elim (active_psl p) [
    | none ↦ none
    | some psl ↦
        let (etld1, n) = etld1_ban_count psl p entity in
        if is_ip_literal entity then none else if leb cap n then some (etld1, n) else none
  ]
]

-- The branch `action == "ban"`.
unfoldable pub reconcile_ban : Env → Text → Text → Policy → Report
reconcile_ban env entity key p =
    if is_banned key p.rules
    then skipped already_banned p
    else (elim (covering_glob entity p.rules) [
      | some glob ↦ skipped (covered glob) p
      | none ↦ elim (cap_refuses p entity) [
        | some (etld1, n) ↦ skipped (at_cap etld1 n) p
        | none ↦ send env key (ban_content p entity) p
      ]
    ])

-- The branch `action == "unban" and currently_banned`.
unfoldable pub reconcile_unban : Env → Text → Text → Policy → Report
reconcile_unban env entity key p =
    if not (is_banned key p.rules)
    then skipped not_banned p
    else if domain_has_ban env p entity
    then skipped pinned p
    else send env key end p

-- The branches behind the hold test.
unfoldable pub reconcile_entity : Env → Text → String → Policy → Report
reconcile_entity env entity status p = elim (decide p status) [
  | hold ↦ skipped undecided p
  | ban ↦
      if not p.write_policies_for_ip_literals && is_ip_literal entity
      then skipped ip_literal p
      else reconcile_ban env entity (state_key env p entity) p
  | unban ↦
      if not p.write_policies_for_ip_literals && is_ip_literal entity
      then skipped ip_literal p
      else reconcile_unban env entity (state_key env p entity) p
]

-- `reconcile`.
unfoldable pub reconcile : Env → Text → String → Policy → Report
reconcile env scan_target status p =
    let entity = strip_port scan_target in
    if halted p
    then skipped policy_halted p
    else if contains p.hold_targets entity
    then skipped held p
    else reconcile_entity env entity status p

-- `cleanup_enabled`: the threshold, where this bot is an authorised cleaner.
unfoldable pub cleanup_threshold : Policy → Option ℕ
unfolding contains
cleanup_threshold p = if contains p.cleanup_bot_ids p.mxid then p.stale_max_age_seconds else none

abbrev pub stale_status : String
stale_status = "unknown"

-- The guards behind the age test.
unfoldable pub cleanup_entity : Env → Text → Policy → Report
cleanup_entity env entity p =
    let key = state_key env p entity in
    if contains p.hold_targets entity
    then skipped held p
    else if not (is_banned key p.rules)
    then skipped not_banned p
    else if domain_has_ban env p entity
    then skipped pinned p
    else send env key end p

-- `age < threshold`, with `age = now - since`.
abbrev pub is_young : ℕ → ℕ → ℕ → Bool
is_young now since threshold = leb (now + 1) (since + threshold)

-- `consider_stale_cleanup`, at the wall clock `now`.
unfoldable pub consider_stale_cleanup : Env → ℕ → Text → String → Option ℕ → Policy → Report
consider_stale_cleanup env now scan_target status status_since p =
    if halted p then skipped policy_halted p else (elim (cleanup_threshold p) [
      | none ↦ skipped cleanup_off p
      | some threshold ↦
          if not (str_eq status stale_status) then skipped not_stale p else (elim status_since [
            | none ↦ skipped no_clock p
            | some since ↦
                if is_young now since threshold
                then skipped too_young p
                else cleanup_entity env (strip_port scan_target) p
          ])
    ])

-- The state after the call.
abbrev pub policy_after : Policy → Report → Policy
policy_after p (skipped why q) = q
policy_after p (wrote key content w) = w.policy
policy_after p out_of_fuel = p
