-- ===== src/Policy/ConfigTests.antt =====
-- The configuration and the suffix-list floor at concrete events.
use matrix_federation_scanne.Prelude.{
  ℕ, ◌≡◌, refl, sym, inl, inr, ◌↔◌, true, false, none, some, String, str_eq, eq_iff, arith,
  Bool-cases,
}
use matrix_federation_scanne.Prelude.Text.{codes}
use matrix_federation_scanne.Json.{Fields, end, field, int, pos, str, arr, nil, get_or, find}
use matrix_federation_scanne.Policy.Schema.{key_active, read_field}
use matrix_federation_scanne.Policy.State.{
  Policy, halted, too_old, active_psl, is_clear, reevaluate_psl_floor,
}
use matrix_federation_scanne.Policy.Fold.{load_rules}
use matrix_federation_scanne.Policy.Config.{apply_auto_config}
use matrix_federation_scanne.Policy.Config.Gates.{raise, state_of}
use matrix_federation_scanne.Policy.Config.Closed.{
  Closed, apply_auto_config-Closed, load_failure_stays,
}
use matrix_federation_scanne.Policy.Config.Windows.{AgreeAt, apply_auto_config-window, relabel_v1}
use matrix_federation_scanne.Policy.Config.Unhashable.{ListAction, apply_auto_config-raises}
use matrix_federation_scanne.Policy.Floor.{Satisfies, reevaluate_iff}
use matrix_federation_scanne.Policy.Tests.{sample}

abbrev event : ℕ → Fields → Fields
event version rest =
    field "schema_version" (int (pos version)) (field "recommendation" (str (codes "m.ban")) rest)

abbrev capped : Fields
capped =
    event 2
      (field "max_bans_per_etld1" (int (pos 5)) (field "default_action" (str (codes "ban")) end))

apply_auto_config-Closed_example : Closed sample (apply_auto_config capped sample)
apply_auto_config-Closed_example = apply_auto_config-Closed capped sample

load_failure_stays_example :
    halted (state_of (apply_auto_config capped (load_rules none sample).0)) ≡ true
load_failure_stays_example = load_failure_stays capped sample

-- A v2 field in an event of version 1.
abbrev ahead : Fields
ahead = event 1 (field "max_bans_per_etld1" (int (pos 5)) end)

ahead-AgreeAt : AgreeAt 1 (event 1 end) ahead
unfolding find key_active
ahead-AgreeAt = record {
  at_key = λ name on. elim (Bool-cases (str_eq "max_bans_per_etld1" name)) [
    | inl same ↦ cc (rw (sym ((eq_iff "max_bans_per_etld1" name).0 same)) at on)
    | inr other ↦ ground (arith, other)
  ];
}

apply_auto_config-window_example :
    apply_auto_config (event 1 end) sample ≡ apply_auto_config ahead sample
unfolding get_or
apply_auto_config-window_example =
    apply_auto_config-window 0 (event 1 end) ahead sample refl refl ahead-AgreeAt

relabelled-AgreeAt : AgreeAt 1 (event 1 end) (event 2 end)
unfolding find key_active
relabelled-AgreeAt = record {
  at_key = λ name on. elim (Bool-cases (str_eq "schema_version" name)) [
    | inl same ↦ cc (rw (sym ((eq_iff "schema_version" name).0 same)) at on)
    | inr other ↦ ground (arith, other)
  ];
}

no_v2_field :
    (name : String)
    → key_active name 1 ≡ false
    → key_active name 2 ≡ true
    → find name (event 2 end) ≡ none
unfolding find key_active
no_v2_field name off on = elim (Bool-cases (str_eq "schema_version" name)) [
  | inl same ↦ cc (rw (sym ((eq_iff "schema_version" name).0 same)) at on)
  | inr other ↦ elim (Bool-cases (str_eq "recommendation" name)) [
    | inl same ↦ cc (rw (sym ((eq_iff "recommendation" name).0 same)) at off)
    | inr third ↦ ground (arith, other, third)
  ]
]

relabel_v1_example : apply_auto_config (event 1 end) sample ≡ apply_auto_config (event 2 end) sample
unfolding get_or
relabel_v1_example =
    relabel_v1 (event 1 end) (event 2 end) sample refl refl relabelled-AgreeAt no_v2_field

abbrev listed : Fields
listed = event 1 (field "default_action" (arr nil) end)

listed-ListAction : ListAction listed sample b'm' (codes ".ban") nil
unfolding get_or read_field
listed-ListAction = record { declared = refl; no_floor = refl; recommended = refl; listed = refl }

apply_auto_config-raises_example :
    (q : Policy) × (apply_auto_config listed sample ≡ raise q)
    × (q.recommendation ≡ codes "m.ban")
    × (q.decision_map ≡ sample.decision_map)
    × (q.default_action ≡ sample.default_action)
    × (q.hold_targets ≡ sample.hold_targets)
    × (halted q ≡ halted sample)
apply_auto_config-raises_example =
    apply_auto_config-raises listed sample b'm' (codes ".ban") nil listed-ListAction

abbrev outdated : Policy
outdated = record sample { min_psl_version = some 25; psl_halt_reason = too_old none none }

reevaluate_iff_example :
    (is_clear (reevaluate_psl_floor outdated).psl_halt_reason ≡ true)
    ↔ Satisfies (some 1) (active_psl outdated) (some 25)
reevaluate_iff_example = reevaluate_iff outdated
