-- ===== src/Policy/Config/Unhashable.antt =====
-- A list or a dict where `_apply_auto_config` expects an action.
use matrix_federation_scanne.Prelude.{ℕ, ◌≡◌, refl, ◌∷◌}
use matrix_federation_scanne.Prelude.Text.{Text, codes}
use matrix_federation_scanne.Json.{Fields, Items, null, int, pos, str, arr, get_or}
use matrix_federation_scanne.Policy.Schema.{read_field}
use matrix_federation_scanne.Policy.State.{Policy, halted}
use matrix_federation_scanne.Policy.Config.{
  apply_auto_config, ban_reason_of, read_fields, read_soft_fields, set_default_action,
  lookup_action,
}
use matrix_federation_scanne.Policy.Config.Gates.{
  raise, schema_gate, gate_version, bot_floor_gate, recommendation_gate,
}

module _ (d : Fields) (p : Policy) (c : ℕ) (name : Text) (items : Items) where
  -- An event that passes the gates and has a list for its `default_action`.
  pub record ListAction : Type 0 where
    pub declared : get_or "schema_version" null d ≡ int (pos 1)
    pub no_floor : read_field d "min_bot_version" 1 null ≡ null
    pub recommended : read_field d "recommendation" 1 null ≡ str (c ∷ name)
    pub listed : read_field d "default_action" 1 (str (codes "hold")) ≡ arr items

  -- An event of schema version 1 without a bot floor, with a recommendation and with a list for its
  -- `default_action` makes `_apply_auto_config` raise; what is left has the new recommendation with
  -- the old decisions and the old hold list, and is halted exactly as it was before.
  pub apply_auto_config-raises :
      ListAction
      → (q : Policy) × (apply_auto_config d p ≡ raise q)
        × (q.recommendation ≡ c ∷ name)
        × (q.decision_map ≡ p.decision_map)
        × (q.default_action ≡ p.default_action)
        × (q.hold_targets ≡ p.hold_targets)
        × (halted q ≡ halted p)
  unfolding apply_auto_config schema_gate gate_version bot_floor_gate read_fields
      recommendation_gate read_soft_fields set_default_action lookup_action halted
  apply_auto_config-raises e = (
    record p {
      recommendation = c ∷ name;
      ban_reason = ban_reason_of (read_field d "ban_reason" 1 null);
    },
    rw (e.declared, e.no_floor, e.recommended, e.listed),
    refl,
    refl,
    refl,
    refl,
    refl,
  )
