-- ===== src/Policy/Config/Windows.antt =====
-- `_apply_auto_config` and the schema windows of the fields.
use matrix_federation_scanne.Prelude.{
  ℕ, suc, ◌≡◌, ap, true, false, none, String, str_eq, List, [], ◌∷◌, arith, Bool-cases, inl, inr,
  ltb,
}
use mathlib.Core.Path.{fun_ext}
use matrix_federation_scanne.Json.{Json, Fields, null, int, pos, get_or, find}
use matrix_federation_scanne.Policy.Schema.{
  key_active, read_field, max_supported_schema_version, key_active_in, Window, schema_fields,
  window_of,
}
use matrix_federation_scanne.Policy.State.{Policy}
use matrix_federation_scanne.Policy.Config.{
  read_fields, read_soft_fields, set_soft_fields, apply_auto_config,
}
use matrix_federation_scanne.Policy.Config.Gates.{
  Step, ◌>>=◌, gate_version, schema_gate, bot_floor_gate,
}

-- Two events agree on every field that is live in schema version `v`.
pub record AgreeAt (v : ℕ) (d e : Fields) : Type 0 where
  pub at_key : (name : String) → key_active name v ≡ true → find name d ≡ find name e

-- Both events read alike, each in the schema version that it declares.
SameReads : ℕ → Fields → ℕ → Fields → Type 0
SameReads v d w e =
    (name : String) (default : Json) → read_field d name v default ≡ read_field e name w default

AgreeAt-SameReads : (v : ℕ) (d e : Fields) → AgreeAt v d e → SameReads v d v e
unfolding SameReads read_field get_or
AgreeAt-SameReads v d e h name default = elim (Bool-cases (key_active name v)) [
  | inl on ↦ ground (arith, h.at_key name on)
  | inr off ↦ rw off
]

module _ (v : ℕ) (d : Fields) (w : ℕ) (e : Fields) (h : SameReads v d w e) where
  set_soft_fields-agree : (p : Policy) → set_soft_fields d v p ≡ set_soft_fields e w p
  unfolding set_soft_fields SameReads
  set_soft_fields-agree p = simp h

  read_soft_fields-agree : (p : Policy) → read_soft_fields d v p ≡ read_soft_fields e w p
  unfolding read_soft_fields SameReads
  read_soft_fields-agree p = simp (set_soft_fields-agree, h)

  read_fields-agree : (p : Policy) → read_fields d v p ≡ read_fields e w p
  unfolding read_fields SameReads
  read_fields-agree p = simp (read_soft_fields-agree, h)

  floor_and_fields-agree :
      (p : Policy)
      → (bot_floor_gate (read_field d "min_bot_version" v null) p >>= read_fields d v)
        ≡ (bot_floor_gate (read_field e "min_bot_version" w null) p >>= read_fields e w)
  unfolding SameReads
  floor_and_fields-agree p = rw (h "min_bot_version" null) (
      ap (λ (f : Policy → Step). bot_floor_gate (read_field e "min_bot_version" w null) p >>= f)
        (fun_ext read_fields-agree))

-- Two events that declare the same positive schema version, and agree on the fields that are live
-- in it, have the same effect: a field outside its window is not read.
pub apply_auto_config-window :
    (v : ℕ) (d e : Fields) (p : Policy)
    → get_or "schema_version" null d ≡ int (pos (suc v))
    → get_or "schema_version" null e ≡ int (pos (suc v))
    → AgreeAt (suc v) d e
    → apply_auto_config d p ≡ apply_auto_config e p
unfolding apply_auto_config schema_gate gate_version
apply_auto_config-window v d e p dv ev h =
    rw (dv, ev)
      (elim (Bool-cases (ltb max_supported_schema_version (suc v))) [
        | inl over ↦ rw over
        | inr within ↦
            rw within
              (floor_and_fields-agree (suc v) d (suc v) e (AgreeAt-SameReads (suc v) d e h) p)
      ])

-- No window of the table closes.
abbrev AllOpen : List (String × Window) → Type 0
AllOpen [] = Unit
AllOpen ((k, w) ∷ rest) = (w.removed ≡ none) × AllOpen rest

key_active_in_mono :
    (table : List (String × Window)) (name : String)
    → AllOpen table
    → key_active_in table name 1 ≡ true
    → key_active_in table name 2 ≡ true
unfolding key_active_in window_of
key_active_in_mono [] name o h = cc
key_active_in_mono ((k, w) ∷ rest) name o h = elim (Bool-cases (str_eq k name)) [
  | inl here ↦ ground (arith, h, o.0)
  | inr there ↦ rw there (key_active_in_mono rest name o.1 (rw there at h))
]

key_active_mono : (name : String) → key_active name 1 ≡ true → key_active name 2 ≡ true
unfolding key_active schema_fields
key_active_mono name h = key_active_in_mono schema_fields name (ground arith) h

relabel-SameReads :
    (d e : Fields)
    → AgreeAt 1 d e
    → ((name : String) → key_active name 1 ≡ false → key_active name 2 ≡ true → find name e ≡ none)
    → SameReads 1 d 2 e
unfolding SameReads read_field get_or
relabel-SameReads d e h absent name default = elim (Bool-cases (key_active name 1)) [
  | inl on ↦ ground (arith, h.at_key name on, key_active_mono name on)
  | inr off ↦ elim (Bool-cases (key_active name 2)) [
    | inl new ↦ ground (arith, absent name off new)
    | inr never ↦ rw (off, never)
  ]
]

-- An event without any v2 field has the same effect under `schema_version: 1` and under
-- `schema_version: 2`, given that the two events agree on the v1 fields.
pub relabel_v1 :
    (d e : Fields) (p : Policy)
    → get_or "schema_version" null d ≡ int (pos 1)
    → get_or "schema_version" null e ≡ int (pos 2)
    → AgreeAt 1 d e
    → ((name : String) → key_active name 1 ≡ false → key_active name 2 ≡ true → find name e ≡ none)
    → apply_auto_config d p ≡ apply_auto_config e p
unfolding apply_auto_config schema_gate gate_version
relabel_v1 d e p dv ev h absent =
    rw (dv, ev) (floor_and_fields-agree 1 d 2 e (relabel-SameReads d e h absent) p)
