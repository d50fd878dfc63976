-- ===== src/Policy/Config/Gates.antt =====
-- The gates of `_apply_auto_config` that halt, and the step that each leaves.
use matrix_federation_scanne.Prelude.{ℕ, zero, suc, Option, none, some, ◌∷◌, ltb, if◌then◌else◌}
use matrix_federation_scanne.Prelude.Text.{Text}
use matrix_federation_scanne.Json.{Json, null, int, str, Fields, pos, negsuc, get_or}
use matrix_federation_scanne.Policy.Schema.{max_supported_schema_version}
use matrix_federation_scanne.Policy.BotVersion.{
  Parsed, unparsed, parsed, too_long, parse_bot_version, parse_version_text, version_lt,
}
use matrix_federation_scanne.Policy.State.{
  Policy, ConfigHalt, halt, schema_not_integer, schema_malformed, schema_unsupported,
  floor_malformed, own_version_unparseable, below_floor, recommendation_missing,
  psl_floor_malformed,
}

-- Goes on, has returned, or has raised an exception, each with the state that is left.
pub data Step : Type 0 where
  go : Policy → Step
  stop : Policy → Step
  raise : Policy → Step

infixl 5 ◌>>=◌
abbrev pub ◌>>=◌ : Step → (Policy → Step) → Step
go p >>= f = f p
stop p >>= f = stop p
raise p >>= f = raise p

-- The state after the call, whichever way it ended.
abbrev pub state_of : Step → Policy
state_of (go p) = p
state_of (stop p) = p
state_of (raise p) = p

unfoldable pub halt_for : ConfigHalt → Policy → Policy
unfolding halt
halt_for reason p = halt reason p

pub data Versioned : Type 0 where
  declares : ℕ → Policy → Versioned
  refused : Policy → Versioned

abbrev pub with_version : Versioned → (ℕ → Policy → Step) → Step
with_version (declares v p) f = f v p
with_version (refused p) f = stop p

-- The schema gate, on the value of `schema_version`. A `bool` is no `int` here.
unfoldable pub gate_version : Json → Policy → Versioned
unfolding halt
gate_version (int (negsuc n)) p = refused (halt schema_malformed p)
gate_version (int (pos zero)) p = refused (halt schema_malformed p)
gate_version (int (pos (suc n))) p =
    if ltb max_supported_schema_version (suc n)
    then refused (halt schema_unsupported p)
    else declares (suc n) p
gate_version _ p = refused (halt schema_not_integer p)

unfoldable pub schema_gate : Fields → Policy → Versioned
unfolding gate_version get_or
schema_gate d p = gate_version (get_or "schema_version" null d) p

abbrev pub own_bot_version : Option Text → Parsed
own_bot_version none = unparsed
own_bot_version (some raw) = parse_version_text raw

-- The bot-version floor, on a value that is there.
unfoldable pub compare_floor : Parsed → Policy → Step
unfolding halt parse_version_text version_lt
compare_floor unparsed p = stop (halt floor_malformed p)
compare_floor too_long p = raise p
compare_floor (parsed floor) p = elim (own_bot_version p.own_version) [
  | unparsed ↦ stop (halt own_version_unparseable p)
  | too_long ↦ raise p
  | parsed mine ↦ if version_lt mine floor then stop (halt below_floor p) else go p
]

unfoldable pub bot_floor_gate : Json → Policy → Step
unfolding compare_floor parse_bot_version
bot_floor_gate null p = go p
bot_floor_gate raw p = compare_floor (parse_bot_version raw) p

unfoldable pub recommendation_gate : Json → Policy → Step
unfolding halt
recommendation_gate (str (c ∷ s)) p = go (record p { recommendation = c ∷ s })
recommendation_gate _ p = stop (halt recommendation_missing p)

-- A floor that cannot be read halts exactly where a cap is configured.
unfoldable pub refuse_unreadable_floor : Policy → Step
unfolding halt
refuse_unreadable_floor p = elim p.max_bans_per_etld1 [
  | some cap ↦ stop (halt psl_floor_malformed p)
  | none ↦ go p
]
