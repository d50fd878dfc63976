-- ===== src/Regcheck/Flows.antt =====
-- `_flow_classification` and `classify_register_body` of regcheck.py.
use matrix_federation_scanne.Prelude.{
  Bool, true, false, ◌||◌, Option, none, some, List, [], ◌∷◌, all, any, if◌then◌else◌, is_some,
}
use matrix_federation_scanne.Prelude.Text.{Text, codes, contains}
use matrix_federation_scanne.Json.{Json, str, arr, obj, Items, nil, cons, find}

-- The status constants. `oauth_open` of taxonomy.py is never produced.
pub data Status : Type 0 where
  dangerously_open : Status
  freely_open : Status
  oauth : Status
  closed : Status
  unknown : Status

abbrev pub verifying_stages : List Text
verifying_stages =
    codes "m.login.email.identity"
    ∷ codes "m.login.msisdn"
    ∷ codes "m.login.recaptcha"
    ∷ codes "m.login.registration_token"
    ∷ codes "org.matrix.msc3231.login.registration_token"
    ∷ []

abbrev pub non_verifying : List Text
non_verifying = codes "m.login.dummy" ∷ codes "m.login.terms" ∷ []

-- `[s for s in stages if isinstance(s, str)]`.
unfoldable pub str_stages : Items → List Text
str_stages nil = []
str_stages (cons (str s) rest) = s ∷ str_stages rest
str_stages (cons _ rest) = str_stages rest

-- `_flow_classification`, behind its test that the stages are a list.
unfoldable pub flow_classification : Items → Option Status
unfolding str_stages contains
flow_classification stages =
    if any (contains verifying_stages) (str_stages stages)
    then none
    else if all (contains non_verifying) (str_stages stages)
    then some dangerously_open
    else some freely_open

-- The stages of a flow that the loop does not skip.
unfoldable pub flow_stages : Json → Option Items
unfolding find
flow_stages (obj d) = elim (find "stages" d) [ some (arr stages) ↦ some stages | _ ↦ none ]
flow_stages _ = none

-- The loop over the flows, with `saw_valid_flow` and `result`, and what follows it.
unfoldable pub scan_flows : Bool → Option Status → Items → Option Status
unfolding flow_stages flow_classification
scan_flows saw result nil =
    if saw then (elim result [ none ↦ some freely_open | some s ↦ some s ]) else none
scan_flows saw result (cons flow rest) =
    let skip = scan_flows saw result rest in
    let keep = scan_flows true result rest in
    let remember = scan_flows true (some freely_open) rest in
    elim (flow_stages flow) [
      | none ↦ skip
      | some stages ↦ elim (flow_classification stages) [
        | some dangerously_open ↦ some dangerously_open
        | some freely_open ↦ remember
        | _ ↦ keep
      ]
    ]

-- `classify_register_body`. (An empty list of flows gives nothing either way.)
unfoldable pub classify_register_body : Json → Option Status
unfolding find scan_flows
classify_register_body (obj d) = elim (find "flows" d) [
  | some (arr nil) ↦ none
  | some (arr (cons flow flows)) ↦ scan_flows false none (cons flow flows)
  | _ ↦ none
]
classify_register_body _ = none

-- The flows that a body lists.
abbrev pub flows_of : Json → Items
flows_of (obj d) = elim (find "flows" d) [ some (arr flows) ↦ flows | _ ↦ nil ]
flows_of _ = nil

-- A flow with a list of stages.
abbrev pub usable : Json → Bool
usable flow = is_some (flow_stages flow)

-- A flow with a list of stages of which every text is one of the two harmless stages.
abbrev pub frictionless : Json → Bool
frictionless flow = elim (flow_stages flow) [
  | none ↦ false
  | some stages ↦ all (contains non_verifying) (str_stages stages)
]

abbrev pub any_flow : (Json → Bool) → Items → Bool
any_flow p nil = false
any_flow p (cons flow rest) = p flow || any_flow p rest
