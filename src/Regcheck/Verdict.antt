-- ===== src/Regcheck/Verdict.antt =====
-- What `classify_register_body` makes of the flows that a body lists.
use matrix_federation_scanne.Prelude.{
  ◌≡◌, refl, sym, ◌⊎◌, inl, inr, Bool, true, false, ◌||◌, Option, none, some, List, [], ◌∷◌, arith,
  Bool-cases, Option-cases, all, any, if◌then◌else◌, and_true,
}
use matrix_federation_scanne.Prelude.Text.{Text, codes, contains, same}
use matrix_federation_scanne.Prelude.Text.Same.{same_iff}
use matrix_federation_scanne.Json.{Json, Items, nil, cons, arr, obj, find}
use matrix_federation_scanne.Regcheck.Flows.{
  Status, dangerously_open, freely_open, verifying_stages, non_verifying, str_stages,
  flow_classification, flow_stages, scan_flows, classify_register_body, flows_of, usable,
  frictionless, any_flow,
}

dummy_or_terms :
    (s : Text)
    → contains non_verifying s ≡ true
    → (codes "m.login.dummy" ≡ s) ⊎ (codes "m.login.terms" ≡ s)
unfolding contains
dummy_or_terms s h =
    ground (arith, same_iff (codes "m.login.dummy") s, same_iff (codes "m.login.terms") s)

-- No stage stands in both lists.
harmless : (s : Text) → contains non_verifying s ≡ true → contains verifying_stages s ≡ false
unfolding contains same
harmless s h = elim (dummy_or_terms s h) [ inl e ↦ rw (sym e) refl | inr e ↦ rw (sym e) refl ]

all_harmless :
    (l : List Text)
    → all (contains non_verifying) l ≡ true
    → any (contains verifying_stages) l ≡ false
all_harmless [] h = refl
all_harmless (s ∷ l) h =
    let (head, tail) = and_true (contains non_verifying s) (all (contains non_verifying) l) h in
    rw (harmless s head) (all_harmless l tail)

-- The verdict on a flow is dangerous exactly where all of its texts are harmless stages.
flow_dangerous :
    (stages : Items)
    → all (contains non_verifying) (str_stages stages) ≡ true
    → flow_classification stages ≡ some dangerously_open
unfolding flow_classification
flow_dangerous stages h = rw (all_harmless (str_stages stages) h, h) refl

-- What the loop leaves, told by the flows that it still has to read.
abbrev told : Bool → Option Status → Items → Option Status
told saw result flows =
    if any_flow frictionless flows
    then some dangerously_open
    else if saw || any_flow usable flows
    then some freely_open
    else none

abbrev Started : Bool → Option Status → Type 0
Started saw result = (result ≡ none) ⊎ ((saw ≡ true) × (result ≡ some freely_open))

keeps_Started : (saw : Bool) (result : Option Status) → Started saw result → Started true result
keeps_Started saw result h = ground arith

-- The verdict on a flow with a stage that is not harmless.
flow_other :
    (stages : Items)
    → all (contains non_verifying) (str_stages stages) ≡ false
    → (flow_classification stages ≡ none) ⊎ (flow_classification stages ≡ some freely_open)
unfolding flow_classification
flow_other stages h = ground arith

scan_flows_lem :
    (saw : Bool) (result : Option Status) (flows : Items)
    → Started saw result
    → scan_flows saw result flows ≡ told saw result flows
unfolding scan_flows
scan_flows_lem saw result nil h = ground arith
scan_flows_lem saw result (cons flow rest) h = elim (Option-cases (flow_stages flow)) [
  | inl skipped ↦ ground (arith, skipped, scan_flows_lem saw result rest h)
  | inr (stages, kept) ↦ elim (Bool-cases (all (contains non_verifying) (str_stages stages))) [
    | inl free ↦ ground (arith, kept, free, flow_dangerous stages free)
    | inr friction ↦ elim (flow_other stages friction) [
      | inl guarded ↦ ground (
        arith,
        kept,
        guarded,
        friction,
        scan_flows_lem true result rest (keeps_Started saw result h),
      )
      | inr unfamiliar ↦ ground (
        arith,
        kept,
        unfamiliar,
        friction,
        scan_flows_lem true (some freely_open) rest (inr (refl, refl)),
      )
    ]
  ]
]

-- Where a body lists a flow whose every text is `m.login.dummy` or `m.login.terms` the verdict is
-- `dangerously_open`; where it lists no such flow, but one with a list of stages, it is `open`;
-- where it lists neither, there is none.
pub classify_register_body_lem :
    (body : Json)
    → classify_register_body body ≡ (
        if any_flow frictionless (flows_of body)
        then some dangerously_open
        else if any_flow usable (flows_of body)
        then some freely_open
        else none)
unfolding classify_register_body
classify_register_body_lem (obj d) = from (find "flows" d)
  where
    from :
        (v : Option Json)
        → (elim v [
          | some (arr nil) ↦ none
          | some (arr (cons flow flows)) ↦ scan_flows false none (cons flow flows)
          | _ ↦ none
        ])
          ≡ told false none (elim v [ some (arr flows) ↦ flows | _ ↦ nil ])
    from none = refl
    from (some (arr nil)) = refl
    from (some (arr (cons flow flows))) = scan_flows_lem false none (cons flow flows) (inl refl)
    from (some _) = refl
classify_register_body_lem _ = refl
