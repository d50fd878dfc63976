-- ===== src/Policy/Config/Closed.antt =====
-- `_apply_auto_config` and the halt sources, by the way that it ends.
use matrix_federation_scanne.Prelude.{
  ℕ, zero, suc, ◌≡◌, refl, sym, ◌∙◌, ◌≢◌, true, false, none, [], ◌∷◌, arith,
}
use matrix_federation_scanne.Prelude.Text.{codes}
use matrix_federation_scanne.Json.{Json, Fields, null, int, pos, str, obj, end, get_or}
use matrix_federation_scanne.Policy.BotVersion.{
  Parsed, unparsed, parsed, too_long, parse_bot_version,
}
use matrix_federation_scanne.Policy.Schema.{read_field}
use matrix_federation_scanne.Policy.State.{
  Policy, halted, PslHalt, halt, recommendation_missing, reevaluate_psl_floor, set_psl_halt,
  psl_floor, active_psl,
}
use matrix_federation_scanne.Policy.Fold.{load_rules}
use matrix_federation_scanne.Policy.Config.{
  ban_reason_of, read_soft_fields, set_default_action, set_decision_map, set_soft_fields,
  set_psl_floor, resume, read_fields, apply_auto_config,
}
use matrix_federation_scanne.Policy.Config.Gates.{
  Step, go, stop, raise, ◌>>=◌, state_of, Versioned, declares, refused, with_version, gate_version,
  schema_gate, compare_floor, bot_floor_gate, recommendation_gate, refuse_unreadable_floor,
}

-- What a step may leave of the state `p` that it began in: the fold and its flag are as they were;
-- a step that returns early is halted; one that went on keeps the halt as it was.
pub record Kept (p q : Policy) : Type 0 where
  pub rules : q.rules ≡ p.rules
  pub loaded : q.rules_loaded ≡ p.rules_loaded

Kept-refl : (p : Policy) → Kept p p
Kept-refl p = record { rules = refl; loaded = refl }

Kept-trans : (p q r : Policy) → Kept p q → Kept q r → Kept p r
Kept-trans p q r h k = ground arith

abbrev Ends : Policy → Step → Type 0
Ends p (go q) =
    Kept p q × (q.config_halted ≡ p.config_halted) × (q.recommendation ≡ p.recommendation)
Ends p (stop q) = Kept p q × (q.config_halted ≡ true)
Ends p (raise q) = Kept p q × (q.config_halted ≡ p.config_halted)

Ends-bind :
    (p : Policy) (s : Step) (f : Policy → Step)
    → Ends p s
    → ((q : Policy) → Ends q (f q))
    → Ends p (s >>= f)
Ends-bind p (stop q) f h k = h
Ends-bind p (raise q) f h k = h
Ends-bind p (go q) f h k = go_on (f q) (k q)
  where
    go_on : (t : Step) → Ends q t → Ends p t
    go_on (go r) e = (Kept-trans p q r h.0 e.0, e.1 ∙ h.1, e.2 ∙ h.2)
    go_on (stop r) e = (Kept-trans p q r h.0 e.0, e.1)
    go_on (raise r) e = (Kept-trans p q r h.0 e.0, e.1 ∙ h.1)

bot_floor_gate-Ends : (j : Json) (p : Policy) → Ends p (bot_floor_gate j p)
unfolding bot_floor_gate compare_floor halt
bot_floor_gate-Ends null p = (Kept-refl p, refl, refl)
bot_floor_gate-Ends j p = from (parse_bot_version j)
  where
    from : (f : Parsed) → Ends p (compare_floor f p)
    from unparsed = (record { rules = refl; loaded = refl }, refl)
    from too_long = (Kept-refl p, refl)
    from (parsed f) = ground arith

set_default_action-Ends : (j : Json) (p : Policy) → Ends p (set_default_action j p)
unfolding set_default_action
set_default_action-Ends j p = ground arith

set_decision_map-Ends : (j : Json) (p : Policy) → Ends p (set_decision_map j p)
unfolding set_decision_map
set_decision_map-Ends j p = ground arith

set_soft_fields-Ends : (d : Fields) (v : ℕ) (p : Policy) → Ends p (go (set_soft_fields d v p))
unfolding set_soft_fields
set_soft_fields-Ends d v p = (record { rules = refl; loaded = refl }, refl, refl)

set_psl_floor-Ends : (j : Json) (p : Policy) → Ends p (set_psl_floor j p)
unfolding set_psl_floor refuse_unreadable_floor halt
set_psl_floor-Ends null p = (record { rules = refl; loaded = refl }, refl, refl)
set_psl_floor-Ends j p = ground arith

-- How `_apply_auto_config` may end, by the way that it ended.
abbrev pub Closed : Policy → Step → Type 0
Closed p (go q) = Kept p q × (q.config_halted ≡ false) × (q.recommendation ≢ [])
Closed p (stop q) = Kept p q × (halted q ≡ true)
Closed p (raise q) = Kept p q × (q.config_halted ≡ p.config_halted)

set_psl_halt-Kept :
    (r : PslHalt) (p : Policy)
    → Kept p (set_psl_halt r p) × ((set_psl_halt r p).recommendation ≡ p.recommendation)
unfolding set_psl_halt
set_psl_halt-Kept r p = ground arith

resume-Closed : (p q : Policy) → Kept p q → q.recommendation ≢ [] → Closed p (go (resume q))
unfolding resume reevaluate_psl_floor
resume-Closed p q k n =
    let reason =
      psl_floor q.max_bans_per_etld1 (active_psl q) q.min_psl_version q.min_psl_version_raw in
    let kept = set_psl_halt-Kept reason q in
    (
      record { rules = kept.0.rules ∙ k.rules; loaded = kept.0.loaded ∙ k.loaded },
      refl,
      λ e. n (sym kept.1 ∙ e),
    )

Ends-resume :
    (p q : Policy) (s : Step)
    → Kept p q
    → q.recommendation ≢ []
    → q.config_halted ≡ p.config_halted
    → Ends q s
    → Closed p (s >>= λ r. go (resume r))
unfolding halted
Ends-resume p q (go r) k n c e = resume-Closed p r (Kept-trans p q r k e.0) (λ z. n (sym e.2 ∙ z))
Ends-resume p q (stop r) k n c e = (Kept-trans p q r k e.0, rw e.1)
Ends-resume p q (raise r) k n c e = (Kept-trans p q r k e.0, e.1 ∙ c)

abbrev default_of : Fields → ℕ → Json
default_of d v = read_field d "default_action" v (str (codes "hold"))

abbrev map_of : Fields → ℕ → Json
map_of d v = read_field d "decision_map" v (obj end)

abbrev floor_of : Fields → ℕ → Json
floor_of d v = read_field d "min_psl_version" v null

read_soft_fields-Ends : (d : Fields) (v : ℕ) (p : Policy) → Ends p (read_soft_fields d v p)
unfolding read_soft_fields
read_soft_fields-Ends d v p =
    let p₁ : Policy = record p { ban_reason = ban_reason_of (read_field d "ban_reason" v null) } in
    Ends-bind p (go p₁) _ (record { rules = refl; loaded = refl }, refl, refl)
      λ p₁.
        Ends-bind p₁ (set_default_action (default_of d v) p₁) _
          (set_default_action-Ends (default_of d v) p₁)
          λ p₂.
            Ends-bind p₂ (set_decision_map (map_of d v) p₂) _
              (set_decision_map-Ends (map_of d v) p₂)
              λ p₃.
                Ends-bind p₃ (go (set_soft_fields d v p₃)) _ (set_soft_fields-Ends d v p₃)
                  λ p₄. set_psl_floor-Ends (floor_of d v) p₄

read_fields-Closed :
    (d : Fields) (v : ℕ) (p q : Policy)
    → Kept p q
    → q.config_halted ≡ p.config_halted
    → Closed p (read_fields d v q)
unfolding read_fields recommendation_gate halted halt
read_fields-Closed d v p q k c = from (read_field d "recommendation" v null)
  where
    stopped :
        Closed p
          (stop (record q { config_halted = true; config_halt_reason = recommendation_missing }))
    stopped = (record { rules = k.rules; loaded = k.loaded }, refl)

    from :
        (j : Json)
        → Closed p (recommendation_gate j q >>= λ r. read_soft_fields d v r >>= λ s. go (resume s))
    from (str (c₁ ∷ s)) =
        let r : Policy = record q { recommendation = c₁ ∷ s } in
        Ends-resume p r (read_soft_fields d v r) (record { rules = k.rules; loaded = k.loaded })
          (λ z. ground arith) c (read_soft_fields-Ends d v r)
    from (str []) = stopped
    from null = stopped
    from _ = stopped

floor_then-Closed :
    (d : Fields) (v : ℕ) (p q : Policy) (s : Step)
    → Kept p q
    → q.config_halted ≡ p.config_halted
    → Ends q s
    → Closed p (s >>= read_fields d v)
unfolding halted
floor_then-Closed d v p q (go r) k c e =
    read_fields-Closed d v p r (Kept-trans p q r k e.0) (e.1 ∙ c)
floor_then-Closed d v p q (stop r) k c e = (Kept-trans p q r k e.0, rw e.1)
floor_then-Closed d v p q (raise r) k c e = (Kept-trans p q r k e.0, e.1 ∙ c)

Gated : Policy → Versioned → Type 0
Gated p (declares v q) = Kept p q × (q.config_halted ≡ p.config_halted)
Gated p (refused q) = Kept p q × (halted q ≡ true)

gate_version-Gated : (j : Json) (p : Policy) → Gated p (gate_version j p)
unfolding gate_version halted halt Gated
gate_version-Gated (int (pos (suc n))) p = ground arith
gate_version-Gated (int (pos zero)) p = ground arith
gate_version-Gated _ p = ground arith

-- `_apply_auto_config` either runs, and then the configuration halts no longer and the
-- recommendation is not empty; or returns early, and then the policy is halted; or raises, and
-- then the configuration's halt is as it was. Whichever way it ends, it touches neither the fold
-- of the rules nor the flag that the fold was loaded.
pub apply_auto_config-Closed : (d : Fields) (p : Policy) → Closed p (apply_auto_config d p)
unfolding apply_auto_config schema_gate Gated
apply_auto_config-Closed d p =
    from (gate_version (get_or "schema_version" null d) p)
      (gate_version-Gated (get_or "schema_version" null d) p)
  where
    from :
        (g : Versioned)
        → Gated p g
        → Closed p (
            with_version g
              λ v q. bot_floor_gate (read_field d "min_bot_version" v null) q >>= read_fields d v)
    from (declares v q) e =
        floor_then-Closed d v p q (bot_floor_gate (read_field d "min_bot_version" v null) q) e.0 e.1
          (bot_floor_gate-Ends (read_field d "min_bot_version" v null) q)
    from (refused q) e = e

-- A failed load of the rules is not cleared by any `auto_config`, well formed or not.
pub load_failure_stays :
    (d : Fields) (p : Policy) → halted (state_of (apply_auto_config d (load_rules none p).0)) ≡ true
unfolding load_rules halted
load_failure_stays d p =
    let q : Policy = record p { rules_loaded = false } in
    from (apply_auto_config d q) (apply_auto_config-Closed d q)
  where
    from : (s : Step) → Closed (record p { rules_loaded = false }) s → halted (state_of s) ≡ true
    from (go r) e = ground (arith, e.0.loaded)
    from (stop r) e = e.1
    from (raise r) e = ground (arith, e.0.loaded)
