-- ===== src/Policy/Reconcile/Guards.antt =====
-- The guards of `reconcile` and of the stale cleanup, as evidence for a write.
use matrix_federation_scanne.Prelude.{
  ◌≡◌, refl, ◌≢◌, ◌⊎◌, inl, inr, Bool, true, false, not, ◌&&◌, none, some, String, List, [], ◌∷◌,
  arith, Bool-cases, Option-cases,
}
use matrix_federation_scanne.Prelude.Text.{Text, contains}
use matrix_federation_scanne.Json.{Fields, end}
use matrix_federation_scanne.Util.{strip_port, is_ip_literal}
use matrix_federation_scanne.Policy.State.{Policy, Action, ban, unban, hold, halted, decide}
use matrix_federation_scanne.Policy.Fold.{is_banned, covering_glob}
use matrix_federation_scanne.Policy.Write.{Written, write}
use matrix_federation_scanne.Policy.Write.Laws.{write_returns}
use matrix_federation_scanne.Policy.Reconcile.{
  Env, Report, skipped, wrote, out_of_fuel, state_key, ban_content, any_ban, domain_has_ban, send,
  cap_refuses, reconcile_ban, reconcile_unban, reconcile_entity, reconcile,
}

-- No recorded target of the domain resolves to `ban`.
abbrev pub NoBan : Policy → List (Text × String) → Type 0
NoBan p [] = Unit
NoBan p ((target, status) ∷ rest) = (decide p status ≢ ban) × NoBan p rest

pub any_ban→NoBan : (p : Policy) (l : List (Text × String)) → any_ban p l ≡ false → NoBan p l
unfolding any_ban
any_ban→NoBan p [] h = tt
any_ban→NoBan p ((t, s) ∷ rest) h = ground (arith, any_ban→NoBan p rest)

pub record BanAllowed (env : Env) (entity : Text) (status : String) (p : Policy) : Type 0 where
  pub decided : decide p status ≡ ban
  pub literals : (p.write_policies_for_ip_literals ≡ true) ⊎ (is_ip_literal entity ≡ false)
  pub absent : is_banned (state_key env p entity) p.rules ≡ false
  pub uncovered : covering_glob entity p.rules ≡ none
  pub below_cap : cap_refuses p entity ≡ none

pub record UnbanAllowed (env : Env) (entity : Text) (status : String) (p : Policy) : Type 0 where
  pub decided : decide p status ≡ unban
  pub literals : (p.write_policies_for_ip_literals ≡ true) ⊎ (is_ip_literal entity ≡ false)
  pub banned : is_banned (state_key env p entity) p.rules ≡ true
  pub unpinned : NoBan p (env.domain_statuses entity)

-- What stands behind a write of `reconcile`: a ban with the content of a ban, or a removal.
abbrev pub Justified : Env → Text → String → Policy → Fields → Type 0
Justified env entity status p content =
    (BanAllowed env entity status p × (content ≡ ban_content p entity))
    ⊎ (UnbanAllowed env entity status p × (content ≡ end))

-- A report that left the state as it was, or a write of which a relation holds.
abbrev pub WroteOnly : (Text → Fields → Written → Type 0) → Policy → Report → Type 0
WroteOnly P p (skipped why q) = q ≡ p
WroteOnly P p (wrote key content w) = P key content w
WroteOnly P p out_of_fuel = ⊥

-- The result of the write with the parameters of the environment.
abbrev pub IsWrite : Env → Policy → Text → Fields → Written → Type 0
IsWrite env p key content w = write env.loads env.server env.time key content p ≡ some w

abbrev Sent : Env → Text → String → Policy → Text → Fields → Written → Type 0
Sent env entity status p key content w =
    (key ≡ state_key env p entity)
    × Justified env entity status p content
    × IsWrite env p key content w

pub send-WroteOnly :
    (P : Text → Fields → Written → Type 0) (env : Env) (key : Text) (content : Fields) (p : Policy)
    → ((w : Written) → IsWrite env p key content w → P key content w)
    → WroteOnly P p (send env key content p)
unfolding send
send-WroteOnly P env key content p h =
    let (w, eq) = write_returns env.loads env.server env.time key content p in
    rw (eq, send) (h w eq)

module _ (env : Env) (entity : Text) (status : String) (p : Policy)
    (literals : (p.write_policies_for_ip_literals ≡ true) ⊎ (is_ip_literal entity ≡ false)) where
  abbrev key_here : Text
  key_here = state_key env p entity

  ban-Sent :
      decide p status ≡ ban
      → WroteOnly (Sent env entity status p) p (reconcile_ban env entity key_here p)
  unfolding reconcile_ban
  ban-Sent d = elim (Bool-cases (is_banned key_here p.rules)) [
    | inl old ↦ rw old refl
    | inr absent ↦ elim (Option-cases (covering_glob entity p.rules)) [
      | inr (g, cov) ↦ rw (absent, cov, reconcile_ban) refl
      | inl uncovered ↦ elim (Option-cases (cap_refuses p entity)) [
        | inr (full, capped) ↦ rw (absent, uncovered, capped, reconcile_ban) refl
        | inl free ↦
            rw (absent, uncovered, free, reconcile_ban)
              (send-WroteOnly (Sent env entity status p) env key_here (ban_content p entity) p
                λ w eq. (
                  refl,
                  inl (
                    record {
                      decided = d;
                      literals = literals;
                      absent = absent;
                      uncovered = uncovered;
                      below_cap = free;
                    },
                    refl,
                  ),
                  eq,
                ))
      ]
    ]
  ]

  unban-Sent :
      decide p status ≡ unban
      → WroteOnly (Sent env entity status p) p (reconcile_unban env entity key_here p)
  unfolding reconcile_unban domain_has_ban
  unban-Sent d = elim (Bool-cases (is_banned key_here p.rules)) [
    | inr absent ↦ rw absent refl
    | inl banned ↦ elim (Bool-cases (any_ban p (env.domain_statuses entity))) [
      | inl pinned ↦ rw (banned, pinned) refl
      | inr free ↦
          rw (banned, free)
            (send-WroteOnly (Sent env entity status p) env key_here end p λ w eq. (
              refl,
              inr (
                record {
                  decided = d;
                  literals = literals;
                  banned = banned;
                  unpinned = any_ban→NoBan p (env.domain_statuses entity) free;
                },
                refl,
              ),
              eq,
            ))
    ]
  ]

literal_cases : (a b : Bool) → (not a && b) ≡ false → (a ≡ true) ⊎ (b ≡ false)
literal_cases a b h = ground arith

entity-Sent :
    (env : Env) (entity : Text) (status : String) (p : Policy)
    → WroteOnly (Sent env entity status p) p (reconcile_entity env entity status p)
unfolding reconcile_entity
entity-Sent env entity status p = from (decide p status) refl
  where
    skips : Bool
    skips = not p.write_policies_for_ip_literals && is_ip_literal entity

    from :
        (a : Action)
        → decide p status ≡ a
        → WroteOnly (Sent env entity status p) p (reconcile_entity env entity status p)
    from hold e = rw (e, reconcile_entity) refl
    from ban e = elim (Bool-cases skips) [
      | inl skip ↦ rw (e, skip, reconcile_entity) refl
      | inr go ↦
          rw (e, go, reconcile_entity) (ban-Sent env entity status p (literal_cases _ _ go) e)
    ]
    from unban e = elim (Bool-cases skips) [
      | inl skip ↦ rw (e, skip, reconcile_entity) refl
      | inr go ↦
          rw (e, go, reconcile_entity) (unban-Sent env entity status p (literal_cases _ _ go) e)
    ]

-- What a write of `reconcile` for a scan target tells of the state that it was decided in.
abbrev pub Reconciled : Env → Text → String → Policy → Text → Fields → Written → Type 0
Reconciled env scan_target status p key content w =
    (halted p ≡ false)
    × (contains p.hold_targets (strip_port scan_target) ≡ false)
    × (key ≡ state_key env p (strip_port scan_target))
    × Justified env (strip_port scan_target) status p content
    × IsWrite env p key content w

-- `reconcile` leaves the state alone or writes. Whatever it writes, it writes unhalted, for a
-- domain that is not held and is no IP literal unless literals may be written, under the key of
-- the portless domain: either a ban, where the status resolves to `ban` and the domain has no rule
-- of its own, no glob over it and room under the cap; or a removal, where the status resolves to
-- `unban`, the domain has a rule, and no recorded target of it resolves to `ban`.
pub reconcile-WroteOnly :
    (env : Env) (scan_target : Text) (status : String) (p : Policy)
    → WroteOnly (Reconciled env scan_target status p) p (reconcile env scan_target status p)
unfolding reconcile
reconcile-WroteOnly env scan_target status p = elim (Bool-cases (halted p)) [
  | inl off ↦ rw off refl
  | inr running ↦ elim (Bool-cases (contains p.hold_targets (strip_port scan_target))) [
    | inl held ↦ rw (running, held) refl
    | inr free ↦
        rw (running, free, reconcile)
          (deepen (reconcile_entity env (strip_port scan_target) status p)
            (entity-Sent env (strip_port scan_target) status p) running free)
  ]
]
  where
    deepen :
        (r : Report)
        → WroteOnly (Sent env (strip_port scan_target) status p) p r
        → halted p ≡ false
        → contains p.hold_targets (strip_port scan_target) ≡ false
        → WroteOnly (Reconciled env scan_target status p) p r
    deepen (skipped why q) h running free = h
    deepen (wrote key content w) h running free = (running, free, h.0, h.1, h.2)
    deepen out_of_fuel h running free = absurd h
