-- ===== src/Policy/Reconcile/Cleanup.antt =====
-- What a write of the stale cleanup tells of the state that it was decided in.
use matrix_federation_scanne.Prelude.{
  ℕ, ◌+◌, ◌≤◌, ◌≡◌, refl, true, false, Option, some, String, str_eq, eq_iff, arith, Bool-cases,
  Option-cases, inl, inr,
}
use matrix_federation_scanne.Prelude.Text.{Text, contains}
use matrix_federation_scanne.Json.{Fields, end}
use matrix_federation_scanne.Util.{strip_port}
use matrix_federation_scanne.Policy.State.{Policy, halted}
use matrix_federation_scanne.Policy.Fold.{is_banned}
use matrix_federation_scanne.Policy.Reconcile.{
  Env, Report, skipped, wrote, out_of_fuel, state_key, any_ban, domain_has_ban, cleanup_threshold,
  cleanup_entity, consider_stale_cleanup, stale_status, is_young,
}
use matrix_federation_scanne.Policy.Reconcile.Guards.{
  NoBan, any_ban→NoBan, WroteOnly, send-WroteOnly,
}

pub record CleanedEntity (env : Env) (entity : Text) (p : Policy) (key : Text) (content : Fields)
    : Type 0 where
  pub not_held : contains p.hold_targets entity ≡ false
  pub keyed : key ≡ state_key env p entity
  pub removes : content ≡ end
  pub banned : is_banned (state_key env p entity) p.rules ≡ true
  pub unpinned : NoBan p (env.domain_statuses entity)

cleanup_entity-WroteOnly :
    (env : Env) (entity : Text) (p : Policy)
    → WroteOnly
        (λ key content w. CleanedEntity env entity p key content)
        p
        (cleanup_entity env entity p)
unfolding cleanup_entity domain_has_ban
cleanup_entity-WroteOnly env entity p = elim (Bool-cases (contains p.hold_targets entity)) [
  | inl held ↦ rw held refl
  | inr free ↦ elim (Bool-cases (is_banned (state_key env p entity) p.rules)) [
    | inr absent ↦ rw (free, absent) refl
    | inl banned ↦ elim (Bool-cases (any_ban p (env.domain_statuses entity))) [
      | inl pinned ↦ rw (free, banned, pinned) refl
      | inr unpinned ↦
          rw (free, banned, unpinned)
            (send-WroteOnly _ env (state_key env p entity) end p λ w eq. record {
              not_held = free;
              keyed = refl;
              removes = refl;
              banned = banned;
              unpinned = any_ban→NoBan p (env.domain_statuses entity) unpinned;
            })
    ]
  ]
]

pub record Cleaned (env : Env) (now : ℕ) (scan_target : Text) (status : String) (since : Option ℕ)
    (p : Policy) (key : Text) (content : Fields) : Type 0 where
  pub running : halted p ≡ false
  pub cleaner : contains p.cleanup_bot_ids p.mxid ≡ true
  pub stale : status ≡ "unknown"
  pub aged :
      (start : ℕ) × (threshold : ℕ) × (since ≡ some start)
      × (p.stale_max_age_seconds ≡ some threshold)
      × (start + threshold ≤ now)
  pub entity : CleanedEntity env (strip_port scan_target) p key content

threshold_inv :
    (p : Policy) (t : ℕ)
    → cleanup_threshold p ≡ some t
    → (contains p.cleanup_bot_ids p.mxid ≡ true) × (p.stale_max_age_seconds ≡ some t)
unfolding cleanup_threshold
threshold_inv p t h = ground arith

deepen :
    {P Q : Text → Fields → Type 0} (p : Policy) (r : Report)
    → WroteOnly (λ key content w. P key content) p r
    → ((key : Text) (content : Fields) → P key content → Q key content)
    → WroteOnly (λ key content w. Q key content) p r
deepen p (skipped why q) h f = h
deepen p (wrote key content w) h f = f key content h
deepen p out_of_fuel h f = absurd h

-- The stale cleanup leaves the state alone or writes. Whatever it writes, it is a removal, by a
-- bot that the configuration names as a cleaner and that is not halted, of the rule of a domain
-- that is not held and of which no recorded target resolves to `ban`; the status is `unknown`, and
-- has been for at least the configured age.
pub cleanup-WroteOnly :
    (env : Env) (now : ℕ) (scan_target : Text) (status : String) (since : Option ℕ) (p : Policy)
    → WroteOnly
        (λ key content w. Cleaned env now scan_target status since p key content)
        p
        (consider_stale_cleanup env now scan_target status since p)
unfolding consider_stale_cleanup
cleanup-WroteOnly env now scan_target status since p = elim (Bool-cases (halted p)) [
  | inl off ↦ rw off refl
  | inr running ↦ elim (Option-cases (cleanup_threshold p)) [
    | inl inert ↦ rw (running, inert, consider_stale_cleanup) refl
    | inr (t, enabled) ↦ elim (Bool-cases (str_eq status stale_status)) [
      | inr live ↦ rw (running, enabled, live, consider_stale_cleanup) refl
      | inl stale ↦ elim (Option-cases since) [
        | inl missing ↦ rw (running, enabled, stale, missing, consider_stale_cleanup) refl
        | inr (start, clock) ↦ elim (Bool-cases (is_young now start t)) [
          | inl young ↦ rw (running, enabled, stale, clock, young, consider_stale_cleanup) refl
          | inr old ↦
              rw (running, enabled, stale, clock, old, consider_stale_cleanup)
                (deepen p (cleanup_entity env (strip_port scan_target) p)
                  (cleanup_entity-WroteOnly env (strip_port scan_target) p)
                  λ key content entity. record {
                    running = running;
                    cleaner = (threshold_inv p t enabled).0;
                    stale = (eq_iff status stale_status).0 stale;
                    aged = (start, t, refl, (threshold_inv p t enabled).1, ground arith);
                    entity = entity;
                  })
        ]
      ]
    ]
  ]
]
