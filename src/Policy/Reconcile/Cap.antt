-- ===== src/Policy/Reconcile/Cap.antt =====
-- The per-eTLD+1 cap and the writes of `reconcile`.
use matrix_federation_scanne.Prelude.{
  ℕ, ◌≤◌, ◌<◌, ◌≡◌, refl, ap, true, false, none, some, String, arith, Bool-cases, inl, inr, ◌⊎◌,
  if◌then◌else◌,
}
use matrix_federation_scanne.Prelude.Text.{Text}
use matrix_federation_scanne.Prelude.Text.Same.{same_iff}
use matrix_federation_scanne.Json.{Fields, end, is_end, find}
use matrix_federation_scanne.Util.{strip_port, is_ip_literal}
use matrix_federation_scanne.Psl.Rules.{PublicSuffixList}
use matrix_federation_scanne.Policy.State.{Policy, active_psl}
use matrix_federation_scanne.Policy.Fold.{
  RuleFold, rule_at, put_rule, is_banned, count_bans, in_bucket, counted_entity, entity_of, bucket,
  etld1_ban_count,
}
use matrix_federation_scanne.Policy.Fold.Laws.{count_bans-put_rule, in_bucket-end, one_if}
use matrix_federation_scanne.Policy.Write.{Written}
use matrix_federation_scanne.Policy.Reconcile.{
  Env, Report, skipped, wrote, out_of_fuel, state_key, ban_content, cap_refuses, reconcile,
  policy_after,
}
use matrix_federation_scanne.Policy.Reconcile.Sent.{IsWrite-WriteSpec}
use matrix_federation_scanne.Policy.Reconcile.Guards.{WroteOnly, Reconciled, reconcile-WroteOnly}

-- No bucket holds more bans than the cap.
abbrev pub WithinCap : ℕ → PublicSuffixList → Text → RuleFold → Type 0
WithinCap cap psl recommendation rules =
    (target : Text) → count_bans psl recommendation target rules ≤ cap

module _ (cap : ℕ) (psl : PublicSuffixList) (r : Text) where
  -- A removal keeps the cap.
  put_end-WithinCap :
      (k : Text) (rules : RuleFold)
      → WithinCap cap psl r rules
      → WithinCap cap psl r (put_rule k end rules)
  put_end-WithinCap k rules h t =
      omega (arith, h t, count_bans-put_rule psl r t k end rules, ap one_if (in_bucket-end psl r t))

is_end-eq : (c : Fields) → is_end c ≡ true → c ≡ end
is_end-eq end h = refl
is_end-eq _ h = cc

rule_at-absent : (k : Text) (rules : RuleFold) → is_banned k rules ≡ false → rule_at k rules ≡ end
unfolding is_banned
rule_at-absent k rules h = is_end-eq (rule_at k rules) (ground arith)

-- The content of a ban counts toward the bucket of its entity at most.
in_bucket-ban :
    (psl : PublicSuffixList) (p : Policy) (entity t : Text)
    → in_bucket psl p.recommendation t (ban_content p entity) ≡ true
    → (bucket psl entity ≡ t) × (is_ip_literal entity ≡ false)
unfolding in_bucket counted_entity entity_of find
in_bucket-ban psl p entity t h = ground (arith, same_iff (bucket psl entity) t)

module _ (cap : ℕ) (psl : PublicSuffixList) (p : Policy) (entity : Text)
    (capped : p.max_bans_per_etld1 ≡ some cap) (list : active_psl p ≡ some psl) where
  -- What the guard lets through: an IP literal, or a bucket below the cap.
  below_cap :
      cap_refuses p entity ≡ none
      → (is_ip_literal entity ≡ true)
        ⊎ (count_bans psl p.recommendation (bucket psl entity) p.rules < cap)
  unfolding cap_refuses etld1_ban_count
  below_cap h = elim (Bool-cases (is_ip_literal entity)) [
    | inl literal ↦ inl literal
    | inr name ↦ inr (ground (arith, h, capped, list, name))
  ]

  -- The bucket that an allowed ban enters is below the cap.
  pub allowed_ban-below :
      (t : Text)
      → cap_refuses p entity ≡ none
      → in_bucket psl p.recommendation t (ban_content p entity) ≡ true
      → count_bans psl p.recommendation t p.rules < cap
  allowed_ban-below t free counts =
      let (same_bucket, name) = in_bucket-ban psl p entity t counts in
      elim (below_cap free) [ inl literal ↦ cc (name, literal) | inr room ↦ rw same_bucket at room ]

  -- A ban that every guard lets through keeps the cap.
  put_ban-WithinCap :
      (k : Text)
      → is_banned k p.rules ≡ false
      → cap_refuses p entity ≡ none
      → WithinCap cap psl p.recommendation p.rules
      → WithinCap cap psl p.recommendation (put_rule k (ban_content p entity) p.rules)
  put_ban-WithinCap k absent free h t =
      elim (Bool-cases (in_bucket psl p.recommendation t (ban_content p entity))) [
        | inr out ↦ omega (
          arith,
          h t,
          ap one_if out,
          count_bans-put_rule psl p.recommendation t k (ban_content p entity) p.rules,
        )
        | inl counts ↦ omega (
          arith,
          allowed_ban-below t free counts,
          ap one_if counts,
          count_bans-put_rule psl p.recommendation t k (ban_content p entity) p.rules,
        )
      ]

-- A write that the guards let through leaves the cap as it was, sent or not.
written-WithinCap :
    (cap : ℕ) (psl : PublicSuffixList) (env : Env) (scan_target : Text) (status : String)
    (p : Policy) (key : Text) (content : Fields) (w : Written)
    → p.max_bans_per_etld1 ≡ some cap
    → active_psl p ≡ some psl
    → p.last_write ≤ env.time
    → Reconciled env scan_target status p key content w
    → WithinCap cap psl p.recommendation p.rules
    → WithinCap cap psl p.recommendation w.policy.rules
written-WithinCap cap psl env scan_target status p key content w capped list clock r h =
    let spec = IsWrite-WriteSpec env p key content w clock r.4 in
    let effect : w.policy.rules
        ≡ (if w.outcome.sent then put_rule key content p.rules else p.rules) =
      ap (λ q. Policy.rules q) spec.effect in
    rw effect (elim (Bool-cases w.outcome.sent) [
      | inr unsent ↦ rw unsent h
      | inl sent ↦ rw sent (elim r.3 [
        | inl (allowed, is_ban) ↦
            rw (is_ban, r.2)
              (put_ban-WithinCap cap psl p (strip_port scan_target) capped list
                (state_key env p (strip_port scan_target)) allowed.absent allowed.below_cap h)
        | inr (allowed, is_removal) ↦
            rw is_removal (put_end-WithinCap cap psl p.recommendation key p.rules h)
      ])
    ])

-- `reconcile` keeps the per-eTLD+1 cap, where a cap is configured, a suffix list is active, and
-- the clock is not before the last write: if no bucket holds more bans than the cap, none does
-- after.
pub reconcile-WithinCap :
    (cap : ℕ) (psl : PublicSuffixList) (env : Env) (scan_target : Text) (status : String)
    (p : Policy)
    → p.max_bans_per_etld1 ≡ some cap
    → active_psl p ≡ some psl
    → p.last_write ≤ env.time
    → WithinCap cap psl p.recommendation p.rules
    → WithinCap cap psl p.recommendation (policy_after p (reconcile env scan_target status p)).rules
reconcile-WithinCap cap psl env scan_target status p capped list clock h =
    from (reconcile env scan_target status p) (reconcile-WroteOnly env scan_target status p)
  where
    from :
        (r : Report)
        → WroteOnly (Reconciled env scan_target status p) p r
        → WithinCap cap psl p.recommendation (policy_after p r).rules
    from (skipped why q) e = rw e h
    from (wrote key content w) e =
        written-WithinCap cap psl env scan_target status p key content w capped list clock e h
    from out_of_fuel e = absurd e
