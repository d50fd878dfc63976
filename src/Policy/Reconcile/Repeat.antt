-- ===== src/Policy/Reconcile/Repeat.antt =====
-- `reconcile` for a domain that may be banned, and the same call again.
use matrix_federation_scanne.Prelude.{
  ℕ, ◌≤◌, ◌≡◌, Bool, true, false, not, ◌&&◌, String, arith, inl, inr, ◌⊎◌,
}
use matrix_federation_scanne.Prelude.Text.{Text, contains}
use matrix_federation_scanne.Prelude.Text.Same.{same_refl}
use matrix_federation_scanne.Json.{Fields, end, is_end}
use matrix_federation_scanne.Util.{strip_port, is_ip_literal}
use matrix_federation_scanne.Policy.State.{Policy, halted, decide}
use matrix_federation_scanne.Policy.Fold.{is_banned, put_rule}
use matrix_federation_scanne.Policy.Fold.Laws.{rule_at-put_rule}
use matrix_federation_scanne.Policy.Write.{Written}
use matrix_federation_scanne.Policy.Reconcile.{
  Env, Skip, skipped, wrote, already_banned, not_banned, state_key, ban_content, reconcile_ban,
  reconcile_unban, reconcile_entity, reconcile,
}
use matrix_federation_scanne.Policy.Reconcile.Sent.{IsWrite-WriteSpec}
use matrix_federation_scanne.Policy.Reconcile.Guards.{
  BanAllowed, UnbanAllowed, Reconciled, IsWrite, reconcile-WroteOnly,
}

literals_open : (a b : Bool) → (a ≡ true) ⊎ (b ≡ false) → (not a && b) ≡ false
literals_open a b h = ground arith

is_banned-put_rule :
    (k : Text) (c : Fields) (p : Policy) → is_banned k (put_rule k c p.rules) ≡ not (is_end c)
unfolding is_banned
is_banned-put_rule k c p = simp (rule_at-put_rule, same_refl)

-- A state in which one rule has been written.
abbrev written : Policy → Text → Fields → ℕ → Policy
written p key content time = record p { rules = put_rule key content p.rules; last_write = time }

module _ (env : Env) (scan_target : Text) (status : String) (p : Policy) (time : ℕ)
    (running : halted p ≡ false)
    (free : contains p.hold_targets (strip_port scan_target) ≡ false) where
  abbrev key_here : Text
  key_here = state_key env p (strip_port scan_target)

  abbrev new_ban : Fields
  new_ban = ban_content p (strip_port scan_target)

  again_banned :
      BanAllowed env (strip_port scan_target) status p
      → reconcile env scan_target status (written p key_here new_ban time)
        ≡ skipped already_banned (written p key_here new_ban time)
  unfolding reconcile reconcile_entity reconcile_ban halted decide state_key
  again_banned a = rw (
    running,
    free,
    a.decided,
    literals_open p.write_policies_for_ip_literals (is_ip_literal (strip_port scan_target))
        a.literals,
    is_banned-put_rule key_here new_ban p,
    reconcile_entity,
    reconcile_ban,
  )

  again_removed :
      UnbanAllowed env (strip_port scan_target) status p
      → reconcile env scan_target status (written p key_here end time)
        ≡ skipped not_banned (written p key_here end time)
  unfolding reconcile reconcile_entity reconcile_unban halted decide state_key
  again_removed a = rw (
    running,
    free,
    a.decided,
    literals_open p.write_policies_for_ip_literals (is_ip_literal (strip_port scan_target))
        a.literals,
    is_banned-put_rule key_here end p,
    reconcile_entity,
    reconcile_unban,
  )

-- The state that a write sent leaves, by its specification.
sent_state :
    (env : Env) (p : Policy) (key : Text) (content : Fields) (w : Written)
    → IsWrite env p key content w
    → p.last_write ≤ env.time
    → w.outcome.sent ≡ true
    → w.policy ≡ written p key content w.outcome.time
sent_state env p key content w eq clock sent =
    let effect = (IsWrite-WriteSpec env p key content w clock eq).effect in rw sent at effect

-- Once a write of `reconcile` was sent, at a clock not before the write before it, the same status
-- of the same target writes nothing more, while the database holds the same statuses.
pub reconcile_settles :
    (env : Env) (scan_target : Text) (status : String) (p : Policy) (key : Text) (content : Fields)
    (w : Written)
    → p.last_write ≤ env.time
    → reconcile env scan_target status p ≡ wrote key content w
    → w.outcome.sent ≡ true
    → (why : Skip) × (reconcile env scan_target status w.policy ≡ skipped why w.policy)
reconcile_settles env scan_target status p key content w clock e sent =
    let only = reconcile-WroteOnly env scan_target status p in settle (rw e at only)
  where
    settle :
        Reconciled env scan_target status p key content w
        → (why : Skip) × (reconcile env scan_target status w.policy ≡ skipped why w.policy)
    settle (running, free, keyed, justified, is_write) =
        let state = sent_state env p key content w is_write clock sent in
        elim justified [
          | inl (allowed, is_ban) ↦ (
            already_banned,
            rw (state, keyed, is_ban)
                (again_banned env scan_target status p w.outcome.time running free allowed),
          )
          | inr (allowed, is_removal) ↦ (
            not_banned,
            rw (state, keyed, is_removal)
                (again_removed env scan_target status p w.outcome.time running free allowed),
          )
        ]
