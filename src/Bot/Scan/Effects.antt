-- ===== src/Bot/Scan/Effects.antt =====
-- What `_scan_one` of bot.py does to the tables and to the room.
use matrix_federation_scanne.Prelude.{
  ℕ, ◌≤◌, ◌≡◌, refl, ap, ◌∙◌, ◌⊎◌, true, Option, some, String, [], ◌∷◌, Bool-cases, Option-cases,
  inl, inr,
}
use mathlib.Core.Path.{subst}
use matrix_federation_scanne.Prelude.Text.{Text}
use matrix_federation_scanne.Util.{strip_port}
use matrix_federation_scanne.Policy.State.{Policy, ban, decide}
use matrix_federation_scanne.Policy.Reconcile.{
  Env, Report, skipped, wrote, out_of_fuel, reconcile, consider_stale_cleanup, policy_after,
  ban_content,
}
use matrix_federation_scanne.Policy.Reconcile.Guards.{
  NoBan, WroteOnly, Reconciled, reconcile-WroteOnly,
}
use matrix_federation_scanne.Policy.Reconcile.Sent.{IsWrite-WriteSpec}
use matrix_federation_scanne.Policy.Reconcile.Cleanup.{Cleaned, cleanup-WroteOnly}
use matrix_federation_scanne.Store.{Store}
use matrix_federation_scanne.Store.Record.{or_unknown, record_scan, statuses_for_domain}
use matrix_federation_scanne.Store.Documents.{record_support}
use matrix_federation_scanne.Store.Invariant.{Reaches}
use matrix_federation_scanne.Store.Pinned.{only_map, still_banned, ban_pins_domain}
use matrix_federation_scanne.Probe.Version.{FederationVersion}
use matrix_federation_scanne.Probe.Support.{SupportInfo}
use matrix_federation_scanne.Probe.Scan.{Scanned}
use matrix_federation_scanne.Bot.Scan.{
  recorded_scan, store_support, over_store, Left, aborted, scan_one,
}

store_support-scanned :
    (ts : ℕ) (target : Text) (support : SupportInfo) (s : Store)
    → (store_support ts target support s).scanned ≡ s.scanned
unfolding store_support record_support
store_support-scanned ts target support s = elim (Bool-cases support.authoritative) [
  | inr silent ↦ rw silent refl
  | inl signal ↦ elim (Option-cases support.raw_json) [
    | inl empty ↦ rw (signal, empty) refl
    | inr (raw_json, document) ↦ rw (signal, document) refl
  ]
]

-- A call of `reconcile` leaves the decision of each status.
decide-after :
    (env : Env) (target : Text) (status other : String) (p : Policy)
    → p.last_write ≤ env.time
    → decide (policy_after p (reconcile env target status p)) other ≡ decide p other
unfolding decide
decide-after env target status other p clock =
    by_report (reconcile env target status p) (reconcile-WroteOnly env target status p)
  where
    decide_kept :
        (q : Policy)
        → q.decision_map ≡ p.decision_map
        → q.default_action ≡ p.default_action
        → decide q other ≡ decide p other
    decide_kept q same_map same_default = rw (same_map, same_default) refl

    by_report :
        (report : Report)
        → WroteOnly (Reconciled env target status p) p report
        → decide (policy_after p report) other ≡ decide p other
    by_report (skipped why q) same_policy = ap (λ (x : Policy). decide x other) same_policy
    by_report (wrote key content w) sent =
        let spec = IsWrite-WriteSpec env p key content w clock sent.4 in
        decide_kept w.policy (ap Policy.decision_map spec.effect)
          (ap Policy.default_action spec.effect)
    by_report out_of_fuel h = refl

-- What the scanner returns of a scan that came out.
abbrev pub succeeded : String → FederationVersion → SupportInfo → ℕ → Scanned
succeeded status version support took = record {
  result = record { ok = true; status = some status };
  version = version;
  support = support;
  took = took;
}

module _ (env_write env_cleanup : Env) (ts ts_support now : ℕ) where
  -- What a scan does to the room whose status maps to a ban.
  pub record Banning (target : Text) (p : Policy) (left : Left) : Type 0 where
    pub written : Report
    pub bans : WroteOnly (λ key content w. content ≡ ban_content p (strip_port target)) p written
    pub rest :
        (left.reports ≡ written ∷ [])
        ⊎ ((cleaned : Report) × (left.reports ≡ written ∷ cleaned ∷ [])
            × WroteOnly (λ key content w. ⊥) (policy_after p written) cleaned)

  no_cleanup :
      (target : Text) (status : String) (since : Option ℕ) (q : Policy) (env : Env)
      → (NoBan q (env.domain_statuses (strip_port target)) → ⊥)
      → WroteOnly (λ key content w. ⊥) q (consider_stale_cleanup env now target status since q)
  no_cleanup target status since q env banned =
      only_map (λ key content w. Cleaned env now target status since q key content)
        (λ key content w. ⊥) q (consider_stale_cleanup env now target status since q)
        (λ key content w cleaned. banned cleaned.entity.unpinned)
        (cleanup-WroteOnly env now target status since q)

  -- On tables that the methods reach, a successful scan whose status maps to a ban removes no
  -- rule: `reconcile` writes at most the ban of the target's domain, and the cleanup, if it is
  -- reached, writes nothing.
  pub scan_one-Banning :
      (target : Text) (status : String) (version : FederationVersion) (support : SupportInfo)
      (took : ℕ) (s : Store) (p : Policy)
      → Reaches ts s
      → p.last_write ≤ env_write.time
      → decide p (or_unknown (some status)) ≡ ban
      → Banning target p (
          scan_one env_write env_cleanup ts ts_support now target
            (succeeded status version support took)
            s
            p)
  unfolding scan_one
  scan_one-Banning target status version support took s p reached clock banned =
      let scan = recorded_scan (succeeded status version support took) in
      let recorded = (record_scan ts target scan s).0 in
      let since = (record_scan ts target scan s).1.status_since in
      let after = store_support ts_support target support recorded in
      let same_rows : after.scanned ≡ recorded.scanned =
        store_support-scanned ts_support target support recorded in
      let written = reconcile (over_store after env_write) target status p in
      let q = policy_after p written in
      let cleaned =
        consider_stale_cleanup (over_store after env_cleanup) now target status (some since) q in
      record {
        written = written;
        bans =
            ban_pins_domain ts s target target scan (over_store after env_write) status p reached
              refl banned refl (ap (statuses_for_domain (strip_port target)) same_rows);
        rest = elim (Bool-cases (aborted written)) [
          | inl raises ↦ inl (rw raises refl)
          | inr goes_on ↦ inr (
            cleaned,
            rw goes_on refl,
            no_cleanup target status (some since) q (over_store after env_cleanup) λ none_banned.
                still_banned ts s target scan (strip_port target) q reached refl
                  (decide-after (over_store after env_write) target status
                      (or_unknown (some status)) p clock
                    ∙ banned)
                  refl
                  (subst (λ rows. NoBan q (statuses_for_domain (strip_port target) rows)) same_rows
                    none_banned),
          )
        ];
      }
