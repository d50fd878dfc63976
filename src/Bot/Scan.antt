-- ===== src/Bot/Scan.antt =====
-- `_scan_one` of bot.py: one scan, from the answers of the scanner to the policy room.
pub mod Effects
-- The environments give the homeserver for the two possible writes; the statuses of a domain come
-- from the store. Each step has the clock that it reads. Log lines and the mean duration are left
-- out.
use matrix_federation_scanne.Prelude.{
  ℕ, Bool, true, false, ◌&&◌, Option, none, some, String, List, [], ◌∷◌, if◌then◌else◌,
}
use matrix_federation_scanne.Prelude.Text.{Text}
use matrix_federation_scanne.Util.{strip_port}
use matrix_federation_scanne.Policy.State.{Policy}
use matrix_federation_scanne.Policy.Reconcile.{
  Env, Report, skipped, wrote, out_of_fuel, reconcile, consider_stale_cleanup, policy_after,
}
use matrix_federation_scanne.Store.{Store}
use matrix_federation_scanne.Store.Record.{Scan, record_scan, statuses_for_domain}
use matrix_federation_scanne.Store.Documents.{record_support}
use matrix_federation_scanne.Probe.Version.{FederationVersion}
use matrix_federation_scanne.Probe.Support.{SupportInfo}
use matrix_federation_scanne.Probe.Scan.{ScanResult, Scanned}

-- The arguments of `record_scan`.
abbrev pub recorded_scan : Scanned → Scan
recorded_scan scanned = record {
  ok = scanned.result.ok;
  status = scanned.result.status;
  fed_observed = scanned.version.authoritative;
  fed_name = scanned.version.name;
  fed_version = scanned.version.version;
}

-- The support document, where there is one to write.
unfoldable pub store_support : ℕ → Text → SupportInfo → Store → Store
unfolding strip_port record_support
store_support ts target support s =
    if support.authoritative
    then (elim support.raw_json [
      | none ↦ s
      | some raw_json ↦ record_support ts (strip_port target) raw_json s
    ])
    else s

abbrev pub over_store : Store → Env → Env
over_store s env = record env { domain_statuses = λ d. statuses_for_domain d s.scanned }

-- What a scan leaves: the tables, the policy, and what `reconcile` and the cleanup reported.
pub record Left : Type 0 where
  pub store : Store
  pub policy : Policy
  pub reports : List Report

-- `if result.ok and result.status is not None`.
abbrev pub governing : ScanResult → Option String
governing result = if result.ok then result.status else none

-- `_write` raised, and the task ends.
abbrev pub aborted : Report → Bool
aborted (skipped why p) = false
aborted (wrote key content w) = w.outcome.raised
aborted out_of_fuel = false

module _ (env_write env_cleanup : Env) (ts ts_support now : ℕ) where
  unfoldable pub scan_one : Text → Scanned → Store → Policy → Left
  unfolding record_scan store_support reconcile consider_stale_cleanup
  scan_one target scanned s p =
      let (recorded, answer) = record_scan ts target (recorded_scan scanned) s in
      let after = store_support ts_support target scanned.support recorded in
      elim (governing scanned.result) [
        | none ↦ record { store = after; policy = p; reports = [] }
        | some status ↦
            let written = reconcile (over_store after env_write) target status p in
            let q = policy_after p written in
            let cleaned =
              consider_stale_cleanup (over_store after env_cleanup) now target status
                (some answer.status_since) q in
            if aborted written
            then record { store = after; policy = q; reports = written ∷ [] }
            else record {
              store = after;
              policy = policy_after q cleaned;
              reports = written ∷ cleaned ∷ [];
            }
      ]
