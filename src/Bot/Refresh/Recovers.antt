-- ===== src/Bot/Refresh/Recovers.antt =====
-- A refresh that ends the degraded state.
use matrix_federation_scanne.Prelude.{ℕ, ◌≤◌, ◌≡◌, refl, Bool, true, false, some}
use matrix_federation_scanne.Psl.Rules.{PublicSuffixList}
use matrix_federation_scanne.Psl.Holder.{adopt, current_version}
use matrix_federation_scanne.Psl.Holder.Monotone.{Newer, adopt_iff}
use matrix_federation_scanne.Policy.State.{is_clear}
use matrix_federation_scanne.Policy.Floor.{adopted, install-recovers}
use matrix_federation_scanne.Bot.Refresh.{
  Refreshing, FetchOutcome, adopt_fetched, psl_refresh_once, psl_degraded,
}

abbrev pub fetched_list : PublicSuffixList → FetchOutcome
fetched_list c = record { psl = some c; not_modified = false }

not_degraded :
    (c : PublicSuffixList) (s : Refreshing)
    → s.holder.current ≡ some c
    → is_clear s.policy.psl_halt_reason ≡ true
    → psl_degraded s ≡ false
unfolding psl_degraded
not_degraded c s listed unhalted = rw (listed, unhalted) refl

-- A fetched list that is later than the list in use, if there is one, and at or above the
-- configured floor is adopted, and after the refresh the bot is not degraded, even where the
-- database refuses to store the list.
pub refresh_recovers :
    (c : PublicSuffixList) (persists : Bool) (clock : ℕ) (s : Refreshing) (v f : ℕ)
    → c.version ≡ some v
    → Newer v (current_version s.holder)
    → s.policy.min_psl_version ≡ some f
    → f ≤ v
    → ((psl_refresh_once (some (fetched_list c)) persists clock s).1 ≡ true)
      × (psl_degraded (psl_refresh_once (some (fetched_list c)) persists clock s).0 ≡ false)
unfolding psl_refresh_once adopt_fetched
refresh_recovers c persists clock s v f cv newer floor le =
    let newly : (adopt c s.holder).1 ≡ true = (adopt_iff c s.holder).0.1 (v, cv, newer) in
    let unhalted = install-recovers c s.holder s.policy v f newly cv floor le in
    rw newly (refl, not_degraded c _ (adopted c s.holder newly) unhalted)
