-- ===== src/Bot/Refresh/Tests.antt =====
-- The suffix-list refresh from a vendored list of one day, with a later one fetched.
use matrix_federation_scanne.Prelude.{
  ℕ, ◌*◌, ◌^◌, ◌≡◌, refl, inl, true, false, Option, none, some, [], ◌∷◌, min, all, arith,
}
use matrix_federation_scanne.Prelude.Text.{Text, codes}
use matrix_federation_scanne.Psl.Rules.{PublicSuffixList}
use matrix_federation_scanne.Psl.Version.{ordinal}
use matrix_federation_scanne.Psl.Holder.Monotone.{Reached}
use matrix_federation_scanne.Policy.State.{Policy, too_old}
use matrix_federation_scanne.Policy.Tests.{sample, suffixes}
use matrix_federation_scanne.Store.{empty}
use matrix_federation_scanne.Bot.Refresh.{
  Refreshing, Pass, load_psl_local, psl_refresh_once, psl_degraded, intervals, pass_interval,
  backoff_after, degraded_retry_seconds, refresh_seconds,
}
use matrix_federation_scanne.Bot.Refresh.Paced.{in_range, idle, idles, intervals-Paced}
use matrix_federation_scanne.Bot.Refresh.Kept.{starts, refreshes, Runs-Reached}
use matrix_federation_scanne.Bot.Refresh.Recovers.{fetched_list, refresh_recovers}

abbrev on_day : ℕ → PublicSuffixList
on_day n = record suffixes { version = some n }

abbrev outdated : Policy
outdated = record sample { min_psl_version = some 65000000000; psl_halt_reason = too_old none none }

abbrev same_text : Text → Option Text
same_text t = some t

abbrev cache_source : ℕ → Text
cache_source n = codes "cache"

abbrev vendored_runs : Refreshing
vendored_runs = record {
  holder = record { current = some (on_day 64000000000) };
  policy = outdated;
  store = empty;
}

abbrev fetched_newer : Refreshing
fetched_newer =
    (psl_refresh_once (some (fetched_list (on_day 65000000001))) false 0 vendored_runs).0

Runs-Reached_example : Reached 64000000000 fetched_newer.holder
unfolding ordinal load_psl_local
Runs-Reached_example =
    Runs-Reached same_text cache_source (some (on_day 64000000000)) none (on_day 64000000000)
      64000000000 fetched_newer (inl refl) refl (omega arith)
      (refreshes (some (fetched_list (on_day 65000000001))) false 0 vendored_runs
        (starts (record { current = some (on_day 64000000000) }) outdated empty refl))

abbrev holds_old : Refreshing
holds_old = record {
  holder = record { current = some (on_day 64000000000) };
  policy = outdated;
  store = empty;
}

refresh_recovers_example :
    ((psl_refresh_once (some (fetched_list (on_day 65000000001))) false 0 holds_old).1 ≡ true)
    × (psl_degraded
          (psl_refresh_once (some (fetched_list (on_day 65000000001))) false 0 holds_old).0
        ≡ false)
refresh_recovers_example =
    refresh_recovers (on_day 65000000001) false 0 holds_old 65000000001 65000000000 refl
      (omega arith) refl (omega arith)

abbrev healthy : Pass
healthy = record { degraded = false; adopted = false; woken = false }

intervals-Paced_example :
    (all in_range (intervals (idle ∷ healthy ∷ idles 4) degraded_retry_seconds) ≡ true)
    × (pass_interval idle (backoff_after (idle ∷ healthy ∷ idles 3) degraded_retry_seconds)
        ≡ min (degraded_retry_seconds * 2 ^ 3) refresh_seconds)
intervals-Paced_example = intervals-Paced (idle ∷ []) healthy 3 refl

ladder_in_seconds :
    intervals (idles 9) degraded_retry_seconds
    ≡ 600 ∷ 1200 ∷ 2400 ∷ 4800 ∷ 9600 ∷ 19200 ∷ 38400 ∷ 76800 ∷ 86400 ∷ []
unfolding intervals
ladder_in_seconds = refl
