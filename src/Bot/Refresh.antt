-- ===== src/Bot/Refresh.antt =====
-- The suffix list of bot.py: `_load_psl_local`, `_psl_refresh_once` and the waits of
-- `_psl_refresh_loop`, without the jitter that pslfetch.py puts on a wait.
pub mod Paced
pub mod Kept
pub mod Recovers
mod Tests
use matrix_federation_scanne.Prelude.{
  ℕ, zero, suc, ◌*◌, ◌-◌, Bool, true, false, not, ◌&&◌, Option, none, some, List, [], ◌∷◌, min, ltb,
  if◌then◌else◌, ◌>>=◌,
}
use matrix_federation_scanne.Prelude.Text.{Text}
use matrix_federation_scanne.Psl.Rules.{PublicSuffixList}
use matrix_federation_scanne.Psl.Version.{ordinal}
use matrix_federation_scanne.Psl.Holder.{
  Validated, accepted, rejected, not_encodable, validate_psl_text, PslHolder, adopt,
}
use matrix_federation_scanne.Policy.State.{Policy, is_clear}
use matrix_federation_scanne.Policy.Floor.{install}
use matrix_federation_scanne.Store.{Store}
use matrix_federation_scanne.Store.Documents.{put_cached_psl}

-- `p.version or datetime.min`.
abbrev pub datetime_min : ℕ
datetime_min = ordinal (record { year = 1; month = 1; day = 1; hour = 0; minute = 0; second = 0 })

abbrev pub version_key : PublicSuffixList → ℕ
version_key p = elim p.version [ none ↦ datetime_min | some v ↦ v ]

-- A row of `get_cached_psl`: the version, the commit, the body and the time of the fetch.
abbrev pub CachedPsl : Type 0
CachedPsl = Text × (Option Text × (Text × ℕ))

-- What is read from the cache's row, which is absent also where the database raises; `none` is the
-- UnicodeError of `validate_psl_text`, which is not caught.
unfoldable pub cached_list :
    (Text → Option Text) → (ℕ → Text) → Option CachedPsl → Option (Option PublicSuffixList)
unfolding validate_psl_text
cached_list idna cache_source none = some none
cached_list idna cache_source (some (version_raw, (commit, (body, fetched_at)))) =
    elim (validate_psl_text idna body (cache_source fetched_at)) [
      | accepted p ↦ some (some p)
      | rejected e ↦ some none
      | not_encodable ↦ none
    ]

-- `max(candidates, ...)`, the first of the greatest.
unfoldable pub freshest :
    Option PublicSuffixList → Option PublicSuffixList → Option PublicSuffixList
freshest none cached = cached
freshest (some vendored) none = some vendored
freshest (some vendored) (some cached) =
    if ltb (version_key vendored) (version_key cached) then some cached else some vendored

-- `_load_psl_local`; `vendored` is `none` where `load_vendored_psl` raises, and the answer where the
-- call does.
unfoldable pub load_psl_local :
    (Text → Option Text)
    → (ℕ → Text)
    → Option PublicSuffixList
    → Option CachedPsl
    → Option PslHolder
unfolding cached_list freshest
load_psl_local idna cache_source vendored row = do
  cached ← cached_list idna cache_source row
  some (record { current = freshest vendored cached })

-- `FetchOutcome`, without the text of its error.
pub record FetchOutcome : Type 0 where
  pub psl : Option PublicSuffixList
  pub not_modified : Bool

-- What the refresh reads and writes. The policy's holder is the bot's.
pub record Refreshing : Type 0 where
  pub holder : PslHolder
  pub policy : Policy
  pub store : Store

-- A list that was fetched: whether it is newer; `persists` is false where the database raises.
unfoldable pub adopt_fetched : PublicSuffixList → Bool → ℕ → Refreshing → Refreshing × Bool
unfolding adopt put_cached_psl
adopt_fetched c persists clock s =
    let version : Text = elim c.version_raw [ none ↦ [] | some v ↦ v ] in
    let stored = put_cached_psl version c.commit c.raw_text none clock s.store in
    if (adopt c s.holder).1
    then (
      record {
        holder = (adopt c s.holder).0;
        policy = install (adopt c s.holder).0 s.policy;
        store = if persists then stored else s.store;
      },
      true,
    )
    else (s, false)

-- `_psl_refresh_once`; `none` where there is no fetcher, and where the fetch raises.
unfoldable pub psl_refresh_once : Option FetchOutcome → Bool → ℕ → Refreshing → Refreshing × Bool
unfolding adopt_fetched
psl_refresh_once none persists clock s = (s, false)
psl_refresh_once (some outcome) persists clock s =
    if outcome.not_modified
    then (s, false)
    else elim outcome.psl [ none ↦ (s, false) | some c ↦ adopt_fetched c persists clock s ]

-- `_psl_degraded`.
unfoldable pub psl_degraded : Refreshing → Bool
psl_degraded s = elim s.holder.current [
  | none ↦ true
  | some _ ↦ not (is_clear s.policy.psl_halt_reason)
]

abbrev pub refresh_seconds : ℕ
refresh_seconds = 24 * 60 * 60

abbrev pub degraded_retry_seconds : ℕ
degraded_retry_seconds = 10 * 60

-- `_psl_cache_is_fresh`. A time of the fetch that is still to come counts as now.
unfoldable pub psl_cache_is_fresh : ℕ → ℕ → Option CachedPsl → Bool
psl_cache_is_fresh interval clock none = false
psl_cache_is_fresh interval clock (some (_, (_, (_, fetched_at)))) =
    ltb (clock - fetched_at) interval

-- Whether the loop sleeps before its first pass.
unfoldable pub defers_first : ℕ → Option CachedPsl → Refreshing → Bool
unfolding psl_degraded psl_cache_is_fresh
defers_first clock row s = not (psl_degraded s) && psl_cache_is_fresh refresh_seconds clock row

-- The interval of a pass and the backoff, before the sleep.
unfoldable pub next_interval : Bool → Bool → ℕ → ℕ × ℕ
next_interval true adopted backoff =
    let interval = if adopted then degraded_retry_seconds else backoff in
    (interval, min (interval * 2) refresh_seconds)
next_interval false adopted backoff = (refresh_seconds, degraded_retry_seconds)

-- Behind the sleep, which a change of the floor ends early.
unfoldable pub after_sleep : Bool → ℕ → ℕ
after_sleep woken backoff = if woken then degraded_retry_seconds else backoff

-- A pass of the loop: what it finds after its refresh, and how its sleep ends.
pub record Pass : Type 0 where
  pub degraded : Bool
  pub adopted : Bool
  pub woken : Bool

unfoldable pub pass_interval : Pass → ℕ → ℕ
unfolding next_interval
pass_interval p backoff = (next_interval p.degraded p.adopted backoff).0

unfoldable pub pass_backoff : Pass → ℕ → ℕ
unfolding next_interval after_sleep
pass_backoff p backoff = after_sleep p.woken (next_interval p.degraded p.adopted backoff).1

-- The intervals of a sequence of passes, and the backoff that they leave.
unfoldable pub intervals : List Pass → ℕ → List ℕ
unfolding pass_interval pass_backoff
intervals [] backoff = []
intervals (p ∷ ps) backoff = pass_interval p backoff ∷ intervals ps (pass_backoff p backoff)

unfoldable pub backoff_after : List Pass → ℕ → ℕ
unfolding pass_backoff
backoff_after [] backoff = backoff
backoff_after (p ∷ ps) backoff = backoff_after ps (pass_backoff p backoff)
