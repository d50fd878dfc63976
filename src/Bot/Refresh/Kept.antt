-- ===== src/Bot/Refresh/Kept.antt =====
-- The list that the bot starts with, and the lists that the refreshes put in its place.
use matrix_federation_scanne.Prelude.{
  ℕ, ◌≤◌, ◌<◌, ◌≡◌, refl, ◌⊎◌, inl, inr, Bool, true, false, Option, none, some, arith, Bool-cases,
  Option-cases, ltb,
}
use matrix_federation_scanne.Prelude.Text.{Text}
use matrix_federation_scanne.Psl.Rules.{PublicSuffixList}
use matrix_federation_scanne.Psl.Holder.{PslHolder, adopt}
use matrix_federation_scanne.Psl.Holder.Monotone.{Reached, adopt-Reached-kept}
use matrix_federation_scanne.Policy.State.{Policy}
use matrix_federation_scanne.Store.{Store}
use matrix_federation_scanne.Bot.Refresh.{
  CachedPsl, datetime_min, version_key, cached_list, freshest, load_psl_local, FetchOutcome,
  Refreshing, adopt_fetched, psl_refresh_once,
}

key-version :
    (n : ℕ) (p : PublicSuffixList)
    → datetime_min < n
    → n ≤ version_key p
    → (v : ℕ) × (p.version ≡ some v) × (n ≤ v)
key-version n p late h = elim (Option-cases p.version) [
  | inl undated ↦ let k : n ≤ datetime_min = rw undated at h in elim (never k) [ ]
  | inr (v, e) ↦ (v, e, rw e at h)
]
  where
    never : n ≤ datetime_min → ⊥
    never k = omega arith

version-key : (n : ℕ) (p : PublicSuffixList) → p.version ≡ some n → version_key p ≡ n
version-key n p e = rw e refl

offered-version :
    (n : ℕ) (p q : PublicSuffixList) → some p ≡ some q → q.version ≡ some n → p.version ≡ some n
offered-version n p q h e = cc (h, e)

freshest-Reached :
    (n : ℕ) (q : PublicSuffixList) (vendored cached : Option PublicSuffixList)
    → datetime_min < n
    → q.version ≡ some n
    → (vendored ≡ some q) ⊎ (cached ≡ some q)
    → Reached n (record { current = freshest vendored cached })
unfolding freshest
freshest-Reached n q none cached late e (inl h) = cc
freshest-Reached n q none cached late e (inr h) = rw h (n, e, omega arith)
freshest-Reached n q (some vendored) none late e (inl h) =
    (n, offered-version n vendored q h e, omega arith)
freshest-Reached n q (some vendored) none late e (inr h) = cc
freshest-Reached n q (some vendored) (some cached) late e offered =
    elim (Bool-cases (ltb (version_key vendored) (version_key cached))) [
      | inl later ↦ rw later (key-version n cached late (newest later offered))
      | inr not_later ↦ rw not_later (key-version n vendored late (oldest not_later offered))
    ]
  where
    key : (p : PublicSuffixList) → some p ≡ some q → version_key p ≡ n
    key p h = version-key n p (offered-version n p q h e)

    newest :
        ltb (version_key vendored) (version_key cached) ≡ true
        → (some vendored ≡ some q) ⊎ (some cached ≡ some q)
        → n ≤ version_key cached
    newest later (inl h) = let k = key vendored h in ground arith
    newest later (inr h) = let k = key cached h in omega arith

    oldest :
        ltb (version_key vendored) (version_key cached) ≡ false
        → (some vendored ≡ some q) ⊎ (some cached ≡ some q)
        → n ≤ version_key vendored
    oldest not_later (inl h) = let k = key vendored h in omega arith
    oldest not_later (inr h) = let k = key cached h in ground arith

adopt_fetched-Reached :
    (n : ℕ) (c : PublicSuffixList) (persists : Bool) (clock : ℕ) (s : Refreshing)
    → Reached n s.holder
    → Reached n (adopt_fetched c persists clock s).0.holder
unfolding adopt_fetched
adopt_fetched-Reached n c persists clock s r = elim (Bool-cases (adopt c s.holder).1) [
  | inl newer ↦ rw newer (adopt-Reached-kept n c s.holder r)
  | inr older ↦ rw older r
]

-- A refresh leaves a version that was reached.
psl_refresh_once-Reached :
    (n : ℕ) (outcome : Option FetchOutcome) (persists : Bool) (clock : ℕ) (s : Refreshing)
    → Reached n s.holder
    → Reached n (psl_refresh_once outcome persists clock s).0.holder
unfolding psl_refresh_once
psl_refresh_once-Reached n none persists clock s r = r
psl_refresh_once-Reached n (some outcome) persists clock s r =
    elim (Bool-cases outcome.not_modified) [
      | inl unchanged ↦ rw unchanged r
      | inr modified ↦ rw modified (elim (Option-cases outcome.psl) [
        | inl failed ↦ rw failed r
        | inr (c, fetched) ↦ rw fetched (adopt_fetched-Reached n c persists clock s r)
      ])
    ]

loaded-Reached :
    (idna : Text → Option Text) (cache_source : ℕ → Text) (vendored : Option PublicSuffixList)
    (row : Option CachedPsl) (q : PublicSuffixList) (n : ℕ) (h : PslHolder)
    → (vendored ≡ some q) ⊎ (cached_list idna cache_source row ≡ some (some q))
    → q.version ≡ some n
    → datetime_min < n
    → load_psl_local idna cache_source vendored row ≡ some h
    → Reached n h
unfolding load_psl_local
loaded-Reached idna cache_source vendored row q n h offered e late begins =
    elim (Option-cases (cached_list idna cache_source row)) [
      | inl escaped ↦ ground (arith, escaped, begins)
      | inr (cached, read) ↦
          let held : record { current = freshest vendored cached } ≡ h =
            ground (arith, read, begins) in
          rw held at (
            freshest-Reached n q vendored cached late e
              (elim offered [ inl v ↦ inl v | inr c ↦ inr (cc (c, read)) ]))
    ]

-- The holder, the policy and the store that the bot has in the course of its refreshes; between
-- two of them the rest of the bot changes its policy and its store.
pub data Runs (idna : Text → Option Text) (cache_source : ℕ → Text)
    (vendored : Option PublicSuffixList) (row : Option CachedPsl) : Refreshing → Type 0 where
  starts :
      (holder : PslHolder) (policy : Policy) (store : Store)
      → load_psl_local idna cache_source vendored row ≡ some holder
      → Runs idna cache_source vendored row
          (record { holder = holder; policy = policy; store = store })
  refreshes :
      (outcome : Option FetchOutcome) (persists : Bool) (clock : ℕ) (s : Refreshing)
      → Runs idna cache_source vendored row s
      → Runs idna cache_source vendored row (psl_refresh_once outcome persists clock s).0
  others :
      (policy : Policy) (store : Store) (s : Refreshing)
      → Runs idna cache_source vendored row s
      → Runs idna cache_source vendored row (record s { policy = policy; store = store })

-- When the vendored list, or the list that the cache's row gives, has a version later than the
-- least datetime, then from the start on, whatever the refreshes fetch and whatever else changes
-- the policy and the store, the bot, if the load lets it start, has a list whose version is that one or a later one.
pub Runs-Reached :
    (idna : Text → Option Text) (cache_source : ℕ → Text) (vendored : Option PublicSuffixList)
    (row : Option CachedPsl) (q : PublicSuffixList) (n : ℕ) (s : Refreshing)
    → (vendored ≡ some q) ⊎ (cached_list idna cache_source row ≡ some (some q))
    → q.version ≡ some n
    → datetime_min < n
    → Runs idna cache_source vendored row s
    → Reached n s.holder
unfolding load_psl_local
Runs-Reached idna cache_source vendored row q n s offered e late (starts h policy store begins) =
    loaded-Reached idna cache_source vendored row q n h offered e late begins
Runs-Reached idna cache_source vendored row q n _ offered e late
      (refreshes outcome persists clock s run) =
    psl_refresh_once-Reached n outcome persists clock s
      (Runs-Reached idna cache_source vendored row q n s offered e late run)
Runs-Reached idna cache_source vendored row q n _ offered e late (others policy store s run) =
    Runs-Reached idna cache_source vendored row q n s offered e late run
