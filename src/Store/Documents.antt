-- ===== src/Store/Documents.antt =====
-- `record_support`, `get_support`, `put_cached_psl` and `get_cached_psl` of db.py.
pub mod Stored
use matrix_federation_scanne.Prelude.{ℕ, Option, none, some, List, [], ◌∷◌, if◌then◌else◌}
use matrix_federation_scanne.Prelude.Text.{Text, same}
use matrix_federation_scanne.Store.{SupportRow, PslRow, Store}

-- `INSERT INTO support_info ... ON CONFLICT (domain) DO UPDATE`.
unfoldable pub upsert_support : SupportRow → List SupportRow → List SupportRow
unfolding same
upsert_support new [] = new ∷ []
upsert_support new (r ∷ rest) =
    let later = upsert_support new rest in
    if same r.domain new.domain
    then record r { support_json = new.support_json; fetched_at = new.fetched_at } ∷ rest
    else r ∷ later

unfoldable pub find_support : Text → List SupportRow → Option SupportRow
unfolding same
find_support d [] = none
find_support d (r ∷ rest) =
    let later = find_support d rest in if same r.domain d then some r else later

-- `record_support`, at the time `ts`.
unfoldable pub record_support : ℕ → Text → Text → Store → Store
unfolding upsert_support
record_support ts domain raw_json s = record s {
  support =
      upsert_support (record { domain = domain; support_json = raw_json; fetched_at = ts })
        s.support;
}

unfoldable pub get_support : Text → Store → Option (Text × ℕ)
unfolding find_support
get_support domain s = elim (find_support domain s.support) [
  | none ↦ none
  | some r ↦ some (r.support_json, r.fetched_at)
]

-- `put_cached_psl`; `clock` is what `now()` would answer.
unfoldable pub put_cached_psl : Text → Option Text → Text → Option ℕ → ℕ → Store → Store
put_cached_psl version_raw commit_hash body ts clock s = record s {
  psl_cache = some (record {
    version_raw = version_raw;
    commit_hash = commit_hash;
    body = body;
    fetched_at = elim ts [ none ↦ clock | some given ↦ given ];
  });
}

unfoldable pub get_cached_psl : Store → Option (Text × (Option Text × (Text × ℕ)))
get_cached_psl s = elim s.psl_cache [
  | none ↦ none
  | some r ↦ some (r.version_raw, (r.commit_hash, (r.body, r.fetched_at)))
]
