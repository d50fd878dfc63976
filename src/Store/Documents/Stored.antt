-- ===== src/Store/Documents/Stored.antt =====
-- The support documents and the suffix-list cache of db.py, written and read back.
use matrix_federation_scanne.Prelude.{
  ℕ, ◌≡◌, refl, sym, ap, ◌∙◌, false, Option, none, some, List, [], ◌∷◌, Bool-cases, inl, inr,
}
use matrix_federation_scanne.Prelude.Text.{Text, same}
use matrix_federation_scanne.Prelude.Text.Same.{same_refl, same→eq}
use matrix_federation_scanne.Store.{SupportRow, Store}
use matrix_federation_scanne.Store.Documents.{
  upsert_support, find_support, record_support, get_support, put_cached_psl, get_cached_psl,
}

-- The answer of `get_support` for a row.
abbrev answer : Option SupportRow → Option (Text × ℕ)
answer none = none
answer (some r) = some (r.support_json, r.fetched_at)

found_support :
    (new : SupportRow) (rows : List SupportRow)
    → answer (find_support new.domain (upsert_support new rows))
      ≡ some (new.support_json, new.fetched_at)
unfolding find_support upsert_support
found_support new [] = rw (same_refl new.domain) refl
found_support new (r ∷ rest) = elim (Bool-cases (same r.domain new.domain)) [
  | inl here ↦ rw (here, here) refl
  | inr other ↦ rw (other, other) (found_support new rest)
]

other_support :
    (new : SupportRow) (d : Text) (rows : List SupportRow)
    → same new.domain d ≡ false
    → find_support d (upsert_support new rows) ≡ find_support d rows
unfolding find_support upsert_support
other_support new d [] apart = rw apart refl
other_support new d (r ∷ rest) apart = elim (Bool-cases (same r.domain new.domain)) [
  | inl here ↦
      let e = same→eq r.domain new.domain here in
      let elsewhere : same r.domain d ≡ false = rw e apart in rw (here, elsewhere) refl
  | inr other ↦ rw (other, other_support new d rest apart) refl
]

answer-get : (d : Text) (s : Store) → get_support d s ≡ answer (find_support d s.support)
unfolding get_support
answer-get d s =
    elim (find_support d s.support)
      as (λ o. (elim o [ none ↦ none | some r ↦ some (r.support_json, r.fetched_at) ]) ≡ answer o) [
        | none ↦ refl
        | some r ↦ refl
      ]

-- What `record_support` stores for a domain is what `get_support` answers for it, with the time of
-- the write; for every other domain the answer stays. What `put_cached_psl` stores is what
-- `get_cached_psl` answers, with the clock's time where none was given.
pub documents_round_trip :
    (ts : ℕ) (domain raw_json : Text) (s : Store) (version_raw : Text) (commit_hash : Option Text)
    (body : Text) (given : Option ℕ) (clock : ℕ) (other : Text)
    → same domain other ≡ false
    → (get_support domain (record_support ts domain raw_json s) ≡ some (raw_json, ts))
      × (get_support other (record_support ts domain raw_json s) ≡ get_support other s)
      × (get_cached_psl (put_cached_psl version_raw commit_hash body given clock s)
          ≡ some (version_raw, (commit_hash, (body, elim given [ none ↦ clock | some t ↦ t ]))))
unfolding record_support put_cached_psl get_cached_psl
documents_round_trip ts domain raw_json s version_raw commit_hash body given clock other apart =
    let new : SupportRow = record { domain = domain; support_json = raw_json; fetched_at = ts } in
    (
      answer-get domain (record_support ts domain raw_json s) ∙ found_support new s.support,
      answer-get other (record_support ts domain raw_json s)
          ∙ ap answer (other_support new other s.support apart)
          ∙ sym (answer-get other s),
      refl,
    )
