-- ===== src/Bot/Ingest/Authorized.antt =====
-- The guard of `webhook_ingest` of bot.py.
use matrix_federation_scanne.Prelude.{
  ℕ, ◌≡◌, refl, Bool, true, false, not, Option, none, some, List, ◌++◌, arith, Bool-cases,
  Option-cases, inl, inr, length, and_true, is_empty,
}
use matrix_federation_scanne.Prelude.Text.{Text, codes, same}
use matrix_federation_scanne.Prelude.Text.Same.{same_iff}
use matrix_federation_scanne.Json.{Json}
use matrix_federation_scanne.Store.{Store}
use matrix_federation_scanne.Store.Queue.{enqueue}
use matrix_federation_scanne.Bot.Ingest.{
  clean, names_of, Answer, not_found, unauthorized, raised, accepted, is_authorized, webhook_ingest,
}

module _ (encode escaped : Text → List ℕ) where
  -- There is a secret, and the header is the bearer token with it.
  abbrev pub Bearer : Text → Text → Type 0
  Bearer secret auth =
      (is_empty secret ≡ false) × (escaped auth ≡ encode (codes "Bearer " ++ secret))

  is_authorized→Bearer :
      (secret auth : Text) → is_authorized encode escaped secret auth ≡ true → Bearer secret auth
  unfolding is_authorized
  is_authorized→Bearer secret auth h =
      let token = same (escaped auth) (encode (codes "Bearer " ++ secret)) in
      let (there, equal) = and_true (not (is_empty secret)) token h in
      (
        ground (arith, there),
        (same_iff (escaped auth) (encode (codes "Bearer " ++ secret))).0 equal,
      )

  Bearer→is_authorized :
      (secret auth : Text) → Bearer secret auth → is_authorized encode escaped secret auth ≡ true
  unfolding is_authorized
  Bearer→is_authorized secret auth (there, equal) =
      rw (there, (same_iff (escaped auth) (encode (codes "Bearer " ++ secret))).1 equal) refl

  module _ (loads : Text → Option Json) (float_true : Bool) where
    -- What the webhook answers, and the store it leaves.
    pub data Handled (sqlite enabled : Bool) (secret auth body : Text) (s : Store)
        (result : Answer × Store) : Type 0 where
      off :
          enabled ≡ false
          → result ≡ (not_found, s)
          → Handled sqlite enabled secret auth body s result
      stranger :
          enabled ≡ true
          → ¬ Bearer secret auth
          → result ≡ (unauthorized, s)
          → Handled sqlite enabled secret auth body s result
      raises :
          enabled ≡ true
          → Bearer secret auth
          → names_of float_true (loads body) body ≡ none
          → result ≡ (raised, s)
          → Handled sqlite enabled secret auth body s result
      taken :
          (names : List Json)
          → enabled ≡ true
          → Bearer secret auth
          → names_of float_true (loads body) body ≡ some names
          → result ≡ (accepted (length (clean names)), enqueue sqlite (clean names) s)
          → Handled sqlite enabled secret auth body s result

    -- While the webhook is off it answers `not_found`. While it is on it answers `unauthorized`
    -- exactly where no secret is configured or the header is not the bearer token with the secret.
    -- Only behind both it reads the body: its names, cleaned, are queued and counted, or it raises;
    -- in every other case the store stays.
    pub webhook_ingest-Authorized :
        (sqlite enabled : Bool) (secret auth body : Text) (s : Store)
        → Handled sqlite enabled secret auth body s
            (webhook_ingest encode escaped loads float_true sqlite enabled secret auth body s)
    unfolding webhook_ingest
    webhook_ingest-Authorized sqlite enabled secret auth body s = elim (Bool-cases enabled) [
      | inr is_off ↦ off is_off (rw is_off refl)
      | inl on ↦ elim (Bool-cases (is_authorized encode escaped secret auth)) [
        | inr other ↦
            stranger on (λ b. cc (other, Bearer→is_authorized secret auth b)) (rw (on, other) refl)
        | inl bearer ↦
            let has_token = is_authorized→Bearer secret auth bearer in
            elim (Option-cases (names_of float_true (loads body) body)) [
              | inl none_read ↦ raises on has_token none_read (rw (on, bearer, none_read) refl)
              | inr (names, read) ↦ taken names on has_token read (rw (on, bearer, read) refl)
            ]
      ]
    ]
