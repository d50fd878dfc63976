-- ===== src/Regcheck/Precedence.antt =====
-- What stands behind the status that `classify` returns.
use matrix_federation_scanne.Prelude.{
  ◌≡◌, refl, ◌⊎◌, inl, inr, Bool, true, false, Option, none, some, arith, Option-cases,
}
use matrix_federation_scanne.Prelude.Text.{Text, codes, same}
use matrix_federation_scanne.Json.{Json, str, obj, Fields, find}
use matrix_federation_scanne.Resolver.Body.{Awaited, ok, client_error, raised}
use matrix_federation_scanne.Regcheck.Flows.{
  Status, dangerously_open, freely_open, oauth, closed, unknown, classify_register_body,
}
use matrix_federation_scanne.Regcheck.Verdict.{classify_register_body_lem}
use matrix_federation_scanne.Regcheck.Probes.{
  Client, is_forbidden, interpret, probe_register, is_oauth_delegated, decide_status, classify_at,
  base_url_of, fetch_client_well_known, as_dict, classify,
}
use matrix_federation_scanne.Regcheck.Evidence.{
  Unguarded, Completable, Forbidden, LegacyEvidence, probe_register-evidence,
}
use matrix_federation_scanne.Regcheck.Issuers.{
  Delegated, NotDelegated, delegated, not_delegated, says_no,
}

-- What a status rests on, at a base URL and with the client well-known.
abbrev pub Justified : Client → Text → Option Fields → Status → Type 0
Justified client base_url well_known dangerously_open = Unguarded client base_url
Justified client base_url well_known freely_open =
    Completable client base_url × NotDelegated client base_url well_known
Justified client base_url well_known closed =
    Forbidden client base_url × NotDelegated client base_url well_known
Justified client base_url well_known oauth = Delegated client base_url well_known
Justified client base_url well_known unknown = Unit

module _ (client : Client) (base_url : Text) (well_known : Option Fields) where
  with_oauth :
      (legacy : Status) (a : Awaited Bool)
      → is_oauth_delegated client base_url well_known ≡ a
      → LegacyEvidence client base_url legacy
      → Justified client base_url well_known
          (decide_status client base_url well_known (some legacy))
  unfolding decide_status
  with_oauth dangerously_open a e h = h
  with_oauth freely_open (ok true) e h =
      rw (e, decide_status) (delegated client base_url well_known e)
  with_oauth freely_open (ok false) e h =
      rw (e, decide_status) (h, not_delegated client base_url well_known e)
  with_oauth freely_open client_error e h = rw (e, decide_status) tt
  with_oauth freely_open raised e h = rw (e, decide_status) tt
  with_oauth closed (ok true) e h = rw (e, decide_status) (delegated client base_url well_known e)
  with_oauth closed (ok false) e h =
      rw (e, decide_status) (h, not_delegated client base_url well_known e)
  with_oauth closed client_error e h = rw (e, decide_status) tt
  with_oauth closed raised e h = rw (e, decide_status) tt
  with_oauth _ a e h = absurd h

  without_legacy :
      (a : Awaited Bool)
      → is_oauth_delegated client base_url well_known ≡ a
      → Justified client base_url well_known (decide_status client base_url well_known none)
  unfolding decide_status
  without_legacy (ok true) e = rw (e, decide_status) (delegated client base_url well_known e)
  without_legacy (ok false) e = rw (e, decide_status) tt
  without_legacy client_error e = rw (e, decide_status) tt
  without_legacy raised e = rw (e, decide_status) tt

  classify_at-Justified :
      Justified client base_url well_known (classify_at client base_url well_known)
  unfolding classify_at
  classify_at-Justified = from (probe_register client base_url) refl
    where
      from :
          (a : Awaited (Option Status))
          → probe_register client base_url ≡ a
          → Justified client base_url well_known (classify_at client base_url well_known)
      from (ok none) e =
          rw (e, classify_at) (without_legacy (is_oauth_delegated client base_url well_known) refl)
      from (ok (some legacy)) e =
          rw (e, classify_at)
            (with_oauth legacy (is_oauth_delegated client base_url well_known) refl
              (probe_register-evidence client base_url legacy e))
      from client_error e = rw (e, classify_at) tt
      from raised e = rw (e, classify_at) tt

-- Each status that `classify` returns, other than `unknown`, has its evidence: `dangerously_open`
-- a 401 that lists a frictionless flow, `open` a 401 that lists flows but no such one, `closed` a
-- 403 that says `M_FORBIDDEN`, `oauth` an issuer in the client well-known or at a metadata endpoint.
-- With `open` and `closed` the client well-known names no issuer, nor does a metadata endpoint,
-- where one that does not answer, answers another status than 200 or breaks off names none. All of
-- it comes from one base URL, found for the target.
pub classify-Justified :
    (client : Client) (scan_target : Text)
    → (classify client scan_target ≡ unknown)
      ⊎ ((well_known : Option Json) × (base_url : Text) × (fetch_client_well_known client
              scan_target
            ≡ some well_known)
          × (base_url_of client scan_target (as_dict well_known) ≡ some base_url)
          × Justified client base_url (as_dict well_known) (classify client scan_target))
unfolding classify
classify-Justified client scan_target =
    elim (Option-cases (fetch_client_well_known client scan_target)) [
      | inl escaped ↦ inl (rw (escaped, classify) refl)
      | inr (well_known, fetched) ↦
          elim (Option-cases (base_url_of client scan_target (as_dict well_known))) [
            | inl nameless ↦ inl (ground (arith, fetched, nameless))
            | inr (base_url, found) ↦
                let result : classify client scan_target
                    ≡ classify_at client base_url (as_dict well_known) =
                  ground (arith, fetched, found) in
                inr (
                  well_known,
                  base_url,
                  fetched,
                  found,
                  rw result (classify_at-Justified client base_url (as_dict well_known)),
                )
          ]
    ]

-- A 401 that lists a frictionless flow makes the server at a base URL `dangerously_open`, whatever
-- the signs of OAuth.
pub classify_at-Unguarded :
    (client : Client) (base_url : Text) (well_known : Option Fields)
    → Unguarded client base_url
    → classify_at client base_url well_known ≡ dangerously_open
unfolding classify_at probe_register interpret decide_status
classify_at-Unguarded client base_url well_known (j, r, free) =
    let verdict : classify_register_body j ≡ some dangerously_open =
      ground (arith, free, classify_register_body_lem j) in
    ground (arith, r.posted, r.decoded, verdict)

says_forbidden :
    (d : Fields)
    → find "errcode" d ≡ some (str (codes "M_FORBIDDEN"))
    → is_forbidden (some (obj d)) ≡ true
unfolding is_forbidden same
says_forbidden d e = rw (is_forbidden, e) refl

-- Where no source names an issuer, be it that each of them fails or answers without one, the status
-- of the server at a base URL is the one for which its registration endpoint gives the evidence:
-- `dangerously_open` for a 401 that lists a frictionless flow, `open` for a 401 that lists flows but
-- no such one, and `closed` for a 403 that says `M_FORBIDDEN`.
pub classify_at-NotDelegated :
    (client : Client) (base_url : Text) (well_known : Option Fields) (s : Status)
    → NotDelegated client base_url well_known
    → LegacyEvidence client base_url s
    → classify_at client base_url well_known ≡ s
unfolding classify_at probe_register interpret decide_status
classify_at-NotDelegated client base_url well_known dangerously_open none_named evidence =
    classify_at-Unguarded client base_url well_known evidence
classify_at-NotDelegated client base_url well_known freely_open none_named (j, r, usable, guarded) =
    let verdict : classify_register_body j ≡ some freely_open =
      ground (arith, usable, guarded, classify_register_body_lem j) in
    ground (arith, r.posted, r.decoded, verdict, says_no client base_url well_known none_named)
classify_at-NotDelegated client base_url well_known closed none_named (d, r, code) =
    let forbidden = says_forbidden d code in
    ground (arith, r.posted, r.decoded, forbidden, says_no client base_url well_known none_named)
classify_at-NotDelegated client base_url well_known _ none_named evidence = absurd evidence
