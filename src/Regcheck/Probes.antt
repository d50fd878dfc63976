-- ===== src/Regcheck/Probes.antt =====
-- `_base_url`, `_fetch_client_well_known`, `_probe_register`, `_is_oauth_delegated` and `classify` of
-- `RegistrationChecker`.
-- Parameters: the HTTP client, `json.loads` and `yarl.URL`. The client answers a URL the same way
-- throughout one classification, which asks for each URL once.
use matrix_federation_scanne.Prelude.{
  ℕ, Bool, true, false, ◌&&◌, ◌||◌, Option, none, some, List, [], ◌∷◌, ◌++◌, ◌==◌, if◌then◌else◌,
  is_empty,
}
use matrix_federation_scanne.Prelude.Text.{Text, codes, same, rstrip_by}
use matrix_federation_scanne.Json.{Json, str, obj, Fields, find}
use matrix_federation_scanne.Resolver.Name.{parse_name}
use matrix_federation_scanne.Resolver.Body.{
  Body, Loaded, Awaited, ok, client_error, raised, read_json_capped,
}
use matrix_federation_scanne.Regcheck.Flows.{
  Status, dangerously_open, freely_open, oauth, closed, unknown, classify_register_body,
}

-- What a request does: it fails with a `ClientError` or a timeout, raises another exception, or
-- answers with a status and a body.
pub data Http : Type 0 where
  failed broken : Http
  answered : ℕ → Body → Http

-- What `yarl.URL(text)` holds: the scheme, whether there is a host, and the text of the URL.
pub record Url : Type 0 where
  pub scheme : Text
  pub has_host : Bool
  pub text : Text

pub record Client : Type 0 where
  pub post : Text → Http
  pub get : Text → Http
  pub loads : Text → Loaded
  pub yarl : Text → Option Url

-- `d.get(key)` where it is a text that is not empty.
unfoldable pub text_at : Option Json → Option Text
text_at (some (str s)) = if is_empty s then none else some s
text_at _ = none

-- `isinstance(j, dict) and isinstance(j.get("issuer"), str) and j["issuer"]`.
unfoldable pub has_issuer : Option Json → Bool
unfolding text_at find
has_issuer (some (obj d)) = elim (text_at (find "issuer" d)) [ none ↦ false | some s ↦ true ]
has_issuer _ = false

-- `isinstance(well_known, dict)`.
abbrev pub as_dict : Option Json → Option Fields
as_dict (some (obj d)) = some d
as_dict _ = none

-- The scheme and host check of `_base_url`.
abbrev usable_url : Option Url → Option Text
usable_url none = none
usable_url (some u) =
    if (same u.scheme (codes "http") || same u.scheme (codes "https")) && u.has_host
    then some (rstrip_by (λ c. c == b'/') u.text)
    else none

-- The first block of the well-known: the base URL that it names.
unfoldable pub named_base_url : (Text → Option Url) → Option Fields → Option Text
unfolding text_at find rstrip_by same
named_base_url yarl none = none
named_base_url yarl (some d) = elim (find "m.homeserver" d) [
  | some (obj hs) ↦ elim (text_at (find "base_url" hs)) [
    | none ↦ none
    | some url ↦ usable_url (yarl url)
  ]
  | _ ↦ none
]

-- The test of the body of a 403.
unfoldable pub is_forbidden : Option Json → Bool
unfolding find same
is_forbidden (some (obj d)) = elim (find "errcode" d) [
  | some (str s) ↦ same s (codes "M_FORBIDDEN")
  | _ ↦ false
]
is_forbidden _ = false

-- What `_probe_register` makes of a status and a decoded body.
unfoldable pub interpret : ℕ → Option Json → Option Status
unfolding classify_register_body is_forbidden
interpret status body =
    if status == 401
    then (elim body [ none ↦ none | some j ↦ classify_register_body j ])
    else if (status == 403) && is_forbidden body
    then some closed
    else none

abbrev pub metadata_paths : List Text
metadata_paths =
    codes "/_matrix/client/v1/auth_metadata"
    ∷ codes "/_matrix/client/unstable/org.matrix.msc2965/auth_metadata"
    ∷ []

-- The two blocks of the client well-known.
unfoldable pub well_known_issuer : Option Fields → Bool
unfolding has_issuer find
well_known_issuer none = false
well_known_issuer (some d) =
    has_issuer (find "m.authentication" d)
    || has_issuer (find "org.matrix.msc2965.authentication" d)

module _ (client : Client) where
  -- A body of a response, where its status is 200; otherwise nothing.
  unfoldable pub body_of_200 : Http → Awaited (Option Json)
  unfolding read_json_capped
  body_of_200 failed = client_error
  body_of_200 broken = raised
  body_of_200 (answered status body) =
      if status == 200 then read_json_capped client.loads body else ok none

  -- `_fetch_client_well_known`; `none` where another exception escapes.
  unfoldable pub fetch_client_well_known : Text → Option (Option Json)
  unfolding parse_name body_of_200
  fetch_client_well_known scan_target = elim (parse_name scan_target) [
    | none ↦ some none
    | some parsed ↦
        elim (body_of_200
          (client.get (codes "https://" ++ parsed.host ++ codes "/.well-known/matrix/client"))) [
            | ok j ↦ some j
            | client_error ↦ some none
            | raised ↦ none
          ]
  ]

  -- `_base_url` behind the fetch.
  unfoldable pub base_url_of : Text → Option Fields → Option Text
  unfolding parse_name named_base_url
  base_url_of scan_target well_known = elim (named_base_url client.yarl well_known) [
    | some url ↦ some url
    | none ↦ elim (parse_name scan_target) [
      | none ↦ none
      | some parsed ↦ some (codes "https://" ++ parsed.host_with_brackets)
    ]
  ]

  -- `_probe_register`.
  unfoldable pub probe_register : Text → Awaited (Option Status)
  unfolding interpret read_json_capped
  probe_register base_url = elim (client.post (base_url ++ codes "/_matrix/client/v3/register")) [
    | failed ↦ ok none
    | broken ↦ raised
    | answered status body ↦
        if (status == 400) || (status == 401) || (status == 403)
        then (elim (read_json_capped client.loads body) [
          | ok j ↦ ok (interpret status j)
          | client_error ↦ ok none
          | raised ↦ raised
        ])
        else ok none
  ]

  -- The loop over the metadata endpoints.
  unfoldable pub any_issuer : Text → List Text → Awaited Bool
  unfolding has_issuer body_of_200
  any_issuer base_url [] = ok false
  any_issuer base_url (path ∷ rest) =
      let next = any_issuer base_url rest in
      elim (body_of_200 (client.get (base_url ++ path))) [
        | ok j ↦ if has_issuer j then ok true else next
        | client_error ↦ next
        | raised ↦ raised
      ]

  -- `_is_oauth_delegated`.
  unfoldable pub is_oauth_delegated : Text → Option Fields → Awaited Bool
  unfolding well_known_issuer any_issuer
  is_oauth_delegated base_url well_known =
      if well_known_issuer well_known then ok true else any_issuer base_url metadata_paths

  -- `classify` behind the legacy probe.
  unfoldable pub decide_status : Text → Option Fields → Option Status → Status
  unfolding is_oauth_delegated
  decide_status base_url well_known (some dangerously_open) = dangerously_open
  decide_status base_url well_known legacy = elim (is_oauth_delegated base_url well_known) [
    | ok true ↦ oauth
    | ok false ↦ elim legacy [ some freely_open ↦ freely_open | some closed ↦ closed | _ ↦ unknown ]
    | _ ↦ unknown
  ]

  -- `classify` at a base URL.
  unfoldable pub classify_at : Text → Option Fields → Status
  unfolding probe_register decide_status
  classify_at base_url well_known = elim (probe_register base_url) [
    | ok legacy ↦ decide_status base_url well_known legacy
    | _ ↦ unknown
  ]

  -- `classify`. (Every exception ends in `unknown`.)
  unfoldable pub classify : Text → Status
  unfolding fetch_client_well_known base_url_of classify_at
  classify scan_target = elim (fetch_client_well_known scan_target) [
    | none ↦ unknown
    | some well_known ↦ elim (base_url_of scan_target (as_dict well_known)) [
      | none ↦ unknown
      | some base_url ↦ classify_at base_url (as_dict well_known)
    ]
  ]
