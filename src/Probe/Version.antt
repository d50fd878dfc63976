-- ===== src/Probe/Version.antt =====
-- bot/csreg_scanner/fedversion.py: the federation version of a server.
pub mod Reported
-- Parameters: the HTTP client, `json.loads`, the candidates of the resolver, and `str` of a port.
use matrix_federation_scanne.Prelude.{
  ℕ, ◌≡◌, Bool, true, false, not, ◌&&◌, ◌||◌, Option, none, some, List, [], ◌∷◌, ◌++◌, ◌==◌,
  if◌then◌else◌, take, is_empty, is_some,
}
use matrix_federation_scanne.Prelude.Text.{Text, codes, has, strip}
use matrix_federation_scanne.Json.{Json, str, obj, Fields, find}
use matrix_federation_scanne.Util.{colon, is_bracketed}
use matrix_federation_scanne.Resolver.Body.{
  Loaded, Awaited, ok, client_error, raised, read_json_capped,
}
use matrix_federation_scanne.Regcheck.Probes.{Http, failed, broken, answered}

abbrev pub field_char_cap : ℕ
field_char_cap = 60

-- `_truncate_field` on `server.get(key)`.
unfoldable pub truncate_field : Option Json → Option Text
unfolding strip
truncate_field (some (str value)) =
    if is_empty (strip value) then none else some (take field_char_cap (strip value))
truncate_field _ = none

pub record FederationVersion : Type 0 where
  pub authoritative : Bool
  pub name : Option Text
  pub version : Option Text

abbrev pub no_signal : FederationVersion
no_signal = record { authoritative = false; name = none; version = none }

-- A `server` that is a dict.
unfoldable pub interpret_server : Fields → FederationVersion
unfolding find truncate_field
interpret_server server =
    if not (is_some (find "name" server)) || not (is_some (find "version" server))
    then no_signal
    else record {
      authoritative = true;
      name = truncate_field (find "name" server);
      version = truncate_field (find "version" server);
    }

-- `isinstance(value, dict)`.
unfoldable pub dict_of : Option Json → Option Fields
dict_of (some (obj fields)) = some fields
dict_of _ = none

-- `_interpret`.
unfoldable pub interpret : Option Json → FederationVersion
unfolding find interpret_server dict_of
interpret body = elim (dict_of body) [
  | none ↦ no_signal
  | some fields ↦ elim (dict_of (find "server" fields)) [
    | none ↦ no_signal
    | some server ↦ interpret_server server
  ]
]

-- FederationTarget of resolver.py, as far as the probe reads it.
pub record Target : Type 0 where
  pub host : Text
  pub port : ℕ
  pub host_header : Text

module _ (show : ℕ → Text) where
  -- `_version_url`.
  unfoldable pub version_url : Target → Text
  unfolding has
  version_url target =
      let host =
        if has colon target.host && not (is_bracketed target.host)
        then codes "[" ++ target.host ++ codes "]"
        else target.host in
      codes "https://"
      ++ host
      ++ codes ":"
      ++ show target.port
      ++ codes "/_matrix/federation/v1/version"

  -- `get url host_header` is the request without redirects, on the session that does not verify.
  module _ (get : Text → Text → Http) (loads : Text → Loaded) where
    -- The walk over the candidates.
    unfoldable pub walk : List Target → Awaited FederationVersion
    unfolding version_url read_json_capped interpret
    walk [] = ok no_signal
    walk (target ∷ rest) =
        let next = walk rest in
        elim (get (version_url target) target.host_header) [
          | failed ↦ next
          | broken ↦ raised
          | answered status body ↦
              if not (status == 200) then ok no_signal else (elim (read_json_capped loads body) [
                | ok j ↦ ok (interpret j)
                | client_error ↦ next
                | raised ↦ raised
              ])
        ]

    -- `probe`; `none` is an exception of the resolver.
    unfoldable pub probe : (Text → Option (List Target)) → Text → Awaited FederationVersion
    unfolding walk
    probe resolve_candidates scan_target = elim (resolve_candidates scan_target) [
      | none ↦ ok no_signal
      | some targets ↦ walk targets
    ]
