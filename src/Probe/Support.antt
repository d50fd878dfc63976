-- ===== src/Probe/Support.antt =====
-- bot/csreg_scanner/supportinfo.py: the support document of a server.
-- Parameters: the HTTP client, `json.loads`, and `json.dumps` of a dict with sorted keys.
use matrix_federation_scanne.Prelude.{
  Bool, true, false, not, Option, none, some, ◌++◌, ◌==◌, if◌then◌else◌,
}
use matrix_federation_scanne.Prelude.Text.{Text, codes}
use matrix_federation_scanne.Json.{Json, obj, Fields}
use matrix_federation_scanne.Resolver.Body.{
  Loaded, Awaited, ok, client_error, raised, read_json_capped,
}
use matrix_federation_scanne.Resolver.Name.{parse_name}
use matrix_federation_scanne.Regcheck.Probes.{Http, failed, broken, answered}

pub record SupportInfo : Type 0 where
  pub authoritative : Bool
  pub raw_json : Option Text

abbrev pub no_support : SupportInfo
no_support = record { authoritative = false; raw_json = none }

module _ (get : Text → Http) (loads : Text → Loaded) (dumps : Fields → Text) where
  -- What a body stands for.
  unfoldable pub document : Option Json → SupportInfo
  document (some (obj data_)) = record { authoritative = true; raw_json = some (dumps data_) }
  document _ = no_support

  -- `fetch`.
  unfoldable pub fetch : Text → Awaited SupportInfo
  unfolding parse_name read_json_capped document
  fetch scan_target = elim (parse_name scan_target) [
    | none ↦ ok no_support
    | some parsed ↦
        elim (get
          (codes "https://" ++ parsed.host_with_brackets ++ codes "/.well-known/matrix/support")) [
            | failed ↦ ok no_support
            | broken ↦ raised
            | answered status body ↦
                if not (status == 200) then ok no_support else (elim (read_json_capped loads body) [
                  | ok j ↦ ok (document j)
                  | client_error ↦ ok no_support
                  | raised ↦ raised
                ])
          ]
  ]
