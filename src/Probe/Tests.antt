-- ===== src/Probe/Tests.antt =====
-- The probes at a server that answers, and a scan that they fill.
use matrix_federation_scanne.Prelude.{
  ℕ, ◌≡◌, ◌⊎◌, refl, true, Option, some, String, List, [], ◌∷◌, if◌then◌else◌,
}
use matrix_federation_scanne.Prelude.Text.{Text, codes, same}
use matrix_federation_scanne.Json.{Json, str, obj, end, field}
use matrix_federation_scanne.Resolver.Body.{Loaded, value, chunk, eof, ok}
use matrix_federation_scanne.Regcheck.Probes.{Http, failed, answered}
use matrix_federation_scanne.Probe.Version.{FederationVersion, no_signal, Target, probe}
use matrix_federation_scanne.Probe.Version.Reported.{Answered, probe-Answered}
use matrix_federation_scanne.Probe.Support.{SupportInfo, no_support}
use matrix_federation_scanne.Probe.Scan.{Run, done, scan}
use matrix_federation_scanne.Probe.Scan.Budget.{Bounded, scan-Bounded}

abbrev synapse : Json
synapse = obj (
    field "server"
      (obj (field "name" (str (codes " Synapse ")) (field "version" (str (codes "1.96.0")) end)))
      end)

abbrev dead : Target
dead = record { host = codes "a.org"; port = 8448; host_header = codes "dead" }

abbrev alive : Target
alive = record { host = codes "b.org"; port = 8448; host_header = codes "a.org" }

abbrev show : ℕ → Text
show n = codes "8448"

abbrev get : Text → Text → Http
get url header =
    if same header (codes "dead") then failed else answered 200 (chunk (codes "{}") eof)

abbrev loads : Text → Loaded
loads text = value synapse

abbrev candidates : Text → Option (List Target)
candidates name = some (dead ∷ alive ∷ [])

abbrev reported : FederationVersion
reported = record {
  authoritative = true;
  name = some (codes "Synapse");
  version = some (codes "1.96.0");
}

second_answers : probe show get loads candidates (codes "a.org") ≡ ok reported
unfolding probe same
second_answers = refl

probe-Answered_example :
    (reported ≡ no_signal)
    ⊎ ((targets : List Target) × (candidates (codes "a.org") ≡ some targets)
        × Answered show get loads targets reported)
probe-Answered_example =
    probe-Answered show get loads candidates (codes "a.org") reported second_answers

abbrev quick : Run String
quick = record { took = 20; outcome = done "open" }

abbrev slow : Run FederationVersion
slow = record { took = 50; outcome = done reported }

abbrev unasked : Run SupportInfo
unasked = record { took = 5; outcome = done no_support }

scan-Bounded_example : Bounded 60 quick (scan 60 true quick slow unasked)
scan-Bounded_example = scan-Bounded 60 true quick slow unasked

-- The version probe runs into the budget.
spent : (scan 60 true quick slow unasked).took ≡ 60
unfolding scan
spent = refl
