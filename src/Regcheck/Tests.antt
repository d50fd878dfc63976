-- ===== src/Regcheck/Tests.antt =====
-- The classification of one server.
use matrix_federation_scanne.Prelude.{◌≡◌, refl, ◌⊎◌, Option, none, some, if◌then◌else◌}
use matrix_federation_scanne.Prelude.Text.{Text, codes, contains}
use matrix_federation_scanne.Json.{Json, str, arr, obj, nil, cons, end, field, find}
use matrix_federation_scanne.Resolver.Body.{chunk, eof, value, read_json_capped}
use matrix_federation_scanne.Regcheck.Flows.{
  dangerously_open, freely_open, unknown, classify_register_body, flows_of, usable, frictionless,
  any_flow, str_stages, flow_stages, flow_classification, scan_flows,
}
use matrix_federation_scanne.Regcheck.Verdict.{classify_register_body_lem}
use matrix_federation_scanne.Regcheck.Probes.{
  Client, failed, answered, classify, classify_at, fetch_client_well_known, base_url_of, as_dict,
}
use matrix_federation_scanne.Regcheck.Evidence.{Unguarded, Completable}
use matrix_federation_scanne.Regcheck.Issuers.{unanswered}
use matrix_federation_scanne.Regcheck.Precedence.{
  Justified, classify-Justified, classify_at-Unguarded, classify_at-NotDelegated,
}

abbrev captcha_flow : Json
captcha_flow = obj (field "stages" (arr (cons (str (codes "m.login.recaptcha")) nil)) end)

abbrev dummy_flow : Json
dummy_flow = obj (field "stages" (arr (cons (str (codes "m.login.dummy")) nil)) end)

abbrev challenge : Json
challenge = obj (field "flows" (arr (cons captcha_flow (cons dummy_flow nil))) end)

abbrev open_server : Client
open_server = record {
  post = λ url. answered 401 (chunk (codes "{}") eof);
  get = λ url. failed;
  loads = λ text. value challenge;
  yarl = λ text. none;
}

classify_register_body_lem_example : classify_register_body challenge ≡ (
    if any_flow frictionless (flows_of challenge)
    then some dangerously_open
    else if any_flow usable (flows_of challenge)
    then some freely_open
    else none)
classify_register_body_lem_example = classify_register_body_lem challenge

is_dangerous : classify_register_body challenge ≡ some dangerously_open
unfolding classify_register_body scan_flows flow_classification contains
is_dangerous = refl

classify-Justified_example :
    (classify open_server (codes "example.org") ≡ unknown)
    ⊎ ((well_known : Option Json) × (base_url : Text) × (fetch_client_well_known open_server
            (codes "example.org")
          ≡ some well_known)
        × (base_url_of open_server (codes "example.org") (as_dict well_known) ≡ some base_url)
        × Justified open_server base_url
            (as_dict well_known)
            (classify open_server (codes "example.org")))
classify-Justified_example = classify-Justified open_server (codes "example.org")

unguarded : Unguarded open_server (codes "https://example.org")
unfolding read_json_capped flow_stages str_stages contains find
unguarded =
    (challenge, record { body = chunk (codes "{}") eof; posted = refl; decoded = refl }, refl)

classify_at-Unguarded_example :
    classify_at open_server (codes "https://example.org") none ≡ dangerously_open
classify_at-Unguarded_example =
    classify_at-Unguarded open_server (codes "https://example.org") none unguarded

-- A stage that is no text is skipped, and leaves a flow that has no other stage without friction.
skipped_stage :
    classify_register_body (
      obj
        (field "flows" (arr (cons (obj (field "stages" (arr (cons (arr nil) nil)) end)) nil)) end))
    ≡ some dangerously_open
unfolding classify_register_body scan_flows flow_classification
skipped_stage = refl

-- A server that asks for a captcha and answers no GET.
abbrev guarded_challenge : Json
guarded_challenge = obj (field "flows" (arr (cons captcha_flow nil)) end)

abbrev guarded_server : Client
guarded_server = record open_server { loads = λ text. value guarded_challenge }

completable : Completable guarded_server (codes "https://example.org")
unfolding read_json_capped flow_stages str_stages contains find
completable = (
  guarded_challenge,
  record { body = chunk (codes "{}") eof; posted = refl; decoded = refl },
  refl,
  refl,
)

classify_at-NotDelegated_example :
    classify_at guarded_server (codes "https://example.org") none ≡ freely_open
classify_at-NotDelegated_example =
    classify_at-NotDelegated guarded_server (codes "https://example.org") none freely_open
      (λ absent. absent, (unanswered refl, (unanswered refl, tt))) completable
