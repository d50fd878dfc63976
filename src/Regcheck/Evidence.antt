-- ===== src/Regcheck/Evidence.antt =====
-- What stands behind a verdict of `_probe_register`.
use matrix_federation_scanne.Prelude.{
  ℕ, ◌≡◌, refl, ap, ◌∙◌, ◌⊎◌, inl, inr, true, false, ◌&&◌, Option, none, some, arith, Bool-cases,
  ◌==◌, ◌++◌, ==_iff, and_true,
}
use matrix_federation_scanne.Prelude.Text.{Text, codes, same}
use matrix_federation_scanne.Prelude.Text.Same.{same_iff}
use matrix_federation_scanne.Json.{Json, str, obj, Fields, find}
use matrix_federation_scanne.Resolver.Body.{Body, Awaited, ok, read_json_capped}
use matrix_federation_scanne.Regcheck.Flows.{
  Status, dangerously_open, freely_open, closed, classify_register_body, flows_of, usable,
  frictionless, any_flow,
}
use matrix_federation_scanne.Regcheck.Verdict.{classify_register_body_lem}
use matrix_federation_scanne.Regcheck.Probes.{
  Http, answered, Client, is_forbidden, interpret, probe_register,
}

-- The registration endpoint answers with a status and a body of this value.
pub record Registered (client : Client) (base_url : Text) (status : ℕ) (j : Option Json)
    : Type 0 where
  pub body : Body
  pub posted : client.post (base_url ++ codes "/_matrix/client/v3/register") ≡ answered status body
  pub decoded : read_json_capped client.loads body ≡ ok j

-- A 401 that lists a flow without a verifying or an unfamiliar stage.
abbrev pub Unguarded : Client → Text → Type 0
Unguarded client base_url =
    (j : Json) × Registered client base_url 401 (some j)
    × (any_flow frictionless (flows_of j) ≡ true)

-- A 401 that lists a flow, and no such flow.
abbrev pub Completable : Client → Text → Type 0
Completable client base_url =
    (j : Json) × Registered client base_url 401 (some j)
    × (any_flow usable (flows_of j) ≡ true)
    × (any_flow frictionless (flows_of j) ≡ false)

-- A 403 whose body says `M_FORBIDDEN`.
abbrev pub Forbidden : Client → Text → Type 0
Forbidden client base_url =
    (d : Fields) × Registered client base_url 403 (some (obj d))
    × (find "errcode" d ≡ some (str (codes "M_FORBIDDEN")))

-- The evidence for a verdict of the registration endpoint.
abbrev pub LegacyEvidence : Client → Text → Status → Type 0
LegacyEvidence client base_url dangerously_open = Unguarded client base_url
LegacyEvidence client base_url freely_open = Completable client base_url
LegacyEvidence client base_url closed = Forbidden client base_url
LegacyEvidence client base_url _ = ⊥

verdict_dangerous :
    (j : Json)
    → classify_register_body j ≡ some dangerously_open
    → any_flow frictionless (flows_of j) ≡ true
verdict_dangerous j h = ground (arith, h, classify_register_body_lem j)

verdict_open :
    (j : Json)
    → classify_register_body j ≡ some freely_open
    → (any_flow usable (flows_of j) ≡ true) × (any_flow frictionless (flows_of j) ≡ false)
verdict_open j h = ground (arith, h, classify_register_body_lem j)

verdict_other :
    (j : Json) (s : Status)
    → classify_register_body j ≡ some s
    → (s ≡ dangerously_open) ⊎ (s ≡ freely_open)
verdict_other j s h = ground (arith, h, classify_register_body_lem j)

forbidden_fields :
    (j : Option Json)
    → is_forbidden j ≡ true
    → (d : Fields) × (j ≡ some (obj d)) × (find "errcode" d ≡ some (str (codes "M_FORBIDDEN")))
unfolding is_forbidden
forbidden_fields (some (obj d)) h = (d, refl, from (find "errcode" d) h)
  where
    from :
        (v : Option Json)
        → (elim v [ some (str s) ↦ same s (codes "M_FORBIDDEN") | _ ↦ false ]) ≡ true
        → v ≡ some (str (codes "M_FORBIDDEN"))
    from (some (str s)) h = ap (λ t. some (str t)) ((same_iff s (codes "M_FORBIDDEN")).0 h)
    from _ h = cc
forbidden_fields _ h = cc

module _ (client : Client) (base_url : Text) where
  challenge-evidence :
      (j : Option Json) (s : Status)
      → Registered client base_url 401 j
      → interpret 401 j ≡ some s
      → LegacyEvidence client base_url s
  unfolding interpret
  challenge-evidence (some j) s r h = elim (verdict_other j s h) [
    | inl e ↦ rw e (j, r, verdict_dangerous j (h ∙ ap some e))
    | inr e ↦ rw e (j, r, (verdict_open j (h ∙ ap some e)).0, (verdict_open j (h ∙ ap some e)).1)
  ]
  challenge-evidence none s r h = cc

  refusal-evidence :
      (status : ℕ) (j : Option Json) (s : Status)
      → Registered client base_url status j
      → (status == 401) ≡ false
      → interpret status j ≡ some s
      → LegacyEvidence client base_url s
  unfolding interpret
  refusal-evidence status j s r other h = elim (Bool-cases ((status == 403) && is_forbidden j)) [
    | inr unclear ↦ ground (arith, h, other, unclear)
    | inl clear ↦
        let (is_403, says) = and_true (status == 403) (is_forbidden j) clear in
        let (d, holds, code) = forbidden_fields j says in
        let e : status ≡ 403 = (==_iff status 403).0 is_403 in
        let is_closed : s ≡ closed = ground (arith, h, other, clear) in
        rw is_closed (d, rw (e, holds) at r, code)
  ]

  interpret-evidence :
      (status : ℕ) (j : Option Json) (s : Status)
      → Registered client base_url status j
      → interpret status j ≡ some s
      → LegacyEvidence client base_url s
  interpret-evidence status j s r h = elim (Bool-cases (status == 401)) [
    | inr other ↦ refusal-evidence status j s r other h
    | inl is_401 ↦
        let e : status ≡ 401 = (==_iff status 401).0 is_401 in
        challenge-evidence j s (rw e at r) (rw e at h)
  ]

  -- A verdict of `_probe_register` has its evidence.
  pub probe_register-evidence :
      (s : Status) → probe_register client base_url ≡ ok (some s) → LegacyEvidence client base_url s
  unfolding probe_register
  probe_register-evidence s h =
      from (client.post (base_url ++ codes "/_matrix/client/v3/register")) refl
    where
      read :
          (status : ℕ) (body : Body)
          → client.post (base_url ++ codes "/_matrix/client/v3/register") ≡ answered status body
          → (a : Awaited (Option Json)) → read_json_capped client.loads body ≡ a
          → LegacyEvidence client base_url s
      read status body posted (ok j) decoded =
          interpret-evidence status j s (record { body = body; posted = posted; decoded = decoded })
            (ground (arith, h, posted, decoded))
      read status body posted _ decoded = ground (arith, h, posted, decoded)

      from :
          (a : Http)
          → client.post (base_url ++ codes "/_matrix/client/v3/register") ≡ a
          → LegacyEvidence client base_url s
      from (answered status body) posted =
          read status body posted (read_json_capped client.loads body) refl
      from _ posted = ground (arith, h, posted)
