-- ===== src/Probe/Version/Reported.antt =====
-- What a probe of fedversion.py reports.
use matrix_federation_scanne.Prelude.{
  ℕ, zero, suc, ◌≤◌, ◌≡◌, ◌⊎◌, refl, true, false, Option, none, some, List, [], ◌∷◌, ◌++◌, arith,
  Bool-cases, Option-cases, inl, inr, length, take, is_empty, is_some, ◌==◌, ==_iff, sym, ap, ◌∙◌,
}
use mathlib.Core.Path.{subst}
use matrix_federation_scanne.Prelude.Text.{Text, strip}
use matrix_federation_scanne.Json.{Json, null, bool, int, float, str, arr, obj, Fields, find}
use matrix_federation_scanne.Resolver.Body.{
  Body, Loaded, Awaited, ok, client_error, raised, read_json_capped,
}
use matrix_federation_scanne.Regcheck.Probes.{Http, failed, broken, answered}
use matrix_federation_scanne.Probe.Version.{
  truncate_field, FederationVersion, no_signal, interpret_server, dict_of, interpret, Target,
  version_url, walk, probe,
}

-- A field that may be stored: missing, or a text of 1 to 60 characters.
abbrev pub Capped : Option Text → Type 0
Capped none = Unit
Capped (some s) = (1 ≤ length s) × (length s ≤ 60)

capped_take : (s : Text) → is_empty s ≡ false → (1 ≤ length (take 60 s)) × (length (take 60 s) ≤ 60)
capped_take [] full = cc full
capped_take (c ∷ s) full = (omega arith, length_take_le 60 (c ∷ s))
  where
    length_take_le : (n : ℕ) (s : Text) → length (take n s) ≤ n
    length_take_le zero s = omega arith
    length_take_le (suc n) [] = omega arith
    length_take_le (suc n) (c ∷ s) = omega (arith, length_take_le n s)

truncate_field-Capped : (value : Option Json) → Capped (truncate_field value)
unfolding truncate_field
truncate_field-Capped none = tt
truncate_field-Capped (some null) = tt
truncate_field-Capped (some (bool b)) = tt
truncate_field-Capped (some (int n)) = tt
truncate_field-Capped (some float) = tt
truncate_field-Capped (some (arr items)) = tt
truncate_field-Capped (some (obj fields)) = tt
truncate_field-Capped (some (str s)) = elim (Bool-cases (is_empty (strip s))) [
  | inl blank ↦ rw blank tt
  | inr full ↦ rw full (capped_take (strip s) full)
]

-- An authoritative answer: the two keys of the `server` object of a body.
pub record Reported (body : Option Json) (v : FederationVersion) : Type 0 where
  pub fields : Fields
  pub is_object : body ≡ some (obj fields)
  pub server : Fields
  pub has_server : find "server" fields ≡ some (obj server)
  pub has_name : is_some (find "name" server) ≡ true
  pub has_version : is_some (find "version" server) ≡ true
  pub name : v.name ≡ truncate_field (find "name" server)
  pub version : v.version ≡ truncate_field (find "version" server)

dict_of_inv :
    (value : Option Json) (fields : Fields)
    → dict_of value ≡ some fields
    → value ≡ some (obj fields)
unfolding dict_of
dict_of_inv none fields h = cc h
dict_of_inv (some null) fields h = cc h
dict_of_inv (some (bool b)) fields h = cc h
dict_of_inv (some (int n)) fields h = cc h
dict_of_inv (some float) fields h = cc h
dict_of_inv (some (str s)) fields h = cc h
dict_of_inv (some (arr items)) fields h = cc h
dict_of_inv (some (obj other)) fields h = cc h

interpret-Reported :
    (body : Option Json)
    → (interpret body ≡ no_signal)
      ⊎ ((interpret body).authoritative ≡ true) × Reported body (interpret body)
unfolding interpret interpret_server
interpret-Reported body = elim (Option-cases (dict_of body)) [
  | inl no_object ↦ inl (rw (no_object, interpret) refl)
  | inr (fields, is_object) ↦ elim (Option-cases (dict_of (find "server" fields))) [
    | inl no_server ↦ inl (rw (is_object, no_server, interpret) refl)
    | inr (server, has_server) ↦ elim (Bool-cases (is_some (find "name" server))) [
      | inr nameless ↦ inl (rw (is_object, has_server, nameless, interpret, interpret_server) refl)
      | inl named ↦ elim (Bool-cases (is_some (find "version" server))) [
        | inr unversioned ↦
            inl (rw (is_object, has_server, named, unversioned, interpret, interpret_server) refl)
        | inl versioned ↦ inr (
          rw (is_object, has_server, named, versioned, interpret, interpret_server) refl,
          record {
            fields = fields;
            is_object = dict_of_inv body fields is_object;
            server = server;
            has_server = dict_of_inv (find "server" fields) server has_server;
            has_name = named;
            has_version = versioned;
            name = rw (is_object, has_server, named, versioned, interpret, interpret_server) refl;
            version =
                rw (is_object, has_server, named, versioned, interpret, interpret_server) refl;
          },
        )
      ]
    ]
  ]
]

Reported-Capped :
    (body : Option Json) (v : FederationVersion)
    → Reported body v
    → Capped v.name × Capped v.version
Reported-Capped body v r = (
  rw r.name (truncate_field-Capped (find "name" r.server)),
  rw r.version (truncate_field-Capped (find "version" r.server)),
)

Http-cases : (h : Http) → (h ≡ failed) ⊎ (h ≡ broken) ⊎ ((n : ℕ) × (b : Body) × (h ≡ answered n b))
Http-cases failed = inl refl
Http-cases broken = inr (inl refl)
Http-cases (answered n b) = inr (inr (n, b, refl))

Awaited-cases :
    (a : Awaited (Option Json))
    → ((j : Option Json) × (a ≡ ok j)) ⊎ (a ≡ client_error) ⊎ (a ≡ raised)
Awaited-cases (ok j) = inl (j, refl)
Awaited-cases client_error = inr (inl refl)
Awaited-cases raised = inr (inr refl)

module _ (show : ℕ → Text) (get : Text → Text → Http) (loads : Text → Loaded) where
  abbrev pub reply : Target → Http
  reply target = get (version_url show target) target.host_header

  -- A candidate that gave no answer, or one whose body broke off.
  abbrev pub Unreached : Target → Type 0
  Unreached target =
      (reply target ≡ failed)
      ⊎ ((body : Body) × (reply target ≡ answered 200 body)
          × (read_json_capped loads body ≡ client_error))

  abbrev pub AllUnreached : List Target → Type 0
  AllUnreached [] = Unit
  AllUnreached (target ∷ rest) = Unreached target × AllUnreached rest

  -- The candidate that answered, with those before it.
  pub record Answered (targets : List Target) (v : FederationVersion) : Type 0 where
    pub before : List Target
    pub target : Target
    pub after : List Target
    pub order : targets ≡ before ++ target ∷ after
    pub unreached : AllUnreached before
    pub body : Body
    pub answer : reply target ≡ answered 200 body
    pub json : Option Json
    pub read : read_json_capped loads body ≡ ok json
    pub reported : Reported json v
    pub capped : Capped v.name × Capped v.version

  -- One more candidate that was not reached.
  onwards :
      (target : Target) (rest : List Target) (v : FederationVersion)
      → Unreached target
      → (v ≡ no_signal) ⊎ Answered rest v
      → (v ≡ no_signal) ⊎ Answered (target ∷ rest) v
  onwards target rest v unreached (inl silent) = inl silent
  onwards target rest v unreached (inr a) = inr (record {
    before = target ∷ a.before;
    target = a.target;
    after = a.after;
    order = ap (λ (l : List Target). target ∷ l) a.order;
    unreached = (unreached, a.unreached);
    body = a.body;
    answer = a.answer;
    json = a.json;
    read = a.read;
    reported = a.reported;
    capped = a.capped;
  })

  walk-Answered :
      (targets : List Target) (v : FederationVersion)
      → walk show get loads targets ≡ ok v
      → (v ≡ no_signal) ⊎ Answered targets v
  unfolding walk
  walk-Answered [] v h = inl (cc h)
  walk-Answered (target ∷ rest) v h = elim (Http-cases (reply target)) [
    | inl unanswered ↦
        onwards target rest v (inl unanswered) (walk-Answered rest v (rw (unanswered, walk) at h))
    | inr (inl other) ↦ cc (rw (other, walk) at h)
    | inr (inr (status, body, answer)) ↦ elim (Bool-cases (status == 200)) [
      | inr refused ↦ inl (cc (rw (answer, refused, walk) at h))
      | inl fine ↦
          let e : status ≡ 200 = (==_iff status 200).0 fine in
          let answer_200 : reply target ≡ answered 200 body = rw e at answer in
          elim (Awaited-cases (read_json_capped loads body)) [
            | inr (inl broke) ↦
                onwards target rest v (inr (body, answer_200, broke))
                  (walk-Answered rest v (rw (answer_200, broke, walk) at h))
            | inr (inr other) ↦ cc (rw (answer_200, other, walk) at h)
            | inl (json, read) ↦
                let e : interpret json ≡ v = cc (rw (answer_200, read, walk) at h) in
                elim (interpret-Reported json) [
                  | inl silent ↦ inl (sym e ∙ silent)
                  | inr (authoritative, rep) ↦
                      let reported = subst (λ x. Reported json x) e rep in
                      inr (record {
                        before = [];
                        target = target;
                        after = rest;
                        order = refl;
                        unreached = tt;
                        body = body;
                        answer = answer_200;
                        json = json;
                        read = read;
                        reported = reported;
                        capped = Reported-Capped json v reported;
                      })
                ]
          ]
    ]
  ]

  -- A probe that returns says nothing, or it has an answer of 200 from the first candidate of the
  -- resolver that was reached, with a `server` object that has both keys, and what it says of each
  -- is missing or has between 1 and 60 characters.
  pub probe-Answered :
      (resolve_candidates : Text → Option (List Target)) (scan_target : Text)
      (v : FederationVersion)
      → probe show get loads resolve_candidates scan_target ≡ ok v
      → (v ≡ no_signal)
        ⊎ ((targets : List Target) × (resolve_candidates scan_target ≡ some targets)
            × Answered targets v)
  unfolding probe
  probe-Answered resolve_candidates scan_target v h =
      elim (Option-cases (resolve_candidates scan_target)) [
        | inl raises ↦ inl (cc (rw (raises, probe) at h))
        | inr (targets, resolved) ↦ elim (walk-Answered targets v (rw (resolved, probe) at h)) [
          | inl silent ↦ inl silent
          | inr answered_by ↦ inr (targets, resolved, answered_by)
        ]
      ]
