-- ===== src/Regcheck/Issuers.antt =====
-- What stands behind an answer of `_is_oauth_delegated`.
use matrix_federation_scanne.Prelude.{
  ℕ, ◌≡◌, ◌≢◌, refl, sym, ap, ◌∙◌, ◌⊎◌, inl, inr, Bool, true, false, Option, none, some, List, [],
  ◌∷◌, ◌++◌, ◌==◌, arith, Bool-cases, Option-cases, is_empty,
}
use matrix_federation_scanne.Prelude.Text.{Text}
use matrix_federation_scanne.Json.{Json, str, obj, Fields, find}
use matrix_federation_scanne.Resolver.Body.{
  Body, Awaited, ok, client_error, raised, read_json_capped,
}
use matrix_federation_scanne.Regcheck.Probes.{
  Http, failed, broken, answered, Client, text_at, has_issuer, well_known_issuer, metadata_paths,
  body_of_200, any_issuer, is_oauth_delegated,
}

-- A value that is an object with an issuer, a text that is not empty.
abbrev pub Issuer : Option Json → Type 0
Issuer j =
    (d : Fields) × (s : Text) × (j ≡ some (obj d))
    × (find "issuer" d ≡ some (str s))
    × (is_empty s ≡ false)

-- The client well-known names an issuer, under either key.
abbrev pub WellKnownIssuer : Option Fields → Type 0
WellKnownIssuer none = ⊥
WellKnownIssuer (some d) =
    Issuer (find "m.authentication" d) ⊎ Issuer (find "org.matrix.msc2965.authentication" d)

-- A URL answers 200 with an issuer.
abbrev pub Names : Client → Text → Type 0
Names client url =
    (body : Body) × (j : Option Json) × (client.get url ≡ answered 200 body)
    × (read_json_capped client.loads body ≡ ok j)
    × Issuer j

-- A URL names no issuer; that is also so where nothing answers, or no body can be read.
pub data Nameless (client : Client) (url : Text) : Type 0 where
  unanswered : client.get url ≡ failed → Nameless client url
  other_status :
      (status : ℕ) (body : Body)
      → client.get url ≡ answered status body
      → status ≢ 200
      → Nameless client url
  unread :
      (body : Body)
      → client.get url ≡ answered 200 body
      → read_json_capped client.loads body ≡ client_error
      → Nameless client url
  without_issuer :
      (body : Body) (j : Option Json)
      → client.get url ≡ answered 200 body
      → read_json_capped client.loads body ≡ ok j
      → ¬ Issuer j
      → Nameless client url

abbrev pub SomeNames : Client → Text → List Text → Type 0
SomeNames client base_url [] = ⊥
SomeNames client base_url (path ∷ rest) =
    Names client (base_url ++ path) ⊎ SomeNames client base_url rest

abbrev pub AllNameless : Client → Text → List Text → Type 0
AllNameless client base_url [] = Unit
AllNameless client base_url (path ∷ rest) =
    Nameless client (base_url ++ path) × AllNameless client base_url rest

-- A source names an issuer.
abbrev pub Delegated : Client → Text → Option Fields → Type 0
Delegated client base_url well_known =
    WellKnownIssuer well_known ⊎ SomeNames client base_url metadata_paths

-- No source names one.
abbrev pub NotDelegated : Client → Text → Option Fields → Type 0
NotDelegated client base_url well_known =
    (¬ WellKnownIssuer well_known) × AllNameless client base_url metadata_paths

text_at-some :
    (v : Option Json) (s : Text) → text_at v ≡ some s → (v ≡ some (str s)) × (is_empty s ≡ false)
unfolding text_at
text_at-some (some (str [])) s h = cc h
text_at-some (some (str (c ∷ t))) s h = (ap some (cc h), rw (sym (the_text c t s h)) refl)
  where
    the_text : (c : ℕ) (t s : Text) → some (c ∷ t) ≡ some s → c ∷ t ≡ s
    the_text c t s h = cc h
text_at-some _ s h = cc h

has_issuer→Issuer : (j : Option Json) → has_issuer j ≡ true → Issuer j
unfolding has_issuer
has_issuer→Issuer (some (obj d)) h = elim (Option-cases (text_at (find "issuer" d))) [
  | inl nothing ↦ ground (arith, h, nothing)
  | inr (s, e) ↦
      let (is_text, there) = text_at-some (find "issuer" d) s e in (d, s, refl, is_text, there)
]
has_issuer→Issuer _ h = cc h

issuer_text :
    (v : Option Json) (s : Text) → v ≡ some (str s) → is_empty s ≡ false → text_at v ≡ some s
unfolding text_at
issuer_text v s e n = rw (e, text_at, n) refl

Issuer→found : (j : Option Json) → Issuer j → has_issuer j ≡ true
unfolding has_issuer
Issuer→found j (d, s, e, f, n) = rw (e, has_issuer, issuer_text (find "issuer" d) s f n) refl

no-Issuer : (j : Option Json) → has_issuer j ≡ false → ¬ Issuer j
no-Issuer j h i = cc (h, Issuer→found j i)

well_known→ : (w : Option Fields) → well_known_issuer w ≡ true → WellKnownIssuer w
unfolding well_known_issuer
well_known→ none h = cc h
well_known→ (some d) h = elim (Bool-cases (has_issuer (find "m.authentication" d))) [
  | inl first ↦ inl (has_issuer→Issuer (find "m.authentication" d) first)
  | inr other ↦
      inr
        (has_issuer→Issuer (find "org.matrix.msc2965.authentication" d) (ground (arith, h, other)))
]

→well_known : (w : Option Fields) → WellKnownIssuer w → well_known_issuer w ≡ true
unfolding well_known_issuer
→well_known none h = absurd h
→well_known (some d) (inl i) =
    let first = Issuer→found (find "m.authentication" d) i in ground (arith, first)
→well_known (some d) (inr i) =
    let second = Issuer→found (find "org.matrix.msc2965.authentication" d) i in
    ground (arith, second)

module _ (client : Client) (url : Text) where
  body_at_200 :
      (status : ℕ) (body : Body)
      → (status ≢ 200) × (body_of_200 client (answered status body) ≡ ok none)
        ⊎ ((status ≡ 200)
            × (body_of_200 client (answered status body) ≡ read_json_capped client.loads body))
  unfolding body_of_200
  body_at_200 status body = ground arith

  Nameless-error :
      (h : Http) → client.get url ≡ h → body_of_200 client h ≡ client_error → Nameless client url
  unfolding body_of_200
  Nameless-error failed e r = unanswered e
  Nameless-error broken e r = cc r
  Nameless-error (answered status body) e r = elim (body_at_200 status body) [
    | inl (other, skipped) ↦ other_status status body e other
    | inr (is_200, read) ↦ unread body (rw is_200 at e) (sym read ∙ r)
  ]

  Nameless-ok :
      (h : Http) (j : Option Json)
      → client.get url ≡ h
      → body_of_200 client h ≡ ok j
      → has_issuer j ≡ false
      → Nameless client url
  unfolding body_of_200
  Nameless-ok failed j e r n = cc r
  Nameless-ok broken j e r n = cc r
  Nameless-ok (answered status body) j e r n = elim (body_at_200 status body) [
    | inl (other, skipped) ↦ other_status status body e other
    | inr (is_200, read) ↦ without_issuer body j (rw is_200 at e) (sym read ∙ r) (no-Issuer j n)
  ]

  Names-ok :
      (h : Http) (j : Option Json)
      → client.get url ≡ h
      → body_of_200 client h ≡ ok j
      → has_issuer j ≡ true
      → Names client url
  unfolding body_of_200
  Names-ok failed j e r i = cc r
  Names-ok broken j e r i = cc r
  Names-ok (answered status body) j e r i = elim (body_at_200 status body) [
    | inl (other, skipped) ↦ absurd (nothing_read j i (sym skipped ∙ r))
    | inr (is_200, read) ↦ (body, j, rw is_200 at e, sym read ∙ r, has_issuer→Issuer j i)
  ]
    where
      nothing_read : (j : Option Json) → has_issuer j ≡ true → ok none ≡ ok j → ⊥
      nothing_read none i f = let (d, s, g, _, _) = has_issuer→Issuer none i in cc g
      nothing_read (some k) i f = cc f

module _ (client : Client) (base_url : Text) where
  any_issuer-lem :
      (paths : List Text)
      → ((any_issuer client base_url paths ≡ ok true) → SomeNames client base_url paths)
        × ((any_issuer client base_url paths ≡ ok false) → AllNameless client base_url paths)
  unfolding any_issuer
  any_issuer-lem [] = (λ h. cc h, λ h. tt)
  any_issuer-lem (path ∷ rest) =
      from (any_issuer-lem rest) (body_of_200 client (client.get (base_url ++ path))) refl
    where
      from :
          ((any_issuer client base_url rest ≡ ok true) → SomeNames client base_url rest)
            × ((any_issuer client base_url rest ≡ ok false) → AllNameless client base_url rest)
          → (a : Awaited (Option Json)) → body_of_200 client (client.get (base_url ++ path)) ≡ a
          → ((any_issuer client base_url (path ∷ rest) ≡ ok true)
              → SomeNames client base_url (path ∷ rest))
            × ((any_issuer client base_url (path ∷ rest) ≡ ok false)
                → AllNameless client base_url (path ∷ rest))
      from later raised e = (λ h. ground (arith, e, h), λ h. ground (arith, e, h))
      from later client_error e = (
        λ h. inr (later.0 (ground (arith, e, h))),
        λ h. (
          Nameless-error client (base_url ++ path) (client.get (base_url ++ path)) refl e,
          later.1 (ground (arith, e, h)),
        ),
      )
      from later (ok j) e = elim (Bool-cases (has_issuer j)) [
        | inl named ↦ (
          λ h.
              inl
                (Names-ok client (base_url ++ path) (client.get (base_url ++ path)) j refl e named),
          λ h. ground (arith, e, named, h),
        )
        | inr nameless ↦ (
          λ h. inr (later.0 (ground (arith, e, nameless, h))),
          λ h. (
            Nameless-ok client (base_url ++ path) (client.get (base_url ++ path)) j refl e nameless,
            later.1 (ground (arith, e, nameless, h)),
          ),
        )
      ]

  -- A yes of `_is_oauth_delegated` is an issuer that a source names.
  pub delegated :
      (w : Option Fields)
      → is_oauth_delegated client base_url w ≡ ok true
      → Delegated client base_url w
  unfolding is_oauth_delegated
  delegated w h = elim (Bool-cases (well_known_issuer w)) [
    | inl here ↦ inl (well_known→ w here)
    | inr other ↦ inr ((any_issuer-lem metadata_paths).0 (ground (arith, h, other)))
  ]

  -- A no is that no source names one.
  pub not_delegated :
      (w : Option Fields)
      → is_oauth_delegated client base_url w ≡ ok false
      → NotDelegated client base_url w
  unfolding is_oauth_delegated
  not_delegated w h = elim (Bool-cases (well_known_issuer w)) [
    | inl here ↦ ground (arith, h, here)
    | inr other ↦ (
      λ i. cc (other, →well_known w i),
      (any_issuer-lem metadata_paths).1 (ground (arith, h, other)),
    )
  ]

  -- A source that names no issuer is passed over.
  passed_over :
      (path : Text) (rest : List Text)
      → Nameless client (base_url ++ path)
      → any_issuer client base_url (path ∷ rest) ≡ any_issuer client base_url rest
  unfolding any_issuer body_of_200
  passed_over path rest (unanswered e) = rw (any_issuer, e) refl
  passed_over path rest (other_status status body e other) =
      rw (any_issuer, e, not_200 status other, has_issuer) refl
    where
      not_200 : (status : ℕ) → status ≢ 200 → (status == 200) ≡ false
      not_200 status other = ground (arith, other)
  passed_over path rest (unread body e f) = rw (any_issuer, e, f) refl
  passed_over path rest (without_issuer body j e f nameless) =
      rw (any_issuer, e, f, not_found (has_issuer j) refl) refl
    where
      not_found : (b : Bool) → has_issuer j ≡ b → has_issuer j ≡ false
      not_found true h = absurd (nameless (has_issuer→Issuer j h))
      not_found false h = h

  none_named :
      (paths : List Text)
      → AllNameless client base_url paths
      → any_issuer client base_url paths ≡ ok false
  unfolding any_issuer
  none_named [] h = refl
  none_named (path ∷ rest) h = passed_over path rest h.0 ∙ none_named rest h.1

  -- Where no source names an issuer, `_is_oauth_delegated` says no.
  pub says_no :
      (w : Option Fields)
      → NotDelegated client base_url w
      → is_oauth_delegated client base_url w ≡ ok false
  unfolding is_oauth_delegated
  says_no w h =
      rw (is_oauth_delegated, absent (well_known_issuer w) refl) (none_named metadata_paths h.1)
    where
      absent : (b : Bool) → well_known_issuer w ≡ b → well_known_issuer w ≡ false
      absent true e = absurd (h.0 (well_known→ w e))
      absent false e = e
