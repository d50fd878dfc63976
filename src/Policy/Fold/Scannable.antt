-- ===== src/Policy/Fold/Scannable.antt =====
-- The targets that the policy list gives the scanner.
use matrix_federation_scanne.Prelude.{
  ◌≡◌, refl, sym, ◌∙◌, ◌⊎◌, ◌↔◌, inl, inr, Bool, true, false, ◌||◌, Option, none, some, is_empty,
  List, [], ◌∷◌, arith, Bool-cases, Option-cases,
}
use mathlib.Core.Path.{subst}
use matrix_federation_scanne.Prelude.Text.{Text, contains, has}
use matrix_federation_scanne.Prelude.Text.Same.{same_iff}
use matrix_federation_scanne.Json.{Json, str, Fields, find}
use matrix_federation_scanne.Util.{strip_port, validate_server_name}
use matrix_federation_scanne.Policy.State.{Policy}
use matrix_federation_scanne.Policy.Fold.{
  RuleFold, entity_of, is_glob, scannable_domain, scannable_from, scannable_entities,
}

-- Valid names, each once, and none of those that were seen.
abbrev pub Fresh : List Text → List Text → Type 0
Fresh seen [] = Unit
Fresh seen (d ∷ rest) =
    (validate_server_name d ≡ true) × (contains seen d ≡ false) × Fresh (d ∷ seen) rest

-- What a rule gives the scanner: the portless domain of an entity that is a text with no `*` and no
-- `?`, where that domain is a valid server name.
pub record ScansTo (c : Fields) (d : Text) : Type 0 where
  pub entity : Text
  pub declared : find "entity" c ≡ some (str entity)
  pub no_star : has b'*' entity ≡ false
  pub no_question : has b'?' entity ≡ false
  pub portless : strip_port entity ≡ d
  pub valid : validate_server_name d ≡ true

-- Some rule gives the name.
abbrev pub FromRule : Text → RuleFold → Type 0
FromRule d [] = ⊥
FromRule d ((k, c) ∷ rest) = ScansTo c d ⊎ FromRule d rest

-- Each name stands in a list of names.
abbrev pub Among : RuleFold → List Text → Type 0
Among rules [] = Unit
Among rules (d ∷ rest) = FromRule d rules × Among rules rest

-- What each rule gives the scanner passes a test.
abbrev pub Listed : (Text → Bool) → RuleFold → Type 0
Listed f [] = Unit
Listed f ((k, c) ∷ rest) = ((d : Text) → ScansTo c d → f d ≡ true) × Listed f rest

Listed-weaken :
    (f g : Text → Bool) (rules : RuleFold)
    → ((d : Text) → f d ≡ true → g d ≡ true)
    → Listed f rules
    → Listed g rules
Listed-weaken f g [] h l = tt
Listed-weaken f g ((k, c) ∷ rest) h l = (λ d e. h d (l.0 d e), Listed-weaken f g rest h l.1)

scannable_domain-valid :
    (c : Fields) (d : Text) → scannable_domain c ≡ some d → validate_server_name d ≡ true
unfolding scannable_domain
scannable_domain-valid c d h = ground (arith, h)

-- The entity of a rule, when it is a text.
entity_of-declared : (c : Fields) (e : Text) → entity_of c ≡ some e → find "entity" c ≡ some (str e)
unfolding entity_of
entity_of-declared c e h = from (find "entity" c) h
  where
    from :
        (v : Option Json)
        → (elim v [ some (str s) ↦ some s | some _ ↦ none | none ↦ none ]) ≡ some e
        → v ≡ some (str e)
    from (some (str s)) h = ground (arith, h)
    from _ h = cc

declared-entity_of : (c : Fields) (e : Text) → find "entity" c ≡ some (str e) → entity_of c ≡ some e
unfolding entity_of
declared-entity_of c e h = rw (entity_of, h) refl

-- The tests of the loop, on an entity.
taken_entity :
    (c : Fields) (d e : Text)
    → entity_of c ≡ some e
    → scannable_domain c ≡ some d
    → (is_glob e ≡ false) × (strip_port e ≡ d) × (validate_server_name d ≡ true)
unfolding scannable_domain
taken_entity c d e h g = ground (arith, h, g)

no_glob : (e : Text) → (is_glob e ≡ false) ↔ ((has b'*' e ≡ false) × (has b'?' e ≡ false))
unfolding is_glob
no_glob e = ground arith

scannable_domain→ScansTo : (c : Fields) (d : Text) → scannable_domain c ≡ some d → ScansTo c d
unfolding scannable_domain
scannable_domain→ScansTo c d h = elim (Option-cases (entity_of c)) [
  | inl no_text ↦ ground (arith, h, no_text)
  | inr (e, is_text) ↦
      let (plain, portless, valid) = taken_entity c d e is_text h in
      let (no_star, no_question) = (no_glob e).0 plain in
      record {
        entity = e;
        declared = entity_of-declared c e is_text;
        no_star = no_star;
        no_question = no_question;
        portless = portless;
        valid = valid;
      }
]

not_empty : (d : Text) → validate_server_name d ≡ true → is_empty d ≡ false
unfolding validate_server_name
not_empty [] h = cc h
not_empty (c ∷ d) h = refl

entity_not_empty : (e : Text) → validate_server_name (strip_port e) ≡ true → is_empty e ≡ false
unfolding validate_server_name strip_port
entity_not_empty [] h = cc h
entity_not_empty (c ∷ e) h = refl

ScansTo→scannable_domain : (c : Fields) (d : Text) → ScansTo c d → scannable_domain c ≡ some d
unfolding scannable_domain
ScansTo→scannable_domain c d r =
    let valid : validate_server_name (strip_port r.entity) ≡ true = rw r.portless r.valid in
    rw
      (
        scannable_domain,
        declared-entity_of c r.entity r.declared,
        entity_not_empty r.entity valid,
        (no_glob r.entity).1 (r.no_star, r.no_question),
        not_empty (strip_port r.entity) valid,
        valid,
        r.portless,
      )
      refl

scannable_from-Fresh :
    (rules : RuleFold) (seen : List Text) → Fresh seen (scannable_from rules seen)
unfolding scannable_from
scannable_from-Fresh [] seen = tt
scannable_from-Fresh ((k, c) ∷ rest) seen = elim (Option-cases (scannable_domain c)) [
  | inl none_here ↦ rw (none_here, scannable_from) (scannable_from-Fresh rest seen)
  | inr (d, e) ↦ elim (Bool-cases (contains seen d)) [
    | inl old ↦ rw (e, old, scannable_from) (scannable_from-Fresh rest seen)
    | inr new ↦
        rw (e, new, scannable_from)
          (scannable_domain-valid c d e, new, scannable_from-Fresh rest (d ∷ seen))
  ]
]

-- What the loop has seen or returns.
abbrev given : List Text → List Text → Text → Bool
given seen out d = contains seen d || contains out d

move_seen :
    (seen out : List Text) (d x : Text)
    → given (d ∷ seen) out x ≡ true
    → given seen (d ∷ out) x ≡ true
unfolding contains
move_seen seen out d x h = ground (arith, h)

given_first : (seen out : List Text) (d x : Text) → some d ≡ some x → given seen (d ∷ out) x ≡ true
unfolding contains
given_first seen out d x h = ground (arith, h, same_iff x d)

module _ (k : Text) (c : Fields) (rest : RuleFold) (seen : List Text) where
  without_domain :
      scannable_domain c ≡ none → scannable_from ((k, c) ∷ rest) seen ≡ scannable_from rest seen
  unfolding scannable_from
  without_domain e = rw (e, scannable_from) refl

  with_old :
      (d : Text)
      → scannable_domain c ≡ some d
      → contains seen d ≡ true
      → scannable_from ((k, c) ∷ rest) seen ≡ scannable_from rest seen
  unfolding scannable_from
  with_old d e old = rw (e, old, scannable_from) refl

  with_new :
      (d : Text)
      → scannable_domain c ≡ some d
      → contains seen d ≡ false
      → scannable_from ((k, c) ∷ rest) seen ≡ d ∷ scannable_from rest (d ∷ seen)
  unfolding scannable_from
  with_new d e new = rw (e, new, scannable_from) refl

scannable_from-Listed :
    (rules : RuleFold) (seen : List Text) → Listed (given seen (scannable_from rules seen)) rules
scannable_from-Listed [] seen = tt
scannable_from-Listed ((k, c) ∷ rest) seen = elim (Option-cases (scannable_domain c)) [
  | inl none_here ↦
      move (without_domain k c rest seen none_here)
        (λ d e. cc (ScansTo→scannable_domain c d e, none_here), scannable_from-Listed rest seen)
  | inr (d, e) ↦ elim (Bool-cases (contains seen d)) [
    | inl old ↦ move (with_old k c rest seen d e old) (
      λ x ex.
          seen_before (scannable_from rest seen) d x old (sym e ∙ ScansTo→scannable_domain c x ex),
      scannable_from-Listed rest seen,
    )
    | inr new ↦
        let out = scannable_from rest (d ∷ seen) in
        move (with_new k c rest seen d e new) (
          λ x ex. given_first seen out d x (sym e ∙ ScansTo→scannable_domain c x ex),
          Listed-weaken (given (d ∷ seen) out) (given seen (d ∷ out)) rest (move_seen seen out d)
              (scannable_from-Listed rest (d ∷ seen)),
        )
  ]
]
  where
    move :
        {out : List Text}
        → scannable_from ((k, c) ∷ rest) seen ≡ out
        → Listed (given seen out) ((k, c) ∷ rest)
        → Listed (given seen (scannable_from ((k, c) ∷ rest) seen)) ((k, c) ∷ rest)
    move {out} e l = subst (λ o. Listed (given seen o) ((k, c) ∷ rest)) (sym e) l

    seen_before :
        (out : List Text) (d x : Text)
        → contains seen d ≡ true
        → some d ≡ some x
        → given seen out x ≡ true
    seen_before out d x old h = ground (arith, h, old)

Among-weaken :
    (k : Text) (c : Fields) (rules : RuleFold) (out : List Text)
    → Among rules out
    → Among ((k, c) ∷ rules) out
Among-weaken k c rules [] h = tt
Among-weaken k c rules (d ∷ out) h = (inr h.0, Among-weaken k c rules out h.1)

scannable_from-Among :
    (rules : RuleFold) (seen : List Text) → Among rules (scannable_from rules seen)
unfolding scannable_from
scannable_from-Among [] seen = tt
scannable_from-Among ((k, c) ∷ rest) seen = elim (Option-cases (scannable_domain c)) [
  | inl none_here ↦
      rw (none_here, scannable_from)
        (Among-weaken k c rest (scannable_from rest seen) (scannable_from-Among rest seen))
  | inr (d, e) ↦ elim (Bool-cases (contains seen d)) [
    | inl old ↦
        rw (e, old, scannable_from)
          (Among-weaken k c rest (scannable_from rest seen) (scannable_from-Among rest seen))
    | inr new ↦
        rw (e, new, scannable_from)
          (
            inl (scannable_domain→ScansTo c d e),
            Among-weaken k c rest (scannable_from rest (d ∷ seen))
                (scannable_from-Among rest (d ∷ seen)),
          )
  ]
]

-- `scannable_entities` returns valid server names, none of them twice: exactly the portless domains
-- of the rules whose entity is a text without `*` and `?`, where that domain is a valid name.
pub scannable_entities-Fresh :
    (p : Policy)
    → Fresh [] (scannable_entities p)
      × Listed (contains (scannable_entities p)) p.rules
      × Among p.rules (scannable_entities p)
unfolding scannable_entities contains
scannable_entities-Fresh p = (
  scannable_from-Fresh p.rules [],
  scannable_from-Listed p.rules [],
  scannable_from-Among p.rules [],
)
