-- ===== src/Psl/Holder.antt =====
-- `validate_psl_text` and `PSLHolder` of psl.py.
pub mod Monotone
use matrix_federation_scanne.Prelude.{
  ℕ, ◌≡◌, refl, Bool, true, false, not, ◌&&◌, ◌||◌, Option, none, some, List, [], ◌∷◌, leb, ltb,
  if◌then◌else◌,
}
use matrix_federation_scanne.Prelude.Text.{Text, codes, same, starts_with}
use matrix_federation_scanne.Psl.Rules.{PublicSuffixList, load}
use matrix_federation_scanne.Psl.Suffix.{etld1}

-- `marker in text`.
unfoldable pub occurs_in : Text → Text → Bool
unfolding starts_with
occurs_in marker [] = starts_with [] marker
occurs_in marker (c ∷ s) = starts_with (c ∷ s) marker || occurs_in marker s

-- The exceptions that `validate_psl_text` raises.
pub data ValidationError : Type 0 where
  missing_marker no_version unparseable_version bad_sentinel : ValidationError

-- A list, a PSLValidationError, or the UnicodeError of the IDNA codec.
pub data Validated : Type 0 where
  accepted : PublicSuffixList → Validated
  rejected : ValidationError → Validated
  not_encodable : Validated

abbrev pub sentinels : List (Text × Text)
sentinels =
    (codes "example.com", codes "example.com")
    ∷ (codes "a.b.example.co.uk", codes "example.co.uk")
    ∷ (codes "b.test.ck", codes "b.test.ck")
    ∷ (codes "www.www.ck", codes "www.ck")
    ∷ (codes "foo.github.io", codes "foo.github.io")
    ∷ []

unfoldable pub sentinels_hold : PublicSuffixList → List (Text × Text) → Bool
unfolding etld1 same
sentinels_hold p [] = true
sentinels_hold p ((host, expected) ∷ rest) =
    let (got, matched) = etld1 p host in (matched && same got expected) && sentinels_hold p rest

-- The checks behind the parse.
unfoldable pub check_parsed : PublicSuffixList → Validated
unfolding sentinels_hold
check_parsed p = elim p.version_raw [
  | none ↦ rejected no_version
  | some _ ↦ elim p.version [
    | none ↦ rejected unparseable_version
    | some _ ↦ if sentinels_hold p sentinels then accepted p else rejected bad_sentinel
  ]
]

unfoldable pub validate_psl_text : (Text → Option Text) → Text → Text → Validated
unfolding check_parsed occurs_in load
validate_psl_text idna text source =
    if occurs_in (codes "// ===BEGIN ICANN DOMAINS===") text
      && occurs_in (codes "// ===BEGIN PRIVATE DOMAINS===") text
    then (elim (load idna text source) [ none ↦ not_encodable | some p ↦ check_parsed p ])
    else rejected missing_marker

-- `PSLHolder`: the active list, if there is one.
pub record PslHolder : Type 0 where
  pub current : Option PublicSuffixList

abbrev pub current_version : PslHolder → Option ℕ
current_version h = elim h.current [ none ↦ none | some p ↦ p.version ]

-- `cur is not None and new <= cur`.
abbrev pub not_newer : ℕ → Option ℕ → Bool
not_newer new none = false
not_newer new (some cur) = leb new cur

unfoldable pub adopt : PublicSuffixList → PslHolder → PslHolder × Bool
adopt candidate h = elim candidate.version [
  | none ↦ (h, false)
  | some new ↦
      if not_newer new (current_version h)
      then (h, false)
      else (record { current = some candidate }, true)
]
