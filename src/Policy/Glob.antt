-- ===== src/Policy/Glob.antt =====
-- `_glob_to_regex` of policy.py and the match that `_covering_glob` makes with it.
pub mod Matches
use matrix_federation_scanne.Prelude.{
  ℕ, ◌≡◌, refl, Bool, true, false, not, ◌&&◌, ◌||◌, List, [], ◌∷◌, ◌==◌, if◌then◌else◌,
}
use matrix_federation_scanne.Prelude.Text.{Text, codes}

-- A part of the compiled regular expression: `.*`, `.`, or an escaped character.
pub data Item : Type 0 where
  any_run any_one : Item
  literal : ℕ → Item

abbrev pub item_of : ℕ → Item
item_of c = if c == b'*' then any_run else if c == b'?' then any_one else literal c

unfoldable pub glob_to_regex : Text → List Item
glob_to_regex [] = []
glob_to_regex (c ∷ s) = item_of c ∷ glob_to_regex s

-- `$`: the end, or a newline that is the last character.
abbrev pub at_end : Text → Bool
at_end [] = true
at_end (c ∷ []) = c == 10
at_end (c ∷ d ∷ s) = false

-- `.` is every character but the newline.
abbrev pub is_any : ℕ → Bool
is_any c = not (c == 10)

-- `regex.match(text)`. A run is tried empty first, and then one character longer.
unfoldable pub regex_match : List Item → Text → Bool
regex_match [] s = at_end s
regex_match (literal x ∷ p) [] = false
regex_match (literal x ∷ p) (c ∷ s) = elim (x == c) [ true ↦ regex_match p s | false ↦ false ]
regex_match (any_one ∷ p) [] = false
regex_match (any_one ∷ p) (c ∷ s) = elim (is_any c) [ true ↦ regex_match p s | false ↦ false ]
regex_match (any_run ∷ p) [] = regex_match p []
regex_match (any_run ∷ p) (c ∷ s) = elim (regex_match p (c ∷ s)) [
  | true ↦ true
  | false ↦ elim (is_any c) [ true ↦ regex_match (any_run ∷ p) s | false ↦ false ]
]

-- `_glob_to_regex(pattern).match(entity)`.
unfoldable pub glob_covers : Text → Text → Bool
unfolding glob_to_regex regex_match
glob_covers pattern entity = regex_match (glob_to_regex pattern) entity

subdomain : glob_covers (codes "*.example.org") (codes "a.b.example.org") ≡ true
unfolding glob_covers
subdomain = refl

literal_dot : glob_covers (codes "*.example.org") (codes "example-org") ≡ false
unfolding glob_covers
literal_dot = refl
