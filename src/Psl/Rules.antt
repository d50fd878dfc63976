-- ===== src/Psl/Rules.antt =====
-- `PublicSuffixList` of psl.py: the parsed rules and how they are loaded.
-- The `idna` codec that encodes a non-ASCII label is a parameter; `none` is its UnicodeError.
use matrix_federation_scanne.Prelude.{
  ℕ, ◌+◌, Bool, not, ◌&&◌, ◌||◌, Option, none, some, List, [], ◌∷◌, leb, ◌==◌, if◌then◌else◌,
  length, all, take, drop, is_empty, is_some, ◌>>=◌,
}
use matrix_federation_scanne.Prelude.Text.{
  Text, codes, contains, strip, lstrip_by, is_space, starts_with, split_on, join, lower,
}
use matrix_federation_scanne.Psl.Version.{parse_psl_text}

-- The sets are lists without duplicates; the order of their members is never read.
pub record PublicSuffixList : Type 0 where
  pub source : Text
  pub raw_text : Text
  pub version_raw : Option Text
  pub version : Option ℕ
  pub commit : Option Text
  pub normal : List Text
  pub wildcard : List Text
  pub exception : List Text
  pub tlds : List Text

-- `set.add`.
unfoldable pub set_add : Text → List Text → List Text
unfolding contains
set_add s xs = if contains xs s then xs else s ∷ xs

-- The line ends of `str.splitlines`.
abbrev is_line_end : ℕ → Bool
is_line_end c =
    (leb 10 c && leb c 13)
    || (leb 28 c && leb c 30)
    || (c == 0x85)
    || (c == 0x2028)
    || (c == 0x2029)

-- `str.splitlines`: `\r\n` is one end, and no empty line follows a final end.
unfoldable pub split_lines : Text → List Text
split_lines [] = []
split_lines (c ∷ []) = if is_line_end c then [] ∷ [] else (c ∷ []) ∷ []
split_lines (c ∷ d ∷ s) =
    let rest = split_lines (d ∷ s) in
    let skipped = split_lines s in
    if (c == 13) && (d == 10)
    then [] ∷ skipped
    else if is_line_end c
    then [] ∷ rest
    else (elim rest [ [] ↦ (c ∷ []) ∷ [] | w ∷ ws ↦ (c ∷ w) ∷ ws ])

-- `line.split()[0]` of a stripped line that is not empty.
unfoldable pub first_word : Text → Text
unfolding is_space
first_word [] = []
first_word (c ∷ s) = let rest = first_word s in if is_space c then [] else c ∷ rest

-- `rule.rsplit(".", 1)[-1]`.
unfoldable pub last_label : List Text → Text
last_label [] = []
last_label (l ∷ []) = l
last_label (l ∷ m ∷ ls) = last_label (m ∷ ls)

abbrev drop_bang : Text → Text
drop_bang s = lstrip_by (λ c. c == b'!') s

module _ (idna : Text → Option Text) where
  -- `_encode_label`.
  unfoldable pub encode_label : Text → Option Text
  unfolding lower
  encode_label l =
      if all (λ c. leb c 127) l
      then some (lower l)
      else (elim (idna l) [ none ↦ none | some ascii ↦ some (lower ascii) ])

  unfoldable pub encode_labels : List Text → Option (List Text)
  unfolding encode_label
  encode_labels [] = some []
  encode_labels (l ∷ ls) = do
    label ← encode_label l
    labels ← encode_labels ls
    some (label ∷ labels)

  -- `_encode_rule`.
  unfoldable pub encode_rule : Text → Option Text
  unfolding encode_labels split_on join
  encode_rule rule = do labels ← encode_labels (split_on b'.' rule); some (join b'.' labels)

  -- One rule put into the set of its kind.
  unfoldable pub add_rule : Text → PublicSuffixList → PublicSuffixList
  unfolding set_add starts_with last_label lstrip_by split_on
  add_rule rule p =
      let q : PublicSuffixList = record p {
        tlds = set_add (last_label (split_on b'.' (drop_bang rule))) p.tlds;
      } in
      if starts_with rule (codes "!")
      then record q { exception = set_add (drop 1 rule) p.exception }
      else if starts_with rule (codes "*.")
      then record q { wildcard = set_add (drop 2 rule) p.wildcard }
      else record q { normal = set_add rule p.normal }

  -- The body of the loop of `_load`.
  unfoldable pub load_line : Text → PublicSuffixList → Option PublicSuffixList
  unfolding add_rule encode_rule strip starts_with first_word
  load_line raw p =
      let line = strip raw in
      if is_empty line || starts_with line (codes "//")
      then some p
      else do rule ← encode_rule (first_word line); some (add_rule rule p)

  unfoldable pub load_lines : List Text → PublicSuffixList → Option PublicSuffixList
  unfolding load_line
  load_lines [] p = some p
  load_lines (l ∷ ls) p = do q ← load_line l p; load_lines ls q

-- The body of the loop of `_read_header`.
unfoldable pub header_line : Text → PublicSuffixList → PublicSuffixList
unfolding strip starts_with parse_psl_text
header_line line p =
    if starts_with line (codes "// VERSION:") && not (is_some p.version_raw)
    then (let raw = strip (drop 11 line) in
        record p { version_raw = some raw; version = parse_psl_text raw })
    else if starts_with line (codes "// COMMIT:") && not (is_some p.commit)
    then (let raw = strip (drop 10 line) in
        record p { commit = if is_empty raw then none else some raw })
    else p

unfoldable pub read_header : List Text → PublicSuffixList → PublicSuffixList
unfolding header_line
read_header [] p = p
read_header (l ∷ ls) p = read_header ls (header_line l p)

-- The fields as `__init__` sets them before `_load`.
abbrev pub blank : Text → Text → PublicSuffixList
blank text source = record {
  source = source;
  raw_text = text;
  version_raw = none;
  version = none;
  commit = none;
  normal = [];
  wildcard = [];
  exception = [];
  tlds = [];
}

-- `PublicSuffixList(text, source=source)`.
unfoldable pub load : (Text → Option Text) → Text → Text → Option PublicSuffixList
unfolding load_lines read_header split_lines
load idna text source =
    let lines = split_lines text in
    load_lines idna lines (read_header (take 40 lines) (blank text source))

-- `rule_count`.
unfoldable pub rule_count : PublicSuffixList → ℕ
rule_count p = length p.normal + length p.wildcard + length p.exception
