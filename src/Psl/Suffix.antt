-- ===== src/Psl/Suffix.antt =====
-- `public_suffix` and `etld1` of psl.py.
use matrix_federation_scanne.Prelude.{
  ℕ, ◌+◌, ◌-◌, Bool, true, false, not, ◌&&◌, ◌||◌, Option, none, some, List, [], ◌∷◌, if◌then◌else◌,
  ◌==◌, length, drop, is_empty,
}
use matrix_federation_scanne.Prelude.Text.{
  Text, same, contains, count, lstrip_by, rstrip_by, split_on, join, lower,
}
use matrix_federation_scanne.Psl.Rules.{PublicSuffixList, last_label}

abbrev pub dots : List Text → Text
dots ls = join b'.' ls

-- `text or None`.
abbrev pub or_none : Text → Option Text
or_none s = if is_empty s then none else some s

module _ (p : PublicSuffixList) where
  -- The first loop: `some r` where an exception matches and `r` is returned.
  unfoldable pub exception_suffix : List Text → Option (Option Text)
  unfolding contains join
  exception_suffix [] = none
  exception_suffix (l ∷ ls) =
      if contains p.exception (dots (l ∷ ls)) then some (or_none (dots ls)) else exception_suffix ls

  -- The test in the second loop, at the labels from `i` on.
  unfoldable pub rule_matches : Text → List Text → Bool
  unfolding contains join
  rule_matches l ls =
      contains p.normal (dots (l ∷ ls))
      || (not (is_empty (dots ls)) && contains p.wildcard (dots ls))

  -- The second loop.
  unfoldable pub rule_suffix : List Text → Option Text
  unfolding rule_matches join
  rule_suffix [] = none
  rule_suffix (l ∷ ls) = if rule_matches l ls then some (dots (l ∷ ls)) else rule_suffix ls

  unfoldable pub tld_known : Text → Bool
  unfolding contains
  tld_known tld = contains p.tlds tld

  unfoldable pub suffix_of_labels : List Text → Option Text
  unfolding exception_suffix rule_suffix tld_known last_label
  suffix_of_labels labels = elim (exception_suffix labels) [
    | some r ↦ r
    | none ↦ elim (rule_suffix labels) [
      | some r ↦ some r
      | none ↦ if tld_known (last_label labels) then some (last_label labels) else none
    ]
  ]

  unfoldable pub public_suffix : Text → Option Text
  unfolding suffix_of_labels split_on
  public_suffix host = suffix_of_labels (split_on b'.' host)

  -- `labels[-n:]`, for `0 < n`.
  abbrev pub last_labels : ℕ → List Text → List Text
  last_labels n ls = drop (length ls - n) ls

  -- `etld1` of a host that is stripped and in lower case.
  unfoldable pub bucket_of : Text → Text × Bool
  unfolding public_suffix same count split_on join
  bucket_of host = elim (public_suffix host) [
    | none ↦ (host, false)
    | some suffix ↦
        if same host suffix
        then (host, true)
        else (dots (last_labels (count b'.' suffix + 2) (split_on b'.' host)), true)
  ]

  -- `etld1`. Letters that are not ASCII stay as they are, where `str.lower` folds them.
  unfoldable pub etld1 : Text → Text × Bool
  unfolding bucket_of lower lstrip_by rstrip_by
  etld1 host = bucket_of (lower (rstrip_by (λ c. c == b'.') (lstrip_by (λ c. c == b'.') host)))
