-- ===== src/Policy/Fold/Laws.antt =====
-- Laws of the fold: what a write to it changes.
use matrix_federation_scanne.Prelude.{
  ℕ, ◌+◌, ◌≡◌, refl, ap, Bool, false, [], ◌∷◌, arith, Bool-cases, inl, inr, if◌then◌else◌,
}
use matrix_federation_scanne.Prelude.Text.{Text, same}
use matrix_federation_scanne.Prelude.Text.Same.{same_iff}
use matrix_federation_scanne.Json.{Fields, end, find}
use matrix_federation_scanne.Psl.Rules.{PublicSuffixList}
use matrix_federation_scanne.Policy.Fold.{
  RuleFold, rule_at, put_rule, count_bans, in_bucket, counted_entity, entity_of,
}

pub rule_at-put_rule :
    (k j : Text) (c : Fields) (rules : RuleFold)
    → rule_at j (put_rule k c rules) ≡ (if same k j then c else rule_at j rules)
unfolding rule_at put_rule
rule_at-put_rule k j c [] = ground arith
rule_at-put_rule k j c ((i, d) ∷ rest) =
    ground (arith, same_iff i k, same_iff i j, same_iff k j, rule_at-put_rule k j c rest)

pub in_bucket-end : (psl : PublicSuffixList) (r t : Text) → in_bucket psl r t end ≡ false
unfolding in_bucket counted_entity entity_of find
in_bucket-end psl r t = refl

abbrev pub one_if : Bool → ℕ
one_if b = if b then 1 else 0

-- A write replaces the rule of its key in the count of every bucket.
pub count_bans-put_rule :
    (psl : PublicSuffixList) (r t k : Text) (c : Fields) (rules : RuleFold)
    → count_bans psl r t (put_rule k c rules) + one_if (in_bucket psl r t (rule_at k rules))
      ≡ count_bans psl r t rules + one_if (in_bucket psl r t c)
unfolding count_bans put_rule rule_at
count_bans-put_rule psl r t k c [] = omega (arith, ap one_if (in_bucket-end psl r t))
count_bans-put_rule psl r t k c ((j, d) ∷ rest) = elim (Bool-cases (same j k)) [
  | inl e ↦ rw e (omega arith)
  | inr e ↦ rw e (omega (arith, count_bans-put_rule psl r t k c rest))
]
