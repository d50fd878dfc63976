-- ===== src/Psl/Tests.antt =====
-- The holder of the public suffix list, offered an older list.
use matrix_federation_scanne.Prelude.{ℕ, ◌≡◌, refl, false, none, some, []}
use matrix_federation_scanne.Prelude.Text.{codes}
use matrix_federation_scanne.Psl.Rules.{PublicSuffixList}
use matrix_federation_scanne.Psl.Holder.{PslHolder, adopt}

abbrev dated : ℕ → PublicSuffixList
dated n = record {
  source = codes "fetched";
  raw_text = [];
  version_raw = none;
  version = some n;
  commit = none;
  normal = [];
  wildcard = [];
  exception = [];
  tlds = [];
}

abbrev in_use : PslHolder
in_use = record { current = some (dated 20) }

refuses_older : (adopt (dated 10) in_use).1 ≡ false
unfolding adopt
refuses_older = refl
