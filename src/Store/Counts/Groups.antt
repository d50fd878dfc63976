-- ===== src/Store/Counts/Groups.antt =====
-- The groups of `bucket_counts` and `fed_version_counts` of db.py, against counts of the rows.
use matrix_federation_scanne.Prelude.{
  ℕ, ◌+◌, ◌≡◌, refl, sym, ◌∙◌, and_true, Option-cases, Bool, true, false, ◌&&◌, none, some, String,
  str_eq, eq_iff, List, [], ◌∷◌, arith, Bool-cases, inl, inr, if◌then◌else◌, length,
}
use matrix_federation_scanne.Prelude.Text.{Text, same}
use matrix_federation_scanne.Prelude.Text.Same.{same→eq, same_refl}
use matrix_federation_scanne.Store.{ScannedRow}
use matrix_federation_scanne.Store.Counts.{
  add_status, bucket_counts, VersionCount, is_reachable, or_empty, add_version, fed_version_counts,
}

-- What the groups say of a status.
abbrev pub group_of : String → List (String × ℕ) → ℕ
group_of status [] = 0
group_of status ((k, n) ∷ rest) = if str_eq k status then n else group_of status rest

abbrev pub sum_groups : List (String × ℕ) → ℕ
sum_groups [] = 0
sum_groups ((k, n) ∷ rest) = n + sum_groups rest

-- The rows with a status.
abbrev pub rows_of : String → List ScannedRow → ℕ
rows_of status [] = 0
rows_of status (r ∷ rest) = (if str_eq r.reg_status status then 1 else 0) + rows_of status rest

-- Two statuses that differ are not both a third one.
apart_status :
    (k added status : String)
    → str_eq k added ≡ false
    → (str_eq k status && str_eq added status) ≡ false
apart_status k added status other = elim (Bool-cases (str_eq k status)) [
  | inr no_match ↦ rw no_match refl
  | inl here ↦
      let e : k ≡ status = (eq_iff k status).0 here in
      elim (Bool-cases (str_eq added status)) [
        | inr no_match ↦ rw (here, no_match) refl
        | inl there ↦
            let f : added ≡ status = (eq_iff added status).0 there in
            cc (other, (eq_iff k added).1 (e ∙ sym f))
      ]
]

group_of-add :
    (status added : String) (groups : List (String × ℕ))
    → group_of status (add_status added groups)
      ≡ (if str_eq added status then 1 else 0) + group_of status groups
unfolding add_status
group_of-add status added [] = omega arith
group_of-add status added ((k, n) ∷ rest) = elim (Bool-cases (str_eq k added)) [
  | inl here ↦ let e : k ≡ added = (eq_iff k added).0 here in rw (here, e) (ground arith)
  | inr other ↦
      rw other
        (ground (arith, other, apart_status k added status other, group_of-add status added rest))
]

sum_groups-add :
    (added : String) (groups : List (String × ℕ))
    → sum_groups (add_status added groups) ≡ sum_groups groups + 1
unfolding add_status
sum_groups-add added [] = refl
sum_groups-add added ((k, n) ∷ rest) = ground (arith, sum_groups-add added rest)

buckets :
    (status : String) (rows : List ScannedRow)
    → group_of status (bucket_counts rows) ≡ rows_of status rows
unfolding bucket_counts
buckets status [] = refl
buckets status (r ∷ rest) =
    omega (arith, group_of-add status r.reg_status (bucket_counts rest), buckets status rest)

all_buckets : (rows : List ScannedRow) → sum_groups (bucket_counts rows) ≡ length rows
unfolding bucket_counts
all_buckets [] = refl
all_buckets (r ∷ rest) =
    omega (arith, sum_groups-add r.reg_status (bucket_counts rest), all_buckets rest)

-- The groups count, for each status, the rows that have it, and together all the rows.
pub bucket_counts_lem :
    (status : String) (rows : List ScannedRow)
    → (group_of status (bucket_counts rows) ≡ rows_of status rows)
      × (sum_groups (bucket_counts rows) ≡ length rows)
bucket_counts_lem status rows = (buckets status rows, all_buckets rows)

-- The two counts of a name and a version.
abbrev pub version_group : Text → Text → List VersionCount → ℕ × ℕ
version_group name version [] = (0, 0)
version_group name version (g ∷ rest) =
    if same g.name name && same g.version version
    then (g.n, g.n_reachable)
    else version_group name version rest

-- The rows with a name and a version, and those of them with a known status.
abbrev pub has_version : Text → Text → ScannedRow → Bool
has_version name version r = elim r.fed_name [
  | none ↦ false
  | some n ↦ same n name && same (or_empty r.fed_version) version
]

abbrev pub rows_with : Text → Text → List ScannedRow → ℕ × ℕ
rows_with name version [] = (0, 0)
rows_with name version (r ∷ rest) =
    let later = rows_with name version rest in
    if has_version name version r
    then (later.0 + 1, later.1 + (if is_reachable r then 1 else 0))
    else later

abbrev same_pair : Text → Text → Text → Text → Bool
same_pair name version name' version' = same name name' && same version version'

same_pair→eq :
    (name version name' version' : Text)
    → same_pair name version name' version' ≡ true
    → (name ≡ name') × (version ≡ version')
same_pair→eq name version name' version' h =
    let both = and_true (same name name') (same version version') h in
    (same→eq name name' both.0, same→eq version version' both.1)

-- Two pairs that differ are not both a third one.
apart_pair :
    (a b c d name version : Text)
    → same_pair a b c d ≡ false
    → same_pair a b name version ≡ true
    → same_pair c d name version ≡ false
apart_pair a b c d name version other match = elim (Bool-cases (same_pair c d name version)) [
  | inr no_match ↦ no_match
  | inl there ↦
      let e = same_pair→eq a b name version match in
      let f = same_pair→eq c d name version there in
      let self : same_pair c d c d ≡ true = rw (same_refl c, same_refl d) refl in
      cc (rw (e.0 ∙ sym f.0, e.1 ∙ sym f.1) at other, self)
]

version_group-add :
    (name version name' version' : Text) (reachable : ℕ) (groups : List VersionCount)
    → version_group name version (add_version name' version' reachable groups) ≡ (
        let old = version_group name version groups in
        if same_pair name' version' name version then (old.0 + 1, old.1 + reachable) else old)
unfolding add_version
version_group-add name version name' version' reachable [] = ground arith
version_group-add name version name' version' reachable (g ∷ rest) =
    elim (Bool-cases (same_pair g.name g.version name' version')) [
      | inl here ↦
          let e = same_pair→eq g.name g.version name' version' here in
          elim (Bool-cases (same_pair name' version' name version)) [
            | inl match ↦ rw (here, e.0, e.1, match) refl
            | inr no_match ↦ rw (here, e.0, e.1, no_match) refl
          ]
      | inr other ↦ elim (Bool-cases (same_pair g.name g.version name version)) [
        | inl match ↦
            let apart = apart_pair g.name g.version name' version' name version other match in
            rw (other, match, apart) refl
        | inr no_match ↦
            rw (other, no_match) (version_group-add name version name' version' reachable rest)
      ]
    ]

-- The groups count, for each name and version, the rows that have them, a missing version read as
-- the empty one, and apart those of them whose status is not `unknown`.
pub fed_version_counts_lem :
    (name version : Text) (rows : List ScannedRow)
    → version_group name version (fed_version_counts rows) ≡ rows_with name version rows
unfolding fed_version_counts
fed_version_counts_lem name version [] = refl
fed_version_counts_lem name version (r ∷ rest) =
    let later = fed_version_counts_lem name version rest in
    elim (Option-cases r.fed_name) [
      | inl unnamed ↦ rw unnamed later
      | inr (n, named) ↦ rw named (
          version_group-add name version n (or_empty r.fed_version)
            (if is_reachable r then 1 else 0) (fed_version_counts rest)
          ∙ rw later refl)
    ]
