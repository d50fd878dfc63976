-- ===== src/Psl/Holder/Monotone.antt =====
-- `PSLHolder.adopt`, once and over a sequence of lists.
use matrix_federation_scanne.Prelude.{
  ℕ, ◌≤◌, ◌<◌, ◌≡◌, refl, ◌⊎◌, inl, inr, ◌↔◌, true, false, Option, none, some, List, [], ◌∷◌, ◌++◌,
  arith, Bool-cases, Option-cases, if◌then◌else◌,
}
use matrix_federation_scanne.Psl.Rules.{PublicSuffixList}
use matrix_federation_scanne.Psl.Holder.{PslHolder, current_version, not_newer, adopt}

-- The holder has a list, of this version or a later one.
abbrev pub Reached : ℕ → PslHolder → Type 0
Reached n h = (v : ℕ) × (current_version h ≡ some v) × (n ≤ v)

-- The lists offered one after the other.
abbrev adopt_all : List PublicSuffixList → PslHolder → PslHolder
adopt_all [] h = h
adopt_all (c ∷ cs) h = adopt_all cs (adopt c h).0

-- The version is later than that of the list in use, or there is none in use.
abbrev pub Newer : ℕ → Option ℕ → Type 0
Newer new none = Unit
Newer new (some cur) = cur < new

not_newer_iff : (new : ℕ) (cur : Option ℕ) → (not_newer new cur ≡ false) ↔ Newer new cur
not_newer_iff new none = (λ h. tt, λ h. refl)
not_newer_iff new (some cur) = ground arith

module _ (c : PublicSuffixList) (h : PslHolder) where
  unversioned : c.version ≡ none → adopt c h ≡ (h, false)
  unfolding adopt
  unversioned e = rw (e, adopt) refl

  kept :
      (new : ℕ)
      → c.version ≡ some new
      → not_newer new (current_version h) ≡ true
      → adopt c h ≡ (h, false)
  unfolding adopt
  kept new e old = ground (arith, e, old)

  swapped :
      (new : ℕ)
      → c.version ≡ some new
      → not_newer new (current_version h) ≡ false
      → adopt c h ≡ (record { current = some c }, true)
  unfolding adopt
  swapped new e newer = ground (arith, e, newer)

-- `adopt` returns true exactly where the list offered has a version that is later than the
-- version in use, if there is one; then that list is in use, and otherwise the holder is as it was.
pub adopt_iff :
    (c : PublicSuffixList) (h : PslHolder)
    → (((adopt c h).1 ≡ true)
        ↔ ((new : ℕ) × (c.version ≡ some new) × Newer new (current_version h)))
      × ((adopt c h).0 ≡ (if (adopt c h).1 then record { current = some c } else h))
adopt_iff c h = elim (Option-cases c.version) [
  | inl none_here ↦ rw (unversioned c h none_here) (
    (
      λ x. cc x,
      λ (x : (new : ℕ) × (c.version ≡ some new) × Newer new (current_version h)).
          cc (x.1, none_here),
    ),
    refl,
  )
  | inr (new, e) ↦ elim (Bool-cases (not_newer new (current_version h))) [
    | inl old ↦ rw (kept c h new e old) (
      (
        λ x. cc x,
        λ (x : (new : ℕ) × (c.version ≡ some new) × Newer new (current_version h)).
            cc ((not_newer_iff x.0 (current_version h)).1 x.2, old, e, x.1),
      ),
      refl,
    )
    | inr newer ↦
        rw (swapped c h new e newer)
          ((λ x. (new, e, (not_newer_iff new (current_version h)).0 newer), λ x. refl), refl)
  ]
]

-- A version reached is kept.
pub adopt-Reached-kept :
    (n : ℕ) (c : PublicSuffixList) (h : PslHolder) → Reached n h → Reached n (adopt c h).0
adopt-Reached-kept n c h (v, e, le) = elim (Option-cases c.version) [
  | inl none_here ↦ rw (unversioned c h none_here) (v, e, le)
  | inr (new, is_new) ↦ elim (Bool-cases (not_newer new (current_version h))) [
    | inl old ↦ rw (kept c h new is_new old) (v, e, le)
    | inr newer ↦
        rw (swapped c h new is_new newer) (new, is_new, omega (arith, le, beyond new newer))
  ]
]
  where
    beyond : (new : ℕ) → not_newer new (current_version h) ≡ false → v < new
    beyond new newer = let later = (not_newer_iff new (current_version h)).0 newer in rw e at later

-- The version of the list offered is reached.
adopt-Reached :
    (n : ℕ) (c : PublicSuffixList) (h : PslHolder) → c.version ≡ some n → Reached n (adopt c h).0
adopt-Reached n c h is_n = elim (Bool-cases (not_newer n (current_version h))) [
  | inr newer ↦ rw (swapped c h n is_n newer) (n, is_n, omega arith)
  | inl old ↦ rw (kept c h n is_n old) (old_version (current_version h) refl old)
]
  where
    old_version : (cur : Option ℕ) → current_version h ≡ cur → not_newer n cur ≡ true → Reached n h
    old_version none e old = cc old
    old_version (some v) e old = (v, e, ground arith)

adopt_all-Reached-kept :
    (n : ℕ) (cs : List PublicSuffixList) (h : PslHolder) → Reached n h → Reached n (adopt_all cs h)
adopt_all-Reached-kept n [] h r = r
adopt_all-Reached-kept n (c ∷ cs) h r =
    adopt_all-Reached-kept n cs (adopt c h).0 (adopt-Reached-kept n c h r)

-- Whatever lists are offered one after the other, the holder ends with a version that is not
-- before the one that it began with, nor before the version of any list offered.
adopt_all-Reached :
    (n : ℕ) (before after : List PublicSuffixList) (c : PublicSuffixList) (h : PslHolder)
    → (current_version h ≡ some n) ⊎ (c.version ≡ some n)
    → Reached n (adopt_all (before ++ c ∷ after) h)
adopt_all-Reached n [] after c h (inl e) =
    adopt_all-Reached-kept n (c ∷ after) h (n, e, omega arith)
adopt_all-Reached n [] after c h (inr e) =
    adopt_all-Reached-kept n after (adopt c h).0 (adopt-Reached n c h e)
adopt_all-Reached n (b ∷ before) after c h (inl e) =
    adopt_all-Reached-kept n (b ∷ before ++ c ∷ after) h (n, e, omega arith)
adopt_all-Reached n (b ∷ before) after c h (inr e) =
    adopt_all-Reached n before after c (adopt b h).0 (inr e)
