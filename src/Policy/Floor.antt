-- ===== src/Policy/Floor.antt =====
-- The suffix-list floor: the halt that it sets, and the adoption of a list.
use matrix_federation_scanne.Prelude.{
  ℕ, ◌≤◌, ◌≡◌, refl, sym, ◌∙◌, ◌≢◌, ◌↔◌, inl, inr, true, false, Option, none, some, arith,
  Bool-cases,
}
use matrix_federation_scanne.Prelude.Text.{Text}
use matrix_federation_scanne.Psl.Rules.{PublicSuffixList}
use matrix_federation_scanne.Psl.Holder.{PslHolder, adopt}
use matrix_federation_scanne.Policy.State.{
  Policy, PslHalt, clear, is_clear, active_psl, same_halt, set_psl_halt, psl_floor, version_halt,
  reevaluate_psl_floor,
}

-- The state that `_psl_refresh_once` leaves where it adopts a list: the new holder, and the halt
-- recomputed.
abbrev pub install : PslHolder → Policy → Policy
install h p = reevaluate_psl_floor (record p { psl_holder = some h })

same_clear : (r : PslHalt) → same_halt clear r ≡ true → r ≡ clear
unfolding same_halt
same_clear r h = ground arith

set_psl_halt-clear : (p : Policy) → (set_psl_halt clear p).psl_halt_reason ≡ clear
unfolding set_psl_halt
set_psl_halt-clear p = elim (Bool-cases (same_halt clear p.psl_halt_reason)) [
  | inl e ↦ rw e (same_clear p.psl_halt_reason e)
  | inr e ↦ rw e
]

-- Whether the reason that `_set_psl_halt` leaves is the empty one is decided by its argument.
is_clear-set_psl_halt :
    (r : PslHalt) (p : Policy) → is_clear (set_psl_halt r p).psl_halt_reason ≡ is_clear r
unfolding set_psl_halt same_halt
is_clear-set_psl_halt r p = ground arith

-- What the cap and the floor ask of the active list.
pub data Satisfies (cap : Option ℕ) (active : Option PublicSuffixList) (floor : Option ℕ)
    : Type 0 where
  no_cap : cap ≡ none → Satisfies cap active floor
  no_floor : (l : PublicSuffixList) → active ≡ some l → floor ≡ none → Satisfies cap active floor
  recent :
      (l : PublicSuffixList) (v f : ℕ)
      → active ≡ some l
      → l.version ≡ some v
      → floor ≡ some f
      → f ≤ v
      → Satisfies cap active floor

version_halt→Satisfies :
    (c : ℕ) (l : PublicSuffixList) (raw : Option Text) (floor version : Option ℕ)
    → l.version ≡ version
    → is_clear (version_halt l raw floor version) ≡ true
    → Satisfies (some c) (some l) floor
version_halt→Satisfies c l raw none version e h = no_floor l refl refl
version_halt→Satisfies c l raw (some f) none e h = cc
version_halt→Satisfies c l raw (some f) (some v) e h = recent l v f refl e refl (ground arith)

psl_floor→Satisfies :
    (cap : Option ℕ) (active : Option PublicSuffixList) (floor : Option ℕ) (raw : Option Text)
    → is_clear (psl_floor cap active floor raw) ≡ true
    → Satisfies cap active floor
unfolding psl_floor
psl_floor→Satisfies none active floor raw h = no_cap refl
psl_floor→Satisfies (some c) none floor raw h = cc
psl_floor→Satisfies (some c) (some l) floor raw h =
    version_halt→Satisfies c l raw floor l.version refl h

Satisfies→psl_floor :
    (cap : Option ℕ) (active : Option PublicSuffixList) (floor : Option ℕ) (raw : Option Text)
    → Satisfies cap active floor
    → is_clear (psl_floor cap active floor raw) ≡ true
unfolding psl_floor
Satisfies→psl_floor cap active floor raw (no_cap e) = rw e
Satisfies→psl_floor none active floor raw _ = refl
Satisfies→psl_floor (some c) active floor raw (no_floor l a e) = rw (a, e)
Satisfies→psl_floor (some c) active floor raw (recent l v f a lv e le) = ground arith

-- After `reevaluate_psl_floor` the suffix-list halt is off exactly when no cap is configured, or
-- there is an active list and either no floor or a version at or above it.
pub reevaluate_iff :
    (p : Policy)
    → (is_clear (reevaluate_psl_floor p).psl_halt_reason ≡ true)
      ↔ Satisfies p.max_bans_per_etld1 (active_psl p) p.min_psl_version
unfolding reevaluate_psl_floor
reevaluate_iff p =
    let reason =
      psl_floor p.max_bans_per_etld1 (active_psl p) p.min_psl_version p.min_psl_version_raw in
    (
      λ h.
          psl_floor→Satisfies p.max_bans_per_etld1 (active_psl p) p.min_psl_version
            p.min_psl_version_raw (sym (is_clear-set_psl_halt reason p) ∙ h),
      λ s.
          is_clear-set_psl_halt reason p
          ∙ Satisfies→psl_floor p.max_bans_per_etld1 (active_psl p) p.min_psl_version
              p.min_psl_version_raw s,
    )

pub adopted :
    (c : PublicSuffixList) (h : PslHolder) → (adopt c h).1 ≡ true → (adopt c h).0.current ≡ some c
unfolding adopt
adopted c h e = ground arith

-- A list that the holder adopts, with a version at or above the configured floor, ends the
-- suffix-list halt once the halt is evaluated again.
pub install-recovers :
    (c : PublicSuffixList) (h : PslHolder) (p : Policy) (v f : ℕ)
    → (adopt c h).1 ≡ true
    → c.version ≡ some v
    → p.min_psl_version ≡ some f
    → f ≤ v
    → is_clear (install (adopt c h).0 p).psl_halt_reason ≡ true
unfolding active_psl
install-recovers c h p v f e cv pf le =
    (reevaluate_iff (record p { psl_holder = some (adopt c h).0 })).1
      (recent c v f (adopted c h e) cv pf le)

-- The refresh task is woken exactly where the halt begins or its reason changes to another halt.
pub wakes_iff :
    (r : PslHalt) (p : Policy)
    → ((set_psl_halt r p).floor_wakes ≢ p.floor_wakes)
      ↔ ((same_halt r p.psl_halt_reason ≡ false) × (is_clear r ≡ false))
unfolding set_psl_halt
wakes_iff r p = ground arith
