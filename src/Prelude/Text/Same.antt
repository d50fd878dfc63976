-- ===== src/Prelude/Text/Same.antt =====
-- Equality of texts, and membership.
use matrix_federation_scanne.Prelude.Text.{Text, contains, same}
use mathlib.Core.Path.{◌≡◌, refl}
use mathlib.Core.Logic.{◌↔◌}
use mathlib.Core.Bool.{true, false}
use mathlib.Core.List.{[], ◌∷◌}
use native.Mathlib.Omega.{arith}

pub same_refl : (s : Text) → same s s ≡ true
unfolding same
same_refl [] = refl
same_refl (c ∷ s) = ground (arith, same_refl s)

pub same→eq : (s t : Text) → same s t ≡ true → s ≡ t
unfolding same
same→eq [] [] h = refl
same→eq (a ∷ s) (b ∷ t) h = ground (arith, same→eq s t)
same→eq [] (b ∷ t) h = cc
same→eq (a ∷ s) [] h = cc

pub same_iff : (s t : Text) → (same s t ≡ true) ↔ (s ≡ t)
same_iff s t = (same→eq s t, λ e. ground (arith, same_refl s))

pub same_comm : (a b : Text) → same a b ≡ same b a
unfolding same
same_comm [] [] = refl
same_comm (a ∷ s) (b ∷ t) = ground (arith, same_comm s t)
same_comm [] (b ∷ t) = refl
same_comm (a ∷ s) [] = refl

pub contains_nil : (t : Text) → contains [] t ≡ false
unfolding contains
contains_nil t = refl
