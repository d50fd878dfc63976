-- ===== src/Prelude/Text.antt =====
-- Python's `str` as a list of code points, with the methods that the source calls.
pub mod Same
use Prim.Native.Nat.{ℕ, zero, suc, ◌+◌, ◌-◌, ◌*◌}
use Prim.Native.Char.{code}
use Prim.Native.String.{String}
use mathlib.Core.Path.{◌≡◌, refl}
use mathlib.Core.Logic.{◌↔◌}
use mathlib.Core.Bool.{Bool, true, false, not, ◌&&◌, ◌||◌}
use mathlib.Core.Option.{Option, none, some}
use mathlib.Core.List.{List, [], ◌∷◌, ◌++◌, map}
use native.Mathlib.Omega.{arith}
use matrix_federation_scanne.Prelude.Tests.{ltb, leb, ◌==◌, if◌then◌else◌}
use matrix_federation_scanne.Prelude.Lists.{length, all, any, is_empty}

abbrev pub Text : Type 0
Text = List ℕ

abbrev pub codes : String → Text
codes String.[] = []
codes (String.◌∷◌ c s) = code c ∷ codes s

-- `a == b` on strings.
unfoldable pub same : Text → Text → Bool
same [] [] = true
same (a ∷ s) (b ∷ t) = (a == b) && same s t
same _ _ = false

-- `s in xs` on a collection of strings.
unfoldable pub contains : List Text → Text → Bool
unfolding same
contains xs s = any (same s) xs

-- `c in s` for one character.
unfoldable pub has : ℕ → Text → Bool
has c s = any (λ x. x == c) s

-- `s.count(c)` for one character.
unfoldable pub count : ℕ → Text → ℕ
count c [] = 0
count c (x ∷ s) = (if x == c then 1 else 0) + count c s

-- `str.isspace` of one character: what `strip()` and `split()` remove.
unfoldable pub is_space : ℕ → Bool
is_space c =
    (leb 9 c && leb c 13)
    || (leb 28 c && leb c 32)
    || (c == 0x85)
    || (c == 0xa0)
    || (c == 0x1680)
    || (leb 0x2000 c && leb c 0x200a)
    || (c == 0x2028)
    || (c == 0x2029)
    || (c == 0x202f)
    || (c == 0x205f)
    || (c == 0x3000)

unfoldable pub lstrip_by : (ℕ → Bool) → Text → Text
lstrip_by p [] = []
lstrip_by p (c ∷ s) = if p c then lstrip_by p s else c ∷ s

unfoldable pub rstrip_by : (ℕ → Bool) → Text → Text
rstrip_by p [] = []
rstrip_by p (c ∷ s) = let rest = rstrip_by p s in if is_empty rest && p c then [] else c ∷ rest

-- `s.strip()`.
unfoldable pub strip : Text → Text
unfolding lstrip_by rstrip_by is_space
strip s = rstrip_by is_space (lstrip_by is_space s)

-- `s.startswith(p)`.
unfoldable pub starts_with : Text → Text → Bool
starts_with s [] = true
starts_with [] (p ∷ ps) = false
starts_with (c ∷ s) (p ∷ ps) = (c == p) && starts_with s ps

-- What stands before the first `c`, and what stands after it; `none` where there is no `c`.
unfoldable pub cut : ℕ → Text → Option (Text × Text)
cut c [] = none
cut c (x ∷ s) =
    let rest : Option (Text × Text) = elim (cut c s) [
      | none ↦ none
      | some (a, b) ↦ some (x ∷ a, b)
    ] in
    if x == c then some ([], s) else rest

-- `s.rsplit(c, 1)[0]` where `c` occurs: what stands before the last `c`.
unfoldable pub before_last : ℕ → Text → Option Text
before_last c [] = none
before_last c (x ∷ s) = elim (before_last c s) [
  | some a ↦ some (x ∷ a)
  | none ↦ if x == c then some [] else none
]

abbrev pub cons_head : ℕ → List Text → List Text
cons_head x [] = (x ∷ []) ∷ []
cons_head x (w ∷ ws) = (x ∷ w) ∷ ws

-- `s.split(c)` on one character: never empty.
unfoldable pub split_on : ℕ → Text → List Text
split_on c [] = [] ∷ []
split_on c (x ∷ s) = let rest = split_on c s in if x == c then [] ∷ rest else cons_head x rest

-- `c.join(words)`.
unfoldable pub join : ℕ → List Text → Text
join c [] = []
join c (w ∷ []) = w
join c (w ∷ v ∷ ws) = w ++ c ∷ join c (v ∷ ws)

-- `[0-9]`.
unfoldable pub is_digit : ℕ → Bool
is_digit c = leb b'0' c && leb c b'9'

-- `int(s)` of a run of ASCII digits.
unfoldable pub decimal_from : ℕ → Text → ℕ
decimal_from n [] = n
decimal_from n (c ∷ s) = decimal_from (n * 10 + (c - b'0')) s

unfoldable pub decimal : Text → ℕ
unfolding decimal_from
decimal s = decimal_from 0 s

-- `str.lower()` on ASCII.
unfoldable pub lower_ascii : ℕ → ℕ
lower_ascii c = if leb b'A' c && leb c b'Z' then c + 32 else c

unfoldable pub lower : Text → Text
unfolding lower_ascii
lower s = map lower_ascii s
