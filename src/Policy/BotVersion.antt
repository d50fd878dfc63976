-- ===== src/Policy/BotVersion.antt =====
-- `parse_bot_version` of policy.py: strict `major.minor.patch`, ordered as tuples of numbers.
use matrix_federation_scanne.Prelude.{
  ℕ, ◌+◌, ◌-◌, ◌*◌, ◌≡◌, refl, Bool, ◌&&◌, ◌||◌, Option, none, some, List, [], ◌∷◌, ltb, leb, ◌==◌,
  if◌then◌else◌, length,
}
use matrix_federation_scanne.Prelude.Text.{Text, codes, strip, split_on}
use matrix_federation_scanne.Json.{Json, str}

pub record BotVersion : Type 0 where
  pub major : ℕ
  pub minor : ℕ
  pub patch : ℕ

-- The zeros of the decimal digits of Unicode: `\d` matches a zero and the nine after it, and `int`
-- reads them by their distance.
abbrev digit_zeros : List ℕ
digit_zeros =
    0x30 ∷ 0x660 ∷ 0x6f0 ∷ 0x7c0 ∷ 0x966 ∷ 0x9e6 ∷ 0xa66 ∷ 0xae6 ∷ 0xb66 ∷ 0xbe6 ∷ 0xc66 ∷ 0xce6
    ∷ 0xd66 ∷ 0xde6 ∷ 0xe50 ∷ 0xed0 ∷ 0xf20 ∷ 0x1040 ∷ 0x1090 ∷ 0x17e0 ∷ 0x1810 ∷ 0x1946 ∷ 0x19d0
    ∷ 0x1a80 ∷ 0x1a90 ∷ 0x1b50 ∷ 0x1bb0 ∷ 0x1c40 ∷ 0x1c50 ∷ 0xa620 ∷ 0xa8d0 ∷ 0xa900 ∷ 0xa9d0
    ∷ 0xa9f0 ∷ 0xaa50 ∷ 0xabf0 ∷ 0xff10 ∷ 0x104a0 ∷ 0x10d30 ∷ 0x11066 ∷ 0x110f0 ∷ 0x11136 ∷ 0x111d0
    ∷ 0x112f0 ∷ 0x11450 ∷ 0x114d0 ∷ 0x11650 ∷ 0x116c0 ∷ 0x11730 ∷ 0x118e0 ∷ 0x11950 ∷ 0x11c50
    ∷ 0x11d50 ∷ 0x11da0 ∷ 0x11f50 ∷ 0x16a60 ∷ 0x16ac0 ∷ 0x16b50 ∷ 0x1d7ce ∷ 0x1d7d8 ∷ 0x1d7e2
    ∷ 0x1d7ec ∷ 0x1d7f6 ∷ 0x1e140 ∷ 0x1e2f0 ∷ 0x1e4f0 ∷ 0x1e950 ∷ 0x1fbf0 ∷ []

digit_in : List ℕ → ℕ → Option ℕ
digit_in [] c = none
digit_in (z ∷ zs) c = if leb z c && leb c (z + 9) then some (c - z) else digit_in zs c

-- `\d`, with the value that `int` gives it.
unfoldable pub digit_value : ℕ → Option ℕ
unfolding digit_in
digit_value c = digit_in digit_zeros c

unfoldable pub number_from : ℕ → Text → Option ℕ
unfolding digit_value
number_from n [] = some n
number_from n (c ∷ s) =
    let rest = λ (d : ℕ). number_from (n * 10 + d) s in
    elim (digit_value c) [ none ↦ none | some d ↦ rest d ]

-- `(\d+)` and `int` of the group.
unfoldable pub segment : Text → Option ℕ
unfolding number_from
segment [] = none
segment (c ∷ s) = number_from 0 (c ∷ s)

-- What `parse_bot_version` does: None, a version, or the ValueError of `int`, which is not caught.
pub data Parsed : Type 0 where
  unparsed : Parsed
  parsed : BotVersion → Parsed
  too_long : Parsed

-- `int` refuses a text of more than 4300 digits.
unfoldable pub over_limit : Text → Bool
over_limit s = ltb 4300 (length s)

abbrev pub triple : Bool → Option ℕ → Option ℕ → Option ℕ → Parsed
triple long (some a) (some b) (some c) =
    if long then too_long else parsed (record { major = a; minor = b; patch = c })
triple long _ _ _ = unparsed

-- The three groups of `_BOT_VERSION_RE`.
abbrev pub version_groups : List Text → Parsed
version_groups (a ∷ b ∷ c ∷ []) =
    triple (over_limit a || over_limit b || over_limit c) (segment a) (segment b) (segment c)
version_groups _ = unparsed

unfoldable pub parse_version_text : Text → Parsed
unfolding strip split_on segment over_limit
parse_version_text raw = version_groups (split_on b'.' (strip raw))

-- The `isinstance` test comes first: any other JSON value is refused.
unfoldable pub parse_bot_version : Json → Parsed
unfolding parse_version_text
parse_bot_version (str raw) = parse_version_text raw
parse_bot_version _ = unparsed

-- `a < b` of Python's tuples.
unfoldable pub version_lt : BotVersion → BotVersion → Bool
version_lt a b =
    ltb a.major b.major
    || (a.major == b.major && (ltb a.minor b.minor || (a.minor == b.minor && ltb a.patch b.patch)))

later_patch :
    parse_version_text (codes " 0.1.12\n") ≡ parsed (record { major = 0; minor = 1; patch = 12 })
unfolding parse_version_text
later_patch = refl

refused :
    (parse_version_text (codes "v1.2.3") ≡ unparsed) × (parse_version_text (codes "1.2") ≡ unparsed)
unfolding parse_version_text
refused = (refl, refl)
