-- ===== src/Psl/Version.antt =====
-- `parse_psl_version` of psl.py. `datetime.strptime` is modelled for the one format that the file
-- uses, `%Y-%m-%d_%H-%M-%S_UTC`; a timestamp is the number that orders it.
use matrix_federation_scanne.Prelude.{
  ℕ, zero, suc, ◌+◌, ◌-◌, ◌*◌, ◌%◌, ◌≡◌, refl, Bool, false, not, ◌&&◌, ◌||◌, Option, none, some,
  List, [], ◌∷◌, [], ◌∷◌, map, ltb, leb, ◌==◌, if◌then◌else◌, ◌>>=◌,
}
use matrix_federation_scanne.Prelude.Text.{
  Text, codes, same, strip, lstrip_by, starts_with, cut, is_digit,
}
use matrix_federation_scanne.Json.{Json, str}
use matrix_federation_scanne.Policy.BotVersion.{digit_value}

pub record Stamp : Type 0 where
  pub year : ℕ
  pub month : ℕ
  pub day : ℕ
  pub hour : ℕ
  pub minute : ℕ
  pub second : ℕ

-- `datetime`'s table of the month lengths, and its correction for a leap year.
abbrev month_lengths : List ℕ
month_lengths = 31 ∷ 28 ∷ 31 ∷ 30 ∷ 31 ∷ 30 ∷ 31 ∷ 31 ∷ 30 ∷ 31 ∷ 30 ∷ 31 ∷ []

abbrev leap_day : ℕ → ℕ → ℕ
leap_day year month =
    let leap = (year % 400 == 0) || ((year % 4 == 0) && not (year % 100 == 0)) in
    if leap && (month == 2) then 1 else 0

abbrev entry_at : ℕ → List ℕ → ℕ
entry_at n [] = 0
entry_at zero (days ∷ rest) = days
entry_at (suc n) (days ∷ rest) = entry_at n rest

abbrev month_days : ℕ → ℕ → ℕ
month_days year month = entry_at (month - 1) month_lengths + leap_day year month

-- The ranges that `datetime(...)` accepts.
unfoldable pub is_datetime : Stamp → Bool
is_datetime t =
    leb 1 t.year
    && leb 1 t.month
    && leb t.month 12
    && leb 1 t.day
    && leb t.day (month_days t.year t.month)
    && leb t.hour 23
    && leb t.minute 59
    && leb t.second 59

-- `\d` under `%Y`: four decimal digits.
four_digits : Text → Option ℕ
unfolding digit_value
four_digits (a ∷ b ∷ c ∷ d ∷ []) = elim (digit_value a) [
  | none ↦ none
  | some x ↦ elim (digit_value b) [
    | none ↦ none
    | some y ↦ elim (digit_value c) [
      | none ↦ none
      | some z ↦ elim (digit_value d) [
        | none ↦ none
        | some w ↦ some (x * 1000 + y * 100 + z * 10 + w)
      ]
    ]
  ]
]
four_digits _ = none

-- `[0-9]`, with its value.
abbrev ascii_value : ℕ → Option ℕ
ascii_value c = if is_digit c then some (c - 48) else none

-- A field of two digits, up to a bound: the tens are ASCII, and the units are any decimal digit
-- (`\d`) behind the tens that `wide` accepts, and ASCII behind the others.
two_digits : (ℕ → Bool) → ℕ → ℕ → ℕ → Option ℕ
unfolding digit_value is_digit
two_digits wide top a b = elim (if wide a then digit_value b else ascii_value b) [
  | none ↦ none
  | some u ↦ let n = (a - 48) * 10 + u in if is_digit a && leb n top then some n else none
]

-- `%H`, `%M` and `%S`.
clock_field : (ℕ → Bool) → ℕ → Text → Option ℕ
unfolding two_digits
clock_field wide top (a ∷ []) = digit_value a
clock_field wide top (a ∷ b ∷ []) = two_digits wide top a b
clock_field wide top _ = none

abbrev positive : Option ℕ → Option ℕ
positive none = none
positive (some n) = if leb 1 n then some n else none

-- `%m`, and `%d` without its blank form.
calendar_field : (ℕ → Bool) → ℕ → Text → Option ℕ
unfolding two_digits is_digit
calendar_field wide top (a ∷ []) = positive (ascii_value a)
calendar_field wide top (a ∷ b ∷ []) = positive (two_digits wide top a b)
calendar_field wide top _ = none

-- `%d` also accepts a blank before one digit.
day_field : Text → Option ℕ
unfolding calendar_field
day_field (a ∷ b ∷ []) =
    if a == b' '
    then positive (ascii_value b)
    else calendar_field (λ t. (t == b'1') || (t == b'2')) 31 (a ∷ b ∷ [])
day_field s = calendar_field (λ t. false) 31 s

-- The literal `UTC`, in either case.
abbrev fold_case : ℕ → ℕ
fold_case c = if leb b'a' c && leb c b'z' then c - 32 else c

is_utc : Text → Bool
unfolding same
is_utc s = same (map fold_case s) (codes "UTC")

-- `datetime.strptime(s, _VERSION_FORMAT)`.
unfoldable pub strptime : Text → Option Stamp
unfolding cut four_digits calendar_field day_field clock_field is_utc is_datetime
strptime s = do
  (y, s₁) ← cut b'-' s
  (m, s₂) ← cut b'-' s₁
  (d, s₃) ← cut b'_' s₂
  (hh, s₄) ← cut b'-' s₃
  (mm, s₅) ← cut b'-' s₄
  (ss, zone) ← cut b'_' s₅
  year ← four_digits y
  month ← calendar_field (λ t. false) 12 m
  day ← day_field d
  hour ← clock_field (λ t. ltb t b'2') 23 hh
  minute ← clock_field (λ t. ltb t b'6') 59 mm
  second ← clock_field (λ t. ltb t b'6') 61 ss
  let t : Stamp = record {
    year = year;
    month = month;
    day = day;
    hour = hour;
    minute = minute;
    second = second;
  }
  if is_utc zone && is_datetime t then some t else none

-- The number by which timestamps are compared.
unfoldable pub ordinal : Stamp → ℕ
ordinal t =
    ((((t.year * 12 + (t.month - 1)) * 31 + (t.day - 1)) * 24 + t.hour) * 60 + t.minute) * 60
    + t.second

-- `str.upper()`, as far as it can give a letter of `VERSION:`.
abbrev upper_char : ℕ → ℕ
upper_char c =
    if leb b'a' c && leb c b'z'
    then c - 32
    else if c == 0x131
    then b'I'
    else if c == 0x17f
    then b'S'
    else c

abbrev drop_slashes : Text → Text
drop_slashes s = if starts_with s (codes "//") then strip (lstrip_by (λ c. c == b'/') s) else s

abbrev after_colon : Text → Text
after_colon s = elim (cut b':' s) [ none ↦ s | some (_, rest) ↦ strip rest ]

abbrev drop_label : Text → Text
drop_label s = if starts_with (map upper_char s) (codes "VERSION:") then after_colon s else s

-- `parse_psl_version` of a text.
unfoldable pub parse_psl_text : Text → Option ℕ
unfolding strip lstrip_by starts_with cut strptime ordinal
parse_psl_text raw = do t ← strptime (drop_label (drop_slashes (strip raw))); some (ordinal t)

-- `parse_psl_version` of a decoded value. `str(raw)` of anything else than a string has no form
-- that the format accepts.
unfoldable pub parse_psl_version : Json → Option ℕ
unfolding parse_psl_text
parse_psl_version (str raw) = parse_psl_text raw
parse_psl_version _ = none

pasted :
    parse_psl_text (codes "// VERSION: 2026-07-25_14-20-03_UTC")
    ≡ parse_psl_text (codes " 2026-07-25_14-20-3_utc ")
unfolding parse_psl_text
pasted = refl

not_a_date : parse_psl_text (codes "2026-02-29_00-00-00_UTC") ≡ none
unfolding parse_psl_text
not_a_date = refl
