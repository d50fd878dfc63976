-- ===== src/Resolver/Name.antt =====
-- `parse_name` of resolver.py, with Python's `int` of a text.
use matrix_federation_scanne.Prelude.{
  ℕ, zero, suc, ◌+◌, ◌*◌, ◌≡◌, refl, Bool, true, false, ◌&&◌, Option, none, some, [], ◌∷◌, ◌++◌,
  ◌==◌, if◌then◌else◌, is_some,
}
use matrix_federation_scanne.Prelude.Text.{Text, codes, strip, cut, count}
use matrix_federation_scanne.Json.{ℤ, pos, negsuc}
use matrix_federation_scanne.Policy.BotVersion.{digit_value}
use matrix_federation_scanne.Util.{colon, open_bracket, close_bracket}
use matrix_federation_scanne.Util.Ip.{parse_ipv6, ip_address}

-- Digits with single underscores between them; the flag says that a digit came just before. `left`
-- is how many digits more are accepted: `int` refuses a text of more than 4300.
int_digits : ℕ → ℕ → Bool → Text → Option ℕ
unfolding digit_value
int_digits left n after [] = if after then some n else none
int_digits left n after (c ∷ s) =
    let under = int_digits left n false s in
    elim (digit_value c) [
      | none ↦ if (c == b'_') && after then under else none
      | some d ↦ elim left [ zero ↦ none | suc m ↦ int_digits m (n * 10 + d) true s ]
    ]

abbrev negate : ℕ → ℤ
negate zero = pos 0
negate (suc n) = negsuc n

signed : Text → Option ℤ
unfolding int_digits
signed [] = none
signed (c ∷ s) =
    let digits = int_digits 4300 0 false s in
    if c == b'-'
    then (elim digits [ none ↦ none | some n ↦ some (negate n) ])
    else if c == b'+'
    then (elim digits [ none ↦ none | some n ↦ some (pos n) ])
    else (elim (int_digits 4300 0 false (c ∷ s)) [ none ↦ none | some n ↦ some (pos n) ])

-- `int(text)`, with `none` for the ValueError.
unfoldable pub python_int : Text → Option ℤ
unfolding signed strip
python_int text = signed (strip text)

pub record ParsedName : Type 0 where
  pub host : Text
  pub port : Option ℤ
  pub is_ip_literal : Bool
  pub host_with_brackets : Text

-- `int(rest[1:]) if rest.startswith(":") else None`; `none` where the `int` raises.
abbrev rest_port : Text → Option (Option ℤ)
rest_port [] = some none
rest_port (c ∷ s) =
    if c == colon then (elim (python_int s) [ none ↦ none | some n ↦ some (some n) ]) else some none

-- `_is_ip_literal` of resolver.py.
unfoldable pub is_ip_address : Text → Bool
unfolding ip_address
is_ip_address host = is_some (ip_address host)

-- The branch of a name that begins with a bracket, on what follows it.
unfoldable pub parse_bracketed : Text → Option ParsedName
unfolding cut python_int parse_ipv6
parse_bracketed s = elim (cut close_bracket s) [
  | none ↦ none
  | some (host, rest) ↦ elim (rest_port rest) [
    | none ↦ none
    | some port ↦
        if is_some (parse_ipv6 host)
        then some (record {
          host = host;
          port = port;
          is_ip_literal = true;
          host_with_brackets = open_bracket ∷ host ++ close_bracket ∷ [];
        })
        else none
  ]
]

abbrev named : Text → Option ℤ → ParsedName
named host port = record {
  host = host;
  port = port;
  is_ip_literal = is_ip_address host;
  host_with_brackets = host;
}

unfoldable pub parse_plain : Text → Option ParsedName
unfolding cut count python_int is_ip_address
parse_plain name =
    if count colon name == 1
    then (elim (cut colon name) [
      | none ↦ none
      | some (host, port) ↦ elim (python_int port) [
        | none ↦ none
        | some n ↦ some (named host (some n))
      ]
    ])
    else some (named name none)

abbrev parse_stripped : Text → Option ParsedName
parse_stripped [] = parse_plain []
parse_stripped (c ∷ s) = if c == open_bracket then parse_bracketed s else parse_plain (c ∷ s)

-- `parse_name`, with `none` for the ValueError.
unfoldable pub parse_name : Text → Option ParsedName
unfolding strip parse_plain parse_bracketed
parse_name name = parse_stripped (strip name)

abbrev with_port : Option ParsedName
with_port = parse_name (codes " example.org:8_448 ")

parses_port : with_port ≡ some (named (codes "example.org") (some (pos 8448)))
unfolding parse_name parse_plain is_ip_address
parses_port = refl

parses_bracketed :
    parse_name (codes "[::1]:-5")
    ≡ some (record {
      host = codes "::1";
      port = some (negsuc 4);
      is_ip_literal = true;
      host_with_brackets = codes "[::1]";
    })
unfolding parse_name parse_bracketed
parses_bracketed = refl

refuses_port : parse_name (codes "example.org:80x") ≡ none
unfolding parse_name parse_plain
refuses_port = refl
