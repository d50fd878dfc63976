-- ===== src/Util.antt =====
-- bot/csreg_scanner/util.py: server names, ports and IP literals.
-- `Ip` models the parsers of Python's `ipaddress` module that the file calls.
pub mod Ip
mod Tests
use matrix_federation_scanne.Prelude.{
  ℕ, ◌+◌, ◌-◌, ◌≡◌, Bool, true, false, not, ◌&&◌, ◌||◌, Option, none, some, List, [], ◌∷◌, ◌++◌,
  ltb, leb, ◌==◌, if◌then◌else◌, length, all, is_empty, is_some,
}
use matrix_federation_scanne.Prelude.Text.{
  Text, has, strip, starts_with, cut, before_last, split_on, is_digit, decimal,
}
use Ip.{parse_ipv4, parse_ipv6, is_hex}

abbrev pub colon : ℕ
colon = b':'

abbrev pub dot : ℕ
dot = b'.'

abbrev pub open_bracket : ℕ
open_bracket = b'['

abbrev pub close_bracket : ℕ
close_bracket = b']'

-- `s.startswith("[")`.
abbrev pub is_bracketed : Text → Bool
is_bracketed [] = false
is_bracketed (c ∷ s) = c == open_bracket

unfoldable pub strip_port : Text → Text
unfolding strip cut before_last
strip_port server_name =
    let s = strip server_name in
    if is_bracketed s
    then (elim (cut close_bracket s) [ none ↦ s | some (inner, _) ↦ inner ++ close_bracket ∷ [] ])
    else (elim (before_last colon s) [ none ↦ s | some host ↦ host ])

-- `[0-9]{1,5}` and `[0-9]{1,3}`, whole text.
abbrev pub digits_upto : ℕ → Text → Bool
digits_upto n s = all is_digit s && leb 1 (length s) && leb (length s) n

-- The optional `(?::[0-9]{1,5})?$` of the two literal patterns: what stands before it.
abbrev pub drop_port : Text → Option Text
drop_port s = elim (cut colon s) [
  | none ↦ some s
  | some (host, port) ↦ if digits_upto 5 port then some host else none
]

-- `_IP_LITERAL_V4`: its four groups.
unfoldable pub literal_v4_groups : Text → Option (List Text)
unfolding cut split_on is_digit
literal_v4_groups s = elim (drop_port s) [
  | none ↦ none
  | some host ↦
      let groups = split_on dot host in
      if length groups == 4 && all (digits_upto 3) groups then some groups else none
]

-- `[0-9A-Fa-f:.]`.
unfoldable pub is_ipv6_char : ℕ → Bool
unfolding is_hex
is_ipv6_char c = is_hex c || (c == colon) || (c == dot)

abbrev pub ipv6_text : Text → Bool
ipv6_text s = all is_ipv6_char s && leb 2 (length s) && leb (length s) 45

-- The optional port behind a closing bracket, tested by `valid`.
abbrev pub port_suffix : (Text → Bool) → Text → Bool
port_suffix valid [] = true
port_suffix valid (c ∷ port) = c == colon && valid port

-- `_IP_LITERAL_V6`: the bracketed part, where the text is that and an optional port.
unfoldable pub literal_v6_inner : Text → Option Text
unfolding cut is_digit is_ipv6_char
literal_v6_inner [] = none
literal_v6_inner (c ∷ s) =
    if c == open_bracket
    then (elim (cut close_bracket s) [
      | none ↦ none
      | some (inner, rest) ↦
          if ipv6_text inner && port_suffix (digits_upto 5) rest then some inner else none
    ])
    else none

unfoldable pub is_ip_literal : Text → Bool
unfolding strip literal_v4_groups literal_v6_inner parse_ipv6 decimal
is_ip_literal name =
    let host = strip name in
    elim (literal_v4_groups host) [
      | some groups ↦ all (λ o. leb (decimal o) 255) groups
      | none ↦ elim (literal_v6_inner host) [
        | some inner ↦ is_some (parse_ipv6 inner)
        | none ↦ false
      ]
    ]

-- The text that a `$` pattern reads: one newline at the end is allowed.
unfoldable pub drop_newline : Text → Text
drop_newline [] = []
drop_newline (c ∷ []) = if c == 10 then [] else c ∷ []
drop_newline (c ∷ d ∷ s) = c ∷ drop_newline (d ∷ s)

-- `_valid_port`. The pattern's `$` also matches before a final newline, which `strip` has removed
-- from the name that the port ends.
unfoldable pub valid_port : Text → Bool
unfolding is_digit decimal
valid_port port = digits_upto 5 port && leb 1 (decimal port) && leb (decimal port) 65535

-- `_valid_ipv4`.
unfoldable pub valid_ipv4 : Text → Bool
unfolding parse_ipv4
valid_ipv4 host = is_some (parse_ipv4 host)

-- `_valid_ipv6_literal`, of the text between the brackets.
unfoldable pub valid_ipv6_inner : Text → Bool
unfolding is_ipv6_char parse_ipv6 drop_newline
valid_ipv6_inner inner = ipv6_text (drop_newline inner) && is_some (parse_ipv6 inner)

-- `[A-Za-z0-9]` and `[A-Za-z0-9-]`.
unfoldable pub is_alnum : ℕ → Bool
unfolding is_digit
is_alnum c = is_digit c || (leb b'A' c && leb c b'Z') || (leb b'a' c && leb c b'z')

unfoldable pub is_label_char : ℕ → Bool
unfolding is_alnum
is_label_char c = is_alnum c || (c == b'-')

abbrev pub ends_alnum : Text → Bool
ends_alnum [] = false
ends_alnum (c ∷ []) = is_alnum c
ends_alnum (c ∷ d ∷ s) = ends_alnum (d ∷ s)

abbrev pub starts_alnum : Text → Bool
starts_alnum [] = false
starts_alnum (c ∷ s) = is_alnum c

-- `[A-Za-z0-9]([A-Za-z0-9-]*[A-Za-z0-9])?`, whole text.
unfoldable pub is_label : Text → Bool
unfolding is_label_char is_alnum
is_label s = starts_alnum s && all is_label_char s && ends_alnum s

-- `_DNS_LABEL_RE.match(label)`: the `$` matches at the end, and before a newline at the end.
unfoldable pub dns_label : Text → Bool
unfolding is_label drop_newline
dns_label s = is_label (drop_newline s)

-- `_valid_dns_name`.
unfoldable pub valid_dns_name : Text → Bool
unfolding dns_label split_on
valid_dns_name host =
    leb 1 (length host)
    && leb (length host) 255
    && all (λ l. not (is_empty l) && dns_label l) (split_on dot host)

-- The branches of `validate_server_name` behind the bracket test.
unfoldable pub validate_bracketed : Text → Bool
unfolding cut valid_port valid_ipv6_inner
validate_bracketed s = elim (cut close_bracket s) [
  | none ↦ false
  | some (inner, rest) ↦ port_suffix valid_port rest && valid_ipv6_inner inner
]

unfoldable pub valid_host : Text → Bool
unfolding valid_ipv4 valid_dns_name
valid_host host = valid_ipv4 host || valid_dns_name host

unfoldable pub validate_plain : Text → Bool
unfolding cut has valid_port valid_host
validate_plain name = elim (cut colon name) [
  | none ↦ valid_host name
  | some (host, port) ↦ not (has colon port) && valid_port port && valid_host host
]

unfoldable pub validate_stripped : Text → Bool
unfolding validate_bracketed validate_plain
validate_stripped [] = false
validate_stripped (c ∷ s) =
    if ltb 230 (length (c ∷ s))
    then false
    else if c == open_bracket
    then validate_bracketed s
    else validate_plain (c ∷ s)

unfoldable pub validate_server_name : Text → Bool
unfolding strip validate_stripped
validate_server_name name = validate_stripped (strip name)
