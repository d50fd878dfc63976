-- ===== src/Util/Ip.antt =====
-- The address parsers of Python's standard `ipaddress` module, as bot/csreg_scanner/util.py,
-- resolver.py and ipfilter.py call them: `IPv4Address(s)`, `IPv6Address(s)` and `ip_address(s)`.
-- An address is its number; `none` is the ValueError.
use matrix_federation_scanne.Prelude.{
  ℕ, zero, suc, ◌+◌, ◌-◌, ◌*◌, ◌/◌, ◌%◌, ◌^◌, ◌≡◌, refl, Bool, not, ◌&&◌, ◌||◌, Option, none, some,
  List, [], ◌∷◌, ◌++◌, ltb, leb, ◌==◌, if◌then◌else◌, length, all, is_empty, take, drop,
}
use matrix_federation_scanne.Prelude.Text.{Text, codes, has, cut, split_on, is_digit, decimal}

-- `_parse_octet`: digits only, at most three, no leading zero, at most 255.
unfoldable pub parse_octet : Text → Option ℕ
unfolding is_digit decimal
parse_octet [] = none
parse_octet (c ∷ s) =
    if all is_digit (c ∷ s)
      && leb (length (c ∷ s)) 3
      && (is_empty s || not (c == b'0'))
      && leb (decimal (c ∷ s)) 255
    then some (decimal (c ∷ s))
    else none

octets : ℕ → List Text → Option ℕ
unfolding parse_octet
octets n [] = some n
octets n (o ∷ os) =
    let rest = λ (k : ℕ). octets (n * 256 + k) os in
    elim (parse_octet o) [ none ↦ none | some k ↦ rest k ]

-- `IPv4Address(s)`.
unfoldable pub parse_ipv4 : Text → Option ℕ
unfolding octets split_on
parse_ipv4 s = let parts = split_on b'.' s in if length parts == 4 then octets 0 parts else none

unfoldable pub is_hex : ℕ → Bool
unfolding is_digit
is_hex c = is_digit c || (leb b'A' c && leb c b'F') || (leb b'a' c && leb c b'f')

hex_value : ℕ → ℕ
unfolding is_digit
hex_value c = if is_digit c then c - 48 else if leb c b'F' then c - 55 else c - 87

-- `int(s, 16)` of a run of hexadecimal digits.
hex_from : ℕ → Text → ℕ
hex_from n [] = n
hex_from n (c ∷ s) = hex_from (n * 16 + hex_value c) s

-- `_parse_hextet`; the empty text is the ValueError of `int("", 16)`.
parse_hextet : Text → Option ℕ
unfolding is_hex hex_from hex_value
parse_hextet s =
    if all is_hex s && leb (length s) 4 && leb 1 (length s) then some (hex_from 0 s) else none

hextets : ℕ → List Text → Option ℕ
unfolding parse_hextet
hextets n [] = some n
hextets n (h ∷ hs) =
    let rest = λ (k : ℕ). hextets (n * 65536 + k) hs in
    elim (parse_hextet h) [ none ↦ none | some k ↦ rest k ]

-- `parts[-1]`, and what stands before it.
abbrev last_of : List Text → Text
last_of [] = []
last_of (w ∷ []) = w
last_of (w ∷ v ∷ ws) = last_of (v ∷ ws)

abbrev butlast : List Text → List Text
butlast [] = []
butlast (w ∷ []) = []
butlast (w ∷ v ∷ ws) = w ∷ butlast (v ∷ ws)

to_hex_digit : ℕ → ℕ
to_hex_digit d = if ltb d 10 then d + 48 else d + 87

hex_digits : ℕ → ℕ → Text → Text
unfolding to_hex_digit
hex_digits zero n acc = acc
hex_digits (suc f) n acc =
    let more = hex_digits f (n / 16) (to_hex_digit (n % 16) ∷ acc) in
    if n == 0 then (if is_empty acc then b'0' ∷ [] else acc) else more

-- `"%x" % n` for a 16-bit number.
to_hex : ℕ → Text
unfolding hex_digits
to_hex n = hex_digits 5 n []

-- An IPv4 tail is replaced by two hextets.
expand_v4 : List Text → Option (List Text)
unfolding to_hex parse_ipv4
expand_v4 parts =
    let l = last_of parts in
    if has b'.' l
    then (elim (parse_ipv4 l) [
      | none ↦ none
      | some v ↦ some (butlast parts ++ to_hex (v / 65536) ∷ to_hex (v % 65536) ∷ [])
    ])
    else some parts

-- The index of the empty part among the inner parts; `some none` where there is none, `none` where
-- there are two.
skip_index : ℕ → List Text → Option ℕ → Option (Option ℕ)
skip_index i [] found = some found
skip_index i (w ∷ []) found = some found
skip_index i (w ∷ v ∷ ws) found =
    let rest = λ (f : Option ℕ). skip_index (i + 1) (v ∷ ws) f in
    if is_empty w then (elim found [ some _ ↦ none | none ↦ rest (some i) ]) else rest found

-- With `::` at part `k`.
with_skip : ℕ → List Text → Option ℕ
unfolding hextets
with_skip k parts =
    let n = length parts in
    let first_empty = is_empty (last_of (take 1 parts)) in
    let last_empty = is_empty (last_of parts) in
    let hi = if first_empty then k - 1 else k in
    let lo = if last_empty then n - k - 2 else n - k - 1 in
    if (first_empty && ltb 0 hi) || (last_empty && ltb 0 lo) || ltb 7 (hi + lo)
    then none
    else (elim (hextets 0 (take hi parts)) [
      | none ↦ none
      | some high ↦ hextets (high * 65536 ^ (8 - (hi + lo))) (drop (n - lo) parts)
    ])

without_skip : List Text → Option ℕ
unfolding hextets
without_skip parts =
    if length parts == 8
      && not (is_empty (last_of (take 1 parts)))
      && not (is_empty (last_of parts))
    then hextets 0 parts
    else none

-- `IPv6Address._ip_int_from_string`.
ipv6_number : Text → Option ℕ
unfolding expand_v4 skip_index with_skip without_skip split_on
ipv6_number s =
    let parts = split_on b':' s in
    if ltb (length parts) 3 then none else (elim (expand_v4 parts) [
      | none ↦ none
      | some ps ↦ if ltb 9 (length ps) then none else (elim (skip_index 1 (drop 1 ps) none) [
        | none ↦ none
        | some none ↦ without_skip ps
        | some (some k) ↦ with_skip k ps
      ])
    ])

-- `IPv6Address(s)`: a scope id after `%` must be there and hold no other `%`.
unfoldable pub parse_ipv6 : Text → Option ℕ
unfolding ipv6_number cut has
parse_ipv6 s = if has b'/' s then none else (elim (cut b'%' s) [
  | none ↦ ipv6_number s
  | some (addr, scope) ↦ if is_empty scope || has b'%' scope then none else ipv6_number addr
])

pub data Address : Type 0 where
  v4 : ℕ → Address
  v6 : ℕ → Address

-- `ip_address(s)`: IPv4 is tried first.
unfoldable pub ip_address : Text → Option Address
unfolding parse_ipv4 parse_ipv6
ip_address s = elim (parse_ipv4 s) [
  | some n ↦ some (v4 n)
  | none ↦ elim (parse_ipv6 s) [ some n ↦ some (v6 n) | none ↦ none ]
]

loopback : parse_ipv6 (codes "::1") ≡ some 1
unfolding parse_ipv6
loopback = refl

mapped : parse_ipv6 (codes "::ffff:1.2.3.4") ≡ some (0xffff * 2 ^ 32 + 16909060)
unfolding parse_ipv6
mapped = refl

documentation : parse_ipv6 (codes "2001:DB8::1:0") ≡ some (0x20010db8 * 2 ^ 96 + 65536)
unfolding parse_ipv6
documentation = refl

malformed_v6 :
    (parse_ipv6 (codes "1:::2") ≡ none)
    × (parse_ipv6 (codes ":1::2") ≡ none)
    × (parse_ipv6 (codes "::1::") ≡ none)
    × (parse_ipv6 (codes "1:2:3:4:5:6:7:8:9") ≡ none)
    × (parse_ipv6 (codes "1:2:3:4::5:6:7:8") ≡ none)
unfolding parse_ipv6
malformed_v6 = (refl, refl, refl, refl, refl)

edges_v6 :
    (parse_ipv6 (codes "::") ≡ some 0)
    × (parse_ipv6 (codes "1::") ≡ some (2 ^ 112))
    × (parse_ipv6 (codes "0:0:0:0:0:0:0:1") ≡ some 1)
    × (parse_ipv6 (codes "fe80::1%eth0") ≡ some (0xfe80 * 2 ^ 112 + 1))
unfolding parse_ipv6
edges_v6 = (refl, refl, refl, refl)

edges_v4 :
    (parse_ipv4 (codes "1.2.3.4") ≡ some 16909060)
    × (parse_ipv4 (codes "1.2.3.256") ≡ none)
    × (parse_ipv4 (codes "01.2.3.4") ≡ none)
unfolding parse_ipv4
edges_v4 = (refl, refl, refl)
