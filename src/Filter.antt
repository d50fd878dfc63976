-- ===== src/Filter.antt =====
-- bot/csreg_scanner/ipfilter.py: which addresses a scan may connect to.
pub mod Enforced
mod Tests
-- Parameters: `ip_network(text, strict=False)` of Python's `ipaddress`, and whether a float that
-- stands for the list is not 0.0. What the wrapped resolver answers is a list of hosts.
use matrix_federation_scanne.Prelude.{
  ℕ, ◌-◌, ◌/◌, ◌^◌, ◌≡◌, Bool, true, false, not, ◌&&◌, Option, none, some, List, [], ◌∷◌, ◌==◌,
  if◌then◌else◌, any, is_empty,
}
use matrix_federation_scanne.Prelude.Text.{Text, cut, strip}
use matrix_federation_scanne.Json.{
  Json, null, bool, int, float, str, arr, obj, to_list, is_end, pos, negsuc,
}
use matrix_federation_scanne.Util.{is_bracketed, close_bracket}
use matrix_federation_scanne.Util.Ip.{Address, v4, v6, ip_address}

-- IPv4Network and IPv6Network: an address of the network and the length of its prefix.
pub record Network : Type 0 where
  pub address : Address
  pub prefix : ℕ

-- `ip in net`: one version, and one number once the bits behind the prefix are dropped.
unfoldable pub in_network : Address → Network → Bool
in_network ip net = elim ip [
  | v4 n ↦ elim net.address [
    | v4 m ↦ n / 2 ^ (32 - net.prefix) == m / 2 ^ (32 - net.prefix)
    | v6 m ↦ false
  ]
  | v6 n ↦ elim net.address [
    | v4 m ↦ false
    | v6 m ↦ n / 2 ^ (128 - net.prefix) == m / 2 ^ (128 - net.prefix)
  ]
]

-- `s.endswith("]")`, and `s[:-1]`.
abbrev pub ends_bracketed : Text → Bool
ends_bracketed [] = false
ends_bracketed (c ∷ s) = if is_empty s then c == close_bracket else ends_bracketed s

abbrev pub but_last : Text → Text
but_last [] = []
but_last (c ∷ s) = if is_empty s then [] else c ∷ but_last s

abbrev pub but_first : Text → Text
but_first [] = []
but_first (c ∷ s) = s

unfoldable pub drop_scope : Text → Text
unfolding cut
drop_scope a = elim (cut b'%' a) [ none ↦ a | some (before, _) ↦ before ]

-- `_parse_address`.
unfoldable pub parse_address : Text → Option Address
unfolding strip drop_scope ip_address
parse_address addr =
    let a = strip addr in
    ip_address
      (drop_scope (if is_bracketed a && ends_bracketed a then but_first (but_last a) else a))

-- `if entries` on a value of the configuration.
abbrev pub is_truthy : Bool → Json → Bool
is_truthy float_true null = false
is_truthy float_true (bool b) = b
is_truthy float_true (int n) = elim n [ pos k ↦ not (k == 0) | negsuc k ↦ true ]
is_truthy float_true float = float_true
is_truthy float_true (str s) = not (is_empty s)
is_truthy float_true (arr items) = not (is_empty (to_list items))
is_truthy float_true (obj fields) = not (is_end fields)

module _ (ip_network : Text → Option Network) where
  -- One entry; `none` where it is no text, blank, or a ValueError.
  unfoldable pub entry_network : Json → Option Network
  unfolding strip
  entry_network (str text) = if is_empty (strip text) then none else ip_network (strip text)
  entry_network _ = none

  -- The loop over the entries; `none` is an IPRangeConfigError.
  unfoldable pub parse_entries : Bool → List Json → Option (List Network)
  unfolding entry_network
  parse_entries strict [] = some []
  parse_entries strict (entry ∷ rest) =
      let later = parse_entries strict rest in
      elim (entry_network entry) [
        | none ↦ if strict then none else later
        | some net ↦ elim later [ none ↦ none | some nets ↦ some (net ∷ nets) ]
      ]

  -- `parse_networks`.
  unfoldable pub parse_networks : Bool → Bool → Json → Option (List Network)
  unfolding parse_entries
  parse_networks float_true strict (arr items) = parse_entries strict (to_list items)
  parse_networks float_true strict entries =
      if strict && is_truthy float_true entries then none else some []

-- IPRangePolicy.
pub record IpRangePolicy : Type 0 where
  pub deny : List Network
  pub allow : List Network

-- `active`.
abbrev pub is_active : IpRangePolicy → Bool
is_active policy = not (is_empty policy.deny)

-- `allows`.
unfoldable pub allows : IpRangePolicy → Text → Bool
unfolding parse_address in_network
allows policy addr = elim (parse_address addr) [
  | none ↦ true
  | some ip ↦
      if any (in_network ip) policy.allow then true else not (any (in_network ip) policy.deny)
]

unfoldable pub allowed_hosts : IpRangePolicy → List Text → List Text
unfolding allows
allowed_hosts policy [] = []
allowed_hosts policy (host ∷ rest) =
    if allows policy host then host ∷ allowed_hosts policy rest else allowed_hosts policy rest

-- `FilteringResolver.resolve` and `FilteringTCPConnector._resolve_host`, on the hosts that they
-- wrap; `none` is a BlockedAddressError.
unfoldable pub resolve : IpRangePolicy → List Text → Option (List Text)
unfolding allowed_hosts
resolve policy infos =
    let allowed = allowed_hosts policy infos in if is_empty allowed then none else some allowed

pub data Connector : Type 0 where
  plain : Connector
  resolver_only filtering : IpRangePolicy → Connector

-- `build_connector`; `has_hook` is whether the library has `_resolve_host`.
unfoldable pub build_connector : Bool → Option IpRangePolicy → Connector
build_connector has_hook none = plain
build_connector has_hook (some policy) =
    if not (is_active policy)
    then plain
    else if has_hook
    then filtering policy
    else resolver_only policy
