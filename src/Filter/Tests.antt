-- ===== src/Filter/Tests.antt =====
-- The filter of ipfilter.py at the loopback network.
use matrix_federation_scanne.Prelude.{
  ◌*◌, ◌^◌, ◌≡◌, refl, inl, true, false, Option, none, some, [], ◌∷◌, if◌then◌else◌, is_empty,
}
use matrix_federation_scanne.Prelude.Text.{Text, codes, contains, same, strip}
use matrix_federation_scanne.Json.{Items, str, arr, nil, cons}
use matrix_federation_scanne.Util.Ip.{Address, v4}
use matrix_federation_scanne.Filter.{
  Network, in_network, parse_address, entry_network, parse_networks, IpRangePolicy, allows, resolve,
}
use matrix_federation_scanne.Filter.Enforced.{blacklist_enforced}

abbrev loopback_range : Text
loopback_range = codes "127.0.0.0/8"

abbrev loopback_network : Network
loopback_network = record { address = v4 (127 * 2 ^ 24); prefix = 8 }

abbrev one_network : Text → Option Network
one_network text = if same text loopback_range then some loopback_network else none

abbrev entries : Items
entries = cons (str loopback_range) nil

abbrev local_host : Text
local_host = codes "127.0.0.1"

abbrev public_host : Text
public_host = codes "8.8.8.8"

abbrev only_loopback : IpRangePolicy
only_loopback = record { deny = loopback_network ∷ []; allow = [] }

abbrev local_address : Address
local_address = v4 2130706433

read_strictly : parse_networks one_network false true (arr entries) ≡ some (loopback_network ∷ [])
unfolding parse_networks same strip
read_strictly = refl

is_local : parse_address local_host ≡ some local_address
unfolding parse_address
is_local = refl

local_in : in_network local_address loopback_network ≡ true
unfolding in_network
local_in = refl

listed : entry_network one_network (str loopback_range) ≡ some loopback_network
unfolding entry_network same strip
listed = refl

falls_through : resolve only_loopback (local_host ∷ public_host ∷ []) ≡ some (public_host ∷ [])
unfolding resolve
falls_through = refl

blacklist_enforced_example :
    (contains (public_host ∷ []) local_host ≡ false) × (is_empty (public_host ∷ []) ≡ false)
blacklist_enforced_example =
    blacklist_enforced one_network false entries (loopback_network ∷ []) [] loopback_network
      local_host local_address (local_host ∷ public_host ∷ []) (public_host ∷ []) read_strictly
      (inl listed) local_in is_local refl falls_through

-- An IPv4-mapped address of the network is an IPv6 address to the filter.
mapped_passes : allows only_loopback (codes "::ffff:127.0.0.1") ≡ true
unfolding allows
mapped_passes = refl
