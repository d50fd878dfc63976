-- ===== src/Filter/Enforced.antt =====
-- The networks of a blacklist of ipfilter.py, from the configuration to a connection.
use matrix_federation_scanne.Prelude.{
  ◌≡◌, ◌⊎◌, refl, Bool, true, false, Option, some, List, [], ◌∷◌, arith, Bool-cases, Option-cases,
  inl, inr, any, is_empty,
}
use mathlib.Core.Path.{subst}
use matrix_federation_scanne.Prelude.Text.{Text, contains, same}
use matrix_federation_scanne.Prelude.Text.Same.{same→eq}
use matrix_federation_scanne.Json.{Json, Items, arr, to_list}
use matrix_federation_scanne.Util.Ip.{Address}
use matrix_federation_scanne.Filter.{
  Network, in_network, parse_address, entry_network, parse_entries, parse_networks, IpRangePolicy,
  allows, allowed_hosts, resolve,
}

module _ (ip_network : Text → Option Network) where
  -- An entry of a list stands for a network.
  abbrev pub Listed : Network → List Json → Type 0
  Listed net [] = ⊥
  Listed net (entry ∷ rest) = (entry_network ip_network entry ≡ some net) ⊎ Listed net rest

  -- A strict parse that comes out lost no entry.
  strict_keeps :
      (ip : Address) (net : Network) (entries : List Json) (nets : List Network)
      → parse_entries ip_network true entries ≡ some nets
      → Listed net entries
      → in_network ip net ≡ true
      → any (in_network ip) nets ≡ true
  unfolding parse_entries
  strict_keeps ip net [] nets parsed listed within = absurd listed
  strict_keeps ip net (entry ∷ rest) nets parsed listed within =
      elim (Option-cases (entry_network ip_network entry)) [
        | inl unread ↦ cc (rw (unread, parse_entries) at parsed)
        | inr (first, read) ↦ elim (Option-cases (parse_entries ip_network true rest)) [
          | inl fails ↦ cc (rw (read, fails, parse_entries) at parsed)
          | inr (others, parsed_rest) ↦
              let e : first ∷ others ≡ nets =
                cc (rw (read, parsed_rest, parse_entries) at parsed) in
              subst (λ l. any (in_network ip) l ≡ true) e
                (elim listed [
                  | inl here ↦
                      let f : net ≡ first = cc (here, read) in
                      let hit : in_network ip first ≡ true = rw f at within in rw hit refl
                  | inr there ↦
                      ground (arith, strict_keeps ip net rest others parsed_rest there within)
                ])
        ]
      ]

-- A host that is denied is not let through.
denied_out :
    (policy : IpRangePolicy) (host : Text) (infos : List Text)
    → allows policy host ≡ false
    → contains (allowed_hosts policy infos) host ≡ false
unfolding allowed_hosts contains
denied_out policy host [] denied = refl
denied_out policy host (h ∷ rest) denied = elim (Bool-cases (allows policy h)) [
  | inr out ↦ rw out (denied_out policy host rest denied)
  | inl passes ↦ elim (Bool-cases (same host h)) [
    | inl here ↦ let e = same→eq host h here in cc (rw e at denied, passes)
    | inr other ↦ rw (passes, other) (denied_out policy host rest denied)
  ]
]

denied :
    (policy : IpRangePolicy) (host : Text) (ip : Address)
    → parse_address host ≡ some ip
    → any (in_network ip) policy.allow ≡ false
    → any (in_network ip) policy.deny ≡ true
    → allows policy host ≡ false
unfolding allows
denied policy host ip parsed unlisted listed = rw (parsed, allows, unlisted, listed) refl

module _ (ip_network : Text → Option Network) where
  -- Where the blacklist of the configuration was read strictly and did not stop the start, every
  -- network that some entry of it names is enforced: a host that is an address of that network, and
  -- of none on the whitelist, is not among the hosts that a resolution lets through. Nor does a
  -- resolution let an empty list through.
  pub blacklist_enforced :
      (float_true : Bool) (entries : Items) (nets allow : List Network) (net : Network)
      (host : Text) (ip : Address) (infos hosts : List Text)
      → parse_networks ip_network float_true true (arr entries) ≡ some nets
      → Listed ip_network net (to_list entries)
      → in_network ip net ≡ true
      → parse_address host ≡ some ip
      → any (in_network ip) allow ≡ false
      → resolve (record { deny = nets; allow = allow }) infos ≡ some hosts
      → (contains hosts host ≡ false) × (is_empty hosts ≡ false)
  unfolding parse_networks resolve
  blacklist_enforced float_true entries nets allow net host ip infos hosts parsed listed within
        address unlisted resolved =
      let policy : IpRangePolicy = record { deny = nets; allow = allow } in
      let deny = strict_keeps ip_network ip net (to_list entries) nets parsed listed within in
      let out = denied_out policy host infos (denied policy host ip address unlisted deny) in
      elim (Bool-cases (is_empty (allowed_hosts policy infos))) [
        | inl blocked ↦ cc (rw blocked at resolved)
        | inr open_ ↦
            let e : allowed_hosts policy infos ≡ hosts = cc (rw open_ at resolved) in
            (rw e at out, rw e at open_)
      ]
