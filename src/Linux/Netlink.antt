-- ===== src/Linux/Netlink.antt =====
-- The netlink calls of src/platform/linux (crates rtnetlink and netlink-packet-route): the main
-- routing table by destination and prefix, the dumps of it, and the links.
use cortado.Base.{
  ℕ, ◌≡◌, Bool, true, false, List, Option, none, some, Bytes, ◌==◌, nat_eq, pair_eq, option_eq,
  if◌then◌else◌,
}
use cortado.Addr.{IpAddr, ip_eq}

-- Where a route leads: a gateway, if any, and the index of the outgoing link.
pub record Via : Type 0 where
  pub gateway : Option IpAddr
  pub oif : ℕ

pub record Route : Type 0 where
  pub dst : IpAddr
  pub prefix : ℕ
  pub via : Via

abbrev pub key_of : Route → IpAddr × ℕ
key_of r = (r.dst, r.prefix)

-- One message of a dump: the prefix length and the attributes.
pub data RouteAttribute : Type 0 where
  inet_gateway inet6_gateway : ℕ → RouteAttribute
  oif_index : ℕ → RouteAttribute
  other_attribute : RouteAttribute

pub record RouteMessage : Type 0 where
  pub destination_prefix_length : ℕ
  pub attributes : List RouteAttribute

-- A dump comes message by message; `none` is an error, after which the dump is read no further.
abbrev pub Dump : Type 0
Dump = List (Option RouteMessage)

pub record Netlink : Type 1 where
  pub State : Type 0
  pub via : State → IpAddr × ℕ → Option Via
  pub add : Route → State → Bool × State
  pub del : Route → State → Bool × State
  pub dump_v4 : State → Dump
  pub dump_v6 : State → Dump
  -- The outer `none` is an error, the inner one that there is no such link.
  pub link_index : Bytes → State → Option (Option ℕ)
  pub link_mtu : ℕ → State → Option (Option ℕ)

-- `add` has the flag `replace`. A request that fails changes nothing.
pub record IsNetlink (nl : Netlink) : Type 0 where
  pub via_added :
      (r : Route) (k : IpAddr × ℕ) (s : nl.State)
      → (nl.add r s).0 ≡ true
      → nl.via (nl.add r s).1 k ≡ (if key_of r == k then some r.via else nl.via s k)
  pub via_not_added :
      (r : Route) (k : IpAddr × ℕ) (s : nl.State)
      → (nl.add r s).0 ≡ false
      → nl.via (nl.add r s).1 k ≡ nl.via s k
  pub via_deleted :
      (r : Route) (k : IpAddr × ℕ) (s : nl.State)
      → (nl.del r s).0 ≡ true
      → nl.via (nl.del r s).1 k ≡ (if key_of r == k then none else nl.via s k)
  pub via_not_deleted :
      (r : Route) (k : IpAddr × ℕ) (s : nl.State)
      → (nl.del r s).0 ≡ false
      → nl.via (nl.del r s).1 k ≡ nl.via s k
  -- A route that is there can be deleted.
  pub deletes :
      (r : Route) (s : nl.State) → nl.via s (key_of r) ≡ some r.via → (nl.del r s).0 ≡ true
