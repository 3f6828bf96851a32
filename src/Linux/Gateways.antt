-- ===== src/Linux/Gateways.antt =====
-- src/platform/linux/route.rs: the fields of `RouteManager`, and the default gateways that it reads from
-- the dumps of the routing tables.
use cortado.Base.{
  ℕ, ◌^◌, ◌*◌, Bool, true, false, ◌&&◌, ◌||◌, List, [], ◌∷◌, Option, none, some, Result, ok, err,
  is_some, nat_beq, if◌then◌else◌,
}
use cortado.Addr.{IpAddr, v4, v6, is_ipv4, is_ipv6}
use cortado.Net.Diff.{Block}
use cortado.Linux.Netlink.{RouteAttribute, inet_gateway, inet6_gateway, oif_index, Dump}

abbrev pub v4_split : List Block
v4_split = (v4 0, 1) ∷ (v4 (128 * 2 ^ 24), 1) ∷ []

abbrev pub v6_split : List Block
v6_split = (v6 0, 1) ∷ (v6 (0x8000 * 2 ^ 112), 1) ∷ []

unfoldable pub host_prefix : IpAddr → ℕ
host_prefix addr = if is_ipv4 addr then 32 else 128

pub data RouteError : Type 0 where
  link_error interface_not_found dump_error : RouteError
  no_gateway family_mismatch add_failed delete_failed dns_failed : RouteError

-- The scan of one message: the last gateway of the family and the last link index in it.
abbrev pub gateway_v4 : List RouteAttribute → Option ℕ → Option ℕ
gateway_v4 [] found = found
gateway_v4 (inet_gateway g ∷ rest) found = gateway_v4 rest (some g)
gateway_v4 (_ ∷ rest) found = gateway_v4 rest found

abbrev pub gateway_v6 : List RouteAttribute → Option ℕ → Option ℕ
gateway_v6 [] found = found
gateway_v6 (inet6_gateway g ∷ rest) found = gateway_v6 rest (some g)
gateway_v6 (_ ∷ rest) found = gateway_v6 rest found

abbrev pub link_of : List RouteAttribute → Option ℕ → Option ℕ
link_of [] found = found
link_of (oif_index i ∷ rest) found = link_of rest (some i)
link_of (_ ∷ rest) found = link_of rest found

abbrev pub both : Option ℕ → Option ℕ → Option (ℕ × ℕ)
both (some g) (some i) = some (g, i)
both _ _ = none

abbrev pub or_next :
    Option (ℕ × ℕ) → Result RouteError (Option (ℕ × ℕ)) → Result RouteError (Option (ℕ × ℕ))
or_next (some found) later = ok (some found)
or_next none later = later

-- `read_v4_gateway` and `read_v6_gateway`: the first default route with a gateway and a link.
unfoldable pub read_gateway :
    (List RouteAttribute → Option ℕ → Option ℕ) → Dump → Result RouteError (Option (ℕ × ℕ))
read_gateway gateway [] = ok none
read_gateway gateway (none ∷ rest) = err dump_error
read_gateway gateway (some m ∷ rest) =
    let later = read_gateway gateway rest in
    if nat_beq m.destination_prefix_length 0
    then or_next (both (gateway m.attributes none) (link_of m.attributes none)) later
    else later

-- The fields of `RouteManager` but the netlink handle and the resolver override.
pub record RouteManager : Type 0 where
  pub proxy_ip : IpAddr
  pub tun_index : ℕ
  pub dns_server : Option IpAddr
  pub bypass : List Block
  pub capture_ipv6 : Bool
  pub v4_gateway : Option (ℕ × ℕ)
  pub v6_gateway : Option (ℕ × ℕ)
  pub applied : Bool

abbrev pub named_v4 : Option (ℕ × ℕ) → Option (IpAddr × ℕ)
named_v4 none = none
named_v4 (some (g, o)) = some (v4 g, o)

abbrev pub named_v6 : Option (ℕ × ℕ) → Option (IpAddr × ℕ)
named_v6 none = none
named_v6 (some (g, o)) = some (v6 g, o)

unfoldable pub gateway_for : RouteManager → IpAddr → Option (IpAddr × ℕ)
gateway_for m (v4 a) = named_v4 m.v4_gateway
gateway_for m (v6 a) = named_v6 m.v6_gateway

abbrev pub same_family : IpAddr → IpAddr → Bool
same_family (v4 a) (v4 b) = true
same_family (v6 a) (v6 b) = true
same_family (v4 a) (v6 b) = false
same_family (v6 a) (v4 b) = false

abbrev pub host_block : IpAddr → Block
host_block addr = (addr, host_prefix addr)

abbrev pub captures_v6 : RouteManager → Bool
captures_v6 r = r.capture_ipv6 && (is_some r.v6_gateway || is_ipv6 r.proxy_ip)
