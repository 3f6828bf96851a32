-- ===== src/Reload.antt =====
-- src/reload.rs: what the tasks share, and the plan of a reload.
pub mod Noop
mod Tests
use cortado.Base.{
  ◌≡◌, Bool, true, false, not, ◌&&◌, ◌||◌, List, [], ◌∷◌, ◌++◌, Option, none, some, Bytes, codes,
  ◌==◌, nat_eq, list_eq, option_eq, is_empty, is_none, if◌then◌else◌,
}
use cortado.Addr.{IpAddr, ip_eq, SocketAddr, socket_eq}
use cortado.Net.Diff.{Block, diff_cidrs}
use cortado.Net.RouteTable
use cortado.Net.RouteTable.{RouteTable}
use cortado.Config.{
  Parsing, Config, ProxyConfig, proxy_socket_addr, dns_addr, bypass_routes, from_config,
}

pub record Shared : Type 0 where
  pub proxy : ProxyConfig
  pub routes : RouteTable

abbrev pub store_proxy : ProxyConfig → Shared → Shared
store_proxy proxy s = record s { proxy = proxy }

abbrev pub store_routes : RouteTable → Shared → Shared
store_routes routes s = record s { routes = routes }

abbrev pub when_changed : Bool → Bytes → List Bytes
when_changed equal name = if equal then [] else name ∷ []

unfoldable pub immutable_changes : Config → Config → List Bytes
immutable_changes old latest =
    when_changed (old.tun_name == latest.tun_name) (codes "tun_name")
    ++ (when_changed (old.tun_ip == latest.tun_ip) (codes "tun_ip")
        ++ when_changed (old.metrics_addr == latest.metrics_addr) (codes "metrics_addr"))

pub record ReloadPlan : Type 0 where
  pub proxy : ProxyConfig
  pub route_table : RouteTable
  pub new_bypass : List Block
  pub bypass_add : List Block
  pub bypass_remove : List Block
  pub dns : Option IpAddr
  pub dns_changed : Bool
  pub proxy_route_change : Option (IpAddr × IpAddr)
  pub proxy_changed : Bool

-- What `compute` reads from one configuration; `none` where an accessor panics.
pub record Readings : Type 0 where
  pub bypass : List Block
  pub address : SocketAddr
  pub dns : Option IpAddr
  pub proxy : ProxyConfig

unfoldable pub readings : Parsing → Config → Option Readings
readings std cfg = elim (bypass_routes std cfg) [
  | none ↦ none
  | some bypass ↦ elim (proxy_socket_addr std cfg) [
    | none ↦ none
    | some address ↦ elim (dns_addr std cfg) [
      | none ↦ none
      | some dns ↦ elim (from_config std cfg) [
        | none ↦ none
        | some proxy ↦
            some (record { bypass = bypass; address = address; dns = dns; proxy = proxy })
      ]
    ]
  ]
]

unfoldable pub plan_of : Config → Config → Readings → Readings → ReloadPlan
plan_of old latest r s = record {
  proxy = s.proxy;
  route_table = RouteTable.new s.bypass;
  new_bypass = s.bypass;
  bypass_add = (diff_cidrs r.bypass s.bypass).0;
  bypass_remove = (diff_cidrs r.bypass s.bypass).1;
  dns = s.dns;
  dns_changed = not (r.dns == s.dns);
  proxy_route_change =
      if r.address.ip == s.address.ip then none else some (r.address.ip, s.address.ip);
  proxy_changed =
      not (r.address == s.address)
      || (not (old.username == latest.username) || not (old.password == latest.password));
}

unfoldable pub compute : Parsing → Config → Config → Option ReloadPlan
unfolding readings plan_of
compute std old latest = elim (readings std old) [
  | none ↦ none
  | some r ↦ elim (readings std latest) [ none ↦ none | some s ↦ some (plan_of old latest r s) ]
]

unfoldable pub is_noop : ReloadPlan → Bool
is_noop p =
    is_empty p.bypass_add
    && (is_empty p.bypass_remove
        && (not p.dns_changed && (is_none p.proxy_route_change && not p.proxy_changed)))
