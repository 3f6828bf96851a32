-- ===== src/Linux/RouteManager.antt =====
-- src/platform/linux/route.rs: `RouteManager`. Netlink and the resolver override are parameters;
-- ResolvConf implements the latter. What is only logged is left out.
use cortado.Base.{
  ℕ, Bool, true, false, List, Option, none, some, Bytes, Result, ok, err, if◌then◌else◌,
}
use cortado.Base.Effects.{Effect, ◌>>=◌, ◌>>◌, require, modify, quietly, skip, each}
use cortado.Addr.{IpAddr}
use cortado.Net.Diff.{Block}
use cortado.Reload.{ReloadPlan}
use cortado.Linux.Gateways.{
  RouteError, RouteManager, add_failed, captures_v6, delete_failed, dns_failed, family_mismatch,
  gateway_for, gateway_v4, gateway_v6, host_block, host_prefix, interface_not_found, link_error,
  no_gateway, read_gateway, same_family, v4_split, v6_split,
}
use cortado.Linux.Netlink.{Netlink}
use cortado.Platform.{Resolver}

module _ (nl : Netlink) (dns : Resolver) where
  pub record Machine : Type 0 where
    pub manager : RouteManager
    pub kernel : nl.State
    pub resolver : dns.State

  abbrev pub M : Type 0 → Type 0
  M A = Effect Machine RouteError A

  -- A request, and the error where it fails.
  abbrev pub requested :
      Machine → RouteError → Bool × nl.State → Result RouteError (Unit {0}) × Machine
  requested m e (true, s) = (ok tt, record m { kernel = s })
  requested m e (false, s) = (err e, record m { kernel = s })

  unfoldable pub resolve_link_index : Bytes → nl.State → Result RouteError ℕ
  resolve_link_index name s = elim (nl.link_index name s) [
    | none ↦ err link_error
    | some none ↦ err interface_not_found
    | some (some i) ↦ ok i
  ]

  unfoldable pub new :
      IpAddr → Bytes → Option IpAddr → List Block → Bool → nl.State → Result RouteError RouteManager
  unfolding resolve_link_index
  new proxy_ip tun_name dns_server bypass capture_ipv6 s = elim (resolve_link_index tun_name s) [
    | err e ↦ err e
    | ok tun_index ↦ ok (record {
      proxy_ip = proxy_ip;
      tun_index = tun_index;
      dns_server = dns_server;
      bypass = bypass;
      capture_ipv6 = capture_ipv6;
      v4_gateway = none;
      v6_gateway = none;
      applied = false;
    })
  ]

  unfoldable pub add_via_gateway : Block → IpAddr × ℕ → M (Unit {0})
  add_via_gateway (dst, prefix) (gw, oif) m =
      if same_family dst gw
      then requested m add_failed (
          nl.add
            (record { dst = dst; prefix = prefix; via = record { gateway = some gw; oif = oif } })
            m.kernel)
      else (err family_mismatch, m)

  unfoldable pub add_via_tun : Block → M (Unit {0})
  add_via_tun (dst, prefix) m = requested m add_failed (
      nl.add
        (record {
          dst = dst;
          prefix = prefix;
          via = record { gateway = none; oif = m.manager.tun_index };
        })
        m.kernel)

  unfoldable pub del_route : Block → ℕ → Option IpAddr → M (Unit {0})
  del_route (dst, prefix) oif gw m = requested m delete_failed (
      nl.del (record { dst = dst; prefix = prefix; via = record { gateway = gw; oif = oif } })
        m.kernel)

  abbrev pub with_manager : (RouteManager → RouteManager) → M (Unit {0})
  with_manager f = modify λ m. record m { manager = f m.manager }

  abbrev pub add_found : Block → Option (IpAddr × ℕ) → M (Unit {0})
  add_found block none = skip
  add_found block (some hop) = add_via_gateway block hop

  -- A block whose family has no gateway is skipped.
  unfoldable pub add_bypass : Block → M (Unit {0})
  unfolding add_via_gateway gateway_for
  add_bypass block m = add_found block (gateway_for m.manager block.0) m

  abbrev pub del_found : Block → Option (IpAddr × ℕ) → M (Unit {0})
  del_found block none = skip
  del_found block (some (gw, oif)) = quietly (del_route block oif (some gw))

  unfoldable pub del_bypass : Block → M (Unit {0})
  unfolding del_route gateway_for
  del_bypass block m = del_found block (gateway_for m.manager block.0) m

  unfoldable pub del_split : Block → M (Unit {0})
  unfolding del_route
  del_split block m = quietly (del_route block m.manager.tun_index none) m

  abbrev pub read_gateways : M (Unit {0})
  read_gateways = do
    v4_found ← (λ m. (read_gateway gateway_v4 (nl.dump_v4 m.kernel), m))
    with_manager (λ r. record r { v4_gateway = v4_found })
    v6_found ← (λ m. (read_gateway gateway_v6 (nl.dump_v6 m.kernel), m))
    with_manager (λ r. record r { v6_gateway = v6_found })

  unfoldable pub protect_proxy : IpAddr → M (Unit {0})
  unfolding add_via_gateway gateway_for host_prefix
  protect_proxy addr = do
    hop ← (λ m. require (gateway_for m.manager addr) no_gateway m)
    add_via_gateway (host_block addr) hop

  abbrev pub when : Bool → M (Unit {0}) → M (Unit {0})
  when true step = step
  when false step = skip

  abbrev pub dns_called : Machine → Bool × dns.State → Result RouteError (Unit {0}) × Machine
  dns_called m (true, s) = (ok tt, record m { resolver = s })
  dns_called m (false, s) = (err dns_failed, record m { resolver = s })

  unfoldable pub install_routes : M (Unit {0})
  unfolding protect_proxy add_bypass add_via_tun each
  install_routes = do
    (λ m. protect_proxy m.manager.proxy_ip m)
    (λ m. each add_bypass m.manager.bypass m)
    each add_via_tun v4_split
    (λ m. when (captures_v6 m.manager) (each add_via_tun v6_split) m)

  unfoldable pub apply : M (Unit {0})
  unfolding install_routes read_gateway
  apply = do
    read_gateways
    install_routes
    (λ m. dns_called m (dns.apply m.manager.dns_server m.resolver))
    with_manager (λ r. record r { applied = true })

  abbrev pub move_proxy : Option (IpAddr × IpAddr) → M (Unit {0})
  move_proxy none = skip
  move_proxy (some (old_ip, new_ip)) = do
    del_bypass (host_block old_ip)
    protect_proxy new_ip
    with_manager (λ r. record r { proxy_ip = new_ip })

  abbrev pub move_dns : Bool → Option IpAddr → M (Unit {0})
  move_dns false server = skip
  move_dns true server = do
    (λ m. dns_called m (dns.reload server m.resolver))
    with_manager (λ r. record r { dns_server = server })

  unfoldable pub reload_applied : ReloadPlan → M (Unit {0})
  unfolding protect_proxy add_bypass del_bypass each
  reload_applied plan = do
    move_proxy plan.proxy_route_change
    each del_bypass plan.bypass_remove
    each add_bypass plan.bypass_add
    with_manager (λ r. record r { bypass = plan.new_bypass })
    move_dns plan.dns_changed plan.dns

  unfoldable pub reload : ReloadPlan → M (Unit {0})
  unfolding reload_applied
  reload plan m = if m.manager.applied then reload_applied plan m else (ok tt, m)

  abbrev pub restore_dns : M (Unit {0})
  restore_dns = modify λ m. record m { resolver = dns.restore m.resolver }

  unfoldable pub remove_routes : M (Unit {0})
  unfolding del_bypass del_split each
  remove_routes = do
    (λ m. del_bypass (host_block m.manager.proxy_ip) m)
    (λ m. each del_bypass m.manager.bypass m)
    each del_split v4_split
    (λ m. when m.manager.capture_ipv6 (each del_split v6_split) m)

  unfoldable pub teardown : M (Unit {0})
  unfolding remove_routes
  teardown m =
      if m.manager.applied
      then (with_manager (λ r. record r { applied = false }) >> (remove_routes >> restore_dns)) m
      else (ok tt, m)
