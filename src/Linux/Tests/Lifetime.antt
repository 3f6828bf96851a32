-- ===== src/Linux/Tests/Lifetime.antt =====
-- A run of src/platform/linux/route.rs with a reload that moves the proxy and changes the blocks.
use cortado.Base.{
  ◌≡◌, refl, true, List, [], ◌∷◌, none, some, ok, All, lookup, insert, pair_eq, nat_eq, option_eq,
}
use cortado.Base.Effects.{each}
use cortado.Addr.{IpAddr, v4, v6, ip_eq, socket_eq}
use cortado.Net.Diff.{Block, diff_cidrs}
use cortado.Config.Samples.{sample}
use cortado.Config.{default_connect_timeout}
use cortado.Reload.{ReloadPlan, Readings, plan_of}
use cortado.Linux.Netlink.{Route, key_of}
use cortado.Linux.Gateways.{RouteManager, gateway_for, host_prefix, read_gateway}
use cortado.Linux.RouteManager
use cortado.Linux.RouteManager.{
  protect_proxy, add_bypass, add_via_gateway, add_via_tun, install_routes, del_bypass, del_route,
  reload_applied, teardown,
}
use cortado.Linux.Install.{removed}
use cortado.Linux.Owned.{All-Among, FreeOf}
use cortado.Linux.Lifetime.{FitsAll, apply-reload-teardown}
use cortado.Linux.Plans.{plan_of-Fits}
use cortado.Linux.Tests.{kernel, kernel-IsNetlink, resolver, before, after, applied_ok}

abbrev reading : IpAddr → List Block → Readings
reading ip bypass = record {
  bypass = bypass;
  address = record { ip = ip; port = 1080 };
  dns = some (v4 0x01010101);
  proxy = record {
    addr = record { ip = ip; port = 1080 };
    username = sample.username;
    password = sample.password;
    connect_timeout = default_connect_timeout;
    tcp_nodelay = true;
  };
}

abbrev plan : ReloadPlan
plan =
    plan_of sample sample (reading (v4 0x0a000001) ((v4 0xc0a80000, 16) ∷ (v6 1, 128) ∷ []))
      (reading (v4 0x0a000002) ((v4 0xac100000, 12) ∷ (v6 1, 128) ∷ []))

abbrev moved : RouteManager
moved = record after.manager { proxy_ip = v4 0x0a000002 }

abbrev reblocked : RouteManager
reblocked = record moved { bypass = (v4 0xac100000, 12) ∷ (v6 1, 128) ∷ [] }

free_of :
    (rs : List Route)
    → All (λ r. lookup (key_of r) before.kernel ≡ none) rs
    → FreeOf rs (λ k. lookup k before.kernel)
free_of rs free r inside = All-Among (λ s. lookup (key_of s) before.kernel ≡ none) r rs free inside

fits :
    FitsAll kernel kernel-IsNetlink resolver (λ k. lookup k before.kernel) (plan ∷ []) after.manager
unfolding RouteManager.apply install_routes read_gateway protect_proxy add_bypass add_via_gateway
    add_via_tun each gateway_for host_prefix plan_of diff_cidrs lookup
fits = (
  plan_of-Fits kernel kernel-IsNetlink resolver (λ k. lookup k before.kernel) sample sample
      (reading (v4 0x0a000001) ((v4 0xc0a80000, 16) ∷ (v6 1, 128) ∷ []))
      (reading (v4 0x0a000002) ((v4 0xac100000, 12) ∷ (v6 1, 128) ∷ [])) after.manager refl refl
      (free_of (removed moved) (refl, (refl, (refl, (refl, (refl, (refl, tt)))))))
      (free_of (removed reblocked) (refl, (refl, (refl, (refl, (refl, (refl, tt))))))),
  tt,
)

free_at_start : FreeOf (removed after.manager) (λ k. lookup k before.kernel)
unfolding RouteManager.apply install_routes read_gateway protect_proxy add_bypass add_via_gateway
    add_via_tun each gateway_for host_prefix lookup
free_at_start = free_of (removed after.manager) (refl, (refl, (refl, (refl, (refl, (refl, tt))))))

reloaded_ok : (each (RouteManager.reload kernel resolver) (plan ∷ []) after).0 ≡ ok tt
unfolding RouteManager.apply install_routes read_gateway protect_proxy add_bypass add_via_gateway
    add_via_tun each gateway_for host_prefix plan_of diff_cidrs RouteManager.reload reload_applied
    del_bypass del_route lookup insert
reloaded_ok = refl

apply-reload-teardown_example :
    lookup
      (v4 0, 0)
      (teardown kernel resolver
        (each (RouteManager.reload kernel resolver) (plan ∷ []) after).1).1.kernel
    ≡ lookup (v4 0, 0) before.kernel
apply-reload-teardown_example =
    apply-reload-teardown kernel kernel-IsNetlink resolver (plan ∷ []) before applied_ok
      free_at_start fits reloaded_ok (v4 0, 0)
