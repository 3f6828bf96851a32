-- ===== src/Macos/Routes.antt =====
-- src/platform/macos/route.rs: `MacosRoutes`. The program `route` is a parameter, and std's printing
-- and parsing of addresses; the resolver override is one too. What is only logged is left out.
use cortado.Base.{
  ℕ, Bool, true, false, ◌&&◌, ◌||◌, List, [], ◌∷◌, ◌++◌, Option, none, some, Bytes, codes, ok,
  is_some, if◌then◌else◌,
}
use cortado.Base.Effects.{◌>>◌, skip, each, fail}
use cortado.Addr.{IpAddr, v4, v6, is_ipv4, is_ipv6}
use cortado.Net.Diff.{Block}
use cortado.Reload.{ReloadPlan}
use cortado.Text.Decimal.{to_string}
use cortado.Text.Split.{lines, trim, strip_prefix}
use cortado.Platform.{Resolver}
use cortado.Platform.Commands.{
  Commands, Routing, Machine, M, no_gateway, add_route, delete_quietly, with_manager, when,
  apply_dns, reload_dns, restore_dns,
}

abbrev pub v4_split : List Bytes
v4_split = codes "0.0.0.0/1" ∷ codes "128.0.0.0/1" ∷ []

abbrev pub v6_split : List Bytes
v6_split = codes "::/1" ∷ codes "8000::/1" ∷ []

unfoldable pub host_prefix : IpAddr → ℕ
host_prefix addr = if is_ipv4 addr then 32 else 128

abbrev pub host_block : IpAddr → Block
host_block addr = (addr, host_prefix addr)

-- The program, for the routes that `route add` and `route delete` are given.
abbrev pub route_tool : Bytes
route_tool = codes "/sbin/route"

abbrev pub routing : Commands → Routing
routing c = record {
  State = c.State;
  add = λ r. c.status (route_tool ∷ codes "add" ∷ r);
  delete = λ r. c.status (route_tool ∷ codes "delete" ∷ r);
  held = c.held;
  same = c.same;
}

-- The fields of `MacosRoutes` but the resolver override.
pub record MacosRoutes : Type 0 where
  pub proxy_ip : IpAddr
  pub tun_name : Bytes
  pub bypass : List Block
  pub capture_ipv6 : Bool
  pub v4_gateway : Option IpAddr
  pub v6_gateway : Option IpAddr
  pub dns_server : Option IpAddr
  pub applied : Bool

abbrev pub new : IpAddr → Bytes → List Block → Bool → Option IpAddr → MacosRoutes
new proxy_ip tun_name bypass capture_ipv6 dns_server = record {
  proxy_ip = proxy_ip;
  tun_name = tun_name;
  bypass = bypass;
  capture_ipv6 = capture_ipv6;
  v4_gateway = none;
  v6_gateway = none;
  dns_server = dns_server;
  applied = false;
}

abbrev pub gateway_of : Option IpAddr → Option IpAddr → IpAddr → Option IpAddr
gateway_of v4_gateway v6_gateway (v4 a) = v4_gateway
gateway_of v4_gateway v6_gateway (v6 a) = v6_gateway

unfoldable pub gateway_for : MacosRoutes → IpAddr → Option IpAddr
gateway_for m addr = gateway_of m.v4_gateway m.v6_gateway addr

abbrev pub captures_v6 : MacosRoutes → Bool
captures_v6 m = m.capture_ipv6 && (is_some m.v6_gateway || is_ipv6 m.proxy_ip)

abbrev pub family : IpAddr → Bytes
family addr = if is_ipv4 addr then codes "-inet" else codes "-inet6"

module _ (parse_ip : Bytes → Option IpAddr) where
  abbrev pub or_later : Option IpAddr → Option IpAddr → Option IpAddr
  or_later (some ip) later = some ip
  or_later none later = later

  abbrev pub gateway_on : Option Bytes → Option IpAddr
  gateway_on none = none
  gateway_on (some gw) = parse_ip (trim gw)

  abbrev pub first_gateway : List Bytes → Option IpAddr
  first_gateway [] = none
  first_gateway (l ∷ ls) =
      or_later (gateway_on (strip_prefix (codes "gateway:") (trim l))) (first_gateway ls)

  abbrev pub gateway_printed : Option Bytes → Option IpAddr
  gateway_printed none = none
  gateway_printed (some text) = first_gateway (lines text)

  unfoldable pub default_gateway : (c : Commands) → Bytes → c.State → Option IpAddr
  default_gateway c inet s =
      gateway_printed
        (c.output (route_tool ∷ codes "-n" ∷ codes "get" ∷ inet ∷ codes "default" ∷ []) s)

-- The arguments that name a route into the tunnel.
unfoldable pub via_tun : Bytes → Bytes → Bytes → List Bytes
via_tun tun inet net = inet ∷ codes "-net" ∷ net ∷ codes "-interface" ∷ tun ∷ []

module _ (show_ip : IpAddr → Bytes) where
  abbrev pub show_block : Block → Bytes
  show_block (dst, prefix) = show_ip dst ++ (codes "/" ++ to_string prefix)

  -- The arguments that name a route by way of a gateway.
  unfoldable pub via_gateway : Block → IpAddr → List Bytes
  via_gateway block gw = family block.0 ∷ codes "-net" ∷ show_block block ∷ show_ip gw ∷ []

module _ (c : Commands) (dns : Resolver) (parse_ip : Bytes → Option IpAddr)
    (show_ip : IpAddr → Bytes) where
  abbrev pub Step : Type 0
  Step = M (routing c) dns MacosRoutes

  abbrev pub Host : Type 0
  Host = Machine (routing c) dns MacosRoutes

  abbrev pub set : (MacosRoutes → MacosRoutes) → Step
  set = with_manager (routing c) dns MacosRoutes

  unfoldable pub add_host_via_gateway : Block → IpAddr → Step
  add_host_via_gateway block gw =
      add_route (routing c) dns MacosRoutes (via_gateway show_ip block gw)

  abbrev pub add_found : Block → Option IpAddr → Step
  add_found block none = skip
  add_found block (some gw) = add_host_via_gateway block gw

  unfoldable pub add_bypass : Block → Step
  add_bypass block m = add_found block (gateway_for m.manager block.0) m

  abbrev pub delete_found : Block → Option IpAddr → Step
  delete_found block none = skip
  delete_found block (some gw) =
      delete_quietly (routing c) dns MacosRoutes (via_gateway show_ip block gw)

  unfoldable pub delete_bypass : Block → Step
  delete_bypass block m = delete_found block (gateway_for m.manager block.0) m

  unfoldable pub add_split : Bytes → Bytes → Step
  add_split inet net m =
      add_route (routing c) dns MacosRoutes (via_tun m.manager.tun_name inet net) m

  unfoldable pub delete_split : Bytes → Bytes → Step
  delete_split inet net m =
      delete_quietly (routing c) dns MacosRoutes (via_tun m.manager.tun_name inet net) m

  abbrev pub pin_via : IpAddr → Option IpAddr → Step
  pin_via addr none = fail no_gateway
  pin_via addr (some gw) = add_host_via_gateway (host_block addr) gw

  unfoldable pub pin_proxy : IpAddr → Step
  pin_proxy addr m = pin_via addr (gateway_for m.manager addr) m

  abbrev pub read_gateways : Step
  read_gateways m =
      set
        (λ r. record r {
          v4_gateway = default_gateway parse_ip c (codes "-inet") m.system;
          v6_gateway = default_gateway parse_ip c (codes "-inet6") m.system;
        })
        m

  unfoldable pub install_routes : Step
  install_routes = do
    (λ m. pin_proxy m.manager.proxy_ip m)
    (λ m. each add_bypass m.manager.bypass m)
    each (add_split (codes "-inet")) v4_split
    (λ m.
        when (routing c) dns MacosRoutes (captures_v6 m.manager)
          (each (add_split (codes "-inet6")) v6_split) m)

  unfoldable pub apply : Step
  apply = do
    read_gateways
    install_routes
    (λ m. apply_dns (routing c) dns MacosRoutes m.manager.dns_server m)
    set (λ r. record r { applied = true })

  abbrev pub move_proxy : Option (IpAddr × IpAddr) → Step
  move_proxy none = skip
  move_proxy (some (old_ip, new_ip)) = do
    delete_bypass (host_block old_ip)
    pin_proxy new_ip
    set (λ r. record r { proxy_ip = new_ip })

  abbrev pub move_dns : Bool → Option IpAddr → Step
  move_dns false server = skip
  move_dns true server = do
    reload_dns (routing c) dns MacosRoutes server
    set (λ r. record r { dns_server = server })

  unfoldable pub reload_applied : ReloadPlan → Step
  reload_applied plan = do
    move_proxy plan.proxy_route_change
    each delete_bypass plan.bypass_remove
    each add_bypass plan.bypass_add
    set (λ r. record r { bypass = plan.new_bypass })
    move_dns plan.dns_changed plan.dns

  unfoldable pub reload : ReloadPlan → Step
  reload plan m = if m.manager.applied then reload_applied plan m else (ok tt, m)

  unfoldable pub remove_routes : Step
  remove_routes = do
    (λ m. delete_bypass (host_block m.manager.proxy_ip) m)
    (λ m. each delete_bypass m.manager.bypass m)
    each (delete_split (codes "-inet")) v4_split
    (λ m.
        when (routing c) dns MacosRoutes m.manager.capture_ipv6
          (each (delete_split (codes "-inet6")) v6_split) m)

  unfoldable pub teardown : Step
  teardown m =
      if m.manager.applied
      then (set (λ r. record r { applied = false })
            >> (remove_routes >> restore_dns (routing c) dns MacosRoutes))
          m
      else (ok tt, m)
