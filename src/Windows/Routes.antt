-- ===== src/Windows/Routes.antt =====
-- src/platform/windows/route.rs: `WindowsRoutes`. The programs `netsh` and PowerShell are
-- parameters, and std's printing and parsing of addresses; the resolver override is one too. What is
-- only logged is left out.
use cortado.Base.{
  ℕ, zero, suc, ◌+◌, ◌/◌, ◌%◌, Bool, true, false, List, [], ◌∷◌, ◌++◌, Option, none, some, Bytes,
  codes, ok, if◌then◌else◌,
}
use cortado.Base.Effects.{◌>>◌, skip, each}
use cortado.Addr.{IpAddr, is_ipv4}
use cortado.Net.Diff.{Block}
use cortado.Reload.{ReloadPlan}
use cortado.Text.Decimal.{to_string}
use cortado.Text.Split.{trim}
use cortado.Platform.{Resolver}
use cortado.Platform.Commands.{
  Commands, Routing, Machine, M, add_route, add_quietly, delete_quietly, with_manager, when,
  apply_dns, reload_dns, restore_dns,
}

abbrev pub v4_split : List (Bytes × Bytes)
v4_split = (codes "0.0.0.0", codes "128.0.0.0") ∷ (codes "128.0.0.0", codes "128.0.0.0") ∷ []

abbrev pub v6_split : List Bytes
v6_split = codes "::/1" ∷ codes "8000::/1" ∷ []

unfoldable pub host_prefix : IpAddr → ℕ
host_prefix addr = if is_ipv4 addr then 32 else 128

abbrev pub host_block : IpAddr → Block
host_block addr = (addr, host_prefix addr)

-- The arguments for a route that its family, its destination and its next hop name.
abbrev pub route_arguments : Bytes → List Bytes → List Bytes
route_arguments verb [] = codes "netsh" ∷ codes "interface" ∷ verb ∷ codes "route" ∷ []
route_arguments verb (inet ∷ rest) =
    codes "netsh" ∷ codes "interface" ∷ inet ∷ verb ∷ codes "route" ∷ rest

abbrev pub routing : Commands → Routing
routing c = record {
  State = c.State;
  add = λ r. c.status (route_arguments (codes "add") r ++ codes "store=active" ∷ []);
  delete = λ r. c.status (route_arguments (codes "delete") r);
  held = c.held;
  same = c.same;
}

-- The fields of `WindowsRoutes` but the resolver override.
pub record WindowsRoutes : Type 0 where
  pub proxy_ip : IpAddr
  pub interface : Bytes
  pub bypass : List Block
  pub capture_ipv6 : Bool
  pub gateway : Option IpAddr
  pub dns_server : Option IpAddr
  pub applied : Bool

abbrev pub new : IpAddr → Bytes → List Block → Bool → Option IpAddr → WindowsRoutes
new proxy_ip interface bypass capture_ipv6 dns_server = record {
  proxy_ip = proxy_ip;
  interface = interface;
  bypass = bypass;
  capture_ipv6 = capture_ipv6;
  gateway = none;
  dns_server = dns_server;
  applied = false;
}

-- The ones among the binary digits of so many bits.
abbrev pub count_ones : ℕ → ℕ → ℕ
count_ones zero n = 0
count_ones (suc bits) n = n % 2 + count_ones bits (n / 2)

abbrev pub mask_bits : Option ℕ → ℕ
mask_bits none = 1
mask_bits (some m) = count_ones 32 m

unfoldable pub mask_to_prefix : (Bytes → Option ℕ) → Bytes → ℕ
mask_to_prefix parse_ipv4 mask = mask_bits (parse_ipv4 mask)

abbrev pub query : List Bytes
query =
    codes "powershell"
    ∷ codes "-NoProfile"
    ∷ codes "-Command"
    ∷ codes
        "(Get-NetRoute -DestinationPrefix '0.0.0.0/0' | Sort-Object RouteMetric | Select-Object -First 1).NextHop"
    ∷ []

abbrev pub gateway_printed : (Bytes → Option IpAddr) → Option Bytes → Option IpAddr
gateway_printed parse_ip none = none
gateway_printed parse_ip (some text) = parse_ip (trim text)

unfoldable pub default_gateway : (Bytes → Option IpAddr) → (c : Commands) → c.State → Option IpAddr
default_gateway parse_ip c s = gateway_printed parse_ip (c.output query s)

module _ (parse_ipv4 : Bytes → Option ℕ) (show_ip : IpAddr → Bytes) where
  abbrev pub show_block : Block → Bytes
  show_block (dst, prefix) = show_ip dst ++ (codes "/" ++ to_string prefix)

  abbrev pub inet_of : IpAddr → Bytes
  inet_of dst = if is_ipv4 dst then codes "ipv4" else codes "ipv6"

  abbrev pub via_gateway : Bytes → Block → IpAddr → List Bytes
  via_gateway inet block gw = inet ∷ show_block block ∷ (codes "nexthop=" ++ show_ip gw) ∷ []

  -- The names of the routes. The proxy's one is always for ipv4.
  unfoldable pub pinned : IpAddr → IpAddr → List Bytes
  pinned addr gw = via_gateway (codes "ipv4") (host_block addr) gw

  unfoldable pub bypassed : Block → IpAddr → List Bytes
  bypassed block gw = via_gateway (inet_of block.0) block gw

  unfoldable pub half_v4 : Bytes → Bytes × Bytes → List Bytes
  half_v4 interface (net, mask) =
      codes "ipv4"
      ∷ (net ++ (codes "/" ++ to_string (mask_to_prefix parse_ipv4 mask)))
      ∷ (codes "interface=" ++ interface)
      ∷ []

  unfoldable pub half_v6 : Bytes → Bytes → List Bytes
  half_v6 interface net = codes "ipv6" ∷ net ∷ (codes "interface=" ++ interface) ∷ []

module _ (c : Commands) (dns : Resolver) (parse_ip : Bytes → Option IpAddr)
    (parse_ipv4 : Bytes → Option ℕ) (show_ip : IpAddr → Bytes) where
  abbrev pub Step : Type 0
  Step = M (routing c) dns WindowsRoutes

  abbrev pub Host : Type 0
  Host = Machine (routing c) dns WindowsRoutes

  abbrev pub set : (WindowsRoutes → WindowsRoutes) → Step
  set = with_manager (routing c) dns WindowsRoutes

  abbrev pub add : List Bytes → Step
  add = add_route (routing c) dns WindowsRoutes

  abbrev pub try_add : List Bytes → Step
  try_add = add_quietly (routing c) dns WindowsRoutes

  abbrev pub try_delete : List Bytes → Step
  try_delete = delete_quietly (routing c) dns WindowsRoutes

  abbrev pub with_gateway : (IpAddr → Step) → Option IpAddr → Step
  with_gateway f none = skip
  with_gateway f (some gw) = f gw

  unfoldable pub pin_proxy : IpAddr → Step
  pin_proxy addr m =
      with_gateway (λ gw. add (pinned parse_ipv4 show_ip addr gw)) m.manager.gateway m

  unfoldable pub unpin_proxy : IpAddr → Step
  unpin_proxy addr m =
      with_gateway (λ gw. try_delete (pinned parse_ipv4 show_ip addr gw)) m.manager.gateway m

  unfoldable pub add_bypass : Block → Step
  add_bypass block m =
      with_gateway (λ gw. try_add (bypassed parse_ipv4 show_ip block gw)) m.manager.gateway m

  unfoldable pub delete_bypass : Block → Step
  delete_bypass block m =
      with_gateway (λ gw. try_delete (bypassed parse_ipv4 show_ip block gw)) m.manager.gateway m

  unfoldable pub add_split_v4 : Bytes × Bytes → Step
  add_split_v4 half m = add (half_v4 parse_ipv4 show_ip m.manager.interface half) m

  unfoldable pub add_split_v6 : Bytes → Step
  add_split_v6 net m = try_add (half_v6 parse_ipv4 show_ip m.manager.interface net) m

  unfoldable pub delete_split_v4 : Bytes × Bytes → Step
  delete_split_v4 half m = try_delete (half_v4 parse_ipv4 show_ip m.manager.interface half) m

  unfoldable pub delete_split_v6 : Bytes → Step
  delete_split_v6 net m = try_delete (half_v6 parse_ipv4 show_ip m.manager.interface net) m

  abbrev pub read_gateway : Step
  read_gateway m = set (λ r. record r { gateway = default_gateway parse_ip c m.system }) m

  unfoldable pub install_routes : Step
  install_routes = do
    (λ m. pin_proxy m.manager.proxy_ip m)
    (λ m. each add_bypass m.manager.bypass m)
    each add_split_v4 v4_split
    (λ m. when (routing c) dns WindowsRoutes m.manager.capture_ipv6 (each add_split_v6 v6_split) m)

  unfoldable pub apply : Step
  apply = do
    read_gateway
    install_routes
    (λ m. apply_dns (routing c) dns WindowsRoutes m.manager.dns_server m)
    set (λ r. record r { applied = true })

  unfoldable pub move_proxy : Option (IpAddr × IpAddr) → Step
  move_proxy none = skip
  move_proxy (some (old_ip, new_ip)) = do
    unpin_proxy old_ip
    pin_proxy new_ip
    set (λ r. record r { proxy_ip = new_ip })

  unfoldable pub move_dns : Bool → Option IpAddr → Step
  move_dns false server = skip
  move_dns true server = do
    reload_dns (routing c) dns WindowsRoutes server
    set (λ r. record r { dns_server = server })

  unfoldable pub reload_applied : ReloadPlan → Step
  reload_applied plan = do
    move_proxy plan.proxy_route_change
    each delete_bypass plan.bypass_remove
    each add_bypass plan.bypass_add
    set (λ r. record r { bypass = plan.new_bypass })
    move_dns plan.dns_changed plan.dns

  unfoldable pub reload : ReloadPlan → Step
  reload plan m = if m.manager.applied then reload_applied plan m else (ok tt, m)

  unfoldable pub remove_routes : Step
  remove_routes = do
    (λ m. unpin_proxy m.manager.proxy_ip m)
    (λ m. each delete_bypass m.manager.bypass m)
    each delete_split_v4 v4_split
    (λ m.
        when (routing c) dns WindowsRoutes m.manager.capture_ipv6 (each delete_split_v6 v6_split) m)

  unfoldable pub teardown : Step
  teardown m =
      if m.manager.applied
      then (set (λ r. record r { applied = false })
            >> (remove_routes >> restore_dns (routing c) dns WindowsRoutes))
          m
      else (ok tt, m)
