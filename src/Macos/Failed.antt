-- ===== src/Macos/Failed.antt =====
-- src/platform/macos/route.rs: what `apply` leaves, however it ends.
use cortado.Base.{
  ◌≡◌, refl, ap, ◌∙◌, ◌⊎◌, Bool, true, false, List, [], ◌++◌, Option, none, some, Bytes, codes,
  Result, ok, err, any,
}
use cortado.Base.Effects.{◌>>◌, continue, each}
use cortado.Addr.{IpAddr}
use cortado.Net.Diff.{Block}
use cortado.Platform.{Resolver}
use cortado.Platform.Commands.{Commands, IsRouting, M, ControlError, when, dns_called, apply_dns}
use cortado.Platform.Added.{Names, for_all, only_when}
use cortado.Platform.Grown.{
  Grows, Growing, skip-Growing, stay-Grows, add_route-Grows, then-Growing, each-Growing,
  when-Growing,
}
use cortado.Macos.Routes.{
  MacosRoutes, routing, gateway_for, via_gateway, via_tun, host_block, v4_split, v6_split,
  captures_v6, add_host_via_gateway, add_bypass, add_found, add_split, pin_proxy, pin_via,
  read_gateways, install_routes, set, apply, teardown,
}
use cortado.Macos.Installed.{hop_found, hop, half, wanted, Host}

module _ (c : Commands) (laws : IsRouting (routing c)) (dns : Resolver)
    (parse_ip : Bytes → Option IpAddr) (show_ip : IpAddr → Bytes) where
  abbrev Host_ : Type 0
  Host_ = Host c laws dns parse_ip show_ip

  abbrev Grows_ : List (List Bytes) → Host_ → Host_ → Type 0
  Grows_ = Grows (routing c) laws dns MacosRoutes

  abbrev Growing_ : M (routing c) dns MacosRoutes → Names MacosRoutes → Type 0
  Growing_ = Growing (routing c) laws dns MacosRoutes

  add_bypass-Growing :
      (block : Block) → Growing_ (add_bypass c dns parse_ip show_ip block) (hop show_ip block)
  unfolding add_bypass add_host_via_gateway
  add_bypass-Growing block m = found (gateway_for m.manager block.0)
    where
      found :
          (gw : Option IpAddr)
          → Grows_ (hop_found show_ip block gw) m (add_found c dns parse_ip show_ip block gw m).1
      found none = skip-Growing (routing c) laws dns MacosRoutes m
      found (some gw) =
          add_route-Grows (routing c) laws dns MacosRoutes (via_gateway show_ip block gw) m

  pin_proxy-Growing :
      (addr : IpAddr)
      → Growing_ (pin_proxy c dns parse_ip show_ip addr) (hop show_ip (host_block addr))
  unfolding pin_proxy add_host_via_gateway
  pin_proxy-Growing addr m = found (gateway_for m.manager addr)
    where
      found :
          (gw : Option IpAddr)
          → Grows_
              (hop_found show_ip (host_block addr) gw)
              m
              (pin_via c dns parse_ip show_ip addr gw m).1
      found none = stay-Grows (routing c) laws dns MacosRoutes [] m
      found (some gw) =
          add_route-Grows (routing c) laws dns MacosRoutes
            (via_gateway show_ip (host_block addr) gw) m

  halves-Growing :
      (inet : Bytes) (nets : List Bytes)
      → Growing_
          (each (add_split c dns parse_ip show_ip inet) nets)
          (for_all (half show_ip inet) nets)
  unfolding add_split
  halves-Growing inet nets =
      each-Growing (routing c) laws dns MacosRoutes (add_split c dns parse_ip show_ip inet)
        (half show_ip inet) nets
        (λ net m.
          add_route-Grows (routing c) laws dns MacosRoutes (via_tun m.manager.tun_name inet net) m)

  install_routes-Growing : Growing_ (install_routes c dns parse_ip show_ip) (wanted show_ip)
  unfolding install_routes wanted
  install_routes-Growing =
      let grown = then-Growing (routing c) laws dns MacosRoutes in
      let Step : Type 0 = M (routing c) dns MacosRoutes in
      let first : Step = λ m. pin_proxy c dns parse_ip show_ip m.manager.proxy_ip m in
      let second : Step = λ m. each (add_bypass c dns parse_ip show_ip) m.manager.bypass m in
      let third : Step = each (add_split c dns parse_ip show_ip (codes "-inet")) v4_split in
      let fourth : Step = λ m.
        when (routing c) dns MacosRoutes (captures_v6 m.manager)
          (each (add_split c dns parse_ip show_ip (codes "-inet6")) v6_split) m in
      let host : Names MacosRoutes = λ r. hop show_ip (host_block r.proxy_ip) r in
      let blocks : Names MacosRoutes = λ r. for_all (hop show_ip) r.bypass r in
      let four = for_all (half show_ip (codes "-inet")) v4_split in
      let six : Names MacosRoutes =
        λ r. only_when (captures_v6 r) (for_all (half show_ip (codes "-inet6")) v6_split r) in
      let blocks_grow : Growing_ second blocks = λ m.
        each-Growing (routing c) laws dns MacosRoutes (add_bypass c dns parse_ip show_ip)
          (hop show_ip) m.manager.bypass add_bypass-Growing m in
      let six_grow : Growing_ fourth six = λ m.
        when-Growing (routing c) laws dns MacosRoutes (captures_v6 m.manager)
          (each (add_split c dns parse_ip show_ip (codes "-inet6")) v6_split)
          (for_all (half show_ip (codes "-inet6")) v6_split)
          (halves-Growing (codes "-inet6") v6_split) m in
      grown first (second >> (third >> fourth)) host (λ r. blocks r ++ (four r ++ six r))
        (λ m. pin_proxy-Growing m.manager.proxy_ip m)
        (grown second (third >> fourth) blocks (λ r. four r ++ six r) blocks_grow
          (grown third fourth four six (halves-Growing (codes "-inet") v4_split) six_grow))

  -- The manager once the gateways are read.
  abbrev pub with_gateways : Host_ → MacosRoutes
  with_gateways m = (read_gateways c dns parse_ip show_ip m).1.manager

  -- However it ends: the table has at most the wanted routes more, and where the manager is not marked
  -- as applied, `teardown` does nothing about them.
  pub record Left (m n : Host_) (result : Result ControlError (Unit {0})) : Type 0 where
    pub at_most :
        (q : List Bytes)
        → c.held q n.system ≡ true
        → (any (c.same q) (wanted show_ip (with_gateways m)) ≡ true) ⊎ (c.held q m.system ≡ true)
    pub unmarked :
        (e : ControlError)
        → result ≡ err e
        → m.manager.applied ≡ false
        → (n.manager.applied ≡ false) × (teardown c dns parse_ip show_ip n ≡ (ok tt, n))

  torn_down :
      (n : Host_) → n.manager.applied ≡ false → teardown c dns parse_ip show_ip n ≡ (ok tt, n)
  unfolding teardown
  torn_down n off = rw off refl

  finished :
      (m o : Host_) (b : Bool) (s : dns.State)
      → Grows_ (wanted show_ip (with_gateways m)) (read_gateways c dns parse_ip show_ip m).1 o
      → let step =
          continue
            (dns_called (routing c) dns MacosRoutes o (b, s))
            (λ _. set c dns parse_ip show_ip (λ r. record r { applied = true })) in
        Left m step.1 step.0
  finished m o true s g = record { at_most = g.no_more; unmarked = λ e h off. cc }
  finished m o false s g = record {
    at_most = g.no_more;
    unmarked = λ e h off.
        let still = ap (λ (r : MacosRoutes). r.applied) g.manager_kept ∙ off in
        (still, torn_down _ still);
  }

  installed :
      (m o : Host_) (r : Result ControlError (Unit {0}))
      → Grows_ (wanted show_ip (with_gateways m)) (read_gateways c dns parse_ip show_ip m).1 o
      → let step =
          continue
            (r, o)
            (λ _.
              (λ x. apply_dns (routing c) dns MacosRoutes x.manager.dns_server x)
              >> set c dns parse_ip show_ip (λ r. record r { applied = true })) in
        Left m step.1 step.0
  installed m o (ok u) g =
      finished m o (dns.apply o.manager.dns_server o.resolver).0
        (dns.apply o.manager.dns_server o.resolver).1 g
  installed m o (err e) g = record {
    at_most = g.no_more;
    unmarked = λ why h off.
        let still = ap (λ (r : MacosRoutes). r.applied) g.manager_kept ∙ off in
        (still, torn_down o still);
  }

  -- If `route` does as documented, then whether `apply` succeeds or fails, every route of the table
  -- is a wanted one or was there before; where it fails and the manager was not marked as applied
  -- before, it is not afterwards, so that `teardown` then changes nothing.
  pub apply-Left :
      (m : Host_) → Left m (apply c dns parse_ip show_ip m).1 (apply c dns parse_ip show_ip m).0
  unfolding apply
  apply-Left m =
      let n = (read_gateways c dns parse_ip show_ip m).1 in
      installed m (install_routes c dns parse_ip show_ip n).1
        (install_routes c dns parse_ip show_ip n).0 (install_routes-Growing n)
