-- ===== src/Windows/Teardown.antt =====
-- src/platform/windows/route.rs with src/reload.rs: no route outlives `teardown`.
use cortado.Base.{
  ℕ, ◌≡◌, refl, sym, subst, Bool, true, false, List, [], Option, Bytes, Result, ok, arith,
}
use cortado.Base.Effects.{◌>>◌, >>=-ok}
use cortado.Addr.{IpAddr}
use cortado.Config.{Config}
use cortado.Reload.{Readings}
use cortado.Platform.{Resolver}
use cortado.Platform.Commands.{Commands, IsRouting, ControlError, apply_dns}
use cortado.Platform.Within.{then-Triple, Within, apply_dns-Triple, set-Triple}
use cortado.Windows.Routes.{
  WindowsRoutes, routing, set, read_gateway, install_routes, apply, remove_routes, teardown,
  default_gateway,
}
use cortado.Windows.Installed.{removed, Host, remove_routes-Deleting}
use cortado.Windows.Steps.{Under, install_routes-Steps}
use cortado.Windows.Reloaded.{reloads, Owned, reloads-Owned}

module _ (c : Commands) (laws : IsRouting (routing c)) (dns : Resolver)
    (parse_ip : Bytes → Option IpAddr) (parse_ipv4 : Bytes → Option ℕ)
    (show_ip : IpAddr → Bytes) where
  abbrev Host_ : Type 0
  Host_ = Host c laws dns parse_ip parse_ipv4 show_ip

  -- The manager after `apply`.
  abbrev pub applied_to : Host_ → WindowsRoutes
  applied_to m = record m.manager { gateway = default_gateway parse_ip c m.system; applied = true }

  applied-Under :
      (base : List Bytes → Bool) (m : Host_)
      → Within (routing c) laws dns WindowsRoutes base [] m.system
      → (apply c dns parse_ip parse_ipv4 show_ip m).0 ≡ ok tt
      → Under c laws dns parse_ip parse_ipv4 show_ip base
          (applied_to m)
          (removed parse_ipv4 show_ip (applied_to m))
          (apply c dns parse_ip parse_ipv4 show_ip m).1
  unfolding apply removed
  applied-Under base m w h =
      let n = (read_gateway c dns parse_ip parse_ipv4 show_ip m).1 in
      let all = removed parse_ipv4 show_ip n.manager in
      let Und = Under c laws dns parse_ip parse_ipv4 show_ip base in
      then-Triple (routing c) laws dns WindowsRoutes (Und n.manager []) (Und n.manager all)
        (Und (applied_to m) all) (install_routes c dns parse_ip parse_ipv4 show_ip) _
        (install_routes-Steps c laws dns parse_ip parse_ipv4 show_ip base n.manager)
        (then-Triple (routing c) laws dns WindowsRoutes (Und n.manager all) (Und n.manager all)
          (Und (applied_to m) all)
          (λ o. apply_dns (routing c) dns WindowsRoutes o.manager.dns_server o)
          (set c dns parse_ip parse_ipv4 show_ip (λ r. record r { applied = true }))
          (apply_dns-Triple (routing c) laws dns WindowsRoutes base n.manager all
            (λ o. o.manager.dns_server))
          (set-Triple (routing c) laws dns WindowsRoutes base n.manager all
            (λ r. record r { applied = true })))
        n (refl, w) h

  torn_down :
      (base : List Bytes → Bool) (m : Host_)
      → Owned c laws dns parse_ip parse_ipv4 show_ip base m
      → (q : List Bytes) → c.held q (teardown c dns parse_ip parse_ipv4 show_ip m).1.system ≡ true
      → base q ≡ true
  unfolding teardown removed
  torn_down base m (on, w) q =
      let n : Host_ = record m { manager = record m.manager { applied = false } } in
      let o = (remove_routes c dns parse_ip parse_ipv4 show_ip n).1 in
      let (done, d) = remove_routes-Deleting c laws dns parse_ip parse_ipv4 show_ip n in
      let whole : teardown c dns parse_ip parse_ipv4 show_ip m
          ≡ (ok tt, record o { resolver = dns.restore o.resolver }) =
        rw on (>>=-ok (remove_routes c dns parse_ip parse_ipv4 show_ip) _ n tt done) in
      subst
        (λ (x : Result ControlError (Unit {0}) × Host_). c.held q x.1.system ≡ true → base q ≡ true)
        (sym whole)
        (λ there.
          let (apart, before) = d.gone q there in
          let known = w q before in ground (arith, apart, known))

  -- If `netsh` does as documented and the manager has the proxy and the bypass blocks of the
  -- configuration, then after `apply`, the reloads of any later configurations, and `teardown`,
  -- where none of them fails, the routing table has no route that it did not have before `apply`,
  -- whether or not the routes that are added quietly could be added.
  pub teardown-reloads-apply :
      (cfg : Config) (r : Readings) (later : List (Config × Readings)) (m : Host_)
      → m.manager.bypass ≡ r.bypass
      → m.manager.proxy_ip ≡ r.address.ip
      → let session =
          apply c dns parse_ip parse_ipv4 show_ip
          >> (reloads c dns parse_ip parse_ipv4 show_ip cfg r later
              >> teardown c dns parse_ip parse_ipv4 show_ip) in
        (session m).0 ≡ ok tt
        → (q : List Bytes) → c.held q (session m).1.system ≡ true
        → c.held q m.system ≡ true
  teardown-reloads-apply cfg r later m bypass proxy done =
      let base : List Bytes → Bool = λ q. c.held q m.system in
      let Left : Host_ → Type 0 =
        λ n. (q : List Bytes) → c.held q n.system ≡ true → base q ≡ true in
      let At_ : Host_ → Type 0 =
        Under c laws dns parse_ip parse_ipv4 show_ip base (applied_to m)
          (removed parse_ipv4 show_ip (applied_to m)) in
      then-Triple (routing c) laws dns WindowsRoutes (λ x. x ≡ m) At_ Left
        (apply c dns parse_ip parse_ipv4 show_ip)
        (reloads c dns parse_ip parse_ipv4 show_ip cfg r later
          >> teardown c dns parse_ip parse_ipv4 show_ip)
        (λ x e.
          subst
            (λ y.
              (apply c dns parse_ip parse_ipv4 show_ip y).0 ≡ ok tt
              → At_ (apply c dns parse_ip parse_ipv4 show_ip y).1)
            (sym e) (applied-Under base m (λ q h. h)))
        (then-Triple (routing c) laws dns WindowsRoutes At_
          (Owned c laws dns parse_ip parse_ipv4 show_ip base) Left
          (reloads c dns parse_ip parse_ipv4 show_ip cfg r later)
          (teardown c dns parse_ip parse_ipv4 show_ip)
          (reloads-Owned c laws dns parse_ip parse_ipv4 show_ip base cfg r later (applied_to m)
            (record { bypass = bypass; proxy = proxy; applied = refl }))
          (λ z owned _. torn_down base z owned))
        m refl done
