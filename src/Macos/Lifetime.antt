-- ===== src/Macos/Lifetime.antt =====
-- src/platform/macos/route.rs with src/reload.rs: `apply`, the reloads of later configurations, and
-- `teardown`.
use cortado.Base.{
  ◌≡◌, refl, sym, ap, ap₂, subst, ◌∙◌, ◌⊎◌, inl, inr, Bool, true, false, ◌&&◌, ◌||◌, List, Option,
  Bytes, codes, Result, ok, All, any, nat_eq, pair_eq, is_some,
}
use cortado.Base.Effects.{continue-eq-ok}
use cortado.Addr.{IpAddr, ip_eq, is_ipv6}
use cortado.Platform.{Resolver}
use cortado.Platform.Commands.{Commands, IsRouting, ControlError, dns_called}
use cortado.Platform.Added.{for_all, only_when, Adds}
use cortado.Platform.Within.{Among, Among-under}
use cortado.Macos.Routes.{
  MacosRoutes, routing, gateway_for, v4_split, v6_split, read_gateways, install_routes, apply,
  default_gateway,
}
use cortado.Macos.Installed.{half, hop, wanted, removed, Host, install_routes-Adding}

module _ (c : Commands) (laws : IsRouting (routing c)) (dns : Resolver)
    (parse_ip : Bytes → Option IpAddr) (show_ip : IpAddr → Bytes) where
  abbrev Host_ : Type 0
  Host_ = Host c laws dns parse_ip show_ip

  -- What `apply` promises: the manager has the gateways that are found and is applied; the routes
  -- that it wants are in the table with those of before, and no others; the resolver was called.
  pub record Applied (m n : Host_) : Type 0 where
    pub manager : n.manager ≡ record m.manager {
      v4_gateway = default_gateway parse_ip c (codes "-inet") m.system;
      v6_gateway = default_gateway parse_ip c (codes "-inet6") m.system;
      applied = true;
    }
    pub installed : All (λ r. c.held r n.system ≡ true) (wanted show_ip n.manager)
    pub kept : (q : List Bytes) → c.held q m.system ≡ true → c.held q n.system ≡ true
    pub no_more :
        (q : List Bytes)
        → c.held q n.system ≡ true
        → (any (c.same q) (wanted show_ip n.manager) ≡ true) ⊎ (c.held q m.system ≡ true)
    pub resolver : dns.apply m.manager.dns_server m.resolver ≡ (true, n.resolver)

  called-ok :
      (o : Host_) (b : Bool) (s : dns.State)
      → (dns_called (routing c) dns MacosRoutes o (b, s)).0 ≡ ok tt
      → (b ≡ true)
        × (dns_called (routing c) dns MacosRoutes o (b, s) ≡ (ok tt, record o { resolver = s }))
  called-ok o true s h = (refl, refl)
  called-ok o false s h = cc

  finished :
      (m n o : Host_) (call : Bool × dns.State)
      → n ≡ (read_gateways c dns parse_ip show_ip m).1
      → Adds (routing c) laws dns MacosRoutes (wanted show_ip n.manager) n o
      → dns.apply o.manager.dns_server o.resolver ≡ call
      → call.0 ≡ true
      → Applied m (record o { manager = record o.manager { applied = true }; resolver = call.1 })
  unfolding wanted gateway_for
  finished m n o (b, s) start adds called went =
      let same = adds.manager_kept ∙ ap (λ (x : Host_). x.manager) start in
      let names : wanted show_ip n.manager ≡ wanted show_ip (record o.manager { applied = true }) =
        ap (wanted show_ip) (sym adds.manager_kept) in
      let table = ap (λ (x : Host_). x.system) start in
      record {
        manager = ap (λ (r : MacosRoutes). record r { applied = true }) same;
        installed = subst (λ rs. All (λ r. c.held r o.system ≡ true) rs) names adds.installed;
        kept = λ q h. adds.kept q (subst (λ u. c.held q u ≡ true) (sym table) h);
        no_more = λ q h. elim (adds.no_more q h) [
          | inl this ↦ inl (subst (λ rs. any (c.same q) rs ≡ true) names this)
          | inr before ↦ inr (subst (λ u. c.held q u ≡ true) table before)
        ];
        resolver =
            ap₂ (λ (r : MacosRoutes) u. dns.apply r.dns_server u) (sym same)
              (sym (adds.resolver_kept ∙ ap (λ (x : Host_). x.resolver) start))
            ∙ called
            ∙ ap (λ (d : Bool). (d, s)) went;
      }

  -- If `route` does as documented and `apply` succeeds, the manager has the default gateways that
  -- `route` prints and is marked as applied, every wanted route is in the table, which has no other
  -- route that was not there before and has lost none, and the resolver was overridden with the
  -- configured server.
  pub apply_lem :
      (m : Host_)
      → (apply c dns parse_ip show_ip m).0 ≡ ok tt
      → Applied m (apply c dns parse_ip show_ip m).1
  unfolding apply
  apply_lem m h =
      let n = (read_gateways c dns parse_ip show_ip m).1 in
      let o = (install_routes c dns parse_ip show_ip n).1 in
      let call = dns.apply o.manager.dns_server o.resolver in
      let (_, done, after_install) =
        continue-eq-ok (install_routes c dns parse_ip show_ip n).0 o _ tt h in
      let (_, reached, after_call) =
        continue-eq-ok (dns_called (routing c) dns MacosRoutes o call).0
          (dns_called (routing c) dns MacosRoutes o call).1 _ tt (rw after_install at h) in
      let (went, called) = called-ok o call.0 call.1 reached in
      let whole : apply c dns parse_ip show_ip m
          ≡ (ok tt, record o { manager = record o.manager { applied = true }; resolver = call.1 }) =
        after_install
        ∙ after_call
        ∙ ap
            (λ (x : Result ControlError (Unit {0}) × Host_).
              (ok tt, record x.1 { manager = record x.1.manager { applied = true } }))
            called in
      subst (λ (x : Result ControlError (Unit {0}) × Host_). Applied m x.1) (sym whole)
        (finished m n o call refl (install_routes-Adding c laws dns parse_ip show_ip n done) refl
          went)

  only_when-Among :
      (b d : Bool) (rs : List (List Bytes))
      → Among (routing c) laws dns MacosRoutes (only_when (b && d) rs) (only_when b rs)
  only_when-Among true true rs q h = h
  only_when-Among true false rs q h = cc
  only_when-Among false d rs q h = h

  -- What `apply` adds is among what `teardown` deletes.
  pub wanted-Among :
      (r : MacosRoutes)
      → Among (routing c) laws dns MacosRoutes (wanted show_ip r) (removed show_ip r)
  unfolding wanted removed
  wanted-Among r =
      let split = for_all (half show_ip (codes "-inet")) v4_split r in
      let six = for_all (half show_ip (codes "-inet6")) v6_split r in
      let under = Among-under (routing c) laws dns MacosRoutes in
      under (hop show_ip (r.proxy_ip, _) r) _ _ (
        under (for_all (hop show_ip) r.bypass r) _ _ (
          under split _ _
            (only_when-Among r.capture_ipv6 (is_some r.v6_gateway || is_ipv6 r.proxy_ip) six)))
