-- ===== src/Linux/Install.antt =====
-- src/platform/linux/route.rs: the routes that `apply` installs.
use cortado.Base.{
  ℕ, ◌≡◌, refl, sym, ap, subst, ◌∙◌, inl, inr, Bool, true, false, List, [], ◌∷◌, ◌++◌, Option, none,
  some, Result, ok, arith, Bool-cases,
}
use cortado.Base.Effects.{require, ◌>>◌, each, continue, continue-eq-ok}
use cortado.Addr.{IpAddr}
use cortado.Net.Diff.{Block}
use cortado.Linux.Netlink.{Route, Netlink, IsNetlink}
use cortado.Linux.Gateways.{
  RouteManager, RouteError, add_failed, no_gateway, same_family, gateway_for, host_block,
  captures_v6, v4_split, v6_split,
}
use cortado.Linux.RouteManager.{
  Machine, M, requested, add_via_gateway, add_via_tun, add_found, add_bypass, protect_proxy, when,
  install_routes,
}
use cortado.Platform.{Resolver}
use cortado.Linux.Table.{overlay, overlay-append, overlay-cong}

abbrev pub gateway_route : Block → IpAddr × ℕ → Route
gateway_route (dst, prefix) (gw, oif) = record {
  dst = dst;
  prefix = prefix;
  via = record { gateway = some gw; oif = oif };
}

abbrev pub tun_route : Block → RouteManager → List Route
tun_route (dst, prefix) r =
    record { dst = dst; prefix = prefix; via = record { gateway = none; oif = r.tun_index } } ∷ []

abbrev pub routes_found : Block → Option (IpAddr × ℕ) → List Route
routes_found block none = []
routes_found block (some hop) = gateway_route block hop ∷ []

-- A block through the gateway of its family, if there is one.
abbrev pub hop_route : Block → RouteManager → List Route
hop_route block r = routes_found block (gateway_for r block.0)

abbrev pub joined : (Block → List Route) → List Block → List Route
joined f [] = []
joined f (b ∷ bs) = f b ++ joined f bs

abbrev pub for_all : (Block → RouteManager → List Route) → List Block → RouteManager → List Route
for_all f bs r = joined (λ b. f b r) bs

abbrev pub only_when : Bool → List Route → List Route
only_when true rs = rs
only_when false rs = []

-- The host route of the proxy, the bypass blocks whose family has a gateway, and the two halves of
-- each captured family into the TUN device, which win over the default route.
abbrev pub routes : Bool → RouteManager → List Route
routes captured r =
    hop_route (host_block r.proxy_ip) r
    ++ (for_all hop_route r.bypass r
        ++ (for_all tun_route v4_split r ++ only_when captured (for_all tun_route v6_split r)))

-- What `apply` should install, and what `teardown` should remove.
abbrev pub wanted : RouteManager → List Route
wanted r = routes (captures_v6 r) r

abbrev pub removed : RouteManager → List Route
removed r = routes r.capture_ipv6 r

module _ (nl : Netlink) (laws : IsNetlink nl) (dns : Resolver) where
  -- Those routes were added, and nothing else was changed.
  pub record Installs (rs : List Route) (m n : Machine nl dns) : Type 0 where
    pub manager_kept : n.manager ≡ m.manager
    pub resolver_kept : n.resolver ≡ m.resolver
    pub table : (k : IpAddr × ℕ) → nl.via n.kernel k ≡ overlay rs (nl.via m.kernel) k

  -- Where the step succeeds, it adds the routes that are given by the manager.
  abbrev pub Adds : M nl dns (Unit {0}) → (RouteManager → List Route) → Type 0
  Adds step rs = (m : Machine nl dns) → (step m).0 ≡ ok tt → Installs (rs m.manager) m (step m).1

  requested-Installs :
      (r : Route) (m : Machine nl dns) (b : Bool) (s : nl.State)
      → nl.add r m.kernel ≡ (b, s)
      → (requested nl dns m add_failed (b, s)).0 ≡ ok tt
      → Installs (r ∷ []) m (requested nl dns m add_failed (b, s)).1
  requested-Installs r m true s e h = record {
    manager_kept = refl;
    resolver_kept = refl;
    table = λ k. let done = laws.via_added r k m.kernel in ground arith;
  }
  requested-Installs r m false s e h = absurd (ground arith)

  add_via_gateway-Adds :
      (b : Block) (hop : IpAddr × ℕ)
      → Adds (add_via_gateway nl dns b hop) (λ r. gateway_route b hop ∷ [])
  unfolding add_via_gateway
  add_via_gateway-Adds (dst, prefix) (gw, oif) m h = elim (Bool-cases (same_family dst gw)) [
    | inl same ↦
        let r = gateway_route (dst, prefix) (gw, oif) in
        let w = nl.add r m.kernel in rw same (requested-Installs r m w.0 w.1 refl (rw same at h))
    | inr other ↦ absurd (ground arith)
  ]

  add_via_tun-Adds : (b : Block) → Adds (add_via_tun nl dns b) (tun_route b)
  unfolding add_via_tun
  add_via_tun-Adds (dst, prefix) m h =
      let r : Route = record {
        dst = dst;
        prefix = prefix;
        via = record { gateway = none; oif = m.manager.tun_index };
      } in
      let w = nl.add r m.kernel in requested-Installs r m w.0 w.1 refl h

  Installs-none : (m : Machine nl dns) → Installs [] m m
  Installs-none m = record { manager_kept = refl; resolver_kept = refl; table = λ k. refl }

  Installs-append :
      (rs ss : List Route) (m n o : Machine nl dns)
      → Installs rs m n
      → Installs ss n o
      → Installs (rs ++ ss) m o
  Installs-append rs ss m n o a b = record {
    manager_kept = b.manager_kept ∙ a.manager_kept;
    resolver_kept = b.resolver_kept ∙ a.resolver_kept;
    table = λ k.
        b.table k
        ∙ overlay-cong ss (nl.via n.kernel) (overlay rs (nl.via m.kernel)) k a.table
        ∙ sym (overlay-append rs ss (nl.via m.kernel) k);
  }

  Adds-then :
      (f g : M nl dns (Unit {0})) (rs ss : RouteManager → List Route)
      → Adds f rs
      → Adds g ss
      → Adds (f >> g) (λ r. rs r ++ ss r)
  Adds-then f g rs ss a b m h =
      let (_, first, rest) = continue-eq-ok (f m).0 (f m).1 (λ _. g) tt h in
      let n = (f m).1 in
      let one = a m first in
      let two : Installs (ss n.manager) n (g n).1 =
        b n (ap (λ (c : Result RouteError (Unit {0}) × Machine nl dns). c.0) (sym rest) ∙ h) in
      let two' : Installs (ss m.manager) n (g n).1 =
        subst (λ r. Installs (ss r) n (g n).1) one.manager_kept two in
      subst
        (λ (c : Result RouteError (Unit {0}) × Machine nl dns).
          Installs (rs m.manager ++ ss m.manager) m c.1)
        (sym rest) (Installs-append (rs m.manager) (ss m.manager) m n (g n).1 one two')

  Adds-skip : Adds (λ m. (ok tt, m)) (λ r. [])
  Adds-skip m h = Installs-none m

  pub Adds-each :
      (body : Block → M nl dns (Unit {0})) (rs : Block → RouteManager → List Route)
      → ((b : Block) → Adds (body b) (rs b))
      → (bs : List Block) → Adds (each body bs) (for_all rs bs)
  unfolding each
  Adds-each body rs h [] = Adds-skip
  Adds-each body rs h (b ∷ bs) =
      Adds-then (body b) (each body bs) (rs b) (for_all rs bs) (h b) (Adds-each body rs h bs)

  found-Adds :
      (b : Block) (o : Option (IpAddr × ℕ)) → Adds (add_found nl dns b o) (λ r. routes_found b o)
  found-Adds b none = Adds-skip
  found-Adds b (some hop) = add_via_gateway-Adds b hop

  pub add_bypass-Adds : (b : Block) → Adds (add_bypass nl dns b) (hop_route b)
  unfolding add_bypass
  add_bypass-Adds b m h = found-Adds b (gateway_for m.manager b.0) m h

  protected :
      (addr : IpAddr) (m : Machine nl dns) (o : Option (IpAddr × ℕ))
      → (continue (require o no_gateway m) (add_via_gateway nl dns (host_block addr))).0 ≡ ok tt
      → Installs
          (routes_found (host_block addr) o)
          m
          (continue (require o no_gateway m) (add_via_gateway nl dns (host_block addr))).1
  protected addr m none h = absurd (ground arith)
  protected addr m (some hop) h = add_via_gateway-Adds (host_block addr) hop m h

  pub protect_proxy-Adds :
      (addr : IpAddr) → Adds (protect_proxy nl dns addr) (hop_route (host_block addr))
  unfolding protect_proxy
  protect_proxy-Adds addr m h = protected addr m (gateway_for m.manager addr) h

  when-Adds :
      (b : Bool) (step : M nl dns (Unit {0})) (rs : RouteManager → List Route)
      → Adds step rs
      → Adds (when nl dns b step) (λ r. only_when b (rs r))
  when-Adds true step rs h = h
  when-Adds false step rs h = Adds-skip

  pub install_routes-Adds : Adds (install_routes nl dns) wanted
  unfolding install_routes
  install_routes-Adds =
      Adds-then (λ m. protect_proxy nl dns m.manager.proxy_ip m) _
        (λ r. hop_route (host_block r.proxy_ip) r) _
        (λ m h. protect_proxy-Adds m.manager.proxy_ip m h)
        (Adds-then (λ m. each (add_bypass nl dns) m.manager.bypass m) _
          (λ r. for_all hop_route r.bypass r) _
          (λ m h. Adds-each (add_bypass nl dns) hop_route add_bypass-Adds m.manager.bypass m h)
          (Adds-then (each (add_via_tun nl dns) v4_split) _ (for_all tun_route v4_split) _
            (Adds-each (add_via_tun nl dns) tun_route add_via_tun-Adds v4_split)
            (λ m h.
              when-Adds (captures_v6 m.manager) (each (add_via_tun nl dns) v6_split)
                (for_all tun_route v6_split)
                (Adds-each (add_via_tun nl dns) tun_route add_via_tun-Adds v6_split) m h)))
