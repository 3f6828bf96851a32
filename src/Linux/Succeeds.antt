-- ===== src/Linux/Succeeds.antt =====
-- src/platform/linux/route.rs: when `apply` succeeds.
use cortado.Base.{
  ℕ, ◌≡◌, refl, sym, ap, subst, Bool, true, false, List, [], ◌∷◌, Option, none, some, Result, ok,
  arith,
}
use cortado.Base.Effects.{◌>>◌, >>=-ok, each}
use cortado.Addr.{IpAddr, v4, v6}
use cortado.Net.Diff.{Block}
use cortado.Linux.Netlink.{Route, Netlink}
use cortado.Linux.Gateways.{
  RouteManager, RouteError, add_failed, gateway_for, gateway_v4, gateway_v6, named_v4, named_v6,
  read_gateway, same_family, host_block, captures_v6, v4_split, v6_split,
}
use cortado.Linux.RouteManager.{
  Machine, M, requested, add_via_gateway, add_via_tun, add_found, add_bypass, protect_proxy, when,
  with_manager, dns_called, read_gateways, install_routes, apply,
}
use cortado.Platform.{Resolver}

named_v4-family :
    (a : ℕ) (o : Option (ℕ × ℕ)) (hop : IpAddr × ℕ)
    → named_v4 o ≡ some hop
    → same_family (v4 a) hop.0 ≡ true
named_v4-family a none hop h = absurd (ground arith)
named_v4-family a (some (g, i)) hop h =
    let same : (v4 g, i) ≡ hop = ground arith in
    subst (λ (j : IpAddr × ℕ). same_family (v4 a) j.0 ≡ true) same refl

named_v6-family :
    (a : ℕ) (o : Option (ℕ × ℕ)) (hop : IpAddr × ℕ)
    → named_v6 o ≡ some hop
    → same_family (v6 a) hop.0 ≡ true
named_v6-family a none hop h = absurd (ground arith)
named_v6-family a (some (g, i)) hop h =
    let same : (v6 g, i) ≡ hop = ground arith in
    subst (λ (j : IpAddr × ℕ). same_family (v6 a) j.0 ≡ true) same refl

-- The gateway that is chosen for an address is of its family.
gateway_for-family :
    (r : RouteManager) (a : IpAddr) (hop : IpAddr × ℕ)
    → gateway_for r a ≡ some hop
    → same_family a hop.0 ≡ true
unfolding gateway_for
gateway_for-family r (v4 a) hop h = named_v4-family a r.v4_gateway hop h
gateway_for-family r (v6 a) hop h = named_v6-family a r.v6_gateway hop h

module _ (nl : Netlink) (dns : Resolver)
    (adds : (r : Route) (s : nl.State) → (nl.add r s).0 ≡ true) where
  abbrev Always : M nl dns (Unit {0}) → Type 0
  Always step = (m : Machine nl dns) → (step m).0 ≡ ok tt

  requested_ok :
      (m : Machine nl dns) (e : RouteError) (b : Bool) (s : nl.State)
      → b ≡ true
      → (requested nl dns m e (b, s)).0 ≡ ok tt
  requested_ok m e true s h = refl
  requested_ok m e false s h = absurd (ground arith)

  add_via_gateway_ok :
      (b : Block) (hop : IpAddr × ℕ)
      → same_family b.0 hop.0 ≡ true
      → Always (add_via_gateway nl dns b hop)
  unfolding add_via_gateway
  add_via_gateway_ok (dst, prefix) (gw, oif) same m =
      let r : Route = record {
        dst = dst;
        prefix = prefix;
        via = record { gateway = some gw; oif = oif };
      } in
      let w = nl.add r m.kernel in rw same (requested_ok m add_failed w.0 w.1 (adds r m.kernel))

  add_via_tun_ok : (b : Block) → Always (add_via_tun nl dns b)
  unfolding add_via_tun
  add_via_tun_ok (dst, prefix) m =
      let r : Route = record {
        dst = dst;
        prefix = prefix;
        via = record { gateway = none; oif = m.manager.tun_index };
      } in
      let w = nl.add r m.kernel in requested_ok m add_failed w.0 w.1 (adds r m.kernel)

  found_ok :
      (b : Block) (o : Option (IpAddr × ℕ)) (m : Machine nl dns)
      → gateway_for m.manager b.0 ≡ o
      → (add_found nl dns b o m).0 ≡ ok tt
  found_ok b none m h = refl
  found_ok b (some hop) m h = add_via_gateway_ok b hop (gateway_for-family m.manager b.0 hop h) m

  add_bypass_ok : (b : Block) → Always (add_bypass nl dns b)
  unfolding add_bypass
  add_bypass_ok b m = found_ok b (gateway_for m.manager b.0) m refl

  -- After a step that succeeds the rest decides.
  then_ok :
      (f g : M nl dns (Unit {0})) (m : Machine nl dns)
      → (f m).0 ≡ ok tt
      → (g (f m).1).0 ≡ ok tt
      → ((f >> g) m).0 ≡ ok tt
  then_ok f g m first second =
      subst (λ (c : Result RouteError (Unit {0}) × Machine nl dns). c.0 ≡ ok tt)
        (sym (>>=-ok f (λ _. g) m tt first)) second

  each_ok :
      (body : Block → M nl dns (Unit {0}))
      → ((b : Block) → Always (body b))
      → (bs : List Block) → Always (each body bs)
  unfolding each
  each_ok body h [] m = refl
  each_ok body h (b ∷ bs) m =
      then_ok (body b) (each body bs) m (h b m) (each_ok body h bs (body b m).1)

  protect_proxy_ok :
      (addr : IpAddr) (hop : IpAddr × ℕ) (m : Machine nl dns)
      → gateway_for m.manager addr ≡ some hop
      → (protect_proxy nl dns addr m).0 ≡ ok tt
  unfolding protect_proxy
  protect_proxy_ok addr hop m h =
      rw h (add_via_gateway_ok (host_block addr) hop (gateway_for-family m.manager addr hop h) m)

  when_ok : (b : Bool) (step : M nl dns (Unit {0})) → Always step → Always (when nl dns b step)
  when_ok true step h m = h m
  when_ok false step h m = refl

  both_ok : (f g : M nl dns (Unit {0})) → Always f → Always g → Always (f >> g)
  both_ok f g a b m = then_ok f g m (a m) (b (f m).1)

  install_routes_ok :
      (hop : IpAddr × ℕ) (m : Machine nl dns)
      → gateway_for m.manager m.manager.proxy_ip ≡ some hop
      → (install_routes nl dns m).0 ≡ ok tt
  unfolding install_routes
  install_routes_ok hop m h =
      let blocks : M nl dns (Unit {0}) = λ m. each (add_bypass nl dns) m.manager.bypass m in
      let halves : M nl dns (Unit {0}) = each (add_via_tun nl dns) v4_split in
      let later : M nl dns (Unit {0}) =
        λ m. when nl dns (captures_v6 m.manager) (each (add_via_tun nl dns) v6_split) m in
      let captured : Always later = λ m.
        when_ok (captures_v6 m.manager) (each (add_via_tun nl dns) v6_split)
          (each_ok (add_via_tun nl dns) add_via_tun_ok v6_split) m in
      let rest : Always (blocks >> (halves >> later)) =
        both_ok blocks (halves >> later)
          (λ m. each_ok (add_bypass nl dns) add_bypass_ok m.manager.bypass m)
          (both_ok halves later (each_ok (add_via_tun nl dns) add_via_tun_ok v4_split) captured) in
      then_ok (λ m. protect_proxy nl dns m.manager.proxy_ip m) (blocks >> (halves >> later)) m
        (protect_proxy_ok m.manager.proxy_ip hop m h)
        (rest (protect_proxy nl dns m.manager.proxy_ip m).1)

  called_ok :
      (m : Machine nl dns) (b : Bool) (s : dns.State)
      → b ≡ true
      → (dns_called nl dns m (b, s)).0 ≡ ok tt
  called_ok m true s h = refl
  called_ok m false s h = absurd (ground arith)

  -- `apply` succeeds if the routing tables can be read, there is a default gateway for the family of the
  -- proxy, no added route is refused and the resolver can be overridden.
  pub apply_total :
      (m : Machine nl dns) (found found_v6 : Option (ℕ × ℕ)) (hop : IpAddr × ℕ)
      → read_gateway gateway_v4 (nl.dump_v4 m.kernel) ≡ ok found
      → read_gateway gateway_v6 (nl.dump_v6 m.kernel) ≡ ok found_v6
      → gateway_for
          (record m.manager { v4_gateway = found; v6_gateway = found_v6 })
          m.manager.proxy_ip
        ≡ some hop
      → ((server : Option IpAddr) (s : dns.State) → (dns.apply server s).0 ≡ true)
      → (apply nl dns m).0 ≡ ok tt
  unfolding apply
  apply_total m found found_v6 hop v4_read v6_read gateway overridden =
      let n : Machine nl dns = record m {
        manager = record m.manager { v4_gateway = found; v6_gateway = found_v6 };
      } in
      let read : read_gateways nl dns m ≡ (ok tt, n) = rw (v4_read) (rw v6_read refl) in
      let call =
        λ (o : Machine nl dns). dns_called nl dns o (dns.apply o.manager.dns_server o.resolver) in
      let rest = call >> with_manager nl dns (λ r. record r { applied = true }) in
      let o = (install_routes nl dns n).1 in
      let w = dns.apply o.manager.dns_server o.resolver in
      then_ok (read_gateways nl dns) (install_routes nl dns >> rest) m
        (ap (λ (c : Result RouteError (Unit {0}) × Machine nl dns). c.0) read)
        (subst
          (λ (c : Result RouteError (Unit {0}) × Machine nl dns).
            ((install_routes nl dns >> rest) c.1).0 ≡ ok tt)
          (sym read)
          (then_ok (install_routes nl dns) rest n (install_routes_ok hop n gateway) (
            then_ok call (with_manager nl dns (λ r. record r { applied = true })) o
              (called_ok o w.0 w.1 (overridden o.manager.dns_server o.resolver)) refl)))
