-- ===== src/Macos/Teardown.antt =====
-- src/platform/macos/route.rs with src/reload.rs: no route outlives `teardown`.
use cortado.Base.{
  ◌≡◌, refl, sym, ap, subst, ◌∙◌, inl, inr, Bool, true, false, List, Option, Bytes, Result, ok,
  arith, any, nat_eq, pair_eq,
}
use cortado.Base.Effects.{◌>>◌, >>=-ok}
use cortado.Addr.{IpAddr, ip_eq}
use cortado.Config.{Config}
use cortado.Reload.{Readings}
use cortado.Platform.{Resolver}
use cortado.Platform.Commands.{Commands, IsRouting, ControlError}
use cortado.Platform.Within.{then-Triple}
use cortado.Macos.Routes.{MacosRoutes, routing, gateway_for, apply, remove_routes, teardown}
use cortado.Macos.Installed.{removed, Host, remove_routes-Deleting}
use cortado.Macos.Reloaded.{Under}
use cortado.Macos.Lifetime.{apply_lem, wanted-Among}
use cortado.Macos.Followed.{reloads, InStep, Owned, reloads-Owned}

module _ (c : Commands) (laws : IsRouting (routing c)) (dns : Resolver)
    (parse_ip : Bytes → Option IpAddr) (show_ip : IpAddr → Bytes) (base : List Bytes → Bool) where
  abbrev Host_ : Type 0
  Host_ = Host c laws dns parse_ip show_ip

  abbrev Owned_ : Host_ → Type 0
  Owned_ = Owned c laws dns parse_ip show_ip base

  -- `teardown` of an applied manager: it always succeeds, the manager is no longer applied, the
  -- resolver is restored, and only routes of before are left.
  pub record TornDown (m n : Host_) : Type 0 where
    pub manager : n.manager ≡ record m.manager { applied = false }
    pub resolver : n.resolver ≡ dns.restore m.resolver
    pub clean : (q : List Bytes) → c.held q n.system ≡ true → base q ≡ true
    pub spared :
        (q : List Bytes)
        → c.held q m.system ≡ true
        → any (c.same q) (removed show_ip m.manager) ≡ false
        → c.held q n.system ≡ true

  teardown-TornDown :
      (m : Host_)
      → Owned_ m
      → ((teardown c dns parse_ip show_ip m).0 ≡ ok tt)
        × TornDown m (teardown c dns parse_ip show_ip m).1
  unfolding teardown removed gateway_for
  teardown-TornDown m (on, w) =
      let n : Host_ = record m { manager = record m.manager { applied = false } } in
      let o = (remove_routes c dns parse_ip show_ip n).1 in
      let (done, d) = remove_routes-Deleting c laws dns parse_ip show_ip n in
      let whole : teardown c dns parse_ip show_ip m
          ≡ (ok tt, record o { resolver = dns.restore o.resolver }) =
        rw on (>>=-ok (remove_routes c dns parse_ip show_ip) _ n tt done) in
      subst (λ (x : Result ControlError (Unit {0}) × Host_). (x.0 ≡ ok tt) × TornDown m x.1)
        (sym whole)
        (
          refl,
          record {
            manager = d.manager_kept;
            resolver = ap dns.restore d.resolver_kept;
            clean = λ q there.
                let (apart, before) = d.gone q there in
                let known = w q before in ground (arith, apart, known);
            spared = d.spared;
          },
        )

module _ (c : Commands) (laws : IsRouting (routing c)) (dns : Resolver)
    (parse_ip : Bytes → Option IpAddr) (show_ip : IpAddr → Bytes) where
  applied-Owned :
      (r : Readings) (m : Host c laws dns parse_ip show_ip)
      → m.manager.bypass ≡ r.bypass
      → m.manager.proxy_ip ≡ r.address.ip
      → (apply c dns parse_ip show_ip m).0 ≡ ok tt
      → let n = (apply c dns parse_ip show_ip m).1 in
        let base : List Bytes → Bool = λ q. c.held q m.system in
        Under c laws dns parse_ip show_ip base n.manager (removed show_ip n.manager) n
        × InStep c laws dns parse_ip show_ip base r n.manager
  applied-Owned r m bypass proxy h =
      let a = apply_lem c laws dns parse_ip show_ip m h in
      let n = (apply c dns parse_ip show_ip m).1 in
      let inner = wanted-Among c laws dns parse_ip show_ip n.manager in
      (
        (
          refl,
          λ q there. elim (a.no_more q there) [
            | inl this ↦ rw (inner q this) refl
            | inr before ↦ ground (arith, before)
          ],
        ),
        record {
          bypass = ap (λ (x : MacosRoutes). x.bypass) a.manager ∙ bypass;
          proxy = ap (λ (x : MacosRoutes). x.proxy_ip) a.manager ∙ proxy;
          applied = ap (λ (x : MacosRoutes). x.applied) a.manager;
        },
      )

  -- If `route` does as documented and the manager has the proxy and the bypass blocks of the
  -- configuration, then after `apply`, the reloads of any later configurations, and `teardown`,
  -- where none of them fails, the routing table has no route that it did not have before `apply`.
  pub apply-reloads-teardown :
      (cfg : Config) (r : Readings) (later : List (Config × Readings))
      (m : Host c laws dns parse_ip show_ip)
      → m.manager.bypass ≡ r.bypass
      → m.manager.proxy_ip ≡ r.address.ip
      → let session =
          apply c dns parse_ip show_ip
          >> (reloads c dns parse_ip show_ip cfg r later >> teardown c dns parse_ip show_ip) in
        (session m).0 ≡ ok tt
        → (q : List Bytes) → c.held q (session m).1.system ≡ true
        → c.held q m.system ≡ true
  apply-reloads-teardown cfg r later m bypass proxy done =
      let base : List Bytes → Bool = λ q. c.held q m.system in
      let Left : Host c laws dns parse_ip show_ip → Type 0 =
        λ n. (q : List Bytes) → c.held q n.system ≡ true → base q ≡ true in
      let n = (apply c dns parse_ip show_ip m).1 in
      then-Triple (routing c) laws dns MacosRoutes (λ x. x ≡ m)
        (λ x.
          Under c laws dns parse_ip show_ip base n.manager (removed show_ip n.manager) x
          × InStep c laws dns parse_ip show_ip base r n.manager)
        Left (apply c dns parse_ip show_ip)
        (reloads c dns parse_ip show_ip cfg r later >> teardown c dns parse_ip show_ip)
        (λ x e first.
          subst
            (λ y.
              (apply c dns parse_ip show_ip y).0 ≡ ok tt
              → Under c laws dns parse_ip show_ip base n.manager (removed show_ip n.manager)
                  (apply c dns parse_ip show_ip y).1
                × InStep c laws dns parse_ip show_ip base r n.manager)
            (sym e) (applied-Owned r m bypass proxy) first)
        (λ x (at, step) h.
          then-Triple (routing c) laws dns MacosRoutes
            (Under c laws dns parse_ip show_ip base n.manager (removed show_ip n.manager))
            (Owned c laws dns parse_ip show_ip base) Left
            (reloads c dns parse_ip show_ip cfg r later) (teardown c dns parse_ip show_ip)
            (reloads-Owned c laws dns parse_ip show_ip base cfg r later n.manager step)
            (λ z owned _. (teardown-TornDown c laws dns parse_ip show_ip base z owned).1.clean) x at
            h)
        m refl done
