-- ===== src/Linux/Lifetime.antt =====
-- src/platform/linux/route.rs: `apply`, any reloads that succeed, and `teardown`.
use cortado.Base.{
  ℕ, ◌≡◌, refl, sym, ap, subst, ◌∙◌, inl, inr, true, List, [], ◌∷◌, ◌++◌, Result, ok,
}
use cortado.Base.Effects.{each, continue-eq-ok}
use cortado.Addr.{IpAddr}
use cortado.Reload.{ReloadPlan}
use cortado.Linux.Netlink.{Route, Netlink, IsNetlink}
use cortado.Linux.Gateways.{RouteManager, RouteError}
use cortado.Linux.RouteManager.{Machine, reload, apply, teardown}
use cortado.Platform.{Resolver}
use cortado.Linux.Table.{Table}
use cortado.Linux.Install.{removed, wanted}
use cortado.Linux.Apply.{Applied, apply-Applied}
use cortado.Linux.Teardown.{TornDown, teardown-TornDown, wanted-removed}
use cortado.Linux.Owned.{
  Among, Among-append, All-Among, All-Among-self, FreeOf, Owned-sub, Owned-installed, Owned-removed,
}
use cortado.Linux.Reloaded.{Owns}
use cortado.Linux.Followed.{followed, removed-dns_after, applied-followed, Fits, reload-Owns}

wanted-Among : (r : RouteManager) (s : Route) → Among s (wanted r) → Among s (removed r)
wanted-Among r s inside =
    All-Among (λ t. Among t (removed r)) s (wanted r)
      (wanted-removed (λ t. Among t (removed r)) r (All-Among-self (removed r))) inside

module _ (nl : Netlink) (laws : IsNetlink nl) (dns : Resolver) (base : Table) where
  Applied-Owned :
      (m n : Machine nl dns)
      → Applied nl laws dns m n
      → nl.via m.kernel ≡ base
      → FreeOf (removed n.manager) base
      → Owns nl laws dns base n
  Applied-Owned m n applied start free =
      Owned-sub base (wanted n.manager ++ []) (removed n.manager) (nl.via n.kernel)
        (λ r inside. elim (Among-append r (wanted n.manager) [] inside) [
          | inl installed ↦ wanted-Among n.manager r installed
          | inr none_other ↦ absurd none_other
        ])
        (Owned-installed base [] (wanted n.manager) (nl.via m.kernel) (nl.via n.kernel)
          applied.table (λ r inside. free r (wanted-Among n.manager r inside))
          (λ k. inl (ap (λ (t : Table). t k) start)))

  TornDown-Owned :
      (m n : Machine nl dns)
      → TornDown nl laws dns m n
      → FreeOf (removed m.manager) base
      → Owns nl laws dns base m
      → (k : IpAddr × ℕ) → nl.via n.kernel k ≡ base k
  TornDown-Owned m n torn free owns k =
      let left =
        Owned-removed base (removed m.manager) (removed m.manager) [] (nl.via m.kernel)
          (nl.via n.kernel) torn.shrinks torn.untouched torn.gone free (λ r inside. inl inside)
          owns in
      elim (left k) [ inl same ↦ same | inr (_, inside, _, _, _) ↦ absurd inside ]

  -- That each plan fits the manager that has followed the plans before it.
  abbrev pub FitsAll : List ReloadPlan → RouteManager → Type 0
  FitsAll [] r = Unit
  FitsAll (p ∷ ps) r = Fits nl laws dns base p r × FitsAll ps (followed p r)

  record Held (m : Machine nl dns) : Type 0 where
    on : m.manager.applied ≡ true
    free : FreeOf (removed m.manager) base
    owns : Owns nl laws dns base m

  reloads-Held :
      (plans : List ReloadPlan) (m : Machine nl dns)
      → Held m
      → FitsAll plans m.manager
      → (each (reload nl dns) plans m).0 ≡ ok tt
      → Held (each (reload nl dns) plans m).1
  unfolding each
  reloads-Held [] m held fits h = held
  reloads-Held (p ∷ ps) m held (fits, later) h =
      let step = reload nl dns p m in
      let (_, done, rest) = continue-eq-ok step.0 step.1 _ tt h in
      let (manager, owns) =
        reload-Owns nl laws dns base p m held.on fits held.free done held.owns in
      let next : Held step.1 = record {
        on = ap (λ (r : RouteManager). r.applied) manager ∙ applied-followed p m.manager ∙ held.on;
        free =
            subst (λ rs. FreeOf rs base)
              (sym (ap removed manager ∙ removed-dns_after p.dns_changed p.dns _)) fits.free_after;
        owns = owns;
      } in
      let h' = ap (λ (c : Result RouteError (Unit {0}) × Machine nl dns). c.0) (sym rest) ∙ h in
      subst (λ (c : Result RouteError (Unit {0}) × Machine nl dns). Held c.1) (sym rest)
        (reloads-Held ps step.1 next (subst (FitsAll ps) (sym manager) later) h')

module _ (nl : Netlink) (laws : IsNetlink nl) (dns : Resolver) where
  -- Where `apply` and all reloads after it succeed, each plan fits the manager that it finds, and no
  -- route of the manager at any time was shown before, `teardown` brings back the routing table that
  -- was there before `apply`.
  pub apply-reload-teardown :
      (plans : List ReloadPlan) (m : Machine nl dns)
      → (apply nl dns m).0 ≡ ok tt
      → FreeOf (removed (apply nl dns m).1.manager) (nl.via m.kernel)
      → FitsAll nl laws dns (nl.via m.kernel) plans (apply nl dns m).1.manager
      → (each (reload nl dns) plans (apply nl dns m).1).0 ≡ ok tt
      → (k : IpAddr × ℕ)
      → nl.via (teardown nl dns (each (reload nl dns) plans (apply nl dns m).1).1).1.kernel k
        ≡ nl.via m.kernel k
  apply-reload-teardown plans m h free fits reloaded k =
      let base = nl.via m.kernel in
      let n = (apply nl dns m).1 in
      let applied = apply-Applied nl laws dns m h in
      let start : Held nl laws dns base n = record {
        on = ap (λ (r : RouteManager). r.applied) applied.manager;
        free = free;
        owns = Applied-Owned nl laws dns base m n applied refl free;
      } in
      let held = reloads-Held nl laws dns base plans n start fits reloaded in
      let o = (each (reload nl dns) plans n).1 in
      let (_, torn) = teardown-TornDown nl laws dns o held.on in
      TornDown-Owned nl laws dns base o (teardown nl dns o).1 torn held.free held.owns k
