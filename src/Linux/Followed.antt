-- ===== src/Linux/Followed.antt =====
-- src/platform/linux/route.rs: `apply`, any reloads that succeed, and `teardown`.
use cortado.Base.{
  ◌≡◌, refl, sym, ap, ap₂, subst, ◌∙◌, ◌⊎◌, inl, inr, Bool, true, false, List, Option, none, some,
  Result, ok, arith, nat_eq, pair_eq,
}
use cortado.Base.Effects.{◌>>◌, >>=-ok, each, continue-eq-ok}
use cortado.Addr.{IpAddr, ip_eq}
use cortado.Net.Diff.{Block}
use cortado.Reload.{ReloadPlan}
use cortado.Linux.Netlink.{Route, Netlink, IsNetlink}
use cortado.Linux.Gateways.{RouteManager, RouteError, gateway_for}
use cortado.Linux.RouteManager.{
  Machine, add_bypass, del_bypass, with_manager, move_proxy, move_dns, reload_applied, reload,
}
use cortado.Platform.{Resolver}
use cortado.Linux.Table.{Table}
use cortado.Linux.Install.{Installs, Adds-each, add_bypass-Adds, hop_route, for_all, removed}
use cortado.Linux.Remove.{Drops-each, del_bypass-Drops}
use cortado.Linux.Owned.{FreeOf, Owned}
use cortado.Linux.Reloaded.{with_bypass, Owns, Describes, moved_host, deleted-Owned, added-Owned}

abbrev pub proxy_after : Option (IpAddr × IpAddr) → RouteManager → RouteManager
proxy_after none r = r
proxy_after (some (old_ip, new_ip)) r = record r { proxy_ip = new_ip }

abbrev pub dns_after : Bool → Option IpAddr → RouteManager → RouteManager
dns_after false server r = r
dns_after true server r = record r { dns_server = server }

-- The manager that has followed a plan.
abbrev pub followed : ReloadPlan → RouteManager → RouteManager
followed plan r =
    dns_after plan.dns_changed plan.dns
      (with_bypass plan.new_bypass (proxy_after plan.proxy_route_change r))

bypass-proxy_after :
    (change : Option (IpAddr × IpAddr)) (r : RouteManager)
    → (proxy_after change r).bypass ≡ r.bypass
bypass-proxy_after none r = refl
bypass-proxy_after (some (old_ip, new_ip)) r = refl

pub applied-followed :
    (plan : ReloadPlan) (r : RouteManager) → (followed plan r).applied ≡ r.applied
applied-followed plan r = still plan.dns_changed plan.proxy_route_change
  where
    still :
        (changed : Bool) (change : Option (IpAddr × IpAddr))
        → (dns_after changed plan.dns (with_bypass plan.new_bypass (proxy_after change r))).applied
          ≡ r.applied
    still true none = refl
    still true (some (old_ip, new_ip)) = refl
    still false none = refl
    still false (some (old_ip, new_ip)) = refl

pub removed-dns_after :
    (changed : Bool) (server : Option IpAddr) (r : RouteManager)
    → removed (dns_after changed server r) ≡ removed r
unfolding gateway_for
removed-dns_after false server r = refl
removed-dns_after true server r = refl

module _ (nl : Netlink) (laws : IsNetlink nl) (dns : Resolver) (base : Table) where
  -- Only the resolver is called.
  dns_moved :
      (changed : Bool) (server : Option IpAddr) (m : Machine nl dns) (b : Bool) (s : dns.State)
      → dns.reload server m.resolver ≡ (b, s)
      → (move_dns nl dns changed server m).0 ≡ ok tt
      → let n = (move_dns nl dns changed server m).1 in
        (n.manager ≡ dns_after changed server m.manager) × (n.kernel ≡ m.kernel)
  dns_moved false server m b s e h = (refl, refl)
  dns_moved true server m true s e h = rw e (refl, refl)
  dns_moved true server m false s e h = let failed = rw e at h in absurd (ground arith)

  blocks_moved :
      (plan : ReloadPlan) (m : Machine nl dns)
      → Describes nl laws dns base plan m.manager.bypass
      → FreeOf (removed m.manager) base
      → FreeOf (removed (with_bypass plan.new_bypass m.manager)) base
      → Owns nl laws dns base m
      → let step =
          each (del_bypass nl dns) plan.bypass_remove
          >> (each (add_bypass nl dns) plan.bypass_add
              >> (with_manager nl dns (λ r. record r { bypass = plan.new_bypass })
                  >> move_dns nl dns plan.dns_changed plan.dns)) in
        (step m).0 ≡ ok tt
        → ((step m).1.manager
            ≡ dns_after plan.dns_changed plan.dns (with_bypass plan.new_bypass m.manager))
          × Owns nl laws dns base (step m).1
  blocks_moved plan m d free free' owns h =
      let set =
        with_manager nl dns (λ r. record r { bypass = plan.new_bypass })
        >> move_dns nl dns plan.dns_changed plan.dns in
      let rest = each (add_bypass nl dns) plan.bypass_add >> set in
      let (done, drops) =
        Drops-each nl laws dns (del_bypass nl dns) hop_route (del_bypass-Drops nl laws dns)
          plan.bypass_remove m in
      let n1 = (each (del_bypass nl dns) plan.bypass_remove m).1 in
      let step1 : (each (del_bypass nl dns) plan.bypass_remove >> rest) m ≡ rest n1 =
        >>=-ok (each (del_bypass nl dns) plan.bypass_remove) (λ _. rest) m tt done in
      let h1 = ap (λ (c : Result RouteError (Unit {0}) × Machine nl dns). c.0) (sym step1) ∙ h in
      let adding = each (add_bypass nl dns) plan.bypass_add n1 in
      let (_, added, step2) = continue-eq-ok adding.0 adding.1 (λ _. set) tt h1 in
      let n2 = adding.1 in
      let installs : Installs nl laws dns (for_all hop_route plan.bypass_add m.manager) n1 n2 =
        subst (λ r. Installs nl laws dns (for_all hop_route plan.bypass_add r) n1 n2)
          drops.manager_kept
          (Adds-each nl laws dns (add_bypass nl dns) hop_route (add_bypass-Adds nl laws dns)
            plan.bypass_add n1 added) in
      let owned =
        added-Owned nl laws dns base plan m.manager n1 n2 d installs free'
          (deleted-Owned nl laws dns base plan m n1 d drops free owns) in
      let n3 : Machine nl dns = record n2 {
        manager = record n2.manager { bypass = plan.new_bypass };
      } in
      let w = dns.reload plan.dns n3.resolver in
      let h2 = ap (λ (c : Result RouteError (Unit {0}) × Machine nl dns). c.0) (sym step2) ∙ h1 in
      let (managed, kernel) = dns_moved plan.dns_changed plan.dns n3 w.0 w.1 refl h2 in
      let same : n3.manager ≡ with_bypass plan.new_bypass m.manager =
        ap (with_bypass plan.new_bypass) (installs.manager_kept ∙ drops.manager_kept) in
      let manager = managed ∙ ap (dns_after plan.dns_changed plan.dns) same in
      let n4 = (move_dns nl dns plan.dns_changed plan.dns n3).1 in
      let routes : removed n4.manager ≡ removed (with_bypass plan.new_bypass m.manager) =
        ap removed manager
        ∙ removed-dns_after plan.dns_changed plan.dns (with_bypass plan.new_bypass m.manager) in
      subst
        (λ (c : Result RouteError (Unit {0}) × Machine nl dns).
          (c.1.manager
            ≡ dns_after plan.dns_changed plan.dns (with_bypass plan.new_bypass m.manager))
          × Owns nl laws dns base c.1)
        (sym (step1 ∙ step2))
        (
          manager,
          subst (λ (p : List Route × nl.State). Owned base p.0 (nl.via p.1))
              (sym (ap₂ (λ a b. (a, b)) routes kernel)) owned,
        )

  -- Where the plan moves the proxy, it moves it from where the manager has it.
  abbrev pub MovesFrom : Option (IpAddr × IpAddr) → RouteManager → Type 0
  MovesFrom change r = (change ≡ none) ⊎ ((latest : IpAddr) × (change ≡ some (r.proxy_ip, latest)))

  proxy_moved :
      (change : Option (IpAddr × IpAddr)) (m : Machine nl dns)
      → MovesFrom change m.manager
      → (move_proxy nl dns change m).0 ≡ ok tt
      → FreeOf (removed m.manager) base
      → FreeOf (removed (proxy_after change m.manager)) base
      → Owns nl laws dns base m
      → let n = (move_proxy nl dns change m).1 in
        (n.manager ≡ proxy_after change m.manager) × Owns nl laws dns base n
  proxy_moved change m (inl none_moved) h free free' owns =
      subst
        (λ c.
          (move_proxy nl dns c m).0 ≡ ok tt
          → FreeOf (removed (proxy_after c m.manager)) base
          → ((move_proxy nl dns c m).1.manager ≡ proxy_after c m.manager)
            × Owns nl laws dns base (move_proxy nl dns c m).1)
        (sym none_moved) (λ h f. (refl, owns)) h free'
  proxy_moved change m (inr (latest, moved)) h free free' owns =
      subst
        (λ c.
          (move_proxy nl dns c m).0 ≡ ok tt
          → FreeOf (removed (proxy_after c m.manager)) base
          → ((move_proxy nl dns c m).1.manager ≡ proxy_after c m.manager)
            × Owns nl laws dns base (move_proxy nl dns c m).1)
        (sym moved) (λ h f. moved_host nl laws dns base latest m h free f owns) h free'

  -- What a plan has to say of a manager, and that the routes it comes to are free in the base.
  pub record Fits (plan : ReloadPlan) (r : RouteManager) : Type 0 where
    pub moves : MovesFrom plan.proxy_route_change r
    pub describes : Describes nl laws dns base plan r.bypass
    pub free_moved : FreeOf (removed (proxy_after plan.proxy_route_change r)) base
    pub free_after :
        FreeOf (removed (with_bypass plan.new_bypass (proxy_after plan.proxy_route_change r))) base

  -- A reload that succeeds leaves the manager that has followed the plan, and its routes.
  pub reload-Owns :
      (plan : ReloadPlan) (m : Machine nl dns)
      → m.manager.applied ≡ true
      → Fits plan m.manager
      → FreeOf (removed m.manager) base
      → (reload nl dns plan m).0 ≡ ok tt
      → Owns nl laws dns base m
      → ((reload nl dns plan m).1.manager ≡ followed plan m.manager)
        × Owns nl laws dns base (reload nl dns plan m).1
  unfolding reload reload_applied
  reload-Owns plan m on fits free h owns =
      let on_top : reload nl dns plan m ≡ reload_applied nl dns plan m = rw on refl in
      let h' = ap (λ (c : Result RouteError (Unit {0}) × Machine nl dns). c.0) (sym on_top) ∙ h in
      let change = plan.proxy_route_change in
      let moving = move_proxy nl dns change m in
      let (_, moved, step) = continue-eq-ok moving.0 moving.1 _ tt h' in
      let (manager, owns1) = proxy_moved change m fits.moves moved free fits.free_moved owns in
      let h1 = ap (λ (c : Result RouteError (Unit {0}) × Machine nl dns). c.0) (sym step) ∙ h' in
      let (managed, owns2) =
        blocks_moved plan moving.1
          (subst (λ (bs : List Block). Describes nl laws dns base plan bs)
            (sym
              (ap (λ (r : RouteManager). r.bypass) manager ∙ bypass-proxy_after change m.manager))
            fits.describes)
          (subst (λ r. FreeOf (removed r) base) (sym manager) fits.free_moved)
          (subst (λ r. FreeOf (removed (with_bypass plan.new_bypass r)) base) (sym manager)
            fits.free_after)
          owns1 h1 in
      let same =
        managed
        ∙ ap (λ r. dns_after plan.dns_changed plan.dns (with_bypass plan.new_bypass r)) manager in
      subst
        (λ (c : Result RouteError (Unit {0}) × Machine nl dns).
          (c.1.manager ≡ followed plan m.manager) × Owns nl laws dns base c.1)
        (sym (on_top ∙ step)) (same, owns2)
