-- ===== src/Linux/Reloaded.antt =====
-- src/platform/linux/route.rs: `reload` of an applied manager moves the owned routes to those of the
-- new plan.
use cortado.Base.{
  ◌≡◌, sym, ap, subst, ◌∙◌, ◌⊎◌, inl, inr, true, List, ◌++◌, some, Result, ok, contains, nat_eq,
  pair_eq,
}
use cortado.Base.Effects.{◌>>◌, >>=-ok, continue-eq-ok}
use cortado.Addr.{IpAddr, ip_eq}
use cortado.Net.Diff.{Block}
use cortado.Reload.{ReloadPlan}
use cortado.Linux.Netlink.{Route, Netlink, IsNetlink}
use cortado.Linux.Gateways.{RouteManager, RouteError, gateway_for, host_block, v4_split, v6_split}
use cortado.Linux.RouteManager.{Machine, del_bypass, protect_proxy, with_manager, move_proxy}
use cortado.Platform.{Resolver}
use cortado.Linux.Table.{Table}
use cortado.Linux.Install.{
  Installs, protect_proxy-Adds, hop_route, for_all, tun_route, only_when, removed,
}
use cortado.Linux.Remove.{Removes, del_bypass-Drops}
use cortado.Linux.Owned.{
  Among, Among-append, Among-left, Among-right, FreeOf, Owned, Owned-sub, Owned-installed,
  Owned-removed, block_of, of_block,
}

-- The manager with other bypass blocks.
abbrev pub with_bypass : List Block → RouteManager → RouteManager
with_bypass blocks r = record r { bypass = blocks }

-- The routes but the one of the proxy.
abbrev later_routes : RouteManager → List Route
later_routes r =
    for_all hop_route r.bypass r
    ++ (for_all tun_route v4_split r ++ only_when r.capture_ipv6 (for_all tun_route v6_split r))

module _ (nl : Netlink) (laws : IsNetlink nl) (dns : Resolver) (base : Table) where
  abbrev pub Owns : Machine nl dns → Type 0
  Owns m = Owned base (removed m.manager) (nl.via m.kernel)

  -- The host route moves from the proxy's address to another.
  pub moved_host :
      (latest : IpAddr) (m : Machine nl dns)
      → (move_proxy nl dns (some (m.manager.proxy_ip, latest)) m).0 ≡ ok tt
      → FreeOf (removed m.manager) base
      → FreeOf (removed (record m.manager { proxy_ip = latest })) base
      → Owns m
      → let n = (move_proxy nl dns (some (m.manager.proxy_ip, latest)) m).1 in
        (n.manager ≡ record m.manager { proxy_ip = latest }) × Owns n
  unfolding gateway_for
  moved_host latest m h free free' owns =
      let old = host_block m.manager.proxy_ip in
      let fresh = host_block latest in
      let rest =
        protect_proxy nl dns latest >> with_manager nl dns (λ r. record r { proxy_ip = latest }) in
      let (done, drops) = del_bypass-Drops nl laws dns old m in
      let n1 = (del_bypass nl dns old m).1 in
      let step1 : move_proxy nl dns (some (m.manager.proxy_ip, latest)) m ≡ rest n1 =
        >>=-ok (del_bypass nl dns old) (λ _. rest) m tt done in
      let h1 = ap (λ (c : Result RouteError (Unit {0}) × Machine nl dns). c.0) (sym step1) ∙ h in
      let (_, added, step2) =
        continue-eq-ok (protect_proxy nl dns latest n1).0 (protect_proxy nl dns latest n1).1 _ tt
          h1 in
      let n2 = (protect_proxy nl dns latest n1).1 in
      let installs : Installs nl laws dns (hop_route fresh m.manager) n1 n2 =
        subst (λ r. Installs nl laws dns (hop_route fresh r) n1 n2) drops.manager_kept
          (protect_proxy-Adds nl laws dns latest n1 added) in
      let left = later_routes m.manager in
      let owned1 : Owned base left (nl.via n1.kernel) =
        Owned-removed base (removed m.manager) (hop_route old m.manager) left (nl.via m.kernel)
          (nl.via n1.kernel) drops.shrinks drops.untouched drops.gone
          (λ r inside. free r (Among-left r (hop_route old m.manager) left inside))
          (λ r inside. Among-append r (hop_route old m.manager) left inside) owns in
      let owned2 : Owned base (hop_route fresh m.manager ++ left) (nl.via n2.kernel) =
        Owned-installed base left (hop_route fresh m.manager) (nl.via n1.kernel) (nl.via n2.kernel)
          installs.table
          (λ r inside. free' r (Among-left r (hop_route fresh m.manager) left inside)) owned1 in
      let same : record n2.manager { proxy_ip = latest } ≡ record m.manager { proxy_ip = latest } =
        ap (λ (r : RouteManager). record r { proxy_ip = latest })
          (installs.manager_kept ∙ drops.manager_kept) in
      subst
        (λ (c : Result RouteError (Unit {0}) × Machine nl dns).
          (c.1.manager ≡ record m.manager { proxy_ip = latest }) × Owns c.1)
        (sym (step1 ∙ step2))
        (same, subst (λ r. Owned base (removed r) (nl.via n2.kernel)) (sym same) owned2)

  -- What `diff_cidrs` promises of the blocks to remove and to add.
  pub record Describes (plan : ReloadPlan) (blocks : List Block) : Type 0 where
    pub kept :
        (b : Block)
        → contains blocks b ≡ true
        → (contains plan.bypass_remove b ≡ true) ⊎ (contains plan.new_bypass b ≡ true)
    pub were : (b : Block) → contains plan.bypass_remove b ≡ true → contains blocks b ≡ true
    pub added : (b : Block) → contains plan.bypass_add b ≡ true → contains plan.new_bypass b ≡ true

  -- The deletions leave the routes of the latest blocks.
  pub deleted-Owned :
      (plan : ReloadPlan) (m n : Machine nl dns)
      → Describes plan m.manager.bypass
      → Removes nl laws dns (for_all hop_route plan.bypass_remove m.manager) m n
      → FreeOf (removed m.manager) base
      → Owns m
      → Owned base (removed (with_bypass plan.new_bypass m.manager)) (nl.via n.kernel)
  unfolding gateway_for
  deleted-Owned plan m n d drops free owns =
      let r0 = m.manager in
      let hop = λ (b : Block). hop_route b r0 in
      let host = hop_route (host_block r0.proxy_ip) r0 in
      let splits =
        for_all tun_route v4_split r0
        ++ only_when r0.capture_ipv6 (for_all tun_route v6_split r0) in
      let gone = for_all hop_route plan.bypass_remove r0 in
      let blocks = for_all hop_route r0.bypass r0 in
      let latest = for_all hop_route plan.new_bypass r0 in
      let were : (r : Route) → Among r gone → Among r (removed r0) = λ r inside.
        let (b, listed, found) = block_of hop plan.bypass_remove r inside in
        Among-right r host (blocks ++ splits)
          (Among-left r blocks splits (of_block hop r0.bypass b r (d.were b listed) found)) in
      let split : (r : Route)
          → Among r (removed r0)
          → Among r gone ⊎ Among r (host ++ (latest ++ splits)) =
        λ r inside. elim (Among-append r host (blocks ++ splits) inside) [
          | inl of_host ↦ inr (Among-left r host (latest ++ splits) of_host)
          | inr other ↦ elim (Among-append r blocks splits other) [
            | inr of_split ↦
                inr (Among-right r host (latest ++ splits) (Among-right r latest splits of_split))
            | inl of_blocks ↦
                let (b, listed, found) = block_of hop r0.bypass r of_blocks in
                elim (d.kept b listed) [
                  | inl taken ↦ inl (of_block hop plan.bypass_remove b r taken found)
                  | inr kept ↦ inr (
                      Among-right r host (latest ++ splits)
                        (Among-left r latest splits (of_block hop plan.new_bypass b r kept found)))
                ]
          ]
        ] in
      Owned-removed base (removed r0) gone (host ++ (latest ++ splits)) (nl.via m.kernel)
        (nl.via n.kernel) drops.shrinks drops.untouched drops.gone
        (λ r inside. free r (were r inside)) split owns

  -- The additions are among the routes of the latest blocks.
  pub added-Owned :
      (plan : ReloadPlan) (r0 : RouteManager) (m n : Machine nl dns)
      → Describes plan r0.bypass
      → Installs nl laws dns (for_all hop_route plan.bypass_add r0) m n
      → FreeOf (removed (with_bypass plan.new_bypass r0)) base
      → Owned base (removed (with_bypass plan.new_bypass r0)) (nl.via m.kernel)
      → Owned base (removed (with_bypass plan.new_bypass r0)) (nl.via n.kernel)
  unfolding gateway_for
  added-Owned plan r0 m n d installs free owned =
      let hop = λ (b : Block). hop_route b r0 in
      let host = hop_route (host_block r0.proxy_ip) r0 in
      let splits =
        for_all tun_route v4_split r0
        ++ only_when r0.capture_ipv6 (for_all tun_route v6_split r0) in
      let fresh = for_all hop_route plan.bypass_add r0 in
      let latest = for_all hop_route plan.new_bypass r0 in
      let target = host ++ (latest ++ splits) in
      let within : (r : Route) → Among r fresh → Among r target = λ r inside.
        let (b, listed, found) = block_of hop plan.bypass_add r inside in
        Among-right r host (latest ++ splits) (
          Among-left r latest splits (of_block hop plan.new_bypass b r (d.added b listed) found)) in
      Owned-sub base (fresh ++ target) target (nl.via n.kernel)
        (λ r inside. elim (Among-append r fresh target inside) [
          | inl new ↦ within r new
          | inr old ↦ old
        ])
        (Owned-installed base target fresh (nl.via m.kernel) (nl.via n.kernel) installs.table
          (λ r inside. free r (within r inside)) owned)
