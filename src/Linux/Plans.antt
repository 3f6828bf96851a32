-- ===== src/Linux/Plans.antt =====
-- src/reload.rs with src/platform/linux/route.rs: a computed plan fits a route manager that is in step
-- with the old configuration.
use cortado.Base.{
  ◌≡◌, refl, sym, subst, inl, inr, List, arith, contains, contains-filter, Bool-cases, nat_eq,
  pair_eq, ◌==◌,
}
use cortado.Addr.{ip_eq}
use cortado.Net.Diff.{Block, diff_cidrs, absent_from}
use cortado.Config.{Config}
use cortado.Reload.{Readings, plan_of}
use cortado.Linux.Netlink.{Netlink, IsNetlink}
use cortado.Linux.Gateways.{RouteManager}
use cortado.Platform.{Resolver}
use cortado.Linux.Table.{Table}
use cortado.Linux.Install.{removed}
use cortado.Linux.Owned.{FreeOf}
use cortado.Linux.Reloaded.{Describes, with_bypass}
use cortado.Linux.Followed.{Fits, MovesFrom, proxy_after}

module _ (nl : Netlink) (laws : IsNetlink nl) (dns : Resolver) (base : Table) where
  plan_of-Describes :
      (old latest : Config) (r s : Readings)
      → Describes nl laws dns base (plan_of old latest r s) r.bypass
  unfolding plan_of diff_cidrs
  plan_of-Describes old latest r s = record {
    kept = λ b h.
        let gone = contains-filter (absent_from s.bypass) r.bypass b in
        elim (Bool-cases (contains s.bypass b)) [
          | inl there ↦ inr there
          | inr absent ↦ inl (ground arith)
        ];
    were = λ b h. let gone = contains-filter (absent_from s.bypass) r.bypass b in ground arith;
    added = λ b h. let new = contains-filter (absent_from r.bypass) s.bypass b in ground arith;
  }

  plan_of-moves :
      (old latest : Config) (r s : Readings) (m : RouteManager)
      → m.proxy_ip ≡ r.address.ip
      → MovesFrom nl laws dns base (plan_of old latest r s).proxy_route_change m
  unfolding plan_of
  plan_of-moves old latest r s m e = elim (Bool-cases (r.address.ip == s.address.ip)) [
    | inl same ↦ inl (rw same refl)
    | inr other ↦ inr (s.address.ip, rw (other, e) refl)
  ]

  -- A plan that `compute` makes fits every route manager whose proxy and bypass blocks are those of the
  -- old configuration, where the routes it comes to are free.
  pub plan_of-Fits :
      (old latest : Config) (r s : Readings) (m : RouteManager)
      → m.proxy_ip ≡ r.address.ip
      → m.bypass ≡ r.bypass
      → FreeOf (removed (proxy_after (plan_of old latest r s).proxy_route_change m)) base
      → FreeOf
          (removed (
            with_bypass
              (plan_of old latest r s).new_bypass
              (proxy_after (plan_of old latest r s).proxy_route_change m)))
          base
      → Fits nl laws dns base (plan_of old latest r s) m
  plan_of-Fits old latest r s m proxy blocks free_moved free_after = record {
    moves = plan_of-moves old latest r s m proxy;
    describes =
        subst (λ (bs : List Block). Describes nl laws dns base (plan_of old latest r s) bs)
          (sym blocks) (plan_of-Describes old latest r s);
    free_moved = free_moved;
    free_after = free_after;
  }
