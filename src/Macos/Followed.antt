-- ===== src/Macos/Followed.antt =====
-- src/platform/macos/route.rs with src/reload.rs: the reloads of one configuration after another.
use cortado.Base.{
  ◌≡◌, refl, sym, ap, subst, ◌∙◌, inl, inr, Bool, true, false, List, [], ◌∷◌, Option, none, some,
  Bytes, Result, Bool-cases, ◌==◌, ==_iff, nat_eq, pair_eq,
}
use cortado.Base.Effects.{◌>>◌, skip}
use cortado.Addr.{IpAddr, ip_eq}
use cortado.Config.{Config}
use cortado.Reload.{Readings, plan_of}
use cortado.Platform.{Resolver}
use cortado.Platform.Commands.{Commands, IsRouting, M, ControlError}
use cortado.Platform.Within.{then-Triple, Within}
use cortado.Platform.Plans.{Describes, plan_of-Describes, plan_of-moves}
use cortado.Macos.Routes.{MacosRoutes, routing, move_dns, reload_applied, reload}
use cortado.Macos.Installed.{removed, Host}
use cortado.Macos.Reloaded.{
  proxy_after, dns_after, with_bypass, followed, Under, Steps, move_proxy-Steps, move_bypass-Steps,
  move_dns-Steps,
}

module _ (c : Commands) (dns : Resolver) (parse_ip : Bytes → Option IpAddr)
    (show_ip : IpAddr → Bytes) where
  -- The reloads from one configuration to the next ones.
  unfoldable pub reloads :
      Config → Readings → List (Config × Readings) → M (routing c) dns MacosRoutes
  reloads old r [] = skip
  reloads old r ((latest, s) ∷ rest) =
      reload c dns parse_ip show_ip (plan_of old latest r s) >> reloads latest s rest

module _ (c : Commands) (laws : IsRouting (routing c)) (dns : Resolver)
    (parse_ip : Bytes → Option IpAddr) (show_ip : IpAddr → Bytes) (base : List Bytes → Bool) where
  abbrev Host_ : Type 0
  Host_ = Host c laws dns parse_ip show_ip

  abbrev Under_ : MacosRoutes → Host_ → Type 0
  Under_ r = Under c laws dns parse_ip show_ip base r (removed show_ip r)

  -- The manager is in step with a configuration.
  pub record InStep (r : Readings) (m : MacosRoutes) : Type 0 where
    pub bypass : m.bypass ≡ r.bypass
    pub proxy : m.proxy_ip ≡ r.address.ip
    pub applied : m.applied ≡ true

  dns_after-InStep :
      (changed : Bool) (server : Option IpAddr) (r : Readings) (m : MacosRoutes)
      → InStep r m
      → InStep r (dns_after changed server m)
  dns_after-InStep false server r m h = h
  dns_after-InStep true server r m h = record {
    bypass = h.bypass;
    proxy = h.proxy;
    applied = h.applied;
  }

  followed-InStep :
      (old latest : Config) (r s : Readings) (m : MacosRoutes)
      → InStep r m
      → InStep s (followed (plan_of old latest r s) m)
  unfolding plan_of
  followed-InStep old latest r s m h =
      dns_after-InStep (plan_of old latest r s).dns_changed s.dns s _
        (elim (Bool-cases (r.address.ip == s.address.ip)) [
          | inl same ↦ rw same (record {
            bypass = refl;
            proxy = h.proxy ∙ (==_iff r.address.ip s.address.ip).0 same;
            applied = h.applied;
          })
          | inr other ↦ rw other (record { bypass = refl; proxy = refl; applied = h.applied })
        ])

  bypass-proxy_after :
      (change : Option (IpAddr × IpAddr)) (m : MacosRoutes)
      → (proxy_after change m).bypass ≡ m.bypass
  bypass-proxy_after none m = refl
  bypass-proxy_after (some (old_ip, new_ip)) m = refl

  reload_applied-Steps :
      (old latest : Config) (r s : Readings) (m : MacosRoutes)
      → InStep r m
      → Steps c laws dns parse_ip show_ip base
          (Under_ m)
          (reload_applied c dns parse_ip show_ip (plan_of old latest r s))
          (Under_ (followed (plan_of old latest r s) m))
  unfolding reload_applied
  reload_applied-Steps old latest r s m h =
      let plan = plan_of old latest r s in
      let moved = proxy_after plan.proxy_route_change m in
      let blocks =
        subst (λ l. Describes plan.bypass_remove plan.bypass_add l plan.new_bypass)
          (sym (bypass-proxy_after plan.proxy_route_change m ∙ h.bypass))
          (plan_of-Describes old latest r s) in
      then-Triple (routing c) laws dns MacosRoutes _ (Under_ moved) (Under_ (followed plan m)) _ _
        (move_proxy-Steps c laws dns parse_ip show_ip base plan.proxy_route_change m
          (plan_of-moves old latest r s m.proxy_ip h.proxy))
        (move_bypass-Steps c laws dns parse_ip show_ip base plan.bypass_remove plan.bypass_add
          plan.new_bypass moved (move_dns c dns parse_ip show_ip plan.dns_changed plan.dns)
          (Under_ (followed plan m)) blocks
          (move_dns-Steps c laws dns parse_ip show_ip base plan.dns_changed plan.dns
            (with_bypass plan.new_bypass moved)))

  -- The routes of the table are those to delete and those of before, and the manager is applied.
  abbrev pub Owned : Host_ → Type 0
  Owned o =
      (o.manager.applied ≡ true)
      × Within (routing c) laws dns MacosRoutes base (removed show_ip o.manager) o.system

  pub reloads-Owned :
      (old : Config) (r : Readings) (later : List (Config × Readings)) (m : MacosRoutes)
      → InStep r m
      → Steps c laws dns parse_ip show_ip base
          (Under_ m)
          (reloads c dns parse_ip show_ip old r later)
          Owned
  unfolding reloads reload
  reloads-Owned old r [] m h o (same, w) ok_ = (
    ap (λ (x : MacosRoutes). x.applied) same ∙ h.applied,
    subst (λ x. Within (routing c) laws dns MacosRoutes base (removed show_ip x) o.system)
        (sym same) w,
  )
  reloads-Owned old r ((latest, s) ∷ rest) m h o (same, w) ok_ =
      let plan = plan_of old latest r s in
      let on : o.manager.applied ≡ true = ap (λ (x : MacosRoutes). x.applied) same ∙ h.applied in
      then-Triple (routing c) laws dns MacosRoutes (λ x. Under_ m x × (x.manager.applied ≡ true))
        (Under_ (followed plan m)) Owned (reload c dns parse_ip show_ip plan)
        (reloads c dns parse_ip show_ip latest s rest)
        (λ x (at, yes_) step.
          let whole : reload c dns parse_ip show_ip plan x
              ≡ reload_applied c dns parse_ip show_ip plan x =
            rw yes_ refl in
          subst (λ (z : Result ControlError (Unit {0}) × Host_). Under_ (followed plan m) z.1)
            (sym whole)
            (reload_applied-Steps old latest r s m h x at
              (ap (λ (z : Result ControlError (Unit {0}) × Host_). z.0) (sym whole) ∙ step)))
        (reloads-Owned latest s rest (followed plan m) (followed-InStep old latest r s m h)) o
        ((same, w), on) ok_
