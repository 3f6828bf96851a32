-- ===== src/Windows/Reloaded.antt =====
-- src/platform/windows/route.rs with src/reload.rs: `reload` by computed plans.
use cortado.Base.{
  ℕ, ◌≡◌, refl, sym, ap, subst, ◌∙◌, ◌⊎◌, inl, inr, Bool, true, false, List, [], ◌∷◌, ◌++◌, Option,
  none, some, Bytes, Result, Bool-cases, ◌==◌, ==_iff, nat_eq, pair_eq,
}
use cortado.Base.Effects.{◌>>◌, each, skip}
use cortado.Addr.{IpAddr, ip_eq}
use cortado.Net.Diff.{Block}
use cortado.Config.{Config}
use cortado.Reload.{ReloadPlan, Readings, plan_of}
use cortado.Platform.{Resolver}
use cortado.Platform.Commands.{Commands, IsRouting, M, ControlError}
use cortado.Platform.Added.{for_all}
use cortado.Platform.Deleted.{each-Deleting}
use cortado.Platform.Within.{
  then-Triple, each-Triple, Within, Among-left, Among-right, Adding-Triple, Deleting-Triple,
  set-Triple, reload_dns-Triple,
}
use cortado.Platform.Plans.{Describes, plan_of-Describes, plan_of-moves, regroup, covered}
use cortado.Windows.Routes.{
  WindowsRoutes, routing, set, pin_proxy, unpin_proxy, add_bypass, delete_bypass, move_proxy,
  move_dns, reload_applied, reload,
}
use cortado.Windows.Installed.{
  host, hop, halves, removed, Host, pin_proxy-Adding, unpin_proxy-Deleting, delete_bypass-Deleting,
  add_bypass-Triple,
}
use cortado.Windows.Steps.{proxy_after, dns_after, with_bypass, Under, Steps, hop-Among}

-- The manager that has followed a plan.
abbrev pub followed : ReloadPlan → WindowsRoutes → WindowsRoutes
followed plan r =
    dns_after plan.dns_changed plan.dns
      (with_bypass plan.new_bypass (proxy_after plan.proxy_route_change r))

-- The manager is in step with a configuration.
pub record InStep (r : Readings) (m : WindowsRoutes) : Type 0 where
  pub bypass : m.bypass ≡ r.bypass
  pub proxy : m.proxy_ip ≡ r.address.ip
  pub applied : m.applied ≡ true

dns_after-InStep :
    (changed : Bool) (server : Option IpAddr) (r : Readings) (m : WindowsRoutes)
    → InStep r m
    → InStep r (dns_after changed server m)
dns_after-InStep false server r m h = h
dns_after-InStep true server r m h = record {
  bypass = h.bypass;
  proxy = h.proxy;
  applied = h.applied;
}

followed-InStep :
    (old latest : Config) (r s : Readings) (m : WindowsRoutes)
    → InStep r m
    → InStep s (followed (plan_of old latest r s) m)
unfolding plan_of
followed-InStep old latest r s m h =
    dns_after-InStep (plan_of old latest r s).dns_changed s.dns s _
      (elim (Bool-cases (r.address.ip == s.address.ip)) [
        | inl same ↦ rw same (record {
          bypass = refl;
          proxy = h.proxy ∙ (==_iff r.address.ip s.address.ip).0 same;
          applied = h.applied;
        })
        | inr other ↦ rw other (record { bypass = refl; proxy = refl; applied = h.applied })
      ])

bypass-proxy_after :
    (change : Option (IpAddr × IpAddr)) (m : WindowsRoutes)
    → (proxy_after change m).bypass ≡ m.bypass
bypass-proxy_after none m = refl
bypass-proxy_after (some (old_ip, new_ip)) m = refl

module _ (c : Commands) (dns : Resolver) (parse_ip : Bytes → Option IpAddr)
    (parse_ipv4 : Bytes → Option ℕ) (show_ip : IpAddr → Bytes) where
  -- The reloads from one configuration to the next ones.
  unfoldable pub reloads :
      Config → Readings → List (Config × Readings) → M (routing c) dns WindowsRoutes
  reloads old r [] = skip
  reloads old r ((latest, s) ∷ rest) =
      reload c dns parse_ip parse_ipv4 show_ip (plan_of old latest r s) >> reloads latest s rest

module _ (c : Commands) (laws : IsRouting (routing c)) (dns : Resolver)
    (parse_ip : Bytes → Option IpAddr) (parse_ipv4 : Bytes → Option ℕ) (show_ip : IpAddr → Bytes)
    (base : List Bytes → Bool) where
  abbrev Host_ : Type 0
  Host_ = Host c laws dns parse_ip parse_ipv4 show_ip

  abbrev Under_ : WindowsRoutes → Host_ → Type 0
  Under_ r = Under c laws dns parse_ip parse_ipv4 show_ip base r (removed parse_ipv4 show_ip r)

  abbrev Steps_ : (Host_ → Type 0) → M (routing c) dns WindowsRoutes → (Host_ → Type 0) → Type 0
  Steps_ = Steps c laws dns parse_ip parse_ipv4 show_ip base

  moved_proxy-Steps :
      (new_ip : IpAddr) (r : WindowsRoutes)
      → Steps_
          (Under_ r)
          (move_proxy c dns parse_ip parse_ipv4 show_ip (some (r.proxy_ip, new_ip)))
          (Under_ (record r { proxy_ip = new_ip }))
  unfolding removed move_proxy
  moved_proxy-Steps new_ip r =
      let Und : WindowsRoutes → List (List Bytes) → Host_ → Type 0 =
        Under c laws dns parse_ip parse_ipv4 show_ip base in
      let later = for_all (hop parse_ipv4 show_ip) r.bypass r ++ halves parse_ipv4 show_ip r in
      let fresh = host parse_ipv4 show_ip new_ip r ++ later in
      then-Triple (routing c) laws dns WindowsRoutes _ (Und r later)
        (Und (record r { proxy_ip = new_ip }) fresh) _ _
        (Deleting-Triple (routing c) laws dns WindowsRoutes base r (removed parse_ipv4 show_ip r)
          later (unpin_proxy c dns parse_ip parse_ipv4 show_ip r.proxy_ip)
          (host parse_ipv4 show_ip r.proxy_ip)
          (unpin_proxy-Deleting c laws dns parse_ip parse_ipv4 show_ip r.proxy_ip) (λ q h. h))
        (then-Triple (routing c) laws dns WindowsRoutes _ (Und r fresh)
          (Und (record r { proxy_ip = new_ip }) fresh) _ _
          (Adding-Triple (routing c) laws dns WindowsRoutes base r later fresh
            (pin_proxy c dns parse_ip parse_ipv4 show_ip new_ip) (host parse_ipv4 show_ip new_ip)
            (pin_proxy-Adding c laws dns parse_ip parse_ipv4 show_ip new_ip)
            (Among-left (routing c) laws dns WindowsRoutes (host parse_ipv4 show_ip new_ip r) later)
            (Among-right (routing c) laws dns WindowsRoutes later (host parse_ipv4 show_ip new_ip r)
              later (λ q h. h)))
          (set-Triple (routing c) laws dns WindowsRoutes base r fresh
            (λ o. record o { proxy_ip = new_ip })))

  move_proxy-Steps :
      (change : Option (IpAddr × IpAddr)) (r : WindowsRoutes)
      → (change ≡ none) ⊎ ((new_ip : IpAddr) × (change ≡ some (r.proxy_ip, new_ip)))
      → Steps_
          (Under_ r)
          (move_proxy c dns parse_ip parse_ipv4 show_ip change)
          (Under_ (proxy_after change r))
  unfolding move_proxy
  move_proxy-Steps change r known =
      let Moves : Option (IpAddr × IpAddr) → Type 0 = λ o.
        Steps_ (Under_ r) (move_proxy c dns parse_ip parse_ipv4 show_ip o)
          (Under_ (proxy_after o r)) in
      elim known [
        | inl e ↦ subst Moves (sym e) (λ m at h. at)
        | inr (new_ip, e) ↦ subst Moves (sym e) (moved_proxy-Steps new_ip r)
      ]

  move_bypass-Steps :
      (remove add new : List Block) (r : WindowsRoutes) (next : M (routing c) dns WindowsRoutes)
      (Q : Host_ → Type 0)
      → Describes remove add r.bypass new
      → Steps_ (Under_ (with_bypass new r)) next Q
      → Steps_
          (Under_ r)
          (each (delete_bypass c dns parse_ip parse_ipv4 show_ip) remove
            >> (each (add_bypass c dns parse_ip parse_ipv4 show_ip) add
                >> (set c dns parse_ip parse_ipv4 show_ip (λ o. record o { bypass = new })
                    >> next)))
          Q
  unfolding removed
  move_bypass-Steps remove add new r next Q d goes =
      let Und : WindowsRoutes → List (List Bytes) → Host_ → Type 0 =
        Under c laws dns parse_ip parse_ipv4 show_ip base in
      let front = host parse_ipv4 show_ip r.proxy_ip r in
      let rest = halves parse_ipv4 show_ip r in
      let routes : List Block → List (List Bytes) = λ l. for_all (hop parse_ipv4 show_ip) l r in
      let after = front ++ (routes new ++ rest) in
      then-Triple (routing c) laws dns WindowsRoutes _ (Und r after) Q _ _
        (Deleting-Triple (routing c) laws dns WindowsRoutes base r (removed parse_ipv4 show_ip r)
          after (each (delete_bypass c dns parse_ip parse_ipv4 show_ip) remove)
          (for_all (hop parse_ipv4 show_ip) remove)
          (each-Deleting (routing c) laws dns WindowsRoutes
            (delete_bypass c dns parse_ip parse_ipv4 show_ip) (hop parse_ipv4 show_ip) remove
            (delete_bypass-Deleting c laws dns parse_ip parse_ipv4 show_ip))
          (regroup (routing c) laws dns WindowsRoutes (routes remove) front (routes r.bypass)
            (routes new) rest
            (covered (routing c) laws dns WindowsRoutes (λ b. hop parse_ipv4 show_ip b r) remove add
              r.bypass new d)))
        (then-Triple (routing c) laws dns WindowsRoutes _ (Und r after) Q _ _
          (each-Triple (routing c) laws dns WindowsRoutes (Und r after)
            (add_bypass c dns parse_ip parse_ipv4 show_ip) add
            (λ b there. add_bypass-Triple c laws dns parse_ip parse_ipv4 show_ip base r after b (
              hop-Among c laws dns parse_ip parse_ipv4 show_ip base b new r front rest
                (d.added b there))))
          (then-Triple (routing c) laws dns WindowsRoutes _ (Und (with_bypass new r) after) Q _ _
            (set-Triple (routing c) laws dns WindowsRoutes base r after
              (λ o. record o { bypass = new }))
            goes))

  move_dns-Steps :
      (changed : Bool) (server : Option IpAddr) (r : WindowsRoutes)
      → Steps_
          (Under_ r)
          (move_dns c dns parse_ip parse_ipv4 show_ip changed server)
          (Under_ (dns_after changed server r))
  unfolding removed move_dns
  move_dns-Steps false server r = λ m at h. at
  move_dns-Steps true server r =
      then-Triple (routing c) laws dns WindowsRoutes _ (Under_ r)
        (Under c laws dns parse_ip parse_ipv4 show_ip base (record r { dns_server = server })
          (removed parse_ipv4 show_ip r))
        _ _
        (reload_dns-Triple (routing c) laws dns WindowsRoutes base r (removed parse_ipv4 show_ip r)
          server)
        (set-Triple (routing c) laws dns WindowsRoutes base r (removed parse_ipv4 show_ip r)
          (λ o. record o { dns_server = server }))

  reload_applied-Steps :
      (old latest : Config) (r s : Readings) (m : WindowsRoutes)
      → InStep r m
      → Steps_
          (Under_ m)
          (reload_applied c dns parse_ip parse_ipv4 show_ip (plan_of old latest r s))
          (Under_ (followed (plan_of old latest r s) m))
  unfolding reload_applied
  reload_applied-Steps old latest r s m h =
      let plan = plan_of old latest r s in
      let moved = proxy_after plan.proxy_route_change m in
      let blocks =
        subst (λ l. Describes plan.bypass_remove plan.bypass_add l plan.new_bypass)
          (sym (bypass-proxy_after plan.proxy_route_change m ∙ h.bypass))
          (plan_of-Describes old latest r s) in
      then-Triple (routing c) laws dns WindowsRoutes _ (Under_ moved) (Under_ (followed plan m)) _ _
        (move_proxy-Steps plan.proxy_route_change m
          (plan_of-moves old latest r s m.proxy_ip h.proxy))
        (move_bypass-Steps plan.bypass_remove plan.bypass_add plan.new_bypass moved
          (move_dns c dns parse_ip parse_ipv4 show_ip plan.dns_changed plan.dns)
          (Under_ (followed plan m)) blocks
          (move_dns-Steps plan.dns_changed plan.dns (with_bypass plan.new_bypass moved)))

  -- The routes of the table are those to delete and those of before, and the manager is applied.
  abbrev pub Owned : Host_ → Type 0
  Owned o =
      (o.manager.applied ≡ true)
      × Within (routing c) laws dns WindowsRoutes base (removed parse_ipv4 show_ip o.manager)
          o.system

  pub reloads-Owned :
      (old : Config) (r : Readings) (later : List (Config × Readings)) (m : WindowsRoutes)
      → InStep r m
      → Steps_ (Under_ m) (reloads c dns parse_ip parse_ipv4 show_ip old r later) Owned
  unfolding reloads reload
  reloads-Owned old r [] m h o (same, w) went = (
    ap (λ (x : WindowsRoutes). x.applied) same ∙ h.applied,
    subst
        (λ x.
          Within (routing c) laws dns WindowsRoutes base (removed parse_ipv4 show_ip x) o.system)
        (sym same) w,
  )
  reloads-Owned old r ((latest, s) ∷ rest) m h o (same, w) went =
      let plan = plan_of old latest r s in
      let on : o.manager.applied ≡ true = ap (λ (x : WindowsRoutes). x.applied) same ∙ h.applied in
      then-Triple (routing c) laws dns WindowsRoutes (λ x. Under_ m x × (x.manager.applied ≡ true))
        (Under_ (followed plan m)) Owned (reload c dns parse_ip parse_ipv4 show_ip plan)
        (reloads c dns parse_ip parse_ipv4 show_ip latest s rest)
        (λ x (at, is_on) step.
          let whole : reload c dns parse_ip parse_ipv4 show_ip plan x
              ≡ reload_applied c dns parse_ip parse_ipv4 show_ip plan x =
            rw is_on refl in
          subst (λ (z : Result ControlError (Unit {0}) × Host_). Under_ (followed plan m) z.1)
            (sym whole)
            (reload_applied-Steps old latest r s m h x at
              (ap (λ (z : Result ControlError (Unit {0}) × Host_). z.0) (sym whole) ∙ step)))
        (reloads-Owned latest s rest (followed plan m) (followed-InStep old latest r s m h)) o
        ((same, w), on) went
