-- ===== src/Macos/Reloaded.antt =====
-- src/platform/macos/route.rs with src/reload.rs: `reload` by a computed plan keeps to the routes that
-- `teardown` will delete.
use cortado.Base.{
  ◌≡◌, sym, subst, ◌⊎◌, inl, inr, Bool, true, false, List, ◌++◌, Option, none, some, Bytes, nat_eq,
  pair_eq,
}
use cortado.Base.Effects.{◌>>◌, each}
use cortado.Addr.{IpAddr, ip_eq}
use cortado.Net.Diff.{Block}
use cortado.Reload.{ReloadPlan}
use cortado.Platform.{Resolver}
use cortado.Platform.Commands.{Commands, IsRouting, M}
use cortado.Platform.Added.{for_all, each-Adding}
use cortado.Platform.Deleted.{each-Deleting}
use cortado.Platform.Within.{
  Triple, then-Triple, At, Among, Among-left, Among-right, Adding-Triple, Deleting-Triple,
  set-Triple, reload_dns-Triple,
}
use cortado.Platform.Plans.{Describes, regroup, covered, newly_covered}
use cortado.Macos.Routes.{
  MacosRoutes, routing, gateway_for, host_block, add_bypass, delete_bypass, pin_proxy, set,
  move_proxy, move_dns,
}
use cortado.Macos.Installed.{
  hop, halves, removed, Host, add_bypass-Adding, delete_bypass-Deleting, pin_proxy-Adding,
}

abbrev pub proxy_after : Option (IpAddr × IpAddr) → MacosRoutes → MacosRoutes
proxy_after none r = r
proxy_after (some (old_ip, new_ip)) r = record r { proxy_ip = new_ip }

abbrev pub dns_after : Bool → Option IpAddr → MacosRoutes → MacosRoutes
dns_after false server r = r
dns_after true server r = record r { dns_server = server }

abbrev pub with_bypass : List Block → MacosRoutes → MacosRoutes
with_bypass blocks r = record r { bypass = blocks }

-- The manager that has followed a plan.
abbrev pub followed : ReloadPlan → MacosRoutes → MacosRoutes
followed plan r =
    dns_after plan.dns_changed plan.dns
      (with_bypass plan.new_bypass (proxy_after plan.proxy_route_change r))

module _ (c : Commands) (laws : IsRouting (routing c)) (dns : Resolver)
    (parse_ip : Bytes → Option IpAddr) (show_ip : IpAddr → Bytes) (base : List Bytes → Bool) where
  abbrev Names_ : Type 0
  Names_ = List (List Bytes)

  abbrev pub Under : MacosRoutes → Names_ → Host c laws dns parse_ip show_ip → Type 0
  Under = At (routing c) laws dns MacosRoutes base

  abbrev pub Steps :
      (Host c laws dns parse_ip show_ip → Type 0)
      → M (routing c) dns MacosRoutes
      → (Host c laws dns parse_ip show_ip → Type 0)
      → Type 0
  Steps = Triple (routing c) laws dns MacosRoutes

  abbrev Among_ : Names_ → Names_ → Type 0
  Among_ = Among (routing c) laws dns MacosRoutes

  abbrev later : MacosRoutes → Names_
  later r = for_all (hop show_ip) r.bypass r ++ halves show_ip r.capture_ipv6 r

  moved_proxy-Steps :
      (new_ip : IpAddr) (r : MacosRoutes)
      → Steps
          (Under r (removed show_ip r))
          (move_proxy c dns parse_ip show_ip (some (r.proxy_ip, new_ip)))
          (Under
            (record r { proxy_ip = new_ip })
            (removed show_ip (record r { proxy_ip = new_ip })))
  unfolding removed gateway_for
  moved_proxy-Steps new_ip r =
      let fresh = hop show_ip (host_block new_ip) r ++ later r in
      then-Triple (routing c) laws dns MacosRoutes _ (Under r (later r))
        (Under (record r { proxy_ip = new_ip }) fresh) _ _
        (Deleting-Triple (routing c) laws dns MacosRoutes base r (removed show_ip r) (later r)
          (delete_bypass c dns parse_ip show_ip (host_block r.proxy_ip))
          (hop show_ip (host_block r.proxy_ip))
          (delete_bypass-Deleting c laws dns parse_ip show_ip (host_block r.proxy_ip)) (λ q h. h))
        (then-Triple (routing c) laws dns MacosRoutes _ (Under r fresh)
          (Under (record r { proxy_ip = new_ip }) fresh) _ _
          (Adding-Triple (routing c) laws dns MacosRoutes base r (later r) fresh
            (pin_proxy c dns parse_ip show_ip new_ip) (hop show_ip (host_block new_ip))
            (pin_proxy-Adding c laws dns parse_ip show_ip new_ip)
            (Among-left (routing c) laws dns MacosRoutes (hop show_ip (host_block new_ip) r)
              (later r))
            (Among-right (routing c) laws dns MacosRoutes (later r)
              (hop show_ip (host_block new_ip) r) (later r) (λ q h. h)))
          (set-Triple (routing c) laws dns MacosRoutes base r fresh
            (λ o. record o { proxy_ip = new_ip })))

  pub move_proxy-Steps :
      (change : Option (IpAddr × IpAddr)) (r : MacosRoutes)
      → (change ≡ none) ⊎ ((new_ip : IpAddr) × (change ≡ some (r.proxy_ip, new_ip)))
      → Steps
          (Under r (removed show_ip r))
          (move_proxy c dns parse_ip show_ip change)
          (Under (proxy_after change r) (removed show_ip (proxy_after change r)))
  move_proxy-Steps change r known =
      let Moves : Option (IpAddr × IpAddr) → Type 0 = λ o.
        Steps (Under r (removed show_ip r)) (move_proxy c dns parse_ip show_ip o)
          (Under (proxy_after o r) (removed show_ip (proxy_after o r))) in
      elim known [
        | inl e ↦ subst Moves (sym e) (λ m at h. at)
        | inr (new_ip, e) ↦ subst Moves (sym e) (moved_proxy-Steps new_ip r)
      ]

  pub move_bypass-Steps :
      (remove add new : List Block) (r : MacosRoutes) (next : M (routing c) dns MacosRoutes)
      (Q : Host c laws dns parse_ip show_ip → Type 0)
      → Describes remove add r.bypass new
      → Steps (Under (with_bypass new r) (removed show_ip (with_bypass new r))) next Q
      → Steps
          (Under r (removed show_ip r))
          (each (delete_bypass c dns parse_ip show_ip) remove
            >> (each (add_bypass c dns parse_ip show_ip) add
                >> (set c dns parse_ip show_ip (λ o. record o { bypass = new }) >> next)))
          Q
  unfolding removed gateway_for
  move_bypass-Steps remove add new r next Q d goes =
      let host = hop show_ip (host_block r.proxy_ip) r in
      let rest = halves show_ip r.capture_ipv6 r in
      let after = host ++ (for_all (hop show_ip) new r ++ rest) in
      then-Triple (routing c) laws dns MacosRoutes _ (Under r after) Q _ _
        (Deleting-Triple (routing c) laws dns MacosRoutes base r (removed show_ip r) after
          (each (delete_bypass c dns parse_ip show_ip) remove) (for_all (hop show_ip) remove)
          (each-Deleting (routing c) laws dns MacosRoutes (delete_bypass c dns parse_ip show_ip)
            (hop show_ip) remove (delete_bypass-Deleting c laws dns parse_ip show_ip))
          (regroup (routing c) laws dns MacosRoutes (for_all (hop show_ip) remove r) host
            (for_all (hop show_ip) r.bypass r) (for_all (hop show_ip) new r) rest
            (covered (routing c) laws dns MacosRoutes (λ b. hop show_ip b r) remove add r.bypass new
              d)))
        (then-Triple (routing c) laws dns MacosRoutes _ (Under r after) Q _ _
          (Adding-Triple (routing c) laws dns MacosRoutes base r after after
            (each (add_bypass c dns parse_ip show_ip) add) (for_all (hop show_ip) add)
            (each-Adding (routing c) laws dns MacosRoutes (add_bypass c dns parse_ip show_ip)
              (hop show_ip) add (add_bypass-Adding c laws dns parse_ip show_ip))
            (newly_covered (routing c) laws dns MacosRoutes (λ b. hop show_ip b r) remove add
              r.bypass new host rest d)
            (λ q h. h))
          (then-Triple (routing c) laws dns MacosRoutes _ (Under (with_bypass new r) after) Q _ _
            (set-Triple (routing c) laws dns MacosRoutes base r after
              (λ o. record o { bypass = new }))
            goes))

  pub move_dns-Steps :
      (changed : Bool) (server : Option IpAddr) (r : MacosRoutes)
      → Steps
          (Under r (removed show_ip r))
          (move_dns c dns parse_ip show_ip changed server)
          (Under (dns_after changed server r) (removed show_ip (dns_after changed server r)))
  unfolding removed gateway_for
  move_dns-Steps false server r = λ m at h. at
  move_dns-Steps true server r =
      then-Triple (routing c) laws dns MacosRoutes _ (Under r (removed show_ip r))
        (Under (record r { dns_server = server }) (removed show_ip r)) _ _
        (reload_dns-Triple (routing c) laws dns MacosRoutes base r (removed show_ip r) server)
        (set-Triple (routing c) laws dns MacosRoutes base r (removed show_ip r)
          (λ o. record o { dns_server = server }))
