-- ===== src/Windows/Steps.antt =====
-- src/platform/windows/route.rs: what the steps of `apply` and `reload` leave in the routing table.
use cortado.Base.{
  ℕ, ◌≡◌, refl, sym, ap, subst, Bool, true, false, List, [], ◌++◌, Option, none, some, Bytes,
  contains, nat_eq, list_eq, pair_eq,
}
use cortado.Base.Effects.{each}
use cortado.Addr.{IpAddr, ip_eq}
use cortado.Net.Diff.{Block}
use cortado.Platform.{Resolver}
use cortado.Platform.Commands.{Commands, IsRouting, M, when}
use cortado.Platform.Added.{for_all, only_when, each-Adding, add_route-Adding}
use cortado.Platform.Within.{
  Triple, then-Triple, each-Triple, At, Among, Among-left, Among-right, Among-joined, Adding-Triple,
  add_quietly-Triple,
}
use cortado.Windows.Routes.{
  WindowsRoutes, routing, half_v4, half_v6, v4_split, v6_split, pin_proxy, add_bypass, add_split_v4,
  add_split_v6, install_routes,
}
use cortado.Windows.Installed.{
  host, hop, four, six, halves, removed, Host, pin_proxy-Adding, add_bypass-Triple,
}

abbrev pub proxy_after : Option (IpAddr × IpAddr) → WindowsRoutes → WindowsRoutes
proxy_after none r = r
proxy_after (some (old_ip, new_ip)) r = record r { proxy_ip = new_ip }

abbrev pub dns_after : Bool → Option IpAddr → WindowsRoutes → WindowsRoutes
dns_after false server r = r
dns_after true server r = record r { dns_server = server }

abbrev pub with_bypass : List Block → WindowsRoutes → WindowsRoutes
with_bypass blocks r = record r { bypass = blocks }

module _ (c : Commands) (laws : IsRouting (routing c)) (dns : Resolver)
    (parse_ip : Bytes → Option IpAddr) (parse_ipv4 : Bytes → Option ℕ) (show_ip : IpAddr → Bytes)
    (base : List Bytes → Bool) where
  abbrev Host_ : Type 0
  Host_ = Host c laws dns parse_ip parse_ipv4 show_ip

  abbrev pub Under : WindowsRoutes → List (List Bytes) → Host_ → Type 0
  Under = At (routing c) laws dns WindowsRoutes base

  abbrev pub Steps : (Host_ → Type 0) → M (routing c) dns WindowsRoutes → (Host_ → Type 0) → Type 0
  Steps = Triple (routing c) laws dns WindowsRoutes

  abbrev Among_ : List (List Bytes) → List (List Bytes) → Type 0
  Among_ = Among (routing c) laws dns WindowsRoutes

  -- The routes of one of the blocks are among those of the manager.
  pub hop-Among :
      (block : Block) (blocks : List Block) (r : WindowsRoutes) (before later : List (List Bytes))
      → contains blocks block ≡ true
      → Among_
          (hop parse_ipv4 show_ip block r)
          (before ++ (for_all (hop parse_ipv4 show_ip) blocks r ++ later))
  hop-Among block blocks r before later there =
      Among-right (routing c) laws dns WindowsRoutes (hop parse_ipv4 show_ip block r) before
        (for_all (hop parse_ipv4 show_ip) blocks r ++ later)
        (λ q h.
          Among-left (routing c) laws dns WindowsRoutes (for_all (hop parse_ipv4 show_ip) blocks r)
            later q
            (Among-joined (routing c) laws dns WindowsRoutes (λ b. hop parse_ipv4 show_ip b r)
              blocks block there q h))

  halves-Among :
      (r : WindowsRoutes) (rs : List (List Bytes))
      → Among_ rs (halves parse_ipv4 show_ip r)
      → Among_ rs (removed parse_ipv4 show_ip r)
  unfolding removed
  halves-Among r rs inner =
      Among-right (routing c) laws dns WindowsRoutes rs (host parse_ipv4 show_ip r.proxy_ip r) _ (
        Among-right (routing c) laws dns WindowsRoutes rs
          (for_all (hop parse_ipv4 show_ip) r.bypass r) (halves parse_ipv4 show_ip r) inner)

  add_blocks-Steps :
      (r : WindowsRoutes)
      → Steps
          (Under r (removed parse_ipv4 show_ip r))
          (λ m. each (add_bypass c dns parse_ip parse_ipv4 show_ip) m.manager.bypass m)
          (Under r (removed parse_ipv4 show_ip r))
  unfolding removed
  add_blocks-Steps r m (same, w) h =
      each-Triple (routing c) laws dns WindowsRoutes (Under r (removed parse_ipv4 show_ip r))
        (add_bypass c dns parse_ip parse_ipv4 show_ip) m.manager.bypass
        (λ b there.
          add_bypass-Triple c laws dns parse_ip parse_ipv4 show_ip base r
            (removed parse_ipv4 show_ip r) b
            (hop-Among b r.bypass r (host parse_ipv4 show_ip r.proxy_ip r)
              (halves parse_ipv4 show_ip r)
              (subst (λ (o : WindowsRoutes). contains o.bypass b ≡ true) same there)))
        m (same, w) h

  add_v6-Steps :
      (r : WindowsRoutes) (captured : Bool)
      → captured ≡ r.capture_ipv6
      → Steps
          (Under r (removed parse_ipv4 show_ip r))
          (when
            (routing c)
            dns
            WindowsRoutes
            captured
            (each (add_split_v6 c dns parse_ip parse_ipv4 show_ip) v6_split))
          (Under r (removed parse_ipv4 show_ip r))
  unfolding add_split_v6
  add_v6-Steps r false e m at h = at
  add_v6-Steps r true e m at h =
      each-Triple (routing c) laws dns WindowsRoutes (Under r (removed parse_ipv4 show_ip r))
        (add_split_v6 c dns parse_ip parse_ipv4 show_ip) v6_split
        (λ net there o (same, w) k.
          add_quietly-Triple (routing c) laws dns WindowsRoutes base r
            (removed parse_ipv4 show_ip r) (half_v6 parse_ipv4 show_ip o.manager.interface net)
            (subst
              (λ (x : WindowsRoutes).
                Among_ (six parse_ipv4 show_ip net x) (removed parse_ipv4 show_ip r))
              (sym same) (named net there))
            o (same, w) k)
        m at h
    where
      captured_too :
          only_when r.capture_ipv6 (for_all (six parse_ipv4 show_ip) v6_split r)
          ≡ for_all (six parse_ipv4 show_ip) v6_split r
      captured_too = rw⁻¹ e refl

      named :
          (net : Bytes)
          → contains v6_split net ≡ true
          → Among_ (six parse_ipv4 show_ip net r) (removed parse_ipv4 show_ip r)
      named net there = halves-Among r (six parse_ipv4 show_ip net r) (
          Among-right (routing c) laws dns WindowsRoutes (six parse_ipv4 show_ip net r)
            (for_all (four parse_ipv4 show_ip) v4_split r)
            (only_when r.capture_ipv6 (for_all (six parse_ipv4 show_ip) v6_split r))
            (subst (Among_ (six parse_ipv4 show_ip net r)) (sym captured_too) (
              Among-joined (routing c) laws dns WindowsRoutes (λ n. six parse_ipv4 show_ip n r)
                v6_split net there)))

  pub install_routes-Steps :
      (r : WindowsRoutes)
      → Steps
          (Under r [])
          (install_routes c dns parse_ip parse_ipv4 show_ip)
          (Under r (removed parse_ipv4 show_ip r))
  unfolding install_routes removed add_split_v4
  install_routes-Steps r =
      let all = removed parse_ipv4 show_ip r in
      then-Triple (routing c) laws dns WindowsRoutes _ (Under r all) (Under r all) _ _
        (Adding-Triple (routing c) laws dns WindowsRoutes base r [] all
          (λ m. pin_proxy c dns parse_ip parse_ipv4 show_ip m.manager.proxy_ip m)
          (λ o. host parse_ipv4 show_ip o.proxy_ip o)
          (λ m. pin_proxy-Adding c laws dns parse_ip parse_ipv4 show_ip m.manager.proxy_ip m)
          (Among-left (routing c) laws dns WindowsRoutes (host parse_ipv4 show_ip r.proxy_ip r) _)
          (λ q h. cc))
        (then-Triple (routing c) laws dns WindowsRoutes _ (Under r all) (Under r all) _ _
          (add_blocks-Steps r)
          (then-Triple (routing c) laws dns WindowsRoutes _ (Under r all) (Under r all) _ _
            (Adding-Triple (routing c) laws dns WindowsRoutes base r all all
              (each (add_split_v4 c dns parse_ip parse_ipv4 show_ip) v4_split)
              (for_all (four parse_ipv4 show_ip) v4_split)
              (each-Adding (routing c) laws dns WindowsRoutes
                (add_split_v4 c dns parse_ip parse_ipv4 show_ip) (four parse_ipv4 show_ip) v4_split
                (λ half m.
                  add_route-Adding (routing c) laws dns WindowsRoutes
                    (half_v4 parse_ipv4 show_ip m.manager.interface half) m))
              (halves-Among r (for_all (four parse_ipv4 show_ip) v4_split r) (
                Among-left (routing c) laws dns WindowsRoutes
                  (for_all (four parse_ipv4 show_ip) v4_split r) _))
              (λ q h. h))
            (λ m (same, w) h.
              add_v6-Steps r m.manager.capture_ipv6
                (ap (λ (o : WindowsRoutes). o.capture_ipv6) same) m (same, w) h)))
