-- ===== src/Windows/Installed.antt =====
-- src/platform/windows/route.rs: the routes that `apply` adds and `teardown` deletes.
use cortado.Base.{
  ◌≡◌, sym, subst, Bool, List, [], ◌∷◌, ◌++◌, Option, none, some, Bytes, ok, ℕ, nat_eq, list_eq,
  pair_eq,
}
use cortado.Base.Effects.{each}
use cortado.Addr.{IpAddr, ip_eq}
use cortado.Net.Diff.{Block}
use cortado.Platform.{Resolver}
use cortado.Platform.Commands.{Commands, IsRouting, Machine, M, when}
use cortado.Platform.Added.{Names, for_all, only_when, Adds, Adding, skip-Adding, add_route-Adding}
use cortado.Platform.Deleted.{
  Deletes, Deleting, skip-Deleting, delete_quietly-Deleting, then-Deleting, each-Deleting,
  when-Deleting,
}
use cortado.Platform.Within.{Triple, At, Among, add_quietly-Triple}
use cortado.Windows.Routes.{
  WindowsRoutes, routing, pinned, bypassed, half_v4, half_v6, v4_split, v6_split, with_gateway, add,
  try_add, try_delete, pin_proxy, unpin_proxy, add_bypass, delete_bypass, delete_split_v4,
  delete_split_v6, remove_routes,
}

-- The names of the routes.
module _ (parse_ipv4 : Bytes → Option ℕ) (show_ip : IpAddr → Bytes) where
  abbrev pub by_gateway : (IpAddr → List Bytes) → Option IpAddr → List (List Bytes)
  by_gateway name none = []
  by_gateway name (some gw) = name gw ∷ []

  abbrev pub host : IpAddr → Names WindowsRoutes
  host addr r = by_gateway (pinned parse_ipv4 show_ip addr) r.gateway

  abbrev pub hop : Block → Names WindowsRoutes
  hop block r = by_gateway (bypassed parse_ipv4 show_ip block) r.gateway

  abbrev pub four : Bytes × Bytes → Names WindowsRoutes
  four half r = half_v4 parse_ipv4 show_ip r.interface half ∷ []

  abbrev pub six : Bytes → Names WindowsRoutes
  six net r = half_v6 parse_ipv4 show_ip r.interface net ∷ []

  abbrev pub halves : Names WindowsRoutes
  halves r = for_all four v4_split r ++ only_when r.capture_ipv6 (for_all six v6_split r)

  -- What `apply` asks for and `teardown` deletes.
  unfoldable pub removed : Names WindowsRoutes
  removed r = host r.proxy_ip r ++ (for_all hop r.bypass r ++ halves r)

module _ (c : Commands) (laws : IsRouting (routing c)) (dns : Resolver)
    (parse_ip : Bytes → Option IpAddr) (parse_ipv4 : Bytes → Option ℕ)
    (show_ip : IpAddr → Bytes) where
  abbrev pub Host : Type 0
  Host = Machine (routing c) dns WindowsRoutes

  abbrev pub Adds_ : M (routing c) dns WindowsRoutes → Names WindowsRoutes → Type 0
  Adds_ = Adding (routing c) laws dns WindowsRoutes

  abbrev pub Deletes_ : M (routing c) dns WindowsRoutes → Names WindowsRoutes → Type 0
  Deletes_ = Deleting (routing c) laws dns WindowsRoutes

  pub pin_proxy-Adding :
      (addr : IpAddr)
      → Adds_ (pin_proxy c dns parse_ip parse_ipv4 show_ip addr) (host parse_ipv4 show_ip addr)
  unfolding pin_proxy
  pin_proxy-Adding addr m = found m.manager.gateway
    where
      name : IpAddr → List Bytes
      name = pinned parse_ipv4 show_ip addr

      found :
          (gw : Option IpAddr)
          → let step =
              with_gateway c dns parse_ip parse_ipv4 show_ip
                (λ g. add c dns parse_ip parse_ipv4 show_ip (pinned parse_ipv4 show_ip addr g))
                gw
                m in
            step.0 ≡ ok tt
            → Adds
                (routing c)
                laws
                dns
                WindowsRoutes
                (by_gateway parse_ipv4 show_ip (pinned parse_ipv4 show_ip addr) gw)
                m
                step.1
      found none h = skip-Adding (routing c) laws dns WindowsRoutes m h
      found (some gw) h =
          add_route-Adding (routing c) laws dns WindowsRoutes (pinned parse_ipv4 show_ip addr gw) m
            h

  -- A step that deletes a route by way of the gateway, if there is one.
  by_gateway-Deleting :
      (name : IpAddr → List Bytes)
      → Deletes_
          (λ m.
            with_gateway c dns parse_ip parse_ipv4 show_ip
              (λ gw. try_delete c dns parse_ip parse_ipv4 show_ip (name gw))
              m.manager.gateway
              m)
          (λ r. by_gateway parse_ipv4 show_ip name r.gateway)
  by_gateway-Deleting name m = found m.manager.gateway
    where
      found :
          (gw : Option IpAddr)
          → let step =
              with_gateway c dns parse_ip parse_ipv4 show_ip
                (λ g. try_delete c dns parse_ip parse_ipv4 show_ip (name g))
                gw
                m in
            (step.0 ≡ ok tt)
            × Deletes
                (routing c)
                laws
                dns
                WindowsRoutes
                (by_gateway parse_ipv4 show_ip name gw)
                m
                step.1
      found none = skip-Deleting (routing c) laws dns WindowsRoutes m
      found (some gw) = delete_quietly-Deleting (routing c) laws dns WindowsRoutes (name gw) m

  pub unpin_proxy-Deleting :
      (addr : IpAddr)
      → Deletes_ (unpin_proxy c dns parse_ip parse_ipv4 show_ip addr) (host parse_ipv4 show_ip addr)
  unfolding unpin_proxy
  unpin_proxy-Deleting addr = by_gateway-Deleting (pinned parse_ipv4 show_ip addr)

  pub delete_bypass-Deleting :
      (block : Block)
      → Deletes_
          (delete_bypass c dns parse_ip parse_ipv4 show_ip block)
          (hop parse_ipv4 show_ip block)
  unfolding delete_bypass
  delete_bypass-Deleting block = by_gateway-Deleting (bypassed parse_ipv4 show_ip block)

  -- A block that is added, or is not, where its routes are expected.
  pub add_bypass-Triple :
      (base : List Bytes → Bool) (r : WindowsRoutes) (rs : List (List Bytes)) (block : Block)
      → Among (routing c) laws dns WindowsRoutes (hop parse_ipv4 show_ip block r) rs
      → Triple
          (routing c)
          laws
          dns
          WindowsRoutes
          (At (routing c) laws dns WindowsRoutes base r rs)
          (add_bypass c dns parse_ip parse_ipv4 show_ip block)
          (At (routing c) laws dns WindowsRoutes base r rs)
  unfolding add_bypass
  add_bypass-Triple base r rs block new m (same, w) h =
      found m.manager.gateway
        (subst (λ o. Among (routing c) laws dns WindowsRoutes (hop parse_ipv4 show_ip block o) rs)
          (sym same) new)
        h
    where
      found :
          (gw : Option IpAddr)
          → Among
              (routing c)
              laws
              dns
              WindowsRoutes
              (by_gateway parse_ipv4 show_ip (bypassed parse_ipv4 show_ip block) gw)
              rs
          → let step =
              with_gateway c dns parse_ip parse_ipv4 show_ip
                (λ g.
                  try_add c dns parse_ip parse_ipv4 show_ip (bypassed parse_ipv4 show_ip block g))
                gw
                m in
            step.0 ≡ ok tt → At (routing c) laws dns WindowsRoutes base r rs step.1
      found none inner k = (same, w)
      found (some gw) inner k =
          add_quietly-Triple (routing c) laws dns WindowsRoutes base r rs
            (bypassed parse_ipv4 show_ip block gw) inner m (same, w) k

  pub remove_routes-Deleting :
      Deletes_ (remove_routes c dns parse_ip parse_ipv4 show_ip) (removed parse_ipv4 show_ip)
  unfolding remove_routes removed delete_split_v4 delete_split_v6
  remove_routes-Deleting =
      let pin : Deletes_ (λ m. unpin_proxy c dns parse_ip parse_ipv4 show_ip m.manager.proxy_ip m)
          (λ r. host parse_ipv4 show_ip r.proxy_ip r) =
        λ m. unpin_proxy-Deleting m.manager.proxy_ip m in
      let blocks : Deletes_
          (λ m. each (delete_bypass c dns parse_ip parse_ipv4 show_ip) m.manager.bypass m)
          (λ r. for_all (hop parse_ipv4 show_ip) r.bypass r) =
        λ m.
          each-Deleting (routing c) laws dns WindowsRoutes
            (delete_bypass c dns parse_ip parse_ipv4 show_ip) (hop parse_ipv4 show_ip)
            m.manager.bypass delete_bypass-Deleting m in
      let halves_v4 =
        each-Deleting (routing c) laws dns WindowsRoutes
          (delete_split_v4 c dns parse_ip parse_ipv4 show_ip) (four parse_ipv4 show_ip) v4_split
          (λ half m.
            delete_quietly-Deleting (routing c) laws dns WindowsRoutes
              (half_v4 parse_ipv4 show_ip m.manager.interface half) m) in
      let halves_v6 : Deletes_
          (λ m.
            when (routing c) dns WindowsRoutes m.manager.capture_ipv6
              (each (delete_split_v6 c dns parse_ip parse_ipv4 show_ip) v6_split) m)
          (λ r. only_when r.capture_ipv6 (for_all (six parse_ipv4 show_ip) v6_split r)) =
        λ m.
          when-Deleting (routing c) laws dns WindowsRoutes m.manager.capture_ipv6
            (each (delete_split_v6 c dns parse_ip parse_ipv4 show_ip) v6_split)
            (for_all (six parse_ipv4 show_ip) v6_split)
            (each-Deleting (routing c) laws dns WindowsRoutes
              (delete_split_v6 c dns parse_ip parse_ipv4 show_ip) (six parse_ipv4 show_ip) v6_split
              (λ net o.
                delete_quietly-Deleting (routing c) laws dns WindowsRoutes
                  (half_v6 parse_ipv4 show_ip o.manager.interface net) o))
            m in
      then-Deleting (routing c) laws dns WindowsRoutes _ _ _ _ pin (
        then-Deleting (routing c) laws dns WindowsRoutes _ _ _ _ blocks
          (then-Deleting (routing c) laws dns WindowsRoutes _ _ _ _ halves_v4 halves_v6))
