-- ===== src/Macos/Installed.antt =====
-- src/platform/macos/route.rs: the routes that `apply` adds and `teardown` deletes.
use cortado.Base.{◌≡◌, Bool, List, [], ◌∷◌, ◌++◌, Option, none, some, Bytes, codes, ok}
use cortado.Base.Effects.{each}
use cortado.Addr.{IpAddr}
use cortado.Net.Diff.{Block}
use cortado.Platform.{Resolver}
use cortado.Platform.Commands.{Commands, IsRouting, Machine, M, when}
use cortado.Platform.Added.{
  Names, for_all, only_when, Adds, Adding, skip-Adding, add_route-Adding, then-Adding, each-Adding,
  when-Adding,
}
use cortado.Platform.Deleted.{
  Deletes, Deleting, skip-Deleting, delete_quietly-Deleting, then-Deleting, each-Deleting,
  when-Deleting,
}
use cortado.Macos.Routes.{
  MacosRoutes, routing, gateway_for, via_gateway, via_tun, host_block, host_prefix, v4_split,
  v6_split, captures_v6, add_host_via_gateway, add_bypass, add_found, delete_bypass, delete_found,
  add_split, delete_split, pin_proxy, pin_via, install_routes, remove_routes,
}

-- The names of the routes.
module _ (show_ip : IpAddr → Bytes) where
  abbrev pub hop_found : Block → Option IpAddr → List (List Bytes)
  hop_found block none = []
  hop_found block (some gw) = via_gateway show_ip block gw ∷ []

  abbrev pub hop : Block → Names MacosRoutes
  hop block r = hop_found block (gateway_for r block.0)

  abbrev pub half : Bytes → Bytes → Names MacosRoutes
  half inet net r = via_tun r.tun_name inet net ∷ []

  abbrev pub halves : Bool → Names MacosRoutes
  halves six r =
      for_all (half (codes "-inet")) v4_split r
      ++ only_when six (for_all (half (codes "-inet6")) v6_split r)

  -- What `apply` adds.
  unfoldable pub wanted : Names MacosRoutes
  wanted r = hop (host_block r.proxy_ip) r ++ (for_all hop r.bypass r ++ halves (captures_v6 r) r)

  -- What `teardown` deletes.
  unfoldable pub removed : Names MacosRoutes
  removed r = hop (host_block r.proxy_ip) r ++ (for_all hop r.bypass r ++ halves r.capture_ipv6 r)

module _ (c : Commands) (laws : IsRouting (routing c)) (dns : Resolver)
    (parse_ip : Bytes → Option IpAddr) (show_ip : IpAddr → Bytes) where
  abbrev pub Host : Type 0
  Host = Machine (routing c) dns MacosRoutes

  abbrev pub Adds_ : M (routing c) dns MacosRoutes → Names MacosRoutes → Type 0
  Adds_ = Adding (routing c) laws dns MacosRoutes

  abbrev pub Deletes_ : M (routing c) dns MacosRoutes → Names MacosRoutes → Type 0
  Deletes_ = Deleting (routing c) laws dns MacosRoutes

  pub add_bypass-Adding :
      (block : Block) → Adds_ (add_bypass c dns parse_ip show_ip block) (hop show_ip block)
  unfolding add_bypass add_host_via_gateway
  add_bypass-Adding block m = found (gateway_for m.manager block.0)
    where
      found :
          (gw : Option IpAddr)
          → (add_found c dns parse_ip show_ip block gw m).0 ≡ ok tt
          → Adds
              (routing c)
              laws
              dns
              MacosRoutes
              (hop_found show_ip block gw)
              m
              (add_found c dns parse_ip show_ip block gw m).1
      found none h = skip-Adding (routing c) laws dns MacosRoutes m h
      found (some gw) h =
          add_route-Adding (routing c) laws dns MacosRoutes (via_gateway show_ip block gw) m h

  pub delete_bypass-Deleting :
      (block : Block) → Deletes_ (delete_bypass c dns parse_ip show_ip block) (hop show_ip block)
  unfolding delete_bypass
  delete_bypass-Deleting block m = found (gateway_for m.manager block.0)
    where
      found :
          (gw : Option IpAddr)
          → ((delete_found c dns parse_ip show_ip block gw m).0 ≡ ok tt)
            × Deletes
                (routing c)
                laws
                dns
                MacosRoutes
                (hop_found show_ip block gw)
                m
                (delete_found c dns parse_ip show_ip block gw m).1
      found none = skip-Deleting (routing c) laws dns MacosRoutes m
      found (some gw) =
          delete_quietly-Deleting (routing c) laws dns MacosRoutes (via_gateway show_ip block gw) m

  pub pin_proxy-Adding :
      (addr : IpAddr)
      → Adds_ (pin_proxy c dns parse_ip show_ip addr) (hop show_ip (host_block addr))
  unfolding pin_proxy add_host_via_gateway host_prefix
  pin_proxy-Adding addr m = found (gateway_for m.manager addr)
    where
      found :
          (gw : Option IpAddr)
          → (pin_via c dns parse_ip show_ip addr gw m).0 ≡ ok tt
          → Adds
              (routing c)
              laws
              dns
              MacosRoutes
              (hop_found show_ip (host_block addr) gw)
              m
              (pin_via c dns parse_ip show_ip addr gw m).1
      found none h = cc
      found (some gw) h =
          add_route-Adding (routing c) laws dns MacosRoutes
            (via_gateway show_ip (host_block addr) gw) m h

  add_split-Adding :
      (inet net : Bytes) → Adds_ (add_split c dns parse_ip show_ip inet net) (half show_ip inet net)
  unfolding add_split
  add_split-Adding inet net m =
      add_route-Adding (routing c) laws dns MacosRoutes (via_tun m.manager.tun_name inet net) m

  delete_split-Deleting :
      (inet net : Bytes)
      → Deletes_ (delete_split c dns parse_ip show_ip inet net) (half show_ip inet net)
  unfolding delete_split
  delete_split-Deleting inet net m =
      delete_quietly-Deleting (routing c) laws dns MacosRoutes (via_tun m.manager.tun_name inet net)
        m

  pub install_routes-Adding : Adds_ (install_routes c dns parse_ip show_ip) (wanted show_ip)
  unfolding install_routes wanted
  install_routes-Adding =
      let pin : Adds_ (λ m. pin_proxy c dns parse_ip show_ip m.manager.proxy_ip m)
          (λ r. hop show_ip (host_block r.proxy_ip) r) =
        λ m. pin_proxy-Adding m.manager.proxy_ip m in
      let blocks : Adds_ (λ m. each (add_bypass c dns parse_ip show_ip) m.manager.bypass m)
          (λ r. for_all (hop show_ip) r.bypass r) =
        λ m.
          each-Adding (routing c) laws dns MacosRoutes (add_bypass c dns parse_ip show_ip)
            (hop show_ip) m.manager.bypass add_bypass-Adding m in
      let four =
        each-Adding (routing c) laws dns MacosRoutes
          (add_split c dns parse_ip show_ip (codes "-inet")) (half show_ip (codes "-inet")) v4_split
          (add_split-Adding (codes "-inet")) in
      let six : Adds_
          (λ m.
            when (routing c) dns MacosRoutes (captures_v6 m.manager)
              (each (add_split c dns parse_ip show_ip (codes "-inet6")) v6_split) m)
          (λ r. only_when (captures_v6 r) (for_all (half show_ip (codes "-inet6")) v6_split r)) =
        λ m.
          when-Adding (routing c) laws dns MacosRoutes (captures_v6 m.manager)
            (each (add_split c dns parse_ip show_ip (codes "-inet6")) v6_split)
            (for_all (half show_ip (codes "-inet6")) v6_split)
            (each-Adding (routing c) laws dns MacosRoutes
              (add_split c dns parse_ip show_ip (codes "-inet6")) (half show_ip (codes "-inet6"))
              v6_split (add_split-Adding (codes "-inet6")))
            m in
      then-Adding (routing c) laws dns MacosRoutes _ _ _ _ pin (
        then-Adding (routing c) laws dns MacosRoutes _ _ _ _ blocks
          (then-Adding (routing c) laws dns MacosRoutes _ _ _ _ four six))

  pub remove_routes-Deleting : Deletes_ (remove_routes c dns parse_ip show_ip) (removed show_ip)
  unfolding remove_routes removed
  remove_routes-Deleting =
      let pin : Deletes_
          (λ m. delete_bypass c dns parse_ip show_ip (host_block m.manager.proxy_ip) m)
          (λ r. hop show_ip (host_block r.proxy_ip) r) =
        λ m. delete_bypass-Deleting (host_block m.manager.proxy_ip) m in
      let blocks : Deletes_ (λ m. each (delete_bypass c dns parse_ip show_ip) m.manager.bypass m)
          (λ r. for_all (hop show_ip) r.bypass r) =
        λ m.
          each-Deleting (routing c) laws dns MacosRoutes (delete_bypass c dns parse_ip show_ip)
            (hop show_ip) m.manager.bypass delete_bypass-Deleting m in
      let four =
        each-Deleting (routing c) laws dns MacosRoutes
          (delete_split c dns parse_ip show_ip (codes "-inet")) (half show_ip (codes "-inet"))
          v4_split (delete_split-Deleting (codes "-inet")) in
      let six : Deletes_
          (λ m.
            when (routing c) dns MacosRoutes (m.manager.capture_ipv6)
              (each (delete_split c dns parse_ip show_ip (codes "-inet6")) v6_split) m)
          (λ r. only_when (r.capture_ipv6) (for_all (half show_ip (codes "-inet6")) v6_split r)) =
        λ m.
          when-Deleting (routing c) laws dns MacosRoutes m.manager.capture_ipv6
            (each (delete_split c dns parse_ip show_ip (codes "-inet6")) v6_split)
            (for_all (half show_ip (codes "-inet6")) v6_split)
            (each-Deleting (routing c) laws dns MacosRoutes
              (delete_split c dns parse_ip show_ip (codes "-inet6")) (half show_ip (codes "-inet6"))
              v6_split (delete_split-Deleting (codes "-inet6")))
            m in
      then-Deleting (routing c) laws dns MacosRoutes _ _ _ _ pin (
        then-Deleting (routing c) laws dns MacosRoutes _ _ _ _ blocks
          (then-Deleting (routing c) laws dns MacosRoutes _ _ _ _ four six))
