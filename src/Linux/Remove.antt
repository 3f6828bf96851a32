-- ===== src/Linux/Remove.antt =====
-- src/platform/linux/route.rs: the routes that `teardown` removes.
use cortado.Base.{
  ℕ, ◌≡◌, refl, sym, ap, subst, ◌∙◌, ◌⊎◌, inl, inr, Bool, true, false, List, [], ◌∷◌, ◌++◌, Option,
  none, some, Result, ok, arith, All, All-append, contains, contains-append, ◌==◌, ==_iff, nat_eq,
  pair_eq, Bool-cases, if◌then◌else◌, ◌&&◌,
}
use cortado.Base.Effects.{◌>>◌, >>=-ok, each}
use cortado.Addr.{IpAddr, ip_eq}
use cortado.Net.Diff.{Block}
use cortado.Linux.Netlink.{Route, key_of, Netlink, IsNetlink}
use cortado.Linux.Gateways.{
  RouteManager, RouteError, delete_failed, gateway_for, host_block, v4_split, v6_split,
}
use cortado.Linux.RouteManager.{
  Machine, M, requested, del_route, del_found, del_bypass, del_split, when, remove_routes,
}
use cortado.Platform.{Resolver}
use cortado.Linux.Table.{keys}
use cortado.Linux.Install.{
  gateway_route, tun_route, routes_found, hop_route, for_all, only_when, removed,
}

module _ (nl : Netlink) (laws : IsNetlink nl) (dns : Resolver) where
  -- That a route which is shown is no longer shown.
  abbrev pub Gone : nl.State → nl.State → Route → Type 0
  Gone s t r = nl.via s (key_of r) ≡ some r.via → nl.via t (key_of r) ≡ none

  -- No key is shown another route, keys of none of the routes are left alone, and the routes that
  -- were shown are gone.
  pub record Removes (rs : List Route) (m n : Machine nl dns) : Type 0 where
    pub manager_kept : n.manager ≡ m.manager
    pub resolver_kept : n.resolver ≡ m.resolver
    pub shrinks :
        (k : IpAddr × ℕ) → (nl.via n.kernel k ≡ none) ⊎ (nl.via n.kernel k ≡ nl.via m.kernel k)
    pub untouched :
        (k : IpAddr × ℕ) → contains (keys rs) k ≡ false → nl.via n.kernel k ≡ nl.via m.kernel k
    pub gone : All (Gone m.kernel n.kernel) rs

  deletion-shows :
      (r : Route) (s : nl.State) (k : IpAddr × ℕ)
      → nl.via (nl.del r s).1 k ≡ (if key_of r == k && (nl.del r s).0 then none else nl.via s k)
  deletion-shows r s k = elim (Bool-cases (nl.del r s).0) [
    | inl done ↦ let shown = laws.via_deleted r k s done in ground arith
    | inr refused ↦ let shown = laws.via_not_deleted r k s refused in ground arith
  ]

  deletion-Removes :
      (r : Route) (m : Machine nl dns)
      → Removes (r ∷ []) m (record m { kernel = (nl.del r m.kernel).1 })
  deletion-Removes r m = record {
    manager_kept = refl;
    resolver_kept = refl;
    shrinks = λ k.
        let shown = deletion-shows r m.kernel k in
        elim (Bool-cases (key_of r == k && (nl.del r m.kernel).0)) [
          | inl hit ↦ inl (ground arith)
          | inr missed ↦ inr (ground arith)
        ];
    untouched = λ k h. let shown = deletion-shows r m.kernel k in ground arith;
    gone = (
      (λ there.
          let shown = laws.via_deleted r (key_of r) m.kernel (laws.deletes r m.kernel there) in
          let same = (==_iff (key_of r) (key_of r)).1 refl in ground arith),
      tt,
    );
  }

  -- A step that always succeeds, and removes the routes that are given by the manager.
  abbrev pub Drops : M nl dns (Unit {0}) → (RouteManager → List Route) → Type 0
  Drops step rs = (m : Machine nl dns) → ((step m).0 ≡ ok tt) × Removes (rs m.manager) m (step m).1

  requested-Removes :
      (r : Route) (m : Machine nl dns) (b : Bool) (s : nl.State)
      → nl.del r m.kernel ≡ (b, s)
      → Removes (r ∷ []) m (requested nl dns m delete_failed (b, s)).1
  requested-Removes r m true s e =
      subst (λ (c : Bool × nl.State). Removes (r ∷ []) m (record m { kernel = c.1 })) e
        (deletion-Removes r m)
  requested-Removes r m false s e =
      subst (λ (c : Bool × nl.State). Removes (r ∷ []) m (record m { kernel = c.1 })) e
        (deletion-Removes r m)

  Removes-none : (m : Machine nl dns) → Removes [] m m
  Removes-none m = record {
    manager_kept = refl;
    resolver_kept = refl;
    shrinks = λ k. inr refl;
    untouched = λ k h. refl;
    gone = tt;
  }

  keys-append : (rs ss : List Route) → keys (rs ++ ss) ≡ keys rs ++ keys ss
  keys-append [] ss = refl
  keys-append (r ∷ rs) ss = ap (◌∷◌ (key_of r)) (keys-append rs ss)

  -- What is gone stays gone, and what is left is deleted later.
  Gone-kept :
      (s t u : nl.State) (rs : List Route)
      → ((k : IpAddr × ℕ) → (nl.via u k ≡ none) ⊎ (nl.via u k ≡ nl.via t k))
      → All (Gone s t) rs
      → All (Gone s u) rs
  Gone-kept s t u [] later gone = tt
  Gone-kept s t u (r ∷ rs) later (here, gone) = (
    (λ there. elim (later (key_of r)) [ inl none_left ↦ none_left | inr kept ↦ kept ∙ here there ]),
    Gone-kept s t u rs later gone,
  )

  Gone-earlier :
      (s t u : nl.State) (rs : List Route)
      → ((k : IpAddr × ℕ) → (nl.via t k ≡ none) ⊎ (nl.via t k ≡ nl.via s k))
      → ((k : IpAddr × ℕ) → (nl.via u k ≡ none) ⊎ (nl.via u k ≡ nl.via t k))
      → All (Gone t u) rs
      → All (Gone s u) rs
  Gone-earlier s t u [] first later gone = tt
  Gone-earlier s t u (r ∷ rs) first later (here, gone) = (
    (λ there. elim (first (key_of r)) [
      | inr same ↦ here (same ∙ there)
      | inl left ↦ elim (later (key_of r)) [ inl none_left ↦ none_left | inr kept ↦ kept ∙ left ]
    ]),
    Gone-earlier s t u rs first later gone,
  )

  Removes-append :
      (rs ss : List Route) (m n o : Machine nl dns)
      → Removes rs m n
      → Removes ss n o
      → Removes (rs ++ ss) m o
  Removes-append rs ss m n o a b = record {
    manager_kept = b.manager_kept ∙ a.manager_kept;
    resolver_kept = b.resolver_kept ∙ a.resolver_kept;
    shrinks = λ k. elim (b.shrinks k) [
      | inl left ↦ inl left
      | inr kept ↦ elim (a.shrinks k) [
        | inl left ↦ inl (kept ∙ left)
        | inr same ↦ inr (kept ∙ same)
      ]
    ];
    untouched = λ k h.
        let none_of : contains (keys rs ++ keys ss) k ≡ false = rw (keys-append rs ss) at h in
        let split = contains-append (keys rs) (keys ss) k in
        b.untouched k (ground arith) ∙ a.untouched k (ground arith);
    gone =
        All-append (Gone m.kernel o.kernel) rs ss
          (Gone-kept m.kernel n.kernel o.kernel rs b.shrinks a.gone)
          (Gone-earlier m.kernel n.kernel o.kernel ss a.shrinks b.shrinks b.gone);
  }

  found-Drops :
      (b : Block) (o : Option (IpAddr × ℕ)) → Drops (del_found nl dns b o) (λ r. routes_found b o)
  unfolding del_route
  found-Drops b none m = (refl, Removes-none m)
  found-Drops (dst, prefix) (some (gw, oif)) m =
      let r = gateway_route (dst, prefix) (gw, oif) in
      let w = nl.del r m.kernel in (refl, requested-Removes r m w.0 w.1 refl)

  Drops-then :
      (f g : M nl dns (Unit {0})) (rs ss : RouteManager → List Route)
      → Drops f rs
      → Drops g ss
      → Drops (f >> g) (λ r. rs r ++ ss r)
  Drops-then f g rs ss a b m =
      let n = (f m).1 in
      let (done, one) = a m in
      let (done', two) = b n in
      let two' : Removes (ss m.manager) n (g n).1 =
        subst (λ r. Removes (ss r) n (g n).1) one.manager_kept two in
      subst
        (λ (c : Result RouteError (Unit {0}) × Machine nl dns).
          (c.0 ≡ ok tt) × Removes (rs m.manager ++ ss m.manager) m c.1)
        (sym (>>=-ok f (λ _. g) m tt done))
        (done', Removes-append (rs m.manager) (ss m.manager) m n (g n).1 one two')

  Drops-skip : Drops (λ m. (ok tt, m)) (λ r. [])
  Drops-skip m = (refl, Removes-none m)

  pub Drops-each :
      (body : Block → M nl dns (Unit {0})) (rs : Block → RouteManager → List Route)
      → ((b : Block) → Drops (body b) (rs b))
      → (bs : List Block) → Drops (each body bs) (for_all rs bs)
  unfolding each
  Drops-each body rs h [] = Drops-skip
  Drops-each body rs h (b ∷ bs) =
      Drops-then (body b) (each body bs) (rs b) (for_all rs bs) (h b) (Drops-each body rs h bs)

  pub del_bypass-Drops : (b : Block) → Drops (del_bypass nl dns b) (hop_route b)
  unfolding del_bypass
  del_bypass-Drops b m = found-Drops b (gateway_for m.manager b.0) m

  del_split-Drops : (b : Block) → Drops (del_split nl dns b) (tun_route b)
  unfolding del_split del_route
  del_split-Drops (dst, prefix) m =
      let r : Route = record {
        dst = dst;
        prefix = prefix;
        via = record { gateway = none; oif = m.manager.tun_index };
      } in
      let w = nl.del r m.kernel in (refl, requested-Removes r m w.0 w.1 refl)

  when-Drops :
      (b : Bool) (step : M nl dns (Unit {0})) (rs : RouteManager → List Route)
      → Drops step rs
      → Drops (when nl dns b step) (λ r. only_when b (rs r))
  when-Drops true step rs h = h
  when-Drops false step rs h = Drops-skip

  pub remove_routes-Drops : Drops (remove_routes nl dns) removed
  unfolding remove_routes
  remove_routes-Drops =
      Drops-then (λ m. del_bypass nl dns (host_block m.manager.proxy_ip) m) _
        (λ r. hop_route (host_block r.proxy_ip) r) _
        (λ m. del_bypass-Drops (host_block m.manager.proxy_ip) m)
        (Drops-then (λ m. each (del_bypass nl dns) m.manager.bypass m) _
          (λ r. for_all hop_route r.bypass r) _
          (λ m. Drops-each (del_bypass nl dns) hop_route del_bypass-Drops m.manager.bypass m)
          (Drops-then (each (del_split nl dns) v4_split) _ (for_all tun_route v4_split) _
            (Drops-each (del_split nl dns) tun_route del_split-Drops v4_split)
            (λ m.
              when-Drops m.manager.capture_ipv6 (each (del_split nl dns) v6_split)
                (for_all tun_route v6_split)
                (Drops-each (del_split nl dns) tun_route del_split-Drops v6_split) m)))
