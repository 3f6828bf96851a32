-- ===== src/Linux/Teardown.antt =====
-- src/platform/linux/route.rs: `teardown`, alone and after `apply`.
use cortado.Base.{
  ℕ, ◌≡◌, refl, sym, ap, subst, ◌∙◌, ◌⊎◌, inl, inr, Bool, true, false, List, [], ◌∷◌, ◌++◌, none,
  some, Result, ok, arith, All, All-append, contains, ==_iff, nat_eq, pair_eq, Bool-cases, ◌||◌,
  ◌&&◌, is_some,
}
use cortado.Base.Effects.{>>=-ok}
use cortado.Addr.{IpAddr, ip_eq, is_ipv6}
use cortado.Linux.Netlink.{Route, key_of, Netlink, IsNetlink}
use cortado.Linux.Gateways.{RouteManager, RouteError, host_block, captures_v6, v4_split, v6_split}
use cortado.Linux.RouteManager.{Machine, remove_routes, teardown, apply}
use cortado.Platform.{Resolver}
use cortado.Linux.Table.{keys, overlay-cases}
use cortado.Linux.Install.{tun_route, hop_route, for_all, only_when, wanted, removed}
use cortado.Linux.Apply.{routes-applied, Applied, apply-Applied}
use cortado.Linux.Remove.{Gone, Removes, remove_routes-Drops}

Listed : List Route → Route → Type 0
Listed rs r = contains (keys rs) (key_of r) ≡ true

Listed-later : (r : Route) (rs ss : List Route) → All (Listed rs) ss → All (Listed (r ∷ rs)) ss
unfolding Listed
Listed-later r rs [] h = tt
Listed-later r rs (s ∷ ss) (p, h) = (ground arith, Listed-later r rs ss h)

All-Listed : (rs : List Route) → All (Listed rs) rs
unfolding Listed
All-Listed [] = tt
All-Listed (r ∷ rs) =
    let same = (==_iff (key_of r) (key_of r)).1 refl in
    (ground arith, Listed-later r rs rs (All-Listed rs))

-- Both facts of the routes at once.
All-both : (P Q : Route → Type 0) (rs : List Route) → All P rs → All Q rs → All (λ r. P r × Q r) rs
All-both P Q [] p q = tt
All-both P Q (r ∷ rs) (p, ps) (q, qs) = ((p, q), All-both P Q rs ps qs)

All-left : (P : Route → Type 0) (rs ss : List Route) → All P (rs ++ ss) → All P rs
All-left P [] ss h = tt
All-left P (r ∷ rs) ss (p, h) = (p, All-left P rs ss h)

All-right : (P : Route → Type 0) (rs ss : List Route) → All P (rs ++ ss) → All P ss
All-right P [] ss h = h
All-right P (r ∷ rs) ss (p, h) = All-right P rs ss h

All-only_when :
    (P : Route → Type 0) (b c : Bool) (rs : List Route)
    → All P (only_when b rs)
    → All P (only_when (b && c) rs)
All-only_when P true true rs h = h
All-only_when P true false rs h = tt
All-only_when P false c rs h = tt

-- What was installed is among what is removed.
pub wanted-removed : (P : Route → Type 0) (r : RouteManager) → All P (removed r) → All P (wanted r)
wanted-removed P r h =
    let hops = hop_route (host_block r.proxy_ip) r in
    let blocks = for_all hop_route r.bypass r in
    let halves = for_all tun_route v4_split r in
    let later = for_all tun_route v6_split r in
    let after_hops = All-right P hops (blocks ++ (halves ++ only_when r.capture_ipv6 later)) h in
    let after_blocks = All-right P blocks (halves ++ only_when r.capture_ipv6 later) after_hops in
    All-append P hops (blocks ++ (halves ++ only_when (captures_v6 r) later))
      (All-left P hops (blocks ++ (halves ++ only_when r.capture_ipv6 later)) h)
      (All-append P blocks (halves ++ only_when (captures_v6 r) later)
        (All-left P blocks (halves ++ only_when r.capture_ipv6 later) after_hops)
        (All-append P halves (only_when (captures_v6 r) later)
          (All-left P halves (only_when r.capture_ipv6 later) after_blocks)
          (All-only_when P r.capture_ipv6 (is_some r.v6_gateway || is_ipv6 r.proxy_ip) later
            (All-right P halves (only_when r.capture_ipv6 later) after_blocks))))

module _ (nl : Netlink) (laws : IsNetlink nl) (dns : Resolver) where
  -- What `teardown` of an applied manager promises: no key is shown another route, keys of none of
  -- the removed routes are left alone, and those of the removed routes that were shown are gone.
  pub record TornDown (m n : Machine nl dns) : Type 0 where
    pub manager : n.manager ≡ record m.manager { applied = false }
    pub resolver : n.resolver ≡ dns.restore m.resolver
    pub shrinks :
        (k : IpAddr × ℕ) → (nl.via n.kernel k ≡ none) ⊎ (nl.via n.kernel k ≡ nl.via m.kernel k)
    pub untouched :
        (k : IpAddr × ℕ)
        → contains (keys (removed m.manager)) k ≡ false
        → nl.via n.kernel k ≡ nl.via m.kernel k
    pub gone : All (Gone nl laws dns m.kernel n.kernel) (removed m.manager)

  cleared :
      (m o : Machine nl dns) (rs : List Route)
      → Removes nl laws dns rs (record m { manager = record m.manager { applied = false } }) o
      → rs ≡ removed m.manager
      → TornDown m (record o { resolver = dns.restore o.resolver })
  cleared m o rs drops same = record {
    manager = drops.manager_kept;
    resolver = ap dns.restore drops.resolver_kept;
    shrinks = drops.shrinks;
    untouched = λ k h. drops.untouched k (subst (λ ss. contains (keys ss) k ≡ false) (sym same) h);
    gone = subst (λ ss. All (Gone nl laws dns m.kernel o.kernel) ss) same drops.gone;
  }

  -- `teardown` of an applied manager always succeeds. It marks the manager as not applied, restores
  -- the resolver, and changes the routing table only at the keys of the removed routes: each key is
  -- left as it was or has no route, and a removed route that was shown is gone.
  pub teardown-TornDown :
      (m : Machine nl dns)
      → m.manager.applied ≡ true
      → ((teardown nl dns m).0 ≡ ok tt) × TornDown m (teardown nl dns m).1
  unfolding teardown
  teardown-TornDown m on =
      let n : Machine nl dns = record m { manager = record m.manager { applied = false } } in
      let o = (remove_routes nl dns n).1 in
      let (done, drops) = remove_routes-Drops nl laws dns n in
      let whole : teardown nl dns m ≡ (ok tt, record o { resolver = dns.restore o.resolver }) =
        rw on (>>=-ok (remove_routes nl dns) _ n tt done) in
      subst (λ (c : Result RouteError (Unit {0}) × Machine nl dns). (c.0 ≡ ok tt) × TornDown m c.1)
        (sym whole)
        (
          refl,
          cleared m o (removed n.manager) drops
              (routes-applied m.manager.capture_ipv6 m.manager false),
        )

  -- No route is shown at the keys of the routes that teardown would remove.
  abbrev pub Free : RouteManager → nl.State → Type 0
  Free r s = (k : IpAddr × ℕ) → contains (keys (removed r)) k ≡ true → nl.via s k ≡ none

  cleaned :
      (m n o : Machine nl dns) (k : IpAddr × ℕ)
      → Applied nl laws dns m n
      → TornDown n o
      → Free n.manager m.kernel
      → nl.via o.kernel k ≡ nl.via m.kernel k
  unfolding Listed
  cleaned m n o k applied torn free =
      let facts =
        wanted-removed (λ r. Listed (removed n.manager) r × Gone nl laws dns n.kernel o.kernel r)
          n.manager
          (All-both (Listed (removed n.manager)) (Gone nl laws dns n.kernel o.kernel)
            (removed n.manager) (All-Listed (removed n.manager)) torn.gone) in
      let shown = applied.table k in
      elim (overlay-cases _ (wanted n.manager) (nl.via m.kernel) k facts) [
        | inr (r, (listed, gone), here, found) ↦
            let vacant =
              free k (subst (λ j. contains (keys (removed n.manager)) j ≡ true) here listed) in
            let there : nl.via n.kernel (key_of r) ≡ some r.via =
              ap (nl.via n.kernel) here ∙ shown ∙ found in
            sym (ap (nl.via o.kernel) here) ∙ gone there ∙ sym vacant
        | inl (same, _) ↦ elim (Bool-cases (contains (keys (removed n.manager)) k)) [
          | inr outside ↦ torn.untouched k outside ∙ shown ∙ same
          | inl inside ↦ elim (torn.shrinks k) [
            | inr kept ↦ kept ∙ shown ∙ same
            | inl left ↦ left ∙ sym (free k inside)
          ]
        ]
      ]

  -- Where `apply` succeeded and no route was shown before at the keys that teardown removes,
  -- `teardown` brings back the routing table that was there before `apply`.
  pub apply-teardown :
      (m : Machine nl dns)
      → (apply nl dns m).0 ≡ ok tt
      → Free (apply nl dns m).1.manager m.kernel
      → ((teardown nl dns (apply nl dns m).1).0 ≡ ok tt)
        × ((k : IpAddr × ℕ)
            → nl.via (teardown nl dns (apply nl dns m).1).1.kernel k ≡ nl.via m.kernel k)
  apply-teardown m h free =
      let n = (apply nl dns m).1 in
      let applied = apply-Applied nl laws dns m h in
      let (done, torn) =
        teardown-TornDown n (ap (λ (r : RouteManager). r.applied) applied.manager) in
      (done, λ k. cleaned m n (teardown nl dns n).1 k applied torn free)
