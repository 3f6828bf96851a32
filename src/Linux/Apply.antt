-- ===== src/Linux/Apply.antt =====
-- src/platform/linux/route.rs: `read_v4_gateway`, `read_v6_gateway` and what `apply` leaves behind.
use cortado.Base.{
  ℕ, ◌≡◌, refl, sym, ap, ap₂, subst, ◌∙◌, inl, inr, Bool, true, false, Option, Result, ok, arith,
  Result-cases,
}
use cortado.Base.Effects.{continue-eq-ok}
use cortado.Addr.{IpAddr}
use cortado.Linux.Netlink.{Netlink, IsNetlink}
use cortado.Linux.Gateways.{
  RouteManager, RouteError, gateway_for, gateway_v4, gateway_v6, read_gateway, captures_v6,
}
use cortado.Linux.RouteManager.{Machine, read_gateways, dns_called, apply, install_routes}
use cortado.Platform.{Resolver}
use cortado.Linux.Table.{overlay}
use cortado.Linux.Install.{routes, wanted, Installs, install_routes-Adds}

-- The routes do not depend on the field `applied`.
pub routes-applied :
    (captured : Bool) (r : RouteManager) (b : Bool)
    → routes captured (record r { applied = b }) ≡ routes captured r
unfolding gateway_for
routes-applied captured r b = refl

module _ (nl : Netlink) (laws : IsNetlink nl) (dns : Resolver) where
  -- The first default gateway of each family was taken from the dumps, and nothing else changed.
  pub record Reads (m n : Machine nl dns) : Type 0 where
    pub v4_found : Option (ℕ × ℕ)
    pub v6_found : Option (ℕ × ℕ)
    pub v4_read : read_gateway gateway_v4 (nl.dump_v4 m.kernel) ≡ ok v4_found
    pub v6_read : read_gateway gateway_v6 (nl.dump_v6 m.kernel) ≡ ok v6_found
    pub state :
        n ≡ record m { manager = record m.manager { v4_gateway = v4_found; v6_gateway = v6_found } }

  read_gateways-Reads :
      (m : Machine nl dns) → (read_gateways nl dns m).0 ≡ ok tt → Reads m (read_gateways nl dns m).1
  read_gateways-Reads m h = elim (Result-cases (read_gateway gateway_v4 (nl.dump_v4 m.kernel))) [
    | inr (e, e4) ↦ absurd (ground arith)
    | inl (g, e4) ↦ elim (Result-cases (read_gateway gateway_v6 (nl.dump_v6 m.kernel))) [
      | inr (e, e6) ↦ absurd (ground arith)
      | inl (g', e6) ↦ record {
        v4_found = g;
        v6_found = g';
        v4_read = e4;
        v6_read = e6;
        state = rw e4 (rw e6 refl);
      }
    ]
  ]

  -- What `apply` promises of the machine it was called on and the one it leaves.
  pub record Applied (m n : Machine nl dns) : Type 0 where
    pub manager : n.manager ≡ record m.manager {
      v4_gateway = n.manager.v4_gateway;
      v6_gateway = n.manager.v6_gateway;
      applied = true;
    }
    pub v4_read : read_gateway gateway_v4 (nl.dump_v4 m.kernel) ≡ ok n.manager.v4_gateway
    pub v6_read : read_gateway gateway_v6 (nl.dump_v6 m.kernel) ≡ ok n.manager.v6_gateway
    pub table :
        (k : IpAddr × ℕ) → nl.via n.kernel k ≡ overlay (wanted n.manager) (nl.via m.kernel) k
    pub resolver : dns.apply m.manager.dns_server m.resolver ≡ (true, n.resolver)

  called-ok :
      (m : Machine nl dns) (b : Bool) (s : dns.State)
      → (dns_called nl dns m (b, s)).0 ≡ ok tt
      → (b ≡ true) × (dns_called nl dns m (b, s) ≡ (ok tt, record m { resolver = s }))
  called-ok m true s h = (refl, refl)
  called-ok m false s h = absurd (ground arith)

  completed :
      (m n o : Machine nl dns) (s : dns.State)
      → Reads m n
      → Installs nl laws dns (wanted n.manager) n o
      → dns.apply o.manager.dns_server o.resolver ≡ (true, s)
      → Applied m (record o { manager = record o.manager { applied = true }; resolver = s })
  completed m n o s reads installs called =
      let same : o.manager
          ≡ record m.manager { v4_gateway = reads.v4_found; v6_gateway = reads.v6_found } =
        installs.manager_kept ∙ ap (λ (x : Machine nl dns). x.manager) reads.state in
      record {
        manager =
            subst
              (λ (r : RouteManager). record r { applied = true } ≡ record m.manager {
                v4_gateway = r.v4_gateway;
                v6_gateway = r.v6_gateway;
                applied = true;
              })
              (sym same) refl;
        v4_read = reads.v4_read ∙ ap (λ (r : RouteManager). ok r.v4_gateway) (sym same);
        v6_read = reads.v6_read ∙ ap (λ (r : RouteManager). ok r.v6_gateway) (sym same);
        table = λ k.
            installs.table k
            ∙ ap₂ (λ rs t. overlay rs (nl.via t) k)
                (ap wanted (sym installs.manager_kept)
                  ∙ sym (routes-applied (captures_v6 o.manager) o.manager true))
                (ap (λ (x : Machine nl dns). x.kernel) reads.state);
        resolver =
            sym (
              ap₂ (λ (r : RouteManager) t. dns.apply r.dns_server t) same
                (installs.resolver_kept ∙ ap (λ (x : Machine nl dns). x.resolver) reads.state))
            ∙ called;
      }

  -- Where `apply` succeeds, the first default gateways are read, the resolver is overridden with
  -- the configured server, the manager is marked as applied, and the routing table is the one before
  -- with exactly the wanted routes laid over it.
  pub apply-Applied :
      (m : Machine nl dns) → (apply nl dns m).0 ≡ ok tt → Applied m (apply nl dns m).1
  unfolding apply
  apply-Applied m h =
      let n = (read_gateways nl dns m).1 in
      let o = (install_routes nl dns n).1 in
      let c = dns.apply o.manager.dns_server o.resolver in
      let (_, read, after_read) = continue-eq-ok (read_gateways nl dns m).0 n _ tt h in
      let (_, installed, after_install) =
        continue-eq-ok (install_routes nl dns n).0 o _ tt (rw after_read at h) in
      let (_, reached, after_call) =
        continue-eq-ok (dns_called nl dns o c).0 (dns_called nl dns o c).1 _ tt
          (rw after_install at (rw after_read at h)) in
      let (true_call, called) = called-ok o c.0 c.1 reached in
      let whole : apply nl dns m
          ≡ (ok tt, record o { manager = record o.manager { applied = true }; resolver = c.1 }) =
        after_read
        ∙ after_install
        ∙ after_call
        ∙ ap
            (λ (x : Result RouteError (Unit {0}) × Machine nl dns).
              (ok tt, record x.1 { manager = record x.1.manager { applied = true } }))
            called in
      subst (λ (x : Result RouteError (Unit {0}) × Machine nl dns). Applied m x.1) (sym whole)
        (completed m n o c.1 (read_gateways-Reads m read)
          (install_routes-Adds nl laws dns n installed) (ap (λ b. (b, c.1)) true_call))
