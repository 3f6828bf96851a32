-- ===== src/Platform/Commands.antt =====
-- What the route controllers of macOS and Windows share: routes that a system program adds and
-- deletes, each named by the arguments it is given, and the steps of a controller.
use cortado.Base.{◌≡◌, ◌⊎◌, Bool, true, false, List, Option, Bytes, Result, ok, err}
use cortado.Base.Effects.{Effect, modify, skip, quietly}
use cortado.Addr.{IpAddr}
use cortado.Platform.{Resolver}

-- The programs that the controllers run: whether one succeeds, and what one prints. `held` is
-- whether the system's routing table has the route of that name, `same` whether two names are of
-- one route.
pub record Commands : Type 1 where
  pub State : Type 0
  pub status : List Bytes → State → Bool × State
  pub output : List Bytes → State → Option Bytes
  pub held : List Bytes → State → Bool
  pub same : List Bytes → List Bytes → Bool

-- A routing table by the names of its routes.
pub record Routing : Type 1 where
  pub State : Type 0
  pub add : List Bytes → State → Bool × State
  pub delete : List Bytes → State → Bool × State
  pub held : List Bytes → State → Bool
  pub same : List Bytes → List Bytes → Bool

-- Adding a route, where it succeeds, puts it in the table, and in any case changes no other one;
-- after deleting a route it is not in the table, and any
-- other route is if it was before.
pub record IsRouting (t : Routing) : Type 0 where
  pub same_self : (r : List Bytes) → t.same r r ≡ true
  pub added : (r : List Bytes) (s : t.State) → (t.add r s).0 ≡ true → t.held r (t.add r s).1 ≡ true
  pub kept : (r q : List Bytes) (s : t.State) → t.held q s ≡ true → t.held q (t.add r s).1 ≡ true
  pub no_more :
      (r q : List Bytes) (s : t.State)
      → t.held q (t.add r s).1 ≡ true
      → (t.same q r ≡ true) ⊎ (t.held q s ≡ true)
  pub deleted :
      (r q : List Bytes) (s : t.State)
      → t.held q (t.delete r s).1 ≡ true
      → (t.same q r ≡ false) × (t.held q s ≡ true)
  pub spared :
      (r q : List Bytes) (s : t.State)
      → t.held q s ≡ true
      → t.same q r ≡ false
      → t.held q (t.delete r s).1 ≡ true

pub data ControlError : Type 0 where
  no_gateway command_failed dns_failed : ControlError

module _ (t : Routing) (dns : Resolver) (Manager : Type 0) where
  pub record Machine : Type 0 where
    pub manager : Manager
    pub system : t.State
    pub resolver : dns.State

  abbrev pub M : Type 0
  M = Effect Machine ControlError (Unit {0})

  abbrev pub status_of : Machine → Bool × t.State → Result ControlError (Unit {0}) × Machine
  status_of m (true, s) = (ok tt, record m { system = s })
  status_of m (false, s) = (err command_failed, record m { system = s })

  unfoldable pub add_route : List Bytes → M
  add_route r m = status_of m (t.add r m.system)

  unfoldable pub add_quietly : List Bytes → M
  unfolding add_route
  add_quietly r = quietly (add_route r)

  unfoldable pub delete_quietly : List Bytes → M
  delete_quietly r = modify λ m. record m { system = (t.delete r m.system).1 }

  abbrev pub with_manager : (Manager → Manager) → M
  with_manager f = modify λ m. record m { manager = f m.manager }

  abbrev pub when : Bool → M → M
  when true step = step
  when false step = skip

  abbrev pub dns_called : Machine → Bool × dns.State → Result ControlError (Unit {0}) × Machine
  dns_called m (true, s) = (ok tt, record m { resolver = s })
  dns_called m (false, s) = (err dns_failed, record m { resolver = s })

  abbrev pub apply_dns : Option IpAddr → M
  apply_dns server m = dns_called m (dns.apply server m.resolver)

  abbrev pub reload_dns : Option IpAddr → M
  reload_dns server m = dns_called m (dns.reload server m.resolver)

  abbrev pub restore_dns : M
  restore_dns = modify λ m. record m { resolver = dns.restore m.resolver }
