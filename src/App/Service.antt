-- ===== src/App/Service.antt =====
-- src/lib.rs: `apply_reload` and the loop of `run`; a route controller is a parameter. What is only
-- logged is left out.
use cortado.Base.{
  Bool, true, false, List, [], ◌∷◌, Option, none, some, Result, ok, err, if◌then◌else◌,
}
use cortado.Config.{Parsing, Config}
use cortado.Reload.{Shared, store_proxy, store_routes, ReloadPlan, compute, is_noop}
use cortado.Dns.Pool.{DnsPool, set_proxy}
use cortado.Stats.{Stats, inc, config_reloads}
use cortado.App.ConfigFile.{LoadError}

-- src/platform/mod.rs: `RouteController`, as `run` uses it.
pub record RouteController : Type 1 where
  pub State : Type 0
  pub apply : State → Bool × State
  pub reload : ReloadPlan → State → Bool × State
  pub teardown : State → State

-- What `run` waits for: the end of the UDP task, a signal to stop, or one to reload, with what
-- `reload_config` then returns.
pub data Event : Type 0 where
  udp_exited shut_down : Event
  reload_asked : Result LoadError Config → Event

module _ (std : Parsing) (rc : RouteController) where
  pub record Service : Type 0 where
    pub current_cfg : Config
    pub route_manager : rc.State
    pub shared : Shared
    pub dns_pool : DnsPool
    pub stats : Stats

  abbrev pub pool_after : ReloadPlan → DnsPool → DnsPool
  pool_after plan pool = if plan.proxy_changed then set_proxy plan.proxy pool else pool

  abbrev pub committed : Config → ReloadPlan → Bool × rc.State → Service → Service
  committed new_cfg plan (false, s) a = record a { route_manager = s }
  committed new_cfg plan (true, s) a = record a {
    current_cfg = new_cfg;
    route_manager = s;
    shared = store_routes plan.route_table (store_proxy plan.proxy a.shared);
    dns_pool = pool_after plan a.dns_pool;
    stats = inc config_reloads a.stats;
  }

  unfoldable pub on_plan : Config → ReloadPlan → Service → Service
  unfolding is_noop set_proxy
  on_plan new_cfg plan a =
      if is_noop plan
      then record a { current_cfg = new_cfg }
      else committed new_cfg plan (rc.reload plan a.route_manager) a

  abbrev pub on_computed : Config → Option ReloadPlan → Service → Option Service
  on_computed new_cfg none a = none
  on_computed new_cfg (some plan) a = some (on_plan new_cfg plan a)

  -- `none` is the panic of an accessor.
  unfoldable pub apply_reload : Result LoadError Config → Service → Option Service
  unfolding on_plan compute
  apply_reload (err e) a = some a
  apply_reload (ok new_cfg) a = on_computed new_cfg (compute std a.current_cfg new_cfg) a

  -- The loop; `none` is a panic, and without a further event it waits.
  unfoldable pub serve : List Event → Service → Option Service
  unfolding apply_reload
  serve [] a = some a
  serve (udp_exited ∷ es) a = some a
  serve (shut_down ∷ es) a = some a
  serve (reload_asked loaded ∷ es) a = elim (apply_reload loaded a) [
    | none ↦ none
    | some b ↦ serve es b
  ]
