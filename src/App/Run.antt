-- ===== src/App/Run.antt =====
-- src/lib.rs: `run`, from the start-up to the tear-down. What the steps outside of the program come
-- to is a parameter; the tasks are in other modules.
use cortado.Base.{ℕ, Bool, true, false, not, List, [], ◌∷◌, Option, none, some, if◌then◌else◌}
use cortado.Config.{Parsing, Config, ProxyConfig, from_config, bypass_routes, metrics_socket_addr}
use cortado.Addr.{SocketAddr}
use cortado.Net.Diff.{Block}
use cortado.Net.RouteTable
use cortado.Dns.Pool
use cortado.Stats.{started}
use cortado.App.Service.{
  RouteController, Service, Event, udp_exited, shut_down, reload_asked, serve,
}
use cortado.App.ConfigFile.{Disk, Toml, Environment, reload_config}

pub data RunError : Type 0 where
  proxy_unreachable tun_failed controller_failed routes_failed netstack_failed signals_failed :
      RunError

-- What the loop waits for: the end of the UDP task, a signal to stop, or one to reload, with the files
-- that are there when it is handled.
pub data Signal (disk : Disk) : Type 0 where
  udp_ended stop : Signal disk
  hang_up : disk.fs.State → Signal disk

abbrev pub event_of : (disk : Disk) → Toml → Environment → Parsing → Signal disk → Event
event_of disk toml env std udp_ended = udp_exited
event_of disk toml env std stop = shut_down
event_of disk toml env std (hang_up files) = reload_asked (reload_config disk toml env std files)

module _ (std : Parsing) (rc : RouteController) where
  -- What the outside answers: the probe of the proxy, the TUN device, the route controller, the
  -- network stack with its listeners, the signal handlers, and the tuned idle timeout.
  pub record Outside : Type 0 where
    pub reachable : Bool
    pub tun_created : Bool
    pub controller : Option rc.State
    pub netstack_built : Bool
    pub signals_installed : Bool
    pub udp_idle_timeout : ℕ

  -- How far a run got: it panicked, it failed and left the routes in a state, it is serving, or it
  -- ended.
  pub data Run : Type 0 where
    panicked : Run
    failed : RunError → Option rc.State → Run
    serving : Service std rc → Run
    finished : rc.State → Run

  abbrev pub leaves_loop : List Event → Bool
  leaves_loop [] = false
  leaves_loop (udp_exited ∷ es) = true
  leaves_loop (shut_down ∷ es) = true
  leaves_loop (reload_asked loaded ∷ es) = leaves_loop es

  abbrev pub service : Config → ProxyConfig → List Block → rc.State → ℕ → Service std rc
  service cfg proxy bypass s idle = record {
    current_cfg = cfg;
    route_manager = s;
    shared = record { proxy = proxy; routes = RouteTable.new bypass };
    dns_pool = Pool.new proxy proxy.connect_timeout idle;
    stats = started;
  }

  abbrev pub after_loop : Bool → Option (Service std rc) → Run
  after_loop left none = panicked
  after_loop true (some a) = finished (rc.teardown a.route_manager)
  after_loop false (some a) = serving a

  abbrev pub with_signals : Bool → List Event → Service std rc → Run
  with_signals false es a = failed signals_failed (some a.route_manager)
  with_signals true es a = after_loop (leaves_loop es) (serve std rc es a)

  -- The metrics are served where their address is configured; its accessor panics otherwise.
  abbrev pub with_metrics : Outside → List Event → Service std rc → Option (Option SocketAddr) → Run
  with_metrics out es a none = panicked
  with_metrics out es a (some address) = with_signals out.signals_installed es a

  abbrev pub with_routes :
      Outside → List Event → Config → ProxyConfig → Option (List Block) → rc.State → Run
  with_routes out es cfg proxy none s = panicked
  with_routes out es cfg proxy (some bypass) s =
      with_metrics out es (service cfg proxy bypass s out.udp_idle_timeout)
        (metrics_socket_addr std cfg)

  abbrev pub with_netstack : Outside → List Event → Config → ProxyConfig → Bool × rc.State → Run
  with_netstack out es cfg proxy (false, s) = failed routes_failed (some s)
  with_netstack out es cfg proxy (true, s) =
      if out.netstack_built
      then with_routes out es cfg proxy (bypass_routes std cfg) s
      else failed netstack_failed (some s)

  abbrev pub with_controller : Outside → List Event → Config → ProxyConfig → Option rc.State → Run
  with_controller out es cfg proxy none = failed controller_failed none
  with_controller out es cfg proxy (some s) = with_netstack out es cfg proxy (rc.apply s)

  abbrev pub with_proxy : Outside → List Event → Config → Option ProxyConfig → Run
  with_proxy out es cfg none = panicked
  with_proxy out es cfg (some proxy) =
      if not out.reachable
      then failed proxy_unreachable none
      else (if not out.tun_created
          then failed tun_failed none
          else with_controller out es cfg proxy out.controller)

  unfoldable pub run : Outside → List Event → Config → Run
  unfolding serve from_config bypass_routes metrics_socket_addr
  run out es cfg = with_proxy out es cfg (from_config std cfg)
