-- ===== src/App/Total.antt =====
-- src/lib.rs: a run of a validated configuration, seen over every outcome of the steps outside.
use cortado.Base.{
  ℕ, ◌≡◌, refl, ap, subst, inl, inr, Bool, true, false, List, [], ◌∷◌, map, Option, none, some, ok,
  arith, Bool-cases,
}
use cortado.Config.{Parsing, Config, validate, bypass_routes, metrics_socket_addr}
use cortado.Addr.{SocketAddr}
use cortado.Config.Valid.{validate-IsReadable}
use cortado.Dns.Pool
use cortado.Reload.{Readings, readings}
use cortado.Reload.Noop.{readings_total, proxy_at}
use cortado.App.ConfigFile.{Disk, Toml, Environment}
use cortado.App.Load.{reload_config-valid}
use cortado.App.Service.{RouteController, Service, Event, serve}
use cortado.App.InSync.{InSync, AllChecked, serve-InSync}
use cortado.App.Run.{
  Outside, Run, panicked, failed, serving, finished, leaves_loop, Signal, udp_ended, stop, hang_up,
  event_of, service, after_loop, with_signals, with_netstack, with_controller, run,
}

module _ (std : Parsing) (rc : RouteController) where
  -- No panic, a service in step with its configuration while it serves, and a tear-down at the end.
  abbrev pub IsOrderly : Run std rc → Type 0
  IsOrderly panicked = ⊥
  IsOrderly (failed e s) = Unit
  IsOrderly (serving a) = InSync std rc a
  IsOrderly (finished s) =
      (a : Service std rc) × InSync std rc a × (s ≡ rc.teardown a.route_manager)

  started-InSync :
      (cfg : Config) (r : Readings) (s : rc.State) (idle : ℕ)
      → validate std cfg ≡ ok tt
      → readings std cfg ≡ some r
      → r.proxy ≡ proxy_at cfg r.address
      → InSync std rc (service std rc cfg r.proxy r.bypass s idle)
  unfolding Pool.new
  started-InSync cfg r s idle valid read named = record {
    valid = valid;
    read = r;
    readable = read;
    proxy_named = named;
    shared_proxy = refl;
    pool_proxy = refl;
    shared_routes = λ x. refl;
  }

  looped-IsOrderly :
      (left : Bool) (o : Option (Service std rc))
      → (b : Service std rc) × (o ≡ some b) × InSync std rc b
      → IsOrderly (after_loop std rc left o)
  looped-IsOrderly left none (b, e, i) = absurd (ground arith)
  looped-IsOrderly true (some a) (b, e, i) =
      let same : a ≡ b = ground arith in
      (b, i, ap (λ (x : Service std rc). rc.teardown x.route_manager) same)
  looped-IsOrderly false (some a) (b, e, i) =
      let same : b ≡ a = ground arith in subst (InSync std rc) same i

  signals-IsOrderly :
      (installed : Bool) (es : List Event) (a : Service std rc)
      → AllChecked std rc es
      → InSync std rc a
      → IsOrderly (with_signals std rc installed es a)
  signals-IsOrderly false es a checked i = tt
  signals-IsOrderly true es a checked i =
      looped-IsOrderly (leaves_loop std rc es) (serve std rc es a)
        (serve-InSync std rc es a checked i)

  -- After the route controller was made.
  applied-IsOrderly :
      (out : Outside std rc) (es : List Event) (cfg : Config) (r : Readings) (b : Bool)
      (s : rc.State)
      → AllChecked std rc es
      → validate std cfg ≡ ok tt
      → readings std cfg ≡ some r
      → r.proxy ≡ proxy_at cfg r.address
      → bypass_routes std cfg ≡ some r.bypass
      → (address : Option SocketAddr) → metrics_socket_addr std cfg ≡ some address
      → IsOrderly (with_netstack std rc out es cfg r.proxy (b, s))
  applied-IsOrderly out es cfg r false s checked valid read named blocks address metrics = tt
  applied-IsOrderly out es cfg r true s checked valid read named blocks address metrics =
      let up =
        signals-IsOrderly out.signals_installed es
          (service std rc cfg r.proxy r.bypass s out.udp_idle_timeout) checked
          (started-InSync cfg r s out.udp_idle_timeout valid read named) in
      elim (Bool-cases out.netstack_built) [
        | inl built ↦ rw (built, blocks) (rw metrics up)
        | inr not_built ↦ rw not_built tt
      ]

  controlled-IsOrderly :
      (out : Outside std rc) (es : List Event) (cfg : Config) (r : Readings) (o : Option rc.State)
      → AllChecked std rc es
      → validate std cfg ≡ ok tt
      → readings std cfg ≡ some r
      → r.proxy ≡ proxy_at cfg r.address
      → bypass_routes std cfg ≡ some r.bypass
      → (address : Option SocketAddr) → metrics_socket_addr std cfg ≡ some address
      → IsOrderly (with_controller std rc out es cfg r.proxy o)
  controlled-IsOrderly out es cfg r none checked valid read named blocks address metrics = tt
  controlled-IsOrderly out es cfg r (some s) checked valid read named blocks address metrics =
      let w = rc.apply s in
      applied-IsOrderly out es cfg r w.0 w.1 checked valid read named blocks address metrics

  -- After the configuration's accessors.
  started-IsOrderly :
      (out : Outside std rc) (es : List Event) (cfg : Config)
      → AllChecked std rc es
      → validate std cfg ≡ ok tt
      → IsOrderly (run std rc out es cfg)
  unfolding run
  started-IsOrderly out es cfg checked valid =
      let readable = validate-IsReadable std cfg valid in
      let (r, read, named, proxy, blocks) = readings_total std cfg readable in
      rw proxy (elim (Bool-cases out.reachable) [
        | inr unreachable ↦ rw unreachable tt
        | inl reachable ↦ elim (Bool-cases out.tun_created) [
          | inr missing ↦ rw (reachable, missing) tt
          | inl created ↦
              rw (reachable, created)
                (controlled-IsOrderly out es cfg r out.controller checked valid read named blocks
                  readable.metrics readable.metrics_read)
        ]
      ])

  signals_checked :
      (disk : Disk) (toml : Toml) (env : Environment) (es : List (Signal disk))
      → AllChecked std rc (map (event_of disk toml env std) es)
  signals_checked disk toml env [] = tt
  signals_checked disk toml env (udp_ended ∷ es) = signals_checked disk toml env es
  signals_checked disk toml env (stop ∷ es) = signals_checked disk toml env es
  signals_checked disk toml env (hang_up files ∷ es) =
      (reload_config-valid disk toml env std files, signals_checked disk toml env es)

  -- A run of a validated configuration never panics, whatever fails outside and whatever signals come
  -- over whatever files: it fails at a step of the start-up, or serves in step with its configuration,
  -- or has ended with the tear-down of the routes of a service that was in step.
  pub run-IsOrderly :
      (disk : Disk) (toml : Toml) (env : Environment) (out : Outside std rc)
      (es : List (Signal disk)) (cfg : Config)
      → validate std cfg ≡ ok tt
      → IsOrderly (run std rc out (map (event_of disk toml env std) es) cfg)
  run-IsOrderly disk toml env out es cfg valid =
      started-IsOrderly out (map (event_of disk toml env std) es) cfg
        (signals_checked disk toml env es) valid
