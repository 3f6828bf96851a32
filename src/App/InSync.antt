-- ===== src/App/InSync.antt =====
-- src/lib.rs: what the tasks share follows the configuration, over every sequence of events.
use cortado.Base.{
  ◌≡◌, refl, sym, ap, ap₂, ◌∙◌, inl, inr, Bool, true, false, List, [], ◌∷◌, Option, some, Result,
  ok, err, ==_iff, list_eq, nat_eq, option_eq, pair_eq, arith, Bool-cases, if◌then◌else◌, contains,
}
use cortado.Addr.{IpAddr, SocketAddr, socket_eq, ip_eq}
use cortado.Net.Cidr
use cortado.Net.Diff.{Block}
use cortado.Net.RouteTable
use cortado.Net.RouteTable.{RouteTable, decide, decide-new, cidr_of, direct, proxy}
use cortado.Config.{Parsing, Config, validate}
use cortado.Config.Valid.{validate-IsReadable}
use cortado.Reload.{Readings, readings, plan_of, compute, is_noop}
use cortado.Reload.Noop.{readings_total, proxy_at, is_noop-IsSame, any_same}
use cortado.Dns.Pool.{set_proxy}
use cortado.App.ConfigFile.{LoadError}
use cortado.App.Service.{
  RouteController, Service, Event, udp_exited, shut_down, reload_asked, pool_after, committed,
  on_plan, apply_reload, serve,
}

module _ (std : Parsing) (rc : RouteController) where
  -- The current configuration is valid; the tasks' proxy and the pool's are the ones it names, and the
  -- tasks' routing table decides every address as one made of its bypass blocks.
  pub record InSync (a : Service std rc) : Type 0 where
    pub valid : validate std a.current_cfg ≡ ok tt
    pub read : Readings
    pub readable : readings std a.current_cfg ≡ some read
    pub proxy_named : read.proxy ≡ proxy_at a.current_cfg read.address
    pub shared_proxy : a.shared.proxy ≡ read.proxy
    pub pool_proxy : a.dns_pool.proxy ≡ read.proxy
    pub shared_routes :
        (x : IpAddr) → decide a.shared.routes x ≡ decide (RouteTable.new read.bypass) x

  same_proxy :
      (old latest : Config) (r s : Readings)
      → r.proxy ≡ proxy_at old r.address
      → s.proxy ≡ proxy_at latest s.address
      → r.address ≡ s.address
      → old.username ≡ latest.username
      → old.password ≡ latest.password
      → r.proxy ≡ s.proxy
  same_proxy old latest r s er es addr user pass =
      er
      ∙ ap₂
          (λ (a : SocketAddr) (u : Option _). record {
            addr = a;
            username = u;
            password = old.password;
            connect_timeout = 10000;
            tcp_nodelay = true;
          })
          addr user
      ∙ ap
          (λ (p : Option _). record {
            addr = s.address;
            username = latest.username;
            password = p;
            connect_timeout = 10000;
            tcp_nodelay = true;
          })
          pass
      ∙ sym es

  -- Tables of the same blocks decide alike.
  same_routes :
      (r s : Readings) (x : IpAddr)
      → ((b : Block) → contains r.bypass b ≡ contains s.bypass b)
      → decide (RouteTable.new r.bypass) x ≡ decide (RouteTable.new s.bypass) x
  same_routes r s x h =
      decide-new r.bypass x
      ∙ ap (λ (m : Bool). if m then direct else proxy)
          (any_same (λ (b : Block). Cidr.contains (cidr_of b) x) r.bypass s.bypass h)
      ∙ sym (decide-new s.bypass x)

  noop-InSync :
      (a : Service std rc) (latest : Config) (s : Readings)
      → (i : InSync a) → validate std latest ≡ ok tt
      → readings std latest ≡ some s
      → s.proxy ≡ proxy_at latest s.address
      → is_noop (plan_of a.current_cfg latest i.read s) ≡ true
      → InSync (record a { current_cfg = latest })
  noop-InSync a latest s i valid es named h =
      let same = is_noop-IsSame a.current_cfg latest i.read s h in
      let proxies =
        same_proxy a.current_cfg latest i.read s i.proxy_named named same.same_address
          same.same_username same.same_password in
      record {
        valid = valid;
        read = s;
        readable = es;
        proxy_named = named;
        shared_proxy = i.shared_proxy ∙ proxies;
        pool_proxy = i.pool_proxy ∙ proxies;
        shared_routes = λ x. i.shared_routes x ∙ same_routes i.read s x same.same_blocks;
      }

  -- The pool's proxy is replaced where it changed, and is the new one where it did not.
  pool_follows :
      (a : Service std rc) (latest : Config) (s : Readings) (i : InSync a)
      → s.proxy ≡ proxy_at latest s.address
      → (pool_after std rc (plan_of a.current_cfg latest i.read s) a.dns_pool).proxy ≡ s.proxy
  unfolding plan_of set_proxy
  pool_follows a latest s i named =
      let plan = plan_of a.current_cfg latest i.read s in
      elim (Bool-cases plan.proxy_changed) [
        | inl changed ↦ rw changed refl
        | inr unchanged ↦
            let addr : i.read.address ≡ s.address =
              (==_iff i.read.address s.address).0 (ground arith) in
            let user : a.current_cfg.username ≡ latest.username =
              (==_iff a.current_cfg.username latest.username).0 (ground arith) in
            let pass : a.current_cfg.password ≡ latest.password =
              (==_iff a.current_cfg.password latest.password).0 (ground arith) in
            rw unchanged (
              i.pool_proxy
              ∙ same_proxy a.current_cfg latest i.read s i.proxy_named named addr user pass)
      ]

  committed-InSync :
      (a : Service std rc) (latest : Config) (s : Readings) (b : Bool) (t : rc.State)
      → (i : InSync a) → validate std latest ≡ ok tt
      → readings std latest ≡ some s
      → s.proxy ≡ proxy_at latest s.address
      → InSync (committed std rc latest (plan_of a.current_cfg latest i.read s) (b, t) a)
  unfolding plan_of
  committed-InSync a latest s false t i valid es named = record {
    valid = i.valid;
    read = i.read;
    readable = i.readable;
    proxy_named = i.proxy_named;
    shared_proxy = i.shared_proxy;
    pool_proxy = i.pool_proxy;
    shared_routes = i.shared_routes;
  }
  committed-InSync a latest s true t i valid es named = record {
    valid = valid;
    read = s;
    readable = es;
    proxy_named = named;
    shared_proxy = refl;
    pool_proxy = pool_follows a latest s i named;
    shared_routes = λ x. refl;
  }

  on_plan-InSync :
      (a : Service std rc) (latest : Config) (s : Readings) (i : InSync a)
      → validate std latest ≡ ok tt
      → readings std latest ≡ some s
      → s.proxy ≡ proxy_at latest s.address
      → InSync (on_plan std rc latest (plan_of a.current_cfg latest i.read s) a)
  unfolding on_plan
  on_plan-InSync a latest s i valid es named =
      let plan = plan_of a.current_cfg latest i.read s in
      elim (Bool-cases (is_noop plan)) [
        | inl nothing ↦ rw nothing (noop-InSync a latest s i valid es named nothing)
        | inr something ↦
            let w = rc.reload plan a.route_manager in
            rw something (committed-InSync a latest s w.0 w.1 i valid es named)
      ]

  -- That a configuration that was loaded is valid.
  abbrev pub Checked : Result LoadError Config → Type 0
  Checked loaded = (c : Config) → loaded ≡ ok c → validate std c ≡ ok tt

  -- A reload does not panic, and leaves what the tasks share in step with the configuration, whether
  -- the file is refused, nothing changes, the routes fail, or all is applied.
  pub apply_reload-InSync :
      (loaded : Result LoadError Config) (a : Service std rc)
      → Checked loaded
      → InSync a
      → (b : Service std rc) × (apply_reload std rc loaded a ≡ some b) × InSync b
  unfolding apply_reload compute
  apply_reload-InSync (err e) a checked i = (a, refl, i)
  apply_reload-InSync (ok latest) a checked i =
      let valid = checked latest refl in
      let (s, es, named, _, _) = readings_total std latest (validate-IsReadable std latest valid) in
      let plan = plan_of a.current_cfg latest i.read s in
      (
        on_plan std rc latest plan a,
        rw (i.readable, es, compute) refl,
        on_plan-InSync a latest s i valid es named,
      )

  abbrev pub AllChecked : List Event → Type 0
  AllChecked [] = Unit
  AllChecked (udp_exited ∷ es) = AllChecked es
  AllChecked (shut_down ∷ es) = AllChecked es
  AllChecked (reload_asked loaded ∷ es) = Checked loaded × AllChecked es

  -- The loop over any sequence of events does not panic and keeps them in step.
  pub serve-InSync :
      (es : List Event) (a : Service std rc)
      → AllChecked es
      → InSync a
      → (b : Service std rc) × (serve std rc es a ≡ some b) × InSync b
  unfolding serve
  serve-InSync [] a checked i = (a, refl, i)
  serve-InSync (udp_exited ∷ es) a checked i = (a, refl, i)
  serve-InSync (shut_down ∷ es) a checked i = (a, refl, i)
  serve-InSync (reload_asked loaded ∷ es) a (checked, later) i =
      let (b, e, j) = apply_reload-InSync loaded a checked i in
      let (c, f, k) = serve-InSync es b later j in (c, rw (e, serve) f, k)
