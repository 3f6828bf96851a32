-- ===== src/App/Tests.antt =====
-- Runs of src/lib.rs over files that are an association list.
use cortado.App.Logging
use cortado.App.Logging.{info, debug, error, log, log_all}
use cortado.App.Bridge.{uplink, packet}
use cortado.App.Cli.{cmd_run, exit_of}
use cortado.Base.{
  ℕ, suc, ◌<◌, subst, ◌^◌, ◌≡◌, refl, ◌||◌, true, false, List, [], ◌∷◌, map, none, some, Bytes,
  codes, ok, err, arith, lookup, insert, lookup-insert, is_some, ◌==◌, nat_eq, list_eq, option_eq,
}
use cortado.Addr.{IpAddr, v4, SocketAddr, IsIp, IsSocketAddr}
use cortado.Text.Decimal.{parse_unsigned}
use cortado.Text.Split.{split_once}
use cortado.Config.{
  Parsing, Config, default, validate, validate_credentials, validate_dns, validate_cidrs,
  validate_metrics, parse_cidr, default_connect_timeout, bypass_routes, parse_routes,
  proxy_socket_addr, dns_addr, from_config,
}
use cortado.Config.Samples.{numbers, sample, sample_accepted}
use cortado.Platform.Samples.{Files, files, files-IsFileSystem}
use cortado.Dns.Pool
use cortado.Reload.{Readings, readings}
use cortado.App.ConfigFile.{
  Disk, Toml, Environment, not_found, init_config, writable_config_path, load_config,
  system_config_path,
}
use cortado.App.Load.{IsDisk, init_config-load_config}
use cortado.App.Service.{RouteController, Service, Event, reload_asked, shut_down, serve}
use cortado.App.InSync.{InSync, Checked, serve-InSync}
use cortado.App.Run.{Outside, Signal, hang_up, stop, event_of, service, run}
use cortado.App.Total.{IsOrderly, run-IsOrderly}

abbrev disk : Disk
disk = record {
  fs = files;
  is_file = λ p s. is_some (lookup p s);
  create_dir_all = λ d s. (true, s);
}

shown_file :
    (p q bs : Bytes) (s : Files)
    → is_some (lookup q (insert p bs s)) ≡ (p == q || is_some (lookup q s))
shown_file p q bs s = let seen = lookup-insert p q bs s in ground arith

disk-IsDisk : IsDisk disk
disk-IsDisk = record {
  files = files-IsFileSystem;
  file_written = λ p q bs s h. shown_file p q bs s;
  no_file_made = λ d q s. refl;
  directory_there = λ s h. refl;
}

-- Parsers that take every text for one address.
abbrev home_address : SocketAddr
home_address = record { ip = v4 0x7f000001; port = 1080 }

home_fits : (a : SocketAddr) → some home_address ≡ some a → IsSocketAddr a
home_fits a h = ground arith

one_fits : (a : IpAddr) → some (v4 1) ≡ some a → IsIp a
one_fits a h = ground arith

one_fits_v4 : (a : ℕ) → some 1 ≡ some a → a < 2 ^ 32
one_fits_v4 a h = ground arith

abbrev constant : Parsing
constant = record {
  parse_socket_addr = λ s. some home_address;
  parse_ip = λ s. some (v4 1);
  parse_ipv4 = λ s. some 1;
  parse_socket_addr_fits = λ s. home_fits;
  parse_ip_fits = λ s. one_fits;
  parse_ipv4_fits = λ s. one_fits_v4;
}

default_accepted : validate constant default ≡ ok tt
unfolding validate validate_dns validate_cidrs validate_metrics validate_credentials parse_cidr
default_accepted = refl

abbrev toml : Toml
toml = record {
  from_str = λ text. some default;
  to_string_pretty = λ cfg. some (codes "proxy_addr = \"127.0.0.1:1080\"");
}

abbrev env : Environment
env = record { xdg_config_home = none; home = some (codes "/root") }

initialised : (init_config disk toml env []).0 ≡ ok system_config_path
unfolding init_config writable_config_path
initialised = refl

init_config-load_config_example :
    load_config disk toml env constant (init_config disk toml env []).1 ≡ ok default
init_config-load_config_example =
    init_config-load_config disk toml env constant [] system_config_path disk-IsDisk initialised
      (λ text h. refl) default_accepted

-- A route controller that counts its calls.
abbrev counting : RouteController
counting = record {
  State = ℕ;
  apply = λ s. (true, suc s);
  reload = λ plan s. (true, suc s);
  teardown = λ s. 0;
}

abbrev reading : Readings
reading = record {
  bypass = (v4 3232235776, 24) ∷ [];
  address = record { ip = v4 2130706433; port = 1080 };
  dns = some (v4 16843009);
  proxy = record {
    addr = record { ip = v4 2130706433; port = 1080 };
    username = sample.username;
    password = sample.password;
    connect_timeout = default_connect_timeout;
    tcp_nodelay = true;
  };
}

abbrev up : Service numbers counting
up = service numbers counting sample reading.proxy reading.bypass 1 30

up-InSync : InSync numbers counting up
unfolding readings bypass_routes parse_routes parse_cidr split_once parse_unsigned proxy_socket_addr
    dns_addr from_config Pool.new
up-InSync = record {
  valid = sample_accepted;
  read = reading;
  readable = refl;
  proxy_named = refl;
  shared_proxy = refl;
  pool_proxy = refl;
  shared_routes = λ x. refl;
}

abbrev without_blocks : Config
without_blocks = record sample { bypass_cidrs = [] }

without_blocks_accepted : validate numbers without_blocks ≡ ok tt
unfolding validate parse_unsigned validate_dns validate_cidrs validate_metrics validate_credentials
    parse_cidr split_once
without_blocks_accepted = refl

abbrev events : List Event
events = reload_asked (err not_found) ∷ reload_asked (ok without_blocks) ∷ shut_down ∷ []

none_loaded : Checked numbers counting (err not_found)
none_loaded c h = absurd (ground arith)

one_loaded : Checked numbers counting (ok without_blocks)
one_loaded c h =
    let same : without_blocks ≡ c = ground arith in
    subst (λ d. validate numbers d ≡ ok tt) same without_blocks_accepted

serve-InSync_example :
    (b : Service numbers counting) × (serve numbers counting events up ≡ some b)
    × InSync numbers counting b
serve-InSync_example =
    serve-InSync numbers counting events up (none_loaded, (one_loaded, tt)) up-InSync

abbrev outside : Outside numbers counting
outside = record {
  reachable = true;
  tun_created = true;
  controller = some 0;
  netstack_built = true;
  signals_installed = true;
  udp_idle_timeout = 30;
}

abbrev signals : List (Signal disk)
signals = hang_up [] ∷ stop ∷ []

run-IsOrderly_example :
    IsOrderly numbers counting
      (run numbers counting outside (map (event_of disk toml env numbers) signals) sample)
run-IsOrderly_example =
    run-IsOrderly numbers counting disk toml env outside signals sample sample_accepted

-- A quiet logger drops the debug message.
logged_quietly :
    (log_all
      (info (codes "a") ∷ debug (codes "b") ∷ error (codes "c") ∷ [])
      (Logging.new false)).sender
    ≡ info (codes "a") ∷ error (codes "c") ∷ []
unfolding log_all log
logged_quietly = refl

-- The bridge ends with the first empty read.
bridged : uplink (packet (1 ∷ []) true ∷ packet [] true ∷ packet (2 ∷ []) true ∷ []) ≡ (1 ∷ []) ∷ []
unfolding uplink
bridged = refl

root_wanted :
    exit_of
      (λ e. codes "no")
      (codes "1.0")
      (cmd_run (λ e. codes "no") (codes "1.0") false (ok sample) true (λ c. ok tt))
    ≡ (false, codes "cortado: no" ∷ [])
unfolding exit_of cmd_run
root_wanted = refl
