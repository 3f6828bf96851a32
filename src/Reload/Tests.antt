-- ===== src/Reload/Tests.antt =====
-- Runs of src/reload.rs between two configurations with the same blocks in another order.
use cortado.Base.{◌≡◌, refl, true, List, [], ◌∷◌, some, codes, ok}
use cortado.Config.{
  Config, bypass_routes, parse_routes, proxy_socket_addr, dns_addr, from_config, validate,
  validate_credentials, validate_dns, validate_cidrs, validate_metrics, parse_cidr,
}
use cortado.Addr.{v4}
use cortado.Text.Decimal.{parse_unsigned}
use cortado.Text.Split.{split_once}
use cortado.Net.Diff.{Block, diff_cidrs}
use cortado.Config.Samples.{numbers, sample}
use cortado.Reload.{ReloadPlan, Readings, compute, readings, plan_of, is_noop}
use cortado.Reload.Noop.{KeepsAll, is_noop-KeepsAll}

abbrev ordered : Config
ordered = record sample { bypass_cidrs = codes "3232235776/24" ∷ codes "1/32" ∷ [] }

abbrev reordered : Config
reordered = record sample { bypass_cidrs = codes "1/32" ∷ codes "3232235776/24" ∷ [] }

ordered_accepted : validate numbers ordered ≡ ok tt
unfolding validate parse_unsigned validate_dns validate_cidrs validate_metrics validate_credentials
    parse_cidr split_once
ordered_accepted = refl

reordered_accepted : validate numbers reordered ≡ ok tt
unfolding validate parse_unsigned validate_dns validate_cidrs validate_metrics validate_credentials
    parse_cidr split_once
reordered_accepted = refl

abbrev reading : List Block → Readings
reading bypass = record {
  bypass = bypass;
  address = record { ip = v4 2130706433; port = 1080 };
  dns = some (v4 16843009);
  proxy = record {
    addr = record { ip = v4 2130706433; port = 1080 };
    username = sample.username;
    password = sample.password;
    connect_timeout = 10000;
    tcp_nodelay = true;
  };
}

abbrev the_plan : ReloadPlan
the_plan =
    plan_of ordered reordered (reading ((v4 3232235776, 24) ∷ (v4 1, 32) ∷ []))
      (reading ((v4 1, 32) ∷ (v4 3232235776, 24) ∷ []))

planned : compute numbers ordered reordered ≡ some the_plan
unfolding compute readings bypass_routes parse_routes parse_cidr split_once parse_unsigned
    proxy_socket_addr dns_addr from_config
planned = refl

without_effect : is_noop the_plan ≡ true
unfolding is_noop plan_of diff_cidrs
without_effect = refl

is_noop-KeepsAll_example : KeepsAll numbers ordered reordered the_plan
is_noop-KeepsAll_example =
    is_noop-KeepsAll numbers ordered reordered the_plan planned without_effect
