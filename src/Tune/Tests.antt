-- ===== src/Tune/Tests.antt =====
-- Runs of src/tune.rs on concrete probes and files.
use cortado.Base.{◌*◌, ◌≡◌, refl, true, false, none, some, codes}
use cortado.Tune.{SystemProbe, compute, tcp_cap, clamp, read_total_memory}
use cortado.Tune.Limits.{IsWithinLimits, compute-IsWithinLimits}

abbrev server_probe : SystemProbe
server_probe = record {
  link_mtu = some 9000;
  has_ipv6_gateway = true;
  total_memory_bytes = some (8 * 1024 * 1024 * 1024);
  fd_limit = some 1048576;
}

abbrev bare_probe : SystemProbe
bare_probe = record {
  link_mtu = some 9000;
  has_ipv6_gateway = false;
  total_memory_bytes = none;
  fd_limit = none;
}

compute-IsWithinLimits_example : IsWithinLimits (compute bare_probe)
compute-IsWithinLimits_example = compute-IsWithinLimits bare_probe

server_caps : (compute server_probe).max_tcp_connections ≡ 648
unfolding compute tcp_cap clamp
server_caps = refl

memory_read :
    read_total_memory (some (codes "MemFree: 10 kB\nMemTotal:       2048 kB\n")) ≡ some 2097152
unfolding read_total_memory
memory_read = refl
