-- ===== src/Metrics.antt =====
-- src/metrics.rs: the text of the metrics and the answer to a client. The listener and the sockets are
-- left out: a request is read and ignored.
pub mod Scrape
pub mod Exposed
mod Tests
use cortado.Base.{ℕ, List, [], ◌∷◌, ◌++◌, Bytes, codes, length}
use Prim.Native.String.{String}
use cortado.Text.Decimal.{to_string}
use cortado.Stats.{
  Stats, Counter, get, tcp_opened, tcp_closed, tcp_errors, tcp_active, udp_packets, udp_errors,
  udp_active, bytes_tx, bytes_rx, bytes_v4, bytes_v6, dns_requests, dns_failures, dns_pool_hits,
  dns_pool_misses, route_direct, route_proxy, conn_failures, socks_handshake_failures,
  config_reloads,
}

-- An entry of one of the two tables.
pub record Metric : Type 0 where
  pub name : Bytes
  pub help : Bytes
  pub counter : Counter

abbrev metric_of : String → String → Counter → Metric
metric_of name help counter = record { name = codes name; help = codes help; counter = counter }

abbrev pub counters : List Metric
counters =
    metric_of "cortado_tcp_opened_total" "TCP connections opened" tcp_opened
    ∷ metric_of "cortado_tcp_closed_total" "TCP connections closed" tcp_closed
    ∷ metric_of "cortado_tcp_errors_total" "TCP relay errors" tcp_errors
    ∷ metric_of "cortado_udp_packets_total" "UDP packets ingested" udp_packets
    ∷ metric_of "cortado_udp_errors_total" "UDP relay errors" udp_errors
    ∷ metric_of "cortado_bytes_tx_total" "Bytes sent to proxy" bytes_tx
    ∷ metric_of "cortado_bytes_rx_total" "Bytes received from proxy" bytes_rx
    ∷ metric_of "cortado_bytes_ipv4_total" "Bytes relayed for IPv4 destinations" bytes_v4
    ∷ metric_of "cortado_bytes_ipv6_total" "Bytes relayed for IPv6 destinations" bytes_v6
    ∷ metric_of "cortado_dns_requests_total" "DNS requests handled" dns_requests
    ∷ metric_of "cortado_dns_failures_total" "DNS requests that failed" dns_failures
    ∷ metric_of "cortado_dns_pool_hits_total" "DNS queries served by a reused connection"
        dns_pool_hits
    ∷ metric_of "cortado_dns_pool_misses_total" "DNS queries that opened a new connection"
        dns_pool_misses
    ∷ metric_of "cortado_route_direct_total" "Flows classified as direct" route_direct
    ∷ metric_of "cortado_route_proxy_total" "Flows classified as proxied" route_proxy
    ∷ metric_of "cortado_conn_failures_total" "Outbound connection failures" conn_failures
    ∷ metric_of "cortado_socks_handshake_failures_total" "SOCKS5 handshake failures"
        socks_handshake_failures
    ∷ []

abbrev pub reloads : Metric
reloads = metric_of "cortado_config_reloads_total" "Configuration reloads applied" config_reloads

abbrev pub gauges : List Metric
gauges =
    metric_of "cortado_tcp_sessions_active" "Active TCP sessions" tcp_active
    ∷ metric_of "cortado_udp_sessions_active" "Active UDP sessions" udp_active
    ∷ []

-- The lines of one metric, which `metric` appends.
abbrev pub block : Bytes → Bytes → Bytes → ℕ → Bytes
block name help kind value =
    codes "# HELP "
    ++ (name
        ++ (b' '
            ∷ (help
                ++ (10
                    ∷ (codes "# TYPE "
                        ++ (name
                            ++ (b' '
                                ∷ (kind
                                    ++ (10
                                        ∷ (name ++ (b' ' ∷ (to_string value ++ 10 ∷ []))))))))))))

unfoldable pub metric : Bytes → Bytes → Bytes → Bytes → ℕ → Bytes
metric out name help kind value = out ++ block name help kind value

-- `for (name, help, counter) in table`.
unfoldable pub metrics : List Metric → Bytes → Stats → Bytes → Bytes
unfolding metric
metrics [] kind s out = out
metrics (m ∷ ms) kind s out = metrics ms kind s (metric out m.name m.help kind (get m.counter s))

unfoldable pub render : Stats → Bytes
unfolding metrics metric
render s =
    let counted = metrics counters (codes "counter") s [] in
    let with_reloads =
      metric counted reloads.name reloads.help (codes "counter") (get config_reloads s) in
    metrics gauges (codes "gauge") s with_reloads

abbrev pub status_line : Bytes
status_line = codes "HTTP/1.1 200 OK" ++ (13 ∷ 10 ∷ [])

abbrev pub content_type : Bytes
content_type = codes "Content-Type: text/plain; version=0.0.4" ++ (13 ∷ 10 ∷ [])

abbrev pub last_header : Bytes
last_header = codes "Connection: close" ++ (13 ∷ 10 ∷ 13 ∷ 10 ∷ [])

-- What `handle_client` writes.
unfoldable pub response : Bytes → Bytes
response body =
    status_line
    ++ (content_type
        ++ (codes "Content-Length: "
            ++ (to_string (length body) ++ (13 ∷ 10 ∷ (last_header ++ body)))))
