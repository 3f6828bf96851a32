-- ===== src/Lib.antt =====
-- cortado: a transparent SOCKS5 tunnel. Traffic captured by a TUN device is relayed through a SOCKS5
-- proxy: TCP flows by CONNECT, datagrams by UDP ASSOCIATE, DNS queries over pooled TCP connections.
--
-- The parts, and how they interact. `src/config.rs` validates the configuration and gives the others
-- their addresses and credentials. `src/net.rs` classifies destinations for the relay of `src/lib.rs`
-- and computes what a reload changes. `src/socks.rs` speaks SOCKS5 to the proxy. `src/dns.rs` opens
-- its connections through `src/socks.rs` and multiplexes queries over them. `src/udp.rs` keeps a
-- session per source and hands queries to `src/dns.rs`. `src/reload.rs` compares two configurations
-- by the difference of `src/net.rs`, and `src/stats.rs` counts. `src/tune.rs` computes
-- the sizes of buffers and the caps from what the system reports. `src/lib.rs` loads the configuration,
-- starts the tasks and handles the signals: on a reload it has the platform's route controller follow
-- the plan and replaces what the tasks share; at the end it has the routes removed. The controller of
-- `src/platform/linux` sets routes by netlink and rewrites resolv.conf. `src/metrics.rs` serves the
-- counters.
--
-- Base: tests, lists, results, association lists and equality, shared by all. Addr: addresses and
-- big-endian integers. Text: decimal numbers and the splitting of ASCII text, as std does it.
-- Net (src/net.rs): Net/Masks has `prefix_mask_v4` to `mask_v6`, Net/Cidr `Cidr`, Net/RouteTable
-- `RouteTable`, Net/Diff `diff_cidrs`. A vector is a list, an address its u32 or u128.
-- Config (src/config.rs): `Config`, `parse_cidr`, `validate` and the accessors; an accessor's panic
-- is `none`. std's parsers of addresses are the parameter `Parsing`. Config/Valid has the proofs.
-- Socks (src/socks.rs): Socks/Stream has the TCP stream as a state that every read and write
-- changes, with closed, stalled and unwritable peers; Socks/Handshake the calls under
-- `udp_associate`, Socks/Connect `tcp_connect`, Socks/Datagram `encode_udp` and `decode_udp`; Socks/Negotiated and Socks/Reply
-- prove about them.
-- Dns (src/dns.rs): Dns/Conn has `Conn`, Dns/Pool `DnsPool` with its connections in a heap, since
-- the pool and the attempts share them, Dns/Query the reader task, `attempt` and `resolve`.
-- Dns/Interleaved has the concurrent tasks as a step relation. Dns/Alloc, Prune, Replace, Replies and
-- Resolve prove about them.
-- Udp (src/udp.rs): the arms of the loop of `run_udp` and what the tasks of the sessions and of the DNS
-- queries do, as functions on one state and as a step relation; Udp/Bounds and Udp/Delivery prove
-- about them. Udp/SessionTask is what a session exchanges with the relay, and Udp/Relayed proves about
-- it. Stats (src/stats.rs) has the counters that they change, and Stats/Report prints them.
-- Relay (src/lib.rs): `relay_tcp_connection` by what it counts; Relay/Balance proves about it.
-- App (src/lib.rs): App/ConfigFile has the paths, `init_config` and the loading, over a disk, an
-- environment and a TOML codec that are parameters; App/Service `apply_reload` and the loop, over any
-- route controller; App/Run the order of `run`. App/Load, InSync and Total prove about them.
-- App/Bridge is the bridge between the TUN device and the network stack by the packets that it hands
-- over, App/Logging is src/logging.rs, and App/Cli the commands of src/main.rs.
-- Platform (src/platform/mod.rs): the calls of a resolver override and what it promises; files.
-- Linux (src/platform/linux): Linux/ResolvConf is dns.rs, and Linux/Override proves that it keeps the
-- promise. Linux/Netlink has the netlink requests as a parameter with laws; Linux/Gateways and
-- Linux/RouteManager are route.rs, Linux/Detect is detect.rs. Linux/Table describes what added routes
-- do to a routing table, Linux/Owned which of its routes are the manager's; Linux/Install, Apply,
-- Succeeds, Remove, Teardown, Reloaded, Followed, Lifetime and Detected prove about them, and Linux/Plans that
-- a computed plan fits the manager.
-- Platform/Commands has what the controllers of macOS and Windows share: routes that a program adds and
-- deletes, named by its arguments. Platform/Added, Deleted, Grown and Within say what such steps leave in the
-- routing table, Platform/Plans that a computed plan describes the change of the bypass blocks, and
-- Platform/Runs is a table for runs.
-- Macos (src/platform/macos): Macos/Routes is route.rs, with the program `route` as a parameter, and
-- Macos/Installed, Reloaded, Followed, Lifetime, Failed and Teardown prove about it. Macos/Dns is dns.rs, with
-- `networksetup` as a parameter, and Macos/Override proves that it keeps the promise; Macos/Service is
-- the choice of the service. Macos/Tun is
-- `MacosTun` of tun.rs, with Macos/Frames about its frames and Macos/Polls about its loop; Macos/Detect is detect.rs, with
-- Macos/Detected about it.
-- Windows (src/platform/windows): Windows/Tun is the TUN device over its two channels, with the
-- thread that reads from wintun; Windows/Unread and Windows/Reads prove what becomes of the packets. Windows/Routes is route.rs, with `netsh` as a parameter, and
-- Windows/Installed, Steps, Reloaded and Teardown prove about it; Windows/Dns is dns.rs, with
-- Windows/Override; Windows/Detect is detect.rs.
-- Metrics (src/metrics.rs): the text and the answer; Metrics/Scrape has a client that reads them, and
-- Metrics/Exposed proves what it reads.
-- Reload (src/reload.rs): `immutable_changes` and `ReloadPlan`; Reload/Noop proves about them.
-- Tune (src/tune.rs): `Tuning::compute` and the readers of the system's limits; Tune/Limits and
-- Tune/Budget prove about them.
--
-- Numbers are natural numbers; where the source wraps or saturates, the modulus or the bound is
-- written. `usize` has 64 bits. Loops run on fuel in three places: the search for a message id,
-- by its own 65536 rounds; the printing of a number, by more rounds than it has digits; and the loops of
-- `poll_read` and `poll_write` on macOS, where more turns than tokio has notices of readiness are
-- enough, since each turn that is blocked uses one up. An IPv6 socket address is an address and a port,
-- without the flow label and the scope, which the comparisons of `src/reload.rs` also see.
--
-- Not modelled: the copying of a TCP flow, the start of the tasks, the listener of the metrics
-- endpoint, the parsing of arguments; the opening of the TUN devices and the one of Linux, which are
-- calls of the system and of libraries; sockets, tasks and timers of tokio, whose outcomes are
-- arguments of the definitions that wait for them. Log lines are left out but in App/Logging and App/Cli.
pub mod Base
pub mod Addr
pub mod Text
pub mod Net
pub mod Config
pub mod Socks
pub mod Dns
pub mod Tune
pub mod App
pub mod Linux
pub mod Macos
pub mod Metrics
pub mod Platform
pub mod Relay
pub mod Reload
pub mod Stats
pub mod Udp
pub mod Windows
