-- ===== src/Dns/Pool.antt =====
-- src/dns.rs: `DnsPool`. The shared connections stand in `heap`, by number; the map holds the numbers.
-- Each function here is what its method does between two waits of the task, or, for `acquire` and
-- `open_and_register`, all of it where no other task runs meanwhile; Dns/Interleaved has the others.
use cortado.Base.{
  ℕ, suc, ◌+◌, ◌-◌, Bool, true, false, not, ◌&&◌, List, [], ◌∷◌, ◌++◌, Option, none, some, Result,
  ok, err, leb, ltb, filter, is_empty, length, lookup, insert, unwrap_or, if◌then◌else◌,
}
use cortado.Addr.{SocketAddr, socket_eq}
use cortado.Config.{ProxyConfig}
use cortado.Dns.Conn.{Conn, allocate_id, max_conns_per_target, is_alive, update}

pub data DnsError : Type 0 where
  exhausted open_failed rejected_allocation : DnsError
  write_failed closed_before_reply query_timed_out : DnsError
  query_too_short query_too_large : DnsError

-- `opened` counts the connections made so far; `hits` and `misses` are DNS_POOL_HITS and
-- DNS_POOL_MISSES.
pub record DnsPool : Type 0 where
  pub proxy : ProxyConfig
  pub query_timeout : ℕ
  pub idle_timeout : ℕ
  pub conns : List (SocketAddr × List ℕ)
  pub heap : ℕ → Conn
  pub opened : ℕ
  pub hits : ℕ
  pub misses : ℕ

abbrev pub unused : ProxyConfig → ℕ → Conn
unused proxy i = record {
  inflight = [];
  next_id = 0;
  alive = false;
  last_used = 0;
  sent = [];
  via = proxy;
}

unfoldable pub new : ProxyConfig → ℕ → ℕ → DnsPool
new proxy query_timeout idle_timeout = record {
  proxy = proxy;
  query_timeout = query_timeout;
  idle_timeout = idle_timeout;
  conns = [];
  heap = unused proxy;
  opened = 0;
  hits = 0;
  misses = 0;
}

unfoldable pub kill : List ℕ → (ℕ → Conn) → (ℕ → Conn)
kill [] heap = heap
kill (i ∷ is) heap = kill is (update heap i (record (heap i) { alive = false }))

unfoldable pub kill_all : List (SocketAddr × List ℕ) → (ℕ → Conn) → (ℕ → Conn)
kill_all [] heap = heap
kill_all ((server, bucket) ∷ rest) heap = kill_all rest (kill bucket heap)

-- The two halves of `set_proxy`: the store, and what is done under the lock of the map.
abbrev pub store_proxy : ProxyConfig → DnsPool → DnsPool
store_proxy proxy p = record p { proxy = proxy }

abbrev pub drop_conns : DnsPool → DnsPool
drop_conns p = record p { heap = kill_all p.conns p.heap; conns = [] }

unfoldable pub set_proxy : ProxyConfig → DnsPool → DnsPool
unfolding kill_all kill
set_proxy proxy p = drop_conns (store_proxy proxy p)

-- `entry(server).or_default()`.
abbrev pub bucket_of : SocketAddr → DnsPool → List ℕ
bucket_of server p = unwrap_or (lookup server p.conns) []

-- `bucket.retain(|c| c.alive)`.
unfoldable pub retain_alive : SocketAddr → DnsPool → DnsPool
retain_alive server p = record p {
  conns = insert server (filter (is_alive p.heap) (bucket_of server p)) p.conns;
}

-- The loop over the bucket: the first connection that has room.
abbrev pub reuse_or :
    ℕ
    → (ℕ → Conn)
    → Option ℕ × Conn
    → ((ℕ → Conn) → Option (ℕ × ℕ) × (ℕ → Conn))
    → Option (ℕ × ℕ) × (ℕ → Conn)
reuse_or i heap (some id, c) next = (some (i, id), update heap i c)
reuse_or i heap (none, c) next = next (update heap i c)

unfoldable pub scan : List ℕ → (ℕ → Conn) → Option (ℕ × ℕ) × (ℕ → Conn)
scan [] heap = (none, heap)
scan (i ∷ is) heap = reuse_or i heap (allocate_id (heap i)) (scan is)

abbrev pub counted_hit : DnsPool → Option (ℕ × ℕ) × (ℕ → Conn) → Option (ℕ × ℕ) × DnsPool
counted_hit p (some r, heap) = (some r, record p { heap = heap; hits = p.hits + 1 })
counted_hit p (none, heap) = (none, record p { heap = heap })

unfoldable pub try_reuse : SocketAddr → DnsPool → Option (ℕ × ℕ) × DnsPool
unfolding retain_alive scan
try_reuse server p =
    let q = retain_alive server p in counted_hit q (scan (bucket_of server q) q.heap)

-- `open_conn` where the proxy accepts: a fresh connection through the proxy of the moment.
unfoldable pub open_conn : ℕ → DnsPool → ℕ × DnsPool
open_conn now p = (
  p.opened,
  record p {
    heap = update p.heap p.opened (record {
      inflight = [];
      next_id = 0;
      alive = true;
      last_used = now;
      sent = [];
      via = p.proxy;
    });
    opened = suc p.opened;
  },
)

-- `map.entry(server).or_default().push(conn)` and the count of the miss.
unfoldable pub register : SocketAddr → ℕ → DnsPool → DnsPool
register server i p = record p {
  conns = insert server (bucket_of server p ++ i ∷ []) p.conns;
  misses = p.misses + 1;
}

-- The connection, the id on it, and whether it was reused.
abbrev pub Acquired : Type 0
Acquired = Result DnsError (ℕ × ℕ × Bool)

abbrev pub registered : SocketAddr → ℕ → DnsPool → Option ℕ × Conn → Acquired × DnsPool
registered server i p (none, c) = (err rejected_allocation, record p { heap = update p.heap i c })
registered server i p (some id, c) =
    (ok (i, id, false), register server i (record p { heap = update p.heap i c }))

-- `opens` is whether the connect through the proxy succeeds.
unfoldable pub open_and_register : SocketAddr → Bool → ℕ → DnsPool → Acquired × DnsPool
unfolding open_conn register
open_and_register server opens now p =
    if opens
    then (let (i, q) = open_conn now p in registered server i q (allocate_id (q.heap i)))
    else (err open_failed, p)

abbrev pub or_else : Option (ℕ × ℕ) × DnsPool → (DnsPool → Acquired × DnsPool) → Acquired × DnsPool
or_else (some (i, id), p) next = (ok (i, id, true), p)
or_else (none, p) next = next p

-- Under the lock: reuse, else open unless the bucket is full.
unfoldable pub acquire_locked : SocketAddr → Bool → ℕ → DnsPool → Acquired × DnsPool
unfolding try_reuse open_and_register retain_alive
acquire_locked server opens now p = or_else (try_reuse server p) λ q.
    let r = retain_alive server q in
    if leb max_conns_per_target (length (bucket_of server r))
    then (err exhausted, r)
    else open_and_register server opens now r

unfoldable pub acquire : SocketAddr → Bool → ℕ → DnsPool → Acquired × DnsPool
unfolding acquire_locked
acquire server opens now p = or_else (try_reuse server p) (acquire_locked server opens now)

-- One bucket of `prune`: the dead go, and the idle are marked dead and go.
abbrev pub is_idle : ℕ → ℕ → Conn → Bool
is_idle now idle c = is_empty c.inflight && ltb idle (now - c.last_used)

unfoldable pub prune_bucket : ℕ → ℕ → List ℕ → (ℕ → Conn) → List ℕ × (ℕ → Conn)
prune_bucket now idle [] heap = ([], heap)
prune_bucket now idle (i ∷ is) heap =
    let c = heap i in
    let skip = prune_bucket now idle is heap in
    let close = prune_bucket now idle is (update heap i (record c { alive = false })) in
    if not c.alive then skip else if is_idle now idle c then close else (i ∷ skip.0, skip.1)

-- The buckets in turn; `map.retain` drops those that are empty after the loop.
unfoldable pub prune_map :
    ℕ → ℕ → List (SocketAddr × List ℕ) → (ℕ → Conn) → List (SocketAddr × List ℕ) × (ℕ → Conn)
unfolding prune_bucket
prune_map now idle [] heap = ([], heap)
prune_map now idle ((server, bucket) ∷ rest) heap =
    let (kept, heap') = prune_bucket now idle bucket heap in
    let (others, heap'') = prune_map now idle rest heap' in
    if is_empty kept then (others, heap'') else ((server, kept) ∷ others, heap'')

unfoldable pub prune : ℕ → DnsPool → DnsPool
unfolding prune_map
prune now p =
    let (conns, heap) = prune_map now p.idle_timeout p.conns p.heap in
    record p { conns = conns; heap = heap }

unfoldable pub conn_count_of : List (SocketAddr × List ℕ) → ℕ
conn_count_of [] = 0
conn_count_of ((server, bucket) ∷ rest) = length bucket + conn_count_of rest

unfoldable pub conn_count : DnsPool → ℕ
unfolding conn_count_of
conn_count p = conn_count_of p.conns
