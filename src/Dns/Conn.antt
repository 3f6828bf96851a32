-- ===== src/Dns/Conn.antt =====
-- src/dns.rs: `Conn`, one pooled connection, and the allocation of message ids on it.
use cortado.Base.{
  ℕ, zero, suc, ◌+◌, ◌%◌, ◌^◌, Bool, List, ◌∷◌, Option, none, some, Bytes, leb, is_some, length,
  lookup, nat_eq, nat_beq, if◌then◌else◌,
}
use cortado.Config.{ProxyConfig}

abbrev pub max_inflight_per_conn : ℕ
max_inflight_per_conn = 256

abbrev pub max_conns_per_target : ℕ
max_conns_per_target = 8

abbrev pub max_dns_message : ℕ
max_dns_message = 65535

-- The sending half of a oneshot channel: that of a query in progress, by its number, or one whose
-- receiver is already dropped.
pub data Sender : Type 0 where
  orphan : Sender
  waiter : ℕ → Sender

-- `sent` is what was written to the socket, `via` the proxy through which it was opened.
pub record Conn : Type 0 where
  pub inflight : List (ℕ × Sender)
  pub next_id : ℕ
  pub alive : Bool
  pub last_used : ℕ
  pub sent : Bytes
  pub via : ProxyConfig

-- `next_id.fetch_add(1) & 0xFFFF`: the counter wraps at 2^64, the id is its low 16 bits.
abbrev pub candidate : ℕ → ℕ
candidate next_id = next_id % 2 ^ 16

abbrev pub advanced : Conn → Conn
advanced c = record c { next_id = (c.next_id + 1) % 2 ^ 64 }

-- The loop, by the rounds that are left.
unfoldable pub find_vacant : ℕ → Conn → Option ℕ × Conn
find_vacant zero c = (none, c)
find_vacant (suc rounds) c =
    let id = candidate c.next_id in
    let occupied = find_vacant rounds (advanced c) in
    if is_some (lookup id c.inflight)
    then occupied
    else (some id, record (advanced c) { inflight = (id, orphan) ∷ c.inflight })

unfoldable pub allocate_id : Conn → Option ℕ × Conn
allocate_id c =
    if leb max_inflight_per_conn (length c.inflight) then (none, c) else find_vacant (2 ^ 16) c

abbrev pub is_alive : (ℕ → Conn) → ℕ → Bool
is_alive heap i = (heap i).alive

abbrev pub update : (ℕ → Conn) → ℕ → Conn → (ℕ → Conn)
update heap i c j = if nat_beq i j then c else heap j
