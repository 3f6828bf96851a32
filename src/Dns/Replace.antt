-- ===== src/Dns/Replace.antt =====
-- src/dns.rs: `set_proxy`, after which no pooled connection is used again.
use cortado.Base.{ℕ, ◌≡◌, refl, Bool, false, not, ◌&&◌, List, [], ◌∷◌, arith, contains, any, nat_eq}
use cortado.Addr.{SocketAddr, socket_eq}
use cortado.Config.{ProxyConfig}
use cortado.Dns.Conn.{Conn, update}
use cortado.Dns.Pool.{DnsPool, kill, kill_all, set_proxy, conn_count}

alive-kill :
    (is : List ℕ) (heap : ℕ → Conn) (j : ℕ)
    → (kill is heap j).alive ≡ ((heap j).alive && not (contains is j))
unfolding kill
alive-kill [] heap j = ground arith
alive-kill (i ∷ is) heap j =
    ground (arith, alive-kill is (update heap i (record (heap i) { alive = false })) j)

abbrev pub is_pooled : ℕ → List (SocketAddr × List ℕ) → Bool
is_pooled j m = any (λ e. contains e.1 j) m

alive-kill_all :
    (m : List (SocketAddr × List ℕ)) (heap : ℕ → Conn) (j : ℕ)
    → (kill_all m heap j).alive ≡ ((heap j).alive && not (is_pooled j m))
unfolding kill_all
alive-kill_all [] heap j = ground arith
alive-kill_all ((server, bucket) ∷ rest) heap j =
    ground (arith, alive-kill_all rest (kill bucket heap) j, alive-kill bucket heap j)

-- `set_proxy` leaves an empty pool with the new proxy; the connections that were pooled, and no
-- others, are dead.
pub set_proxy_lem :
    (proxy : ProxyConfig) (p : DnsPool) (j : ℕ)
    → (conn_count (set_proxy proxy p) ≡ 0)
      × ((set_proxy proxy p).proxy ≡ proxy)
      × (((set_proxy proxy p).heap j).alive ≡ ((p.heap j).alive && not (is_pooled j p.conns)))
unfolding set_proxy conn_count
set_proxy_lem proxy p j = (refl, refl, alive-kill_all p.conns p.heap j)
