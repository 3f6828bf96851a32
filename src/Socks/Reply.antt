-- ===== src/Socks/Reply.antt =====
-- src/socks.rs: the reply to a UDP ASSOCIATE request, and the call as a whole.
use cortado.Base.{
  ℕ, suc, ◌^◌, ◌≤◌, ◌<◌, ◌≡◌, refl, false, ◌∷◌, ◌++◌, Bytes, ok, arith, All, append_assoc,
}
use cortado.Addr.{
  IpAddr, v4, v6, SocketAddr, IsSocketAddr, IsIp, IsByte, is_unspecified, to_be_bytes,
  from_be_bytes-to_be_bytes,
}
use cortado.Config.{ProxyConfig}
use cortado.Socks.Stream.{TcpStream, read_exact, write_all, within}
use cortado.Socks.Handshake.{
  read_bind_address, normalize_relay, associate_on, associate_request, udp_associate, connected,
}
use cortado.Socks.Datagram.{address_bytes, rejoin}
use cortado.Socks.Negotiated.{Dialogue, after, negotiate_auth-accepts}

-- RFC 1928: version, success, a reserved byte, the bound address and port; then what follows.
abbrev pub reply_bytes : ℕ → SocketAddr → Bytes → Bytes
reply_bytes reserved a rest =
    0x05 ∷ 0x00 ∷ reserved ∷ (address_bytes a.ip ++ (to_be_bytes 2 a.port ++ rest))

-- The stream after a read.
abbrev pub consumed : TcpStream → Bytes → TcpStream
consumed s rest = record s { incoming = rest }

read_parts :
    (s : TcpStream) (ip : IpAddr) (port reserved : ℕ) (rest : Bytes)
    → IsIp ip
    → port < 2 ^ 16
    → s.incoming ≡ reply_bytes reserved (record { ip = ip; port = port }) rest
    → read_bind_address s ≡ (ok (record { ip = ip; port = port }), consumed s rest)
unfolding read_bind_address read_exact to_be_bytes
read_parts s (v4 a) port r rest ha hp e =
    ground (arith, from_be_bytes-to_be_bytes 4 a ha, from_be_bytes-to_be_bytes 2 port hp)
read_parts s (v6 a) port r rest ha hp e =
    ground (arith, from_be_bytes-to_be_bytes 16 a ha, from_be_bytes-to_be_bytes 2 port hp)

-- A reply that announces an address is read as that address, and nothing behind it is consumed.
pub read_bind_address-reply_bytes :
    (s : TcpStream) (a : SocketAddr) (reserved : ℕ) (rest : Bytes)
    → IsSocketAddr a
    → s.incoming ≡ reply_bytes reserved a rest
    → read_bind_address s ≡ (ok a, consumed s rest)
read_bind_address-reply_bytes s a r rest h e =
    read_parts s a.ip a.port r rest h.ip_fits h.port_fits e

-- What is read was announced: version 5, code 0 and an IPv4 or IPv6 address, so that every other
-- reply is an error.
pub read_bind_address_sound :
    (s t : TcpStream) (a : SocketAddr) (all : Bytes)
    → s.incoming ≡ all
    → All IsByte all
    → read_bind_address s ≡ (ok a, t)
    → (reserved : ℕ) × (all ≡ reply_bytes reserved a t.incoming)
unfolding read_bind_address read_exact
read_bind_address_sound s t a (b0 ∷ b1 ∷ b2 ∷ b3 ∷ rest) eh (_, (_, (_, (_, h)))) e =
    (b2, ground (arith, rejoin 4 rest, rejoin 16 rest))
read_bind_address_sound s t a all eh h e = ground arith

-- The relay to send to is never the unspecified address, unless the proxy's is; its port is the one
-- announced, and a usable announced address is kept.
pub normalize_relay_lem :
    (reply proxy : SocketAddr)
    → is_unspecified proxy.ip ≡ false
    → (is_unspecified (normalize_relay reply proxy).ip ≡ false)
      × ((normalize_relay reply proxy).port ≡ reply.port)
      × (is_unspecified reply.ip ≡ false → normalize_relay reply proxy ≡ reply)
unfolding normalize_relay
normalize_relay_lem reply proxy h = (ground arith, ground arith, λ k. ground arith)

-- After any accepted dialogue and a success reply that announces an IP address, the association
-- gives the control stream just behind the reply, and the relay; beside the dialogue only the
-- request was sent.
pub udp_associate_lem :
    (proxy : ProxyConfig) (s : TcpStream) (heard sent rest : Bytes) (writes reserved : ℕ)
    (a : SocketAddr)
    → Dialogue proxy heard sent writes
    → IsSocketAddr a
    → s.incoming ≡ heard ++ reply_bytes reserved a rest
    → suc writes ≤ s.writes_left
    → udp_associate proxy (connected s)
      ≡ ok (after s rest (sent ++ associate_request) (suc writes), normalize_relay a proxy.addr)
unfolding udp_associate associate_on within write_all
udp_associate_lem proxy s heard sent rest writes r a d ha e enough =
    let more = reply_bytes r a rest in
    let mid : TcpStream = after s more sent writes in
    let asked : TcpStream = after mid more associate_request 1 in
    ground (
      arith,
      negotiate_auth-accepts proxy s heard sent more writes d e,
      read_bind_address-reply_bytes asked a r rest ha refl,
      append_assoc s.written sent associate_request,
    )
