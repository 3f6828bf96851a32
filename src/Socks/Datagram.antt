-- ===== src/Socks/Datagram.antt =====
-- src/socks.rs: the header of a relayed datagram, `encode_udp` and `decode_udp`.
use cortado.Base.{
  ℕ, ◌+◌, ◌^◌, ◌≤◌, ◌<◌, ◌≡◌, not, ◌∷◌, ◌++◌, Option, none, some, Bytes, arith, length, take, drop,
  get_or, nat_beq, ltb, All, if◌then◌else◌, take-append-drop, length-drop,
}
use cortado.Addr.{
  IpAddr, v4, v6, IsIp, SocketAddr, IsSocketAddr, IsByte, to_be_bytes, from_be_bytes,
  from_be_bytes-to_be_bytes, to_be_bytes-take, All-drop,
}

abbrev pub address_bytes : IpAddr → Bytes
address_bytes (v4 a) = 0x01 ∷ to_be_bytes 4 a
address_bytes (v6 a) = 0x04 ∷ to_be_bytes 16 a

-- What `out` holds after the call; it is cleared first.
unfoldable pub encode_udp : SocketAddr → Bytes → Bytes → Bytes
encode_udp target payload out =
    0x00 ∷ 0x00 ∷ 0x00 ∷ address_bytes target.ip ++ (to_be_bytes 2 target.port ++ payload)

-- The address of the type byte `atyp`, and the bytes behind it.
unfoldable pub decode_ip : Bytes → ℕ → Option (IpAddr × Bytes)
decode_ip buf atyp =
    if nat_beq atyp 0x01
    then if ltb (length buf) 10
      then none
      else some (v4 (from_be_bytes (take 4 (drop 4 buf))), drop 8 buf)
    else if nat_beq atyp 0x04
    then if ltb (length buf) 22
      then none
      else some (v6 (from_be_bytes (take 16 (drop 4 buf))), drop 20 buf)
    else none

abbrev pub decode_port : Option (IpAddr × Bytes) → Option (SocketAddr × Bytes)
decode_port none = none
decode_port (some (ip, rest)) =
    if ltb (length rest) 2
    then none
    else some (record { ip = ip; port = from_be_bytes (take 2 rest) }, drop 2 rest)

unfoldable pub decode_udp : Bytes → Option (SocketAddr × Bytes)
unfolding decode_ip
decode_udp buf =
    if ltb (length buf) 4
    then none
    else if not (nat_beq (get_or buf 2 0) 0x00)
    then none
    else decode_port (decode_ip buf (get_or buf 3 0))

decode_udp-encode_parts :
    (ip : IpAddr) (port : ℕ) (payload out : Bytes)
    → IsIp ip
    → port < 2 ^ 16
    → decode_udp (encode_udp (record { ip = ip; port = port }) payload out)
      ≡ some (record { ip = ip; port = port }, payload)
unfolding decode_udp encode_udp to_be_bytes
decode_udp-encode_parts (v4 a) port payload out ha hp =
    ground (arith, from_be_bytes-to_be_bytes 4 a ha, from_be_bytes-to_be_bytes 2 port hp)
decode_udp-encode_parts (v6 a) port payload out ha hp =
    ground (arith, from_be_bytes-to_be_bytes 16 a ha, from_be_bytes-to_be_bytes 2 port hp)

-- A datagram that is encoded, into whatever buffer, is decoded to the same target and payload.
pub decode_udp-encode_udp :
    (target : SocketAddr) (payload out : Bytes)
    → IsSocketAddr target
    → decode_udp (encode_udp target payload out) ≡ some (target, payload)
decode_udp-encode_udp target payload out h =
    decode_udp-encode_parts target.ip target.port payload out h.ip_fits h.port_fits

pub rejoin :
    (n : ℕ) (bs : Bytes)
    → n + 2 ≤ length bs
    → All IsByte bs
    → to_be_bytes n (from_be_bytes (take n bs))
        ++ (to_be_bytes 2 (from_be_bytes (take 2 (drop n bs))) ++ drop 2 (drop n bs))
      ≡ bs
rejoin n bs enough h =
    let behind : 2 ≤ length (drop n bs) = omega (arith, length-drop n bs) in
    rw
      (
        to_be_bytes-take n bs (omega arith) h,
        to_be_bytes-take 2 (drop n bs) behind (All-drop n bs h),
        take-append-drop 2 (drop n bs),
      )
      (take-append-drop n bs)

-- A datagram that is decoded is the encoding of what it was decoded to, but for its two reserved
-- bytes, which the decoder ignores.
pub encode_udp-decode_udp :
    (buf out : Bytes) (target : SocketAddr) (payload : Bytes)
    → All IsByte buf
    → decode_udp buf ≡ some (target, payload)
    → encode_udp target payload out ≡ 0 ∷ 0 ∷ drop 2 buf
unfolding decode_udp encode_udp
encode_udp-decode_udp (b0 ∷ b1 ∷ b2 ∷ b3 ∷ rest) out target payload (_, (_, (_, (_, h)))) e =
    ground (arith, rejoin 4 rest, rejoin 16 rest)
encode_udp-decode_udp buf out target payload h e = ground arith
