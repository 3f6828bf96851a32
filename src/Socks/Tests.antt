-- ===== src/Socks/Tests.antt =====
-- Runs of src/socks.rs: a whole UDP ASSOCIATE with a password, and a datagram.
use cortado.Base.{ℕ, ◌≡◌, refl, true, false, [], ◌∷◌, ◌++◌, some, Bytes, codes, ok, arith, All}
use cortado.Addr.{v4, v6, SocketAddr, IsSocketAddr, IsByte, to_be_bytes, from_be_bytes}
use cortado.Config.{ProxyConfig}
use cortado.Socks.Stream.{TcpStream, write_all, read_exact}
use cortado.Socks.Handshake.{
  offer, credentials, chosen_method, send_password, negotiate_auth, read_bind_address,
  normalize_relay, connected, udp_associate, associate_request,
}
use cortado.Socks.Negotiated.{
  Dialogue, password, after, Negotiated, negotiate_auth-accepts, negotiate_auth_sound,
}
use cortado.Socks.Reply.{
  reply_bytes, consumed, read_bind_address-reply_bytes, read_bind_address_sound, udp_associate_lem,
}
use cortado.Socks.Datagram.{encode_udp, decode_udp, decode_udp-encode_udp}

abbrev local_proxy : SocketAddr
local_proxy = record { ip = v4 0x7f000001; port = 1080 }

abbrev proxy : ProxyConfig
proxy = record {
  addr = local_proxy;
  username = some (codes "user");
  password = some (codes "secret");
  connect_timeout = 10000;
  tcp_nodelay = true;
}

-- 0.0.0.0:4660, so that the relay is the proxy's own address.
abbrev unspecified : SocketAddr
unspecified = record { ip = v4 0; port = 4660 }

unspecified_fits : IsSocketAddr unspecified
unspecified_fits = record { ip_fits = omega arith; port_fits = omega arith }

abbrev heard : Bytes
heard = 0x05 ∷ 0x02 ∷ 0x01 ∷ 0x00 ∷ []

abbrev sent : Bytes
sent = offer (some (codes "user")) ++ credentials (codes "user") (codes "secret")

abbrev rest : Bytes
rest = 7 ∷ []

dialogue : Dialogue proxy heard sent 2
dialogue = password (codes "user") (codes "secret") 1 refl refl refl refl refl

abbrev stream : Bytes → TcpStream
stream incoming = record { incoming = incoming; stalls = false; written = []; writes_left = 5 }

abbrev replying : TcpStream
replying = stream (heard ++ reply_bytes 0 unspecified rest)

negotiate_auth-accepts_example :
    negotiate_auth proxy replying ≡ (ok tt, after replying (reply_bytes 0 unspecified rest) sent 2)
negotiate_auth-accepts_example =
    negotiate_auth-accepts proxy replying heard sent (reply_bytes 0 unspecified rest) 2 dialogue
      refl (omega arith)

accepted :
    negotiate_auth proxy replying ≡ (ok tt, after replying (reply_bytes 0 unspecified rest) sent 2)
unfolding negotiate_auth chosen_method send_password write_all read_exact offer credentials
    to_be_bytes
accepted = refl

negotiate_auth_sound_example :
    Negotiated proxy replying (after replying (reply_bytes 0 unspecified rest) sent 2)
negotiate_auth_sound_example =
    negotiate_auth_sound proxy replying (after replying (reply_bytes 0 unspecified rest) sent 2)
      (heard ++ reply_bytes 0 unspecified rest) refl accepted

read_bind_address-reply_bytes_example :
    read_bind_address (stream (reply_bytes 0 unspecified rest))
    ≡ (ok unspecified, consumed (stream (reply_bytes 0 unspecified rest)) rest)
read_bind_address-reply_bytes_example =
    read_bind_address-reply_bytes (stream (reply_bytes 0 unspecified rest)) unspecified 0 rest
      unspecified_fits refl

abbrev reply : Bytes
reply = 5 ∷ 0 ∷ 9 ∷ 1 ∷ 0 ∷ 0 ∷ 0 ∷ 0 ∷ 0x12 ∷ 0x34 ∷ 7 ∷ []

reply-IsByte : All IsByte reply
reply-IsByte = ground arith

reply_read : read_bind_address (stream reply) ≡ (ok unspecified, consumed (stream reply) rest)
unfolding read_bind_address read_exact from_be_bytes
reply_read = refl

read_bind_address_sound_example : (reserved : ℕ) × (reply ≡ reply_bytes reserved unspecified rest)
read_bind_address_sound_example =
    read_bind_address_sound (stream reply) (consumed (stream reply) rest) unspecified reply refl
      reply-IsByte reply_read

udp_associate_lem_example :
    udp_associate proxy (connected replying)
    ≡ ok
        (after replying rest (sent ++ associate_request) 3, normalize_relay unspecified local_proxy)
udp_associate_lem_example =
    udp_associate_lem proxy replying heard sent rest 2 0 unspecified dialogue unspecified_fits refl
      (omega arith)

-- [2001:db8::1]:53.
abbrev target : SocketAddr
target = record { ip = v6 0x20010db8000000000000000000000001; port = 53 }

target_fits : IsSocketAddr target
target_fits = record { ip_fits = omega arith; port_fits = omega arith }

decode_udp-encode_udp_example :
    decode_udp (encode_udp target (codes "query") []) ≡ some (target, codes "query")
decode_udp-encode_udp_example = decode_udp-encode_udp target (codes "query") [] target_fits

abbrev datagram : Bytes
datagram = 1 ∷ 2 ∷ 0 ∷ 1 ∷ 0 ∷ 0 ∷ 0 ∷ 0 ∷ 0x12 ∷ 0x34 ∷ 7 ∷ []

datagram-IsByte : All IsByte datagram
datagram-IsByte = ground arith

datagram_read : decode_udp datagram ≡ some (unspecified, rest)
unfolding decode_udp from_be_bytes
datagram_read = refl
