-- ===== src/Socks/Handshake.antt =====
-- src/socks.rs: `negotiate_auth`, `read_bind_address`, `normalize_relay` and `udp_associate`.
use cortado.Base.{
  ℕ, ◌%◌, ◌^◌, [], ◌∷◌, ◌++◌, Option, none, some, Bytes, Result, ok, err, length, get_or, nat_beq,
  is_some, if◌then◌else◌,
}
use cortado.Addr.{IpAddr, v4, v6, SocketAddr, is_unspecified, from_be_bytes}
use cortado.Config.{ProxyConfig}
use cortado.Socks.Stream.{
  TcpStream, SocksError, M, ◌>>=◌, ◌>>◌, pure, bail, ensure, write_all, read_exact, within,
  send_methods, read_methods, bad_method_version, credentials_required, send_credentials, read_auth,
  auth_rejected, no_acceptable_method, unsupported_method, send_associate, read_header,
  bad_reply_version, reply_code, read_v4, read_v6, read_domain_len, read_domain, domain_unsupported,
  unsupported_atyp, read_port, connect_timeout, connect_failed, handshake_timeout, reply_timeout,
}

unfoldable pub offer : Option Bytes → Bytes
offer username =
    if is_some username then 0x05 ∷ 0x02 ∷ 0x00 ∷ 0x02 ∷ [] else 0x05 ∷ 0x01 ∷ 0x00 ∷ []

-- `user.len() as u8` keeps the low byte of the length.
unfoldable pub credentials : Bytes → Bytes → Bytes
credentials user pass = 0x01 ∷ (length user % 2 ^ 8) ∷ user ++ (length pass % 2 ^ 8) ∷ pass

abbrev pub require : Option Bytes → M Bytes
require none = bail credentials_required
require (some s) = pure s

unfoldable pub send_password : ProxyConfig → M (Unit {0})
unfolding credentials
send_password proxy = do
  user ← require proxy.username
  pass ← require proxy.password
  write_all (credentials user pass) send_credentials
  auth_resp ← read_exact 2 read_auth
  ensure (nat_beq (get_or auth_resp 1 0) 0x00) auth_rejected

unfoldable pub chosen_method : ProxyConfig → ℕ → M (Unit {0})
chosen_method proxy method =
    if nat_beq method 0x00
    then pure tt
    else if nat_beq method 0x02
    then send_password proxy
    else if nat_beq method 0xff
    then bail no_acceptable_method
    else bail unsupported_method

unfoldable pub negotiate_auth : ProxyConfig → M (Unit {0})
unfolding offer
negotiate_auth proxy = do
  write_all (offer proxy.username) send_methods
  resp ← read_exact 2 read_methods
  ensure (nat_beq (get_or resp 0 0) 0x05) bad_method_version
  chosen_method proxy (get_or resp 1 0)

unfoldable pub read_bind_ip : ℕ → M IpAddr
read_bind_ip atyp =
    if nat_beq atyp 0x01
    then (do octets ← read_exact 4 read_v4; pure (v4 (from_be_bytes octets)))
    else if nat_beq atyp 0x04
    then (do octets ← read_exact 16 read_v6; pure (v6 (from_be_bytes octets)))
    else if nat_beq atyp 0x03
    then (do
      len ← read_exact 1 read_domain_len
      domain ← read_exact (get_or len 0 0) read_domain
      bail domain_unsupported)
    else bail unsupported_atyp

unfoldable pub read_bind_address : M SocketAddr
unfolding read_bind_ip
read_bind_address = do
  head ← read_exact 4 read_header
  ensure (nat_beq (get_or head 0 0) 0x05) bad_reply_version
  ensure (nat_beq (get_or head 1 0) 0x00) (reply_code (get_or head 1 0))
  ip ← read_bind_ip (get_or head 3 0)
  port ← read_exact 2 read_port
  pure (record { ip = ip; port = from_be_bytes port })

unfoldable pub normalize_relay : SocketAddr → SocketAddr → SocketAddr
normalize_relay reply proxy =
    if is_unspecified reply.ip then record { ip = proxy.ip; port = reply.port } else reply

-- What `timeout(connect_timeout, TcpStream::connect(proxy.addr))` came to.
pub data Connected : Type 0 where
  connected : TcpStream → Connected
  refused too_late : Connected

abbrev pub associate_request : Bytes
associate_request = 0x05 ∷ 0x03 ∷ 0x00 ∷ 0x01 ∷ 0 ∷ 0 ∷ 0 ∷ 0 ∷ 0 ∷ 0 ∷ []

unfoldable pub associate_on : ProxyConfig → M SocketAddr
unfolding negotiate_auth read_bind_address normalize_relay
associate_on proxy = do
  within handshake_timeout (negotiate_auth proxy)
  write_all associate_request send_associate
  reply ← within reply_timeout read_bind_address
  pure (normalize_relay reply proxy.addr)

abbrev pub with_control :
    Result SocksError SocketAddr × TcpStream → Result SocksError (TcpStream × SocketAddr)
with_control (ok relay, control) = ok (control, relay)
with_control (err e, control) = err e

-- The control stream and the relay's address. `set_nodelay` cannot fail the call.
unfoldable pub udp_associate : ProxyConfig → Connected → Result SocksError (TcpStream × SocketAddr)
unfolding associate_on
udp_associate proxy too_late = err connect_timeout
udp_associate proxy refused = err connect_failed
udp_associate proxy (connected s) = with_control (associate_on proxy s)
