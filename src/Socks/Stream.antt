-- ===== src/Socks/Stream.antt =====
-- The TCP stream under the handshake of src/socks.rs: what the peer will send, what was written,
-- and how many writes still succeed. When the input runs out the peer has closed the stream, or, if
-- it stalls, says nothing more, so that only the surrounding `timeout` ends the read.
use cortado.Base.{
  ℕ, ◌-◌, Bool, true, false, [], ◌++◌, Bytes, Result, ok, err, leb, nat_beq, take, drop, length,
  if◌then◌else◌,
}

pub data SocksError : Type 0 where
  send_methods read_methods bad_method_version : SocksError
  credentials_required send_credentials read_auth auth_rejected : SocksError
  no_acceptable_method unsupported_method : SocksError
  send_associate read_header bad_reply_version : SocksError
  reply_code : ℕ → SocksError
  read_v4 read_v6 read_domain_len read_domain domain_unsupported unsupported_atyp : SocksError
  read_port : SocksError
  stalled connect_timeout connect_failed handshake_timeout reply_timeout : SocksError
  auth_connect_timeout auth_connect_failed nodelay_failed : SocksError

pub record TcpStream : Type 0 where
  pub incoming : Bytes
  pub stalls : Bool
  pub written : Bytes
  pub writes_left : ℕ

-- A step of the handshake: it keeps the stream on errors too.
abbrev pub M {ℓ} : Type ℓ → Type ℓ
M A = TcpStream → Result SocksError A × TcpStream

abbrev pub bind_outcome {ℓ κ} :
    {A : Type ℓ} {B : Type κ}
    → Result SocksError A × TcpStream
    → (A → M B)
    → Result SocksError B × TcpStream
bind_outcome (ok a, s) f = f a s
bind_outcome (err e, s) f = (err e, s)

infixl 5 ◌>>=◌ ◌>>◌
abbrev pub ◌>>=◌ {ℓ κ} : {A : Type ℓ} {B : Type κ} → M A → (A → M B) → M B
◌>>=◌ m f s = bind_outcome (m s) f

abbrev pub ◌>>◌ {κ} : {B : Type κ} → M (Unit {0}) → M B → M B
m >> k = m >>= λ _. k

abbrev pub pure {ℓ} : {A : Type ℓ} → A → M A
pure a s = (ok a, s)

abbrev pub bail {ℓ} : {A : Type ℓ} → SocksError → M A
bail e s = (err e, s)

abbrev pub ensure : Bool → SocksError → M (Unit {0})
ensure true e = pure tt
ensure false e = bail e

unfoldable pub write_all : Bytes → SocksError → M (Unit {0})
write_all bs e s =
    if nat_beq s.writes_left 0
    then (err e, s)
    else (ok tt, record s { written = s.written ++ bs; writes_left = s.writes_left - 1 })

unfoldable pub read_exact : ℕ → SocksError → M Bytes
read_exact n e s =
    if leb n (length s.incoming)
    then (ok (take n s.incoming), record s { incoming = drop n s.incoming })
    else (err (if s.stalls then stalled else e), record s { incoming = [] })

-- `timeout(limit, step).await.context(late)??`
abbrev pub relabel : SocksError → SocksError → SocksError
relabel late stalled = late
relabel late e = e

abbrev pub relabel_outcome {ℓ} :
    {A : Type ℓ} → SocksError → Result SocksError A × TcpStream → Result SocksError A × TcpStream
relabel_outcome late (ok a, s) = (ok a, s)
relabel_outcome late (err e, s) = (err (relabel late e), s)

unfoldable pub within {ℓ} : {A : Type ℓ} → SocksError → M A → M A
within late m s = relabel_outcome late (m s)
