-- ===== src/Socks/Negotiated.antt =====
-- src/socks.rs: which dialogues `negotiate_auth` accepts, and what it sends in each.
use cortado.Base.{
  ℕ, ◌-◌, ◌%◌, ◌≤◌, ◌≡◌, refl, inl, inr, [], ◌∷◌, ◌++◌, Option, none, some, Bytes, ok, arith,
  length, take, drop, take-length-append, drop-length-append, append_assoc, get_or, ap, ap₂, ◌∙◌,
  take-length, Bool-cases, nat_beq,
}
use cortado.Config.{ProxyConfig}
use cortado.Config.Valid.{FitsByte}
use cortado.Socks.Stream.{TcpStream, write_all, read_exact}
use cortado.Socks.Handshake.{offer, credentials, negotiate_auth, chosen_method, send_password}

-- What the proxy says, what the client says, and in how many writes.
pub data Dialogue (proxy : ProxyConfig) (heard sent : Bytes) (writes : ℕ) : Type 0 where
  no_auth :
      heard ≡ 0x05 ∷ 0x00 ∷ []
      → sent ≡ offer proxy.username
      → writes ≡ 1
      → Dialogue proxy heard sent writes
  password :
      (user pass : Bytes) (version : ℕ)
      → proxy.username ≡ some user
      → proxy.password ≡ some pass
      → heard ≡ 0x05 ∷ 0x02 ∷ version ∷ 0x00 ∷ []
      → sent ≡ offer proxy.username ++ credentials user pass
      → writes ≡ 2
      → Dialogue proxy heard sent writes

-- The stream after a dialogue.
abbrev pub after : TcpStream → Bytes → Bytes → ℕ → TcpStream
after s rest sent writes = record s {
  incoming = rest;
  written = s.written ++ sent;
  writes_left = s.writes_left - writes;
}

-- A dialogue in which the proxy chooses no authentication, or a password that it then accepts, is
-- negotiated: the bytes heard are consumed, those said are written, no others.
pub negotiate_auth-accepts :
    (proxy : ProxyConfig) (s : TcpStream) (heard sent rest : Bytes) (writes : ℕ)
    → Dialogue proxy heard sent writes
    → s.incoming ≡ heard ++ rest
    → writes ≤ s.writes_left
    → negotiate_auth proxy s ≡ (ok tt, after s rest sent writes)
unfolding negotiate_auth chosen_method send_password write_all read_exact
negotiate_auth-accepts proxy s heard sent rest writes (no_auth eh es ew) e enough = ground arith
negotiate_auth-accepts proxy s heard sent rest writes (password user pass v eu ep eh es ew) e
      enough =
    ground (arith, append_assoc s.written (offer proxy.username) (credentials user pass))

-- The server's side of RFC 1929: the version, then each credential behind its length.
abbrev pub parse_credentials : Bytes → Option (Bytes × Bytes)
parse_credentials (version ∷ ulen ∷ more) =
    let tail = drop ulen more in some (take ulen more, take (get_or tail 0 0) (drop 1 tail))
parse_credentials _ = none

-- The proxy reads from the credentials message the very credentials of the configuration.
pub parse_credentials-credentials :
    (user pass : Bytes)
    → FitsByte user
    → FitsByte pass
    → parse_credentials (credentials user pass) ≡ some (user, pass)
unfolding credentials
parse_credentials-credentials user pass hu hp =
    let ulen : length user % 256 ≡ length user = omega arith in
    let plen : length pass % 256 ≡ length pass = omega arith in
    rw (ulen, plen, take-length-append user, drop-length-append user) (rw (take-length pass))

send_password_sound :
    (proxy : ProxyConfig) (s t : TcpStream) (u p : Option Bytes) (heard : Bytes)
    → proxy.username ≡ u
    → proxy.password ≡ p
    → s.incoming ≡ heard
    → send_password proxy s ≡ (ok tt, t)
    → (user pass : Bytes) × (version : ℕ) × (proxy.username ≡ some user)
      × (proxy.password ≡ some pass)
      × (s.incoming ≡ version ∷ 0x00 ∷ t.incoming)
      × (t ≡ after s t.incoming (credentials user pass) 1)
unfolding send_password write_all read_exact
send_password_sound proxy s t none p heard eu ep eh e = ground arith
send_password_sound proxy s t (some u) none heard eu ep eh e = ground arith
send_password_sound proxy s t (some u) (some p) [] eu ep eh e = ground arith
send_password_sound proxy s t (some u) (some p) (v ∷ []) eu ep eh e = ground arith
send_password_sound proxy s t (some u) (some p) (v ∷ c ∷ rest) eu ep eh e =
    (u, p, v, eu, ep, ground arith, ground arith)

-- The stream after the method selection.
abbrev asked : ProxyConfig → TcpStream → Bytes → TcpStream
asked proxy s rest = after s rest (offer proxy.username) 1

-- What a successful negotiation heard and said.
abbrev pub Negotiated : ProxyConfig → TcpStream → TcpStream → Type 0
Negotiated proxy s t =
    (heard sent : Bytes) × (writes : ℕ) × Dialogue proxy heard sent writes
    × (s.incoming ≡ heard ++ t.incoming)
    × (t ≡ after s t.incoming sent writes)

after_twice :
    (s t : TcpStream) (mid rest first second : Bytes)
    → t ≡ after (after s mid first 1) rest second 1
    → t ≡ after s rest (first ++ second) 2
after_twice s t mid rest first second e =
    e
    ∙ ap₂ (λ w n. record s { incoming = rest; written = w; writes_left = n })
        (append_assoc s.written first second) (omega arith)

password_round :
    (proxy : ProxyConfig) (s t : TcpStream) (rest : Bytes)
    → s.incoming ≡ 0x05 ∷ 0x02 ∷ rest
    → send_password proxy (asked proxy s rest) ≡ (ok tt, t)
    → Negotiated proxy s t
password_round proxy s t rest eh sent =
    let (user, pass, version, eu, ep, ei, et) =
      send_password_sound proxy (asked proxy s rest) t proxy.username proxy.password rest refl refl
        refl sent in
    (
      0x05 ∷ 0x02 ∷ version ∷ 0x00 ∷ [],
      offer proxy.username ++ credentials user pass,
      2,
      password user pass version eu ep refl refl refl,
      eh ∙ ap (λ (l : Bytes). 0x05 ∷ 0x02 ∷ l) ei,
      after_twice s t rest t.incoming (offer proxy.username) (credentials user pass) et,
    )

-- A successful negotiation was a dialogue in which the proxy chose no authentication, or a
-- password that it then accepted, and it consumed and wrote the bytes of that dialogue only.
pub negotiate_auth_sound :
    (proxy : ProxyConfig) (s t : TcpStream) (all : Bytes)
    → s.incoming ≡ all
    → negotiate_auth proxy s ≡ (ok tt, t)
    → Negotiated proxy s t
unfolding negotiate_auth chosen_method write_all read_exact
negotiate_auth_sound proxy s t [] eh e = ground arith
negotiate_auth_sound proxy s t (v ∷ []) eh e = ground arith
negotiate_auth_sound proxy s t (v ∷ m ∷ rest) eh e = elim (Bool-cases (nat_beq m 0)) [
  | inl plain ↦ (
    v ∷ m ∷ [],
    offer proxy.username,
    1,
    no_auth (ground arith) refl refl,
    ground arith,
    ground arith,
  )
  | inr other ↦ password_round proxy s t rest (ground arith) (ground arith)
]
