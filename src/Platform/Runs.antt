-- ===== src/Platform/Runs.antt =====
-- A routing table that is a list, for runs of the controllers of macOS and Windows.
use cortado.Base.{
  ◌≡◌, refl, sym, ◌∙◌, ◌⊎◌, inl, inr, true, false, not, List, [], ◌∷◌, none, some, Option, Bytes,
  codes, arith, contains, contains-filter, filter, Bool-cases, ◌==◌, ==_iff, nat_eq, list_eq,
  if◌then◌else◌,
}
use cortado.Addr.{IpAddr, v4, v6}
use cortado.Net.Diff.{Block}
use cortado.Config.Samples.{sample}
use cortado.Config.{default_connect_timeout}
use cortado.Reload.{Readings}
use cortado.Platform.{Resolver}

abbrev pub Table : Type 0
Table = List (List Bytes)

abbrev pub without : List Bytes → Table → Table
without key = filter (λ k. not (k == key))

pub contains-added : (key : List Bytes) (s : Table) → contains (key ∷ s) key ≡ true
contains-added key s = let same = (==_iff key key).1 refl in ground (arith, same)

pub contains-kept :
    (key q : List Bytes) (s : Table) → contains s q ≡ true → contains (key ∷ s) q ≡ true
contains-kept key q s h = ground (arith, h)

pub contains-no_more :
    (key q : List Bytes) (s : Table)
    → contains (key ∷ s) q ≡ true
    → ((q == key) ≡ true) ⊎ (contains s q ≡ true)
contains-no_more key q s h = elim (Bool-cases (key == q)) [
  | inl same ↦ inl ((==_iff q key).1 (sym ((==_iff key q).0 same)))
  | inr other ↦ inr (ground (arith, h, other))
]

pub contains-without :
    (key q : List Bytes) (s : Table)
    → contains (without key s) q ≡ true
    → ((q == key) ≡ false) × (contains s q ≡ true)
contains-without key q s h =
    let parts = contains-filter (λ k. not (k == key)) s q in
    (ground (arith, h, parts), ground (arith, h, parts))

pub without-spares :
    (key q : List Bytes) (s : Table)
    → contains s q ≡ true
    → (q == key) ≡ false
    → contains (without key s) q ≡ true
without-spares key q s h apart =
    contains-filter (λ k. not (k == key)) s q ∙ ground (arith, h, apart)

-- A resolver that keeps the server that it was told.
abbrev pub resolver : Resolver
resolver = record {
  State = Option IpAddr;
  apply = λ server s. (true, server);
  reload = λ server s. (true, server);
  restore = λ s. none;
}

abbrev pub show_ip : IpAddr → Bytes
show_ip (v4 a) = 4 ∷ a ∷ []
show_ip (v6 a) = 6 ∷ a ∷ []

abbrev pub parse_ip : Bytes → Option IpAddr
parse_ip text = if text == codes "10.0.0.254" then some (v4 0x0a0000fe) else none

-- A configuration's readings.
abbrev pub reading : IpAddr → List Block → Readings
reading ip bypass = record {
  bypass = bypass;
  address = record { ip = ip; port = 1080 };
  dns = some (v4 0x01010101);
  proxy = record {
    addr = record { ip = ip; port = 1080 };
    username = sample.username;
    password = sample.password;
    connect_timeout = default_connect_timeout;
    tcp_nodelay = true;
  };
}

abbrev pub first : Readings
first = reading (v4 0x0a000001) ((v4 0xc0a80000, 16) ∷ (v6 1, 128) ∷ [])

abbrev pub second : Readings
second = reading (v4 0x0a000002) ((v4 0xac100000, 12) ∷ (v6 1, 128) ∷ [])

-- A route of before.
abbrev pub other : List Bytes
other = codes "other" ∷ []
