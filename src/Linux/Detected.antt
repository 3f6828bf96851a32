-- ===== src/Linux/Detected.antt =====
-- src/platform/linux/detect.rs against route.rs: what the detection reports, and what `apply` then reads
-- from the same tables.
use cortado.Base.{
  ℕ, ◌≡◌, refl, inl, inr, true, false, List, [], ◌∷◌, Option, none, some, ok, arith, nat_beq,
  Bool-cases, Option-cases, is_some,
}
use cortado.Linux.Netlink.{
  RouteAttribute, inet_gateway, inet6_gateway, oif_index, other_attribute, Dump, Netlink,
}
use cortado.Linux.Gateways.{read_gateway, gateway_v4, gateway_v6, link_of, both}
use cortado.Linux.Detect.{
  first_link, default_v4_oif, has_v6, default_v6_present, link_mtu, mtu_of, gather, detect_link,
}

gateway_v6-without :
    (attrs : List RouteAttribute) (found : Option ℕ)
    → has_v6 attrs ≡ false
    → gateway_v6 attrs found ≡ found
gateway_v6-without [] found h = refl
gateway_v6-without (inet6_gateway g ∷ rest) found h = absurd (ground arith)
gateway_v6-without (inet_gateway g ∷ rest) found h = gateway_v6-without rest found h
gateway_v6-without (oif_index i ∷ rest) found h = gateway_v6-without rest found h
gateway_v6-without (other_attribute ∷ rest) found h = gateway_v6-without rest found h

-- A gateway of the second scan is present in the first.
present_if_read :
    (d : Dump) (hop : ℕ × ℕ)
    → read_gateway gateway_v6 d ≡ ok (some hop)
    → default_v6_present d ≡ ok true
unfolding read_gateway default_v6_present
present_if_read [] hop h = absurd (ground arith)
present_if_read (none ∷ rest) hop h = absurd (ground arith)
present_if_read (some m ∷ rest) hop h = elim (Bool-cases (nat_beq m.destination_prefix_length 0)) [
  | inr other ↦ rw other (present_if_read rest hop (rw other at h))
  | inl zero_prefix ↦ elim (Bool-cases (has_v6 m.attributes)) [
    | inl here ↦ rw (zero_prefix, here) refl
    | inr not_here ↦
        let skipped = gateway_v6-without m.attributes none not_here in
        let later = rw skipped at (rw zero_prefix at h) in
        rw (zero_prefix, not_here) (present_if_read rest hop later)
  ]
]

link_of-without :
    (attrs : List RouteAttribute) (found : Option ℕ)
    → first_link attrs ≡ none
    → link_of attrs found ≡ found
link_of-without [] found h = refl
link_of-without (oif_index i ∷ rest) found h = absurd (ground arith)
link_of-without (inet_gateway g ∷ rest) found h = link_of-without rest found h
link_of-without (inet6_gateway g ∷ rest) found h = link_of-without rest found h
link_of-without (other_attribute ∷ rest) found h = link_of-without rest found h

both-none : (g : Option ℕ) → both g none ≡ none
both-none none = refl
both-none (some g) = refl

-- Where the first scan of the other family ends without an error, so does the search for a link.
oif_if_read :
    (d : Dump) (found : Option (ℕ × ℕ))
    → read_gateway gateway_v4 d ≡ ok found
    → (i : Option ℕ) × (default_v4_oif d ≡ ok i)
unfolding read_gateway default_v4_oif
oif_if_read [] found h = (none, refl)
oif_if_read (none ∷ rest) found h = absurd (ground arith)
oif_if_read (some m ∷ rest) found h = elim (Bool-cases (nat_beq m.destination_prefix_length 0)) [
  | inr other ↦ let (i, e) = oif_if_read rest found (rw other at h) in (i, rw other e)
  | inl zero_prefix ↦ elim (Option-cases (first_link m.attributes)) [
    | inr (i, here) ↦ (some i, rw (zero_prefix, here) refl)
    | inl not_here ↦
        let skipped = link_of-without m.attributes none not_here in
        let nothing = both-none (gateway_v4 m.attributes none) in
        let later = rw nothing at (rw skipped at (rw zero_prefix at h)) in
        let (i, e) = oif_if_read rest found later in (i, rw (zero_prefix, not_here) e)
  ]
]

module _ (nl : Netlink) where
  mtu_answered :
      (o : Option ℕ) (s : nl.State)
      → ((i : ℕ) → is_some (nl.link_mtu i s) ≡ true)
      → (mtu : Option ℕ) × (mtu_of nl o s ≡ ok mtu)
  unfolding mtu_of link_mtu
  mtu_answered none s h = (none, refl)
  mtu_answered (some i) s h = elim (Option-cases (nl.link_mtu i s)) [
    | inl failed ↦ let answered = h i in absurd (ground arith)
    | inr (mtu, read) ↦ (mtu, rw (read, link_mtu) refl)
  ]

  -- If the IPv4 routes and the links can be read, then wherever `apply` will find an IPv6 gateway in
  -- the same tables, the detection has reported that there is one.
  pub detect_link-reports :
      (s : nl.State) (found : Option (ℕ × ℕ)) (hop : ℕ × ℕ)
      → read_gateway gateway_v4 (nl.dump_v4 s) ≡ ok found
      → ((i : ℕ) → is_some (nl.link_mtu i s) ≡ true)
      → read_gateway gateway_v6 (nl.dump_v6 s) ≡ ok (some hop)
      → (detect_link nl s).has_ipv6_gateway ≡ true
  unfolding detect_link
  detect_link-reports s found hop v4_read links v6_read =
      let (oif, at_oif) = oif_if_read (nl.dump_v4 s) found v4_read in
      let (mtu, at_mtu) = mtu_answered oif s links in
      let at_v6 = present_if_read (nl.dump_v6 s) hop v6_read in
      let whole : gather nl s ≡ ok (record { mtu = mtu; has_ipv6_gateway = true }) =
        rw (at_oif, gather) (rw (at_mtu) (rw at_v6 refl)) in
      rw (whole, detect_link) refl
