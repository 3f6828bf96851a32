-- ===== src/Macos/Detected.antt =====
-- src/platform/macos/detect.rs with src/platform/macos/route.rs: the detection of an IPv6 gateway.
use cortado.Base.{
  ◌≡◌, refl, sym, Bool, true, false, ◌&&◌, List, [], ◌∷◌, Option, none, some, Bytes, codes, any,
  nat_beq, nat_beq_iff, arith, if◌then◌else◌,
}
use cortado.Addr.{IpAddr}
use cortado.Text.Split.{lines, trim, strip_prefix, starts_with}
use cortado.Platform.Commands.{Commands}
use cortado.Macos.Routes.{default_gateway, gateway_printed, first_gateway, gateway_on, or_later}
use cortado.Macos.Detect.{query, has_gateway_line, has_default_gateway, detect_link}

strip_prefix-starts_with :
    (p t rest : Bytes) → strip_prefix p t ≡ some rest → starts_with p t ≡ true
unfolding strip_prefix
strip_prefix-starts_with [] t rest h = refl
strip_prefix-starts_with (a ∷ p) [] rest h = cc
strip_prefix-starts_with (a ∷ p) (b ∷ t) rest h =
    compared (nat_beq b a) refl h (λ k. strip_prefix-starts_with p t rest k)
  where
    compared :
        (same : Bool)
        → nat_beq b a ≡ same
        → (if same then strip_prefix p t else none) ≡ some rest
        → (strip_prefix p t ≡ some rest → starts_with p t ≡ true)
        → (nat_beq a b && starts_with p t) ≡ true
    compared true e k next = rw ((nat_beq_iff a b).1 (sym ((nat_beq_iff b a).0 e)), next k) refl
    compared false e k next = cc

module _ (parse_ip : Bytes → Option IpAddr) where
  gateway_on-starts_with :
      (l : Bytes) (gw : IpAddr)
      → gateway_on parse_ip (strip_prefix (codes "gateway:") l) ≡ some gw
      → starts_with (codes "gateway:") l ≡ true
  gateway_on-starts_with l gw h = found (strip_prefix (codes "gateway:") l) refl h
    where
      found :
          (o : Option Bytes)
          → strip_prefix (codes "gateway:") l ≡ o
          → gateway_on parse_ip o ≡ some gw
          → starts_with (codes "gateway:") l ≡ true
      found none e k = cc
      found (some rest) e k = strip_prefix-starts_with (codes "gateway:") l rest e

  first_gateway-any :
      (ls : List Bytes) (gw : IpAddr)
      → first_gateway parse_ip ls ≡ some gw
      → any (λ l. starts_with (codes "gateway:") (trim l)) ls ≡ true
  first_gateway-any [] gw h = cc
  first_gateway-any (l ∷ ls) gw h =
      on_line (gateway_on parse_ip (strip_prefix (codes "gateway:") (trim l))) refl
        (first_gateway parse_ip ls) (λ k. first_gateway-any ls gw k) h
    where
      on_line :
          (o : Option IpAddr)
          → gateway_on parse_ip (strip_prefix (codes "gateway:") (trim l)) ≡ o
          → (later : Option IpAddr)
          → (later ≡ some gw → any (λ x. starts_with (codes "gateway:") (trim x)) ls ≡ true)
          → or_later parse_ip o later ≡ some gw
          → any (λ x. starts_with (codes "gateway:") (trim x)) (l ∷ ls) ≡ true
      on_line (some ip) e later next k = rw (gateway_on-starts_with (trim l) ip e) refl
      on_line none e later next k = let there = next k in ground (arith, there)

  printed-any :
      (o : Option Bytes) (gw : IpAddr)
      → gateway_printed parse_ip o ≡ some gw
      → has_gateway_line o ≡ true
  printed-any none gw h = cc
  printed-any (some text) gw h = first_gateway-any (lines text) gw h

  -- Wherever `apply` finds an IPv6 gateway, the detection reports that there is one.
  pub detect_link-default_gateway :
      (c : Commands) (s : c.State) (gw : IpAddr)
      → default_gateway parse_ip c (codes "-inet6") s ≡ some gw
      → (detect_link c s).has_ipv6_gateway ≡ true
  unfolding default_gateway detect_link has_default_gateway
  detect_link-default_gateway c s gw h = printed-any (c.output (query (codes "-inet6")) s) gw h
