-- ===== src/Net/Cidr.antt =====
-- src/net.rs: `Cidr`, a block of addresses with its base normalised to the prefix.
use native.Mathlib.Nat.{one-le-pow, mul-div_cancel}
use cortado.Base.{
  ℕ, ◌-◌, ◌*◌, ◌/◌, ◌^◌, ◌≡◌, ap, ◌∙◌, sym, ◌↔◌, Bool, true, false, arith, nat_beq, nat_beq_iff,
}
use cortado.Addr.{IpAddr, v4, v6, is_ipv6, IsIp}
use cortado.Net.Masks.{mask_v4, mask_v6, mask_v4_lem, mask_v6_lem}

pub record Cidr : Type 0 where
  pub base : IpAddr
  pub prefix : ℕ

abbrev pub masked : IpAddr → ℕ → IpAddr
masked (v4 a) prefix = v4 (mask_v4 a prefix)
masked (v6 a) prefix = v6 (mask_v6 a prefix)

unfoldable pub new : IpAddr → ℕ → Cidr
new addr prefix = record { base = masked addr prefix; prefix = prefix }

unfoldable pub contains_in : IpAddr → ℕ → IpAddr → Bool
contains_in (v4 b) prefix (v4 a) = nat_beq (mask_v4 a prefix) b
contains_in (v4 b) prefix (v6 a) = false
contains_in (v6 b) prefix (v4 a) = false
contains_in (v6 b) prefix (v6 a) = nat_beq (mask_v6 a prefix) b

unfoldable pub contains : Cidr → IpAddr → Bool
unfolding contains_in
contains c addr = contains_in c.base c.prefix addr

unfoldable pub is_ipv6_block : Cidr → Bool
is_ipv6_block c = is_ipv6 c.base

-- Two addresses of one family agree on the first `prefix` bits; those of two families never do.
abbrev pub SameNetwork : IpAddr → IpAddr → ℕ → Type 0
SameNetwork (v4 a) (v4 b) prefix = a / 2 ^ (32 - prefix) ≡ b / 2 ^ (32 - prefix)
SameNetwork (v4 a) (v6 b) prefix = ⊥
SameNetwork (v6 a) (v4 b) prefix = ⊥
SameNetwork (v6 a) (v6 b) prefix = a / 2 ^ (128 - prefix) ≡ b / 2 ^ (128 - prefix)

quotients_agree : (k a b : ℕ) → (a / 2 ^ k * 2 ^ k ≡ b / 2 ^ k * 2 ^ k) ↔ (a / 2 ^ k ≡ b / 2 ^ k)
quotients_agree k a b = (strip, ap (λ (t : ℕ). t * 2 ^ k))
  where
    strip : a / 2 ^ k * 2 ^ k ≡ b / 2 ^ k * 2 ^ k → a / 2 ^ k ≡ b / 2 ^ k
    strip e =
        sym (mul-div_cancel (a / 2 ^ k) (one-le-pow k 2 (omega arith)))
        ∙ ap (λ (t : ℕ). t / 2 ^ k) e
        ∙ mul-div_cancel (b / 2 ^ k) (one-le-pow k 2 (omega arith))

-- A block made from any address of a network contains exactly the addresses that agree with it on
-- the first `prefix` bits, also where the prefix is longer than the address or zero.
pub contains-new :
    (addr target : IpAddr) (prefix : ℕ)
    → IsIp addr
    → IsIp target
    → (contains (new addr prefix) target ≡ true) ↔ SameNetwork target addr prefix
unfolding contains new
contains-new (v4 b) (v4 a) p hb ha =
    rw (mask_v4_lem a p ha, mask_v4_lem b p hb)
      (let (to, from) =
          nat_beq_iff (a / 2 ^ (32 - p) * 2 ^ (32 - p)) (b / 2 ^ (32 - p) * 2 ^ (32 - p)) in
        let (strip, grow) = quotients_agree (32 - p) a b in (λ h. strip (to h), λ e. from (grow e)))
contains-new (v4 b) (v6 a) p hb ha = ground arith
contains-new (v6 b) (v4 a) p hb ha = ground arith
contains-new (v6 b) (v6 a) p hb ha =
    rw (mask_v6_lem a p ha, mask_v6_lem b p hb)
      (let (to, from) =
          nat_beq_iff (a / 2 ^ (128 - p) * 2 ^ (128 - p)) (b / 2 ^ (128 - p) * 2 ^ (128 - p)) in
        let (strip, grow) = quotients_agree (128 - p) a b in
        (λ h. strip (to h), λ e. from (grow e)))
