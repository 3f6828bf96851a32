-- ===== src/Net/Tests.antt =====
-- Runs of src/net.rs on concrete addresses and blocks.
use cortado.Base.{◌≡◌, refl, true, List, [], ◌∷◌, arith, nat_eq, pair_eq, if◌then◌else◌, any, ◌↔◌}
use cortado.Addr.{IpAddr, v4, v6, ip_eq}
use cortado.Net.Cidr
use cortado.Net.Masks.{prefix_mask_v4, mask_v4}
use cortado.Net.Cidr.{contains-new, SameNetwork}
use cortado.Net.Diff.{Block, diff_cidrs}
use cortado.Net.RouteTable
use cortado.Net.RouteTable.{RouteDecision, direct, proxy, decide, decide-new}

-- 10.1.2.3 and 10.9.9.9.
abbrev ten_one : IpAddr
ten_one = v4 0x0a010203

abbrev ten_nine : IpAddr
ten_nine = v4 0x0a090909

contains-new_example :
    (Cidr.contains (Cidr.new ten_one 8) ten_nine ≡ true) ↔ SameNetwork ten_nine ten_one 8
contains-new_example = contains-new ten_one ten_nine 8 (omega arith) (omega arith)

abbrev bypass : List Block
bypass = (ten_one, 8) ∷ (v6 1, 128) ∷ (v4 0xc0a80105, 32) ∷ []

decide-new_example :
    decide (RouteTable.new bypass) ten_nine
    ≡ (if any (λ b. Cidr.contains (RouteTable.cidr_of b) ten_nine) bypass then direct else proxy)
decide-new_example = decide-new bypass ten_nine

sends_direct : decide (RouteTable.new bypass) ten_nine ≡ direct
unfolding decide RouteTable.new prefix_mask_v4 mask_v4
sends_direct = refl

sends_to_proxy : decide (RouteTable.new bypass) (v4 0x08080808) ≡ proxy
unfolding decide RouteTable.new prefix_mask_v4 mask_v4
sends_to_proxy = refl

abbrev next_bypass : List Block
next_bypass = (v6 1, 128) ∷ (ten_nine, 16) ∷ []

difference :
    diff_cidrs bypass next_bypass ≡ ((ten_nine, 16) ∷ [], (ten_one, 8) ∷ (v4 0xc0a80105, 32) ∷ [])
unfolding diff_cidrs
difference = refl
