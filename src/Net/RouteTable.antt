-- ===== src/Net/RouteTable.antt =====
-- src/net.rs: `RouteTable`, the classifier that `relay_tcp_connection` asks.
use cortado.Base.{
  ℕ, ◌+◌, ◌≡◌, refl, ap, ◌∙◌, Bool, false, ◌||◌, List, [], ◌∷◌, ◌++◌, map, arith, nat_beq, leb, any,
  length, bit_and, any-append, if◌then◌else◌,
}
use cortado.Addr.{IpAddr, v4, v6}
use cortado.Net.Masks.{prefix_mask_v4, prefix_mask_v6, mask_v4, mask_v6}
use cortado.Net.Cidr
use cortado.Net.Cidr.{Cidr}

pub data RouteDecision : Type 0 where
  direct proxy : RouteDecision

pub record RouteTable : Type 0 where
  pub v4_entries : List (ℕ × ℕ)
  pub v6_entries : List (ℕ × ℕ)
  pub len : ℕ

-- `sort_by_key(|c| Reverse(c.prefix))`: stable, longest prefix first.
unfoldable pub insert_by_prefix : Cidr → List Cidr → List Cidr
insert_by_prefix c [] = c ∷ []
insert_by_prefix c (d ∷ ds) =
    if leb d.prefix c.prefix then c ∷ d ∷ ds else d ∷ insert_by_prefix c ds

unfoldable pub sort_by_prefix : List Cidr → List Cidr
sort_by_prefix [] = []
sort_by_prefix (c ∷ cs) = insert_by_prefix c (sort_by_prefix cs)

-- One round of the loop that fills the two tables.
unfoldable pub push_entry : RouteTable → IpAddr → ℕ → RouteTable
push_entry t (v4 b) prefix = record t {
  v4_entries = t.v4_entries ++ (b, prefix_mask_v4 prefix) ∷ [];
}
push_entry t (v6 b) prefix = record t {
  v6_entries = t.v6_entries ++ (b, prefix_mask_v6 prefix) ∷ [];
}

unfoldable pub push_entries : RouteTable → List Cidr → RouteTable
push_entries t [] = t
push_entries t (c ∷ cs) = push_entries (push_entry t c.base c.prefix) cs

abbrev pub cidr_of : IpAddr × ℕ → Cidr
cidr_of (addr, prefix) = Cidr.new addr prefix

unfoldable pub new : List (IpAddr × ℕ) → RouteTable
unfolding sort_by_prefix insert_by_prefix push_entries push_entry Cidr.new
new blocks =
    let cidrs = sort_by_prefix (map cidr_of blocks) in
    push_entries (record { v4_entries = []; v6_entries = []; len = length cidrs }) cidrs

abbrev pub entry_matches : ℕ → ℕ × ℕ → Bool
entry_matches bits (base, mask) = nat_beq (bit_and bits mask) base

unfoldable pub matched : RouteTable → IpAddr → Bool
matched t (v4 a) = any (entry_matches a) t.v4_entries
matched t (v6 a) = any (entry_matches a) t.v6_entries

unfoldable pub decide : RouteTable → IpAddr → RouteDecision
unfolding matched
decide t addr = if matched t addr then direct else proxy

unfoldable pub is_empty : RouteTable → Bool
is_empty t = nat_beq t.len 0

any-insert_by_prefix :
    (p : Cidr → Bool) (c : Cidr) (cs : List Cidr)
    → any p (insert_by_prefix c cs) ≡ (p c || any p cs)
unfolding insert_by_prefix
any-insert_by_prefix p c [] = refl
any-insert_by_prefix p c (d ∷ ds) = ground (arith, any-insert_by_prefix p c ds)

any-sort_by_prefix : (p : Cidr → Bool) (cs : List Cidr) → any p (sort_by_prefix cs) ≡ any p cs
unfolding sort_by_prefix
any-sort_by_prefix p [] = refl
any-sort_by_prefix p (c ∷ cs) =
    any-insert_by_prefix p c (sort_by_prefix cs) ∙ ap (◌||◌ (p c)) (any-sort_by_prefix p cs)

matched-push_entry :
    (t : RouteTable) (base : IpAddr) (prefix : ℕ) (addr : IpAddr)
    → matched (push_entry t base prefix) addr
      ≡ (matched t addr || Cidr.contains_in base prefix addr)
unfolding matched push_entry Cidr.contains_in mask_v4 mask_v6
matched-push_entry t (v4 b) p (v4 a) =
    any-append (entry_matches a) t.v4_entries ((b, prefix_mask_v4 p) ∷ []) ∙ ground arith
matched-push_entry t (v4 b) p (v6 a) = ground arith
matched-push_entry t (v6 b) p (v4 a) = ground arith
matched-push_entry t (v6 b) p (v6 a) =
    any-append (entry_matches a) t.v6_entries ((b, prefix_mask_v6 p) ∷ []) ∙ ground arith

matched-push_entries :
    (t : RouteTable) (cs : List Cidr) (addr : IpAddr)
    → matched (push_entries t cs) addr ≡ (matched t addr || any (λ c. Cidr.contains c addr) cs)
unfolding push_entries Cidr.contains
matched-push_entries t [] addr = ground arith
matched-push_entries t (c ∷ cs) addr = ground (
  arith,
  matched-push_entries (push_entry t c.base c.prefix) cs addr,
  matched-push_entry t c.base c.prefix addr,
)

any-map {ℓ κ} :
    {A : Type ℓ} {B : Type κ} (p : B → Bool) (f : A → B) (xs : List A)
    → any p (map f xs) ≡ any (λ x. p (f x)) xs
any-map p f [] = refl
any-map p f (x ∷ xs) = ground (arith, any-map p f xs)

matched-empty :
    (n : ℕ) (addr : IpAddr)
    → matched (record { v4_entries = []; v6_entries = []; len = n }) addr ≡ false
unfolding matched
matched-empty n (v4 a) = refl
matched-empty n (v6 a) = refl

-- The table built from a list of blocks sends an address directly exactly when some block of the
-- list contains it, whatever the order of the blocks, and through the proxy otherwise.
pub decide-new :
    (blocks : List (IpAddr × ℕ)) (addr : IpAddr)
    → decide (new blocks) addr
      ≡ (if any (λ b. Cidr.contains (cidr_of b) addr) blocks then direct else proxy)
unfolding decide new
decide-new blocks addr =
    let cidrs = sort_by_prefix (map cidr_of blocks) in
    let start : RouteTable = record { v4_entries = []; v6_entries = []; len = length cidrs } in
    let holds = λ (c : Cidr). Cidr.contains c addr in
    ap (λ b. if b then direct else proxy)
      (matched-push_entries start cidrs addr
        ∙ ap (λ b. b || any holds cidrs) (matched-empty (length cidrs) addr)
        ∙ any-sort_by_prefix holds (map cidr_of blocks)
        ∙ any-map holds cidr_of blocks)

length-insert_by_prefix :
    (c : Cidr) (cs : List Cidr) → length (insert_by_prefix c cs) ≡ length cs + 1
unfolding insert_by_prefix
length-insert_by_prefix c [] = omega arith
length-insert_by_prefix c (d ∷ ds) = ground (arith, length-insert_by_prefix c ds)

length-sort_by_prefix : (cs : List Cidr) → length (sort_by_prefix cs) ≡ length cs
unfolding sort_by_prefix
length-sort_by_prefix [] = refl
length-sort_by_prefix (c ∷ cs) =
    omega (arith, length-insert_by_prefix c (sort_by_prefix cs), length-sort_by_prefix cs)
