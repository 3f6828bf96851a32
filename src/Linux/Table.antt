-- ===== src/Linux/Table.antt =====
-- src/platform/linux/route.rs: what a sequence of route requests does to the routing table.
use cortado.Base.{
  ℕ, ◌≡◌, refl, ap, ◌⊎◌, inl, inr, false, List, [], ◌∷◌, ◌++◌, Option, some, All, arith, contains,
  ◌==◌, ==_iff, nat_eq, pair_eq, Bool-cases, if◌then◌else◌,
}
use cortado.Addr.{IpAddr, ip_eq}
use cortado.Linux.Netlink.{Via, Route, key_of}

abbrev pub Table : Type 0
Table = IpAddr × ℕ → Option Via

-- The table after the routes were added in order, each replacing one of its key.
abbrev pub overlay : List Route → Table → Table
overlay [] t k = t k
overlay (r ∷ rs) t k = overlay rs (λ j. if key_of r == j then some r.via else t j) k

abbrev pub keys : List Route → List (IpAddr × ℕ)
keys [] = []
keys (r ∷ rs) = key_of r ∷ keys rs

pub overlay-append :
    (rs ss : List Route) (t : Table) (k : IpAddr × ℕ)
    → overlay (rs ++ ss) t k ≡ overlay ss (overlay rs t) k
overlay-append [] ss t k = refl
overlay-append (r ∷ rs) ss t k =
    overlay-append rs ss (λ j. if key_of r == j then some r.via else t j) k

pub overlay-cong :
    (rs : List Route) (t u : Table) (k : IpAddr × ℕ)
    → ((j : IpAddr × ℕ) → t j ≡ u j)
    → overlay rs t k ≡ overlay rs u k
overlay-cong [] t u k h = h k
overlay-cong (r ∷ rs) t u k h =
    overlay-cong rs _ _ k
      λ j. ap (λ (v : Option Via). if key_of r == j then some r.via else v) (h j)

-- A key shows the last route of that key, which has every property that all of them have; or it has
-- none of them, and the table is as before there.
pub overlay-cases :
    (P : Route → Type 0) (rs : List Route) (t : Table) (k : IpAddr × ℕ)
    → All P rs
    → ((overlay rs t k ≡ t k) × (contains (keys rs) k ≡ false))
      ⊎ ((r : Route) × P r × (key_of r ≡ k) × (overlay rs t k ≡ some r.via))
overlay-cases P [] t k h = inl (refl, refl)
overlay-cases P (r ∷ rs) t k (p, h) =
    elim (overlay-cases P rs (λ j. if key_of r == j then some r.via else t j) k h) [
      | inr found ↦ inr found
      | inl (later, absent) ↦ elim (Bool-cases (key_of r == k)) [
        | inl here ↦ inr (r, p, (==_iff (key_of r) k).0 here, ground arith)
        | inr elsewhere ↦ inl (ground arith, ground arith)
      ]
    ]
