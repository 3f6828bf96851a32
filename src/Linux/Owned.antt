-- ===== src/Linux/Owned.antt =====
-- src/platform/linux/route.rs: which routes of the table are the manager's, while it reloads.
use cortado.Base.{
  ℕ, ◌≡◌, refl, sym, ap, subst, ◌∙◌, ◌⊎◌, inl, inr, true, false, List, [], ◌∷◌, ◌++◌, none, some,
  arith, All, contains, ◌==◌, ==_iff, nat_eq, pair_eq, Bool-cases,
}
use cortado.Addr.{IpAddr, ip_eq}
use cortado.Net.Diff.{Block}
use cortado.Linux.Netlink.{Route, key_of}
use cortado.Linux.Table.{Table, keys, overlay, overlay-cases}
use cortado.Linux.Install.{joined}

abbrev pub Among : Route → List Route → Type 0
Among r [] = ⊥
Among r (s ∷ rs) = (r ≡ s) ⊎ Among r rs

pub Among-left : (r : Route) (rs ss : List Route) → Among r rs → Among r (rs ++ ss)
Among-left r [] ss h = absurd h
Among-left r (s ∷ rs) ss (inl here) = inl here
Among-left r (s ∷ rs) ss (inr there) = inr (Among-left r rs ss there)

pub Among-right : (r : Route) (rs ss : List Route) → Among r ss → Among r (rs ++ ss)
Among-right r [] ss h = h
Among-right r (s ∷ rs) ss h = inr (Among-right r rs ss h)

pub Among-append : (r : Route) (rs ss : List Route) → Among r (rs ++ ss) → Among r rs ⊎ Among r ss
Among-append r [] ss h = inr h
Among-append r (s ∷ rs) ss (inl here) = inl (inl here)
Among-append r (s ∷ rs) ss (inr there) = elim (Among-append r rs ss there) [
  | inl left ↦ inl (inr left)
  | inr right ↦ inr right
]

pub All-Among : (P : Route → Type 0) (r : Route) (rs : List Route) → All P rs → Among r rs → P r
All-Among P r [] ps h = absurd h
All-Among P r (s ∷ rs) (p, ps) (inl here) = subst P (sym here) p
All-Among P r (s ∷ rs) (p, ps) (inr there) = All-Among P r rs ps there

Among-later :
    (s : Route) (rs ss : List Route) → All (λ r. Among r ss) rs → All (λ r. Among r (s ∷ ss)) rs
Among-later s [] ss h = tt
Among-later s (r ∷ rs) ss (p, ps) = (inr p, Among-later s rs ss ps)

pub All-Among-self : (rs : List Route) → All (λ r. Among r rs) rs
All-Among-self [] = tt
All-Among-self (r ∷ rs) = (inl refl, Among-later r rs rs (All-Among-self rs))

-- A key shows what the base shows, or one of the routes where the base shows none.
abbrev pub OwnedAt : Table → List Route → Table → IpAddr × ℕ → Type 0
OwnedAt base rs t k =
    (t k ≡ base k)
    ⊎ ((r : Route) × Among r rs × (key_of r ≡ k) × (t k ≡ some r.via) × (base k ≡ none))

-- No key of the routes is shown in the base.
abbrev pub FreeOf : List Route → Table → Type 0
FreeOf rs base = (r : Route) → Among r rs → base (key_of r) ≡ none

contains-Among :
    (rs : List Route) (k : IpAddr × ℕ)
    → contains (keys rs) k ≡ true
    → (r : Route) × Among r rs × (key_of r ≡ k)
contains-Among [] k h = absurd (ground arith)
contains-Among (s ∷ rs) k h = elim (Bool-cases (key_of s == k)) [
  | inl here ↦ (s, inl refl, (==_iff (key_of s) k).0 here)
  | inr elsewhere ↦
      let (r, inside, same) = contains-Among rs k (ground arith) in (r, inr inside, same)
]

module _ (base : Table) where
  abbrev pub Owned : List Route → Table → Type 0
  Owned rs t = (k : IpAddr × ℕ) → OwnedAt base rs t k

  pub Owned-sub :
      (rs ss : List Route) (t : Table)
      → ((r : Route) → Among r rs → Among r ss)
      → Owned rs t
      → Owned ss t
  Owned-sub rs ss t sub owned k = elim (owned k) [
    | inl same ↦ inl same
    | inr (r, inside, here, shown, free) ↦ inr (r, sub r inside, here, shown, free)
  ]

  pub Owned-installed :
      (rs ss : List Route) (t u : Table)
      → ((k : IpAddr × ℕ) → u k ≡ overlay ss t k)
      → FreeOf ss base
      → Owned rs t
      → Owned (ss ++ rs) u
  Owned-installed rs ss t u table free owned k =
      elim (overlay-cases (λ r. Among r ss) ss t k (All-Among-self ss)) [
        | inr (r, inside, here, found) ↦ inr (
          r,
          Among-left r ss rs inside,
          here,
          table k ∙ found,
          ap base (sym here) ∙ free r inside,
        )
        | inl (same, _) ↦ elim (owned k) [
          | inl kept ↦ inl (table k ∙ same ∙ kept)
          | inr (r, inside, here, shown, vacant) ↦
              inr (r, Among-right r ss rs inside, here, table k ∙ same ∙ shown, vacant)
        ]
      ]

  -- Where the routes of a list are removed, those that are left are owned.
  pub Owned-removed :
      (rs ss left : List Route) (t u : Table)
      → ((k : IpAddr × ℕ) → (u k ≡ none) ⊎ (u k ≡ t k))
      → ((k : IpAddr × ℕ) → contains (keys ss) k ≡ false → u k ≡ t k)
      → All (λ r. t (key_of r) ≡ some r.via → u (key_of r) ≡ none) ss
      → FreeOf ss base
      → ((r : Route) → Among r rs → Among r ss ⊎ Among r left)
      → Owned rs t
      → Owned left u
  Owned-removed rs ss left t u shrinks untouched gone free split owned k = elim (owned k) [
    | inl same ↦ elim (Bool-cases (contains (keys ss) k)) [
      | inr outside ↦ inl (untouched k outside ∙ same)
      | inl inside ↦ elim (shrinks k) [
        | inl none_left ↦
            let (r, among, here) = contains-Among ss k inside in
            inl (none_left ∙ sym (ap base (sym here) ∙ free r among))
        | inr kept ↦ inl (kept ∙ same)
      ]
    ]
    | inr (r, inside, here, shown, vacant) ↦ elim (split r inside) [
      | inl deleted ↦
          let left_none =
            All-Among (λ r. t (key_of r) ≡ some r.via → u (key_of r) ≡ none) r ss gone deleted
              (ap t here ∙ shown) in
          inl (ap u (sym here) ∙ left_none ∙ sym vacant)
      | inr remaining ↦ elim (shrinks k) [
        | inl none_left ↦ inl (none_left ∙ sym vacant)
        | inr kept ↦ inr (r, remaining, here, kept ∙ shown, vacant)
      ]
    ]
  ]

-- A route of several blocks is one of a block's.
pub block_of :
    (f : Block → List Route) (bs : List Block) (r : Route)
    → Among r (joined f bs)
    → (b : Block) × (contains bs b ≡ true) × Among r (f b)
block_of f [] r h = absurd h
block_of f (c ∷ bs) r h = elim (Among-append r (f c) (joined f bs) h) [
  | inl here ↦ let same = (==_iff c c).1 refl in (c, ground arith, here)
  | inr later ↦ let (b, inside, found) = block_of f bs r later in (b, ground arith, found)
]

pub of_block :
    (f : Block → List Route) (bs : List Block) (b : Block) (r : Route)
    → contains bs b ≡ true
    → Among r (f b)
    → Among r (joined f bs)
of_block f [] b r h found = absurd (ground arith)
of_block f (c ∷ bs) b r h found = elim (Bool-cases (c == b)) [
  | inl here ↦
      let e : b ≡ c = sym ((==_iff c b).0 here) in
      Among-left r (f c) (joined f bs) (subst (λ d. Among r (f d)) e found)
  | inr elsewhere ↦ Among-right r (f c) (joined f bs) (of_block f bs b r (ground arith) found)
]
