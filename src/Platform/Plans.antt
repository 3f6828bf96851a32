-- ===== src/Platform/Plans.antt =====
-- src/reload.rs with src/platform/macos/route.rs and src/platform/windows/route.rs: a computed plan
-- describes the change from the old bypass blocks to the new ones.
use cortado.Base.{
  ◌≡◌, refl, sym, ◌∙◌, ◌⊎◌, inl, inr, true, List, ◌++◌, none, some, Bytes, arith, any, any-append,
  contains, contains-filter, Bool-cases, ◌==◌, nat_eq, pair_eq,
}
use cortado.Addr.{IpAddr, ip_eq}
use cortado.Net.Diff.{Block, diff_cidrs, absent_from}
use cortado.Config.{Config}
use cortado.Reload.{Readings, plan_of}
use cortado.Platform.{Resolver}
use cortado.Platform.Commands.{Routing, IsRouting}
use cortado.Platform.Added.{joined}
use cortado.Platform.Within.{Among, Among-left, Among-right, Among-joined, joined-Among}

-- The blocks move from those of the old list to those of the new one.
pub record Describes (remove add old new : List Block) : Type 0 where
  pub kept :
      (b : Block) → contains old b ≡ true → (contains remove b ≡ true) ⊎ (contains new b ≡ true)
  pub added : (b : Block) → contains add b ≡ true → contains new b ≡ true

pub plan_of-Describes :
    (old latest : Config) (r s : Readings)
    → let plan = plan_of old latest r s in
      Describes plan.bypass_remove plan.bypass_add r.bypass plan.new_bypass
unfolding plan_of diff_cidrs
plan_of-Describes old latest r s = record {
  kept = λ b h.
      let gone = contains-filter (absent_from s.bypass) r.bypass b in
      elim (Bool-cases (contains s.bypass b)) [
        | inl there ↦ inr there
        | inr absent ↦ inl (ground arith)
      ];
  added = λ b h. let new = contains-filter (absent_from r.bypass) s.bypass b in ground arith;
}

-- The proxy's host route moves away from the address that it had.
pub plan_of-moves :
    (old latest : Config) (r s : Readings) (ip : IpAddr)
    → ip ≡ r.address.ip
    → let change = (plan_of old latest r s).proxy_route_change in
      (change ≡ none) ⊎ ((new_ip : IpAddr) × (change ≡ some (ip, new_ip)))
unfolding plan_of
plan_of-moves old latest r s ip e = elim (Bool-cases (r.address.ip == s.address.ip)) [
  | inl same ↦ inl (rw same refl)
  | inr other ↦ inr (s.address.ip, rw (other, e) refl)
]

module _ (t : Routing) (laws : IsRouting t) (dns : Resolver) (Manager : Type 0) where
  abbrev Among_ : List (List Bytes) → List (List Bytes) → Type 0
  Among_ = Among t laws dns Manager

  pub regroup :
      (rem host old new rest : List (List Bytes))
      → Among_ old (rem ++ new)
      → Among_ (host ++ (old ++ rest)) (rem ++ (host ++ (new ++ rest)))
  regroup rem host old new rest cover q h =
      let p = t.same q in
      let from = sym (any-append p host (old ++ rest)) ∙ h in
      let inner = any-append p old rest in
      let to1 = any-append p rem (host ++ (new ++ rest)) in
      let to2 = any-append p host (new ++ rest) in
      let to3 = any-append p new rest in
      let to4 = any-append p rem new in
      elim (Bool-cases (any p old)) [
        | inl there ↦ let found = cover q there in ground (arith, to1, to2, to3, to4, found)
        | inr absent ↦ ground (arith, from, inner, absent, to1, to2, to3)
      ]

  -- The routes of the old blocks are those of the blocks removed and of the new ones.
  pub covered :
      (f : Block → List (List Bytes)) (remove add old new : List Block)
      → Describes remove add old new
      → Among_ (joined f old) (joined f remove ++ joined f new)
  covered f remove add old new d =
      joined-Among t laws dns Manager f old (joined f remove ++ joined f new) λ b there q h.
        elim (d.kept b there) [
          | inl gone ↦
              Among-left t laws dns Manager (joined f remove) (joined f new) q
                (Among-joined t laws dns Manager f remove b gone q h)
          | inr stays ↦
              Among-right t laws dns Manager (f b) (joined f remove) (joined f new)
                (Among-joined t laws dns Manager f new b stays) q h
        ]

  -- The routes of the blocks added are those of new ones.
  pub newly_covered :
      (f : Block → List (List Bytes)) (remove add old new : List Block)
      (host rest : List (List Bytes))
      → Describes remove add old new
      → Among_ (joined f add) (host ++ (joined f new ++ rest))
  newly_covered f remove add old new host rest d =
      joined-Among t laws dns Manager f add (host ++ (joined f new ++ rest)) λ b there.
        Among-right t laws dns Manager (f b) host (joined f new ++ rest) λ q h.
          Among-left t laws dns Manager (joined f new) rest q
            (Among-joined t laws dns Manager f new b (d.added b there) q h)
