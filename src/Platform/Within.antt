-- ===== src/Platform/Within.antt =====
-- src/platform/macos/route.rs, src/platform/windows/route.rs: what the steps of a controller leave in
-- the routing table. An assertion after each step carries over to the next.
use cortado.Base.{
  ◌≡◌, refl, sym, ap, subst, ◌∙◌, ◌⊎◌, inl, inr, Bool, true, false, ◌||◌, List, [], ◌∷◌, ◌++◌,
  Option, Bytes, ok, Result, any, any-append, arith, contains, Eq, ==_iff,
}
use cortado.Base.Effects.{◌>>◌, each, continue-eq-ok, dropped}
use cortado.Addr.{IpAddr}
use cortado.Platform.{Resolver}
use cortado.Platform.Commands.{
  Routing, IsRouting, Machine, M, ControlError, add_route, add_quietly, status_of, with_manager,
  apply_dns, reload_dns, dns_called,
}
use cortado.Platform.Added.{Names, joined, Adding}
use cortado.Platform.Deleted.{Deleting}

module _ (t : Routing) (laws : IsRouting t) (dns : Resolver) (Manager : Type 0) where
  -- Where the step succeeds from a machine of the first kind, it ends in one of the second.
  abbrev pub Triple :
      (Machine t dns Manager → Type 0) → M t dns Manager → (Machine t dns Manager → Type 0) → Type 0
  Triple P f Q = (m : Machine t dns Manager) → P m → (f m).0 ≡ ok tt → Q (f m).1

  pub then-Triple :
      (P Q R : Machine t dns Manager → Type 0) (f g : M t dns Manager)
      → Triple P f Q
      → Triple Q g R
      → Triple P (f >> g) R
  then-Triple P Q R f g p q m pre h =
      let (_, first, whole) = continue-eq-ok (f m).0 (f m).1 (λ _. g) tt h in
      let second =
        ap (λ (c : Result ControlError (Unit {0}) × Machine t dns Manager). c.0) (sym whole) ∙ h in
      subst (λ (c : Result ControlError (Unit {0}) × Machine t dns Manager). R c.1) (sym whole)
        (q (f m).1 (p m pre first) second)

  -- Every route in the table is one of the names, or was there before.
  abbrev pub Within : (List Bytes → Bool) → List (List Bytes) → t.State → Type 0
  Within base rs s = (q : List Bytes) → t.held q s ≡ true → (any (t.same q) rs || base q) ≡ true

  -- Every route of one list is one of another.
  abbrev pub Among : List (List Bytes) → List (List Bytes) → Type 0
  Among rs ss = (q : List Bytes) → any (t.same q) rs ≡ true → any (t.same q) ss ≡ true

  pub Among-left : (rs ss : List (List Bytes)) → Among rs (rs ++ ss)
  Among-left rs ss q h = any-append (t.same q) rs ss ∙ (rw h refl)

  pub Among-right : (rs ss us : List (List Bytes)) → Among rs us → Among rs (ss ++ us)
  Among-right rs ss us inner q h =
      let there = inner q h in any-append (t.same q) ss us ∙ (ground (arith, there))

  pub Among-under : (rs ss us : List (List Bytes)) → Among ss us → Among (rs ++ ss) (rs ++ us)
  Among-under rs ss us inner q h =
      let parts = sym (any-append (t.same q) rs ss) ∙ h in
      any-append (t.same q) rs us ∙ under (any (t.same q) rs) parts
    where
      under : (b : Bool) → ((b || any (t.same q) ss) ≡ true) → (b || any (t.same q) us) ≡ true
      under true p = refl
      under false p = inner q p

  pub Among-over : (rs ss us : List (List Bytes)) → Among rs ss → Among (rs ++ us) (ss ++ us)
  Among-over rs ss us inner q h =
      let parts = sym (any-append (t.same q) rs us) ∙ h in
      any-append (t.same q) ss us ∙ over (any (t.same q) rs) (inner q) parts
    where
      over :
          (b : Bool)
          → (b ≡ true → any (t.same q) ss ≡ true)
          → ((b || any (t.same q) us) ≡ true)
          → (any (t.same q) ss || any (t.same q) us) ≡ true
      over true i p = rw (i refl) refl
      over false i p = ground (arith, p)

  module _ {A : Type 0} ⦃e : Eq A⦄ where
    -- A loop each of whose turns keeps what holds.
    pub each-Triple :
        (P : Machine t dns Manager → Type 0) (f : A → M t dns Manager) (items : List A)
        → ((a : A) → contains items a ≡ true → Triple P (f a) P)
        → Triple P (each f items) P
    unfolding each
    each-Triple P f [] all m pre h = pre
    each-Triple P f (a ∷ rest) all m pre h =
        then-Triple P P P (f a) (each f rest) (all a (ground (arith, ==_iff a a)))
          (each-Triple P f rest (λ b there. all b (ground (arith, there)))) m pre h

    pub Among-joined :
        (f : A → List (List Bytes)) (items : List A) (a : A)
        → contains items a ≡ true
        → Among (f a) (joined f items)
    Among-joined f [] a h q p = cc
    Among-joined f (b ∷ rest) a h q p =
        any-append (t.same q) (f b) (joined f rest)
        ∙ here (e.beq b a) refl (λ r. Among-joined f rest a r q p)
      where
        here :
            (c : Bool)
            → e.beq b a ≡ c
            → (contains rest a ≡ true → any (t.same q) (joined f rest) ≡ true)
            → (any (t.same q) (f b) || any (t.same q) (joined f rest)) ≡ true
        here true same later = rw ((e.beq_iff b a).0 same, p) refl
        here false other later =
            let there = later (sym (rw other refl) ∙ h) in ground (arith, there)

    pub joined-Among :
        (f : A → List (List Bytes)) (items : List A) (us : List (List Bytes))
        → ((a : A) → contains items a ≡ true → Among (f a) us)
        → Among (joined f items) us
    joined-Among f [] us all q h = cc
    joined-Among f (b ∷ rest) us all q h =
        split (any (t.same q) (f b)) refl (sym (any-append (t.same q) (f b) (joined f rest)) ∙ h)
          (joined-Among f rest us (λ a there. all a (ground (arith, there))) q)
      where
        split :
            (c : Bool)
            → any (t.same q) (f b) ≡ c
            → ((c || any (t.same q) (joined f rest)) ≡ true)
            → (any (t.same q) (joined f rest) ≡ true → any (t.same q) us ≡ true)
            → any (t.same q) us ≡ true
        split true now p later = all b (ground (arith, ==_iff b b)) q now
        split false now p later = later p

  -- The manager, and bounds on the table.
  abbrev pub At : (List Bytes → Bool) → Manager → List (List Bytes) → Machine t dns Manager → Type 0
  At base r rs m = (m.manager ≡ r) × Within base rs m.system

  or_base :
      (rs ss : List (List Bytes)) (base : List Bytes → Bool) (q : List Bytes)
      → Among rs ss
      → ((any (t.same q) rs || base q) ≡ true)
      → (any (t.same q) ss || base q) ≡ true
  or_base rs ss base q inner h = widen (any (t.same q) rs) (inner q) h
    where
      widen :
          (b : Bool)
          → (b ≡ true → any (t.same q) ss ≡ true)
          → ((b || base q) ≡ true)
          → (any (t.same q) ss || base q) ≡ true
      widen true i p = rw (i refl) refl
      widen false i p = ground (arith, p)

  pub Within-wider :
      (base : List Bytes → Bool) (rs ss : List (List Bytes)) (s : t.State)
      → Among rs ss
      → Within base rs s
      → Within base ss s
  Within-wider base rs ss s inner w q h = or_base rs ss base q inner (w q h)

  Within-added :
      (base : List Bytes → Bool) (names rs ss : List (List Bytes)) (s u : t.State)
      → ((q : List Bytes) → t.held q u ≡ true → (any (t.same q) names ≡ true) ⊎ (t.held q s ≡ true))
      → Among names ss
      → Among rs ss
      → Within base rs s
      → Within base ss u
  Within-added base names rs ss s u no_more new old w q h = elim (no_more q h) [
    | inl this ↦ rw (new q this) refl
    | inr before ↦ or_base rs ss base q old (w q before)
  ]

  -- Adding routes that are among the new names.
  pub Adding-Triple :
      (base : List Bytes → Bool) (r : Manager) (rs ss : List (List Bytes)) (f : M t dns Manager)
      (names : Names Manager)
      → Adding t laws dns Manager f names
      → Among (names r) ss
      → Among rs ss
      → Triple (At base r rs) f (At base r ss)
  Adding-Triple base r rs ss f names adds new old m (same, w) h =
      let a = adds m h in
      (
        a.manager_kept ∙ same,
        Within-added base (names m.manager) rs ss m.system (f m).1.system a.no_more
            (subst (λ o. Among (names o) ss) (sym same) new) old w,
      )

  pub add_quietly-Triple :
      (base : List Bytes → Bool) (r : Manager) (rs : List (List Bytes)) (name : List Bytes)
      → Among (name ∷ []) rs
      → Triple (At base r rs) (add_quietly t dns Manager name) (At base r rs)
  unfolding add_quietly add_route
  add_quietly-Triple base r rs name new m (same, w) h =
      outcome (t.add name m.system).0 (t.add name m.system).1 λ q there.
        elim (laws.no_more name q m.system there) [
          | inl this ↦ inl (ground (arith, this))
          | inr before ↦ inr before
        ]
    where
      outcome :
          (b : Bool) (u : t.State)
          → ((q : List Bytes)
              → t.held q u ≡ true
              → (any (t.same q) (name ∷ []) ≡ true) ⊎ (t.held q m.system ≡ true))
          → At base r rs (dropped (status_of t dns Manager m (b, u))).1
      outcome true u no_more =
          (same, Within-added base (name ∷ []) rs rs m.system u no_more new (λ q p. p) w)
      outcome false u no_more =
          (same, Within-added base (name ∷ []) rs rs m.system u no_more new (λ q p. p) w)

  -- Deleting routes: the names that are left cover the old ones with those that are deleted.
  pub Deleting-Triple :
      (base : List Bytes → Bool) (r : Manager) (rs ss : List (List Bytes)) (f : M t dns Manager)
      (names : Names Manager)
      → Deleting t laws dns Manager f names
      → Among rs (names r ++ ss)
      → Triple (At base r rs) f (At base r ss)
  Deleting-Triple base r rs ss f names deletes cover m (same, w) h =
      let d = (deletes m).1 in
      (
        d.manager_kept ∙ same,
        λ q there.
            let (apart, before) = d.gone q there in
            let off = subst (λ o. any (t.same q) (names o) ≡ false) same apart in
            let all = or_base rs (names r ++ ss) base q cover (w q before) in
            let parts = any-append (t.same q) (names r) ss in ground (arith, off, all, parts),
      )

  pub set-Triple :
      (base : List Bytes → Bool) (r : Manager) (rs : List (List Bytes)) (g : Manager → Manager)
      → Triple (At base r rs) (with_manager t dns Manager g) (At base (g r) rs)
  set-Triple base r rs g m (same, w) h = (ap g same, w)

  -- The resolver's call leaves the rest alone.
  called-At :
      (base : List Bytes → Bool) (r : Manager) (rs : List (List Bytes)) (m : Machine t dns Manager)
      → At base r rs m
      → (b : Bool) (s : dns.State) → At base r rs (dns_called t dns Manager m (b, s)).1
  called-At base r rs m at true s = at
  called-At base r rs m at false s = at

  pub apply_dns-Triple :
      (base : List Bytes → Bool) (r : Manager) (rs : List (List Bytes))
      (server : Machine t dns Manager → Option IpAddr)
      → Triple (At base r rs) (λ m. apply_dns t dns Manager (server m) m) (At base r rs)
  apply_dns-Triple base r rs server m at h =
      called-At base r rs m at (dns.apply (server m) m.resolver).0
        (dns.apply (server m) m.resolver).1

  pub reload_dns-Triple :
      (base : List Bytes → Bool) (r : Manager) (rs : List (List Bytes)) (server : Option IpAddr)
      → Triple (At base r rs) (reload_dns t dns Manager server) (At base r rs)
  reload_dns-Triple base r rs server m at h =
      called-At base r rs m at (dns.reload server m.resolver).0 (dns.reload server m.resolver).1
