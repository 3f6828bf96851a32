-- ===== src/Platform/Added.antt =====
-- src/platform/macos/route.rs, src/platform/windows/route.rs: the steps that add routes.
use cortado.Base.{
  ◌≡◌, refl, sym, ap, subst, ◌∙◌, ◌⊎◌, inl, inr, Bool, true, false, List, [], ◌∷◌, ◌++◌, Bytes, ok,
  Result, All, All-append, any, any-append, arith,
}
use cortado.Base.Effects.{◌>>◌, each, skip, continue-eq-ok}
use cortado.Platform.{Resolver}
use cortado.Platform.Commands.{
  Routing, IsRouting, Machine, M, ControlError, add_route, status_of, when,
}

-- The names of routes, as a manager gives them.
abbrev pub Names : Type 0 → Type 0
Names Manager = Manager → List (List Bytes)

abbrev pub both : {Manager : Type 0} → Names Manager → Names Manager → Names Manager
both rs ss r = rs r ++ ss r

abbrev pub joined : {A : Type 0} → (A → List (List Bytes)) → List A → List (List Bytes)
joined rs [] = []
joined rs (a ∷ rest) = rs a ++ joined rs rest

abbrev pub for_all : {A Manager : Type 0} → (A → Names Manager) → List A → Names Manager
for_all rs items r = joined (λ a. rs a r) items

abbrev pub only_when : Bool → List (List Bytes) → List (List Bytes)
only_when true rs = rs
only_when false rs = []

module _ (t : Routing) (laws : IsRouting t) (dns : Resolver) (Manager : Type 0) where
  pub record Adds (rs : List (List Bytes)) (m n : Machine t dns Manager) : Type 0 where
    pub manager_kept : n.manager ≡ m.manager
    pub resolver_kept : n.resolver ≡ m.resolver
    pub installed : All (λ r. t.held r n.system ≡ true) rs
    pub kept : (q : List Bytes) → t.held q m.system ≡ true → t.held q n.system ≡ true
    pub no_more :
        (q : List Bytes)
        → t.held q n.system ≡ true
        → (any (t.same q) rs ≡ true) ⊎ (t.held q m.system ≡ true)

  Adds-nothing : (m : Machine t dns Manager) → Adds [] m m
  Adds-nothing m = record {
    manager_kept = refl;
    resolver_kept = refl;
    installed = tt;
    kept = λ q h. h;
    no_more = λ q h. inr h;
  }

  still_held :
      (s u : t.State) (rs : List (List Bytes))
      → ((q : List Bytes) → t.held q s ≡ true → t.held q u ≡ true)
      → All (λ r. t.held r s ≡ true) rs
      → All (λ r. t.held r u ≡ true) rs
  still_held s u [] kept h = tt
  still_held s u (r ∷ rs) kept (p, h) = (kept r p, still_held s u rs kept h)

  among_either :
      (rs ss : List (List Bytes)) (q : List Bytes)
      → (any (t.same q) rs ≡ true) ⊎ (any (t.same q) ss ≡ true)
      → any (t.same q) (rs ++ ss) ≡ true
  among_either rs ss q (inl h) = any-append (t.same q) rs ss ∙ (rw h refl)
  among_either rs ss q (inr h) = any-append (t.same q) rs ss ∙ (ground (arith, h))

  Adds-append :
      (rs ss : List (List Bytes)) (m n o : Machine t dns Manager)
      → Adds rs m n
      → Adds ss n o
      → Adds (rs ++ ss) m o
  Adds-append rs ss m n o a b = record {
    manager_kept = b.manager_kept ∙ a.manager_kept;
    resolver_kept = b.resolver_kept ∙ a.resolver_kept;
    installed =
        All-append (λ r. t.held r o.system ≡ true) rs ss
          (still_held n.system o.system rs b.kept a.installed) b.installed;
    kept = λ q h. b.kept q (a.kept q h);
    no_more = λ q h. elim (b.no_more q h) [
      | inl late ↦ inl (among_either rs ss q (inr late))
      | inr there ↦ elim (a.no_more q there) [
        | inl early ↦ inl (among_either rs ss q (inl early))
        | inr before ↦ inr before
      ]
    ];
  }

  -- A step that adds routes where it succeeds.
  abbrev pub Adding : M t dns Manager → Names Manager → Type 0
  Adding f rs = (m : Machine t dns Manager) → (f m).0 ≡ ok tt → Adds (rs m.manager) m (f m).1

  pub skip-Adding : Adding skip (λ r. [])
  skip-Adding m h = Adds-nothing m

  one_added :
      (r : List Bytes) (m : Machine t dns Manager) (b : Bool) (s : t.State)
      → (t.add r m.system ≡ (b, s))
      → (status_of t dns Manager m (b, s)).0 ≡ ok tt
      → Adds (r ∷ []) m (status_of t dns Manager m (b, s)).1
  one_added r m false s e h = cc
  one_added r m true s e h =
      let done : (t.add r m.system).0 ≡ true = ap (λ (p : Bool × t.State). p.0) e in
      let after : (t.add r m.system).1 ≡ s = ap (λ (p : Bool × t.State). p.1) e in
      record {
        manager_kept = refl;
        resolver_kept = refl;
        installed = (subst (λ u. t.held r u ≡ true) after (laws.added r m.system done), tt);
        kept = λ q there. subst (λ u. t.held q u ≡ true) after (laws.kept r q m.system there);
        no_more = λ q there.
            elim (laws.no_more r q m.system (subst (λ u. t.held q u ≡ true) (sym after) there)) [
              | inl this ↦ inl (ground (arith, this))
              | inr before ↦ inr before
            ];
      }

  pub add_route-Adding :
      (r : List Bytes) (m : Machine t dns Manager)
      → (add_route t dns Manager r m).0 ≡ ok tt
      → Adds (r ∷ []) m (add_route t dns Manager r m).1
  unfolding add_route
  add_route-Adding r m h = one_added r m (t.add r m.system).0 (t.add r m.system).1 refl h

  pub then-Adding :
      (f g : M t dns Manager) (rs ss : Names Manager)
      → Adding f rs
      → Adding g ss
      → Adding (f >> g) (both rs ss)
  then-Adding f g rs ss p q m h =
      let (_, first, whole) = continue-eq-ok (f m).0 (f m).1 (λ _. g) tt h in
      let a = p m first in
      let n = (f m).1 in
      let b = q n (
        ap (λ (c : Result ControlError (Unit {0}) × Machine t dns Manager). c.0) (sym whole) ∙ h) in
      subst
        (λ (c : Result ControlError (Unit {0}) × Machine t dns Manager).
          Adds (rs m.manager ++ ss m.manager) m c.1)
        (sym whole)
        (Adds-append (rs m.manager) (ss m.manager) m n (g n).1 a
          (subst (λ r. Adds (ss r) n (g n).1) a.manager_kept b))

  pub each-Adding :
      {A : Type 0} (f : A → M t dns Manager) (rs : A → Names Manager) (items : List A)
      → ((a : A) → Adding (f a) (rs a))
      → Adding (each f items) (for_all rs items)
  unfolding each
  each-Adding f rs [] p = skip-Adding
  each-Adding f rs (a ∷ items) p =
      then-Adding (f a) (each f items) (rs a) (for_all rs items) (p a) (each-Adding f rs items p)

  pub when-Adding :
      (b : Bool) (f : M t dns Manager) (rs : Names Manager)
      → Adding f rs
      → Adding (when t dns Manager b f) (λ r. only_when b (rs r))
  when-Adding true f rs p = p
  when-Adding false f rs p = skip-Adding
