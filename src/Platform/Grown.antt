-- ===== src/Platform/Grown.antt =====
-- src/platform/macos/route.rs: what the steps that add routes leave in the routing table, whether or
-- not they succeed.
use cortado.Base.{
  ◌≡◌, refl, subst, ◌∙◌, ◌⊎◌, inl, inr, Bool, true, false, List, [], ◌∷◌, ◌++◌, Bytes, ok, err,
  Result, any, any-append, arith,
}
use cortado.Base.Effects.{◌>>◌, continue, each, skip}
use cortado.Platform.{Resolver}
use cortado.Platform.Commands.{
  Routing, IsRouting, Machine, M, ControlError, add_route, status_of, when,
}
use cortado.Platform.Added.{Names, both, for_all, only_when}

module _ (t : Routing) (laws : IsRouting t) (dns : Resolver) (Manager : Type 0) where
  -- The manager is kept, and the table has at most those routes more.
  pub record Grows (rs : List (List Bytes)) (m n : Machine t dns Manager) : Type 0 where
    pub manager_kept : n.manager ≡ m.manager
    pub no_more :
        (q : List Bytes)
        → t.held q n.system ≡ true
        → (any (t.same q) rs ≡ true) ⊎ (t.held q m.system ≡ true)

  Grows-nothing : (rs : List (List Bytes)) (m : Machine t dns Manager) → Grows rs m m
  Grows-nothing rs m = record { manager_kept = refl; no_more = λ q h. inr h }

  among_first :
      (rs ss : List (List Bytes)) (q : List Bytes)
      → any (t.same q) rs ≡ true
      → any (t.same q) (rs ++ ss) ≡ true
  among_first rs ss q h = any-append (t.same q) rs ss ∙ (rw h refl)

  among_second :
      (rs ss : List (List Bytes)) (q : List Bytes)
      → any (t.same q) ss ≡ true
      → any (t.same q) (rs ++ ss) ≡ true
  among_second rs ss q h = any-append (t.same q) rs ss ∙ (ground (arith, h))

  Grows-more :
      (rs ss : List (List Bytes)) (m n : Machine t dns Manager)
      → Grows rs m n
      → Grows (rs ++ ss) m n
  Grows-more rs ss m n a = record {
    manager_kept = a.manager_kept;
    no_more = λ q h. elim (a.no_more q h) [
      | inl this ↦ inl (among_first rs ss q this)
      | inr before ↦ inr before
    ];
  }

  Grows-append :
      (rs ss : List (List Bytes)) (m n o : Machine t dns Manager)
      → Grows rs m n
      → Grows ss n o
      → Grows (rs ++ ss) m o
  Grows-append rs ss m n o a b = record {
    manager_kept = b.manager_kept ∙ a.manager_kept;
    no_more = λ q h. elim (b.no_more q h) [
      | inl late ↦ inl (among_second rs ss q late)
      | inr there ↦ elim (a.no_more q there) [
        | inl early ↦ inl (among_first rs ss q early)
        | inr before ↦ inr before
      ]
    ];
  }

  -- A step that adds routes at most, however it ends.
  abbrev pub Growing : M t dns Manager → Names Manager → Type 0
  Growing f rs = (m : Machine t dns Manager) → Grows (rs m.manager) m (f m).1

  pub skip-Growing : Growing skip (λ r. [])
  skip-Growing m = Grows-nothing [] m

  pub stay-Grows : (rs : List (List Bytes)) (m : Machine t dns Manager) → Grows rs m m
  stay-Grows = Grows-nothing

  pub add_route-Grows :
      (r : List Bytes) (m : Machine t dns Manager)
      → Grows (r ∷ []) m (add_route t dns Manager r m).1
  unfolding add_route
  add_route-Grows r m = ended (t.add r m.system).0 (t.add r m.system).1 λ q there.
      elim (laws.no_more r q m.system there) [
        | inl this ↦ inl (ground (arith, this))
        | inr before ↦ inr before
      ]
    where
      ended :
          (b : Bool) (s : t.State)
          → ((q : List Bytes)
              → t.held q s ≡ true
              → (any (t.same q) (r ∷ []) ≡ true) ⊎ (t.held q m.system ≡ true))
          → Grows (r ∷ []) m (status_of t dns Manager m (b, s)).1
      ended true s no_more = record { manager_kept = refl; no_more = no_more }
      ended false s no_more = record { manager_kept = refl; no_more = no_more }

  after_step :
      (g : M t dns Manager) (ss : Names Manager) (rs : List (List Bytes))
      (m n : Machine t dns Manager) (r : Result ControlError (Unit {0}))
      → Grows rs m n
      → Growing g ss
      → Grows (rs ++ ss m.manager) m (continue (r, n) (λ _. g)).1
  after_step g ss rs m n (ok a) here later =
      Grows-append rs (ss m.manager) m n (g n).1 here
        (subst (λ o. Grows (ss o) n (g n).1) here.manager_kept (later n))
  after_step g ss rs m n (err e) here later = Grows-more rs (ss m.manager) m n here

  pub then-Growing :
      (f g : M t dns Manager) (rs ss : Names Manager)
      → Growing f rs
      → Growing g ss
      → Growing (f >> g) (both rs ss)
  then-Growing f g rs ss p q m = after_step g ss (rs m.manager) m (f m).1 (f m).0 (p m) q

  pub each-Growing :
      {A : Type 0} (f : A → M t dns Manager) (rs : A → Names Manager) (items : List A)
      → ((a : A) → Growing (f a) (rs a))
      → Growing (each f items) (for_all rs items)
  unfolding each
  each-Growing f rs [] p = skip-Growing
  each-Growing f rs (a ∷ items) p =
      then-Growing (f a) (each f items) (rs a) (for_all rs items) (p a) (each-Growing f rs items p)

  pub when-Growing :
      (b : Bool) (f : M t dns Manager) (rs : Names Manager)
      → Growing f rs
      → Growing (when t dns Manager b f) (λ r. only_when b (rs r))
  when-Growing true f rs p = p
  when-Growing false f rs p = skip-Growing
