-- ===== src/Platform/Deleted.antt =====
-- src/platform/macos/route.rs, src/platform/windows/route.rs: the steps that delete routes.
use cortado.Base.{
  ◌≡◌, refl, sym, subst, ◌∙◌, Bool, true, false, ◌||◌, List, [], ◌∷◌, ◌++◌, Bytes, ok, Result, any,
  any-append, arith,
}
use cortado.Base.Effects.{◌>>◌, each, skip, >>=-ok}
use cortado.Platform.{Resolver}
use cortado.Platform.Commands.{Routing, IsRouting, Machine, M, ControlError, delete_quietly, when}
use cortado.Platform.Added.{Names, both, for_all, only_when}

module _ (t : Routing) (laws : IsRouting t) (dns : Resolver) (Manager : Type 0) where
  pub record Deletes (rs : List (List Bytes)) (m n : Machine t dns Manager) : Type 0 where
    pub manager_kept : n.manager ≡ m.manager
    pub resolver_kept : n.resolver ≡ m.resolver
    pub gone :
        (q : List Bytes)
        → t.held q n.system ≡ true
        → (any (t.same q) rs ≡ false) × (t.held q m.system ≡ true)
    pub spared :
        (q : List Bytes)
        → t.held q m.system ≡ true
        → any (t.same q) rs ≡ false
        → t.held q n.system ≡ true

  Deletes-nothing : (m : Machine t dns Manager) → Deletes [] m m
  Deletes-nothing m = record {
    manager_kept = refl;
    resolver_kept = refl;
    gone = λ q h. (refl, h);
    spared = λ q h _. h;
  }

  neither : (a b : Bool) → ((a || b) ≡ false) → (a ≡ false) × (b ≡ false)
  neither a b h = (ground arith, ground arith)

  Deletes-append :
      (rs ss : List (List Bytes)) (m n o : Machine t dns Manager)
      → Deletes rs m n
      → Deletes ss n o
      → Deletes (rs ++ ss) m o
  Deletes-append rs ss m n o a b = record {
    manager_kept = b.manager_kept ∙ a.manager_kept;
    resolver_kept = b.resolver_kept ∙ a.resolver_kept;
    gone = λ q h.
        let (not_late, there) = b.gone q h in
        let (not_early, before) = a.gone q there in
        (any-append (t.same q) rs ss ∙ (rw (not_early, not_late) refl), before);
    spared = λ q h apart.
        let (not_early, not_late) =
          neither (any (t.same q) rs) (any (t.same q) ss)
            (sym (any-append (t.same q) rs ss) ∙ apart) in
        b.spared q (a.spared q h not_early) not_late;
  }

  -- A step that always succeeds and deletes routes.
  abbrev pub Deleting : M t dns Manager → Names Manager → Type 0
  Deleting f rs = (m : Machine t dns Manager) → ((f m).0 ≡ ok tt) × Deletes (rs m.manager) m (f m).1

  pub skip-Deleting : Deleting skip (λ r. [])
  skip-Deleting m = (refl, Deletes-nothing m)

  pub delete_quietly-Deleting :
      (r : List Bytes) (m : Machine t dns Manager)
      → ((delete_quietly t dns Manager r m).0 ≡ ok tt)
        × Deletes (r ∷ []) m (delete_quietly t dns Manager r m).1
  unfolding delete_quietly
  delete_quietly-Deleting r m = (
    refl,
    record {
      manager_kept = refl;
      resolver_kept = refl;
      gone = λ q h. let (other, before) = laws.deleted r q m.system h in (rw other refl, before);
      spared = λ q h apart. laws.spared r q m.system h (neither (t.same q r) false apart).0;
    },
  )

  pub then-Deleting :
      (f g : M t dns Manager) (rs ss : Names Manager)
      → Deleting f rs
      → Deleting g ss
      → Deleting (f >> g) (both rs ss)
  then-Deleting f g rs ss p q m =
      let (first, a) = p m in
      let n = (f m).1 in
      let (second, b) = q n in
      subst
        (λ (c : Result ControlError (Unit {0}) × Machine t dns Manager).
          (c.0 ≡ ok tt) × Deletes (rs m.manager ++ ss m.manager) m c.1)
        (sym (>>=-ok f (λ _. g) m tt first))
        (
          second,
          Deletes-append (rs m.manager) (ss m.manager) m n (g n).1 a
              (subst (λ r. Deletes (ss r) n (g n).1) a.manager_kept b),
        )

  pub each-Deleting :
      {A : Type 0} (f : A → M t dns Manager) (rs : A → Names Manager) (items : List A)
      → ((a : A) → Deleting (f a) (rs a))
      → Deleting (each f items) (for_all rs items)
  unfolding each
  each-Deleting f rs [] p = skip-Deleting
  each-Deleting f rs (a ∷ items) p =
      then-Deleting (f a) (each f items) (rs a) (for_all rs items) (p a)
        (each-Deleting f rs items p)

  pub when-Deleting :
      (b : Bool) (f : M t dns Manager) (rs : Names Manager)
      → Deleting f rs
      → Deleting (when t dns Manager b f) (λ r. only_when b (rs r))
  when-Deleting true f rs p = p
  when-Deleting false f rs p = skip-Deleting
