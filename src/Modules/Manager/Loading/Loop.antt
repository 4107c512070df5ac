-- ===== src/Modules/Manager/Loading/Loop.antt =====
-- What the loads of a round of `resolve_all` (src/frontend/module_manager.cpp) leave.
use limitly.Prelude.{
  true, Option, none, some, String, string_eq, List, [], ◌∷◌, ◌++◌, ◌≡◌, refl, sym, ◌∙◌, subst,
  contains, beq_refl, arith, Bool-cases, Option-cases, inl, inr, ◌⊎◌,
}
use limitly.Modules.Manager.{Module, Modules, TopStatement, get_module, load_module, load_all}
use limitly.Modules.Manager.Loading.Select.{Includes}
use limitly.Modules.Manager.Loading.One.{
  Settled, AreRead, Stay, Settled-Stay, Loaded, load_module-Loaded,
}
use limitly.Modules.Manager.Dfs.State.{contains-append}

module _ (read_file : String → Option String)
    (parse : String → String → Option (List TopStatement)) where
  -- What loading `paths` leaves: `deps` is the next worklist.
  pub record Loads (paths : List String) (modules : Modules) (r : List String × Modules)
      : Type 0 where
    pub read : AreRead read_file parse modules → AreRead read_file parse r.1
    pub stay : Stay read_file parse modules r.1
    pub loaded : (p : String) → contains p paths ≡ true → Settled read_file parse r.1 p
    -- a module is an old one, or its dependencies are on the worklist
    pub listed :
        (n : String) (m : Module)
        → get_module r.1 n ≡ some m
        → (get_module modules n ≡ some m) ⊎ Includes m.dependencies r.0
    -- the worklist holds dependencies of the paths only
    pub needed :
        (d : String)
        → contains d r.0 ≡ true
        → (p : String) × (m : Module) × (contains p paths ≡ true)
          × (get_module r.1 p ≡ some m)
          × (contains d m.dependencies ≡ true)

  abbrev more : Option Module → List String → List String
  more none deps = deps
  more (some m) deps = m.dependencies ++ deps

  contains-more :
      (d : String) (o : Option Module) (deps : List String)
      → contains d deps ≡ true
      → contains d (more o deps) ≡ true
  contains-more d none deps c = c
  contains-more d (some m) deps c = ground (arith, contains-append d m.dependencies deps, c)

  -- The loads of a path and of those behind it.
  Loads-cons :
      (path : String) (paths : List String) (modules : Modules) (l : Option Module × Modules)
      (r : List String × Modules)
      → Loaded read_file parse path modules l
      → Loads paths l.1 r
      → Loads (path ∷ paths) modules (more l.0 r.0, r.1)
  unfolding contains
  Loads-cons path paths modules l r a b = record {
    read = λ x. b.read (a.1 x);
    stay = λ n m e. b.stay n m (a.2 n m e);
    loaded = λ p c. elim (Bool-cases (string_eq.beq path p)) [
      | inr f ↦ b.loaded p (ground (arith, f, c))
      | inl f ↦
          subst (Settled read_file parse r.1) ((string_eq.beq_iff path p).0 f)
            (Settled-Stay read_file parse l.1 r.1 path b.stay a.3)
    ];
    listed = λ n m e. elim (b.listed n m e) [
      | inr i ↦ inr (λ d c. contains-more d l.0 r.0 (i d c))
      | inl f ↦ elim (a.4 n m f) [
        | inl g ↦ inl g
        | inr g ↦ inr (λ d c.
            subst (λ o. contains d (more o r.0) ≡ true) (sym g)
              (ground (arith, contains-append d m.dependencies r.0, c)))
      ]
    ];
    needed = λ d c. elim (Option-cases l.0) [
      | inl z ↦
          let n = b.needed d (subst (λ o. contains d (more o r.0) ≡ true) z c) in
          (n.0, n.1, ground (arith, n.2), n.3, n.4)
      | inr m ↦
          let h = subst (λ o. contains d (more o r.0) ≡ true) m.1 c in
          elim (Bool-cases (contains d m.0.dependencies)) [
            | inl k ↦ (path, m.0, ground (arith, beq_refl path), b.stay path m.0 (sym a.0 ∙ m.1), k)
            | inr k ↦
                let n = b.needed d (ground (arith, contains-append d m.0.dependencies r.0, h, k)) in
                (n.0, n.1, ground (arith, n.2), n.3, n.4)
          ]
    ];
  }

  union-more :
      (o : Option Module) (r : List String × Modules)
      → (elim o [ none ↦ r | some m ↦ (m.dependencies ++ r.0, r.1) ]) ≡ (more o r.0, r.1)
  union-more none r = refl
  union-more (some m) r = refl

  pub load_all-Loads :
      (paths : List String) (modules : Modules)
      → Loads paths modules (load_all read_file parse paths modules)
  unfolding load_all contains
  load_all-Loads [] modules = record {
    read = λ r. r;
    stay = λ n m e. e;
    loaded = λ p c. absurd (ground (arith, c));
    listed = λ n m e. inl e;
    needed = λ d c. absurd (ground (arith, c));
  }
  load_all-Loads (path ∷ paths) modules =
      let l = load_module read_file parse modules path in
      let r = load_all read_file parse paths l.1 in
      let w =
        Loads-cons path paths modules l r (load_module-Loaded read_file parse path modules)
          (load_all-Loads paths l.1) in
      subst (Loads (path ∷ paths) modules) (sym (union-more l.0 r)) w
