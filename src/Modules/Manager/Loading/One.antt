-- ===== src/Modules/Manager/Loading/One.antt =====
-- What `load_module` (src/frontend/module_manager.cpp) leaves.
use limitly.Prelude.{
  true, false, Option, none, some, String, string_eq, List, ◌≡◌, refl, sym, ap, ◌∙◌, subst, insert,
  lookup-insert, beq_refl, if◌then◌else◌, arith, Bool-cases, Option-cases, inl, inr, ◌⊎◌,
}
use limitly.Modules.Manager.{
  Module, Modules, TopStatement, get_module, is_loaded, read_module, load_module,
}

module _ (read_file : String → Option String)
    (parse : String → String → Option (List TopStatement)) where
  -- The path is loaded, or there is no module to read there.
  abbrev pub Settled : Modules → String → Type 0
  Settled modules path = (is_loaded modules path ≡ true) ⊎ (read_module read_file parse path ≡ none)

  -- Every loaded module is what its file reads as.
  abbrev pub AreRead : Modules → Type 0
  AreRead modules =
      (n : String) (m : Module)
      → get_module modules n ≡ some m
      → read_module read_file parse n ≡ some m

  -- Modules that were loaded stay.
  abbrev pub Stay : Modules → Modules → Type 0
  Stay s t = (n : String) (m : Module) → get_module s n ≡ some m → get_module t n ≡ some m

  is_loaded-some :
      (modules : Modules) (p : String) (m : Module)
      → get_module modules p ≡ some m
      → is_loaded modules p ≡ true
  is_loaded-some modules p m e = ap (λ o. elim o [ none ↦ false | some _ ↦ true ]) e

  pub Settled-Stay : (s t : Modules) (p : String) → Stay s t → Settled s p → Settled t p
  Settled-Stay s t p k (inr e) = inr e
  Settled-Stay s t p k (inl e) = elim (Option-cases (get_module s p)) [
    | inl n ↦ absurd (ground (arith, e, n))
    | inr m ↦ inl (is_loaded-some t p m.0 (k p m.0 m.1))
  ]

  -- One call of `load_module`.
  abbrev pub Loaded : String → Modules → Option Module × Modules → Type 0
  Loaded path modules r =
      (r.0 ≡ get_module r.1 path)
      × (AreRead modules → AreRead r.1)
      × Stay modules r.1
      × Settled r.1 path
      × ((n : String) (m : Module)
          → get_module r.1 n ≡ some m
          → (get_module modules n ≡ some m) ⊎ (r.0 ≡ some m))

  get_module-insert :
      (path : String) (m : Module) (modules : Modules) (n : String)
      → get_module (insert path m modules) n
        ≡ (if string_eq.beq path n then some m else get_module modules n)
  unfolding get_module
  get_module-insert path m modules n = lookup-insert path n m modules

  load_module-old :
      (path : String) (modules : Modules) (m : Module)
      → get_module modules path ≡ some m
      → load_module read_file parse modules path ≡ (some m, modules)
  unfolding load_module
  load_module-old path modules m e = rw (load_module, e) refl

  load_module-none :
      (path : String) (modules : Modules)
      → get_module modules path ≡ none
      → read_module read_file parse path ≡ none
      → load_module read_file parse modules path ≡ (none, modules)
  unfolding load_module
  load_module-none path modules e f = rw (load_module, e, f) refl

  load_module-new :
      (path : String) (modules : Modules) (m : Module)
      → get_module modules path ≡ none
      → read_module read_file parse path ≡ some m
      → load_module read_file parse modules path ≡ (some m, insert path m modules)
  unfolding load_module
  load_module-new path modules m e f = rw (load_module, e, f) refl

  Loaded-new :
      (path : String) (m : Module) (modules : Modules)
      → get_module modules path ≡ none
      → read_module read_file parse path ≡ some m
      → Loaded path modules (some m, insert path m modules)
  Loaded-new path m modules z y =
      let g = get_module-insert path m modules in
      let p : get_module (insert path m modules) path ≡ some m =
        g path ∙ ground (arith, beq_refl path) in
      (
        sym p,
        λ r n w e. elim (Bool-cases (string_eq.beq path n)) [
          | inr f ↦ r n w (ground (arith, g n, f, e))
          | inl f ↦
              subst (λ x. read_module read_file parse x ≡ some w) ((string_eq.beq_iff path n).0 f)
                (y ∙ ground (arith, g n, f, e))
        ],
        λ n w e. elim (Bool-cases (string_eq.beq path n)) [
          | inr f ↦ g n ∙ ground (arith, f, e)
          | inl f ↦
              let q = subst (λ x. get_module modules x ≡ none) ((string_eq.beq_iff path n).0 f) z in
              absurd (ground (arith, q, e))
        ],
        inl (is_loaded-some (insert path m modules) path m p),
        λ n w e. elim (Bool-cases (string_eq.beq path n)) [
          | inr f ↦ inl (ground (arith, g n, f, e))
          | inl f ↦ inr (ground (arith, g n, f, e))
        ],
      )

  pub load_module-Loaded :
      (path : String) (modules : Modules)
      → Loaded path modules (load_module read_file parse modules path)
  load_module-Loaded path modules = elim (Option-cases (get_module modules path)) [
    | inr m ↦
        subst (Loaded path modules) (sym (load_module-old path modules m.0 m.1))
          (sym m.1, λ r. r, λ n w e. e, inl (is_loaded-some modules path m.0 m.1), λ n w e. inl e)
    | inl z ↦ elim (Option-cases (read_module read_file parse path)) [
      | inl y ↦
          subst (Loaded path modules) (sym (load_module-none path modules z y))
            (sym z, λ r. r, λ n w e. e, inr y, λ n w e. inl e)
      | inr y ↦
          subst (Loaded path modules) (sym (load_module-new path modules y.0 z y.1))
            (Loaded-new path y.0 modules z y.1)
    ]
  ]
