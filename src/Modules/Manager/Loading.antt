-- ===== src/Modules/Manager/Loading.antt =====
-- The loading of all imports (`resolve_all` of src/frontend/module_manager.cpp).
pub mod Select
pub mod One
pub mod Loop
use limitly.Prelude.{
  length, ℕ, zero, suc, ◌+◌, length, ◌≤◌, ◌<◌, Bool, true, false, not, ◌&&◌, ◌||◌, Option, none,
  some, String, string_eq, List, [], ◌∷◌, ◌++◌, ◌≡◌, refl, sym, ap, ◌∙◌, subst, contains, insert,
  lookup, lookup-insert, beq_refl, if◌then◌else◌, arith, Bool-cases, Option-cases, inl, inr, ◌⊎◌,
  All, All-map,
}
use limitly.Modules.Manager.{
  Module, Modules, TopStatement, get_module, is_loaded, select, imports, read_module, load_module,
  load_all, resolve_rounds, resolve_all,
}
use limitly.Modules.Manager.Loading.Select.{
  Includes, missing_count, missing_count-Includes, missing_count-fewer, Selects, select-Selects,
}
use limitly.Modules.Manager.Loading.Loop.{Loads, load_all-Loads}
use limitly.Modules.Manager.Loading.One.{
  Settled, AreRead, Stay, Settled-Stay, Loaded, load_module-Loaded,
}
use limitly.Modules.Manager.Dfs.State.{contains-append, All-contains, contains-All}

missing_count-empty : (ns : List String) → missing_count [] ns ≡ length ns
unfolding missing_count contains
missing_count-empty [] = refl
missing_count-empty (n ∷ ns) = omega (arith, missing_count-empty ns)

module _ (read_file : String → Option String)
    (parse : String → String → Option (List TopStatement)) where
  -- A set of paths that the modules to be read at its paths do not leave.
  abbrev pub IsImportClosed : List String → Type 0
  IsImportClosed universe =
      (p : String) (m : Module) (d : String)
      → contains p universe ≡ true
      → read_module read_file parse p ≡ some m
      → contains d m.dependencies ≡ true
      → contains d universe ≡ true

  abbrev pub S : Modules → String → Type 0
  S = Settled read_file parse

  -- The state between two rounds.
  record Between (universe worklist processing : List String) (modules : Modules) : Type 0 where
    read : AreRead read_file parse modules
    processed : (p : String) → contains p processing ≡ true → S modules p
    listed :
        (n : String) (m : Module) (d : String)
        → get_module modules n ≡ some m
        → contains d m.dependencies ≡ true
        → (contains d worklist ≡ true) ⊎ S modules d
    inside : Includes worklist universe

  -- What the rounds leave of a worklist.
  pub record Rounds (worklist : List String) (modules t : Modules) : Type 0 where
    pub read : AreRead read_file parse t
    pub stay : Stay read_file parse modules t
    pub settled : (p : String) → contains p worklist ≡ true → S t p
    pub closed :
        (n : String) (m : Module) (d : String)
        → get_module t n ≡ some m
        → contains d m.dependencies ≡ true
        → S t d

  -- The rounds end, and leave that.
  abbrev pub Finishes : List String → Modules → Option Modules → Type 0
  Finishes worklist modules o = (t : Modules) × (o ≡ some t) × Rounds worklist modules t

  module _ (universe : List String) (u : IsImportClosed universe) where
    module _ (worklist processing : List String) (modules : Modules)
        (w : Between universe worklist processing modules) where
      abbrev selected : List String × List String
      selected = select modules worklist processing

      abbrev loaded : List String × Modules
      loaded = load_all read_file parse selected.0 modules

      s : Selects modules worklist processing selected
      s = select-Selects modules worklist processing

      l : Loads read_file parse selected.0 modules loaded
      l = load_all-Loads read_file parse selected.0 modules

      next_processed : (p : String) → contains p selected.1 ≡ true → S loaded.1 p
      next_processed p c = elim (Bool-cases (contains p processing)) [
        | inl e ↦ Settled-Stay read_file parse modules loaded.1 p l.stay (w.processed p e)
        | inr e ↦ l.loaded p (ground (arith, s.from p c, e))
      ]

      next_settled : (p : String) → contains p worklist ≡ true → S loaded.1 p
      next_settled p c = elim (Bool-cases (is_loaded modules p)) [
        | inl e ↦ Settled-Stay read_file parse modules loaded.1 p l.stay (inl e)
        | inr e ↦ next_processed p (ground (arith, s.settled p c, e))
      ]

      -- Where a path of the next worklist comes from.
      next_path :
          (d : String)
          → contains d loaded.0 ≡ true
          → (p : String) × (contains d universe ≡ true)
            × (contains p universe ≡ true)
            × (contains p processing ≡ false)
            × (contains p selected.1 ≡ true)
      next_path d c =
          let n = l.needed d c in
          let f = s.fresh n.0 n.2 in
          let i = w.inside n.0 f.0 in
          (n.0, u n.0 n.1 d i (l.read w.read n.0 n.1 n.3) n.4, i, f.1, s.chosen n.0 n.2)

      next_Between : Between universe loaded.0 selected.1 loaded.1
      next_Between = record {
        read = l.read w.read;
        processed = next_processed;
        listed = λ n m d e c. elim (l.listed n m e) [
          | inr i ↦ inl (i d c)
          | inl o ↦ elim (w.listed n m d o c) [
            | inl k ↦ inr (next_settled d k)
            | inr k ↦ inr (Settled-Stay read_file parse modules loaded.1 d l.stay k)
          ]
        ];
        inside = λ d c. (next_path d c).1;
      }

      -- A round that leaves paths has processed a path of the universe.
      next_fuel :
          (fuel : ℕ) (d : String)
          → missing_count processing universe < suc fuel
          → contains d loaded.0 ≡ true
          → missing_count selected.1 universe < fuel
      next_fuel fuel d f c =
          let n = next_path d c in
          let k = missing_count-fewer processing selected.1 universe n.0 s.kept n.2 n.3 n.4 in
          omega (arith, k, f)

      next_Rounds : (t : Modules) → Rounds loaded.0 loaded.1 t → Rounds worklist modules t
      next_Rounds t r = record {
        read = r.read;
        stay = λ n m e. r.stay n m (l.stay n m e);
        settled = λ p c. Settled-Stay read_file parse loaded.1 t p r.stay (next_settled p c);
        closed = r.closed;
      }

    empty-Finishes :
        (processing : List String) (modules : Modules)
        → Between universe [] processing modules
        → Finishes [] modules (some modules)
    unfolding contains
    empty-Finishes processing modules w = (
      modules,
      refl,
      record {
        read = w.read;
        stay = λ n m e. e;
        settled = λ p c. absurd (ground (arith, c));
        closed = λ n m d e c. elim (w.listed n m d e c) [
          | inl k ↦ absurd (ground (arith, k))
          | inr k ↦ k
        ];
      },
    )

    -- The rounds end when there is more fuel than unprocessed paths, or nothing to load.
    resolve_rounds-Finishes :
        (fuel : ℕ) (worklist processing : List String) (modules : Modules)
        → Between universe worklist processing modules
        → ((d : String) → contains d worklist ≡ true → missing_count processing universe < fuel)
        → Finishes worklist modules
            (resolve_rounds read_file parse fuel worklist processing modules)
    unfolding resolve_rounds contains
    resolve_rounds-Finishes zero [] processing modules w f = empty-Finishes processing modules w
    resolve_rounds-Finishes (suc fuel) [] processing modules w f =
        empty-Finishes processing modules w
    resolve_rounds-Finishes zero (path ∷ worklist) processing modules w f =
        absurd (omega (arith, f path (ground (arith, beq_refl path))))
    resolve_rounds-Finishes (suc fuel) (path ∷ worklist) processing modules w f =
        let all = path ∷ worklist in
        let g = f path (ground (arith, beq_refl path)) in
        let r =
          resolve_rounds-Finishes fuel (loaded all processing modules w).0
            (selected all processing modules w).1 (loaded all processing modules w).1
            (next_Between all processing modules w)
            (λ d c. next_fuel all processing modules w fuel d g c) in
        (r.0, r.1, next_Rounds all processing modules w r.0 r.2)

    -- From no modules on, with a unit of fuel for every path that the imports can lead to, and one
    -- more, the rounds end. Then every import of the program and every import of a loaded module is
    -- loaded or cannot be read, and each loaded module is what its file reads as.
    pub resolve_all-Finishes :
        (fuel : ℕ) (root_program : List TopStatement)
        → Includes (imports root_program) universe
        → length universe < fuel
        → Finishes (imports root_program) [] (resolve_all read_file parse fuel root_program [])
    unfolding resolve_all get_module contains lookup
    resolve_all-Finishes fuel root_program i f =
        resolve_rounds-Finishes fuel (imports root_program) [] []
          (record {
            read = λ n m e. absurd (ground (arith, e));
            processed = λ p c. absurd (ground (arith, c));
            listed = λ n m d e c. absurd (ground (arith, e));
            inside = i;
          })
          (λ d c. omega (arith, f, missing_count-empty universe))
