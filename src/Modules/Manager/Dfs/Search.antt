-- ===== src/Modules/Manager/Dfs/Search.antt =====
-- The names that the searches of src/frontend/module_manager.cpp can meet, and that `check` does what
-- `visit` does.
use limitly.Prelude.{
  ap, ℕ, zero, suc, Bool, true, false, not, Option, none, some, String, string_eq, List, [], ◌∷◌,
  ◌++◌, ◌≡◌, refl, sym, ◌∙◌, inl, inr, ◌==◌, if◌then◌else◌, insert, contains, lookup, arith,
  Bool-cases, Option-cases, subst, length,
}
use limitly.Modules.Manager.{Module, Modules, get_module}
use limitly.Modules.Manager.Dfs.{
  state_of, Dfs, dependencies_of, visit_each, check_each, finish_visit, finish_check, visit, check,
}
use limitly.Modules.Manager.Dfs.State.{contains-append, IsClosed, untouched}

-- The names that a search can meet.
abbrev pub all_names : Modules → List String
all_names [] = []
all_names ((n, m) ∷ entries) = n ∷ (m.dependencies ++ all_names entries)

all_names-dependency :
    (entries : Modules) (n d : String) (m : Module)
    → lookup n entries ≡ some m
    → contains d m.dependencies ≡ true
    → contains d (all_names entries) ≡ true
unfolding lookup contains
all_names-dependency [] n d m e c = cc
all_names-dependency ((k, w) ∷ entries) n d m e c = elim (Bool-cases (string_eq.beq k n)) [
  | inl f ↦
      let q : some w ≡ some m = sym (ap (λ b. if b then some w else lookup n entries) f) ∙ e in
      let p : w ≡ m = cc in
      ground (
        arith,
        contains-append d w.dependencies (all_names entries),
        ap (λ (x : Module). contains d x.dependencies) p,
        c,
      )
  | inr f ↦
      let ih = all_names-dependency entries n d m (ground (arith, f, e)) c in
      ground (arith, contains-append d w.dependencies (all_names entries), ih)
]

abbrev pub deps_of : Option Module → List String
deps_of none = []
deps_of (some m) = m.dependencies

pub all_names-IsClosed : (modules : Modules) → IsClosed modules (all_names modules)
unfolding dependencies_of get_module contains
all_names-IsClosed modules n d c = elim (Option-cases (lookup n modules)) [
  | inl e ↦ let q = subst (λ o. contains d (deps_of o) ≡ true) e c in absurd (ground (arith, q))
  | inr e ↦
      all_names-dependency modules n d e.0 e.1 (subst (λ o. contains d (deps_of o) ≡ true) e.1 c)
]

pub untouched-start : (ns : List String) → untouched [] ns ≡ length ns
unfolding untouched state_of lookup
untouched-start [] = refl
untouched-start (n ∷ ns) = omega (arith, untouched-start ns)

-- What `check` sees of a visit.
abbrev pub project : Option (Bool × Dfs) → Option (Bool × List (String × ℕ))
project none = none
project (some r) = some (not r.0, r.1.state)

check_each-visit_each :
    (f : String → Dfs → Option (Bool × Dfs))
    (g : String → List (String × ℕ) → Option (Bool × List (String × ℕ)))
    → ((n : String) (s : Dfs) → g n s.state ≡ project (f n s))
    → (ns : List String) (s : Dfs) → check_each g ns s.state ≡ project (visit_each f ns s)
unfolding check_each visit_each
check_each-visit_each f g h [] s = refl
check_each-visit_each f g h (n ∷ ns) s = elim (Option-cases (f n s)) [
  | inl e ↦ rw (check_each, visit_each, h n s, e) refl
  | inr e ↦ elim (Bool-cases e.0.0) [
    | inl b ↦ rw (check_each, visit_each, h n s, e.1, b) (check_each-visit_each f g h ns e.0.1)
    | inr b ↦ rw (check_each, visit_each, h n s, e.1, b) refl
  ]
]

finish_check-finish_visit :
    (n : String) (o : Option (Bool × Dfs)) → finish_check n (project o) ≡ project (finish_visit n o)
unfolding finish_check finish_visit
finish_check-finish_visit n none = refl
finish_check-finish_visit n (some (true, s)) = refl
finish_check-finish_visit n (some (false, s)) = refl

pub check-visit :
    (modules : Modules) (fuel : ℕ) (n : String) (s : Dfs)
    → check modules fuel n s.state ≡ project (visit modules fuel n s)
unfolding check visit
check-visit modules zero n s = refl
check-visit modules (suc fuel) n s = elim (Bool-cases (state_of s.state n == 1)) [
  | inl e ↦ rw (e, check, visit) refl
  | inr e ↦ elim (Bool-cases (state_of s.state n == 2)) [
    | inl f ↦ rw (e, f, check, visit) refl
    | inr f ↦
        let t = record s { state = insert n 1 s.state } in
        rw (e, f, check, visit)
          (ap (finish_check n) (
              check_each-visit_each (visit modules fuel) (check modules fuel)
                (check-visit modules fuel) (dependencies_of modules n) t)
            ∙ finish_check-finish_visit n
                (visit_each (visit modules fuel) (dependencies_of modules n) t))
  ]
]
