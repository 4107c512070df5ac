-- ===== src/Modules/Manager/Dfs.antt =====
-- `get_topological_order` and `has_circular_dependencies` (src/frontend/module_manager.cpp): depth-first
-- searches over the dependencies. The recursion of the lambdas `visit` and `check` is on fuel, and
-- `none` is its end.
pub mod State
pub mod Each
pub mod Visit
pub mod Search
pub mod Loops
pub mod Cycles
use limitly.Prelude.{
  ℕ, zero, suc, Bool, true, false, Option, none, some, String, string_eq, List, [], ◌∷◌, ◌++◌, ◌==◌,
  lookup, insert,
}
use limitly.Modules.Manager.{Module, Modules, get_module}

-- `state[name]`: 0 where nothing was set, 1 on the way, 2 when done
unfoldable pub state_of : List (String × ℕ) → String → ℕ
unfolding lookup
state_of state name = elim (lookup name state) [ none ↦ 0 | some n ↦ n ]

-- What the lambda `visit` changes.
pub record Dfs : Type 0 where
  pub state : List (String × ℕ)
  pub order : List String

-- `mod->dependencies`, or none without a module
unfoldable pub dependencies_of : Modules → String → List String
unfolding get_module
dependencies_of modules name = elim (get_module modules name) [
  | none ↦ []
  | some m ↦ m.dependencies
]

-- The loop over the dependencies in `visit`.
unfoldable pub visit_each :
    (String → Dfs → Option (Bool × Dfs)) → List String → Dfs → Option (Bool × Dfs)
visit_each visit [] s = some (true, s)
visit_each visit (dep ∷ deps) s = elim (visit dep s) [
  | none ↦ none
  | some r ↦ elim r.0 [ true ↦ visit_each visit deps r.1 | false ↦ some (false, r.1) ]
]

-- The loop over the dependencies in `check`.
unfoldable pub check_each :
    (String → List (String × ℕ) → Option (Bool × List (String × ℕ)))
    → List String
    → List (String × ℕ)
    → Option (Bool × List (String × ℕ))
check_each check [] s = some (false, s)
check_each check (dep ∷ deps) s = elim (check dep s) [
  | none ↦ none
  | some r ↦ elim r.0 [ true ↦ some (true, r.1) | false ↦ check_each check deps r.1 ]
]

-- The end of `visit`, after the loop.
unfoldable pub finish_visit : String → Option (Bool × Dfs) → Option (Bool × Dfs)
unfolding insert
finish_visit name none = none
finish_visit name (some (false, s)) = some (false, s)
finish_visit name (some (true, s)) =
    some (true, record { state = insert name 2 s.state; order = s.order ++ (name ∷ []) })

unfoldable pub finish_check :
    String → Option (Bool × List (String × ℕ)) → Option (Bool × List (String × ℕ))
unfolding insert
finish_check name none = none
finish_check name (some (true, s)) = some (true, s)
finish_check name (some (false, s)) = some (false, insert name 2 s)

module _ (modules : Modules) where
  unfoldable pub visit : ℕ → String → Dfs → Option (Bool × Dfs)
  unfolding state_of insert visit_each finish_visit dependencies_of
  visit zero name s = none
  visit (suc fuel) name s = elim (state_of s.state name == 1) [
    | true ↦ some (false, s)
    | false ↦ elim (state_of s.state name == 2) [
      | true ↦ some (true, s)
      | false ↦ finish_visit name (
          visit_each (visit fuel) (dependencies_of modules name)
            (record s { state = insert name 1 s.state }))
    ]
  ]

  unfoldable pub check : ℕ → String → List (String × ℕ) → Option (Bool × List (String × ℕ))
  unfolding state_of insert check_each finish_check dependencies_of
  check zero name s = none
  check (suc fuel) name s = elim (state_of s name == 1) [
    | true ↦ some (true, s)
    | false ↦ elim (state_of s name == 2) [
      | true ↦ some (false, s)
      | false ↦
          finish_check name
            (check_each (check fuel) (dependencies_of modules name) (insert name 1 s))
    ]
  ]

  -- The loop over `modules_` in `get_topological_order`.
  unfoldable pub order_from : ℕ → Modules → Dfs → Option Dfs
  unfolding visit
  order_from fuel [] s = some s
  order_from fuel ((name, m) ∷ entries) s = elim (state_of s.state name == 0) [
    | false ↦ order_from fuel entries s
    | true ↦ elim (visit fuel name s) [ none ↦ none | some r ↦ order_from fuel entries r.1 ]
  ]

  unfoldable pub get_topological_order : ℕ → Option (List String)
  unfolding order_from
  get_topological_order fuel = elim (order_from fuel modules (record { state = []; order = [] })) [
    | none ↦ none
    | some s ↦ some s.order
  ]

  -- The loop over `modules_` in `has_circular_dependencies`.
  unfoldable pub circular_from : ℕ → Modules → List (String × ℕ) → Option Bool
  unfolding check
  circular_from fuel [] s = some false
  circular_from fuel ((name, m) ∷ entries) s = elim (state_of s name == 0) [
    | false ↦ circular_from fuel entries s
    | true ↦ elim (check fuel name s) [
      | none ↦ none
      | some r ↦ elim r.0 [ true ↦ some true | false ↦ circular_from fuel entries r.1 ]
    ]
  ]

  unfoldable pub has_circular_dependencies : ℕ → Option Bool
  unfolding circular_from
  has_circular_dependencies fuel = circular_from fuel modules []
