-- ===== src/Environment.antt =====
-- src/backend/env.hh: environments that enclose each other and that closures share. An environment is
-- its place in a store, and pointers are places. An exception is `none`; the locks have no counterpart.
-- The chain of parents is followed with fuel.
pub mod Assign
pub mod Fuel
mod Tests
use limitly.Prelude.{
  ℕ, zero, suc, ◌+◌, Bool, true, false, ◌||◌, Option, none, some, String, string_eq, List, [], ◌∷◌,
  ◌++◌, length, get_elem?, lookup, insert, erase, if◌then◌else◌,
}

-- `VisibilityLevel`
pub data VisibilityLevel : Type 0 where
  private_level : VisibilityLevel
  protected_level : VisibilityLevel
  public_level : VisibilityLevel
  const_level : VisibilityLevel

module _ (V : Type 0) where
  pub record Environment : Type 0 where
    pub enclosing : Option ℕ
    pub values : List (String × V)
    pub captured_variables : List (String × V)
    pub visibility : List (String × VisibilityLevel)
    pub closure_parent : Option ℕ

abbrev pub is_some {ℓ} : {A : Type ℓ} → Option A → Bool
is_some none = false
is_some (some a) = true

-- `try { return a; } catch (...) { }`, then `b`
abbrev pub or_else {ℓ} : {A : Type ℓ} → Option A → Option A → Option A
or_else none b = b
or_else (some a) b = some a

-- A call on a parent, if there is one.
abbrev pub at_parent {ℓ} : {A : Type ℓ} → (ℕ → Option A) → Option ℕ → Option A
at_parent f none = none
at_parent f (some j) = f j

-- The environment at a place, replaced.
unfoldable pub update {ℓ} : {A : Type ℓ} → List A → ℕ → A → List A
update [] i a = []
update (x ∷ xs) zero a = a ∷ xs
update (x ∷ xs) (suc i) a = x ∷ update xs i a

-- The levels that other modules may read.
unfoldable pub can_access_level : VisibilityLevel → Bool
can_access_level VisibilityLevel.public_level = true
can_access_level VisibilityLevel.const_level = true
can_access_level VisibilityLevel.private_level = false
can_access_level VisibilityLevel.protected_level = false

module _ {V : Type 0} where
  unfoldable pub environment_new : Option ℕ → Environment V
  environment_new enclosing = record {
    enclosing = enclosing;
    values = [];
    captured_variables = [];
    visibility = [];
    closure_parent = none;
  }

  -- The two overloads of `define`; the first gives the level `Private`.
  unfoldable pub define_with : Environment V → String → V → VisibilityLevel → Environment V
  unfolding insert
  define_with env name value vis = record env {
    values = insert name value env.values;
    visibility = insert name vis env.visibility;
  }

  unfoldable pub define : Environment V → String → V → Environment V
  unfolding define_with
  define env name value = define_with env name value VisibilityLevel.private_level

  -- Where a name stands in one environment: captured variables come first.
  unfoldable pub own_value : Environment V → String → Option V
  unfolding lookup
  own_value env name = or_else (lookup name env.captured_variables) (lookup name env.values)

  -- `assignInCurrentScope`
  unfoldable pub assign_in_current_scope : Environment V → String → V → Option (Environment V)
  unfolding lookup insert
  assign_in_current_scope env name value = elim (lookup name env.captured_variables) [
    | some _ ↦ some (record env { captured_variables = insert name value env.captured_variables })
    | none ↦ elim (lookup name env.values) [
      | some _ ↦ some (record env { values = insert name value env.values })
      | none ↦ none
    ]
  ]

  -- `get` in an environment, by what it answers for the parents.
  unfoldable pub get_in : String → (ℕ → Option V) → Option (Environment V) → Option V
  unfolding own_value
  get_in name parent none = none
  get_in name parent (some env) =
      or_else (own_value env name)
        (or_else (at_parent parent env.closure_parent) (at_parent parent env.enclosing))

  unfoldable pub get : ℕ → List (Environment V) → String → ℕ → Option V
  unfolding get_in
  get zero store name i = none
  get (suc fuel) store name i = get_in name (get fuel store name) (get_elem? store i)

  -- What `assign` does, by whether it happens in this environment.
  abbrev pub put_back :
      List (Environment V) → ℕ → Option (Environment V) → Option (List (Environment V))
  put_back store i none = none
  put_back store i (some env) = some (update store i env)

  -- `assign` in the environment at a place, by what it does in the parents.
  unfoldable pub assign_in :
      List (Environment V)
      → String
      → V
      → ℕ
      → (ℕ → Option (List (Environment V)))
      → Option (Environment V)
      → Option (List (Environment V))
  unfolding assign_in_current_scope update
  assign_in store name value i parent none = none
  assign_in store name value i parent (some env) =
      or_else (put_back store i (assign_in_current_scope env name value))
        (or_else (at_parent parent env.closure_parent) (at_parent parent env.enclosing))

  unfoldable pub assign : ℕ → List (Environment V) → String → V → ℕ → Option (List (Environment V))
  unfolding assign_in
  assign zero store name value i = none
  assign (suc fuel) store name value i =
      assign_in store name value i (assign fuel store name value) (get_elem? store i)

  -- `get(name, true)`
  unfoldable pub get_external : ℕ → List (Environment V) → String → ℕ → Option V
  unfolding lookup can_access_level
  get_external zero store name i = none
  get_external (suc fuel) store name i = elim (get_elem? store i) [
    | none ↦ none
    | some env ↦ elim (lookup name env.values) [
      | none ↦ at_parent (get_external fuel store name) env.enclosing
      | some value ↦ elim (lookup name env.visibility) [
        | none ↦ some value
        | some vis ↦ if can_access_level vis then some value else none
      ]
    ]
  ]

  unfoldable pub get_all_symbols : Environment V → List (String × V)
  get_all_symbols env = env.values

  unfoldable pub remove_symbol : Environment V → String → Option (Environment V)
  unfolding lookup erase
  remove_symbol env name = elim (lookup name env.values) [
    | none ↦ none
    | some _ ↦ some (record env { values = erase name env.values })
  ]

  unfoldable pub capture_variable : Environment V → String → V → Environment V
  unfolding insert
  capture_variable env name value = record env {
    captured_variables = insert name value env.captured_variables;
  }

  unfoldable pub is_variable_captured : Environment V → String → Bool
  unfolding lookup
  is_variable_captured env name = is_some (lookup name env.captured_variables)

  unfoldable pub exists_in_current_scope : Environment V → String → Bool
  unfolding lookup
  exists_in_current_scope env name = is_some (lookup name env.values)

  unfoldable pub get_visibility : Environment V → String → VisibilityLevel
  unfolding lookup
  get_visibility env name = elim (lookup name env.visibility) [
    | none ↦ VisibilityLevel.private_level
    | some vis ↦ vis
  ]

  unfoldable pub can_access_externally : Environment V → String → Bool
  unfolding get_visibility can_access_level
  can_access_externally env name = can_access_level (get_visibility env name)

  -- The loop of `createClosureEnvironment`: names that are not found are left out.
  unfoldable pub capture_all :
      ℕ → List (Environment V) → ℕ → List String → Environment V → Environment V
  unfolding get capture_variable
  capture_all fuel store i [] env = env
  capture_all fuel store i (name ∷ names) env =
      capture_all fuel store i names
        (elim (get fuel store name i) [ none ↦ env | some value ↦ capture_variable env name value ])

  -- `createClosureEnvironment`: the new environment stands behind the others.
  unfoldable pub create_closure_environment :
      ℕ → List (Environment V) → ℕ → List String → List (Environment V)
  unfolding capture_all environment_new
  create_closure_environment fuel store i captured_vars =
      store
      ++ (capture_all fuel store i captured_vars
            (record (environment_new none) { closure_parent = some i })
          ∷ [])
