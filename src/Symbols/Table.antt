-- ===== src/Symbols/Table.antt =====
-- src/backend/symbol_table.hh and src/backend/symbol_table.cpp: the scopes of variables and functions.
-- A stack of scopes is a list, the innermost scope first. `TypePtr`, a shared pointer that may be
-- null, is a parameter with its null.
pub mod Scoping
pub mod ArgCount
use limitly.Prelude.{
  ℕ, zero, suc, ◌+◌, Bool, true, false, not, ◌&&◌, ◌||◌, Option, none, some, String, string_eq,
  List, [], ◌∷◌, length, is_empty, leb, ◌==◌, if◌then◌else◌, lookup, insert,
}

-- The loop of `getMinRequiredArgs` from index `i`, over the flags from there.
unfoldable pub min_required_from : ℕ → ℕ → List Bool → List Bool → ℕ
min_required_from size i [] defaults = size
min_required_from size i (o ∷ optionals) [] =
    let later = min_required_from size (i + 1) optionals [] in if o then i else later
min_required_from size i (o ∷ optionals) (d ∷ defaults) =
    let later = min_required_from size (i + 1) optionals defaults in if o || d then i else later

unfoldable pub pop_back {ℓ} : {A : Type ℓ} → List A → List A
pop_back [] = []
pop_back (_ ∷ l) = l

-- The loop from the innermost scope to the outermost.
unfoldable pub find_in {ℓ} : {A : Type ℓ} → String → List (List (String × A)) → Option A
find_in x [] = none
find_in x (scope ∷ scopes) = elim (lookup x scope) [ none ↦ find_in x scopes | some a ↦ some a ]

-- The innermost scope gets an entry, if there is a scope.
unfoldable pub add_to {ℓ} :
    {A : Type ℓ} → String → A → List (List (String × A)) → List (List (String × A))
add_to x a [] = []
add_to x a (scope ∷ scopes) = insert x a scope ∷ scopes

module _ (TypePtr : Type 0) where
  -- `Symbol`
  pub record Symbol : Type 0 where
    pub name : String
    pub type : TypePtr
    pub line : ℕ

  -- `FunctionSignature`
  pub record FunctionSignature : Type 0 where
    pub name : String
    pub param_types : List TypePtr
    pub optional_params : List Bool
    pub has_default_values : List Bool
    pub return_type : TypePtr
    pub can_fail : Bool
    pub error_types : List String
    pub line : ℕ

  unfoldable pub get_min_required_args : FunctionSignature → ℕ
  unfolding min_required_from
  get_min_required_args f =
      min_required_from (length f.param_types) 0 f.optional_params f.has_default_values

  unfoldable pub is_valid_arg_count : FunctionSignature → ℕ → Bool
  unfolding get_min_required_args
  is_valid_arg_count f n = leb (get_min_required_args f) n && leb n (length f.param_types)

  -- `SymbolTable`
  pub record SymbolTable : Type 0 where
    pub variable_scope_stack : List (List (String × Symbol))
    pub function_scope_stack : List (List (String × FunctionSignature))

  unfoldable pub enter_scope : SymbolTable → SymbolTable
  enter_scope t = record {
    variable_scope_stack = [] ∷ t.variable_scope_stack;
    function_scope_stack = [] ∷ t.function_scope_stack;
  }

  -- `SymbolTable::SymbolTable`
  unfoldable pub symbol_table_new : SymbolTable
  unfolding enter_scope
  symbol_table_new = enter_scope (record { variable_scope_stack = []; function_scope_stack = [] })

  unfoldable pub exit_scope : SymbolTable → SymbolTable
  unfolding pop_back
  exit_scope t = record {
    variable_scope_stack = pop_back t.variable_scope_stack;
    function_scope_stack = pop_back t.function_scope_stack;
  }

  unfoldable pub find_variable : String → SymbolTable → Option Symbol
  unfolding find_in
  find_variable x t = find_in x t.variable_scope_stack

  unfoldable pub find_function : String → SymbolTable → Option FunctionSignature
  unfolding find_in
  find_function x t = find_in x t.function_scope_stack

  unfoldable pub add_variable : String → TypePtr → ℕ → SymbolTable → SymbolTable
  unfolding add_to
  add_variable x type line t =
      let symbol : Symbol = record { name = x; type = type; line = line } in
      record t { variable_scope_stack = add_to x symbol t.variable_scope_stack }

  unfoldable pub add_function : String → FunctionSignature → SymbolTable → SymbolTable
  unfolding add_to
  add_function x signature t = record t {
    function_scope_stack = add_to x signature t.function_scope_stack;
  }

  unfoldable pub get_type : TypePtr → String → SymbolTable → TypePtr
  unfolding find_in
  get_type null x t = elim (find_in x t.variable_scope_stack) [
    | some v ↦ v.type
    | none ↦ elim (find_in x t.function_scope_stack) [ some f ↦ f.return_type | none ↦ null ]
  ]

  unfoldable pub is_in_global_scope : SymbolTable → Bool
  is_in_global_scope t = length t.variable_scope_stack == 1
