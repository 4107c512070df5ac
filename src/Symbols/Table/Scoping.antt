-- ===== src/Symbols/Table/Scoping.antt =====
-- The scopes of src/backend/symbol_table.cpp: what an inner scope hides and what leaving it restores.
use limitly.Prelude.{
  none, some, ◌∙◌, ap, ℕ, false, some, String, string_eq, List, [], ◌∷◌, ◌≡◌, refl, is_empty,
  if◌then◌else◌, lookup-insert, arith,
}
use limitly.Symbols.Table.{
  Symbol, get_type, find_function, find_variable, FunctionSignature, SymbolTable, enter_scope,
  exit_scope, pop_back, find_in, add_to, add_variable, add_function,
}

module _ (TypePtr : Type 0) where
  -- The calls that the walk over a program makes: declarations, and blocks with their own scope.
  mutual
    pub data Item : Type 0 where
      variable_item : String → TypePtr → ℕ → Item
      function_item : String → FunctionSignature TypePtr → Item
      block_item : Items → Item

    pub data Items : Type 0 where
      no_items : Items
      more_items : Item → Items → Items

  unfoldable mutual
    unfolding add_variable add_function enter_scope exit_scope

    pub declare_item : Item → SymbolTable TypePtr → SymbolTable TypePtr
    declare_item (variable_item x type line) t = add_variable TypePtr x type line t
    declare_item (function_item x f) t = add_function TypePtr x f t
    declare_item (block_item items) t =
        exit_scope TypePtr (declare_items items (enter_scope TypePtr t))

    pub declare_items : Items → SymbolTable TypePtr → SymbolTable TypePtr
    declare_items no_items t = t
    declare_items (more_items item items) t = declare_items items (declare_item item t)

pop_back-add_to {ℓ} :
    {A : Type ℓ} (x : String) (a : A) (l : List (List (String × A)))
    → pop_back (add_to x a l) ≡ pop_back l
unfolding pop_back add_to
pop_back-add_to x a [] = refl
pop_back-add_to x a (s ∷ l) = refl

find_in-add_to {ℓ} :
    {A : Type ℓ} (x y : String) (a : A) (l : List (List (String × A)))
    → is_empty l ≡ false
    → find_in y (add_to x a l) ≡ (if string_eq.beq x y then some a else find_in y l)
unfolding find_in add_to
find_in-add_to x y a [] h = cc
find_in-add_to x y a (s ∷ l) h = ground (arith, lookup-insert x y a s)

module _ (TypePtr : Type 0) where
  exit-enter : (t : SymbolTable TypePtr) → exit_scope TypePtr (enter_scope TypePtr t) ≡ t
  unfolding exit_scope enter_scope pop_back
  exit-enter t = refl

  exit-add_variable :
      (x : String) (type : TypePtr) (line : ℕ) (t : SymbolTable TypePtr)
      → exit_scope TypePtr (add_variable TypePtr x type line t) ≡ exit_scope TypePtr t
  unfolding exit_scope add_variable
  exit-add_variable x type line t =
      ap
        (λ (l : List (List (String × Symbol TypePtr))). record {
          variable_scope_stack = l;
          function_scope_stack = pop_back t.function_scope_stack;
        })
        (pop_back-add_to x (record { name = x; type = type; line = line }) t.variable_scope_stack)

  exit-add_function :
      (x : String) (f : FunctionSignature TypePtr) (t : SymbolTable TypePtr)
      → exit_scope TypePtr (add_function TypePtr x f t) ≡ exit_scope TypePtr t
  unfolding exit_scope add_function
  exit-add_function x f t =
      ap
        (λ (l : List (List (String × FunctionSignature TypePtr))). record {
          variable_scope_stack = pop_back t.variable_scope_stack;
          function_scope_stack = l;
        })
        (pop_back-add_to x f t.function_scope_stack)

  mutual
    unfolding declare_item declare_items

    exit-declare_item :
        (item : Item TypePtr) (t : SymbolTable TypePtr)
        → exit_scope TypePtr (declare_item TypePtr item t) ≡ exit_scope TypePtr t
    exit-declare_item (variable_item x type line) t = exit-add_variable x type line t
    exit-declare_item (function_item x f) t = exit-add_function x f t
    exit-declare_item (block_item items) t =
        ap (exit_scope TypePtr) (exit-declare_items items (enter_scope TypePtr t) ∙ exit-enter t)

    exit-declare_items :
        (items : Items TypePtr) (t : SymbolTable TypePtr)
        → exit_scope TypePtr (declare_items TypePtr items t) ≡ exit_scope TypePtr t
    exit-declare_items no_items t = refl
    exit-declare_items (more_items item items) t =
        exit-declare_items items (declare_item TypePtr item t) ∙ exit-declare_item item t

  -- Whatever is declared between entering a scope and leaving it, inner blocks included, the table
  -- is afterwards what it was before.
  pub block-restores :
      (items : Items TypePtr) (t : SymbolTable TypePtr)
      → exit_scope TypePtr (declare_items TypePtr items (enter_scope TypePtr t)) ≡ t
  block-restores items t = exit-declare_items items (enter_scope TypePtr t) ∙ exit-enter t

  -- Where there is a scope, a declared variable is found under its name, hides what its name stood
  -- for, gives its type, and leaves the lookups of all other names and of functions as they were.
  pub find_variable-add_variable :
      (x y : String) (type null : TypePtr) (line : ℕ) (t : SymbolTable TypePtr)
      → is_empty t.variable_scope_stack ≡ false
      → (let u = add_variable TypePtr x type line t in
          (find_variable TypePtr y u ≡ (
            if string_eq.beq x y
            then some (record { name = x; type = type; line = line })
            else find_variable TypePtr y t))
          × (find_function TypePtr y u ≡ find_function TypePtr y t)
          × (get_type TypePtr null y u
              ≡ (if string_eq.beq x y then type else get_type TypePtr null y t)))
  unfolding find_variable find_function get_type add_variable
  find_variable-add_variable x y type null line t h =
      let e =
        find_in-add_to x y (record { name = x; type = type; line = line }) t.variable_scope_stack
          h in
      (e, refl, ground (arith, e))

  -- Where there is a scope, a declared function is found under its name, and its return type is what
  -- the name stands for unless a variable has that name.
  pub find_function-add_function :
      (x y : String) (f : FunctionSignature TypePtr) (null : TypePtr) (t : SymbolTable TypePtr)
      → is_empty t.function_scope_stack ≡ false
      → (let u = add_function TypePtr x f t in
          (find_function TypePtr y u
            ≡ (if string_eq.beq x y then some f else find_function TypePtr y t))
          × (find_variable TypePtr y u ≡ find_variable TypePtr y t)
          × (get_type TypePtr null y u ≡ elim (find_variable TypePtr y t) [
            | some v ↦ v.type
            | none ↦ if string_eq.beq x y then f.return_type else get_type TypePtr null y t
          ]))
  unfolding find_variable find_function get_type add_function
  find_function-add_function x y f null t h =
      let e = find_in-add_to x y f t.function_scope_stack h in (e, refl, ground (arith, e))
