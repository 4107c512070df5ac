-- ===== src/Symbols/Tests.antt =====
-- The tables of names (src/backend/symbol_table.cpp, src/lir/function_registry.cpp) at small values.
use limitly.Prelude.{
  ℕ, ◌≤◌, ◌<◌, true, false, none, some, string_eq, List, [], ◌∷◌, ◌≡◌, refl, ◌⊎◌, ◌↔◌,
  if◌then◌else◌, length, contains, arith,
}
use limitly.Symbols.Table.{
  FunctionSignature, symbol_table_new, enter_scope, exit_scope, add_variable, find_variable,
  find_function, get_type, is_valid_arg_count,
}
use limitly.Symbols.Table.Scoping.{
  Items, no_items, more_items, variable_item, function_item, block_item, declare_items,
  block-restores, find_variable-add_variable,
}
use limitly.Symbols.Table.ArgCount.{omittable, flag_at, is_valid_arg_count_iff}
use limitly.Symbols.Registry.{get_function, has_function, get_function_names}
use limitly.Symbols.Registry.History.{
  Call, register_call, clear_call, perform_all, last_registered, perform_all-last_registered,
}

-- fn f(a, b?, c) with numbers for types
abbrev signature : FunctionSignature ℕ
signature = record {
  name = "f";
  param_types = 1 ∷ (1 ∷ (2 ∷ []));
  optional_params = false ∷ (true ∷ (false ∷ []));
  has_default_values = [];
  return_type = 3;
  can_fail = false;
  error_types = [];
  line = 1;
}

abbrev items : Items ℕ
items = more_items (variable_item "x" 1 2) (
    more_items (block_item (more_items (variable_item "x" 2 3) no_items))
      (more_items (function_item "x" signature) no_items))

block-restores_example :
    exit_scope ℕ (declare_items ℕ items (enter_scope ℕ (symbol_table_new ℕ))) ≡ symbol_table_new ℕ
block-restores_example = block-restores ℕ items (symbol_table_new ℕ)

find_variable-add_variable_example :
    (let t = symbol_table_new ℕ in
      let u = add_variable ℕ "x" 5 1 t in
      (find_variable ℕ "x" u ≡ (
        if string_eq.beq "x" "x"
        then some (record { name = "x"; type = 5; line = 1 })
        else find_variable ℕ "x" t))
      × (find_function ℕ "x" u ≡ find_function ℕ "x" t)
      × (get_type ℕ 0 "x" u ≡ (if string_eq.beq "x" "x" then 5 else get_type ℕ 0 "x" t)))
unfolding symbol_table_new enter_scope
find_variable-add_variable_example =
    find_variable-add_variable ℕ "x" "x" 5 0 1 (symbol_table_new ℕ) refl

-- One argument is enough for f, though c is neither optional nor has a default.
is_valid_arg_count_iff_example : is_valid_arg_count ℕ signature 1 ≡ true ↔ (
    (1 ≡ length signature.param_types)
    ⊎ ((1 < length signature.param_types)
        × ((i : ℕ) × (i ≤ 1)
            × (flag_at (omittable signature.optional_params signature.has_default_values) i
                ≡ true))))
is_valid_arg_count_iff_example = is_valid_arg_count_iff ℕ signature 1 (omega arith)

abbrev calls : List (Call ℕ)
calls =
    register_call "g" none
    ∷ (register_call "f" (some 2) ∷ (register_call "f" (some 1) ∷ (clear_call ∷ [])))

perform_all-last_registered_example :
    (let r = perform_all ℕ calls in
      (get_function "f" r ≡ last_registered ℕ "f" calls)
      × (has_function "f" r ≡ elim (last_registered ℕ "f" calls) [ none ↦ false | some _ ↦ true ])
      × (contains "f" (get_function_names r) ≡ has_function "f" r))
perform_all-last_registered_example = perform_all-last_registered ℕ "f" calls
