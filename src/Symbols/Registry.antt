-- ===== src/Symbols/Registry.antt =====
-- src/lir/function_registry.hh and src/lir/function_registry.cpp: functions under their names. A
-- function is a parameter; a null pointer is none, and an exception is none in a result.
pub mod History
use limitly.Prelude.{
  Bool, true, false, Option, none, some, String, string_eq, List, [], ◌∷◌, map, lookup, insert,
}

-- `lir_functions_`
abbrev pub FunctionRegistry : Type 0 → Type 0
FunctionRegistry F = List (String × F)

module _ {F : Type 0} where
  unfoldable pub register_function :
      String → Option F → FunctionRegistry F → Option (FunctionRegistry F)
  register_function x none r = none
  register_function x (some f) r = some (insert x f r)

  unfoldable pub get_function : String → FunctionRegistry F → Option F
  get_function x r = lookup x r

  unfoldable pub has_function : String → FunctionRegistry F → Bool
  has_function x r = elim (lookup x r) [ none ↦ false | some _ ↦ true ]

  unfoldable pub get_function_names : FunctionRegistry F → List String
  get_function_names r = map (λ (p : String × F). p.0) r

  unfoldable pub clear : FunctionRegistry F → FunctionRegistry F
  clear r = []
