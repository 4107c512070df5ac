-- ===== src/Modules/Tests.antt =====
-- The module manager on two modules.
use limitly.Prelude.{
  Bool, true, false, Option, none, some, String, string_eq, List, [], ◌∷◌, ◌≡◌, ◌↔◌, refl, sym, ap,
  subst, ◌∙◌, All, contains, arith, Bool-cases, inl, inr, if◌then◌else◌,
}
use limitly.Modules.Manager.{
  Module, Modules, TopStatement, ImportFilterType, imports, resolve_all, read_module,
  filter_symbols, find_module_file, extract_metadata, extract_all, extract_from,
}
use limitly.Modules.Manager.Filter.{contains-filter_symbols}
use limitly.Modules.Manager.Dfs.{get_topological_order, has_circular_dependencies}
use limitly.Modules.Manager.Dfs.State.{IsOrder}
use limitly.Modules.Manager.Dfs.Each.{Cycle}
use limitly.Modules.Manager.Dfs.Search.{deps_of}
use limitly.Modules.Manager.Dfs.Cycles.{
  has_circular_dependencies_iff, get_topological_order-IsOrder,
}
use limitly.Modules.Manager.Loading.{IsImportClosed, Finishes, resolve_all-Finishes}

abbrev test_module : String → List String → Module
test_module name deps = record {
  name = name;
  path = name;
  source = "";
  ast = [];
  dependencies = deps;
  public_symbols = "f" ∷ ("g" ∷ []);
}

-- `b` imports `c`, for which there is no module.
abbrev two_modules : Modules
two_modules = ("a", test_module "a" ("b" ∷ [])) ∷ (("b", test_module "b" ("c" ∷ [])) ∷ [])

has_circular_dependencies_iff_example :
    (b : Bool) × (has_circular_dependencies two_modules 5 ≡ some b)
    × ((b ≡ true) ↔ Cycle two_modules)
has_circular_dependencies_iff_example = has_circular_dependencies_iff two_modules 5 (omega arith)

get_topological_order-IsOrder_example :
    (order : List String) × (get_topological_order two_modules 5 ≡ some order)
    × IsOrder two_modules [] order
    × (has_circular_dependencies two_modules 5 ≡ some false
        → All (λ e. contains e.0 order ≡ true) two_modules)
get_topological_order-IsOrder_example = get_topological_order-IsOrder two_modules 5 (omega arith)

contains-filter_symbols_example :
    contains "f" (
      filter_symbols
        (some (test_module "a" []))
        (some (record { type = ImportFilterType.hide; identifiers = "g" ∷ [] })))
    ≡ true
unfolding contains
contains-filter_symbols_example =
    contains-filter_symbols (test_module "a" [])
      (some (record { type = ImportFilterType.hide; identifiers = "g" ∷ [] })) "f"

abbrev test_file : String → Option String
test_file p = if string_eq.beq p "lib/a.lm" then some "a" else none

abbrev test_parse : String → String → Option (List TopStatement)
test_parse source p = some (TopStatement.import_statement "lib.b" ∷ [])

abbrev test_universe : List String
test_universe = "lib.a" ∷ ("lib.b" ∷ [])

test_dependencies :
    (p : String) (m : Module)
    → read_module test_file test_parse p ≡ some m
    → m.dependencies ≡ "lib.b" ∷ []
unfolding read_module extract_metadata extract_all extract_from
test_dependencies p m e = elim (Bool-cases (string_eq.beq (find_module_file p) "lib/a.lm")) [
  | inl h ↦ sym (ap deps_of e) ∙ rw (read_module, h) refl
  | inr h ↦
      let n : read_module test_file test_parse p ≡ none = rw (read_module, h) refl in
      absurd (ground (arith, n, e))
]

test_universe-IsImportClosed : IsImportClosed test_file test_parse test_universe
unfolding contains
test_universe-IsImportClosed p m d i e c =
    let h = subst (λ l. contains d l ≡ true) (test_dependencies p m e) c in ground (arith, h)

resolve_all-Finishes_example :
    Finishes test_file test_parse
      (imports (TopStatement.import_statement "lib.a" ∷ []))
      []
      (resolve_all test_file test_parse 3 (TopStatement.import_statement "lib.a" ∷ []) [])
unfolding imports contains
resolve_all-Finishes_example =
    resolve_all-Finishes test_file test_parse test_universe test_universe-IsImportClosed 3
      (TopStatement.import_statement "lib.a" ∷ []) (λ n c. ground (arith, c)) (omega arith)
