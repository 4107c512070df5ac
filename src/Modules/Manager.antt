-- ===== src/Modules/Manager.antt =====
-- src/frontend/module_manager.cpp and src/frontend/module_manager.hh. `modules_` is the list of its
-- entries, in the order in which the code iterates over them. Reading a file, and the scanner with the
-- parser, are parameters. A string set is a list; the locks, and the threads that load
-- the modules of a round, whose results are taken in order, have no counterpart.
pub mod Loading
pub mod Filter
pub mod Dfs
use limitly.Prelude.{
  ℕ, zero, suc, ◌+◌, Bool, true, false, not, ◌&&◌, ◌||◌, Option, none, some, String, string_eq,
  List, [], ◌∷◌, ◌++◌, length, ◌==◌, if◌then◌else◌, lookup, insert, contains, remove, is_empty,
}
use Prim.Native.Char.{Char, code}
use Prim.Native.String.{[] as empty, ◌∷◌ as ◌::◌, ◌++◌ as ◌^^◌}

-- The statements that the manager looks at.
pub data TopStatement : Type 0 where
  function_declaration : String → TopStatement
  var_declaration : String → TopStatement
  frame_declaration : String → TopStatement
  import_statement : String → TopStatement
  other_statement : TopStatement

-- `Module`, less the fields that other parts set
pub record Module : Type 0 where
  pub name : String
  pub path : String
  pub source : String
  pub ast : List TopStatement
  pub dependencies : List String
  pub public_symbols : List String

-- `std::replace(filePath.begin(), filePath.end(), '.', "/")`
unfoldable pub dots_to_slashes : String → String
dots_to_slashes empty = ""
dots_to_slashes (c :: s) = (if code c == 46 then "/" else c) :: dots_to_slashes s

-- `find_module_file`
unfoldable pub find_module_file : String → String
unfolding dots_to_slashes
find_module_file module_path = dots_to_slashes module_path ^^ ".lm"

abbrev pub Modules : Type 0
Modules = List (String × Module)

-- `set.insert(x)`
unfoldable pub set_insert : String → List String → List String
unfolding contains
set_insert x s = if contains x s then s else s ++ (x ∷ [])

-- One statement of the loop of `extract_metadata`.
unfoldable pub extract_from : TopStatement → Module → Module
unfolding set_insert
extract_from (TopStatement.function_declaration x) m = record m {
  public_symbols = set_insert x m.public_symbols;
}
extract_from (TopStatement.var_declaration x) m = record m {
  public_symbols = set_insert x m.public_symbols;
}
extract_from (TopStatement.frame_declaration x) m = record m {
  public_symbols = set_insert x m.public_symbols;
}
extract_from (TopStatement.import_statement path) m = record m {
  dependencies = m.dependencies ++ (path ∷ []);
}
extract_from TopStatement.other_statement m = m

unfoldable pub extract_all : List TopStatement → Module → Module
unfolding extract_from
extract_all [] m = m
extract_all (stmt ∷ stmts) m = extract_all stmts (extract_from stmt m)

unfoldable pub extract_metadata : Module → Module
unfolding extract_all
extract_metadata m = extract_all m.ast m

-- `get_module`, `get_module_unlocked`
unfoldable pub get_module : Modules → String → Option Module
unfolding lookup
get_module modules name = lookup name modules

-- A copy of the map.
unfoldable pub get_all_modules : Modules → Modules
get_all_modules modules = modules

unfoldable pub clear : Modules → Modules
clear modules = []

-- `modules_.count(name)`
abbrev pub is_loaded : Modules → String → Bool
is_loaded modules name = elim (get_module modules name) [ none ↦ false | some _ ↦ true ]

-- The import statements of a program, in order.
unfoldable pub imports : List TopStatement → List String
imports [] = []
imports (TopStatement.function_declaration x ∷ stmts) = imports stmts
imports (TopStatement.var_declaration x ∷ stmts) = imports stmts
imports (TopStatement.frame_declaration x ∷ stmts) = imports stmts
imports (TopStatement.import_statement path ∷ stmts) = path ∷ imports stmts
imports (TopStatement.other_statement ∷ stmts) = imports stmts

-- The first loop of a round of `resolve_all`: the paths to load, and `processing` after it.
unfoldable pub select : Modules → List String → List String → List String × List String
unfolding contains get_module
select modules [] processing = ([], processing)
select modules (path ∷ worklist) processing =
    let later = select modules worklist processing in
    let rest = select modules worklist (path ∷ processing) in
    if is_loaded modules path || contains path processing then later else (path ∷ rest.0, rest.1)

module _ (read_file : String → Option String)
    (parse : String → String → Option (List TopStatement)) where
  -- What `load_module` makes of a path that is not loaded.
  unfoldable pub read_module : String → Option Module
  unfolding find_module_file extract_metadata
  read_module module_path =
      let file_path = find_module_file module_path in
      elim (read_file file_path) [
        | none ↦ none
        | some source ↦ elim (parse source file_path) [
          | none ↦ none
          | some ast ↦ some (
              extract_metadata (record {
                name = module_path;
                path = file_path;
                source = source;
                ast = ast;
                dependencies = [];
                public_symbols = [];
              }))
        ]
      ]

  unfoldable pub load_module : Modules → String → Option Module × Modules
  unfolding read_module get_module insert
  load_module modules module_path = elim (get_module modules module_path) [
    | some m ↦ (some m, modules)
    | none ↦ elim (read_module module_path) [
      | none ↦ (none, modules)
      | some m ↦ (some m, insert module_path m modules)
    ]
  ]

  -- The second loop of a round: the modules are loaded, and their dependencies are the next worklist.
  unfoldable pub load_all : List String → Modules → List String × Modules
  unfolding load_module
  load_all [] modules = ([], modules)
  load_all (path ∷ paths) modules =
      let loaded = load_module modules path in
      let rest = load_all paths loaded.1 in
      elim loaded.0 [ none ↦ rest | some m ↦ (m.dependencies ++ rest.0, rest.1) ]

  -- The loop of `resolve_all`; `none` when the fuel runs out.
  unfoldable pub resolve_rounds : ℕ → List String → List String → Modules → Option Modules
  unfolding select load_all
  resolve_rounds fuel [] processing modules = some modules
  resolve_rounds zero (path ∷ worklist) processing modules = none
  resolve_rounds (suc fuel) (path ∷ worklist) processing modules =
      let selected = select modules (path ∷ worklist) processing in
      let loaded = load_all selected.0 modules in resolve_rounds fuel loaded.0 selected.1 loaded.1

  unfoldable pub resolve_all : ℕ → List TopStatement → Modules → Option Modules
  unfolding resolve_rounds imports
  resolve_all fuel root_program modules = resolve_rounds fuel (imports root_program) [] modules

-- `ImportFilterType` and `ImportFilter`
pub data ImportFilterType : Type 0 where
  show : ImportFilterType
  hide : ImportFilterType

pub record ImportFilter : Type 0 where
  pub type : ImportFilterType
  pub identifiers : List String

-- The loops over the identifiers of a filter.
unfoldable pub show_symbols : List String → List String → List String → List String
unfolding contains set_insert
show_symbols symbols [] result = result
show_symbols symbols (id ∷ ids) result =
    show_symbols symbols ids (if contains id symbols then set_insert id result else result)

unfoldable pub hide_symbols : List String → List String → List String
unfolding remove
hide_symbols [] result = result
hide_symbols (id ∷ ids) result = hide_symbols ids (remove id result)

-- `none` is a null module, and no filter.
unfoldable pub filter_symbols : Option Module → Option ImportFilter → List String
unfolding show_symbols hide_symbols
filter_symbols none filter = []
filter_symbols (some m) none = m.public_symbols
filter_symbols (some m) (some f) = elim f.type [
  | ImportFilterType.show ↦ show_symbols m.public_symbols f.identifiers []
  | ImportFilterType.hide ↦ hide_symbols f.identifiers m.public_symbols
]
