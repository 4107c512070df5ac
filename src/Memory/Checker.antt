-- ===== src/Memory/Checker.antt =====
-- src/frontend/memory_checker.{hh,cpp}: the walk over a program. The state stands in Memory/State.antt.
pub mod Access
pub mod Usable
pub mod Scopes
pub mod Moves
pub mod Rejects
use Prim.Native.String.{◌++◌ as str_append}
use text.Mathlib.Text.{◌==◌ as str_eq}
use limitly.Prelude.{
  ℕ, ◌+◌, Bool, true, false, not, ◌&&◌, String, List, [], ◌∷◌, ◌++◌, is_empty, ltb, insert,
  contains, string_eq, if◌then◌else◌,
}
pub use limitly.Memory.State.{Report, Checker}
unfoldable pub use limitly.Memory.State.{
  mark_variable_initialized, mark_variable_moved, is_variable_initialized, is_variable_moved,
  enter_memory_region, exit_memory_region, debugger_error, add_error, add_memory_error,
  use_after_move, use_before_init,
}
use limitly.Memory.State.{variable_message}
use limitly.Memory.Ast.{
  Expr, null_expr, variable_expr, call_expr, binary_expr, unary_expr, grouping_expr, Exprs,
  no_exprs, more_exprs, Stmt, null_stmt, var_declaration, block_statement, expr_statement,
  if_statement, while_statement, for_statement, function_declaration, Stmts, no_stmts, more_stmts,
}

unfoldable pub check_variable_access : String → ℕ → Checker → Checker
unfolding is_variable_moved is_variable_initialized
check_variable_access x line s =
    if is_variable_moved x s
    then use_after_move x line s
    else if not (is_variable_initialized x s)
    then use_before_init x line s
    else s

-- The second look that `check_function_call` takes at an argument that is a variable.
unfoldable pub check_argument : Expr → Checker → Checker
unfolding is_variable_moved
check_argument (variable_expr x line _) s =
    if is_variable_moved x s then use_after_move x line s else s
check_argument _ s = s

unfoldable mutual
  pub check_expression : Expr → Checker → Checker
  check_expression (variable_expr x line _) s = check_variable_access x line s
  check_expression (call_expr _ args _) s = check_function_call args s
  check_expression (binary_expr l r) s = check_expression r (check_expression l s)
  check_expression (unary_expr r) s = check_expression r s
  check_expression (grouping_expr e) s = check_expression e s
  check_expression _ s = s

  pub check_function_call : Exprs → Checker → Checker
  check_function_call no_exprs s = s
  check_function_call (more_exprs a rest) s =
      check_function_call rest (check_argument a (check_expression a s))

-- The move that a declaration or an assignment makes when its value is a variable.
unfoldable pub move_from : Expr → Checker → Checker
unfolding is_variable_moved mark_variable_moved
move_from (variable_expr x line is_function) s =
    if is_variable_moved x s
    then use_after_move x line s
    else if is_function
    then s
    else mark_variable_moved x s
move_from _ s = s

-- A function over a null pointer or a node: what the initializer of a declaration adds.
unfoldable pub initialize : String → Expr → Checker → Checker
unfolding mark_variable_initialized
initialize x null_expr s = s
initialize x e s = move_from e (mark_variable_initialized x (check_expression e s))

unfoldable pub check_var_declaration : String → ℕ → Bool → Expr → Checker → Checker
check_var_declaration x line has_type init s =
    if has_type
    then initialize x init (record s {
      variable_regions = insert x s.current_region_id s.variable_regions;
      variable_generations = insert x s.current_generation s.variable_generations;
    })
    else add_error (variable_message x "' has no inferred type - type checker must run first") line
        s

-- No statement is an `AssignExpr`, so that nothing calls this function.
unfoldable pub check_assignment : String → Expr → Checker → Checker
unfolding mark_variable_initialized
check_assignment x value s =
    mark_variable_initialized x (move_from value (check_expression value s))

-- What `check_block_statement` does around the block's statements: the two sets are those from
-- before it, and a generation passes.
unfoldable pub leave_block : Checker → Checker → Checker
unfolding exit_memory_region
leave_block saved s = exit_memory_region (record s {
  moved_variables = saved.moved_variables;
  initialized_variables = saved.initialized_variables;
})

unfoldable mutual
  pub check_statement : Stmt → Checker → Checker
  check_statement null_stmt s = s
  check_statement (var_declaration x line has_type init) s =
      check_var_declaration x line has_type init s
  check_statement (block_statement b) s =
      leave_block (enter_memory_region s) (check_statements b (enter_memory_region s))
  check_statement (expr_statement e) s = check_expression e s
  check_statement (if_statement c t e) s =
      check_statement e (check_statement t (check_expression c s))
  check_statement (while_statement c b) s = check_statement b (check_expression c s)
  check_statement (for_statement i c n b) s =
      check_statement b (check_expression n (check_expression c (check_statement i s)))
  check_statement _ s = s

  -- The loop over the statements of a block or of the program.
  pub check_statements : Stmts → Checker → Checker
  check_statements no_stmts s = s
  check_statements (more_stmts t ts) s = check_statements ts (check_statement t s)

-- The names of the function declarations among the statements of the program.
unfoldable pub function_names : Stmts → List String
function_names no_stmts = []
function_names (more_stmts (function_declaration f _ _) ts) = f ∷ function_names ts
function_names (more_stmts _ ts) = function_names ts

-- The state that `check_program` starts from; `imported` are the names of `imported_symbols`.
unfoldable pub start : List String → Stmts → String → String → Checker
unfolding enter_memory_region function_names
start imported program source filename = enter_memory_region (record {
  variable_regions = [];
  moved_variables = [];
  initialized_variables = function_names program ++ imported;
  variable_generations = [];
  current_source = source;
  current_file_path = filename;
  reports = [];
  current_region_id = 0;
  current_generation = 0;
})

-- `insert_memory_operations`, which follows the check of each statement of the program: the region
-- and the generation that the statement is marked with.
unfoldable pub memory_infos : Stmts → Checker → List (ℕ × ℕ)
memory_infos no_stmts s = []
memory_infos (more_stmts t ts) s =
    let u = check_statement t s in (u.current_region_id, u.current_generation) ∷ memory_infos ts u

pub record MemoryCheckResult : Type 0 where
  pub success : Bool
  pub infos : List (ℕ × ℕ)
  pub final : Checker

-- `had_error` is what `Debugger::hasError()` answers before the phase.
unfoldable pub check_program : Bool → List String → Stmts → String → String → MemoryCheckResult
check_program had_error imported program source filename =
    let s = start imported program source filename in
    let t = check_statements program s in
    record {
      success = not had_error && is_empty t.reports;
      infos = memory_infos program s;
      final = t;
    }
