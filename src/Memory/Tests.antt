-- ===== src/Memory/Tests.antt =====
-- The memory checker (src/frontend/memory_checker.cpp) on small programs.
use limitly.Prelude.{
  ◌∷◌, ◌&&◌, ◌≤◌, ◌<◌, ◌≡◌, refl, ◌↔◌, true, false, [], ◌++◌, contains, insert, string_eq,
}
use limitly.Memory.Ast.{
  Expr, variable_expr, call_expr, binary_expr, other_expr, no_exprs, more_exprs, Stmt,
  var_declaration, block_statement, expr_statement, if_statement, null_stmt, no_stmts, more_stmts,
}
use limitly.Memory.Checker.{
  Checker, check_expression, check_statement, check_program, start, check_var_declaration,
  initialize, move_from, check_variable_access, check_argument, leave_block, enter_memory_region,
}
use limitly.Memory.Checker.Access.{accesses, reports_of, check_expression-accesses}
use limitly.Memory.Checker.Usable.{
  checked_reads, reads, skipped_reads, checked_reads, all_usable, check_expression-silent_iff,
}
use limitly.Memory.Checker.Scopes.{Grows, check_statement-Grows, check_block-restores}
use limitly.Memory.Checker.Moves.{reads_checked, append_stmts}
use limitly.Memory.Checker.Rejects.{use_after_move_rejected}

-- var a = 1
abbrev declare_a : Stmt
declare_a = var_declaration "a" 1 true (other_expr no_exprs)

-- var b = a
abbrev move_a : Stmt
move_a = var_declaration "b" 2 true (variable_expr "a" 2 false)

-- if (1) { f(a + a) }
abbrev use_a : Stmt
use_a =
    if_statement (other_expr no_exprs)
      (block_statement (
        more_stmts
          (expr_statement (
            call_expr (variable_expr "f" 3 true)
              (more_exprs (binary_expr (variable_expr "a" 3 false) (variable_expr "a" 3 false))
                no_exprs)
              no_exprs))
          no_stmts))
      null_stmt

abbrev empty_state : Checker
empty_state = record {
  variable_regions = [];
  moved_variables = [];
  initialized_variables = [];
  variable_generations = [];
  current_source = "source";
  current_file_path = "file";
  reports = [];
  current_region_id = 1;
  current_generation = 1;
}

use_after_move_rejected_example :
    (check_program false []
      (append_stmts (more_stmts declare_a no_stmts) (more_stmts move_a (more_stmts use_a no_stmts)))
      "source"
      "file").success
    ≡ false
unfolding reads_checked checked_reads contains
use_after_move_rejected_example =
    use_after_move_rejected false [] (more_stmts declare_a no_stmts) (more_stmts use_a no_stmts)
      "source" "file" "a" "b" 2 2 refl

-- The same program with the move inside a block is accepted.
move_in_block_accepted :
    (check_program false []
      (more_stmts declare_a
        (more_stmts (block_statement (more_stmts move_a no_stmts)) (more_stmts use_a no_stmts)))
      "source"
      "file").success
    ≡ true
unfolding check_program start check_statement check_expression check_var_declaration initialize
    move_from check_variable_access check_argument leave_block enter_memory_region contains insert
move_in_block_accepted = refl

-- f(a, b = 1)
abbrev call_f : Expr
call_f =
    call_expr (variable_expr "f" 3 true) (more_exprs (variable_expr "a" 3 false) no_exprs)
      (more_exprs (other_expr no_exprs) no_exprs)

check_expression-silent_iff_example :
    (((check_expression call_f empty_state).reports ≡ [])
      ↔ (all_usable empty_state ("a" ∷ []) ≡ true))
    × (all_usable empty_state ("f" ∷ ("a" ∷ []))
        ≡ (all_usable empty_state ("a" ∷ []) && all_usable empty_state ("f" ∷ [])))
unfolding reads checked_reads skipped_reads
check_expression-silent_iff_example = check_expression-silent_iff call_f empty_state

check_expression-accesses_example :
    check_expression (variable_expr "a" 3 false) empty_state ≡ record empty_state {
      reports = [] ++ reports_of empty_state (accesses (variable_expr "a" 3 false));
    }
check_expression-accesses_example =
    check_expression-accesses (variable_expr "a" 3 false) empty_state

check_statement-Grows_example : Grows empty_state (check_statement use_a empty_state)
check_statement-Grows_example = check_statement-Grows use_a empty_state

check_block-restores_example :
    let t = check_statement (block_statement (more_stmts move_a no_stmts)) empty_state in
    (t.moved_variables ≡ [])
    × (t.initialized_variables ≡ [])
    × (1 < t.current_region_id)
    × (3 ≤ t.current_generation)
check_block-restores_example = check_block-restores (more_stmts move_a no_stmts) empty_state
