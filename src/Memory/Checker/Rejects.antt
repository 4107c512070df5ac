-- ===== src/Memory/Checker/Rejects.antt =====
-- Uses after a move at the top level of a program (src/frontend/memory_checker.cpp).
use limitly.Prelude.{
  ℕ, ◌<◌, ◌≡◌, refl, Bool, true, false, not, ◌&&◌, String, List, [], ◌∷◌, is_empty, length,
  contains, string_eq, beq_refl, arith,
}
use limitly.Memory.Ast.{variable_expr, var_declaration, Stmts, more_stmts}
use limitly.Memory.Checker.{
  Report, Checker, is_variable_moved, use_after_move, add_memory_error, move_from, initialize,
  check_var_declaration, check_statement, check_statements, start, check_program,
}
use limitly.Memory.Checker.Moves.{
  any_reads_checked, append_stmts, check_statements-append, statements-Reports,
}

reported_keeps :
    (x : String) (at : ℕ) (s : Checker)
    → (use_after_move x at s).moved_variables ≡ s.moved_variables
unfolding use_after_move add_memory_error
reported_keeps x at s = refl

move_from-moves :
    (x : String) (at : ℕ) (s : Checker)
    → contains x (move_from (variable_expr x at false) s).moved_variables ≡ true
unfolding move_from is_variable_moved contains
move_from-moves x at s = ground (arith, beq_refl x, reported_keeps x at s)

-- After a declaration whose value is a variable of no function type, that variable is moved.
declaration-moves :
    (x y : String) (line at : ℕ) (s : Checker)
    → contains x
        (check_statement (var_declaration y line true (variable_expr x at false)) s).moved_variables
      ≡ true
unfolding check_statement check_var_declaration initialize
declaration-moves x y line at s = move_from-moves x at _

not_empty : (n : ℕ) (xs : List Report) → n < length xs → is_empty xs ≡ false
not_empty n [] h = absurd (omega arith)
not_empty n (x ∷ xs) h = refl

-- A program is rejected if a statement at its top level is a declaration with an inferred type whose
-- initializer is a variable of no function type, and a later statement reads that variable again, at
-- any depth of blocks, branches and loops, where the checker looks: not in a callee, a named argument,
-- an assignment, a function body, a declaration with no inferred type, or a node that the checker has
-- no case for. This holds whatever stands before, between and behind, and whatever was imported.
pub use_after_move_rejected :
    (had_error : Bool) (imported : List String) (before after : Stmts) (source filename : String)
    (x y : String) (line at : ℕ)
    → any_reads_checked x after ≡ true
    → (check_program had_error imported
        (append_stmts before
          (more_stmts (var_declaration y line true (variable_expr x at false)) after))
        source
        filename).success
      ≡ false
unfolding check_program check_statement
use_after_move_rejected had_error imported before after source filename x y line at h =
    let decl = var_declaration y line true (variable_expr x at false) in
    let s = start imported (append_stmts before (more_stmts decl after)) source filename in
    let t = check_statements before s in
    let r =
      statements-Reports x after (check_statement decl t) (declaration-moves x y line at t) h in
    rw check_statements-append (rejected had_error _ (not_empty _ _ r.more))
  where
    rejected : (b e : Bool) → e ≡ false → (not b && e) ≡ false
    rejected true e p = refl
    rejected false e p = p
