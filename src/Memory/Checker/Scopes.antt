-- ===== src/Memory/Checker/Scopes.antt =====
-- How the memory checker (src/frontend/memory_checker.cpp) moves its state over statements.
use limitly.Prelude.{
  append-nil, sym, append_assoc, ◌∙◌, ap, ℕ, ◌+◌, ◌≤◌, ◌<◌, ◌≡◌, refl, Bool, true, false, String,
  List, ◌++◌, length, length-append, contains, string_eq, if◌then◌else◌, arith,
}
use limitly.Memory.Ast.{
  Exprs, Expr, null_expr, variable_expr, assign_expr, Stmt, null_stmt, var_declaration,
  block_statement, expr_statement, if_statement, while_statement, for_statement, Stmts, no_stmts,
  more_stmts,
}
use limitly.Memory.Checker.{
  [], Report, Checker, is_variable_moved, add_memory_error, add_error, use_after_move,
  check_expression, move_from, initialize, mark_variable_initialized, mark_variable_moved,
  check_var_declaration, leave_block, enter_memory_region, check_statement, check_statements,
}
use limitly.Memory.Checker.Access.{check_expression-accesses}

-- The second list is the first one with more behind it.
pub record IsExtended {ℓ} {A : Type ℓ} (xs ys : List A) : Type ℓ where
  pub added : List A
  pub whole : ys ≡ xs ++ added

IsExtended-refl {ℓ} : {A : Type ℓ} (xs : List A) → IsExtended xs xs
IsExtended-refl xs = record { added = []; whole = sym (append-nil xs) }

IsExtended-trans {ℓ} :
    {A : Type ℓ} {xs ys zs : List A} → IsExtended xs ys → IsExtended ys zs → IsExtended xs zs
IsExtended-trans {xs = xs} p q = record {
  added = p.added ++ q.added;
  whole = q.whole ∙ ap (λ l. l ++ q.added) p.whole ∙ append_assoc xs p.added q.added;
}

-- `t` follows `s`: what was moved or initialized still is, the reports so far are the first ones of
-- the later ones, and generations and regions only grow.
pub record Grows (s t : Checker) : Type 0 where
  pub moved :
      (x : String) → contains x s.moved_variables ≡ true → contains x t.moved_variables ≡ true
  pub initialized :
      (x : String)
      → contains x s.initialized_variables ≡ true
      → contains x t.initialized_variables ≡ true
  pub reports : IsExtended s.reports t.reports
  pub generation : s.current_generation ≤ t.current_generation
  pub region : s.current_region_id ≤ t.current_region_id

Grows-refl : (s : Checker) → Grows s s
Grows-refl s = record {
  moved = λ x h. h;
  initialized = λ x h. h;
  reports = IsExtended-refl s.reports;
  generation = omega arith;
  region = omega arith;
}

pub Grows-trans : {s t u : Checker} → Grows s t → Grows t u → Grows s u
Grows-trans p q = record {
  moved = λ x h. q.moved x (p.moved x h);
  initialized = λ x h. q.initialized x (p.initialized x h);
  reports = IsExtended-trans p.reports q.reports;
  generation = omega (arith, p.generation, q.generation);
  region = omega (arith, p.region, q.region);
}

reporting-Grows :
    (s : Checker) (new : List Report) → Grows s (record s { reports = s.reports ++ new })
reporting-Grows s new = record {
  moved = λ x h. h;
  initialized = λ x h. h;
  reports = record { added = new; whole = refl };
  generation = omega arith;
  region = omega arith;
}

-- The number of reports does not fall.
pub Grows-length : {s t : Checker} → Grows s t → length s.reports ≤ length t.reports
Grows-length {s = s} g =
    omega (arith, ap (length {0}) g.reports.whole, length-append s.reports g.reports.added)

pub check_expression-Grows : (e : Expr) (s : Checker) → Grows s (check_expression e s)
check_expression-Grows e s = rw check_expression-accesses (reporting-Grows s _)

pub mark_initialized-Grows : (x : String) (s : Checker) → Grows s (mark_variable_initialized x s)
unfolding mark_variable_initialized
mark_initialized-Grows x s = record {
  moved = λ y h. h;
  initialized = λ y h. unfold contains in ground arith;
  reports = IsExtended-refl s.reports;
  generation = omega arith;
  region = omega arith;
}

mark_moved-Grows : (x : String) (s : Checker) → Grows s (mark_variable_moved x s)
unfolding mark_variable_moved
mark_moved-Grows x s = record {
  moved = λ y h. unfold contains in ground arith;
  initialized = λ y h. h;
  reports = IsExtended-refl s.reports;
  generation = omega arith;
  region = omega arith;
}

use_after_move-Grows : (x : String) (line : ℕ) (s : Checker) → Grows s (use_after_move x line s)
unfolding use_after_move add_memory_error
use_after_move-Grows x line s = reporting-Grows s _

if-Grows : (b : Bool) (s t u : Checker) → Grows s t → Grows s u → Grows s (if b then t else u)
if-Grows true s t u p q = p
if-Grows false s t u p q = q

pub move_from-Grows : (e : Expr) (s : Checker) → Grows s (move_from e s)
unfolding move_from
move_from-Grows (variable_expr x line f) s =
    if-Grows (is_variable_moved x s) s _ _ (use_after_move-Grows x line s)
      (if-Grows f s _ _ (Grows-refl s) (mark_moved-Grows x s))
move_from-Grows _ s = Grows-refl s

pub initialize-Grows : (x : String) (e : Expr) (s : Checker) → Grows s (initialize x e s)
unfolding initialize
initialize-Grows x null_expr s = Grows-refl s
initialize-Grows x e s =
    Grows-trans (check_expression-Grows e s)
      (Grows-trans (mark_initialized-Grows x _) (move_from-Grows e _))

check_var_declaration-Grows :
    (x : String) (line : ℕ) (has_type : Bool) (init : Expr) (s : Checker)
    → Grows s (check_var_declaration x line has_type init s)
unfolding check_var_declaration add_error
check_var_declaration-Grows x line true init s =
    Grows-trans
      (record {
        moved = λ y h. h;
        initialized = λ y h. h;
        reports = IsExtended-refl s.reports;
        generation = omega arith;
        region = omega arith;
      })
      (initialize-Grows x init _)
check_var_declaration-Grows x line false init s = reporting-Grows s _

enter-Grows : (s : Checker) → Grows s (enter_memory_region s)
unfolding enter_memory_region
enter-Grows s = record {
  moved = λ y h. h;
  initialized = λ y h. h;
  reports = IsExtended-refl s.reports;
  generation = omega arith;
  region = omega arith;
}

leave_block-Grows :
    (s t : Checker)
    → Grows (enter_memory_region s) t
    → Grows s (leave_block (enter_memory_region s) t)
unfolding leave_block enter_memory_region
leave_block-Grows s t g = record {
  moved = λ y h. h;
  initialized = λ y h. h;
  reports = record { added = g.reports.added; whole = g.reports.whole };
  generation = omega (arith, g.generation);
  region = omega (arith, g.region);
}

mutual
  unfolding check_statement

  statement-Grows : (t : Stmt) (s : Checker) → Grows s (check_statement t s)
  statement-Grows null_stmt s = Grows-refl s
  statement-Grows (var_declaration x line has_type init) s =
      check_var_declaration-Grows x line has_type init s
  statement-Grows (block_statement b) s =
      leave_block-Grows s _ (statements-Grows b (enter_memory_region s))
  statement-Grows (expr_statement e) s = check_expression-Grows e s
  statement-Grows (if_statement c t e) s =
      Grows-trans (check_expression-Grows c s)
        (Grows-trans (statement-Grows t _) (statement-Grows e _))
  statement-Grows (while_statement c b) s =
      Grows-trans (check_expression-Grows c s) (statement-Grows b _)
  statement-Grows (for_statement i c n b) s = Grows-trans (statement-Grows i s) (
      Grows-trans (check_expression-Grows c _)
        (Grows-trans (check_expression-Grows n _) (statement-Grows b _)))
  statement-Grows _ s = Grows-refl s

  statements-Grows : (ts : Stmts) (s : Checker) → Grows s (check_statements ts s)
  statements-Grows no_stmts s = Grows-refl s
  statements-Grows (more_stmts t ts) s = Grows-trans (statement-Grows t s) (statements-Grows ts _)

-- A statement takes nothing back: what was moved or initialized before it still is after it, the
-- reports after it are the ones before it, unchanged and in front, with the new ones behind them, and
-- generations and regions only grow.
pub check_statement-Grows : (t : Stmt) (s : Checker) → Grows s (check_statement t s)
check_statement-Grows t s = statement-Grows t s

pub check_statements-Grows : (ts : Stmts) (s : Checker) → Grows s (check_statements ts s)
check_statements-Grows ts s = statements-Grows ts s

-- A block leaves the moved and the initialized variables as they were before it, a move of an outer
-- variable inside the block included, and passes a region and two generations at least.
pub check_block-restores :
    (b : Stmts) (s : Checker)
    → let t = check_statement (block_statement b) s in
      (t.moved_variables ≡ s.moved_variables)
      × (t.initialized_variables ≡ s.initialized_variables)
      × (s.current_region_id < t.current_region_id)
      × (s.current_generation + 2 ≤ t.current_generation)
unfolding check_statement leave_block enter_memory_region
check_block-restores b s =
    let g = check_statements-Grows b (enter_memory_region s) in
    (refl, refl, omega (arith, g.region), omega (arith, g.generation))

-- An assignment that stands as a statement is not looked at: it leaves the state as it was.
pub check_assignment_statement :
    (x : String) (is_compound : Bool) (target : Exprs) (value : Expr) (s : Checker)
    → check_statement (expr_statement (assign_expr x is_compound target value)) s ≡ s
unfolding check_statement check_expression
check_assignment_statement x is_compound target value s = refl
