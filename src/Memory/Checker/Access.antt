-- ===== src/Memory/Checker/Access.antt =====
-- What the memory checker (src/frontend/memory_checker.cpp) says of an expression.
use limitly.Prelude.{
  ℕ, ◌≡◌, refl, sym, ap, ◌∙◌, String, List, [], ◌∷◌, ◌++◌, append_assoc, append-nil, string_eq,
  if◌then◌else◌, arith,
}
use limitly.Memory.Ast.{
  Expr, variable_expr, call_expr, binary_expr, unary_expr, grouping_expr, Exprs, no_exprs,
  more_exprs,
}
use limitly.Memory.Checker.{
  Report, Checker, is_variable_moved, is_variable_initialized, add_memory_error, use_after_move,
  use_before_init, check_variable_access, check_argument, check_expression, check_function_call,
}

pub data Access : Type 0 where
  -- a variable that is read, on a line
  read : String → ℕ → Access
  -- a variable that stands as an argument of a call
  argument : String → ℕ → Access

unfoldable pub argument_access : Expr → List Access
argument_access (variable_expr x line _) = argument x line ∷ []
argument_access _ = []

-- The accesses that the checker looks at in an expression, from left to right: those outside of
-- callees, named arguments, assignments and the nodes that it has no case for.
unfoldable mutual
  pub accesses : Expr → List Access
  accesses (variable_expr x line _) = read x line ∷ []
  accesses (call_expr _ args _) = argument_accesses args
  accesses (binary_expr l r) = accesses l ++ accesses r
  accesses (unary_expr r) = accesses r
  accesses (grouping_expr e) = accesses e
  accesses _ = []

  pub argument_accesses : Exprs → List Access
  argument_accesses no_exprs = []
  argument_accesses (more_exprs a rest) =
      accesses a ++ (argument_access a ++ argument_accesses rest)

-- The state with no report yet, whose reports after a call are those of the call.
abbrev silent : Checker → Checker
silent s = record s { reports = [] }

-- A moved variable is reported at each access, one that is not initialized where it is read.
unfoldable pub access_reports : Checker → Access → List Report
access_reports s (read x line) =
    if is_variable_moved x s
    then (use_after_move x line (silent s)).reports
    else if is_variable_initialized x s
    then []
    else (use_before_init x line (silent s)).reports
access_reports s (argument x line) =
    if is_variable_moved x s then (use_after_move x line (silent s)).reports else []

unfoldable pub reports_of : Checker → List Access → List Report
reports_of s [] = []
reports_of s (a ∷ as') = access_reports s a ++ reports_of s as'

abbrev pub reporting : Checker → List Report → Checker
reporting s new = record s { reports = s.reports ++ new }

reports_of-reporting :
    (s : Checker) (new : List Report) (xs : List Access)
    → reports_of (reporting s new) xs ≡ reports_of s xs
unfolding reports_of access_reports is_variable_moved is_variable_initialized use_after_move
    use_before_init add_memory_error
reports_of-reporting s new [] = refl
reports_of-reporting s new (read x line ∷ xs) = rw (reports_of-reporting s new xs)
reports_of-reporting s new (argument x line ∷ xs) = rw (reports_of-reporting s new xs)

reports_of-append :
    (s : Checker) (xs ys : List Access)
    → reports_of s (xs ++ ys) ≡ reports_of s xs ++ reports_of s ys
unfolding reports_of
reports_of-append s [] ys = refl
reports_of-append s (x ∷ xs) ys = rw (reports_of-append s xs ys, append_assoc)

-- Two checks in a row report what each reports in the first state.
check_twice :
    (f g : Checker → Checker) (s : Checker) (xs ys : List Access)
    → ((t : Checker) → f t ≡ reporting t (reports_of t xs))
    → ((t : Checker) → g t ≡ reporting t (reports_of t ys))
    → g (f s) ≡ reporting s (reports_of s (xs ++ ys))
check_twice f g s xs ys p q =
    ap g (p s)
    ∙ q (reporting s (reports_of s xs))
    ∙ ap (λ n. record s { reports = (s.reports ++ reports_of s xs) ++ n })
        (reports_of-reporting s (reports_of s xs) ys)
    ∙ ap (λ r. record s { reports = r })
        (append_assoc s.reports _ _ ∙ ap (λ n. s.reports ++ n) (sym (reports_of-append s xs ys)))

check_nothing : (s : Checker) → s ≡ reporting s []
check_nothing s = ap (λ r. record s { reports = r }) (sym (append-nil s.reports))

moved_reports :
    (x : String) (line : ℕ) (s : Checker)
    → use_after_move x line s ≡ reporting s (use_after_move x line (silent s)).reports
unfolding use_after_move add_memory_error
moved_reports x line s = refl

unset_reports :
    (x : String) (line : ℕ) (s : Checker)
    → use_before_init x line s ≡ reporting s (use_before_init x line (silent s)).reports
unfolding use_before_init add_memory_error
unset_reports x line s = refl

check_read :
    (x : String) (line : ℕ) (s : Checker)
    → check_variable_access x line s ≡ reporting s (reports_of s (read x line ∷ []))
unfolding check_variable_access reports_of access_reports
check_read x line s = ground (
  arith,
  moved_reports x line s,
  unset_reports x line s,
  check_nothing s,
  append-nil s.reports,
  append-nil (use_after_move x line (silent s)).reports,
  append-nil (use_before_init x line (silent s)).reports,
)

check_argument_lem :
    (a : Expr) (s : Checker) → check_argument a s ≡ reporting s (reports_of s (argument_access a))
unfolding check_argument argument_access reports_of access_reports
check_argument_lem (variable_expr x line f) s = ground (
  arith,
  moved_reports x line s,
  check_nothing s,
  append-nil s.reports,
  append-nil (use_after_move x line (silent s)).reports,
)
check_argument_lem _ s = check_nothing s

mutual
  unfolding check_expression accesses reports_of

  check_accesses :
      (e : Expr) (s : Checker) → check_expression e s ≡ reporting s (reports_of s (accesses e))
  check_accesses (variable_expr x line f) s = check_read x line s
  check_accesses (call_expr _ args _) s = check_call_accesses args s
  check_accesses (binary_expr l r) s =
      check_twice (check_expression l) (check_expression r) s (accesses l) (accesses r)
        (check_accesses l) (check_accesses r)
  check_accesses (unary_expr r) s = check_accesses r s
  check_accesses (grouping_expr e) s = check_accesses e s
  check_accesses _ s = check_nothing s

  check_call_accesses :
      (args : Exprs) (s : Checker)
      → check_function_call args s ≡ reporting s (reports_of s (argument_accesses args))
  check_call_accesses no_exprs s = check_nothing s
  check_call_accesses (more_exprs a rest) s =
      check_twice (check_expression a) (λ t. check_function_call rest (check_argument a t)) s
        (accesses a) (argument_access a ++ argument_accesses rest) (check_accesses a)
        (λ t.
          check_twice (check_argument a) (check_function_call rest) t (argument_access a)
            (argument_accesses rest) (check_argument_lem a) (check_call_accesses rest))

-- The check of an expression changes nothing but the reports, and adds the reports of the accesses
-- that it looks at (those outside of callees, named arguments, assignments and the nodes that it has
-- no case for), from left to right, each judged by the variables that are moved or initialized before
-- the expression.
pub check_expression-accesses :
    (e : Expr) (s : Checker)
    → check_expression e s ≡ record s { reports = s.reports ++ reports_of s (accesses e) }
check_expression-accesses e s = check_accesses e s
