-- ===== src/Memory/Checker/Usable.antt =====
-- When the memory checker (src/frontend/memory_checker.cpp) accepts an expression.
use limitly.Prelude.{
  if◌then◌else◌, ◌≡◌, refl, sym, ap, ◌∙◌, ◌↔◌, Bool, true, not, ◌&&◌, String, List, [], ◌∷◌, ◌++◌,
  append-nil, is_empty, length, length-append, arith,
}
use limitly.Memory.Ast.{
  Expr, assign_expr, null_expr, other_expr, variable_expr, call_expr, binary_expr, unary_expr,
  grouping_expr, Exprs, no_exprs, more_exprs,
}
use limitly.Memory.Checker.{
  Report, Checker, is_variable_moved, is_variable_initialized, add_memory_error, use_after_move,
  use_before_init, check_expression,
}
use limitly.Memory.Checker.Access.{
  Access, read, argument, argument_access, accesses, argument_accesses, access_reports, reports_of,
  check_expression-accesses,
}

-- The variables that an expression reads, in all of its parts.
unfoldable mutual
  pub reads : Expr → List String
  reads null_expr = []
  reads (variable_expr x _ _) = x ∷ []
  reads (call_expr callee args named) = reads callee ++ (all_reads args ++ all_reads named)
  reads (binary_expr l r) = reads l ++ reads r
  reads (unary_expr r) = reads r
  reads (grouping_expr e) = reads e
  reads (assign_expr x is_compound target value) =
      (if is_compound then x ∷ [] else []) ++ (all_reads target ++ reads value)
  reads (other_expr es) = all_reads es

  pub all_reads : Exprs → List String
  all_reads no_exprs = []
  all_reads (more_exprs e rest) = reads e ++ all_reads rest

-- Those that stand in a part that the checker passes over: a callee, a named argument, an
-- assignment, or a node that it has no case for.
unfoldable mutual
  unfolding reads

  pub skipped_reads : Expr → List String
  skipped_reads (call_expr callee args named) =
      reads callee ++ (all_skipped_reads args ++ all_reads named)
  skipped_reads (binary_expr l r) = skipped_reads l ++ skipped_reads r
  skipped_reads (unary_expr r) = skipped_reads r
  skipped_reads (grouping_expr e) = skipped_reads e
  skipped_reads (assign_expr x is_compound target value) =
      reads (assign_expr x is_compound target value)
  skipped_reads (other_expr es) = all_reads es
  skipped_reads _ = []

  pub all_skipped_reads : Exprs → List String
  all_skipped_reads no_exprs = []
  all_skipped_reads (more_exprs e rest) = skipped_reads e ++ all_skipped_reads rest

-- All others.
unfoldable mutual
  pub checked_reads : Expr → List String
  checked_reads (variable_expr x _ _) = x ∷ []
  checked_reads (call_expr _ args _) = all_checked_reads args
  checked_reads (binary_expr l r) = checked_reads l ++ checked_reads r
  checked_reads (unary_expr r) = checked_reads r
  checked_reads (grouping_expr e) = checked_reads e
  checked_reads _ = []

  pub all_checked_reads : Exprs → List String
  all_checked_reads no_exprs = []
  all_checked_reads (more_exprs e rest) = checked_reads e ++ all_checked_reads rest

-- Initialized and not moved.
abbrev pub is_usable : Checker → String → Bool
is_usable s x = is_variable_initialized x s && not (is_variable_moved x s)

unfoldable pub all_usable : Checker → List String → Bool
all_usable s [] = true
all_usable s (x ∷ xs) = is_usable s x && all_usable s xs

is_quiet : Checker → Access → Bool
is_quiet s (read x line) = is_usable s x
is_quiet s (argument x line) = not (is_variable_moved x s)

all_quiet : Checker → List Access → Bool
all_quiet s [] = true
all_quiet s (a ∷ rest) = is_quiet s a && all_quiet s rest

all_quiet-append :
    (s : Checker) (xs ys : List Access)
    → all_quiet s (xs ++ ys) ≡ (all_quiet s xs && all_quiet s ys)
unfolding all_quiet
all_quiet-append s [] ys = refl
all_quiet-append s (x ∷ xs) ys = ground (arith, all_quiet-append s xs ys)

all_usable-append :
    (s : Checker) (xs ys : List String)
    → all_usable s (xs ++ ys) ≡ (all_usable s xs && all_usable s ys)
unfolding all_usable
all_usable-append s [] ys = refl
all_usable-append s (x ∷ xs) ys = ground (arith, all_usable-append s xs ys)

quiet-is_empty : (s : Checker) (xs : List Access) → is_empty (reports_of s xs) ≡ all_quiet s xs
unfolding all_quiet is_quiet reports_of access_reports use_after_move use_before_init
    add_memory_error
quiet-is_empty s [] = refl
quiet-is_empty s (read x line ∷ xs) = ground (arith, quiet-is_empty s xs)
quiet-is_empty s (argument x line ∷ xs) = ground (arith, quiet-is_empty s xs)

argument-quiet :
    (a : Expr) (s : Checker)
    → (all_usable s (checked_reads a) && all_quiet s (argument_access a))
      ≡ all_usable s (checked_reads a)
unfolding all_usable all_quiet is_quiet checked_reads argument_access
argument-quiet (variable_expr x line f) s = ground arith
argument-quiet (call_expr _ args _) s = ground arith
argument-quiet _ s = ground arith

and_regroup : (p q r u v : Bool) → p ≡ u → r ≡ v → (u && q) ≡ u → (p && (q && r)) ≡ (u && v)
and_regroup p q r u v = ground arith

mutual
  unfolding accesses checked_reads all_quiet all_usable is_quiet

  quiet-usable :
      (e : Expr) (s : Checker) → all_quiet s (accesses e) ≡ all_usable s (checked_reads e)
  quiet-usable (variable_expr x line f) s = refl
  quiet-usable (call_expr _ args _) s = quiet-usable_arguments args s
  quiet-usable (binary_expr l r) s = ground (
    arith,
    all_quiet-append s (accesses l) (accesses r),
    all_usable-append s (checked_reads l) (checked_reads r),
    quiet-usable l s,
    quiet-usable r s,
  )
  quiet-usable (unary_expr r) s = quiet-usable r s
  quiet-usable (grouping_expr e) s = quiet-usable e s
  quiet-usable _ s = refl

  quiet-usable_arguments :
      (args : Exprs) (s : Checker)
      → all_quiet s (argument_accesses args) ≡ all_usable s (all_checked_reads args)
  quiet-usable_arguments no_exprs s = refl
  quiet-usable_arguments (more_exprs a rest) s =
      all_quiet-append s (accesses a) (argument_access a ++ argument_accesses rest)
      ∙ ap (λ b. all_quiet s (accesses a) && b)
          (all_quiet-append s (argument_access a) (argument_accesses rest))
      ∙ and_regroup _ _ _ _ _ (quiet-usable a s) (quiet-usable_arguments rest s)
          (argument-quiet a s)
      ∙ sym (all_usable-append s (checked_reads a) (all_checked_reads rest))

pub reports-is_empty :
    (s : Checker) (e : Expr) → is_empty (reports_of s (accesses e)) ≡ all_usable s (checked_reads e)
reports-is_empty s e = quiet-is_empty s (accesses e) ∙ quiet-usable e s

append_self : (xs ys : List Report) → xs ++ ys ≡ xs → ys ≡ []
append_self xs [] h = refl
append_self xs (y ∷ ys) h = absurd (omega (arith, ap (length {0}) h, length-append xs (y ∷ ys)))

and_swap : (p q r u : Bool) → ((p && q) && (r && u)) ≡ ((p && r) && (q && u))
and_swap p q r u = ground arith

and_first : (p q r u : Bool) → (p && ((q && r) && u)) ≡ (q && (p && (r && u)))
and_first p q r u = ground arith

mutual
  unfolding reads skipped_reads checked_reads all_usable

  usable-parts :
      (s : Checker) (e : Expr)
      → all_usable s (reads e) ≡ (all_usable s (checked_reads e) && all_usable s (skipped_reads e))
  usable-parts s null_expr = refl
  usable-parts s (variable_expr x line f) = ground arith
  usable-parts s (call_expr callee args named) =
      rw
        (
          all_usable-append s (reads callee) (all_reads args ++ all_reads named),
          all_usable-append s (all_reads args) (all_reads named),
          all_usable-append s (reads callee) (all_skipped_reads args ++ all_reads named),
          all_usable-append s (all_skipped_reads args) (all_reads named),
          usable-all_parts s args,
        )
        (and_first (all_usable s (reads callee)) (all_usable s (all_checked_reads args)) _ _)
  usable-parts s (binary_expr l r) =
      rw
        (
          all_usable-append s (reads l) (reads r),
          all_usable-append s (checked_reads l) (checked_reads r),
          all_usable-append s (skipped_reads l) (skipped_reads r),
          usable-parts s l,
          usable-parts s r,
        )
        (and_swap (all_usable s (checked_reads l)) _ _ _)
  usable-parts s (unary_expr r) = usable-parts s r
  usable-parts s (grouping_expr e) = usable-parts s e
  usable-parts s (assign_expr x is_compound target value) = refl
  usable-parts s (other_expr es) = refl

  usable-all_parts :
      (s : Checker) (es : Exprs)
      → all_usable s (all_reads es)
        ≡ (all_usable s (all_checked_reads es) && all_usable s (all_skipped_reads es))
  usable-all_parts s no_exprs = refl
  usable-all_parts s (more_exprs e rest) =
      rw
        (
          all_usable-append s (reads e) (all_reads rest),
          all_usable-append s (checked_reads e) (all_checked_reads rest),
          all_usable-append s (skipped_reads e) (all_skipped_reads rest),
          usable-parts s e,
          usable-all_parts s rest,
        )
        (and_swap (all_usable s (checked_reads e)) _ _ _)

-- The check of an expression reports nothing exactly when every variable that the expression reads
-- outside of callees, named arguments, assignments and the nodes that the checker has no case for is
-- initialized and not moved. All variables that the expression reads in any part are so exactly when
-- those are, and the ones that it reads inside of these parts.
pub check_expression-silent_iff :
    (e : Expr) (s : Checker)
    → (((check_expression e s).reports ≡ s.reports) ↔ (all_usable s (checked_reads e) ≡ true))
      × (all_usable s (reads e)
          ≡ (all_usable s (checked_reads e) && all_usable s (skipped_reads e)))
check_expression-silent_iff e s =
    let p = ap (λ t. t.reports) (check_expression-accesses e s) in
    (
      (
        (λ h. sym (reports-is_empty s e) ∙ ap is_empty (append_self s.reports _ (sym p ∙ h))),
        (λ h. p ∙ empty_reports (reports_of s (accesses e)) (reports-is_empty s e ∙ h)),
      ),
      usable-parts s e,
    )
  where
    empty_reports : (new : List Report) → is_empty new ≡ true → s.reports ++ new ≡ s.reports
    empty_reports [] h = append-nil s.reports
    empty_reports (r ∷ new) h = cc
