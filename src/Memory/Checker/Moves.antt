-- ===== src/Memory/Checker/Moves.antt =====
-- Statements that read a moved variable (src/frontend/memory_checker.cpp).
use limitly.Prelude.{
  ℕ, ◌<◌, ◌≡◌, refl, ap, ◌∙◌, ◌⊎◌, inl, inr, Bool, true, false, ◌&&◌, ◌||◌, String, List, [], ◌∷◌,
  is_empty, length, length-append, contains, string_eq, insert, arith,
}
use limitly.Memory.Ast.{
  Expr, null_expr, Stmt, null_stmt, var_declaration, block_statement, expr_statement, if_statement,
  while_statement, for_statement, Stmts, no_stmts, more_stmts,
}
use limitly.Memory.Checker.{
  Report, Checker, is_variable_moved, check_expression, initialize, mark_variable_initialized,
  check_var_declaration, leave_block, enter_memory_region, check_statement, check_statements,
}
use limitly.Memory.Checker.Usable.{checked_reads, all_usable, reports-is_empty}
use limitly.Memory.Checker.Access.{accesses, reports_of, check_expression-accesses}
use limitly.Memory.Checker.Scopes.{
  Grows-length, Grows, check_expression-Grows, move_from-Grows, mark_initialized-Grows,
  check_statement-Grows, check_statements-Grows, Grows-trans,
}

-- Whether a statement reads a variable where the checker looks, at any depth: in an initializer of a
-- declaration with an inferred type, in an expression that stands as a statement, or in a condition or
-- an increment, and there outside of the parts that `skipped_reads` names. Function bodies and the
-- statements that the checker has no case for (return, print and others) are not among these places.
unfoldable mutual
  pub reads_checked : String → Stmt → Bool
  reads_checked x (var_declaration _ _ has_type init) = has_type && contains x (checked_reads init)
  reads_checked x (block_statement b) = any_reads_checked x b
  reads_checked x (expr_statement e) = contains x (checked_reads e)
  reads_checked x (if_statement c t e) =
      contains x (checked_reads c) || (reads_checked x t || reads_checked x e)
  reads_checked x (while_statement c b) = contains x (checked_reads c) || reads_checked x b
  reads_checked x (for_statement i c n b) =
      reads_checked x i
      || (contains x (checked_reads c) || (contains x (checked_reads n) || reads_checked x b))
  reads_checked x _ = false

  pub any_reads_checked : String → Stmts → Bool
  any_reads_checked x no_stmts = false
  any_reads_checked x (more_stmts t ts) = reads_checked x t || any_reads_checked x ts

unfoldable pub append_stmts : Stmts → Stmts → Stmts
append_stmts no_stmts us = us
append_stmts (more_stmts t ts) us = more_stmts t (append_stmts ts us)

pub check_statements-append :
    (ts us : Stmts) (s : Checker)
    → check_statements (append_stmts ts us) s ≡ check_statements us (check_statements ts s)
unfolding check_statement append_stmts
check_statements-append no_stmts us s = refl
check_statements-append (more_stmts t ts) us s = check_statements-append ts us (check_statement t s)

-- The state after a call has more reports than before.
pub record Reports (s t : Checker) : Type 0 where
  pub more : length s.reports < length t.reports

moved-not_usable :
    (x : String) (s : Checker) (xs : List String)
    → contains x s.moved_variables ≡ true
    → contains x xs ≡ true
    → all_usable s xs ≡ false
unfolding all_usable contains is_variable_moved
moved-not_usable x s [] m h = cc
moved-not_usable x s (y ∷ xs) m h = ground (arith, string_eq.beq_iff y x, moved-not_usable x s xs m)

expression-Reports :
    (x : String) (e : Expr) (s : Checker)
    → contains x s.moved_variables ≡ true
    → contains x (checked_reads e) ≡ true
    → Reports s (check_expression e s)
expression-Reports x e s m h =
    let new = reports_of s (accesses e) in
    omega (
      arith,
      ap (λ t. length t.reports) (check_expression-accesses e s),
      length-append s.reports new,
      nonempty-length new (reports-is_empty s e ∙ moved-not_usable x s (checked_reads e) m h),
    )
  where
    nonempty-length : (xs : List Report) → is_empty xs ≡ false → 0 < length xs
    nonempty-length [] h = cc
    nonempty-length (x ∷ xs) h = omega arith

initialize-Reports :
    (x y : String) (e : Expr) (s : Checker)
    → contains x s.moved_variables ≡ true
    → contains x (checked_reads e) ≡ true
    → Reports s (initialize y e s)
unfolding initialize
initialize-Reports x y null_expr s m h = unfold checked_reads contains in cc
initialize-Reports x y e s m h = omega (
  arith,
  expression-Reports x e s m h,
  Grows-length (mark_initialized-Grows y (check_expression e s)),
  Grows-length (move_from-Grows e (mark_variable_initialized y (check_expression e s))),
)

-- A part that reports, with any part before and after it.
after-Reports : {s t u : Checker} → Grows s t → Reports t u → Reports s u
after-Reports g r = omega (arith, Grows-length g)

before-Reports : {s t u : Checker} → Reports s t → Grows t u → Reports s u
before-Reports r g = omega (arith, Grows-length g)

or-cases : (a b : Bool) → (a || b) ≡ true → (a ≡ true) ⊎ (b ≡ true)
or-cases true b h = inl refl
or-cases false b h = inr h

declared-Reports :
    (x y : String) (line : ℕ) (has_type : Bool) (init : Expr) (s : Checker)
    → contains x s.moved_variables ≡ true
    → (has_type && contains x (checked_reads init)) ≡ true
    → Reports s (check_var_declaration y line has_type init s)
unfolding check_var_declaration
declared-Reports x y line true init s m h =
    let t = record s {
      variable_regions = insert y s.current_region_id s.variable_regions;
      variable_generations = insert y s.current_generation s.variable_generations;
    } in
    record { more = (initialize-Reports x y init t m h).more }
declared-Reports x y line false init s m h = cc

left-Reports :
    (s t : Checker)
    → Reports (enter_memory_region s) t
    → Reports s (leave_block (enter_memory_region s) t)
unfolding leave_block enter_memory_region
left-Reports s t r = record { more = r.more }

moved-enter :
    (x : String) (s : Checker)
    → contains x s.moved_variables ≡ true
    → contains x (enter_memory_region s).moved_variables ≡ true
unfolding enter_memory_region
moved-enter x s h = h

-- A statement that reads a moved variable where the checker looks is reported.
mutual
  unfolding check_statement reads_checked

  statement-Reports :
      (x : String) (t : Stmt) (s : Checker)
      → contains x s.moved_variables ≡ true
      → reads_checked x t ≡ true
      → Reports s (check_statement t s)
  statement-Reports x null_stmt s m h = cc
  statement-Reports x (var_declaration y line has_type init) s m h =
      declared-Reports x y line has_type init s m h
  statement-Reports x (block_statement b) s m h =
      left-Reports s _ (statements-Reports x b (enter_memory_region s) (moved-enter x s m) h)
  statement-Reports x (expr_statement e) s m h = expression-Reports x e s m h
  statement-Reports x (if_statement c t e) s m h =
      let gc = check_expression-Grows c s in
      let gt = check_statement-Grows t (check_expression c s) in
      elim (or-cases (contains x (checked_reads c)) _ h) [
        | inl k ↦
            before-Reports (expression-Reports x c s m k)
              (Grows-trans gt (check_statement-Grows e _))
        | inr k ↦ elim (or-cases (reads_checked x t) _ k) [
          | inl l ↦ after-Reports gc (
              before-Reports (statement-Reports x t _ (gc.moved x m) l) (check_statement-Grows e _))
          | inr l ↦
              after-Reports (Grows-trans gc gt)
                (statement-Reports x e _ (gt.moved x (gc.moved x m)) l)
        ]
      ]
  statement-Reports x (while_statement c b) s m h =
      let gc = check_expression-Grows c s in
      elim (or-cases (contains x (checked_reads c)) _ h) [
        | inl k ↦ before-Reports (expression-Reports x c s m k) (check_statement-Grows b _)
        | inr k ↦ after-Reports gc (statement-Reports x b _ (gc.moved x m) k)
      ]
  statement-Reports x (for_statement i c n b) s m h =
      let gi = check_statement-Grows i s in
      let gc = Grows-trans gi (check_expression-Grows c _) in
      let gn = Grows-trans gc (check_expression-Grows n _) in
      elim (or-cases (reads_checked x i) _ h) [
        | inl k ↦ before-Reports (statement-Reports x i s m k) (
            Grows-trans (check_expression-Grows c _)
              (Grows-trans (check_expression-Grows n _) (check_statement-Grows b _)))
        | inr k ↦ elim (or-cases (contains x (checked_reads c)) _ k) [
          | inl l ↦ after-Reports gi (
              before-Reports (expression-Reports x c _ (gi.moved x m) l)
                (Grows-trans (check_expression-Grows n _) (check_statement-Grows b _)))
          | inr l ↦ elim (or-cases (contains x (checked_reads n)) _ l) [
            | inl o ↦ after-Reports gc (
                before-Reports (expression-Reports x n _ (gc.moved x m) o)
                  (check_statement-Grows b _))
            | inr o ↦ after-Reports gn (statement-Reports x b _ (gn.moved x m) o)
          ]
        ]
      ]
  statement-Reports x _ s m h = cc

  pub statements-Reports :
      (x : String) (ts : Stmts) (s : Checker)
      → contains x s.moved_variables ≡ true
      → any_reads_checked x ts ≡ true
      → Reports s (check_statements ts s)
  statements-Reports x no_stmts s m h = cc
  statements-Reports x (more_stmts t ts) s m h =
      let g = check_statement-Grows t s in
      elim (or-cases (reads_checked x t) _ h) [
        | inl k ↦ before-Reports (statement-Reports x t s m k) (check_statements-Grows ts _)
        | inr k ↦ after-Reports g (statements-Reports x ts _ (g.moved x m) k)
      ]
