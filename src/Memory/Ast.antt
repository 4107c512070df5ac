-- ===== src/Memory/Ast.antt =====
-- The syntax tree (src/frontend/ast.hh) as the memory checker meets it, with all expressions and
-- statements that stand inside of a node. A null pointer is `null_expr` or `null_stmt`; the node
-- classes that the checker has no case for are `other_expr` and `other_stmt`.
use limitly.Prelude.{ℕ, Bool, String}

mutual
  pub data Expr : Type 0 where
    null_expr : Expr
    -- name, line, and whether the inferred type is a function type
    variable_expr : String → ℕ → Bool → Expr
    -- callee, arguments, and the values of the named arguments
    call_expr : Expr → Exprs → Exprs → Expr
    binary_expr : Expr → Expr → Expr
    unary_expr : Expr → Expr
    grouping_expr : Expr → Expr
    -- target name, whether the operator reads it (`+=`), the object and the index of the target, value
    assign_expr : String → Bool → Exprs → Expr → Expr
    other_expr : Exprs → Expr

  pub data Exprs : Type 0 where
    no_exprs : Exprs
    more_exprs : Expr → Exprs → Exprs

mutual
  pub data Stmt : Type 0 where
    null_stmt : Stmt
    -- name, line, whether an inferred type is set, and the initializer
    var_declaration : String → ℕ → Bool → Expr → Stmt
    block_statement : Stmts → Stmt
    expr_statement : Expr → Stmt
    if_statement : Expr → Stmt → Stmt → Stmt
    while_statement : Expr → Stmt → Stmt
    -- initializer, condition, increment, body
    for_statement : Stmt → Expr → Expr → Stmt → Stmt
    -- name, the default values of the parameters, and the body
    function_declaration : String → Exprs → Stmt → Stmt
    other_stmt : Exprs → Stmts → Stmt

  pub data Stmts : Type 0 where
    no_stmts : Stmts
    more_stmts : Stmt → Stmts → Stmts
