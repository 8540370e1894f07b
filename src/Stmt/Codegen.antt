-- ===== src/Stmt/Codegen.antt =====
-- `getStmt(ast)->codegen(builder)` of ast/stmt.hpp, and `runScopeExit`: the classes tied together.
use whack.Prelude.{ℕ, zero, suc, none, some, List, [], String}
use whack.Outcome.{Exec, ◌>>=◌, ◌>>◌, pure, lift, raise, fault, out_of_fuel}
use whack.Ast.{Ast, row}
use whack.Syntax.Statement.{
  StmtKind, get_stmt, k_body, k_return, k_let_expr, k_while, k_if, k_for, k_assign, k_pre_op,
  k_post_op, k_op_eq, k_decl_assign, k_delete, k_func_call, k_match, k_type_switch, k_break,
  k_continue, k_defer, k_alias, k_structure, k_enumeration, k_unreachable, k_receive, k_yield,
  k_co_return, k_select, k_comment, k_send, k_out_stream, k_in_stream,
}
use whack.Builder.{Builder, build, unreachable}
use whack.Expr.Conditions.{condition, comparison_codegen, expression_codegen}
use whack.Expr.Factors.{pre_op_codegen, post_op_codegen}
use whack.Func.Bind.{bind_first_func_argument}
use whack.Expr.Tied.{any_factor_codegen}
use whack.Expr.Calls.{func_call_stmt_codegen}
use whack.Expr.Members.{construct}
use whack.Expr.Comprehension.{list_comprehension_codegen}
use whack.Stmt.Declarations.{
  alias_stmt_codegen, structure_stmt_codegen, enumeration_stmt_codegen, decl_assign_codegen,
  delete_codegen,
}
use whack.Stmt.Matches.{match_codegen, type_switch_codegen}
use whack.Stmt.Values.{
  return_of_ast, return_codegen, assign_of_ast, assign_codegen, let_of_ast, let_codegen,
  op_eq_codegen,
}
use whack.Stmt.Branches.{Exit, no_exit, if_of_ast, if_codegen, while_codegen, for_codegen}
use whack.Stmt.Jumps.{break_codegen, continue_codegen}
use whack.Stmt.Body.{body_codegen, run_scope_exit, defer_scope_exit}

-- `order` is the order in which LLVM's map of the captures of a closure is read.
module _ (B : Builder) (order : List (String × Ast) → List (String × Ast)) where
  open B use {llvm, Val, Block, Ir}
  open llvm use {string_ref}

  -- The factors and expressions in a statement; `inner` and `run_exit` are for the bodies of closures.
  abbrev pub tied_factor :
      ℕ → (Ast → Exec Ir (Exit Block)) → (Exit Block → Exec Ir (Unit {0})) → Ast → Exec Ir Val
  tied_factor fuel inner run_exit =
      any_factor_codegen B (bind_first_func_argument B) (body_codegen B inner) run_exit order fuel

  abbrev pub tied_expression :
      ℕ → (Ast → Exec Ir (Exit Block)) → (Exit Block → Exec Ir (Unit {0})) → Ast → Exec Ir Val
  tied_expression fuel inner run_exit = expression_codegen B (tied_factor fuel inner run_exit)

  -- A statement without a scope.
  abbrev plain : Exec Ir (Unit {0}) → Exec Ir (Exit Block)
  plain p = p >> pure no_exit

  -- `Unreachable::codegen`
  unfoldable pub unreachable_codegen : Exec Ir (Unit {0})
  unreachable_codegen = build B unreachable >> pure tt

  -- `ReceiveStmt::codegen`
  unfoldable pub receive_codegen : Exec Ir (Unit {0})
  receive_codegen = raise "not implemented" []

  -- `codegen` of the class of a statement; `inner` and `run_exit` are its
  -- `codegen` and `runScopeExit` for the statements in it.
  unfoldable pub stmt_of_kind :
      ℕ
      → (Ast → Exec Ir (Exit Block))
      → (Exit Block → Exec Ir (Unit {0}))
      → StmtKind
      → Ast
      → Exec Ir (Exit Block)
  stmt_of_kind fuel inner run_exit k_body a = body_codegen B inner a
  stmt_of_kind fuel inner run_exit k_return a = lift (return_of_ast string_ref a) >>= λ es.
      plain (
        return_codegen B (tied_factor fuel inner run_exit) (tied_expression fuel inner run_exit) es)
  stmt_of_kind fuel inner run_exit k_let_expr a = lift (let_of_ast string_ref a) >>= λ l.
      plain
        (let_codegen B (tied_factor fuel inner run_exit) (tied_expression fuel inner run_exit) l)
  stmt_of_kind fuel inner run_exit k_while a =
      while_codegen B (tied_factor fuel inner run_exit) (tied_expression fuel inner run_exit)
        (condition B (tied_factor fuel inner run_exit))
        (comparison_codegen B (tied_factor fuel inner run_exit)) inner a
  stmt_of_kind fuel inner run_exit k_if a =
      lift (if_of_ast string_ref a)
      >>= if_codegen B (tied_factor fuel inner run_exit) (tied_expression fuel inner run_exit)
          (condition B (tied_factor fuel inner run_exit))
          (comparison_codegen B (tied_factor fuel inner run_exit)) inner
  stmt_of_kind fuel inner run_exit k_for a =
      for_codegen B (tied_factor fuel inner run_exit) (tied_expression fuel inner run_exit)
        (condition B (tied_factor fuel inner run_exit))
        (comparison_codegen B (tied_factor fuel inner run_exit)) inner a
  stmt_of_kind fuel inner run_exit k_assign a = lift (assign_of_ast string_ref a) >>= λ x.
      plain
        (assign_codegen B (tied_factor fuel inner run_exit) (tied_expression fuel inner run_exit) x)
  stmt_of_kind fuel inner run_exit k_pre_op a = plain (
      pre_op_codegen B (tied_factor fuel inner run_exit) (tied_expression fuel inner run_exit) a
      >> pure tt)
  stmt_of_kind fuel inner run_exit k_post_op a = plain (
      post_op_codegen B (tied_factor fuel inner run_exit) (tied_expression fuel inner run_exit) a
      >> pure tt)
  stmt_of_kind fuel inner run_exit k_op_eq a =
      plain
        (op_eq_codegen B (tied_factor fuel inner run_exit) (tied_expression fuel inner run_exit) a)
  stmt_of_kind fuel inner run_exit k_break a = plain (break_codegen B fuel (row a))
  stmt_of_kind fuel inner run_exit k_continue a = plain (continue_codegen B fuel (row a))
  stmt_of_kind fuel inner run_exit k_defer a = pure no_exit
  stmt_of_kind fuel inner run_exit k_decl_assign a = plain (
      decl_assign_codegen B fuel (tied_expression fuel inner run_exit)
        (list_comprehension_codegen B (tied_factor fuel inner run_exit)) a)
  stmt_of_kind fuel inner run_exit k_delete a = plain (
      delete_codegen B fuel (tied_expression fuel inner run_exit)
        (list_comprehension_codegen B (tied_factor fuel inner run_exit)) a)
  stmt_of_kind fuel inner run_exit k_func_call a = plain (
      func_call_stmt_codegen B (bind_first_func_argument B) (tied_factor fuel inner run_exit)
        (tied_expression fuel inner run_exit) (construct B (tied_expression fuel inner run_exit)) a)
  stmt_of_kind fuel inner run_exit k_match a =
      plain (match_codegen B (tied_expression fuel inner run_exit) inner run_exit a)
  stmt_of_kind fuel inner run_exit k_type_switch a =
      plain (type_switch_codegen B (tied_expression fuel inner run_exit) inner run_exit fuel a)
  stmt_of_kind fuel inner run_exit k_alias a = plain (alias_stmt_codegen B fuel a)
  stmt_of_kind fuel inner run_exit k_structure a = plain (structure_stmt_codegen B fuel a)
  stmt_of_kind fuel inner run_exit k_enumeration a = plain (enumeration_stmt_codegen B fuel a)
  stmt_of_kind fuel inner run_exit k_unreachable a = plain unreachable_codegen
  stmt_of_kind fuel inner run_exit k_receive a = plain receive_codegen
  stmt_of_kind fuel inner run_exit k_yield a = pure no_exit
  stmt_of_kind fuel inner run_exit k_co_return a = pure no_exit
  stmt_of_kind fuel inner run_exit k_select a = pure no_exit
  stmt_of_kind fuel inner run_exit k_comment a = pure no_exit
  stmt_of_kind fuel inner run_exit k_send a = pure no_exit
  stmt_of_kind fuel inner run_exit k_out_stream a = pure no_exit
  stmt_of_kind fuel inner run_exit k_in_stream a = pure no_exit

  unfoldable mutual
    -- `getStmt(ast)->codegen(builder)`
    pub stmt_codegen : ℕ → Ast → Exec Ir (Exit Block)
    stmt_codegen zero a = λ s. out_of_fuel
    stmt_codegen (suc fuel) a = elim (get_stmt string_ref a) [
      | none ↦ λ s. fault
      | some r ↦
          stmt_of_kind fuel (stmt_codegen fuel) (run_scope_exit B (run_deferred fuel) fuel) r.0 r.1
    ]

    -- `runScopeExit` of a deferred statement.
    pub run_deferred : ℕ → Ast → Exec Ir (Unit {0})
    run_deferred zero d = λ s. out_of_fuel
    run_deferred (suc fuel) d =
        defer_scope_exit B (stmt_codegen fuel) (run_scope_exit B (run_deferred fuel) fuel) d

  -- `runScopeExit` of a statement that `codegen` has built.
  unfoldable pub exit_codegen : ℕ → Exit Block → Exec Ir (Unit {0})
  exit_codegen fuel e = run_scope_exit B (run_deferred fuel) fuel e
