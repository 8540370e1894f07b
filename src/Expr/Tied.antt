-- ===== src/Expr/Tied.antt =====
-- `getFactor(ast)->codegen(builder)` over all classes that are modelled: the factors of
-- Expr.Factors, and calls, members, casts and values, tied together.
use whack.Prelude.{ℕ, zero, suc, String, List}
use whack.Outcome.{Exec, out_of_fuel, fault, lift, ◌>>=◌}
use whack.Ast.{Ast}
use whack.Syntax.Expression.{
  FactorKind, k_func_call, k_struct_member, k_fn_cast, k_value, k_new_expr, k_string, k_expansion,
  k_expand_op, k_list_comprehension, k_closure,
}
use whack.Builder.{Builder}
use whack.Expr.Conditions.{expression_codegen}
use whack.Expr.Factors.{factor_codegen}
use whack.Expr.Calls.{func_call_codegen}
use whack.Expr.Members.{construct, struct_member_codegen, fn_cast_codegen}
use whack.Expr.Initializers.{
  value_codegen, new_expr_codegen, string_codegen, expansion_codegen, expand_op_codegen,
}
use whack.Stmt.Branches.{Exit}
use whack.Expr.Captures.{closure_of_ast}
use whack.Expr.Closures.{closure_codegen}
use whack.Expr.Comprehension.{list_comprehension_codegen}

module _ (B : Builder) where
  open B use {llvm, Val, Block, Ir}
  open llvm use {Ty, string_ref}

  -- `bindFirstFuncArgument`, `codegen` and `runScopeExit` of the body of a closure, and the order of
  -- its captures.
  module _ (bind_first : Val → Val → Ty → Exec Ir Val) (body : Ast → Exec Ir (Exit Block))
      (run_exit : Exit Block → Exec Ir (Unit {0}))
      (order : List (String × Ast) → List (String × Ast)) where
    -- `inner` is the codegen of the factors in a factor; `fuel` is for its types.
    unfoldable pub more_factors : ℕ → (Ast → Exec Ir Val) → FactorKind → Ast → Exec Ir Val
    more_factors fuel inner k_func_call a =
        func_call_codegen B bind_first inner (expression_codegen B inner)
          (construct B (expression_codegen B inner)) a
    more_factors fuel inner k_struct_member a = struct_member_codegen B bind_first fuel a
    more_factors fuel inner k_fn_cast a =
        fn_cast_codegen B bind_first (expression_codegen B inner) fuel a
    more_factors fuel inner k_value a =
        value_codegen B fuel inner (expression_codegen B inner) (list_comprehension_codegen B inner)
          a
    more_factors fuel inner k_new_expr a =
        new_expr_codegen B fuel inner (expression_codegen B inner)
          (list_comprehension_codegen B inner) a
    more_factors fuel inner k_string a =
        string_codegen B fuel inner (expression_codegen B inner)
          (list_comprehension_codegen B inner) a
    more_factors fuel inner k_expansion a =
        expansion_codegen B fuel inner (expression_codegen B inner)
          (list_comprehension_codegen B inner)
    more_factors fuel inner k_expand_op a =
        expand_op_codegen B fuel inner (expression_codegen B inner)
          (list_comprehension_codegen B inner) a
    more_factors fuel inner k_list_comprehension a = list_comprehension_codegen B inner a
    more_factors fuel inner k_closure a =
        lift (closure_of_ast string_ref a)
        >>= closure_codegen B bind_first (expression_codegen B inner) body run_exit order fuel
    -- `getFactor` gives no other kind that the factors of Expr.Factors leave.
    more_factors fuel inner k a = λ s. fault

    -- `getFactor(ast)->codegen(builder)`
    unfoldable pub any_factor_codegen : ℕ → Ast → Exec Ir Val
    any_factor_codegen zero a = λ s. out_of_fuel
    any_factor_codegen (suc fuel) a =
        factor_codegen B (more_factors fuel (any_factor_codegen fuel)) (suc fuel) a
