-- ===== src/Tests/Loops.antt =====
-- The theorem on `while`, applied.
use native.Mathlib.Decide.{ℕ_discrete}
use whack.Prelude.{◌≡◌, refl, String, List, [], ◌∷◌, some}
use whack.Outcome.{ok, Exec}
use whack.Ast.{Ast, node, nil, cons, get_innermost_ast_tag, get_outermost_ast_tag, after_last_bar}
use whack.Syntax.Statement.{get_stmt, get_stmt_of}
use whack.Syntax.Expression.{get_factor, factor_of, word_kind, get_expr_list, get_expression_value}
use whack.Builder.{br, back}
use whack.Expr.Operators.{
  lexp, chain_of_ast, others_of, lexp_codegen, term, term_codegen, run_chain,
}
use whack.Expr.Conditions.{
  condition, condition_of_ast, condition_codegen, conditional_codegen, as_condition, run_condition,
  expression_codegen, expression_within,
}
use whack.Expr.Factors.{factor_codegen, factor_of_kind, ident_codegen}
use whack.Expr.Tied.{any_factor_codegen}
use whack.Stmt.Values.{return_of_ast, return_codegen, expr_nodes, get_loaded_value}
use whack.Stmt.Branches.{Exit, no_exit, while_exit, while_codegen}
use whack.Stmt.Branches.Loops.{prepared, entered, made_deferred, made_cont, while_codegen-cont}
use whack.Stmt.Codegen.{stmt_codegen, stmt_of_kind}
use whack.Tests.Nodes.{int_ty}
use whack.Tests.Build.{builder, Block, Ir, Val, of_ty}
use whack.Tests.Expressions.{begin, factor, sign}

-- `while (on) return m;` where `on` is a `bool` and `m` a variable; the condition and the statement are
-- built by the code itself.
abbrev in_scope : Ir
in_scope = record begin { variables = ("on", of_ty (int_ty 1) 1) ∷ ("m", of_ty (int_ty 32) 5) ∷ [] }

abbrev test : Ast
test = node "condition|conditional|lexp|term|factor|ident|regex" "on" 0 nil

abbrev value : Ast
value = node "expression|lexp|term|factor|ident|regex" "m" 0 nil

abbrev return_m : Ast
return_m =
    node "stmt|returnstmt|>" "" 0
      (cons (sign "return") (cons (node "exprlist|>" "" 0 (cons value nil)) (cons (sign ";") nil)))

abbrev as_given : List (String × Ast) → List (String × Ast)
as_given l = l

abbrev build_stmt : Ast → Exec Ir (Exit Block)
build_stmt = stmt_codegen builder as_given 5

abbrev on : Val
on = of_ty (int_ty 1) 1

abbrev at_entry : Ir
at_entry = prepared builder in_scope

abbrev at_end : Ir
at_end = elim (build_stmt return_m (entered builder in_scope on at_entry)) as (λ x. Ir) [
  | ok e s ↦ s
  | _ ↦ begin
]

test_built : condition builder factor test at_entry ≡ ok on at_entry
unfolding condition condition_of_ast get_innermost_ast_tag after_last_bar condition_codegen
    conditional_codegen lexp chain_of_ast others_of lexp_codegen term term_codegen factor_codegen
    get_factor factor_of word_kind factor_of_kind ident_codegen as_condition run_condition run_chain
    ℕ_discrete
test_built = refl

body_built : build_stmt return_m (entered builder in_scope on at_entry) ≡ ok no_exit at_end
unfolding stmt_codegen get_stmt get_stmt_of stmt_of_kind return_of_ast return_codegen expr_nodes
    get_expr_list expression_codegen expression_within get_expression_value lexp chain_of_ast
    others_of lexp_codegen term term_codegen any_factor_codegen get_factor factor_of word_kind
    factor_of_kind ident_codegen get_loaded_value get_innermost_ast_tag get_outermost_ast_tag
    after_last_bar factor_codegen
body_built = refl

test_again : condition builder factor test at_end ≡ ok on at_end
unfolding condition condition_of_ast get_innermost_ast_tag after_last_bar condition_codegen
    conditional_codegen lexp chain_of_ast others_of lexp_codegen term term_codegen factor_codegen
    get_factor factor_of word_kind factor_of_kind ident_codegen as_condition run_condition run_chain
    ℕ_discrete stmt_codegen get_stmt get_stmt_of stmt_of_kind return_of_ast return_codegen
    expr_nodes get_expr_list expression_codegen expression_within get_expression_value
    any_factor_codegen get_loaded_value
test_again = refl

while_codegen-cont_example :
    (s' : Ir) × (while_codegen builder factor factor
        (condition builder factor)
        factor
        build_stmt
        (node "whilestmt|>" "" 0 (cons (sign "while") (cons test (cons return_m nil))))
        in_scope
      ≡ ok (while_exit (made_deferred builder in_scope).0 no_exit) s')
    × (s'.at ≡ (made_cont builder in_scope).0)
    × (back builder s' (made_deferred builder in_scope).0
        ≡ some (br (made_cont builder in_scope).0))
while_codegen-cont_example =
    while_codegen-cont builder factor factor (condition builder factor) factor build_stmt
      "whilestmt|>" "" 0 (sign "while") test return_m nil in_scope at_entry at_end at_end on on
      no_exit test_built body_built test_again
