-- ===== src/Syntax/Expression.antt =====
-- `Factor::Kind` of ast/ast.hpp, `getFactor` of ast/factor.hpp, and `getExpressionValue` and
-- `getExprList` of ast/expression.hpp.
use whack.Prelude.{String, ◌==◌, ◌||◌, Option, none, some, List, [], ◌∷◌, map, if◌then◌else◌}
use whack.Ast.{Ast, children, contents, get_innermost_ast_tag}
use whack.StringRef.{StringRef}
use whack.Types.Codegen.{evens}
use whack.Syntax.{first_match}

pub data FactorKind : Type 0 where
  k_expression k_closure k_new_expr k_fn_size_of k_fn_align_of k_fn_append k_fn_len k_fn_cast
        k_func_call k_receive k_expansion k_expand_op k_pre_op k_post_op k_value k_initializer
        k_character k_floating_pt k_integral k_boolean k_string k_element k_struct_member
        k_scope_res k_reference k_deref k_range k_list_comprehension k_null_ptr k_ident :
      FactorKind

abbrev pub factor_rules : List (String × FactorKind)
factor_rules =
    ("character", k_character)
    ∷ ("boolean", k_boolean)
    ∷ ("integral", k_integral)
    ∷ ("floatingpt", k_floating_pt)
    ∷ ("preop", k_pre_op)
    ∷ ("postop", k_post_op)
    ∷ ("funccall", k_func_call)
    ∷ ("element", k_element)
    ∷ ("expandop", k_expand_op)
    ∷ ("structmember", k_struct_member)
    ∷ ("closure", k_closure)
    ∷ ("fncast", k_fn_cast)
    ∷ ("value", k_value)
    ∷ ("deref", k_deref)
    ∷ ("newexpr", k_new_expr)
    ∷ ("scoperes", k_scope_res)
    ∷ ("listcomprehension", k_list_comprehension)
    ∷ ("reference", k_reference)
    ∷ []

-- The classes that `getExpressionValue` makes.
pub data ExpressionKind : Type 0 where
  addr_of ternary bool_expr comparison lexp : ExpressionKind

-- An identifier is `nullptr` or a name; what the grammar reads as a string has three uses.
unfoldable pub word_kind : String → String → Option FactorKind
word_kind tag text =
    if tag == "ident"
    then (if text == "nullptr" then some k_null_ptr else some k_ident)
    else if tag == "string"
    then (if text == "true" || text == "false"
        then some k_boolean
        else if text == "..."
        then some k_expansion
        else some k_string)
    else none

-- The kind of a factor by its tag and its text; `none` is `llvm_unreachable`.
unfoldable pub factor_of : String → String → Option FactorKind
factor_of tag text = elim (first_match factor_rules tag) [
  | some k ↦ some k
  | none ↦ word_kind tag text
]

module _ (T : StringRef) where
  unfoldable pub get_factor : Ast → Option FactorKind
  get_factor a = factor_of (get_innermost_ast_tag T a) (contents a)

  unfoldable pub get_expression_value : Ast → ExpressionKind
  get_expression_value a =
      let tag = get_innermost_ast_tag T a in
      if tag == "addrof"
      then addr_of
      else if tag == "ternary"
      then ternary
      else if tag == "boolexpr"
      then bool_expr
      else if tag == "comparison"
      then comparison
      else lexp

  -- The expressions of a list, each with the node that its class reads.
  unfoldable pub get_expr_list : Ast → List (ExpressionKind × Ast)
  get_expr_list a =
      if get_innermost_ast_tag T a == "exprlist"
      then map (λ e. (get_expression_value e, e)) (evens (children a))
      else (get_expression_value a, a) ∷ []
