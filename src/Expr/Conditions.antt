-- ===== src/Expr/Conditions.antt =====
-- ast/comparison.hpp, ast/boolexpr.hpp, ast/conditional.hpp, ast/condition.hpp, ast/ternary.hpp and
-- the dispatch of ast/expression.hpp. The fuel of a class is the height of its node.
use whack.Prelude.{
  ℕ, zero, suc, ◌+◌, String, ◌==◌, ◌<>◌, Bool, true, false, Option, none, some, List, [], ◌∷◌,
  if◌then◌else◌,
}
use whack.Outcome.{Exec, number, ◌>>=◌, pure, raise, lift, fault, out_of_fuel}
use whack.Ast.{
  Ast, child, children, contents, row, height, get_innermost_ast_tag, get_outermost_ast_tag,
}
use whack.StringRef.{StringRef}
use whack.Metadata
use whack.Syntax.{first_match}
use whack.Syntax.Expression.{
  get_expression_value, addr_of, ternary, bool_expr, comparison, lexp, ExpressionKind,
}
use whack.Builder.{
  Builder, Predicate, icmp_sgt, icmp_slt, icmp_sge, icmp_eq, icmp_ne, icmp_sle, fcmp_ogt, fcmp_olt,
  fcmp_oge, fcmp_oeq, fcmp_one, fcmp_ole, fcmp_false, build_and, build_or, binary, compare, not_of,
  select, call, build,
}
use whack.Expr.Operators
use whack.Expr.Operators.{others_of}

-- `INTCMP`
abbrev pub int_cmp : List (String × Predicate)
int_cmp =
    (">", icmp_sgt)
    ∷ ("<", icmp_slt)
    ∷ (">=", icmp_sge)
    ∷ ("==", icmp_eq)
    ∷ ("!=", icmp_ne)
    ∷ ("<=", icmp_sle)
    ∷ []

-- `REALCMP`
abbrev pub real_cmp : List (String × Predicate)
real_cmp =
    (">", fcmp_ogt)
    ∷ ("<", fcmp_olt)
    ∷ (">=", fcmp_oge)
    ∷ ("==", fcmp_oeq)
    ∷ ("!=", fcmp_one)
    ∷ ("<=", fcmp_ole)
    ∷ []

-- A condition: a chain that may be negated.
pub record Condition : Type 0 where
  pub negate : Bool
  pub initial : Ast
  pub others : List (String × Ast)

-- The loop of the constructor of `Condition` over the children of the node that it has chosen.
unfoldable pub condition_chain : Bool → Ast → Option Condition
condition_chain negate ref = elim (children ref) [
  | [] ↦ none
  | x ∷ l ↦
      (Metadata.◌>>=◌ (others_of l)
        λ os. some (record { negate = negate; initial = x; others = os }))
]

-- The constructor of `Condition`.
unfoldable pub condition_of_ast : StringRef → Ast → Option Condition
condition_of_ast T a =
    if get_innermost_ast_tag T a == "condition"
    then (Metadata.◌>>=◌ (child a 0) λ x.
        if contents x == "!"
        then (Metadata.◌>>=◌ (child a 2) (condition_chain true))
        else if contents x == "("
        then (Metadata.◌>>=◌ (child a 1) (condition_chain false))
        else condition_chain false a)
    else some (record { negate = false; initial = a; others = [] })

module _ (B : Builder) where
  open B use {llvm, Val, Ir, type_of, null_value, get_function}
  open llvm use {
    string_ref, same_ty, int_ty, pointer_to, is_integer_ty, is_floating_point_ty, is_pointer_ty,
    is_struct_ty, pointer_element_type, struct_name,
  }

  -- One comparison. A key that `REALCMP` has not gives the predicate 0, which compares
  -- nothing; for integers that is no predicate. A value that is no number is `llvm_unreachable`.
  -- The type of the second operand is not looked at: if it is another one, LLVM defines no comparison,
  -- and no law of the builder says anything of the value.
  unfoldable pub compare_with : String → Val → Val → Exec Ir Val
  compare_with op lhs rhs =
      if is_floating_point_ty (type_of lhs)
      then (elim (first_match real_cmp op) [
        | some p ↦ build B (compare p lhs rhs)
        | none ↦ build B (compare fcmp_false lhs rhs)
      ])
      else if is_integer_ty (type_of lhs)
      then (elim (first_match int_cmp op) [
        | some p ↦ build B (compare p lhs rhs)
        | none ↦ λ s. fault
      ])
      else λ s. fault

  -- `&&`, or else `||`; both operands are computed.
  unfoldable pub join_bool : String → Val → Val → Exec Ir Val
  join_bool op lhs rhs = build B (binary (if op == "&&" then build_and else build_or) lhs rhs)

  -- The same where another operator is `llvm_unreachable`.
  unfoldable pub join_condition : String → Val → Val → Exec Ir Val
  join_condition op lhs rhs =
      if op == "&&"
      then build B (binary build_and lhs rhs)
      else if op == "||"
      then build B (binary build_or lhs rhs)
      else λ s. fault

  -- A loop over operators and operands in turn, behind a first value.
  unfoldable pub fold_pairs :
      (String → Val → Val → Exec Ir Val) → (Ast → Exec Ir Val) → Val → List Ast → Exec Ir Val
  fold_pairs join codegen v [] = pure v
  fold_pairs join codegen v (o ∷ []) = λ s. fault
  fold_pairs join codegen v (o ∷ a ∷ l) =
      codegen a >>= λ rhs. join (contents o) v rhs >>= λ w. fold_pairs join codegen w l

  -- `Factor::codegen` of a node.
  module _ (factor : Ast → Exec Ir Val) where
    abbrev lexp_of : Ast → Exec Ir Val
    lexp_of = Operators.lexp B factor

    -- `Comparison::codegen`
    unfoldable pub comparison_within : ℕ → Ast → Exec Ir Val
    unfolding fold_pairs
    comparison_within zero a = λ s. out_of_fuel
    comparison_within (suc fuel) a =
        let inner = comparison_within fuel in
        lift (child a 0) >>= λ x.
        if get_outermost_ast_tag string_ref x == "lexp"
        then (lexp_of x >>= λ v. elim (children a) [
          | [] ↦ pure v
          | y ∷ l ↦ fold_pairs compare_with lexp_of v l
        ])
        else if contents x == "!"
        then (lift (child a 2) >>= λ c. inner c >>= λ v. build B (not_of v))
        else lift (child a 1) >>= inner

    unfoldable pub comparison_codegen : Ast → Exec Ir Val
    comparison_codegen a = comparison_within (height a) a

    -- An operand behind a comparison.
    unfoldable pub bool_operand : Ast → Exec Ir Val
    bool_operand a =
        if get_outermost_ast_tag string_ref a == "comparison"
        then comparison_codegen a
        else lexp_of a

    -- `BoolExpr::codegen`
    unfoldable pub bool_expr_within : ℕ → Ast → Exec Ir Val
    unfolding fold_pairs
    bool_expr_within zero a = λ s. out_of_fuel
    bool_expr_within (suc fuel) a =
        let inner = bool_expr_within fuel in
        elim (children a) [
          | [] ↦ lexp_of a
          | x ∷ l ↦
              if contents x == "!"
              then (lift (child a 2) >>= λ c. inner c >>= λ v. build B (not_of v))
              else if contents x == "("
              then (lift (child a 1) >>= inner)
              else if get_innermost_ast_tag string_ref a == "comparison"
              then comparison_codegen a
              else if get_innermost_ast_tag string_ref x == "comparison"
              then (comparison_codegen x >>= λ v. fold_pairs join_bool bool_operand v l)
              else lexp_of x >>= λ v. fold_pairs join_bool inner v l
        ]

    unfoldable pub bool_expr_codegen : Ast → Exec Ir Val
    bool_expr_codegen a = bool_expr_within (height a) a

    abbrev conditional_error : ℕ → Exec Ir Val
    conditional_error row = raise "invalid type for conditional at line {}" (number (row + 1) ∷ [])

    -- The end of `Conditional::codegen`: a value as a condition. A pointer to no struct is compared
    -- with the null pointer.
    unfoldable pub as_condition : ℕ → Val → Exec Ir Val
    as_condition row v =
        let pointee = pointer_element_type (type_of v) in
        if same_ty (type_of v) (int_ty 1)
        then pure v
        else if is_pointer_ty (type_of v)
        then (if is_struct_ty pointee
            then (λ s.
                elim (get_function s ("struct::" <> (struct_name pointee <> "::operator bool"))) [
                  | some f ↦ build B (call f (v ∷ [])) s
                  | none ↦ conditional_error row s
                ])
            else build B (compare icmp_eq v (null_value (pointer_to (int_ty 8)))))
        else conditional_error row

    -- `Conditional::codegen`
    unfoldable pub conditional_codegen : Ast → Exec Ir Val
    conditional_codegen a =
        let tag = get_innermost_ast_tag string_ref a in
        if tag == "comparison"
        then comparison_codegen a
        else if tag == "boolexpr"
        then bool_expr_codegen a
        else lexp_of a >>= as_condition (row a)

    -- The loop of `Condition::codegen`.
    unfoldable pub run_condition : Val → List (String × Ast) → Exec Ir Val
    run_condition v [] = pure v
    run_condition v ((op, a) ∷ l) =
        conditional_codegen a >>= λ rhs. join_condition op v rhs >>= λ w. run_condition w l

    -- `Condition::codegen`
    unfoldable pub condition_codegen : Condition → Exec Ir Val
    condition_codegen c = conditional_codegen c.initial >>= λ v.
        run_condition v c.others >>= λ w. if c.negate then build B (not_of w) else pure w

    -- A node read as a condition, and what it builds.
    unfoldable pub condition : Ast → Exec Ir Val
    condition a = lift (condition_of_ast string_ref a) >>= condition_codegen

    -- The end of `Ternary::codegen`.
    unfoldable pub choose_value : ℕ → Val → Val → Val → Exec Ir Val
    choose_value row cond hence otherwise =
        if same_ty (type_of hence) (type_of otherwise)
        then build B (select cond hence otherwise)
        else raise
            "type mismatch: expected expressions of the same type for ternary expression at line {}"
            (number (row + 1) ∷ [])

    -- `Ternary`: both values are computed.
    unfoldable pub ternary_codegen : (Ast → Exec Ir Val) → Ast → Exec Ir Val
    ternary_codegen codegen a = do
      c ← lift (child a 0)
      h ← lift (child a 2)
      o ← lift (child a 4)
      cond ← condition c
      hence ← codegen h
      otherwise ← codegen o
      choose_value (row a) cond hence otherwise

    abbrev pub expression_of_kind : ExpressionKind → (Ast → Exec Ir Val) → Ast → Exec Ir Val
    expression_of_kind addr_of inner a = lift (child a 1) >>= factor
    expression_of_kind ternary inner a = ternary_codegen inner a
    expression_of_kind bool_expr inner a = bool_expr_codegen a
    expression_of_kind comparison inner a = comparison_codegen a
    expression_of_kind lexp inner a = lexp_of a

    -- `getExpressionValue(ast)->codegen(builder)`
    unfoldable pub expression_within : ℕ → Ast → Exec Ir Val
    expression_within zero a = λ s. out_of_fuel
    expression_within (suc fuel) a =
        expression_of_kind (get_expression_value string_ref a) (expression_within fuel) a

    unfoldable pub expression_codegen : Ast → Exec Ir Val
    expression_codegen a = expression_within (height a) a
