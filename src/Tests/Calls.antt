-- ===== src/Tests/Calls.antt =====
-- The theorems on calls, applied.
use whack.Prelude.{
  ◌≡◌, refl, suc, true, false, List, [], ◌∷◌, length, ◌⊎◌, ◌++◌, String, some, none,
}
use whack.Outcome.{Exec, ok, fault}
use whack.Types.{is_struct_kind}
use whack.Builder.{call}
use whack.Expr.Calls.{
  callables, argument_groups, without_last, ends_with_expansion, transform_arg, transform_args,
  transform_expansion, check_number, check_transform_args, partial_apply, bind_each, call_or_bind,
  call_value,
}
use whack.Expr.Calls.Checked.{Fits, params_of, call_value-Fits, partial_apply-checked}
use whack.Ast.{Ast, node, nil, get_outermost_ast_tag}
use whack.Expr.Calls.Chained.{
  Group, empty, filled, Callable, chained, groups, AreGroups, argument_groups-callables,
}
use whack.Tests.Machine.{machine}
use whack.Tests.Nodes.{Ty, int_ty, pointer_to, function_of, chain}
use whack.Tests.Build.{builder, Ir, Val, of_ty, emit}
use whack.Tests.Expressions.{begin}

abbrev no_binding : Val → Val → Ty → Exec Ir Val
no_binding f v t s = fault

-- A function of two numbers, and its arguments.
abbrev plus : Val
plus = of_ty (pointer_to (function_of (int_ty 32) (chain (int_ty 32 ∷ int_ty 32 ∷ [])) false)) 7

abbrev both : List Val
both = of_ty (int_ty 32) 1 ∷ of_ty (int_ty 32) 2 ∷ []

-- One argument and the expansion.
abbrev partial : List Val
partial = of_ty (int_ty 32) 1 ∷ of_ty (int_ty 1) 1001 ∷ []

plus_called :
    call_value builder no_binding 0 0 plus both begin
    ≡ ok (emit (call plus both) begin).0 (emit (call plus both) begin).1
unfolding call_value call_or_bind check_transform_args check_number transform_args transform_arg
    is_struct_kind native.Mathlib.Decide.ℕ_discrete
plus_called = refl

call_value-Fits_example :
    (ws : List Val) × (t : Ir) × Fits builder (params_of builder plus) ws
    × (((ends_with_expansion builder t ws ≡ false)
          × (emit (call plus ws) t
              ≡ ((emit (call plus both) begin).0, (emit (call plus both) begin).1)))
        ⊎ ((ends_with_expansion builder t ws ≡ true)
            × (partial_apply builder no_binding 0 plus (without_last ws) t
                ≡ ok (emit (call plus both) begin).0 (emit (call plus both) begin).1)))
call_value-Fits_example =
    call_value-Fits builder no_binding 0 0 plus both (emit (call plus both) begin).0 begin
      (emit (call plus both) begin).1 refl plus_called

partial_checked : check_transform_args builder no_binding 0 plus partial begin ≡ ok partial begin
unfolding check_transform_args check_number transform_args transform_arg transform_expansion
    is_struct_kind native.Mathlib.Decide.ℕ_discrete
partial_checked = refl

partial_apply-checked_example :
    (suc (length (without_last partial)) ≡ length (params_of builder plus))
    × (partial_apply builder no_binding 0 plus (without_last partial) begin
        ≡ bind_each builder no_binding plus (without_last partial) begin)
partial_apply-checked_example =
    partial_apply-checked builder no_binding 0 plus partial partial begin begin refl refl
      partial_checked refl

-- `f -> g (e) ()`
abbrev char : String → Ast
char c = node "char" c 0 nil

abbrev named : String → Ast
named n = node "ident|regex" n 0 nil

abbrev expressions : Ast
expressions = node "exprlist|lexp|term|factor|integral|regex" "3" 1 nil

abbrev then_g : Callable
then_g = record { arrow = char "->"; func = named "g" }

abbrev with_arguments : Group
with_arguments = filled (char "(") expressions (char ")")

abbrev without_arguments : Group
without_arguments = empty (char "(") (char ")")

read_arguments : AreGroups machine.string_ref (with_arguments ∷ without_arguments ∷ [])
unfolding get_outermost_ast_tag
read_arguments = ((refl, refl), ((refl, refl), tt))

argument_groups-callables_example :
    ((callables
        (named "f" ∷ chained (then_g ∷ []) ++ groups (with_arguments ∷ without_arguments ∷ []))).0
      ≡ named "f" ∷ named "g" ∷ [])
    × (argument_groups machine.string_ref
          (callables (
            named "f" ∷ chained (then_g ∷ [])
            ++ groups (with_arguments ∷ without_arguments ∷ []))).1
        ≡ (1, some expressions) ∷ (0, none) ∷ [])
argument_groups-callables_example =
    argument_groups-callables machine.string_ref (named "f") (then_g ∷ []) with_arguments
      (without_arguments ∷ []) (refl, refl) (refl, (refl, refl), tt) read_arguments
