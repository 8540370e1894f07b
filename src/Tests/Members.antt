-- ===== src/Tests/Members.antt =====
-- The theorems on members, constructors, casts, lists of values and matches, applied.
use native.Mathlib.Decide.{ℕ_discrete}
use whack.Prelude.{
  ℕ, ◌≡◌, ◌≢◌, refl, ◌==◌, true, false, some, none, List, [], ◌∷◌, ◌<◌, get_elem?, ◌↔◌, drop,
  if◌then◌else◌,
}
use whack.Outcome.{ok, Exec}
use whack.Ast.{Ast, children, node, nil, cons, contents, get_innermost_ast_tag, after_last_bar}
use whack.Builder.{convert, fp_to_si, back, on_module, finally}
use whack.Stmt.Values.{expr_nodes}
use whack.Syntax.Expression.{get_expr_list}
use whack.Types.Codegen.{
  get_type, get_type_list, type_codegen, is_mutable, codegen_ref, or_no_such_type,
  get_from_type_name, wrap_function,
}
use whack.Types.{basic_type, get_underlying_type, peel}
use whack.Types.Scalars.{int, type_ast}
use whack.Stmt.Matches.{
  Alternative, alternatives, match_options, option_values, accept_option, value_aside,
  type_switch_codegen, run_default,
}
use whack.Stmt.Matches.Options.{all_values, match_options-once}
use whack.Stmt.Matches.Selected.{IsLastDefault, Selects, selects_this, type_switch_codegen-select}
use whack.Func.Structs.{
  StructFunc, struct_func_codegen, define_struct_func, make_struct_func, build_member, member_type,
  func_params, prepare_func, prepare_this,
}
use whack.Func.Structs.Declared.{Declares, struct_func_codegen-eq-ok_iff}
use whack.Func.Codegen.{
  build_function, finish_function, settle_return_type, settle_declared, close_function, close_block,
  return_at,
}
use whack.Func.Returns.{deduce_func_return_type, returns_in, returns_of, deduce, deduced}
use whack.Decl.ExternFunc.{get_return_type, optional_list}
use whack.Expr.InitList.{init_list_of}
use whack.Expr.InitList.Elements.{MakesArray, init_list_of-MakesArray_iff}
use whack.Expr.Members.{construct_named, cast_value}
use whack.Expr.Members.Casts.{cast_value-Converts, to_integer}
use whack.Expr.Members.Constructors.{construct_named-first}
use whack.Tests.Nodes.{Ty, int_ty, void_ty, double_ty, named_ty, array_ty}
use whack.Tests.Machine.{Mod, machine, empty_mod}
use whack.Tests.Build.{builder, Ir, Val, of_ty, start}
use whack.Tests.Expressions.{begin, literal, sign}
use whack.Tests.Functions.{nothing_built, no_scope, always, deferred}
use whack.Tests.Classes.{shape, shape-AreLow, with_shape, shape_defined}

-- `func (mut S) f()` in a module with the struct `S`.
abbrev with_s : Mod
with_s = record empty_mod { types = λ n. if n == "S" then some (named_ty "S") else none }

abbrev struct_f : StructFunc
struct_f = record {
  row = 0;
  mutates_members = true;
  struct_name = "S";
  func_name = "f";
  args = none;
  returns = none;
  body = some deferred;
}

abbrev with_f : Mod
with_f = elim (struct_func_codegen builder nothing_built no_scope 1 struct_f with_s) as (λ x. Mod) [
  | ok u m ↦ m
  | _ ↦ empty_mod
]

f_declared : struct_func_codegen builder nothing_built no_scope 1 struct_f with_s ≡ ok tt with_f
unfolding struct_func_codegen define_struct_func make_struct_func build_member member_type
    func_params prepare_func prepare_this get_return_type optional_list build_function
    finish_function deduce_func_return_type deduced deduce returns_in returns_of settle_return_type
    settle_declared close_function close_block return_at back
f_declared = refl

struct_func_codegen-eq-ok_iff_example :
    Declares builder nothing_built no_scope 1 struct_f with_s with_f
struct_func_codegen-eq-ok_iff_example =
    (struct_func_codegen-eq-ok_iff builder nothing_built no_scope 1 struct_f with_s with_f).0
      f_declared

construct_named-first_example :
    construct_named builder always 0 "Shape" "Empty" (literal "1") (start void_ty "f" with_shape)
    ≢ ok (of_ty (int_ty 32) 0) begin
construct_named-first_example =
    construct_named-first builder always 0 1 shape (record { name = "Empty"; types = none }) _
      empty_mod with_shape [] (literal "1") (start void_ty "f" with_shape) begin
      (of_ty (int_ty 32) 0) refl refl shape-AreLow refl refl shape_defined refl

abbrev no_bind : Val → Val → Ty → Exec Ir Val
no_bind f v t s = ok f s

cast_value-Converts_example :
    (cast_value builder no_bind always 0 (of_ty double_ty 3) (int_ty 32) begin
      ≡ ok
          (of_ty (int_ty 32) 3)
          (builder.emit (convert fp_to_si (of_ty double_ty 3) (int_ty 32)) begin).1)
    × ((of_ty (int_ty 32) 3).ty ≡ int_ty 32)
cast_value-Converts_example =
    cast_value-Converts builder no_bind always 0 (of_ty double_ty 3) (int_ty 32) (some fp_to_si)
      begin (to_integer double_ty (int_ty 32) refl refl refl)

abbrev two_ints : Ty
two_ints = array_ty (int_ty 32) 2

abbrev number_of : ℕ → Val
number_of n = of_ty (int_ty 32) n

abbrev array : Val
array = of_ty two_ints 0

init_list_of-MakesArray_iff_example :
    (init_list_of builder 0 two_ints (number_of 3 ∷ number_of 4 ∷ []) begin ≡ ok array begin)
    ↔ (MakesArray builder 0 two_ints (number_of 3 ∷ number_of 4 ∷ []) array × (begin ≡ begin))
init_list_of-MakesArray_iff_example =
    init_list_of-MakesArray_iff builder 0 two_ints (number_of 3 ∷ number_of 4 ∷ []) array begin
      begin refl refl

-- `match (x) { 1: … 2: … }`
abbrev option_one : Ast
option_one = node "exprlist|>" "1" 0 nil

abbrev digit : Ast → Exec Ir Val
digit a s = ok (number_of (if contents a == "1" then 1 else 2)) s

abbrev two_options : List Alternative
two_options =
    record { options = literal "1"; stmt = deferred }
    ∷ record { options = literal "2"; stmt = deferred }
    ∷ []

abbrev read_options : List (List Val × Ast)
read_options = (number_of 1 ∷ [], deferred) ∷ (number_of 2 ∷ [], deferred) ∷ []

two_read :
    match_options builder digit nothing_built no_scope (int_ty 32) [] two_options begin
    ≡ ok read_options begin
unfolding match_options option_values accept_option expr_nodes get_expr_list get_innermost_ast_tag
    ℕ_discrete
two_read = refl

match_options-once_example :
    ((i : ℕ) (v : Val) → get_elem? (all_values builder read_options) i ≡ some v → v.ty ≡ int_ty 32)
    × ((i j : ℕ) (v : Val)
        → i < j
        → get_elem? (all_values builder read_options) i ≡ some v
        → get_elem? (all_values builder read_options) j ≡ some v
        → ⊥)
match_options-once_example =
    match_options-once builder digit nothing_built no_scope (int_ty 32) two_options read_options
      begin begin two_read

-- `match type (x) { int: … default: … }`
abbrev int_option : Alternative
int_option = record { options = type_ast int 0 0; stmt = deferred }

abbrev other_stmt : Ast
other_stmt = node "stmt|deferstmt|>" "" 1 nil

abbrev default_option : Alternative
default_option = record { options = sign "default"; stmt = other_stmt }

abbrev type_switch_node : Ast
type_switch_node = node "typeswitch|>" "" 0 (
    cons (sign "match") (
      cons (sign "type") (
        cons (sign "(") (
          cons (literal "2") (
            cons (sign ")") (
              cons (sign "{") (
                cons (type_ast int 0 0) (
                  cons (sign ":") (
                    cons deferred (
                      cons (sign "default")
                        (cons (sign ":") (cons other_stmt (cons (sign "}") nil)))))))))))))

abbrev aside : Ir
aside = elim (value_aside builder digit nothing_built no_scope 1 (literal "2") begin) as (λ x. Ir) [
  | ok v s ↦ s
  | _ ↦ begin
]

value_read :
    value_aside builder digit nothing_built no_scope 1 (literal "2") begin ≡ ok (number_of 2) aside
unfolding value_aside finally
value_read = refl

int_read :
    (s : Ir)
    → on_module builder (get_type_list machine (get_type machine 1) (type_ast int 0 0)) s
      ≡ ok (int_ty 32 ∷ [], false) s
unfolding get_type_list get_type wrap_function get_underlying_type peel type_codegen is_mutable
    codegen_ref or_no_such_type get_from_type_name basic_type get_innermost_ast_tag after_last_bar
    on_module
int_read s = refl

options_read :
    alternatives (drop 6 (children type_switch_node)) ≡ some (int_option ∷ default_option ∷ [])
unfolding alternatives
options_read = refl

last_default : IsLastDefault builder (int_option ∷ default_option ∷ []) (some other_stmt)
last_default = (1, default_option, refl, refl, refl, λ i a e. cc)

first_option :
    Selects builder 1
      (int_ty 32)
      (some other_stmt)
      (int_option ∷ default_option ∷ [])
      aside
      (some deferred)
      aside
first_option = selects_this (int_ty 32 ∷ []) 0 refl (int_read aside) refl

type_switch_codegen-select_example :
    type_switch_codegen builder digit nothing_built no_scope 1 type_switch_node begin
    ≡ run_default builder digit nothing_built no_scope 1 (some deferred) aside
type_switch_codegen-select_example =
    type_switch_codegen-select builder digit nothing_built no_scope 1 type_switch_node (literal "2")
      (int_option ∷ default_option ∷ []) (number_of 2) (some other_stmt) (some deferred) begin aside
      aside refl options_read value_read last_default first_option
