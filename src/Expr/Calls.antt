-- ===== src/Expr/Calls.antt =====
-- ast/funccall.hpp: the arguments of a call, their check, partial application and chains of calls.
pub mod Checked
pub mod Chained
use whack.Prelude.{
  ℕ, zero, suc, ◌+◌, String, ◌==◌, ◌&&◌, Bool, true, false, Option, none, some, List, [], ◌∷◌,
  if◌then◌else◌, length, eqb, ltb,
}
use whack.Outcome.{
  Exec, Outcome, ok, failed, fault, out_of_fuel, text, number, ◌>>=◌, ◌>>◌, pure, raise, lift,
}
use whack.Ast.{Ast, child, children, contents, row, get_outermost_ast_tag, get_innermost_ast_tag}
use whack.StringRef.{StringRef}
use whack.Types.{is_struct_kind}
use whack.Builder.{Builder, load, call, build, loaded}
use whack.Expr.Interfaces.{bound_type, interface_cast}
use whack.Stmt.Values.{expr_nodes}

-- `pop_back()` of the arguments.
abbrev pub without_last : {A : Type 0} → List A → List A
without_last [] = []
without_last (x ∷ []) = []
without_last (x ∷ y ∷ l) = x ∷ without_last (y ∷ l)

-- The functions before the first `(`, and the children behind it.
unfoldable pub callables : List Ast → List Ast × List Ast
callables [] = ([], [])
callables (a ∷ l) =
    let rest = callables l in
    if contents a == "->" then rest else if contents a == "(" then ([], l) else (a ∷ rest.0, rest.1)

module _ (T : StringRef) where
  -- The groups of arguments, with the row of the child that a group begins with: a list of
  -- expressions and the `)` behind it, or `)` alone; then the `(` of the next group.
  unfoldable pub argument_groups : List Ast → List (ℕ × Option Ast)
  argument_groups [] = []
  argument_groups (x ∷ []) =
      (row x, if get_outermost_ast_tag T x == "exprlist" then some x else none) ∷ []
  argument_groups (x ∷ y ∷ []) =
      (row x, if get_outermost_ast_tag T x == "exprlist" then some x else none) ∷ []
  argument_groups (x ∷ y ∷ z ∷ l) = elim (get_outermost_ast_tag T x == "exprlist") [
    | true ↦ (row x, some x) ∷ argument_groups l
    | false ↦ (row x, none) ∷ argument_groups (z ∷ l)
  ]

module _ (B : Builder) where
  open B use {llvm, Val, Ir, type_of, is_gep, is_function, param_types, is_var_arg, get_name}
  open llvm use {
    Ty, string_ref, is_pointer_ty, is_function_ty, pointer_element_type, struct_name, same_ty,
  }

  abbrev pub is_expansion : Ir → Val → Bool
  is_expansion s v = get_name s v == "::expansion"

  -- `!arguments.empty() && arguments.back()->getName() == "::expansion"`
  abbrev pub ends_with_expansion : Ir → List Val → Bool
  ends_with_expansion s [] = false
  ends_with_expansion s (v ∷ []) = is_expansion s v
  ends_with_expansion s (v ∷ w ∷ vs) = ends_with_expansion s (w ∷ vs)

  abbrev pub is_interface : Ty → Bool
  is_interface t =
      let kind = is_struct_kind llvm t in
      kind.1 && StringRef.starts_with string_ref (struct_name kind.0) "interface::"

  module _ (expression : Ast → Exec Ir Val) where
    unfoldable pub get_arg : Ast → Exec Ir Val
    get_arg a = expression a >>= λ v. if is_gep v then build B (load v) else pure v

    -- The loop of `getArgs`.
    unfoldable pub get_each_arg : List Ast → Exec Ir (List Val)
    get_each_arg [] = pure []
    get_each_arg (a ∷ l) = get_arg a >>= λ v. get_each_arg l >>= λ vs. pure (v ∷ vs)

    -- `getArgs`
    unfoldable pub get_args : Ast → Exec Ir (List Val)
    get_args a = get_each_arg (expr_nodes string_ref a)

  -- `bindFirstFuncArgument`, as in Expr.Interfaces.
  module _ (bind_first : Val → Val → Ty → Exec Ir Val) where
    module _ (row : ℕ) (callee : Val) where
      -- The end of the body of the loop of `checkTransformArgs`.
      unfoldable pub transform_arg : ℕ → Ty → Val → Exec Ir Val
      transform_arg i t v s =
          if is_interface t
          then interface_cast B bind_first row t v s
          else if same_ty (type_of v) t
          then pure v s
          else raise "invalid type given for argument {} of call to function `{}` at line {}"
              (number (i + 1) ∷ text (get_name s callee) ∷ number (row + 1) ∷ []) s

      -- An expansion stands at the end.
      unfoldable pub transform_expansion : ℕ → Val → List Val → Exec Ir (List Val)
      transform_expansion i v vs s =
          if eqb (length vs) 0
          then pure (v ∷ []) s
          else raise "cannot use an expansion as argument {} in call to function `{}` at line {}"
              (number i ∷ text (get_name s callee) ∷ number (row + 1) ∷ []) s

      -- The loop, from the argument `i` on; there are as many parameters as arguments.
      unfoldable pub transform_args : ℕ → List Ty → List Val → Exec Ir (List Val)
      transform_args i ts [] s = pure [] s
      transform_args i [] (v ∷ vs) s = fault
      transform_args i (t ∷ ts) (v ∷ vs) s =
          if is_expansion s v
          then transform_expansion i v vs s
          else (transform_arg i t v >>= λ w. transform_args (suc i) ts vs >>= λ ws. pure (w ∷ ws)) s

      -- The number of arguments, and the loop.
      unfoldable pub check_number : List Ty → List Val → Exec Ir (List Val)
      check_number params args s =
          if eqb (length params) (length args)
          then transform_args 0 params args s
          else raise
              "invalid number of arguments given for function `{}` at line {} (expected {}, got {})"
              (text (get_name s callee)
                ∷ number (row + 1)
                ∷ number (length params)
                ∷ number (length args)
                ∷ [])
              s

      -- `checkTransformArgs`; it gives the arguments that it has changed in place.
      unfoldable pub check_transform_args : List Val → Exec Ir (List Val)
      check_transform_args args s =
          let t = type_of callee in
          let f = pointer_element_type t in
          if is_pointer_ty t && is_function_ty f
          then (if is_var_arg f then pure args s else check_number (param_types f) args s)
          else raise "expected `{}` to be callable at line {}"
              (text (get_name s callee) ∷ number (row + 1) ∷ []) s

    -- The loop of `partialApply`.
    unfoldable pub bind_each : Val → List Val → Exec Ir Val
    bind_each f [] = pure f
    bind_each f (a ∷ l) = lift (bound_type B f) >>= bind_first f a >>= λ g. bind_each g l

    -- `partialApply`
    unfoldable pub partial_apply : ℕ → Val → List Val → Exec Ir Val
    partial_apply row f args s =
        let params = length (param_types (pointer_element_type (type_of f))) in
        if is_function f
        then if ltb (length args) params
          then bind_each f args s
          else raise
              "cannot partially applicate function `{}` (number of arguments exceeds {}, got {}) at line {}"
              (text (get_name s f) ∷ number params ∷ number (length args) ∷ number (row + 1) ∷ []) s
        else fault

    -- A call of a value, or what is left of it if its arguments end with an expansion.
    unfoldable pub call_or_bind : ℕ → Val → List Val → Exec Ir Val
    call_or_bind line f args s =
        if ends_with_expansion s args
        then partial_apply line f (without_last args) s
        else build B (call f args) s

    -- The line of the whole call, and that of the arguments.
    unfoldable pub call_value : ℕ → ℕ → Val → List Val → Exec Ir Val
    call_value line row f args = check_transform_args row f args >>= call_or_bind line f

    -- The functions behind the first, each called with the value before.
    unfoldable pub call_chain : ℕ → Val → List Val → Exec Ir Val
    call_chain row v [] = pure v
    call_chain row v (g ∷ gs) = check_transform_args row g (v ∷ []) >>= λ args.
        build B (call g args) >>= λ w. call_chain row w gs

    -- The first group of arguments; without a function `value` is not set.
    unfoldable pub call_first : ℕ → ℕ → List Val → List Val → Exec Ir Val
    call_first line row [] args = λ s. fault
    call_first line row (f ∷ fs) args = call_value line row f args >>= λ v. call_chain row v fs

    module _ (factor expression : Ast → Exec Ir Val) where
      unfoldable pub group_args : Option Ast → Exec Ir (List Val)
      group_args none = pure []
      group_args (some a) = get_args expression a

      -- The groups behind the first.
      unfoldable pub call_groups : ℕ → Val → List (ℕ × Option Ast) → Exec Ir Val
      call_groups line v [] = pure v
      call_groups line v ((row, e) ∷ gs) =
          group_args e >>= call_value line row v >>= λ w. call_groups line w gs

      -- Without a group `value` is not set.
      unfoldable pub call_all : ℕ → List Val → List (ℕ × Option Ast) → Exec Ir Val
      call_all line fs [] = λ s. fault
      call_all line fs ((row, e) ∷ gs) =
          group_args e >>= call_first line row fs >>= λ v. call_groups line v gs

      unfoldable pub get_functions : List Ast → Exec Ir (List Val)
      get_functions [] = pure []
      get_functions (a ∷ l) = factor a >>= loaded B >>= λ f. get_functions l >>= λ fs. pure (f ∷ fs)

      -- `FuncCall::call`; the first child, by whose text the constructor tells `await` and `async`.
      unfoldable pub call_codegen : Ast → Ast → Exec Ir Val
      call_codegen first a =
          if contents first == "await"
          then raise "awaitable function calls not implemented at line {}" (number (row a + 1) ∷ [])
          else if contents first == "async"
          then raise "async function calls not implemented at line {}" (number (row a + 1) ∷ [])
          else (let parts = callables (children a) in
              get_functions parts.0 >>= λ fs.
              call_all (row a) fs (argument_groups string_ref parts.1))

      -- `DataClass::construct` is a parameter; its error is dropped.
      module _ (construct : Ast → Exec Ir Val) where
        unfoldable pub constructed : ℕ → Outcome Ir Val → Outcome Ir Val
        constructed row (ok v s) = ok v s
        constructed row (failed e s) =
            raise "cross-module func calls not implemented at line {}" (number (row + 1) ∷ []) s
        constructed row fault = fault
        constructed row out_of_fuel = out_of_fuel

        -- `FuncCall::codegen` behind the constructor.
        unfoldable pub func_call_within : Ast → Ast → Exec Ir Val
        func_call_within first a s =
            if contents first == "await"
            then call_codegen first a s
            else if contents first == "async"
            then call_codegen first a s
            else if get_innermost_ast_tag string_ref first == "scoperes"
            then if eqb (length (children first)) 3
              then constructed (row a) (construct a s)
              else raise "cross-module func calls not implemented at line {}"
                  (number (row a + 1) ∷ []) s
            else call_codegen first a s

        -- `FuncCall::codegen`
        unfoldable pub func_call_codegen : Ast → Exec Ir Val
        func_call_codegen a = lift (child a 0) >>= λ first. func_call_within first a

        -- `FuncCallStmt::codegen`; the warning on a value that is discarded is output only.
        unfoldable pub func_call_stmt_codegen : Ast → Exec Ir (Unit {0})
        func_call_stmt_codegen a = func_call_codegen a >> pure tt
