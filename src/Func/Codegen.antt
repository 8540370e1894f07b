-- ===== src/Func/Codegen.antt =====
-- `buildFunction` and the class `Function` of ast/function.hpp.
pub mod Closed
pub mod Typed
use whack.Prelude.{
  ℕ, zero, suc, ◌+◌, String, ◌==◌, Bool, true, false, Option, none, some, List, [], ◌∷◌,
  if◌then◌else◌, not,
}
use whack.Outcome.{
  Exec, Outcome, ok, failed, fault, out_of_fuel, bind, text, number, ◌>>=◌, ◌>>◌, pure, raise, lift,
  gets,
}
use whack.Ast.{Ast, child, children, contents, row, get_outermost_ast_tag}
use whack.StringRef.{StringRef}
use whack.Llvm.{Llvm}
use whack.Metadata
use whack.Decl.Args.{Arg, args_of_ast, arg_names}
use whack.Builder.{Builder, Instr, ret, ret_void, aggregate_ret, build, effect, back}
use whack.Stmt.Branches.{Exit, new_block}
use whack.Func.Returns.{get_func_type, deduce_func_return_type}

pub record Function : Type 0 where
  pub row : ℕ
  pub name : String
  pub args : Option (List Arg)
  pub returns : Option Ast
  pub body : Ast

module _ (T : StringRef) where
  -- The type list, if there is one, and the body; `at` is `endIdx`.
  unfoldable pub function_parts : Ast → Option (List Arg) → ℕ → Option Function
  function_parts a args at = Metadata.◌>>=◌ (child a 1) λ n. Metadata.◌>>=◌ (child a at) λ x.
      let returns = if get_outermost_ast_tag T x == "typelist" then some x else none in
      Metadata.◌>>=◌ (if get_outermost_ast_tag T x == "body" then some x else child a (suc at)) λ b.
        some (record { row = row a; name = contents n; args = args; returns = returns; body = b })

  -- The constructor of `Function`
  unfoldable pub function_of_ast : Ast → Option Function
  function_of_ast a = Metadata.◌>>=◌ (child a 3) λ x.
      if get_outermost_ast_tag T x == "args"
      then (Metadata.◌>>=◌ (args_of_ast T x) λ args. function_parts a (some args) 5)
      else function_parts a none 4

-- Does an instruction return?
abbrev pub is_return : {Ty Val Block : Type 0} → Instr Ty Val Block → Bool
is_return (ret v) = true
is_return ret_void = true
is_return (aggregate_ret vs) = true
is_return _ = false

module _ (B : Builder) where
  open B use {
    llvm, Val, Block, Ir, null_value, function_name, current_return_type, with_return_type, blocks,
    set_insert_point, set_arg_name, add_read_only, start_function, get_module,
  }
  open llvm use {Ty, Mod, same_ty, auto_ty, void_ty}

  abbrev pub invalid_return : ℕ → Exec Ir (Unit {0})
  invalid_return row s =
      raise "function `{}` returns an invalid type at line {}"
        (text (function_name s) ∷ number (row + 1) ∷ []) s

  -- A function that is declared `auto`.
  unfoldable pub settle_auto : ℕ → Option Ty → Exec Ir (Unit {0})
  settle_auto row none s =
      raise "expected function `{}` to have a return value at line {}"
        (text (function_name s) ∷ number (row + 1) ∷ []) s
  settle_auto row (some t) s = effect B (with_return_type t) s

  -- A function that is declared with a type: it has to be the one that is deduced.
  unfoldable pub settle_declared : ℕ → Ty → Option Ty → Exec Ir (Unit {0})
  settle_declared row declared none = invalid_return row
  settle_declared row declared (some t) = if same_ty t declared then pure tt else invalid_return row

  -- The type that is declared against the one that is deduced.
  unfoldable pub settle_return_type : ℕ → Option Ty → Exec Ir (Unit {0})
  settle_return_type row deduced s =
      let declared = current_return_type s in
      if same_ty declared auto_ty
      then settle_auto row deduced s
      else if same_ty declared void_ty
      then pure tt s
      else settle_declared row declared deduced s

  -- `func->back()`
  abbrev pub last_block : List Block → Option Block
  last_block [] = none
  last_block (b ∷ []) = some b
  last_block (b ∷ c ∷ l) = last_block (c ∷ l)

  -- The return at the end of a block that has none; for a type there is a warning.
  unfoldable pub return_at : Block → Exec Ir (Unit {0})
  return_at block =
      effect B (set_insert_point block)
      >> (gets current_return_type >>= λ t.
          if same_ty t void_ty
          then build B ret_void >> pure tt
          else build B (ret (null_value t)) >> pure tt)

  -- A block, by the instruction that it ends with.
  unfoldable pub close_block : Block → Option (Instr Ty Val Block) → Exec Ir (Unit {0})
  close_block block none = return_at block
  close_block block (some i) = if is_return i then pure tt else return_at block

  -- The end of `buildFunction`: the last block ends with a return.
  unfoldable pub close_function : Exec Ir (Unit {0})
  close_function s = elim (last_block (blocks s)) [
    | none ↦ fault
    | some b ↦ close_block b (back B s b) s
  ]

  -- What is done with a body that is built.
  unfoldable pub finish_function : ℕ → Exec Ir (Unit {0})
  finish_function row =
      deduce_func_return_type B row >>= λ deduced. settle_return_type row deduced >> close_function

  -- The loops of `Function::codegen` over the parameters, from the index `i` on. No parameter is
  -- marked `mut`, so that each is read only.
  unfoldable pub name_args : ℕ → List String → Ir → Ir
  name_args i [] s = s
  name_args i (n ∷ names) s = name_args (suc i) names (set_arg_name i n s)

  unfoldable pub protect_args : ℕ → List String → Ir → Ir
  protect_args i [] s = s
  protect_args i (n ∷ names) s = protect_args (suc i) names (add_read_only i s)

  abbrev pub prepare_args : Option (List Arg) → Ir → Ir
  prepare_args none s = s
  prepare_args (some args) s = protect_args 0 (arg_names args) (name_args 0 (arg_names args) s)

  -- The end of a function: the module that it was built in.
  abbrev pub leave : Outcome Ir (Unit {0}) → Outcome Mod (Unit {0})
  leave (ok a s) = ok a (get_module s)
  leave (failed e s) = failed e (get_module s)
  leave fault = fault
  leave out_of_fuel = out_of_fuel

  -- `codegen` and `runScopeExit` of the body.
  module _ (body : Ast → Exec Ir (Exit Block)) (run_exit : Exit Block → Exec Ir (Unit {0})) where
    -- `buildFunction`
    unfoldable pub build_function : ℕ → Ast → Exec Ir (Unit {0})
    build_function row a = do
      entry ← new_block B "entry"
      effect B (set_insert_point entry)
      e ← body a
      run_exit e
      finish_function row

    -- `Function::codegen`
    unfoldable pub function_codegen : ℕ → Function → Exec Mod (Unit {0})
    function_codegen fuel f = get_func_type llvm fuel f.returns f.args f.row >>= λ t m. leave (
        (effect B (prepare_args f.args) >> build_function f.row f.body) (start_function t f.name m))
