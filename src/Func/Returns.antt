-- ===== src/Func/Returns.antt =====
-- `getFuncType` and `deduceFuncReturnType` of ast/function.hpp.
pub mod Agree
use whack.Prelude.{
  ℕ, zero, suc, ◌+◌, String, Bool, true, false, Option, none, some, List, [], ◌∷◌, ◌++◌,
  if◌then◌else◌,
}
use whack.Outcome.{Exec, Outcome, ok, text, number, ◌>>=◌, pure, raise}
use whack.Ast.{Ast}
use whack.Llvm.{Llvm}
use whack.Types.Codegen.{get_type}
use whack.Decl.Args.{Arg, arg_types, is_variadic}
use whack.Decl.ExternFunc.{get_return_type, optional_list}
use whack.Builder.{Builder, Instr, ret, ret_void, aggregate_ret}

module _ (L : Llvm) where
  open L use {Ty, Mod, same_ty, function_ty}

  -- `getFuncType` of a type that is returned.
  unfoldable pub func_type_of : ℕ → Ty → Option (List Arg) → Exec Mod Ty
  func_type_of fuel returned none = pure (function_ty returned [] false)
  func_type_of fuel returned (some args) =
      arg_types L fuel args >>= λ ts. pure (function_ty returned ts (is_variadic args))

  -- `getFuncType` of a list of types that is returned.
  unfoldable pub get_func_type : ℕ → Option Ast → Option (List Arg) → ℕ → Exec Mod Ty
  get_func_type fuel returns args row = optional_list L fuel returns >>= λ types.
      get_return_type L row types >>= λ returned. func_type_of fuel returned args

  -- The loop of `deduceFuncReturnType` over the types that the returns give, from what is deduced so
  -- far on; `none` is a conflict.
  unfoldable pub deduce : Option Ty → List Ty → Option (Option Ty)
  deduce found [] = some found
  deduce none (t ∷ ts) = deduce (some t) ts
  deduce (some d) (t ∷ ts) = let rest = deduce (some d) ts in if same_ty d t then rest else none

module _ (B : Builder) where
  open B use {llvm, Val, Block, Ir, type_of, current_return_type, blocks, code, function_name}
  open llvm use {Ty, void_ty}

  -- The types that the returns of a list of instructions give. A struct of several values is made
  -- as one of the type of the function.
  unfoldable pub returns_of : Ty → List (Instr Ty Val Block) → List Ty
  returns_of current [] = []
  returns_of current (ret v ∷ l) = type_of v ∷ returns_of current l
  returns_of current (ret_void ∷ l) = void_ty ∷ returns_of current l
  returns_of current (aggregate_ret vs ∷ l) = current ∷ returns_of current l
  returns_of current (_ ∷ l) = returns_of current l

  -- The same of all blocks, in order.
  unfoldable pub returns_in : Ir → List Block → List Ty
  returns_in s [] = []
  returns_in s (b ∷ bs) = returns_of (current_return_type s) (code s b) ++ returns_in s bs

  -- What is answered: a type, the null pointer, or the error of a conflict.
  unfoldable pub deduced : ℕ → Ir → Option (Option Ty) → Outcome Ir (Option Ty)
  deduced row s none =
      raise "type error: conflicting return types in function `{}` at line {}"
        (text (function_name s) ∷ number (row + 1) ∷ []) s
  deduced row s (some t) = ok t s

  -- `deduceFuncReturnType`; `none` stands for the null pointer.
  unfoldable pub deduce_func_return_type : ℕ → Exec Ir (Option Ty)
  deduce_func_return_type row s = deduced row s (deduce llvm none (returns_in s (blocks s)))
