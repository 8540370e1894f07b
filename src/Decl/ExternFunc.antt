-- ===== src/Decl/ExternFunc.antt =====
-- ast/externfunc.hpp: `extern func f(T, U) R;`, and `Type::getReturnType` of ast/type.hpp.
pub mod Signature
use whack.Prelude.{
  ℕ, ◌+◌, ◌-◌, String, ◌==◌, Bool, false, Option, none, some, List, [], ◌∷◌, if◌then◌else◌, ltb,
  length,
}
use whack.Outcome.{Exec, number, ◌>>=◌, ◌>>◌, pure, raise, modify, lift}
use whack.Ast.{Ast, child, children, row, contents, get_outermost_ast_tag}
use whack.StringRef.{StringRef}
use whack.Llvm.{Llvm}
use whack.Metadata
use whack.Types.Codegen.{TypeList, back, get_type, get_type_list}

pub record ExternFunc : Type 0 where
  pub row : ℕ
  pub name : String
  pub params : Option Ast
  pub returns : Option Ast

module _ (T : StringRef) where
  -- The node, if it is a list of types.
  abbrev if_type_list : Ast → Option Ast
  if_type_list a = if get_outermost_ast_tag T a == "typelist" then some a else none

  unfoldable pub extern_func_of_ast : Ast → Option ExternFunc
  extern_func_of_ast a = Metadata.◌>>=◌ (child a 2) λ n. Metadata.◌>>=◌ (child a 4) λ p.
      Metadata.◌>>=◌ (child a (length (children a) - 2)) λ r. some (record {
        row = row a;
        name = contents n;
        params = if_type_list p;
        returns = if_type_list r;
      })

module _ (L : Llvm) where
  open L use {Ty, Mod, void_ty, struct_ty, function_ty, create_function}

  -- `Type::getReturnType` of the types that a function returns.
  unfoldable pub get_return_type : ℕ → Option (TypeList Ty) → Exec Mod Ty
  get_return_type row none = pure void_ty
  get_return_type row (some l) =
      if l.1
      then raise "cannot use a variadic return type for function at line {}" (number (row + 1) ∷ [])
      else if ltb 1 (length l.0)
      then pure (struct_ty l.0)
      else lift (back l.0)

  -- A list of types that may be absent.
  unfoldable pub optional_list : ℕ → Option Ast → Exec Mod (Option (TypeList Ty))
  optional_list fuel none = pure none
  optional_list fuel (some a) = get_type_list L (get_type L fuel) a >>= λ l. pure (some l)

  abbrev pub function_of : Ty → Option (TypeList Ty) → Ty
  function_of ret none = function_ty ret [] false
  function_of ret (some l) = function_ty ret l.0 l.1

  -- `ExternFunc::type`
  unfoldable pub extern_func_type : ℕ → ExternFunc → Exec Mod Ty
  extern_func_type fuel f = do
    rets ← optional_list fuel f.returns
    ret ← get_return_type f.row rets
    params ← optional_list fuel f.params
    pure (function_of ret params)

  unfoldable pub extern_func_codegen : ℕ → ExternFunc → Exec Mod (Unit {0})
  extern_func_codegen fuel f = extern_func_type fuel f >>= λ t. modify (create_function t f.name)
