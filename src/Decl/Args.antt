-- ===== src/Decl/Args.antt =====
-- ast/args.hpp: the parameters of a function.
pub mod Passable
use whack.Prelude.{
  String, ◌==◌, ◌||◌, ◌&&◌, Bool, true, false, Option, none, some, List, [], ◌∷◌, map,
  if◌then◌else◌, ℕ,
}
use whack.Outcome.{Exec, ◌>>=◌, pure}
use whack.Ast.{Ast, child, children, contents, get_innermost_ast_tag}
use whack.StringRef.{StringRef}
use whack.Llvm.{Llvm}
use whack.Metadata
use whack.Types.{get_underlying_type}
use whack.Types.Codegen.{evens, get_type, type_codegen}

pub record Arg : Type 0 where
  pub type : Ast
  pub name : String
  pub variadic : Bool

-- `<type> <ident>`
unfoldable pub typed_arg : Ast → Option Arg
typed_arg a = Metadata.◌>>=◌ (child a 0) λ t.
    Metadata.◌>>=◌ (child a 1) λ n. some (record { type = t; name = contents n; variadic = false })

-- `<variadictype> <ident>`: the type is the first child of the variadic one.
unfoldable pub variadic_arg : Ast → Option Arg
variadic_arg a = Metadata.◌>>=◌ (child a 0) λ v. Metadata.◌>>=◌ (child v 0) λ t.
    Metadata.◌>>=◌ (child a 1) λ n. some (record { type = t; name = contents n; variadic = true })

module _ (T : StringRef) where
  -- The loop of the constructor over the children 0, 2, 4, …
  unfoldable pub args_of : List Ast → Option (List Arg)
  args_of [] = some []
  args_of (a ∷ l) =
      Metadata.◌>>=◌
        (if get_innermost_ast_tag T a == "typeident" then typed_arg a else variadic_arg a)
        λ arg. Metadata.◌>>=◌ (args_of l) λ args. some (arg ∷ args)

  unfoldable pub args_of_ast : Ast → Option (List Arg)
  args_of_ast a =
      let t = get_innermost_ast_tag T a in
      if t == "variadicarg"
      then (Metadata.◌>>=◌ (variadic_arg a) λ arg. some (arg ∷ []))
      else if t == "typeident"
      then (Metadata.◌>>=◌ (typed_arg a) λ arg. some (arg ∷ []))
      else args_of (evens (children a))

-- `Args::variadic`: is the last one variadic?
unfoldable pub is_variadic : List Arg → Bool
is_variadic [] = false
is_variadic (a ∷ []) = a.variadic
is_variadic (a ∷ b ∷ l) = is_variadic (b ∷ l)

unfoldable pub arg_names : List Arg → List String
arg_names args = map (λ a. a.name) args

module _ (L : Llvm) where
  open L use {Ty, Mod, string_ref, is_function_ty, is_struct_ty, struct_name, pointer_to}
  open string_ref use {starts_with}

  abbrev pub is_interface_ty : Ty → Bool
  is_interface_ty t = is_struct_ty t && starts_with (struct_name t) "interface::"

  -- A parameter of a function type or an interface is passed by a pointer.
  unfoldable pub as_argument : Ty → Ty
  as_argument t =
      if is_function_ty (get_underlying_type L t) || is_interface_ty t then pointer_to t else t

  -- `Args::types`
  unfoldable pub arg_types : ℕ → List Arg → Exec Mod (List Ty)
  arg_types fuel [] = pure []
  arg_types fuel (a ∷ args) = type_codegen L (get_type L fuel) a.type >>= λ t.
      arg_types fuel args >>= λ ts. pure (as_argument t ∷ ts)
