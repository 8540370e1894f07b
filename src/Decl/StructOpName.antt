-- ===== src/Decl/StructOpName.antt =====
-- The names of the operators of a struct: `getStructOpName` and `getStructOpNameString` of
-- ast/structop.hpp.
use whack.Prelude.{ℕ, ◌+◌, String, ◌==◌, ◌<>◌, Option, some, [], ◌∷◌, if◌then◌else◌}
use whack.Outcome.{Exec, number, ◌>>=◌, pure, raise}
use whack.Ast.{Ast, child, contents, get_outermost_ast_tag}
use whack.StringRef.{StringRef}
use whack.Llvm.{Llvm}
use whack.Metadata
use whack.Types.{get_type_name}
use whack.Types.Codegen.{get_type, type_codegen}

-- `structopname_t`
pub data StructOpName : Type 0 where
  by_text : String → StructOpName
  by_type : Ast → StructOpName

-- `getStructOpName`
unfoldable pub get_struct_op_name : StringRef → Ast → Option StructOpName
get_struct_op_name T a = Metadata.◌>>=◌ (child a 1) λ x.
    if get_outermost_ast_tag T x == "type" then some (by_type x) else some (by_text (contents x))

module _ (L : Llvm) where
  open L use {Ty, Mod, same_ty, auto_ty}

  -- `getStructOpNameString` of a type that is known.
  unfoldable pub name_of_type : ℕ → Ty → Exec Mod String
  name_of_type row t =
      if same_ty t auto_ty
      then raise "struct function cannot define an operator for deduced type auto at line {}"
          (number (row + 1) ∷ [])
      else pure ("operator " <> get_type_name L t)

  unfoldable pub get_struct_op_name_string : ℕ → StructOpName → ℕ → Exec Mod String
  get_struct_op_name_string fuel (by_text s) row = pure ("operator " <> s)
  get_struct_op_name_string fuel (by_type a) row =
      type_codegen L (get_type L fuel) a >>= name_of_type row
