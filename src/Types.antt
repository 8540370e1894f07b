-- ===== src/Types.antt =====
-- types.hpp and the helpers of `Type` in ast/type.hpp: the basic types, how a type is printed and
-- what lies behind its pointers.
pub mod Names
pub mod Scalars
pub mod Codegen
pub mod Fuel
use whack.Prelude.{
  ℕ, zero, suc, ◌+◌, String, ◌==◌, ◌<>◌, Bool, true, false, Option, none, some, if◌then◌else◌, eqb,
}
use whack.StringRef.{StringRef}
use whack.Llvm.{Llvm}

module _ (L : Llvm) where
  open L use {
    Ty, same_ty, void_ty, int_ty, half_ty, float_ty, double_ty, auto_ty, pointer_to, is_pointer_ty,
    pointer_element_type, is_integer_ty, is_floating_point_ty, is_struct_ty, is_function_ty,
    primitive_size_in_bits, struct_name, pointer_depth, string_ref,
  }

  -- `BasicTypes[name]`; the placeholder of `auto` is the struct type that the table creates.
  unfoldable pub basic_type : String → Option Ty
  basic_type name =
      if name == "void"
      then some void_ty
      else if name == "bool"
      then some (int_ty 1)
      else if name == "char"
      then some (int_ty 8)
      else if name == "short"
      then some (int_ty 16)
      else if name == "int"
      then some (int_ty 32)
      else if name == "int64"
      then some (int_ty 64)
      else if name == "int128"
      then some (int_ty 128)
      else if name == "half"
      then some half_ty
      else if name == "double"
      then some double_ty
      else if name == "float"
      then some float_ty
      else if name == "auto"
      then some auto_ty
      else none

  -- `while (type->isPointerTy())`: the type behind the pointers and how many there are. The fuel
  -- given below is their number, `pointer_depth`.
  unfoldable pub peel : ℕ → Ty → Ty × ℕ
  peel zero t = (t, 0)
  peel (suc f) t =
      let behind = peel f (pointer_element_type t) in
      if is_pointer_ty t then (behind.0, suc behind.1) else (t, 0)

  -- What `getTypeName` writes for a type that is no pointer; an unknown kind is a warning, and
  -- nothing is written.
  unfoldable pub base_name : Ty → String
  base_name t =
      if is_integer_ty t
      then (let w = primitive_size_in_bits t in
          if eqb w 1
          then "bool"
          else if eqb w 8
          then "char"
          else if eqb w 16
          then "short"
          else if eqb w 32
          then "int"
          else if eqb w 64
          then "int64"
          else if eqb w 128
          then "int128"
          else "")
      else if is_floating_point_ty t
      then (let w = primitive_size_in_bits t in
          if eqb w 16
          then "half"
          else if eqb w 32
          then "float"
          else if eqb w 64
          then "double"
          else "")
      else if is_struct_ty t
      then (let name = struct_name t in
          if StringRef.starts_with string_ref name "interface::"
          then StringRef.substr string_ref name 11
          else name)
      else ""

  -- `while (numPointers--) { os << '*'; }`
  abbrev pub stars : ℕ → String
  stars zero = ""
  stars (suc n) = "*" <> stars n

  unfoldable pub get_type_name : Ty → String
  unfolding peel base_name
  get_type_name t = let p = peel (pointer_depth t) t in base_name p.0 <> stars p.1

  -- `Type::getUnderlyingType`
  unfoldable pub get_underlying_type : Ty → Ty
  unfolding peel
  get_underlying_type t = (peel (pointer_depth t) t).0

  -- `Type::isStructKind`
  unfoldable pub is_struct_kind : Ty → Ty × Bool
  is_struct_kind t =
      if is_struct_ty t
      then (t, true)
      else if is_pointer_ty t
      then (if is_struct_ty (pointer_element_type t)
          then (pointer_element_type t, true)
          else (t, false))
      else (t, false)

  -- `type->getPointerTo(0)`, n times
  abbrev pub pointers : ℕ → Ty → Ty
  pointers zero t = t
  pointers (suc n) t = pointer_to (pointers n t)
