-- ===== src/Expr/Members.antt =====
-- ast/structmember.hpp, `DataClass::construct` of ast/dataclass.hpp and ast/fncast.hpp: a member of
-- a struct, a value of a data class, and a cast.
pub mod Casts
pub mod Constructors
use whack.Prelude.{
  ℕ, zero, suc, ◌+◌, ◌%◌, ◌^◌, String, ◌==◌, ◌<>◌, ◌&&◌, ◌||◌, Bool, true, false, Option, none,
  some, List, [], ◌∷◌, if◌then◌else◌, length, eqb, not,
}
use whack.Outcome.{Exec, text, number, ◌>>=◌, ◌>>◌, pure, raise, lift, fault, gets}
use whack.Ast.{Ast, child, children, contents, row, get_outermost_ast_tag, get_innermost_ast_tag}
use whack.StringRef.{StringRef}
use whack.Metadata.{get_metadata_part_index}
use whack.Types.{is_struct_kind, get_type_name}
use whack.Types.Codegen.{get_type, type_codegen}
use whack.Decl.StructOpName.{get_struct_op_name, get_struct_op_name_string}
use whack.Builder.{
  Builder, Conversion, si_to_fp, z_ext_or_trunc, fp_to_si, fp_trunc, fp_ext, bit_or_pointer_cast,
  load, store, call, alloca, struct_gep, convert, build, effect, on_module,
}
use whack.Expr.Interfaces.{bind_this, interface_cast}
use whack.Stmt.Values.{expr_nodes}

module _ (B : Builder) where
  open B use {
    llvm, Val, Ir, type_of, const_int, struct_elements, get_module, get_function, lookup, set_name,
    get_name, asserts,
  }
  open llvm use {
    Ty, string_ref, int_ty, float_ty, double_ty, same_ty, is_pointer_ty, is_integer_ty,
    is_floating_point_ty, pointer_element_type, struct_name, get_type_by_name,
  }

  abbrev pub is_interface_name : String → Bool
  is_interface_name name = StringRef.starts_with string_ref name "interface::"

  -- `getMetadataPartIndex`
  abbrev pub part_index : String → String → String → Exec Ir (Option ℕ)
  part_index metadata name part s =
      lift (get_metadata_part_index llvm (get_module s) metadata name part) s

  -- `bindFirstFuncArgument`, as in Expr.Interfaces.
  module _ (bind_first : Val → Val → Ty → Exec Ir Val) where
    -- The name of a member: that of an operator, or as it is written.
    unfoldable pub member_name_of : ℕ → ℕ → Ast → Exec Ir String
    member_name_of fuel line ref =
        if get_innermost_ast_tag string_ref ref == "structopname"
        then (lift (get_struct_op_name string_ref ref) >>= λ o.
            on_module B (get_struct_op_name_string llvm fuel o line))
        else pure (contents ref)

    -- A field.
    unfoldable pub select_field : Ty → Val → ℕ → String → Exec Ir Val
    select_field t v i member = build B (struct_gep t v i member) >>= λ p.
        if is_interface_name (struct_name t) then build B (load p) else pure p

    -- A member function, bound to the struct.
    unfoldable pub select_function : Val → Val → String → Exec Ir Val
    select_function f v member = bind_this B bind_first f v >>= λ g.
        gets (λ s. get_name s g) >>= λ name.
        effect B (set_name g (name <> ("." <> member))) >> pure g

    unfoldable pub select_member : Ty → Val → ℕ → String → Option ℕ → Exec Ir Val
    select_member t v row member (some i) s = select_field t v i member s
    select_member t v row member none s =
        elim (get_function s ("struct::" <> (struct_name t <> ("::" <> member)))) [
          | some f ↦ select_function f v member s
          | none ↦
              raise "`{}` is not a field or member function for struct `{}` at line {}"
                (text member ∷ text (struct_name t) ∷ number (row + 1) ∷ []) s
        ]

    -- The body of the loop; `before` is the text of the child two places before.
    unfoldable pub member_step : ℕ → ℕ → String → Ast → Val → Exec Ir Val
    member_step fuel line before ref v =
        let kind = is_struct_kind llvm (type_of v) in
        if kind.1
        then (member_name_of fuel line ref >>= λ member.
            part_index "structures" (struct_name kind.0) member
            >>= select_member kind.0 v (row ref) member)
        else raise "expected `{}` to be a struct type at line {}"
            (text before ∷ number (line + 1) ∷ [])

    -- The loop over the children 2, 4, …; given are those from the `.` on.
    unfoldable pub member_steps : ℕ → ℕ → String → List Ast → Val → Exec Ir Val
    member_steps fuel line before [] v = pure v
    member_steps fuel line before (dot ∷ []) v = pure v
    member_steps fuel line before (dot ∷ ref ∷ l) v =
        member_step fuel line before ref v >>= member_steps fuel line (contents ref) l

    -- `StructMember::codegen` from the first child on.
    unfoldable pub struct_member_of : ℕ → ℕ → Ast → List Ast → Exec Ir Val
    struct_member_of fuel line first l s = elim (lookup s (contents first)) [
      | none ↦
          raise "variable `{}` does not exist in scope at line {}"
            (text (contents first) ∷ number (line + 1) ∷ []) s
      | some v ↦ member_steps fuel line (contents first) l v s
    ]

    -- `StructMember::codegen`
    unfoldable pub struct_member_codegen : ℕ → Ast → Exec Ir Val
    struct_member_codegen fuel a = elim (children a) [
      | [] ↦ λ s. fault
      | first ∷ l ↦ struct_member_of fuel (row a) first l
    ]

    module _ (expression : Ast → Exec Ir Val) where
      -- `FnCast::codegen` from an integer; `CreateZExtOrTrunc` is defined for integer types only.
      unfoldable pub cast_integer : Val → Ty → Exec Ir Val
      cast_integer v to =
          if is_floating_point_ty to
          then build B (convert si_to_fp v to)
          else if is_integer_ty to
          then build B (convert z_ext_or_trunc v to)
          else (λ s. fault)

      -- from a floating point number
      unfoldable pub cast_floating : Val → Ty → Exec Ir Val
      cast_floating v to =
          let from = type_of v in
          if is_integer_ty to
          then build B (convert fp_to_si v to)
          else if same_ty from double_ty && same_ty to float_ty
          then build B (convert fp_trunc v to)
          else if same_ty from float_ty && same_ty to double_ty
          then build B (convert fp_ext v to)
          else pure v

      unfoldable pub invalid_cast : ℕ → Exec Ir Val
      invalid_cast line = raise "invalid cast at line {}" (number (line + 1) ∷ [])

      -- from a pointer to a struct
      unfoldable pub cast_struct : ℕ → Val → Ty → Ty → Exec Ir Val
      cast_struct line v from to s =
          let kind = is_struct_kind llvm to in
          if kind.1 && is_interface_name (struct_name kind.0)
          then interface_cast B bind_first line to v s
          else elim (get_function s
              ("struct::" <> (struct_name from <> ("::operator " <> get_type_name llvm to)))) [
                | some f ↦ build B (call f (v ∷ [])) s
                | none ↦ invalid_cast line s
              ]

      -- from a pointer
      unfoldable pub cast_pointer : ℕ → Val → Ty → Exec Ir Val
      cast_pointer line v to =
          let kind = is_struct_kind llvm (type_of v) in
          if kind.1
          then cast_struct line v kind.0 to
          else if same_ty (pointer_element_type (type_of v)) (int_ty 8)
          then (if is_integer_ty to || is_floating_point_ty to
              then raise "parsing numbers from char* not implemented at line {}"
                  (number (line + 1) ∷ [])
              else build B (convert bit_or_pointer_cast v to))
          else invalid_cast line

      unfoldable pub cast_value : ℕ → Val → Ty → Exec Ir Val
      cast_value line v to =
          if is_integer_ty (type_of v)
          then cast_integer v to
          else if is_floating_point_ty (type_of v)
          then cast_floating v to
          else if is_pointer_ty (type_of v)
          then cast_pointer line v to
          else invalid_cast line

      -- `FnCast`: the type and the expression are the children 2 and 5.
      unfoldable pub fn_cast_codegen : ℕ → Ast → Exec Ir Val
      fn_cast_codegen fuel a = do
        t ← lift (child a 2)
        e ← lift (child a 5)
        v ← expression e
        to ← on_module B (type_codegen llvm (get_type llvm fuel) t)
        cast_value (row a) v to

  -- `DataClass::construct`
  module _ (expression : Ast → Exec Ir Val) (line : ℕ) (class ctor : String) where
    -- The loop over the values, from the index `i` on.
    unfoldable pub store_parts : Ty → Val → ℕ → List Ast → Exec Ir (Unit {0})
    store_parts t object i [] = pure tt
    store_parts t object i (e ∷ es) = expression e >>= λ v.
        build B (struct_gep t object (i + 1) "") >>= λ p.
        if not (same_ty (type_of v) (pointer_element_type (type_of p)))
        then raise "type mismatch at index {} of constructor `{}` of data class `{}` at line {}"
            (number i ∷ text ctor ∷ text class ∷ number (line + 1) ∷ [])
        else build B (store v p) >> store_parts t object (suc i) es

    unfoldable pub store_all_parts : Ty → Val → List Ast → Exec Ir Val
    store_all_parts t object es =
        if not (eqb (suc (length es)) (length (struct_elements t)))
        then raise "invalid number of elements for constructor `{}` of data class `{}` at line {}"
            (text ctor ∷ text class ∷ number (line + 1) ∷ [])
        else store_parts t object 0 es >> pure object

    -- The tag. Without an index there is an exception, and where assertions are checked the index is
    -- asserted to be another than 0.
    unfoldable pub write_tag : Ty → Val → ℕ → Exec Ir (Unit {0})
    write_tag t object i =
        if asserts && eqb i 0
        then (λ s. fault)
        else build B (struct_gep t object 0 "tag") >>= λ p.
            build B (store (const_int (int_ty 8) (i % 2 ^ 8)) p) >> pure tt

    unfoldable pub store_tag : Ty → Val → Option ℕ → Exec Ir (Unit {0})
    store_tag t object none = λ s. fault
    store_tag t object (some i) = write_tag t object i

    unfoldable pub construct_as : Ty → Ast → Exec Ir Val
    construct_as t args = build B (alloca t ("class::" <> (class <> ("::" <> ctor)))) >>= λ object.
        part_index "classes" class ctor >>= λ i.
        store_tag t object i
        >> (if get_outermost_ast_tag string_ref args == "exprlist"
            then store_all_parts t object (expr_nodes string_ref args)
            else pure object)

    unfoldable pub construct_named : Ast → Exec Ir Val
    construct_named args s =
        elim (get_type_by_name (get_module s) ("class::" <> (class <> ("::" <> ctor)))) [
          | some t ↦ construct_as t args s
          | none ↦
              raise "could not find data class by name `{}` at line {}"
                (text class ∷ number (line + 1) ∷ []) s
        ]

  -- The names are the children 0 and 2 of the first child.
  unfoldable pub construct : (Ast → Exec Ir Val) → Ast → Exec Ir Val
  construct expression a = do
    ref ← lift (child a 0)
    class ← lift (child ref 0)
    ctor ← lift (child ref 2)
    args ← lift (child a 2)
    construct_named expression (row a) (contents class) (contents ctor) args
