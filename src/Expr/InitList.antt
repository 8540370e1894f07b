-- ===== src/Expr/InitList.antt =====
-- ast/initlist.hpp: `{a, b}`, the values of an array, a vector, a struct or a scalar.
pub mod Elements
use Prim.Native.String.{len}
use whack.Prelude.{
  ℕ, zero, suc, ◌+◌, ◌-◌, String, ◌==◌, ◌<>◌, ◌&&◌, Bool, true, false, Option, none, some, List, [],
  ◌∷◌, if◌then◌else◌, length, eqb, ltb, not, get_elem?, contains, map,
}
use whack.Outcome.{Exec, text, number, ◌>>=◌, ◌>>◌, pure, raise, lift, fault}
use whack.Ast.{Ast, child, children, contents, row, get_innermost_ast_tag}
use whack.Metadata.{drop_first}
use whack.Types.Codegen.{get_type, type_codegen}
use whack.Builder.{
  Builder, store, alloca, struct_gep, bit_cast, malloc, global_string, build, on_module,
}
use whack.Expr.Factors.{is_variable_length_array, take_chars}
use whack.Expr.Members.{part_index}
use whack.Stmt.Values.{expr_nodes}

module _ (B : Builder) where
  open B use {
    llvm, Val, Ir, type_of, const_int, null_value, const_array, const_vector, const_struct,
    is_constant, is_array_ty, is_vector_ty, num_elements, element_type, struct_elements,
    get_or_insert_global, atoi,
  }
  open llvm use {
    Ty, string_ref, int_ty, array_ty, same_ty, is_struct_ty, pointer_element_type, struct_name,
  }

  -- `InitList`: the expressions of the child 1, if there are more than two children.
  unfoldable pub init_list_nodes : Ast → Option (List Ast)
  init_list_nodes a =
      if ltb 2 (length (children a))
      then (elim (child a 1) [ none ↦ none | some e ↦ some (expr_nodes string_ref e) ])
      else some []

  module _ (expression : Ast → Exec Ir Val) where
    -- The values of `InitList::list`, and whether all have the type of the first.
    unfoldable pub list_values : List Ast → Exec Ir (List Val)
    list_values [] = pure []
    list_values (e ∷ es) = expression e >>= λ v. list_values es >>= λ vs. pure (v ∷ vs)

  unfoldable pub all_of_type : Ty → List Val → Bool
  all_of_type t [] = true
  all_of_type t (v ∷ vs) = same_ty (type_of v) t && all_of_type t vs

  unfoldable pub is_unique_list : List Val → Bool
  is_unique_list [] = true
  is_unique_list (v ∷ vs) = all_of_type (type_of v) vs

  -- An element of the list: what is no constant is a null pointer there, and its use undefined.
  unfoldable pub constant : Val → Exec Ir Val
  constant v = if is_constant v then pure v else (λ s. fault)

  unfoldable pub constants : List Val → Exec Ir (List Val)
  constants [] = pure []
  constants (v ∷ vs) = constant v >>= λ c. constants vs >>= λ cs. pure (c ∷ cs)

  module _ (line : ℕ) (t : Ty) where
    -- Member-wise, from the index `i` on.
    unfoldable pub store_members : Val → ℕ → List Val → Exec Ir (Unit {0})
    store_members object i [] = pure tt
    store_members object i (v ∷ vs) = lift (get_elem? (struct_elements t) i) >>= λ u.
        constant v >>= λ c.
        if not (same_ty u (type_of c))
        then raise
            "element {} in initializer list does not match correponding struct type at line {}"
            (number i ∷ number (line + 1) ∷ [])
        else build B (struct_gep t object i "") >>= λ p.
            build B (store c p) >> store_members object (suc i) vs

    unfoldable pub init_members : List Val → Exec Ir Val
    init_members vs =
        if not (is_struct_ty t)
        then raise "expected a struct type at line {}" (number (line + 1) ∷ [])
        else build B (alloca t "") >>= λ object. store_members object 0 vs >> pure object

    -- A variable-length array: a constant of its length and its elements.
    unfoldable pub init_var_len_array : Val → List Val → Exec Ir Val
    init_var_len_array v vs = lift (get_elem? (struct_elements t) 1) >>= λ u. constant v >>= λ c.
        if not (same_ty (element_type u) (type_of c))
        then raise "type mismatch: cannot construct array at line {}" (number (line + 1) ∷ [])
        else constants vs >>= λ cs. pure (
            const_struct (
              const_int (int_ty 32) (length (c ∷ cs))
              ∷ const_array (array_ty (element_type u) 0) (c ∷ cs)
              ∷ []))

    -- The type of the first value of an array or a vector, and the number of values.
    unfoldable pub check_sequence : String → Val → ℕ → Exec Ir (Unit {0})
    check_sequence kind c n s =
        if not (same_ty (type_of c) (element_type t))
        then raise
            ("type mismatch: cannot initialize "
              <> (kind <> " with the given values in initializer list at line {}"))
            (number (line + 1) ∷ []) s
        else if not (eqb n (num_elements t))
        then raise ("type mismatch: expected {} " <> (kind <> " elements, got {} at line {}"))
            (number (num_elements t) ∷ number n ∷ number (line + 1) ∷ []) s
        else pure tt s

    -- An array or a vector, by the words of its messages and what is made of the values.
    unfoldable pub init_sequence : String → (List Val → Val) → Val → List Val → Exec Ir Val
    init_sequence kind make v vs = constant v >>= λ c.
        check_sequence kind c (length (v ∷ vs)) >> (constants vs >>= λ cs. pure (make (c ∷ cs)))

    abbrev pub cannot_initialize : {A : Type 0} → Exec Ir A
    cannot_initialize =
        raise
          "type mismatch: cannot initialize type with the given value in initializer list at line {}"
          (number (line + 1) ∷ [])

    -- A struct whose values have one type: each field is compared with the first value.
    unfoldable pub store_fields_of : Ty → Val → ℕ → List Val → Exec Ir (Unit {0})
    store_fields_of first object i [] = pure tt
    store_fields_of first object i (v ∷ vs) = build B (struct_gep t object i "") >>= λ p.
        if not (same_ty first (pointer_element_type (type_of p)))
        then cannot_initialize
        else constant v >>= λ c. build B (store c p) >> store_fields_of first object (suc i) vs

    unfoldable pub init_struct : Val → List Val → Exec Ir Val
    init_struct v vs = build B (alloca t "") >>= λ object.
        constant v >>= λ c. store_fields_of (type_of c) object 0 (v ∷ vs) >> pure object

    unfoldable pub init_scalar : Val → List Val → Exec Ir Val
    init_scalar v vs =
        if ltb 1 (length (v ∷ vs))
        then raise "cannot initialize the type with multiple values at line {}"
            (number (line + 1) ∷ [])
        else constant v >>= λ c.
            if not (same_ty (type_of c) t)
            then cannot_initialize
            else build B (alloca t "") >>= λ object. build B (store c object) >> pure object

    -- `InitList::codegen` once the values are known.
    unfoldable pub init_list_of : List Val → Exec Ir Val
    init_list_of [] = pure (null_value t)
    init_list_of (v ∷ vs) =
        if not (is_unique_list (v ∷ vs))
        then init_members (v ∷ vs)
        else if is_variable_length_array B t
        then init_var_len_array v vs
        else if is_array_ty t
        then init_sequence "array" (const_array t) v vs
        else if is_vector_ty t
        then init_sequence "vector" const_vector v vs
        else if is_struct_ty t
        then init_struct v vs
        else init_scalar v vs

    module _ (expression : Ast → Exec Ir Val) where
      -- `InitList::codegen`
      unfoldable pub init_list_codegen : Ast → Exec Ir Val
      init_list_codegen a =
          lift (init_list_nodes a) >>= λ es. list_values expression es >>= init_list_of
