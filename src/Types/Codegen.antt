-- ===== src/Types/Codegen.antt =====
-- `Type::codegen` of ast/type.hpp and the classes that it uses: ast/typelist.hpp, ast/fntype.hpp,
-- ast/arraytype.hpp. Types are looked up in the module, which stays as it is.
use Prim.Native.Char.{code}
use whack.Prelude.{
  ℕ, zero, suc, ◌+◌, ◌-◌, ◌*◌, ◌%◌, ◌^◌, String, ◌==◌, ◌<>◌, Bool, true, false, not, ◌&&◌, ◌||◌,
  Option, none, some, List, [], ◌∷◌, if◌then◌else◌, ltb, leb, eqb, length,
}
use whack.Outcome.{Exec, out_of_fuel, text, number, ◌>>=◌, pure, raise, lift, reads}
use whack.Ast.{
  Ast, Asts, node, nil, cons, contents, row, children, child, get_innermost_ast_tag,
  get_outermost_ast_tag,
}
use whack.Llvm.{Llvm, Operand, null_of}
use whack.Metadata
use whack.Metadata.{head_string}
use whack.Types.{basic_type, get_underlying_type}

-- `Type::str`
unfoldable mutual
  pub str : Ast → String
  str (node t c r nil) = c
  str (node t c r (cons a as_)) = str a <> str_list as_

  pub str_list : Asts → String
  str_list nil = ""
  str_list (cons a as_) = str a <> str_list as_

-- The children 0, 2, 4, …
abbrev pub evens : List Ast → List Ast
evens [] = []
evens (a ∷ []) = a ∷ []
evens (a ∷ _ ∷ l) = a ∷ evens l

-- Digits up to the first character that is none.
abbrev pub read_digits : ℕ → String → ℕ
read_digits n String.[] = n
read_digits n (String.◌∷◌ c s) =
    let rest = read_digits (n * 10 + (code c - 48)) s in
    if leb 48 (code c) && leb (code c) 57 then rest else n

-- `std::atoi` on a text of the rule `integral`, `[-]?[0-9]+`: the sign and the size; a value that
-- is no `int` is undefined.
unfoldable pub atoi : String → Option (Bool × ℕ)
atoi String.[] = some (false, 0)
atoi (String.◌∷◌ c s) =
    if eqb (code c) 45
    then (if leb (read_digits 0 s) (2 ^ 31) then some (true, read_digits 0 s) else none)
    else if ltb (read_digits 0 (String.◌∷◌ c s)) (2 ^ 31)
    then some (false, read_digits 0 (String.◌∷◌ c s))
    else none

-- An `int64_t` where LLVM takes a `uint64_t`.
abbrev pub to_uint64 : Bool × ℕ → ℕ
to_uint64 (true, n) = (2 ^ 64 - n) % 2 ^ 64
to_uint64 (false, n) = n

-- `typelist_t`: the types, and whether one is variadic.
abbrev pub TypeList : Type 0 → Type 0
TypeList A = List A × Bool

-- `types.back()`, undefined of no type.
abbrev pub back : {A : Type 0} → List A → Option A
back [] = none
back (x ∷ []) = some x
back (x ∷ xs) = back xs

module _ (L : Llvm) where
  open L use {
    Ty, Md, Mod, void_ty, int_ty, pointer_to, array_ty, struct_ty, function_ty, is_function_ty,
    operands, get_named_metadata, get_type_by_name, string_ref,
  }

  -- Operand 1 as the type of a constant.
  abbrev pub second_type : List (Operand Ty Md) → Option Ty
  second_type (_ ∷ null_of t ∷ _) = some t
  second_type _ = none

  -- The type of the first alias of that name.
  unfoldable pub find_alias : List Md → String → Option (Option Ty)
  find_alias [] name = some none
  find_alias (d ∷ ds) name =
      let rest = find_alias ds name in
      Metadata.◌>>=◌ (head_string (operands d)) λ n.
        if n == name then Metadata.◌>>=◌ (second_type (operands d)) (λ t. some (some t)) else rest

  -- `Type::getFromTypeName`: basic types, struct types, interfaces, aliases, in this order.
  unfoldable pub get_from_type_name : String → Mod → Option (Option Ty)
  get_from_type_name name m = elim (basic_type L name) [
    | some t ↦ some (some t)
    | none ↦ elim (get_type_by_name m name) [
      | some t ↦ some (some t)
      | none ↦ elim (get_type_by_name m ("interface::" <> name)) [
        | some t ↦ some (some t)
        | none ↦ elim (get_named_metadata m "aliases") [
          | none ↦ some none
          | some ds ↦ find_alias ds name
        ]
      ]
    ]
  ]

  -- `ArrayType::getVarLenType`
  unfoldable pub get_var_len_type : Ty → Ty
  get_var_len_type t = struct_ty (int_ty 32 ∷ array_ty t 0 ∷ [])

  -- `Type::isMutable`
  unfoldable pub is_mutable : Ast → Bool
  is_mutable a = elim (child a 0) [ none ↦ false | some c ↦ contents c == "mut" ]

  unfoldable pub no_such_type : Ast → Exec Mod Ty
  no_such_type a =
      raise "type `{}` does not exist in scope at line {}" (text (str a) ∷ number (row a + 1) ∷ [])

  unfoldable pub or_no_such_type : Ast → Option Ty → Exec Mod Ty
  or_no_such_type a none = no_such_type a
  or_no_such_type a (some t) = pure t

  -- The end of `getType`: a function type, or pointers to one, become a pointer to it.
  unfoldable pub wrap_function : Ty → Ty
  wrap_function t = if is_function_ty (get_underlying_type L t) then pointer_to t else t

  -- A pointer for each child.
  unfoldable pub add_pointers : List Ast → Ty → Ty
  add_pointers [] t = t
  add_pointers (a ∷ l) t = add_pointers l (pointer_to t)

  -- The definitions below take `getType` as they call it back, with less fuel.
  module _ (get_type : Ast → Exec Mod Ty) where
    -- `Type::getPointerType`
    unfoldable pub get_pointer_type : Ast → Exec Mod Ty
    get_pointer_type (node t c r nil) = lift none
    get_pointer_type (node t c r (cons a as_)) =
        get_type a >>= λ ty. pure (add_pointers (children (node t c r as_)) ty)

    -- A child of a type list, and whether it is variadic.
    unfoldable pub list_element : Ast → Exec Mod Ty
    list_element a =
        if get_innermost_ast_tag string_ref a == "variadictype"
        then lift (child a 0) >>= get_type
        else get_type a

    unfoldable pub list_elements : List Ast → Exec Mod (TypeList Ty)
    list_elements [] = pure ([], false)
    list_elements (a ∷ l) = do
      t ← list_element a
      rest ← list_elements l
      pure (t ∷ rest.0, get_innermost_ast_tag string_ref a == "variadictype" || rest.1)

    -- `TypeList::codegen`
    unfoldable pub get_type_list : Ast → Exec Mod (TypeList Ty)
    get_type_list a =
        let t = get_innermost_ast_tag string_ref a in
        if t == "variadictype"
        then lift (child a 0) >>= get_type >>= (λ ty. pure (ty ∷ [], true))
        else if not (t == "typelist") || eqb (length (children a)) 0
        then get_type a >>= (λ ty. pure (ty ∷ [], false))
        else list_elements (evens (children a))

    -- The return type of a function type, `getReturnType` in `FnType::codegen`.
    unfoldable pub fn_return_type : Ast → Exec Mod Ty
    fn_return_type a =
        if ltb 4 (length (children a))
        then (do
          c ← lift (child a 4)
          l ← get_type_list c
          if l.1
              then raise "cannot use a variadic type as function return type at line {}"
                  (number (row a + 1) ∷ [])
              else if ltb 1 (length l.0)
              then pure (struct_ty l.0)
              else lift (back l.0))
        else pure void_ty

    -- `FnType::codegen`
    unfoldable pub fn_type_codegen : Ast → Exec Mod Ty
    fn_type_codegen a =
        if ltb (length (children a)) 4 then pure (function_ty void_ty [] false) else do
          ret ← fn_return_type a
          c ← lift (child a 2)
          if get_outermost_ast_tag string_ref c == "typelist"
              then get_type_list c >>= (λ l. pure (function_ty ret l.0 l.1))
              else pure (function_ty ret [] false)

    -- `ArrayType::codegen`
    unfoldable pub array_type_codegen : Ast → Exec Mod Ty
    array_type_codegen a =
        if eqb (length (children a)) 4
        then (do
          len ← lift (child a 1)
          n ← lift (atoi (contents len))
          c ← lift (child a 3)
          t ← get_type c
          pure (array_ty t (to_uint64 n)))
        else do c ← lift (child a 2); t ← get_type c; pure (get_var_len_type t)

    -- `Type::codegen` of a node `ref`; `a` is the whole type, which errors name.
    unfoldable pub codegen_ref : Ast → Ast → Exec Mod Ty
    codegen_ref a ref =
        let t = get_innermost_ast_tag string_ref ref in
        if t == "pointertype"
        then get_pointer_type ref
        else if t == "fntype"
        then fn_type_codegen ref
        else if t == "arraytype"
        then array_type_codegen ref
        else if t == "ident"
        then reads (get_from_type_name (contents ref)) >>= or_no_such_type a
        else no_such_type a

    unfoldable pub type_codegen : Ast → Exec Mod Ty
    type_codegen a = if is_mutable a then lift (child a 1) >>= codegen_ref a else codegen_ref a a

  -- `getType`. Each call goes down one node at least, so the height of the tree is fuel enough.
  unfoldable pub get_type : ℕ → Ast → Exec Mod Ty
  get_type zero a m = out_of_fuel
  get_type (suc f) a m = (type_codegen (get_type f) a >>= λ t. pure (wrap_function t)) m
