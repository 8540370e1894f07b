-- ===== src/Expr/Factors.antt =====
-- The factors: ast/integral.hpp, character.hpp, boolean.hpp, floatingpt.hpp, nullptr.hpp, ident.hpp,
-- deref.hpp, reference.hpp, preop.hpp, postop.hpp, element.hpp, scoperes.hpp, and `Factor::codegen`. The other
-- classes of factors are a parameter.
use Prim.Native.Char.{code}
use Prim.Native.String.{len}
use whack.Prelude.{
  ℕ, zero, suc, ◌+◌, ◌-◌, String, ◌==◌, ◌<>◌, ◌||◌, Bool, false, Option, none, some, List, [], ◌∷◌,
  if◌then◌else◌, get_elem?, length, eqb, ltb,
}
use whack.Outcome.{Exec, text, number, ◌>>=◌, ◌>>◌, pure, raise, lift, fault, out_of_fuel}
use whack.Ast.{Ast, child, children, contents, row}
use whack.StringRef.{StringRef}
use whack.Metadata.{get_metadata_part_index}
use whack.Types.{is_struct_kind}
use whack.Syntax.Expression.{
  FactorKind, get_factor, k_character, k_boolean, k_integral, k_floating_pt, k_null_ptr, k_ident,
  k_deref, k_reference, k_scope_res, k_pre_op, k_post_op, k_element,
}
use whack.Builder.{Builder, binary, load, store, call, struct_gep, in_bounds_gep, gep, build}
use whack.Expr.Operators.{ops_table}
use whack.Expr.Conditions.{expression_codegen}

-- `contents[1]`; behind the last character stands 0.
unfoldable pub second_char : String → Option ℕ
second_char String.[] = none
second_char (String.◌∷◌ c String.[]) = some 0
second_char (String.◌∷◌ c (String.◌∷◌ d s)) = some (code d)

-- `back() == 'f'`; the text is not empty.
unfoldable pub ends_with_f : String → Option Bool
ends_with_f String.[] = none
ends_with_f (String.◌∷◌ c String.[]) = some (eqb (code c) 102)
ends_with_f (String.◌∷◌ c (String.◌∷◌ d s)) = ends_with_f (String.◌∷◌ d s)

-- `substr(0, n)`
abbrev pub take_chars : ℕ → String → String
take_chars zero s = String.[]
take_chars (suc n) String.[] = String.[]
take_chars (suc n) (String.◌∷◌ c s) = String.◌∷◌ c (take_chars n s)

-- `pop_back()`
unfoldable pub pop_back : String → String
pop_back s = take_chars (len s - 1) s

module _ (B : Builder) where
  open B use {
    llvm, Val, Block, Ir, type_of, const_int, const_fp, const_fp_one, null_value, return_type,
    is_array_ty, struct_elements, num_elements, atoi, get_module, get_function, get_global_variable,
    function_name, lookup, emit,
  }
  open llvm use {
    Ty, string_ref, int_ty, float_ty, double_ty, void_ty, same_ty, pointer_to, is_pointer_ty,
    is_integer_ty, is_floating_point_ty, is_struct_ty, pointer_element_type, struct_name,
  }

  -- `Integral::codegen`
  unfoldable pub integral_codegen : Ast → Exec Ir Val
  integral_codegen a = pure (const_int (int_ty 32) (atoi (contents a)))

  -- `Character::codegen`
  unfoldable pub character_codegen : Ast → Exec Ir Val
  character_codegen a = lift (second_char (contents a)) >>= λ c. pure (const_int (int_ty 8) c)

  -- `Boolean::codegen`
  unfoldable pub boolean_codegen : Ast → Exec Ir Val
  boolean_codegen a = pure (const_int (int_ty 1) (if contents a == "true" then 1 else 0))

  -- `FloatingPt::codegen`: the suffix `f` takes the digit before it along. For a text of one
  -- character the length wraps round, and the whole text is read.
  unfoldable pub floating_pt_codegen : Ast → Exec Ir Val
  floating_pt_codegen a =
      let text = contents a in
      lift (ends_with_f text) >>= λ f.
      if f
      then pure
          (const_fp float_ty (if ltb (len text) 2 then text else take_chars (len text - 2) text))
      else pure (const_fp double_ty text)

  -- `NullPtr::codegen`
  unfoldable pub null_ptr_codegen : Exec Ir Val
  null_ptr_codegen = pure (null_value (pointer_to (int_ty 8)))

  -- `ScopeRes::codegen`: the value of an enumeration; all else is `llvm_unreachable`.
  unfoldable pub scope_res_codegen : Ast → Exec Ir Val
  scope_res_codegen a s =
      if eqb (length (children a)) 3
      then (lift (child a 0) >>= λ x. lift (child a 2) >>= λ y.
            λ u. lift (get_global_variable u (contents x <> ("::" <> contents y))) u)
          s
      else fault

  -- The end of `Ident::codegen`: a function of the module, or the variable `_` that discards. If
  -- there is no global `_`, the one that is made belongs to no module and is not found either.
  unfoldable pub global_ident : ℕ → String → Exec Ir Val
  global_ident row name s = elim (get_function s name) [
    | some f ↦ pure f s
    | none ↦
        if name == "_"
        then lift (get_global_variable s "_") s
        else raise "variable `{}` does not exist in scope at line {}"
            (text name ∷ number (row + 1) ∷ []) s
  ]

  -- A variable that a closure has captured is a field of the struct behind `.env`.
  unfoldable pub captured_field : ℕ → String → Val → Option ℕ → Exec Ir Val
  captured_field row name env none = global_ident row name
  captured_field row name env (some i) =
      build B (struct_gep (pointer_element_type (type_of env)) env i name) >>= λ p. build B (load p)

  unfoldable pub captured_in : ℕ → String → Val → Exec Ir Val
  captured_in row name env s =
      let structure = pointer_element_type (type_of env) in
      (lift (get_metadata_part_index llvm (get_module s) "structures" (struct_name structure) name)
          >>= captured_field row name env)
        s

  unfoldable pub captured_ident : ℕ → String → Exec Ir Val
  captured_ident row name s = (lift (lookup s ".env") >>= captured_in row name) s

  -- `Ident::codegen`
  unfoldable pub ident_codegen : Ast → Exec Ir Val
  ident_codegen a s = elim (lookup s (contents a)) [
    | some v ↦ pure v s
    | none ↦
        if StringRef.starts_with string_ref (function_name s) "::closure"
        then captured_ident (row a) (contents a) s
        else global_ident (row a) (contents a) s
  ]

  -- `Type::isVariableLengthArray`
  unfoldable pub is_variable_length_array : Ty → Bool
  is_variable_length_array t =
      if is_struct_ty t
      then (elim (struct_elements t) [
        | (size ∷ elems ∷ []) ↦
            if same_ty size (int_ty 32)
            then (if is_array_ty elems then eqb (num_elements elems) 0 else false)
            else false
        | _ ↦ false
      ])
      else false

  module _ (factor expression : Ast → Exec Ir Val) where
    -- The loop of `Deref::loadPointer`, from the index `i` on.
    unfoldable pub load_times : ℕ → ℕ → ℕ → Val → Exec Ir Val
    load_times row i zero v = pure v
    load_times row i (suc n) v =
        if is_pointer_ty (type_of v)
        then (build B (load v) >>= load_times row (suc i) n)
        else raise
            "type error: cannot dereference a non-pointer type at index {} of value at line {}"
            (number i ∷ number (row + 1) ∷ [])

    -- `Deref::loadPointer`: the value is the last child, and each star before it loads once.
    unfoldable pub load_pointer : Ast → Exec Ir Val
    unfolding load_times
    load_pointer a =
        let stars = length (children a) - 1 in
        lift (get_elem? (children a) stars) >>= λ x. factor x >>= λ v. load_times (row a) 0 stars v

    -- `Deref::codegen`
    unfoldable pub deref_codegen : Ast → Exec Ir Val
    deref_codegen a = load_pointer a >>= λ p. build B (load p)

    -- `Reference::codegen`
    unfoldable pub reference_codegen : Ast → Exec Ir Val
    reference_codegen a = raise "References not implemented at line {}" (number (row a + 1) ∷ [])

    -- One more or one less: a number.
    unfoldable pub increment_scalar : ℕ → String → Val → Val → Exec Ir Val
    increment_scalar row op val value = elim (ops_table (pop_back op)) [
      | some f ↦
          (let t = type_of value in
            build B (binary f value (if is_integer_ty t then const_int t 1 else const_fp_one t))
            >>= λ modified. build B (store modified val) >> pure modified)
      | none ↦ raise "operator {} not allowed for type at line {}" (text op ∷ number (row + 1) ∷ [])
    ]

    -- One more or one less: a struct, by a function of the module.
    unfoldable pub increment_struct : ℕ → String → Ty → Val → Exec Ir Val
    increment_struct row op t val s =
        elim (get_function s ("struct::" <> (struct_name t <> ("::operator" <> op)))) [
          | some f ↦
              if same_ty (return_type f) void_ty
              then (build B (call f (val ∷ [])) >> pure val) s
              else (build B (call f (val ∷ [])) >>= λ modified.
                    build B (store modified val) >> pure modified)
                  s
          | none ↦
              raise "cannot find operator{} for struct `{}` at line {}"
                (text op ∷ text (struct_name t) ∷ number (row + 1) ∷ []) s
        ]

    -- One more or one less, by the type of what the variable holds; with the variable.
    unfoldable pub increment_value : ℕ → String → Val → Val → Exec Ir (Val × Val)
    unfolding is_struct_kind
    increment_value row op val value =
        let t = type_of value in
        let kind = is_struct_kind llvm t in
        if is_integer_ty t || is_floating_point_ty t
        then (increment_scalar row op val value >>= λ m. pure (val, m))
        else if kind.1
        then (increment_struct row op kind.0 val >>= λ m. pure (val, m))
        else raise "invalid type for operator {} at line {}" (text op ∷ number (row + 1) ∷ [])

    -- The operator and the variable are the children 0 and 1.
    unfoldable pub increment : Ast → Exec Ir (Val × Val)
    increment a = lift (child a 1) >>= λ x. lift (child a 0) >>= λ o.
        factor x >>= λ val. build B (load val) >>= increment_value (row a) (contents o) val

    -- `PreOp::codegen`: the new value.
    unfoldable pub pre_op_codegen : Ast → Exec Ir Val
    pre_op_codegen a = increment a >>= λ r. pure r.1

    -- `PostOp::codegen`, which reads the children as `PreOp` does: the variable.
    unfoldable pub post_op_codegen : Ast → Exec Ir Val
    post_op_codegen a = increment a >>= λ r. pure r.0

    -- The body of the loop of `Element::codegen`.
    unfoldable pub index_into : Val → Val → Exec Ir Val
    index_into extracted index =
        let t = pointer_element_type (type_of extracted) in
        let origin = const_int (int_ty 32) 0 in
        if is_array_ty t || is_pointer_ty t
        then build B (in_bounds_gep extracted (origin ∷ index ∷ []))
        else if is_variable_length_array t
        then (build B (struct_gep t extracted 1 "") >>= λ elems.
            build B (in_bounds_gep elems (origin ∷ index ∷ [])))
        else build B (gep extracted index)

    -- The loop over the children 2, 5, 8, …; given are those behind the first.
    unfoldable pub index_all : Val → List Ast → Exec Ir Val
    index_all v [] = pure v
    index_all v (l ∷ []) = pure v
    index_all v (l ∷ e ∷ []) = expression e >>= index_into v
    index_all v (l ∷ e ∷ r ∷ rest) = expression e >>= λ i. index_into v i >>= λ w. index_all w rest

    -- `Element::codegen`
    unfoldable pub element_factor_codegen : Ast → Exec Ir Val
    unfolding index_all
    element_factor_codegen a = elim (children a) [
      | [] ↦ λ s. fault
      | x ∷ l ↦ (factor x >>= λ v. index_all v l)
    ]

  -- The other classes of factors, which Expr.Tied gives.
  module _ (other : FactorKind → Ast → Exec Ir Val) where
    -- `codegen` of the class of a factor; `inner` is that of the factors in it.
    unfoldable pub factor_of_kind : (Ast → Exec Ir Val) → FactorKind → Ast → Exec Ir Val
    factor_of_kind inner k_character a = character_codegen a
    factor_of_kind inner k_boolean a = boolean_codegen a
    factor_of_kind inner k_integral a = integral_codegen a
    factor_of_kind inner k_floating_pt a = floating_pt_codegen a
    factor_of_kind inner k_null_ptr a = null_ptr_codegen
    factor_of_kind inner k_ident a = ident_codegen a
    factor_of_kind inner k_deref a = deref_codegen inner (expression_codegen B inner) a
    factor_of_kind inner k_reference a = reference_codegen inner (expression_codegen B inner) a
    factor_of_kind inner k_pre_op a = pre_op_codegen inner (expression_codegen B inner) a
    factor_of_kind inner k_post_op a = post_op_codegen inner (expression_codegen B inner) a
    factor_of_kind inner k_element a = element_factor_codegen inner (expression_codegen B inner) a
    factor_of_kind inner k_scope_res a = scope_res_codegen a
    factor_of_kind inner k a = other k a

    -- `getFactor(ast)->codegen(builder)`; a node of no class is `llvm_unreachable`.
    unfoldable pub factor_codegen : ℕ → Ast → Exec Ir Val
    factor_codegen zero a = λ s. out_of_fuel
    factor_codegen (suc fuel) a = elim (get_factor string_ref a) [
      | none ↦ λ s. fault
      | some k ↦ factor_of_kind (factor_codegen fuel) k a
    ]

    -- `getExpressionValue(ast)->codegen(builder)`, tied to the factors.
    unfoldable pub expr_codegen : ℕ → Ast → Exec Ir Val
    expr_codegen fuel a = expression_codegen B (factor_codegen fuel) a
