-- ===== src/Expr/Initializers.antt =====
-- ast/memberinitlist.hpp, ast/initializer.hpp, ast/value.hpp, ast/newexpr.hpp,
-- ast/string.hpp, ast/expansion.hpp and ast/expandop.hpp: values that are written out.
use Prim.Native.String.{len}
use whack.Prelude.{
  ℕ, ◌+◌, ◌-◌, String, ◌==◌, Option, none, some, List, [], ◌∷◌, if◌then◌else◌, length, ltb, not,
  contains,
}
use whack.Outcome.{Exec, text, number, ◌>>=◌, ◌>>◌, pure, raise, lift, fault}
use whack.Ast.{Ast, child, children, contents, row, get_innermost_ast_tag}
use whack.Metadata.{drop_first}
use whack.Types.Codegen.{get_type, type_codegen}
use whack.Builder.{
  Builder, store, alloca, struct_gep, bit_cast, malloc, global_string, build, on_module,
}
use whack.Expr.Factors.{take_chars}
use whack.Expr.Members.{part_index}
use whack.Expr.InitList.{init_list_codegen}

-- `substr(1, size() - 2)`; the empty text has no position 1.
unfoldable pub unquoted : String → Option String
unquoted String.[] = none
unquoted (String.◌∷◌ c s) = some (take_chars (len (String.◌∷◌ c s) - 2) s)

module _ (B : Builder) where
  open B use {
    llvm, Val, Ir, type_of, const_int, null_value, const_array, const_vector, const_struct,
    is_constant, is_array_ty, is_vector_ty, num_elements, element_type, struct_elements,
    get_or_insert_global, atoi,
  }
  open llvm use {
    Ty, string_ref, int_ty, array_ty, same_ty, is_struct_ty, pointer_element_type, struct_name,
  }

  module _ (line : ℕ) (t : Ty) where
    module _ (expression : Ast → Exec Ir Val) where
      -- The loop of `MemberInitList::codegen`.
      unfoldable pub store_named : Val → List (String × Ast) → Exec Ir (Unit {0})
      store_named object [] = pure tt
      store_named object ((member, e) ∷ l) =
          part_index B "structures" (struct_name t) member >>= λ found. elim found [
            | none ↦
                raise "field `{}` does not exist for struct `{}` at line {}"
                  (text member ∷ text (struct_name t) ∷ number (line + 1) ∷ [])
            | some i ↦
                (build B (struct_gep t object i member) >>= λ p. expression e >>= λ v.
                if not (same_ty (type_of v) (pointer_element_type (type_of p)))
                then raise
                    "type mismatch: cannot assign value to field `{}` of struct `{}` at line {}"
                    (text member ∷ text (struct_name t) ∷ number (line + 1) ∷ [])
                else build B (store v p) >> store_named object l)
          ]

      -- `MemberInitList::codegen`
      unfoldable pub member_init_of : List (String × Ast) → Exec Ir Val
      member_init_of l =
          if not (is_struct_ty t)
          then raise "cannot use a member initializer list for type at line {}"
              (number (line + 1) ∷ [])
          else build B (alloca t (struct_name t)) >>= λ object. store_named object l >> pure object

      -- Where `fatal` ends the program, there is an error.
      unfoldable pub new_member : ℕ → List String → Ast → Exec Ir (Unit {0})
      new_member at seen n =
          if contains seen (contents n)
          then raise "member `{}` already declared for the member initializer list at line {}"
              (text (contents n) ∷ number (at + 1) ∷ [])
          else pure tt

      -- The constructor of `MemberInitList` over a name, a `:`, an expression and a separator; `seen`
      -- are the names before.
      unfoldable pub member_inits : ℕ → List String → List Ast → Exec Ir (List (String × Ast))
      member_inits at seen [] = pure []
      member_inits at seen (close ∷ []) = pure []
      member_inits at seen (n ∷ colon ∷ []) = λ s. fault
      member_inits at seen (n ∷ colon ∷ e ∷ []) =
          new_member at seen n >> pure ((contents n, e) ∷ [])
      member_inits at seen (n ∷ colon ∷ e ∷ sep ∷ l) =
          new_member at seen n
          >> (member_inits at (contents n ∷ seen) l >>= λ rest. pure ((contents n, e) ∷ rest))

      -- The class of an initializer; `comprehension` is that of a list comprehension.
      unfoldable pub initializer_codegen : (Ast → Exec Ir Val) → Ast → Exec Ir Val
      initializer_codegen comprehension a =
          let tag = get_innermost_ast_tag string_ref a in
          if tag == "memberinitlist"
          then member_inits (row a) [] (drop_first (children a)) >>= member_init_of
          else if tag == "listcomprehension"
          then (comprehension a >>= λ v.
              if same_ty (type_of v) t
              then pure v
              else raise "invalid type provided at line {}" (number (line + 1) ∷ []))
          else init_list_codegen B line t expression a

  module _ (fuel : ℕ) (factor expression comprehension : Ast → Exec Ir Val) where
    abbrev pub type_at : Ast → Exec Ir Ty
    type_at a = on_module B (type_codegen llvm (get_type llvm fuel) a)

    -- `Value::codegen`
    unfoldable pub value_codegen : Ast → Exec Ir Val
    value_codegen a = lift (child a 0) >>= λ t. lift (child a 1) >>= λ i.
        type_at t >>= λ ty. initializer_codegen (row a) ty expression comprehension i

    -- `NewExpr::codegen` with memory that is given: the expression and the type are the children 2
    -- and 4.
    unfoldable pub new_in_place : Ast → Exec Ir Val
    new_in_place a = lift (child a 2) >>= λ e. expression e >>= λ mem.
        lift (child a 4) >>= λ t. type_at t >>= λ ty. build B (bit_cast mem ty)

    -- The number of elements, for an array that of its type.
    unfoldable pub alloc_size : Ast → Ty → Option ℕ
    alloc_size t ty =
        if is_array_ty ty
        then (elim (child t 1) [ none ↦ none | some n ↦ some (atoi (contents n)) ])
        else some 1

    -- `NewExpr::codegen`
    unfoldable pub new_expr_codegen : Ast → Exec Ir Val
    new_expr_codegen a =
        if ltb 2 (length (children a))
        then new_in_place a
        else lift (child a 1) >>= λ t. type_at t >>= λ ty.
            lift (alloc_size t ty) >>= λ n. build B (malloc ty (const_int (int_ty 32) n))

    -- `String::codegen`
    unfoldable pub string_codegen : Ast → Exec Ir Val
    string_codegen a = lift (unquoted (contents a)) >>= λ s. build B (global_string s)

    -- `Expansion::codegen`
    unfoldable pub expansion_codegen : Exec Ir Val
    expansion_codegen s =
        let made = get_or_insert_global "::expansion" (int_ty 1) s in pure made.0 made.1

    -- `ExpandOp::codegen`
    unfoldable pub expand_op_codegen : Ast → Exec Ir Val
    expand_op_codegen a = lift (child a 0) >>= λ x. factor x >>= λ v. raise "not implemented" []
