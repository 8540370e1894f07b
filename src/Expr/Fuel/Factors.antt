-- ===== src/Expr/Fuel/Factors.antt =====
-- Factors, and with them all expressions, need no more fuel than the height of their node.
use whack.Prelude.{
  ℕ, zero, suc, ◌-◌, ◌<◌, ◌≤◌, String, Option, none, some, List, [], ◌∷◌, arith, length,
}
use whack.Outcome.{Exec, lift, fault, ◌>>=◌}
use whack.Outcome.Rules.{
  Ends, Ends-bind, Ends-lift_bind, Ends-if, Ends-pure, Ends-raise, Ends-fault, Ends-option,
}
use whack.Ast.{Ast, node, nil, cons, to_list, child, children, contents, row, height}
use whack.Types.Fuel.{AllLower, AllLower-children_below, height-child}
use whack.Builder.{Builder, Instr, build, load}
use whack.Syntax.Expression.{
  FactorKind, get_factor, k_character, k_boolean, k_integral, k_floating_pt, k_null_ptr, k_ident,
  k_deref, k_reference, k_pre_op, k_post_op, k_element, k_scope_res,
}
use whack.Expr.Fuel.Conditions.{Ends-expression_codegen}
use whack.Expr.Factors.{
  character_codegen, floating_pt_codegen, scope_res_codegen, global_ident, captured_field,
  captured_in, captured_ident, ident_codegen, load_times, load_pointer, deref_codegen,
  increment_scalar, increment_struct, increment_value, increment, pre_op_codegen, post_op_codegen,
  index_into, index_all, element_factor_codegen, reference_codegen, integral_codegen,
  boolean_codegen, null_ptr_codegen, factor_of_kind, factor_codegen, expr_codegen,
}

module _ (B : Builder) where
  open B use {llvm, Val, Ir, type_of, get_function, get_global_variable, lookup}
  open llvm use {string_ref}

  Ends-build : (i : Instr llvm.Ty Val B.Block) → Ends (build B i)
  Ends-build i s = cc

  Ends-integral_codegen : (a : Ast) → Ends (integral_codegen B a)
  unfolding integral_codegen
  Ends-integral_codegen a s = cc

  Ends-boolean_codegen : (a : Ast) → Ends (boolean_codegen B a)
  unfolding boolean_codegen
  Ends-boolean_codegen a s = cc

  Ends-null_ptr_codegen : Ends (null_ptr_codegen B)
  unfolding null_ptr_codegen
  Ends-null_ptr_codegen s = cc

  Ends-reference_codegen :
      (factor expression : Ast → Exec Ir Val) (a : Ast)
      → Ends (reference_codegen B factor expression a)
  unfolding reference_codegen
  Ends-reference_codegen factor expression a s = cc

  Ends-load : (v : Val) → Ends (build B (load v))
  Ends-load v s = cc

  Ends-character_codegen : (a : Ast) → Ends (character_codegen B a)
  unfolding character_codegen
  Ends-character_codegen a s = ground arith

  Ends-floating_pt_codegen : (a : Ast) → Ends (floating_pt_codegen B a)
  unfolding floating_pt_codegen
  Ends-floating_pt_codegen a s = ground arith

  Ends-scope_res_codegen : (a : Ast) → Ends (scope_res_codegen B a)
  unfolding scope_res_codegen
  Ends-scope_res_codegen a s = ground arith

  Ends-global_ident : (row : ℕ) (name : String) → Ends (global_ident B row name)
  unfolding global_ident
  Ends-global_ident row name s = ground arith

  Ends-captured_field :
      (row : ℕ) (name : String) (env : Val) (i : Option ℕ) → Ends (captured_field B row name env i)
  unfolding captured_field
  Ends-captured_field row name env none = Ends-global_ident row name
  Ends-captured_field row name env (some i) = Ends-bind _ _ (Ends-build _) λ p. Ends-load p

  Ends-captured_in : (row : ℕ) (name : String) (env : Val) → Ends (captured_in B row name env)
  unfolding captured_in
  Ends-captured_in row name env s = Ends-lift_bind _ _ (λ i e. Ends-captured_field row name env i) s

  Ends-captured_ident : (row : ℕ) (name : String) → Ends (captured_ident B row name)
  unfolding captured_ident
  Ends-captured_ident row name s =
      Ends-lift_bind (lookup s ".env") _ (λ env e. Ends-captured_in row name env) s

  Ends-ident_codegen : (a : Ast) → Ends (ident_codegen B a)
  unfolding ident_codegen
  Ends-ident_codegen a s =
      ground (
        arith,
        Ends-global_ident (row a) (contents a) s,
        Ends-captured_ident (row a) (contents a) s,
      )

  module _ (n : ℕ) (factor expression : Ast → Exec Ir Val)
      (ihf : (a : Ast) → height a < n → Ends (factor a))
      (ihe : (a : Ast) → height a < n → Ends (expression a)) where
    at_child :
        (a : Ast) (i : ℕ) (f : Ast → Exec Ir Val)
        → height a ≤ n
        → ((c : Ast) → height c < n → Ends (f c))
        → Ends (lift (child a i) >>= f)
    at_child a i f h k =
        Ends-lift_bind (child a i) f λ c e. k c (omega (arith, height-child a c i e))

    Ends-load_times : (row i k : ℕ) (v : Val) → Ends (load_times B factor expression row i k v)
    unfolding load_times
    Ends-load_times row i zero v = Ends-pure v
    Ends-load_times row i (suc k) v =
        Ends-if _ _ _
          (Ends-bind (build B (load v)) _ (Ends-load v) λ u. Ends-load_times row (suc i) k u)
          (Ends-raise _ _)

    Ends-load_pointer : (a : Ast) → height a ≤ n → Ends (load_pointer B factor expression a)
    unfolding load_pointer
    Ends-load_pointer a h =
        at_child a (length (children a) - 1) _ h
          λ x k. Ends-bind (factor x) _ (ihf x k) λ v. Ends-load_times _ 0 _ v

    Ends-deref_codegen : (a : Ast) → height a ≤ n → Ends (deref_codegen B factor expression a)
    unfolding deref_codegen
    Ends-deref_codegen a h =
        Ends-bind (load_pointer B factor expression a) _ (Ends-load_pointer a h) λ p. Ends-load p

    Ends-increment_scalar :
        (row : ℕ) (op : String) (v w : Val) → Ends (increment_scalar B factor expression row op v w)
    unfolding increment_scalar
    Ends-increment_scalar row op v w s = ground arith

    Ends-increment_struct :
        (row : ℕ) (op : String) (t : llvm.Ty) (v : Val)
        → Ends (increment_struct B factor expression row op t v)
    unfolding increment_struct
    Ends-increment_struct row op t v s = ground arith

    Ends-increment_value :
        (row : ℕ) (op : String) (v value : Val)
        → Ends (increment_value B factor expression row op v value)
    unfolding increment_value
    Ends-increment_value row op v value =
        Ends-if _ _ _
          (Ends-bind (increment_scalar B factor expression row op v value) _
            (Ends-increment_scalar row op v value) λ m. Ends-pure (v, m))
          (Ends-if _ _ _
            (Ends-bind (increment_struct B factor expression row op _ v) _
              (Ends-increment_struct row op _ v) λ m. Ends-pure (v, m))
            (Ends-raise _ _))

    Ends-increment : (a : Ast) → height a ≤ n → Ends (increment B factor expression a)
    unfolding increment
    Ends-increment a h = Ends-lift_bind (child a 1) _ λ x ex. Ends-lift_bind (child a 0) _ λ o eo.
        Ends-bind (factor x) _ (ihf x (omega (arith, height-child a x 1 ex))) λ v.
          Ends-bind (build B (load v)) _ (Ends-load v)
            λ value. Ends-increment_value (row a) (contents o) v value

    Ends-pre_op : (a : Ast) → height a ≤ n → Ends (pre_op_codegen B factor expression a)
    unfolding pre_op_codegen
    Ends-pre_op a h =
        Ends-bind (increment B factor expression a) _ (Ends-increment a h) λ r. Ends-pure r.1

    Ends-post_op : (a : Ast) → height a ≤ n → Ends (post_op_codegen B factor expression a)
    unfolding post_op_codegen
    Ends-post_op a h =
        Ends-bind (increment B factor expression a) _ (Ends-increment a h) λ r. Ends-pure r.0

    Ends-index_into : (v i : Val) → Ends (index_into B factor expression v i)
    unfolding index_into
    Ends-index_into v i s = ground arith

    Ends-index_all :
        (v : Val) (l : List Ast) → AllLower n l → Ends (index_all B factor expression v l)
    unfolding index_all
    Ends-index_all v [] h = Ends-pure v
    Ends-index_all v (a ∷ []) h = Ends-pure v
    Ends-index_all v (a ∷ e ∷ []) h =
        Ends-bind (expression e) _ (ihe e h.1.0) λ i. Ends-index_into v i
    Ends-index_all v (a ∷ e ∷ r ∷ l) h = Ends-bind (expression e) _ (ihe e h.1.0) λ i.
        Ends-bind (index_into B factor expression v i) _ (Ends-index_into v i)
          λ w. Ends-index_all w l h.1.1.1

    Ends-element_factor_codegen :
        (a : Ast) → height a ≤ n → Ends (element_factor_codegen B factor expression a)
    unfolding element_factor_codegen
    Ends-element_factor_codegen (node t c r nil) h = Ends-fault
    Ends-element_factor_codegen (node t c r (cons x l)) h =
        let lower = AllLower-children_below (node t c r (cons x l)) n h in
        Ends-bind (factor x) _ (ihf x lower.0) λ v. Ends-index_all v (to_list l) lower.1

  module _ (other : FactorKind → Ast → Exec Ir Val)
      (ends : (k : FactorKind) (a : Ast) → Ends (other k a)) where
    Ends-factor_of_kind :
        (n : ℕ) (inner : Ast → Exec Ir Val) (k : FactorKind) (a : Ast)
        → ((c : Ast) → height c < n → Ends (inner c))
        → height a ≤ n
        → Ends (factor_of_kind B other inner k a)
    unfolding factor_of_kind
    Ends-factor_of_kind n inner k_character a ih h = Ends-character_codegen a
    Ends-factor_of_kind n inner k_boolean a ih h = Ends-boolean_codegen a
    Ends-factor_of_kind n inner k_integral a ih h = Ends-integral_codegen a
    Ends-factor_of_kind n inner k_floating_pt a ih h = Ends-floating_pt_codegen a
    Ends-factor_of_kind n inner k_null_ptr a ih h = Ends-null_ptr_codegen
    Ends-factor_of_kind n inner k_ident a ih h = Ends-ident_codegen a
    Ends-factor_of_kind n inner k_scope_res a ih h = Ends-scope_res_codegen a
    Ends-factor_of_kind n inner k_deref a ih h =
        Ends-deref_codegen n inner _ ih (Ends-expression_codegen B inner n ih) a h
    Ends-factor_of_kind n inner k_reference a ih h = Ends-reference_codegen inner _ a
    Ends-factor_of_kind n inner k_pre_op a ih h =
        Ends-pre_op n inner _ ih (Ends-expression_codegen B inner n ih) a h
    Ends-factor_of_kind n inner k_post_op a ih h =
        Ends-post_op n inner _ ih (Ends-expression_codegen B inner n ih) a h
    Ends-factor_of_kind n inner k_element a ih h =
        Ends-element_factor_codegen n inner _ ih (Ends-expression_codegen B inner n ih) a h
    Ends-factor_of_kind n inner k a ih h = ends k a

    pub Ends-factor_codegen :
        (fuel : ℕ) (a : Ast) → height a ≤ fuel → Ends (factor_codegen B other fuel a)
    unfolding factor_codegen
    Ends-factor_codegen zero (node t c r as_) h = absurd (omega arith)
    Ends-factor_codegen (suc fuel) a h =
        Ends-option (get_factor string_ref a) _ _
          (λ k e.
            Ends-factor_of_kind (suc fuel) (factor_codegen B other fuel) k a
              (λ c l. Ends-factor_codegen fuel c (omega arith)) h)
          Ends-fault

    Ends-expr_codegen : (fuel : ℕ) (a : Ast) → height a ≤ fuel → Ends (expr_codegen B other fuel a)
    unfolding expr_codegen
    Ends-expr_codegen fuel a h =
        Ends-expression_codegen B (factor_codegen B other fuel) (suc fuel)
          (λ c l. Ends-factor_codegen fuel c (omega arith)) a (omega arith)

  -- With fuel for the height of its node, building an expression of the operators, comparisons and
  -- conditions over literals, names, dereferences, references, increments and elements ends: in a
  -- value, an error or a fault. A factor of another class counts as a fault here.
  pub expr_codegen-ne-out_of_fuel :
      (fuel : ℕ) (a : Ast) → height a ≤ fuel → Ends (expr_codegen B (λ k x s. fault) fuel a)
  expr_codegen-ne-out_of_fuel fuel a h = Ends-expr_codegen (λ k x s. fault) (λ k x s. cc) fuel a h
