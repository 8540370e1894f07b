-- ===== src/Expr/Fuel/Conditions.antt =====
-- Comparisons, conditions and expressions need no more fuel than the height of their node.
use whack.Prelude.{
  ℕ, zero, suc, ◌<◌, ◌≤◌, ◌≡◌, refl, subst, String, ◌==◌, Bool, true, false, Option, none, some,
  List, [], ◌∷◌, arith, if◌then◌else◌,
}
use whack.Outcome.{Exec, lift, pure, ◌>>=◌}
use whack.Outcome.Rules.{Ends, Ends-bind, Ends-lift_bind, Ends-if, Ends-pure, Ends-fault}
use whack.Ast.{
  Ast, node, nil, cons, to_list, child, children, contents, height, get_innermost_ast_tag,
}
use whack.StringRef.{StringRef}
use whack.Metadata
use whack.Types.Fuel.{AllLower, AllLower-children_below, height-child}
use whack.Builder.{Builder, build, not_of}
use whack.Syntax.Expression.{
  ExpressionKind, get_expression_value, addr_of, ternary, bool_expr, comparison, lexp,
}
use whack.Expr.Operators
use whack.Expr.Operators.{others_of}
use whack.Expr.Fuel.{AreLower, LowerOthers, LowerOthers-others_of, Ends-lexp}
use whack.Expr.Conditions.{
  Condition, condition_chain, condition_of_ast, compare_with, join_bool, join_condition, fold_pairs,
  comparison_within, comparison_codegen, bool_operand, bool_expr_within, bool_expr_codegen,
  as_condition, conditional_codegen, run_condition, condition_codegen, condition, choose_value,
  ternary_codegen, expression_of_kind, expression_within, expression_codegen,
}

-- The operands of the condition that a node is read as, if it is one, are lower than the bound.
abbrev LowerCondition : ℕ → Option Condition → Type 0
LowerCondition n none = Unit
LowerCondition n (some c) = (height c.initial < n) × AreLower n c.others

LowerCondition-made :
    (n : ℕ) (b : Bool) (x : Ast) (os : Option (List (String × Ast)))
    → height x < n
    → LowerOthers n os
    → LowerCondition n
        (Metadata.◌>>=◌ os λ rest. some (record { negate = b; initial = x; others = rest }))
LowerCondition-made n b x none h k = tt
LowerCondition-made n b x (some os) h k = (h, k)

LowerCondition-if :
    (n : ℕ) (b : Bool) (p q : Option Condition)
    → LowerCondition n p
    → LowerCondition n q
    → LowerCondition n (if b then p else q)
LowerCondition-if n true p q hp hq = hp
LowerCondition-if n false p q hp hq = hq

LowerCondition-bind :
    (n : ℕ) (o : Option Ast) (f : Ast → Option Condition)
    → ((a : Ast) → o ≡ some a → LowerCondition n (f a))
    → LowerCondition n (Metadata.◌>>=◌ o f)
LowerCondition-bind n none f h = tt
LowerCondition-bind n (some a) f h = h a refl

LowerCondition-condition_chain :
    (n : ℕ) (b : Bool) (a : Ast) → height a < n → LowerCondition n (condition_chain b a)
unfolding condition_chain
LowerCondition-condition_chain n b (node t c r nil) h = tt
LowerCondition-condition_chain n b (node t c r (cons x l)) h =
    let lower = AllLower-children_below (node t c r (cons x l)) n (omega arith) in
    LowerCondition-made n b x (others_of (to_list l)) lower.0
      (LowerOthers-others_of n (to_list l) lower.1)

LowerCondition-condition_of_ast :
    (T : StringRef) (a : Ast) (n : ℕ) → height a < n → LowerCondition n (condition_of_ast T a)
unfolding condition_of_ast
LowerCondition-condition_of_ast T a n h =
    let at : (i : ℕ) (b : Bool) (c : Ast)
        → child a i ≡ some c
        → LowerCondition n (condition_chain b c) =
      λ i b c e. LowerCondition-condition_chain n b c (omega (arith, height-child a c i e)) in
    LowerCondition-if n (get_innermost_ast_tag T a == "condition") _
      (some (record { negate = false; initial = a; others = [] }))
      (LowerCondition-bind n (child a 0) _ λ x e.
        LowerCondition-if n (contents x == "!") _
          (if contents x == "("
            then (Metadata.◌>>=◌ (child a 1) (condition_chain false))
            else condition_chain false a)
          (LowerCondition-bind n (child a 2) (condition_chain true) (at 2 true))
          (LowerCondition-if n (contents x == "(") _ (condition_chain false a)
            (LowerCondition-bind n (child a 1) (condition_chain false) (at 1 false))
            (LowerCondition-condition_chain n false a h)))
      (h, tt)

module _ (B : Builder) where
  open B use {llvm, Val, Ir, type_of, get_function}
  open llvm use {string_ref}

  Ends-compare_with : (op : String) (l r : Val) → Ends (compare_with B op l r)
  unfolding compare_with
  Ends-compare_with op l r s = ground arith

  Ends-join_condition : (op : String) (l r : Val) → Ends (join_condition B op l r)
  unfolding join_condition
  Ends-join_condition op l r s = ground arith

  Ends-join_bool : (op : String) (l r : Val) → Ends (join_bool B op l r)
  unfolding join_bool
  Ends-join_bool op l r s = cc

  Ends-as_condition :
      (factor : Ast → Exec Ir Val) (row : ℕ) (v : Val) → Ends (as_condition B factor row v)
  unfolding as_condition
  Ends-as_condition factor row v s = ground arith

  Ends-fold_pairs :
      (join : String → Val → Val → Exec Ir Val) (codegen : Ast → Exec Ir Val) (n : ℕ) (v : Val)
      (l : List Ast)
      → ((op : String) (x y : Val) → Ends (join op x y))
      → ((a : Ast) → height a < n → Ends (codegen a))
      → AllLower n l
      → Ends (fold_pairs B join codegen v l)
  unfolding fold_pairs
  Ends-fold_pairs join codegen n v [] hj hc h = Ends-pure v
  Ends-fold_pairs join codegen n v (o ∷ []) hj hc h = Ends-fault
  Ends-fold_pairs join codegen n v (o ∷ a ∷ l) hj hc h = Ends-bind (codegen a) _ (hc a h.1.0) λ rhs.
      Ends-bind (join (contents o) v rhs) _ (hj (contents o) v rhs)
        λ w. Ends-fold_pairs join codegen n w l hj hc h.1.1

  Ends-not_of : (v : Val) → Ends (build B (not_of v))
  Ends-not_of v s = cc

  Ends-choose_value :
      (factor : Ast → Exec Ir Val) (row : ℕ) (c h o : Val) → Ends (choose_value B factor row c h o)
  unfolding choose_value
  Ends-choose_value factor row c h o s = ground arith

  module _ (factor : Ast → Exec Ir Val) (n : ℕ)
      (ih : (a : Ast) → height a < n → Ends (factor a)) where
    -- A child in place of its node.
    at_child :
        (a : Ast) (i k : ℕ) (f : Ast → Exec Ir Val)
        → height a ≤ k
        → ((c : Ast) → height c < k → Ends (f c))
        → Ends (lift (child a i) >>= f)
    at_child a i k f h g =
        Ends-lift_bind (child a i) f λ c e. g c (omega (arith, height-child a c i e))

    -- The rest of the children of a node.
    Ends-comparison_rest :
        (v : Val) (a : Ast)
        → height a < n
        → Ends (elim (children a) as (λ x. Exec Ir Val) [
          | [] ↦ pure v
          | y ∷ l ↦ fold_pairs B (compare_with B) (Operators.lexp B factor) v l
        ])
    Ends-comparison_rest v (node t c r nil) h = Ends-pure v
    Ends-comparison_rest v (node t c r (cons y l)) h =
        Ends-fold_pairs (compare_with B) (Operators.lexp B factor) n v (to_list l) Ends-compare_with
          (Ends-lexp B factor n ih)
          (AllLower-children_below (node t c r (cons y l)) n (omega arith)).1

    Ends-comparison_within :
        (k : ℕ) (a : Ast) → height a ≤ k → height a < n → Ends (comparison_within B factor k a)
    unfolding comparison_within
    Ends-comparison_within zero (node t c r as_) h l = absurd (omega arith)
    Ends-comparison_within (suc k) a h l =
        let inner : (c : Ast) → height c < height a → Ends (comparison_within B factor k c) =
          λ c e. Ends-comparison_within k c (omega arith) (omega arith) in
        at_child a 0 (height a) _ (omega arith) λ x e.
          Ends-if _ _ _
            (Ends-bind (Operators.lexp B factor x) _ (Ends-lexp B factor n ih x (omega arith))
              λ v. Ends-comparison_rest v a l)
            (Ends-if _ _ _
              (at_child a 2 (height a) _ (omega arith) λ c e'.
                Ends-bind (comparison_within B factor k c) _ (inner c e') λ v. Ends-not_of v)
              (at_child a 1 (height a) _ (omega arith) inner))

    Ends-comparison_codegen : (a : Ast) → height a < n → Ends (comparison_codegen B factor a)
    unfolding comparison_codegen
    Ends-comparison_codegen a h = Ends-comparison_within (height a) a (omega arith) h

    Ends-bool_operand : (a : Ast) → height a < n → Ends (bool_operand B factor a)
    unfolding bool_operand
    Ends-bool_operand a h =
        Ends-if _ _ _ (Ends-comparison_codegen a h) (Ends-lexp B factor n ih a h)

    Ends-bool_expr_within :
        (k : ℕ) (a : Ast) → height a ≤ k → height a < n → Ends (bool_expr_within B factor k a)
    unfolding bool_expr_within
    Ends-bool_expr_within zero (node t c r as_) h l = absurd (omega arith)
    Ends-bool_expr_within (suc k) (node t c r nil) h l = Ends-lexp B factor n ih _ l
    Ends-bool_expr_within (suc k) (node t c r (cons x as_)) h l =
        let a = node t c r (cons x as_) in
        let inner : (c : Ast) → height c < height a → Ends (bool_expr_within B factor k c) =
          λ c e. Ends-bool_expr_within k c (omega arith) (omega arith) in
        let lower = AllLower-children_below a (height a) (omega arith) in
        let below = AllLower-children_below a n (omega arith) in
        Ends-if _ _ _
          (at_child a 2 (height a) _ (omega arith)
            λ c e'. Ends-bind (bool_expr_within B factor k c) _ (inner c e') λ v. Ends-not_of v)
          (Ends-if _ _ _ (at_child a 1 (height a) _ (omega arith) inner) (
            Ends-if _ _ _ (Ends-comparison_codegen a l) (
              Ends-if _ _ _
                (Ends-bind (comparison_codegen B factor x) _ (Ends-comparison_codegen x below.0)
                  λ v.
                    Ends-fold_pairs (join_bool B) (bool_operand B factor) n v (to_list as_)
                      Ends-join_bool Ends-bool_operand below.1)
                (Ends-bind (Operators.lexp B factor x) _ (Ends-lexp B factor n ih x below.0) λ v.
                  Ends-fold_pairs (join_bool B) (bool_expr_within B factor k) (height a) v
                    (to_list as_) Ends-join_bool inner lower.1))))

    Ends-conditional_codegen : (a : Ast) → height a < n → Ends (conditional_codegen B factor a)
    unfolding conditional_codegen bool_expr_codegen
    Ends-conditional_codegen a h = Ends-if _ _ _ (Ends-comparison_codegen a h) (
        Ends-if _ _ _ (Ends-bool_expr_within (height a) a (omega arith) h) (
          Ends-bind (Operators.lexp B factor a) _ (Ends-lexp B factor n ih a h)
            λ v. Ends-as_condition factor _ v))

    Ends-run_condition :
        (v : Val) (os : List (String × Ast)) → AreLower n os → Ends (run_condition B factor v os)
    unfolding run_condition
    Ends-run_condition v [] h = Ends-pure v
    Ends-run_condition v ((op, a) ∷ os) (h, k) =
        Ends-bind (conditional_codegen B factor a) _ (Ends-conditional_codegen a h) λ rhs.
          Ends-bind (join_condition B op v rhs) _ (Ends-join_condition op v rhs)
            λ w. Ends-run_condition w os k

    pub Ends-condition : (a : Ast) → height a < n → Ends (condition B factor a)
    unfolding condition condition_codegen
    Ends-condition a h = Ends-lift_bind (condition_of_ast string_ref a) _ λ c e.
        let lower : LowerCondition n (some c) =
          subst (LowerCondition n) e (LowerCondition-condition_of_ast string_ref a n h) in
        Ends-bind (conditional_codegen B factor c.initial) _
          (Ends-conditional_codegen c.initial lower.0)
          λ v.
            Ends-bind (run_condition B factor v c.others) _ (Ends-run_condition v c.others lower.1)
              λ w. Ends-if _ _ _ (Ends-not_of w) (Ends-pure w)

    Ends-ternary_codegen :
        (codegen : Ast → Exec Ir Val) (a : Ast)
        → height a < n
        → ((c : Ast) → height c < height a → Ends (codegen c))
        → Ends (ternary_codegen B factor codegen a)
    unfolding ternary_codegen
    Ends-ternary_codegen codegen a h k = at_child a 0 (height a) _ (omega arith) λ c ec.
        at_child a 2 (height a) _ (omega arith) λ x ex.
          at_child a 4 (height a) _ (omega arith) λ o eo.
            Ends-bind (condition B factor c) _ (Ends-condition c (omega arith)) λ cond.
              Ends-bind (codegen x) _ (k x ex) λ hence.
                Ends-bind (codegen o) _ (k o eo)
                  λ otherwise. Ends-choose_value factor _ cond hence otherwise

    Ends-expression_of_kind :
        (kind : ExpressionKind) (inner : Ast → Exec Ir Val) (a : Ast)
        → height a < n
        → ((c : Ast) → height c < height a → Ends (inner c))
        → Ends (expression_of_kind B factor kind inner a)
    unfolding bool_expr_codegen
    Ends-expression_of_kind addr_of inner a h k =
        at_child a 1 (height a) factor (omega arith) λ c e. ih c (omega arith)
    Ends-expression_of_kind ternary inner a h k = Ends-ternary_codegen inner a h k
    Ends-expression_of_kind bool_expr inner a h k =
        Ends-bool_expr_within (height a) a (omega arith) h
    Ends-expression_of_kind comparison inner a h k = Ends-comparison_codegen a h
    Ends-expression_of_kind lexp inner a h k = Ends-lexp B factor n ih a h

    Ends-expression_within :
        (k : ℕ) (a : Ast) → height a ≤ k → height a < n → Ends (expression_within B factor k a)
    unfolding expression_within
    Ends-expression_within zero (node t c r as_) h l = absurd (omega arith)
    Ends-expression_within (suc k) a h l =
        Ends-expression_of_kind (get_expression_value string_ref a) (expression_within B factor k) a
          l λ c e. Ends-expression_within k c (omega arith) (omega arith)

    pub Ends-expression_codegen : (a : Ast) → height a < n → Ends (expression_codegen B factor a)
    unfolding expression_codegen
    Ends-expression_codegen a h = Ends-expression_within (height a) a (omega arith) h
