-- ===== src/Expr/Fuel.antt =====
-- The classes of expressions need no more fuel than the height of their node.
mod Conditions
pub mod Factors
use whack.Prelude.{
  ℕ, zero, suc, ◌<◌, ◌≤◌, ◌≡◌, refl, subst, ◌≢◌, String, ◌==◌, Bool, true, false, Option, none,
  some, List, [], ◌∷◌, arith, if◌then◌else◌, Bool-cases, inl, inr,
}
use whack.Outcome.{Exec, ok, failed, fault, out_of_fuel, lift, pure}
use whack.Outcome.Rules.{
  Ends, Ends-bind, Ends-lift_bind, Ends-if, Ends-pure, Ends-raise, Ends-fault, Ends-option,
}
use whack.Ast.{
  Ast, node, nil, cons, to_list, child, children, contents, height, get_innermost_ast_tag,
}
use whack.Metadata.{◌>>=◌}
use whack.Llvm.{Llvm}
use whack.StringRef.{StringRef}
use whack.Types.{is_struct_kind}
use whack.Types.Fuel.{AllLower, AllLower-children, AllLower-children_below, height-child}
use whack.Builder.{Builder, loaded}
use whack.Expr.Operators.{
  Chain, others_of, chain_of_ast, ops_table, apply_scalar_op, apply_struct_op, term_step, lexp_step,
  run_chain, term_codegen, term, lexp_codegen, lexp,
}

-- Every operand of a chain is lower than the bound.
abbrev AreLower : ℕ → List (String × Ast) → Type 0
AreLower n [] = Unit
AreLower n ((op, a) ∷ os) = (height a < n) × AreLower n os

-- The same of the chain that a node is read as, if it is one.
abbrev LowerOthers : ℕ → Option (List (String × Ast)) → Type 0
LowerOthers n none = Unit
LowerOthers n (some os) = AreLower n os

LowerOthers-cons :
    (n : ℕ) (op : String) (a : Ast) (os : Option (List (String × Ast)))
    → height a < n
    → LowerOthers n os
    → LowerOthers n (os >>= λ rest. some ((op, a) ∷ rest))
LowerOthers-cons n op a none h k = tt
LowerOthers-cons n op a (some os) h k = (h, k)

pub LowerOthers-others_of : (n : ℕ) (l : List Ast) → AllLower n l → LowerOthers n (others_of l)
unfolding others_of
LowerOthers-others_of n [] h = tt
LowerOthers-others_of n (o ∷ []) h = tt
LowerOthers-others_of n (o ∷ a ∷ l) h =
    LowerOthers-cons n (contents o) a (others_of l) h.1.0 (LowerOthers-others_of n l h.1.1)

abbrev LowerChain : ℕ → Option Chain → Type 0
LowerChain n none = Unit
LowerChain n (some c) = (height c.initial < n) × AreLower n c.others

LowerChain-made :
    (n row : ℕ) (x : Ast) (os : Option (List (String × Ast)))
    → height x < n
    → LowerOthers n os
    → LowerChain n (os >>= λ rest. some (record { row = row; initial = x; others = rest }))
LowerChain-made n row x none h k = tt
LowerChain-made n row x (some os) h k = (h, k)

LowerChain-if :
    (n : ℕ) (b : Bool) (p q : Option Chain)
    → LowerChain n p
    → LowerChain n q
    → LowerChain n (if b then p else q)
LowerChain-if n true p q hp hq = hp
LowerChain-if n false p q hp hq = hq

LowerChain-chain_of_ast :
    (T : StringRef) (tag : String) (a : Ast) (n : ℕ)
    → height a < n
    → LowerChain n (chain_of_ast T tag a)
unfolding chain_of_ast
LowerChain-chain_of_ast T tag (node t c r nil) n h =
    LowerChain-if n (get_innermost_ast_tag T (node t c r nil) == tag) _ _ tt (h, tt)
LowerChain-chain_of_ast T tag (node t c r (cons x l)) n h =
    let lower = AllLower-children_below (node t c r (cons x l)) n (omega arith) in
    LowerChain-if n (get_innermost_ast_tag T (node t c r (cons x l)) == tag) _ _
      (LowerChain-made n r x (others_of (to_list l)) lower.0
        (LowerOthers-others_of n (to_list l) lower.1))
      (h, tt)

module _ (B : Builder) where
  open B use {llvm, Val, Ir, type_of, get_function}
  open llvm use {string_ref}

  Ends-apply_scalar_op :
      (row : ℕ) (shown op : String) (l r : Val) → Ends (apply_scalar_op B row shown op l r)
  unfolding apply_scalar_op
  Ends-apply_scalar_op row shown op l r s = ground arith

  Ends-apply_struct_op :
      (row : ℕ) (op : String) (t : llvm.Ty) (l r : Val) → Ends (apply_struct_op B row op t l r)
  unfolding apply_struct_op
  Ends-apply_struct_op row op t l r s = ground arith

  Ends-loaded : (v : Val) → Ends (loaded B v)
  Ends-loaded v s = ground arith

  module _ (factor : Ast → Exec Ir Val) (n : ℕ)
      (ih : (a : Ast) → height a < n → Ends (factor a)) where
    Ends-term_step :
        (row : ℕ) (v : Val) (op : String) (a : Ast)
        → height a < n
        → Ends (term_step B factor row v (op, a))
    unfolding term_step
    Ends-term_step row v op a h = Ends-bind (factor a) _ (ih a h) λ value.
        Ends-bind (loaded B value) _ (Ends-loaded value) λ rhs.
          Ends-if _ _ _ (Ends-apply_struct_op row op _ v rhs) (Ends-apply_scalar_op row _ _ v rhs)

    Ends-run_chain :
        (step : Val → String × Ast → Exec Ir Val) (v : Val) (os : List (String × Ast))
        → ((u : Val) (op : String) (a : Ast) → height a < n → Ends (step u (op, a)))
        → AreLower n os
        → Ends (run_chain B step v os)
    unfolding run_chain
    Ends-run_chain step v [] h k = Ends-pure v
    Ends-run_chain step v ((op, a) ∷ os) h (k, l) =
        Ends-bind (step v (op, a)) _ (h v op a k) λ u. Ends-run_chain step u os h l

    Ends-term_codegen :
        (row : ℕ) (x : Ast) (os : List (String × Ast))
        → height x < n
        → AreLower n os
        → Ends (term_codegen B factor (record { row = row; initial = x; others = os }))
    unfolding term_codegen
    Ends-term_codegen row x [] h k =
        Ends-bind (factor x) _ (ih x h) λ v. Ends-if _ _ _ (Ends-pure v) (Ends-loaded v)
    Ends-term_codegen row x (o ∷ os) h k = Ends-bind (factor x) _ (ih x h) λ v.
        Ends-bind (loaded B v) _ (Ends-loaded v)
          λ u. Ends-run_chain (term_step B factor row) u (o ∷ os) (Ends-term_step row) k

    Ends-term : (a : Ast) → height a < n → Ends (term B factor a)
    unfolding term
    Ends-term a h = Ends-lift_bind (chain_of_ast string_ref "term" a) _ λ c e.
        let lower : LowerChain n (some c) =
          subst (LowerChain n) e (LowerChain-chain_of_ast string_ref "term" a n h) in
        Ends-term_codegen c.row c.initial c.others lower.0 lower.1

    Ends-lexp_step :
        (row : ℕ) (v : Val) (op : String) (a : Ast)
        → height a < n
        → Ends (lexp_step B (term B factor) row v (op, a))
    unfolding lexp_step
    Ends-lexp_step row v op a h = Ends-bind (term B factor a) _ (Ends-term a h) λ rhs.
        Ends-if _ _ _ (Ends-raise _ _)
          (Ends-if _ _ _ (Ends-apply_struct_op row op _ v rhs) (Ends-apply_scalar_op row _ _ v rhs))

    pub Ends-lexp : (a : Ast) → height a < n → Ends (lexp B factor a)
    unfolding lexp lexp_codegen
    Ends-lexp a h = Ends-lift_bind (chain_of_ast string_ref "lexp" a) _ λ c e.
        let lower : LowerChain n (some c) =
          subst (LowerChain n) e (LowerChain-chain_of_ast string_ref "lexp" a n h) in
        Ends-bind (term B factor c.initial) _ (Ends-term c.initial lower.0) λ v.
          Ends-run_chain (lexp_step B (term B factor) c.row) v c.others (Ends-lexp_step c.row)
            lower.1
