-- ===== src/Expr/Chains.antt =====
-- What a chain of operators computes: the operands are combined from the left.
use whack.Prelude.{ℕ, String, ◌≡◌, refl, ◌∙◌, ap, sym, true, false, some, List, [], ◌∷◌}
use whack.Outcome.{Exec, ok}
use whack.Ast.{Ast}
use whack.Types.{is_struct_kind}
use whack.Builder.{Builder, BinaryOp, takes, binary, build, loaded}
use whack.Expr.Operators.{
  Chain, chain_of_ast, ops_table, scalar_op, apply_scalar_op, term_step, lexp_step, run_chain,
  term_codegen, term, lexp_codegen, lexp,
}

-- `Keeps` is what the factors need of the state: of the variables that they name, say.
module _ (B : Builder) (Keeps : Builder.Ir B → Type 0) where
  open B use {llvm, Val, Ir, type_of, meaning, Word, apply}
  open llvm use {Ty, same_ty, string_ref}

  -- The operands combined from the left.
  abbrev pub value_of : Word → List (BinaryOp × Word) → Word
  value_of w [] = w
  value_of w ((f, x) ∷ l) = value_of (apply f w x) l

  -- The operation gives a value of this type that holds this word, in a state with what the factors need,
  -- and keeps what they need.
  abbrev pub Gives : Exec Ir Val → Ty → Word → Type 0
  Gives p t w =
      (s : Ir)
      → Keeps s
      → (v : Val) × (s' : Ir) × (p s ≡ ok v s') × (type_of v ≡ t) × (meaning v ≡ w) × Keeps s'

  -- A factor gives, behind the load of a variable, such a value, and is no struct.
  abbrev pub Reads : (Ast → Exec Ir Val) → Ty → Ast → Word → Type 0
  Reads factor t a w =
      (s : Ir)
      → Keeps s
      → (v : Val) × (s' : Ir) × (factor a s ≡ ok v s')
        × ((is_struct_kind llvm (type_of v)).1 ≡ false)
        × (u : Val) × (s'' : Ir) × (loaded B v s' ≡ ok u s'')
        × (type_of u ≡ t)
        × (meaning u ≡ w)
        × Keeps s''

  -- The operators and operands of a chain over `t`, each operator one that LLVM has on `t`, with what they compute.
  abbrev pub Operands :
      (Ast → Word → Type 0) → Ty → List (String × Ast) → List (BinaryOp × Word) → Type 0
  Operands holds t [] [] = Unit
  Operands holds t ((op, a) ∷ os) ((f, w) ∷ ws) =
      (ops_table (scalar_op B t op) ≡ some f)
      × (takes llvm f t ≡ true)
      × holds a w
      × Operands holds t os ws
  Operands holds t _ _ = ⊥

  -- A node is a chain of such operands; this is what it computes.
  abbrev Chained : String → (Ast → Word → Type 0) → Ty → Ast → Word → Type 0
  Chained tag holds t a w =
      (c : Chain) × (x : Word) × (ws : List (BinaryOp × Word)) × (chain_of_ast string_ref tag a
        ≡ some c)
      × holds c.initial x
      × Operands holds t c.others ws
      × (value_of x ws ≡ w)

  -- A node is a product of factors that read these words, and a sum of such products.
  abbrev pub IsTerm : (Ast → Exec Ir Val) → Ty → Ast → Word → Type 0
  IsTerm factor t = Chained "term" (Reads factor t) t

  abbrev pub IsSum : (Ast → Exec Ir Val) → Ty → Ast → Word → Type 0
  IsSum factor t = Chained "lexp" (IsTerm factor t) t

  -- A step of a chain that computes.
  abbrev Steps : (Val → String × Ast → Exec Ir Val) → (Ast → Word → Type 0) → Ty → Type 0
  Steps step holds t =
      (v : Val) (op : String) (a : Ast) (f : BinaryOp) (w : Word)
      → type_of v ≡ t
      → ops_table (scalar_op B t op) ≡ some f
      → takes llvm f t ≡ true
      → holds a w
      → Gives (step v (op, a)) t (apply f (meaning v) w)

  run_chain-Gives :
      (step : Val → String × Ast → Exec Ir Val) (holds : Ast → Word → Type 0) (t : Ty) (v : Val)
      (os : List (String × Ast)) (ws : List (BinaryOp × Word))
      → Steps step holds t
      → type_of v ≡ t
      → Operands holds t os ws
      → Gives (run_chain B step v os) t (value_of (meaning v) ws)
  unfolding run_chain
  run_chain-Gives step holds t v [] [] h k os s q = (v, s, refl, k, refl, q)
  run_chain-Gives step holds t v [] (w ∷ ws) h k os s q = elim os [ ]
  run_chain-Gives step holds t v (o ∷ os) [] h k e s q = elim e [ ]
  run_chain-Gives step holds t v ((op, a) ∷ os) ((f, w) ∷ ws) h k (p, i, q, r) s n =
      let (u, s', e, tu, mu, n') = h v op a f w k p i q s n in
      let (x, s'', e', tx, mx, n'') = run_chain-Gives step holds t u os ws h tu r s' n' in
      (x, s'', rw (e, e'), tx, mx ∙ ap (λ y. value_of y ws) mu, n'')

  apply_scalar_op-build :
      (row : ℕ) (shown op : String) (lhs rhs : Val) (f : BinaryOp) (s : Ir)
      → ops_table op ≡ some f
      → apply_scalar_op B row shown op lhs rhs s ≡ build B (binary f lhs rhs) s
  unfolding apply_scalar_op
  apply_scalar_op-build row shown op lhs rhs f s h = rw (apply_scalar_op, h)

  module _
      (kept : (f : BinaryOp) (v w : Val) (s : Ir) → Keeps s → Keeps (B.emit (binary f v w) s).1)
      (factor : Ast → Exec Ir Val) (t : Ty) (scalar : (is_struct_kind llvm t).1 ≡ false) where
    term_step-Steps : (row : ℕ) → Steps (term_step B factor row) (Reads factor t) t
    unfolding term_step
    term_step-Steps row v op a f w k p i q s g =
        let (x, s', e, n, u, s'', l, tu, mu, g') = q s g in
        let step = binary f v u in
        (
          (B.emit step s'').0,
          (B.emit step s'').1,
          rw (
            e,
            l,
            k,
            scalar,
            apply_scalar_op-build row (scalar_op B t op) (scalar_op B t op) v u f s'' p,
          ),
          B.type_of-binary f v u s'' (k ∙ sym tu) (ap (takes llvm f) k ∙ i) ∙ k,
          B.meaning-binary f v u s'' (k ∙ sym tu) (ap (takes llvm f) k ∙ i)
              ∙ ap (apply f (meaning v)) mu,
          kept f v u s'' g',
        )

    term_codegen-Gives :
        (row : ℕ) (a : Ast) (os : List (String × Ast)) (x : Word) (ws : List (BinaryOp × Word))
        → Reads factor t a x
        → Operands (Reads factor t) t os ws
        → Gives
            (term_codegen B factor (record { row = row; initial = a; others = os }))
            t
            (value_of x ws)
    unfolding term_codegen
    term_codegen-Gives row a [] x [] h os s g =
        let (v, s', e, n, u, s'', l, tu, mu, g') = h s g in (u, s'', rw (e, n, l), tu, mu, g')
    term_codegen-Gives row a [] x (w ∷ ws) h os s g = elim os [ ]
    term_codegen-Gives row a (o ∷ os) x [] h k s g = elim k [ ]
    term_codegen-Gives row a (o ∷ os) x (w ∷ ws) h k s g =
        let (v, s', e, n, u, s'', l, tu, mu, g') = h s g in
        let (y, s3, e', ty, my, g3) =
          run_chain-Gives (term_step B factor row) (Reads factor t) t u (o ∷ os) (w ∷ ws)
            (term_step-Steps row) tu k s'' g' in
        (y, s3, rw (e, l, e'), ty, my ∙ ap (λ z. value_of z (w ∷ ws)) mu, g3)

    term-Gives : (a : Ast) (w : Word) → IsTerm factor t a w → Gives (term B factor a) t w
    unfolding term
    term-Gives a w (c, x, ws, e, h, os, r) s g =
        let (v, s', e', tv, mv, g') = term_codegen-Gives c.row c.initial c.others x ws h os s g in
        (v, s', rw (e, e'), tv, mv ∙ r, g')

    lexp_step-Steps : (row : ℕ) → Steps (lexp_step B (term B factor) row) (IsTerm factor t) t
    unfolding lexp_step
    lexp_step-Steps row v op a f w k p i q s g =
        let (u, s', e, tu, mu, g') = term-Gives a w q s g in
        let step = binary f v u in
        (
          (B.emit step s').0,
          (B.emit step s').1,
          rw (
            e,
            k,
            tu,
            scalar,
            (llvm.same_ty_iff t t).1 refl,
            apply_scalar_op-build row op (scalar_op B t op) v u f s' p,
          ),
          B.type_of-binary f v u s' (k ∙ sym tu) (ap (takes llvm f) k ∙ i) ∙ k,
          B.meaning-binary f v u s' (k ∙ sym tu) (ap (takes llvm f) k ∙ i)
              ∙ ap (apply f (meaning v)) mu,
          kept f v u s' g',
        )

    -- Given what the factors need of the state, which an arithmetic instruction keeps, a sum of
    -- products of factors of one scalar type, each of which then reads a word and keeps it, by
    -- operators that LLVM has on that type, is compiled without an error. Its value has the type of
    -- the factors, and holds what the operators of `OpsTable` make of the words of the factors, the
    -- products first and each chain from the left.
    pub lexp-IsSum : (a : Ast) (w : Word) → IsSum factor t a w → Gives (lexp B factor a) t w
    unfolding lexp lexp_codegen
    lexp-IsSum a w (c, x, ws, e, h, os, r) s g =
        let (v, s', e', tv, mv, g') = term-Gives c.initial x h s g in
        let (u, s'', e2, tu, mu, g2) =
          run_chain-Gives (lexp_step B (term B factor) c.row) (IsTerm factor t) t v c.others ws
            (lexp_step-Steps c.row) tv os s' g' in
        (u, s'', rw (e, e', e2), tu, (mu ∙ ap (λ z. value_of z ws) mv) ∙ r, g2)
