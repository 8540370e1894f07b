-- ===== src/Func/Codegen/Closed.antt =====
-- The function that is built ends with a return.
use whack.Prelude.{
  ℕ, ◌≡◌, refl, ap, ◌∙◌, subst, true, Option, none, some, List, [], ◌∷◌, ◌++◌, arith, Bool-cases,
  Option-cases, inl, inr,
}
use whack.Outcome.{Exec, Outcome, ok}
use whack.Outcome.Rules.{bind-eq-ok}
use whack.Ast.{Ast}
use whack.Builder.{Builder, Instr, ret, ret_void, is_terminator, back, last}
use whack.Stmt.Branches.{Exit}
use whack.Func.Returns.{deduce_func_return_type}
use whack.Func.Codegen.{
  is_return, last_block, return_at, close_block, close_function, finish_function, build_function,
  settle_return_type,
}

module _ (B : Builder) where
  open B use {
    llvm, Val, Block, Ir, blocks, code, emit, set_insert_point, current_return_type, null_value,
  }
  open llvm use {Ty, void_ty, same_ty}

  -- The last block of the function ends with a return.
  abbrev pub EndsWithReturn : Ir → Type 0
  EndsWithReturn s =
      (b : Block) × (i : Instr Ty Val Block) × (last_block B (blocks s) ≡ some b)
      × (back B s b ≡ some i)
      × (is_return i ≡ true)

  last-append :
      (l : List (Instr Ty Val Block)) (i : Instr Ty Val Block) → last B (l ++ i ∷ []) ≡ some i
  last-append [] i = refl
  last-append (j ∷ []) i = refl
  last-append (j ∷ k ∷ l) i = last-append (k ∷ l) i

  -- A return is emitted at the end of the last block.
  emitted :
      (s : Ir) (b : Block) (i : Instr Ty Val Block)
      → last_block B (blocks s) ≡ some b
      → is_terminator i ≡ true
      → is_return i ≡ true
      → EndsWithReturn (emit i (set_insert_point b s)).1
  unfolding back
  emitted s b i h t r = (
    b,
    i,
    ap (last_block B) (B.blocks-emit i _ ∙ B.blocks-set_insert_point b s) ∙ h,
    ap (last B) (B.code-emit i b s t) ∙ last-append (code s b) i,
    r,
  )

  return_at-EndsWithReturn :
      (s : Ir) (b : Block)
      → last_block B (blocks s) ≡ some b
      → (s' : Ir) × (return_at B b s ≡ ok tt s') × EndsWithReturn s'
  unfolding return_at
  return_at-EndsWithReturn s b h =
      elim (Bool-cases (same_ty (current_return_type (set_insert_point b s)) void_ty)) [
        | inl e ↦ (_, rw e, emitted s b ret_void h refl refl)
        | inr e ↦ (
          _,
          rw e,
          emitted s b (ret (null_value (current_return_type (set_insert_point b s)))) h refl refl,
        )
      ]

  close_block-EndsWithReturn :
      (s : Ir) (b : Block) (o : Option (Instr Ty Val Block))
      → last_block B (blocks s) ≡ some b
      → back B s b ≡ o
      → (s' : Ir) × (close_block B b o s ≡ ok tt s') × EndsWithReturn s'
  unfolding close_block
  close_block-EndsWithReturn s b none h e = return_at-EndsWithReturn s b h
  close_block-EndsWithReturn s b (some i) h e = elim (Bool-cases (is_return i)) [
    | inl r ↦ (s, rw r, (b, i, h, e, r))
    | inr r ↦ rw r (return_at-EndsWithReturn s b h)
  ]

  -- A function with a block is closed: its last block then ends with a return.
  pub close_function-EndsWithReturn :
      (s : Ir) (b : Block)
      → last_block B (blocks s) ≡ some b
      → (s' : Ir) × (close_function B s ≡ ok tt s') × EndsWithReturn s'
  unfolding close_function
  close_function-EndsWithReturn s b h =
      let (s', e, r) = close_block-EndsWithReturn s b (back B s b) h refl in
      (s', rw (close_function, h) e, r)

  state_of : (s t : Ir) (o : Outcome Ir (Unit {0})) → o ≡ ok tt s → o ≡ ok tt t → s ≡ t
  state_of s t o h k = cc

  -- If it succeeds at all, the function has a block.
  closed : (s s' : Ir) → close_function B s ≡ ok tt s' → EndsWithReturn s'
  unfolding close_function
  closed s s' h = elim (Option-cases (last_block B (blocks s))) [
    | inl e ↦ absurd (ground (arith, h, e))
    | inr (b, e) ↦
        (let (t, f, r) = close_function-EndsWithReturn s b e in
          subst EndsWithReturn (state_of t s' (close_function B s) f h) r)
  ]

  module _ (body : Ast → Exec Ir (Exit Block)) (run_exit : Exit Block → Exec Ir (Unit {0})) where
    -- A function that is built without an error, whatever its body and the ends of its scopes build,
    -- ends with a return in its last block.
    pub build_function-EndsWithReturn :
        (row : ℕ) (a : Ast) (s s' : Ir)
        → build_function B body run_exit row a s ≡ ok tt s'
        → EndsWithReturn s'
    unfolding build_function finish_function
    build_function-EndsWithReturn row a s s' h =
        let (e, t, h1, h2) = bind-eq-ok (body a _) _ tt s' h in
        let (x, u, h3, h4) = bind-eq-ok (run_exit e t) _ tt s' h2 in
        let (d, v, h5, h6) = bind-eq-ok (deduce_func_return_type B row u) _ tt s' h4 in
        let (y, w, h7, h8) = bind-eq-ok (settle_return_type B row d v) _ tt s' h6 in closed w s' h8
