-- ===== src/Stmt/Branches/Loops.antt =====
-- The blocks that a `while` leaves.
use whack.Prelude.{ℕ, ◌≡◌, refl, ap, ◌∙◌, String, List, [], ◌∷◌, ◌++◌, some}
use whack.Outcome.{Exec, ok}
use whack.Ast.{Ast, Asts, node, cons}
use whack.Builder.{Builder, Instr, br, cond_br, back, last}
use whack.Stmt.Branches.{Exit, while_exit, while_codegen}

module _ (B : Builder) where
  open B use {
    llvm, Val, Block, Ir, code, emit, insert_block, set_insert_point, move_after, create_block,
    append_block,
  }

  last-append :
      (l : List (Instr llvm.Ty Val Block)) (i : Instr llvm.Ty Val Block)
      → last B (l ++ i ∷ []) ≡ some i
  last-append [] i = refl
  last-append (j ∷ []) i = refl
  last-append (j ∷ k ∷ l) i = last-append (k ∷ l) i

  -- The end of `while`: the block for deferred statements jumps to the block behind.
  left_by_while :
      (s : Ir) (end d cont : Block)
      → back B
          (set_insert_point cont
            (move_after cont d (emit (br cont) (set_insert_point d (move_after d end s))).1))
          d
        ≡ some (br cont)
  unfolding back
  left_by_while s end d cont =
      ap (last B) (
        B.code-set_insert_point cont d _
        ∙ B.code-move_after cont d d _
        ∙ B.code-emit (br cont) d (move_after d end s) refl)
      ∙ last-append (code (move_after d end s) d) (br cont)

  -- The blocks that a `while` makes, in their order: the loop, the one for deferred statements, and
  -- the one behind. Here is each with the state in which it is made.
  abbrev pub made_loop : Ir → Block × Ir
  made_loop s = create_block "while" s

  abbrev pub made_deferred : Ir → Block × Ir
  made_deferred s = let loop = made_loop s in create_block "deferBlock" (append_block loop.0 loop.1)

  abbrev pub made_cont : Ir → Block × Ir
  made_cont s =
      let deferred = made_deferred s in create_block "cont" (append_block deferred.0 deferred.1)

  -- The state in which the condition is built first.
  abbrev pub prepared : Ir → Ir
  prepared s = append_block (made_cont s).0 (made_cont s).1

  -- The state in which the statement is built, behind the branch on the condition: in the loop.
  abbrev pub entered : Ir → Val → Ir → Ir
  entered s v s1 =
      set_insert_point (made_loop s).0 (emit (cond_br v (made_loop s).0 (made_deferred s).0) s1).1

  -- If the condition of a `while` is built where its blocks are made, its statement then in the loop,
  -- and its condition again behind the statement, the `while` is built. It leaves its block for
  -- deferred statements to its scope, this block ends with a jump to the block behind the loop, and
  -- what follows is built in that one.
  pub while_codegen-cont :
      (factor expression condition comparison : Ast → Exec Ir Val)
      (stmt : Ast → Exec Ir (Exit Block)) (t c : String) (r : ℕ) (keyword test body : Ast)
      (rest : Asts) (s s1 s2 s3 : Ir) (v w : Val) (e : Exit Block)
      → condition test (prepared s) ≡ ok v s1
      → stmt body (entered s v s1) ≡ ok e s2
      → condition test s2 ≡ ok w s3
      → (s' : Ir) × (while_codegen B factor expression condition comparison stmt
            (node t c r (cons keyword (cons test (cons body rest))))
            s
          ≡ ok (while_exit (made_deferred s).0 e) s')
        × (insert_block s' ≡ (made_cont s).0)
        × (back B s' (made_deferred s).0 ≡ some (br (made_cont s).0))
  unfolding while_codegen
  while_codegen-cont factor expression condition comparison stmt t c r keyword test body rest s s1
        s2 s3 v w e h1 h2 h3 =
      let s4 = (emit (cond_br w (made_loop s).0 (made_deferred s).0) s3).1 in
      (
        _,
        rw (h1, h2, h3),
        B.insert_block-set_insert_point (made_cont s).0 _,
        left_by_while s4 (insert_block s4) (made_deferred s).0 (made_cont s).0,
      )
