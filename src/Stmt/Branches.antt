-- ===== src/Stmt/Branches.antt =====
-- ast/ifstmt.hpp, ast/whilestmt.hpp and ast/forstmt.hpp: the blocks of branches and loops.
pub mod Loops
use whack.Prelude.{
  ℕ, zero, suc, ◌+◌, String, ◌==◌, ◌<>◌, Bool, true, false, Option, none, some, List, [], ◌∷◌,
  if◌then◌else◌, drop,
}
use whack.Outcome.{Exec, number, ◌>>=◌, ◌>>◌, pure, raise, lift, gets, fault}
use whack.Ast.{Ast, child, children, contents, row, get_innermost_ast_tag, get_outermost_ast_tag}
use whack.StringRef.{StringRef}
use whack.Llvm.{Llvm}
use whack.Metadata
use whack.Types.Codegen.{evens}
use whack.Builder.{Builder, Instr, br, cond_br, is_terminator, build, effect, finally, back}
use whack.Expr.Factors.{pre_op_codegen, post_op_codegen}
use whack.Stmt.Values.{LetExpr, let_of_ast, let_codegen}

-- What `codegen` leaves in a statement for its `runScopeExit`: the blocks that it has kept, and the
-- same of the statements in it.
pub data Exit (Block : Type 0) : Type 0 where
  no_exit : Exit Block
  then_exit : Block → Exit Block → Exit Block
  else_exit : Block → Exit Block → Block → Exit Block → Exit Block
  while_exit : Block → Exit Block → Exit Block
  for_exit : Exit Block → Exit Block
  -- the statements in order, the deferred ones with their blocks, the tags
  both_exit : Exit Block → Exit Block → Exit Block
  body_exit : Exit Block → List (Block × Ast) → Option Ast → Exit Block

-- The words before the condition of an `if`, and the children from the condition on.
unfoldable pub lets_of : StringRef → List Ast → List Ast × List Ast
lets_of T [] = ([], [])
lets_of T (a ∷ l) =
    let rest = lets_of T l in
    if get_outermost_ast_tag T a == "letexpr" then (a ∷ rest.0, rest.1) else ([], a ∷ l)

pub record If : Type 0 where
  pub lets : List Ast
  pub condition : Ast
  pub hence : Ast
  pub otherwise : Option Ast

-- The condition and the statements; what stands behind the first statement is `else` and another.
unfoldable pub if_parts : List Ast → List Ast → Option If
if_parts lets (c ∷ t ∷ []) =
    some (record { lets = lets; condition = c; hence = t; otherwise = none })
if_parts lets (c ∷ t ∷ e ∷ s ∷ l) =
    some (record { lets = lets; condition = c; hence = t; otherwise = some s })
if_parts lets _ = none

-- The constructor of `If`; the members of a node with a pattern are not set, and its use faults.
unfoldable pub if_of_ast : StringRef → Ast → Option If
if_of_ast T a = elim (children a) [
  | (i ∷ x ∷ l) ↦
      if get_outermost_ast_tag T x == "letbind"
      then none
      else (let parts = lets_of T (x ∷ l) in if_parts parts.0 parts.1)
  | _ ↦ none
]

module _ (B : Builder) where
  open B use {
    llvm, Val, Block, Ir, insert_block, set_insert_point, create_block, append_block, move_after,
    lookup, set_name,
  }
  open llvm use {string_ref}

  -- `BasicBlock::Create(ctx, name, func)`
  abbrev pub new_block : String → Exec Ir Block
  new_block name = (λ s. pure (create_block name s).0 (create_block name s).1) >>= λ b.
      effect B (append_block b) >> pure b

  -- `BasicBlock::Create(ctx, name)`
  abbrev pub detached_block : String → Exec Ir Block
  detached_block name s = pure (create_block name s).0 (create_block name s).1

  -- `if (!block->back().isTerminator()) { builder.CreateBr(cont); }`
  unfoldable pub close_with : Block → Block → Exec Ir (Unit {0})
  close_with block cont s = elim (back B s block) [
    | none ↦ fault
    | some i ↦ if is_terminator i then pure tt s else (build B (br cont) >> pure tt) s
  ]

  -- The variables of a `let` leave the scope by another name.
  unfoldable pub rename_all : List String → Exec Ir (Unit {0})
  rename_all [] = pure tt
  rename_all (name ∷ names) = gets (λ s. lookup s name) >>= λ found.
      lift found >>= λ v. effect B (set_name v (".tmp." <> name)) >> rename_all names

  module _ (factor expression condition comparison : Ast → Exec Ir Val)
      (stmt : Ast → Exec Ir (Exit Block)) where
    unfoldable pub run_lets : List Ast → Exec Ir (Unit {0})
    run_lets [] = pure tt
    run_lets (a ∷ l) =
        lift (let_of_ast string_ref a) >>= λ e. let_codegen B factor expression e >> run_lets l

    unfoldable pub rename_lets : List Ast → Exec Ir (Unit {0})
    rename_lets [] = pure tt
    rename_lets (a ∷ l) =
        lift (let_of_ast string_ref a) >>= λ e. rename_all e.names >> rename_lets l

    -- A branch: the statement from its block on, closed by a jump. The block that it ends in.
    unfoldable pub branch : Block → Block → Ast → Exec Ir (Block × Exit Block)
    branch block cont a = do
      effect B (set_insert_point block)
      e ← stmt a
      end ← gets insert_block
      close_with end cont
      pure (end, e)

    unfoldable pub if_then : Val → Ast → Exec Ir (Exit Block)
    if_then cond hence = do
      then_block ← new_block "then"
      cont ← detached_block "cont"
      build B (cond_br cond then_block cont)
      ended ← branch then_block cont hence
      effect B (append_block cont)
      effect B (set_insert_point cont)
      pure (then_exit ended.0 ended.1)

    unfoldable pub if_then_else : Val → Ast → Ast → Exec Ir (Exit Block)
    if_then_else cond hence otherwise = do
      then_block ← new_block "then"
      else_block ← detached_block "else"
      cont ← detached_block "cont"
      build B (cond_br cond then_block else_block)
      ended ← branch then_block cont hence
      effect B (append_block else_block)
      other ← branch else_block cont otherwise
      effect B (append_block cont)
      effect B (set_insert_point cont)
      pure (else_exit ended.0 ended.1 other.0 other.1)

    -- `If::codegen`
    unfoldable pub if_codegen : If → Exec Ir (Exit Block)
    if_codegen i =
        run_lets i.lets
        >> finally B
            (condition i.condition >>= λ c. elim i.otherwise [
              | none ↦ if_then c i.hence
              | some e ↦ if_then_else c i.hence e
            ])
            (rename_lets i.lets)

    -- `While`: the condition and the statement are the children 1 and 2.
    unfoldable pub while_codegen : Ast → Exec Ir (Exit Block)
    while_codegen a = do
      c ← lift (child a 1)
      body ← lift (child a 2)
      block ← new_block "while"
      defer_block ← new_block "deferBlock"
      cont ← new_block "cont"
      enter ← condition c
      build B (cond_br enter block defer_block)
      effect B (set_insert_point block)
      e ← stmt body
      again ← condition c
      build B (cond_br again block defer_block)
      end ← gets insert_block
      effect B (move_after defer_block end)
      effect B (set_insert_point defer_block)
      build B (br cont)
      effect B (move_after cont defer_block)
      effect B (set_insert_point cont)
      pure (while_exit defer_block e)

    -- The steps of a `for`; what is no `preop` is read as a `postop`.
    unfoldable pub run_steps : List Ast → Exec Ir (Unit {0})
    run_steps [] = pure tt
    run_steps (a ∷ l) =
        (if get_innermost_ast_tag string_ref a == "preop"
          then pre_op_codegen B factor expression a
          else post_op_codegen B factor expression a)
        >> run_steps l

    -- The loop behind the `let` of a `for`.
    unfoldable pub for_loop : Block → Block → Ast → List Ast → Ast → Exec Ir (Exit Block)
    for_loop body cont c steps a = do
      enter ← comparison c
      build B (cond_br enter body cont)
      effect B (set_insert_point body)
      e ← stmt a
      run_steps steps
      again ← comparison c
      build B (cond_br again body cont)
      effect B (set_insert_point cont)
      pure (for_exit e)

    -- `For`: its head and its statement are the children 0 and 1; the steps are the children 4, 6, …
    -- of the head.
    unfoldable pub for_codegen : Ast → Exec Ir (Exit Block)
    for_codegen a = lift (child a 0) >>= λ head. lift (child a 1) >>= λ body_node.
        if get_innermost_ast_tag string_ref head == "forinexpr"
        then raise "forinexpr not implemented at line {}" (number (row head + 1) ∷ [])
        else (do
          body ← new_block "for"
          cont ← new_block "cont"
          x ← lift (child head 1)
          l ← lift (let_of_ast string_ref x)
          c ← lift (child head 2)
          let_codegen B factor expression l
          finally B (for_loop body cont c (evens (drop 4 (children head))) body_node)
              (rename_all l.names))
