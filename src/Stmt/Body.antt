-- ===== src/Stmt/Body.antt =====
-- ast/body.hpp, ast/deferstmt.hpp and ast/tags.hpp: a list of statements, those that are deferred to
-- its end, and the tags before it. `codegen` and `runScopeExit` of the statements are parameters.
-- Not modelled: `deferrals_` of a body that is generated again keeps what it held before.
pub mod Deferred
use whack.Prelude.{
  ℕ, zero, suc, ◌+◌, ◌-◌, String, ◌==◌, ◌||◌, Bool, true, false, Option, none, some, List, [], ◌∷◌,
  if◌then◌else◌, length, ltb, eqb, contains, drop,
}
use whack.Outcome.{Exec, text, number, ◌>>=◌, ◌>>◌, pure, raise, lift, fault, gets, out_of_fuel}
use whack.Ast.{Ast, child, children, contents, row, get_innermost_ast_tag}
use whack.StringRef.{StringRef}
use whack.Llvm.{Llvm}
use whack.Metadata
use whack.Types.Codegen.{evens}
use whack.Syntax.Statement.{get_stmt, k_defer}
use whack.Builder.{Builder, is_terminator, effect, back}
use whack.Stmt.Branches.{
  Exit, no_exit, then_exit, else_exit, while_exit, for_exit, both_exit, body_exit,
}

-- A list without its last element.
abbrev pub init : List Ast → List Ast
init [] = []
init (a ∷ []) = []
init (a ∷ b ∷ l) = a ∷ init (b ∷ l)

module _ (T : StringRef) where
  -- `Tags::getTag`: is the name one with a scope, and the name.
  unfoldable pub get_tag : Ast → Option (Bool × String)
  get_tag a = elim (children a) [
    | [] ↦ some (get_innermost_ast_tag T a == "scoperes", contents a)
    | x ∷ l ↦
        (Metadata.◌>>=◌ (child a 2)
          λ args. some (get_innermost_ast_tag T x == "scoperes", contents x))
  ]

  unfoldable pub get_tags : List Ast → Option (List (Bool × String))
  get_tags [] = some []
  get_tags (a ∷ l) = Metadata.◌>>=◌ (get_tag a) λ t. Metadata.◌>>=◌ (get_tags l) λ ts. some (t ∷ ts)

  -- The constructor of `Tags`
  unfoldable pub tags_of_ast : Ast → Option (List (Bool × String))
  tags_of_ast a =
      if eqb (length (children a)) 2
      then (Metadata.◌>>=◌ (child a 1) λ t. get_tags (t ∷ []))
      else get_tags (evens (init (drop 2 (children a))))

  -- Does a body begin with tags?
  unfoldable pub has_tags : Ast → Option Bool
  has_tags a = Metadata.◌>>=◌ (child a 0) λ x. some (get_innermost_ast_tag T x == "tags")

  -- The statements of a body: the constructor of `Body`.
  unfoldable pub statements_of_ast : Ast → Option (List Ast)
  statements_of_ast a =
      Metadata.◌>>=◌ (has_tags a)
        λ tagged. some (init (drop (if tagged then 2 else 1) (children a)))

  -- The node that a deferred statement is made from; nothing for another statement.
  unfoldable pub deferred_node : Ast → Option Ast
  deferred_node a = elim (get_stmt T a) [ some (k_defer, d) ↦ some d | _ ↦ none ]

-- `InternalTags`
abbrev pub internal_tags : List String
internal_tags = "noinline" ∷ "inline" ∷ "mustinline" ∷ "noreturn" ∷ []

module _ (B : Builder) where
  open B use {
    llvm, Block, Ir, same_block, insert_block, set_insert_point, set_insert_before_back, successors,
    add_fn_attr,
  }
  open llvm use {string_ref}

  module _ (stmt : Ast → Exec Ir (Exit Block)) where
    -- The loop of `Body::codegen`. A deferred statement stands before those deferred earlier.
    unfoldable pub run_statements :
        List Ast → List (Block × Ast) → Exec Ir (Exit Block × List (Block × Ast))
    run_statements [] deferrals = pure (no_exit, deferrals)
    run_statements (a ∷ l) deferrals = stmt a >>= λ e. gets insert_block >>= λ block.
        run_statements l
          (elim (deferred_node string_ref a) [ some d ↦ (block, d) ∷ deferrals | none ↦ deferrals ])
        >>= λ r. pure (both_exit e r.0, r.1)

    -- `Body::codegen`
    unfoldable pub body_codegen : Ast → Exec Ir (Exit Block)
    unfolding run_statements
    body_codegen a = do
      tagged ← lift (has_tags string_ref a)
      statements ← lift (statements_of_ast string_ref a)
      r ← run_statements statements []
      pure (body_exit r.0 r.1 (if tagged then some a else none))

  -- The loop of `Body::handleTags`.
  unfoldable pub handle_tags : ℕ → List (Bool × String) → Exec Ir (Unit {0})
  handle_tags row [] = pure tt
  handle_tags row ((scoped, name) ∷ l) =
      let rest = handle_tags row l in
      if scoped
      then (λ s. fault)
      else if contains internal_tags name
      then effect B (add_fn_attr name) >> rest
      else raise "tag `{}` not implemented at line {}" (text name ∷ number (row + 1) ∷ [])

  module _ (defer : Ast → Exec Ir (Unit {0})) where
    -- A deferred statement at the end of a block.
    abbrev pub defer_at : Ast → Block → Exec Ir (Unit {0})
    defer_at d block = effect B (set_insert_point block) >> defer d

    -- The loop of `Body::applyDefer` over the successors; `inner` is the recursive call.
    unfoldable pub each_successor :
        (Block → Exec Ir (Unit {0})) → Block → Ast → List Block → Exec Ir (Unit {0})
    each_successor inner current d [] = pure tt
    each_successor inner current d (b ∷ l) =
        let rest = each_successor inner current d l in
        gets (λ s. successors s b) >>= λ next.
        (if same_block b current
          then defer_at d b
          else elim next [ [] ↦ defer_at d b | _ ∷ _ ↦ inner b ])
        >> rest

    -- `Body::applyDefer`, which follows the successors of the block; on a cycle that does not pass
    -- the current block it does not end.
    unfoldable pub apply_defer : ℕ → Block → Ast → Block → Exec Ir (Unit {0})
    unfolding each_successor
    apply_defer zero current d block = λ s. out_of_fuel
    apply_defer (suc fuel) current d block =
        let inner = apply_defer fuel current d in
        if same_block block current
        then defer_at d block
        else gets (λ s. successors s block) >>= each_successor inner current d

    unfoldable pub apply_deferrals : ℕ → Block → List (Block × Ast) → Exec Ir (Unit {0})
    unfolding apply_defer
    apply_deferrals fuel current [] = pure tt
    apply_deferrals fuel current ((block, d) ∷ l) =
        apply_defer fuel current d block >> apply_deferrals fuel current l

  -- `runScopeExit` of a deferred statement is a parameter.
  module _ (defer : Ast → Exec Ir (Unit {0})) where
    -- `runScopeExit` of what `codegen` has left. `InsertPointGuard{builder};` is a temporary, which
    -- restores nothing behind its own line.
    unfoldable pub run_scope_exit : ℕ → Exit Block → Exec Ir (Unit {0})
    unfolding apply_deferrals handle_tags
    run_scope_exit fuel no_exit = pure tt
    run_scope_exit fuel (then_exit b e) = effect B (set_insert_point b) >> run_scope_exit fuel e
    run_scope_exit fuel (else_exit b e c f) =
        (effect B (set_insert_point b) >> run_scope_exit fuel e)
        >> (effect B (set_insert_point c) >> run_scope_exit fuel f)
    run_scope_exit fuel (while_exit b e) = effect B (set_insert_point b) >> run_scope_exit fuel e
    run_scope_exit fuel (for_exit e) = run_scope_exit fuel e
    run_scope_exit fuel (both_exit e f) = run_scope_exit fuel e >> run_scope_exit fuel f
    run_scope_exit fuel (body_exit e deferrals tags) = gets insert_block >>= λ current.
        (run_scope_exit fuel e >> apply_deferrals defer fuel current deferrals) >> (elim tags [
          | none ↦ pure tt
          | some a ↦
              (lift (child a 0) >>= λ x. lift (tags_of_ast string_ref x) >>= handle_tags (row a))
        ])

  -- `Defer::runScopeExit`: the statement, before the jump that ends the block.
  unfoldable pub defer_scope_exit :
      (Ast → Exec Ir (Exit Block)) → (Exit Block → Exec Ir (Unit {0})) → Ast → Exec Ir (Unit {0})
  defer_scope_exit stmt run_exit d = do
    a ← lift (child d 1)
    last ← gets (λ s. back B s (insert_block s))
    i ← lift last
    effect B (λ s. if is_terminator i then set_insert_before_back s else s)
    e ← stmt a
    run_exit e
