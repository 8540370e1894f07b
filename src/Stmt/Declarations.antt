-- ===== src/Stmt/Declarations.antt =====
-- The statements `T a {…}, b;` of ast/declassign.hpp and `delete e;` of ast/deletestmt.hpp, and those
-- of ast/alias.hpp, ast/structure.hpp and ast/enumeration.hpp.
use whack.Prelude.{ℕ, ◌+◌, String, ◌==◌, Option, none, some, List, [], ◌∷◌, if◌then◌else◌, not}
use whack.Outcome.{Exec, number, ◌>>=◌, ◌>>◌, pure, raise, lift, gets}
use whack.Ast.{Ast, child, children, contents, row, get_outermost_ast_tag, get_innermost_ast_tag}
use whack.StringRef.{StringRef}
use whack.Metadata.{drop_first}
use whack.Types.Codegen.{get_type, type_codegen}
use whack.Decl.Alias.{alias_of_ast, alias_codegen}
use whack.Decl.Enumeration.{enumeration_of_ast, enumeration_codegen}
use whack.Decl.Structure.{decl_assign_of_ast, structure_of_ast, structure_codegen}
use whack.Builder.{
  Builder, store, alloca, free, is_terminator, build, effect, back, loaded, on_module,
}
use whack.Expr.Initializers.{initializer_codegen}
use whack.Stmt.Values.{expr_nodes, is_free}

-- The loop of the constructor of `DeclAssign` over all children but the first and the last, for the
-- initializers; `var` is the variable before.
unfoldable pub initializers_of : StringRef → String → List Ast → List (String × Ast)
initializers_of T var [] = []
initializers_of T var (a ∷ []) = []
initializers_of T var (a ∷ b ∷ l) =
    let same = initializers_of T var (b ∷ l) in
    let other = initializers_of T (contents a) (b ∷ l) in
    if get_outermost_ast_tag T a == "initializer"
    then (var, a) ∷ same
    else if get_innermost_ast_tag T a == "ident"
    then other
    else same

module _ (B : Builder) where
  open B use {llvm, Ir}
  open llvm use {string_ref}

  -- `AliasStmt`, `StructureStmt` and `EnumerationStmt`; what they declare stays behind the scope.
  unfoldable pub alias_stmt_codegen : ℕ → Ast → Exec Ir (Unit {0})
  alias_stmt_codegen fuel a = lift (alias_of_ast a) >>= λ d. on_module B (alias_codegen llvm fuel d)

  unfoldable pub structure_stmt_codegen : ℕ → Ast → Exec Ir (Unit {0})
  structure_stmt_codegen fuel a =
      lift (structure_of_ast string_ref a) >>= λ d. on_module B (structure_codegen llvm fuel d)

  unfoldable pub enumeration_stmt_codegen : ℕ → Ast → Exec Ir (Unit {0})
  enumeration_stmt_codegen fuel a =
      lift (enumeration_of_ast a) >>= λ d. on_module B (enumeration_codegen llvm fuel d)

module _ (B : Builder) (fuel : ℕ)
    (expression comprehension : Ast → Exec (Builder.Ir B) (Builder.Val B)) where
  open B use {llvm, Val, Block, Ir, type_of, insert_block, free_before_back}
  open llvm use {Ty, string_ref, is_pointer_ty}

  -- An initializer of the variable, stored to it; a variable that holds the value is read.
  unfoldable pub store_initializer : ℕ → Ty → Val → Ast → Exec Ir (Unit {0})
  store_initializer line t ptr a =
      initializer_codegen B line t expression comprehension a >>= loaded B >>= λ v.
      build B (store v ptr) >> pure tt

  -- The loop over the initializers, of those of the variable.
  unfoldable pub initialize : ℕ → Ty → String → Val → List (String × Ast) → Exec Ir (Unit {0})
  initialize line t var ptr [] = pure tt
  initialize line t var ptr ((name, a) ∷ l) =
      (if var == name then store_initializer line t ptr a else pure tt)
      >> initialize line t var ptr l

  -- The loop over the variables.
  unfoldable pub declare_each : ℕ → Ty → List (String × Ast) → List String → Exec Ir (Unit {0})
  declare_each line t initializers [] = pure tt
  declare_each line t initializers (var ∷ vars) =
      is_free B var line
      >> (build B (alloca t var) >>= λ ptr. initialize line t var ptr initializers)
      >> declare_each line t initializers vars

  -- The variable of the first child, and the initializers.
  unfoldable pub initializers_of_ast : Ast → Option (List (String × Ast))
  initializers_of_ast a = elim (child a 0) [
    | none ↦ none
    | some c ↦ elim (child c 1) [
      | none ↦ none
      | some var ↦ some (initializers_of string_ref (contents var) (drop_first (children a)))
    ]
  ]

  -- `DeclAssign::codegen`
  unfoldable pub decl_assign_codegen : Ast → Exec Ir (Unit {0})
  decl_assign_codegen a = do
    d ← lift (decl_assign_of_ast string_ref a)
    l ← lift (initializers_of_ast a)
    t ← on_module B (type_codegen llvm (get_type llvm fuel) d.type)
    declare_each (row a) t l d.variables

  -- Memory is freed at the end of the block, before its terminator if it has one.
  unfoldable pub free_in : Block → Val → Exec Ir (Unit {0})
  free_in block v s = elim (back B s block) [
    | none ↦ (build B (free v) >> pure tt) s
    | some i ↦
        if is_terminator i
        then effect B (free_before_back v block) s
        else (build B (free v) >> pure tt) s
  ]

  -- The loop of `Delete::codegen`.
  unfoldable pub delete_each : ℕ → Block → List Ast → Exec Ir (Unit {0})
  delete_each line block [] = pure tt
  delete_each line block (e ∷ es) = expression e >>= λ v.
      if not (is_pointer_ty (type_of v))
      then raise "invalid type for operator delete at line {}" (number (line + 1) ∷ [])
      else free_in block v >> delete_each line block es

  -- `Delete::codegen`
  unfoldable pub delete_codegen : Ast → Exec Ir (Unit {0})
  delete_codegen a = lift (child a 1) >>= λ l.
      gets insert_block >>= λ block. delete_each (row a) block (expr_nodes string_ref l)
