-- ===== src/Syntax/Statement.antt =====
-- `Stmt::Kind` of ast/ast.hpp, and `getStmt` of ast/stmt.hpp.
use whack.Prelude.{String, ◌==◌, Option, some, List, [], ◌∷◌, if◌then◌else◌}
use whack.Ast.{Ast, child, get_innermost_ast_tag}
use whack.StringRef.{StringRef}
use whack.Metadata.{◌>>=◌}
use whack.Syntax.{first_match}

pub data StmtKind : Type 0 where
  k_body k_yield k_return k_co_return k_delete k_unreachable k_break k_continue k_defer k_if k_while
        k_for k_select k_alias k_structure k_enumeration k_match k_type_switch k_decl_assign
        k_let_expr k_assign k_op_eq k_comment k_func_call k_send k_receive k_out_stream k_in_stream
        k_pre_op k_post_op :
      StmtKind

abbrev pub stmt_rules : List (String × StmtKind)
stmt_rules =
    ("body", k_body)
    ∷ ("returnstmt", k_return)
    ∷ ("declassign", k_decl_assign)
    ∷ ("letexpr", k_let_expr)
    ∷ ("whilestmt", k_while)
    ∷ ("ifstmt", k_if)
    ∷ ("forstmt", k_for)
    ∷ ("assign", k_assign)
    ∷ ("funccall", k_func_call)
    ∷ ("preop", k_pre_op)
    ∷ ("postop", k_post_op)
    ∷ ("match", k_match)
    ∷ ("typeswitch", k_type_switch)
    ∷ ("opeq", k_op_eq)
    ∷ ("deletestmt", k_delete)
    ∷ ("yieldstmt", k_yield)
    ∷ ("coreturnstmt", k_co_return)
    ∷ ("breakstmt", k_break)
    ∷ ("continuestmt", k_continue)
    ∷ ("select", k_select)
    ∷ ("alias", k_alias)
    ∷ ("structure", k_structure)
    ∷ ("enumeration", k_enumeration)
    ∷ ("send", k_send)
    ∷ ("receive", k_receive)
    ∷ ("instream", k_in_stream)
    ∷ ("outstream", k_out_stream)
    ∷ ("deferstmt", k_defer)
    ∷ ("comment", k_comment)
    ∷ ("unreachable", k_unreachable)
    ∷ []

module _ (T : StringRef) where
  -- The kind with the node that its class reads; `none` is `llvm_unreachable`.
  unfoldable pub get_stmt_of : Ast → Option (StmtKind × Ast)
  get_stmt_of ref = first_match stmt_rules (get_innermost_ast_tag T ref) >>= λ k. some (k, ref)

  unfoldable pub get_stmt : Ast → Option (StmtKind × Ast)
  get_stmt a =
      if get_innermost_ast_tag T a == "stmt" then child a 0 >>= get_stmt_of else get_stmt_of a
