-- ===== src/Stmt/Values/Lets.antt =====
-- Which nodes for `let` can be read.
use whack.Prelude.{ℕ, ◌≡◌, String, ◌==◌, false, none, some}
use whack.Ast.{Ast, Asts, node, cons, nil, contents, get_ident_list}
use whack.StringRef.{StringRef}
use whack.Stmt.Values.{LetExpr, let_parts, let_of_ast, expr_nodes}

-- The children of a node for `let`, as the grammar gives them: `mut` or nothing, the names, `=` and
-- the values, then `;`, or `where`, a comparison and `;`.
abbrev pub plain_end : Ast → Asts
plain_end semicolon = cons semicolon nil

abbrev pub where_end : Ast → Ast → Ast → Asts
where_end keyword comparison semicolon = cons keyword (cons comparison (cons semicolon nil))

abbrev pub let_node : String → String → ℕ → Ast → Ast → Ast → Ast → Asts → Ast
let_node t c r keyword names equals values end =
    node t c r (cons keyword (cons names (cons equals (cons values end))))

module _ (T : StringRef) where
  abbrev pub made : ℕ → Ast → Ast → LetExpr
  made r names values = record {
    row = r;
    names = get_ident_list names;
    list = values;
    values = expr_nodes T values;
  }

  -- A `let` without `mut` is read if it has a `where`; without one, a child behind its last is read.
  pub let_of_ast-where :
      (t c : String) (r : ℕ) (k names e values s w comparison : Ast)
      → (contents names == "mut") ≡ false
      → (let_of_ast T (let_node t c r k names e values (where_end w comparison s))
          ≡ some (made r names values))
        × (let_of_ast T (let_node t c r k names e values (plain_end s)) ≡ none)
  unfolding let_of_ast let_parts
  let_of_ast-where t c r k names e values s w comparison h = (rw h, rw h)
