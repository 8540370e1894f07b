-- ===== src/Syntax/Rules.antt =====
-- The nodes that the parser makes for a rule of the grammar, and the class that reads them.
use Prim.Native.String.{len}
use whack.Prelude.{◌<◌, ◌-◌, ◌^◌, String, ◌<>◌, ◌≡◌, refl, ap, ◌⊎◌, false, none, some, Option}
use whack.Ast.{Ast, tag, contents, get_innermost_ast_tag}
use whack.Ast.Tags.{IsEnding, get_innermost_ast_tag-rule}
use whack.StringRef.{StringRef, has_bar}
use whack.Syntax.Statement.{
  StmtKind, k_body, k_yield, k_return, k_co_return, k_delete, k_unreachable, k_break, k_continue,
  k_defer, k_if, k_while, k_for, k_select, k_alias, k_structure, k_enumeration, k_match,
  k_type_switch, k_decl_assign, k_let_expr, k_assign, k_op_eq, k_comment, k_func_call, k_send,
  k_receive, k_out_stream, k_in_stream, k_pre_op, k_post_op,
}
use whack.Syntax.Expression.{get_factor, factor_of, word_kind}

-- The tag that the parser writes for a rule, alone or behind the rules that led to it.
abbrev pub HasRule : Ast → String → Type 0
HasRule a rule =
    (e : String) × IsEnding e
    × ((tag a ≡ rule <> e)
        ⊎ ((p : String) × (0 < len p) × (len p < 2 ^ 64 - 1) × (tag a ≡ (p <> ("|" <> rule)) <> e)))

-- The rule of the grammar for a kind of statement.
abbrev pub rule_of : StmtKind → String
rule_of k_body = "body"
rule_of k_yield = "yieldstmt"
rule_of k_return = "returnstmt"
rule_of k_co_return = "coreturnstmt"
rule_of k_delete = "deletestmt"
rule_of k_unreachable = "unreachablestmt"
rule_of k_break = "breakstmt"
rule_of k_continue = "continuestmt"
rule_of k_defer = "deferstmt"
rule_of k_if = "ifstmt"
rule_of k_while = "whilestmt"
rule_of k_for = "forstmt"
rule_of k_select = "select"
rule_of k_alias = "alias"
rule_of k_structure = "structure"
rule_of k_enumeration = "enumeration"
rule_of k_match = "match"
rule_of k_type_switch = "typeswitch"
rule_of k_decl_assign = "declassign"
rule_of k_let_expr = "letexpr"
rule_of k_assign = "assign"
rule_of k_op_eq = "opeq"
rule_of k_comment = "comment"
rule_of k_func_call = "funccall"
rule_of k_send = "send"
rule_of k_receive = "receive"
rule_of k_out_stream = "outstream"
rule_of k_in_stream = "instream"
rule_of k_pre_op = "preop"
rule_of k_post_op = "postop"

-- The class that reads a node for the rule: none for `unreachablestmt`.
abbrev pub class_of : StmtKind → Ast → Option (StmtKind × Ast)
class_of k_unreachable a = none
class_of k a = some (k, a)

module _ (T : StringRef) where
  innermost-HasRule :
      (a : Ast) (rule : String)
      → has_bar rule ≡ false
      → HasRule a rule
      → get_innermost_ast_tag T a ≡ rule
  innermost-HasRule a rule plain (e, ending, shape) =
      get_innermost_ast_tag-rule T a rule e ending plain shape

  -- The rules of factors that `getFactor` has no line for.
  pub data Forgotten : String → Type 0 where
    fnsizeof : Forgotten "fnsizeof"
    fnalignof : Forgotten "fnalignof"
    fnappend : Forgotten "fnappend"
    fnlen : Forgotten "fnlen"
    parenthesised : Forgotten "factor"

  -- A node for `sizeof`, `alignof`, `append` or `len`, or for an expression in parentheses, whose rule
  -- is `factor`, is read as a factor by no class.
  pub get_factor-Forgotten :
      (a : Ast) (rule : String) → Forgotten rule → HasRule a rule → get_factor T a ≡ none
  unfolding get_factor factor_of word_kind
  get_factor-Forgotten a _ fnsizeof h =
      ap (λ t. factor_of t (contents a)) (innermost-HasRule a "fnsizeof" refl h)
  get_factor-Forgotten a _ fnalignof h =
      ap (λ t. factor_of t (contents a)) (innermost-HasRule a "fnalignof" refl h)
  get_factor-Forgotten a _ fnappend h =
      ap (λ t. factor_of t (contents a)) (innermost-HasRule a "fnappend" refl h)
  get_factor-Forgotten a _ fnlen h =
      ap (λ t. factor_of t (contents a)) (innermost-HasRule a "fnlen" refl h)
  get_factor-Forgotten a _ parenthesised h =
      ap (λ t. factor_of t (contents a)) (innermost-HasRule a "factor" refl h)
