-- ===== src/Tests/Dispatch.antt =====
-- The theorems on the dispatch of nodes, applied.
use whack.Prelude.{◌≡◌, refl, inl, none}
use whack.Ast.{Ast, node, nil, cons}
use whack.Syntax.Expression.{get_factor}
use whack.Syntax.Rules.{fnlen, get_factor-Forgotten}
use whack.Tests.Texts.{string_ref}

abbrev while_node : Ast
while_node = node "stmt|whilestmt|>" "" 0 nil

abbrev stmt_node : Ast
stmt_node = node "body|stmt|>" "" 0 (cons while_node nil)

abbrev len_node : Ast
len_node = node "fnlen|>" "" 0 nil

get_factor-Forgotten_example : get_factor string_ref len_node ≡ none
get_factor-Forgotten_example =
    get_factor-Forgotten string_ref len_node "fnlen" fnlen ("|>", inl refl, inl refl)
