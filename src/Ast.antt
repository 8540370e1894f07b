-- ===== src/Ast.antt =====
-- The syntax tree that the parser hands to the compiler (`mpc_ast_t` of mpc/mpc.h), and the readers
-- of ast/ast.hpp: tags, lists of identifiers, reserved words.
pub mod Tags
use Prim.Native.Nat.{max}
use whack.Prelude.{
  ℕ, zero, suc, ◌+◌, ◌%◌, ◌^◌, String, ◌==◌, ◌<>◌, Bool, Option, none, some, List, [], ◌∷◌,
  if◌then◌else◌, eqb, get_elem?, contains,
}
use whack.StringRef.{StringRef}

-- `node tag contents row children`; of `state` only the row is read. The lists of children stand in
-- the same block.
mutual
  pub data Ast : Type 0 where
    node : String → String → ℕ → Asts → Ast

  pub data Asts : Type 0 where
    nil : Asts
    cons : Ast → Asts → Asts

abbrev pub to_list : Asts → List Ast
to_list nil = []
to_list (cons a as_) = a ∷ to_list as_

abbrev pub of_list : List Ast → Asts
of_list [] = nil
of_list (a ∷ l) = cons a (of_list l)

abbrev pub tag : Ast → String
tag (node t c r cs) = t

abbrev pub contents : Ast → String
contents (node t c r cs) = c

abbrev pub row : Ast → ℕ
row (node t c r cs) = r

abbrev pub children : Ast → List Ast
children (node t c r cs) = to_list cs

-- `ast->children[i]`; `none` is a read past the end.
abbrev pub child : Ast → ℕ → Option Ast
child a i = get_elem? (children a) i

-- How deep a tree is.
abbrev mutual
  pub height : Ast → ℕ
  height (node t c r cs) = suc (height_list cs)

  pub height_list : Asts → ℕ
  height_list nil = 0
  height_list (cons a as_) = max (height a) (height_list as_)

-- reserved.def
abbrev pub reserved : List String
reserved =
    "true" ∷ "false" ∷ "using" ∷ "match" ∷ "default" ∷ "type" ∷ "await" ∷ "async" ∷ "func" ∷ "new"
    ∷ "sizeof" ∷ "alignof" ∷ "append" ∷ "len" ∷ "cast" ∷ "let" ∷ "mut" ∷ "where" ∷ "select" ∷ "if"
    ∷ "else" ∷ "for" ∷ "in" ∷ "while" ∷ "return" ∷ "co_return" ∷ "delete" ∷ "yield" ∷ "break"
    ∷ "continue" ∷ "unreachable" ∷ "defer" ∷ "chan" ∷ "atomic" ∷ "class" ∷ "enum" ∷ "struct"
    ∷ "operator" ∷ "interface" ∷ "extern" ∷ "export" ∷ "use" ∷ "as" ∷ "module" ∷ "OPTIONS" ∷ "bool"
    ∷ "int" ∷ "uint" ∷ "int64" ∷ "short" ∷ "uint64" ∷ "char" ∷ "int128" ∷ "void" ∷ "half" ∷ "float"
    ∷ "double" ∷ "auto" ∷ "nullptr" ∷ "this" ∷ "main" ∷ "__ctor" ∷ "__dtor" ∷ "noinline" ∷ "inline"
    ∷ "mustinline" ∷ "noreturn" ∷ []

unfoldable pub is_reserved : String → Bool
is_reserved name = contains reserved name

-- The `contents` of the children 0, 2, 4, …
abbrev pub even_contents : List Ast → List String
even_contents [] = []
even_contents (a ∷ []) = contents a ∷ []
even_contents (a ∷ _ ∷ l) = contents a ∷ even_contents l

-- `getIdentList`: a node with no children is a list of one identifier.
unfoldable pub get_ident_list : Ast → List String
get_ident_list (node t c r nil) = c ∷ []
get_ident_list (node t c r (cons a as_)) = even_contents (to_list (cons a as_))

module _ (T : StringRef) where
  open T use {take_until_bar, consume_back, find_last_bar, drop_front}

  unfoldable pub get_outermost_ast_tag : Ast → String
  get_outermost_ast_tag a = take_until_bar (tag a)

  -- The part behind the last bar; `npos + 1` wraps round to 0, and a bar at 0 is not seen.
  unfoldable pub after_last_bar : String → String
  after_last_bar t =
      let i = find_last_bar t in if eqb i 0 then t else drop_front ((i + 1) % 2 ^ 64) t

  unfoldable pub get_innermost_ast_tag : Ast → String
  unfolding after_last_bar
  get_innermost_ast_tag a =
      after_last_bar (consume_back (consume_back (consume_back (tag a) ">") "regex") "|")
