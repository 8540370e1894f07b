-- ===== src/Expr/Calls/Chained.antt =====
-- The children of a call, `f -> g (args) (args)`, as the grammar lays them out, and what the code
-- reads of them.
use whack.Prelude.{ℕ, ◌≡◌, ◌==◌, true, false, Option, none, some, List, [], ◌∷◌, ◌++◌, map}
use whack.Ast.{Ast, contents, row, get_outermost_ast_tag}
use whack.StringRef.{StringRef}
use whack.Expr.Calls.{callables, argument_groups}

-- A pair of parentheses, and a list of expressions between them.
pub data Group : Type 0 where
  empty : (open_ close : Ast) → Group
  filled : (open_ args close : Ast) → Group

-- A function behind the first, and the sign before it.
pub record Callable : Type 0 where
  pub arrow : Ast
  pub func : Ast

-- The children behind the `(` of a group, with the children `rest` behind it.
abbrev pub behind_open : Group → List Ast → List Ast
behind_open (empty o c) rest = c ∷ rest
behind_open (filled o e c) rest = e ∷ c ∷ rest

abbrev pub opening : Group → Ast
opening (empty o c) = o
opening (filled o e c) = o

abbrev pub groups : List Group → List Ast
groups [] = []
groups (g ∷ gs) = opening g ∷ behind_open g (groups gs)

abbrev pub chained : List Callable → List Ast
chained [] = []
chained (c ∷ cs) = c.arrow ∷ c.func ∷ chained cs

abbrev pub func_of : Callable → Ast
func_of c = c.func

-- The row of the first child behind the `(`, and the list of expressions.
abbrev pub read_group : Group → ℕ × Option Ast
read_group (empty o c) = (row c, none)
read_group (filled o e c) = (row e, some e)

abbrev pub IsFunction : Ast → Type 0
IsFunction f = ((contents f == "->") ≡ false) × ((contents f == "(") ≡ false)

abbrev pub AreCallables : List Callable → Type 0
AreCallables [] = Unit {0}
AreCallables (c ∷ cs) = (contents c.arrow ≡ "->") × IsFunction c.func × AreCallables cs

module _ (T : StringRef) where
  abbrev pub IsGroup : Group → Type 0
  IsGroup (empty o c) = (contents o ≡ "(") × ((get_outermost_ast_tag T c == "exprlist") ≡ false)
  IsGroup (filled o e c) = (contents o ≡ "(") × ((get_outermost_ast_tag T e == "exprlist") ≡ true)

  abbrev pub AreGroups : List Group → Type 0
  AreGroups [] = Unit {0}
  AreGroups (g ∷ gs) = IsGroup g × AreGroups gs

  argument_groups-behind_open :
      (g : Group) (gs : List Group)
      → IsGroup g
      → AreGroups gs
      → argument_groups T (behind_open g (groups gs)) ≡ map read_group (g ∷ gs)
  unfolding argument_groups
  argument_groups-behind_open (empty o c) [] (p, q) hs = rw q
  argument_groups-behind_open (filled o e c) [] (p, q) hs = rw q
  argument_groups-behind_open (empty o c) (empty o' c' ∷ gs) (p, q) (h, hs) =
      rw (argument_groups, q, argument_groups-behind_open (empty o' c') gs h hs)
  argument_groups-behind_open (empty o c) (filled o' e' c' ∷ gs) (p, q) (h, hs) =
      rw (argument_groups, q, argument_groups-behind_open (filled o' e' c') gs h hs)
  argument_groups-behind_open (filled o e c) (empty o' c' ∷ gs) (p, q) (h, hs) =
      rw (argument_groups, q, argument_groups-behind_open (empty o' c') gs h hs)
  argument_groups-behind_open (filled o e c) (filled o' e' c' ∷ gs) (p, q) (h, hs) =
      rw (argument_groups, q, argument_groups-behind_open (filled o' e' c') gs h hs)

  callables-chained :
      (cs : List Callable) (g : Group) (gs : List Group)
      → AreCallables cs
      → IsGroup g
      → callables (chained cs ++ groups (g ∷ gs)) ≡ (map func_of cs, behind_open g (groups gs))
  unfolding callables
  callables-chained [] (empty o c) gs hs (p, q) = rw p
  callables-chained [] (filled o e c) gs hs (p, q) = rw p
  callables-chained (c ∷ cs) g gs (a, (p, q), hs) h = rw (a, p, q, callables-chained cs g gs hs h)

  -- Of the children of a call, which are a function, signs `->` with a function behind each, and one
  -- pair of parentheses or more, the functions are read in order, and of each pair the list of
  -- expressions in it or none, with the row where what is behind its `(` begins.
  pub argument_groups-callables :
      (f : Ast) (cs : List Callable) (g : Group) (gs : List Group)
      → IsFunction f
      → AreCallables cs
      → AreGroups (g ∷ gs)
      → ((callables (f ∷ chained cs ++ groups (g ∷ gs))).0 ≡ f ∷ map func_of cs)
        × (argument_groups T (callables (f ∷ chained cs ++ groups (g ∷ gs))).1
            ≡ map read_group (g ∷ gs))
  unfolding callables
  argument_groups-callables f cs g gs (a, b) hs (h, k) = (
    rw (a, b, callables-chained cs g gs hs h),
    rw (a, b, callables-chained cs g gs hs h, argument_groups-behind_open g gs h k),
  )
