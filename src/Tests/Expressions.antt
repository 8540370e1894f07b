-- ===== src/Tests/Expressions.antt =====
-- The theorems on expressions, applied.
use whack.Prelude.{ℕ, ◌≡◌, ◌≢◌, refl, String, true, false, some, [], ◌∷◌, arith}
use whack.Outcome.{ok, out_of_fuel, Exec, fault}
use whack.Ast.{Ast, node, nil, cons, get_innermost_ast_tag, get_outermost_ast_tag, after_last_bar}
use whack.Types.{is_struct_kind}
use whack.Syntax.Expression.{FactorKind, get_factor, factor_of, word_kind}
use whack.Builder.{load, build_nsw_add, build_nsw_mul}
use whack.Expr.Operators
use whack.Expr.Operators.{
  ops_table, chain_of_ast, others_of, scalar_op, term, term_codegen, lexp_codegen, run_chain,
}
use whack.Expr.Chains.{lexp-IsSum, Reads, IsTerm, IsSum}
use whack.Expr.Factors.{
  factor_codegen, factor_of_kind, integral_codegen, ident_codegen, expr_codegen,
}
use whack.Expr.Conditions.{comparison_codegen}
use whack.Expr.Fuel.Factors.{expr_codegen-ne-out_of_fuel}
use whack.Expr.Typing.{comparison_codegen-GivesBool, lt, GivesTy}
use whack.Tests.Nodes.{int_ty, pointer_to, void_ty}
use whack.Tests.Machine.{machine, empty_mod}
use whack.Tests.Build.{builder, Ir, Val, start, of_ty}

abbrev pub no_class : FactorKind → Ast → Exec Ir Val
no_class k a s = fault

abbrev pub begin : Ir
begin = start void_ty "f" empty_mod

-- A literal, and a sign.
abbrev pub literal : String → Ast
literal digits = node "lexp|term|factor|integral|regex" digits 0 nil

abbrev pub sign : String → Ast
sign op = node "char" op 0 nil

-- The variable `m`, an `int` that is 5, and `2 + 3 * m`.
abbrev slot : Val
slot = record { ty = pointer_to (int_ty 32); word = 5; in_memory = true }

abbrev with_m : Ir
with_m = record begin { variables = ("m", slot) ∷ [] }

abbrev variable : Ast
variable = node "expression|lexp|term|factor|ident|regex" "m" 0 nil

abbrev product : Ast
product = node "term|>" "" 0 (cons (literal "3") (cons (sign "*") (cons variable nil)))

abbrev sum : Ast
sum = node "expression|lexp|>" "" 0 (cons (literal "2") (cons (sign "+") (cons product nil)))

abbrev pub factor : Ast → Exec Ir Val
factor = factor_codegen builder no_class 1

-- What these factors need.
abbrev HasSlot : Ir → Type 0
HasSlot s = builder.lookup s "m" ≡ some slot

two-Reads : Reads builder HasSlot factor (int_ty 32) (literal "2") 2
unfolding factor_codegen factor_of_kind integral_codegen get_factor factor_of word_kind
    get_innermost_ast_tag after_last_bar is_struct_kind
two-Reads s g = (of_ty (int_ty 32) 2, s, refl, refl, of_ty (int_ty 32) 2, s, refl, refl, refl, g)

three-Reads : Reads builder HasSlot factor (int_ty 32) (literal "3") 3
unfolding factor_codegen factor_of_kind integral_codegen get_factor factor_of word_kind
    get_innermost_ast_tag after_last_bar is_struct_kind
three-Reads s g = (of_ty (int_ty 32) 3, s, refl, refl, of_ty (int_ty 32) 3, s, refl, refl, refl, g)

ident_codegen-variable : (s : Ir) → HasSlot s → ident_codegen builder variable s ≡ ok slot s
unfolding ident_codegen
ident_codegen-variable s g = rw (ident_codegen, g)

variable-Reads : Reads builder HasSlot factor (int_ty 32) variable 5
unfolding factor_codegen factor_of_kind get_factor factor_of word_kind get_innermost_ast_tag
    after_last_bar is_struct_kind
variable-Reads s g = (
  slot,
  s,
  ident_codegen-variable s g,
  refl,
  of_ty (int_ty 32) 5,
  (builder.emit (load slot) s).1,
  refl,
  refl,
  refl,
  g,
)

two-IsTerm : IsTerm builder HasSlot factor (int_ty 32) (literal "2") 2
unfolding chain_of_ast others_of get_innermost_ast_tag after_last_bar
two-IsTerm =
    (record { row = 0; initial = literal "2"; others = [] }, 2, [], refl, two-Reads, tt, refl)

product-IsTerm : IsTerm builder HasSlot factor (int_ty 32) product 15
unfolding chain_of_ast others_of get_innermost_ast_tag after_last_bar ops_table scalar_op
product-IsTerm = (
  record { row = 0; initial = literal "3"; others = ("*", variable) ∷ [] },
  3,
  (build_nsw_mul, 5) ∷ [],
  refl,
  three-Reads,
  (refl, refl, variable-Reads, tt),
  refl,
)

sum-IsSum : IsSum builder HasSlot factor (int_ty 32) sum 17
unfolding chain_of_ast others_of get_innermost_ast_tag after_last_bar ops_table scalar_op
sum-IsSum = (
  record { row = 0; initial = literal "2"; others = ("+", product) ∷ [] },
  2,
  (build_nsw_add, 15) ∷ [],
  refl,
  two-IsTerm,
  (refl, refl, product-IsTerm, tt),
  refl,
)

int_scalar : (is_struct_kind machine (int_ty 32)).1 ≡ false
unfolding is_struct_kind
int_scalar = refl

lexp-IsSum_example :
    (v : Val) × (s' : Ir) × (Operators.lexp builder factor sum with_m ≡ ok v s')
    × (v.ty ≡ int_ty 32)
    × (v.word ≡ 17)
    × HasSlot s'
lexp-IsSum_example =
    lexp-IsSum builder HasSlot (λ f v w s g. g) factor (int_ty 32) int_scalar sum 17 sum-IsSum
      with_m refl

expr_codegen-ne-out_of_fuel_example :
    expr_codegen builder (λ k a s. fault) 9 sum with_m ≢ out_of_fuel
expr_codegen-ne-out_of_fuel_example = expr_codegen-ne-out_of_fuel builder 9 sum (omega arith) with_m

two-IsSum : IsSum builder HasSlot factor (int_ty 32) (literal "2") 2
unfolding chain_of_ast others_of get_innermost_ast_tag after_last_bar
two-IsSum =
    (record { row = 0; initial = literal "2"; others = [] }, 2, [], refl, two-IsTerm, tt, refl)

-- The operands `2` and `m`, and what they build.
variable-IsTerm : IsTerm builder HasSlot factor (int_ty 32) variable 5
unfolding chain_of_ast others_of get_innermost_ast_tag after_last_bar
variable-IsTerm =
    (record { row = 0; initial = variable; others = [] }, 5, [], refl, variable-Reads, tt, refl)

variable-IsSum : IsSum builder HasSlot factor (int_ty 32) variable 5
unfolding chain_of_ast others_of get_innermost_ast_tag after_last_bar
variable-IsSum =
    (record { row = 0; initial = variable; others = [] }, 5, [], refl, variable-IsTerm, tt, refl)

an_int :
    (a : Ast) (w : ℕ)
    → IsSum builder HasSlot factor (int_ty 32) a w
    → GivesTy builder HasSlot (Operators.lexp builder factor a) (int_ty 32)
an_int a w h s g =
    let (v, s', e, t, m, g') =
      lexp-IsSum builder HasSlot (λ f x y z k. k) factor (int_ty 32) int_scalar a w h s g in
    (v, s', e, t, g')

lexp_tag : get_outermost_ast_tag machine.string_ref (literal "2") ≡ "lexp"
unfolding get_outermost_ast_tag
lexp_tag = refl

abbrev less : Ast
less = node "comparison|>" "" 0 (cons (literal "2") (cons (sign "<") (cons variable nil)))

comparison_codegen-GivesBool_example :
    (v : Val) × (s' : Ir) × (comparison_codegen builder factor less with_m ≡ ok v s')
    × (v.ty ≡ int_ty 1)
    × HasSlot s'
comparison_codegen-GivesBool_example =
    comparison_codegen-GivesBool builder HasSlot (λ p v w s g. g) factor "comparison|>" "" 0
      (literal "2") (sign "<") variable nil (int_ty 32) lexp_tag refl
      (an_int (literal "2") 2 two-IsSum) lt (an_int variable 5 variable-IsSum) tt with_m refl
