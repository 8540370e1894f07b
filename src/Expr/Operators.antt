-- ===== src/Expr/Operators.antt =====
-- `OpsTable` of ast/ast.hpp, and the chains of operators of ast/term.hpp and ast/lexp.hpp.
use whack.Prelude.{
  ℕ, ◌+◌, String, ◌==◌, ◌<>◌, ◌&&◌, ◌||◌, Bool, Option, none, some, List, [], ◌∷◌, if◌then◌else◌,
  not,
}
use whack.Outcome.{Exec, text, number, ◌>>=◌, pure, raise, lift}
use whack.Ast.{Ast, children, contents, row, get_innermost_ast_tag}
use whack.StringRef.{StringRef}
use whack.Metadata
use whack.Types.{is_struct_kind}
use whack.Syntax.{first_match}
use whack.Builder.{
  BinaryOp, build_and, build_or, build_nsw_add, build_f_add, build_nsw_sub, build_f_sub, build_xor,
  build_f_rem, build_s_div, build_f_div, build_nsw_mul, build_f_mul, build_a_shr, build_shl,
  Builder, binary, call, build, loaded,
}

abbrev pub ops_rows : List (String × BinaryOp)
ops_rows =
    ("&", build_and)
    ∷ ("|", build_or)
    ∷ ("+", build_nsw_add)
    ∷ ("+f", build_f_add)
    ∷ ("-", build_nsw_sub)
    ∷ ("-f", build_f_sub)
    ∷ ("^", build_xor)
    ∷ ("%", build_f_rem)
    ∷ ("/", build_s_div)
    ∷ ("/f", build_f_div)
    ∷ ("*", build_nsw_mul)
    ∷ ("*f", build_f_mul)
    ∷ (">>", build_a_shr)
    ∷ ("<<", build_shl)
    ∷ []

-- `OpsTable.find(op)`
unfoldable pub ops_table : String → Option BinaryOp
ops_table op = first_match ops_rows op

abbrev pub is_arithmetic : String → Bool
is_arithmetic op = op == "+" || op == "-" || op == "*" || op == "/"

-- An operand with the operators and operands behind it.
pub record Chain : Type 0 where
  pub row : ℕ
  pub initial : Ast
  pub others : List (String × Ast)

-- The children behind the first: operator and operand in turn.
unfoldable pub others_of : List Ast → Option (List (String × Ast))
others_of [] = some []
others_of (o ∷ []) = none
others_of (o ∷ a ∷ l) = Metadata.◌>>=◌ (others_of l) λ rest. some ((contents o, a) ∷ rest)

-- The constructors of `Term` and `Lexp`: a node with the tag is a chain, another one an operand.
unfoldable pub chain_of_ast : StringRef → String → Ast → Option Chain
chain_of_ast T tag a =
    if get_innermost_ast_tag T a == tag
    then elim (children a) [
      | [] ↦ none
      | x ∷ l ↦
          (Metadata.◌>>=◌ (others_of l)
            λ os. some (record { row = row a; initial = x; others = os }))
    ]
    else some (record { row = row a; initial = a; others = [] })

module _ (B : Builder) where
  open B use {llvm, Val, Ir, type_of, get_function}
  open llvm use {Ty, string_ref, same_ty, is_floating_point_ty, struct_name}

  -- The key for `OpsTable`: the operators of floating point numbers end with an `f`.
  unfoldable pub scalar_op : Ty → String → String
  scalar_op t op = if is_floating_point_ty t && is_arithmetic op then op <> "f" else op

  -- The operator of a struct is a function of the module; the message shows `+` for all of them.
  unfoldable pub apply_struct_op : ℕ → String → Ty → Val → Val → Exec Ir Val
  apply_struct_op row op t lhs rhs s =
      elim (get_function s ("struct::" <> (struct_name t <> ("::operator" <> op)))) [
        | some f ↦ build B (call f (lhs ∷ rhs ∷ [])) s
        | none ↦
            raise "cannot find operator{} for struct `{}` at line {}"
              (text "+" ∷ text (struct_name t) ∷ number (row + 1) ∷ []) s
      ]

  -- An operator of a scalar; `shown` is the operator of the message.
  -- Whether LLVM has the operator on the types is not asked; the laws of the builder say what the
  -- value is only where it has.
  unfoldable pub apply_scalar_op : ℕ → String → String → Val → Val → Exec Ir Val
  apply_scalar_op row shown op lhs rhs = elim (ops_table op) [
    | some f ↦ build B (binary f lhs rhs)
    | none ↦ raise "invalid operator `{}` at line {}" (text shown ∷ number (row + 1) ∷ [])
  ]

  -- `codegen` of the operand of a chain.
  module _ (codegen : Ast → Exec Ir Val) where
    -- The body of the loop of `Term::codegen`.
    unfoldable pub term_step : ℕ → Val → String × Ast → Exec Ir Val
    unfolding is_struct_kind
    term_step row lhs (op, factor) = codegen factor >>= λ value. loaded B value >>= λ rhs.
        let kind = is_struct_kind llvm (type_of lhs) in
        let ops = scalar_op (type_of lhs) op in
        if kind.1
        then apply_struct_op row op kind.0 lhs rhs
        else apply_scalar_op row ops ops lhs rhs

    -- The body of the loop of `Lexp::codegen`.
    unfoldable pub lexp_step : ℕ → Val → String × Ast → Exec Ir Val
    unfolding is_struct_kind
    lexp_step row lhs (op, term) = codegen term >>= λ rhs.
        let kind = is_struct_kind llvm (type_of lhs) in
        if not (same_ty (type_of lhs) (type_of rhs))
        then raise "type mismatch: cannot apply op at line {}" (number (row + 1) ∷ [])
        else if kind.1
        then apply_struct_op row op kind.0 lhs rhs
        else apply_scalar_op row op (scalar_op (type_of lhs) op) lhs rhs

  -- The loop over the rest of a chain.
  unfoldable pub run_chain :
      (Val → String × Ast → Exec Ir Val) → Val → List (String × Ast) → Exec Ir Val
  run_chain step lhs [] = pure lhs
  run_chain step lhs (o ∷ os) = step lhs o >>= λ v. run_chain step v os

  module _ (codegen : Ast → Exec Ir Val) where
    -- `Term::codegen`
    unfoldable pub term_codegen : Chain → Exec Ir Val
    unfolding run_chain is_struct_kind
    term_codegen c = codegen c.initial >>= λ lhs. elim c.others [
      | [] ↦ if (is_struct_kind llvm (type_of lhs)).1 then pure lhs else loaded B lhs
      | o ∷ os ↦ (loaded B lhs >>= λ l. run_chain (term_step codegen c.row) l (o ∷ os))
    ]

    -- A node read as a term, and what it builds.
    unfoldable pub term : Ast → Exec Ir Val
    term a = lift (chain_of_ast string_ref "term" a) >>= term_codegen

    -- `Lexp::codegen`
    unfoldable pub lexp_codegen : Chain → Exec Ir Val
    lexp_codegen c = term c.initial >>= λ lhs. run_chain (lexp_step term c.row) lhs c.others

    -- A node read as a `Lexp`, and what it builds.
    unfoldable pub lexp : Ast → Exec Ir Val
    lexp a = lift (chain_of_ast string_ref "lexp" a) >>= lexp_codegen
