-- ===== src/Expr/Typing.antt =====
-- The type of a comparison.
use whack.Prelude.{
  ℕ, ◌≡◌, refl, sym, ◌∙◌, String, ◌||◌, true, false, some, List, [], ◌∷◌, arith, Bool-cases, inl,
  inr,
}
use whack.Outcome.{Exec, ok}
use whack.Ast.{Ast, Asts, node, cons, to_list, contents, get_outermost_ast_tag}
use whack.Builder.{
  Builder, Predicate, is_integer_cmp, compare, icmp_sgt, icmp_slt, icmp_sge, icmp_eq, icmp_ne,
  icmp_sle, fcmp_ogt, fcmp_olt, fcmp_oge, fcmp_oeq, fcmp_one, fcmp_ole,
}
use whack.Syntax.{first_match}
use whack.Expr.Operators
use whack.Expr.Conditions.{
  int_cmp, real_cmp, compare_with, fold_pairs, comparison_within, comparison_codegen,
}

-- The operators of comparisons in the grammar.
pub data IsComparator : String → Type 0 where
  gt : IsComparator ">"
  lt : IsComparator "<"
  ge : IsComparator ">="
  eq : IsComparator "=="
  ne : IsComparator "!="
  le : IsComparator "<="

-- `Keeps` is what the operands need of the state: of the variables that they name, say.
module _ (B : Builder) (Keeps : Builder.Ir B → Type 0) where
  open B use {llvm, Val, Ir, type_of, emit}
  open llvm use {Ty, string_ref, int_ty, is_integer_ty, is_floating_point_ty}

  abbrev pub IsNumber : Ty → Type 0
  IsNumber t = (is_integer_ty t || is_floating_point_ty t) ≡ true

  -- In a state with what the operands need, the operation gives a value of this type, and keeps it.
  abbrev pub GivesTy : Exec Ir Val → Ty → Type 0
  GivesTy p t =
      (s : Ir) → Keeps s → (v : Val) × (s' : Ir) × (p s ≡ ok v s') × (type_of v ≡ t) × Keeps s'

  in_int_cmp :
      (op : String)
      → IsComparator op
      → (p : Predicate) × (first_match int_cmp op ≡ some p) × (is_integer_cmp llvm p ≡ true)
  in_int_cmp _ gt = (icmp_sgt, refl, refl)
  in_int_cmp _ lt = (icmp_slt, refl, refl)
  in_int_cmp _ ge = (icmp_sge, refl, refl)
  in_int_cmp _ eq = (icmp_eq, refl, refl)
  in_int_cmp _ ne = (icmp_ne, refl, refl)
  in_int_cmp _ le = (icmp_sle, refl, refl)

  in_real_cmp :
      (op : String)
      → IsComparator op
      → (p : Predicate) × (first_match real_cmp op ≡ some p) × (is_integer_cmp llvm p ≡ false)
  in_real_cmp _ gt = (fcmp_ogt, refl, refl)
  in_real_cmp _ lt = (fcmp_olt, refl, refl)
  in_real_cmp _ ge = (fcmp_oge, refl, refl)
  in_real_cmp _ eq = (fcmp_oeq, refl, refl)
  in_real_cmp _ ne = (fcmp_one, refl, refl)
  in_real_cmp _ le = (fcmp_ole, refl, refl)

  is_integer : (t : Ty) → is_floating_point_ty t ≡ false → IsNumber t → is_integer_ty t ≡ true
  is_integer t h k = ground (arith, h, k)

  module _
      (kept : (p : Predicate) (v w : Val) (s : Ir)
        → Keeps s
        → Keeps (emit (compare p v w) s).1) where
    -- Two numbers of one type are compared to a `bool`.
    compare_with-GivesBool :
        (op : String) (v w : Val)
        → IsComparator op
        → IsNumber (type_of v)
        → type_of v ≡ type_of w
        → GivesTy (compare_with B op v w) (int_ty 1)
    unfolding compare_with
    compare_with-GivesBool op v w c n same s g =
        elim (Bool-cases (is_floating_point_ty (type_of v))) [
          | inl e ↦
              (let (p, m, k) = in_real_cmp op c in
                (
                  (emit (compare p v w) s).0,
                  (emit (compare p v w) s).1,
                  rw (e, m),
                  B.type_of-compare p v w s same (rw (k, e)),
                  kept p v w s g,
                ))
          | inr e ↦
              (let (p, m, k) = in_int_cmp op c in
                let i = is_integer (type_of v) e n in
                (
                  (emit (compare p v w) s).0,
                  (emit (compare p v w) s).1,
                  rw (e, i, m),
                  B.type_of-compare p v w s same (rw (k, i)),
                  kept p v w s g,
                ))
        ]

    -- Operators of comparisons and operands that give a `bool`, in turn.
    abbrev pub Comparands : (Ast → Exec Ir Val) → List Ast → Type 0
    Comparands codegen [] = Unit
    Comparands codegen (o ∷ []) = ⊥
    Comparands codegen (o ∷ a ∷ l) =
        IsComparator (contents o) × GivesTy (codegen a) (int_ty 1) × Comparands codegen l

    bool-IsNumber : (v : Val) → type_of v ≡ int_ty 1 → IsNumber (type_of v)
    bool-IsNumber v e = rw (e, llvm.is_integer_ty-int_ty 1)

    fold_pairs-GivesBool :
        (codegen : Ast → Exec Ir Val) (v : Val) (l : List Ast)
        → type_of v ≡ int_ty 1
        → Comparands codegen l
        → GivesTy (fold_pairs B (compare_with B) codegen v l) (int_ty 1)
    unfolding fold_pairs
    fold_pairs-GivesBool codegen v [] e h s g = (v, s, refl, e, g)
    fold_pairs-GivesBool codegen v (o ∷ []) e h s g = elim h [ ]
    fold_pairs-GivesBool codegen v (o ∷ a ∷ l) e (c, k, r) s g =
        let (w, s', e1, tw, g1) = k s g in
        let (x, s2, e2, t, g2) =
          compare_with-GivesBool (contents o) v w c (bool-IsNumber v e) (e ∙ sym tw) s' g1 in
        let (y, s3, e3, u, g3) = fold_pairs-GivesBool codegen x l t r s2 g2 in
        (y, s3, rw (e1, e2, e3), u, g3)

    -- Given what the operands need of the state, which a comparison of values keeps: two operands of
    -- one type of numbers, by an operator of the grammar, and behind them any number of operators and
    -- operands of type `bool`, are compiled without an error, and the value is a `bool`. So `a < b`
    -- is compared with the next operand, from the left.
    pub comparison_codegen-GivesBool :
        (factor : Ast → Exec Ir Val) (t c : String) (r : ℕ) (x o e : Ast) (rest : Asts) (n : Ty)
        → get_outermost_ast_tag string_ref x ≡ "lexp"
        → IsNumber n
        → GivesTy (Operators.lexp B factor x) n
        → IsComparator (contents o)
        → GivesTy (Operators.lexp B factor e) n
        → Comparands (Operators.lexp B factor) (to_list rest)
        → GivesTy
            (comparison_codegen B factor (node t c r (cons x (cons o (cons e rest)))))
            (int_ty 1)
    unfolding comparison_codegen comparison_within fold_pairs
    comparison_codegen-GivesBool factor t c r x o e rest n tag number first k second others s g =
        let (v, s', e1, tv, g1) = first s g in
        let (w, s2, e2, tw, g2) = second s' g1 in
        let (y, s3, e3, u, g3) =
          compare_with-GivesBool (contents o) v w k (rw tv number) (tv ∙ sym tw) s2 g2 in
        let (z, s4, e4, q, g4) =
          fold_pairs-GivesBool (Operators.lexp B factor) y (to_list rest) u others s3 g3 in
        (z, s4, rw (tag, e1, e2, e3, e4), q, g4)
