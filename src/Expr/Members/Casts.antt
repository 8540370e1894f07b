-- ===== src/Expr/Members/Casts.antt =====
-- The type of a cast from a number.
use whack.Prelude.{
  ℕ, ◌≡◌, refl, ap, true, false, ◌&&◌, arith, Bool-cases, inl, inr, Option, none, some,
}
use whack.Outcome.{Exec, ok}
use whack.Ast.{Ast}
use whack.Builder.{
  Builder, Conversion, convert, si_to_fp, z_ext_or_trunc, fp_to_si, fp_trunc, fp_ext,
}
use whack.Expr.Members.{cast_integer, cast_floating, cast_value}

module _ (B : Builder) where
  open B use {llvm, Val, Ir, type_of, emit}
  open llvm use {Ty, is_integer_ty, is_floating_point_ty, float_ty, double_ty, same_ty, same_ty_iff}

  -- The casts between numbers: what has another type than the one asked for is converted, by the
  -- conversion that LLVM defines between the types.
  pub data Converts : Ty → Ty → Option Conversion → Type 0 where
    to_floating :
        (t u : Ty)
        → is_integer_ty t ≡ true
        → is_floating_point_ty u ≡ true
        → Converts t u (some si_to_fp)
    to_width :
        (t u : Ty)
        → is_integer_ty t ≡ true
        → is_floating_point_ty u ≡ false
        → is_integer_ty u ≡ true
        → Converts t u (some z_ext_or_trunc)
    to_integer :
        (t u : Ty)
        → is_integer_ty t ≡ false
        → is_floating_point_ty t ≡ true
        → is_integer_ty u ≡ true
        → Converts t u (some fp_to_si)
    narrower : (t u : Ty) → t ≡ double_ty → u ≡ float_ty → Converts t u (some fp_trunc)
    wider : (t u : Ty) → t ≡ float_ty → u ≡ double_ty → Converts t u (some fp_ext)
    same :
        (t u : Ty)
        → is_integer_ty t ≡ false
        → is_floating_point_ty t ≡ true
        → is_integer_ty u ≡ false
        → t ≡ u
        → Converts t u none

  same_ty_refl : (t : Ty) → same_ty t t ≡ true
  same_ty_refl t = (same_ty_iff t t).1 refl

  not_both : (t : Ty) → (same_ty t float_ty && same_ty t double_ty) ≡ false
  not_both t = elim (Bool-cases (same_ty t float_ty)) [
    | inr e ↦ rw e
    | inl e ↦ rw ((same_ty_iff t float_ty).0 e, llvm.same_ty-float_ty, same_ty_refl float_ty)
  ]

  -- A number that has the type is left as it is.
  cast_floating-same :
      (bind_first : Val → Val → Ty → Exec Ir Val) (expression : Ast → Exec Ir Val) (v : Val)
      (to : Ty) (s : Ir)
      → is_integer_ty to ≡ false
      → type_of v ≡ to
      → cast_floating B bind_first expression v to s ≡ ok v s
  unfolding cast_floating
  cast_floating-same bind_first expression v to s j e =
      let n = not_both to in
      let p : same_ty (type_of v) float_ty ≡ same_ty to float_ty = ap (λ y. same_ty y float_ty) e in
      let q : same_ty (type_of v) double_ty ≡ same_ty to double_ty =
        ap (λ y. same_ty y double_ty) e in
      ground (arith, j, n, p, q)

  module _ (bind_first : Val → Val → Ty → Exec Ir Val) (expression : Ast → Exec Ir Val) where
    -- The operation is this conversion, or leaves the value, and ends with a value of the type.
    abbrev pub Gives : Exec Ir Val → Ir → Val → Option Conversion → Ty → Type 0
    Gives p s v none t = (p s ≡ ok v s) × (type_of v ≡ t)
    Gives p s v (some c) t =
        (p s ≡ ok (emit (convert c v t) s).0 (emit (convert c v t) s).1)
        × (type_of (emit (convert c v t) s).0 ≡ t)

    -- A cast of an integer to a floating point number or an integer, of a floating point number to an
    -- integer, or between `float` and `double` is the one conversion that LLVM defines between these
    -- types, and its value has the type that is asked for; a floating point number of that type is
    -- left as it is.
    pub cast_value-Converts :
        (line : ℕ) (v : Val) (to : Ty) (c : Option Conversion) (s : Ir)
        → Converts (type_of v) to c
        → Gives (cast_value B bind_first expression line v to) s v c to
    unfolding cast_value cast_integer cast_floating
    cast_value-Converts line v to _ s (to_floating _ _ i f) =
        (rw (cast_value, cast_integer, i, f), B.type_of-convert si_to_fp v to s (rw (i, f)))
    cast_value-Converts line v to _ s (to_width _ _ i f j) = (
      rw (cast_value, cast_integer, i, f, j),
      B.type_of-convert z_ext_or_trunc v to s (rw (i, j)),
    )
    cast_value-Converts line v to _ s (to_integer _ _ i f j) =
        (rw (cast_value, cast_floating, i, f, j), B.type_of-convert fp_to_si v to s (rw (f, j)))
    cast_value-Converts line v to _ s (narrower _ _ d f) =
        let i : is_integer_ty (type_of v) ≡ false = rw (d, llvm.is_integer_ty-double_ty) in
        let g : is_floating_point_ty (type_of v) ≡ true =
          rw (d, llvm.is_floating_point_ty-double_ty) in
        let j : is_integer_ty to ≡ false = rw (f, llvm.is_integer_ty-float_ty) in
        let p : same_ty (type_of v) double_ty ≡ true = (same_ty_iff (type_of v) double_ty).1 d in
        let q : same_ty to float_ty ≡ true = (same_ty_iff to float_ty).1 f in
        (
          rw (cast_value, cast_floating, i, g, j, p, q),
          B.type_of-convert fp_trunc v to s (rw (p, q)),
        )
    cast_value-Converts line v to _ s (wider _ _ f d) =
        let i : is_integer_ty (type_of v) ≡ false = rw (f, llvm.is_integer_ty-float_ty) in
        let g : is_floating_point_ty (type_of v) ≡ true =
          rw (f, llvm.is_floating_point_ty-float_ty) in
        let j : is_integer_ty to ≡ false = rw (d, llvm.is_integer_ty-double_ty) in
        let p : same_ty (type_of v) float_ty ≡ true = (same_ty_iff (type_of v) float_ty).1 f in
        let q : same_ty to double_ty ≡ true = (same_ty_iff to double_ty).1 d in
        let n : same_ty (type_of v) double_ty ≡ false = rw (f, llvm.same_ty-float_ty) in
        (
          rw (cast_value, cast_floating, i, g, j, n, p, q),
          B.type_of-convert fp_ext v to s (rw (p, q)),
        )
    cast_value-Converts line v to _ s (same _ _ i f j e) =
        (rw (cast_value, i, f) (cast_floating-same bind_first expression v to s j e), e)
