-- ===== src/Types/Names.antt =====
-- How types are printed (`getTypeName`) and read (`Type::codegen`), and what is behind pointers.
use whack.Prelude.{ℕ, zero, suc, ◌≤◌, ◌<>◌, ◌≡◌, refl, ap, false, arith, Bool-cases, inl, inr}
use whack.Llvm.{Llvm}
use whack.Types.{peel, base_name, stars, get_type_name, get_underlying_type, pointers}

module _ (L : Llvm) where
  open L use {
    Ty, is_pointer_ty, pointer_to, pointer_element_type, pointer_depth, pointer_depth-lt,
    is_pointer_ty-pointer_to, pointer_element_type-pointer_to, int_ty, half_ty, float_ty, double_ty,
    is_pointer_ty-int_ty, is_pointer_ty-half_ty, is_pointer_ty-float_ty, is_pointer_ty-double_ty,
    is_integer_ty-int_ty, is_integer_ty-half_ty, is_integer_ty-float_ty, is_integer_ty-double_ty,
    is_floating_point_ty-half_ty, is_floating_point_ty-float_ty, is_floating_point_ty-double_ty,
    primitive_size_in_bits-int_ty, primitive_size_in_bits-half_ty, primitive_size_in_bits-float_ty,
    primitive_size_in_bits-double_ty,
  }

  -- With fuel for every pointer the loop ends at what is no pointer.
  peel_ends : (f : ℕ) (t : Ty) → pointer_depth t ≤ f → is_pointer_ty (peel L f t).0 ≡ false
  unfolding peel
  peel_ends zero t h = elim (Bool-cases (is_pointer_ty t)) [
    | inl p ↦ absurd (omega (arith, pointer_depth-lt t p))
    | inr p ↦ p
  ]
  peel_ends (suc f) t h = elim (Bool-cases (is_pointer_ty t)) [
    | inl p ↦ rw p (peel_ends f (pointer_element_type t) (omega (arith, pointer_depth-lt t p)))
    | inr p ↦ rw p p
  ]

  -- `getUnderlyingType` of any type is no pointer.
  pub get_underlying_type-not_pointer : (t : Ty) → is_pointer_ty (get_underlying_type L t) ≡ false
  unfolding get_underlying_type
  get_underlying_type-not_pointer t = peel_ends (pointer_depth t) t (omega arith)

  peel-pointers :
      (n f : ℕ) (t : Ty) → is_pointer_ty t ≡ false → n ≤ f → peel L f (pointers L n t) ≡ (t, n)
  unfolding peel
  peel-pointers zero zero t h k = refl
  peel-pointers zero (suc f) t h k = rw h
  peel-pointers (suc n) zero t h k = absurd (omega arith)
  peel-pointers (suc n) (suc f) t h k = rw (
    is_pointer_ty-pointer_to,
    pointer_element_type-pointer_to,
    peel-pointers n f t h (omega arith),
  )

  pointers-le-depth : (n : ℕ) (t : Ty) → n ≤ pointer_depth (pointers L n t)
  pointers-le-depth zero t = omega arith
  pointers-le-depth (suc n) t =
      let below =
        rw (pointer_element_type-pointer_to) at
          (pointer_depth-lt (pointer_to (pointers L n t)) (is_pointer_ty-pointer_to _)) in
      omega (arith, below, pointers-le-depth n t)

  -- Behind n pointers to a type that is no pointer lies that type.
  pub get_underlying_type-pointers :
      (n : ℕ) (t : Ty) → is_pointer_ty t ≡ false → get_underlying_type L (pointers L n t) ≡ t
  unfolding get_underlying_type
  get_underlying_type-pointers n t h =
      ap (λ (p : Ty × ℕ). p.0) (peel-pointers n _ t h (pointers-le-depth n t))

  pub get_type_name-pointers :
      (n : ℕ) (t : Ty)
      → is_pointer_ty t ≡ false
      → get_type_name L (pointers L n t) ≡ base_name L t <> stars L n
  unfolding get_type_name
  get_type_name-pointers n t h =
      rw (peel-pointers n (pointer_depth (pointers L n t)) t h (pointers-le-depth n t))
