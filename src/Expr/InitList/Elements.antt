-- ===== src/Expr/InitList/Elements.antt =====
-- The values of an array that is written out.
use whack.Prelude.{
  ℕ, ◌≡◌, ◌↔◌, refl, sym, ap, ◌∙◌, subst, true, false, List, [], ◌∷◌, length, eqb, arith,
  Bool-cases, inl, inr,
}
use whack.Outcome.{ok}
use whack.Outcome.Rules.{bind-eq-ok}
use whack.Builder.{Builder}
use whack.Expr.Factors.{is_variable_length_array}
use whack.Expr.InitList.{
  all_of_type, is_unique_list, constant, constants, init_members, check_sequence, init_sequence,
  init_list_of,
}

module _ (B : Builder) where
  open B use {
    llvm, Val, Ir, type_of, null_value, is_constant, const_array, num_elements, element_type,
    is_array_ty,
  }
  open llvm use {Ty, same_ty, same_ty_iff, is_struct_ty}

  -- Constants of the type.
  abbrev pub AreElements : Ty → List Val → Type 0
  AreElements u [] = Unit {0}
  AreElements u (v ∷ vs) = (type_of v ≡ u) × (is_constant v ≡ true) × AreElements u vs

  AreElements-all_of_type : (u : Ty) (vs : List Val) → AreElements u vs → all_of_type B u vs ≡ true
  unfolding all_of_type
  AreElements-all_of_type u [] h = refl
  AreElements-all_of_type u (v ∷ vs) (t, c, h) =
      ground (arith, (same_ty_iff (type_of v) u).1 t, AreElements-all_of_type u vs h)

  constant-eq-ok :
      (v c : Val) (s s' : Ir)
      → constant B v s ≡ ok c s'
      → (is_constant v ≡ true) × (v ≡ c) × (s ≡ s')
  unfolding constant
  constant-eq-ok v c s s' h = elim (Bool-cases (is_constant v)) [
    | inl e ↦ (e, ground (arith, h, e), ground (arith, h, e))
    | inr e ↦ absurd (ground (arith, h, e))
  ]

  constants-eq-ok :
      (u : Ty) (vs cs : List Val) (s s' : Ir)
      → all_of_type B u vs ≡ true
      → constants B vs s ≡ ok cs s'
      → AreElements u vs × (vs ≡ cs) × (s ≡ s')
  unfolding constants all_of_type
  constants-eq-ok u [] cs s s' a h = (tt, ground (arith, h), ground (arith, h))
  constants-eq-ok u (v ∷ vs) cs s s' a h =
      let (c, s1, h1, k1) = bind-eq-ok (constant B v s) _ cs s' h in
      let (rest, s2, h2, k2) = bind-eq-ok (constants B vs s1) _ cs s' k1 in
      let (e, same, left) = constant-eq-ok v c s s1 h1 in
      let (elements, all, kept) = constants-eq-ok u vs rest s1 s2 (ground (arith, a)) h2 in
      (
        ((same_ty_iff (type_of v) u).0 (ground (arith, a)), e, elements),
        ground (arith, same, all, k2),
        left ∙ kept ∙ ground (arith, k2),
      )

  AreElements-constants :
      (u : Ty) (vs : List Val) (s : Ir) → AreElements u vs → constants B vs s ≡ ok vs s
  unfolding constants constant
  AreElements-constants u [] s h = refl
  AreElements-constants u (v ∷ vs) s (t, c, h) = rw (constants, c, AreElements-constants u vs s h)

  module _ (line : ℕ) (t : Ty) where
    check_sequence-eq-ok :
        (c : Val) (n : ℕ) (s s' : Ir)
        → check_sequence B line t "array" c n s ≡ ok tt s'
        → (type_of c ≡ element_type t) × (n ≡ num_elements t) × (s ≡ s')
    unfolding check_sequence
    check_sequence-eq-ok c n s s' h = elim (Bool-cases (same_ty (type_of c) (element_type t))) [
      | inr e ↦ absurd (ground (arith, h, e))
      | inl e ↦ elim (Bool-cases (eqb n (num_elements t))) [
        | inr d ↦ absurd (ground (arith, h, e, d))
        | inl d ↦ (
          (same_ty_iff (type_of c) (element_type t)).0 e,
          ground (arith, d),
          ground (arith, h, e, d),
        )
      ]
    ]

    -- The values fill an array of this type.
    abbrev pub FillArray : List Val → Type 0
    FillArray vs = (length vs ≡ num_elements t) × AreElements (element_type t) vs

    init_sequence-FillArray :
        (v w : Val) (vs : List Val) (s s' : Ir)
        → all_of_type B (type_of v) vs ≡ true
        → init_sequence B line t "array" (const_array t) v vs s ≡ ok w s'
        → FillArray (v ∷ vs) × (const_array t (v ∷ vs) ≡ w) × (s ≡ s')
    unfolding init_sequence
    init_sequence-FillArray v w vs s s' a h =
        let (c, s1, h1, k1) = bind-eq-ok (constant B v s) _ w s' h in
        let (x, s2, h2, k2) =
          bind-eq-ok (check_sequence B line t "array" c (length (v ∷ vs)) s1) _ w s' k1 in
        let (cs, s3, h3, k3) = bind-eq-ok (constants B vs s2) _ w s' k2 in
        let (e, same, left) = constant-eq-ok v c s s1 h1 in
        let (u, n, kept) = check_sequence-eq-ok c (length (v ∷ vs)) s1 s2 h2 in
        let typed : type_of v ≡ element_type t = ap type_of same ∙ u in
        let (elements, all, rest) =
          constants-eq-ok (element_type t) vs cs s2 s3
            (subst (λ y. all_of_type B y vs ≡ true) typed a) h3 in
        (
          (n, (typed, e, elements)),
          ap (λ y. const_array t (y ∷ vs)) same
              ∙ ap (λ y. const_array t (c ∷ y)) all
              ∙ ground (arith, k3),
          left ∙ kept ∙ rest ∙ ground (arith, k3),
        )

    init_list_of-all_of_type :
        (v w : Val) (vs : List Val) (s s' : Ir)
        → is_struct_ty t ≡ false
        → init_list_of B line t (v ∷ vs) s ≡ ok w s'
        → all_of_type B (type_of v) vs ≡ true
    unfolding init_list_of init_members is_unique_list
    init_list_of-all_of_type v w vs s s' st h = elim (Bool-cases (all_of_type B (type_of v) vs)) [
      | inl e ↦ e
      | inr e ↦ absurd (ground (arith, h, e, st))
    ]

    check_sequence-ok :
        (c : Val) (n : ℕ) (s : Ir)
        → type_of c ≡ element_type t
        → n ≡ num_elements t
        → check_sequence B line t "array" c n s ≡ ok tt s
    unfolding check_sequence
    check_sequence-ok c n s u e =
        let same = (same_ty_iff (type_of c) (element_type t)).1 u in
        let count : eqb n (num_elements t) ≡ true = ground (arith, e) in rw (same, count)

    FillArray-init_sequence :
        (v : Val) (vs : List Val) (s : Ir)
        → FillArray (v ∷ vs)
        → init_sequence B line t "array" (const_array t) v vs s ≡ ok (const_array t (v ∷ vs)) s
    unfolding init_sequence constant
    FillArray-init_sequence v vs s (n, (u, c, elements)) = rw (
      init_sequence,
      constant,
      c,
      check_sequence-ok v (length (v ∷ vs)) s u n,
      AreElements-constants (element_type t) vs s elements,
    )

    FillArray-init_list_of :
        (v : Val) (vs : List Val) (s : Ir)
        → is_struct_ty t ≡ false
        → is_array_ty t ≡ true
        → FillArray (v ∷ vs)
        → init_list_of B line t (v ∷ vs) s ≡ ok (const_array t (v ∷ vs)) s
    unfolding init_list_of is_unique_list is_variable_length_array
    FillArray-init_list_of v vs s st ar fills =
        let (n, (u, c, elements)) = fills in
        let a : all_of_type B (type_of v) vs ≡ true =
          AreElements-all_of_type (type_of v) vs (subst (λ y. AreElements y vs) (sym u) elements) in
        rw (a, st, ar, FillArray-init_sequence v vs s fills)

    -- What is made of values in an array: the null value of none, and the constant of those that fill
    -- it.
    abbrev pub MakesArray : List Val → Val → Type 0
    MakesArray [] w = null_value t ≡ w
    MakesArray (v ∷ vs) w = FillArray (v ∷ vs) × (const_array t (v ∷ vs) ≡ w)

    init_list_of-FillArray :
        (v w : Val) (vs : List Val) (s s' : Ir)
        → is_struct_ty t ≡ false
        → is_array_ty t ≡ true
        → init_list_of B line t (v ∷ vs) s ≡ ok w s'
        → FillArray (v ∷ vs) × (const_array t (v ∷ vs) ≡ w) × (s ≡ s')
    unfolding init_list_of is_unique_list is_variable_length_array
    init_list_of-FillArray v w vs s s' st ar h =
        let a = init_list_of-all_of_type v w vs s s' st h in
        init_sequence-FillArray v w vs s s' a (ground (arith, h, a, st, ar))

    -- For an array whose type is no struct: of no values its null value is made, whatever its length.
    -- Of one value or more an array is made exactly if these are constants of the type of its elements
    -- and as many as it has; it is then the constant array of them. Nothing is built.
    pub init_list_of-MakesArray_iff :
        (vs : List Val) (w : Val) (s s' : Ir)
        → is_struct_ty t ≡ false
        → is_array_ty t ≡ true
        → (init_list_of B line t vs s ≡ ok w s') ↔ (MakesArray vs w × (s ≡ s'))
    unfolding init_list_of
    init_list_of-MakesArray_iff [] w s s' st ar = (
      λ h. (ground (arith, h), ground (arith, h)),
      λ (made, left). ap (λ y. ok y s) made ∙ ap (ok w) left,
    )
    init_list_of-MakesArray_iff (v ∷ vs) w s s' st ar = (
      λ h.
          let (fills, made, left) = init_list_of-FillArray v w vs s s' st ar h in
          ((fills, made), left),
      λ ((fills, same), left).
          FillArray-init_list_of v vs s st ar fills ∙ ap (λ y. ok y s) same ∙ ap (ok w) left,
    )
