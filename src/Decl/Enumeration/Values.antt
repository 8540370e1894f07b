-- ===== src/Decl/Enumeration/Values.antt =====
-- The values of an enumeration: each option is a constant of the enumeration's type that holds its
-- position; and what the size check of the source accepts and refuses.
use Prim.Native.Nat.{bit_xor}
use whack.Prelude.{
  ℕ, zero, suc, ◌+◌, ◌≤◌, String, ◌≡◌, refl, ◌∙◌, sym, ap, inl, inr, true, some, List, [], ◌∷◌,
  length, get_elem?, arith, eq_iff, Bool-cases, Option-cases, contains,
}
use whack.Outcome.{ok, ◌>>◌, modify}
use whack.Metadata.{get_metadata_heads}
use whack.Outcome.Rules.{bind-eq-ok}
use whack.Llvm.{Llvm, null_of}
use whack.Decl.Ident.{guard_absent, is_unique}
use whack.Decl.Alias.{add_alias}
use whack.Decl.Alias.Lookup.{with_alias}
use whack.Decl.Enumeration.{Enumeration, option_name, add_options, add_values}

module _ (L : Llvm) where
  open L use {
    Ty, Mod, Const, int_ty, is_integer_ty, type_size_in_bits, has_named_value, get_global,
    add_global, const_int, const_value, get_global-add_global, has_named_value-add_global,
  }

  -- What was there before the options stays as it was.
  add_options-keeps :
      (name : String) (t : Ty) (i : ℕ) (os : List String) (row : ℕ) (m m' : Mod) (j : String)
      → add_options L name t i os row m ≡ ok tt m'
      → has_named_value m j ≡ true
      → (get_global m' j ≡ get_global m j) × (has_named_value m' j ≡ true)
  unfolding add_options
  add_options-keeps name t i [] row m m' j h k = ground arith
  add_options-keeps name t i (o ∷ os) row m m' j h k =
      elim (Bool-cases (has_named_value m (option_name L name o))) [
        | inl e ↦ ground (arith, e)
        | inr e ↦ ground (
          arith,
          e,
          eq_iff (option_name L name o) j,
          get_global-add_global t (const_int t i) (option_name L name o) j m e,
          has_named_value-add_global t (const_int t i) (option_name L name o) j m e,
          add_options-keeps name t (suc i) os row
              (add_global t (const_int t i) (option_name L name o) m) m' j,
        )
      ]

  -- The option at a position is the constant of its number.
  add_options-values :
      (name : String) (t : Ty) (i : ℕ) (os : List String) (row : ℕ) (m m' : Mod) (k : ℕ)
      (o : String)
      → add_options L name t i os row m ≡ ok tt m'
      → get_elem? os k ≡ some o
      → get_global m' (option_name L name o) ≡ some (t, const_int t (i + k))
  unfolding add_options
  add_options-values name t i [] row m m' k o h g = ground arith
  add_options-values name t i (o' ∷ os) row m m' zero o h g =
      elim (Bool-cases (has_named_value m (option_name L name o'))) [
        | inl e ↦ ground (arith, e)
        | inr e ↦ ground (
          arith,
          e,
          eq_iff (option_name L name o') (option_name L name o'),
          get_global-add_global t (const_int t i) (option_name L name o') (option_name L name o') m
              e,
          has_named_value-add_global t (const_int t i) (option_name L name o')
              (option_name L name o') m e,
          add_options-keeps name t (suc i) os row
              (add_global t (const_int t i) (option_name L name o') m) m' (option_name L name o'),
        )
      ]
  add_options-values name t i (o' ∷ os) row m m' (suc k) o h g =
      elim (Bool-cases (has_named_value m (option_name L name o'))) [
        | inl e ↦ ground (arith, e)
        | inr e ↦ ground (
          arith,
          e,
          eq_iff (option_name L name o') (option_name L name o'),
          get_global-add_global t (const_int t i) (option_name L name o') (option_name L name o') m
              e,
          has_named_value-add_global t (const_int t i) (option_name L name o')
              (option_name L name o') m e,
          add_options-values name t (suc i) os row
              (add_global t (const_int t i) (option_name L name o') m) m' k o,
        )
      ]

  guard_absent-state :
      (metadata format name : String) (row : ℕ) (m m' : Mod)
      → guard_absent L metadata format name row m ≡ ok tt m'
      → m' ≡ m
  unfolding guard_absent
  guard_absent-state metadata format name row m m' h = ground (arith, h)

  is_unique-state :
      (name : String) (row : ℕ) (m m' : Mod) → is_unique L name row m ≡ ok tt m' → m' ≡ m
  unfolding is_unique
  is_unique-state name row m m' h = elim (Bool-cases (L.has_function m name)) [
    | inl e ↦ ground (arith, e, h)
    | inr e ↦
        let (_, m1, h1, k1) = bind-eq-ok _ _ _ _ (rw e at h) in
        let (_, m2, h2, k2) = bind-eq-ok _ _ _ _ k1 in
        let (_, m3, h3, k3) = bind-eq-ok _ _ _ _ k2 in
        guard_absent-state _ _ _ _ m3 m' k3
        ∙ guard_absent-state _ _ _ _ m2 m3 h3
        ∙ guard_absent-state _ _ _ _ m1 m2 h2
        ∙ guard_absent-state _ _ _ _ m m1 h1
  ]

  add_alias-state :
      (name : String) (t : Ty) (row : ℕ) (m m' : Mod)
      → add_alias L name t row m ≡ ok tt m'
      → m' ≡ with_alias L name t m
  unfolding add_alias
  add_alias-state name t row m m' h = elim (Option-cases (get_metadata_heads L m "aliases")) [
    | inl e ↦ ground (arith, e, h)
    | inr (names, e) ↦ elim (Bool-cases (contains names name)) [
      | inl taken ↦ ground (arith, e, taken, h)
      | inr free ↦
          let k : (is_unique L name row
                  >> modify (L.add_operand "aliases" (L.alias_scope name (null_of t))))
                m
              ≡ ok tt m' =
            ground (arith, e, free, h) in
          let (_, m1, h1, k1) = bind-eq-ok (is_unique L name row m) _ _ _ k in
          ground (arith, is_unique-state name row m m1 h1, k1)
    ]
  ]

  add_values-split :
      (e : Enumeration) (t : Ty) (m m' : Mod)
      → add_values L e t m ≡ ok tt m'
      → (length e.options ≤ bit_xor 2 (type_size_in_bits m t))
        × ((add_options L e.name t 0 e.options e.row >> add_alias L e.name t e.row) m ≡ ok tt m')
  unfolding add_values
  add_values-split e t m m' h = ground (arith, h)

  add_values-run :
      (e : Enumeration) (t : Ty) (m m' : Mod)
      → (add_options L e.name t 0 e.options e.row >> add_alias L e.name t e.row) m ≡ ok tt m'
      → (m1 : Mod) × (add_options L e.name t 0 e.options e.row m ≡ ok tt m1)
        × (m' ≡ with_alias L e.name t m1)
  add_values-run e t m m' h =
      let (_, m1, first, then_alias) =
        bind-eq-ok (add_options L e.name t 0 e.options e.row m) _ _ _ h in
      (m1, first, add_alias-state e.name t e.row m1 m' then_alias)

  get_global-with_alias :
      (name : String) (t : Ty) (m1 m' : Mod) (j : String)
      → m' ≡ with_alias L name t m1
      → get_global m' j ≡ get_global m1 j
  get_global-with_alias name t m1 m' j same = rw (same, L.get_global-add_operand) refl

  pub get_global-add_values :
      (e : Enumeration) (t : Ty) (m m' : Mod)
      → add_values L e t m ≡ ok tt m'
      → ((k : ℕ) (o : String)
          → get_elem? e.options k ≡ some o
          → get_global m' (option_name L e.name o) ≡ some (t, const_int t k))
        × ((j : String) → has_named_value m j ≡ true → get_global m' j ≡ get_global m j)
  get_global-add_values e t m m' h =
      let (m1, first, same) = add_values-run e t m m' (add_values-split e t m m' h).1 in
      (
        λ k o found.
            get_global-with_alias e.name t m1 m' _ same
            ∙ add_options-values e.name t 0 e.options e.row m m1 k o first found
            ∙ ap (λ i. some (t, const_int t i)) (omega arith),
        λ j there.
            get_global-with_alias e.name t m1 m' j same
            ∙ (add_options-keeps e.name t 0 e.options e.row m m1 j first there).0,
      )

  -- An enumeration of three options over `bool` is not refused for its size, and if it is accepted,
  -- its first and its last option have the same value.
  pub const_value-add_values_bool :
      (e : Enumeration) (m m' : Mod) (a b o : String)
      → e.options ≡ a ∷ b ∷ o ∷ []
      → (add_values L e (int_ty 1) m
          ≡ (add_options L e.name (int_ty 1) 0 e.options e.row
                >> add_alias L e.name (int_ty 1) e.row)
              m)
        × (add_values L e (int_ty 1) m ≡ ok tt m'
            → (c : Const) × (d : Const) × (get_global m' (option_name L e.name a)
                ≡ some (int_ty 1, c))
              × (get_global m' (option_name L e.name o) ≡ some (int_ty 1, d))
              × (const_value c ≡ const_value d))
  unfolding add_values
  const_value-add_values_bool e m m' a b o three = (
    rw three (ground (arith, L.is_integer_ty-int_ty 1, L.type_size_in_bits-int_ty m 1)),
    λ h.
        let both = get_global-add_values e (int_ty 1) m m' h in
        (
          const_int (int_ty 1) 0,
          const_int (int_ty 1) 2,
          both.0 0 a (rw three refl),
          both.0 2 o (rw three refl),
          L.const_value-const_int 1 0 ∙ sym (L.const_value-const_int 1 2),
        ),
  )
