-- ===== src/Decl/Args/Passable.antt =====
-- The types under which parameters are passed.
use whack.Prelude.{
  ℕ, suc, ◌≤◌, ◌≡◌, refl, ap, sym, ◌⊎◌, inl, inr, Bool, true, false, List, [], ◌∷◌, ◌||◌, arith,
  length, Bool-cases,
}
use whack.Outcome.{ok}
use whack.Outcome.Rules.{Settles, returned, Settles-bind, bind-eq-ok}
use whack.Ast.{height}
use whack.Llvm.{Llvm}
use whack.Types.{get_underlying_type}
use whack.Types.Codegen.{get_type, type_codegen}
use whack.Types.Fuel.{type_codegen-Settles_at}
use whack.Decl.Args.{Arg, arg_types, as_argument, is_interface_ty}

-- The fuel covers the types of the parameters.
abbrev pub AreShallow : ℕ → List Arg → Type 0
AreShallow fuel [] = Unit
AreShallow fuel (a ∷ args) = (height a.type ≤ fuel) × AreShallow fuel args

or-eq-false : (a b : Bool) → (a || b) ≡ false → (a ≡ false) × (b ≡ false)
or-eq-false false b h = (refl, h)
or-eq-false true b h = cc

module _ (L : Llvm) where
  open L use {Ty, Mod, is_pointer_ty, is_function_ty, pointer_to}

  -- A pointer, or what is neither a function, nor pointers to one, nor an interface.
  abbrev pub IsPassable : Ty → Type 0
  IsPassable t =
      (is_pointer_ty t ≡ true)
      ⊎ ((is_function_ty (get_underlying_type L t) ≡ false) × (is_interface_ty L t ≡ false))

  abbrev pub ArePassable : List Ty → Type 0
  ArePassable [] = Unit
  ArePassable (t ∷ ts) = IsPassable t × ArePassable ts

  as_argument-IsPassable : (t : Ty) → IsPassable (as_argument L t)
  unfolding as_argument
  as_argument-IsPassable t =
      elim (Bool-cases (is_function_ty (get_underlying_type L t) || is_interface_ty L t)) [
        | inl e ↦ inl (rw e (L.is_pointer_ty-pointer_to t))
        | inr e ↦
            let both =
              or-eq-false (is_function_ty (get_underlying_type L t)) (is_interface_ty L t) e in
            inr (rw e both.0, rw e both.1)
      ]

  arg_types-length :
      (fuel : ℕ) (args : List Arg) (m m' : Mod) (ts : List Ty)
      → arg_types L fuel args m ≡ ok ts m'
      → (length ts ≡ length args) × ArePassable ts
  unfolding arg_types
  arg_types-length fuel [] m m' ts h =
      let same : [] ≡ ts = ground (arith, h) in rw (sym same) (refl, tt)
  arg_types-length fuel (a ∷ args) m m' ts h =
      let (t, m1, first, rest) = bind-eq-ok (type_codegen L (get_type L fuel) a.type m) _ _ _ h in
      let (us, m2, others, last) = bind-eq-ok (arg_types L fuel args m1) _ _ _ rest in
      let same : as_argument L t ∷ us ≡ ts = ground (arith, last) in
      let (k, p) = arg_types-length fuel args m1 m2 us others in
      rw (sym same) (ap suc k, (as_argument-IsPassable t, p))

  arg_types-Settles :
      (fuel : ℕ) (args : List Arg) (m : Mod)
      → AreShallow fuel args
      → Settles m (arg_types L fuel args m)
  unfolding arg_types
  arg_types-Settles fuel [] m h = returned _
  arg_types-Settles fuel (a ∷ args) m h =
      Settles-bind (type_codegen L (get_type L fuel) a.type) _
        (type_codegen-Settles_at L fuel a.type m h.0)
        λ t e.
          Settles-bind (arg_types L fuel args) _ (arg_types-Settles fuel args m h.1)
            λ ts e'. returned _

  -- With fuel for the types of the parameters, reading them ends and leaves the module as it is; and
  -- if it gives types, there is one for each parameter, and each is a pointer or no function, no
  -- pointers to one and no interface.
  pub arg_types-ArePassable :
      (fuel : ℕ) (args : List Arg) (m : Mod)
      → AreShallow fuel args
      → Settles m (arg_types L fuel args m)
        × ((m' : Mod) (ts : List Ty)
            → arg_types L fuel args m ≡ ok ts m'
            → (length ts ≡ length args) × ArePassable ts)
  arg_types-ArePassable fuel args m h =
      (arg_types-Settles fuel args m h, λ m' ts k. arg_types-length fuel args m m' ts k)
