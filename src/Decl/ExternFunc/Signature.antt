-- ===== src/Decl/ExternFunc/Signature.antt =====
-- The function that an external function declares.
use whack.Prelude.{
  ℕ, suc, length, lt→ltb, String, ◌≡◌, refl, ◌≢◌, true, false, Option, none, some, List, [], ◌∷◌,
  arith, eq_refl,
}
use whack.Outcome.{ok}
use whack.Ast.{Ast}
use whack.Llvm.{Llvm}
use whack.Types.Codegen.{TypeList, get_type, get_type_list}
use whack.Decl.Ident.{is_unique}
use whack.Decl.ExternFunc.{
  ExternFunc, get_return_type, optional_list, function_of, extern_func_type, extern_func_codegen,
}

module _ (L : Llvm) where
  open L use {
    Ty, Mod, void_ty, struct_ty, create_function, has_function, has_named_value, get_function_type,
  }

  -- The list that is there, if one is written, has these types in the module.
  abbrev pub HasList : ℕ → Mod → Option Ast → Option (TypeList Ty) → Type 0
  HasList fuel m none none = Unit
  HasList fuel m (some a) (some l) = get_type_list L (get_type L fuel) a m ≡ ok l m
  HasList fuel m _ _ = ⊥

  -- What a function with these types behind its parameters returns: nothing, one value or several
  -- in a struct.
  pub data Returns : Option (TypeList Ty) → Ty → Type 0 where
    nothing : Returns none void_ty
    one : {t : Ty} → Returns (some (t ∷ [], false)) t
    several :
        {t u : Ty} {ts : List Ty} → Returns (some (t ∷ u ∷ ts, false)) (struct_ty (t ∷ u ∷ ts))

  optional_list-HasList :
      (fuel : ℕ) (m : Mod) (a : Option Ast) (l : Option (TypeList Ty))
      → HasList fuel m a l
      → optional_list L fuel a m ≡ ok l m
  unfolding optional_list
  optional_list-HasList fuel m none none h = refl
  optional_list-HasList fuel m none (some l) h = elim h [ ]
  optional_list-HasList fuel m (some a) none h = elim h [ ]
  optional_list-HasList fuel m (some a) (some l) h = rw h

  get_return_type-Returns :
      (row : ℕ) (m : Mod) {l : Option (TypeList Ty)} {t : Ty}
      → Returns l t
      → get_return_type L row l m ≡ ok t m
  unfolding get_return_type
  get_return_type-Returns row m nothing = refl
  get_return_type-Returns row m one = refl
  get_return_type-Returns row m (several {ts = ts}) =
      rw (lt→ltb 1 (suc (suc (length ts))) (omega arith))

  is_unique-function :
      (name : String) (row : ℕ) (m : Mod)
      → has_function m name ≡ true
      → is_unique L name row m ≢ ok tt m
  unfolding is_unique
  is_unique-function name row m there h = ground (arith, there, h)

  -- An external function whose lists of types are known, and whose name no value of the module has,
  -- is declared with the type of its signature: nothing, one value or a struct of several is
  -- returned. From then on its name is refused by `isUnique`.
  pub extern_func_codegen-type :
      (fuel : ℕ) (m : Mod) (f : ExternFunc) (params rets : Option (TypeList Ty)) (ret : Ty)
      (row : ℕ)
      → HasList fuel m f.returns rets
      → HasList fuel m f.params params
      → Returns rets ret
      → has_named_value m f.name ≡ false
      → (m' : Mod) × (extern_func_codegen L fuel f m ≡ ok tt m')
        × (get_function_type m' f.name ≡ some (function_of L ret params))
        × (is_unique L f.name row m' ≢ ok tt m')
  unfolding extern_func_codegen extern_func_type is_unique
  extern_func_codegen-type fuel m f params rets ret row hr hp r absent = (
    create_function (function_of L ret params) f.name m,
    rw (
      optional_list-HasList fuel m f.returns rets hr,
      get_return_type-Returns f.row m r,
      optional_list-HasList fuel m f.params params hp,
    ),
    L.get_function_type-create_function _ f.name m absent,
    λ h.
        is_unique-function f.name row _
          (rw (L.has_function-create_function _ f.name f.name m absent, eq_refl)) h,
  )
