-- ===== src/Types/Fuel.antt =====
-- Reading a type needs no more fuel than the height of its tree, and leaves the module as it is.
use whack.Prelude.{
  ℕ, zero, suc, ◌<◌, ◌≤◌, ◌≡◌, ◌≢◌, Option, none, some, List, [], ◌∷◌, arith, get_elem?,
}
use whack.Outcome.{Exec, ok, out_of_fuel, lift, ◌>>=◌}
use whack.Outcome.Rules.{
  Settles, returned, refused, undefined, Settles-lift, Settles-if, Settles-bind,
  Settles-ne-out_of_fuel,
}
use whack.Ast.{Ast, Asts, node, nil, cons, to_list, child, children, height, height_list}
use whack.Llvm.{Llvm}
use whack.Types.Codegen.{
  evens, list_element, list_elements, get_type_list, fn_return_type, fn_type_codegen,
  array_type_codegen, get_pointer_type, codegen_ref, type_codegen, get_type, no_such_type,
  or_no_such_type,
}

-- Every tree of a list is lower than the bound.
abbrev pub AllLower : ℕ → List Ast → Type 0
AllLower n [] = Unit
AllLower n (a ∷ l) = (height a < n) × AllLower n l

AllLower-to_list : (as_ : Asts) (n : ℕ) → height_list as_ < n → AllLower n (to_list as_)
AllLower-to_list nil n h = tt
AllLower-to_list (cons a as_) n h = (omega arith, AllLower-to_list as_ n (omega arith))

pub AllLower-children : (a : Ast) → AllLower (height a) (children a)
AllLower-children (node t c r as_) = AllLower-to_list as_ _ (omega arith)

pub AllLower-children_below : (a : Ast) (n : ℕ) → height a ≤ n → AllLower n (children a)
AllLower-children_below (node t c r as_) n h = AllLower-to_list as_ n (omega arith)

AllLower-evens : (n : ℕ) (l : List Ast) → AllLower n l → AllLower n (evens l)
AllLower-evens n [] h = tt
AllLower-evens n (a ∷ []) h = (h.0, tt)
AllLower-evens n (a ∷ b ∷ l) h = (h.0, AllLower-evens n l h.1.1)

pub AllLower-get_elem? :
    (n : ℕ) (l : List Ast) (i : ℕ) (a : Ast) → AllLower n l → get_elem? l i ≡ some a → height a < n
AllLower-get_elem? n [] i a h e = cc
AllLower-get_elem? n (b ∷ l) zero a h e = ground arith
AllLower-get_elem? n (b ∷ l) (suc i) a h e = AllLower-get_elem? n l i a h.1 e

pub height-child : (a c : Ast) (i : ℕ) → child a i ≡ some c → height c < height a
height-child a c i e = AllLower-get_elem? (height a) (children a) i c (AllLower-children a) e

lift-eq-ok : {S A : Type 0} (o : Option A) (a : A) (s t : S) → lift o s ≡ ok a t → o ≡ some a
lift-eq-ok none a s t e = cc
lift-eq-ok (some b) a s t e = cc

module _ (L : Llvm) where
  open L use {Mod, Ty}

  module _ (g : Ast → Exec Mod Ty) (n : ℕ) (m : Mod)
      (ih : (c : Ast) → height c < n → Settles m (g c m)) where
    -- What is done with a child settles if it does for every lower tree.
    at_child :
        {A : Type 0} (a : Ast) (i : ℕ) (f : Ast → Exec Mod A)
        → height a ≤ n
        → ((c : Ast) → height c < n → Settles m (f c m))
        → Settles m ((lift (child a i) >>= f) m)
    at_child a i f h k =
        Settles-bind (lift (child a i)) f (Settles-lift (child a i))
          λ c e. k c (omega (arith, height-child a c i (lift-eq-ok (child a i) c m m e)))

    list_element-Settles : (a : Ast) → height a < n → Settles m (list_element L g a m)
    unfolding list_element
    list_element-Settles a h =
        let k : height a ≤ n = omega arith in search (Settles-if, at_child, ih)

    list_elements-Settles : (l : List Ast) → AllLower n l → Settles m (list_elements L g l m)
    unfolding list_elements
    list_elements-Settles [] h = returned _
    list_elements-Settles (a ∷ l) h =
        Settles-bind (list_element L g a) _ (list_element-Settles a h.0) λ t e.
          Settles-bind (list_elements L g l) _ (list_elements-Settles l h.1) λ ts e'. returned _

    get_type_list-Settles : (a : Ast) → height a < n → Settles m (get_type_list L g a m)
    unfolding get_type_list
    get_type_list-Settles a h =
        let k : height a ≤ n = omega arith in
        let lower = AllLower-evens n (children a) (AllLower-children_below a n k) in
        search (Settles-if, Settles-bind, at_child, ih, returned, list_elements-Settles)

    get_pointer_type-Settles : (a : Ast) → height a ≤ n → Settles m (get_pointer_type L g a m)
    unfolding get_pointer_type
    get_pointer_type-Settles (node t c r nil) h = undefined
    get_pointer_type-Settles (node t c r (cons a as_)) h =
        Settles-bind (g a) _ (ih a (omega arith)) λ t e. returned _

    fn_return_type-Settles : (a : Ast) → height a ≤ n → Settles m (fn_return_type L g a m)
    unfolding fn_return_type
    fn_return_type-Settles a h =
        search
          (
            Settles-if, Settles-bind, at_child, ih, returned, refused, Settles-lift,
            get_type_list-Settles,
          )
          depth 9

    fn_type_codegen-Settles : (a : Ast) → height a ≤ n → Settles m (fn_type_codegen L g a m)
    unfolding fn_type_codegen
    fn_type_codegen-Settles a h =
        search
          (
            Settles-if, Settles-bind, at_child, ih, returned, fn_return_type-Settles,
            get_type_list-Settles,
          )
          depth 9

    array_type_codegen-Settles : (a : Ast) → height a ≤ n → Settles m (array_type_codegen L g a m)
    unfolding array_type_codegen
    array_type_codegen-Settles a h =
        search (Settles-if, Settles-bind, at_child, ih, returned, Settles-lift) depth 9

    no_such_type-Settles : (a : Ast) → Settles m (no_such_type L a m)
    unfolding no_such_type
    no_such_type-Settles a = refused _

    or_no_such_type-Settles : (a : Ast) (o : Option Ty) → Settles m (or_no_such_type L a o m)
    unfolding or_no_such_type
    or_no_such_type-Settles a none = no_such_type-Settles a
    or_no_such_type-Settles a (some ty) = returned _

    codegen_ref-Settles : (a ref : Ast) → height ref ≤ n → Settles m (codegen_ref L g a ref m)
    unfolding codegen_ref
    codegen_ref-Settles a ref h =
        search
          (
            Settles-if, Settles-bind, Settles-lift, get_pointer_type-Settles,
            fn_type_codegen-Settles, array_type_codegen-Settles, or_no_such_type-Settles,
            no_such_type-Settles,
          )
          depth 9

    type_codegen-Settles : (a : Ast) → height a ≤ n → Settles m (type_codegen L g a m)
    unfolding type_codegen
    type_codegen-Settles a h =
        let below = λ (c : Ast) (k : height c < n). codegen_ref-Settles a c (omega arith) in
        search (Settles-if, at_child, below, codegen_ref-Settles)

  get_type-Settles : (f : ℕ) (a : Ast) (m : Mod) → height a ≤ f → Settles m (get_type L f a m)
  unfolding get_type
  get_type-Settles zero (node t c r as_) m h = absurd (omega arith)
  get_type-Settles (suc f) a m h =
      Settles-bind (type_codegen L (get_type L f) a) _
        (type_codegen-Settles (get_type L f) (suc f) m (λ c k. get_type-Settles f c m (omega arith))
          a h)
        λ t e. returned _

  -- With fuel for the height of the tree, `getType` ends: it gives a type, an error or a fault, and
  -- leaves the module as it is.
  pub get_type-ne-out_of_fuel :
      (f : ℕ) (a : Ast) (m : Mod)
      → height a ≤ f
      → (get_type L f a m ≢ out_of_fuel) × Settles m (get_type L f a m)
  get_type-ne-out_of_fuel f a m h =
      (Settles-ne-out_of_fuel (get_type-Settles f a m h), get_type-Settles f a m h)

  -- The same for a list of types.
  pub get_type_list-Settles_at :
      (f : ℕ) (a : Ast) (m : Mod) → height a ≤ f → Settles m (get_type_list L (get_type L f) a m)
  get_type_list-Settles_at f a m h =
      get_type_list-Settles (get_type L f) (suc f) m (λ c k. get_type-Settles f c m (omega arith)) a
        (omega arith)

  -- The same for a type whose function types are not wrapped.
  pub type_codegen-Settles_at :
      (f : ℕ) (a : Ast) (m : Mod) → height a ≤ f → Settles m (type_codegen L (get_type L f) a m)
  type_codegen-Settles_at f a m h =
      type_codegen-Settles (get_type L f) (suc f) m (λ c k. get_type-Settles f c m (omega arith)) a
        (omega arith)
