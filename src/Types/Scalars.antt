-- ===== src/Types/Scalars.antt =====
-- The scalar types and pointers to them, printed (`getTypeName`) and read (`Type::codegen`).
use whack.Prelude.{
  ◌-◌, ◌^◌, ℕ, zero, suc, ◌<◌, String, ◌==◌, ◌<>◌, ◌≡◌, refl, ◌∙◌, sym, ap, false, some, arith, inl,
  inr,
}
use Prim.Native.String.{len}
use text.Mathlib.TextLemmas.{append-nil}
use whack.Outcome.{Exec, ok, pure, ◌>>=◌}
use whack.StringRef.{StringRef, has_bar}
use whack.Ast.{Ast, Asts, node, nil, cons, tag, to_list, get_innermost_ast_tag}
use whack.Ast.Tags.{IsEnding, get_innermost_ast_tag-rule}
use whack.Types.Codegen.{
  str, str_list, get_type, type_codegen, is_mutable, codegen_ref, or_no_such_type, get_pointer_type,
  wrap_function, add_pointers, get_from_type_name,
}
use whack.Llvm.{Llvm}
use whack.Types.{basic_type, base_name, stars, get_type_name, pointers}
use whack.Types.Names.{get_underlying_type-pointers, get_type_name-pointers}

-- The basic types that `getTypeName` names: integers and floating-point numbers.
pub data Scalar : Type 0 where
  bool char short int int64 int128 half float double : Scalar

abbrev pub scalar_name : Scalar → String
scalar_name bool = "bool"
scalar_name char = "char"
scalar_name short = "short"
scalar_name int = "int"
scalar_name int64 = "int64"
scalar_name int128 = "int128"
scalar_name half = "half"
scalar_name float = "float"
scalar_name double = "double"

-- The tree that the parser builds for a scalar type behind n stars: `int`, `int*`, `int**`, …
abbrev pub star_nodes : ℕ → ℕ → Asts
star_nodes row zero = nil
star_nodes row (suc n) = cons (node "char" "*" row nil) (star_nodes row n)

abbrev pub type_ast : Scalar → ℕ → ℕ → Ast
type_ast s row zero = node "type|basictypes|identifier|ident|regex" (scalar_name s) row nil
type_ast s row (suc n) = node "type|pointertype|>" "" row (
    cons (node "basictypes|identifier|ident|regex" (scalar_name s) row nil)
      (star_nodes row (suc n)))

scalar_name-not_mut : (s : Scalar) → (scalar_name s == "mut") ≡ false
scalar_name-not_mut bool = refl
scalar_name-not_mut _ = refl

innermost_of :
    (T : StringRef) (a : Ast) (p rule e : String)
    → IsEnding e
    → has_bar rule ≡ false
    → 0 < len p
    → len p < 2 ^ 64 - 1
    → tag a ≡ (p <> ("|" <> rule)) <> e
    → get_innermost_ast_tag T a ≡ rule
innermost_of T a p rule e ending h pos small q =
    get_innermost_ast_tag-rule T a rule e ending h (inr (p, pos, small, q))

str_list-star_nodes : (L : Llvm) (row n : ℕ) → str_list (star_nodes row n) ≡ stars L n
unfolding str
str_list-star_nodes L row zero = refl
str_list-star_nodes L row (suc n) = rw (str_list-star_nodes L row n)

module _ (L : Llvm) where
  open L use {
    Ty, Mod, int_ty, half_ty, float_ty, double_ty, is_pointer_ty, is_function_ty, string_ref,
    pointer_to,
  }

  abbrev pub scalar_ty : Scalar → Ty
  scalar_ty bool = int_ty 1
  scalar_ty char = int_ty 8
  scalar_ty short = int_ty 16
  scalar_ty int = int_ty 32
  scalar_ty int64 = int_ty 64
  scalar_ty int128 = int_ty 128
  scalar_ty half = half_ty
  scalar_ty float = float_ty
  scalar_ty double = double_ty

  basic_type-scalar : (s : Scalar) → basic_type L (scalar_name s) ≡ some (scalar_ty s)
  unfolding basic_type
  basic_type-scalar bool = refl
  basic_type-scalar _ = refl

  base_name-scalar : (s : Scalar) → base_name L (scalar_ty s) ≡ scalar_name s
  unfolding base_name
  base_name-scalar half =
      simp
        (L.is_integer_ty-half_ty, L.is_floating_point_ty-half_ty, L.primitive_size_in_bits-half_ty)
  base_name-scalar float =
      simp (
        L.is_integer_ty-float_ty, L.is_floating_point_ty-float_ty,
        L.primitive_size_in_bits-float_ty,
      )
  base_name-scalar double = simp (
    L.is_integer_ty-double_ty, L.is_floating_point_ty-double_ty, L.primitive_size_in_bits-double_ty,
  )
  base_name-scalar _ = simp (L.is_integer_ty-int_ty, L.primitive_size_in_bits-int_ty)

  is_pointer_ty-scalar : (s : Scalar) → is_pointer_ty (scalar_ty s) ≡ false
  is_pointer_ty-scalar half = L.is_pointer_ty-half_ty
  is_pointer_ty-scalar float = L.is_pointer_ty-float_ty
  is_pointer_ty-scalar double = L.is_pointer_ty-double_ty
  is_pointer_ty-scalar _ = L.is_pointer_ty-int_ty _

  is_function_ty-scalar : (s : Scalar) → is_function_ty (scalar_ty s) ≡ false
  is_function_ty-scalar half = L.is_function_ty-half_ty
  is_function_ty-scalar float = L.is_function_ty-float_ty
  is_function_ty-scalar double = L.is_function_ty-double_ty
  is_function_ty-scalar _ = L.is_function_ty-int_ty _

  wrap_function-scalar :
      (s : Scalar) (n : ℕ)
      → wrap_function L (pointers L n (scalar_ty s)) ≡ pointers L n (scalar_ty s)
  unfolding wrap_function
  wrap_function-scalar s n = rw (
    get_underlying_type-pointers L n (scalar_ty s) (is_pointer_ty-scalar s),
    is_function_ty-scalar s,
  )

  get_from_type_name-scalar :
      (s : Scalar) (m : Mod) → get_from_type_name L (scalar_name s) m ≡ some (some (scalar_ty s))
  unfolding get_from_type_name
  get_from_type_name-scalar s m = ground (arith, basic_type-scalar s)

  innermost_leaf :
      (s : Scalar) (row : ℕ)
      → get_innermost_ast_tag string_ref
          (node "basictypes|identifier|ident|regex" (scalar_name s) row nil)
        ≡ "ident"
  innermost_leaf s row =
      innermost_of string_ref _ "basictypes|identifier" "ident" "|regex" (inr refl) refl
        (omega arith) (omega arith) refl

  innermost_pointer :
      (s : Scalar) (n row : ℕ)
      → get_innermost_ast_tag string_ref (type_ast s row (suc n)) ≡ "pointertype"
  innermost_pointer s n row =
      innermost_of string_ref _ "type" "pointertype" "|>" (inl refl) refl (omega arith)
        (omega arith) refl

  pointers-pointer_to : (n : ℕ) (t : Ty) → pointers L n (pointer_to t) ≡ pointer_to (pointers L n t)
  pointers-pointer_to zero t = refl
  pointers-pointer_to (suc n) t = ap pointer_to (pointers-pointer_to n t)

  -- `getType` of a scalar's name.
  get_type-scalar :
      (s : Scalar) (row f : ℕ) (m : Mod) (t : String)
      → get_innermost_ast_tag string_ref (node t (scalar_name s) row nil) ≡ "ident"
      → get_type L (suc f) (node t (scalar_name s) row nil) m ≡ ok (scalar_ty s) m
  unfolding get_type type_codegen is_mutable codegen_ref or_no_such_type
  get_type-scalar s row f m t h =
      rw (h, get_from_type_name-scalar s m) (ap (λ (ty : Ty). ok ty m) (wrap_function-scalar s 0))

  innermost_ident :
      (s : Scalar) (row : ℕ) → get_innermost_ast_tag string_ref (type_ast s row zero) ≡ "ident"
  innermost_ident s row =
      innermost_of string_ref _ "type|basictypes|identifier" "ident" "|regex" (inr refl) refl
        (omega arith) (omega arith) refl

  add_pointers-star_nodes :
      (row n : ℕ) (t : Ty) → add_pointers L (to_list (star_nodes row n)) t ≡ pointers L n t
  unfolding add_pointers
  add_pointers-star_nodes row zero t = refl
  add_pointers-star_nodes row (suc n) t =
      add_pointers-star_nodes row n (pointer_to t) ∙ pointers-pointer_to n t

  type_codegen-pointer :
      (g : Ast → Exec Mod Ty) (s : Scalar) (n row : ℕ) (m : Mod)
      → g (node "basictypes|identifier|ident|regex" (scalar_name s) row nil) m ≡ ok (scalar_ty s) m
      → type_codegen L g (type_ast s row (suc n)) m ≡ ok (pointers L (suc n) (scalar_ty s)) m
  unfolding type_codegen is_mutable codegen_ref get_pointer_type
  type_codegen-pointer g s n row m h =
      rw (scalar_name-not_mut s, innermost_pointer s n row, h)
        (ap (λ (t : Ty). ok t m) (add_pointers-star_nodes row (suc n) (scalar_ty s)))

  get_type-suc :
      (f : ℕ) (a : Ast) (m : Mod)
      → get_type L (suc f) a m
        ≡ (type_codegen L (get_type L f) a >>= λ t. pure (wrap_function L t)) m
  unfolding get_type
  get_type-suc f a m = refl

  str-type_ast : (s : Scalar) (n row : ℕ) → str (type_ast s row n) ≡ scalar_name s <> stars L n
  unfolding str
  str-type_ast s zero row = sym (append-nil (scalar_name s))
  str-type_ast s (suc n) row = rw (str_list-star_nodes L row n)

  get_type_name-scalar :
      (s : Scalar) (n row : ℕ)
      → get_type_name L (pointers L n (scalar_ty s)) ≡ str (type_ast s row n)
  get_type_name-scalar s n row =
      rw (get_type_name-pointers L n (scalar_ty s) (is_pointer_ty-scalar s), base_name-scalar s)
        (sym (str-type_ast s n row))

  -- Reading the tree of a scalar type behind any number of stars gives that type and leaves the
  -- module as it is, and the type is printed as the source was written.
  pub get_type-type_ast :
      (s : Scalar) (n row f : ℕ) (m : Mod)
      → 1 < f
      → (get_type L f (type_ast s row n) m ≡ ok (pointers L n (scalar_ty s)) m)
        × (get_type_name L (pointers L n (scalar_ty s)) ≡ str (type_ast s row n))
  get_type-type_ast s n row zero m h = absurd (omega arith)
  get_type-type_ast s n row (suc zero) m h = absurd (omega arith)
  get_type-type_ast s zero row (suc (suc f)) m h =
      (get_type-scalar s row (suc f) m _ (innermost_ident s row), get_type_name-scalar s zero row)
  get_type-type_ast s (suc n) row (suc (suc f)) m h = (
    get_type-suc (suc f) (type_ast s row (suc n)) m
        ∙ rw
            (type_codegen-pointer (get_type L (suc f)) s n row m
              (get_type-scalar s row f m _ (innermost_leaf s row)))
            (ap (λ (t : Ty). ok t m) (wrap_function-scalar s (suc n))),
    get_type_name-scalar s (suc n) row,
  )
