-- ===== src/Tests/Nodes.antt =====
-- Types, and nodes of metadata, as data.
use native.Mathlib.Decide.{ℕ_discrete}
use whack.Prelude.{
  inl, inr, Bool-cases, ℕ, suc, ◌<◌, String, ◌==◌, ◌≡◌, refl, ap, ◌↔◌, Bool, true, false, List, [],
  ◌∷◌, ◌++◌, arith, eq_iff,
}
use whack.Llvm.{Operand, text, null_of, offset, node, flatten_fields}

-- A list of types is a chain of `and_then` to `no_more`.
pub data Ty : Type 0 where
  void_ty : Ty
  int_ty : ℕ → Ty
  half_ty : Ty
  float_ty : Ty
  double_ty : Ty
  auto_ty : Ty
  pointer_to : Ty → Ty
  array_ty : Ty → ℕ → Ty
  struct_of : Ty → Ty
  function_of : Ty → Ty → Bool → Ty
  named_ty : String → Ty
  no_more : Ty
  and_then : Ty → Ty → Ty

abbrev pub text_discrete : Discrete String
text_discrete s t = elim (Bool-cases (s == t)) [
  | inl e ↦ yes ((eq_iff s t).0 e)
  | inr e ↦ no (λ p. ground (arith, e, (eq_iff s t).1 p))
]

abbrev pub Ty_discrete : Discrete Ty
Ty_discrete = hlevel (ℕ_discrete, text_discrete)

abbrev pub is_yes : {A : Type 0} → Dec A → Bool
is_yes (yes a) = true
is_yes (no n) = false

-- With the lemma for it: the answer is `true` exactly for equal types.
abbrev pub same_ty : Ty → Ty → Bool
same_ty s t = is_yes (Ty_discrete s t)

pub is_yes_iff : {A : Type 0} (d : Dec A) → (is_yes d ≡ true) ↔ A
is_yes_iff (yes a) = (λ _. a, λ _. refl)
is_yes_iff (no n) = (cc, λ a. absurd (n a))

abbrev pub chain : List Ty → Ty
chain [] = no_more
chain (t ∷ ts) = and_then t (chain ts)

abbrev pub is_pointer_ty : Ty → Bool
is_pointer_ty (pointer_to t) = true
is_pointer_ty _ = false

abbrev pub is_integer_ty : Ty → Bool
is_integer_ty (int_ty w) = true
is_integer_ty _ = false

abbrev pub is_floating_point_ty : Ty → Bool
is_floating_point_ty half_ty = true
is_floating_point_ty float_ty = true
is_floating_point_ty double_ty = true
is_floating_point_ty _ = false

abbrev pub is_struct_ty : Ty → Bool
is_struct_ty (struct_of t) = true
is_struct_ty (named_ty n) = true
is_struct_ty auto_ty = true
is_struct_ty _ = false

abbrev pub is_function_ty : Ty → Bool
is_function_ty (function_of r ps v) = true
is_function_ty _ = false

abbrev pub pointer_element_type : Ty → Ty
pointer_element_type (pointer_to t) = t
pointer_element_type t = t

abbrev pub struct_name : Ty → String
struct_name (named_ty n) = n
struct_name auto_ty = "auto"
struct_name _ = ""

abbrev pub primitive_size_in_bits : Ty → ℕ
primitive_size_in_bits (int_ty w) = w
primitive_size_in_bits half_ty = 16
primitive_size_in_bits float_ty = 32
primitive_size_in_bits double_ty = 64
primitive_size_in_bits _ = 0

abbrev pub pointer_depth : Ty → ℕ
pointer_depth (pointer_to t) = suc (pointer_depth t)
pointer_depth _ = 0

pub pointer_depth-lt :
    (t : Ty) → is_pointer_ty t ≡ true → pointer_depth (pointer_element_type t) < pointer_depth t
pointer_depth-lt (pointer_to t) h = omega arith
pointer_depth-lt _ h = cc

-- A metadata node. Its fields are a chain, each with what stands behind it.
pub data Md : Type 0 where
  struct_node : String → Md → Md
  root : String → Md
  scope : String → Md → Md
  anonymous : Md → String → Md
  end : Md
  text_field : String → ℕ → Md → Md
  null_field : Ty → ℕ → Md → Md
  offset_field : ℕ → ℕ → Md → Md
  node_field : Md → ℕ → Md → Md

abbrev pub Op : Type 0
Op = Operand Ty Md

abbrev pub encode : List (Op × ℕ) → Md
encode [] = end
encode ((text s, i) ∷ l) = text_field s i (encode l)
encode ((null_of t, i) ∷ l) = null_field t i (encode l)
encode ((offset n, i) ∷ l) = offset_field n i (encode l)
encode ((node d, i) ∷ l) = node_field d i (encode l)

abbrev pub decode : Md → List (Op × ℕ)
decode (text_field s i d) = (text s, i) ∷ decode d
decode (null_field t i d) = (null_of t, i) ∷ decode d
decode (offset_field n i d) = (offset n, i) ∷ decode d
decode (node_field c i d) = (node c, i) ∷ decode d
decode _ = []

pub decode-encode : (l : List (Op × ℕ)) → decode (encode l) ≡ l
decode-encode [] = refl
decode-encode ((text s, i) ∷ l) = ap (λ k. (text s, i) ∷ k) (decode-encode l)
decode-encode ((null_of t, i) ∷ l) = ap (λ k. (null_of t, i) ∷ k) (decode-encode l)
decode-encode ((offset n, i) ∷ l) = ap (λ k. (offset n, i) ∷ k) (decode-encode l)
decode-encode ((node d, i) ∷ l) = ap (λ k. (node d, i) ∷ k) (decode-encode l)

abbrev pub firsts : List (Op × ℕ) → List Op
firsts [] = []
firsts ((x, i) ∷ l) = x ∷ firsts l

abbrev pub one : Op → Md
one x = encode ((x, 0) ∷ [])

pub firsts-one : (x : Op) → firsts (decode (one x)) ≡ x ∷ []
firsts-one (text s) = refl
firsts-one (null_of t) = refl
firsts-one (offset n) = refl
firsts-one (node d) = refl

abbrev pub operands : Md → List Op
operands (struct_node name d) = text name ∷ flatten_fields (decode d)
operands (root name) = text name ∷ []
operands (scope name d) = text name ∷ firsts (decode d)
operands (anonymous d name) = node (anonymous d name) ∷ firsts (decode d) ++ text name ∷ []
operands _ = []
