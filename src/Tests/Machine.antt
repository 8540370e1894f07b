-- ===== src/Tests/Machine.antt =====
-- A machine that keeps the interface to LLVM: a module is the tables that the compiler reads.
use whack.Prelude.{
  ℕ, ◌%◌, ◌^◌, String, ◌==◌, refl, ap, Bool, true, false, Option, none, some, List, [], ◌∷◌, ◌++◌,
  if◌then◌else◌, arith, eq_refl, get_or_nil,
}
use whack.Llvm.{Llvm, text, node, flatten_fields}
use whack.Tests.Texts.{string_ref}
use whack.Tests.Nodes.{
  Ty, Md, Ty_discrete, same_ty, is_yes_iff, chain, is_pointer_ty, is_integer_ty,
  is_floating_point_ty, is_struct_ty, is_function_ty, pointer_element_type, struct_name,
  primitive_size_in_bits, pointer_depth, pointer_depth-lt, encode, decode-encode, one, firsts-one,
  operands, void_ty, int_ty, half_ty, float_ty, double_ty, auto_ty, pointer_to, array_ty, struct_of,
  function_of, named_ty, struct_node, root, scope, anonymous,
}

-- A module: what it answers to each question.
pub record Mod : Type 0 where
  pub metadata : String → Option (List Md)
  pub types : String → Option Ty
  pub functions : String → Option Ty
  pub globals : String → Option (Ty × ℕ)
  pub bodies : Ty → List Ty

abbrev is_some : {A : Type 0} → Option A → Bool
is_some none = false
is_some (some a) = true

abbrev has_named_value : Mod → String → Bool
has_named_value m n = if is_some (m.globals n) then true else is_some (m.functions n)

abbrev pub empty_mod : Mod
empty_mod = record {
  metadata = λ k. none;
  types = λ n. none;
  functions = λ n. none;
  globals = λ n. none;
  bodies = λ t. [];
}

abbrev add_operand : String → Md → Mod → Mod
add_operand k d m = record m {
  metadata = λ j. if k == j then some (get_or_nil (m.metadata j) ++ d ∷ []) else m.metadata j;
}

abbrev create_struct : String → Mod → Ty × Mod
create_struct n m =
    (named_ty n, record m { types = λ j. if n == j then some (named_ty n) else m.types j })

abbrev set_body : Ty → List Ty → Mod → Mod
set_body t ts m = record m { bodies = λ u. if same_ty t u then ts else m.bodies u }

abbrev add_global : Ty → ℕ → String → Mod → Mod
add_global t c n m = record m { globals = λ j. if n == j then some (t, c) else m.globals j }

abbrev create_function : Ty → String → Mod → Mod
create_function t n m = record m { functions = λ j. if n == j then some t else m.functions j }

abbrev pub machine : Llvm
machine = record {
  string_ref = string_ref;
  Ty = Ty;
  same_ty = same_ty;
  same_ty_iff = λ s t. is_yes_iff (Ty_discrete s t);
  void_ty = void_ty;
  int_ty = int_ty;
  half_ty = half_ty;
  float_ty = float_ty;
  double_ty = double_ty;
  auto_ty = auto_ty;
  pointer_to = pointer_to;
  array_ty = array_ty;
  struct_ty = λ ts. struct_of (chain ts);
  function_ty = λ r ps v. function_of r (chain ps) v;
  is_pointer_ty = is_pointer_ty;
  pointer_element_type = pointer_element_type;
  is_integer_ty = is_integer_ty;
  is_floating_point_ty = is_floating_point_ty;
  is_struct_ty = is_struct_ty;
  is_function_ty = is_function_ty;
  primitive_size_in_bits = primitive_size_in_bits;
  struct_name = struct_name;
  pointer_depth = pointer_depth;
  is_pointer_ty-pointer_to = λ t. refl;
  pointer_element_type-pointer_to = λ t. refl;
  pointer_depth-lt = pointer_depth-lt;
  is_pointer_ty-void_ty = refl;
  is_pointer_ty-int_ty = λ w. refl;
  is_pointer_ty-half_ty = refl;
  is_pointer_ty-float_ty = refl;
  is_pointer_ty-double_ty = refl;
  is_integer_ty-int_ty = λ w. refl;
  is_integer_ty-half_ty = refl;
  is_integer_ty-float_ty = refl;
  is_integer_ty-double_ty = refl;
  same_ty-float_ty = refl;
  is_floating_point_ty-half_ty = refl;
  is_floating_point_ty-float_ty = refl;
  is_floating_point_ty-double_ty = refl;
  primitive_size_in_bits-int_ty = λ w. refl;
  primitive_size_in_bits-half_ty = refl;
  primitive_size_in_bits-float_ty = refl;
  primitive_size_in_bits-double_ty = refl;
  is_function_ty-function_ty = λ r ps v. refl;
  is_pointer_ty-function_ty = λ r ps v. refl;
  is_function_ty-int_ty = λ w. refl;
  is_function_ty-half_ty = refl;
  is_function_ty-float_ty = refl;
  is_function_ty-double_ty = refl;
  Md = Md;
  operands = operands;
  tbaa_struct_type_node = λ name fields. struct_node name (encode fields);
  tbaa_root = root;
  alias_scope = λ name d. scope name (one d);
  anonymous_alias_scope = λ d name. anonymous (one d) name;
  operands-tbaa_struct_type_node =
      λ name fields. ap (λ l. text name ∷ flatten_fields l) (decode-encode fields);
  operands-tbaa_root = λ name. refl;
  operands-alias_scope = λ name d. ap (λ l. text name ∷ l) (firsts-one d);
  operands-anonymous_alias_scope =
      λ d name. ap (λ l. node (anonymous (one d) name) ∷ l ++ text name ∷ []) (firsts-one d);
  Const = ℕ;
  const_int = λ t n. n % 2 ^ primitive_size_in_bits t;
  const_value = λ c. c;
  const_value-const_int = λ w n. refl;
  Mod = Mod;
  module_identifier = λ m. "main";
  get_named_metadata = λ m k. m.metadata k;
  get_type_by_name = λ m n. m.types n;
  has_function = λ m n. is_some (m.functions n);
  get_function_type = λ m n. m.functions n;
  has_named_value = has_named_value;
  get_global = λ m n. m.globals n;
  get_struct_body = λ m t. m.bodies t;
  type_size_in_bits = λ m t. primitive_size_in_bits t;
  add_operand = add_operand;
  create_struct = create_struct;
  set_body = set_body;
  add_global = add_global;
  create_function = create_function;
  get_named_metadata-add_operand = λ k j d m. refl;
  get_named_metadata-create_struct = λ n j m. refl;
  get_named_metadata-set_body = λ t ts m j. refl;
  get_named_metadata-add_global = λ t c n m j. refl;
  get_type_by_name-add_operand = λ k d m j. refl;
  get_type_by_name-create_struct = λ n m absent. rw eq_refl;
  struct_name-create_struct = λ n m absent. refl;
  get_type_by_name-set_body = λ t ts m j. refl;
  get_struct_body-set_body = λ t ts m. rw ((is_yes_iff (Ty_discrete t t)).1 refl);
  get_struct_body-add_operand = λ k d m t. refl;
  get_global-add_global = λ t c n j m absent. refl;
  has_named_value-add_global = λ t c n j m absent. ground arith;
  has_function-add_operand = λ k d m j. refl;
  get_global-add_operand = λ k d m j. refl;
  has_function-add_global = λ t c n m j. refl;
  has_function-create_function = λ t n j m absent. ground arith;
  get_function_type-create_function = λ t n m absent. rw eq_refl;
  get_named_metadata-create_function = λ t n j m. refl;
  type_size_in_bits-int_ty = λ m w. refl;
}
