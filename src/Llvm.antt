-- ===== src/Llvm.antt =====
-- What the compiler uses of LLVM (types, the named metadata, the types, functions and globals of a
-- module) as an interface: LLVM is not part of this repository. The laws are what its
-- documentation says of these calls.
use whack.Prelude.{
  ℕ, ◌%◌, ◌^◌, ◌<◌, String, ◌==◌, ◌≡◌, ◌↔◌, Bool, true, false, Option, none, some, List, [], ◌∷◌,
  ◌++◌, if◌then◌else◌, get_or_nil,
}
use whack.StringRef.{StringRef}

-- An operand of a metadata node: a string, the null constant of a type, an offset or a node.
pub data Operand (Ty Md : Type 0) : Type 0 where
  text : String → Operand Ty Md
  null_of : Ty → Operand Ty Md
  offset : ℕ → Operand Ty Md
  node : Md → Operand Ty Md

-- The operands that `createTBAAStructTypeNode` lists after the name of the struct.
abbrev pub flatten_fields : {Ty Md : Type 0} → List (Operand Ty Md × ℕ) → List (Operand Ty Md)
flatten_fields [] = []
flatten_fields ((field, at) ∷ fields) = field ∷ offset at ∷ flatten_fields fields

pub record Llvm : Type 1 where
  -- `llvm::StringRef`
  pub string_ref : StringRef
  -- `llvm::Type`. Types are unique, so the compiler compares them by `==`.
  pub Ty : Type 0
  pub same_ty : Ty → Ty → Bool
  pub same_ty_iff : (s t : Ty) → (same_ty s t ≡ true) ↔ (s ≡ t)
  pub void_ty : Ty
  pub int_ty : ℕ → Ty
  pub half_ty : Ty
  pub float_ty : Ty
  pub double_ty : Ty
  -- the named struct type that stands for `auto`
  pub auto_ty : Ty
  pub pointer_to : Ty → Ty
  pub array_ty : Ty → ℕ → Ty
  pub struct_ty : List Ty → Ty
  pub function_ty : Ty → List Ty → Bool → Ty
  pub is_pointer_ty : Ty → Bool
  pub pointer_element_type : Ty → Ty
  pub is_integer_ty : Ty → Bool
  pub is_floating_point_ty : Ty → Bool
  pub is_struct_ty : Ty → Bool
  pub is_function_ty : Ty → Bool
  pub primitive_size_in_bits : Ty → ℕ
  pub struct_name : Ty → String
  -- how many pointers lead to what is no pointer
  pub pointer_depth : Ty → ℕ
  pub is_pointer_ty-pointer_to : (t : Ty) → is_pointer_ty (pointer_to t) ≡ true
  pub pointer_element_type-pointer_to : (t : Ty) → pointer_element_type (pointer_to t) ≡ t
  pub pointer_depth-lt :
      (t : Ty) → is_pointer_ty t ≡ true → pointer_depth (pointer_element_type t) < pointer_depth t
  pub is_pointer_ty-void_ty : is_pointer_ty void_ty ≡ false
  pub is_pointer_ty-int_ty : (w : ℕ) → is_pointer_ty (int_ty w) ≡ false
  pub is_pointer_ty-half_ty : is_pointer_ty half_ty ≡ false
  pub is_pointer_ty-float_ty : is_pointer_ty float_ty ≡ false
  pub is_pointer_ty-double_ty : is_pointer_ty double_ty ≡ false
  pub is_integer_ty-int_ty : (w : ℕ) → is_integer_ty (int_ty w) ≡ true
  pub is_integer_ty-half_ty : is_integer_ty half_ty ≡ false
  pub is_integer_ty-float_ty : is_integer_ty float_ty ≡ false
  pub is_integer_ty-double_ty : is_integer_ty double_ty ≡ false
  pub same_ty-float_ty : same_ty float_ty double_ty ≡ false
  pub is_floating_point_ty-half_ty : is_floating_point_ty half_ty ≡ true
  pub is_floating_point_ty-float_ty : is_floating_point_ty float_ty ≡ true
  pub is_floating_point_ty-double_ty : is_floating_point_ty double_ty ≡ true
  pub primitive_size_in_bits-int_ty : (w : ℕ) → primitive_size_in_bits (int_ty w) ≡ w
  pub primitive_size_in_bits-half_ty : primitive_size_in_bits half_ty ≡ 16
  pub primitive_size_in_bits-float_ty : primitive_size_in_bits float_ty ≡ 32
  pub primitive_size_in_bits-double_ty : primitive_size_in_bits double_ty ≡ 64
  pub is_function_ty-function_ty :
      (r : Ty) (ps : List Ty) (v : Bool) → is_function_ty (function_ty r ps v) ≡ true
  pub is_pointer_ty-function_ty :
      (r : Ty) (ps : List Ty) (v : Bool) → is_pointer_ty (function_ty r ps v) ≡ false
  pub is_function_ty-int_ty : (w : ℕ) → is_function_ty (int_ty w) ≡ false
  pub is_function_ty-half_ty : is_function_ty half_ty ≡ false
  pub is_function_ty-float_ty : is_function_ty float_ty ≡ false
  pub is_function_ty-double_ty : is_function_ty double_ty ≡ false
  -- `llvm::MDNode` and `llvm::MDBuilder`
  pub Md : Type 0
  pub operands : Md → List (Operand Ty Md)
  pub tbaa_struct_type_node : String → List (Operand Ty Md × ℕ) → Md
  pub tbaa_root : String → Md
  pub alias_scope : String → Operand Ty Md → Md
  pub anonymous_alias_scope : Operand Ty Md → String → Md
  pub operands-tbaa_struct_type_node :
      (name : String) (fields : List (Operand Ty Md × ℕ))
      → operands (tbaa_struct_type_node name fields) ≡ text name ∷ flatten_fields fields
  pub operands-tbaa_root : (name : String) → operands (tbaa_root name) ≡ text name ∷ []
  pub operands-alias_scope :
      (name : String) (domain : Operand Ty Md)
      → operands (alias_scope name domain) ≡ text name ∷ domain ∷ []
  pub operands-anonymous_alias_scope :
      (domain : Operand Ty Md) (name : String)
      → operands (anonymous_alias_scope domain name)
        ≡ node (anonymous_alias_scope domain name) ∷ domain ∷ text name ∷ []
  -- A constant of an integer type, taken modulo its width.
  pub Const : Type 0
  pub const_int : Ty → ℕ → Const
  pub const_value : Const → ℕ
  pub const_value-const_int : (w n : ℕ) → const_value (const_int (int_ty w) n) ≡ n % 2 ^ w
  -- `llvm::Module`, with the context that holds its named types.
  pub Mod : Type 0
  pub module_identifier : Mod → String
  pub get_named_metadata : Mod → String → Option (List Md)
  pub get_type_by_name : Mod → String → Option Ty
  pub has_function : Mod → String → Bool
  pub get_function_type : Mod → String → Option Ty
  pub has_named_value : Mod → String → Bool
  pub get_global : Mod → String → Option (Ty × Const)
  pub get_struct_body : Mod → Ty → List Ty
  pub type_size_in_bits : Mod → Ty → ℕ
  -- `getOrInsertNamedMetadata(key)->addOperand(d)`
  pub add_operand : String → Md → Mod → Mod
  -- `llvm::StructType::create(context, name)`, which renames a name that is taken
  pub create_struct : String → Mod → Ty × Mod
  pub set_body : Ty → List Ty → Mod → Mod
  -- `new llvm::GlobalVariable{module, type, true, ExternalLinkage, value, name}`
  pub add_global : Ty → Const → String → Mod → Mod
  -- `llvm::Function::Create(type, ExternalLinkage, name, module)`
  pub create_function : Ty → String → Mod → Mod
  pub get_named_metadata-add_operand :
      (k j : String) (d : Md) (m : Mod)
      → get_named_metadata (add_operand k d m) j ≡ (
          if k == j
          then some (get_or_nil (get_named_metadata m j) ++ d ∷ [])
          else get_named_metadata m j)
  pub get_named_metadata-create_struct :
      (n j : String) (m : Mod) → get_named_metadata (create_struct n m).1 j ≡ get_named_metadata m j
  pub get_named_metadata-set_body :
      (t : Ty) (ts : List Ty) (m : Mod) (j : String)
      → get_named_metadata (set_body t ts m) j ≡ get_named_metadata m j
  pub get_named_metadata-add_global :
      (t : Ty) (c : Const) (n : String) (m : Mod) (j : String)
      → get_named_metadata (add_global t c n m) j ≡ get_named_metadata m j
  pub get_type_by_name-add_operand :
      (k : String) (d : Md) (m : Mod) (j : String)
      → get_type_by_name (add_operand k d m) j ≡ get_type_by_name m j
  pub get_type_by_name-create_struct :
      (n : String) (m : Mod)
      → get_type_by_name m n ≡ none
      → get_type_by_name (create_struct n m).1 n ≡ some (create_struct n m).0
  pub struct_name-create_struct :
      (n : String) (m : Mod) → get_type_by_name m n ≡ none → struct_name (create_struct n m).0 ≡ n
  pub get_type_by_name-set_body :
      (t : Ty) (ts : List Ty) (m : Mod) (j : String)
      → get_type_by_name (set_body t ts m) j ≡ get_type_by_name m j
  pub get_struct_body-set_body :
      (t : Ty) (ts : List Ty) (m : Mod) → get_struct_body (set_body t ts m) t ≡ ts
  pub get_struct_body-add_operand :
      (k : String) (d : Md) (m : Mod) (t : Ty)
      → get_struct_body (add_operand k d m) t ≡ get_struct_body m t
  pub get_global-add_global :
      (t : Ty) (c : Const) (n j : String) (m : Mod)
      → has_named_value m n ≡ false
      → get_global (add_global t c n m) j ≡ (if n == j then some (t, c) else get_global m j)
  pub has_named_value-add_global :
      (t : Ty) (c : Const) (n j : String) (m : Mod)
      → has_named_value m n ≡ false
      → has_named_value (add_global t c n m) j ≡ (if n == j then true else has_named_value m j)
  pub has_function-add_operand :
      (k : String) (d : Md) (m : Mod) (j : String)
      → has_function (add_operand k d m) j ≡ has_function m j
  pub get_global-add_operand :
      (k : String) (d : Md) (m : Mod) (j : String)
      → get_global (add_operand k d m) j ≡ get_global m j
  pub has_function-add_global :
      (t : Ty) (c : Const) (n : String) (m : Mod) (j : String)
      → has_function (add_global t c n m) j ≡ has_function m j
  pub has_function-create_function :
      (t : Ty) (n j : String) (m : Mod)
      → has_named_value m n ≡ false
      → has_function (create_function t n m) j ≡ (if n == j then true else has_function m j)
  pub get_function_type-create_function :
      (t : Ty) (n : String) (m : Mod)
      → has_named_value m n ≡ false
      → get_function_type (create_function t n m) n ≡ some t
  pub get_named_metadata-create_function :
      (t : Ty) (n j : String) (m : Mod)
      → get_named_metadata (create_function t n m) j ≡ get_named_metadata m j
  pub type_size_in_bits-int_ty : (m : Mod) (w : ℕ) → type_size_in_bits m (int_ty w) ≡ w
