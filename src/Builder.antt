-- ===== src/Builder.antt =====
-- `llvm::IRBuilder`, and the function that it fills, as an interface: LLVM is not part of this
-- repository. The laws are what its documentation says of these calls.
use whack.Prelude.{
  ◌↔◌, ℕ, String, ◌≡◌, ◌&&◌, Bool, true, false, Option, none, some, List, [], ◌∷◌, ◌++◌,
  if◌then◌else◌, contains,
}
use whack.Outcome.{Exec, ok, failed, fault, out_of_fuel, bind, pure}
use whack.Llvm.{Llvm}

-- The functions of `OpsTable`.
pub data BinaryOp : Type 0 where
  build_and build_or build_nsw_add build_f_add build_nsw_sub build_f_sub build_xor build_f_rem
        build_s_div build_f_div build_nsw_mul build_f_mul build_a_shr build_shl build_add :
      BinaryOp

-- `llvm::CmpInst::Predicate`
pub data Predicate : Type 0 where
  icmp_sgt icmp_slt icmp_sge icmp_eq icmp_ne icmp_sle fcmp_ogt fcmp_olt fcmp_oge fcmp_oeq fcmp_one
        fcmp_ole fcmp_false :
      Predicate

-- The conversions `builder.Create…(value, type)`.
pub data Conversion : Type 0 where
  si_to_fp z_ext_or_trunc fp_to_si fp_trunc fp_ext bit_or_pointer_cast : Conversion

-- The calls `builder.Create…`.
pub data Instr (Ty Val Block : Type 0) : Type 0 where
  binary : BinaryOp → Val → Val → Instr Ty Val Block
  compare : Predicate → Val → Val → Instr Ty Val Block
  not_of : Val → Instr Ty Val Block
  select : Val → Val → Val → Instr Ty Val Block
  load : Val → Instr Ty Val Block
  store : Val → Val → Instr Ty Val Block
  alloca : Ty → String → Instr Ty Val Block
  call : Val → List Val → Instr Ty Val Block
  extract_value extract_element : Val → ℕ → Instr Ty Val Block
  struct_gep : Ty → Val → ℕ → String → Instr Ty Val Block
  in_bounds_gep : Val → List Val → Instr Ty Val Block
  gep : Val → Val → Instr Ty Val Block
  bit_cast : Val → Ty → Instr Ty Val Block
  free : Val → Instr Ty Val Block
  -- `CallInst::CreateMalloc` of as many values of the type
  malloc : Ty → Val → Instr Ty Val Block
  convert : Conversion → Val → Ty → Instr Ty Val Block
  global_string : String → Instr Ty Val Block
  switch : Val → Block → Instr Ty Val Block
  br : Block → Instr Ty Val Block
  cond_br : Val → Block → Block → Instr Ty Val Block
  ret : Val → Instr Ty Val Block
  ret_void : Instr Ty Val Block
  aggregate_ret : List Val → Instr Ty Val Block
  unreachable : Instr Ty Val Block

abbrev pub is_terminator : {Ty Val Block : Type 0} → Instr Ty Val Block → Bool
is_terminator (br b) = true
is_terminator (cond_br c b d) = true
is_terminator (ret v) = true
is_terminator ret_void = true
is_terminator (aggregate_ret vs) = true
is_terminator (switch v b) = true
is_terminator unreachable = true
is_terminator _ = false

abbrev pub is_some : {A : Type 0} → Option A → Bool
is_some none = false
is_some (some a) = true

-- The types on which LLVM defines an operator, a comparison of two operands of one type, and a
-- conversion; of an instruction on other operands no law says anything.
module _ (L : Llvm) where
  open L use {Ty, same_ty, is_integer_ty, is_floating_point_ty, float_ty, double_ty}

  abbrev pub takes : BinaryOp → Ty → Bool
  takes build_f_add t = is_floating_point_ty t
  takes build_f_sub t = is_floating_point_ty t
  takes build_f_mul t = is_floating_point_ty t
  takes build_f_div t = is_floating_point_ty t
  takes build_f_rem t = is_floating_point_ty t
  takes op t = is_integer_ty t

  abbrev pub is_integer_cmp : Predicate → Bool
  is_integer_cmp icmp_sgt = true
  is_integer_cmp icmp_slt = true
  is_integer_cmp icmp_sge = true
  is_integer_cmp icmp_eq = true
  is_integer_cmp icmp_ne = true
  is_integer_cmp icmp_sle = true
  is_integer_cmp _ = false

  abbrev pub compares : Predicate → Ty → Bool
  compares p t = if is_integer_cmp p then is_integer_ty t else is_floating_point_ty t

  abbrev pub converts : Conversion → Ty → Ty → Bool
  converts si_to_fp t u = is_integer_ty t && is_floating_point_ty u
  converts z_ext_or_trunc t u = is_integer_ty t && is_integer_ty u
  converts fp_to_si t u = is_floating_point_ty t && is_integer_ty u
  converts fp_trunc t u = same_ty t double_ty && same_ty u float_ty
  converts fp_ext t u = same_ty t float_ty && same_ty u double_ty
  converts bit_or_pointer_cast t u = false

pub record Builder : Type 1 where
  pub llvm : Llvm
  -- `llvm::Value`; a value has one type.
  pub Val : Type 0
  pub type_of : Val → Llvm.Ty llvm
  pub is_alloca : Val → Bool
  pub is_gep : Val → Bool
  pub const_int : Llvm.Ty llvm → ℕ → Val
  -- whether `assert` is compiled in, as it is unless `NDEBUG` is defined
  pub asserts : Bool
  -- `ConstantFP::get(type, text)`
  pub const_fp : Llvm.Ty llvm → String → Val
  -- `ConstantFP::get(type, 1.0)`
  pub const_fp_one : Llvm.Ty llvm → Val
  pub null_value : Llvm.Ty llvm → Val
  -- `ConstantArray::get(type, values)`, `ConstantVector::get(values)`, `ConstantStruct::getAnon(values)`
  pub const_array : Llvm.Ty llvm → List Val → Val
  pub const_vector : List Val → Val
  pub const_struct : List Val → Val
  pub is_constant : Val → Bool
  pub is_constant_int : Val → Bool
  pub same_val : Val → Val → Bool
  pub same_val_iff : (v w : Val) → (same_val v w ≡ true) ↔ (v ≡ w)
  -- `std::atoi`, as a word of 64 bits
  pub atoi : String → ℕ
  pub is_array_ty : Llvm.Ty llvm → Bool
  pub is_vector_ty : Llvm.Ty llvm → Bool
  -- how many elements an array or a vector has
  pub num_elements : Llvm.Ty llvm → ℕ
  -- the type of the elements of an array or a vector
  pub element_type : Llvm.Ty llvm → Llvm.Ty llvm
  pub struct_elements : Llvm.Ty llvm → List (Llvm.Ty llvm)
  -- what a function returns
  pub return_type : Val → Llvm.Ty llvm
  -- `llvm::isa<llvm::Function>(value)`
  pub is_function : Val → Bool
  -- the parameters of a function type, and whether more arguments may follow them
  pub param_types : Llvm.Ty llvm → List (Llvm.Ty llvm)
  pub is_var_arg : Llvm.Ty llvm → Bool
  -- `llvm::BasicBlock`
  pub Block : Type 0
  pub same_block : Block → Block → Bool
  -- the builder with the function that it fills and the module of that function
  pub Ir : Type 0
  pub get_module : Ir → Llvm.Mod llvm
  pub with_module : Llvm.Mod llvm → Ir → Ir
  -- `module->getFunction(name)`
  pub get_function : Ir → String → Option Val
  pub get_global_variable : Ir → String → Option Val
  pub function_name : Ir → String
  -- `getValueSymbolTable()->lookup(name)` and `value->setName(name)`
  pub lookup : Ir → String → Option Val
  pub symbols : Ir → List String
  pub contains-symbols : (s : Ir) (n : String) → contains (symbols s) n ≡ is_some (lookup s n)
  pub set_name : Val → String → Ir → Ir
  pub get_name : Ir → Val → String
  -- the first parameter of the function, if it has one
  pub first_arg : Ir → Option Val
  -- `type->isSized()`
  pub is_sized : Llvm.Ty llvm → Bool
  -- `StructType::create(context)`, and `type->setName(name)` with the name that the type gets, which
  -- is another one where a type has the name
  pub create_unnamed : Llvm.Mod llvm → Llvm.Ty llvm × Llvm.Mod llvm
  pub name_struct : Llvm.Ty llvm → String → Llvm.Mod llvm → String × Llvm.Mod llvm
  -- a function of this type and name without blocks, added to the module
  pub start_function : Llvm.Ty llvm → String → Llvm.Mod llvm → Ir
  pub current_return_type : Ir → Llvm.Ty llvm
  -- `func->arg_begin()[i].setName(name)` and `func->addParamAttr(i, ReadOnly)`
  pub set_arg_name : ℕ → String → Ir → Ir
  pub add_read_only : ℕ → Ir → Ir
  -- `func->addParamAttr(i, Nest)`
  pub add_nest : ℕ → Ir → Ir
  -- `func->hasParamAttribute(0, Nest)` and `func->addParamAttr(0, Nest)`
  pub has_nest : Ir → Val → Bool
  pub nest_first : Val → Ir → Ir
  -- `module->getOrInsertFunction(name, type)`
  pub get_or_insert_function : String → Llvm.Ty llvm → Ir → Val × Ir
  -- The function becomes one of the same name, parameters, attributes and blocks that returns
  -- another type.
  pub with_return_type : Llvm.Ty llvm → Ir → Ir
  -- `builder.Create…`, at the insertion point
  pub emit : Instr (Llvm.Ty llvm) Val Block → Ir → Val × Ir
  pub insert_block : Ir → Block
  pub set_insert_point : Block → Ir → Ir
  -- `CallInst::CreateFree(value, &block->back())`
  pub free_before_back : Val → Block → Ir → Ir
  -- `builder.SetInsertPoint(&block->back())`
  pub set_insert_before_back : Ir → Ir
  -- `func->addFnAttr(kind)`, by the word of the language for the attribute
  pub add_fn_attr : String → Ir → Ir
  -- `BasicBlock::Create(context, name)` and `func->getBasicBlockList().push_back(block)`
  pub create_block : String → Ir → Block × Ir
  pub append_block : Block → Ir → Ir
  -- `switcher->addCase(value, block)` of the value of a `switch`
  pub add_case : Val → Val → Block → Ir → Ir
  -- `block->eraseFromParent()`
  pub erase_block : Block → Ir → Ir
  -- the insertion point of the first state in the second
  pub restore_insert_point : Ir → Ir → Ir
  -- `module->getOrInsertGlobal(name, type)`
  pub get_or_insert_global : String → Llvm.Ty llvm → Ir → Val × Ir
  -- `block->moveAfter(other)`, `block->moveBefore(other)`
  pub move_after : Block → Block → Ir → Ir
  pub move_before : Block → Block → Ir → Ir
  -- the blocks of the function, the edges between them, and the instructions of a block
  pub blocks : Ir → List Block
  pub block_name : Block → String
  pub predecessors : Ir → Block → List Block
  pub single_predecessor : Ir → Block → Option Block
  pub successors : Ir → Block → List Block
  pub code : Ir → Block → List (Instr (Llvm.Ty llvm) Val Block)
  pub blocks-emit : (i : Instr (Llvm.Ty llvm) Val Block) (s : Ir) → blocks (emit i s).1 ≡ blocks s
  pub get_named_metadata-emit :
      (i : Instr (Llvm.Ty llvm) Val Block) (s : Ir) (key : String)
      → Llvm.get_named_metadata llvm (get_module (emit i s).1) key
        ≡ Llvm.get_named_metadata llvm (get_module s) key
  pub blocks-set_insert_point : (b : Block) (s : Ir) → blocks (set_insert_point b s) ≡ blocks s
  pub code-emit :
      (i : Instr (Llvm.Ty llvm) Val Block) (b : Block) (s : Ir)
      → is_terminator i ≡ true
      → code (emit i (set_insert_point b s)).1 b ≡ code s b ++ i ∷ []
  pub code-set_insert_point : (b c : Block) (s : Ir) → code (set_insert_point b s) c ≡ code s c
  pub code-move_after : (a b c : Block) (s : Ir) → code (move_after a b s) c ≡ code s c
  pub insert_block-set_insert_point : (b : Block) (s : Ir) → insert_block (set_insert_point b s) ≡ b
  -- What a value holds in a run that reaches it. `apply` is what the instruction computes.
  pub Word : Type 0
  pub apply : BinaryOp → Word → Word → Word
  pub choose : Word → Word → Word → Word
  pub negate : Word → Word
  pub meaning : Val → Word
  pub meaning-binary :
      (op : BinaryOp) (a b : Val) (s : Ir)
      → type_of a ≡ type_of b
      → takes llvm op (type_of a) ≡ true
      → meaning (emit (binary op a b) s).0 ≡ apply op (meaning a) (meaning b)
  pub meaning-select :
      (c a b : Val) (s : Ir)
      → meaning (emit (select c a b) s).0 ≡ choose (meaning c) (meaning a) (meaning b)
  pub meaning-not_of : (a : Val) (s : Ir) → meaning (emit (not_of a) s).0 ≡ negate (meaning a)
  pub type_of-binary :
      (op : BinaryOp) (a b : Val) (s : Ir)
      → type_of a ≡ type_of b
      → takes llvm op (type_of a) ≡ true
      → type_of (emit (binary op a b) s).0 ≡ type_of a
  pub type_of-compare :
      (p : Predicate) (a b : Val) (s : Ir)
      → type_of a ≡ type_of b
      → compares llvm p (type_of a) ≡ true
      → type_of (emit (compare p a b) s).0 ≡ Llvm.int_ty llvm 1
  pub type_of-not_of : (a : Val) (s : Ir) → type_of (emit (not_of a) s).0 ≡ type_of a
  pub type_of-select : (c a b : Val) (s : Ir) → type_of (emit (select c a b) s).0 ≡ type_of a
  pub type_of-alloca :
      (t : Llvm.Ty llvm) (n : String) (s : Ir)
      → type_of (emit (alloca t n) s).0 ≡ Llvm.pointer_to llvm t
  pub type_of-convert :
      (c : Conversion) (v : Val) (t : Llvm.Ty llvm) (s : Ir)
      → converts llvm c (type_of v) t ≡ true
      → type_of (emit (convert c v t) s).0 ≡ t
  pub type_of-const_int : (t : Llvm.Ty llvm) (n : ℕ) → type_of (const_int t n) ≡ t
  pub is_alloca-binary :
      (op : BinaryOp) (a b : Val) (s : Ir) → is_alloca (emit (binary op a b) s).0 ≡ false
  pub is_alloca-const_int : (t : Llvm.Ty llvm) (n : ℕ) → is_alloca (const_int t n) ≡ false

module _ (B : Builder) where
  open B use {llvm, Val, Block, Ir, emit}
  open llvm use {Ty}

  -- `builder.Create…(…)`
  abbrev pub build : Instr Ty Val Block → Exec Ir Val
  build i s = ok (emit i s).0 (emit i s).1

  -- A value that has to be read from memory where it is a variable.
  abbrev pub loaded : Val → Exec Ir Val
  loaded v = if B.is_alloca v then build (load v) else pure v

  abbrev pub effect : (Ir → Ir) → Exec Ir (Unit {0})
  effect f s = ok tt (f s)

  -- An operation on the module of the function.
  unfoldable pub on_module : {A : Type 0} → Exec (Llvm.Mod llvm) A → Exec Ir A
  on_module p s = elim (p (B.get_module s)) [
    | ok a m ↦ ok a (B.with_module m s)
    | failed e m ↦ failed e (B.with_module m s)
    | fault ↦ fault
    | out_of_fuel ↦ out_of_fuel
  ]

  -- `SCOPE_EXIT`: the second part runs however the first ends.
  unfoldable pub finally : {A : Type 0} → Exec Ir A → Exec Ir (Unit {0}) → Exec Ir A
  finally p cleanup s = elim (p s) [
    | ok a t ↦ bind (cleanup t) (λ _. pure a)
    | failed e t ↦ bind (cleanup t) (λ _ u. failed e u)
    | fault ↦ fault
    | out_of_fuel ↦ out_of_fuel
  ]

  -- `block->back()`; an empty block has none.
  abbrev pub last : List (Instr Ty Val Block) → Option (Instr Ty Val Block)
  last [] = none
  last (i ∷ []) = some i
  last (i ∷ j ∷ l) = last (j ∷ l)

  unfoldable pub back : Ir → Block → Option (Instr Ty Val Block)
  back s b = last (B.code s b)
