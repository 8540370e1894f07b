-- ===== src/Tests/Build.antt =====
-- A builder that keeps the interface to the builder of LLVM: it lists what is built, and a value is
-- its type and the number that it holds.
use native.Mathlib.Decide.{ℕ_discrete}
use whack.Prelude.{
  ℕ, suc, ◌+◌, ◌-◌, ◌*◌, ◌≡◌, refl, ap, ◌↔◌, String, ◌==◌, Bool, true, false, Option, none, some,
  List, [], ◌∷◌, ◌++◌, if◌then◌else◌, eqb, contains, arith,
}
use whack.Builder.{
  Builder, Instr, BinaryOp, binary, compare, not_of, select, load, alloca, br, cond_br, ret,
  ret_void, aggregate_ret, unreachable, switch, convert, build_nsw_add, build_nsw_sub, build_s_div,
  build_nsw_mul, is_some, is_terminator,
}
use whack.Tests.Nodes.{
  Ty, int_ty, void_ty, pointer_to, array_ty, Ty_discrete, is_yes, is_yes_iff, pointer_element_type,
  function_of, and_then,
}
use whack.Types.Codegen.{read_digits}
use whack.Tests.Machine.{Mod, machine}

pub record Val : Type 0 where
  pub ty : Ty
  pub word : ℕ
  pub in_memory : Bool

pub record Block : Type 0 where
  pub number : ℕ
  pub name : String

abbrev pub Step : Type 0
Step = Instr Ty Val Block

pub record Ir : Type 0 where
  pub mod_ : Mod
  pub name : String
  pub returns : Ty
  pub variables : List (String × Val)
  pub functions : List (String × Val)
  pub blocks : List Block
  pub made : ℕ
  pub at : Block
  pub code : ℕ → List Step

abbrev pub find : List (String × Val) → String → Option Val
find [] n = none
find ((m, v) ∷ l) n = if m == n then some v else find l n

-- The name of a value: the number 1001 stands for the expansion.
abbrev name_of : Val → String
name_of v = if eqb v.word 1001 then "::expansion" else ""

abbrev pub names : List (String × Val) → List String
names [] = []
names ((m, v) ∷ l) = m ∷ names l

pub contains-names :
    (l : List (String × Val)) (n : String) → contains (names l) n ≡ is_some (find l n)
contains-names [] n = refl
contains-names ((m, v) ∷ l) n = ground (arith, contains-names l n)

abbrev apply : BinaryOp → ℕ → ℕ → ℕ
apply build_nsw_add a b = a + b
apply build_nsw_sub a b = a - b
apply build_nsw_mul a b = a * b
apply build_s_div a b = a
apply _ a b = a + b

abbrev unchain : Ty → List Ty
unchain (and_then t ts) = t ∷ unchain ts
unchain _ = []

abbrev pub of_ty : Ty → ℕ → Val
of_ty t w = record { ty = t; word = w; in_memory = false }

abbrev pub result : Step → Val
result (binary op a b) = of_ty a.ty (apply op a.word b.word)
result (compare p a b) = of_ty (int_ty 1) 0
result (not_of a) = of_ty a.ty (1 - a.word)
result (select c a b) = of_ty a.ty (c.word + a.word + b.word)
result (load p) = of_ty (pointer_element_type p.ty) p.word
result (alloca t n) = record { ty = pointer_to t; word = 0; in_memory = true }
result (convert c v t) = of_ty t v.word
result _ = of_ty void_ty 0

abbrev pub remember : Step → Val → Ir → Ir
remember (alloca t n) v s = record s { variables = (n, v) ∷ s.variables }
remember _ v s = s

-- The instruction at the end of the block that is filled.
abbrev pub append_step : Step → Ir → Ir
append_step i s = record s {
  code = λ n. if eqb n s.at.number then s.code n ++ i ∷ [] else s.code n;
}

abbrev pub emit : Step → Ir → Val × Ir
emit i s = (result i, remember i (result i) (append_step i s))

abbrev targets : List Step → List Block
targets [] = []
targets (br b ∷ l) = b ∷ targets l
targets (cond_br c b d ∷ l) = b ∷ d ∷ targets l
targets (switch v b ∷ l) = b ∷ targets l
targets (_ ∷ l) = targets l

abbrev same_block : Block → Block → Bool
same_block b c = eqb b.number c.number

abbrev goes_to : Block → List Block → Bool
goes_to b [] = false
goes_to b (c ∷ l) = if same_block c b then true else goes_to b l

abbrev predecessors_in : Ir → Block → List Block → List Block
predecessors_in s b [] = []
predecessors_in s b (c ∷ l) =
    let rest = predecessors_in s b l in
    if goes_to b (targets (s.code c.number)) then c ∷ rest else rest

abbrev single : List Block → Option Block
single (b ∷ []) = some b
single _ = none

abbrev pub start : Ty → String → Mod → Ir
start t n m = record {
  mod_ = machine.create_function t n m;
  name = n;
  returns = elim t as (λ x. Ty) [ function_of r ps v ↦ r | _ ↦ void_ty ];
  variables = [];
  functions = [];
  blocks = [];
  made = 0;
  at = record { number = 0; name = "" };
  code = λ n. [];
}

pub blocks-remember : (i : Step) (v : Val) (s : Ir) → (remember i v s).blocks ≡ s.blocks
blocks-remember (alloca t n) v s = refl
blocks-remember _ v s = refl

pub mod_-remember : (i : Step) (v : Val) (s : Ir) → (remember i v s).mod_ ≡ s.mod_
mod_-remember (alloca t n) v s = refl
mod_-remember _ v s = refl

eqb_refl : (n : ℕ) → eqb n n ≡ true
eqb_refl n = ground arith

pub code-emit :
    (i : Step) (b : Block) (s : Ir)
    → is_terminator i ≡ true
    → (emit i (record s { at = b })).1.code b.number ≡ s.code b.number ++ i ∷ []
code-emit (br c) b s h = rw (eqb_refl b.number)
code-emit (cond_br c d e) b s h = rw (eqb_refl b.number)
code-emit (ret v) b s h = rw (eqb_refl b.number)
code-emit ret_void b s h = rw (eqb_refl b.number)
code-emit (aggregate_ret vs) b s h = rw (eqb_refl b.number)
code-emit unreachable b s h = rw (eqb_refl b.number)
code-emit (switch v c) b s h = rw (eqb_refl b.number)
code-emit (binary op x y) b s h = cc
code-emit _ b s h = cc

abbrev Bool_discrete : Discrete Bool
Bool_discrete = hlevel

abbrev Val_discrete : Discrete Val
Val_discrete u v = elim (Ty_discrete u.ty v.ty) [
  | no n ↦ no (λ p. n (ap (λ w. w.ty) p))
  | yes e ↦ elim (ℕ_discrete u.word v.word) [
    | no n ↦ no (λ p. n (ap (λ w. w.word) p))
    | yes d ↦ elim (Bool_discrete u.in_memory v.in_memory) [
      | no n ↦ no (λ p. n (ap (λ w. w.in_memory) p))
      | yes c ↦ yes (λ i. record { ty = e i; word = d i; in_memory = c i })
    ]
  ]
]

abbrev pub same_val : Val → Val → Bool
same_val v w = is_yes (Val_discrete v w)

pub same_val_iff : (v w : Val) → (same_val v w ≡ true) ↔ (v ≡ w)
same_val_iff v w = is_yes_iff (Val_discrete v w)

abbrev pub builder : Builder
builder = record {
  llvm = machine;
  Val = Val;
  type_of = λ v. v.ty;
  is_alloca = λ v. v.in_memory;
  is_gep = λ v. false;
  const_int = λ t n. of_ty t n;
  asserts = true;
  const_fp = λ t n. of_ty t 0;
  const_fp_one = λ t. of_ty t 1;
  null_value = λ t. of_ty t 0;
  const_array = λ t vs. of_ty t 0;
  const_vector = λ vs. of_ty void_ty 0;
  const_struct = λ vs. of_ty void_ty 0;
  is_constant = λ v. if v.in_memory then false else true;
  is_constant_int = λ v. if v.in_memory then false else true;
  same_val = same_val;
  same_val_iff = same_val_iff;
  atoi = read_digits 0;
  is_array_ty = λ t. elim t as (λ x. Bool) [ array_ty u n ↦ true | _ ↦ false ];
  is_vector_ty = λ t. false;
  num_elements = λ t. elim t as (λ x. ℕ) [ array_ty u n ↦ n | _ ↦ 0 ];
  element_type = λ t. elim t as (λ x. Ty) [ array_ty u n ↦ u | _ ↦ void_ty ];
  struct_elements = λ t. [];
  return_type = λ f. void_ty;
  is_function = λ v. elim v.ty as (λ x. Bool) [ pointer_to t ↦ true | _ ↦ false ];
  param_types = λ t. elim t as (λ x. List Ty) [ function_of r ps v ↦ unchain ps | _ ↦ [] ];
  is_var_arg = λ t. elim t as (λ x. Bool) [ function_of r ps v ↦ v | _ ↦ false ];
  Block = Block;
  same_block = same_block;
  Ir = Ir;
  get_module = λ s. s.mod_;
  with_module = λ m s. record s { mod_ = m };
  get_function = λ s n. find s.functions n;
  get_global_variable = λ s n. none;
  function_name = λ s. s.name;
  lookup = λ s n. find s.variables n;
  symbols = λ s. names s.variables;
  contains-symbols = λ s n. contains-names s.variables n;
  set_name = λ v n s. record s { variables = (n, v) ∷ s.variables };
  get_name = λ s v. name_of v;
  first_arg = λ s. none;
  is_sized = λ t. true;
  create_unnamed = λ m. machine.create_struct "" m;
  name_struct = λ t n m. (n, m);
  start_function = start;
  current_return_type = λ s. s.returns;
  set_arg_name = λ i n s. record s { variables = (n, of_ty (int_ty 32) i) ∷ s.variables };
  add_read_only = λ i s. s;
  add_nest = λ i s. s;
  has_nest = λ s v. false;
  nest_first = λ v s. s;
  get_or_insert_function = λ n t s. (of_ty (pointer_to t) 0, s);
  with_return_type = λ t s. record s { returns = t };
  emit = emit;
  insert_block = λ s. s.at;
  set_insert_point = λ b s. record s { at = b };
  free_before_back = λ v b s. s;
  set_insert_before_back = λ s. s;
  add_fn_attr = λ n s. s;
  create_block = λ n s. (record { number = s.made; name = n }, record s { made = suc s.made });
  append_block = λ b s. record s { blocks = s.blocks ++ b ∷ [] };
  add_case = λ w v b s. s;
  erase_block = λ b s. s;
  restore_insert_point = λ s t. record t { at = s.at };
  get_or_insert_global = λ n t s. (of_ty (pointer_to t) 1001, s);
  move_after = λ b c s. s;
  move_before = λ b c s. s;
  blocks = λ s. s.blocks;
  block_name = λ b. b.name;
  predecessors = λ s b. predecessors_in s b s.blocks;
  single_predecessor = λ s b. single (predecessors_in s b s.blocks);
  successors = λ s b. targets (s.code b.number);
  code = λ s b. s.code b.number;
  blocks-emit = λ i s. blocks-remember i (result i) (append_step i s);
  get_named_metadata-emit =
      λ i s key. ap (λ m. m.metadata key) (mod_-remember i (result i) (append_step i s));
  blocks-set_insert_point = λ b s. refl;
  code-emit = code-emit;
  code-set_insert_point = λ b c s. refl;
  code-move_after = λ a b c s. refl;
  insert_block-set_insert_point = λ b s. refl;
  Word = ℕ;
  apply = apply;
  choose = λ c a b. c + a + b;
  negate = λ a. 1 - a;
  meaning = λ v. v.word;
  meaning-binary = λ op a b s t h. refl;
  meaning-select = λ c a b s. refl;
  meaning-not_of = λ a s. refl;
  type_of-binary = λ op a b s t h. refl;
  type_of-compare = λ p a b s t h. refl;
  type_of-not_of = λ a s. refl;
  type_of-select = λ c a b s. refl;
  type_of-alloca = λ t n s. refl;
  type_of-convert = λ c v t s h. refl;
  type_of-const_int = λ t n. refl;
  is_alloca-binary = λ op a b s. refl;
  is_alloca-const_int = λ t n. refl;
}
