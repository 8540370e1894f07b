-- ===== src/Func/Structs.antt =====
-- ast/structfunc.hpp and ast/structop.hpp: `func (mut S) f(args) T { }` and
-- `func (mut S) operator + (args) T { }`, the functions and operators of a struct.
pub mod Built
pub mod Declared
use whack.Prelude.{
  ℕ, suc, ◌+◌, String, ◌==◌, ◌<>◌, Bool, true, false, Option, none, some, List, [], ◌∷◌,
  if◌then◌else◌,
}
use whack.Outcome.{Exec, text, number, ◌>>=◌, ◌>>◌, pure, raise, lift, gets, failed}
use whack.Ast.{Ast, child, contents, row, get_outermost_ast_tag}
use whack.StringRef.{StringRef}
use whack.Llvm.{Llvm}
use whack.Metadata
use whack.Types.{get_type_name}
use whack.Types.Codegen.{TypeList, get_type, get_type_list, type_codegen}
use whack.Decl.Args.{Arg, args_of_ast, arg_types, arg_names, is_variadic}
use whack.Decl.ExternFunc.{get_return_type, optional_list}
use whack.Decl.StructOpName.{StructOpName, get_struct_op_name, get_struct_op_name_string}
use whack.Builder.{Builder, effect}
use whack.Stmt.Branches.{Exit, new_block}
use whack.Func.Codegen.{name_args, protect_args, leave, build_function}

pub record StructFunc : Type 0 where
  pub row : ℕ
  pub mutates_members : Bool
  pub struct_name : String
  pub func_name : String
  pub args : Option (List Arg)
  pub returns : Option Ast
  pub body : Option Ast

-- `args_types_t`, or nothing
pub data Params : Type 0 where
  no_params : Params
  args : List Arg → Params
  type_list : Ast → Params

pub record StructOp : Type 0 where
  pub row : ℕ
  pub mutates_members : Bool
  pub struct_name : String
  pub func_name : StructOpName
  pub params : Params
  pub return_type : Option Ast
  pub body : Option Ast

module _ (T : StringRef) where
  abbrev has_tag : String → Ast → Bool
  has_tag tag a = get_outermost_ast_tag T a == tag

  -- The child `at` if it has the tag, and the index behind it.
  unfoldable pub tagged_child : String → Ast → ℕ → Option (Option Ast × ℕ)
  tagged_child tag a at =
      Metadata.◌>>=◌ (child a at)
        λ x. if has_tag tag x then some (some x, suc at) else some (none, at)

  -- The parameters of a struct function.
  unfoldable pub optional_args : Option Ast → Option (Option (List Arg))
  optional_args none = some none
  optional_args (some x) = Metadata.◌>>=◌ (args_of_ast T x) λ l. some (some l)

  -- The constructor of `StructFunc` behind the test for `mut`; `i` is the index of the struct.
  unfoldable pub struct_func_at : Bool → ℕ → Ast → Option StructFunc
  struct_func_at mut i a = Metadata.◌>>=◌ (child a i) λ s. Metadata.◌>>=◌ (child a (i + 2)) λ f.
      Metadata.◌>>=◌ (tagged_child "args" a (i + 4)) λ p. Metadata.◌>>=◌ (optional_args p.0) λ args.
        Metadata.◌>>=◌ (tagged_child "typelist" a (suc p.1)) λ r.
          Metadata.◌>>=◌ (tagged_child "body" a r.1) λ b. some (record {
            row = row a;
            mutates_members = mut;
            struct_name = contents s;
            func_name = contents f;
            args = args;
            returns = r.0;
            body = b.0;
          })

  unfoldable pub struct_func_of_ast : Ast → Option StructFunc
  struct_func_of_ast a =
      Metadata.◌>>=◌ (child a 2)
        λ x. if contents x == "mut" then struct_func_at true 3 a else struct_func_at false 2 a

  -- The parameters of a struct operator, and the index behind them.
  unfoldable pub params_at : Ast → ℕ → Option (Params × ℕ)
  params_at a at = Metadata.◌>>=◌ (child a at) λ x.
      if has_tag "args" x
      then (Metadata.◌>>=◌ (args_of_ast T x) λ l. some (args l, suc at))
      else if has_tag "typelist" x
      then some (type_list x, suc at)
      else some (no_params, at)

  -- The constructor of `StructOp` behind the test for `mut`.
  unfoldable pub struct_op_at : Bool → ℕ → Ast → Option StructOp
  struct_op_at mut i a = Metadata.◌>>=◌ (child a i) λ s. Metadata.◌>>=◌ (child a (i + 2)) λ o.
      Metadata.◌>>=◌ (get_struct_op_name T o) λ name. Metadata.◌>>=◌ (params_at a (i + 4)) λ p.
        Metadata.◌>>=◌ (tagged_child "type" a (suc p.1)) λ r.
          Metadata.◌>>=◌ (tagged_child "body" a r.1) λ b. some (record {
            row = row a;
            mutates_members = mut;
            struct_name = contents s;
            func_name = name;
            params = p.0;
            return_type = r.0;
            body = b.0;
          })

  unfoldable pub struct_op_of_ast : Ast → Option StructOp
  struct_op_of_ast a =
      Metadata.◌>>=◌ (child a 2)
        λ x. if contents x == "mut" then struct_op_at true 3 a else struct_op_at false 2 a

module _ (L : Llvm) where
  open L use {Ty, Mod, same_ty, auto_ty, void_ty}

  -- The types of the parameters behind `this`, and whether more may follow.
  unfoldable pub func_params : ℕ → Option (List Arg) → Exec Mod (TypeList Ty)
  func_params fuel none = pure ([], false)
  func_params fuel (some l) = arg_types L fuel l >>= λ ts. pure (ts, is_variadic l)

  unfoldable pub op_params : ℕ → Params → Exec Mod (TypeList Ty)
  op_params fuel no_params = pure ([], false)
  op_params fuel (args l) = func_params fuel (some l)
  op_params fuel (type_list a) = get_type_list L (get_type L fuel) a

  -- `Type::getReturnType` of a type that may be absent
  unfoldable pub optional_type : ℕ → Option Ast → Exec Mod Ty
  optional_type fuel none = pure void_ty
  optional_type fuel (some a) = type_codegen L (get_type L fuel) a

module _ (B : Builder) where
  open B use {llvm, Ir, set_arg_name, add_read_only, add_nest, start_function}
  open llvm use {Ty, Mod, function_ty, pointer_to, get_type_by_name, has_function}

  abbrev pub member_name : String → String → String
  member_name struct_name name = "struct::" <> (struct_name <> ("::" <> name))

  -- What is done to the first parameter, `this`.
  unfoldable pub prepare_this : Bool → Ir → Ir
  prepare_this mutates s =
      let t = add_nest 0 (set_arg_name 0 "this" s) in if mutates then t else add_read_only 0 t

  unfoldable pub prepare_func : StructFunc → Ir → Ir
  prepare_func f s = elim f.args as (λ x. Ir) [
    | none ↦ prepare_this f.mutates_members s
    | some l ↦
        protect_args B 1 (arg_names l)
          (name_args B 1 (arg_names l) (prepare_this f.mutates_members s))
  ]

  -- The parameters of an operator are named and not marked.
  unfoldable pub prepare_op : StructOp → Ir → Ir
  prepare_op o s = elim o.params as (λ x. Ir) [
    | args l ↦ name_args B 1 (arg_names l) (prepare_this o.mutates_members s)
    | _ ↦ prepare_this o.mutates_members s
  ]

  -- A function without a body, and an operator without one.
  abbrev pub no_func_body : ℕ → Exec Ir (Unit {0})
  no_func_body row =
      new_block B "entry"
      >> raise "defaulted struct ctor/dtor not implemented at line {}" (number (row + 1) ∷ [])

  abbrev pub no_op_body : ℕ → Exec Ir (Unit {0})
  no_op_body row =
      raise "defaulted struct operators not implemented at line {}" (number (row + 1) ∷ [])

  -- `codegen` and `runScopeExit` of the body.
  module _ (body : Ast → Exec Ir (Exit (Builder.Block B)))
      (run_exit : Exit (Builder.Block B) → Exec Ir (Unit {0})) where
    -- The function itself: `prepare` names its parameters, and `missing` is what is
    -- done without a body, an error.
    unfoldable pub build_member :
        Exec Ir (Unit {0}) → ℕ → Option Ast → (Ir → Ir) → Ty → String → Exec Mod (Unit {0})
    build_member missing row none prepare t name m =
        leave B (missing (prepare (start_function t name m)))
    build_member missing row (some b) prepare t name m =
        leave B (build_function B body run_exit row b (prepare (start_function t name m)))

    unfoldable pub member_type : Ty → Ty → TypeList Ty → Ty
    member_type structure returned params =
        function_ty returned (pointer_to structure ∷ params.0) params.1

    -- The types of a struct function, and its building; a warning is left out.
    unfoldable pub make_struct_func : ℕ → StructFunc → Ty → Exec Mod (Unit {0})
    make_struct_func fuel f structure = do
      types ← optional_list llvm fuel f.returns
      returned ← get_return_type llvm f.row types
      params ← func_params llvm fuel f.args
      build_member (no_func_body f.row) f.row f.body (prepare_func f)
          (member_type structure returned params) (member_name f.struct_name f.func_name)

    -- `StructFunc::codegen` once the struct is known.
    unfoldable pub define_struct_func : ℕ → StructFunc → Ty → Exec Mod (Unit {0})
    define_struct_func fuel f structure m =
        if has_function m (member_name f.struct_name f.func_name)
        then raise "function `{}` already exists for struct `{}` at line {}"
            (text f.func_name ∷ text f.struct_name ∷ number (f.row + 1) ∷ []) m
        else make_struct_func fuel f structure m

    -- `StructFunc::codegen`
    unfoldable pub struct_func_codegen : ℕ → StructFunc → Exec Mod (Unit {0})
    struct_func_codegen fuel f m = elim (get_type_by_name m f.struct_name) [
      | none ↦
          raise "cannot find struct `{}` for function `{}` at line {}"
            (text f.struct_name ∷ text f.func_name ∷ number (f.row + 1) ∷ []) m
      | some structure ↦ define_struct_func fuel f structure m
    ]

    -- The types of an operator, and its building.
    unfoldable pub make_struct_op : ℕ → StructOp → Ty → String → Exec Mod (Unit {0})
    make_struct_op fuel o structure name = do
      params ← op_params llvm fuel o.params
      returned ← optional_type llvm fuel o.return_type
      build_member (no_op_body o.row) o.row o.body (prepare_op o)
          (member_type structure returned params) (member_name o.struct_name name)

    -- `StructOp::codegen` once the struct and the name are known.
    unfoldable pub define_struct_op : ℕ → StructOp → Ty → String → Exec Mod (Unit {0})
    define_struct_op fuel o structure name m =
        if has_function m (member_name o.struct_name name)
        then raise "function `{}` already exists for struct `{}` at line {}"
            (text name ∷ text o.struct_name ∷ number (o.row + 1) ∷ []) m
        else make_struct_op fuel o structure name m

    -- `StructOp::codegen`
    unfoldable pub struct_op_codegen : ℕ → StructOp → Exec Mod (Unit {0})
    struct_op_codegen fuel o m = elim (get_type_by_name m o.struct_name) [
      | none ↦
          raise "cannot find struct `{}` for function at line {}"
            (text o.struct_name ∷ number (o.row + 1) ∷ []) m
      | some structure ↦
          (get_struct_op_name_string llvm fuel o.func_name o.row
              >>= define_struct_op fuel o structure)
            m
    ]
