-- ===== src/Func/Structs/Built.antt =====
-- What a function or an operator of a struct is once it has been declared.
use whack.Prelude.{
  ℕ, ◌≡◌, refl, ap, ◌∙◌, false, Option, none, some, String, arith, Option-cases, inl, inr,
}
use whack.Outcome.{Exec, Outcome, ok, failed, fault, out_of_fuel}
use whack.Outcome.Rules.{bind-eq-ok, refusal-eq-ok}
use whack.Ast.{Ast}
use whack.Types.Codegen.{TypeList}
use whack.Decl.ExternFunc.{get_return_type, optional_list}
use whack.Decl.StructOpName.{get_struct_op_name_string}
use whack.Builder.{Builder}
use whack.Stmt.Branches.{Exit}
use whack.Func.Codegen.{leave, build_function}
use whack.Func.Codegen.Closed.{EndsWithReturn, build_function-EndsWithReturn}
use whack.Func.Structs.{
  StructFunc, StructOp, member_name, member_type, build_member, no_func_body, no_op_body,
  define_struct_func, make_struct_func, make_struct_op, struct_func_codegen, define_struct_op,
  struct_op_codegen, prepare_func, prepare_op, func_params, op_params, optional_type,
}

module _ (B : Builder) where
  open B use {llvm, Ir, get_module, start_function}
  open llvm use {Ty, Mod, get_type_by_name, has_function}

  leave-eq-ok :
      (o : Outcome Ir (Unit {0})) (m : Mod)
      → leave B o ≡ ok tt m
      → (s : Ir) × (o ≡ ok tt s) × (m ≡ get_module s)
  leave-eq-ok (ok a s) m h = (s, ground (arith, h), ground (arith, h))
  leave-eq-ok (failed e s) m h = cc
  leave-eq-ok fault m h = cc
  leave-eq-ok out_of_fuel m h = cc

  module _ (body : Ast → Exec Ir (Exit (Builder.Block B)))
      (run_exit : Exit (Builder.Block B) → Exec Ir (Unit {0})) where
    -- A member that has been built from a body, as a function of this type and name: its last block
    -- returns.
    abbrev pub IsBuilt : ℕ → Option Ast → (Ir → Ir) → Ty → String → Mod → Mod → Type 0
    IsBuilt row b prepare t name m m' =
        (a : Ast) × (s : Ir) × (b ≡ some a)
        × (build_function B body run_exit row a (prepare (start_function t name m)) ≡ ok tt s)
        × (m' ≡ get_module s)
        × EndsWithReturn B s

    -- Without a body there is an error.
    Refuses : Exec Ir (Unit {0}) → Type 0
    Refuses missing = (s s' : Ir) → missing s ≡ ok tt s' → ⊥

    build_member-IsBuilt :
        (missing : Exec Ir (Unit {0})) (row : ℕ) (b : Option Ast) (prepare : Ir → Ir) (t : Ty)
        (name : String) (m m' : Mod)
        → Refuses missing
        → build_member B body run_exit missing row b prepare t name m ≡ ok tt m'
        → IsBuilt row b prepare t name m m'
    unfolding build_member Refuses
    build_member-IsBuilt missing row none prepare t name m m' never h =
        let (s, e, k) = leave-eq-ok (missing (prepare (start_function t name m))) m' h in
        absurd (never _ s e)
    build_member-IsBuilt missing row (some a) prepare t name m m' never h =
        let (s, e, k) =
          leave-eq-ok (build_function B body run_exit row a (prepare (start_function t name m))) m'
            h in
        (
          a,
          s,
          refl,
          e,
          k,
          build_function-EndsWithReturn B body run_exit row a (prepare (start_function t name m)) s
              e,
        )

    IsBuilt-build_member :
        (missing : Exec Ir (Unit {0})) (row : ℕ) (b : Option Ast) (prepare : Ir → Ir) (t : Ty)
        (name : String) (m m' : Mod)
        → IsBuilt row b prepare t name m m'
        → build_member B body run_exit missing row b prepare t name m ≡ ok tt m'
    unfolding build_member
    IsBuilt-build_member missing row none prepare t name m m' (a, s, b, built, left, r) = cc
    IsBuilt-build_member missing row (some x) prepare t name m m' (a, s, b, built, left, r) =
        let same : x ≡ a = ground (arith, b) in
        ap (λ y. leave B (build_function B body run_exit row y (prepare (start_function t name m))))
          same
        ∙ rw (built, left)

    no_func_body-Refuses : (row : ℕ) → Refuses (no_func_body B row)
    unfolding Refuses
    no_func_body-Refuses row s s' h = cc

    no_op_body-Refuses : (row : ℕ) → Refuses (no_op_body B row)
    unfolding Refuses
    no_op_body-Refuses row s s' h = cc

    -- The member has a free name and a type that begins with a pointer to the struct; `Reads` are the
    -- types that are read, and the module that reading them leaves.
    abbrev pub IsMember :
        (Ty → TypeList Ty → Mod → Type 0)
        → ℕ
        → Option Ast
        → (Ir → Ir)
        → Ty
        → String
        → Mod
        → Mod
        → Type 0
    IsMember Reads row b prepare structure name m m' =
        (has_function m name ≡ false)
        × (returned : Ty) × (params : TypeList Ty) × (m1 : Mod) × Reads returned params m1
        × IsBuilt row b prepare (member_type B body run_exit structure returned params) name m1 m'

    abbrev pub FuncReads : ℕ → StructFunc → Mod → Ty → TypeList Ty → Mod → Type 0
    FuncReads fuel f m returned params m3 =
        (types : Option (TypeList Ty)) × (m1 : Mod) × (m2 : Mod) × (optional_list llvm fuel
            f.returns m
          ≡ ok types m1)
        × (get_return_type llvm f.row types m1 ≡ ok returned m2)
        × (func_params llvm fuel f.args m2 ≡ ok params m3)

    abbrev pub OpReads : ℕ → StructOp → Mod → Ty → TypeList Ty → Mod → Type 0
    OpReads fuel o m returned params m2 =
        (m1 : Mod) × (op_params llvm fuel o.params m ≡ ok params m1)
        × (optional_type llvm fuel o.return_type m1 ≡ ok returned m2)

    define_struct_func-IsMember :
        (fuel : ℕ) (f : StructFunc) (structure : Ty) (m m' : Mod)
        → define_struct_func B body run_exit fuel f structure m ≡ ok tt m'
        → IsMember
            (FuncReads fuel f m)
            f.row
            f.body
            (prepare_func B f)
            structure
            (member_name B f.struct_name f.func_name)
            m
            m'
    unfolding define_struct_func make_struct_func
    define_struct_func-IsMember fuel f structure m m' h =
        let (free, k) =
          refusal-eq-ok {b = has_function m (member_name B f.struct_name f.func_name)}
            {o = make_struct_func B body run_exit fuel f structure m} _ _ h in
        let (types, m1, h1, k1) = bind-eq-ok (optional_list llvm fuel f.returns m) _ tt m' k in
        let (returned, m2, h2, k2) = bind-eq-ok (get_return_type llvm f.row types m1) _ tt m' k1 in
        let (params, m3, h3, k3) = bind-eq-ok (func_params llvm fuel f.args m2) _ tt m' k2 in
        (
          free,
          returned,
          params,
          m3,
          (types, m1, m2, h1, h2, h3),
          build_member-IsBuilt (no_func_body B f.row) f.row f.body (prepare_func B f)
              (member_type B body run_exit structure returned params)
              (member_name B f.struct_name f.func_name) m3 m' (no_func_body-Refuses f.row) k3,
        )

    define_struct_op-IsMember :
        (fuel : ℕ) (o : StructOp) (structure : Ty) (name : String) (m m' : Mod)
        → define_struct_op B body run_exit fuel o structure name m ≡ ok tt m'
        → IsMember
            (OpReads fuel o m)
            o.row
            o.body
            (prepare_op B o)
            structure
            (member_name B o.struct_name name)
            m
            m'
    unfolding define_struct_op make_struct_op
    define_struct_op-IsMember fuel o structure name m m' h =
        let (free, k) =
          refusal-eq-ok {b = has_function m (member_name B o.struct_name name)}
            {o = make_struct_op B body run_exit fuel o structure name m} _ _ h in
        let (params, m1, h1, k1) = bind-eq-ok (op_params llvm fuel o.params m) _ tt m' k in
        let (returned, m2, h2, k2) =
          bind-eq-ok (optional_type llvm fuel o.return_type m1) _ tt m' k1 in
        (
          free,
          returned,
          params,
          m2,
          (m1, h1, h2),
          build_member-IsBuilt (no_op_body B o.row) o.row o.body (prepare_op B o)
              (member_type B body run_exit structure returned params)
              (member_name B o.struct_name name) m2 m' (no_op_body-Refuses o.row) k2,
        )

    -- A function of a struct, the struct known to the module.
    abbrev pub IsStructFunc : ℕ → StructFunc → Mod → Mod → Type 0
    IsStructFunc fuel f m m' =
        (structure : Ty) × (get_type_by_name m f.struct_name ≡ some structure)
        × IsMember (FuncReads fuel f m) f.row f.body (prepare_func B f) structure
            (member_name B f.struct_name f.func_name) m m'

    pub struct_func_codegen-IsStructFunc :
        (fuel : ℕ) (f : StructFunc) (m m' : Mod)
        → struct_func_codegen B body run_exit fuel f m ≡ ok tt m'
        → IsStructFunc fuel f m m'
    unfolding struct_func_codegen
    struct_func_codegen-IsStructFunc fuel f m m' h =
        elim (Option-cases (get_type_by_name m f.struct_name)) [
          | inl e ↦ absurd (ground (arith, h, e))
          | inr (structure, e) ↦ (
            structure,
            e,
            define_struct_func-IsMember fuel f structure m m' (ground (arith, h, e)),
          )
        ]

    pub IsStructFunc-struct_func_codegen :
        (fuel : ℕ) (f : StructFunc) (m m' : Mod)
        → IsStructFunc fuel f m m'
        → struct_func_codegen B body run_exit fuel f m ≡ ok tt m'
    unfolding struct_func_codegen define_struct_func make_struct_func
    IsStructFunc-struct_func_codegen fuel f m m'
          (structure, e, (free, returned, params, m3, (types, m1, m2, h1, h2, h3), built)) =
        rw (
          struct_func_codegen,
          e,
          free,
          h1,
          h2,
          h3,
          IsBuilt-build_member (no_func_body B f.row) f.row f.body (prepare_func B f)
              (member_type B body run_exit structure returned params)
              (member_name B f.struct_name f.func_name) m3 m' built,
        )

    -- An operator that is declared without an error has a struct that the module knows, a name that no
    -- function has, types that are read and a body, and is what `buildFunction` makes of the body.
    pub struct_op_codegen-IsMember :
        (fuel : ℕ) (o : StructOp) (m m' : Mod)
        → struct_op_codegen B body run_exit fuel o m ≡ ok tt m'
        → (structure : Ty) × (name : String) × (m1 : Mod) × (get_type_by_name m o.struct_name
            ≡ some structure)
          × (get_struct_op_name_string llvm fuel o.func_name o.row m ≡ ok name m1)
          × IsMember
              (OpReads fuel o m1)
              o.row
              o.body
              (prepare_op B o)
              structure
              (member_name B o.struct_name name)
              m1
              m'
    unfolding struct_op_codegen
    struct_op_codegen-IsMember fuel o m m' h =
        elim (Option-cases (get_type_by_name m o.struct_name)) [
          | inl e ↦ absurd (ground (arith, h, e))
          | inr (structure, e) ↦
              (let (name, m1, h1, k1) =
                  bind-eq-ok (get_struct_op_name_string llvm fuel o.func_name o.row m)
                    (define_struct_op B body run_exit fuel o structure) tt m'
                    (ground (arith, h, e)) in
                (
                  structure,
                  name,
                  m1,
                  e,
                  h1,
                  define_struct_op-IsMember fuel o structure name m1 m' k1,
                ))
        ]
