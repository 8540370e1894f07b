-- ===== src/Func/Structs/Declared.antt =====
-- What it is for a function of a struct to be declared.
use whack.Prelude.{
  ℕ, suc, String, ◌≡◌, ◌↔◌, refl, sym, ap, ◌∙◌, subst, Bool, true, false, Option, none, some, List,
  [], ◌∷◌, ◌<>◌, arith, Option-cases, inl, inr,
}
use whack.Outcome.{Exec, ok}
use whack.Outcome.Rules.{bind-eq-ok}
use whack.Ast.{Ast}
use whack.Types.Codegen.{TypeList}
use whack.Decl.Args.{Arg, arg_types, arg_names, is_variadic}
use whack.Decl.ExternFunc.{get_return_type, optional_list}
use whack.Builder.{Builder}
use whack.Stmt.Branches.{Exit}
use whack.Func.Codegen.{build_function, name_args, protect_args}
use whack.Func.Codegen.Closed.{EndsWithReturn}
use whack.Func.Structs.{
  StructFunc, struct_func_codegen, member_type, func_params, prepare_this, prepare_func,
}
use whack.Func.Structs.Built.{
  IsStructFunc, struct_func_codegen-IsStructFunc, IsStructFunc-struct_func_codegen,
}

module _ (B : Builder) where
  open B use {llvm, Ir, get_module, start_function, set_arg_name, add_nest, add_read_only}
  open llvm use {Ty, Mod, get_type_by_name, has_function, function_ty, pointer_to}

  -- The parameters have these types, and more arguments may follow, or not.
  abbrev pub ReadsParams : ℕ → Option (List Arg) → Mod → List Ty → Bool → Mod → Type 0
  ReadsParams fuel none m ts v m' = (ts ≡ []) × (v ≡ false) × (m ≡ m')
  ReadsParams fuel (some l) m ts v m' = (arg_types llvm fuel l m ≡ ok ts m') × (is_variadic l ≡ v)

  -- The first parameter is `this`, a nest, and read only unless the function may change the struct.
  abbrev pub with_this : Bool → Ir → Ir
  with_this true s = add_nest 0 (set_arg_name 0 "this" s)
  with_this false s = add_read_only 0 (add_nest 0 (set_arg_name 0 "this" s))

  abbrev named : ℕ → List String → Ir → Ir
  named i [] s = s
  named i (n ∷ names) s = named (suc i) names (set_arg_name i n s)

  abbrev all_read_only : ℕ → List String → Ir → Ir
  all_read_only i [] s = s
  all_read_only i (n ∷ names) s = all_read_only (suc i) names (add_read_only i s)

  name_args-named : (i : ℕ) (names : List String) (s : Ir) → name_args B i names s ≡ named i names s
  unfolding name_args
  name_args-named i [] s = refl
  name_args-named i (n ∷ names) s = name_args-named (suc i) names (set_arg_name i n s)

  protect_args-all_read_only :
      (i : ℕ) (names : List String) (s : Ir) → protect_args B i names s ≡ all_read_only i names s
  unfolding protect_args
  protect_args-all_read_only i [] s = refl
  protect_args-all_read_only i (n ∷ names) s =
      protect_args-all_read_only (suc i) names (add_read_only i s)

  -- The others have their names, and are read only.
  abbrev pub with_params : Option (List Arg) → Ir → Ir
  with_params none s = s
  with_params (some l) s = all_read_only 1 (arg_names l) (named 1 (arg_names l) s)

  prepare_this-with_this : (b : Bool) (s : Ir) → prepare_this B b s ≡ with_this b s
  unfolding prepare_this
  prepare_this-with_this true s = refl
  prepare_this-with_this false s = refl

  prepare_func-with_params :
      (f : StructFunc) (s : Ir)
      → prepare_func B f s ≡ with_params f.args (with_this f.mutates_members s)
  unfolding prepare_func
  prepare_func-with_params f s = elim (Option-cases f.args) [
    | inl e ↦ rw (prepare_func, e) (prepare_this-with_this f.mutates_members s)
    | inr (l, e) ↦
        rw (prepare_func, e, prepare_this-with_this f.mutates_members s)
          (protect_args-all_read_only 1 (arg_names l) _
            ∙ ap (all_read_only 1 (arg_names l))
                (name_args-named 1 (arg_names l) (with_this f.mutates_members s)))
  ]

  func_params-ReadsParams :
      (fuel : ℕ) (args : Option (List Arg)) (p : TypeList Ty) (m m' : Mod)
      → func_params llvm fuel args m ≡ ok p m'
      → ReadsParams fuel args m p.0 p.1 m'
  unfolding func_params
  func_params-ReadsParams fuel none p m m' h =
      let same : ([], false) ≡ p = ground (arith, h) in
      (sym (ap (λ y. y.0) same), sym (ap (λ y. y.1) same), ground (arith, h))
  func_params-ReadsParams fuel (some l) p m m' h =
      let (ts, m1, h1, k1) = bind-eq-ok (arg_types llvm fuel l m) _ p m' h in
      let same : (ts, is_variadic l) ≡ p = ground (arith, k1) in
      let left : m1 ≡ m' = ground (arith, k1) in
      (h1 ∙ ap (λ y. ok y m1) (ap (λ y. y.0) same) ∙ ap (ok p.0) left, ap (λ y. y.1) same)

  ReadsParams-func_params :
      (fuel : ℕ) (args : Option (List Arg)) (ts : List Ty) (v : Bool) (m m' : Mod)
      → ReadsParams fuel args m ts v m'
      → func_params llvm fuel args m ≡ ok (ts, v) m'
  unfolding func_params
  ReadsParams-func_params fuel none ts v m m' (t, u, e) = rw (t, u, e)
  ReadsParams-func_params fuel (some l) ts v m m' (h, e) = rw (h, e)

  module _ (body : Ast → Exec Ir (Exit (Builder.Block B)))
      (run_exit : Exit (Builder.Block B) → Exec Ir (Unit {0})) where
    -- The struct is known and no function has the name; the types are read, those that are returned
    -- first; and the body is built in a function of the name whose type begins with a pointer to the
    -- struct, and whose parameters are named and marked.
    abbrev pub Declares : ℕ → StructFunc → Mod → Mod → Type 0
    Declares fuel f m m' =
        (structure : Ty) × (get_type_by_name m f.struct_name ≡ some structure)
        × (has_function m ("struct::" <> (f.struct_name <> ("::" <> f.func_name))) ≡ false)
        × (returns : Option (TypeList Ty)) × (m1 : Mod) × (optional_list llvm fuel f.returns m
            ≡ ok returns m1)
        × (returned : Ty) × (m2 : Mod) × (get_return_type llvm f.row returns m1 ≡ ok returned m2)
        × (ts : List Ty) × (v : Bool) × (m3 : Mod) × ReadsParams fuel f.args m2 ts v m3
        × (b : Ast) × (s : Ir) × (f.body ≡ some b)
        × (build_function B body run_exit f.row b (
              with_params f.args (
                with_this f.mutates_members (
                  start_function (function_ty returned (pointer_to structure ∷ ts) v)
                    ("struct::" <> (f.struct_name <> ("::" <> f.func_name))) m3)))
            ≡ ok tt s)
        × (m' ≡ get_module s)
        × EndsWithReturn B s

    IsStructFunc-Declares :
        (fuel : ℕ) (f : StructFunc) (m m' : Mod)
        → IsStructFunc B body run_exit fuel f m m'
        → Declares fuel f m m'
    unfolding member_type
    IsStructFunc-Declares fuel f m m'
          (
            structure,
            known,
            (free, returned, params, m3, (types, m1, m2, h1, h2, h3), (b, s, has, built, left, r)),
          ) =
        (
          structure,
          known,
          free,
          types,
          m1,
          h1,
          returned,
          m2,
          h2,
          params.0,
          params.1,
          m3,
          func_params-ReadsParams fuel f.args params m2 m3 h3,
          b,
          s,
          has,
          subst (λ y. build_function B body run_exit f.row b y ≡ ok tt s)
              (prepare_func-with_params f _) built,
          left,
          r,
        )

    Declares-IsStructFunc :
        (fuel : ℕ) (f : StructFunc) (m m' : Mod)
        → Declares fuel f m m'
        → IsStructFunc B body run_exit fuel f m m'
    unfolding member_type
    Declares-IsStructFunc fuel f m m'
          (
            structure, known, free, types, m1, h1, returned, m2, h2, ts, v, m3, h3, b, s, has,
            built, left, r,
          ) =
        (
          structure,
          known,
          (
            free,
            returned,
            (ts, v),
            m3,
            (types, m1, m2, h1, h2, ReadsParams-func_params fuel f.args ts v m2 m3 h3),
            (
              b,
              s,
              has,
              subst (λ y. build_function B body run_exit f.row b y ≡ ok tt s)
                  (sym (prepare_func-with_params f _)) built,
              left,
              r,
            ),
          ),
        )

    -- A function of a struct is declared without an error exactly if the module knows the struct, no
    -- function has its name, its types are read, it has a body, and `buildFunction` succeeds on the
    -- body in a function of this name whose type begins with a pointer to the struct, whose first
    -- parameter is `this`, read only unless the function may change the struct, and whose others have
    -- their names and are read only; the last block of this function then ends with a return.
    pub struct_func_codegen-eq-ok_iff :
        (fuel : ℕ) (f : StructFunc) (m m' : Mod)
        → (struct_func_codegen B body run_exit fuel f m ≡ ok tt m') ↔ Declares fuel f m m'
    struct_func_codegen-eq-ok_iff fuel f m m' = (
      λ h.
          IsStructFunc-Declares fuel f m m'
            (struct_func_codegen-IsStructFunc B body run_exit fuel f m m' h),
      λ d.
          IsStructFunc-struct_func_codegen B body run_exit fuel f m m'
            (Declares-IsStructFunc fuel f m m' d),
    )
