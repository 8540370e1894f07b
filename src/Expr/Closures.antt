-- ===== src/Expr/Closures.antt =====
-- ast/closure.hpp: `func [a, b = e] (args) T { … }`.
pub mod Apart
use Prim.Native.Char.{code}
use whack.Prelude.{
  ℕ, zero, suc, ◌+◌, String, ◌==◌, ◌&&◌, ◌||◌, Bool, true, false, Option, none, some, List, [], ◌∷◌,
  ◌++◌, if◌then◌else◌, not, eqb, contains, map,
}
use whack.Outcome.{
  Exec, Outcome, ok, failed, fault, out_of_fuel, text, number, ◌>>=◌, ◌>>◌, pure, raise, lift, gets,
}
use whack.Ast.{Ast, child, children, contents, row, get_outermost_ast_tag}
use whack.StringRef.{StringRef}
use whack.Llvm.{Llvm}
use whack.Metadata
use whack.Metadata.{get_metadata_parts, add_metadata, drop_first}
use whack.Types.Codegen.{TypeList}
use whack.Decl.Args.{Arg, arg_names}
use whack.Decl.ExternFunc.{get_return_type, optional_list}
use whack.Builder.{Builder, load, store, alloca, struct_gep, build, effect, on_module}
use whack.Stmt.Branches.{Exit}
use whack.Expr.Interfaces.{bind_this}
use whack.Func.Codegen.{protect_args, build_function}
use whack.Func.Structs.{tagged_child, optional_args, func_params}
use whack.Expr.Captures.{Closure, DefaultCaptureMode, no_default, all_by_value, all_by_reference}

-- Does a text hold a `.`?
unfoldable pub has_dot : String → Bool
has_dot String.[] = false
has_dot (String.◌∷◌ c s) = eqb (code c) 46 || has_dot s

module _ (B : Builder) where
  open B use {
    llvm, Val, Block, Ir, type_of, get_module, with_module, get_function, function_name, lookup,
    symbols, get_name, first_arg, is_sized, create_unnamed, name_struct, start_function,
    set_arg_name, add_nest,
  }
  open llvm use {
    Ty, Mod, string_ref, pointer_to, pointer_element_type, struct_name, function_ty, set_body,
  }

  -- What a closure holds: names with their values.
  abbrev pub Scoped : Type 0
  Scoped = List (String × Val)

  abbrev pub names_of : Scoped → List String
  names_of l = map (λ x. x.0) l

  -- The values that the environment of the enclosing function holds, from the index `i` on.
  unfoldable pub load_fields : Ty → Val → ℕ → List String → Exec Ir Scoped
  load_fields t env i [] = pure []
  load_fields t env i (n ∷ names) = build B (struct_gep t env i "") >>= λ p.
      build B (load p) >>= λ v. load_fields t env (suc i) names >>= λ l. pure ((n, v) ∷ l)

  unfoldable pub load_env : Val → Exec Ir Scoped
  load_env env s =
      let t = pointer_element_type (type_of env) in
      (lift (get_metadata_parts llvm (get_module s) "structures" (struct_name t))
          >>= load_fields t env 0)
        s

  -- The first parameter of a closure, where it is an environment.
  unfoldable pub env_of : Option Val → Exec Ir Scoped
  env_of none s = pure [] s
  env_of (some env) s = if get_name s env == ".env" then load_env env s else pure [] s

  -- What an enclosing closure has captured.
  unfoldable pub inherited : Exec Ir Scoped
  inherited s =
      if StringRef.starts_with string_ref (function_name s) "::closure"
      then env_of (first_arg s) s
      else pure [] s

  -- The values of the symbol table, of a sized type and with a name without a `.`.
  unfoldable pub symbols_of : Ir → List String → Scoped
  symbols_of s [] = []
  symbols_of s (n ∷ names) =
      let rest = symbols_of s names in
      elim (lookup s n) as (λ x. Scoped) [
        | none ↦ rest
        | some v ↦ if not (is_sized (type_of v)) || has_dot n then rest else (n, v) ∷ rest
      ]

  -- What the default captures.
  unfoldable pub default_captures : ℕ → DefaultCaptureMode → Exec Ir Scoped
  default_captures line no_default = pure []
  default_captures line all_by_reference =
      raise
        "capturing all closure variable(s) explicitly by reference is not implemented at line {}"
        (number (line + 1) ∷ [])
  default_captures line all_by_value =
      inherited >>= λ l. gets (λ s. symbols_of s (symbols s)) >>= λ k. pure (l ++ k)

  -- The environment: a type without a name and a body, and the parameters behind it.
  unfoldable pub env_params : Scoped → List Ty → Exec Mod (Option Ty × List Ty)
  env_params [] ts m = pure (none, ts) m
  env_params (x ∷ l) ts m =
      let made = create_unnamed m in pure (some made.0, pointer_to made.0 ∷ ts) made.1

  -- `env->setName`, `setBody` and `addMetadata`
  unfoldable pub fill_env : Ty → String → Scoped → Exec Mod (Unit {0})
  fill_env t name l m =
      let named = name_struct t name m in
      pure tt
        (add_metadata llvm named.0 (names_of l) (set_body t (map (λ x. type_of x.1) l) named.1))

  -- The parameters of a closure, from the index `i` on: none of them is captured.
  unfoldable pub name_params : ℕ → Scoped → ℕ → List String → Exec Ir (Unit {0})
  name_params line l i [] = pure tt
  name_params line l i (n ∷ names) =
      if contains (names_of l) n
      then raise
          "parameter name `{}` for closure already exists as a scoped variable name at line {}"
          (text n ∷ number (line + 1) ∷ [])
      else effect B (set_arg_name i n) >> name_params line l (suc i) names

  abbrev pub args_named : Option (List Arg) → List String
  args_named none = []
  args_named (some l) = arg_names l

  unfoldable pub name_env : Option Ty → Ir → Ir
  name_env none s = s
  name_env (some t) s = add_nest 0 (set_arg_name 0 ".env" s)

  abbrev pub env_offset : Option Ty → ℕ
  env_offset none = 0
  env_offset (some t) = 1

  -- The environment of a function that is built.
  unfoldable pub settle_env : Option Ty → Scoped → Exec Ir (Unit {0})
  settle_env none l s = pure tt s
  settle_env (some t) l s = on_module B (fill_env t (function_name s) l) s

  -- The loop that stores the captured values, from the index `i` on.
  unfoldable pub store_captured : Ty → Val → ℕ → Scoped → Exec Ir (Unit {0})
  store_captured t vars i [] = pure tt
  store_captured t vars i ((n, v) ∷ l) = build B (struct_gep t vars i "") >>= λ p.
      build B (store v p) >> store_captured t vars (suc i) l

  -- Back to a function, with the module that another one leaves.
  abbrev pub return_to : {A : Type 0} → Ir → Outcome Ir A → Outcome Ir A
  return_to s (ok a u) = ok a (with_module (get_module u) s)
  return_to s (failed e u) = failed e (with_module (get_module u) s)
  return_to s fault = fault
  return_to s out_of_fuel = out_of_fuel

  -- Another function, built in the module of this one; the name that it has got.
  unfoldable pub in_function : Ty → String → Exec Ir (Unit {0}) → Exec Ir String
  in_function t name p s =
      return_to s ((p >> gets function_name) (start_function t name (get_module s)))

  module _ (bind_first : Val → Val → Ty → Exec Ir Val) (expression : Ast → Exec Ir Val)
      (body : Ast → Exec Ir (Exit Block)) (run_exit : Exit Block → Exec Ir (Unit {0}))
      -- the order in which LLVM's map of names is read
      (order : List (String × Ast) → List (String × Ast)) where
    -- The loop over the explicit captures; `l` are the values before.
    unfoldable pub capture_each : ℕ → Scoped → List (String × Ast) → Exec Ir Scoped
    capture_each line l [] = pure l
    capture_each line l ((n, e) ∷ captures) =
        if contains (names_of l) n
        then raise "variable name `{}` already in use for closure capture list at line {}"
            (text n ∷ number (line + 1) ∷ [])
        else expression e >>= λ v. capture_each line (l ++ (n, v) ∷ []) captures

    -- All that a closure captures.
    unfoldable pub scoped_of : Closure → Exec Ir Scoped
    scoped_of c = default_captures c.row c.default_capture_mode >>= λ l.
        capture_each c.row l (order c.explicit_captures)

    -- The function of a closure.
    unfoldable pub build_closure : Closure → Option Ty → Scoped → Exec Ir (Unit {0})
    build_closure c env l = do
      effect B (name_env env)
      name_params c.row (elim env [ none ↦ [] | some t ↦ l ]) (env_offset env) (args_named c.args)
      effect B (protect_args B (env_offset env) (args_named c.args))
      settle_env env l
      build_function B body run_exit c.row c.body

    -- The function alone, or with its environment.
    unfoldable pub finish_closure : Option Ty → Scoped → Val → Exec Ir Val
    finish_closure none l f = pure f
    finish_closure (some t) l f =
        build B (alloca t "") >>= λ vars. store_captured t vars 0 l >> bind_this B bind_first f vars

    -- `Closure::codegen`
    unfoldable pub closure_codegen : ℕ → Closure → Exec Ir Val
    closure_codegen fuel c = do
      types ← on_module B (optional_list llvm fuel c.returns)
      returned ← on_module B (get_return_type llvm c.row types)
      l ← scoped_of c
      params ← on_module B (func_params llvm fuel c.args)
      env ← on_module B (env_params l params.0)
      name ← in_function (function_ty returned env.1 params.1) "::closure" (build_closure c env.0 l)
      f ← (λ s. lift (get_function s name) s)
      finish_closure env.0 l f
