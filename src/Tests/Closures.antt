-- ===== src/Tests/Closures.antt =====
-- The theorem on closures, applied.
use whack.Prelude.{◌≡◌, refl, String, false, some, none, List, [], ◌∷◌, ◌++◌}
use whack.Outcome.{ok, Exec}
use whack.Ast.{Ast, get_innermost_ast_tag}
use whack.Types.{basic_type}
use whack.Types.Codegen.{type_codegen, is_mutable, codegen_ref, get_from_type_name, or_no_such_type}
use whack.Decl.Args.{arg_types, arg_names}
use whack.Expr.Captures.{Closure, all_by_value}
use whack.Expr.Closures.{
  Scoped, inherited, has_dot, symbols_of, names_of, args_named, closure_codegen, scoped_of,
  default_captures, capture_each, env_params, in_function, build_closure, name_params, settle_env,
  fill_env, finish_closure, name_env, store_captured,
}
use whack.Builder.{on_module, back}
use whack.Decl.ExternFunc.{get_return_type, optional_list}
use whack.Func.Structs.{func_params}
use whack.Func.Codegen.{
  build_function, finish_function, settle_return_type, settle_declared, settle_auto, close_function,
  close_block, return_at, protect_args,
}
use whack.Func.Returns.{deduce_func_return_type, returns_in, returns_of, deduce, deduced}
use whack.Expr.Interfaces.{bind_this, bound_type}
use whack.Metadata.{add_metadata}
use whack.Expr.Closures.Apart.{AreNew, AreApart, Returns, keys, closure_codegen-AreApart}
use whack.Types.Scalars.{int, type_ast}
use whack.Tests.Nodes.{Ty, int_ty, void_ty, pointer_to, function_of, and_then, no_more, named_ty}
use whack.Tests.Build.{builder, Ir, Val, of_ty}
use whack.Tests.Expressions.{begin, literal}
use whack.Tests.Functions.{nothing_built, no_scope, always, deferred}

-- `func [=, n = 2] (int p) { }` where there is a variable `m`, and a function of this name with an environment.
abbrev twice : Closure
twice = record {
  row = 0;
  args = some (record { type = type_ast int 0 0; name = "p"; variadic = false } ∷ []);
  explicit_captures = ("n", literal "2") ∷ [];
  default_capture_mode = all_by_value;
  returns = none;
  body = deferred;
}

abbrev closure_function : Val
closure_function =
    of_ty (pointer_to (function_of void_ty (and_then (pointer_to (named_ty "")) no_more) false)) 0

abbrev around : Ir
around = record begin {
  functions = ("::closure", closure_function) ∷ [];
  variables = ("m", of_ty (int_ty 32) 5) ∷ [];
}

abbrev keep : Val → Val → Ty → Exec Ir Val
keep f v t s = ok f s

abbrev as_written : List (String × Ast) → List (String × Ast)
as_written l = l

abbrev closure_state : Ir
closure_state =
    elim (closure_codegen builder keep always nothing_built no_scope as_written 1 twice around)
      as (λ x. Ir) [ ok v s ↦ s | _ ↦ begin ]

twice_built :
    closure_codegen builder keep always nothing_built no_scope as_written 1 twice around
    ≡ ok closure_function closure_state
unfolding closure_codegen on_module optional_list get_return_type scoped_of default_captures
    symbols_of capture_each func_params env_params in_function build_closure name_params settle_env
    fill_env build_function finish_function deduce_func_return_type deduced deduce returns_in
    returns_of settle_return_type settle_declared settle_auto close_function close_block return_at
    back finish_closure name_env store_captured bind_this bound_type protect_args add_metadata
    arg_types type_codegen is_mutable codegen_ref get_innermost_ast_tag get_from_type_name
    basic_type or_no_such_type arg_names inherited has_dot
twice_built = refl

closure_codegen-AreApart_example :
    (d : Scoped builder) × (s2 : Ir) × (s3 : Ir) × Returns builder keep always nothing_built
      no_scope as_written 1 twice around s2
    × (default_captures builder 0 all_by_value s2 ≡ ok d s3)
    × AreNew (names_of builder d) (keys (as_written twice.explicit_captures))
    × AreApart
        (names_of builder d ++ keys (as_written twice.explicit_captures))
        (args_named builder twice.args)
closure_codegen-AreApart_example =
    closure_codegen-AreApart builder keep always nothing_built no_scope as_written 1 twice
      closure_function around closure_state twice_built
