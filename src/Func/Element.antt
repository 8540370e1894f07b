-- ===== src/Func/Element.antt =====
-- The elements of a module that are functions, members of structs or options of the compiler: what `Module::codegen` of
-- module.hpp calls for them.
use whack.Prelude.{ℕ, List, String}
use whack.Ast.{Ast}
use whack.Outcome.{Exec, ◌>>=◌, lift, modify, fault}
use whack.Driver.{Element, element_codegen, compiler_opt, function, struct_func, struct_op}
use whack.Builder.{Builder}
use whack.Decl.CompilerOpt.{options_of_ast, add_compiler_options}
use whack.Stmt.Body.{body_codegen}
use whack.Stmt.Codegen.{stmt_codegen, exit_codegen}
use whack.Func.Codegen.{function_of_ast, function_codegen}
use whack.Func.Structs.{
  struct_func_of_ast, struct_func_codegen, struct_op_of_ast, struct_op_codegen,
}

module _ (B : Builder) (order : List (String × Ast) → List (String × Ast)) where
  open B use {llvm}
  open llvm use {Mod, string_ref}

  unfoldable pub function_or_option : ℕ → Element → Exec Mod (Unit {0})
  function_or_option fuel (compiler_opt a) =
      lift (options_of_ast a) >>= λ options. modify (add_compiler_options llvm options)
  function_or_option fuel (function a) =
      lift (function_of_ast string_ref a)
      >>= function_codegen B (body_codegen B (stmt_codegen B order fuel))
          (exit_codegen B order fuel) fuel
  function_or_option fuel (struct_func a) =
      lift (struct_func_of_ast string_ref a)
      >>= struct_func_codegen B (body_codegen B (stmt_codegen B order fuel))
          (exit_codegen B order fuel) fuel
  function_or_option fuel (struct_op a) =
      lift (struct_op_of_ast string_ref a)
      >>= struct_op_codegen B (body_codegen B (stmt_codegen B order fuel))
          (exit_codegen B order fuel) fuel
  -- The others are declarations.
  function_or_option fuel e = λ m. fault

  -- `element.codegen(mod)` of all classes.
  unfoldable pub any_element_codegen : ℕ → Element → Exec Mod (Unit {0})
  any_element_codegen fuel e = element_codegen llvm (function_or_option fuel) fuel e
