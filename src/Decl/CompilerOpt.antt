-- ===== src/Decl/CompilerOpt.antt =====
-- ast/compileropt.hpp: the options of the compiler, kept in the metadata `options`.
use whack.Prelude.{String, Option, some, List, [], ◌∷◌}
use whack.Ast.{Ast, child, get_ident_list}
use whack.Llvm.{Llvm}
use whack.Metadata.{◌>>=◌}

-- The constructor of `CompilerOpt`
unfoldable pub options_of_ast : Ast → Option (List String)
options_of_ast a = child a 2 >>= λ l. some (get_ident_list l)

module _ (L : Llvm) where
  open L use {Mod, tbaa_root, add_operand}

  -- `CompilerOpt::codegen`
  unfoldable pub add_compiler_options : List String → Mod → Mod
  add_compiler_options [] m = m
  add_compiler_options (o ∷ options) m =
      add_compiler_options options (add_operand "options" (tbaa_root o) m)
