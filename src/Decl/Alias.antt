-- ===== src/Decl/Alias.antt =====
-- ast/alias.hpp: `using a, b = T, U;`.
pub mod Lookup
use whack.Prelude.{
  ℕ, suc, ◌+◌, String, Bool, Option, none, some, List, [], ◌∷◌, not, if◌then◌else◌, contains,
  length, eqb,
}
use whack.Outcome.{Exec, text, number, ◌>>=◌, ◌>>◌, pure, raise, reads, modify}
use whack.Ast.{Ast, child, row, get_ident_list}
use whack.Llvm.{Llvm, null_of}
use whack.Metadata.{get_metadata_heads}
use whack.Metadata
use whack.Types.Codegen.{get_type, get_type_list}
use whack.Decl.Ident.{is_unique}

pub record Alias : Type 0 where
  pub row : ℕ
  pub ident_list : List String
  pub type_list : Ast

-- The constructor: `using`, the identifiers, `=`, the types.
unfoldable pub alias_of_ast : Ast → Option Alias
alias_of_ast a = Metadata.◌>>=◌ (child a 1) λ ids.
    Metadata.◌>>=◌ (child a 3)
      λ types. some (record { row = row a; ident_list = get_ident_list ids; type_list = types })

module _ (L : Llvm) where
  open L use {Ty, Mod, add_operand, alias_scope}

  -- `Alias::add`
  unfoldable pub add_alias : String → Ty → ℕ → Exec Mod (Unit {0})
  add_alias name t row = do
    aliases ← reads (λ m. get_metadata_heads L m "aliases")
    if contains aliases name
        then raise "alias `{}` already exists in scope at line {}"
            (text name ∷ number (row + 1) ∷ [])
        else (is_unique L name row >> modify (add_operand "aliases" (alias_scope name (null_of t))))

  -- The loop of `codegen`, over as many names as types.
  unfoldable pub add_aliases : List String → List Ty → ℕ → Exec Mod (Unit {0})
  add_aliases (n ∷ names) (t ∷ ts) row = add_alias n t row >> add_aliases names ts row
  add_aliases _ _ row = pure tt

  unfoldable pub alias_codegen : ℕ → Alias → Exec Mod (Unit {0})
  alias_codegen fuel a = do
    l ← get_type_list L (get_type L fuel) a.type_list
    if l.1
        then raise "variadic types not allowed in alias list at line {}" (number (a.row + 1) ∷ [])
        else if not (eqb (length l.0) (length a.ident_list))
        then raise "invalid number of types for alias list at line {} (expected {}, got {})"
            (number (a.row + 1) ∷ number (length a.ident_list) ∷ number (length l.0) ∷ [])
        else add_aliases a.ident_list l.0 a.row
