-- ===== src/Decl/Ident.antt =====
-- `Ident::isUnique` of ast/ident.hpp: is a name free in the module, or in a function?
pub mod Unique
use mathlib.Core.Option
use whack.Prelude.{
  ℕ, suc, ◌+◌, String, ◌==◌, ◌<>◌, Bool, true, false, Option, none, some, List, [], ◌∷◌,
  if◌then◌else◌, contains,
}
use whack.Outcome.{Exec, Arg, text, number, ◌>>=◌, ◌>>◌, pure, raise, reads, gets}
use whack.Ast.{is_reserved}
use whack.Llvm.{Llvm}
use whack.Metadata.{get_metadata_operand}
use whack.Metadata.Names.{is_some}

-- What the names of a function are looked up in: its value symbol table, and its name.
pub record Scope : Type 0 where
  pub function : String
  pub symbols : List String

-- The message of a name that is taken.
abbrev pub taken_as : String → String
taken_as kind = "identifier `{}` already exists as " <> (kind <> " at line {}")

module _ (L : Llvm) where
  open L use {Mod, has_function}

  -- The error of a name that a table lists.
  unfoldable pub guard_absent : String → String → String → ℕ → Exec Mod (Unit {0})
  guard_absent metadata format name row =
      reads (λ m. Option.map is_some (get_metadata_operand L m metadata name)) >>= λ found.
      if found then raise format (text name ∷ number (row + 1) ∷ []) else pure tt

  -- `isUnique(const llvm::Module*, ...)`
  unfoldable pub is_unique : String → ℕ → Exec Mod (Unit {0})
  is_unique name row m =
      if has_function m name
      then raise (taken_as "a function") (text name ∷ number (row + 1) ∷ []) m
      else (do
        guard_absent "structures" (taken_as "a structure") name row
        guard_absent "interfaces" (taken_as "an interface") name row
        guard_absent "classes" (taken_as "a data class") name row
        guard_absent "aliases" (taken_as "an alias") name row)
          m

  -- `isUnique(const llvm::IRBuilder<>&, ...)`. The first message has two places and one argument.
  unfoldable pub is_unique_in : Scope → String → ℕ → Exec Mod (Unit {0})
  is_unique_in scope name row =
      if name == "_"
      then raise "identifier `{}` is reserved for discarded assignment values at line {}"
          (number (row + 1) ∷ [])
      else if is_reserved name
      then raise "identifier `{}` is reserved at line {}" (text name ∷ number (row + 1) ∷ [])
      else if contains scope.symbols name
      then raise "identifier `{}` already exists in function `{}` at line {}"
          (text name ∷ text scope.function ∷ number (row + 1) ∷ [])
      else is_unique name row
