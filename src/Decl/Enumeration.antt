-- ===== src/Decl/Enumeration.antt =====
-- ast/enumeration.hpp: `type E enum : T { a, b }`.
pub mod Values
use Prim.Native.Nat.{bit_xor}
use whack.Prelude.{
  ℕ, suc, ◌+◌, String, ◌==◌, ◌<>◌, Bool, Option, none, some, List, [], ◌∷◌, not, if◌then◌else◌,
  length, ltb,
}
use whack.Outcome.{Exec, text, number, ◌>>=◌, ◌>>◌, pure, raise, modify}
use whack.Ast.{Ast, child, row, contents, get_ident_list}
use whack.Llvm.{Llvm}
use whack.Metadata
use whack.Types.Codegen.{get_type, type_codegen}
use whack.Decl.Alias.{add_alias}

pub record Enumeration : Type 0 where
  pub row : ℕ
  pub name : String
  pub underlying_type : Option Ast
  pub options : List String

-- The constructor: behind the name stands `enum { ... }` or `enum : T { ... }`.
unfoldable pub enumeration_of_ast : Ast → Option Enumeration
enumeration_of_ast a = Metadata.◌>>=◌ (child a 1) λ n. Metadata.◌>>=◌ (child a 2) λ ref.
    Metadata.◌>>=◌ (child ref 1) λ sep.
      if contents sep == ":"
      then (Metadata.◌>>=◌ (child ref 2) λ t. Metadata.◌>>=◌ (child ref 4) λ ids. some (record {
        row = row a;
        name = contents n;
        underlying_type = some t;
        options = get_ident_list ids;
      }))
      else (Metadata.◌>>=◌ (child ref 2) λ ids. some (record {
        row = row a;
        name = contents n;
        underlying_type = none;
        options = get_ident_list ids;
      }))

module _ (L : Llvm) where
  open L use {
    Ty, Mod, int_ty, is_integer_ty, type_size_in_bits, has_named_value, add_global, const_int,
  }

  -- The type of the values: `int` where the source names none.
  unfoldable pub value_type : ℕ → Option Ast → Exec Mod Ty
  value_type fuel none = pure (int_ty 32)
  value_type fuel (some a) = type_codegen L (get_type L fuel) a

  -- `format("{}::{}", name_, option)`
  abbrev pub option_name : String → String → String
  option_name name option = name <> ("::" <> option)

  -- The loop of `codegen` from the option `i` on.
  unfoldable pub add_options : String → Ty → ℕ → List String → ℕ → Exec Mod (Unit {0})
  add_options name t i [] row m = pure tt m
  add_options name t i (o ∷ os) row m =
      let rest =
        add_options name t (suc i) os row (add_global t (const_int t i) (option_name name o) m) in
      if has_named_value m (option_name name o)
      then raise "enum option `{}` already exists at line {}"
          (text (option_name name o) ∷ number (row + 1) ∷ []) m
      else rest

  -- `codegen` behind the type. `2 ^ bits` of the source is C++'s exclusive or.
  unfoldable pub add_values : Enumeration → Ty → Exec Mod (Unit {0})
  add_values e t m =
      if not (is_integer_ty t)
      then raise "cannot use a non-integral type for enum values at line {}"
          (number (e.row + 1) ∷ []) m
      else if ltb (bit_xor 2 (type_size_in_bits m t)) (length e.options)
      then raise
          "type provided for enum `{}` has insufficient size to hold the enum values at line {}"
          (text e.name ∷ number (e.row + 1) ∷ []) m
      else (add_options e.name t 0 e.options e.row >> add_alias L e.name t e.row) m

  unfoldable pub enumeration_codegen : ℕ → Enumeration → Exec Mod (Unit {0})
  enumeration_codegen fuel e = value_type fuel e.underlying_type >>= add_values e
