-- ===== src/Tests/Tables.antt =====
-- The theorems on tags, on the named metadata and on free names, applied.
use whack.Prelude.{String, ◌≡◌, refl, ◌≢◌, ◌↔◌, inr, eq_iff, true, false, List, [], ◌∷◌, contains}
use whack.Outcome.{ok}
use whack.Ast.{is_reserved}
use whack.Metadata.{get_metadata_parts, add_metadata}
use whack.Metadata.Table.{get_metadata_parts-add_metadata_other}
use whack.Decl.Ident.{Scope, is_unique, is_unique_in}
use whack.Decl.Ident.Unique.{
  Registry, IsRegistry, is_free, is_unique-eq-ok_iff, is_unique_in-eq-ok_iff,
}
use whack.Tests.Machine.{Mod, empty_mod, machine}

abbrev point : List String
point = "x" ∷ "y" ∷ []

abbrev with_point : Mod
with_point = add_metadata machine "Point" point empty_mod

get_metadata_parts-add_metadata_other_example :
    get_metadata_parts machine
      (add_metadata machine "Line" ("a" ∷ "b" ∷ []) empty_mod)
      "structures"
      "Point"
    ≡ get_metadata_parts machine empty_mod "structures" "Point"
get_metadata_parts-add_metadata_other_example =
    get_metadata_parts-add_metadata_other machine empty_mod "Line" "Point" ("a" ∷ "b" ∷ []) [] refl
      (inr (λ p. cc ((eq_iff "Point" "Line").1 p)))

abbrev pub no_names : Registry
no_names = record { structures = []; interfaces = []; classes = []; aliases = [] }

pub empty_mod-IsRegistry : IsRegistry machine empty_mod no_names
empty_mod-IsRegistry = record { structures = tt; interfaces = tt; classes = tt; aliases = tt }

is_unique-eq-ok_iff_example :
    (is_unique machine "Point" 3 empty_mod ≡ ok tt empty_mod)
    ↔ (is_free machine empty_mod no_names "Point" ≡ true)
is_unique-eq-ok_iff_example =
    is_unique-eq-ok_iff machine empty_mod no_names "Point" 3 empty_mod-IsRegistry

abbrev main_scope : Scope
main_scope = record { function = "main"; symbols = "x" ∷ [] }

abbrev variable : String
variable = "x"

is_unique_in-eq-ok_iff_example :
    (is_unique_in machine main_scope variable 3 empty_mod ≡ ok tt empty_mod) ↔ (
      (variable ≢ "_")
      × (is_reserved variable ≡ false)
      × (contains main_scope.symbols variable ≡ false)
      × (is_free machine empty_mod no_names variable ≡ true))
is_unique_in-eq-ok_iff_example =
    is_unique_in-eq-ok_iff machine empty_mod no_names main_scope variable 3 empty_mod-IsRegistry
