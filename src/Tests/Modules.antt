-- ===== src/Tests/Modules.antt =====
-- The theorems on the driver, applied.
use whack.Prelude.{◌≡◌, refl, ◌↔◌, [], ◌∷◌, some}
use whack.Outcome.{Error, Exec, ok, failed, text, number, pure}
use whack.Ast.{Ast, node, nil}
use whack.Metadata.{get_metadata_heads, get_metadata_operand, get_all_metadata_operands}
use whack.Decl.Alias.{add_alias}
use whack.Decl.Ident.{is_unique, guard_absent}
use whack.Decl.Enumeration.{add_options, add_values, value_type, enumeration_codegen}
use whack.Driver.{Element, enumeration, Loaded, compiled, errors, module_codegen, element_codegen}
use whack.Driver.Errors.{Run, done, succeeds, module_codegen-eq-compiled_iff, module_codegen-errors}
use whack.Tests.Nodes.{int_ty}
use whack.Tests.Machine.{Mod, empty_mod, machine}
use whack.Tests.Decls.{colours, after}

abbrev run : Element → Exec Mod (Unit {0})
run = element_codegen machine (λ e. pure tt) 1

abbrev decl : Ast
decl = node "moduledecl|>" "" 0 nil

abbrev once : Loaded
once = record {
  module_decl = some decl;
  module_use = [];
  exports = [];
  elements = enumeration colours ∷ [];
}

abbrev twice : Loaded
twice = record once { elements = enumeration colours ∷ enumeration colours ∷ [] }

colours_succeed : run (enumeration colours) empty_mod ≡ ok tt (after (int_ty 32))
unfolding element_codegen enumeration_codegen value_type add_values add_options add_alias
    get_metadata_heads is_unique guard_absent get_metadata_operand get_all_metadata_operands
colours_succeed = refl

abbrev already : Error
already = record {
  format = "enum option `{}` already exists at line {}";
  args = text "Colour::red" ∷ number 1 ∷ [];
}

colours_fail : run (enumeration colours) (after (int_ty 32)) ≡ failed already (after (int_ty 32))
unfolding element_codegen enumeration_codegen value_type add_values add_options add_alias
    get_metadata_heads is_unique guard_absent get_metadata_operand get_all_metadata_operands
colours_fail = refl

module_codegen-eq-compiled_iff_example :
    (module_codegen run (λ m. m) once empty_mod ≡ compiled (after (int_ty 32)))
    ↔ ((m : Mod) × Run run (enumeration colours ∷ []) empty_mod [] m × (m ≡ after (int_ty 32)))
module_codegen-eq-compiled_iff_example =
    module_codegen-eq-compiled_iff run (λ m. m) once decl empty_mod (after (int_ty 32)) refl

module_codegen-errors_example : module_codegen run (λ m. m) twice empty_mod ≡ errors (already ∷ [])
module_codegen-errors_example =
    module_codegen-errors run (λ m. m) twice decl empty_mod (after (int_ty 32)) (after (int_ty 32))
      (after (int_ty 32)) (enumeration colours ∷ []) [] (enumeration colours) already [] [] refl
      refl (succeeds colours_succeed done) colours_fail done
