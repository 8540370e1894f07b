-- ===== src/Tests/Types.antt =====
-- The theorems on types, applied.
use whack.Prelude.{◌≡◌, ◌≢◌, arith}
use whack.Outcome.{ok, out_of_fuel}
use whack.Outcome.Rules.{Settles}
use whack.Types.{get_type_name, pointers}
use whack.Types.Codegen.{get_type, str}
use whack.Types.Scalars.{int, type_ast, scalar_ty, get_type-type_ast}
use whack.Types.Fuel.{get_type-ne-out_of_fuel}
use whack.Tests.Machine.{empty_mod, machine}

get_type-type_ast_example :
    (get_type machine 2 (type_ast int 0 2) empty_mod
      ≡ ok (pointers machine 2 (scalar_ty machine int)) empty_mod)
    × (get_type_name machine (pointers machine 2 (scalar_ty machine int)) ≡ str (type_ast int 0 2))
get_type-type_ast_example = get_type-type_ast machine int 2 0 2 empty_mod (omega arith)

get_type-ne-out_of_fuel_example :
    (get_type machine 2 (type_ast int 0 2) empty_mod ≢ out_of_fuel)
    × Settles empty_mod (get_type machine 2 (type_ast int 0 2) empty_mod)
get_type-ne-out_of_fuel_example =
    get_type-ne-out_of_fuel machine 2 (type_ast int 0 2) empty_mod (omega arith)
