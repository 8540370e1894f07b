-- ===== src/Tests/Decls.antt =====
-- The theorems on declarations, applied.
use whack.Prelude.{ℕ, ◌<◌, String, ◌≡◌, refl, ◌≢◌, none, some, List, [], ◌∷◌, ◌++◌, get_elem?}
use whack.Outcome.{ok, failed, fault, out_of_fuel}
use whack.Ast.{get_innermost_ast_tag, after_last_bar}
use whack.Metadata.{
  matching, get_metadata_operand, get_all_metadata_operands, get_metadata_parts,
  get_metadata_part_index,
}
use whack.Types.{basic_type}
use whack.Types.Codegen.{
  get_from_type_name, type_codegen, get_type, is_mutable, codegen_ref, or_no_such_type,
}
use whack.Types.Scalars.{int, bool, type_ast}
use whack.Decl.Alias.{add_alias}
use whack.Decl.Alias.Lookup.{with_alias, get_from_type_name-add_alias}
use whack.Decl.Enumeration.{Enumeration, add_values}
use whack.Decl.Structure.{Structure, structure_codegen}
use whack.Decl.Structure.Fields.{declared, fields_of, struct_of, structure_codegen-fields}
use whack.Decl.Ident.Unique.{Registry, IsRegistry}
use whack.Decl.Interface.{
  Interface, ident, func_nodes, funcs_of_operands, func_of_operand, type_of_operand,
  interface_codegen, get_funcs_info,
}
use whack.Decl.Interface.Table.{interface_codegen-funcs, join, own}
use whack.Tests.Tables.{no_names, empty_mod-IsRegistry}
use whack.Tests.Nodes.{Ty, int_ty, pointer_to}
use whack.Tests.Machine.{Mod, empty_mod, machine}

size_unknown : basic_type machine "Size" ≡ none
unfolding basic_type
size_unknown = refl

get_from_type_name-add_alias_example :
    (add_alias machine "Size" (int_ty 32) 0 empty_mod
      ≡ ok tt (with_alias machine "Size" (int_ty 32) empty_mod))
    × (get_from_type_name machine "Size" (with_alias machine "Size" (int_ty 32) empty_mod)
        ≡ some (some (int_ty 32)))
    × ((other : String)
        → other ≢ "Size"
        → get_from_type_name machine other (with_alias machine "Size" (int_ty 32) empty_mod)
          ≡ get_from_type_name machine other empty_mod)
get_from_type_name-add_alias_example =
    get_from_type_name-add_alias machine empty_mod no_names [] "Size" (int_ty 32) 0
      empty_mod-IsRegistry refl refl (size_unknown, refl, refl)

abbrev pub colours : Enumeration
colours = record {
  row = 0;
  name = "Colour";
  underlying_type = none;
  options = "red" ∷ "green" ∷ "blue" ∷ [];
}

-- `add_values` of the enumeration on the empty module, and what it reaches.
abbrev pub after : Ty → Mod
after t = elim (add_values machine colours t empty_mod) [
  | ok a m ↦ m
  | failed e m ↦ m
  | fault ↦ empty_mod
  | out_of_fuel ↦ empty_mod
]

abbrev last : ℕ
last = 2

abbrev point : Structure
point = record {
  row = 0;
  name = "Point";
  members =
      record { type = type_ast int 0 0; variables = "x" ∷ "y" ∷ [] }
      ∷ record { type = type_ast bool 0 0; variables = "on" ∷ [] }
      ∷ [];
}

abbrev point_types : List Ty
point_types = int_ty 32 ∷ int_ty 1 ∷ []

pub type_codegen_int :
    (m : Mod) → type_codegen machine (get_type machine 1) (type_ast int 0 0) m ≡ ok (int_ty 32) m
unfolding type_codegen is_mutable codegen_ref or_no_such_type get_from_type_name basic_type
    get_innermost_ast_tag after_last_bar
type_codegen_int m = refl

type_codegen_bool :
    (m : Mod) → type_codegen machine (get_type machine 1) (type_ast bool 0 0) m ≡ ok (int_ty 1) m
unfolding type_codegen is_mutable codegen_ref or_no_such_type get_from_type_name basic_type
    get_innermost_ast_tag after_last_bar
type_codegen_bool m = refl

structure_codegen-fields_example :
    (structure_codegen machine 1 point empty_mod
      ≡ ok tt (declared machine empty_mod point point_types))
    × ((declared machine empty_mod point point_types).types "Point"
        ≡ some (struct_of machine empty_mod point))
    × (get_metadata_parts machine
          (declared machine empty_mod point point_types)
          "structures"
          "Point"
        ≡ some ("x" ∷ "y" ∷ "on" ∷ []))
    × ((i : ℕ) (field : String) (t : Ty)
        → get_elem? (fields_of machine point.members point_types) i ≡ some (field, t)
        → ((j : ℕ) → j < i → get_elem? ("x" ∷ "y" ∷ "on" ∷ []) j ≢ some field)
        → (get_metadata_part_index machine
              (declared machine empty_mod point point_types)
              "structures"
              "Point"
              field
            ≡ some (some i))
          × (get_elem?
                ((declared machine empty_mod point point_types).bodies
                  (struct_of machine empty_mod point))
                i
              ≡ some t))
structure_codegen-fields_example =
    structure_codegen-fields machine 1 empty_mod point point_types [] refl refl refl
      (type_codegen_int _, (type_codegen_bool _, tt))

-- Two interfaces of one function each, and one that inherits both.
abbrev with_two : Mod
with_two =
    machine.add_operand "interfaces"
      (machine.tbaa_struct_type_node "Tall"
        (func_nodes machine 0 (("height", pointer_to (int_ty 32)) ∷ [])))
      (machine.add_operand "interfaces"
        (machine.tbaa_struct_type_node "Round"
          (func_nodes machine 0 (("radius", pointer_to (int_ty 64)) ∷ [])))
        empty_mod)

abbrev two_names : Registry
two_names = record {
  structures = [];
  interfaces = "Round" ∷ "Tall" ∷ [];
  classes = [];
  aliases = [];
}

with_two-IsRegistry : IsRegistry machine with_two two_names
with_two-IsRegistry = record {
  structures = tt;
  interfaces = (refl, (refl, tt));
  classes = tt;
  aliases = tt;
}

abbrev barrel : Interface
barrel = record {
  row = 0;
  name = "Barrel";
  inherits = ident "Round" ∷ ident "Tall" ∷ [];
  functions = (type_ast int 0 0, "volume") ∷ [];
}

abbrev inherited : List (List (String × Ty))
inherited =
    (("radius", pointer_to (int_ty 64)) ∷ []) ∷ (("height", pointer_to (int_ty 32)) ∷ []) ∷ []

round_funcs :
    get_funcs_info machine "Round" 0 with_two
    ≡ ok (("radius", pointer_to (int_ty 64)) ∷ []) with_two
unfolding get_funcs_info get_metadata_operand get_all_metadata_operands matching funcs_of_operands
    func_of_operand type_of_operand
round_funcs = refl

tall_funcs :
    get_funcs_info machine "Tall" 0 with_two ≡ ok (("height", pointer_to (int_ty 32)) ∷ []) with_two
unfolding get_funcs_info get_metadata_operand get_all_metadata_operands matching funcs_of_operands
    func_of_operand type_of_operand
tall_funcs = refl

interface_codegen-funcs_example :
    (m' : Mod) × (interface_codegen machine 1 barrel with_two ≡ ok tt m')
    × (get_funcs_info machine "Barrel" 0 m'
        ≡ ok (join machine inherited ++ own machine barrel.functions (int_ty 32 ∷ [])) m')
    × (t : Ty) × (m'.types "interface::Barrel" ≡ some t)
    × (m'.bodies t ≡ pointer_to (int_ty 32) ∷ pointer_to (int_ty 32) ∷ [])
interface_codegen-funcs_example =
    interface_codegen-funcs machine 1 with_two barrel two_names inherited (int_ty 32 ∷ []) 0
      with_two-IsRegistry refl refl (round_funcs, (tall_funcs, tt)) (type_codegen_int _, tt) refl
