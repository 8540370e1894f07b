-- ===== src/Metadata.antt =====
-- ast/metadata.hpp: the tables that the compiler keeps in the named metadata of a module, and
-- `Structure::addMetadata` of ast/structure.hpp, which writes them.
pub mod Table
pub mod Names
use whack.Prelude.{
  ◌≡◌, ℕ, suc, String, ◌==◌, Option, none, some, List, [], ◌∷◌, if◌then◌else◌, index_of,
}
use whack.Llvm.{Llvm, Operand, text, null_of, offset, node}

infixl 5 ◌>>=◌
abbrev pub ◌>>=◌ : {A B : Type 0} → Option A → (A → Option B) → Option B
none >>= f = none
some a >>= f = f a

-- `reinterpret_cast<llvm::MDString*>(operand)->getString()`: undefined, `none`, if the operand is
-- no string.
abbrev pub get_string : {Ty Md : Type 0} → Operand Ty Md → Option String
get_string (text s) = some s
get_string (null_of t) = none
get_string (offset n) = none
get_string (node d) = none

-- Operand 0 as a string.
abbrev pub head_string : {Ty Md : Type 0} → List (Operand Ty Md) → Option String
head_string [] = none
head_string (x ∷ xs) = get_string x

-- The strings at the operands 1, 3, 5, …; the list starts at operand 1.
abbrev pub odd_strings : {Ty Md : Type 0} → List (Operand Ty Md) → Option (List String)
odd_strings [] = some []
odd_strings (x ∷ []) = do s ← get_string x; some (s ∷ [])
odd_strings (x ∷ _ ∷ xs) = do s ← get_string x; rest ← odd_strings xs; some (s ∷ rest)

abbrev pub drop_first : {A : Type 0} → List A → List A
drop_first [] = []
drop_first (x ∷ xs) = xs

abbrev pub front : {A : Type 0} → List A → Option A
front [] = none
front (x ∷ xs) = some x

-- The fields as `addMetadata` pairs them with their positions.
abbrev pub number_from : {Ty Md : Type 0} → ℕ → List String → List (Operand Ty Md × ℕ)
number_from i [] = []
number_from i (field ∷ fields) = (text field, i) ∷ number_from (suc i) fields

module _ (L : Llvm) where
  open L use {Mod, Md, operands, get_named_metadata, tbaa_struct_type_node, add_operand}

  -- The nodes whose operand 0 is the name.
  unfoldable pub matching : String → List Md → Option (List Md)
  matching name [] = some []
  matching name (d ∷ ds) = do
    str ← head_string (operands d)
    rest ← matching name ds
    some (if name == str then d ∷ rest else rest)

  unfoldable pub get_all_metadata_operands : Mod → String → String → Option (List Md)
  get_all_metadata_operands m metadata name = elim (get_named_metadata m metadata) [
    | none ↦ some []
    | some ds ↦ matching name ds
  ]

  unfoldable pub get_metadata_operand : Mod → String → String → Option (Option Md)
  get_metadata_operand m metadata name = do
    ds ← get_all_metadata_operands m metadata name
    some (front ds)

  -- `getMetadataParts<1>(module, metadata)`: operand 0 of each node.
  unfoldable pub heads : List Md → Option (List String)
  heads [] = some []
  heads (d ∷ ds) = do s ← head_string (operands d); rest ← heads ds; some (s ∷ rest)

  unfoldable pub get_metadata_heads : Mod → String → Option (List String)
  get_metadata_heads m metadata = elim (get_named_metadata m metadata) [
    | none ↦ some []
    | some ds ↦ heads ds
  ]

  unfoldable pub parts_of : Option Md → Option (List String)
  parts_of none = some []
  parts_of (some d) = odd_strings (drop_first (operands d))

  -- `getMetadataParts(module, metadata, name)`
  unfoldable pub get_metadata_parts : Mod → String → String → Option (List String)
  get_metadata_parts m metadata name = do op ← get_metadata_operand m metadata name; parts_of op

  unfoldable pub get_metadata_part_index : Mod → String → String → String → Option (Option ℕ)
  get_metadata_part_index m metadata name part = do
    parts ← get_metadata_parts m metadata name
    some (index_of parts part)

  -- It reads the table only.
  pub get_metadata_part_index-table :
      (m m' : Mod) (metadata name part : String)
      → get_named_metadata m metadata ≡ get_named_metadata m' metadata
      → get_metadata_part_index m metadata name part ≡ get_metadata_part_index m' metadata name part
  unfolding get_metadata_part_index get_metadata_parts get_metadata_operand
      get_all_metadata_operands
  get_metadata_part_index-table m m' metadata name part h = rw (
    get_metadata_part_index, get_metadata_parts, get_metadata_operand, get_all_metadata_operands, h,
  )

  -- `Structure::addMetadata`
  unfoldable pub add_metadata : String → List String → Mod → Mod
  add_metadata name fields m =
      add_operand "structures" (tbaa_struct_type_node name (number_from 0 fields)) m
