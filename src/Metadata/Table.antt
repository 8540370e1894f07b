-- ===== src/Metadata/Table.antt =====
-- The named metadata "structures" (and every other table of struct nodes) as a table from names to
-- lists of parts: what the readers of ast/metadata.hpp find, and what `addMetadata` adds.
use mathlib.Core.Option
use whack.Prelude.{
  ℕ, zero, suc, ◌<◌, String, ◌==◌, ◌≡◌, refl, sym, ◌∙◌, ◌≢◌, ◌↔◌, ◌⊎◌, ap, Bool, true, false,
  Option, none, some, List, [], ◌∷◌, ◌++◌, map, map-append, arith, eq_iff, eq_refl, if◌then◌else◌,
  index_of, contains, get_or_nil, get_elem?,
}
use whack.Llvm.{Llvm, flatten_fields}
use whack.Metadata.{
  number_from, odd_strings, front, matching, parts_of, get_all_metadata_operands,
  get_metadata_operand, get_metadata_parts, get_metadata_part_index, add_metadata,
}

-- A name with its parts.
abbrev pub Row : Type 0
Row = String × List String

-- The parts of the first row of that name; a name that is not there has none.
abbrev pub lookup_parts : String → List Row → List String
lookup_parts name [] = []
lookup_parts name ((n, parts) ∷ rows) = if name == n then parts else lookup_parts name rows

abbrev pub has_row : String → List Row → Bool
has_row name [] = false
has_row name ((n, parts) ∷ rows) = if name == n then true else has_row name rows

module _ (L : Llvm) where
  open L use {
    Mod, Md, Ty, operands, get_named_metadata, tbaa_struct_type_node, add_operand,
    operands-tbaa_struct_type_node, get_named_metadata-add_operand,
  }

  abbrev pub row_node : Row → Md
  row_node (name, parts) = tbaa_struct_type_node name (number_from 0 parts)

  -- The table of the module at a key.
  abbrev pub Represents : Mod → String → List Row → Type 0
  Represents m key rows = get_or_nil (get_named_metadata m key) ≡ map row_node rows

  odd_strings-flatten_fields :
      (i : ℕ) (parts : List String)
      → odd_strings {Ty = Ty} {Md = Md} (flatten_fields (number_from i parts)) ≡ some parts
  odd_strings-flatten_fields i [] = refl
  odd_strings-flatten_fields i (x ∷ parts) = rw (odd_strings-flatten_fields (suc i) parts)

  parts_of-row_node : (row : Row) → parts_of L (some (row_node row)) ≡ some row.1
  unfolding parts_of
  parts_of-row_node (name, parts) =
      rw operands-tbaa_struct_type_node (odd_strings-flatten_fields 0 parts)

  abbrev rows_of : String → List Row → List Row
  rows_of name [] = []
  rows_of name ((n, parts) ∷ rows) =
      let rest = rows_of name rows in if name == n then (n, parts) ∷ rest else rest

  matching-row_node :
      (name : String) (rows : List Row)
      → matching L name (map row_node rows) ≡ some (map row_node (rows_of name rows))
  unfolding matching
  matching-row_node name [] = refl
  matching-row_node name ((n, parts) ∷ rows) =
      rw (operands-tbaa_struct_type_node, matching-row_node name rows) (ground arith)

  pub get_all_metadata_operands-matching :
      (m : Mod) (key name : String)
      → get_all_metadata_operands L m key name
        ≡ matching L name (get_or_nil (get_named_metadata m key))
  unfolding get_all_metadata_operands matching
  get_all_metadata_operands-matching m key name = ground arith

  get_all_metadata_operands-Represents :
      (m : Mod) (key name : String) (rows : List Row)
      → Represents m key rows
      → get_all_metadata_operands L m key name ≡ some (map row_node (rows_of name rows))
  get_all_metadata_operands-Represents m key name rows h =
      get_all_metadata_operands-matching m key name ∙ rw h (matching-row_node name rows)

  parts_of-rows_of :
      (name : String) (rows : List Row)
      → parts_of L (front (map row_node (rows_of name rows))) ≡ some (lookup_parts name rows)
  unfolding parts_of
  parts_of-rows_of name [] = refl
  parts_of-rows_of name ((n, parts) ∷ rows) =
      ground (arith, parts_of-rows_of name rows, parts_of-row_node (n, parts))

  -- Looking a name up in a table of the module gives the parts of the first row of that name, and
  -- nothing if there is no such row; no read is undefined.
  pub get_metadata_parts-Represents :
      (m : Mod) (key name : String) (rows : List Row)
      → Represents m key rows
      → get_metadata_parts L m key name ≡ some (lookup_parts name rows)
  unfolding get_metadata_parts get_metadata_operand
  get_metadata_parts-Represents m key name rows h =
      rw (get_all_metadata_operands-Represents m key name rows h) (parts_of-rows_of name rows)

  pub get_metadata_part_index-Represents :
      (m : Mod) (key name part : String) (rows : List Row)
      → Represents m key rows
      → get_metadata_part_index L m key name part ≡ some (index_of (lookup_parts name rows) part)
  unfolding get_metadata_part_index
  get_metadata_part_index-Represents m key name part rows h =
      rw (get_metadata_parts-Represents m key name rows h)

  abbrev is_some_md : Option Md → Bool
  is_some_md none = false
  is_some_md (some d) = true

  front-rows_of :
      (name : String) (rows : List Row)
      → is_some_md (front (map row_node (rows_of name rows))) ≡ has_row name rows
  front-rows_of name [] = refl
  front-rows_of name ((n, parts) ∷ rows) = ground (arith, front-rows_of name rows)

  -- `getMetadataOperand(...)` used as a test: is there a row of that name?
  pub get_metadata_operand-Represents :
      (m : Mod) (key name : String) (rows : List Row)
      → Represents m key rows
      → Option.map is_some_md (get_metadata_operand L m key name) ≡ some (has_row name rows)
  unfolding get_metadata_operand
  get_metadata_operand-Represents m key name rows h =
      rw (get_all_metadata_operands-Represents m key name rows h)
        (ap some (front-rows_of name rows))

  get_or_nil-add_operand :
      (m : Mod) (key : String) (d : Md)
      → get_or_nil (get_named_metadata (add_operand key d m) key)
        ≡ get_or_nil (get_named_metadata m key) ++ d ∷ []
  get_or_nil-add_operand m key d = rw (get_named_metadata-add_operand, eq_refl)

  -- `addMetadata` appends one row to the table "structures".
  pub add_metadata-Represents :
      (m : Mod) (name : String) (fields : List String) (rows : List Row)
      → Represents m "structures" rows
      → Represents (add_metadata L name fields m) "structures" (rows ++ (name, fields) ∷ [])
  unfolding add_metadata
  add_metadata-Represents m name fields rows h =
      get_or_nil-add_operand m "structures" _ ∙ rw h (sym (map-append row_node rows _))

lookup_parts-append :
    (name n : String) (parts : List String) (rows : List Row)
    → lookup_parts name (rows ++ (n, parts) ∷ [])
      ≡ (if has_row name rows then lookup_parts name rows else if name == n then parts else [])
lookup_parts-append name n parts [] = refl
lookup_parts-append name n parts ((k, ps) ∷ rows) =
    ground (arith, lookup_parts-append name n parts rows)

lookup_parts-absent :
    (name : String) (rows : List Row) → has_row name rows ≡ false → lookup_parts name rows ≡ []
lookup_parts-absent name [] h = refl
lookup_parts-absent name ((k, ps) ∷ rows) h = ground (arith, lookup_parts-absent name rows)

lookup_parts-append_other :
    (name n : String) (parts : List String) (rows : List Row)
    → (has_row name rows ≡ true) ⊎ (name ≢ n)
    → lookup_parts name (rows ++ (n, parts) ∷ []) ≡ lookup_parts name rows
lookup_parts-append_other name n parts rows old =
    ground
      (arith, lookup_parts-append name n parts rows, lookup_parts-absent name rows, eq_iff name n)

-- A field that does not repeat an earlier one is at its position.
index_of-get_elem? :
    (xs : List String) (i : ℕ) (x : String)
    → get_elem? xs i ≡ some x
    → ((j : ℕ) → j < i → get_elem? xs j ≢ some x)
    → index_of xs x ≡ some i
index_of-get_elem? [] i x h first = cc
index_of-get_elem? (y ∷ xs) zero x h first = ground (arith, eq_iff y x)
index_of-get_elem? (y ∷ xs) (suc i) x h first =
    ground
      (arith, eq_iff y x, first 0, index_of-get_elem? xs i x h (λ j p. first (suc j) (omega arith)))

-- A text has a position exactly if it occurs.
pub contains-index_of :
    (xs : List String) (x : String) → (contains xs x ≡ false) ↔ (index_of xs x ≡ none)
contains-index_of [] x = (λ _. refl, λ _. refl)
contains-index_of (y ∷ xs) x = ground (arith, contains-index_of xs x)

module _ (L : Llvm) where
  open L use {Mod}

  -- Writing the fields of a struct whose name is new, and reading them back, gives the fields.
  pub get_metadata_parts-add_metadata :
      (m : Mod) (name : String) (fields : List String) (rows : List Row)
      → Represents L m "structures" rows
      → has_row name rows ≡ false
      → get_metadata_parts L (add_metadata L name fields m) "structures" name ≡ some fields
  get_metadata_parts-add_metadata m name fields rows h fresh =
      get_metadata_parts-Represents L _ "structures" name _
        (add_metadata-Represents L m name fields rows h)
      ∙ rw (lookup_parts-append name name fields rows, fresh, eq_refl)

  -- Writing a struct changes what is read of no other name, and of no name that was there before,
  -- its own included: of two structs of one name the first is read.
  pub get_metadata_parts-add_metadata_other :
      (m : Mod) (name other : String) (fields : List String) (rows : List Row)
      → Represents L m "structures" rows
      → (has_row other rows ≡ true) ⊎ (other ≢ name)
      → get_metadata_parts L (add_metadata L name fields m) "structures" other
        ≡ get_metadata_parts L m "structures" other
  get_metadata_parts-add_metadata_other m name other fields rows h old =
      get_metadata_parts-Represents L _ "structures" other _
        (add_metadata-Represents L m name fields rows h)
      ∙ ap some (lookup_parts-append_other other name fields rows old)
      ∙ sym (get_metadata_parts-Represents L m "structures" other rows h)

  -- The index of a field of a struct whose name is new is its position among the fields.
  pub get_metadata_part_index-add_metadata :
      (m : Mod) (name : String) (fields : List String) (rows : List Row) (i : ℕ) (field : String)
      → Represents L m "structures" rows
      → has_row name rows ≡ false
      → get_elem? fields i ≡ some field
      → ((j : ℕ) → j < i → get_elem? fields j ≢ some field)
      → get_metadata_part_index L (add_metadata L name fields m) "structures" name field
        ≡ some (some i)
  unfolding get_metadata_part_index
  get_metadata_part_index-add_metadata m name fields rows i field h fresh at first =
      rw (get_metadata_parts-add_metadata m name fields rows h fresh)
        (ap some (index_of-get_elem? fields i field at first))

  -- The same for a row that is added to any table.
  pub get_metadata_part_index-append :
      (m : Mod) (key name : String) (parts : List String) (rows : List Row) (i : ℕ) (part : String)
      → Represents L m key (rows ++ (name, parts) ∷ [])
      → has_row name rows ≡ false
      → get_elem? parts i ≡ some part
      → ((j : ℕ) → j < i → get_elem? parts j ≢ some part)
      → get_metadata_part_index L m key name part ≡ some (some i)
  get_metadata_part_index-append m key name parts rows i part h fresh at first =
      get_metadata_part_index-Represents L m key name part _ h
      ∙ rw (lookup_parts-append name name parts rows, fresh, eq_refl)
          (ap some (index_of-get_elem? parts i part at first))
