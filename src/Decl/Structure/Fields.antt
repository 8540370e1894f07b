-- ===== src/Decl/Structure/Fields.antt =====
-- What a struct declaration leaves in the module: the metadata that name its fields and the body
-- that holds their types agree, field by field.
use whack.Prelude.{
  ℕ, ◌<◌, String, ◌≡◌, refl, ◌∙◌, ◌≢◌, false, none, some, List, [], ◌∷◌, ◌++◌, map, get_elem?,
  get_elem?-map,
}
use whack.Outcome.{ok}
use whack.Llvm.{Llvm}
use whack.Metadata.{add_metadata, get_metadata_part_index, get_metadata_parts}
use whack.Metadata.Names.{get_metadata_parts-named}
use whack.Metadata.Table.{
  Row, Represents, has_row, get_metadata_part_index-add_metadata, get_metadata_parts-add_metadata,
}
use whack.Types.Codegen.{get_type, type_codegen}
use whack.Decl.Structure.{DeclAssign, Structure, struct_fields, fill_struct, structure_codegen}

module _ (L : Llvm) where
  open L use {Ty, Mod, create_struct, set_body, get_type_by_name, get_struct_body}

  -- The fields that members declare when their types are the listed ones, one for each member.
  abbrev pub fields_of : List DeclAssign → List Ty → List (String × Ty)
  fields_of (d ∷ ds) (t ∷ ts) = map (λ v. (v, t)) d.variables ++ fields_of ds ts
  fields_of _ _ = []

  -- The members have these types in the module.
  abbrev pub HaveTypes : ℕ → Mod → List DeclAssign → List Ty → Type 0
  HaveTypes fuel m [] [] = Unit
  HaveTypes fuel m [] (t ∷ ts) = ⊥
  HaveTypes fuel m (d ∷ ds) [] = ⊥
  HaveTypes fuel m (d ∷ ds) (t ∷ ts) =
      (type_codegen L (get_type L fuel) d.type m ≡ ok t m) × HaveTypes fuel m ds ts

  struct_fields-HaveTypes :
      (fuel : ℕ) (m : Mod) (ds : List DeclAssign) (ts : List Ty)
      → HaveTypes fuel m ds ts
      → struct_fields L fuel ds m ≡ ok (fields_of ds ts) m
  unfolding struct_fields
  struct_fields-HaveTypes fuel m [] [] h = refl
  struct_fields-HaveTypes fuel m [] (t ∷ ts) h = elim h [ ]
  struct_fields-HaveTypes fuel m (d ∷ ds) [] h = elim h [ ]
  struct_fields-HaveTypes fuel m (d ∷ ds) (t ∷ ts) h =
      rw (h.0, struct_fields-HaveTypes fuel m ds ts h.1)

  abbrev pub made : Mod → Structure → Mod
  made m s = (create_struct s.name m).1

  abbrev pub struct_of : Mod → Structure → Ty
  struct_of m s = (create_struct s.name m).0

  -- The module behind the declaration.
  abbrev pub declared : Mod → Structure → List Ty → Mod
  declared m s ts =
      set_body (struct_of m s) (map (λ f. f.1) (fields_of s.members ts))
        (add_metadata L s.name (map (λ f. f.0) (fields_of s.members ts)) (made m s))

  structure_codegen-declared :
      (fuel : ℕ) (m : Mod) (s : Structure) (ts : List Ty)
      → HaveTypes fuel (made m s) s.members ts
      → structure_codegen L fuel s m ≡ ok tt (declared m s ts)
  unfolding structure_codegen fill_struct
  structure_codegen-declared fuel m s ts h =
      rw (struct_fields-HaveTypes fuel (made m s) s.members ts h)

  made-Represents :
      (m : Mod) (s : Structure) (rows : List Row)
      → Represents L m "structures" rows
      → Represents L (made m s) "structures" rows
  made-Represents m s rows h = rw (L.get_named_metadata-create_struct, h) refl

  get_metadata_parts-set_body :
      (m : Mod) (t : Ty) (ts : List Ty) (key name : String)
      → get_metadata_parts L (set_body t ts m) key name ≡ get_metadata_parts L m key name
  get_metadata_parts-set_body m t ts key name =
      get_metadata_parts-named L _ m key name (L.get_named_metadata-set_body t ts m key)

  get_metadata_part_index-set_body :
      (m : Mod) (t : Ty) (ts : List Ty) (key name part : String)
      → get_metadata_part_index L (set_body t ts m) key name part
        ≡ get_metadata_part_index L m key name part
  unfolding get_metadata_part_index
  get_metadata_part_index-set_body m t ts key name part =
      rw (get_metadata_parts-set_body m t ts key name)

  get_type_by_name-declared :
      (m : Mod) (s : Structure) (ts : List Ty)
      → get_type_by_name m s.name ≡ none
      → get_type_by_name (declared m s ts) s.name ≡ some (struct_of m s)
  unfolding add_metadata
  get_type_by_name-declared m s ts absent =
      rw (L.get_type_by_name-set_body, L.get_type_by_name-add_operand)
        (L.get_type_by_name-create_struct s.name m absent)

  -- A struct whose name is new, and whose members have types once the struct is known, is declared:
  -- its name stands for a type, and the field at a position, when no earlier field has its name,
  -- has the position as its index, and its type stands at that position of the body.
  pub structure_codegen-fields :
      (fuel : ℕ) (m : Mod) (s : Structure) (ts : List Ty) (rows : List Row)
      → Represents L m "structures" rows
      → has_row s.name rows ≡ false
      → get_type_by_name m s.name ≡ none
      → HaveTypes fuel (made m s) s.members ts
      → (structure_codegen L fuel s m ≡ ok tt (declared m s ts))
        × (get_type_by_name (declared m s ts) s.name ≡ some (struct_of m s))
        × (get_metadata_parts L (declared m s ts) "structures" s.name
            ≡ some (map (λ f. f.0) (fields_of s.members ts)))
        × ((i : ℕ) (field : String) (t : Ty)
            → get_elem? (fields_of s.members ts) i ≡ some (field, t)
            → ((j : ℕ) → j < i → get_elem? (map (λ f. f.0) (fields_of s.members ts)) j ≢ some field)
            → (get_metadata_part_index L (declared m s ts) "structures" s.name field
                ≡ some (some i))
              × (get_elem? (get_struct_body (declared m s ts) (struct_of m s)) i ≡ some t))
  structure_codegen-fields fuel m s ts rows table fresh absent types =
      let known = made-Represents m s rows table in
      (
        structure_codegen-declared fuel m s ts types,
        get_type_by_name-declared m s ts absent,
        get_metadata_parts-set_body _ _ _ "structures" s.name
            ∙ get_metadata_parts-add_metadata L (made m s) s.name _ rows known fresh,
        λ i field t at first. (
          get_metadata_part_index-set_body _ _ _ "structures" s.name field
              ∙ get_metadata_part_index-add_metadata L (made m s) s.name _ rows i field known fresh
                  (get_elem?-map (λ f. f.0) (fields_of s.members ts) i (field, t) at) first,
          rw L.get_struct_body-set_body
              (get_elem?-map (λ f. f.1) (fields_of s.members ts) i (field, t) at),
        ),
      )
