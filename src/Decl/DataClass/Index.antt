-- ===== src/Decl/DataClass/Index.antt =====
-- The row of a data class in the table "classes", where `DataClass::getIndex` finds a constructor.
use whack.Prelude.{
  ℕ, ◌<◌, ◌≤◌, String, ◌<>◌, ◌≡◌, sym, ap, ◌∙◌, ◌≢◌, false, none, some, List, [], ◌∷◌, ◌++◌, map,
  arith, get_elem?, Bool-cases, inl, inr, Option-cases, map-append,
}
use whack.Outcome.{ok, ◌>>=◌}
use whack.Outcome.Rules.{Settles-state, bind-eq-ok}
use whack.Ast.{Ast, height}
use whack.Llvm.{Llvm}
use whack.Metadata.{get_metadata_part_index}
use whack.Metadata.Table.{Row, Represents, has_row, row_node, get_metadata_part_index-append}
use whack.Types.Codegen.{TypeList, get_type, get_type_list}
use whack.Types.Fuel.{get_type_list-Settles_at}
use whack.Decl.DataClass.{
  Variant, DataClass, add_typed, add_variant, add_variants, add_class, variant_name, define_class,
  data_class_codegen,
}

-- The fuel covers the type lists of the constructors.
abbrev pub AreLow : ℕ → List Variant → Type 0
AreLow fuel [] = Unit
AreLow fuel (v ∷ vs) = ((a : Ast) → v.types ≡ some a → height a ≤ fuel) × AreLow fuel vs

module _ (L : Llvm) where
  open L use {Ty, Mod, create_struct, set_body, get_named_metadata, add_operand}

  -- A struct type that is created and filled, and the tables behind it.
  defined-table :
      (ts : List Ty) (name key : String) (m m' : Mod)
      → set_body (create_struct name m).0 ts (create_struct name m).1 ≡ m'
      → get_named_metadata m' key ≡ get_named_metadata m key
  defined-table ts name key m m' same =
      rw (sym same, L.get_named_metadata-set_body, L.get_named_metadata-create_struct)

  add_typed-table :
      (c : DataClass) (v : Variant) (n b : ℕ) (l : TypeList Ty) (key : String) (m m' : Mod)
      → add_typed L c v n l m ≡ ok b m'
      → get_named_metadata m' key ≡ get_named_metadata m key
  unfolding add_typed
  add_typed-table c v n b l key m m' h = elim (Bool-cases l.1) [
    | inl e ↦ ground (arith, e, h)
    | inr e ↦
        defined-table (L.int_ty 8 ∷ l.0) (variant_name L c.class_ v.name) key m m'
          (ground (arith, e, h))
  ]

  add_variant-table :
      (fuel : ℕ) (c : DataClass) (v : Variant) (n b : ℕ) (key : String) (m m' : Mod)
      → ((a : Ast) → v.types ≡ some a → height a ≤ fuel)
      → add_variant L fuel c v n m ≡ ok b m'
      → get_named_metadata m' key ≡ get_named_metadata m key
  unfolding add_variant add_typed
  add_variant-table fuel c v n b key m m' low h = elim (Option-cases v.types) [
    | inl e ↦
        defined-table (L.int_ty 8 ∷ []) (variant_name L c.class_ v.name) key m m'
          (ground (arith, e, h))
    | inr (a, e) ↦
        let typed : (get_type_list L (get_type L fuel) a >>= add_typed L c v n) m ≡ ok b m' =
          rw e at h in
        let (l, m1, first, rest) = bind-eq-ok (get_type_list L (get_type L fuel) a m) _ _ _ typed in
        add_typed-table c v n b l key m1 m' rest
        ∙ ap (λ k. get_named_metadata k key)
            (Settles-state (get_type_list-Settles_at L fuel a m (low a e)) first)
  ]

  add_variants-table :
      (fuel : ℕ) (c : DataClass) (vs : List Variant) (n b : ℕ) (key : String) (m m' : Mod)
      → AreLow fuel vs
      → add_variants L fuel c vs n m ≡ ok b m'
      → get_named_metadata m' key ≡ get_named_metadata m key
  unfolding add_variants
  add_variants-table fuel c [] n b key m m' low h = ground (arith, h)
  add_variants-table fuel c (v ∷ vs) n b key m m' low h =
      let (k, m1, first, rest) = bind-eq-ok (add_variant L fuel c v n m) _ _ _ h in
      add_variants-table fuel c vs k b key m1 m' low.1 rest
      ∙ add_variant-table fuel c v n k key m m1 low.0 first

  add_class-Represents :
      (c : DataClass) (t : Ty) (n : ℕ) (m : Mod) (rows : List Row)
      → Represents L m "classes" rows
      → Represents L
          (add_class L c t n m)
          "classes"
          (rows ++ (c.class_, map (λ v. v.name) c.variants) ∷ [])
  add_class-Represents c t n m rows h =
      rw (L.get_named_metadata-add_operand, L.get_named_metadata-set_body, h)
        (sym (map-append (row_node L) rows _))

  define_class-Represents :
      (fuel : ℕ) (c : DataClass) (m m' : Mod) (rows : List Row)
      → AreLow fuel c.variants
      → Represents L m "classes" rows
      → define_class L fuel c m ≡ ok tt m'
      → Represents L m' "classes" (rows ++ (c.class_, map (λ v. v.name) c.variants) ∷ [])
  unfolding define_class
  define_class-Represents fuel c m m' rows low table h =
      let made = create_struct ("class::" <> c.class_) m in
      let (n, m1, first, last) = bind-eq-ok (add_variants L fuel c c.variants 8 made.1) _ _ _ h in
      let same : add_class L c made.0 n m1 ≡ m' = ground (arith, last) in
      let kept = add_variants-table fuel c c.variants 8 n "classes" made.1 m1 low first in
      rw (sym same) (
        add_class-Represents c made.0 n m1 rows
          (rw (kept, L.get_named_metadata-create_struct) table))

  -- A data class that is declared, with fuel for its type lists and a name that no row of the table
  -- has, gives the constructor at a position, when no earlier one has its name, the position as its
  -- index. None of the two names of its type was taken before.
  pub data_class_codegen-index :
      (fuel : ℕ) (c : DataClass) (m m' : Mod) (rows : List Row) (i : ℕ) (name : String)
      → AreLow fuel c.variants
      → Represents L m "classes" rows
      → has_row c.class_ rows ≡ false
      → data_class_codegen L fuel c m ≡ ok tt m'
      → get_elem? (map (λ v. v.name) c.variants) i ≡ some name
      → ((j : ℕ) → j < i → get_elem? (map (λ v. v.name) c.variants) j ≢ some name)
      → (get_metadata_part_index L m' "classes" c.class_ name ≡ some (some i))
        × (L.get_type_by_name m c.class_ ≡ none)
        × (L.get_type_by_name m ("class::" <> c.class_) ≡ none)
  unfolding data_class_codegen
  data_class_codegen-index fuel c m m' rows i name low table fresh h at first =
      let defined : define_class L fuel c m ≡ ok tt m' = ground (arith, h) in
      (
        get_metadata_part_index-append L m' "classes" c.class_ _ rows i name
            (define_class-Represents fuel c m m' rows low table defined) fresh at first,
        ground (arith, h),
        ground (arith, h),
      )
