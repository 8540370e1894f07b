-- ===== src/Expr/Members/Constructors.antt =====
-- The first constructor of a data class.
use whack.Prelude.{
  ℕ, ◌≡◌, ◌≢◌, ◌∙◌, String, ◌<>◌, true, false, some, List, ◌∷◌, arith, Option-cases, inl, inr,
}
use whack.Outcome.{Exec, ok, fault}
use whack.Ast.{Ast}
use whack.Metadata.{get_metadata_part_index, get_metadata_part_index-table}
use whack.Metadata.Table.{Row, Represents, has_row}
use whack.Decl.DataClass.{Variant, DataClass, data_class_codegen}
use whack.Decl.DataClass.Index.{AreLow, data_class_codegen-index}
use whack.Builder.{Builder, alloca}
use whack.Expr.Members.{construct_as, construct_named, store_tag, write_tag}

module _ (B : Builder) where
  open B use {llvm, Val, Ir, get_module, emit, asserts}
  open llvm use {Ty, Mod, get_named_metadata, get_type_by_name}

  module _ (expression : Ast → Exec Ir Val) (line : ℕ) (class ctor : String) where
    -- A constructor whose index is 0 in the table of the module that is built.
    construct_as-zero :
        (t : Ty) (args : Ast) (s : Ir)
        → asserts ≡ true
        → get_metadata_part_index llvm (get_module s) "classes" class ctor ≡ some (some 0)
        → construct_as B expression line class ctor t args s ≡ fault
    unfolding construct_as store_tag write_tag
    construct_as-zero t args s checked h =
        let object = alloca t ("class::" <> (class <> ("::" <> ctor))) in
        let kept =
          get_metadata_part_index-table llvm (get_module (emit object s).1) (get_module s) "classes"
            class ctor (B.get_named_metadata-emit object s "classes") in
        rw (kept, h, checked)

    construct_named-zero :
        (args : Ast) (s s' : Ir) (w : Val)
        → asserts ≡ true
        → get_metadata_part_index llvm (get_module s) "classes" class ctor ≡ some (some 0)
        → construct_named B expression line class ctor args s ≢ ok w s'
    unfolding construct_named
    construct_named-zero args s s' w checked h k =
        elim (Option-cases
          (get_type_by_name (get_module s) ("class::" <> (class <> ("::" <> ctor))))) [
            | inl e ↦ ground (arith, k, e)
            | inr (t, e) ↦ ground (arith, k, e, construct_as-zero t args s checked h)
          ]

  -- Where assertions are checked: once a data class with fuel for its type lists and a name that no
  -- row of the table has is declared, no value of its first constructor is ever built from the table of its module, whatever
  -- the arguments are.
  pub construct_named-first :
      (expression : Ast → Exec Ir Val) (line fuel : ℕ) (c : DataClass) (v : Variant)
      (vs : List Variant) (m m' : Mod) (rows : List Row) (args : Ast) (s s' : Ir) (w : Val)
      → asserts ≡ true
      → c.variants ≡ v ∷ vs
      → AreLow fuel c.variants
      → Represents llvm m "classes" rows
      → has_row c.class_ rows ≡ false
      → data_class_codegen llvm fuel c m ≡ ok tt m'
      → get_named_metadata (get_module s) "classes" ≡ get_named_metadata m' "classes"
      → construct_named B expression line c.class_ v.name args s ≢ ok w s'
  construct_named-first expression line fuel c v vs m m' rows args s s' w checked first low table
        fresh declared same =
      let (index, _, _) =
        data_class_codegen-index llvm fuel c m m' rows 0 v.name low table fresh declared (rw first)
          (λ j h. absurd (omega arith)) in
      construct_named-zero expression line c.class_ v.name args s s' w checked (
        get_metadata_part_index-table llvm (get_module s) m' "classes" c.class_ v.name same ∙ index)
