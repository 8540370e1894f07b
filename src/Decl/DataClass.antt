-- ===== src/Decl/DataClass.antt =====
-- ast/dataclass.hpp: `type C class { A(int); B(); }`.
pub mod Index
use whack.Prelude.{
  ℕ, ◌+◌, String, ◌==◌, ◌<>◌, ◌||◌, Bool, Option, none, some, List, [], ◌∷◌, map, if◌then◌else◌,
  ltb,
}
use whack.Outcome.{Exec, text, number, ◌>>=◌, ◌>>◌, pure, raise, modify, gets}
use whack.Ast.{Ast, child, children, row, contents, get_outermost_ast_tag}
use whack.StringRef.{StringRef}
use whack.Llvm.{Llvm}
use whack.Metadata
use whack.Metadata.{drop_first, number_from}
use whack.Metadata.Names.{is_some}
use whack.Types.Codegen.{TypeList, get_type, get_type_list}

-- A constructor of the class, with the list of its types if it has one.
pub record Variant : Type 0 where
  pub name : String
  pub types : Option Ast

pub record DataClass : Type 0 where
  pub row : ℕ
  pub class_ : String
  pub variants : List Variant

module _ (T : StringRef) where
  -- The loop of the constructor, from the child 2 on, while more than four children are left.
  unfoldable pub variants_of : List Ast → List Variant
  variants_of (n ∷ a ∷ b ∷ c ∷ d ∷ l) =
      let typed = variants_of l in
      let plain = variants_of (d ∷ l) in
      if get_outermost_ast_tag T b == "typelist"
      then record { name = contents n; types = some b } ∷ typed
      else record { name = contents n; types = none } ∷ plain
  variants_of _ = []

  unfoldable pub data_class_of_ast : Ast → Option DataClass
  data_class_of_ast a = Metadata.◌>>=◌ (child a 1) λ n. Metadata.◌>>=◌ (child a 2) λ ref.
      some (record {
        row = row a;
        class_ = contents n;
        variants = variants_of (drop_first (drop_first (children ref)));
      })

module _ (L : Llvm) where
  open L use {
    Ty, Mod, int_ty, array_ty, get_type_by_name, module_identifier, type_size_in_bits,
    create_struct, set_body, add_operand, tbaa_struct_type_node,
  }

  -- `llvm::StructType::create(ctx, types, name)`
  abbrev pub define_struct : List Ty → String → Exec Mod Ty
  define_struct ts name m =
      let made = create_struct name m in pure made.0 (set_body made.0 ts made.1)

  -- `format("class::{}::{}", class_, name)`
  abbrev pub variant_name : String → String → String
  variant_name class_ name = "class::" <> (class_ <> ("::" <> name))

  -- The struct type of a constructor with types, and the greater of two sizes.
  unfoldable pub add_typed : DataClass → Variant → ℕ → TypeList Ty → Exec Mod ℕ
  add_typed c v biggest l =
      if l.1
      then raise
          "cannot use variadic type in typelist for constructor `{}` in data class `{}` at line {}"
          (text v.name ∷ text c.class_ ∷ number (c.row + 1) ∷ [])
      else do
        variant ← define_struct (int_ty 8 ∷ l.0) (variant_name c.class_ v.name)
        size ← gets (λ m. type_size_in_bits m variant)
        pure (if ltb biggest size then size else biggest)

  unfoldable pub add_variant : ℕ → DataClass → Variant → ℕ → Exec Mod ℕ
  add_variant fuel c v biggest = elim v.types [
    | some a ↦ get_type_list L (get_type L fuel) a >>= add_typed c v biggest
    | none ↦ define_struct (int_ty 8 ∷ []) (variant_name c.class_ v.name) >>= λ t. pure biggest
  ]

  -- The loop of `codegen`, which looks for the biggest size.
  unfoldable pub add_variants : ℕ → DataClass → List Variant → ℕ → Exec Mod ℕ
  add_variants fuel c [] biggest = pure biggest
  add_variants fuel c (v ∷ vs) biggest = add_variant fuel c v biggest >>= add_variants fuel c vs

  -- The end of `codegen`. The size, which is in bits, is taken as a number of `char`s.
  abbrev pub add_class : DataClass → Ty → ℕ → Mod → Mod
  add_class c t biggest m =
      add_operand "classes"
        (tbaa_struct_type_node c.class_ (number_from 0 (map (λ v. v.name) c.variants)))
        (set_body t (int_ty 8 ∷ array_ty (int_ty 8) biggest ∷ []) m)

  unfoldable pub define_class : ℕ → DataClass → Exec Mod (Unit {0})
  define_class fuel c m =
      let made = create_struct ("class::" <> c.class_) m in
      (add_variants fuel c c.variants 8 >>= λ biggest. modify (add_class c made.0 biggest)) made.1

  unfoldable pub data_class_codegen : ℕ → DataClass → Exec Mod (Unit {0})
  data_class_codegen fuel c m =
      if is_some (get_type_by_name m c.class_)
        || is_some (get_type_by_name m ("class::" <> c.class_))
      then raise
          "module `{}` already has a type with the given  name `{}` for data class at line {}"
          (text (module_identifier m) ∷ text c.class_ ∷ number (c.row + 1) ∷ []) m
      else define_class fuel c m
