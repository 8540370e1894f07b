-- ===== src/Tests/Classes.antt =====
-- The theorems on data classes, external functions and parameters, applied.
use whack.Prelude.{
  length, ◌≡◌, refl, sym, ◌≢◌, String, List, [], ◌∷◌, some, none, ℕ, zero, suc, arith, ◌<◌,
  get_elem?, eq_iff, false, Option,
}
use whack.Outcome.{ok, failed, fault, out_of_fuel}
use whack.Ast.{get_innermost_ast_tag, after_last_bar}
use whack.Metadata.{get_metadata_part_index}
use whack.Types.{basic_type, get_underlying_type, peel}
use whack.Types.Codegen.{
  TypeList, get_type, get_type_list, type_codegen, is_mutable, codegen_ref, or_no_such_type,
  get_from_type_name, wrap_function,
}
use whack.Types.Scalars.{int, type_ast}
use whack.Decl.Ident.{is_unique}
use whack.Outcome.Rules.{Settles}
use whack.Decl.Args.{Arg, arg_types}
use whack.Decl.Args.Passable.{AreShallow, ArePassable, arg_types-ArePassable}
use whack.Decl.DataClass.{
  DataClass, data_class_codegen, define_class, add_variants, add_variant, add_typed,
}
use whack.Decl.DataClass.Index.{AreLow, data_class_codegen-index}
use whack.Decl.ExternFunc.{ExternFunc, extern_func_codegen, function_of}
use whack.Decl.ExternFunc.Signature.{one, extern_func_codegen-type}
use whack.Tests.Nodes.{Ty, int_ty}
use whack.Tests.Machine.{Mod, empty_mod, machine}

abbrev pub shape : DataClass
shape = record {
  row = 0;
  class_ = "Shape";
  variants =
      record { name = "Empty"; types = none }
      ∷ record { name = "Circle"; types = some (type_ast int 0 0) }
      ∷ [];
}

pub shape-AreLow : AreLow 1 shape.variants
shape-AreLow = (
  λ a h. ground (arith, h),
  (λ a h. let same : type_ast int 0 0 ≡ a = ground (arith, h) in rw (sym same) (omega arith), tt),
)

abbrev ints : TypeList Ty
ints = (int_ty 32 ∷ [], false)

int_list : (m : Mod) → get_type_list machine (get_type machine 1) (type_ast int 0 0) m ≡ ok ints m
unfolding get_type_list get_type wrap_function get_underlying_type peel type_codegen is_mutable
    codegen_ref or_no_such_type get_from_type_name basic_type get_innermost_ast_tag after_last_bar
int_list m = refl

abbrev pub with_shape : Mod
with_shape = elim (data_class_codegen machine 1 shape empty_mod) [
  | ok u m ↦ m
  | failed e m ↦ m
  | fault ↦ empty_mod
  | out_of_fuel ↦ empty_mod
]

pub shape_defined : data_class_codegen machine 1 shape empty_mod ≡ ok tt with_shape
unfolding data_class_codegen define_class add_variants add_variant add_typed get_type_list get_type
    wrap_function get_underlying_type peel type_codegen is_mutable codegen_ref or_no_such_type
    get_from_type_name basic_type get_innermost_ast_tag after_last_bar
shape_defined = refl

abbrev constructors : List String
constructors = "Empty" ∷ "Circle" ∷ []

first_circle : (j : ℕ) → j < 1 → get_elem? constructors j ≢ some "Circle"
first_circle zero h = λ p. ground (arith, eq_iff "Empty" "Circle", p)
first_circle (suc j) h = absurd (omega arith)

abbrev no_type : Option Ty
no_type = none

data_class_codegen-index_example :
    (get_metadata_part_index machine with_shape "classes" "Shape" "Circle" ≡ some (some 1))
    × (machine.get_type_by_name empty_mod "Shape" ≡ no_type)
    × (machine.get_type_by_name empty_mod "class::Shape" ≡ no_type)
data_class_codegen-index_example =
    data_class_codegen-index machine 1 shape empty_mod with_shape [] 1 "Circle" shape-AreLow refl
      refl shape_defined refl first_circle

abbrev puts : ExternFunc
puts = record {
  row = 0;
  name = "putchar";
  params = some (type_ast int 0 0);
  returns = some (type_ast int 0 0);
}

extern_func_codegen-type_example :
    (m' : Mod) × (extern_func_codegen machine 1 puts empty_mod ≡ ok tt m')
    × (m'.functions "putchar" ≡ some (function_of machine (int_ty 32) (some ints)))
    × (is_unique machine "putchar" 0 m' ≢ ok tt m')
extern_func_codegen-type_example =
    extern_func_codegen-type machine 1 empty_mod puts (some ints) (some ints) (int_ty 32) 0
      (int_list empty_mod) (int_list empty_mod) one refl

abbrev two_args : List Arg
two_args =
    record { type = type_ast int 0 0; name = "n"; variadic = false }
    ∷ record { type = type_ast int 0 1; name = "p"; variadic = false }
    ∷ []

two_args-AreShallow : AreShallow 2 two_args
two_args-AreShallow = (omega arith, (omega arith, tt))

arg_types-ArePassable_example :
    Settles empty_mod (arg_types machine 2 two_args empty_mod)
    × ((m' : Mod) (ts : List Ty)
        → arg_types machine 2 two_args empty_mod ≡ ok ts m'
        → (length ts ≡ 2) × ArePassable machine ts)
arg_types-ArePassable_example =
    arg_types-ArePassable machine 2 two_args empty_mod two_args-AreShallow
