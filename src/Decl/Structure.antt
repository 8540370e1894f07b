-- ===== src/Decl/Structure.antt =====
-- ast/structure.hpp: `type S struct { T a, b; }`, and what it takes of ast/declassign.hpp.
pub mod Fields
use whack.Prelude.{String, ◌==◌, Option, none, some, List, [], ◌∷◌, ◌++◌, map, if◌then◌else◌, ℕ}
use whack.Outcome.{Exec, ◌>>=◌, ◌>>◌, pure, modify}
use whack.Ast.{Ast, child, children, row, contents, get_outermost_ast_tag, get_innermost_ast_tag}
use whack.StringRef.{StringRef}
use whack.Llvm.{Llvm}
use whack.Metadata
use whack.Metadata.{add_metadata, drop_first}
use whack.Types.Codegen.{get_type, type_codegen}

-- `DeclAssign`, as far as a struct reads it: its initializers only make a warning there.
pub record DeclAssign : Type 0 where
  pub type : Ast
  pub variables : List String

pub record Structure : Type 0 where
  pub row : ℕ
  pub name : String
  pub members : List DeclAssign

module _ (T : StringRef) where
  -- The loop of the constructor of `DeclAssign` over all children but the first and the last.
  unfoldable pub more_variables : List Ast → List String
  more_variables [] = []
  more_variables (a ∷ []) = []
  more_variables (a ∷ b ∷ l) =
      let rest = more_variables (b ∷ l) in
      if get_outermost_ast_tag T a == "initializer"
      then rest
      else if get_innermost_ast_tag T a == "ident"
      then contents a ∷ rest
      else rest

  unfoldable pub decl_assign_of_ast : Ast → Option DeclAssign
  decl_assign_of_ast a = Metadata.◌>>=◌ (child a 0) λ c. Metadata.◌>>=◌ (child c 0) λ t.
      Metadata.◌>>=◌ (child c 1) λ var.
        some
          (record { type = t; variables = contents var ∷ more_variables (drop_first (children a)) })

  -- The loop of the constructor of `Structure`, from the child 2 on; the last child is no member.
  unfoldable pub members_of : List Ast → Option (List DeclAssign)
  members_of [] = some []
  members_of (a ∷ []) = some []
  members_of (a ∷ b ∷ l) =
      let tagged = members_of l in
      let rest = members_of (b ∷ l) in
      if get_innermost_ast_tag T a == "tags"
      then (Metadata.◌>>=◌ (decl_assign_of_ast b) λ d. Metadata.◌>>=◌ tagged λ ds. some (d ∷ ds))
      else (Metadata.◌>>=◌ (decl_assign_of_ast a) λ d. Metadata.◌>>=◌ rest λ ds. some (d ∷ ds))

  unfoldable pub structure_of_ast : Ast → Option Structure
  structure_of_ast a = Metadata.◌>>=◌ (child a 1) λ n. Metadata.◌>>=◌ (child a 2) λ def.
      Metadata.◌>>=◌ (members_of (drop_first (drop_first (children def))))
        λ ds. some (record { row = row a; name = contents n; members = ds })

module _ (L : Llvm) where
  open L use {Ty, Mod, create_struct, set_body}

  -- The loop of `codegen` over the members: the fields with their types.
  unfoldable pub struct_fields : ℕ → List DeclAssign → Exec Mod (List (String × Ty))
  struct_fields fuel [] = pure []
  struct_fields fuel (d ∷ ds) = do
    t ← type_codegen L (get_type L fuel) d.type
    rest ← struct_fields fuel ds
    pure (map (λ v. (v, t)) d.variables ++ rest)

  -- `codegen` behind the creation of the struct type.
  unfoldable pub fill_struct : ℕ → Structure → Ty → Exec Mod (Unit {0})
  fill_struct fuel s st = do
    fields ← struct_fields fuel s.members
    modify (add_metadata L s.name (map (λ f. f.0) fields))
    modify (set_body st (map (λ f. f.1) fields))

  unfoldable pub structure_codegen : ℕ → Structure → Exec Mod (Unit {0})
  structure_codegen fuel s m = let made = create_struct s.name m in fill_struct fuel s made.0 made.1
