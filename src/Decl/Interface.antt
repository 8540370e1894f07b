-- ===== src/Decl/Interface.antt =====
-- ast/interface.hpp: `type I interface : J { func(T) f; }`.
pub mod Table
use whack.Prelude.{
  String, ◌==◌, ◌<>◌, Option, none, some, List, [], ◌∷◌, ◌++◌, map, if◌then◌else◌, ℕ, suc, ◌+◌,
  contains, get_elem?, length,
}
use whack.Outcome.{Exec, ◌>>=◌, ◌>>◌, pure, modify, raise, reads, lift, text, number}
use whack.Ast.{Ast, child, children, row, contents, get_innermost_ast_tag}
use whack.StringRef.{StringRef}
use whack.Llvm.{Llvm, Operand, null_of, node}
use whack.Metadata
use whack.Metadata.{add_metadata, get_string, get_metadata_operand, drop_first}
use whack.Types.Codegen.{get_type, type_codegen}
use whack.Decl.Ident.{is_unique}

-- `identifier_t` of ast/identifier.hpp
pub data Identifier : Type 0 where
  overload_id : Ast → Identifier
  scope_res : Ast → Identifier
  ident : String → Identifier

pub record Interface : Type 0 where
  pub row : ℕ
  pub name : String
  pub inherits : List Identifier
  pub functions : List (Ast × String)

-- The second loop of the constructor: a type, a name and a `;`, up to the last child.
unfoldable pub functions_of : List Ast → List (Ast × String)
functions_of [] = []
functions_of (t ∷ []) = []
functions_of (t ∷ n ∷ []) = (t, contents n) ∷ []
functions_of (t ∷ n ∷ _ ∷ l) = (t, contents n) ∷ functions_of l

module _ (T : StringRef) where
  unfoldable pub get_identifier : Ast → Option Identifier
  get_identifier a =
      let t = get_innermost_ast_tag T a in
      if t == "overloadid"
      then some (overload_id a)
      else if t == "scoperes"
      then some (scope_res a)
      else if t == "ident"
      then some (ident (contents a))
      else none

  -- The first loop, behind the `:`: what is inherited, and the children behind the `{`.
  unfoldable pub inherits_of : List Ast → Option (List Identifier × List Ast)
  inherits_of [] = some ([], [])
  inherits_of (a ∷ l) =
      let rest = inherits_of l in
      if contents a == ","
      then rest
      else if contents a == "{"
      then some ([], l)
      else (Metadata.◌>>=◌ (get_identifier a)
          λ i. Metadata.◌>>=◌ rest λ found. some (i ∷ found.0, found.1))

  unfoldable pub interface_of_ast : Ast → Option Interface
  interface_of_ast a = Metadata.◌>>=◌ (child a 1) λ n. Metadata.◌>>=◌ (child a 2) λ ref.
      Metadata.◌>>=◌ (child ref 1) λ sep.
        let behind = drop_first (drop_first (children ref)) in
        if contents sep == ":"
        then (Metadata.◌>>=◌ (inherits_of behind) λ found. some (record {
          row = row a;
          name = contents n;
          inherits = found.0;
          functions = functions_of found.1;
        }))
        else some (record {
          row = row a;
          name = contents n;
          inherits = [];
          functions = functions_of behind;
        })

module _ (L : Llvm) where
  open L use {
    Ty, Mod, Md, operands, anonymous_alias_scope, tbaa_struct_type_node, add_operand, create_struct,
    set_body, struct_name, pointer_to,
  }

  -- A function of an interface: its name and its type, a pointer.
  abbrev pub Func : Type 0
  Func = String × Ty

  unfoldable pub type_of_operand : Operand Ty Md → Option Ty
  type_of_operand (null_of t) = some t
  type_of_operand _ = none

  -- An operand of the row of an interface, read as `getFuncsInfo` reads it.
  unfoldable pub func_of_operand : Operand Ty Md → Option Func
  func_of_operand (node d) = Metadata.◌>>=◌ (get_elem? (operands d) 1) λ domain.
      Metadata.◌>>=◌ (type_of_operand domain) λ t.
        Metadata.◌>>=◌ (get_elem? (operands d) 2)
          λ n. Metadata.◌>>=◌ (get_string n) λ name. some (name, t)
  func_of_operand _ = none

  -- The loop of `getFuncsInfo` over the operands 1, 3, 5, …
  unfoldable pub funcs_of_operands : List (Operand Ty Md) → Option (List Func)
  funcs_of_operands [] = some []
  funcs_of_operands (x ∷ []) = Metadata.◌>>=◌ (func_of_operand x) λ f. some (f ∷ [])
  funcs_of_operands (x ∷ _ ∷ xs) =
      Metadata.◌>>=◌ (func_of_operand x)
        λ f. Metadata.◌>>=◌ (funcs_of_operands xs) λ fs. some (f ∷ fs)

  -- `getFuncsInfo`; the names and the types, which the source keeps in two vectors, as pairs.
  unfoldable pub get_funcs_info : String → ℕ → Exec Mod (List Func)
  get_funcs_info name row = reads (λ m. get_metadata_operand L m "interfaces" name) >>= λ found.
      elim found [
        | none ↦
            raise "interface `{}` does not exist at line {}" (text name ∷ number (row + 1) ∷ [])
        | some d ↦ lift (funcs_of_operands (drop_first (operands d)))
      ]

  abbrev pub func_node : Func → Md
  func_node (name, t) = anonymous_alias_scope (null_of t) name

  -- The functions with their positions from i on, as the row of an interface lists them.
  abbrev pub func_nodes : ℕ → List Func → List (Operand Ty Md × ℕ)
  func_nodes i [] = []
  func_nodes i (f ∷ fs) = (node (func_node f), i) ∷ func_nodes (suc i) fs

  -- What the loops of `codegen` carry: the functions, and the operands of the row.
  abbrev pub Carried : Type 0
  Carried = List Func × List (Operand Ty Md × ℕ)

  -- The first loop. `std::tie(funcs, funcNames) = ...` replaces the functions that an interface
  -- before has brought, while the operands are appended.
  unfoldable pub inherit_all : List Identifier → ℕ → Carried → Exec Mod Carried
  inherit_all [] row c = pure c
  inherit_all (overload_id a ∷ is) row c = inherit_all is row c
  inherit_all (scope_res a ∷ is) row c =
      raise "cross-module interface inheritance not implemented at line {}" (number (row + 1) ∷ [])
  inherit_all (ident name ∷ is) row c =
      get_funcs_info name row >>= λ fs. inherit_all is row (fs, c.1 ++ func_nodes 0 fs)

  -- The second loop.
  unfoldable pub declare_functions :
      ℕ → Interface → List (Ast × String) → Carried → Exec Mod Carried
  declare_functions fuel it [] c = pure c
  declare_functions fuel it ((a, name) ∷ fs) c = do
    t ← type_codegen L (get_type L fuel) a
    if contains (map (λ f. f.0) c.0) name
        then raise "interface `{}` already declares function `{}` at line {}"
            (text it.name ∷ text name ∷ number (it.row + 1) ∷ [])
        else (let f : Func = (name, pointer_to t) in
            declare_functions fuel it fs
              (c.0 ++ f ∷ [], c.1 ++ (node (func_node f), length c.0) ∷ []))

  -- The end of `codegen`: the struct type, and a row in each of two tables.
  unfoldable pub add_interface : String → Carried → Mod → Mod
  add_interface name c m =
      let made = create_struct ("interface::" <> name) m in
      add_metadata L (struct_name made.0) (map (λ f. f.0) c.0) (
        add_operand "interfaces" (tbaa_struct_type_node name c.1)
          (set_body made.0 (map (λ f. f.1) c.0) made.1))

  unfoldable pub interface_codegen : ℕ → Interface → Exec Mod (Unit {0})
  interface_codegen fuel it = do
    is_unique L it.name it.row
    inherited ← inherit_all it.inherits it.row ([], [])
    all ← declare_functions fuel it it.functions inherited
    modify (add_interface it.name all)
