-- ===== src/Driver.antt =====
-- module.hpp: which nodes of the tree become elements of the module, and how the errors of the
-- elements are collected.
pub mod Errors
use whack.Prelude.{
  ℕ, String, ◌==◌, Option, none, some, List, [], ◌∷◌, ◌++◌, if◌then◌else◌, Bool, false, ◌||◌,
}
use whack.Outcome.{Error, Exec, Outcome, bind, ok, failed, fault, out_of_fuel}
use whack.Ast.{Ast, tag, child, contents}
use whack.Llvm.{Llvm}
use whack.Metadata.{◌>>=◌}
use whack.Decl.Alias.{Alias, alias_of_ast, alias_codegen}
use whack.Decl.Enumeration.{Enumeration, enumeration_of_ast, enumeration_codegen}
use whack.Decl.Structure.{Structure, structure_of_ast, structure_codegen}
use whack.Decl.ExternFunc.{ExternFunc, extern_func_of_ast, extern_func_codegen}
use whack.Decl.DataClass.{DataClass, data_class_of_ast, data_class_codegen}
use whack.Decl.Interface.{Interface, interface_of_ast, interface_codegen}

-- `element_t`. Functions, members of structs and options are kept as their node.
pub data Element : Type 0 where
  compiler_opt : Ast → Element
  extern_func : ExternFunc → Element
  interface : Interface → Element
  enumeration : Enumeration → Element
  function : Ast → Element
  structure : Structure → Element
  alias : Alias → Element
  struct_func : Ast → Element
  struct_op : Ast → Element
  data_class : DataClass → Element

-- What `traverse` fills.
pub record Loaded : Type 0 where
  pub module_decl : Option Ast
  pub module_use : List Ast
  pub exports : List Ast
  pub elements : List Element

abbrev pub nothing_loaded : Loaded
nothing_loaded = record { module_decl = none; module_use = []; exports = []; elements = [] }

abbrev pub add_element : Loaded → Element → Loaded
add_element l e = record l { elements = l.elements ++ e ∷ [] }

module _ (L : Llvm) where
  open L use {string_ref}

  -- The body of the loop of `traverse`; `none` where a constructor reads a child that is not there.
  unfoldable pub visit : Loaded → Ast → Option Loaded
  visit l a =
      if tag a == "moduledecl|>"
      then some (record l { module_decl = some a })
      else if tag a == "moduleuse|>"
      then some (record l { module_use = l.module_use ++ a ∷ [] })
      else if tag a == "exports|>"
      then some (record l { exports = l.exports ++ a ∷ [] })
      else if tag a == "compileropt|>"
      then some (add_element l (compiler_opt a))
      else if tag a == "externfunc|>"
      then (extern_func_of_ast string_ref a >>= λ d. some (add_element l (extern_func d)))
      else if tag a == "interface|>"
      then (interface_of_ast string_ref a >>= λ d. some (add_element l (interface d)))
      else if tag a == "enumeration|>"
      then (enumeration_of_ast a >>= λ d. some (add_element l (enumeration d)))
      else if tag a == "function|>"
      then some (add_element l (function a))
      else if tag a == "structure|>"
      then (structure_of_ast string_ref a >>= λ d. some (add_element l (structure d)))
      else if tag a == "alias|>"
      then (alias_of_ast a >>= λ d. some (add_element l (alias d)))
      else if tag a == "structfunc|>"
      then some (add_element l (struct_func a))
      else if tag a == "structop|>"
      then some (add_element l (struct_op a))
      else if tag a == "dataclass|>"
      then (data_class_of_ast string_ref a >>= λ d. some (add_element l (data_class d)))
      else some l

  -- `traverse`, over the nodes in the order in which `mpc_ast_traverse_next` gives them.
  unfoldable pub traverse : List Ast → Loaded → Option Loaded
  traverse [] l = some l
  traverse (a ∷ nodes) l = visit l a >>= traverse nodes

-- How `codegen` of the module ends. `llvm::joinErrors` keeps all errors, in order.
pub data Compiled (Mod : Type 0) : Type 0 where
  compiled : Mod → Compiled Mod
  errors : List Error → Compiled Mod
  undefined : Compiled Mod
  unfinished : Compiled Mod

-- What the visitor of `codegen` does with the outcome of an element; `err` holds the errors so far.
abbrev pub collect : {Mod : Type 0} → Outcome Mod (Unit {0}) → List Error → Outcome Mod (List Error)
collect (ok _ m) err = ok err m
collect (failed x m) err = ok (err ++ x ∷ []) m
collect fault err = fault
collect out_of_fuel err = out_of_fuel

-- The end of `codegen`: the errors, or the module behind the passes.
abbrev pub report : {Mod : Type 0} → (Mod → Mod) → Outcome Mod (List Error) → Compiled Mod
report passes (ok [] m) = compiled (passes m)
report passes (ok (x ∷ xs) m) = errors (x ∷ xs)
report passes (failed x m) = errors (x ∷ [])
report passes fault = undefined
report passes out_of_fuel = unfinished

module _ {Mod : Type 0} (codegen : Element → Exec Mod (Unit {0})) where
  -- The loop of `codegen`. An element that fails does not stop it.
  unfoldable pub run_elements : List Element → List Error → Exec Mod (List Error)
  run_elements [] err m = ok err m
  run_elements (e ∷ es) err m = bind (collect (codegen e m) err) (run_elements es)

  -- `codegen` of a module that starts as `start`; `passes` is what the pass manager does.
  unfoldable pub module_codegen : (Mod → Mod) → Loaded → Mod → Compiled Mod
  module_codegen passes l start = elim l.module_decl [
    | none ↦ undefined
    | some decl ↦ report passes (run_elements l.elements [] start)
  ]

module _ (L : Llvm) (other : Element → Exec L.Mod (Unit {0})) where
  -- `element.codegen(mod)` of the declarations; `other` is that of the rest, which Func.Element gives.
  unfoldable pub element_codegen : ℕ → Element → Exec L.Mod (Unit {0})
  element_codegen fuel (extern_func d) = extern_func_codegen L fuel d
  element_codegen fuel (data_class d) = data_class_codegen L fuel d
  element_codegen fuel (interface d) = interface_codegen L fuel d
  element_codegen fuel (enumeration d) = enumeration_codegen L fuel d
  element_codegen fuel (structure d) = structure_codegen L fuel d
  element_codegen fuel (alias d) = alias_codegen L fuel d
  element_codegen fuel e = other e
