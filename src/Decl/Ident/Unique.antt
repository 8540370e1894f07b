-- ===== src/Decl/Ident/Unique.antt =====
-- When `Ident::isUnique` accepts a name, in terms of the names that the tables of the module list.
use whack.Prelude.{
  ℕ, ◌+◌, String, ◌≡◌, ◌↔◌, ◌≢◌, eq_iff, Bool, true, false, List, [], ◌∷◌, arith, if◌then◌else◌,
  contains,
}
use whack.Outcome.{ok, failed, text, number}
use whack.Ast.{is_reserved}
use whack.Llvm.{Llvm}
use whack.Metadata.Names.{HasNames, is_some-get_metadata_operand}
use whack.Decl.Ident.{Scope, guard_absent, is_unique, is_unique_in, taken_as}

-- The names that the four tables of declarations list.
pub record Registry : Type 0 where
  pub structures : List String
  pub interfaces : List String
  pub classes : List String
  pub aliases : List String

module _ (L : Llvm) where
  open L use {Mod, has_function}

  -- The module lists these names, and no node of the four tables lacks a name.
  pub record IsRegistry (m : Mod) (r : Registry) : Type 0 where
    pub structures : HasNames L m "structures" r.structures
    pub interfaces : HasNames L m "interfaces" r.interfaces
    pub classes : HasNames L m "classes" r.classes
    pub aliases : HasNames L m "aliases" r.aliases

  abbrev pub is_free : Mod → Registry → String → Bool
  is_free m r name =
      if has_function m name
      then false
      else if contains r.structures name
      then false
      else if contains r.interfaces name
      then false
      else if contains r.classes name
      then false
      else if contains r.aliases name
      then false
      else true

  guard_absent_lem :
      (m : Mod) (metadata format name : String) (row : ℕ) (names : List String)
      → HasNames L m metadata names
      → guard_absent L metadata format name row m ≡ (
          if contains names name
          then failed (record { format = format; args = text name ∷ number (row + 1) ∷ [] }) m
          else ok tt m)
  unfolding guard_absent
  guard_absent_lem m metadata format name row names h =
      rw (is_some-get_metadata_operand L m metadata name names h) (ground arith)

  -- `isUnique` accepts a name exactly if it is no function of the module and none of the four
  -- tables lists it, and then it changes nothing.
  pub is_unique-eq-ok_iff :
      (m : Mod) (r : Registry) (name : String) (row : ℕ)
      → IsRegistry m r
      → (is_unique L name row m ≡ ok tt m) ↔ (is_free m r name ≡ true)
  unfolding is_unique
  is_unique-eq-ok_iff m r name row h = ground (
    arith,
    guard_absent_lem m "structures" (taken_as "a structure") name row r.structures h.structures,
    guard_absent_lem m "interfaces" (taken_as "an interface") name row r.interfaces h.interfaces,
    guard_absent_lem m "classes" (taken_as "a data class") name row r.classes h.classes,
    guard_absent_lem m "aliases" (taken_as "an alias") name row r.aliases h.aliases,
  )

  -- In a function, `isUnique` accepts a name exactly if it is not `_`, not reserved, not in the
  -- symbol table of the function, and free in the module.
  pub is_unique_in-eq-ok_iff :
      (m : Mod) (r : Registry) (scope : Scope) (name : String) (row : ℕ)
      → IsRegistry m r
      → (is_unique_in L scope name row m ≡ ok tt m) ↔ (
          (name ≢ "_")
          × (is_reserved name ≡ false)
          × (contains scope.symbols name ≡ false)
          × (is_free m r name ≡ true))
  unfolding is_unique_in
  is_unique_in-eq-ok_iff m r scope name row h =
      ground (arith, eq_iff name "_", is_unique-eq-ok_iff m r name row h)
