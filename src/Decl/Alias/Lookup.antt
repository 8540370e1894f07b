-- ===== src/Decl/Alias/Lookup.antt =====
-- What an alias means once it is registered, and what registering it leaves as it was.
use whack.Prelude.{
  ℕ, String, ◌==◌, ◌<>◌, ◌≡◌, refl, ◌∙◌, sym, ap, ◌≢◌, true, false, Option, none, some, List, [],
  ◌∷◌, ◌++◌, map, map-append, arith, eq_iff, eq_refl, if◌then◌else◌, contains, get_or_nil,
}
use whack.Outcome.{ok}
use whack.Llvm.{Llvm, null_of}
use whack.Metadata.{head_string}
use whack.Metadata.Names.{AreNamed, add_operand-HasNames, get_metadata_heads-HasNames}
use whack.Types.{basic_type}
use whack.Types.Codegen.{find_alias, get_from_type_name}
use whack.Decl.Ident.Unique.{Registry, IsRegistry, is_free, is_unique-eq-ok_iff}
use whack.Decl.Alias.{add_alias}

-- The names and types of a table of aliases.
abbrev pub lookup_alias : {T : Type 0} → String → List (String × T) → Option T
lookup_alias name [] = none
lookup_alias name ((n, t) ∷ l) = if n == name then some t else lookup_alias name l

lookup_alias-append :
    {T : Type 0} (name n : String) (t : T) (l : List (String × T))
    → lookup_alias name (l ++ (n, t) ∷ [])
      ≡ (elim (lookup_alias name l) [ some u ↦ some u | none ↦ if n == name then some t else none ])
lookup_alias-append name n t [] = refl
lookup_alias-append name n t ((k, u) ∷ l) = ground (arith, lookup_alias-append name n t l)

module _ (L : Llvm) where
  open L use {
    Ty, Mod, Md, operands, alias_scope, add_operand, get_named_metadata, has_function,
    get_type_by_name, get_named_metadata-add_operand,
  }

  abbrev pub alias_node : String × Ty → Md
  alias_node (name, t) = alias_scope name (null_of t)

  -- The table "aliases" of the module.
  abbrev pub HasAliases : Mod → List (String × Ty) → Type 0
  HasAliases m rows = get_or_nil (get_named_metadata m "aliases") ≡ map alias_node rows

  names-AreNamed :
      (rows : List (String × Ty)) (names : List String) (name : String)
      → AreNamed L (map alias_node rows) names
      → contains names name ≡ false
      → lookup_alias name rows ≡ none
  names-AreNamed [] names name h free = refl
  names-AreNamed ((n, t) ∷ rows) [] name h free = elim h [ ]
  names-AreNamed ((n, t) ∷ rows) (k ∷ names) name h free =
      let e = rw L.operands-alias_scope at h.0 in
      ground (arith, e, names-AreNamed rows names name h.1)

  find_alias-alias_node :
      (name : String) (rows : List (String × Ty))
      → find_alias L (map alias_node rows) name ≡ some (lookup_alias name rows)
  unfolding find_alias
  find_alias-alias_node name [] = refl
  find_alias-alias_node name ((n, t) ∷ rows) =
      rw L.operands-alias_scope (ground (arith, find_alias-alias_node name rows))

  abbrev pub with_alias : String → Ty → Mod → Mod
  with_alias name t m = add_operand "aliases" (alias_scope name (null_of t)) m

  find_alias-get_or_nil :
      (m : Mod) (name : String)
      → (elim (get_named_metadata m "aliases") [
        | none ↦ some none
        | some ds ↦ find_alias L ds name
      ])
        ≡ find_alias L (get_or_nil (get_named_metadata m "aliases")) name
  unfolding find_alias
  find_alias-get_or_nil m name = ground arith

  -- What is looked up before the aliases.
  abbrev pub IsUnshadowed : Mod → String → Type 0
  IsUnshadowed m name =
      (basic_type L name ≡ none)
      × (get_type_by_name m name ≡ none)
      × (get_type_by_name m ("interface::" <> name) ≡ none)

  get_from_type_name-alias :
      (m : Mod) (name : String) (rows : List (String × Ty))
      → IsUnshadowed m name
      → HasAliases m rows
      → get_from_type_name L name m ≡ some (lookup_alias name rows)
  unfolding get_from_type_name find_alias
  get_from_type_name-alias m name rows h k =
      ground (arith, find_alias-get_or_nil m name, find_alias-alias_node name rows)

  with_alias_rows :
      (m : Mod) (name : String) (t : Ty) (rows : List (String × Ty))
      → HasAliases m rows
      → HasAliases (with_alias name t m) (rows ++ (name, t) ∷ [])
  with_alias_rows m name t rows h =
      rw (get_named_metadata-add_operand, h) (sym (map-append alias_node rows _))

  find_alias-other :
      (m : Mod) (name other : String) (t : Ty) (rows : List (String × Ty))
      → HasAliases m rows
      → other ≢ name
      → find_alias L (get_or_nil (get_named_metadata (with_alias name t m) "aliases")) other
        ≡ find_alias L (get_or_nil (get_named_metadata m "aliases")) other
  find_alias-other m name other t rows h differ =
      rw (with_alias_rows m name t rows h, h, find_alias-alias_node)
        (rw find_alias-alias_node
          (ground (arith, lookup_alias-append other name t rows, eq_iff name other)))

  get_from_type_name-other :
      (m : Mod) (name other : String) (t : Ty) (rows : List (String × Ty))
      → HasAliases m rows
      → other ≢ name
      → get_from_type_name L other (with_alias name t m) ≡ get_from_type_name L other m
  unfolding get_from_type_name find_alias
  get_from_type_name-other m name other t rows h differ = ground (
    arith,
    L.get_type_by_name-add_operand "aliases" (alias_scope name (null_of t)) m other,
    L.get_type_by_name-add_operand "aliases" (alias_scope name (null_of t)) m
        ("interface::" <> other),
    find_alias-get_or_nil m other,
    find_alias-get_or_nil (with_alias name t m) other,
    find_alias-other m name other t rows h differ,
  )

  add_alias-free :
      (m : Mod) (r : Registry) (name : String) (t : Ty) (row : ℕ)
      → IsRegistry L m r
      → is_free L m r name ≡ true
      → add_alias L name t row m ≡ ok tt (with_alias name t m)
  unfolding add_alias
  add_alias-free m r name t row h free =
      rw (get_metadata_heads-HasNames L m "aliases" r.aliases h.aliases)
        (ground (arith, is_unique-eq-ok_iff L m r name row h))

  -- Registering a free name as an alias succeeds, and the name then stands for the type, unless a
  -- basic type, a struct type or an interface of that name comes first; every other name means what
  -- it meant before.
  pub get_from_type_name-add_alias :
      (m : Mod) (r : Registry) (rows : List (String × Ty)) (name : String) (t : Ty) (row : ℕ)
      → IsRegistry L m r
      → HasAliases m rows
      → is_free L m r name ≡ true
      → IsUnshadowed m name
      → (add_alias L name t row m ≡ ok tt (with_alias name t m))
        × (get_from_type_name L name (with_alias name t m) ≡ some (some t))
        × ((other : String)
            → other ≢ name
            → get_from_type_name L other (with_alias name t m) ≡ get_from_type_name L other m)
  get_from_type_name-add_alias m r rows name t row h k free first = (
    add_alias-free m r name t row h free,
    get_from_type_name-alias (with_alias name t m) name _
          (rw (L.get_type_by_name-add_operand, L.get_type_by_name-add_operand) first)
          (with_alias_rows m name t rows k)
        ∙ ap some (
            lookup_alias-append name name t rows
            ∙ rw (names-AreNamed rows r.aliases name (rw k at h.aliases) (ground arith), eq_refl)),
    λ other differ. get_from_type_name-other m name other t rows k differ,
  )

  -- The tables stay a registry, with the new name among the aliases.
  pub with_alias-IsRegistry :
      (m : Mod) (r : Registry) (name : String) (t : Ty)
      → IsRegistry L m r
      → IsRegistry L (with_alias name t m) (record r { aliases = r.aliases ++ name ∷ [] })
  with_alias-IsRegistry m r name t h = record {
    structures =
        add_operand-HasNames L m "aliases" "structures" name _ r.structures named h.structures;
    interfaces =
        add_operand-HasNames L m "aliases" "interfaces" name _ r.interfaces named h.interfaces;
    classes = add_operand-HasNames L m "aliases" "classes" name _ r.classes named h.classes;
    aliases = add_operand-HasNames L m "aliases" "aliases" name _ r.aliases named h.aliases;
  }
    where
      named : head_string (operands (alias_scope name (null_of t))) ≡ some name
      named = rw L.operands-alias_scope
