-- ===== src/Decl/Interface/Table.antt =====
-- What an interface declaration leaves in the module: the row of the table "interfaces", which
-- `getFuncsInfo` reads, and the struct type that holds the functions.
use whack.Prelude.{
  ℕ, suc, ◌+◌, String, ◌<>◌, ◌≡◌, refl, sym, ap, ◌∙◌, Bool, true, false, none, some, List, [], ◌∷◌,
  ◌++◌, map, arith, append_assoc, append-nil, if◌then◌else◌, contains, length, length-append,
  map-append,
}
use whack.Outcome.{ok}
use whack.Ast.{Ast}
use whack.Llvm.{Llvm, Operand, node, flatten_fields}
use whack.Metadata.{add_metadata, get_metadata_operand, drop_first}
use whack.Metadata.Names.{get_metadata_operand-named, get_metadata_operand-add_operand}
use whack.Types.Codegen.{get_type, type_codegen}
use whack.Decl.Ident.Unique.{Registry, IsRegistry, is_free, is_unique-eq-ok_iff}
use whack.Decl.Interface.{
  Identifier, overload_id, scope_res, ident, Interface, Func, Carried, func_node, func_nodes,
  get_funcs_info, func_of_operand, type_of_operand, funcs_of_operands, inherit_all,
  declare_functions, add_interface, interface_codegen,
}

-- None of the functions has a name that is in the list or that a function before has.
abbrev pub are_new : List String → List (Ast × String) → Bool
are_new names [] = true
are_new names ((a, n) ∷ fs) =
    let rest = are_new (names ++ n ∷ []) fs in if contains names n then false else rest

module _ (L : Llvm) where
  open L use {
    Ty, Mod, Md, operands, pointer_to, create_struct, get_type_by_name, get_struct_body, set_body,
    add_operand, tbaa_struct_type_node, struct_name,
  }

  abbrev F : Type 0
  F = Func L

  -- Each inherited interface is known in the module, by its name alone, with these functions.
  abbrev pub HaveFuncs : ℕ → Mod → List Identifier → List (List F) → Type 0
  HaveFuncs row m [] [] = Unit
  HaveFuncs row m (ident n ∷ is) (fs ∷ fss) =
      (get_funcs_info L n row m ≡ ok fs m) × HaveFuncs row m is fss
  HaveFuncs row m _ _ = ⊥

  abbrev pub HaveFuncTypes : ℕ → Mod → List (Ast × String) → List Ty → Type 0
  HaveFuncTypes fuel m [] [] = Unit
  HaveFuncTypes fuel m ((a, n) ∷ fs) (t ∷ ts) =
      (type_codegen L (get_type L fuel) a m ≡ ok t m) × HaveFuncTypes fuel m fs ts
  HaveFuncTypes fuel m _ _ = ⊥

  -- The functions that the interface itself declares.
  abbrev pub own : List (Ast × String) → List Ty → List F
  own ((a, n) ∷ fs) (t ∷ ts) = (n, pointer_to t) ∷ own fs ts
  own _ _ = []

  abbrev pub join : List (List F) → List F
  join [] = []
  join (fs ∷ fss) = fs ++ join fss

  abbrev pub last_or : List F → List (List F) → List F
  last_or fs [] = fs
  last_or fs (gs ∷ fss) = last_or gs fss

  abbrev node_of : F → Operand Ty Md
  node_of f = node (func_node L f)

  abbrev join_nodes : List (List F) → List (Operand Ty Md × ℕ)
  join_nodes [] = []
  join_nodes (fs ∷ fss) = func_nodes L 0 fs ++ join_nodes fss

  inherit_all-HaveFuncs :
      (row : ℕ) (m : Mod) (is : List Identifier) (fss : List (List F)) (c : Carried L)
      → HaveFuncs row m is fss
      → inherit_all L is row c m ≡ ok (last_or c.0 fss, c.1 ++ join_nodes fss) m
  unfolding inherit_all
  inherit_all-HaveFuncs row m [] [] c h = ap (λ ns. ok (c.0, ns) m) (sym (append-nil c.1))
  inherit_all-HaveFuncs row m [] (fs ∷ fss) c h = elim h [ ]
  inherit_all-HaveFuncs row m (overload_id a ∷ is) fss c h = elim h [ ]
  inherit_all-HaveFuncs row m (scope_res a ∷ is) fss c h = elim h [ ]
  inherit_all-HaveFuncs row m (ident n ∷ is) [] c h = elim h [ ]
  inherit_all-HaveFuncs row m (ident n ∷ is) (fs ∷ fss) c h =
      rw (h.0, inherit_all-HaveFuncs row m is fss (fs, c.1 ++ func_nodes L 0 fs) h.1, append_assoc)

  declare_functions-HaveFuncTypes :
      (fuel : ℕ) (m : Mod) (it : Interface) (fs : List (Ast × String)) (ts : List Ty)
      (c : Carried L)
      → HaveFuncTypes fuel m fs ts
      → are_new (map (λ f. f.0) c.0) fs ≡ true
      → declare_functions L fuel it fs c m
        ≡ ok (c.0 ++ own fs ts, c.1 ++ func_nodes L (length c.0) (own fs ts)) m
  unfolding declare_functions
  declare_functions-HaveFuncTypes fuel m it [] [] c h new =
      ap (λ k. ok k m) (rw (append-nil c.0, append-nil c.1))
  declare_functions-HaveFuncTypes fuel m it [] (t ∷ ts) c h new = elim h [ ]
  declare_functions-HaveFuncTypes fuel m it (f ∷ fs) [] c h new = elim h [ ]
  declare_functions-HaveFuncTypes fuel m it ((a, n) ∷ fs) (t ∷ ts) c h new =
      let free : contains (map (λ f. f.0) c.0) n ≡ false = ground (arith, new) in
      let later : are_new (map (λ f. f.0) c.0 ++ n ∷ []) fs ≡ true = ground (arith, new) in
      let next : Carried L =
        (c.0 ++ (n, pointer_to t) ∷ [], c.1 ++ (node_of (n, pointer_to t), length c.0) ∷ []) in
      let at_next : length c.0 + 1 ≡ suc (length c.0) = omega arith in
      let rest = declare_functions-HaveFuncTypes fuel m it fs ts next h.1 (rw map-append later) in
      rw (h.0, free, rest, append_assoc, append_assoc, length-append)
        (ap
          (λ k.
            ok
              (
                c.0 ++ (n, pointer_to t) ∷ own fs ts,
                c.1 ++ (node_of (n, pointer_to t), length c.0) ∷ func_nodes L k (own fs ts),
              )
              m)
          at_next)

  func_of_operand-func_node : (f : F) → func_of_operand L (node (func_node L f)) ≡ some f
  unfolding func_of_operand type_of_operand
  func_of_operand-func_node (n, t) = rw L.operands-anonymous_alias_scope

  funcs_of_operands-flatten_fields :
      (ns : List (Operand Ty Md × ℕ)) (fs : List F)
      → map (λ n. n.0) ns ≡ map node_of fs
      → funcs_of_operands L (flatten_fields ns) ≡ some fs
  unfolding funcs_of_operands
  funcs_of_operands-flatten_fields [] [] h = refl
  funcs_of_operands-flatten_fields [] (f ∷ fs) h = cc
  funcs_of_operands-flatten_fields (n ∷ ns) [] h = cc
  funcs_of_operands-flatten_fields ((n, i) ∷ ns) (f ∷ fs) h =
      let first : n ≡ node_of f = ground (arith, h) in
      let later : map (λ n. n.0) ns ≡ map node_of fs = ground (arith, h) in
      rw (first, func_of_operand-func_node f, funcs_of_operands-flatten_fields ns fs later)

  nodes-func_nodes : (i : ℕ) (fs : List F) → map (λ n. n.0) (func_nodes L i fs) ≡ map node_of fs
  nodes-func_nodes i [] = refl
  nodes-func_nodes i (f ∷ fs) = ap (λ l. node_of f ∷ l) (nodes-func_nodes (suc i) fs)

  nodes-join_nodes :
      (fss : List (List F)) → map (λ n. n.0) (join_nodes fss) ≡ map node_of (join fss)
  nodes-join_nodes [] = refl
  nodes-join_nodes (fs ∷ fss) =
      rw (map-append, map-append, nodes-func_nodes 0 fs, nodes-join_nodes fss)

  -- What `codegen` carries to its end.
  abbrev pub carried : List (List F) → List F → Carried L
  carried fss fs =
      (last_or [] fss ++ fs, join_nodes fss ++ func_nodes L (length (last_or [] fss)) fs)

  nodes-carried :
      (fss : List (List F)) (fs : List F)
      → map (λ n. n.0) (carried fss fs).1 ≡ map node_of (join fss ++ fs)
  nodes-carried fss fs = rw (map-append, map-append, nodes-join_nodes fss, nodes-func_nodes _ fs)

  -- The struct type of the interface, and the module with it.
  abbrev pub made : Mod → String → Ty × Mod
  made m name = create_struct ("interface::" <> name) m

  get_funcs_info-row :
      (m : Mod) (name : String) (row : ℕ) (d : Md) (fs : List F)
      → get_metadata_operand L m "interfaces" name ≡ some (some d)
      → funcs_of_operands L (drop_first (operands d)) ≡ some fs
      → get_funcs_info L name row m ≡ ok fs m
  unfolding get_funcs_info
  get_funcs_info-row m name row d fs h k = rw (h, k)

  module _ (m : Mod) (name : String) (c : Carried L) where
    abbrev with_body : Mod
    with_body = set_body (made m name).0 (map (λ f. f.1) c.0) (made m name).1

    abbrev with_row : Mod
    with_row = add_operand "interfaces" (tbaa_struct_type_node name c.1) with_body

    with_body-table :
        (key : String) → L.get_named_metadata with_body key ≡ L.get_named_metadata m key
    with_body-table key = rw (L.get_named_metadata-set_body, L.get_named_metadata-create_struct)

    add_interface-table :
        L.get_named_metadata (add_interface L name c m) "interfaces"
        ≡ L.get_named_metadata with_row "interfaces"
    unfolding add_interface add_metadata
    add_interface-table = rw L.get_named_metadata-add_operand refl

    add_interface-row :
        (r : Registry)
        → IsRegistry L m r
        → contains r.interfaces name ≡ false
        → get_metadata_operand L (add_interface L name c m) "interfaces" name
          ≡ some (some (tbaa_struct_type_node name c.1))
    add_interface-row r h new =
        get_metadata_operand-named L _ with_row "interfaces" name add_interface-table
        ∙ get_metadata_operand-add_operand L with_body "interfaces" name _ r.interfaces
            (rw with_body-table h.interfaces) new (rw L.operands-tbaa_struct_type_node)

    add_interface-funcs :
        (r : Registry) (fs : List F) (row : ℕ)
        → IsRegistry L m r
        → contains r.interfaces name ≡ false
        → map (λ n. n.0) c.1 ≡ map node_of fs
        → get_funcs_info L name row (add_interface L name c m) ≡ ok fs (add_interface L name c m)
    add_interface-funcs r fs row h new same =
        get_funcs_info-row _ name row _ fs (add_interface-row r h new)
          (rw L.operands-tbaa_struct_type_node (funcs_of_operands-flatten_fields c.1 fs same))

    add_interface-body :
        get_type_by_name m ("interface::" <> name) ≡ none
        → (get_type_by_name (add_interface L name c m) ("interface::" <> name)
            ≡ some (made m name).0)
          × (get_struct_body (add_interface L name c m) (made m name).0 ≡ map (λ f. f.1) c.0)
    unfolding add_interface add_metadata
    add_interface-body absent = (
      rw
          (
            L.get_type_by_name-add_operand, L.get_type_by_name-add_operand,
            L.get_type_by_name-set_body,
          )
          (L.get_type_by_name-create_struct _ m absent),
      rw (L.get_struct_body-add_operand, L.get_struct_body-add_operand, L.get_struct_body-set_body)
          refl,
    )

  interface_codegen-run :
      (fuel : ℕ) (m : Mod) (it : Interface) (r : Registry) (fss : List (List F)) (ts : List Ty)
      → IsRegistry L m r
      → is_free L m r it.name ≡ true
      → HaveFuncs it.row m it.inherits fss
      → HaveFuncTypes fuel m it.functions ts
      → are_new (map (λ f. f.0) (last_or [] fss)) it.functions ≡ true
      → interface_codegen L fuel it m
        ≡ ok tt (add_interface L it.name (carried fss (own it.functions ts)) m)
  unfolding interface_codegen
  interface_codegen-run fuel m it r fss ts h free known types new = rw (
    (is_unique-eq-ok_iff L m r it.name it.row h).1 free,
    inherit_all-HaveFuncs it.row m it.inherits fss ([], []) known,
    declare_functions-HaveFuncTypes fuel m it it.functions ts (last_or [] fss, join_nodes fss) types
        new,
  )

  -- An interface whose name is free is declared, if each interface it inherits is known by a name
  -- of this module, its functions have types, and none of them has the name of another one or of a
  -- function of the last inherited interface. What `getFuncsInfo` then reads of it are the functions
  -- of all inherited interfaces and its own; but the struct type of the interface holds the
  -- functions of the last inherited interface alone, and its own.
  pub interface_codegen-funcs :
      (fuel : ℕ) (m : Mod) (it : Interface) (r : Registry) (fss : List (List F)) (ts : List Ty)
      (row : ℕ)
      → IsRegistry L m r
      → is_free L m r it.name ≡ true
      → get_type_by_name m ("interface::" <> it.name) ≡ none
      → HaveFuncs it.row m it.inherits fss
      → HaveFuncTypes fuel m it.functions ts
      → are_new (map (λ f. f.0) (last_or [] fss)) it.functions ≡ true
      → (m' : Mod) × (interface_codegen L fuel it m ≡ ok tt m')
        × (get_funcs_info L it.name row m' ≡ ok (join fss ++ own it.functions ts) m')
        × (t : Ty) × (get_type_by_name m' ("interface::" <> it.name) ≡ some t)
        × (get_struct_body m' t ≡ map (λ f. f.1) (last_or [] fss ++ own it.functions ts))
  interface_codegen-funcs fuel m it r fss ts row h free absent known types new =
      let c = carried fss (own it.functions ts) in
      let body = add_interface-body m it.name c absent in
      let unlisted : contains r.interfaces it.name ≡ false = ground (arith, free) in
      (
        add_interface L it.name c m,
        interface_codegen-run fuel m it r fss ts h free known types new,
        add_interface-funcs m it.name c r _ row h unlisted
            (nodes-carried fss (own it.functions ts)),
        (made m it.name).0,
        body.0,
        body.1,
      )
