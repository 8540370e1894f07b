-- ===== src/Expr/Interfaces.antt =====
-- ast/interface.hpp: `Interface::implements` and `Interface::cast`, which a call uses for a
-- parameter that is an interface, and `StructMember::bindThis` of ast/structmember.hpp.
use whack.Prelude.{ℕ, suc, ◌+◌, String, ◌<>◌, Option, none, some, List, [], ◌∷◌, if◌then◌else◌}
use whack.Outcome.{Exec, text, number, ◌>>=◌, ◌>>◌, pure, raise, lift, fault}
use whack.StringRef.{StringRef}
use whack.Types.{is_struct_kind}
use whack.Decl.Interface.{Func, get_funcs_info}
use whack.Builder.{Builder, store, alloca, struct_gep, build, on_module}

-- `params().drop_front()`; there is a first one.
abbrev pub drop_front : {A : Type 0} → List A → Option (List A)
drop_front [] = none
drop_front (x ∷ xs) = some xs

module _ (B : Builder) where
  open B use {llvm, Val, Ir, type_of, return_type, param_types, is_var_arg, get_function, get_name}
  open llvm use {Ty, string_ref, function_ty, pointer_element_type, same_ty, struct_name}

  -- The type of a function without its first parameter.
  unfoldable pub bound_type : Val → Option Ty
  bound_type f =
      let t = pointer_element_type (type_of f) in
      elim (drop_front (param_types t)) as (λ x. Option Ty) [
        | none ↦ none
        | some ps ↦ some (function_ty (return_type f) ps (is_var_arg t))
      ]

  -- `Interface::getName`: the name of the struct type behind `interface::`.
  unfoldable pub interface_name : Ty → String
  interface_name t = StringRef.substr string_ref (struct_name t) 11

  -- `bindFirstFuncArgument` of a function, its first argument and the type that is left.
  module _ (bind_first : Val → Val → Ty → Exec Ir Val) where
    -- `StructMember::bindThis`
    unfoldable pub bind_this : Val → Val → Exec Ir Val
    bind_this f self = lift (bound_type f) >>= bind_first f self

    module _ (row : ℕ) (interface : Ty) (value : Val) (structure : String) where
      -- A function of the struct, once its first argument is bound, against that of the interface.
      unfoldable pub same_signature : Func llvm → Val → Exec Ir Val
      same_signature f g =
          if same_ty (type_of g) f.1
          then pure g
          else raise
              ("struct `{}` does not implement interface `{}` "
                <> "(type mismatch for function `{}`) at line {}")
              (text structure ∷ text (interface_name interface) ∷ text f.0 ∷ number (row + 1) ∷ [])

      unfoldable pub implement_one : Func llvm → Exec Ir Val
      implement_one f s = elim (get_function s ("struct::" <> (structure <> ("::" <> f.0)))) [
        | some g ↦ (bind_this g value >>= same_signature f) s
        | none ↦
            raise
              ("struct `{}` does not implement interface `{}` "
                <> "(no implementation found for function `{}`) at line {}")
              (text structure ∷ text (interface_name interface) ∷ text f.0 ∷ number (row + 1) ∷ [])
              s
      ]

      -- The loop of `implements`.
      unfoldable pub implement_all : List (Func llvm) → Exec Ir (List Val)
      implement_all [] = pure []
      implement_all (f ∷ fs) = implement_one f >>= λ g. implement_all fs >>= λ gs. pure (g ∷ gs)

    -- `Interface::implements`
    unfoldable pub implements : ℕ → Ty → Val → Exec Ir (List Val)
    implements row interface value s =
        let kind = is_struct_kind llvm (type_of value) in
        if kind.1
        then (on_module B (get_funcs_info llvm (interface_name interface) row)
              >>= implement_all row interface value (struct_name kind.0))
            s
        else raise "expected value `{}` to be a struct kind at line {}"
            (text (get_name s value) ∷ number (row + 1) ∷ []) s

    -- The loop of `cast`, from the field `i` on.
    unfoldable pub store_fields : Ty → Val → ℕ → List Val → Exec Ir (Unit {0})
    store_fields t object i [] = pure tt
    store_fields t object i (g ∷ gs) = build B (struct_gep t object i "") >>= λ field.
        build B (store g field) >> store_fields t object (suc i) gs

    -- The object: a field for each function.
    unfoldable pub make_object : Ty → List Val → Exec Ir Val
    make_object t gs = build B (alloca t "") >>= λ object. store_fields t object 0 gs >> pure object

    -- `Interface::cast`
    unfoldable pub interface_cast : ℕ → Ty → Val → Exec Ir Val
    interface_cast row interface value s =
        let kind = is_struct_kind llvm interface in
        if kind.1 then (implements row kind.0 value >>= make_object kind.0) s else fault
