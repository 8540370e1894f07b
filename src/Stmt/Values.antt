-- ===== src/Stmt/Values.antt =====
-- Statements that compute and store: ast/returnstmt.hpp, assign.hpp, letexpr.hpp
-- and opeq.hpp.
pub mod Lets
use whack.Prelude.{
  ℕ, zero, suc, ◌+◌, ◌-◌, ◌*◌, ◌%◌, ◌^◌, String, ◌==◌, ◌<>◌, ◌||◌, ◌&&◌, Bool, true, false, Option,
  none, some, List, [], ◌∷◌, if◌then◌else◌, get_elem?, length, eqb, ltb, map, not,
}
use whack.Outcome.{Exec, text, number, ◌>>=◌, ◌>>◌, pure, raise, lift, fault, modify}
use whack.Ast.{Ast, child, children, contents, row, get_ident_list, get_innermost_ast_tag}
use whack.StringRef.{StringRef}
use whack.Llvm.{Llvm}
use whack.Llvm
use whack.Metadata
use whack.Types.{is_struct_kind}
use whack.Decl.Ident.{is_unique_in}
use whack.Syntax.Expression.{get_expr_list, get_factor, k_deref}
use whack.Builder.{
  Builder, binary, load, store, call, extract_value, extract_element, alloca, free, ret, ret_void,
  aggregate_ret, build, on_module, loaded,
}
use whack.Expr.Operators.{ops_table, is_arithmetic, scalar_op}
use whack.Expr.Factors.{load_pointer, is_variable_length_array}

-- The nodes of `getExprList(ast)`.
unfoldable pub expr_nodes : StringRef → Ast → List Ast
expr_nodes T a = map (λ e. e.1) (get_expr_list T a)

-- The constructor of `Return`.
unfoldable pub return_of_ast : StringRef → Ast → Option (List Ast)
return_of_ast T a =
    if ltb 2 (length (children a))
    then (Metadata.◌>>=◌ (child a 1) λ e. some (expr_nodes T e))
    else some []

pub record Assign : Type 0 where
  pub row : ℕ
  pub variables : List Ast
  pub values : List Ast

-- The loop of the constructor of `Assign`: the variables before `=`, and the children from it on.
unfoldable pub variables_of : List Ast → List Ast × List Ast
variables_of [] = ([], [])
variables_of (a ∷ l) =
    let rest = variables_of l in
    if contents a == "="
    then ([], a ∷ l)
    else if contents a == ","
    then rest
    else (a ∷ rest.0, rest.1)

-- The constructor of `Assign`; the values stand behind `=`.
unfoldable pub assign_of_ast : StringRef → Ast → Option Assign
assign_of_ast T a =
    let parts = variables_of (children a) in
    Metadata.◌>>=◌ (get_elem? parts.1 1)
      λ e. some (record { row = row a; variables = parts.0; values = expr_nodes T e })

pub record LetExpr : Type 0 where
  pub row : ℕ
  pub names : List String
  pub list : Ast
  pub values : List Ast

-- The constructor of `LetExpr`; `at` is the place of the names. A node has a child behind the
-- values, so the place of a comparison is always read.
unfoldable pub let_parts : StringRef → Ast → ℕ → Option LetExpr
let_parts T a at = Metadata.◌>>=◌ (child a at) λ names. Metadata.◌>>=◌ (child a (at + 2)) λ values.
    let made : LetExpr = record {
      row = row a;
      names = get_ident_list names;
      list = values;
      values = expr_nodes T values;
    } in
    if ltb (at + 2) (length (children a))
    then (Metadata.◌>>=◌ (child a (at + 4)) λ comparison. some made)
    else some made

unfoldable pub let_of_ast : StringRef → Ast → Option LetExpr
let_of_ast T a =
    Metadata.◌>>=◌ (child a 1) λ x. if contents x == "mut" then let_parts T a 2 else let_parts T a 1

module _ (B : Builder) where
  open B use {
    llvm, Val, Block, Ir, type_of, is_gep, get_function, function_name, symbols, is_array_ty,
    is_vector_ty, num_elements, struct_elements,
  }
  open llvm use {
    Ty, string_ref, same_ty, is_struct_ty, is_pointer_ty, is_integer_ty, is_floating_point_ty,
    pointer_element_type, struct_name, tbaa_struct_type_node, add_operand,
  }

  -- `Ident::isUnique(builder, name, state)`
  unfoldable pub is_free : String → ℕ → Exec Ir (Unit {0})
  is_free name row s =
      on_module B
        (is_unique_in llvm (record { function = function_name s; symbols = symbols s }) name row) s

  -- A pointer to a field or an element is read.
  unfoldable pub get_loaded_value : Val → Exec Ir Val
  get_loaded_value v = if is_gep v then build B (load v) else pure v

  -- A part of a struct, or of an array or a vector.
  abbrev extract : Val → ℕ → Exec Ir Val
  extract v i =
      build B (if is_struct_ty (type_of v) then extract_value v i else extract_element v i)

  module _ (factor expression : Ast → Exec Ir Val) where
    unfoldable pub values_of : List Ast → Exec Ir (List Val)
    values_of [] = pure []
    values_of (e ∷ es) =
        expression e >>= λ v. get_loaded_value v >>= λ w. values_of es >>= λ ws. pure (w ∷ ws)

    -- `Return::codegen`
    unfoldable pub return_codegen : List Ast → Exec Ir (Unit {0})
    unfolding values_of
    return_codegen [] = build B ret_void >> pure tt
    return_codegen (e ∷ []) =
        expression e >>= λ v. get_loaded_value v >>= λ w. build B (ret w) >> pure tt
    return_codegen (e ∷ f ∷ es) =
        values_of (e ∷ f ∷ es) >>= λ vs. build B (aggregate_ret vs) >> pure tt

    -- What a variable is stored to: a value behind stars is loaded as a pointer.
    unfoldable pub target : Ast → Exec Ir Val
    target var = elim (get_factor string_ref var) [
      | none ↦ λ s. fault
      | some k_deref ↦ load_pointer B factor expression var
      | some _ ↦ factor var
    ]

    -- `store` of `Assign::codegen`
    unfoldable pub store_to : ℕ → Val → Ast → Exec Ir (Unit {0})
    store_to row value var = target var >>= λ variable.
        if not (same_ty (type_of value) (pointer_element_type (type_of variable)))
        then raise "type mismatch: cannot assign at line {}" (number (row + 1) ∷ [])
        else build B (store value variable) >> pure tt

    -- The variables of a structured binding, from the index `i` on.
    unfoldable pub bind_parts : ℕ → Val → ℕ → List Ast → Exec Ir (Unit {0})
    bind_parts row value i [] = pure tt
    bind_parts row value i (var ∷ vars) =
        extract value i >>= λ part. store_to row part var >> bind_parts row value (suc i) vars

    -- How many parts a value of this type has.
    unfoldable pub num_parts : Ty → Option ℕ
    num_parts t =
        if is_struct_ty t
        then some (length (struct_elements t))
        else if is_array_ty t || is_vector_ty t
        then some (num_elements t)
        else none

    -- One value for several variables.
    unfoldable pub bind_value : ℕ → List Ast → Val → Exec Ir (Unit {0})
    bind_value row vars value =
        let t = type_of value in
        if is_variable_length_array B t
        then raise "var-length arrays not implemented at line {}" (number (row + 1) ∷ [])
        else elim (num_parts t) [
          | none ↦ raise "invalid type for structured bindings at line {}" (number (row + 1) ∷ [])
          | some n ↦
              if eqb n (length vars)
              then bind_parts row value 0 vars
              else raise
                  "invalid number of variables to bind expression to at line {} (expected {}, got {})"
                  (number (row + 1) ∷ number n ∷ number (length vars) ∷ [])
        ]

    -- Each variable has its value. There are as many of both.
    unfoldable pub assign_each : ℕ → List Ast → List Ast → Exec Ir (Unit {0})
    assign_each row vars [] = pure tt
    assign_each row [] (e ∷ es) = λ s. fault
    assign_each row (var ∷ vars) (e ∷ es) = expression e >>= λ v.
        get_loaded_value v >>= λ w. store_to row w var >> assign_each row vars es

    -- `Assign::codegen`
    unfoldable pub assign_codegen : Assign → Exec Ir (Unit {0})
    assign_codegen a =
        if ltb (length a.variables) (length a.values)
        then raise "invalid number of values to assign to at line {}" (number (a.row + 1) ∷ [])
        else if ltb (length a.values) (length a.variables)
        then (elim a.values [
          | (e ∷ []) ↦ (expression e >>= bind_value a.row a.variables)
          | _ ↦
              raise "structured binding expects a single expression on RHS at line {}"
                (number (a.row + 1) ∷ [])
        ])
        else assign_each a.row a.variables a.values

    -- A variable of its own for a value.
    unfoldable pub store_new : String → Val → Exec Ir (Unit {0})
    store_new name value =
        build B (alloca (type_of value) name) >>= λ p. build B (store value p) >> pure tt

    -- The names of a `let` with fewer values than names, from the index `i` on; `_` stores nothing.
    unfoldable pub let_parts_codegen : ℕ → Val → ℕ → List String → Exec Ir (Unit {0})
    let_parts_codegen row value i [] = pure tt
    let_parts_codegen row value i (name ∷ names) =
        let rest = let_parts_codegen row value (suc i) names in
        if name == "_"
        then rest
        else (is_free name row >> (build B (extract_value value i) >>= store_new name)) >> rest

    -- The node of the value with this index: from the third on, it is not its own. A value of a
    -- list of one is the list.
    unfoldable pub let_value_node : LetExpr → ℕ → Option Ast
    let_value_node l i =
        if ltb 1 (length l.values)
        then child l.list (if eqb i 0 then 0 else i + 2 * i - 1)
        else some l.list

    -- A variable for an object of the heap is listed in the metadata `new`.
    unfoldable pub add_new : String → Exec Ir (Unit {0})
    add_new name s =
        on_module B
          (modify (
            add_operand "new"
              (tbaa_struct_type_node (function_name s) ((Llvm.Operand.text name, 0) ∷ []))))
          s

    -- The names of a `let` with as many values, from the index `i` on.
    unfoldable pub let_each : LetExpr → ℕ → List String → List Ast → Exec Ir (Unit {0})
    let_each l i [] es = pure tt
    let_each l i (name ∷ names) [] = λ s. fault
    let_each l i (name ∷ names) (e ∷ es) = expression e >>= λ value.
        let rest = let_each l (suc i) names es in
        if name == "_"
        then rest
        else (is_free name l.row >> store_new name value)
          >> (lift (let_value_node l i) >>= λ a.
              if get_innermost_ast_tag string_ref a == "newexpr"
              then add_new name >> rest
              else rest)

    -- `LetExpr::codegen`
    unfoldable pub let_codegen : LetExpr → Exec Ir (Unit {0})
    unfolding let_parts_codegen
    let_codegen l =
        if ltb (length l.names) (length l.values)
        then raise "invalid number of values to assign to at line {}" (number (l.row + 1) ∷ [])
        else if ltb (length l.values) (length l.names)
        then (elim l.values [
          | [] ↦ λ s. fault
          | e ∷ es ↦ (expression e >>= λ v. let_parts_codegen l.row v 0 l.names)
        ])
        else let_each l 0 l.names l.values

    -- The struct operator of `OpEq`, a function of the module.
    unfoldable pub op_eq_struct : ℕ → String → Ty → Val → Ast → Exec Ir (Unit {0})
    op_eq_struct row op t variable e s =
        elim (get_function s ("struct::" <> (struct_name t <> ("::" <> op)))) [
          | some f ↦
              (expression e >>= λ v. build B (call f (variable ∷ v ∷ [])) >>= λ value.
              build B (store value variable) >> pure tt)
                s
          | none ↦
              raise "cannot find operator`{}` for struct `{}`  at line {}"
                (text op ∷ text (struct_name t) ∷ number (row + 1) ∷ []) s
        ]

    -- The operator of `OpEq` on a number.
    unfoldable pub op_eq_scalar : ℕ → String → Ty → Val → Ast → Exec Ir (Unit {0})
    op_eq_scalar row op t variable e = elim (ops_table (scalar_op B t op)) [
      | some f ↦
          (expression e >>= λ v. build B (load variable) >>= λ old.
          build B (binary f old v) >>= λ value. build B (store value variable) >> pure tt)
      | none ↦ raise "invalid operator `{}` at line {}" (text op ∷ number (row + 1) ∷ [])
    ]

    -- `OpEq`: the variable, the operator and the expression are the children 0, 1 and 3.
    unfoldable pub op_eq_codegen : Ast → Exec Ir (Unit {0})
    unfolding is_struct_kind
    op_eq_codegen a = lift (child a 0) >>= λ x. lift (child a 1) >>= λ o. lift (child a 3) >>= λ e.
        factor x >>= λ variable.
        let t = pointer_element_type (type_of variable) in
        let kind = is_struct_kind llvm t in
        if kind.1
        then op_eq_struct (row a) (contents o) kind.0 variable e
        else if is_integer_ty t || is_floating_point_ty t
        then op_eq_scalar (row a) (contents o) t variable e
        else raise "invalid type for operator{} at line {}"
            (text (contents o) ∷ number (row a + 1) ∷ [])
