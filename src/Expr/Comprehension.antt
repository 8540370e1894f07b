-- ===== src/Expr/Comprehension.antt =====
-- ast/listcomprehension.hpp, with what it takes of ast/forinexpr.hpp and ast/range.hpp.
use whack.Prelude.{◌-◌, String, ◌==◌, Bool, Option, none, some, [], ◌∷◌, if◌then◌else◌, length, ltb}
use whack.Outcome.{Exec, ◌>>=◌, ◌>>◌, pure, raise, lift, fault}
use whack.Ast.{Ast, child, children, contents, get_outermost_ast_tag}
use whack.StringRef.{StringRef}
use whack.Types.Codegen.{get_var_len_type}
use whack.Builder.{
  Builder, Predicate, icmp_slt, icmp_sle, binary, build_add, compare, load, store, alloca,
  struct_gep, in_bounds_gep, cond_br, build, effect,
}
use whack.Stmt.Branches.{new_block}

pub record Range : Type 0 where
  pub begin : Ast
  pub next : Option Ast
  pub end : Option Ast
  pub end_inclusive : Bool

module _ (T : StringRef) where
  abbrev rangeable : Ast → Option Ast
  rangeable a = if get_outermost_ast_tag T a == "rangeable" then some a else none

  -- The constructor of `Range`
  unfoldable pub range_of_ast : Ast → Option Range
  range_of_ast a = elim (child a 0) [
    | none ↦ none
    | some b ↦ elim (child a (length (children a) - 1)) [
      | none ↦ none
      | some e ↦
          elim (if ltb 1 (length (children a)) then child a (length (children a) - 2) else none) [
            | none ↦ none
            | some sign ↦ some (record {
              begin = b;
              next =
                  if ltb 4 (length (children a))
                  then (elim (child a 2) [ none ↦ none | some n ↦ rangeable n ])
                  else none;
              end = rangeable e;
              end_inclusive = contents sign == "=";
            })
          ]
    ]
  ]

module _ (B : Builder) where
  open B use {llvm, Val, Block, Ir, type_of, const_int, set_insert_point}
  open llvm use {Ty, string_ref, int_ty, is_pointer_ty, pointer_element_type}

  abbrev pub zero_index : Val
  zero_index = const_int (int_ty 32) 0

  -- The jump into the loop, or behind it.
  unfoldable pub loop_while : Predicate → Val → Val → Block → Block → Exec Ir (Unit {0})
  loop_while cmp current end block cont = do
    v ← build B (load current)
    c ← build B (compare cmp v end)
    build B (cond_br c block cont)
    pure tt

  -- The body of the loop: a step, and the value stored behind those before.
  unfoldable pub append_value : Ty → Val → Val → Val → Val → Exec Ir (Unit {0})
  append_value t ret size_ptr current incr = do
    v ← build B (load current)
    step ← build B (binary build_add v incr)
    build B (store step current)
    elems ← build B (struct_gep t ret 1 "")
    n ← build B (load size_ptr)
    p ← build B (in_bounds_gep elems (zero_index ∷ n ∷ []))
    w ← build B (load current)
    build B (store w p)
    m ← build B (load size_ptr)
    size ← build B (binary build_add m (const_int (int_ty 32) 1))
    build B (store size size_ptr)
    pure tt

  -- The loop from `begin` to `end`, and the list that it fills.
  unfoldable pub fill_list : Predicate → Val → Val → Val → Exec Ir Val
  fill_list cmp begin end incr = do
    ret ← build B (alloca (get_var_len_type llvm (type_of begin)) "")
    size_ptr ← build B (struct_gep (pointer_element_type (type_of ret)) ret 0 "")
    build B (store zero_index size_ptr)
    block ← new_block B "block"
    cont ← new_block B "cont"
    current ← build B (alloca (type_of begin) "")
    build B (store begin current)
    loop_while cmp current end block cont
    effect B (set_insert_point block)
    append_value (pointer_element_type (type_of ret)) ret size_ptr current incr
    loop_while cmp current end block cont
    effect B (set_insert_point cont)
    build B (load ret)

  module _ (factor : Ast → Exec Ir Val) where
    -- `range.end(builder)` and `range.next(builder)`
    unfoldable pub bound : String → Option Ast → Exec Ir Val
    bound missing none = raise missing []
    bound missing (some a) = factor a

    -- The body of the loop of `codegen`, which ends in the first round.
    unfoldable pub comprehend : Range → Exec Ir Val
    comprehend r = factor r.begin >>= λ begin.
        if is_pointer_ty (type_of begin)
        then (λ s. fault)
        else bound "no end" r.end >>= λ end. bound "no next" r.next >>= λ incr.
            fill_list (if r.end_inclusive then icmp_sle else icmp_slt) begin end incr

    -- `ListComprehension::codegen`: the `for … in …` are the children 2, 4, …; the range is the
    -- child 3 of each.
    unfoldable pub list_comprehension_codegen : Ast → Exec Ir Val
    list_comprehension_codegen a =
        if ltb 3 (length (children a))
        then (do
          f ← lift (child a 2)
          x ← lift (child f 3)
          r ← lift (range_of_ast string_ref x)
          comprehend r)
        else raise "list comprehension failed" []
