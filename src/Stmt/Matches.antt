-- ===== src/Stmt/Matches.antt =====
-- ast/match.hpp and ast/typeswitch.hpp: `match (e) { … }` and `match type (e) { … }`.
pub mod Options
pub mod Selected
use whack.Prelude.{
  ℕ, ◌+◌, String, ◌==◌, Bool, true, false, Option, none, some, List, [], ◌∷◌, ◌++◌, map,
  if◌then◌else◌, not, drop,
}
use whack.Outcome.{Exec, number, ◌>>=◌, ◌>>◌, pure, raise, lift, fault, gets}
use whack.Ast.{Ast, child, children, contents, row, get_outermost_ast_tag}
use whack.StringRef.{StringRef}
use whack.Llvm.{Llvm}
use whack.Types.Codegen.{TypeList, get_type, get_type_list}
use whack.Builder.{Builder, switch, build, effect, on_module, finally}
use whack.Stmt.Values.{expr_nodes}
use whack.Stmt.Branches.{Exit, new_block, close_with}

-- An alternative of a match: the node before the `:` and the statement behind it.
pub record Alternative : Type 0 where
  pub options : Ast
  pub stmt : Ast

-- The children before the last one, three by three: an alternative, a `:` and a statement.
unfoldable pub alternatives : List Ast → Option (List Alternative)
alternatives [] = some []
alternatives (close ∷ []) = some []
alternatives (a ∷ b ∷ []) = none
alternatives (a ∷ colon ∷ s ∷ l) = elim (alternatives l) [
  | none ↦ none
  | some rest ↦ some (record { options = a; stmt = s } ∷ rest)
]

abbrev pub is_default : Alternative → Bool
is_default a = contents a.options == "default"

-- The statement of the last alternative that is `default`, from the one before on.
unfoldable pub default_of : Option Ast → List Alternative → Option Ast
default_of found [] = found
default_of found (a ∷ l) = default_of (if is_default a then some a.stmt else found) l

-- The others.
unfoldable pub cases_of : List Alternative → List Alternative
cases_of [] = []
cases_of (a ∷ l) = let rest = cases_of l in if is_default a then rest else a ∷ rest

module _ (B : Builder) where
  open B use {
    llvm, Val, Block, Ir, type_of, is_constant_int, same_val, insert_block, set_insert_point,
    move_before, erase_block, add_case, restore_insert_point,
  }
  open llvm use {Ty, string_ref, same_ty}

  abbrev pub mem_val : Val → List Val → Bool
  mem_val v [] = false
  mem_val v (w ∷ ws) = if same_val w v then true else mem_val v ws

  abbrev pub mem_ty : Ty → List Ty → Bool
  mem_ty t [] = false
  mem_ty t (u ∷ us) = if same_ty t u then true else mem_ty t us

  module _ (expression : Ast → Exec Ir Val) (stmt : Ast → Exec Ir (Exit Block))
      (run_exit : Exit Block → Exec Ir (Unit {0})) where
    -- A value has the type of the subject and is none of the values before.
    unfoldable pub accept_option : ℕ → Ty → List Val → Val → Exec Ir (Unit {0})
    accept_option row t seen v s =
        if not (same_ty (type_of v) t)
        then raise "invalid type for match option at line {}" (number (row + 1) ∷ []) s
        else if mem_val v seen
        then raise "duplicate option for match at line {}" (number (row + 1) ∷ []) s
        else pure tt s

    -- The values of an alternative; `seen` are all values before, of type `t`.
    unfoldable pub option_values : ℕ → Ty → List Val → List Ast → Exec Ir (List Val)
    option_values row t seen [] = pure []
    option_values row t seen (e ∷ es) = expression e >>= λ v.
        accept_option row t seen v
        >> (option_values row t (seen ++ v ∷ []) es >>= λ vs. pure (v ∷ vs))

    -- The first loop of `exprMatch`: the values of each alternative, with its statement.
    unfoldable pub match_options :
        Ty → List Val → List Alternative → Exec Ir (List (List Val × Ast))
    match_options t seen [] = pure []
    match_options t seen (a ∷ l) =
        option_values (row a.options) t seen (expr_nodes string_ref a.options) >>= λ vs.
        match_options t (seen ++ vs) l >>= λ rest. pure ((vs, a.stmt) ∷ rest)

    -- A statement from its block on, closed by a jump to the end of the match.
    unfoldable pub match_branch : Block → Block → Ast → Exec Ir (Unit {0})
    match_branch block cont a = do
      effect B (set_insert_point block)
      e ← stmt a
      run_exit e
      end ← gets insert_block
      close_with B end cont

    -- `switcher->addCase(value, block)` for the values of an alternative; one that is no constant
    -- integer is a null pointer there.
    unfoldable pub add_cases : Val → Block → List Val → Exec Ir (Unit {0})
    add_cases switcher block [] = pure tt
    add_cases switcher block (v ∷ vs) =
        if is_constant_int v
        then effect B (add_case switcher v block) >> add_cases switcher block vs
        else (λ s. fault)

    -- The second loop.
    unfoldable pub match_cases : Val → Block → List (List Val × Ast) → Exec Ir (Unit {0})
    match_cases switcher cont [] = pure tt
    match_cases switcher cont ((vs, a) ∷ l) = do
      block ← new_block B "case"
      add_cases switcher block vs
      effect B (move_before block cont)
      match_branch block cont a
      match_cases switcher cont l

    -- Without a `default` nothing is put in its block.
    unfoldable pub match_default : Block → Block → Option Ast → Exec Ir (Unit {0})
    match_default block cont none = pure tt
    match_default block cont (some a) = match_branch block cont a

    -- `exprMatch`
    unfoldable pub expr_match : Ast → List Alternative → Exec Ir (Unit {0})
    expr_match e l = do
      subject ← expression e
      options ← match_options (type_of subject) [] (cases_of l)
      default_block ← new_block B "default"
      cont ← new_block B "block"
      switcher ← build B (switch subject default_block)
      match_cases switcher cont options
      match_default default_block cont (default_of none l)
      effect B (set_insert_point cont)

    -- `Match::codegen`: the subject is the child 2, and the alternatives begin with the child 5. What
    -- does not begin with expressions is taken for a match on a data class, which builds nothing.
    unfoldable pub match_codegen : Ast → Exec Ir (Unit {0})
    match_codegen a = lift (child a 5) >>= λ first.
        if get_outermost_ast_tag string_ref first == "exprlist"
        then (lift (child a 2) >>= λ e. lift (alternatives (drop 5 (children a))) >>= expr_match e)
        else pure tt

    module _ (fuel : ℕ) where
      -- The value of an expression, built by another builder in a block that is then erased.
      unfoldable pub value_aside : Ast → Exec Ir Val
      value_aside e s =
          (new_block B "" >>= λ temp.
          finally B (effect B (set_insert_point temp) >> expression e)
            (effect B (λ t. restore_insert_point s (erase_block temp t))))
            s

      unfoldable pub run_stmt : Ast → Exec Ir (Unit {0})
      run_stmt a = stmt a >>= run_exit

      unfoldable pub run_default : Option Ast → Exec Ir (Unit {0})
      run_default none = pure tt
      run_default (some a) = run_stmt a

      -- The loop of `TypeSwitch::codegen`, which ends behind the option that has the type, and the
      -- default if none has.
      unfoldable pub switch_options : ℕ → Ty → Option Ast → List Alternative → Exec Ir (Unit {0})
      switch_options line t otherwise [] = run_default otherwise
      switch_options line t otherwise (a ∷ l) =
          on_module B (get_type_list llvm (get_type llvm fuel) a.options) >>= λ types.
          if types.1
          then raise "cannot use a variadic type in type switch at line {}" (number (line + 1) ∷ [])
          else if mem_ty t types.0
          then run_stmt a.stmt
          else switch_options line t otherwise l

      -- `TypeSwitch`: the expression is the child 3, and the options begin with the child 6.
      unfoldable pub type_switch_codegen : Ast → Exec Ir (Unit {0})
      type_switch_codegen a = do
        e ← lift (child a 3)
        l ← lift (alternatives (drop 6 (children a)))
        v ← value_aside e
        switch_options (row a) (type_of v) (default_of none l) (cases_of l)
