-- ===== src/Tests/Functions.antt =====
-- The theorems on statements and functions, applied.
use native.Mathlib.Decide.{ℕ_discrete}
use whack.Prelude.{
  ℕ, zero, suc, ◌≡◌, refl, String, true, false, some, none, List, [], ◌∷◌, ◌++◌, arith, eqb,
  get_elem?, ◌⊎◌, if◌then◌else◌, Bool, ap, ◌↔◌,
}
use whack.Outcome.{ok, fault, Exec, ◌>>◌}
use whack.Ast.{Ast, node, nil}
use whack.Builder.{br, cond_br, ret, ret_void, back}
use whack.Stmt.Values.{let_of_ast}
use whack.Stmt.Values.Lets.{let_node, where_end, plain_end, made, let_of_ast-where}
use whack.Stmt.Branches.{Exit, no_exit}
use whack.Stmt.Jumps.{is_loop, continue_codegen, break_codegen}
use whack.Stmt.Jumps.Search.{
  Encloses, IsRanked, LeavesTo, no_loop, continue_codegen-Encloses, break_codegen-Encloses,
}
use whack.Stmt.Body.{run_statements, defer_at, apply_defer}
use whack.Stmt.Body.Deferred.{
  last_first, nodes, run_statements-last_first, arrived, step, apply_defer-Straight,
  apply_defer-branch,
}
use whack.Func.Returns.{deduce_func_return_type, returns_in, returns_of, deduce, deduced}
use whack.Func.Returns.Agree.{Agree, deduce_func_return_type-Agree}
use whack.Func.Codegen.{
  build_function, finish_function, settle_return_type, settle_declared, close_function, close_block,
  return_at,
}
use whack.Func.Codegen.Closed.{EndsWithReturn, build_function-EndsWithReturn}
use whack.Func.Codegen.Typed.{finish_function-Agree}
use whack.Tests.Nodes.{int_ty}
use whack.Tests.Machine.{machine}
use whack.Tests.Build.{builder, Ir, Val, Block, Step, of_ty}
use whack.Tests.Expressions.{begin, literal, sign}

abbrev block : ℕ → String → Block
block n name = record { number = n; name = name }

abbrev loop : Block
loop = block 0 "while"

abbrev inside : Block
inside = block 1 "then"

-- A function whose loop jumps to the block that is filled.
abbrev in_loop : Ir
in_loop = record begin {
  blocks = loop ∷ inside ∷ [];
  at = inside;
  made = 2;
  code = λ n. if eqb n 0 then br inside ∷ [] else [];
}

only_loop :
    (c : Bool) (i : ℕ) (p : Block)
    → get_elem? (if (if c then true else false) then loop ∷ [] else []) i ≡ some p
    → loop ≡ p
only_loop true zero p e = ground (arith, e)
only_loop true (suc i) p e = cc
only_loop false i p e = cc

loop-IsLoop : is_loop builder loop ≡ true
unfolding is_loop
loop-IsLoop = refl

in_loop-IsRanked : IsRanked builder in_loop (λ b. 0)
in_loop-IsRanked b p i e n =
    let found = ap (is_loop builder) (only_loop (eqb 1 b.number) i p e) in
    absurd (ground (arith, loop-IsLoop, found, n))

continue_codegen-Encloses_example :
    ((l : Block) × Encloses builder in_loop inside l
      × (continue_codegen builder 1 0 in_loop ≡ ok tt (builder.emit (br l) in_loop).1))
    ⊎ (((l : Block) → Encloses builder in_loop inside l → ⊥)
        × (continue_codegen builder 1 0 in_loop
            ≡ no_loop builder "could not find a loop to continue with at line {}" 0 in_loop))
continue_codegen-Encloses_example =
    continue_codegen-Encloses builder (λ b. 0) 1 0 in_loop in_loop-IsRanked (omega arith)

break_codegen-Encloses_example :
    ((l : Block) × Encloses builder in_loop inside l
      × (((d : Block) × LeavesTo builder in_loop l d
            × (break_codegen builder 1 0 in_loop ≡ ok tt (builder.emit (br d) in_loop).1))
          ⊎ (((d : Block) → LeavesTo builder in_loop l d → ⊥)
              × (break_codegen builder 1 0 in_loop ≡ fault))))
    ⊎ (((l : Block) → Encloses builder in_loop inside l → ⊥)
        × (break_codegen builder 1 0 in_loop
            ≡ no_loop builder "could not find a loop to break out of at line {}" 0 in_loop))
break_codegen-Encloses_example =
    break_codegen-Encloses builder (λ b. 0) 1 0 in_loop in_loop-IsRanked (omega arith)

-- A branch whose ways meet again.
abbrev entry : Block
entry = block 0 "entry"

abbrev then_block : Block
then_block = block 1 "then"

abbrev else_block : Block
else_block = block 2 "else"

abbrev cont : Block
cont = block 3 "cont"

abbrev code_of_branch : ℕ → List Step
code_of_branch zero = cond_br (of_ty (int_ty 1) 1) then_block else_block ∷ []
code_of_branch (suc zero) = br cont ∷ []
code_of_branch (suc (suc zero)) = br cont ∷ []
code_of_branch _ = []

abbrev branched : Ir
branched = record begin {
  blocks = entry ∷ then_block ∷ else_block ∷ cont ∷ [];
  at = cont;
  made = 4;
  code = code_of_branch;
}

abbrev pub deferred : Ast
deferred = node "stmt|deferstmt|>" "" 0 nil

-- What a deferred statement builds here: a return, so that it can be counted.
abbrev defer : Ast → Exec Ir (Unit {0})
defer a s = ok tt (builder.emit ret_void s).1

abbrev once : Ir
once = (builder.emit ret_void (record branched { at = cont })).1

apply_defer-Straight_example :
    apply_defer builder defer 2 cont deferred then_block branched
    ≡ defer_at builder defer deferred cont branched
apply_defer-Straight_example =
    apply_defer-Straight builder defer deferred 2 1 cont then_block branched
      (step refl refl (arrived refl refl)) (omega arith)

apply_defer-branch_example :
    apply_defer builder defer 3 cont deferred entry branched
    ≡ (defer_at builder defer deferred cont >> defer_at builder defer deferred cont) branched
apply_defer-branch_example =
    apply_defer-branch builder defer deferred 2 1 1 cont entry then_block else_block branched once
      refl refl (step refl refl (arrived refl refl)) refl (step refl refl (arrived refl refl))
      (omega arith) (omega arith)

-- Two deferred statements of a body.
abbrev pub nothing_built : Ast → Exec Ir (Exit Block)
nothing_built a s = ok no_exit s

abbrev other_deferred : Ast
other_deferred = node "stmt|deferstmt|>" "" 1 nil

abbrev body_exits : Exit Block × List (Block × Ast)
body_exits =
    elim (run_statements builder nothing_built (deferred ∷ other_deferred ∷ []) [] begin)
      as (λ x. Exit Block × List (Block × Ast)) [ ok r s ↦ r | _ ↦ (no_exit, []) ]

body_run :
    run_statements builder nothing_built (deferred ∷ other_deferred ∷ []) [] begin
    ≡ ok body_exits begin
unfolding run_statements
body_run = refl

run_statements-last_first_example :
    nodes builder body_exits.1
    ≡ last_first machine.string_ref (deferred ∷ other_deferred ∷ []) ++ []
run_statements-last_first_example =
    run_statements-last_first builder nothing_built (deferred ∷ other_deferred ∷ []) [] begin begin
      body_exits body_run

-- A function that returns an `int` twice.
abbrev two_returns : Ir
two_returns = record begin {
  returns = int_ty 32;
  blocks = entry ∷ cont ∷ [];
  code = λ n. ret (of_ty (int_ty 32) n) ∷ [];
}

deduce_func_return_type-Agree_example :
    (deduce_func_return_type builder 0 two_returns ≡ ok (some (int_ty 32)) two_returns)
    ↔ Agree machine (int_ty 32) (returns_in builder two_returns (entry ∷ cont ∷ []))
deduce_func_return_type-Agree_example =
    deduce_func_return_type-Agree builder 0 two_returns (int_ty 32)

finished : finish_function builder 0 two_returns ≡ ok tt two_returns
unfolding finish_function deduce_func_return_type deduced deduce returns_in returns_of
    settle_return_type settle_declared close_function close_block return_at back ℕ_discrete
finished = refl

finish_function-Agree_example :
    Agree machine (int_ty 32) (returns_in builder two_returns (entry ∷ cont ∷ []))
finish_function-Agree_example =
    finish_function-Agree builder 0 two_returns two_returns refl refl finished

-- A body that builds nothing.
abbrev pub no_scope : Exit Block → Exec Ir (Unit {0})
no_scope e s = ok tt s

abbrev built_nothing : Ir
built_nothing = elim (build_function builder nothing_built no_scope 0 deferred begin) as (λ x. Ir) [
  | ok r s ↦ s
  | _ ↦ begin
]

built : build_function builder nothing_built no_scope 0 deferred begin ≡ ok tt built_nothing
unfolding build_function finish_function deduce_func_return_type deduced deduce returns_in
    returns_of settle_return_type settle_declared close_function close_block return_at back
built = refl

build_function-EndsWithReturn_example : EndsWithReturn builder built_nothing
build_function-EndsWithReturn_example =
    build_function-EndsWithReturn builder nothing_built no_scope 0 deferred begin built_nothing
      built

let_of_ast-where_example :
    (let_of_ast machine.string_ref (
        let_node "letexpr|>" "" 0
          (sign "let")
          (literal "x")
          (sign "=")
          (literal "2")
          (where_end (sign "where") (literal "y") (sign ";")))
      ≡ some (made machine.string_ref 0 (literal "x") (literal "2")))
    × (let_of_ast machine.string_ref (
          let_node "letexpr|>" "" 0
            (sign "let")
            (literal "x")
            (sign "=")
            (literal "2")
            (plain_end (sign ";")))
        ≡ none)
let_of_ast-where_example =
    let_of_ast-where machine.string_ref "letexpr|>" "" 0 (sign "let") (literal "x") (sign "=")
      (literal "2") (sign ";") (sign "where") (literal "y") refl

abbrev pub always : Ast → Exec Ir Val
always a s = ok (of_ty (int_ty 1) 1) s
