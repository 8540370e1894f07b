-- ===== src/Stmt/Jumps.antt =====
-- ast/breakstmt.hpp and ast/continuestmt.hpp: the loop of a jump is searched backwards through the
-- predecessors of the block. The recursion stops at blocks without predecessors; it is modelled on
-- fuel, since a cycle of blocks that are no loop would keep it going.
pub mod Search
use whack.Prelude.{
  ℕ, zero, suc, ◌+◌, String, ◌||◌, Bool, true, false, Option, none, some, List, [], ◌∷◌,
  if◌then◌else◌,
}
use whack.Outcome.{Exec, number, ◌>>=◌, ◌>>◌, pure, raise, lift, fault, gets, out_of_fuel}
use whack.Llvm.{Llvm}
use whack.StringRef.{StringRef}
use whack.Builder.{Builder, Instr, br, cond_br, build, last}

module _ (B : Builder) where
  open B use {llvm, Block, Ir, predecessors, single_predecessor, block_name, code, insert_block}
  open llvm use {string_ref, Ty}

  -- `cast<BranchInst>(terminator)->getSuccessor(1)`
  abbrev pub second_successor : Option (Instr Ty B.Val Block) → Option Block
  second_successor (some (cond_br c t e)) = some e
  second_successor _ = none

  unfoldable pub is_loop : Block → Bool
  is_loop b =
      StringRef.starts_with string_ref (block_name b) "while"
      || StringRef.starts_with string_ref (block_name b) "for"

  -- What follows the loop: the other way of the jump into it. A loop with several predecessors
  -- has none that is single.
  unfoldable pub break_from : Block → Exec Ir (Unit {0})
  break_from loop s =
      (lift (single_predecessor s loop) >>= λ p.
      lift (second_successor (last B (code s p))) >>= λ cont. build B (br cont) >> pure tt)
        s

  unfoldable pub continue_with : Block → Exec Ir (Unit {0})
  continue_with loop = build B (br loop) >> pure tt

  module _ (jump : Block → Exec Ir (Unit {0})) where
    -- The loop over the predecessors; `search` is the recursive call.
    unfoldable pub try_predecessors : (Block → Exec Ir Bool) → List Block → Exec Ir Bool
    try_predecessors search [] = pure false
    try_predecessors search (p ∷ ps) =
        let rest = try_predecessors search ps in
        if is_loop p
        then jump p >> pure true
        else gets (λ s. predecessors s p) >>= λ before. elim before [
          | [] ↦ rest
          | _ ∷ _ ↦ (search p >>= λ found. if found then pure true else rest)
        ]

    -- `handleBreak` and `handleContinue`
    unfoldable pub handle_jump : ℕ → Block → Exec Ir Bool
    unfolding try_predecessors
    handle_jump zero current = λ s. out_of_fuel
    handle_jump (suc fuel) current =
        gets (λ s. predecessors s current) >>= try_predecessors (handle_jump fuel)

  -- `Break::codegen`
  unfoldable pub break_codegen : ℕ → ℕ → Exec Ir (Unit {0})
  break_codegen fuel row = gets insert_block >>= λ current.
      handle_jump break_from fuel current >>= λ found.
      if found
      then pure tt
      else raise "could not find a loop to break out of at line {}" (number (row + 1) ∷ [])

  -- `Continue::codegen`
  unfoldable pub continue_codegen : ℕ → ℕ → Exec Ir (Unit {0})
  continue_codegen fuel row = gets insert_block >>= λ current.
      handle_jump continue_with fuel current >>= λ found.
      if found
      then pure tt
      else raise "could not find a loop to continue with at line {}" (number (row + 1) ∷ [])
