-- ===== src/Stmt/Jumps/Search.antt =====
-- Which loop a jump finds.
use whack.Prelude.{
  ℕ, zero, suc, ◌+◌, ◌<◌, ◌≡◌, refl, subst, String, Bool, true, false, some, List, [], ◌∷◌, arith,
  if◌then◌else◌, get_elem?, ◌⊎◌, inl, inr, Bool-cases, Option, none, Option-cases, ap, sym, ◌∙◌,
}
use whack.Outcome.{
  Exec, Outcome, ok, failed, fault, out_of_fuel, number, bind, ◌>>=◌, ◌>>◌, pure, raise,
}
use whack.Builder.{Builder, Instr, br, cond_br, last}
use whack.Stmt.Jumps.{
  is_loop, second_successor, break_from, continue_with, try_predecessors, handle_jump,
  break_codegen, continue_codegen,
}

module _ (B : Builder) where
  open B use {llvm, Val, Block, Ir, predecessors, single_predecessor, insert_block, code, emit}
  open llvm use {Ty}

  -- Going back from a block through blocks that are no loops, this loop is reached.
  pub data Encloses (s : Ir) : Block → Block → Type 0 where
    here :
        {b loop : Block} (i : ℕ)
        → get_elem? (predecessors s b) i ≡ some loop
        → is_loop B loop ≡ true
        → Encloses s b loop
    behind :
        {b p loop : Block} (i : ℕ)
        → get_elem? (predecessors s b) i ≡ some p
        → is_loop B p ≡ false
        → Encloses s p loop
        → Encloses s b loop

  -- The blocks are ranked so that going back, but not past a loop, leads to a lower rank.
  abbrev pub IsRanked : Ir → (Block → ℕ) → Type 0
  IsRanked s rank =
      (b p : Block) (i : ℕ)
      → get_elem? (predecessors s b) i ≡ some p
      → is_loop B p ≡ false
      → rank p < rank b

  -- The same for the predecessors in a list.
  abbrev AmongList : Ir → List Block → Block → Type 0
  AmongList s ps loop =
      (i : ℕ) × (p : Block) × (get_elem? ps i ≡ some p)
      × (((is_loop B p ≡ true) × (p ≡ loop)) ⊎ ((is_loop B p ≡ false) × Encloses s p loop))

  not_among_nil : (s : Ir) (loop : Block) → AmongList s [] loop → ⊥
  not_among_nil s loop (i, p, e, k) = absurd (cc (e))

  among_cons :
      (s : Ir) (p loop : Block) (ps : List Block) → AmongList s ps loop → AmongList s (p ∷ ps) loop
  among_cons s p loop ps (i, q, e, k) = (suc i, q, e, k)

  among_head :
      (s : Ir) (p loop : Block) (ps : List Block)
      → is_loop B p ≡ false
      → Encloses s p loop
      → AmongList s (p ∷ ps) loop
  among_head s p loop ps e k = (0, p, refl, inr (e, k))

  not_among_cons :
      (s : Ir) (p loop : Block) (ps : List Block)
      → is_loop B p ≡ false
      → (Encloses s p loop → ⊥)
      → (AmongList s ps loop → ⊥)
      → AmongList s (p ∷ ps) loop
      → ⊥
  not_among_cons s p loop ps e h k (zero, q, f, inl (l, m)) = cc
  not_among_cons s p loop ps e h k (zero, q, f, inr (l, m)) =
      h (subst (λ x. Encloses s x loop) (ground (arith, f)) m)
  not_among_cons s p loop ps e h k (suc i, q, f, l) = k (i, q, f, l)

  not_elem_nil : (l : List Block) (i : ℕ) (b : Block) → l ≡ [] → get_elem? l i ≡ some b → ⊥
  not_elem_nil [] i b e f = cc
  not_elem_nil (x ∷ l) i b e f = cc

  not_encloses : (s : Ir) (p loop : Block) → predecessors s p ≡ [] → Encloses s p loop → ⊥
  not_encloses s p loop e (here i f l) = not_elem_nil _ i loop e f
  not_encloses s p loop e (behind {p = q} i f l k) = not_elem_nil _ i q e f

  found_bind :
      (o : Outcome Ir (Unit {0})) (rest : Exec Ir Bool)
      → bind (bind o (λ _. pure true)) (λ found. if found then pure true else rest)
        ≡ bind o (λ _. pure true)
  found_bind (ok a s) rest = refl
  found_bind (failed e s) rest = refl
  found_bind fault rest = refl
  found_bind out_of_fuel rest = refl

  bind-true :
      (o : Outcome Ir (Unit {0})) (other : Exec Ir (Unit {0}))
      → bind (bind o (λ _. pure true)) (λ found. if found then pure tt else other) ≡ o
  bind-true (ok tt s) other = refl
  bind-true (failed e s) other = refl
  bind-true fault other = refl
  bind-true out_of_fuel other = refl

  module _ (jump : Block → Exec Ir (Unit {0})) where
    -- A loop is found and jumped to, or there is none.
    abbrev pub Found : Ir → (Block → Type 0) → Outcome Ir Bool → Type 0
    Found s encloses o =
        ((loop : Block) × encloses loop × (o ≡ (jump loop >> pure true) s))
        ⊎ (((loop : Block) → encloses loop → ⊥) × (o ≡ ok false s))

    -- A predecessor that is no loop, before the others.
    Found-cons :
        (s : Ir) (p : Block) (ps : List Block) (search rest : Exec Ir Bool) (before : List Block)
        → predecessors s p ≡ before
        → is_loop B p ≡ false
        → Found s (Encloses s p) (search s)
        → Found s (AmongList s ps) (rest s)
        → Found s (AmongList s (p ∷ ps)) (
            (elim before as (λ x. Exec Ir Bool) [
              | [] ↦ rest
              | _ ∷ _ ↦ (search >>= λ found. if found then pure true else rest)
            ])
              s)
    Found-cons s p ps search rest [] e n h (inl (loop, k, f)) =
        inl (loop, among_cons s p loop ps k, f)
    Found-cons s p ps search rest [] e n h (inr (k, f)) =
        inr (λ loop. not_among_cons s p loop ps n (not_encloses s p loop e) (k loop), f)
    Found-cons s p ps search rest (x ∷ xs) e n (inl (loop, k, f)) h =
        inl (loop, among_head s p loop ps n k, rw f (found_bind (jump loop s) rest))
    Found-cons s p ps search rest (x ∷ xs) e n (inr (k, f)) (inl (loop, l, g)) =
        inl (loop, among_cons s p loop ps l, rw (f, g))
    Found-cons s p ps search rest (x ∷ xs) e n (inr (k, f)) (inr (l, g)) =
        inr (λ loop. not_among_cons s p loop ps n (k loop) (l loop), rw (f, g))

    try_predecessors-Found :
        (search : Block → Exec Ir Bool) (ps : List Block) (s : Ir)
        → ((p : Block) (i : ℕ)
            → get_elem? ps i ≡ some p
            → is_loop B p ≡ false
            → Found s (Encloses s p) (search p s))
        → Found s (AmongList s ps) (try_predecessors B jump search ps s)
    unfolding try_predecessors
    try_predecessors-Found search [] s h = inr (not_among_nil s, refl)
    try_predecessors-Found search (p ∷ ps) s h = elim (Bool-cases (is_loop B p)) [
      | inl e ↦ inl (p, (0, p, refl, inl (e, refl)), rw e)
      | inr e ↦ rw e (
          Found-cons s p ps (search p) (try_predecessors B jump search ps) (predecessors s p) refl e
            (h p 0 refl e) (try_predecessors-Found search ps s (λ q i. h q (suc i))))
    ]

    encloses_of :
        (s : Ir) (b loop : Block) → AmongList s (predecessors s b) loop → Encloses s b loop
    encloses_of s b loop (i, p, e, inl (l, m)) = subst (Encloses s b) m (here i e l)
    encloses_of s b loop (i, p, e, inr (l, k)) = behind i e l k

    among_of : (s : Ir) (b loop : Block) → Encloses s b loop → AmongList s (predecessors s b) loop
    among_of s b loop (here i e l) = (i, loop, e, inl (l, refl))
    among_of s b loop (behind {p = p} i e l k) = (i, p, e, inr (l, k))

    -- The search among the predecessors of a block is the search from the block.
    Found-block :
        (s : Ir) (b : Block) (o : Outcome Ir Bool)
        → Found s (AmongList s (predecessors s b)) o
        → Found s (Encloses s b) o
    Found-block s b o (inl (loop, k, e)) = inl (loop, encloses_of s b loop k, e)
    Found-block s b o (inr (k, e)) = inr (λ loop l. k loop (among_of s b loop l), e)

    handle_jump-Found :
        (rank : Block → ℕ) (fuel : ℕ) (b : Block) (s : Ir)
        → IsRanked s rank
        → rank b < fuel
        → Found s (Encloses s b) (handle_jump B jump fuel b s)
    unfolding handle_jump
    handle_jump-Found rank zero b s h l = absurd (omega arith)
    handle_jump-Found rank (suc fuel) b s h l = Found-block s b _ (
        try_predecessors-Found (handle_jump B jump fuel) (predecessors s b) s
          λ p i e n. handle_jump-Found rank fuel p s h (omega (arith, h b p i e n)))

  abbrev pub no_loop : String → ℕ → Exec Ir (Unit {0})
  no_loop format row = raise format (number (row + 1) ∷ [])

  -- Where the blocks are ranked so that going back past no loop leads to a lower rank, and the fuel
  -- is above the rank of the block that is filled, `continue` jumps to a loop that this block is
  -- reached from, going back through blocks that are no loops; it is an error, and nothing is built,
  -- exactly if there is no such loop.
  pub continue_codegen-Encloses :
      (rank : Block → ℕ) (fuel row : ℕ) (s : Ir)
      → IsRanked s rank
      → rank (insert_block s) < fuel
      → ((loop : Block) × Encloses s (insert_block s) loop
          × (continue_codegen B fuel row s ≡ ok tt (B.emit (br loop) s).1))
        ⊎ (((loop : Block) → Encloses s (insert_block s) loop → ⊥)
            × (continue_codegen B fuel row s
                ≡ no_loop "could not find a loop to continue with at line {}" row s))
  unfolding continue_codegen continue_with
  continue_codegen-Encloses rank fuel row s h l =
      elim (handle_jump-Found (continue_with B) rank fuel (insert_block s) s h l) [
        | inl (loop, k, e) ↦ inl (loop, k, rw e)
        | inr (k, e) ↦ inr (k, rw e)
      ]

  -- Out of the loop: the only block that jumps into it ends with a branch whose second way is this
  -- block.
  abbrev pub LeavesTo : Ir → Block → Block → Type 0
  LeavesTo s loop d =
      (p : Block) × (c : Val) × (t : Block) × (single_predecessor s loop ≡ some p)
      × (last B (code s p) ≡ some (cond_br c t d))

  second_successor-branch :
      (i : Option (Instr Ty Val Block)) (d : Block)
      → second_successor B i ≡ some d
      → (c : Val) × (t : Block) × (i ≡ some (cond_br c t d))
  second_successor-branch none d h = cc
  second_successor-branch (some (cond_br c t e)) d h = (c, t, ground (arith, h))
  second_successor-branch (some _) d h = cc

  break_from-LeavesTo :
      (loop : Block) (s : Ir)
      → ((d : Block) × LeavesTo s loop d × (break_from B loop s ≡ ok tt (emit (br d) s).1))
        ⊎ (((d : Block) → LeavesTo s loop d → ⊥) × (break_from B loop s ≡ fault))
  unfolding break_from
  break_from-LeavesTo loop s = elim (Option-cases (single_predecessor s loop)) [
    | inl e ↦ inr (λ d (p, c, t, q, r). absurd (ground (arith, e, q)), rw (break_from, e))
    | inr (p, e) ↦ elim (Option-cases (second_successor B (last B (code s p)))) [
      | inl k ↦ inr (
        λ d (q, c, t, same, r).
            let at : q ≡ p = ground (arith, e, same) in
            let ends : last B (code s p) ≡ some (cond_br c t d) =
              ap (λ y. last B (code s y)) (sym at) ∙ r in
            absurd (ground (arith, ap (second_successor B) ends, k)),
        rw (break_from, e, k),
      )
      | inr (d, k) ↦
          (let (c, t, r) = second_successor-branch (last B (code s p)) d k in
            inl (d, (p, c, t, e, r), rw (break_from, e, k)))
    ]
  ]

  -- Under the same conditions `break` finds a loop that the block is reached from, going back through
  -- blocks that are no loops, and is an error exactly if there is none. If the only block that jumps
  -- into the loop ends with a branch, it builds a jump to the second way of this branch, and nothing
  -- else; without such a branch it is undefined.
  pub break_codegen-Encloses :
      (rank : Block → ℕ) (fuel row : ℕ) (s : Ir)
      → IsRanked s rank
      → rank (insert_block s) < fuel
      → ((loop : Block) × Encloses s (insert_block s) loop
          × (((d : Block) × LeavesTo s loop d
                × (break_codegen B fuel row s ≡ ok tt (emit (br d) s).1))
              ⊎ (((d : Block) → LeavesTo s loop d → ⊥) × (break_codegen B fuel row s ≡ fault))))
        ⊎ (((loop : Block) → Encloses s (insert_block s) loop → ⊥)
            × (break_codegen B fuel row s
                ≡ no_loop "could not find a loop to break out of at line {}" row s))
  unfolding break_codegen
  break_codegen-Encloses rank fuel row s h l =
      elim (handle_jump-Found (break_from B) rank fuel (insert_block s) s h l) [
        | inl (loop, k, e) ↦
            (let found : break_codegen B fuel row s ≡ break_from B loop s =
                rw e (bind-true (break_from B loop s) _) in
              inl (
                loop,
                k,
                elim (break_from-LeavesTo loop s) [
                  | inl (d, leaves, q) ↦ inl (d, leaves, found ∙ q)
                  | inr (none_left, q) ↦ inr (none_left, found ∙ q)
                ],
              ))
        | inr (k, e) ↦ inr (k, rw e)
      ]
