-- ===== src/Stmt/Body/Deferred.antt =====
-- The order of deferred statements, and where they are built.
use whack.Prelude.{
  ℕ, zero, suc, ◌<◌, ◌≡◌, refl, sym, ap, ◌∙◌, true, false, Option, none, some, List, [], ◌∷◌, ◌++◌,
  arith, append_assoc,
}
use whack.Outcome.{Exec, Outcome, ok, failed, fault, out_of_fuel, bind, ◌>>◌, pure}
use whack.Outcome.Rules.{bind-eq-ok}
use whack.Ast.{Ast}
use whack.StringRef.{StringRef}
use whack.Builder.{Builder}
use whack.Stmt.Branches.{Exit, both_exit}
use whack.Stmt.Body.{deferred_node, run_statements, defer_at, each_successor, apply_defer}

-- The deferred statements among these, the last one first.
abbrev pub last_first : StringRef → List Ast → List Ast
last_first T [] = []
last_first T (a ∷ l) = last_first T l ++ (elim (deferred_node T a) [ some d ↦ d ∷ [] | none ↦ [] ])

module _ (B : Builder) where
  open B use {llvm, Block, Ir, same_block, insert_block, successors}
  open llvm use {string_ref}

  abbrev pub nodes : List (Block × Ast) → List Ast
  nodes [] = []
  nodes ((b, d) ∷ l) = d ∷ nodes l

  result :
      (e : Exit Block) (q r : Exit Block × List (Block × Ast)) (u s' : Ir)
      → pure {S = Ir} (both_exit e q.0, q.1) u ≡ ok r s'
      → r.1 ≡ q.1
  result e q r u s' h = cc

  nodes_added :
      (b : Block) (earlier : List (Block × Ast)) (o : Option Ast)
      → nodes (elim o as (λ x. List (Block × Ast)) [ some d ↦ (b, d) ∷ earlier | none ↦ earlier ])
        ≡ (elim o as (λ x. List Ast) [ some d ↦ d ∷ [] | none ↦ [] ]) ++ nodes earlier
  nodes_added b earlier none = refl
  nodes_added b earlier (some d) = refl

  module _ (stmt : Ast → Exec Ir (Exit Block)) where
    -- Statements that succeed leave the deferred ones among them, the last one first, before those
    -- that were deferred earlier.
    pub run_statements-last_first :
        (l : List Ast) (earlier : List (Block × Ast)) (s s' : Ir)
        (r : Exit Block × List (Block × Ast))
        → run_statements B stmt l earlier s ≡ ok r s'
        → nodes r.1 ≡ last_first string_ref l ++ nodes earlier
    unfolding run_statements
    run_statements-last_first [] earlier s s' r h = ground (arith, h)
    run_statements-last_first (a ∷ l) earlier s s' r h =
        let (e, t, h1, h2) = bind-eq-ok (stmt a s) _ r s' h in
        let (q, u, h3, h4) =
          bind-eq-ok
            (run_statements B stmt l
              (elim (deferred_node string_ref a) as (λ x. List (Block × Ast)) [
                | some d ↦ (insert_block t, d) ∷ earlier
                | none ↦ earlier
              ])
              t)
            _ r s' h2 in
        ap nodes (result e q r u s' h4)
        ∙ run_statements-last_first l _ t u q h3
        ∙ ap (λ x. last_first string_ref l ++ x)
            (nodes_added (insert_block t) earlier (deferred_node string_ref a))
        ∙ sym (append_assoc (last_first string_ref l) _ (nodes earlier))

  module _ (defer : Ast → Exec Ir (Unit {0})) (d : Ast) where
    -- From a block a path of single successors leads to the current block, and passes it only there.
    pub data Straight (s : Ir) (current : Block) : Block → ℕ → Type 0 where
      arrived : {b : Block} → same_block b current ≡ true → b ≡ current → Straight s current b 0
      step :
          {b c : Block} {n : ℕ}
          → same_block b current ≡ false
          → successors s b ≡ c ∷ []
          → Straight s current c n
          → Straight s current b (suc n)

    bind_unit : (o : Outcome Ir (Unit {0})) → bind o (λ _. pure tt) ≡ o
    bind_unit (ok tt s) = refl
    bind_unit (failed e s) = refl
    bind_unit fault = refl
    bind_unit out_of_fuel = refl

    -- Where a straight path of blocks leads from the block of a deferred statement to the current
    -- one, the statement is built once, at the current one.
    pub apply_defer-Straight :
        (fuel n : ℕ) (current b : Block) (s : Ir)
        → Straight s current b n
        → n < fuel
        → apply_defer B defer fuel current d b s ≡ defer_at B defer d current s
    unfolding apply_defer each_successor
    apply_defer-Straight zero n current b s h l = absurd (omega arith)
    apply_defer-Straight (suc fuel) _ current b s (arrived e f) l = rw (e, f)
    apply_defer-Straight (suc fuel) _ current b s (step {c = c} e f (arrived g h)) l =
        rw (e, f, g, h) (bind_unit (defer_at B defer d current s))
    apply_defer-Straight (suc fuel) _ current b s (step {c = c} e f (step g h k)) l =
        rw (e, f, g, h, apply_defer-Straight fuel _ current c s (step g h k) (omega (arith, l)))
          (bind_unit (defer_at B defer d current s))

    abbrev over : ℕ → Block → List Block → Exec Ir (Unit {0})
    over fuel current l = each_successor B defer (apply_defer B defer fuel current d) current d l

    each_successor-Straight :
        (fuel n : ℕ) (current c : Block) (rest : List Block) (s : Ir)
        → Straight s current c n
        → n < fuel
        → over fuel current (c ∷ rest) s
          ≡ bind (defer_at B defer d current s) (λ _. over fuel current rest)
    unfolding each_successor
    each_successor-Straight fuel _ current c rest s (arrived g h) l = rw (g, h)
    each_successor-Straight fuel _ current c rest s (step g f k) l =
        rw (g, f, apply_defer-Straight fuel _ current c s (step g f k) l)

    apply_defer-successors :
        (fuel : ℕ) (current b : Block) (l : List Block) (s : Ir)
        → same_block b current ≡ false
        → successors s b ≡ l
        → apply_defer B defer (suc fuel) current d b s ≡ over fuel current l s
    unfolding apply_defer
    apply_defer-successors fuel current b l s h e = rw (h, e)

    -- Where the two ways of a branch lead to the current block by straight paths, the second one also
    -- once the first has been followed, a statement deferred before the branch is built twice there.
    pub apply_defer-branch :
        (fuel n m : ℕ) (current b x y : Block) (s t : Ir)
        → same_block b current ≡ false
        → successors s b ≡ x ∷ y ∷ []
        → Straight s current x n
        → defer_at B defer d current s ≡ ok tt t
        → Straight t current y m
        → n < fuel
        → m < fuel
        → apply_defer B defer (suc fuel) current d b s
          ≡ (defer_at B defer d current >> defer_at B defer d current) s
    unfolding each_successor
    apply_defer-branch fuel n m current b x y s t h e px k py ln lm =
        rw
          (
            apply_defer-successors fuel current b (x ∷ y ∷ []) s h e,
            each_successor-Straight fuel n current x (y ∷ []) s px ln,
            k,
            each_successor-Straight fuel m current y [] t py lm,
          )
          (bind_unit (defer_at B defer d current t))
