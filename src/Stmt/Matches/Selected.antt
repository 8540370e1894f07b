-- ===== src/Stmt/Matches/Selected.antt =====
-- The statement that a type switch selects.
use whack.Prelude.{
  ℕ, zero, suc, ◌≡◌, refl, ap, sym, ◌∙◌, Bool, true, false, Bool-cases, inl, inr, Option, none,
  some, List, [], ◌∷◌, if◌then◌else◌, drop, get_elem?, arith,
}
use whack.Outcome.{Exec, ok}
use whack.Ast.{Ast, child, children, row}
use whack.Types.Codegen.{get_type, get_type_list}
use whack.Builder.{Builder, on_module}
use whack.Stmt.Branches.{Exit}
use whack.Stmt.Matches.{
  Alternative, alternatives, is_default, default_of, cases_of, value_aside, mem_ty, run_default,
  switch_options, run_stmt, type_switch_codegen,
}

module _ (B : Builder) where
  open B use {llvm, Val, Block, Ir, type_of}
  open llvm use {Ty, same_ty}

  -- None of the alternatives is a `default`.
  abbrev AreOthers : List Alternative → Type 0
  AreOthers l = (i : ℕ) (a : Alternative) → get_elem? l i ≡ some a → is_default a ≡ false

  -- The statement of the last `default`, if there is one.
  abbrev pub IsLastDefault : List Alternative → Option Ast → Type 0
  IsLastDefault l none = AreOthers l
  IsLastDefault l (some d) =
      (i : ℕ) × (a : Alternative) × (get_elem? l i ≡ some a)
      × (is_default a ≡ true)
      × (a.stmt ≡ d)
      × AreOthers (drop (suc i) l)

  default_of-AreOthers :
      (found : Option Ast) (l : List Alternative) → AreOthers l → default_of found l ≡ found
  unfolding default_of
  default_of-AreOthers found [] h = refl
  default_of-AreOthers found (a ∷ l) h =
      rw (default_of, h 0 a refl) (default_of-AreOthers found l (λ i. h (suc i)))

  default_of-last :
      (l : List Alternative) (i : ℕ) (a : Alternative) (found : Option Ast)
      → get_elem? l i ≡ some a
      → is_default a ≡ true
      → AreOthers (drop (suc i) l)
      → default_of found l ≡ some a.stmt
  unfolding default_of
  default_of-last [] i a found e k h = cc
  default_of-last (x ∷ l) zero a found e k h =
      let same : x ≡ a = ground (arith, e) in default_of-AreOthers _ l h ∙ rw (same, k)
  default_of-last (x ∷ l) (suc i) a found e k h = default_of-last l i a _ e k h

  default_of-IsLastDefault :
      (l : List Alternative) (d : Option Ast) → IsLastDefault l d → default_of none l ≡ d
  default_of-IsLastDefault l none h = default_of-AreOthers none l h
  default_of-IsLastDefault l (some d) (i, a, e, k, same, h) =
      default_of-last l i a none e k h ∙ ap some same

  if-same : {A : Type 0} (b : Bool) (x : A) → (if b then x else x) ≡ x
  if-same true x = refl
  if-same false x = refl

  mem_ty-at : (t : Ty) (ts : List Ty) (i : ℕ) → get_elem? ts i ≡ some t → mem_ty B t ts ≡ true
  mem_ty-at t [] i e = cc
  mem_ty-at t (u ∷ us) zero e = rw ((llvm.same_ty_iff t u).1 (ground (arith, e)))
  mem_ty-at t (u ∷ us) (suc i) e = rw (mem_ty-at t us i e) (if-same (same_ty t u) true)

  mem_ty-none :
      (t : Ty) (ts : List Ty) → ((i : ℕ) → get_elem? ts i ≡ some t → ⊥) → mem_ty B t ts ≡ false
  mem_ty-none t [] h = refl
  mem_ty-none t (u ∷ us) h = elim (Bool-cases (same_ty t u)) [
    | inl e ↦ absurd (h 0 (ap some (sym ((llvm.same_ty_iff t u).0 e))))
    | inr e ↦ rw (e, mem_ty-none t us (λ i. h (suc i)))
  ]

  -- Among the alternatives in their order, which are read from this state on, this is the statement
  -- to build for a value of type `t`, and the state in which it is built. A `default` is skipped; the
  -- types of the others are read, none of them variadic, up to the first that has the type; without
  -- such a one it is the statement given, if any.
  pub data Selects (fuel : ℕ) (t : Ty) (otherwise : Option Ast)
      : List Alternative → Ir → Option Ast → Ir → Type 0 where
    selects_otherwise : {s : Ir} → Selects fuel t otherwise [] s otherwise s
    selects_this :
        {a : Alternative} {l : List Alternative} {s s1 : Ir} (ts : List Ty) (i : ℕ)
        → is_default a ≡ false
        → on_module B (get_type_list llvm (get_type llvm fuel) a.options) s ≡ ok (ts, false) s1
        → get_elem? ts i ≡ some t
        → Selects fuel t otherwise (a ∷ l) s (some a.stmt) s1
    selects_later :
        {a : Alternative} {l : List Alternative} {s s1 s2 : Ir} {r : Option Ast} (ts : List Ty)
        → is_default a ≡ false
        → on_module B (get_type_list llvm (get_type llvm fuel) a.options) s ≡ ok (ts, false) s1
        → ((i : ℕ) → get_elem? ts i ≡ some t → ⊥)
        → Selects fuel t otherwise l s1 r s2
        → Selects fuel t otherwise (a ∷ l) s r s2
    selects_behind :
        {a : Alternative} {l : List Alternative} {s s2 : Ir} {r : Option Ast}
        → is_default a ≡ true
        → Selects fuel t otherwise l s r s2
        → Selects fuel t otherwise (a ∷ l) s r s2

  module _ (expression : Ast → Exec Ir Val) (stmt : Ast → Exec Ir (Exit Block))
      (run_exit : Exit Block → Exec Ir (Unit {0})) where
    switch_options-Selects :
        (fuel line : ℕ) (t : Ty) (otherwise : Option Ast) (l : List Alternative) (s : Ir)
        (r : Option Ast) (s2 : Ir)
        → Selects fuel t otherwise l s r s2
        → switch_options B expression stmt run_exit fuel line t otherwise (cases_of l) s
          ≡ run_default B expression stmt run_exit fuel r s2
    unfolding switch_options run_stmt run_default cases_of
    switch_options-Selects fuel line t otherwise _ s _ _ selects_otherwise = refl
    switch_options-Selects fuel line t otherwise _ s _ s2 (selects_this ts i d read at) =
        rw (d, switch_options, read, mem_ty-at t ts i at)
    switch_options-Selects fuel line t otherwise (a ∷ l) s r s2
          (selects_later {s1 = s1} ts d read away rest) =
        rw (d, switch_options, read, mem_ty-none t ts away)
          (switch_options-Selects fuel line t otherwise l s1 r s2 rest)
    switch_options-Selects fuel line t otherwise (a ∷ l) s r s2 (selects_behind d rest) =
        rw d (switch_options-Selects fuel line t otherwise l s r s2 rest)

    -- A type switch whose expression has a value builds the statement that its alternatives select
    -- for the type of the value, where reading their types leaves off, and no other: the statement of
    -- the first alternative, no `default`, that has the type, the types up to it being read and not
    -- variadic; if none has it, the last `default`, or nothing if there is none.
    pub type_switch_codegen-select :
        (fuel : ℕ) (a e : Ast) (l : List Alternative) (v : Val) (d r : Option Ast) (s s1 s2 : Ir)
        → child a 3 ≡ some e
        → alternatives (drop 6 (children a)) ≡ some l
        → value_aside B expression stmt run_exit fuel e s ≡ ok v s1
        → IsLastDefault l d
        → Selects fuel (type_of v) d l s1 r s2
        → type_switch_codegen B expression stmt run_exit fuel a s
          ≡ run_default B expression stmt run_exit fuel r s2
    unfolding type_switch_codegen
    type_switch_codegen-select fuel a e l v d r s s1 s2 c h k n q =
        rw (type_switch_codegen, c, h, k, default_of-IsLastDefault l d n)
          (switch_options-Selects fuel (row a) (type_of v) d l s1 r s2 q)
