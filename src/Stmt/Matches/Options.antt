-- ===== src/Stmt/Matches/Options.antt =====
-- The values of the alternatives of a match.
use whack.Prelude.{
  ℕ, zero, suc, ◌<◌, ◌≡◌, refl, sym, subst, true, false, some, List, [], ◌∷◌, ◌++◌, append_assoc,
  append-nil, get_elem?, arith, Bool-cases, inl, inr,
}
use whack.Outcome.{Exec, ok}
use whack.Outcome.Rules.{bind-eq-ok}
use whack.Ast.{Ast, row}
use whack.Builder.{Builder}
use whack.Stmt.Branches.{Exit}
use whack.Stmt.Values.{expr_nodes}
use whack.Stmt.Matches.{Alternative, mem_val, accept_option, option_values, match_options}

module _ (B : Builder) where
  open B use {llvm, Val, Block, Ir, type_of, same_val, same_val_iff}
  open llvm use {Ty, string_ref, same_ty, same_ty_iff}

  -- Values of one type, each none of those before.
  abbrev Fresh : Ty → List Val → List Val → Type 0
  Fresh t seen [] = Unit {0}
  Fresh t seen (v ∷ vs) = (type_of v ≡ t) × (mem_val B v seen ≡ false) × Fresh t (seen ++ v ∷ []) vs

  Fresh-append :
      (t : Ty) (seen vs ws : List Val)
      → Fresh t seen vs
      → Fresh t (seen ++ vs) ws
      → Fresh t seen (vs ++ ws)
  Fresh-append t seen [] ws h k = subst (λ l. Fresh t l ws) (append-nil seen) k
  Fresh-append t seen (v ∷ vs) ws (a, b, h) k = (
    a,
    b,
    Fresh-append t (seen ++ v ∷ []) vs ws h
        (subst (λ l. Fresh t l ws) (sym (append_assoc seen (v ∷ []) vs)) k),
  )

  mem_val-append :
      (w v : Val) (seen : List Val)
      → mem_val B w (seen ++ v ∷ []) ≡ false
      → mem_val B w seen ≡ false
  mem_val-append w v [] h = refl
  mem_val-append w v (u ∷ seen) h = ground (arith, h, mem_val-append w v seen)

  mem_val-last : (v : Val) (seen : List Val) → mem_val B v (seen ++ v ∷ []) ≡ true
  mem_val-last v [] = rw ((same_val_iff v v).1 refl)
  mem_val-last v (u ∷ seen) = ground (arith, mem_val-last v seen)

  -- What is fresh is none of the values before, and has the type.
  Fresh-at :
      (t : Ty) (seen vs : List Val) (i : ℕ) (v : Val)
      → Fresh t seen vs
      → get_elem? vs i ≡ some v
      → (type_of v ≡ t) × (mem_val B v seen ≡ false)
  Fresh-at t seen [] i v h k = cc
  Fresh-at t seen (u ∷ vs) zero v (a, b, h) k =
      let same : u ≡ v = ground (arith, k) in
      subst (λ x. (type_of x ≡ t) × (mem_val B x seen ≡ false)) same (a, b)
  Fresh-at t seen (u ∷ vs) (suc i) v (a, b, h) k =
      let (c, d) = Fresh-at t (seen ++ u ∷ []) vs i v h k in (c, mem_val-append v u seen d)

  Fresh-once :
      (t : Ty) (seen vs : List Val) (i j : ℕ) (v : Val)
      → Fresh t seen vs
      → i < j
      → get_elem? vs i ≡ some v
      → get_elem? vs j ≡ some v
      → ⊥
  Fresh-once t seen [] i j v h lt p q = cc
  Fresh-once t seen (u ∷ vs) i zero v h lt p q = absurd (omega arith)
  Fresh-once t seen (u ∷ vs) zero (suc j) v (a, b, h) lt p q =
      let same : u ≡ v = ground (arith, p) in
      let (c, d) = Fresh-at t (seen ++ u ∷ []) vs j v h q in cc (d, mem_val-last v seen, same)
  Fresh-once t seen (u ∷ vs) (suc i) (suc j) v (a, b, h) lt p q =
      Fresh-once t (seen ++ u ∷ []) vs i j v h (omega arith) p q

  -- The values of all alternatives in order.
  abbrev pub all_values : List (List Val × Ast) → List Val
  all_values [] = []
  all_values ((vs, a) ∷ l) = vs ++ all_values l

  module _ (expression : Ast → Exec Ir Val) (stmt : Ast → Exec Ir (Exit Block))
      (run_exit : Exit Block → Exec Ir (Unit {0})) where
    accept_option-Fresh :
        (at : ℕ) (t : Ty) (seen : List Val) (v : Val) (s s' : Ir)
        → accept_option B expression stmt run_exit at t seen v s ≡ ok tt s'
        → (type_of v ≡ t) × (mem_val B v seen ≡ false)
    unfolding accept_option
    accept_option-Fresh at t seen v s s' h = elim (Bool-cases (same_ty (type_of v) t)) [
      | inr e ↦ absurd (ground (arith, h, e))
      | inl e ↦ ((same_ty_iff (type_of v) t).0 e, ground (arith, h, e))
    ]

    option_values-Fresh :
        (at : ℕ) (t : Ty) (seen : List Val) (es : List Ast) (vs : List Val) (s s' : Ir)
        → option_values B expression stmt run_exit at t seen es s ≡ ok vs s'
        → Fresh t seen vs
    unfolding option_values
    option_values-Fresh at t seen [] vs s s' h =
        let same : [] ≡ vs = ground (arith, h) in subst (Fresh t seen) same tt
    option_values-Fresh at t seen (e ∷ es) vs s s' h =
        let (v, s1, h1, k1) = bind-eq-ok (expression e s) _ vs s' h in
        let (x, s2, h2, k2) =
          bind-eq-ok (accept_option B expression stmt run_exit at t seen v s1) _ vs s' k1 in
        let (us, s3, h3, k3) =
          bind-eq-ok (option_values B expression stmt run_exit at t (seen ++ v ∷ []) es s2) _ vs s'
            k2 in
        let same : v ∷ us ≡ vs = ground (arith, k3) in
        let (a, b) = accept_option-Fresh at t seen v s1 s2 h2 in
        subst (Fresh t seen) same (a, b, option_values-Fresh at t (seen ++ v ∷ []) es us s2 s3 h3)

    match_options-Fresh :
        (t : Ty) (seen : List Val) (l : List Alternative) (r : List (List Val × Ast)) (s s' : Ir)
        → match_options B expression stmt run_exit t seen l s ≡ ok r s'
        → Fresh t seen (all_values r)
    unfolding match_options
    match_options-Fresh t seen [] r s s' h =
        let same : [] ≡ r = ground (arith, h) in subst (λ x. Fresh t seen (all_values x)) same tt
    match_options-Fresh t seen (a ∷ l) r s s' h =
        let (vs, s1, h1, k1) =
          bind-eq-ok
            (option_values B expression stmt run_exit (row a.options) t seen
              (expr_nodes string_ref a.options) s)
            _ r s' h in
        let (rest, s2, h2, k2) =
          bind-eq-ok (match_options B expression stmt run_exit t (seen ++ vs) l s1) _ r s' k1 in
        let same : (vs, a.stmt) ∷ rest ≡ r = ground (arith, k2) in
        subst (λ x. Fresh t seen (all_values x)) same
          (Fresh-append t seen vs (all_values rest)
            (option_values-Fresh (row a.options) t seen (expr_nodes string_ref a.options) vs s s1
              h1)
            (match_options-Fresh t (seen ++ vs) l rest s1 s2 h2))

    -- In a match whose values are read without an error, every value has the type of the subject, and
    -- no value stands at two places, in one alternative or in several.
    pub match_options-once :
        (t : Ty) (l : List Alternative) (r : List (List Val × Ast)) (s s' : Ir)
        → match_options B expression stmt run_exit t [] l s ≡ ok r s'
        → ((i : ℕ) (v : Val) → get_elem? (all_values r) i ≡ some v → type_of v ≡ t)
          × ((i j : ℕ) (v : Val)
              → i < j
              → get_elem? (all_values r) i ≡ some v
              → get_elem? (all_values r) j ≡ some v
              → ⊥)
    match_options-once t l r s s' h =
        let fresh = match_options-Fresh t [] l r s s' h in
        (
          λ i v p. (Fresh-at t [] (all_values r) i v fresh p).0,
          λ i j v lt p q. Fresh-once t [] (all_values r) i j v fresh lt p q,
        )
