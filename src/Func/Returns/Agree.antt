-- ===== src/Func/Returns/Agree.antt =====
-- When the return type of a function can be deduced.
use whack.Prelude.{
  ℕ, ◌≡◌, refl, sym, ap, ◌∙◌, ◌↔◌, true, false, Option, none, some, List, [], ◌∷◌, arith,
  Bool-cases, inl, inr,
}
use whack.Outcome.{ok}
use whack.Llvm.{Llvm}
use whack.Builder.{Builder}
use whack.Func.Returns.{deduce, deduced, returns_in, deduce_func_return_type}

module _ (L : Llvm) where
  open L use {Ty, same_ty, same_ty_iff}

  abbrev pub AllAre : Ty → List Ty → Type 0
  AllAre t [] = Unit
  AllAre t (x ∷ xs) = (x ≡ t) × AllAre t xs

  -- Some return gives a type, and all returns give this one.
  abbrev pub Agree : Ty → List Ty → Type 0
  Agree t [] = ⊥
  Agree t (x ∷ xs) = (x ≡ t) × AllAre t xs

  deduce-AllAre : (t : Ty) (ts : List Ty) → AllAre t ts → deduce L (some t) ts ≡ some (some t)
  unfolding deduce
  deduce-AllAre t [] h = refl
  deduce-AllAre t (x ∷ ts) (e, h) = rw (e, (same_ty_iff t t).1 refl) (deduce-AllAre t ts h)

  deduce-same :
      (d x : Ty) (ts : List Ty)
      → same_ty d x ≡ true
      → deduce L (some d) (x ∷ ts) ≡ deduce L (some d) ts
  unfolding deduce
  deduce-same d x ts e = rw e

  deduce-other : (d x : Ty) (ts : List Ty) → same_ty d x ≡ false → deduce L (some d) (x ∷ ts) ≡ none
  unfolding deduce
  deduce-other d x ts e = rw e

  some_ne : {A : Type 0} {a : A} → none ≡ some a → ⊥
  some_ne h = cc

  some_inj : {A : Type 0} {a b : A} → some a ≡ some b → a ≡ b
  some_inj h = cc

  AllAre-deduce :
      (d t : Ty) (ts : List Ty) → deduce L (some d) ts ≡ some (some t) → (d ≡ t) × AllAre t ts
  unfolding deduce
  AllAre-deduce d t [] h = (ground (arith, h), tt)
  AllAre-deduce d t (x ∷ ts) h = elim (Bool-cases (same_ty d x)) [
    | inl e ↦
        (let (p, q) = AllAre-deduce d t ts (sym (deduce-same d x ts e) ∙ h) in
          (p, (sym ((same_ty_iff d x).0 e) ∙ p, q)))
    | inr e ↦ absurd (some_ne (sym (deduce-other d x ts e) ∙ h))
  ]

  deduce-Agree : (t : Ty) (ts : List Ty) → (deduce L none ts ≡ some (some t)) ↔ Agree t ts
  unfolding deduce
  deduce-Agree t [] = (λ h. some_ne (some_inj h), λ h. elim h [ ])
  deduce-Agree t (x ∷ ts) = (λ h. AllAre-deduce x t ts h, λ h. rw (h.0) (deduce-AllAre t ts h.1))

module _ (B : Builder) where
  open B use {llvm, Ir, blocks}
  open llvm use {Ty}

  ok_inj : {s : Ir} {a b : Option Ty} → ok a s ≡ ok b s → a ≡ b
  ok_inj h = cc

  opt_inj : {a b : Option Ty} → some a ≡ some b → a ≡ b
  opt_inj h = cc

  reported :
      (row : ℕ) (s : Ir) (t : Ty) (o : Option (Option Ty))
      → (deduced B row s o ≡ ok (some t) s) ↔ (o ≡ some (some t))
  unfolding deduced
  reported row s t none = (λ h. cc, λ h. cc)
  reported row s t (some d) = (λ h. ap some (ok_inj h), λ h. ap (λ x. ok x s) (opt_inj h))

  -- The return type of a function is deduced as this type exactly if some return gives a type and
  -- all returns of all blocks give this one.
  pub deduce_func_return_type-Agree :
      (row : ℕ) (s : Ir) (t : Ty)
      → (deduce_func_return_type B row s ≡ ok (some t) s) ↔ Agree llvm t (returns_in B s (blocks s))
  unfolding deduce_func_return_type
  deduce_func_return_type-Agree row s t =
      let answer = reported row s t (deduce llvm none (returns_in B s (blocks s))) in
      let agree = deduce-Agree llvm t (returns_in B s (blocks s)) in
      (λ h. agree.0 (answer.0 h), λ h. answer.1 (agree.1 h))
