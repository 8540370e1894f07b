-- ===== src/Func/Codegen/Typed.antt =====
-- The returns of a function that is declared with a type.
use whack.Prelude.{ℕ, ◌≡◌, sym, ap, ◌∙◌, false, Option, none, some, arith, Bool-cases, inl, inr}
use whack.Outcome.{ok}
use whack.Outcome.Rules.{bind-eq-ok}
use whack.Builder.{Builder}
use whack.Func.Returns.{deduce, deduced, returns_in, deduce_func_return_type}
use whack.Func.Returns.Agree.{Agree, deduce_func_return_type-Agree}
use whack.Func.Codegen.{settle_declared, settle_return_type, finish_function}

module _ (B : Builder) where
  open B use {llvm, Ir, blocks, current_return_type}
  open llvm use {Ty, same_ty, same_ty_iff, auto_ty, void_ty}

  deduced-state :
      (row : ℕ) (s t : Ir) (o : Option (Option Ty)) (d : Option Ty)
      → deduced B row s o ≡ ok d t
      → s ≡ t
  unfolding deduced
  deduced-state row s t none d h = cc
  deduced-state row s t (some x) d h = cc

  settle_declared-same :
      (row : ℕ) (declared : Ty) (o : Option Ty) (s t : Ir)
      → settle_declared B row declared o s ≡ ok tt t
      → o ≡ some declared
  unfolding settle_declared
  settle_declared-same row declared none s t h = cc
  settle_declared-same row declared (some x) s t h = elim (Bool-cases (same_ty x declared)) [
    | inl e ↦ ap some ((same_ty_iff x declared).0 e)
    | inr e ↦ absurd (ground (arith, h, e))
  ]

  settle_return_type-declared :
      (row : ℕ) (o : Option Ty) (s : Ir)
      → same_ty (current_return_type s) auto_ty ≡ false
      → same_ty (current_return_type s) void_ty ≡ false
      → settle_return_type B row o s ≡ settle_declared B row (current_return_type s) o s
  unfolding settle_return_type
  settle_return_type-declared row o s h k = rw (h, k)

  -- A function that is declared with a type, neither `auto` nor `void`, is finished without an error
  -- only if it has a return, and all of its returns give this type.
  pub finish_function-Agree :
      (row : ℕ) (s s' : Ir)
      → same_ty (current_return_type s) auto_ty ≡ false
      → same_ty (current_return_type s) void_ty ≡ false
      → finish_function B row s ≡ ok tt s'
      → Agree llvm (current_return_type s) (returns_in B s (blocks s))
  unfolding finish_function deduce_func_return_type
  finish_function-Agree row s s' na nv h =
      let (d, t, h1, h2) = bind-eq-ok (deduce_func_return_type B row s) _ tt s' h in
      let same = deduced-state row s t (deduce llvm none (returns_in B s (blocks s))) d h1 in
      let (x, u, h3, h4) = bind-eq-ok (settle_return_type B row d t) _ tt s' h2 in
      let known : d ≡ some (current_return_type s) =
        settle_declared-same row (current_return_type s) d s u (
          sym (settle_return_type-declared row d s na nv)
          ∙ ap (settle_return_type B row d) same
          ∙ h3) in
      (deduce_func_return_type-Agree B row s (current_return_type s)).0
        (h1 ∙ ap (λ y. ok y t) known ∙ ap (ok (some (current_return_type s))) (sym same))
