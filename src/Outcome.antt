-- ===== src/Outcome.antt =====
-- How an operation of the compiler ends. `llvm::Error` and `llvm::Expected<T>` carry an error made
-- by `error(...)` of error.hpp; an operation that fails leaves the state that it has reached.
pub mod Rules
use whack.Prelude.{ℕ, String, List, Option, none, some}

-- An argument of a format string.
pub data Arg : Type 0 where
  text : String → Arg
  number : ℕ → Arg

-- `error(format, args...)`; the format string and its arguments are kept apart.
pub record Error : Type 0 where
  pub format : String
  pub args : List Arg

-- `fault` is what the source leaves undefined: a child or an operand that is not there, a cast of a
-- node to a kind that it has not, `llvm_unreachable`, a failed `assert`. `out_of_fuel` has no
-- counterpart in the program.
pub data Outcome {ℓ κ} (S : Type ℓ) (A : Type κ) : Type (ℓ ⊔ κ) where
  ok : A → S → Outcome S A
  failed : Error → S → Outcome S A
  fault : Outcome S A
  out_of_fuel : Outcome S A

abbrev pub Exec {ℓ κ} : Type ℓ → Type κ → Type (ℓ ⊔ κ)
Exec S A = S → Outcome S A

module _ {ℓ κ μ} {S : Type ℓ} {A : Type κ} {B : Type μ} where
  abbrev pub bind : Outcome S A → (A → Exec S B) → Outcome S B
  bind (ok a s) f = f a s
  bind (failed e s) f = failed e s
  bind fault f = fault
  bind out_of_fuel f = out_of_fuel

  infixl 5 ◌>>=◌ ◌>>◌
  abbrev pub ◌>>=◌ : Exec S A → (A → Exec S B) → Exec S B
  ◌>>=◌ m f s = bind (m s) f

  abbrev pub ◌>>◌ : Exec S A → Exec S B → Exec S B
  ◌>>◌ m k s = bind (m s) (λ _. k)

module _ {ℓ κ} {S : Type ℓ} {A : Type κ} where
  abbrev pub pure : A → Exec S A
  pure a s = ok a s

  abbrev pub raise : String → List Arg → Exec S A
  raise format args s = failed (record { format = format; args = args }) s

  -- A reading that may be undefined.
  abbrev pub lift : Option A → Exec S A
  lift none s = fault
  lift (some a) s = ok a s

  abbrev pub gets : (S → A) → Exec S A
  gets f s = ok (f s) s

  abbrev pub reads : (S → Option A) → Exec S A
  reads f s = lift (f s) s

abbrev pub modify {ℓ} : {S : Type ℓ} → (S → S) → Exec S (Unit {0})
modify f s = ok tt (f s)
