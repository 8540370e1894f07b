-- ===== src/Outcome/Rules.antt =====
-- Readings: operations that end, in a result, an error or a fault, with the state as it was.
use whack.Prelude.{
  arith, ◌≡◌, refl, ◌≢◌, Bool, true, false, Option, none, some, List, if◌then◌else◌, String,
}
use whack.Outcome.{
  Arg, Error, Exec, Outcome, ok, failed, fault, out_of_fuel, bind, ◌>>=◌, raise, lift, pure,
}

-- The outcome is one of a run that began in the state `s` and left it alone.
pub data Settles {ℓ κ} {S : Type ℓ} {A : Type κ} (s : S) : Outcome S A → Type (ℓ ⊔ κ) where
  returned : (a : A) → Settles s (ok a s)
  refused : (e : Error) → Settles s (failed e s)
  undefined : Settles s fault

module _ {ℓ κ} {S : Type ℓ} {A : Type κ} {s : S} where
  pub Settles-lift : (o : Option A) → Settles s (lift {S = S} o s)
  Settles-lift none = undefined
  Settles-lift (some a) = returned a

  pub Settles-raise :
      (format : String) (args : List Arg) → Settles s (raise {S = S} {A = A} format args s)
  Settles-raise format args = refused _

  pub Settles-if :
      (b : Bool) (p q : Exec S A)
      → (b ≡ true → Settles s (p s))
      → (b ≡ false → Settles s (q s))
      → Settles s ((if b then p else q) s)
  Settles-if true p q hp hq = hp refl
  Settles-if false p q hp hq = hq refl

  pub Settles-state : {o : Outcome S A} {s' : S} {a : A} → Settles s o → o ≡ ok a s' → s' ≡ s
  Settles-state (returned a) k = ground (arith, k)
  Settles-state (refused e) k = cc
  Settles-state undefined k = cc

  pub Settles-ne-out_of_fuel : {o : Outcome S A} → Settles s o → o ≢ out_of_fuel
  Settles-ne-out_of_fuel (returned a) = cc
  Settles-ne-out_of_fuel (refused e) = cc
  Settles-ne-out_of_fuel undefined = cc

module _ {ℓ κ μ} {S : Type ℓ} {A : Type κ} {B : Type μ} {s : S} where
  Settles-bind_outcome :
      {o : Outcome S A} (f : A → Exec S B)
      → Settles s o
      → ((a : A) → o ≡ ok a s → Settles s (f a s))
      → Settles s (bind o f)
  Settles-bind_outcome f (returned a) k = k a refl
  Settles-bind_outcome f (refused e) k = refused e
  Settles-bind_outcome f undefined k = undefined

  pub Settles-bind :
      (p : Exec S A) (f : A → Exec S B)
      → Settles s (p s)
      → ((a : A) → p s ≡ ok a s → Settles s (f a s))
      → Settles s ((p >>= f) s)
  Settles-bind p f h k = Settles-bind_outcome f h k

module _ {ℓ κ μ} {S : Type ℓ} {A : Type κ} {B : Type μ} where
  -- A step that succeeds runs a first part that does.
  pub bind-eq-ok :
      (o : Outcome S A) (f : A → Exec S B) (b : B) (s' : S)
      → bind o f ≡ ok b s'
      → (a : A) × (t : S) × (o ≡ ok a t) × (f a t ≡ ok b s')
  bind-eq-ok (ok a t) f b s' h = (a, t, refl, h)
  bind-eq-ok (failed e t) f b s' h = cc
  bind-eq-ok fault f b s' h = cc
  bind-eq-ok out_of_fuel f b s' h = cc

module _ {ℓ κ μ} {S : Type ℓ} {A : Type κ} {P : Type μ} where
  -- What holds of a choice that succeeds holds of the side that it takes.
  pub if-eq-ok :
      {b : Bool} {o u : Outcome S A} {a : A} {s : S}
      → (if b then o else u) ≡ ok a s
      → (b ≡ true → o ≡ ok a s → P)
      → (b ≡ false → u ≡ ok a s → P)
      → P
  if-eq-ok {b = true} h p q = p refl h
  if-eq-ok {b = false} h p q = q refl h

module _ {ℓ κ} {S : Type ℓ} {A : Type κ} where
  -- A guard has held if the operation succeeds.
  pub guard-eq-ok :
      {b : Bool} {o : Outcome S A} (e : Error) (t : S) {a : A} {s : S}
      → (if b then o else failed e t) ≡ ok a s
      → (b ≡ true) × (o ≡ ok a s)
  guard-eq-ok {b = true} e t h = (refl, h)
  guard-eq-ok {b = false} e t h = cc

module _ {ℓ κ} {S : Type ℓ} {A : Type κ} where
  -- A refusal has not applied if the operation succeeds.
  pub refusal-eq-ok :
      {b : Bool} {o : Outcome S A} (e : Error) (t : S) {a : A} {s : S}
      → (if b then failed e t else o) ≡ ok a s
      → (b ≡ false) × (o ≡ ok a s)
  refusal-eq-ok {b = true} e t h = cc
  refusal-eq-ok {b = false} e t h = (refl, h)

-- The operation does not run out of fuel.
abbrev pub Ends {ℓ κ} : {S : Type ℓ} {A : Type κ} → Exec S A → Type (ℓ ⊔ κ)
Ends {S = S} p = (s : S) → p s ≢ out_of_fuel

module _ {ℓ κ μ} {S : Type ℓ} {A : Type κ} {B : Type μ} where
  Ends-bind_outcome :
      (o : Outcome S A) (f : A → Exec S B)
      → o ≢ out_of_fuel
      → ((a : A) → Ends (f a))
      → bind o f ≢ out_of_fuel
  Ends-bind_outcome (ok a s) f h k = k a s
  Ends-bind_outcome (failed e s) f h k = cc
  Ends-bind_outcome fault f h k = cc
  Ends-bind_outcome out_of_fuel f h k = λ e. h refl

  pub Ends-bind :
      (p : Exec S A) (f : A → Exec S B) → Ends p → ((a : A) → Ends (f a)) → Ends (p >>= f)
  Ends-bind p f h k s = Ends-bind_outcome (p s) f (h s) k

  pub Ends-lift_bind :
      (o : Option A) (f : A → Exec S B) → ((a : A) → o ≡ some a → Ends (f a)) → Ends (lift o >>= f)
  Ends-lift_bind none f k s = cc
  Ends-lift_bind (some a) f k s = k a refl s

module _ {ℓ κ} {S : Type ℓ} {A : Type κ} where
  pub Ends-if : (b : Bool) (p q : Exec S A) → Ends p → Ends q → Ends (if b then p else q)
  Ends-if true p q hp hq = hp
  Ends-if false p q hp hq = hq

  pub Ends-option {μ} :
      {C : Type μ} (o : Option C) (p : C → Exec S A) (q : Exec S A)
      → ((c : C) → o ≡ some c → Ends (p c))
      → Ends q
      → Ends (elim o as (λ x. Exec S A) [ some c ↦ p c | none ↦ q ])
  Ends-option none p q hp hq = hq
  Ends-option (some c) p q hp hq = hp c refl

  pub Ends-pure : (a : A) → Ends (pure {S = S} a)
  Ends-pure a s = cc

  pub Ends-raise : (format : String) (args : List Arg) → Ends (raise {S = S} {A = A} format args)
  Ends-raise format args s = cc

  pub Ends-fault : Ends {S = S} {A = A} (λ s. fault)
  Ends-fault s = cc
