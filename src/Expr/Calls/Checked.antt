-- ===== src/Expr/Calls/Checked.antt =====
-- What the arguments of a call are once they have been checked.
use whack.Prelude.{
  ℕ, suc, ◌≡◌, refl, sym, ap, ◌∙◌, Bool, true, false, List, [], ◌∷◌, length, eqb, ltb, arith, ◌⊎◌,
  inl, inr, subst, lt→ltb, if◌then◌else◌,
}
use whack.Outcome.{Exec, ok, fault, pure}
use whack.Outcome.Rules.{bind-eq-ok, if-eq-ok, guard-eq-ok}
use whack.Types.{is_struct_kind}
use whack.Builder.{Builder, call, alloca}
use whack.Expr.Interfaces.{interface_cast, implements, store_fields, make_object}
use whack.Expr.Calls.{
  without_last, is_expansion, ends_with_expansion, is_interface, transform_arg, transform_args,
  transform_expansion, check_number, check_transform_args, partial_apply, bind_each, call_or_bind,
  call_value,
}

module _ (B : Builder) where
  open B use {llvm, Val, Ir, type_of, is_function, param_types, is_var_arg, emit}
  open llvm use {Ty, pointer_to, pointer_element_type, same_ty, same_ty_iff}

  -- The arguments fit the types, one by one: an argument has the type, or it is an object that is
  -- made for an interface. The last one may be an expansion.
  pub data Fits : List Ty → List Val → Type 0 where
    nothing : Fits [] []
    by_type :
        (t : Ty) (v : Val) (ts : List Ty) (vs : List Val)
        → type_of v ≡ t
        → Fits ts vs
        → Fits (t ∷ ts) (v ∷ vs)
    by_interface :
        (t : Ty) (v : Val) (ts : List Ty) (vs : List Val)
        → is_interface B t ≡ true
        → type_of v ≡ pointer_to (is_struct_kind llvm t).0
        → Fits ts vs
        → Fits (t ∷ ts) (v ∷ vs)
    by_expansion : (t : Ty) (v : Val) (s : Ir) → is_expansion B s v ≡ true → Fits (t ∷ []) (v ∷ [])

  -- The parameters of what a value points to.
  abbrev pub params_of : Val → List Ty
  params_of f = param_types (pointer_element_type (type_of f))

  length-Fits : (ts : List Ty) (vs : List Val) → Fits ts vs → length vs ≡ length ts
  length-Fits _ _ nothing = refl
  length-Fits _ _ (by_type t v ts vs h k) = ap suc (length-Fits ts vs k)
  length-Fits _ _ (by_interface t v ts vs h e k) = ap suc (length-Fits ts vs k)
  length-Fits _ _ (by_expansion t v s h) = refl

  module _ (bind_first : Val → Val → Ty → Exec Ir Val) where
    type_of-make_object :
        (t : Ty) (gs : List Val) (w : Val) (s s' : Ir)
        → make_object B bind_first t gs s ≡ ok w s'
        → type_of w ≡ pointer_to t
    unfolding make_object
    type_of-make_object t gs w s s' h =
        let object = emit (alloca t "") s in
        let (u, s2, h2, k2) =
          bind-eq-ok (store_fields B bind_first t object.0 0 gs object.1) _ w s' h in
        let same : object.0 ≡ w = ground (arith, k2) in
        ap type_of (sym same) ∙ B.type_of-alloca t "" s

    type_of-interface_cast :
        (row : ℕ) (t : Ty) (v w : Val) (s s' : Ir)
        → interface_cast B bind_first row t v s ≡ ok w s'
        → type_of w ≡ pointer_to (is_struct_kind llvm t).0
    unfolding interface_cast
    type_of-interface_cast row t v w s s' h =
        if-eq-ok {u = fault} h
          (λ e k.
            let u = (is_struct_kind llvm t).0 in
            let (gs, s1, h1, k1) =
              bind-eq-ok (implements B bind_first row u v s) (make_object B bind_first u) w s' k in
            type_of-make_object u gs w s1 s' k1)
          (λ e k. absurd (ground (arith, k)))

    -- One argument and its parameter.
    transform_arg-Fits :
        (row i : ℕ) (f : Val) (t : Ty) (v w : Val) (s s' : Ir) (ts : List Ty) (vs : List Val)
        → transform_arg B bind_first row f i t v s ≡ ok w s'
        → Fits ts vs
        → Fits (t ∷ ts) (w ∷ vs)
    unfolding transform_arg
    transform_arg-Fits row i f t v w s s' ts vs h k =
        if-eq-ok h (λ e c. by_interface t w ts vs e (type_of-interface_cast row t v w s s' c) k)
          (λ e c.
            if-eq-ok c
              (λ p q.
                let same : v ≡ w = ground (arith, q) in
                by_type t w ts vs (ap type_of (sym same) ∙ (same_ty_iff (type_of v) t).0 p) k)
              (λ p q. absurd (ground (arith, q))))

    transform_expansion-Fits :
        (row i : ℕ) (f : Val) (t : Ty) (v : Val) (ts : List Ty) (vs ws : List Val) (s s' : Ir)
        → length ts ≡ length vs
        → is_expansion B s v ≡ true
        → transform_expansion B bind_first row f i v vs s ≡ ok ws s'
        → Fits (t ∷ ts) ws
    unfolding transform_expansion
    transform_expansion-Fits row i f t v [] [] ws s s' n e h =
        let same : v ∷ [] ≡ ws = ground (arith, h) in
        subst (Fits (t ∷ [])) same (by_expansion t v s e)
    transform_expansion-Fits row i f t v [] (u ∷ vs) ws s s' n e h = absurd (omega (arith, n))
    transform_expansion-Fits row i f t v (x ∷ ts) [] ws s s' n e h = absurd (omega (arith, n))
    transform_expansion-Fits row i f t v (x ∷ ts) (u ∷ vs) ws s s' n e h =
        absurd (ground (arith, h))

    transform_args-Fits :
        (row i : ℕ) (f : Val) (ts : List Ty) (vs ws : List Val) (s s' : Ir)
        → length ts ≡ length vs
        → transform_args B bind_first row f i ts vs s ≡ ok ws s'
        → Fits ts ws
    unfolding transform_args
    transform_args-Fits row i f [] [] ws s s' n h =
        let same : [] ≡ ws = ground (arith, h) in subst (Fits []) same nothing
    transform_args-Fits row i f [] (v ∷ vs) ws s s' n h = absurd (omega (arith, n))
    transform_args-Fits row i f (t ∷ ts) [] ws s s' n h = absurd (omega (arith, n))
    transform_args-Fits row i f (t ∷ ts) (v ∷ vs) ws s s' n h =
        if-eq-ok {b = is_expansion B s v} h
          (λ e k. transform_expansion-Fits row i f t v ts vs ws s s' (omega (arith, n)) e k)
          (λ e k.
            let (w, s1, h1, k1) = bind-eq-ok (transform_arg B bind_first row f i t v s) _ ws s' k in
            let (us, s2, h2, k2) =
              bind-eq-ok (transform_args B bind_first row f (suc i) ts vs s1) _ ws s' k1 in
            let same : w ∷ us ≡ ws = ground (arith, k2) in
            subst (Fits (t ∷ ts)) same (
              transform_arg-Fits row i f t v w s s1 ts us h1
                (transform_args-Fits row (suc i) f ts vs us s1 s2 (omega (arith, n)) h2)))

    check_number-Fits :
        (row : ℕ) (f : Val) (ts : List Ty) (vs ws : List Val) (s s' : Ir)
        → check_number B bind_first row f ts vs s ≡ ok ws s'
        → Fits ts ws
    unfolding check_number
    check_number-Fits row f ts vs ws s s' h =
        let (c, r) = guard-eq-ok {b = eqb (length ts) (length vs)} _ _ h in
        transform_args-Fits row 0 f ts vs ws s s' (ground (arith, c)) r

    check_callable-Fits :
        (b : Bool) (row : ℕ) (f : Val) (ts : List Ty) (vs ws : List Val) (s s' : Ir)
        → b ≡ false
        → (if b then pure vs s else check_number B bind_first row f ts vs s) ≡ ok ws s'
        → Fits ts ws
    check_callable-Fits true row f ts vs ws s s' nv h = cc
    check_callable-Fits false row f ts vs ws s s' nv h = check_number-Fits row f ts vs ws s s' h

    -- If a call of a function that takes no more arguments than its parameters passes its check, then
    -- the arguments that it is given fit the parameters: each has the type of its parameter, or is
    -- an object that is made for an interface, or is an expansion and the last.
    pub check_transform_args-Fits :
        (row : ℕ) (f : Val) (vs ws : List Val) (s s' : Ir)
        → is_var_arg (pointer_element_type (type_of f)) ≡ false
        → check_transform_args B bind_first row f vs s ≡ ok ws s'
        → Fits (params_of f) ws
    unfolding check_transform_args
    check_transform_args-Fits row f vs ws s s' nv h =
        let (e, k) = guard-eq-ok _ _ h in
        check_callable-Fits (is_var_arg (pointer_element_type (type_of f))) row f (params_of f) vs
          ws s s' nv k

    length-without_last :
        (vs : List Val) (s : Ir)
        → ends_with_expansion B s vs ≡ true
        → suc (length (without_last vs)) ≡ length vs
    length-without_last [] s h = cc
    length-without_last (v ∷ []) s h = refl
    length-without_last (v ∷ w ∷ vs) s h = ap suc (length-without_last (w ∷ vs) s h)

    -- If the arguments of a call of a function of the module that takes no more arguments than its
    -- parameters pass the check and end with an expansion, then the others are one less than the
    -- parameters, and the partial application binds them all: it does not refuse their number.
    pub partial_apply-checked :
        (row : ℕ) (f : Val) (vs ws : List Val) (s t : Ir)
        → is_function f ≡ true
        → is_var_arg (pointer_element_type (type_of f)) ≡ false
        → check_transform_args B bind_first row f vs s ≡ ok ws t
        → ends_with_expansion B t ws ≡ true
        → (suc (length (without_last ws)) ≡ length (params_of f))
          × (partial_apply B bind_first row f (without_last ws) t
              ≡ bind_each B bind_first f (without_last ws) t)
    unfolding partial_apply
    partial_apply-checked row f vs ws s t isf nv h e =
        let fits = check_transform_args-Fits row f vs ws s t nv h in
        let same = length-without_last ws t e ∙ length-Fits (params_of f) ws fits in
        let less : ltb (length (without_last ws)) (length (params_of f)) ≡ true =
          lt→ltb (length (without_last ws)) (length (params_of f)) (omega (arith, same)) in
        (same, rw (isf, less))

    -- A call that succeeds of a function that takes no more arguments than its parameters is one
    -- instruction that calls it with arguments that fit its parameters, or binds all of these but an
    -- expansion at their end.
    pub call_value-Fits :
        (line row : ℕ) (f : Val) (vs : List Val) (w : Val) (s s' : Ir)
        → is_var_arg (pointer_element_type (type_of f)) ≡ false
        → call_value B bind_first line row f vs s ≡ ok w s'
        → (ws : List Val) × (t : Ir) × Fits (params_of f) ws
          × (((ends_with_expansion B t ws ≡ false) × (emit (call f ws) t ≡ (w, s')))
              ⊎ ((ends_with_expansion B t ws ≡ true)
                  × (partial_apply B bind_first line f (without_last ws) t ≡ ok w s')))
    unfolding call_value call_or_bind
    call_value-Fits line row f vs w s s' nv h =
        let (ws, t, h1, k) = bind-eq-ok (check_transform_args B bind_first row f vs s) _ w s' h in
        let fits = check_transform_args-Fits row f vs ws s t nv h1 in
        (
          ws,
          t,
          fits,
          if-eq-ok {b = ends_with_expansion B t ws} k (λ e p. inr (e, p))
              (λ e p. inl (e, ground (arith, p))),
        )
