-- ===== src/Expr/Closures/Apart.antt =====
-- The names that a closure captures, and those of its parameters.
use whack.Prelude.{
  ℕ, suc, ◌≡◌, refl, sym, ap, ◌∙◌, subst, String, false, Option, none, some, List, [], ◌∷◌, ◌++◌,
  contains, map, append_assoc, append-nil, arith, Bool-cases, inl, inr,
}
use whack.Outcome.{Exec, Outcome, ok, failed, fault, out_of_fuel, gets, ◌>>◌}
use whack.Outcome.Rules.{bind-eq-ok}
use whack.Ast.{Ast}
use whack.Types.Codegen.{TypeList}
use whack.Builder.{Builder, on_module}
use whack.Decl.ExternFunc.{get_return_type, optional_list}
use whack.Func.Structs.{func_params}
use whack.Stmt.Branches.{Exit}
use whack.Expr.Captures.{Closure}
use whack.Expr.Closures.{
  Scoped, names_of, default_captures, capture_each, scoped_of, name_params, args_named,
  build_closure, in_function, return_to, closure_codegen, env_params, name_env, env_offset,
}

-- Names of which none is among those before it.
abbrev pub AreNew : List String → List String → Type 0
AreNew seen [] = Unit {0}
AreNew seen (n ∷ ns) = (contains seen n ≡ false) × AreNew (seen ++ n ∷ []) ns

-- Names of which none is among the first ones.
abbrev pub AreApart : List String → List String → Type 0
AreApart seen [] = Unit {0}
AreApart seen (n ∷ ns) = (contains seen n ≡ false) × AreApart seen ns

abbrev pub keys : List (String × Ast) → List String
keys l = map (λ x. x.0) l

module _ (B : Builder) where
  open B use {llvm, Val, Block, Ir}
  open llvm use {Ty}

  names_of-append :
      (l : Scoped B) (n : String) (v : Val) → names_of B (l ++ (n, v) ∷ []) ≡ names_of B l ++ n ∷ []
  names_of-append [] n v = refl
  names_of-append (x ∷ l) n v = ap (λ y. x.0 ∷ y) (names_of-append l n v)

  name_params-AreApart :
      (line : ℕ) (l : Scoped B) (i : ℕ) (names : List String) (s s' : Ir)
      → name_params B line l i names s ≡ ok tt s'
      → AreApart (names_of B l) names
  unfolding name_params
  name_params-AreApart line l i [] s s' h = tt
  name_params-AreApart line l i (n ∷ names) s s' h = elim (Bool-cases (contains (names_of B l) n)) [
    | inl e ↦ absurd (ground (arith, h, e))
    | inr e ↦ (
      e,
      name_params-AreApart line l (suc i) names (B.set_arg_name i n s) s' (ground (arith, h, e)),
    )
  ]

  AreApart-none : (names : List String) → AreApart [] names
  AreApart-none [] = tt
  AreApart-none (n ∷ names) = (refl, AreApart-none names)

  return_to-eq-ok :
      {A : Type 0} (s s' : Ir) (o : Outcome Ir A) (a : A)
      → return_to B s o ≡ ok a s'
      → (u : Ir) × (o ≡ ok a u)
  return_to-eq-ok s s' (ok b u) a h = (u, ground (arith, h))
  return_to-eq-ok s s' (failed e u) a h = cc
  return_to-eq-ok s s' fault a h = cc
  return_to-eq-ok s s' out_of_fuel a h = cc

  module _ (bind_first : Val → Val → Ty → Exec Ir Val) (expression : Ast → Exec Ir Val)
      (body : Ast → Exec Ir (Exit Block)) (run_exit : Exit Block → Exec Ir (Unit {0}))
      (order : List (String × Ast) → List (String × Ast)) where
    capture_each-AreNew :
        (line : ℕ) (l r : Scoped B) (captures : List (String × Ast)) (s s' : Ir)
        → capture_each B bind_first expression body run_exit order line l captures s ≡ ok r s'
        → (names_of B r ≡ names_of B l ++ keys captures) × AreNew (names_of B l) (keys captures)
    unfolding capture_each
    capture_each-AreNew line l r [] s s' h =
        let same : l ≡ r = ground (arith, h) in
        (sym (ap (names_of B) same) ∙ sym (append-nil (names_of B l)), tt)
    capture_each-AreNew line l r ((n, e) ∷ captures) s s' h =
        elim (Bool-cases (contains (names_of B l) n)) [
          | inl d ↦ absurd (ground (arith, h, d))
          | inr d ↦
              let (v, s1, h1, k1) =
                bind-eq-ok (expression e s)
                  (λ v.
                    capture_each B bind_first expression body run_exit order line (l ++ (n, v) ∷ [])
                      captures)
                  r s' (ground (arith, h, d)) in
              let (names, new) = capture_each-AreNew line (l ++ (n, v) ∷ []) r captures s1 s' k1 in
              let more = names_of-append l n v in
              (
                names
                    ∙ ap (λ y. y ++ keys captures) more
                    ∙ append_assoc (names_of B l) (n ∷ []) (keys captures),
                (d, subst (λ y. AreNew y (keys captures)) more new),
              )
        ]

    scoped_of-AreNew :
        (c : Closure) (l : Scoped B) (s s' : Ir)
        → scoped_of B bind_first expression body run_exit order c s ≡ ok l s'
        → (d : Scoped B) × (s1 : Ir) × (default_captures B c.row c.default_capture_mode s ≡ ok d s1)
          × (names_of B l ≡ names_of B d ++ keys (order c.explicit_captures))
          × AreNew (names_of B d) (keys (order c.explicit_captures))
    unfolding scoped_of
    scoped_of-AreNew c l s s' h =
        let (d, s1, h1, k1) =
          bind-eq-ok (default_captures B c.row c.default_capture_mode s) _ l s' h in
        let (names, new) = capture_each-AreNew c.row d l (order c.explicit_captures) s1 s' k1 in
        (d, s1, h1, names, new)

    -- The state in which a closure looks for what it captures: the types that it returns have been
    -- read.
    abbrev pub Returns : ℕ → Closure → Ir → Ir → Type 0
    Returns fuel c s s2 =
        (types : Option (TypeList Ty)) × (t : Ty) × (s1 : Ir) × (on_module B
            (optional_list llvm fuel c.returns) s
          ≡ ok types s1)
        × (on_module B (get_return_type llvm c.row types) s1 ≡ ok t s2)

    build_closure-AreApart :
        (c : Closure) (env : Option Ty) (l : Scoped B) (s s' : Ir)
        → build_closure B bind_first expression body run_exit order c env l s ≡ ok tt s'
        → AreApart (names_of B (elim env [ none ↦ [] | some t ↦ l ])) (args_named B c.args)
    unfolding build_closure
    build_closure-AreApart c env l s s' h =
        let (x, s1, h1, k1) =
          bind-eq-ok
            (name_params B c.row (elim env [ none ↦ [] | some t ↦ l ]) (env_offset B env)
              (args_named B c.args) (name_env B env s))
            _ tt s' h in
        name_params-AreApart c.row (elim env [ none ↦ [] | some t ↦ l ]) (env_offset B env)
          (args_named B c.args) (name_env B env s) s1 h1

    env_params-names :
        (l : Scoped B) (ts : List Ty) (env : Option Ty × List Ty) (s s' : Ir)
        → on_module B (env_params B l ts) s ≡ ok env s'
        → names_of B (elim env.0 [ none ↦ [] | some t ↦ l ]) ≡ names_of B l
    unfolding env_params on_module
    env_params-names [] ts env s s' h =
        let none_made : (none, ts) ≡ env = ground (arith, h) in
        ap (λ y. names_of B (elim y.0 [ none ↦ [] | some t ↦ [] ])) (sym none_made)
    env_params-names (x ∷ l) ts env s s' h =
        let u = (B.create_unnamed (B.get_module s)).0 in
        let made : (some u, llvm.pointer_to u ∷ ts) ≡ env = ground (arith, h) in
        ap (λ y. names_of B (elim y.0 [ none ↦ [] | some t ↦ x ∷ l ])) (sym made)

    in_function-eq-ok :
        (t : Ty) (name n : String) (p : Exec Ir (Unit {0})) (s s' : Ir)
        → in_function B t name p s ≡ ok n s'
        → (u v : Ir) × (p u ≡ ok tt v)
    unfolding in_function
    in_function-eq-ok t name n p s s' h =
        let u = B.start_function t name (B.get_module s) in
        let (w, e) = return_to-eq-ok s s' ((p >> gets B.function_name) u) n h in
        let (x, v, k, l) = bind-eq-ok (p u) _ n w e in (u, v, k)

    -- In a closure that is built without an error, let `d` be what is captured by default in the state
    -- in which the types that it returns have been read. Then no name that is captured explicitly is
    -- one of those of `d` or of the explicit ones before it, and no parameter has one of these names.
    pub closure_codegen-AreApart :
        (fuel : ℕ) (c : Closure) (w : Val) (s s' : Ir)
        → closure_codegen B bind_first expression body run_exit order fuel c s ≡ ok w s'
        → (d : Scoped B) × (s2 : Ir) × (s3 : Ir) × Returns fuel c s s2
          × (default_captures B c.row c.default_capture_mode s2 ≡ ok d s3)
          × AreNew (names_of B d) (keys (order c.explicit_captures))
          × AreApart (names_of B d ++ keys (order c.explicit_captures)) (args_named B c.args)
    unfolding closure_codegen
    closure_codegen-AreApart fuel c w s s' h =
        let (types, s1, h1, k1) =
          bind-eq-ok (on_module B (optional_list llvm fuel c.returns) s) _ w s' h in
        let (returned, s2, h2, k2) =
          bind-eq-ok (on_module B (get_return_type llvm c.row types) s1) _ w s' k1 in
        let (l, s3, h3, k3) =
          bind-eq-ok (scoped_of B bind_first expression body run_exit order c s2) _ w s' k2 in
        let (params, s4, h4, k4) =
          bind-eq-ok (on_module B (func_params llvm fuel c.args) s3) _ w s' k3 in
        let (env, s5, h5, k5) = bind-eq-ok (on_module B (env_params B l params.0) s4) _ w s' k4 in
        let t = llvm.function_ty returned env.1 params.1 in
        let built = build_closure B bind_first expression body run_exit order c env.0 l in
        let (name, s6, h6, k6) = bind-eq-ok (in_function B t "::closure" built s5) _ w s' k5 in
        let (u, v, k) = in_function-eq-ok t "::closure" name built s5 s6 h6 in
        let (d, s7, found, names, new) = scoped_of-AreNew c l s2 s3 h3 in
        (
          d,
          s2,
          s7,
          (types, returned, s1, h1, h2),
          found,
          new,
          subst (λ y. AreApart y (args_named B c.args))
              (env_params-names l params.0 env s4 s5 h5 ∙ names)
              (build_closure-AreApart c env.0 l u v k),
        )
