-- ===== src/Driver/Errors.antt =====
-- The runs of a module's elements as steps: which errors are reported, and when a module is compiled.
use whack.Prelude.{
  ◌≡◌, refl, ap, sym, ◌∙◌, some, List, [], ◌∷◌, ◌++◌, append_assoc, append-nil, arith, ◌↔◌, ◌⊎◌,
  ◌≢◌, inl, inr,
}
use whack.Outcome.{Error, Exec, Outcome, bind, ok, failed, fault, out_of_fuel}
use whack.Ast.{Ast}
use whack.Driver.{Element, Loaded, compiled, errors, collect, report, run_elements, module_codegen}

abbrev IsCut : {Mod : Type 0} → Outcome Mod (Unit {0}) → Type 0
IsCut o = (o ≡ fault) ⊎ (o ≡ out_of_fuel)

outcome_cases :
    {Mod : Type 0} (o : Outcome Mod (Unit {0}))
    → ((m : Mod) × (o ≡ ok tt m)) ⊎ (((x : Error) × (m : Mod) × (o ≡ failed x m)) ⊎ IsCut o)
outcome_cases (ok _ m) = inl (m, refl)
outcome_cases (failed x m) = inr (inl (x, m, refl))
outcome_cases fault = inr (inr (inl refl))
outcome_cases out_of_fuel = inr (inr (inr refl))

collect-IsCut :
    {Mod : Type 0} {o : Outcome Mod (Unit {0})} (err : List Error)
    → IsCut o
    → (collect o err ≡ fault) ⊎ (collect o err ≡ out_of_fuel)
collect-IsCut err (inl k) = inl (ap (λ o. collect o err) k)
collect-IsCut err (inr k) = inr (ap (λ o. collect o err) k)

cut_none :
    {Mod : Type 0} {o : Outcome Mod (List Error)} (f : List Error → Exec Mod (List Error))
    {all : List Error} {m : Mod}
    → (o ≡ fault) ⊎ (o ≡ out_of_fuel)
    → bind o f ≢ ok all m
cut_none f (inl k) h = cc (sym (ap (λ o. bind o f) k) ∙ h)
cut_none f (inr k) h = cc (sym (ap (λ o. bind o f) k) ∙ h)

report-errors :
    {Mod : Type 0} (passes : Mod → Mod) (errs : List Error) (x : Error) (more : List Error)
    (m : Mod)
    → report passes (ok (errs ++ x ∷ more) m) ≡ errors (errs ++ x ∷ more)
report-errors passes [] x more m = refl
report-errors passes (y ∷ errs) x more m = refl

report-compiled :
    {Mod : Type 0} (passes : Mod → Mod) (o : Outcome Mod (List Error)) (last : Mod)
    → report passes o ≡ compiled last
    → (m : Mod) × (o ≡ ok [] m) × (passes m ≡ last)
report-compiled passes (ok [] m) last h = (m, refl, ground (arith, h))
report-compiled passes (ok (x ∷ xs) m) last h = cc
report-compiled passes (failed x m) last h = cc
report-compiled passes fault last h = cc
report-compiled passes out_of_fuel last h = cc

module _ {Mod : Type 0} (codegen : Element → Exec Mod (Unit {0})) where
  -- A run over the elements from one module to another, with the errors of those that fail.
  pub data Run : List Element → Mod → List Error → Mod → Type 0 where
    done : {m : Mod} → Run [] m [] m
    succeeds :
        {e : Element} {es : List Element} {m m' m'' : Mod} {errs : List Error}
        → codegen e m ≡ ok tt m'
        → Run es m' errs m''
        → Run (e ∷ es) m errs m''
    fails :
        {e : Element} {es : List Element} {m m' m'' : Mod} {x : Error} {errs : List Error}
        → codegen e m ≡ failed x m'
        → Run es m' errs m''
        → Run (e ∷ es) m (x ∷ errs) m''

  step :
      {e : Element} {m : Mod} {o : Outcome Mod (Unit {0})} (es : List Element) (err : List Error)
      → codegen e m ≡ o
      → run_elements codegen (e ∷ es) err m ≡ bind (collect o err) (run_elements codegen es)
  unfolding run_elements
  step es err k = ap (λ o. bind (collect o err) (run_elements codegen es)) k

  run_elements-Run :
      {es : List Element} {m m' : Mod} {errs : List Error} (err : List Error)
      → Run es m errs m'
      → run_elements codegen es err m ≡ ok (err ++ errs) m'
  unfolding run_elements
  run_elements-Run err (done {m = m}) = ap (λ l. ok l m) (sym (append-nil err))
  run_elements-Run err (succeeds {es = es} h r) = step es err h ∙ run_elements-Run err r
  run_elements-Run err (fails {es = es} {m'' = m''} {x = x} {errs = errs} h r) =
      step es err h
      ∙ run_elements-Run (err ++ x ∷ []) r
      ∙ ap (λ l. ok l m'') (append_assoc err (x ∷ []) errs)

  Run-run_elements :
      (es : List Element) (err all : List Error) (m m' : Mod)
      → run_elements codegen es err m ≡ ok all m'
      → (errs : List Error) × (all ≡ err ++ errs) × Run es m errs m'
  unfolding run_elements
  Run-run_elements [] err all m m' h =
      let same : err ≡ all = ground (arith, h) in
      let there : m ≡ m' = ground (arith, h) in
      ([], sym same ∙ sym (append-nil err), rw (sym there) done)
  Run-run_elements (e ∷ es) err all m m' h = elim (outcome_cases (codegen e m)) [
    | inl (m1, k) ↦
        let rest : run_elements codegen es err m1 ≡ ok all m' = sym (step es err k) ∙ h in
        let (errs, same, r) = Run-run_elements es err all m1 m' rest in (errs, same, succeeds k r)
    | inr (inl (x, m1, k)) ↦
        let rest : run_elements codegen es (err ++ x ∷ []) m1 ≡ ok all m' =
          sym (step es err k) ∙ h in
        let (errs, same, r) = Run-run_elements es (err ++ x ∷ []) all m1 m' rest in
        (x ∷ errs, same ∙ append_assoc err (x ∷ []) errs, fails k r)
    | inr (inr k) ↦ absurd (cut_none (run_elements codegen es) (collect-IsCut err k) h)
  ]

  Run-append :
      {before after : List Element} {m m' m'' : Mod} {errs more : List Error}
      → Run before m errs m'
      → Run after m' more m''
      → Run (before ++ after) m (errs ++ more) m''
  Run-append done s = s
  Run-append (succeeds h r) s = succeeds h (Run-append r s)
  Run-append (fails h r) s = fails h (Run-append r s)

  -- A module that has a declaration is compiled exactly if all of its elements succeed, one behind
  -- the other, and then it is what the passes make of the module that they reach.
  pub module_codegen-eq-compiled_iff :
      (passes : Mod → Mod) (l : Loaded) (decl : Ast) (start last : Mod)
      → l.module_decl ≡ some decl
      → (module_codegen codegen passes l start ≡ compiled last)
        ↔ ((m : Mod) × Run l.elements start [] m × (passes m ≡ last))
  unfolding module_codegen
  module_codegen-eq-compiled_iff passes l decl start last there = (
    λ h.
        let (m, run, same) = report-compiled passes _ last (shown h) in
        let (errs, none_left, r) = Run-run_elements l.elements [] [] start m run in
        (m, rw (sym none_left) at r, same),
    λ (m, r, same). rw (there, run_elements-Run [] r) (ap compiled same),
  )
    where
      shown :
          module_codegen codegen passes l start ≡ compiled last
          → report passes (run_elements codegen l.elements [] start) ≡ compiled last
      shown h = rw there at h

  -- When elements run to some module with their errors, the next one fails there, and the others
  -- run from the module that it leaves, then all of these errors are reported, in order.
  pub module_codegen-errors :
      (passes : Mod → Mod) (l : Loaded) (decl : Ast) (start m m' m'' : Mod)
      (before after : List Element) (e : Element) (x : Error) (errs more : List Error)
      → l.module_decl ≡ some decl
      → l.elements ≡ before ++ e ∷ after
      → Run before start errs m
      → codegen e m ≡ failed x m'
      → Run after m' more m''
      → module_codegen codegen passes l start ≡ errors (errs ++ x ∷ more)
  unfolding module_codegen
  module_codegen-errors passes l decl start m m' m'' before after e x errs more there all r h s =
      rw (there, all, run_elements-Run [] (Run-append r (fails h s)))
        (report-errors passes errs x more m'')
