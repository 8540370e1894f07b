-- ===== src/Expr/Captures.antt =====
-- The constructor of `Closure` of ast/closure.hpp: what a closure captures, and its parts.
use whack.Prelude.{ℕ, suc, ◌+◌, String, ◌==◌, Option, none, some, List, [], ◌∷◌, if◌then◌else◌}
use whack.Ast.{Ast, child, children, contents, row, get_outermost_ast_tag}
use whack.StringRef.{StringRef}
use whack.Metadata
use whack.Metadata.{get_metadata_parts, add_metadata, drop_first}
use whack.Decl.Args.{Arg}
use whack.Func.Structs.{tagged_child, optional_args}

pub data DefaultCaptureMode : Type 0 where
  no_default all_by_value all_by_reference : DefaultCaptureMode

pub record Closure : Type 0 where
  pub row : ℕ
  pub args : Option (List Arg)
  -- The map of names to expressions; a name stands once.
  pub explicit_captures : List (String × Ast)
  pub default_capture_mode : DefaultCaptureMode
  pub returns : Option Ast
  pub body : Ast

-- `explicitCaptures_[name] = expression`
unfoldable pub put_capture : String → Ast → List (String × Ast) → List (String × Ast)
put_capture n e [] = (n, e) ∷ []
put_capture n e ((m, d) ∷ l) =
    let rest = put_capture n e l in if m == n then (n, e) ∷ l else (m, d) ∷ rest

abbrev pub Captures : Type 0
Captures = DefaultCaptureMode × List (String × Ast)

-- A capture of two parts or three: `a &` and `a = e`.
unfoldable pub capture_parts : List Ast → Captures → Option Captures
capture_parts [] c = none
capture_parts (n ∷ []) c = none
capture_parts (n ∷ sign ∷ l) c =
    if contents sign == "&"
    then some (c.0, put_capture (contents n) n c.1)
    else (elim l [ [] ↦ none | e ∷ _ ↦ some (c.0, put_capture (contents n) e c.1) ])

-- A capture of one part; the warning about a second default is left out.
unfoldable pub capture_word : Ast → Captures → Captures
capture_word a c =
    if contents a == "="
    then (all_by_value, c.1)
    else if contents a == "&"
    then (all_by_reference, c.1)
    else (c.0, put_capture (contents a) a c.1)

unfoldable pub capture : Ast → Captures → Option Captures
capture a c = elim (children a) [ [] ↦ some (capture_word a c) | x ∷ l ↦ capture_parts (x ∷ l) c ]

module _ (T : StringRef) where
  -- The loop over the captures, which are the children `idx`, `idx + 2`, … in the list; the answer is
  -- the index behind it with the captures.
  unfoldable pub captures_from : ℕ → List Ast → Captures → Option (ℕ × Captures)
  captures_from idx [] c = some (idx, c)
  captures_from idx (a ∷ []) c =
      if get_outermost_ast_tag T a == "capture"
      then (Metadata.◌>>=◌ (capture a c) λ d. some (idx + 2, d))
      else some (suc idx, c)
  captures_from idx (a ∷ sep ∷ l) c =
      if get_outermost_ast_tag T a == "capture"
      then (Metadata.◌>>=◌ (capture a c) λ d. captures_from (idx + 2) l d)
      else some (suc idx, c)

  unfoldable pub capture_list : Ast → Option (ℕ × Captures)
  capture_list a = Metadata.◌>>=◌ (child a 1) λ x.
      if contents x == "["
      then captures_from 2 (drop_first (drop_first (children a))) (no_default, [])
      else some (2, (no_default, []))

  -- The constructor of `Closure`
  unfoldable pub closure_of_ast : Ast → Option Closure
  closure_of_ast a = Metadata.◌>>=◌ (capture_list a) λ c.
      Metadata.◌>>=◌ (tagged_child T "args" a c.0) λ p. Metadata.◌>>=◌ (optional_args T p.0) λ args.
        Metadata.◌>>=◌ (tagged_child T "typelist" a (suc p.1)) λ r.
          Metadata.◌>>=◌ (child a r.1) λ b. some (record {
            row = row a;
            args = args;
            explicit_captures = c.1.1;
            default_capture_mode = c.1.0;
            returns = r.0;
            body = b;
          })
