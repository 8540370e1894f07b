-- ===== src/Ast/Tags.antt =====
-- What the tag readers of ast/ast.hpp find in the tags that the parser writes: a rule's name behind
-- the names of the rules that led to it, and `>` or `regex` behind it.
use Prim.Native.String.{len, count}
use native.Mathlib.Nat.{mod-eq_of_lt}
use text.Mathlib.TextPositions.{len-append}
use text.Mathlib.TextLemmas.{append_assoc, append_inj, length-append}
use whack.Prelude.{
  ℕ, ◌+◌, ◌-◌, ◌%◌, ◌^◌, ◌<◌, String, ◌<>◌, ◌≡◌, refl, ◌∙◌, sym, ap, ◌≢◌, ◌⊎◌, inl, inr, false,
  arith, eqb, eq_iff,
}
use whack.StringRef.{StringRef, has_bar}
use whack.Ast.{Ast, tag, after_last_bar, get_innermost_ast_tag}

-- Two texts with different ends of the same length differ.
append-ne : (s r t u : String) → count t ≡ count u → t ≢ u → s <> t ≢ r <> u
append-ne s r t u same differ e =
    differ (append_inj e (omega (arith, ap count e, length-append s t, length-append r u, same))).1

-- The two ways in which the parser ends the tag of a rule.
abbrev pub IsEnding : String → Type 0
IsEnding e = (e ≡ "|>") ⊎ (e ≡ "|regex")

module _ (T : StringRef) where
  open T use {
    take_until_bar, consume_back, find_last_bar, drop_front, take_until_bar-append,
    consume_back-append, consume_back-other, find_last_bar-append, find_last_bar-absent,
    drop_front-append, drop_front-zero,
  }

  bar-ne-regex : (t r : String) → t <> "|" ≢ r <> "regex"
  bar-ne-regex t r e =
      append-ne t (r <> "rege") "|" "x" refl (λ p. cc ((eq_iff "|" "x").1 p))
        (e ∙ sym (append_assoc r "rege" "x"))

  regex-ne-angle : (t r : String) → t <> "|regex" ≢ r <> ">"
  regex-ne-angle t r e =
      append-ne (t <> "|rege") r "x" ">" refl (λ p. cc ((eq_iff "x" ">").1 p))
        (append_assoc t "|rege" "x" ∙ e)

  consume_ending :
      (t e : String)
      → IsEnding e
      → consume_back (consume_back (consume_back (t <> e) ">") "regex") "|" ≡ t
  consume_ending t e (inl p) =
      rw
        (
          p,
          ← append_assoc t "|" ">",
          consume_back-append (t <> "|") ">",
          consume_back-other (t <> "|") "regex" (bar-ne-regex t),
        )
        (consume_back-append t "|")
  consume_ending t e (inr p) =
      rw
        (
          p,
          consume_back-other (t <> "|regex") ">" (regex-ne-angle t),
          ← append_assoc t "|" "regex",
          consume_back-append (t <> "|") "regex",
        )
        (consume_back-append t "|")

  after_last_bar-absent : (rule : String) → has_bar rule ≡ false → after_last_bar T rule ≡ rule
  unfolding after_last_bar
  after_last_bar-absent rule h = rw (find_last_bar-absent rule h) (drop_front-zero rule)

  after_last_bar-append :
      (p rule : String)
      → has_bar rule ≡ false
      → 0 < len p
      → len p < 2 ^ 64 - 1
      → after_last_bar T (p <> ("|" <> rule)) ≡ rule
  unfolding after_last_bar
  after_last_bar-append p rule h pos small =
      rw
        (
          find_last_bar-append p rule h,
          eqb_pos (len p) pos,
          wrap (len p) small,
          ← append_assoc p "|" rule,
          ← len-append p "|",
        )
        (drop_front-append (p <> "|") rule)
    where
      eqb_pos : (n : ℕ) → 0 < n → eqb n 0 ≡ false
      eqb_pos n q = ground arith

      wrap : (n : ℕ) → n < 2 ^ 64 - 1 → (n + 1) % 2 ^ 64 ≡ n + len "|"
      wrap n q = mod-eq_of_lt (omega arith)

  -- The innermost tag of a node whose tag ends in the name of a rule, alone or behind the names of
  -- other rules, is the name of that rule; the names hold no bar and the tag is shorter than 2 ^ 64.
  pub get_innermost_ast_tag-rule :
      (a : Ast) (rule e : String)
      → IsEnding e
      → has_bar rule ≡ false
      → (tag a ≡ rule <> e)
        ⊎ ((p : String) × (0 < len p) × (len p < 2 ^ 64 - 1) × (tag a ≡ (p <> ("|" <> rule)) <> e))
      → get_innermost_ast_tag T a ≡ rule
  unfolding get_innermost_ast_tag
  get_innermost_ast_tag-rule a rule e ending h (inl q) =
      rw (q, consume_ending rule e ending) (after_last_bar-absent rule h)
  get_innermost_ast_tag-rule a rule e ending h (inr (p, pos, small, q)) =
      rw (q, consume_ending (p <> ("|" <> rule)) e ending)
        (after_last_bar-append p rule h pos small)
